-- ===== src/Tcp/Short/Total.antt =====
-- runShort of internal/workload/tcp/tcp.go returns, and every attempt of it is counted.
use sing_box_inbound_bench.Base.{ℕ, true, false, Option, some, ◌≡◌, ◌⊎◌}
use sing_box_inbound_bench.Wire.{Error}
use sing_box_inbound_bench.Workers
use sing_box_inbound_bench.Tcp.Short.{ShortConfig, Shorts}
use sing_box_inbound_bench.Tcp.Short.Accounted.{Accounted, Ended}

module _ (config : ShortConfig) where
  Returns : Option (Option Error × Shorts) → Type 0
  Returns r = (e : Option Error) × (s : Shorts) × (r ≡ some (e, s)) × Ended config e s

  abbrev Over : ℕ → Type 0
  Over j = (Workers.goes_on config.requests j ≡ false) ⊎ (config.stop j ≡ true)
