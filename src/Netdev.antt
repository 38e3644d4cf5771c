-- ===== src/Netdev.antt =====
-- internal/netdev/stats.go: the counters of an interface and their differences. A difference that is
-- refused is `none`.
pub mod Differences
mod Tests
use sing_box_inbound_bench.Base.{
  ℕ, ◌-◌, List, [], ◌∷◌, Bool, ltb, if◌then◌else◌, Option, none, some,
}

pub record Stats : Type 0 where
  pub rx_bytes : ℕ
  pub rx_packets : ℕ
  pub rx_errors : ℕ
  pub rx_dropped : ℕ
  pub tx_bytes : ℕ
  pub tx_packets : ℕ
  pub tx_errors : ℕ
  pub tx_dropped : ℕ

abbrev pub values : Stats → List ℕ
values s =
    s.rx_bytes ∷ s.rx_packets ∷ s.rx_errors ∷ s.rx_dropped ∷ s.tx_bytes ∷ s.tx_packets ∷ s.tx_errors
    ∷ s.tx_dropped ∷ []

abbrev pub prepend : ℕ → Option (List ℕ) → Option (List ℕ)
prepend n none = none
prepend n (some ns) = some (n ∷ ns)

-- The loop over the counters, before and after, which are as many.
unfoldable pub subtract_all : List ℕ → List ℕ → Option (List ℕ)
subtract_all (b ∷ bs) (a ∷ cs) =
    let rest = subtract_all bs cs in if ltb a b then none else prepend (a - b) rest
subtract_all [] cs = some []
subtract_all (b ∷ bs) [] = none

-- The counters by their order, of which there are eight.
abbrev pub from_values : Option (List ℕ) → Option Stats
from_values (some (a ∷ b ∷ c ∷ d ∷ e ∷ f ∷ g ∷ h ∷ rest)) = some (record {
  rx_bytes = a;
  rx_packets = b;
  rx_errors = c;
  rx_dropped = d;
  tx_bytes = e;
  tx_packets = f;
  tx_errors = g;
  tx_dropped = h;
})
from_values r = none

unfoldable pub delta : Stats → Stats → Option Stats
delta before after = from_values (subtract_all (values before) (values after))
