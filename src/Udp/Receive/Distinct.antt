-- ===== src/Udp/Receive/Distinct.antt =====
-- internal/workload/udp/udp.go: the receiver of the PPS mode counts each packet of its flow at most
-- once.
use sing_box_inbound_bench.Base.{
  ℕ, suc, ◌+◌, ◌≤◌, List, [], ◌∷◌, Bool, true, false, length, replicate, u64, ◌≡◌,
}
use sing_box_inbound_bench.Udp.Echo.{no_counters}
use sing_box_inbound_bench.Udp.Receive.{PpsFlow, Round, returns, goes_on}

-- The number of sequences that are marked as seen.
abbrev pub count_seen : List Bool → ℕ
count_seen [] = 0
count_seen (true ∷ bs) = suc (count_seen bs)
count_seen (false ∷ bs) = count_seen bs

-- The bookkeeping of a receiver. Sequence zero is never marked, and the table has a place for each
-- sequence up to `expected`.
pub record Distinct (expected : ℕ) (seen : List Bool) (received : ℕ) (latencies : List ℕ)
    (operations : ℕ) : Type 0 where
  pub others : List Bool
  pub seen_eq : seen ≡ false ∷ others
  pub sized : length others ≡ expected
  pub distinct : received ≤ count_seen others
  pub timed : length latencies ≡ received
  pub counted : operations ≡ u64 received

abbrev pub IsDistinct : ℕ → PpsFlow → Type 0
IsDistinct expected s = Distinct expected s.seen s.received s.latencies s.counters.operations

module _ (run_hash flow expected : ℕ) where
  Keeps : Round → Type 0
  Keeps (returns e s) = IsDistinct expected s
  Keeps (goes_on s) = IsDistinct expected s

  abbrev pub fresh_flow : PpsFlow
  fresh_flow = record {
    seen = replicate (expected + 1) false;
    latencies = [];
    previous = 0;
    received = 0;
    counters = no_counters;
  }
