-- ===== src/Workers/Shares/Tests.antt =====
-- Eleven requests for five workers, and two for five.
use sing_box_inbound_bench.Base.{ℕ, ◌+◌, ◌≤◌, ◌≡◌, arith, true}
use sing_box_inbound_bench.Workers
use sing_box_inbound_bench.Workers.Shares.{sum_below, shares_fair, starved-goes_on}

shares_fair_example :
    (sum_below (Workers.per_worker_requests 11 5) 5 ≡ 11)
    × ((i j : ℕ)
        → i ≤ j
        → (Workers.per_worker_requests 11 5 j ≤ Workers.per_worker_requests 11 5 i)
          × (Workers.per_worker_requests 11 5 i ≤ Workers.per_worker_requests 11 5 j + 1))
shares_fair_example = shares_fair 11 5 (omega arith)

starved-goes_on_example : Workers.goes_on (Workers.per_worker_requests 2 5 3) 1000 ≡ true
starved-goes_on_example = starved-goes_on 2 5 3 (omega arith) (omega arith) (omega arith) 1000
