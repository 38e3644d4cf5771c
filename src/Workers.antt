-- ===== src/Workers.antt =====
-- perWorkerRequests, which internal/workload/tcp/tcp.go and internal/workload/udp/udp.go both have,
-- and the condition of the loops that it bounds.
pub mod Shares
use sing_box_inbound_bench.Base.{ℕ, ◌+◌, ◌/◌, ◌%◌, Bool, ◌||◌, ◌==◌, if◌then◌else◌, ltb}

unfoldable pub per_worker_requests : ℕ → ℕ → ℕ → ℕ
per_worker_requests total workers worker =
    if total == 0
    then 0
    else if ltb worker (total % workers)
    then total / workers + 1
    else total / workers

-- `requests == 0 || completed < requests`
abbrev pub goes_on : ℕ → ℕ → Bool
goes_on requests completed = requests == 0 || ltb completed requests
