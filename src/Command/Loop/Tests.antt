-- ===== src/Command/Loop/Tests.antt =====
-- The loop of cmd/inbound-bench/main.go in a world that counts its jobs, where the second job was run
-- before, and a probe that is answered at its third attempt.
use sing_box_inbound_bench.Base.{
  ℕ, suc, ◌==◌, ◌≡◌, refl, Bool, true, if◌then◌else◌, String, str_eq, List, [], ◌∷◌, none,
}
use sing_box_inbound_bench.Protocol.Matrix.Samples.{one_case, raw_control}
use sing_box_inbound_bench.Udp.Echo.{no_counters}
use sing_box_inbound_bench.Command.Jobs.{build_matrix_state}
use sing_box_inbound_bench.Command.Jobs.Samples.{insertion_sort}
use sing_box_inbound_bench.Command.Recovery.{
  Machine, run_matrix_recovery_probe, attempt_rounds, attempt_round, judge_attempt, healthy,
  wait_context,
}
use sing_box_inbound_bench.Command.Recovery.Probed.{Probed}
use sing_box_inbound_bench.Command.Loop.{stored, absent, Lab, run_matrix_jobs}
use sing_box_inbound_bench.Command.Loop.Progress.{Progress}
use sing_box_inbound_bench.Command.Loop.Built.{run_matrix_jobs-built}

abbrev machine : Machine ℕ
machine = record {
  now = λ w. (w, w);
  context_err = λ w. none;
  sleep = λ d w. (none, suc w);
  run_worker = λ timeout directory request w.
      ((if w == 2 then record no_counters { operations = 8 } else no_counters, none), w);
}

abbrev last_of : List String → String
last_of [] = ""
last_of (x ∷ []) = x
last_of (x ∷ y ∷ ys) = last_of (y ∷ ys)

abbrev lab : Lab ℕ
lab = record {
  machine = machine;
  decode_repetition = λ result w. if str_eq result "rep-000.json" then stored true else absent;
  execute_repetition = λ config index warmup result w. ((true, none), suc w);
  write_state = λ state w. (none, w);
  summarize_matrix = λ matrix w. (none, w);
}

third_attempt : (run_matrix_recovery_probe machine raw_control 0).0.0.attempts ≡ 3
unfolding run_matrix_recovery_probe attempt_rounds attempt_round judge_attempt healthy wait_context
third_attempt = refl

run_matrix_jobs-built_example :
    let state = build_matrix_state last_of insertion_sort one_case in
    let e = run_matrix_jobs lab one_case state 0 in
    (to_end : Bool) × Progress lab one_case state.jobs e.jobs to_end
    × (e.error ≡ none → to_end ≡ true)
run_matrix_jobs-built_example = run_matrix_jobs-built last_of insertion_sort lab one_case 0
