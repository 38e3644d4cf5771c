-- ===== src/Runner/Tests.antt =====
-- Runs of internal/runner/lifecycle.go at concrete subjects, whose world is a clock.
use sing_box_inbound_bench.Base.{ℕ, suc, true, false, [], ◌∷◌, none, some, ◌≡◌, refl, inl, inr}
use sing_box_inbound_bench.Protocol.Trace.{PathProof, no_proof, PhaseName}
use sing_box_inbound_bench.Runner.{
  Call, Context, Job, Observation, Subject, WarmupEvidence, execute, refuse_or_run, before_defer,
  phase, deferred, finish, verify_restored, set_restore_verified, cleanup_attempted, stop_attempted,
  body, body_after_start, prove_and_measure, judge_proof, set_path_proof, set_artifacts, initial,
}
use sing_box_inbound_bench.Runner.Transaction.Steps.{outcomes}
use sing_box_inbound_bench.Runner.Transaction.Spec.{Transaction}
use sing_box_inbound_bench.Runner.Clean.{IsClean, execute-IsClean, execute_measured}

abbrev quiet : {A : Type 0} → A → Call ℕ A
quiet a ctx w = (a, none, w)

abbrev broken : {A : Type 0} → A → Call ℕ A
broken a ctx w = (a, some "broken", w)

abbrev observation : Observation
observation = record { captured_at = 0; content = "" }

abbrev proof : PathProof
proof = record no_proof { valid = true }

abbrev healthy : Subject ℕ
healthy = record {
  preflight = quiet tt;
  snapshot = quiet tt;
  setup = quiet tt;
  start = quiet tt;
  observe_path = quiet observation;
  prove_path = λ before after evidence. quiet proof;
  stop = quiet tt;
  artifacts = quiet [];
  cleanup = quiet tt;
  verify_restore = quiet tt;
}

abbrev evidence : WarmupEvidence
evidence = record { valid = true; token = ""; details = "" }

abbrev healthy_job : Job ℕ
healthy_job = record {
  selected = healthy;
  warmup = quiet evidence;
  measure = λ p. quiet tt;
  now = λ w. (w, suc w);
}

abbrev broken_start : Job ℕ
broken_start = record healthy_job { selected = record healthy { start = broken tt } }

abbrev context : Context
context = record { cancellable = true; timeout = none }

-- A subject that does not start is stopped, cleaned up and verified all the same.
broken_start_runs :
    outcomes (execute broken_start context 0).1
    ≡ (PhaseName.preflight, true)
      ∷ (PhaseName.snapshot, true)
      ∷ (PhaseName.setup, true)
      ∷ (PhaseName.start, false)
      ∷ (PhaseName.stop, true)
      ∷ (PhaseName.collect_artifacts, true)
      ∷ (PhaseName.cleanup, true)
      ∷ (PhaseName.verify_restore, true)
      ∷ []
unfolding execute refuse_or_run before_defer phase deferred finish verify_restored
    set_restore_verified cleanup_attempted stop_attempted body body_after_start prove_and_measure
    judge_proof set_path_proof set_artifacts initial
broken_start_runs = refl

execute-IsClean_example :
    let r = (execute healthy_job context 0).1 in
    IsClean r.report.path_proof.valid (outcomes r) r.report.trace.restore_verified
unfolding execute refuse_or_run before_defer phase deferred finish verify_restored
    set_restore_verified cleanup_attempted stop_attempted body body_after_start prove_and_measure
    judge_proof set_path_proof set_artifacts initial
execute-IsClean_example = execute-IsClean healthy_job context 0 refl

execute_measured_example : (execute healthy_job context 0).1.report.path_proof.valid ≡ true
unfolding execute refuse_or_run before_defer phase deferred finish verify_restored
    set_restore_verified cleanup_attempted stop_attempted body body_after_start prove_and_measure
    judge_proof set_path_proof set_artifacts initial
execute_measured_example =
    execute_measured healthy_job context 0
      (inr (inr (inr (inr (inr (inr (inr (inr (inl refl)))))))))
