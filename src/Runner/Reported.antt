-- ===== src/Runner/Reported.antt =====
-- internal/runner/lifecycle.go: where the path proof comes from that `Execute` reports.
use sing_box_inbound_bench.Base.{true, Option, none, some, String, subst, sym, if-both}
use sing_box_inbound_bench.Protocol.Trace.{PathProof, no_proof, PhaseName}
use sing_box_inbound_bench.Runner.{
  Context, Call, Observation, WarmupEvidence, Job, Run, Outcome, ok, fail, M, ◌>>=◌, ◌>>◌, modify,
  continue, or_fail, run_phase, phase, set_path_proof, judge_proof, prove_and_measure,
  body_after_start, body, stop_attempted, set_artifacts, cleanup_attempted, set_restore_verified,
  verify_restored, finish, deferred, initial, refuse_or_run, before_defer, execute, return_err,
  cleanup_context,
}
use sing_box_inbound_bench.Runner.Transaction.Steps.{run_phase-proof}

module _ {W : Type 0} (job : Job W) (P : PathProof → Type 0) where
  open job use {selected}

  abbrev Keeps : {A : Type 0} → M W A → Type 0
  Keeps m = (r : Run W) → P r.report.path_proof → P (m r).1.report.path_proof

  bind-Keeps :
      {A B : Type 0} (m : M W A) (f : A → M W B)
      → Keeps m
      → ((a : A) → Keeps (f a))
      → Keeps (m >>= f)
  bind-Keeps {A} {B} m f km kf r p = continued (m r) (km r p)
    where
      continued :
          (x : Outcome A × Run W) → P x.1.report.path_proof → P (continue f x).1.report.path_proof
      continued (ok a, s) q = kf a s q
      continued (fail e, s) q = q

  or_fail-Keeps :
      {A : Type 0} (prefix : String) (result : A × Option String) → Keeps (or_fail prefix result)
  or_fail-Keeps prefix (a, none) r p = p
  or_fail-Keeps prefix (a, some e) r p = p

  run_phase-Keeps :
      {A : Type 0} (ctx : Context) (name : PhaseName) (function : Call W A) (r : Run W)
      → P r.report.path_proof
      → P (run_phase job ctx name function r).1.report.path_proof
  run_phase-Keeps ctx name function r p = subst P (sym (run_phase-proof job ctx name function r)) p

  phase-Keeps :
      {A : Type 0} (ctx : Context) (name : PhaseName) (prefix : String) (function : Call W A)
      → Keeps (phase job ctx name prefix function)
  unfolding phase
  phase-Keeps ctx name prefix function r p =
      or_fail-Keeps prefix (run_phase job ctx name function r).0 _
        (run_phase-Keeps ctx name function r p)

  module _
      (proves : (before after : Observation) (warmup : WarmupEvidence) (ctx : Context) (w : W)
        → P (selected.prove_path before after warmup ctx w).0) where
    judge_proof-Keeps :
        (ctx : Context) (proof : PathProof) (e : Option String) (r : Run W)
        → P proof
        → P (judge_proof job ctx ((proof, e), r)).1.report.path_proof
    unfolding judge_proof set_path_proof
    judge_proof-Keeps ctx proof (some e) r p = p
    judge_proof-Keeps ctx proof none r p =
        if-both (λ (x : Outcome (Unit {0}) × Run W). P x.1.report.path_proof) proof.valid
          (λ _. phase-Keeps ctx PhaseName.measure "measure" (job.measure proof) _ p) (λ _. p)

    prove_and_measure-Keeps :
        (ctx : Context) (before after : Observation) (evidence : WarmupEvidence)
        → Keeps (prove_and_measure job ctx before after evidence)
    unfolding prove_and_measure run_phase
    prove_and_measure-Keeps ctx before after evidence r p =
        judge_proof-Keeps ctx _ _ _ (proves before after evidence ctx _)

    -- The tails of the body.
    abbrev warmed_up : Context → Observation → WarmupEvidence → M W (Unit {0})
    warmed_up ctx before evidence =
        phase job ctx PhaseName.observe_path_after "observe path after warmup" selected.observe_path
        >>= λ after. prove_and_measure job ctx before after evidence

    abbrev observed : Context → Observation → M W (Unit {0})
    observed ctx before = phase job ctx PhaseName.warmup "warmup" job.warmup >>= λ evidence.
        warmed_up ctx before evidence

    abbrev setting_up : Context → M W (Unit {0})
    setting_up ctx = phase job ctx PhaseName.setup "setup" selected.setup

    abbrev starting : Context → M W (Unit {0})
    starting ctx = phase job ctx PhaseName.start "start" selected.start

    abbrev mark_setup : M W (Unit {0})
    mark_setup = modify (λ r. record r { setup_attempted = true })

    abbrev mark_start : M W (Unit {0})
    mark_start = modify (λ r. record r { start_attempted = true })

    body_after_start-Keeps : (ctx : Context) → Keeps (body_after_start job ctx)
    unfolding body_after_start
    body_after_start-Keeps ctx =
        bind-Keeps _ (observed ctx)
          (phase-Keeps ctx PhaseName.observe_path_before "observe path before warmup"
            selected.observe_path)
          (λ before.
            bind-Keeps _ (warmed_up ctx before)
              (phase-Keeps ctx PhaseName.warmup "warmup" job.warmup)
              (λ evidence.
                bind-Keeps _ (λ after. prove_and_measure job ctx before after evidence)
                  (phase-Keeps ctx PhaseName.observe_path_after "observe path after warmup"
                    selected.observe_path)
                  (λ after. prove_and_measure-Keeps ctx before after evidence)))

    body-Keeps : (ctx : Context) → Keeps (body job ctx)
    unfolding body
    body-Keeps ctx =
        bind-Keeps mark_setup
          (λ _. setting_up ctx >> (mark_start >> (starting ctx >> body_after_start job ctx)))
          (λ r p. p)
          (λ _.
            bind-Keeps (setting_up ctx)
              (λ _. mark_start >> (starting ctx >> body_after_start job ctx))
              (phase-Keeps ctx PhaseName.setup "setup" selected.setup)
              (λ _.
                bind-Keeps mark_start (λ _. starting ctx >> body_after_start job ctx) (λ r p. p)
                  (λ _.
                    bind-Keeps (starting ctx) (λ _. body_after_start job ctx)
                      (phase-Keeps ctx PhaseName.start "start" selected.start)
                      (λ _. body_after_start-Keeps ctx))))

    abbrev Holds : Option String × Run W → Type 0
    Holds x = P x.1.report.path_proof

    stop_attempted-Keeps : (x : Option String × Run W) → Holds x → Holds (stop_attempted job x)
    unfolding stop_attempted
    stop_attempted-Keeps (err, r) p =
        if-both Holds r.start_attempted (λ _. run_phase-Keeps _ PhaseName.stop selected.stop r p)
          (λ _. p)

    cleanup_attempted-Keeps :
        (x : Option String × Run W) → Holds x → Holds (cleanup_attempted job x)
    unfolding cleanup_attempted set_artifacts
    cleanup_attempted-Keeps (err, r) p =
        if-both Holds r.setup_attempted
          (λ _.
            run_phase-Keeps _ PhaseName.cleanup selected.cleanup _
              (run_phase-Keeps _ PhaseName.collect_artifacts selected.artifacts r p))
          (λ _. p)

    verify_restored-Keeps : (x : Option String × Run W) → Holds x → Holds (verify_restored job x)
    unfolding verify_restored set_restore_verified
    verify_restored-Keeps (err, r) p =
        let q =
          run_phase-Keeps (cleanup_context job) PhaseName.verify_restore selected.verify_restore r
            p in
        if-both Holds _ (λ _. q) (λ _. q)

    deferred-Keeps :
        (o : Outcome (Unit {0})) (r : Run W)
        → P r.report.path_proof
        → P (deferred job (o, r)).1.report.path_proof
    unfolding deferred finish
    deferred-Keeps o r p =
        verify_restored-Keeps _
          (cleanup_attempted-Keeps _ (stop_attempted-Keeps (return_err job o, r) p))

    before_defer-Keeps : (ctx : Context) → Keeps (before_defer job ctx)
    unfolding before_defer
    before_defer-Keeps ctx =
        bind-Keeps _ (λ _. phase job ctx PhaseName.snapshot "snapshot" selected.snapshot)
          (phase-Keeps ctx PhaseName.preflight "preflight" selected.preflight)
          (λ _. phase-Keeps ctx PhaseName.snapshot "snapshot" selected.snapshot)

    refuse_or_run-Keeps :
        (ctx : Context) (x : Outcome (Unit {0}) × Run W)
        → P x.1.report.path_proof
        → P (refuse_or_run job ctx x).1.report.path_proof
    unfolding refuse_or_run finish
    refuse_or_run-Keeps ctx (ok u, r) p =
        deferred-Keeps (body job ctx r).0 (body job ctx r).1 (body-Keeps ctx r p)
    refuse_or_run-Keeps ctx (fail e, r) p = p

    -- The proof that is reported is none or one that the subject gave, so it has each property that
    -- these have.
    pub execute-reported :
        (ctx : Context) (w : W) → P no_proof → P (execute job ctx w).1.report.path_proof
    unfolding execute initial
    execute-reported ctx w p =
        refuse_or_run-Keeps ctx (before_defer job ctx (initial job w))
          (before_defer-Keeps ctx (initial job w) p)
