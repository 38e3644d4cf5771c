-- ===== src/Runner/Transaction.antt =====
-- Every run of `Execute` of internal/runner/lifecycle.go is a transaction.
pub mod Steps
pub mod Spec
mod Body
mod Deferred
use mathlib.Core.List.{append_assoc}
use sing_box_inbound_bench.Base.{
  Bool, false, true, ◌&&◌, List, [], ◌∷◌, ◌++◌, Option, none, some, String, ◌≡◌, refl, ap, subst,
  sym, ◌∙◌, and_regroup,
}
use sing_box_inbound_bench.Protocol.Trace.{PhaseName}
use sing_box_inbound_bench.Runner.{
  Context, Job, Run, Outcome, is_nil, continue, or_fail, phase, body, stop_attempted, finish,
  deferred, initial, refuse_or_run, before_defer, execute, return_err,
}
use Steps.{Step, outcomes, Logged, run_phase-Logged}
use Spec.{
  Ran, failed, next, main_names, restore_steps, opening, opened, Transaction, refused, setup_failed,
  started,
}
use Body.{BodyDone, no_setup, set_up, body-BodyDone}
use Deferred.{
  stop_attempted-Adds, restore-Restored, is_nil-return_err, deferred_unstarted, deferred_started,
}

module _ {W : Type 0} (job : Job W) where
  Logged-opening :
      {r₀ r₁ r₂ : Run W} {b : Bool}
      → outcomes r₀ ≡ []
      → Logged r₀ r₁ ((PhaseName.preflight, true) ∷ [])
      → Logged r₁ r₂ ((PhaseName.snapshot, b) ∷ [])
      → outcomes r₂ ≡ (PhaseName.preflight, true) ∷ (PhaseName.snapshot, b) ∷ []
  Logged-opening {b = b} os₀ l m =
      m.logged
      ∙ ap (λ os. os ++ ((PhaseName.snapshot, b) ∷ []))
          (l.logged ∙ ap (λ os. os ++ ((PhaseName.preflight, true) ∷ [])) os₀)

  -- The end of a run whose body began behind the two opening phases.
  body-Transaction :
      (ctx : Context) (r : Run W)
      → outcomes r ≡ opened []
      → r.report.trace.restore_verified ≡ false
      → r.start_attempted ≡ false
      → (result : Outcome (Unit {0}) × Run W) → BodyDone job r result
      → let (err, s) = deferred job result in
        Transaction s.report.path_proof.valid
          (outcomes s)
          s.report.trace.restore_verified
          (is_nil err)
  body-Transaction ctx r os unverified unstarted (o, t) (no_setup l failed_setup) =
      let e = return_err job o in
      let d = restore-Restored job e t l.setup_kept (l.restored_kept ∙ unverified) in
      rw (deferred_unstarted job o t (l.start_kept ∙ unstarted)) (
        setup_failed d.a d.b d.c
          (d.logged
            ∙ ap (λ xs. xs ++ restore_steps d.a d.b d.c)
                (l.logged ∙ ap (λ xs. xs ++ ((PhaseName.setup, false) ∷ [])) os))
          d.restored
          (d.clean ∙ ap (λ x. x && (d.a && d.b && d.c)) (is_nil-return_err job o ∙ failed_setup)))
  body-Transaction ctx r os unverified unstarted (o, t) (set_up s l body) =
      let e = return_err job o in
      let started_here : t.start_attempted ≡ true = body.log.start_kept in
      let (stopped, p) = stop_attempted-Adds job e t started_here in
      let q : Option String × Run W = stop_attempted job (e, t) in
      let d =
        restore-Restored job q.0 q.1 (p.setup_kept ∙ body.log.setup_kept ∙ l.setup_kept)
          (p.restored_kept ∙ body.log.restored_kept ∙ l.restored_kept ∙ unverified) in
      let same_proof = d.proof_kept ∙ p.proof_kept in
      let rest : List Step = restore_steps d.a d.b d.c in
      let logged_body =
        body.log.logged
        ∙ ap (λ ys. ys ++ body.xs)
            (l.logged ∙ ap (λ ys. ys ++ ((PhaseName.setup, true) ∷ [])) os) in
      rw (deferred_started job o t) (
        started body.xs body.done stopped d.a d.b d.c
          (subst (λ v. Ran (main_names v) body.xs body.done) (sym same_proof) body.ran)
          (d.logged
            ∙ ap (λ ys. ys ++ rest)
                (p.logged ∙ ap (λ ys. ys ++ ((PhaseName.stop, stopped) ∷ [])) logged_body)
            ∙ ap (λ ys. opened ((PhaseName.setup, true) ∷ ys))
                (append_assoc body.xs ((PhaseName.stop, stopped) ∷ []) rest))
          d.restored
          (d.clean
            ∙ ap (λ x. x && (d.a && d.b && d.c))
                (p.clean
                  ∙ ap (λ x. x && stopped)
                      (is_nil-return_err job o
                        ∙ body.clean
                        ∙ ap (λ v. body.done && v) (sym same_proof)))
            ∙ and_regroup _ d.a d.b d.c))

  -- What `Execute` makes of the second opening phase.
  judge_snapshot :
      (ctx : Context) (r₀ r₁ : Run W)
      → outcomes r₀ ≡ []
      → r₀.report.trace.restore_verified ≡ false
      → r₀.start_attempted ≡ false
      → Logged r₀ r₁ ((PhaseName.preflight, true) ∷ [])
      → (p : (Unit {0} × Option String) × Run W)
      → Logged r₁ p.1 ((PhaseName.snapshot, is_nil p.0.1) ∷ [])
      → let (err, r) = refuse_or_run job ctx (or_fail "snapshot" p.0 p.1) in
        Transaction r.report.path_proof.valid
          (outcomes r)
          r.report.trace.restore_verified
          (is_nil err)
  unfolding refuse_or_run finish
  judge_snapshot ctx r₀ r₁ os₀ unverified unstarted l ((a, some e), s) m =
      refused (subst (λ os. Ran opening os false) (sym (Logged-opening os₀ l m)) (next failed))
        (m.restored_kept ∙ l.restored_kept ∙ unverified) refl
  judge_snapshot ctx r₀ r₁ os₀ unverified unstarted l ((a, none), s) m =
      body-Transaction ctx s (Logged-opening os₀ l m)
        (m.restored_kept ∙ l.restored_kept ∙ unverified) (m.start_kept ∙ l.start_kept ∙ unstarted)
        (body job ctx s) (body-BodyDone job ctx s)

  judge_preflight :
      (ctx : Context) (r₀ : Run W)
      → outcomes r₀ ≡ []
      → r₀.report.trace.restore_verified ≡ false
      → r₀.start_attempted ≡ false
      → (p : (Unit {0} × Option String) × Run W)
      → Logged r₀ p.1 ((PhaseName.preflight, is_nil p.0.1) ∷ [])
      → let opening : Outcome (Unit {0}) × Run W =
          continue
            (λ (_ : Unit {0}). phase job ctx PhaseName.snapshot "snapshot" job.selected.snapshot)
            (or_fail "preflight" p.0 p.1) in
        let (err, r) = refuse_or_run job ctx opening in
        Transaction r.report.path_proof.valid
          (outcomes r)
          r.report.trace.restore_verified
          (is_nil err)
  unfolding refuse_or_run finish phase
  judge_preflight ctx r₀ os₀ unverified unstarted ((a, some e), s) l =
      refused
        (subst (λ os. Ran opening os false)
          (sym (l.logged ∙ ap (λ os. os ++ ((PhaseName.preflight, false) ∷ [])) os₀)) failed)
        (l.restored_kept ∙ unverified) refl
  judge_preflight ctx r₀ os₀ unverified unstarted ((a, none), s) l =
      judge_snapshot ctx r₀ s os₀ unverified unstarted l _
        (run_phase-Logged job ctx PhaseName.snapshot job.selected.snapshot s)

  pub execute-Transaction :
      (ctx : Context) (w : W)
      → let (err, r) = execute job ctx w in
        Transaction r.report.path_proof.valid
          (outcomes r)
          r.report.trace.restore_verified
          (is_nil err)
  unfolding execute before_defer phase initial
  execute-Transaction ctx w =
      judge_preflight ctx (initial job w) refl refl refl _
        (run_phase-Logged job ctx PhaseName.preflight job.selected.preflight (initial job w))
