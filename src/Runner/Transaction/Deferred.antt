-- ===== src/Runner/Transaction/Deferred.antt =====
-- The deferred function of `Execute`: internal/runner/lifecycle.go, lines 42 to 63.
use mathlib.Core.List.{append_assoc}
use sing_box_inbound_bench.Base.{
  Bool, false, true, ◌&&◌, List, [], ◌∷◌, ◌++◌, Option, none, some, String, ◌≡◌, refl, ap, subst,
  sym, ◌∙◌, if◌then◌else◌, if-true, if-false, and_assoc, and-true,
}
use sing_box_inbound_bench.Protocol.Trace.{PhaseName}
use sing_box_inbound_bench.Runner.{
  Context, Artifact, Job, Run, Outcome, ok, fail, is_nil, join, wrap, run_phase, stop_attempted,
  cleanup_attempted, verify_restored, finish, deferred, set_artifacts, set_restore_verified,
  return_err, cleanup_context,
}
use sing_box_inbound_bench.Runner.Transaction.Steps.{
  Step, outcomes, Logged, run_phase-Logged, run_phase-proof,
}
use sing_box_inbound_bench.Runner.Transaction.Spec.{restore_steps}
use sing_box_inbound_bench.Runner.Transaction.Body.{is_ok}

module _ {W : Type 0} (job : Job W) where
  is_nil-join :
      (a : Option String) (prefix : String) (b : Option String)
      → is_nil (join a (wrap prefix b)) ≡ (is_nil a && is_nil b)
  is_nil-join none prefix none = refl
  is_nil-join none prefix (some b) = refl
  is_nil-join (some a) prefix none = refl
  is_nil-join (some a) prefix (some b) = refl

  -- A part of the deferred function: it adds the steps `xs`, and an error unless `good`.
  pub record Adds (xs : List Step) (good : Bool) (p q : Option String × Run W) : Type 0 where
    pub logged : outcomes q.1 ≡ outcomes p.1 ++ xs
    pub setup_kept : q.1.setup_attempted ≡ p.1.setup_attempted
    pub restored_kept : q.1.report.trace.restore_verified ≡ p.1.report.trace.restore_verified
    pub proof_kept : q.1.report.path_proof.valid ≡ p.1.report.path_proof.valid
    pub clean : is_nil q.0 ≡ (is_nil p.0 && good)

  pub stop_attempted-Adds :
      (err : Option String) (r : Run W)
      → r.start_attempted ≡ true
      → (s : Bool) × Adds ((PhaseName.stop, s) ∷ []) s (err, r) (stop_attempted job (err, r))
  unfolding stop_attempted
  stop_attempted-Adds err r e =
      let p : (Unit {0} × Option String) × Run W =
        run_phase job (cleanup_context job) PhaseName.stop job.selected.stop r in
      let l = run_phase-Logged job (cleanup_context job) PhaseName.stop job.selected.stop r in
      (
        is_nil p.0.1,
        subst (Adds _ _ (err, r)) (sym (if-true _ _ _ e)) record {
          logged = l.logged;
          setup_kept = l.setup_kept;
          restored_kept = l.restored_kept;
          proof_kept =
              ap (λ v. v.valid)
                (run_phase-proof job (cleanup_context job) PhaseName.stop job.selected.stop r);
          clean = is_nil-join err "stop" p.0.1;
        },
      )

  cleanup_attempted-Adds :
      (err : Option String) (r : Run W)
      → r.setup_attempted ≡ true
      → (a b : Bool) × Adds
          ((PhaseName.collect_artifacts, a) ∷ (PhaseName.cleanup, b) ∷ [])
          (a && b)
          (err, r)
          (cleanup_attempted job (err, r))
  unfolding cleanup_attempted set_artifacts
  cleanup_attempted-Adds err r e =
      let ctx : Context = cleanup_context job in
      let p : (List Artifact × Option String) × Run W =
        run_phase job ctx PhaseName.collect_artifacts job.selected.artifacts r in
      let l = run_phase-Logged job ctx PhaseName.collect_artifacts job.selected.artifacts r in
      let r₂ : Run W = set_artifacts job p.0.0 p.1 in
      let q : (Unit {0} × Option String) × Run W =
        run_phase job ctx PhaseName.cleanup job.selected.cleanup r₂ in
      let m = run_phase-Logged job ctx PhaseName.cleanup job.selected.cleanup r₂ in
      (
        is_nil p.0.1,
        is_nil q.0.1,
        subst (Adds _ _ (err, r)) (sym (if-true _ _ _ e)) record {
          logged =
              m.logged
              ∙ ap (λ os. os ++ ((PhaseName.cleanup, is_nil q.0.1) ∷ [])) l.logged
              ∙ append_assoc (outcomes r) _ _;
          setup_kept = m.setup_kept ∙ l.setup_kept;
          restored_kept = m.restored_kept ∙ l.restored_kept;
          proof_kept =
              ap (λ v. v.valid) (run_phase-proof job ctx PhaseName.cleanup job.selected.cleanup r₂)
              ∙ ap (λ v. v.valid)
                  (run_phase-proof job ctx PhaseName.collect_artifacts job.selected.artifacts r);
          clean =
              is_nil-join (join err (wrap "collect artifacts" p.0.1)) "cleanup" q.0.1
              ∙ ap (λ b. b && is_nil q.0.1) (is_nil-join err "collect artifacts" p.0.1)
              ∙ and_assoc (is_nil err) (is_nil p.0.1) (is_nil q.0.1);
        },
      )

  verify_restored-Deferred :
      (err : Option String) (r : Run W)
      → r.report.trace.restore_verified ≡ false
      → (c : Bool) × (outcomes (verify_restored job (err, r)).1
          ≡ outcomes r ++ ((PhaseName.verify_restore, c) ∷ []))
        × ((verify_restored job (err, r)).1.report.trace.restore_verified ≡ c)
        × ((verify_restored job (err, r)).1.report.path_proof.valid ≡ r.report.path_proof.valid)
        × (is_nil (verify_restored job (err, r)).0 ≡ (is_nil err && c))
  unfolding verify_restored set_restore_verified
  verify_restored-Deferred err r unverified =
      let ctx : Context = cleanup_context job in
      go (run_phase job ctx PhaseName.verify_restore job.selected.verify_restore r)
        (run_phase-Logged job ctx PhaseName.verify_restore job.selected.verify_restore r)
        (ap (λ v. v.valid)
          (run_phase-proof job ctx PhaseName.verify_restore job.selected.verify_restore r))
    where
      verified : (Unit {0} × Option String) × Run W → Option String × Run W
      verified p =
          if is_nil p.0.1
          then (err, set_restore_verified job true p.1)
          else (join err (wrap "verify restore" p.0.1), p.1)

      go :
          (p : (Unit {0} × Option String) × Run W)
          → Logged r p.1 ((PhaseName.verify_restore, is_nil p.0.1) ∷ [])
          → p.1.report.path_proof.valid ≡ r.report.path_proof.valid
          → (c : Bool) × (outcomes (verified p).1
              ≡ outcomes r ++ ((PhaseName.verify_restore, c) ∷ []))
            × ((verified p).1.report.trace.restore_verified ≡ c)
            × ((verified p).1.report.path_proof.valid ≡ r.report.path_proof.valid)
            × (is_nil (verified p).0 ≡ (is_nil err && c))
      go ((a, none), s) l v = (true, l.logged, refl, v, and-true (is_nil err))
      go ((a, some e), s) l v = (
        false,
        l.logged,
        l.restored_kept ∙ unverified,
        v,
        is_nil-join err "verify restore" (some e),
      )

  -- The deferred function behind its first conditional.
  pub record Restored (err : Option String) (r : Run W) (result : Option String × Run W)
      : Type 0 where
    pub a : Bool
    pub b : Bool
    pub c : Bool
    pub logged : outcomes result.1 ≡ outcomes r ++ restore_steps a b c
    pub restored : result.1.report.trace.restore_verified ≡ c
    pub proof_kept : result.1.report.path_proof.valid ≡ r.report.path_proof.valid
    pub clean : is_nil result.0 ≡ (is_nil err && (a && b && c))

  pub restore : Option String × Run W → Option String × Run W
  restore p = let (err, r) = verify_restored job (cleanup_attempted job p) in (err, finish job r)

  pub restore-Restored :
      (err : Option String) (r : Run W)
      → r.setup_attempted ≡ true
      → r.report.trace.restore_verified ≡ false
      → Restored err r (restore (err, r))
  unfolding restore finish
  restore-Restored err r attempted unverified =
      let (a, b, q) = cleanup_attempted-Adds err r attempted in
      let p : Option String × Run W = cleanup_attempted job (err, r) in
      let (c, logged, restored, proof_kept, clean) =
        verify_restored-Deferred p.0 p.1 (q.restored_kept ∙ unverified) in
      record {
        a = a;
        b = b;
        c = c;
        logged =
            logged
            ∙ ap (λ os. os ++ ((PhaseName.verify_restore, c) ∷ [])) q.logged
            ∙ append_assoc (outcomes r) _ _;
        restored = restored;
        proof_kept = proof_kept ∙ q.proof_kept;
        clean = clean ∙ ap (λ x. x && c) q.clean ∙ and_assoc (is_nil err) (a && b) c;
      }

  pub is_nil-return_err : (o : Outcome (Unit {0})) → is_nil (return_err job o) ≡ is_ok o
  is_nil-return_err (ok _) = refl
  is_nil-return_err (fail e) = refl

  pub deferred_unstarted :
      (o : Outcome (Unit {0})) (r : Run W)
      → r.start_attempted ≡ false
      → deferred job (o, r) ≡ restore (return_err job o, r)
  unfolding deferred stop_attempted restore
  deferred_unstarted o r e =
      ap (λ p. restore p) (if-false r.start_attempted _ (return_err job o, r) e)

  pub deferred_started :
      (o : Outcome (Unit {0})) (r : Run W)
      → deferred job (o, r) ≡ restore (stop_attempted job (return_err job o, r))
  unfolding deferred restore
  deferred_started o r = refl
