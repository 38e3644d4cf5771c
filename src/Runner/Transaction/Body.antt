-- ===== src/Runner/Transaction/Body.antt =====
-- The body of `Execute`, behind its `defer` statement: internal/runner/lifecycle.go, lines 64 to 105.
use sing_box_inbound_bench.Base.{
  Bool, false, true, ◌&&◌, List, [], ◌∷◌, Option, none, some, String, ◌≡◌, refl, ap, subst, sym,
  ◌∙◌, if◌then◌else◌,
}
use sing_box_inbound_bench.Protocol.Trace.{PathProof, PhaseName}
use sing_box_inbound_bench.Runner.{
  Context, Call, Job, Run, Outcome, ok, fail, M, is_nil, continue, or_fail, ◌>>=◌, run_phase, phase,
  prove_and_measure, judge_proof, body_after_start, body, set_path_proof,
}
use sing_box_inbound_bench.Runner.Transaction.Steps.{
  Step, Logged, Logged-trans, run_phase-Logged, run_phase-proof,
}
use sing_box_inbound_bench.Runner.Transaction.Spec.{Ran, all_done, failed, next, main_names}

abbrev pub is_ok : {A : Type 0} → Outcome A → Bool
is_ok (ok a) = true
is_ok (fail e) = false

-- A part of the body that ran some of the phases `ns`, which depend on the proof's validity.
pub record After {W A : Type 0} (ns : Bool → List PhaseName) (r : Run W)
    (result : Outcome A × Run W) : Type 0 where
  pub xs : List Step
  pub done : Bool
  pub log : Logged r result.1 xs
  pub ran : Ran (ns result.1.report.path_proof.valid) xs done
  pub clean : is_ok result.0 ≡ (done && result.1.report.path_proof.valid)

module _ {W : Type 0} (job : Job W) where
  phase-After :
      {A B : Type 0} (ctx : Context) (name : PhaseName) (prefix : String) (function : Call W A)
      (f : A → M W B) (ns : Bool → List PhaseName) (r : Run W)
      → ((a : A) (s : Run W) → After ns s (f a s))
      → After (λ v. name ∷ ns v) r ((phase job ctx name prefix function >>= f) r)
  unfolding phase
  phase-After {A} ctx name prefix function f ns r rest =
      go (run_phase job ctx name function r) (run_phase-Logged job ctx name function r)
    where
      go :
          (p : (A × Option String) × Run W)
          → Logged r p.1 ((name, is_nil p.0.1) ∷ [])
          → After (λ v. name ∷ ns v) r (continue f (or_fail prefix p.0 p.1))
      go ((a, none), s) l =
          let later = rest a s in
          record {
            xs = (name, true) ∷ later.xs;
            done = later.done;
            log = Logged-trans l later.log;
            ran = next later.ran;
            clean = later.clean;
          }
      go ((a, some e), s) l = record {
        xs = (name, false) ∷ [];
        done = false;
        log = l;
        ran = failed;
        clean = refl;
      }

  measure_names : Bool → List PhaseName
  measure_names valid = if valid then PhaseName.measure ∷ [] else []

  -- The measurement, under a proof that is on record and valid.
  measure-After :
      (ctx : Context) (proof : PathProof) (r : Run W)
      → r.report.path_proof.valid ≡ true
      → After measure_names r (phase job ctx PhaseName.measure "measure" (job.measure proof) r)
  unfolding phase measure_names
  measure-After ctx proof r valid =
      go (run_phase job ctx PhaseName.measure (job.measure proof) r)
        (run_phase-Logged job ctx PhaseName.measure (job.measure proof) r)
        (ap (λ p. p.valid) (run_phase-proof job ctx PhaseName.measure (job.measure proof) r)
          ∙ valid)
    where
      go :
          (p : (Unit {0} × Option String) × Run W)
          → Logged r p.1 ((PhaseName.measure, is_nil p.0.1) ∷ [])
          → p.1.report.path_proof.valid ≡ true
          → After measure_names r (or_fail "measure" p.0 p.1)
      go ((a, none), s) l v = record {
        xs = (PhaseName.measure, true) ∷ [];
        done = true;
        log = l;
        ran = rw v (next all_done);
        clean = sym v;
      }
      go ((a, some e), s) l v = record {
        xs = (PhaseName.measure, false) ∷ [];
        done = false;
        log = l;
        ran = rw v failed;
        clean = refl;
      }

  set_path_proof-Logged :
      {r s : Run W} {xs : List Step} (proof : PathProof)
      → Logged r s xs
      → Logged r (set_path_proof job proof s) xs
  unfolding set_path_proof
  set_path_proof-Logged proof l = record {
    logged = l.logged;
    setup_kept = l.setup_kept;
    start_kept = l.start_kept;
    restored_kept = l.restored_kept;
  }

  proved_names : Bool → List PhaseName
  unfolding measure_names
  proved_names valid = PhaseName.prove_path ∷ measure_names valid

  judge_proof-After :
      (ctx : Context) (r : Run W) (p : (PathProof × Option String) × Run W)
      → Logged r p.1 ((PhaseName.prove_path, is_nil p.0.1) ∷ [])
      → After proved_names r (judge_proof job ctx p)
  unfolding judge_proof proved_names set_path_proof
  judge_proof-After ctx r ((proof, some e), s) l = record {
    xs = (PhaseName.prove_path, false) ∷ [];
    done = false;
    log = set_path_proof-Logged proof l;
    ran = failed;
    clean = refl;
  }
  judge_proof-After ctx r ((proof, none), s) l = go proof.valid refl
    where
      judged : Bool → Outcome (Unit {0}) × Run W
      judged valid =
          if valid
          then phase job ctx PhaseName.measure "measure" (job.measure proof)
              (set_path_proof job proof s)
          else (
            fail "prove path: subject did not provide valid interception evidence",
            set_path_proof job proof s,
          )

      go : (v : Bool) → proof.valid ≡ v → After proved_names r (judged v)
      go true v =
          let later = measure-After ctx proof (set_path_proof job proof s) v in
          record {
            xs = (PhaseName.prove_path, true) ∷ later.xs;
            done = later.done;
            log = Logged-trans (set_path_proof-Logged proof l) later.log;
            ran = next later.ran;
            clean = later.clean;
          }
      go false v = record {
        xs = (PhaseName.prove_path, true) ∷ [];
        done = true;
        log = set_path_proof-Logged proof l;
        ran =
            subst (λ b. Ran (proved_names b) ((PhaseName.prove_path, true) ∷ []) true) (sym v)
              (next all_done);
        clean = sym v;
      }

  body_names : Bool → List PhaseName
  unfolding proved_names
  body_names v =
      PhaseName.observe_path_before
      ∷ PhaseName.warmup
      ∷ PhaseName.observe_path_after
      ∷ proved_names v

  body_after_start-After :
      (ctx : Context) (r : Run W) → After body_names r (body_after_start job ctx r)
  unfolding body_after_start body_names prove_and_measure
  body_after_start-After ctx r = phase-After ctx _ _ _ _ _ r λ before r₁.
      phase-After ctx _ _ _ _ _ r₁ λ evidence r₂.
        phase-After ctx _ _ _ _ _ r₂ λ after r₃.
          judge_proof-After ctx r₃ _ (run_phase-Logged job ctx PhaseName.prove_path _ r₃)

  main-After :
      (ctx : Context) (r : Run W)
      → After main_names r (
          (phase job ctx PhaseName.start "start" job.selected.start >>= λ _.
          body_after_start job ctx)
            r)
  unfolding main_names body_names proved_names measure_names
  main-After ctx r = phase-After ctx _ _ _ _ body_names r (λ _ s. body_after_start-After ctx s)

  -- What the body leaves behind, by whether the setup succeeded.
  pub data BodyDone (r : Run W) (result : Outcome (Unit {0}) × Run W) : Type 0 where
    no_setup :
        Logged (record r { setup_attempted = true }) result.1 ((PhaseName.setup, false) ∷ [])
        → is_ok result.0 ≡ false
        → BodyDone r result
    set_up :
        (s : Run W)
        → Logged (record r { setup_attempted = true }) s ((PhaseName.setup, true) ∷ [])
        → After main_names (record s { start_attempted = true }) result
        → BodyDone r result

  pub body-BodyDone : (ctx : Context) (r : Run W) → BodyDone r (body job ctx r)
  unfolding body phase
  body-BodyDone ctx r =
      go (run_phase job ctx PhaseName.setup job.selected.setup r₁)
        (run_phase-Logged job ctx PhaseName.setup job.selected.setup r₁)
    where
      r₁ : Run W
      r₁ = record r { setup_attempted = true }

      rest : Unit {0} → M W (Unit {0})
      rest _ s =
          (phase job ctx PhaseName.start "start" job.selected.start >>= λ _.
          body_after_start job ctx)
            (record s { start_attempted = true })

      go :
          (p : (Unit {0} × Option String) × Run W)
          → Logged r₁ p.1 ((PhaseName.setup, is_nil p.0.1) ∷ [])
          → BodyDone r (continue rest (or_fail "setup" p.0 p.1))
      go ((a, none), s) l = set_up s l (main-After ctx (record s { start_attempted = true }))
      go ((a, some e), s) l = no_setup l refl
