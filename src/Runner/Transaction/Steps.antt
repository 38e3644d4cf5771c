-- ===== src/Runner/Transaction/Steps.antt =====
-- What one phase of internal/runner/lifecycle.go changes.
use mathlib.Core.List.{map-append, append_assoc}
use sing_box_inbound_bench.Base.{Bool, List, [], ◌∷◌, ◌++◌, map, ◌≡◌, refl, ap, ◌∙◌}
use sing_box_inbound_bench.Protocol.Trace.{PhaseName, PhaseResult}
use sing_box_inbound_bench.Runner.{Context, Call, Job, Run, is_nil, run_phase}

abbrev pub Step : Type 0
Step = PhaseName × Bool

abbrev pub step_of : PhaseResult → Step
step_of p = (p.name, p.success)

abbrev pub outcomes : {W : Type 0} → Run W → List Step
outcomes r = map step_of r.report.trace.phases

-- Nothing but the trace and the world differs, and the trace has grown by `xs`.
pub record Logged {W : Type 0} (r r' : Run W) (xs : List Step) : Type 0 where
  pub logged : outcomes r' ≡ outcomes r ++ xs
  pub setup_kept : r'.setup_attempted ≡ r.setup_attempted
  pub start_kept : r'.start_attempted ≡ r.start_attempted
  pub restored_kept : r'.report.trace.restore_verified ≡ r.report.trace.restore_verified

module _ {W : Type 0} (job : Job W) where
  pub run_phase-Logged :
      {A : Type 0} (ctx : Context) (name : PhaseName) (function : Call W A) (r : Run W)
      → let (result, r') = run_phase job ctx name function r in
        Logged r r' ((name, is_nil result.1) ∷ [])
  unfolding run_phase
  run_phase-Logged ctx name function r = record {
    logged = map-append step_of r.report.trace.phases (_ ∷ []);
    setup_kept = refl;
    start_kept = refl;
    restored_kept = refl;
  }

  pub run_phase-proof :
      {A : Type 0} (ctx : Context) (name : PhaseName) (function : Call W A) (r : Run W)
      → (run_phase job ctx name function r).1.report.path_proof ≡ r.report.path_proof
  unfolding run_phase
  run_phase-proof ctx name function r = refl

pub Logged-trans :
    {W : Type 0} {r s t : Run W} {xs ys : List Step}
    → Logged r s xs
    → Logged s t ys
    → Logged r t (xs ++ ys)
Logged-trans {r = r} {xs = xs} {ys = ys} a b = record {
  logged = b.logged ∙ ap (λ os. os ++ ys) a.logged ∙ append_assoc (outcomes r) xs ys;
  setup_kept = b.setup_kept ∙ a.setup_kept;
  start_kept = b.start_kept ∙ a.start_kept;
  restored_kept = b.restored_kept ∙ a.restored_kept;
}
