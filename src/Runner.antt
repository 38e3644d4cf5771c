-- ===== src/Runner.antt =====
-- internal/runner/lifecycle.go, and the interface of internal/subject/subject.go that it drives.
-- The world, with all that the phases of a subject do to it, is a parameter `W`. An `error` is
-- `Option String`, by its text. A deferred function runs after the body on each of its returns.
pub mod Transaction
pub mod Clean
pub mod Reported
mod Tests
use sing_box_inbound_bench.Base.{
  ℕ, Bool, false, true, not, List, [], ◌∷◌, ◌++◌, Option, none, some, String, str_append, ◌≡◌, ◌↔◌,
  refl, if◌then◌else◌,
}
use sing_box_inbound_bench.Protocol.Trace.{
  PathProof, no_proof, PhaseName, PhaseResult, ExecutionTrace,
}

pub record Observation : Type 0 where
  pub captured_at : ℕ
  pub content : String

pub record WarmupEvidence : Type 0 where
  pub valid : Bool
  pub token : String
  pub details : String

pub record Artifact : Type 0 where
  pub name : String
  pub content : List ℕ
  pub truncated : Bool

-- What a phase may see of its context: whether the caller's cancellation reaches it, and a timeout
-- in seconds.
pub record Context : Type 0 where
  pub cancellable : Bool
  pub timeout : Option ℕ

-- A call on the world: a value, an error, and the world afterwards.
abbrev pub Call : Type 0 → Type 0 → Type 0
Call W A = Context → W → A × Option String × W

pub record Subject (W : Type 0) : Type 0 where
  pub preflight : Call W (Unit {0})
  pub snapshot : Call W (Unit {0})
  pub setup : Call W (Unit {0})
  pub start : Call W (Unit {0})
  pub observe_path : Call W Observation
  pub prove_path : Observation → Observation → WarmupEvidence → Call W PathProof
  pub stop : Call W (Unit {0})
  pub artifacts : Call W (List Artifact)
  pub cleanup : Call W (Unit {0})
  pub verify_restore : Call W (Unit {0})

-- The arguments of `Execute` beside its context, and the clock.
pub record Job (W : Type 0) : Type 0 where
  pub selected : Subject W
  pub warmup : Call W WarmupEvidence
  pub measure : PathProof → Call W (Unit {0})
  pub now : W → ℕ × W

pub record Report : Type 0 where
  pub trace : ExecutionTrace
  pub path_proof : PathProof
  pub artifacts : List Artifact

-- The variables of a running `Execute`.
pub record Run (W : Type 0) : Type 0 where
  pub world : W
  pub report : Report
  pub setup_attempted : Bool
  pub start_attempted : Bool

pub data Outcome (A : Type 0) : Type 0 where
  ok : A → Outcome A
  fail : String → Outcome A

abbrev pub M : Type 0 → Type 0 → Type 0
M W A = Run W → Outcome A × Run W

abbrev pub continue : {W A B : Type 0} → (A → M W B) → Outcome A × Run W → Outcome B × Run W
continue f (ok a, r) = f a r
continue f (fail e, r) = (fail e, r)

infixl 5 ◌>>=◌ ◌>>◌
abbrev pub ◌>>=◌ : {W A B : Type 0} → M W A → (A → M W B) → M W B
◌>>=◌ m f r = continue f (m r)

abbrev pub ◌>>◌ : {W B : Type 0} → M W (Unit {0}) → M W B → M W B
m >> k = m >>= λ _. k

abbrev pub modify : {W : Type 0} → (Run W → Run W) → M W (Unit {0})
modify f r = (ok tt, f r)

abbrev pub is_nil : Option String → Bool
is_nil none = true
is_nil (some e) = false

pub is_nil-none : (e : Option String) → (is_nil e ≡ true) ↔ (e ≡ none)
is_nil-none none = (λ h. refl, λ h. refl)
is_nil-none (some e) = (λ h. cc, λ h. cc)

abbrev pub error_text : Option String → String
error_text none = ""
error_text (some e) = e

-- `errors.Join` of two errors: their texts on lines of their own.
abbrev pub join : Option String → Option String → Option String
join none b = b
join (some a) none = some a
join (some a) (some b) = some (str_append a (str_append "\n" b))

-- `fmt.Errorf(prefix + ": %w", err)`
abbrev pub wrap : String → Option String → Option String
wrap prefix none = none
wrap prefix (some e) = some (str_append prefix (str_append ": " e))

abbrev pub or_fail : {W A : Type 0} → String → A × Option String → M W A
or_fail prefix (a, none) r = (ok a, r)
or_fail prefix (a, some e) r = (fail (str_append prefix (str_append ": " e)), r)

module _ {W : Type 0} (job : Job W) where
  open job use {selected, warmup, measure, now}

  -- The value and the error of the call, which is recorded in the trace whatever it returns.
  unfoldable pub run_phase :
      {A : Type 0} → Context → PhaseName → Call W A → Run W → (A × Option String) × Run W
  run_phase ctx name function r =
      let (started, w₁) = now r.world in
      let (a, err, w₂) = function ctx w₁ in
      let (finished, w₃) = now w₂ in
      let phase : PhaseResult = record {
        name = name;
        started_at = started;
        finished_at = finished;
        success = is_nil err;
        error = error_text err;
      } in
      let trace : ExecutionTrace = r.report.trace in
      let trace' : ExecutionTrace = record trace { phases = trace.phases ++ (phase ∷ []) } in
      let report : Report = r.report in
      ((a, err), record r { world = w₃; report = record report { trace = trace' } })

  -- `if err := runPhase(…); err != nil { return …, fmt.Errorf(prefix + ": %w", err) }`
  unfoldable pub phase : {A : Type 0} → Context → PhaseName → String → Call W A → M W A
  unfolding run_phase
  phase ctx name prefix function r =
      let (result, r') = run_phase ctx name function r in or_fail prefix result r'

  unfoldable pub set_path_proof : PathProof → Run W → Run W
  set_path_proof proof r =
      let report : Report = r.report in record r { report = record report { path_proof = proof } }

  -- What follows the phase `prove_path`: the proof is reported even where the phase failed.
  unfoldable pub judge_proof :
      Context → (PathProof × Option String) × Run W → Outcome (Unit {0}) × Run W
  judge_proof ctx ((proof, some e), r) =
      (fail (str_append "prove path: " e), set_path_proof proof r)
  judge_proof ctx ((proof, none), r) =
      let r' = set_path_proof proof r in
      let no_evidence : Outcome (Unit {0}) × Run W =
        (fail "prove path: subject did not provide valid interception evidence", r') in
      if proof.valid then phase ctx PhaseName.measure "measure" (measure proof) r' else no_evidence

  unfoldable pub prove_and_measure :
      Context → Observation → Observation → WarmupEvidence → M W (Unit {0})
  prove_and_measure ctx before after evidence r =
      judge_proof ctx
        (run_phase ctx PhaseName.prove_path (selected.prove_path before after evidence) r)

  unfoldable pub body_after_start : Context → M W (Unit {0})
  body_after_start ctx = do
    before ←
        phase ctx PhaseName.observe_path_before "observe path before warmup" selected.observe_path
    evidence ← phase ctx PhaseName.warmup "warmup" warmup
    after ← phase ctx PhaseName.observe_path_after "observe path after warmup" selected.observe_path
    prove_and_measure ctx before after evidence

  -- What follows the `defer` statement.
  unfoldable pub body : Context → M W (Unit {0})
  body ctx = do
    modify (λ r. record r { setup_attempted = true })
    phase ctx PhaseName.setup "setup" selected.setup
    modify (λ r. record r { start_attempted = true })
    phase ctx PhaseName.start "start" selected.start
    body_after_start ctx

  -- `context.WithTimeout(context.WithoutCancel(ctx), 15*time.Second)`
  abbrev pub cleanup_context : Context
  cleanup_context = record { cancellable = false; timeout = some 15 }

  unfoldable pub stop_attempted : Option String × Run W → Option String × Run W
  stop_attempted (err, r) =
      let ((_, stop_err), r') = run_phase cleanup_context PhaseName.stop selected.stop r in
      if r.start_attempted then (join err (wrap "stop" stop_err), r') else (err, r)

  unfoldable pub set_artifacts : List Artifact → Run W → Run W
  set_artifacts artifacts r =
      let report : Report = r.report in
      record r { report = record report { artifacts = artifacts } }

  unfoldable pub cleanup_attempted : Option String × Run W → Option String × Run W
  cleanup_attempted (err, r) =
      let ((artifacts, collect_err), r₁) =
        run_phase cleanup_context PhaseName.collect_artifacts selected.artifacts r in
      let r₂ = set_artifacts artifacts r₁ in
      let err₁ = join err (wrap "collect artifacts" collect_err) in
      let ((_, cleanup_err), r₃) =
        run_phase cleanup_context PhaseName.cleanup selected.cleanup r₂ in
      if r.setup_attempted then (join err₁ (wrap "cleanup" cleanup_err), r₃) else (err, r)

  unfoldable pub set_restore_verified : Bool → Run W → Run W
  set_restore_verified verified r =
      let report : Report = r.report in
      let trace : ExecutionTrace = report.trace in
      record r { report = record report { trace = record trace { restore_verified = verified } } }

  unfoldable pub verify_restored : Option String × Run W → Option String × Run W
  verify_restored (err, r) =
      let ((_, verify_err), r') =
        run_phase cleanup_context PhaseName.verify_restore selected.verify_restore r in
      if is_nil verify_err
      then (err, set_restore_verified true r')
      else (join err (wrap "verify restore" verify_err), r')

  unfoldable pub finish : Run W → Run W
  finish r =
      let (finished, w) = now r.world in
      let report : Report = r.report in
      let trace : ExecutionTrace = report.trace in
      record r {
        world = w;
        report = record report { trace = record trace { finished_at = finished } };
      }

  abbrev pub return_err : Outcome (Unit {0}) → Option String
  return_err (ok _) = none
  return_err (fail e) = some e

  -- The deferred function, on what the body returned.
  unfoldable pub deferred : Outcome (Unit {0}) × Run W → Option String × Run W
  deferred (o, r) =
      let (err, r') = verify_restored (cleanup_attempted (stop_attempted (return_err o, r))) in
      (err, finish r')

  unfoldable pub initial : W → Run W
  initial w =
      let (started, w') = now w in
      record {
        world = w';
        report = record {
          trace = record {
            started_at = started;
            finished_at = 0;
            restore_verified = false;
            phases = [];
          };
          path_proof = no_proof;
          artifacts = [];
        };
        setup_attempted = false;
        start_attempted = false;
      }

  unfoldable pub refuse_or_run : Context → Outcome (Unit {0}) × Run W → Option String × Run W
  refuse_or_run ctx (ok _, r) = deferred (body ctx r)
  refuse_or_run ctx (fail e, r) = (some e, finish r)

  unfoldable pub before_defer : Context → M W (Unit {0})
  before_defer ctx = do
    phase ctx PhaseName.preflight "preflight" selected.preflight
    phase ctx PhaseName.snapshot "snapshot" selected.snapshot

  unfoldable pub execute : Context → W → Option String × Run W
  execute ctx w = refuse_or_run ctx (before_defer ctx (initial w))
