-- ===== src/Subject/Raw.antt =====
-- internal/subject/raw/subject.go: the baseline without a proxy, as a subject of the lifecycle. The
-- field `found` is only read where it was just written, in Preflight, and is a local value here.
pub mod Gate
use sing_box_inbound_bench.Base.{
  ℕ, Bool, false, true, ◌&&◌, String, str_append, List, [], ◌∷◌, Option, none, some, ◌⊎◌, inl, inr,
}
use sing_box_inbound_bench.Protocol.Trace.{PathProof, no_proof}
use sing_box_inbound_bench.Runner.{
  Observation, WarmupEvidence, Context, Call, Subject, is_nil, error_text,
}
use sing_box_inbound_bench.Subject.Evidence.{Externals, validate_socket_path_evidence}
use sing_box_inbound_bench.Subject.Processes.{Host, ProcEntry, find_processes}

pub record RawSubject : Type 0 where
  pub process_names : List String
  pub worker_uid : Option ℕ

-- `New`
abbrev pub new : Option ℕ → RawSubject
new worker_uid = record { process_names = "sing-box" ∷ []; worker_uid = worker_uid }

-- The world of the subject: the directory /proc, the clock, and what it calls of Go's library.
pub record Env (W : Type 0) : Type 0 where
  pub host : Host
  pub externals : Externals
  pub read_proc : W → (String ⊎ List ProcEntry) × W
  pub now : W → ℕ × W
  -- json.Marshal of the object with the rejected names and the processes
  pub marshal : List String → List String → String

-- `strings.Join(texts, ", ")`
unfoldable pub comma_separated : List String → String
comma_separated [] = ""
comma_separated (t ∷ []) = t
comma_separated (t ∷ u ∷ ts) = str_append t (str_append ", " (comma_separated (u ∷ ts)))

-- The error of a search, or of what it found.
abbrev pub refuse_found : String → String ⊎ List String → Option String
refuse_found prefix (inl e) = some e
refuse_found prefix (inr []) = none
refuse_found prefix (inr (p ∷ ps)) = some (str_append prefix (comma_separated (p ∷ ps)))

abbrev pub no_observation : Observation
no_observation = record { captured_at = 0; content = "" }

module _ {W : Type 0} (env : Env W) (s : RawSubject) where
  open env use {host, externals, read_proc, now, marshal}

  unfoldable pub search : W → (String ⊎ List String) × W
  search w = let (entries, w') = read_proc w in (find_processes host s.process_names entries, w')

  unfoldable pub preflight : Call W (Unit {0})
  preflight ctx w =
      let (found, w') = search w in
      (tt, refuse_found "raw baseline requires sing-box to be stopped; found " found, w')

  unfoldable pub verify_restore : Call W (Unit {0})
  verify_restore ctx w =
      let (found, w') = search w in
      (tt, refuse_found "sing-box appeared during raw baseline: " found, w')

  abbrev pub observed : (String ⊎ List String) × W → Observation × Option String × W
  observed (inr [], w) =
      let (captured, w') = now w in
      (record { captured_at = captured; content = marshal s.process_names [] }, none, w')
  observed (inr (p ∷ ps), w) =
      (no_observation, refuse_found "sing-box appeared during raw path proof: " (inr (p ∷ ps)), w)
  observed (inl e, w) = (no_observation, some e, w)

  unfoldable pub observe_path : Call W Observation
  observe_path ctx w = observed (search w)

  unfoldable pub prove_path : Observation → Observation → WarmupEvidence → Call W PathProof
  prove_path before after warmup ctx w =
      let proof_error =
        validate_socket_path_evidence externals warmup.details false s.worker_uid "" in
      let (observed_at, w') = now w in
      (
        record {
          valid = warmup.valid && is_nil proof_error;
          method =
              "server-confirmed raw source address with no sing-box process found during preflight";
          observed_at = observed_at;
          before = before.content;
          after = after.content;
          evidence = warmup.details;
          error = error_text proof_error;
        },
        none,
        w',
      )

  abbrev does_nothing : Call W (Unit {0})
  does_nothing ctx w = (tt, none, w)

  unfoldable pub subject : Subject W
  subject = record {
    preflight = preflight;
    snapshot = does_nothing;
    setup = does_nothing;
    start = does_nothing;
    observe_path = observe_path;
    prove_path = prove_path;
    stop = does_nothing;
    artifacts = λ ctx w. ([], none, w);
    cleanup = does_nothing;
    verify_restore = verify_restore;
  }
