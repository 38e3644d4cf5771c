-- ===== src/Subject/Raw/Gate.antt =====
-- internal/subject/raw/subject.go: what a run of the lifecycle with the raw subject has shown.
use sing_box_inbound_bench.Base.{true, false, ◌≡◌, inr, and-true_iff}
use sing_box_inbound_bench.Protocol.Trace.{PathProof, PhaseName}
use sing_box_inbound_bench.Runner.{Observation, WarmupEvidence, Context, Job, is_nil-none, execute}
use sing_box_inbound_bench.Runner.Clean.{HasRun, execute_measured}
use sing_box_inbound_bench.Runner.Reported.{execute-reported}
use sing_box_inbound_bench.Runner.Transaction.Steps.{outcomes}
use sing_box_inbound_bench.Subject.Evidence.{Laws, WarmupResult}
use sing_box_inbound_bench.Subject.Evidence.Proven.{Proven, validate_socket_path_evidence-Proven}
use sing_box_inbound_bench.Subject.Raw.{Env, RawSubject, prove_path, subject}

module _ {W : Type 0} (env : Env W) (laws : Laws env.externals) (s : RawSubject) where
  -- The evidence of the proof is a worker's result whose sockets were seen unredirected.
  abbrev pub Unredirected : PathProof → Type 0
  Unredirected proof =
      (result : WarmupResult) × (env.externals.decode_result proof.evidence ≡ inr result)
      × Proven env.externals false s.worker_uid "" result

  prove_path-Unredirected :
      (before after : Observation) (warmup : WarmupEvidence) (ctx : Context) (w : W)
      → let proof = (prove_path env s before after warmup ctx w).0 in
        proof.valid ≡ true → Unredirected proof
  unfolding prove_path
  prove_path-Unredirected before after warmup ctx w h =
      (validate_socket_path_evidence-Proven env.externals laws warmup.details false s.worker_uid
          "").0
        ((is_nil-none _).0 ((and-true_iff warmup.valid _).0 h).1)

  -- A run of the lifecycle with the raw subject measures only where the evidence of the proof that it
  -- reports is Proven without redirection: the worker ran as the user that is asked for, and the server
  -- saw each of its sockets under the worker's own address.
  pub raw-Unredirected :
      (job : Job W) (ctx : Context) (w : W)
      → let r = (execute (record job { selected = subject env s }) ctx w).1 in
        HasRun PhaseName.measure (outcomes r) → Unredirected r.report.path_proof
  unfolding subject
  raw-Unredirected job ctx w h =
      let raw_job : Job W = record job { selected = subject env s } in
      execute-reported raw_job (λ proof. proof.valid ≡ true → Unredirected proof)
        prove_path-Unredirected ctx w (λ k. false-true k) (execute_measured raw_job ctx w h)
    where
      false-true : {A : Type 0} → false ≡ true → A
      false-true k = cc
