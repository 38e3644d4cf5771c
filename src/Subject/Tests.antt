-- ===== src/Subject/Tests.antt =====
-- The evidence and the raw subject of internal/subject at the sample worker.
use sing_box_inbound_bench.Base.{ℕ, suc, true, [], ◌∷◌, none, some, ◌≡◌, ◌↔◌, refl, inl, inr}
use sing_box_inbound_bench.Base.Int.{pos}
use sing_box_inbound_bench.Protocol.Config.{contains_text}
use sing_box_inbound_bench.Protocol.Endpoint.{unmap}
use sing_box_inbound_bench.Runner.{
  Context, Job, WarmupEvidence, execute, refuse_or_run, before_defer, phase, deferred, finish,
  verify_restored, set_restore_verified, cleanup_attempted, stop_attempted, body, body_after_start,
  prove_and_measure, judge_proof, set_path_proof, set_artifacts, initial,
}
use sing_box_inbound_bench.Subject.Evidence.{
  WarmupResult, validate_socket_path_evidence, check_result, check_cgroup, check_paths,
  canonical_endpoint, compare_tuples, parsed_addr, eq_ip,
}
use sing_box_inbound_bench.Subject.Evidence.Proven.{Proven, validate_socket_path_evidence-Proven}
use sing_box_inbound_bench.Subject.Processes.{comm, find_processes, scan_entries, read_comm}
use sing_box_inbound_bench.Subject.Raw
use sing_box_inbound_bench.Subject.Raw.Gate.{Unredirected, raw-Unredirected}
use sing_box_inbound_bench.Subject.Samples.{library, library-Laws}

validate_socket_path_evidence-Proven_example :
    (validate_socket_path_evidence library "10.0.0.3:50000" true (some 2000) "/bench" ≡ none) ↔ (
      (result : WarmupResult) × (library.decode_result "10.0.0.3:50000" ≡ inr result)
      × Proven library true (some 2000) "/bench" result)
validate_socket_path_evidence-Proven_example =
    validate_socket_path_evidence-Proven library library-Laws "10.0.0.3:50000" true (some 2000)
      "/bench"

proxy_seen : validate_socket_path_evidence library "10.0.0.3:50000" true (some 2000) "/bench" ≡ none
unfolding validate_socket_path_evidence check_result check_cgroup check_paths canonical_endpoint
    compare_tuples unmap
proxy_seen = refl

proxy_missing :
    validate_socket_path_evidence library "10.0.0.2:40000" true (some 2000) "/bench"
    ≡ some "tcp server observed the worker socket tuple; redirection was not proven"
unfolding validate_socket_path_evidence check_result check_cgroup check_paths canonical_endpoint
    compare_tuples unmap
proxy_missing = refl

-- A world that is a clock, with one process of another name.
abbrev raw_env : Raw.Env ℕ
raw_env = record {
  host = record { own_pid = pos 1; atoi = λ text. some (pos 9); trim_space = λ text. text };
  externals = library;
  read_proc = λ w. (inr (record { is_dir = true; name = "9"; content = comm "init" } ∷ []), w);
  now = λ w. (w, suc w);
  marshal = λ names found. "";
}

abbrev raw_subject : Raw.RawSubject
raw_subject = Raw.new (some 2000)

abbrev warmup : WarmupEvidence
warmup = record { valid = true; token = "t"; details = "10.0.0.2:40000" }

abbrev raw_job : Job ℕ
raw_job = record {
  selected = Raw.subject raw_env raw_subject;
  warmup = λ ctx w. (warmup, none, w);
  measure = λ p ctx w. (tt, none, w);
  now = λ w. (w, suc w);
}

abbrev context : Context
context = record { cancellable = true; timeout = none }

raw-Unredirected_example :
    Unredirected raw_env library-Laws raw_subject (execute raw_job context 0).1.report.path_proof
unfolding execute refuse_or_run before_defer phase deferred finish verify_restored
    set_restore_verified cleanup_attempted stop_attempted body body_after_start prove_and_measure
    judge_proof set_path_proof set_artifacts initial Raw.subject Raw.preflight Raw.verify_restore
    Raw.observe_path Raw.prove_path Raw.search find_processes scan_entries read_comm contains_text
    validate_socket_path_evidence check_result check_cgroup check_paths canonical_endpoint
    compare_tuples parsed_addr eq_ip unmap
raw-Unredirected_example =
    raw-Unredirected raw_env library-Laws raw_subject raw_job context 0
      (inr (inr (inr (inr (inr (inr (inr (inr (inl refl)))))))))
