-- ===== src/Subject/Managed.antt =====
-- internal/subject/singbox/subject.go: ProvePath, and what it reads of the observations. The
-- observations are JSON, which the parameters of `Env` read.
pub mod Spec
mod Tun
pub mod Shows
mod Tests
use sing_box_inbound_bench.Base.{
  ℕ, Bool, true, false, not, ◌&&◌, ◌||◌, ltb, leb, if◌then◌else◌, String, str_append, str_eq, List,
  Option, none, some, ◌⊎◌, inl, inr,
}
use sing_box_inbound_bench.Netdev
use sing_box_inbound_bench.Netdev.{Stats}
use sing_box_inbound_bench.Netfilter.{Manager, Failure, not_increased}
use sing_box_inbound_bench.Netfilter.Counters
use sing_box_inbound_bench.Protocol.Config.{
  Config, subject_direct, subject_tun, subject_tun_auto, subject_ebpf_cgroup,
}
use sing_box_inbound_bench.Protocol.Trace.{PathProof, no_proof}
use sing_box_inbound_bench.Runner.{Observation, WarmupEvidence, is_nil, error_text, join}
use sing_box_inbound_bench.Subject.Evidence.{Externals, validate_socket_path_evidence}
use sing_box_inbound_bench.Subject.Diagnostics.{DiagnosticsEnvelope, validate_ebpf_diagnostics}

-- The fields of Managed that ProvePath reads.
pub record Managed : Type 0 where
  pub config : Config
  pub netfilter : Option Manager
  pub kernel_probe : String

pub record TunObservation : Type 0 where
  pub interface : Stats
  pub backend : String
  pub backend_state : String
  pub backend_packets : ℕ

-- Readers of JSON with their error on the left; where an observation of a TUN interface is not read,
-- what json.Unmarshal left of it stands beside the error.
pub record Env : Type 0 where
  pub externals : Externals
  pub decode_counters : String → String ⊎ Counters.Observation
  pub decode_tun : String → TunObservation × Option String
  pub decode_diagnostics : String → String ⊎ DiagnosticsEnvelope
  -- json.Marshal of the object with the warmup's details and the probe
  pub marshal_evidence : String → String → String

-- The text of what `prove_chains` refuses; it has no other failure.
abbrev pub refusal_text : Failure → String
refusal_text (not_increased chain) =
    str_append "chain " (str_append chain " counters did not increase")
refusal_text other = ""

abbrev pub refusal : Option Failure → Option String
refusal none = none
refusal (some f) = some (refusal_text f)

-- Prove of internal/netfilter/manager.go, on two texts that were read.
abbrev pub prove_decoded :
    Manager → String ⊎ Counters.Observation → String ⊎ Counters.Observation → Option String
prove_decoded m (inl e) after = some e
prove_decoded m (inr before) (inl e) = some e
prove_decoded m (inr before) (inr after) = refusal (Counters.prove m before after)

abbrev pub delta_error : Option Stats → Option String
delta_error none = some "interface counters moved backwards"
delta_error (some d) = none

abbrev pub both_grew : Option Stats → Bool
both_grew none = false
both_grew (some d) = ltb 0 d.rx_packets && ltb 0 d.tx_packets

unfoldable pub activity_error : String → Bool → Option String
activity_error kind redirected =
    if str_eq kind subject_tun && not redirected
    then some "TUN RX/TX counters did not both increase"
    else none

unfoldable pub backend_error : String → TunObservation → TunObservation → Option String
backend_error kind before after =
    if str_eq kind subject_tun_auto
    then if str_eq before.backend ""
        || str_eq after.backend ""
        || not (str_eq before.backend after.backend)
      then some "auto_redirect backend was not stable across warmup"
      else if leb after.backend_packets before.backend_packets
      then some "auto_redirect NFQUEUE counters did not increase"
      else none
    else none

abbrev pub tun_method : String → Bool → String
tun_method kind redirected =
    if str_eq kind subject_tun_auto
    then if redirected
      then "auto_redirect NFQUEUE counter delta, TUN RX/TX counter deltas, and server-confirmed redirected tuple"
      else "auto_redirect NFQUEUE counter delta plus server-confirmed direct PreMatch tuple"
    else "TUN RX/TX counter deltas plus server-confirmed redirected tuple"

module _ (env : Env) (m : Managed) where
  open env use {externals, decode_counters, decode_tun, decode_diagnostics, marshal_evidence}

  abbrev pub subject_kind : String
  subject_kind = m.config.subject.kind

  abbrev pub socket_error : WarmupEvidence → Bool → String → Option String
  socket_error warmup redirected cgroup_path =
      validate_socket_path_evidence externals warmup.details redirected
        m.config.execution.worker_uid cgroup_path

  unfoldable pub prove_direct : PathProof → WarmupEvidence → PathProof
  prove_direct proof warmup =
      let proof_error = socket_error warmup true "" in
      record proof {
        valid = is_nil proof_error;
        method =
            "server-confirmed outbound socket tuple distinct from the worker tuple through the dedicated direct listener";
        error = error_text proof_error;
      }

  unfoldable pub prove_netfilter : Manager → PathProof → WarmupEvidence → PathProof
  prove_netfilter manager proof warmup =
      let counter_err =
        prove_decoded manager (decode_counters proof.before) (decode_counters proof.after) in
      let socket_err = socket_error warmup true "" in
      record proof {
        valid = is_nil counter_err && is_nil socket_err;
        method = "run-owned netfilter chain counters plus server-confirmed redirected tuple";
        error = error_text (join counter_err socket_err);
      }

  unfoldable pub prove_tun : PathProof → WarmupEvidence → PathProof
  prove_tun proof warmup =
      let (before_tun, before_err) = decode_tun proof.before in
      let (after_tun, after_err) = decode_tun proof.after in
      let decode_err = join before_err after_err in
      let delta = Netdev.delta before_tun.interface after_tun.interface in
      let delta_err = delta_error delta in
      let redirected = both_grew delta in
      let socket_err = socket_error warmup redirected "" in
      let activity_err = activity_error subject_kind redirected in
      let backend_err = backend_error subject_kind before_tun after_tun in
      record proof {
        valid =
            is_nil decode_err
            && is_nil delta_err
            && is_nil activity_err
            && is_nil backend_err
            && is_nil socket_err;
        method = tun_method subject_kind redirected;
        error =
            error_text
              (join (join (join (join decode_err delta_err) activity_err) backend_err) socket_err);
      }

  abbrev pub ebpf_error : String → Option String → String
  ebpf_error message none = message
  ebpf_error message (some e) =
      if str_eq message "" then e else str_append message (str_append "\n" e)

  abbrev pub ebpf_cgroup_path : String
  ebpf_cgroup_path =
      if str_eq subject_kind subject_ebpf_cgroup then m.config.subject.cgroup_path else ""

  unfoldable pub prove_ebpf : PathProof → WarmupEvidence → PathProof × Option String
  prove_ebpf proof warmup =
      let (valid, message, err) =
        validate_ebpf_diagnostics externals.clean m.config.subject decode_diagnostics proof.after in
      let proof_error = socket_error warmup true ebpf_cgroup_path in
      (
        record proof {
          valid = valid && is_nil proof_error;
          method =
              "runtime eBPF attachment plus pre-socket worker identity and server-confirmed redirected tuple";
          error = ebpf_error message proof_error;
          evidence = marshal_evidence warmup.details m.kernel_probe;
        },
        err,
      )

  -- The branches behind that of the direct listener.
  abbrev pub prove_interception :
      Option Manager → PathProof → WarmupEvidence → PathProof × Option String
  prove_interception (some manager) proof warmup = (prove_netfilter manager proof warmup, none)
  prove_interception none proof warmup =
      if str_eq subject_kind subject_tun || str_eq subject_kind subject_tun_auto
      then (prove_tun proof warmup, none)
      else prove_ebpf proof warmup

  abbrev pub new_proof : ℕ → Observation → Observation → WarmupEvidence → PathProof
  new_proof now before after warmup = record no_proof {
    observed_at = now;
    before = before.content;
    after = after.content;
    evidence = warmup.details;
  }

  unfoldable pub prove_path :
      ℕ → Observation → Observation → WarmupEvidence → PathProof × Option String
  prove_path now before after warmup =
      let proof = new_proof now before after warmup in
      if not warmup.valid
      then (record proof { error = "end-to-end warmup token failed" }, none)
      else if str_eq subject_kind subject_direct
      then (prove_direct proof warmup, none)
      else prove_interception m.netfilter proof warmup
