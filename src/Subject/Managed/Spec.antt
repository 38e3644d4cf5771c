-- ===== src/Subject/Managed/Spec.antt =====
-- internal/subject/singbox/subject.go: what a proof of ProvePath is to show, for each kind of subject.
use sing_box_inbound_bench.Base.{◌<◌, ◌≡◌, ◌≢◌, Bool, true, ◌&&◌, ltb, String, All, none, some, inr}
use sing_box_inbound_bench.Netdev
use sing_box_inbound_bench.Netdev.{Stats}
use sing_box_inbound_bench.Netfilter.{Manager, chains}
use sing_box_inbound_bench.Netfilter.Counters
use sing_box_inbound_bench.Netfilter.Counters.{Grew, prove-Grew}
use sing_box_inbound_bench.Protocol.Config.{subject_direct, subject_tun, subject_tun_auto}
use sing_box_inbound_bench.Runner.{Observation, WarmupEvidence, is_nil, is_nil-none}
use sing_box_inbound_bench.Subject.Evidence.{Laws, WarmupResult}
use sing_box_inbound_bench.Subject.Evidence.Proven.{Proven, validate_socket_path_evidence-Proven}
use sing_box_inbound_bench.Subject.Diagnostics.{EbpfInboundDiagnostics, decode_benchmark_inbound}
use sing_box_inbound_bench.Subject.Diagnostics.Unharmed.{Attached}
use sing_box_inbound_bench.Subject.Managed.{
  Managed, TunObservation, Env, subject_kind, socket_error, ebpf_cgroup_path,
}

-- Both observations were read, and each chain of the manager grew.
pub record ChainsGrew (env : Env) (manager : Manager) (before after : Observation) : Type 0 where
  pub first : Counters.Observation
  pub second : Counters.Observation
  pub first_read : env.decode_counters before.content ≡ inr first
  pub second_read : env.decode_counters after.content ≡ inr second
  pub grew : All (λ c. Grew c first second) (chains manager)

-- Both observations were read, no counter of the interface moved back, and `d` is what was added.
pub record TunRead (env : Env) (before after : Observation) : Type 0 where
  pub first : TunObservation
  pub second : TunObservation
  pub first_read : env.decode_tun before.content ≡ (first, none)
  pub second_read : env.decode_tun after.content ≡ (second, none)
  pub d : Stats
  pub added : Netdev.delta first.interface second.interface ≡ some d

pub record QueueGrew (first second : TunObservation) : Type 0 where
  pub known : first.backend ≢ ""
  pub stable : first.backend ≡ second.backend
  pub packets_grew : first.backend_packets < second.backend_packets

module _ (env : Env) (m : Managed) where
  abbrev pub Evidenced : WarmupEvidence → Bool → String → Type 0
  Evidenced warmup redirected cgroup_path =
      (result : WarmupResult) × (env.externals.decode_result warmup.details ≡ inr result)
      × Proven env.externals redirected m.config.execution.worker_uid cgroup_path result

  -- The kind is none of those that show the path in a way of their own.
  pub record IsOtherKind : Type 0 where
    pub no_manager : m.netfilter ≡ none
    pub not_direct : subject_kind env m ≢ subject_direct
    pub not_tun : subject_kind env m ≢ subject_tun
    pub not_tun_auto : subject_kind env m ≢ subject_tun_auto

  -- Each kind of subject has one way to show the path: the direct one, one with a manager, each of the two
  -- of TUN, and, of those that are left, eBPF.
  pub data Shows (before after : Observation) (warmup : WarmupEvidence) : Type 0 where
    by_direct :
        subject_kind env m ≡ subject_direct → Evidenced warmup true "" → Shows before after warmup
    by_netfilter :
        (manager : Manager)
        → subject_kind env m ≢ subject_direct
        → m.netfilter ≡ some manager
        → ChainsGrew env manager before after
        → Evidenced warmup true ""
        → Shows before after warmup
    by_tun :
        subject_kind env m ≡ subject_tun
        → m.netfilter ≡ none
        → (read : TunRead env before after) → 0 < read.d.rx_packets
        → 0 < read.d.tx_packets
        → Evidenced warmup true ""
        → Shows before after warmup
    by_tun_auto :
        subject_kind env m ≡ subject_tun_auto
        → m.netfilter ≡ none
        → (read : TunRead env before after) → QueueGrew read.first read.second
        → Evidenced warmup (ltb 0 read.d.rx_packets && ltb 0 read.d.tx_packets) ""
        → Shows before after warmup
    by_ebpf :
        (inbound : EbpfInboundDiagnostics)
        → IsOtherKind
        → decode_benchmark_inbound env.externals.clean m.config.subject env.decode_diagnostics
            after.content
          ≡ inr inbound
        → Attached env.externals.clean m.config.subject inbound
        → Evidenced warmup true (ebpf_cgroup_path env m)
        → Shows before after warmup

  pub socket-Evidenced :
      (laws : Laws env.externals) (warmup : WarmupEvidence) (redirected : Bool)
      (cgroup_path : String)
      → is_nil (socket_error env m warmup redirected cgroup_path) ≡ true
      → Evidenced warmup redirected cgroup_path
  socket-Evidenced laws warmup redirected cgroup_path h =
      (validate_socket_path_evidence-Proven env.externals laws warmup.details redirected
          m.config.execution.worker_uid cgroup_path).0
        ((is_nil-none _).0 h)
