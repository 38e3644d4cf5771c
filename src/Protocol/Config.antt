-- ===== src/Protocol/Config.antt =====
-- internal/protocol/protocol.go: the configuration of a run. A kind, a protocol and a mode are texts, as
-- they are in the program; an int is an integer and a uint32 a natural number.
pub mod Defaults
pub mod Idempotent
pub mod Errors
pub mod Workload
pub mod Subject
pub mod Validate
pub mod Accepted
pub mod Schedule
pub mod Samples
mod Tests
use sing_box_inbound_bench.Base.{
  ℕ, String, List, [], ◌∷◌, Option, Bool, true, false, ◌||◌, str_eq, if◌then◌else◌,
}
use sing_box_inbound_bench.Base.Int.{ℤ}

abbrev pub version : String
version = "inbound-bench/v3"

abbrev pub subject_raw : String
subject_raw = "raw"

abbrev pub subject_direct : String
subject_direct = "direct"

abbrev pub subject_ebpf_tc : String
subject_ebpf_tc = "ebpf-tc"

abbrev pub subject_ebpf_cgroup : String
subject_ebpf_cgroup = "ebpf-cgroup"

abbrev pub subject_redirect : String
subject_redirect = "redirect"

abbrev pub subject_tproxy : String
subject_tproxy = "tproxy"

abbrev pub subject_tun : String
subject_tun = "tun"

abbrev pub subject_tun_auto : String
subject_tun_auto = "tun-auto-redirect"

abbrev pub subject_kinds : List String
subject_kinds =
    subject_raw ∷ subject_direct ∷ subject_redirect ∷ subject_tproxy ∷ subject_tun
    ∷ subject_tun_auto ∷ subject_ebpf_tc ∷ subject_ebpf_cgroup ∷ []

abbrev pub protocol_tcp : String
protocol_tcp = "tcp"

abbrev pub protocol_udp : String
protocol_udp = "udp"

abbrev pub mode_echo : String
mode_echo = "echo"

abbrev pub mode_bulk_upload : String
mode_bulk_upload = "bulk-upload"

abbrev pub mode_bulk_download : String
mode_bulk_download = "bulk-download"

abbrev pub mode_short : String
mode_short = "short"

abbrev pub mode_idle : String
mode_idle = "idle"

abbrev pub mode_pps : String
mode_pps = "pps"

abbrev pub mode_standby : String
mode_standby = "standby"

abbrev pub udp_socket_connected : String
udp_socket_connected = "connected"

abbrev pub udp_socket_unconnected : String
udp_socket_unconnected = "unconnected"

pub record SubjectConfig : Type 0 where
  pub kind : String
  pub sing_box_binary : String
  pub listen : String
  pub target : String
  pub outbound_interface : String
  pub cgroup_path : String
  pub include_uid : List ℕ
  pub api_listen : String
  pub api_token : String
  pub extra_arguments : List String
  pub tun_name : String
  pub tun_address : List String
  pub mtu : ℕ
  pub firewall_binary : String
  pub ip_binary : String
  pub mark : ℕ
  pub route_table : ℤ
  pub rule_priority : ℤ

pub record WorkloadConfig : Type 0 where
  pub protocol : String
  pub mode : String
  pub target : String
  pub payload_bytes : ℤ
  pub requests : ℤ
  pub duration_ms : ℤ
  pub connections : ℤ
  pub flows : ℤ
  pub offered_pps : ℤ
  pub udp_socket_mode : String
  pub timeout_ms : ℤ

pub record ExecutionConfig : Type 0 where
  pub warmup_repetitions : ℤ
  pub repetitions : ℤ
  pub output_directory : String
  pub temporary_directory : String
  pub startup_timeout_ms : ℤ
  pub worker_uid : Option ℕ

pub record Config : Type 0 where
  pub protocol_version : String
  pub run_id : String
  pub subject : SubjectConfig
  pub workload : WorkloadConfig
  pub execution : ExecutionConfig

-- `slices.Contains`
unfoldable pub contains_text : List String → String → Bool
contains_text [] text = false
contains_text (x ∷ xs) text = str_eq x text || contains_text xs text
