-- ===== src/Protocol/Config/Defaults.antt =====
-- internal/protocol/protocol.go: ApplyDefaults.
use sing_box_inbound_bench.Base.{ℕ, String, str_append, str_eq, Bool, ◌||◌, ◌==◌, if◌then◌else◌}
use sing_box_inbound_bench.Base.Int.{ℤ, pos, eq_ℤ}
use sing_box_inbound_bench.Text.{bytes, hex8_lower}
use sing_box_inbound_bench.Wire.{crc32}
use sing_box_inbound_bench.Protocol.Config.{
  Config, SubjectConfig, WorkloadConfig, ExecutionConfig, version, protocol_udp,
  udp_socket_connected, subject_tun, subject_tun_auto, subject_tproxy,
}

unfoldable pub or_int : ℤ → ℤ → ℤ
or_int x default = if eq_ℤ x (pos 0) then default else x

unfoldable pub or_uint : ℕ → ℕ → ℕ
or_uint x default = if x == 0 then default else x

unfoldable pub or_text : String → String → String
or_text x default = if str_eq x "" then default else x

abbrev pub is_tun : String → Bool
is_tun kind = str_eq kind subject_tun || str_eq kind subject_tun_auto

abbrev pub default_tun_name : String → String
default_tun_name run_id = str_append "sbi" (hex8_lower (crc32 (bytes run_id)))

unfoldable pub workload_defaults : WorkloadConfig → WorkloadConfig
workload_defaults w = record w {
  payload_bytes = or_int w.payload_bytes (pos 64);
  connections = or_int w.connections (pos 1);
  flows = or_int w.flows (pos 1);
  timeout_ms = or_int w.timeout_ms (pos 2000);
  udp_socket_mode =
      if str_eq w.protocol protocol_udp
      then or_text w.udp_socket_mode udp_socket_connected
      else w.udp_socket_mode;
}

unfoldable pub execution_defaults : ExecutionConfig → ExecutionConfig
execution_defaults e = record e {
  repetitions = or_int e.repetitions (pos 5);
  startup_timeout_ms = or_int e.startup_timeout_ms (pos 10000);
}

unfoldable pub subject_defaults : String → SubjectConfig → SubjectConfig
subject_defaults run_id s = record s {
  tun_name = if is_tun s.kind then or_text s.tun_name (default_tun_name run_id) else s.tun_name;
  mtu = if is_tun s.kind then or_uint s.mtu 1500 else s.mtu;
  mark = if str_eq s.kind subject_tproxy then or_uint s.mark 0x00800000 else s.mark;
  route_table =
      if str_eq s.kind subject_tproxy then or_int s.route_table (pos 20230) else s.route_table;
  rule_priority =
      if str_eq s.kind subject_tproxy then or_int s.rule_priority (pos 12000) else s.rule_priority;
}

unfoldable pub apply_defaults : Config → Config
apply_defaults c = record c {
  protocol_version = or_text c.protocol_version version;
  subject = subject_defaults c.run_id c.subject;
  workload = workload_defaults c.workload;
  execution = execution_defaults c.execution;
}
