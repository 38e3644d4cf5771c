-- ===== src/Protocol/Config/Samples.antt =====
-- A network and a configuration that the tests share: a raw subject under a UDP workload.
use sing_box_inbound_bench.Base.{[], ◌∷◌, true, false, some, none, ◌≡◌, refl}
use sing_box_inbound_bench.Base.Int.{pos, add_int}
use sing_box_inbound_bench.Text.{bytes, utf8}
use sing_box_inbound_bench.Protocol.Endpoint.{ip4}
use sing_box_inbound_bench.Protocol.Config.{Config, version, contains_text}
use sing_box_inbound_bench.Protocol.Config.Errors.{NetText, check}
use sing_box_inbound_bench.Protocol.Config.Workload.{
  valid_mode, protocol_errors, target_errors, payload_errors, socket_mode_errors, limit_errors,
  scheduled_packets, packets_of, rate_errors, worker_errors, workload_errors,
}
use sing_box_inbound_bench.Protocol.Config.Subject.{
  proxy_errors, tun_errors, direct_errors, ebpf_errors,
}
use sing_box_inbound_bench.Protocol.Config.Validate.{
  is_alphanumeric, all_run_id, run_id_pattern, identity_errors, execution_errors, subject_errors,
  validate,
}

-- One address, 10.0.0.1, behind every text.
abbrev pub one_host : NetText
one_host = record {
  split_host_port = λ text. some "10.0.0.1";
  parse_ip = λ text. some (ip4 (10 ∷ 0 ∷ 0 ∷ 1 ∷ []));
  is_loopback = λ ip. false;
  parse_addr_port = λ text. none;
  is_cidr = λ text. true;
  clean = λ text. text;
}

abbrev pub pps_config : Config
pps_config = record {
  protocol_version = version;
  run_id = "pps.1";
  subject = record {
    kind = "raw";
    sing_box_binary = "";
    listen = "";
    target = "";
    outbound_interface = "";
    cgroup_path = "";
    include_uid = [];
    api_listen = "";
    api_token = "";
    extra_arguments = [];
    tun_name = "";
    tun_address = [];
    mtu = 0;
    firewall_binary = "";
    ip_binary = "";
    mark = 0;
    route_table = pos 0;
    rule_priority = pos 0;
  };
  workload = record {
    protocol = "udp";
    mode = "pps";
    target = "10.0.0.1:9000";
    payload_bytes = pos 1432;
    requests = pos 0;
    duration_ms = pos 1500;
    connections = pos 1;
    flows = pos 64;
    offered_pps = pos 1000;
    udp_socket_mode = "connected";
    timeout_ms = pos 2000;
  };
  execution = record {
    warmup_repetitions = pos 1;
    repetitions = pos 5;
    output_directory = "results";
    temporary_directory = "";
    startup_timeout_ms = pos 10000;
    worker_uid = none;
  };
}

pub pps_config_accepted : validate one_host pps_config ≡ []
unfolding validate identity_errors contains_text workload_errors execution_errors subject_errors
    proxy_errors tun_errors direct_errors ebpf_errors valid_mode protocol_errors target_errors
    payload_errors socket_mode_errors limit_errors scheduled_packets packets_of rate_errors
    worker_errors check run_id_pattern all_run_id is_alphanumeric bytes utf8 add_int
pps_config_accepted = refl
