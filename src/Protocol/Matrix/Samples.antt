-- ===== src/Protocol/Matrix/Samples.antt =====
-- A matrix of one case with a control, both a raw subject, which the tests share.
use sing_box_inbound_bench.Base.{[], ◌∷◌, true, false, some, ◌≡◌, refl}
use sing_box_inbound_bench.Base.Int.{pos, add_int}
use sing_box_inbound_bench.Text.{bytes, utf8}
use sing_box_inbound_bench.Protocol.Config.{Config, version, contains_text}
use sing_box_inbound_bench.Protocol.Config.Samples.{one_host, pps_config}
use sing_box_inbound_bench.Protocol.Config.Defaults.{
  apply_defaults, or_text, or_int, or_uint, workload_defaults, execution_defaults, subject_defaults,
}
use sing_box_inbound_bench.Protocol.Config.Errors.{check}
use sing_box_inbound_bench.Protocol.Config.Workload.{
  valid_mode, protocol_errors, target_errors, payload_errors, socket_mode_errors, limit_errors,
  scheduled_packets, packets_of, rate_errors, worker_errors, workload_errors,
}
use sing_box_inbound_bench.Protocol.Config.Subject.{
  proxy_errors, tun_errors, direct_errors, ebpf_errors,
}
use sing_box_inbound_bench.Protocol.Config.Validate.{
  is_alphanumeric, all_run_id, run_id_pattern, identity_errors, execution_errors, subject_errors,
  validate,
}
use sing_box_inbound_bench.Protocol.Matrix.{
  MatrixConfig, fault, wrapped, check_cases, judge_control, check_control, header_errors,
  no_case_errors, normalize_and_validate_matrix,
}

abbrev pub raw_control : Config
raw_control = record pps_config { run_id = "raw-control" }

abbrev pub one_case : MatrixConfig
one_case = record {
  protocol_version = version;
  matrix_id = "sample";
  seed = pos 7;
  output_directory = "results";
  cooldown_ms = pos 0;
  fail_fast = false;
  resume = true;
  raw_control = some raw_control;
  cases = pps_config ∷ [];
}

pub one_case_accepted : (normalize_and_validate_matrix one_host one_case).1 ≡ []
unfolding normalize_and_validate_matrix header_errors fault wrapped check_cases judge_control
    check_control no_case_errors apply_defaults or_text or_int or_uint workload_defaults
    execution_defaults subject_defaults validate identity_errors contains_text workload_errors
    execution_errors subject_errors proxy_errors tun_errors direct_errors ebpf_errors valid_mode
    protocol_errors target_errors payload_errors socket_mode_errors limit_errors scheduled_packets
    packets_of rate_errors worker_errors check run_id_pattern all_run_id is_alphanumeric bytes utf8
    add_int
one_case_accepted = refl
