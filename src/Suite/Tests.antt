-- ===== src/Suite/Tests.antt =====
-- Tests of the generator, and the theorems about it at a sample.
use sing_box_inbound_bench.Base.{[], ◌∷◌, String, false, some, ◌≡◌, refl}
use sing_box_inbound_bench.Base.Int.{pos, negsuc, add_int}
use sing_box_inbound_bench.Text.{bytes, utf8, has_prefix, itoa, digits}
use sing_box_inbound_bench.Protocol.Endpoint.{Endpoint, ip4}
use sing_box_inbound_bench.Protocol.Config.{contains_text}
use sing_box_inbound_bench.Protocol.Config.Samples.{one_host}
use sing_box_inbound_bench.Protocol.Config.Defaults.{
  apply_defaults, or_text, or_int, or_uint, workload_defaults, execution_defaults, subject_defaults,
}
use sing_box_inbound_bench.Protocol.Config.Errors.{check, NetText}
use sing_box_inbound_bench.Protocol.Config.Workload.{
  valid_mode, protocol_errors, target_errors, payload_errors, socket_mode_errors, limit_errors,
  scheduled_packets, packets_of, rate_errors, worker_errors, workload_errors,
}
use sing_box_inbound_bench.Protocol.Config.Subject.{
  proxy_errors, tun_errors, direct_errors, ebpf_errors,
}
use sing_box_inbound_bench.Protocol.Config.Validate.{
  is_alphanumeric, all_run_id, run_id_pattern, identity_errors, execution_errors, subject_errors,
  validate,
}
use sing_box_inbound_bench.Protocol.Matrix.{
  MatrixConfig, fault, wrapped, check_cases, judge_control, check_control, header_errors,
  no_case_errors, normalize_and_validate_matrix,
}
use sing_box_inbound_bench.Protocol.Matrix.Accepted.{IsRunnable}
use sing_box_inbound_bench.Protocol.Matrix.Samples.{one_case}
use sing_box_inbound_bench.Suite.{
  Options, Checked, accepted, rejected, and_then, has_negative, fill, fill_preset, fill_rest,
  apply_preset_defaults, mark, remove, pick, picked, selected_subjects,
}
use sing_box_inbound_bench.Suite.Templates.{
  base, templates, idle_template, has_suffix, last_number, configure_mode, configure, all_templates,
  preset_names, selected_names, available, limit_requests, select_one, select, workloads,
}
use sing_box_inbound_bench.Suite.Build.{
  empty_subject, add_case, default_options, read_raw_target, normalized, managed_subject,
  build_subject, build_config, case_config, control_config, subject_cases, all_cases, matrix_of,
  generate_for, generate,
}
use sing_box_inbound_bench.Suite.Laws.{Generated, generate-IsRunnable}

abbrev target : Endpoint
target = record { ip = ip4 (10 ∷ 0 ∷ 0 ∷ 1 ∷ []); port = 9000 }

abbrev host : NetText
host = record one_host { parse_addr_port = λ text. some target }

abbrev print : Endpoint → String
print e = "10.0.0.1:9000"

abbrev options : Options
options = record {
  matrix_id = "";
  output_directory = "results";
  sing_box_binary = "sing-box";
  target = "10.0.0.1:9000";
  raw_target = "";
  outbound_interface = "eth0";
  worker_uid = 1000;
  seed = pos 0;
  warmup_repetitions = negsuc 0;
  repetitions = pos 0;
  duration = pos 0;
  idle_duration = pos 0;
  requests = pos 0;
  udp_pps = pos 0;
  udp_mtu_pps = pos 0;
  cooldown_ms = pos 0;
  fail_fast = false;
  preset = "smoke";
  subjects = "raw" ∷ [];
  workloads = "udp-rtt" ∷ "tcp-short-32" ∷ [];
}

abbrev value : Checked MatrixConfig → MatrixConfig
value (accepted m) = m
value (rejected e) = one_case

generated_accepted : generate print host options ≡ accepted (value (generate print host options))
unfolding generate generate_for matrix_of all_cases subject_cases control_config case_config
    build_config build_subject managed_subject normalized read_raw_target default_options add_case
    empty_subject workloads select select_one limit_requests available selected_names preset_names
    all_templates configure configure_mode last_number has_suffix idle_template templates base
    selected_subjects picked pick remove mark apply_preset_defaults fill_rest fill_preset fill
    has_negative and_then normalize_and_validate_matrix no_case_errors header_errors check_control
    judge_control check_cases wrapped fault validate subject_errors execution_errors identity_errors
    run_id_pattern all_run_id is_alphanumeric ebpf_errors direct_errors tun_errors proxy_errors
    workload_errors worker_errors rate_errors packets_of scheduled_packets limit_errors
    socket_mode_errors payload_errors target_errors protocol_errors valid_mode check
    subject_defaults execution_defaults workload_defaults or_uint or_int or_text apply_defaults
    contains_text bytes utf8 has_prefix itoa digits add_int
generated_accepted = refl

generate-IsRunnable_example :
    Generated print host options (value (generate print host options))
    × IsRunnable host (value (generate print host options))
    × (normalize_and_validate_matrix host (value (generate print host options))
        ≡ (value (generate print host options), []))
generate-IsRunnable_example =
    generate-IsRunnable print host options (value (generate print host options)) generated_accepted

abbrev filled : Options
filled = record options {
  warmup_repetitions = pos 0;
  repetitions = pos 1;
  duration = pos 1000;
  idle_duration = pos 1000;
  udp_pps = pos 10000;
  udp_mtu_pps = pos 10000;
}

options_accepted : apply_preset_defaults options ≡ accepted filled
unfolding apply_preset_defaults has_negative fill_preset fill fill_rest and_then or_int
options_accepted = refl

subjects_selected : selected_subjects ("tun" ∷ "raw" ∷ []) ≡ accepted ("raw" ∷ "tun" ∷ [])
unfolding selected_subjects mark pick remove picked and_then contains_text
subjects_selected = refl
