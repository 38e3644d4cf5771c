-- ===== src/Subject/Managed/Tests.antt =====
-- A TC subject of internal/subject/singbox with a healthy inbound.
use sing_box_inbound_bench.Base.{
  ℕ, true, false, [], ◌∷◌, none, some, String, str_append, ◌≡◌, ◌↔◌, refl, ◌⊎◌, inl, inr,
}
use sing_box_inbound_bench.Netdev.{Stats}
use sing_box_inbound_bench.Protocol.Config.{Config, subject_ebpf_tc}
use sing_box_inbound_bench.Protocol.Config.Samples.{pps_config}
use sing_box_inbound_bench.Protocol.Endpoint.{unmap}
use sing_box_inbound_bench.Runner.{Observation, WarmupEvidence}
use sing_box_inbound_bench.Text.{itoa, digits}
use sing_box_inbound_bench.Subject.Evidence.{
  validate_socket_path_evidence, check_result, check_cgroup, check_paths, canonical_endpoint,
  compare_tuples, parsed_addr, eq_ip,
}
use sing_box_inbound_bench.Subject.Diagnostics.{
  EbpfInboundDiagnostics, DiagnosticsEnvelope, attached, any_attached, validate_ebpf_inbound,
  find_benchmark, decode_benchmark_inbound, validate_ebpf_diagnostics, validate_runtime_diagnostics,
  compare_inbounds, validate_failure_counter_deltas, failure_counters, counter_of, changes,
  join_lines,
}
use sing_box_inbound_bench.Subject.Diagnostics.Unharmed.{
  Unharmed, validate_runtime_diagnostics-Unharmed,
}
use sing_box_inbound_bench.Subject.Managed.{Managed, TunObservation, Env, prove_path, prove_ebpf}
use sing_box_inbound_bench.Subject.Managed.Spec.{Shows}
use sing_box_inbound_bench.Subject.Managed.Shows.{prove_path-Shows}
use sing_box_inbound_bench.Subject.Samples.{library, library-Laws}

-- An inbound whose queue has dropped `drops` packets.
abbrev inbound : ℕ → EbpfInboundDiagnostics
inbound drops = record {
  tag = "benchmark-ebpf-in";
  state = "normal";
  local_enabled = true;
  local_data_plane = "tc";
  last_error = "";
  recovery_pending = false;
  recovery_unrecoverable = false;
  attachments = record { interface_name = "wlan0"; role = "local"; mechanism = "clsact" } ∷ [];
  counters = record {
    assignment_lookup_failures = 0;
    tc_socket_lookup_failures = 1;
    tc_sk_assign_failures = 0;
    tc_assignment_update_failures = 0;
    token_reservation_failures = 0;
    rewrite_failures = 0;
    shared_reconcile_failures = 0;
    recovery_attempts = 0;
    recovery_failures = 0;
    fake_ip_icmp_rewrite_failure_drops = 0;
  };
  udp_nat = record {
    capacity_evictions = 0;
    queue_drops = drops;
    pending_release_capacity_rejected = 0;
    release_notification_drops = 0;
  };
}

abbrev decode : String → String ⊎ DiagnosticsEnvelope
decode String.[] = inr (record { inbounds = inbound 0 ∷ []; kernel_runtime = "" })
decode (String.◌∷◌ c s) = inr (record { inbounds = inbound 5 ∷ []; kernel_runtime = "" })

abbrev tc_config : Config
tc_config = record pps_config {
  subject = record pps_config.subject { kind = subject_ebpf_tc; outbound_interface = "wlan0" };
}

abbrev zeros : Stats
zeros = record {
  rx_bytes = 0;
  rx_packets = 0;
  rx_errors = 0;
  rx_dropped = 0;
  tx_bytes = 0;
  tx_packets = 0;
  tx_errors = 0;
  tx_dropped = 0;
}

abbrev no_tun : TunObservation
no_tun = record { interface = zeros; backend = ""; backend_state = ""; backend_packets = 0 }

abbrev env : Env
env = record {
  externals = library;
  decode_counters = λ text. inl "no counters";
  decode_tun = λ text. (no_tun, some "no interface");
  decode_diagnostics = decode;
  marshal_evidence = λ details probe. str_append details probe;
}

abbrev tc : Managed
tc = record { config = tc_config; netfilter = none; kernel_probe = "" }

abbrev observation : Observation
observation = record { captured_at = 0; content = "" }

abbrev warmup : WarmupEvidence
warmup = record { valid = true; token = "t"; details = "10.0.0.3:50000" }

prove_path-Shows_example : (warmup.valid ≡ true) × Shows env tc observation observation warmup
unfolding prove_path prove_ebpf validate_ebpf_diagnostics decode_benchmark_inbound find_benchmark
    validate_ebpf_inbound any_attached attached validate_socket_path_evidence check_result
    check_cgroup check_paths canonical_endpoint compare_tuples parsed_addr eq_ip unmap
prove_path-Shows_example =
    prove_path-Shows env tc library-Laws 0 observation observation warmup refl

validate_runtime_diagnostics-Unharmed_example :
    (validate_runtime_diagnostics library.clean tc_config.subject decode "" "" ≡ none) ↔ (
      (b : EbpfInboundDiagnostics) × (a : EbpfInboundDiagnostics) × (decode_benchmark_inbound
          library.clean tc_config.subject decode ""
        ≡ inr b)
      × (decode_benchmark_inbound library.clean tc_config.subject decode "" ≡ inr a)
      × Unharmed library.clean tc_config.subject b a)
validate_runtime_diagnostics-Unharmed_example =
    validate_runtime_diagnostics-Unharmed library.clean tc_config.subject decode "" ""

drops_seen :
    validate_runtime_diagnostics library.clean tc_config.subject decode "" "x"
    ≡ some "eBPF failure counters changed during measurement: udp_nat.queue_drops increased by 5"
unfolding validate_runtime_diagnostics compare_inbounds decode_benchmark_inbound find_benchmark
    validate_ebpf_inbound any_attached attached validate_failure_counter_deltas failure_counters
    counter_of changes join_lines itoa digits
drops_seen = refl
