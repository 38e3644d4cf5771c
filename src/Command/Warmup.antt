-- ===== src/Command/Warmup.antt =====
-- cmd/inbound-bench/main.go, warmupWorkload and makeWorkerRequest, and internal/worker/worker.go, the
-- checks of ReadRequest: the warmup before a measurement, as its worker process receives it.
pub mod Accepted
mod Tests
use sing_box_inbound_bench.Base.{
  ℕ, zero, suc, ◌+◌, ◌<◌, ◌≤◌, List, [], ◌∷◌, ◌++◌, String, str_eq, Bool, true, false, not, ◌&&◌,
  ◌||◌, Option, none, some, if◌then◌else◌, if-true, if-false, subst, sym, ap, ◌∙◌, ◌≡◌, refl, arith,
  append-[],
}
use sing_box_inbound_bench.Base.Int.{ℤ, pos, negsuc, pos_part, min_ℤ, max_ℤ, ltb_ℤ, eq_ℤ}
use sing_box_inbound_bench.Protocol.Config.{
  Config, WorkloadConfig, SubjectConfig, ExecutionConfig, version, mode_echo, mode_pps, subject_raw,
  subject_ebpf_cgroup, protocol_tcp, protocol_udp,
}
use sing_box_inbound_bench.Protocol.Config.Errors.{ConfigError, check, check-[], NetText}
use sing_box_inbound_bench.Protocol.Config.Validate.{
  validate, identity_errors, execution_errors, subject_errors,
}

-- The workers of a warmup: between one and eight.
unfoldable pub warmup_workers : ℤ → ℤ
warmup_workers n = min_ℤ (max_ℤ n (pos 1)) (pos 8)

unfoldable pub warmup_workload : WorkloadConfig → WorkloadConfig
warmup_workload w =
    let connections = warmup_workers w.connections in
    let flows = warmup_workers w.flows in
    record w {
      connections = connections;
      flows = flows;
      requests = max_ℤ (max_ℤ (pos 8) connections) flows;
      duration_ms = pos 0;
      mode = mode_echo;
      payload_bytes = min_ℤ w.payload_bytes (pos 64);
      offered_pps = pos 0;
    }

pub record Request : Type 0 where
  pub protocol_version : String
  pub run_id : String
  pub index : ℕ
  pub workload : WorkloadConfig
  pub worker_uid : Option ℕ
  pub cgroup_path : String
  pub collect_proof : Bool

abbrev pub make_worker_request : Config → ℕ → Bool → Request
make_worker_request c index collect_proof = record {
  protocol_version = version;
  run_id = c.run_id;
  index = index;
  workload = c.workload;
  worker_uid = c.execution.worker_uid;
  cgroup_path = if str_eq c.subject.kind subject_ebpf_cgroup then c.subject.cgroup_path else "";
  collect_proof = collect_proof;
}

-- The request of runWarmup.
abbrev pub warmup_request : Config → ℕ → Request
warmup_request c index =
    make_worker_request (record c { workload = warmup_workload c.workload }) index true

-- The configuration that ReadRequest has validated in place of the request.
abbrev pub validation : Request → Config
validation r = record {
  protocol_version = version;
  run_id = r.run_id;
  subject = record {
    kind = subject_raw;
    sing_box_binary = "";
    listen = "";
    target = "";
    outbound_interface = "";
    cgroup_path = "";
    include_uid = [];
    api_listen = "";
    api_token = "";
    extra_arguments = [];
    tun_name = "";
    tun_address = [];
    mtu = 0;
    firewall_binary = "";
    ip_binary = "";
    mark = 0;
    route_table = pos 0;
    rule_priority = pos 0;
  };
  workload = r.workload;
  execution = record {
    warmup_repetitions = pos 0;
    repetitions = pos 1;
    output_directory = ".";
    temporary_directory = "";
    startup_timeout_ms = pos 0;
    worker_uid = none;
  };
}

-- What ReadRequest checks of a request that it has decoded.
unfoldable pub request_accepted : NetText → Request → Bool
request_accepted net r = elim (str_eq r.protocol_version version) [
  | false ↦ false
  | true ↦ elim (validate net (validation r)) [ [] ↦ true | e ∷ es ↦ false ]
]
