-- ===== src/Suite/Build.antt =====
-- internal/suite/matrix.go: buildConfig and Generate. net/netip reads the targets through `net`, and prints
-- an address with its port through `print`.
use sing_box_inbound_bench.Base.{
  ℕ, List, [], ◌∷◌, ◌++◌, String, str_append, str_eq, Bool, true, false, not, ◌&&◌, ◌||◌, replicate,
  if◌then◌else◌, Option, none, some,
}
use sing_box_inbound_bench.Base.Int.{pos}
use sing_box_inbound_bench.Text.{bytes, hex8_lower}
use sing_box_inbound_bench.Wire.{crc32}
use sing_box_inbound_bench.Protocol.Endpoint.{Ip, no_ip, ip4, ip6, Endpoint}
use sing_box_inbound_bench.Protocol.Config.{
  Config, SubjectConfig, version, subject_raw, subject_direct, subject_redirect, subject_tproxy,
  subject_ebpf_cgroup, protocol_tcp, protocol_udp, mode_bulk_upload,
}
use sing_box_inbound_bench.Protocol.Config.Defaults.{apply_defaults, or_int, or_text, is_tun}
use sing_box_inbound_bench.Protocol.Config.Subject.{is_ebpf}
use sing_box_inbound_bench.Protocol.Config.Errors.{ConfigError, NetText}
use sing_box_inbound_bench.Protocol.Config.Validate.{validate}
use sing_box_inbound_bench.Protocol.Matrix.{
  MatrixConfig, MatrixError, normalize_and_validate_matrix,
}
use sing_box_inbound_bench.Suite.{
  Options, Checked, accepted, rejected, and_then, target_unreadable, missing_option,
  raw_target_unreadable, families_differ, case_rejected, matrix_rejected, preset_full,
  apply_preset_defaults, selected_subjects,
}
use sing_box_inbound_bench.Suite.Templates.{WorkloadTemplate, workloads}

abbrev pub is_ip6 : Ip → Bool
is_ip6 (ip6 a zone) = true
is_ip6 (ip4 a) = false
is_ip6 no_ip = false

abbrev loopback : Bool → Ip
loopback true = ip6 (replicate 15 0 ++ (1 ∷ [])) ""
loopback false = ip4 (127 ∷ 0 ∷ 0 ∷ 1 ∷ [])

abbrev tun_address : Bool → List String
tun_address true = "fd00:7362:6962::1/126" ∷ []
tun_address false = "172.31.255.1/30" ∷ []

unfoldable pub empty_subject : String → String → SubjectConfig
empty_subject kind outbound_interface = record {
  kind = kind;
  sing_box_binary = "";
  listen = "";
  target = "";
  outbound_interface = outbound_interface;
  cgroup_path = "";
  include_uid = [];
  api_listen = "";
  api_token = "";
  extra_arguments = [];
  tun_name = "";
  tun_address = [];
  mtu = 0;
  firewall_binary = "";
  ip_binary = "";
  mark = 0;
  route_table = pos 0;
  rule_priority = pos 0;
}

-- A case that is generated, before the rest.
unfoldable pub add_case : Config → List ConfigError → Checked (List Config) → Checked (List Config)
add_case c [] rest = and_then rest (λ cs. accepted (c ∷ cs))
add_case c (e ∷ es) rest = rejected (case_rejected c.run_id (e ∷ es))

-- The options that Generate sets first.
unfoldable pub default_options : Options → Options
default_options o = record o {
  matrix_id = or_text o.matrix_id "lan-comparison";
  seed = or_int o.seed (pos 20260915);
  preset = or_text o.preset preset_full;
}

unfoldable pub read_raw_target : String → Endpoint → Option Endpoint → Checked Endpoint
read_raw_target text target read =
    if not (str_eq text "")
    then elim read [
      | none ↦ rejected raw_target_unreadable
      | some raw ↦
          if is_ip6 raw.ip && is_ip6 target.ip || not (is_ip6 raw.ip) && not (is_ip6 target.ip)
          then accepted raw
          else rejected families_differ
    ]
    else accepted target

unfoldable pub normalized : MatrixConfig × List MatrixError → Checked MatrixConfig
normalized (m, []) = accepted m
normalized (m, e ∷ es) = rejected (matrix_rejected (e ∷ es))

module _ (print : Endpoint → String) where
  -- `netip.AddrPortFrom(loopback, port).String()`
  abbrev pub local_port : Bool → ℕ → String
  local_port v6 port = print (record { ip = loopback v6; port = port })

  -- The part of a subject that all kinds but the raw one have.
  unfoldable pub managed_subject : Options → Bool → SubjectConfig → SubjectConfig
  managed_subject o v6 s =
      if not (str_eq s.kind subject_raw)
      then record s {
        sing_box_binary = o.sing_box_binary;
        api_listen = local_port v6 19091;
        api_token = str_append "benchmark-" o.matrix_id;
      }
      else s

  unfoldable pub build_subject :
      Options → Endpoint → String → String → Bool → SubjectConfig → SubjectConfig
  build_subject o target kind run_id v6 s =
      if str_eq kind subject_raw
      then record s { outbound_interface = "" }
      else if str_eq kind subject_direct
      then record s { listen = local_port v6 18080; target = print target }
      else if str_eq kind subject_redirect
      then record s { listen = local_port v6 15001 }
      else if str_eq kind subject_tproxy
      then record s { listen = local_port v6 15002 }
      else if is_tun kind
      then record s { tun_address = tun_address v6; mtu = 1500 }
      else if is_ebpf kind
      then record s {
        include_uid = o.worker_uid ∷ [];
        cgroup_path =
            if str_eq kind subject_ebpf_cgroup
            then str_append "/sys/fs/cgroup/sbi-" (hex8_lower (crc32 (bytes run_id)))
            else s.cgroup_path;
      }
      else s

  unfoldable pub build_config : Options → Endpoint → String → WorkloadTemplate → Config
  build_config o target kind t =
      let run_id = str_append kind (str_append "-" t.name) in
      let v6 = is_ip6 target.ip in
      let s =
        build_subject o target kind run_id v6
          (managed_subject o v6 (empty_subject kind o.outbound_interface)) in
      record {
        protocol_version = version;
        run_id = run_id;
        subject = s;
        workload =
            if str_eq kind subject_direct then record t.config { target = s.listen } else t.config;
        execution = record {
          warmup_repetitions = o.warmup_repetitions;
          repetitions = o.repetitions;
          output_directory = o.output_directory;
          temporary_directory = "";
          startup_timeout_ms = pos 0;
          worker_uid = some o.worker_uid;
        };
      }

  -- The configuration of a subject under a workload, with its target.
  unfoldable pub case_config : Options → Endpoint → Endpoint → String → WorkloadTemplate → Config
  case_config o target raw_target kind t = apply_defaults (
      if str_eq kind subject_raw
      then build_config o raw_target kind
          (record t { config = record t.config { target = print raw_target } })
      else build_config o target kind t)

  unfoldable pub control_config : Options → Endpoint → Config
  control_config o raw_target =
      let c = build_config o raw_target subject_raw (record {
        name = "control";
        config = record {
          protocol = protocol_tcp;
          mode = mode_bulk_upload;
          target = print raw_target;
          payload_bytes = pos 65536;
          requests = pos 0;
          duration_ms = o.duration;
          connections = pos 1;
          flows = pos 1;
          offered_pps = pos 0;
          udp_socket_mode = "";
          timeout_ms = pos 2000;
        };
      }) in
      record c {
        run_id = "raw-control";
        execution = record c.execution { warmup_repetitions = pos 0; repetitions = pos 1 };
      }

  module _ (net : NetText) where
    -- The cases of one subject. UDP is left out of the redirect subject.
    unfoldable pub subject_cases :
        Options → Endpoint → Endpoint → String → List WorkloadTemplate → Checked (List Config)
    subject_cases o target raw_target kind [] = accepted []
    subject_cases o target raw_target kind (t ∷ ts) =
        let rest = subject_cases o target raw_target kind ts in
        let c = case_config o target raw_target kind t in
        if str_eq kind subject_redirect && str_eq t.config.protocol protocol_udp
        then rest
        else add_case c (validate net c) rest

    unfoldable pub all_cases :
        Options → Endpoint → Endpoint → List WorkloadTemplate → List String → Checked (List Config)
    all_cases o target raw_target ts [] = accepted []
    all_cases o target raw_target ts (kind ∷ kinds) =
        let rest = all_cases o target raw_target ts kinds in
        and_then (subject_cases o target raw_target kind ts)
          (λ cs. and_then rest (λ ds. accepted (cs ++ ds)))

    -- The matrix before it is normalized.
    unfoldable pub matrix_of : Options → Endpoint → List Config → MatrixConfig
    matrix_of o raw_target cases = record {
      protocol_version = version;
      matrix_id = o.matrix_id;
      seed = o.seed;
      output_directory = o.output_directory;
      cooldown_ms = o.cooldown_ms;
      fail_fast = o.fail_fast;
      resume = false;
      raw_control = some (control_config o raw_target);
      cases = cases;
    }

    -- What follows the reading of the target.
    unfoldable pub generate_for : Options → Option Endpoint → Checked MatrixConfig
    generate_for o none = rejected target_unreadable
    generate_for o (some target) =
        if str_eq o.output_directory ""
          || str_eq o.sing_box_binary ""
          || str_eq o.outbound_interface ""
        then rejected missing_option
        else and_then (read_raw_target o.raw_target target (net.parse_addr_port o.raw_target))
            (λ raw_target. and_then (workloads o (print target)) (λ ts.
              and_then (selected_subjects o.subjects) (λ kinds.
                and_then (all_cases o target raw_target ts kinds) (λ cs.
                  normalized (normalize_and_validate_matrix net (matrix_of o raw_target cs))))))

    unfoldable pub generate : Options → Checked MatrixConfig
    generate o =
        and_then (apply_preset_defaults (default_options o))
          (λ p. generate_for p (net.parse_addr_port p.target))
