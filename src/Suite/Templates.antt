-- ===== src/Suite/Templates.antt =====
-- internal/suite/matrix.go: the workloads of a preset.
use sing_box_inbound_bench.Base.{
  ℕ, ◌+◌, ◌*◌, ◌-◌, List, [], ◌∷◌, ◌++◌, map, reverse, String, str_append, str_eq, Bool, not, ◌&&◌,
  ◌||◌, if◌then◌else◌, Option, none, some, leb,
}
use sing_box_inbound_bench.Base.Int.{pos, ltb_ℤ, min_ℤ}
use sing_box_inbound_bench.Text.{bytes, has_prefix, itoa}
use sing_box_inbound_bench.Protocol.Config.{
  WorkloadConfig, protocol_tcp, protocol_udp, mode_echo, mode_bulk_upload, mode_bulk_download,
  mode_short, mode_idle, mode_pps, mode_standby, udp_socket_unconnected, contains_text,
}
use sing_box_inbound_bench.Suite.{
  Options, Checked, accepted, rejected, and_then, preset_smoke, preset_core, preset_full,
  duplicate_workload, unknown_workload,
}

pub record WorkloadTemplate : Type 0 where
  pub name : String
  pub config : WorkloadConfig

unfoldable pub base : String → String → String → ℕ → WorkloadConfig
base target network mode payload = record {
  protocol = network;
  mode = mode;
  target = target;
  payload_bytes = pos payload;
  requests = pos 0;
  duration_ms = pos 0;
  connections = pos 1;
  flows = pos 1;
  offered_pps = pos 0;
  udp_socket_mode = "";
  timeout_ms = pos 2000;
}

abbrev template : String → String → String → String → ℕ → WorkloadTemplate
template target name network mode payload = record {
  name = name;
  config = base target network mode payload;
}

unfoldable pub templates : String → List WorkloadTemplate
templates target =
    template target "standby" protocol_tcp mode_standby 1
    ∷ template target "tcp-rtt" protocol_tcp mode_echo 64
    ∷ template target "tcp-upload-1" protocol_tcp mode_bulk_upload 65536
    ∷ template target "tcp-upload-8" protocol_tcp mode_bulk_upload 65536
    ∷ template target "tcp-download-1" protocol_tcp mode_bulk_download 65536
    ∷ template target "tcp-download-8" protocol_tcp mode_bulk_download 65536
    ∷ template target "tcp-short-1" protocol_tcp mode_short 64
    ∷ template target "tcp-short-32" protocol_tcp mode_short 64
    ∷ template target "tcp-short-128" protocol_tcp mode_short 64
    ∷ template target "udp-rtt" protocol_udp mode_echo 64
    ∷ template target "udp-rtt-unconnected" protocol_udp mode_echo 64
    ∷ template target "udp-pps-1" protocol_udp mode_pps 64
    ∷ template target "udp-pps-1-unconnected" protocol_udp mode_pps 64
    ∷ template target "udp-pps-64" protocol_udp mode_pps 64
    ∷ template target "udp-pps-64-unconnected" protocol_udp mode_pps 64
    ∷ template target "udp-mtu" protocol_udp mode_pps 1432
    ∷ template target "udp-churn" protocol_udp mode_echo 64
    ∷ []

unfoldable pub idle_template : Options → String → ℕ → WorkloadTemplate
idle_template o target connections = record {
  name = str_append "tcp-idle-" (itoa connections);
  config = record (base target protocol_tcp mode_idle 1) {
    connections = pos connections;
    duration_ms = o.idle_duration;
  };
}

-- `strings.HasSuffix`
unfoldable pub has_suffix : String → String → Bool
has_suffix text suffix = has_prefix (reverse (bytes text)) (reverse (bytes suffix))

-- The number in the digits before the last dash, from the last digit on; `unit` is the digit's weight.
unfoldable pub last_number : ℕ → List ℕ → ℕ
last_number unit [] = 0
last_number unit (b ∷ bs) =
    let rest = last_number (unit * 10) bs in
    if leb 48 b && leb b 57 then unit * (b - 48) + rest else 0

abbrev pub suffix_number : String → ℕ
suffix_number name = last_number 1 (reverse (bytes name))

unfoldable pub configure_mode : Options → String → WorkloadConfig → WorkloadConfig
configure_mode o name w =
    if str_eq w.mode mode_echo
    then if str_eq name "udp-churn"
      then record w { requests = pos 1000; flows = pos 1000 }
      else record w { requests = pos 20000 }
    else if str_eq w.mode mode_short
    then record w { requests = pos 20000; connections = pos (suffix_number name) }
    else if str_eq w.mode mode_bulk_upload || str_eq w.mode mode_bulk_download
    then record w {
      duration_ms = o.duration;
      connections = if has_suffix name "-8" then pos 8 else w.connections;
    }
    else if str_eq w.mode mode_pps
    then record w {
      duration_ms = o.duration;
      offered_pps = if str_eq name "udp-mtu" then o.udp_mtu_pps else o.udp_pps;
      flows = if has_prefix (bytes name) (bytes "udp-pps-64") then pos 64 else w.flows;
    }
    else if str_eq w.mode mode_standby
    then record w { duration_ms = o.idle_duration }
    else w

unfoldable pub configure : Options → WorkloadTemplate → WorkloadTemplate
configure o t =
    let socket =
      if has_suffix t.name "-unconnected"
      then udp_socket_unconnected
      else t.config.udp_socket_mode in
    record t { config = configure_mode o t.name (record t.config { udp_socket_mode = socket }) }

unfoldable pub all_templates : Options → String → List WorkloadTemplate
all_templates o target =
    map (configure o)
      (templates target ++ map (idle_template o target) (1 ∷ 250 ∷ 500 ∷ 750 ∷ 1000 ∷ []))

unfoldable pub preset_names : String → List WorkloadTemplate → List String
preset_names preset all =
    if str_eq preset preset_smoke
    then "tcp-rtt" ∷ "udp-rtt" ∷ "udp-rtt-unconnected" ∷ []
    else if str_eq preset preset_core
    then "standby" ∷ "tcp-rtt" ∷ "tcp-upload-1" ∷ "tcp-upload-8" ∷ "tcp-download-1"
      ∷ "tcp-download-8" ∷ "tcp-short-32" ∷ "tcp-idle-1" ∷ "tcp-idle-500" ∷ "udp-rtt"
      ∷ "udp-rtt-unconnected" ∷ "udp-pps-1" ∷ "udp-pps-64" ∷ "udp-pps-64-unconnected" ∷ "udp-churn"
      ∷ []
    else if str_eq preset preset_full
    then map (λ (t : WorkloadTemplate). t.name) all
    else []

unfoldable pub selected_names : Options → List WorkloadTemplate → List String
selected_names o all = elim o.workloads [
  | [] ↦ preset_names o.preset all
  | name ∷ names ↦ name ∷ names
]

-- A map that was filled in order: the last template of a name.
unfoldable pub available : String → List WorkloadTemplate → Option WorkloadTemplate
available name [] = none
available name (t ∷ ts) = elim (available name ts) [
  | some last ↦ some last
  | none ↦ if str_eq t.name name then some t else none
]

unfoldable pub limit_requests : Options → String → WorkloadTemplate → WorkloadTemplate
limit_requests o name t =
    let most =
      if str_eq o.preset preset_smoke
      then min_ℤ t.config.requests (pos 64)
      else t.config.requests in
    let requests =
      if ltb_ℤ (pos 0) o.requests
        && not (str_eq name "udp-churn")
        && (str_eq t.config.mode mode_echo || str_eq t.config.mode mode_short)
      then o.requests
      else most in
    record t { config = record t.config { requests = requests } }

-- One selected name, before the rest of the loop.
unfoldable pub select_one :
    Options
    → List String
    → String
    → Option WorkloadTemplate
    → Checked (List WorkloadTemplate)
    → Checked (List WorkloadTemplate)
select_one o seen name none rest =
    if contains_text seen name
    then rejected (duplicate_workload name)
    else rejected (unknown_workload name)
select_one o seen name (some t) rest =
    if contains_text seen name
    then rejected (duplicate_workload name)
    else and_then rest (λ ts. accepted (limit_requests o name t ∷ ts))

unfoldable pub select :
    Options → List WorkloadTemplate → List String → List String → Checked (List WorkloadTemplate)
select o all seen [] = accepted []
select o all seen (name ∷ names) =
    select_one o seen name (available name all) (select o all (name ∷ seen) names)

unfoldable pub workloads : Options → String → Checked (List WorkloadTemplate)
workloads o target = let all = all_templates o target in select o all [] (selected_names o all)
