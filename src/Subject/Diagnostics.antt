-- ===== src/Subject/Diagnostics.antt =====
-- internal/subject/singbox/diagnostics.go: the eBPF diagnostics of a sing-box process, before and
-- behind a measurement. JSON is read by a parameter, and so is a path cleaned.
pub mod FailureCounters
pub mod Unharmed
use sing_box_inbound_bench.Base.{
  ℕ, ◌-◌, Bool, true, false, not, ◌&&◌, ◌||◌, ltb, if◌then◌else◌, String, str_append, str_eq, List,
  [], ◌∷◌, Option, none, some, ◌⊎◌, inl, inr,
}
use sing_box_inbound_bench.Text.{itoa}
use sing_box_inbound_bench.Protocol.Config.{SubjectConfig, subject_ebpf_cgroup}
use sing_box_inbound_bench.Subject.Evidence.{fail_if, then_check}

pub record EbpfAttachmentDiagnostics : Type 0 where
  pub interface_name : String
  pub role : String
  pub mechanism : String

pub record EbpfFailureCounters : Type 0 where
  pub assignment_lookup_failures : ℕ
  pub tc_socket_lookup_failures : ℕ
  pub tc_sk_assign_failures : ℕ
  pub tc_assignment_update_failures : ℕ
  pub token_reservation_failures : ℕ
  pub rewrite_failures : ℕ
  pub shared_reconcile_failures : ℕ
  pub recovery_attempts : ℕ
  pub recovery_failures : ℕ
  pub fake_ip_icmp_rewrite_failure_drops : ℕ

pub record EbpfUdpNatDiagnostics : Type 0 where
  pub capacity_evictions : ℕ
  pub queue_drops : ℕ
  pub pending_release_capacity_rejected : ℕ
  pub release_notification_drops : ℕ

pub record EbpfInboundDiagnostics : Type 0 where
  pub tag : String
  pub state : String
  pub local_enabled : Bool
  pub local_data_plane : String
  pub last_error : String
  pub recovery_pending : Bool
  pub recovery_unrecoverable : Bool
  pub attachments : List EbpfAttachmentDiagnostics
  pub counters : EbpfFailureCounters
  pub udp_nat : EbpfUdpNatDiagnostics

pub record DiagnosticsEnvelope : Type 0 where
  pub inbounds : List EbpfInboundDiagnostics
  pub kernel_runtime : String

-- `%t`
abbrev pub bool_text : Bool → String
bool_text true = "true"
bool_text false = "false"

abbrev pub want_plane : SubjectConfig → String
want_plane config = if str_eq config.kind subject_ebpf_cgroup then "cgroup" else "tc"

abbrev pub is_healthy : String → EbpfInboundDiagnostics → Bool
is_healthy plane inbound =
    str_eq inbound.state "normal" && inbound.local_enabled && str_eq inbound.local_data_plane plane

-- The counters of both maps, by their names.
unfoldable pub failure_counters : EbpfInboundDiagnostics → List (String × ℕ)
failure_counters d =
    ("assignment_lookup_failures", d.counters.assignment_lookup_failures)
    ∷ ("tc_socket_lookup_failures", d.counters.tc_socket_lookup_failures)
    ∷ ("tc_sk_assign_failures", d.counters.tc_sk_assign_failures)
    ∷ ("tc_assignment_update_failures", d.counters.tc_assignment_update_failures)
    ∷ ("token_reservation_failures", d.counters.token_reservation_failures)
    ∷ ("rewrite_failures", d.counters.rewrite_failures)
    ∷ ("shared_reconcile_failures", d.counters.shared_reconcile_failures)
    ∷ ("recovery_attempts", d.counters.recovery_attempts)
    ∷ ("recovery_failures", d.counters.recovery_failures)
    ∷ ("fake_ip_icmp_rewrite_failure_drops", d.counters.fake_ip_icmp_rewrite_failure_drops)
    ∷ ("udp_nat.capacity_evictions", d.udp_nat.capacity_evictions)
    ∷ ("udp_nat.queue_drops", d.udp_nat.queue_drops)
    ∷ ("udp_nat.pending_release_capacity_rejected", d.udp_nat.pending_release_capacity_rejected)
    ∷ ("udp_nat.release_notification_drops", d.udp_nat.release_notification_drops)
    ∷ []

-- A read of a map: a name that is missing has the value 0.
unfoldable pub counter_of : String → List (String × ℕ) → ℕ
counter_of name [] = 0
counter_of name ((n, v) ∷ rest) = if str_eq n name then v else counter_of name rest

abbrev pub change : String → ℕ → ℕ → List String → List String
change name before after rest =
    if ltb after before
    then str_append name (
        str_append " moved backwards ("
          (str_append (itoa before) (str_append " -> " (str_append (itoa after) ")"))))
      ∷ rest
    else if ltb before after
    then str_append name (str_append " increased by " (itoa (after - before))) ∷ rest
    else rest

unfoldable pub changes : List (String × ℕ) → List (String × ℕ) → List String
changes [] after = []
changes ((name, value) ∷ before) after =
    change name value (counter_of name after) (changes before after)

-- `errors.Join` of texts
unfoldable pub join_lines : List String → String
join_lines [] = ""
join_lines (t ∷ []) = t
join_lines (t ∷ u ∷ ts) = str_append t (str_append "\n" (join_lines (u ∷ ts)))

abbrev pub changed_error : List String → Option String
changed_error [] = none
changed_error (t ∷ ts) =
    some (str_append "eBPF failure counters changed during measurement: " (join_lines (t ∷ ts)))

-- Go leaves the order open in which the map is read, and with it that of the texts in the error.
unfoldable pub validate_failure_counter_deltas :
    EbpfInboundDiagnostics → EbpfInboundDiagnostics → Option String
validate_failure_counter_deltas before after =
    changed_error (changes (failure_counters before) (failure_counters after))

unfoldable pub find_benchmark : List EbpfInboundDiagnostics → String ⊎ EbpfInboundDiagnostics
find_benchmark [] = inl "benchmark eBPF inbound missing from diagnostics"
find_benchmark (inbound ∷ rest) =
    if str_eq inbound.tag "benchmark-ebpf-in" then inr inbound else find_benchmark rest

abbrev pub found_in : String ⊎ DiagnosticsEnvelope → String ⊎ EbpfInboundDiagnostics
found_in (inl e) = inl e
found_in (inr diagnostics) = find_benchmark diagnostics.inbounds

module _ (clean : String → String) (config : SubjectConfig) where
  -- An attachment of another role is passed over.
  unfoldable pub attached : EbpfAttachmentDiagnostics → Bool
  attached attachment =
      str_eq attachment.role "local"
      && (if str_eq (want_plane config) "cgroup"
          then str_eq attachment.mechanism "cgroup"
            && str_eq (clean attachment.interface_name) (clean config.cgroup_path)
          else not (str_eq attachment.mechanism "")
            && not (str_eq attachment.mechanism "cgroup")
            && (str_eq config.outbound_interface ""
                || str_eq attachment.interface_name config.outbound_interface))

  unfoldable pub any_attached : List EbpfAttachmentDiagnostics → Bool
  any_attached [] = false
  any_attached (a ∷ rest) = attached a || any_attached rest

  unfoldable pub validate_ebpf_inbound : EbpfInboundDiagnostics → Bool × String
  validate_ebpf_inbound inbound =
      if not (is_healthy (want_plane config) inbound)
      then (
        false,
        str_append "runtime state=" (
            str_append inbound.state (
              str_append " local=" (
                str_append (bool_text inbound.local_enabled)
                  (str_append " plane=" inbound.local_data_plane)))),
      )
      else if any_attached inbound.attachments
      then (true, "")
      else (false, "no matching local attachment")

  module _ (decode : String → String ⊎ DiagnosticsEnvelope) where
    unfoldable pub decode_benchmark_inbound : String → String ⊎ EbpfInboundDiagnostics
    decode_benchmark_inbound text = found_in (decode text)

    abbrev pub inbound_judged : String ⊎ EbpfInboundDiagnostics → Bool × String × Option String
    inbound_judged (inl e) = (false, "", some e)
    inbound_judged (inr inbound) =
        let (valid, message) = validate_ebpf_inbound inbound in (valid, message, none)

    unfoldable pub validate_ebpf_diagnostics : String → Bool × String × Option String
    validate_ebpf_diagnostics text = inbound_judged (decode_benchmark_inbound text)

    -- The checks behind the two decodings.
    unfoldable pub compare_inbounds :
        EbpfInboundDiagnostics → EbpfInboundDiagnostics → Option String
    compare_inbounds before after =
        let (valid, message) = validate_ebpf_inbound after in
        then_check (fail_if (not valid) message) (
          then_check
            (fail_if (after.recovery_pending || after.recovery_unrecoverable) (
              str_append "eBPF recovery state changed during measurement: pending=" (
                str_append (bool_text after.recovery_pending)
                  (str_append " unrecoverable=" (bool_text after.recovery_unrecoverable)))))
            (then_check
              (fail_if
                (not (str_eq after.last_error "")
                  && not (str_eq after.last_error before.last_error))
                (str_append "eBPF runtime reported a new error during measurement: "
                  after.last_error))
              (validate_failure_counter_deltas before after)))

    abbrev pub with_after : EbpfInboundDiagnostics → String ⊎ EbpfInboundDiagnostics → Option String
    with_after before (inl e) = some (str_append "decode eBPF diagnostics after measurement: " e)
    with_after before (inr after) = compare_inbounds before after

    abbrev pub with_before :
        String ⊎ EbpfInboundDiagnostics → String ⊎ EbpfInboundDiagnostics → Option String
    with_before (inl e) after = some (str_append "decode eBPF diagnostics before measurement: " e)
    with_before (inr before) after = with_after before after

    unfoldable pub validate_runtime_diagnostics : String → String → Option String
    validate_runtime_diagnostics before after =
        with_before (decode_benchmark_inbound before) (decode_benchmark_inbound after)
