-- ===== src/Protocol/Config/Workload.antt =====
-- internal/protocol/protocol.go: what Validate checks of a workload.
use sing_box_inbound_bench.Base.{
  ℕ, ◌+◌, ◌*◌, ◌/◌, ◌%◌, ◌-◌, ◌^◌, List, [], ◌∷◌, ◌++◌, String, str_eq, Bool, false, not, ◌&&◌,
  ◌||◌, ltb, ◌==◌, if◌then◌else◌, Option, none, some, u64,
}
use sing_box_inbound_bench.Base.Int.{ℤ, pos, ltb_ℤ, eq_ℤ, pos_part, add_int}
use sing_box_inbound_bench.Protocol.Config.{
  WorkloadConfig, protocol_tcp, protocol_udp, mode_echo, mode_bulk_upload, mode_bulk_download,
  mode_short, mode_idle, mode_pps, mode_standby, udp_socket_connected, udp_socket_unconnected,
}
use sing_box_inbound_bench.Protocol.Config.Errors.{
  ConfigError, check, NetText, unsupported_protocol, bad_mode, target_unreadable, target_no_literal,
  bad_payload, packet_too_large, unsupported_socket_mode, socket_mode_without_udp, negative_amount,
  not_one_limit, bad_offered_pps, too_few_packets, offered_pps_without_pps, no_workers,
}

-- validateMode finds the mode valid.
unfoldable pub valid_mode : String → String → Bool
valid_mode network mode =
    if str_eq network protocol_tcp
    then str_eq mode mode_echo
      || str_eq mode mode_bulk_upload
      || str_eq mode mode_bulk_download
      || str_eq mode mode_short
      || str_eq mode mode_idle
      || str_eq mode mode_standby
    else if str_eq network protocol_udp
    then str_eq mode mode_echo || str_eq mode mode_pps
    else false

unfoldable pub protocol_errors : WorkloadConfig → List ConfigError
protocol_errors w =
    check (not (str_eq w.protocol protocol_tcp) && not (str_eq w.protocol protocol_udp))
      (unsupported_protocol w.protocol)
    ++ check (not (valid_mode w.protocol w.mode)) (bad_mode w.mode w.protocol)

literal_errors : NetText → Option String → List ConfigError
literal_errors net none = target_unreadable ∷ []
literal_errors net (some host) = elim (net.parse_ip host) [
  | none ↦ target_no_literal ∷ []
  | some ip ↦ []
]

unfoldable pub target_errors : NetText → String → List ConfigError
unfolding literal_errors
target_errors net target = literal_errors net (net.split_host_port target)

unfoldable pub payload_errors : WorkloadConfig → List ConfigError
payload_errors w =
    check (ltb_ℤ w.payload_bytes (pos 1) || ltb_ℤ (pos 0x100000) w.payload_bytes) bad_payload
    ++ check
        (str_eq w.protocol protocol_udp && ltb_ℤ (pos 65507) (add_int w.payload_bytes (pos 40)))
        packet_too_large

unfoldable pub socket_mode_errors : WorkloadConfig → List ConfigError
socket_mode_errors w =
    if str_eq w.protocol protocol_udp
    then check
        (not (str_eq w.udp_socket_mode "")
          && not (str_eq w.udp_socket_mode udp_socket_connected)
          && not (str_eq w.udp_socket_mode udp_socket_unconnected))
        (unsupported_socket_mode w.udp_socket_mode)
    else check (not (str_eq w.udp_socket_mode "")) socket_mode_without_udp

unfoldable pub limit_errors : WorkloadConfig → List ConfigError
limit_errors w =
    check (ltb_ℤ w.requests (pos 0) || ltb_ℤ w.duration_ms (pos 0) || ltb_ℤ w.offered_pps (pos 0))
      negative_amount
    ++ check
        (if eq_ℤ w.requests (pos 0)
          then eq_ℤ w.duration_ms (pos 0)
          else not (eq_ℤ w.duration_ms (pos 0)))
        not_one_limit

-- The packets of a duration in milliseconds at a rate, as numbers of 64 bits.
unfoldable pub scheduled_packets : ℕ → ℕ → ℕ
scheduled_packets duration_ms rate =
    if ltb ((2 ^ 64 - 1) / rate) (duration_ms / 1000)
    then 2 ^ 64 - 1
    else u64 (u64 (duration_ms / 1000 * rate) + u64 (duration_ms % 1000 * rate) / 1000)

unfoldable pub packets_of : ℤ → ℤ → ℤ → ℕ
packets_of requests duration_ms offered_pps =
    if pos_part requests == 0 && ltb_ℤ (pos 0) duration_ms && ltb_ℤ (pos 0) offered_pps
    then scheduled_packets (pos_part duration_ms) (pos_part offered_pps)
    else pos_part requests

abbrev pub expected_packets : WorkloadConfig → ℕ
expected_packets w = packets_of w.requests w.duration_ms w.offered_pps

unfoldable pub rate_errors : WorkloadConfig → List ConfigError
rate_errors w =
    if str_eq w.mode mode_pps
    then check (ltb_ℤ w.offered_pps (pos 1) || ltb_ℤ (pos 1000000000) w.offered_pps) bad_offered_pps
      ++ check (ltb_ℤ (pos 0) w.flows && ltb (expected_packets w) (pos_part w.flows))
          (too_few_packets (expected_packets w) (pos_part w.flows))
    else check (not (eq_ℤ w.offered_pps (pos 0))) offered_pps_without_pps

unfoldable pub worker_errors : WorkloadConfig → List ConfigError
worker_errors w = check (ltb_ℤ w.connections (pos 1) || ltb_ℤ w.flows (pos 1)) no_workers

unfoldable pub workload_errors : NetText → WorkloadConfig → List ConfigError
workload_errors net w =
    protocol_errors w
    ++ (target_errors net w.target
        ++ (payload_errors w
            ++ (socket_mode_errors w ++ (limit_errors w ++ (rate_errors w ++ worker_errors w)))))
