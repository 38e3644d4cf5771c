-- ===== src/Protocol/Config/Errors.antt =====
-- internal/protocol/protocol.go: the errors that Validate collects, and what net, net/netip and path
-- make of a text, which Validate asks.
use sing_box_inbound_bench.Base.{
  ℕ, List, [], ◌∷◌, String, Bool, if◌then◌else◌, true, false, Option, ◌≡◌, refl,
}
use sing_box_inbound_bench.Protocol.Endpoint.{Ip, Endpoint}

pub data ConfigError : Type 0 where
  version_mismatch bad_run_id : ConfigError
  unsupported_subject unsupported_protocol : String → ConfigError
  bad_mode : String → String → ConfigError
  target_unreadable target_no_literal bad_payload packet_too_large : ConfigError
  unsupported_socket_mode : String → ConfigError
  socket_mode_without_udp negative_amount not_one_limit : ConfigError
  bad_offered_pps : ConfigError
  too_few_packets : ℕ → ℕ → ConfigError
  offered_pps_without_pps no_workers bad_repetitions no_output_directory no_binary : ConfigError
  no_worker_uid listen_unreadable listen_not_loopback family_mismatch redirect_without_tcp :
      ConfigError
  bad_policy : ConfigError
  bad_tun_name no_tun_address bad_mtu : ConfigError
  bad_tun_address : String → ConfigError
  subject_target_unreadable subject_target_no_literal target_not_listen : ConfigError
  no_include_uid cgroup_without_ebpf bad_cgroup_path : ConfigError
  uid_mismatch : String → ConfigError
  api_unreadable api_not_loopback no_api_token : ConfigError

-- What the packages net, net/netip and path make of a text; `none` is an error of theirs.
pub record NetText : Type 0 where
  -- the host of `net.SplitHostPort`
  pub split_host_port : String → Option String
  pub parse_ip : String → Option Ip
  pub is_loopback : Ip → Bool
  pub parse_addr_port : String → Option Endpoint
  -- whether `net.ParseCIDR` reads the text
  pub is_cidr : String → Bool
  -- `path.Clean`
  pub clean : String → String

-- An error, if a condition holds.
unfoldable pub check : Bool → ConfigError → List ConfigError
check bad e = if bad then e ∷ [] else []

-- A check that finds nothing has a condition that fails.
pub check-[] : (bad : Bool) (e : ConfigError) → check bad e ≡ [] → bad ≡ false
unfolding check
check-[] true e h = cc
check-[] false e h = refl

pub check_none : (bad : Bool) (e : ConfigError) → bad ≡ false → check bad e ≡ []
unfolding check
check_none true e h = cc
check_none false e h = refl
