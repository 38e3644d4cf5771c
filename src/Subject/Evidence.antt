-- ===== src/Subject/Evidence.antt =====
-- internal/subject/path.go: the evidence of the worker about its sockets. What the code calls of Go's
-- standard library (encoding/json, net/netip, path/filepath) is a record of functions. An `error` is
-- `Option String`, by its text.
pub mod Checks
pub mod Proven
use sing_box_inbound_bench.Base.{
  ℕ, ◌∷◌, ◌≡◌, Bool, true, false, not, ◌&&◌, ◌||◌, ◌==◌, if◌then◌else◌, String, str_append, str_eq,
  List, [], Option, none, some, ◌⊎◌, inl, inr,
}
use sing_box_inbound_bench.Base.Int.{ℤ, pos, ltb_ℤ}
use sing_box_inbound_bench.Text.{itoa}
use sing_box_inbound_bench.Protocol.Endpoint.{Ip, no_ip, ip4, ip6, Endpoint, canonical}

pub record WorkerIdentity : Type 0 where
  pub pid : ℤ
  pub uid : ℕ
  pub cgroup_path : String
  pub cgroup_verified : Bool

pub record SocketPathEvidence : Type 0 where
  pub network : String
  pub client_local : String
  pub server_observed_peer : String

pub record WarmupResult : Type 0 where
  pub identity : WorkerIdentity
  pub socket_paths : List SocketPathEvidence

-- Each function returns its value, or its error on the left.
pub record Externals : Type 0 where
  -- json.Unmarshal into a warmupResult
  pub decode_result : String → String ⊎ WarmupResult
  -- netip.ParseAddrPort, and the String methods of AddrPort and Addr
  pub parse_addr_port : String → String ⊎ Endpoint
  pub addr_port_text : Endpoint → String
  pub addr_text : Ip → String
  -- filepath.Clean
  pub clean : String → String

-- What net/netip documents of an endpoint without a zone: its text is read as that endpoint.
pub record Laws (ext : Externals) : Type 0 where
  pub reads_back :
      (text : String) (e : Endpoint)
      → ext.parse_addr_port text ≡ inr e
      → ext.parse_addr_port (ext.addr_port_text (canonical e)) ≡ inr (canonical e)

unfoldable pub eq_bytes : List ℕ → List ℕ → Bool
eq_bytes [] [] = true
eq_bytes [] (b ∷ bs) = false
eq_bytes (a ∷ ar) [] = false
eq_bytes (a ∷ ar) (b ∷ bs) = (a == b) && eq_bytes ar bs

-- `==` of two values of netip.Addr
unfoldable pub eq_ip : Ip → Ip → Bool
unfolding eq_bytes
eq_ip no_ip no_ip = true
eq_ip (ip4 a) (ip4 b) = eq_bytes a b
eq_ip (ip6 a z) (ip6 b y) = eq_bytes a b && str_eq z y
eq_ip no_ip (ip4 b) = false
eq_ip no_ip (ip6 b y) = false
eq_ip (ip4 a) no_ip = false
eq_ip (ip4 a) (ip6 b y) = false
eq_ip (ip6 a z) no_ip = false
eq_ip (ip6 a z) (ip4 b) = false

-- `if test { return error }`, and the code behind it
abbrev pub fail_if : Bool → String → Option String
fail_if test error = if test then some error else none

abbrev pub then_check : Option String → Option String → Option String
then_check (some e) rest = some e
then_check none rest = rest

module _ (ext : Externals) where
  open ext use {decode_result, parse_addr_port, addr_port_text, addr_text, clean}

  abbrev pub print_canonical : String ⊎ Endpoint → String ⊎ String
  print_canonical (inl e) = inl e
  print_canonical (inr endpoint) = inr (addr_port_text (canonical endpoint))

  unfoldable pub canonical_endpoint : String → String ⊎ String
  canonical_endpoint value = print_canonical (parse_addr_port value)

  abbrev pub addr_or_zero : String ⊎ Endpoint → Ip
  addr_or_zero (inl e) = no_ip
  addr_or_zero (inr endpoint) = endpoint.ip

  -- The address of `netip.ParseAddrPort(text)`, its error dropped.
  unfoldable pub parsed_addr : String → Ip
  parsed_addr text = addr_or_zero (parse_addr_port text)

  -- The checks of one pair of tuples that have been read.
  unfoldable pub compare_tuples : Bool → String → String → String → Option String
  compare_tuples redirected network client server =
      then_check
        (fail_if (redirected && str_eq client server) (
          str_append network
            " server observed the worker socket tuple; redirection was not proven"))
        (fail_if (not redirected && not (eq_ip (parsed_addr client) (parsed_addr server))) (
          str_append network (
            str_append " server observed source address " (
              str_append (addr_text (parsed_addr server))
                (str_append " instead of raw worker address " (addr_text (parsed_addr client)))))))

  abbrev pub with_server : Bool → String → String → String ⊎ String → Option String
  with_server redirected network client (inl e) =
      some (str_append "invalid server-observed tuple: " e)
  with_server redirected network client (inr server) =
      compare_tuples redirected network client server

  abbrev pub with_client : Bool → SocketPathEvidence → String ⊎ String → Option String
  with_client redirected path (inl e) = some (str_append "invalid client tuple: " e)
  with_client redirected path (inr client) =
      with_server redirected path.network client (canonical_endpoint path.server_observed_peer)

  unfoldable pub check_paths : Bool → List SocketPathEvidence → Option String
  check_paths redirected [] = none
  check_paths redirected (path ∷ paths) =
      then_check (with_client redirected path (canonical_endpoint path.client_local))
        (check_paths redirected paths)

  abbrev pub check_uid : Option ℕ → ℕ → Option String
  check_uid none uid = none
  check_uid (some wanted) uid = fail_if (not (uid == wanted)) (
      str_append "worker ran as UID "
        (str_append (itoa uid) (str_append " instead of " (itoa wanted))))

  unfoldable pub check_cgroup : String → WorkerIdentity → Option String
  check_cgroup cgroup_path identity =
      fail_if
        (not (str_eq cgroup_path "")
          && (not identity.cgroup_verified
              || not (str_eq (clean identity.cgroup_path) (clean cgroup_path))))
        "worker cgroup membership was not verified before socket creation"

  abbrev pub is_empty : List SocketPathEvidence → Bool
  is_empty [] = true
  is_empty (p ∷ ps) = false

  unfoldable pub check_result : Bool → Option ℕ → String → WarmupResult → Option String
  check_result redirected worker_uid cgroup_path result =
      then_check (fail_if (ltb_ℤ result.identity.pid (pos 1)) "worker evidence has no PID") (
        then_check (check_uid worker_uid result.identity.uid) (
          then_check (check_cgroup cgroup_path result.identity) (
            then_check
              (fail_if (is_empty result.socket_paths) "worker returned no socket tuple evidence")
              (check_paths redirected result.socket_paths))))

  abbrev pub check_decoded : Bool → Option ℕ → String → String ⊎ WarmupResult → Option String
  check_decoded redirected worker_uid cgroup_path (inl e) =
      some (str_append "decode worker evidence: " e)
  check_decoded redirected worker_uid cgroup_path (inr result) =
      check_result redirected worker_uid cgroup_path result

  unfoldable pub validate_socket_path_evidence : String → Bool → Option ℕ → String → Option String
  validate_socket_path_evidence details redirected worker_uid cgroup_path =
      check_decoded redirected worker_uid cgroup_path (decode_result details)
