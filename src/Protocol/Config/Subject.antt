-- ===== src/Protocol/Config/Subject.antt =====
-- internal/protocol/protocol.go: what Validate checks of a subject, with validCgroupPath and
-- hostIsLoopback.
use sing_box_inbound_bench.Base.{
  ℕ, List, [], ◌∷◌, ◌++◌, String, str_eq, Bool, true, false, not, ◌&&◌, ◌||◌, ltb, ◌==◌,
  if◌then◌else◌, Option, none, some, length,
}
use sing_box_inbound_bench.Base.Int.{pos, ltb_ℤ}
use sing_box_inbound_bench.Text.{bytes, has_prefix}
use sing_box_inbound_bench.Protocol.Endpoint.{Ip, no_ip, ip4, ip6, Endpoint}
use sing_box_inbound_bench.Protocol.Config.{
  Config, protocol_tcp, subject_redirect, subject_tproxy, subject_direct, subject_ebpf_tc,
  subject_ebpf_cgroup,
}
use sing_box_inbound_bench.Protocol.Config.Defaults.{is_tun}
use sing_box_inbound_bench.Protocol.Config.Errors.{
  ConfigError, check, NetText, no_worker_uid, listen_unreadable, listen_not_loopback,
  family_mismatch, redirect_without_tcp, bad_policy, bad_tun_name, no_tun_address, bad_mtu,
  bad_tun_address, subject_target_unreadable, subject_target_no_literal, target_not_listen,
  no_include_uid, cgroup_without_ebpf, bad_cgroup_path, uid_mismatch, api_unreadable,
  api_not_loopback, no_api_token,
}

abbrev is_none : Option ℕ → Bool
is_none none = true
is_none (some uid) = false

abbrev is_ip4 : Ip → Bool
is_ip4 (ip4 a) = true
is_ip4 no_ip = false
is_ip4 (ip6 a zone) = false

unfoldable pub valid_cgroup_path : NetText → String → Bool
valid_cgroup_path net value =
    has_prefix (bytes value) (bytes "/")
    && has_prefix (bytes (net.clean value)) (bytes "/sys/fs/cgroup/")

loopback_host : NetText → Option String → Bool
loopback_host net none = false
loopback_host net (some host) = elim (net.parse_ip host) [
  | none ↦ false
  | some ip ↦ net.is_loopback ip
]

unfoldable pub host_is_loopback : NetText → String → Bool
unfolding loopback_host
host_is_loopback net address = loopback_host net (net.split_host_port address)

-- The address of a listener that netip could not read is the zero address.
abbrev listens_on_ip4 : Option Endpoint → Bool
listens_on_ip4 none = false
listens_on_ip4 (some listen) = is_ip4 listen.ip

abbrev same : Bool → Bool → Bool
same true b = b
same false b = not b

unfoldable pub family_errors : NetText → String → String → List ConfigError
family_errors net listen target = elim (net.parse_addr_port target) [
  | none ↦ []
  | some t ↦
      check (not (same (listens_on_ip4 (net.parse_addr_port listen)) (is_ip4 t.ip))) family_mismatch
]

-- What follows a host that net.SplitHostPort reads; `unreadable` stands for its error.
unfoldable pub split_errors : NetText → String → ConfigError → List ConfigError → List ConfigError
split_errors net address unreadable next = elim (net.split_host_port address) [
  | none ↦ unreadable ∷ []
  | some host ↦ next
]

-- A listener that the subject needs, on a loopback address; `next` follows if it is one.
unfoldable pub listen_errors :
    NetText → String → ConfigError → ConfigError → List ConfigError → List ConfigError
listen_errors net address unreadable not_loopback next =
    split_errors net address unreadable
      (if not (host_is_loopback net address) then not_loopback ∷ [] else next)

unfoldable pub proxy_errors : NetText → Config → List ConfigError
proxy_errors net c =
    if str_eq c.subject.kind subject_redirect || str_eq c.subject.kind subject_tproxy
    then check (is_none c.execution.worker_uid) no_worker_uid
      ++ (listen_errors net c.subject.listen listen_unreadable listen_not_loopback
            (family_errors net c.subject.listen c.workload.target)
          ++ (check
                (str_eq c.subject.kind subject_redirect
                  && not (str_eq c.workload.protocol protocol_tcp))
                redirect_without_tcp
              ++ check
                  (str_eq c.subject.kind subject_tproxy
                    && (c.subject.mark == 0
                        || ltb_ℤ c.subject.route_table (pos 1)
                        || ltb_ℤ c.subject.rule_priority (pos 1)))
                  bad_policy))
    else []

-- `strings.ContainsAny` of a slash or a backslash
unfoldable pub has_slash : List ℕ → Bool
has_slash [] = false
has_slash (b ∷ bs) = b == 47 || b == 92 || has_slash bs

unfoldable pub address_errors : NetText → List String → List ConfigError
address_errors net [] = []
address_errors net (a ∷ as_) =
    check (not (net.is_cidr a)) (bad_tun_address a) ++ address_errors net as_

unfoldable pub tun_address_errors : NetText → List String → List ConfigError
tun_address_errors net [] = no_tun_address ∷ []
tun_address_errors net (a ∷ rest) = address_errors net (a ∷ rest)

unfoldable pub tun_errors : NetText → Config → List ConfigError
tun_errors net c =
    if is_tun c.subject.kind
    then check (is_none c.execution.worker_uid) no_worker_uid
      ++ (check
            (str_eq c.subject.tun_name ""
              || ltb 15 (length (bytes c.subject.tun_name))
              || has_slash (bytes c.subject.tun_name))
            bad_tun_name
          ++ (tun_address_errors net c.subject.tun_address
              ++ check (ltb c.subject.mtu 1280 || ltb 65535 c.subject.mtu) bad_mtu))
    else []

unfoldable pub literal_host_errors : NetText → Option String → List ConfigError
literal_host_errors net none = subject_target_unreadable ∷ []
literal_host_errors net (some host) = elim (net.parse_ip host) [
  | none ↦ subject_target_no_literal ∷ []
  | some ip ↦ []
]

unfoldable pub direct_errors : NetText → Config → List ConfigError
direct_errors net c =
    if str_eq c.subject.kind subject_direct
    then listen_errors net c.subject.listen listen_unreadable listen_not_loopback []
      ++ (literal_host_errors net (net.split_host_port c.subject.target)
          ++ check (not (str_eq c.workload.target c.subject.listen)) target_not_listen)
    else []

abbrev pub is_ebpf : String → Bool
is_ebpf kind = str_eq kind subject_ebpf_tc || str_eq kind subject_ebpf_cgroup

-- The only included user is the worker's.
unfoldable pub includes_worker : List ℕ → Option ℕ → Bool
includes_worker (uid ∷ []) (some worker) = uid == worker
includes_worker (uid ∷ []) none = false
includes_worker [] worker = false
includes_worker (a ∷ b ∷ rest) worker = false

unfoldable pub ebpf_errors : NetText → Config → List ConfigError
ebpf_errors net c =
    check (is_ebpf c.subject.kind && length c.subject.include_uid == 0) no_include_uid
    ++ (check (str_eq c.subject.kind subject_ebpf_tc && not (str_eq c.subject.cgroup_path ""))
          cgroup_without_ebpf
        ++ (check
              (str_eq c.subject.kind subject_ebpf_cgroup
                && not (valid_cgroup_path net c.subject.cgroup_path))
              bad_cgroup_path
            ++ (check
                  (is_ebpf c.subject.kind
                    && not (includes_worker c.subject.include_uid c.execution.worker_uid))
                  (uid_mismatch c.subject.kind)
                ++ (if is_ebpf c.subject.kind
                    then listen_errors net c.subject.api_listen api_unreadable api_not_loopback []
                      ++ check (str_eq c.subject.api_token "") no_api_token
                    else []))))
