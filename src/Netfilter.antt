-- ===== src/Netfilter.antt =====
-- internal/netfilter/manager.go: the configuration and the state of a Manager, and New. An address of
-- net/netip is its family with its text, and the run's identifier is its bytes.
pub mod Rules
pub mod Snapshot
pub mod Mutations
pub mod Restore
pub mod Refusal
pub mod Counters
mod Tests
use Prim.Native.Char.{code}
use sing_box_inbound_bench.Base.{
  ℕ, ◌==◌, List, [], ◌∷◌, ◌++◌, Bool, true, false, not, ◌&&◌, ◌||◌, if◌then◌else◌, String,
  str_append, str_eq, Option, none, some, ◌⊎◌, inl, inr,
}
use sing_box_inbound_bench.Wire.{crc32}
use sing_box_inbound_bench.Text.{hex8}

pub data Addr : Type 0 where
  invalid : Addr
  ip4 ip6 : String → Addr

abbrev pub is_valid : Addr → Bool
is_valid invalid = false
is_valid (ip4 text) = true
is_valid (ip6 text) = true

abbrev pub is4 : Addr → Bool
is4 (ip4 text) = true
is4 (ip6 text) = false
is4 invalid = false

abbrev pub is6 : Addr → Bool
is6 (ip6 text) = true
is6 (ip4 text) = false
is6 invalid = false

abbrev pub addr_text : Addr → String
addr_text invalid = "invalid IP"
addr_text (ip4 text) = text
addr_text (ip6 text) = text

pub record AddrPort : Type 0 where
  pub addr : Addr
  pub port : ℕ

pub data Kind : Type 0 where
  redirect tproxy : Kind
  other : String → Kind

abbrev pub is_redirect : Kind → Bool
is_redirect redirect = true
is_redirect tproxy = false
is_redirect (other text) = false

abbrev pub is_tproxy : Kind → Bool
is_tproxy tproxy = true
is_tproxy redirect = false
is_tproxy (other text) = false

pub record Config : Type 0 where
  pub kind : Kind
  pub run_id : List ℕ
  pub target : AddrPort
  pub listen : AddrPort
  pub worker_uid : ℕ
  pub protocol : String
  pub firewall_binary : String
  pub ip_binary : String
  pub mark : ℕ
  pub route_table : ℕ
  pub rule_priority : ℕ

pub record Command : Type 0 where
  pub name : String
  pub args : List String

pub record Undo : Type 0 where
  pub command : Command
  pub done : Bool

-- An error of the package, by its parts.
pub data Failure : Type 0 where
  no_runner invalid_addresses redirect_protocol no_snapshot resources_remain : Failure
  unsupported_kind : Kind → Failure
  unsupported_protocol : String → Failure
  access_table : String → String → Failure
  chain_exists : String → Failure
  access_ip inspect_rule inspect_route : String → Failure
  priority_in_use table_in_use : ℕ → Failure
  command_failed undo_failed : Command → String → List ℕ → Failure
  read_counters : String → String → Failure
  not_increased : String → Failure

-- The state of a Manager, beside its runner.
pub record Manager : Type 0 where
  pub config : Config
  pub family_flag : String
  pub chain_out : String
  pub chain_pre : String
  pub undo : List Undo
  pub commands : List Command
  pub snapshotted : Bool

-- A runner executes a command on the host `W`: its output, its error, and the host afterwards.
abbrev pub Exec : Type 0 → Type 0
Exec W = String → List String → W → (List ℕ × Option String) × W

abbrev equal_bools : Bool → Bool → Bool
equal_bools a b = (a && b) || (not a && not b)

abbrev pub or_default : String → String → String
or_default text default = if str_eq text "" then default else text

-- The defaults and the names that New gives.
unfoldable pub make_manager : Config → Manager
make_manager config =
    let v6 = is6 config.target.addr in
    let hash = hex8 (crc32 config.run_id) in
    record {
      config = record config {
        firewall_binary =
            or_default config.firewall_binary (if v6 then "ip6tables" else "iptables");
        ip_binary = or_default config.ip_binary "ip";
      };
      family_flag = if v6 then "-6" else "-4";
      chain_out = str_append (if is_redirect config.kind then "SBI_R_" else "SBI_O_") hash;
      chain_pre = if is_redirect config.kind then "" else str_append "SBI_P_" hash;
      undo = [];
      commands = [];
      snapshotted = false;
    }

unfoldable pub new : Bool → Config → Failure ⊎ Manager
new has_runner config =
    if not has_runner
    then inl no_runner
    else if not (is_redirect config.kind) && not (is_tproxy config.kind)
    then inl (unsupported_kind config.kind)
    else if not (is_valid config.target.addr)
        || not (is_valid config.listen.addr)
        || not (equal_bools (is4 config.target.addr) (is4 config.listen.addr))
    then inl invalid_addresses
    else if not (str_eq config.protocol "tcp") && not (str_eq config.protocol "udp")
    then inl (unsupported_protocol config.protocol)
    else if is_redirect config.kind && not (str_eq config.protocol "tcp")
    then inl redirect_protocol
    else inr (make_manager config)

abbrev pub chains : Manager → List String
chains m = if str_eq m.chain_pre "" then m.chain_out ∷ [] else m.chain_out ∷ m.chain_pre ∷ []

abbrev pub table : Manager → String
table m = if is_redirect m.config.kind then "nat" else "mangle"

-- The text of an address without its zone, which a prefix does not have.
unfoldable pub without_zone : String → String
without_zone String.[] = String.[]
without_zone (String.◌∷◌ c s) =
    let rest = without_zone s in if code c == 37 then String.[] else String.◌∷◌ c rest

abbrev pub target_prefix : Manager → String
target_prefix m =
    str_append (without_zone (addr_text m.config.target.addr))
      (if is6 m.config.target.addr then "/128" else "/32")
