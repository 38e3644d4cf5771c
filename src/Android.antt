-- ===== src/Android.antt =====
-- internal/platform/android/orchestrator.go: what the orchestrator checks of a device behind a matrix. A map
-- is a list of its entries, an output is its bytes, and the text of an error is left out.
pub mod Restored
pub mod Owned
mod Tests
use sing_box_inbound_bench.Base.{
  ℕ, List, [], ◌∷◌, ◌++◌, String, str_append, str_eq, Bool, true, false, not, ◌&&◌, ◌||◌, ◌==◌,
  if◌then◌else◌, Option, none, some,
}
use sing_box_inbound_bench.Text.{bytes, contains, is_blank, hex8}
use sing_box_inbound_bench.Wire.{crc32}
use sing_box_inbound_bench.Protocol.Endpoint.{Endpoint}
use sing_box_inbound_bench.Protocol.Config.{Config, subject_redirect, subject_tproxy, contains_text}
use sing_box_inbound_bench.Protocol.Config.Defaults.{is_tun}
use sing_box_inbound_bench.Protocol.Config.Errors.{NetText}
use sing_box_inbound_bench.Protocol.Matrix.{MatrixConfig}
use sing_box_inbound_bench.Suite.Build.{is_ip6}
use sing_box_inbound_bench.Command.Jobs.{itoa_int}

pub record CommandResult : Type 0 where
  pub arguments : List String
  pub output : List ℕ
  pub error : String

-- The commands of a snapshot, by name.
abbrev pub Commands : Type 0
Commands = List (String × CommandResult)

unfoldable pub find_command : String → Commands → Option CommandResult
find_command name [] = none
find_command name ((n, c) ∷ cs) =
    let rest = find_command name cs in if str_eq n name then some c else rest

-- The state of a service by its status command: running, and observed at all. `error` is none, or the exit
-- code where the error has one.
unfoldable pub service_state : List ℕ → Option (Option ℕ) → List ℕ → Bool × Bool
service_state output none running_contains =
    if contains output running_contains then (true, true) else (false, true)
service_state output (some none) running_contains =
    if contains output running_contains then (true, true) else (false, false)
service_state output (some (some code)) running_contains =
    if contains output running_contains
    then (true, true)
    else if not (is_blank output) && code == 1
    then (false, true)
    else (false, false)

-- The markers of the benchmark's own state, by the name of the command that shows them.
abbrev pub SnapshotOwnership : Type 0
SnapshotOwnership = List (String × List String)

unfoldable pub appeared : String → List ℕ → List ℕ → List String → List String
appeared name left right [] = []
appeared name left right (marker ∷ markers) =
    let rest = appeared name left right markers in
    if not (contains left (bytes marker)) && contains right (bytes marker)
    then str_append name (str_append ":" marker) ∷ rest
    else rest

-- What appeared in one command's output, if it was read before and after.
unfoldable pub changed_in :
    String → List String → Option CommandResult → Option CommandResult → List String
changed_in name markers none right = []
changed_in name markers (some left) none = []
changed_in name markers (some left) (some right) =
    if not (str_eq left.error "") || not (str_eq right.error "")
    then []
    else appeared name left.output right.output markers

-- VerifySnapshot, by what has changed: there is no error if nothing has.
unfoldable pub verify_snapshot : Commands → Commands → SnapshotOwnership → List String
verify_snapshot before after [] = []
verify_snapshot before after ((name, markers) ∷ own) =
    changed_in name markers (find_command name before) (find_command name after)
    ++ verify_snapshot before after own

-- The markers of a command with one more, if it is new and not empty.
unfoldable pub add_to : String → List String → List String
add_to marker markers =
    if not (str_eq marker "") && not (contains_text markers marker)
    then markers ++ (marker ∷ [])
    else markers

unfoldable pub add_marker : String → String → SnapshotOwnership → SnapshotOwnership
add_marker name marker [] = if not (str_eq marker "") then (name, marker ∷ []) ∷ [] else []
add_marker name marker ((n, ms) ∷ own) =
    let rest = add_marker name marker own in
    if str_eq n name then (n, add_to marker ms) ∷ own else (n, ms) ∷ rest

unfoldable pub target_family : NetText → Config → String
target_family net c = elim (net.parse_addr_port c.workload.target) [
  | none ↦ "ip4"
  | some target ↦ if is_ip6 target.ip then "ip6" else "ip4"
]

abbrev pub chain_hash : Config → String
chain_hash c = hex8 (crc32 (bytes c.run_id))

-- What a case owns on the device, as the calls of `add` in their order.
unfoldable pub own_markers : NetText → Config → List (String × String)
own_markers net c =
    if str_eq c.subject.kind subject_redirect
    then ("iptables", str_append "SBI_R_" (chain_hash c))
      ∷ ("ip6tables", str_append "SBI_R_" (chain_hash c))
      ∷ []
    else if str_eq c.subject.kind subject_tproxy
    then ("iptables", str_append "SBI_O_" (chain_hash c))
      ∷ ("iptables", str_append "SBI_P_" (chain_hash c))
      ∷ ("ip6tables", str_append "SBI_O_" (chain_hash c))
      ∷ ("ip6tables", str_append "SBI_P_" (chain_hash c))
      ∷ (
        str_append (target_family net c) "-rule",
        str_append (itoa_int c.subject.rule_priority) ":",
      )
      ∷ (
        str_append (target_family net c) "-route",
        str_append " table " (itoa_int c.subject.route_table),
      )
      ∷ []
    else if is_tun c.subject.kind
    then ("links", str_append "\"ifname\":\"" (str_append c.subject.tun_name "\""))
      ∷ ("links", str_append "\"ifname\": \"" (str_append c.subject.tun_name "\""))
      ∷ ("ip4-route", str_append "dev " c.subject.tun_name)
      ∷ ("ip6-route", str_append "dev " c.subject.tun_name)
      ∷ []
    else []

unfoldable pub add_all : List (String × String) → SnapshotOwnership → SnapshotOwnership
add_all [] own = own
add_all ((name, marker) ∷ rest) own = add_all rest (add_marker name marker own)

unfoldable pub own_cases : NetText → List Config → SnapshotOwnership → SnapshotOwnership
own_cases net [] own = own
own_cases net (c ∷ cs) own = own_cases net cs (add_all (own_markers net c) own)

unfoldable pub snapshot_ownership : NetText → MatrixConfig → SnapshotOwnership
snapshot_ownership net m = own_cases net m.cases []
