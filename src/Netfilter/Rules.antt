-- ===== src/Netfilter/Rules.antt =====
-- internal/netfilter/manager.go: the operations of a Manager that change the host, over any runner.
-- A state is the manager with its host, and a failure ends an operation. An argument `m` is the
-- manager as an operation found it, of which it reads what is never assigned again.
use sing_box_inbound_bench.Base.{
  ℕ, List, [], ◌∷◌, ◌++◌, Bool, true, false, not, ◌&&◌, if◌then◌else◌, String, str_append, Option,
  none, some,
}
use sing_box_inbound_bench.Text.{itoa, hex}
use sing_box_inbound_bench.Netfilter.{
  Undo, Failure, command_failed, undo_failed, no_snapshot, resources_remain, Manager, Exec,
  is_redirect, is6, addr_text, chains, table, target_prefix,
}

unfoldable pub and_then :
    {S : Type 0} → Option Failure × S → (S → Option Failure × S) → Option Failure × S
and_then (none, s) next = next s
and_then (some f, s) next = (some f, s)

-- A command that changes the host, with the one that takes the change back.
pub record Mutation : Type 0 where
  pub name : String
  pub forward : List String
  pub inverse : List String

abbrev pub redirect_rule : Manager → List String
redirect_rule m =
    "-p"
    ∷ "tcp"
    ∷ "-d"
    ∷ target_prefix m
    ∷ "--dport"
    ∷ itoa m.config.target.port
    ∷ "-j"
    ∷ "REDIRECT"
    ∷ "--to-ports"
    ∷ itoa m.config.listen.port
    ∷ []

abbrev pub owner_jump : Manager → String → List String
owner_jump m protocol =
    "-m"
    ∷ "owner"
    ∷ "--uid-owner"
    ∷ itoa m.config.worker_uid
    ∷ "-p"
    ∷ protocol
    ∷ "-d"
    ∷ target_prefix m
    ∷ "--dport"
    ∷ itoa m.config.target.port
    ∷ "-j"
    ∷ m.chain_out
    ∷ []

abbrev pub mark_text : Manager → String
mark_text m = str_append "0x" (str_append (hex m.config.mark) "/0xffffffff")

abbrev pub route_args : Manager → String → List String
route_args m verb =
    m.family_flag
    ∷ "route"
    ∷ verb
    ∷ "local"
    ∷ (if is6 m.config.target.addr then "::/0" else "0.0.0.0/0")
    ∷ "dev"
    ∷ "lo"
    ∷ "table"
    ∷ itoa m.config.route_table
    ∷ []

abbrev pub rule_args : Manager → String → List String
rule_args m verb =
    m.family_flag
    ∷ "rule"
    ∷ verb
    ∷ "priority"
    ∷ itoa m.config.rule_priority
    ∷ "fwmark"
    ∷ mark_text m
    ∷ "lookup"
    ∷ itoa m.config.route_table
    ∷ []

abbrev pub match_args : Manager → List String → List String
match_args m rest =
    "-p" ∷ m.config.protocol ∷ "-d" ∷ target_prefix m ∷ "--dport" ∷ itoa m.config.target.port ∷ rest

abbrev pub mark_rule : Manager → List String
mark_rule m = match_args m ("-j" ∷ "MARK" ∷ "--set-xmark" ∷ mark_text m ∷ [])

abbrev pub tproxy_rule : Manager → List String
tproxy_rule m = match_args m (
    "-m"
    ∷ "mark"
    ∷ "--mark"
    ∷ mark_text m
    ∷ "-j"
    ∷ "TPROXY"
    ∷ "--on-ip"
    ∷ addr_text m.config.listen.addr
    ∷ "--on-port"
    ∷ itoa m.config.listen.port
    ∷ "--tproxy-mark"
    ∷ mark_text m
    ∷ [])

abbrev pub pre_jump : Manager → List String
pre_jump m = "-m" ∷ "mark" ∷ "--mark" ∷ mark_text m ∷ match_args m ("-j" ∷ m.chain_pre ∷ [])

module _ {W : Type 0} (exec : Exec W) where
  abbrev pub run : String → List String → Manager × W → (List ℕ × Option String) × (Manager × W)
  run name args (m, w) =
      let (result, w') = exec name args w in
      (
        result,
        (record m { commands = m.commands ++ (record { name = name; args = args } ∷ []) }, w'),
      )

  abbrev pub mutated :
      Mutation → (List ℕ × Option String) × (Manager × W) → Option Failure × (Manager × W)
  mutated x ((output, some e), s) =
      (some (command_failed (record { name = x.name; args = x.forward }) e output), s)
  mutated x ((output, none), (m, w)) = (
    none,
    (
      record m {
        undo =
            m.undo
            ++ (record { command = record { name = x.name; args = x.inverse }; done = false } ∷ []);
      },
      w,
    ),
  )

  unfoldable pub mutate :
      String → List String → List String → Manager × W → Option Failure × (Manager × W)
  mutate name forward inverse s =
      mutated (record { name = name; forward = forward; inverse = inverse }) (run name forward s)

  unfoldable pub append_rule :
      Manager → String → String → List String → Manager × W → Option Failure × (Manager × W)
  append_rule m table chain rule s =
      mutate m.config.firewall_binary ("-w" ∷ "-t" ∷ table ∷ "-A" ∷ chain ∷ rule)
        ("-w" ∷ "-t" ∷ table ∷ "-D" ∷ chain ∷ rule) s

  unfoldable pub insert_jump :
      Manager → String → String → List String → Manager × W → Option Failure × (Manager × W)
  insert_jump m table chain rule s =
      mutate m.config.firewall_binary ("-w" ∷ "-t" ∷ table ∷ "-I" ∷ chain ∷ "1" ∷ rule)
        ("-w" ∷ "-t" ∷ table ∷ "-D" ∷ chain ∷ rule) s

  unfoldable pub new_chain :
      Manager → String → String → Manager × W → Option Failure × (Manager × W)
  new_chain m table chain s =
      mutate m.config.firewall_binary ("-w" ∷ "-t" ∷ table ∷ "-N" ∷ chain ∷ [])
        ("-w" ∷ "-t" ∷ table ∷ "-X" ∷ chain ∷ []) s

  unfoldable pub install_redirect : Manager × W → Option Failure × (Manager × W)
  install_redirect s =
      let m = s.0 in
      and_then (new_chain m "nat" m.chain_out s) (λ s.
        and_then (append_rule m "nat" m.chain_out (redirect_rule m) s)
          (insert_jump m "nat" "OUTPUT" (owner_jump m "tcp")))

  -- The loop over the chains.
  unfoldable pub new_chains : Manager → List String → Manager × W → Option Failure × (Manager × W)
  new_chains m [] s = (none, s)
  new_chains m (chain ∷ rest) s = and_then (new_chain m "mangle" chain s) (new_chains m rest)

  unfoldable pub install_tproxy : Manager × W → Option Failure × (Manager × W)
  install_tproxy s =
      let m = s.0 in
      and_then (mutate m.config.ip_binary (route_args m "add") (route_args m "del") s) (λ s.
        and_then (mutate m.config.ip_binary (rule_args m "add") (rule_args m "del") s) (λ s.
          and_then (new_chains m (chains m) s) (λ s.
            and_then (append_rule m "mangle" m.chain_out (mark_rule m) s) (λ s.
              and_then (append_rule m "mangle" m.chain_pre (tproxy_rule m) s) (λ s.
                and_then (insert_jump m "mangle" "OUTPUT" (owner_jump m m.config.protocol) s)
                  (insert_jump m "mangle" "PREROUTING" (pre_jump m)))))))

  unfoldable pub install : Manager × W → Option Failure × (Manager × W)
  install s =
      if not s.0.snapshotted
      then (some no_snapshot, s)
      else if is_redirect s.0.config.kind
      then install_redirect s
      else install_tproxy s

  abbrev pub undone :
      Undo
      → List Failure
      → (List ℕ × Option String) × (Manager × W)
      → Undo × List Failure × (Manager × W)
  undone u errs ((output, some e), s) = (u, errs ++ (undo_failed u.command e output ∷ []), s)
  undone u errs ((output, none), s) = (record u { done = true }, errs, s)

  unfoldable pub undo_one : Undo → List Failure → Manager × W → Undo × List Failure × (Manager × W)
  undo_one u errs s =
      let tried = undone u errs (run u.command.name u.command.args s) in
      if u.done then (u, errs, s) else tried

  -- The loop of Cleanup, from the last entry to the first.
  unfoldable pub undo_each : List Undo → Manager × W → List Undo × List Failure × (Manager × W)
  undo_each [] s = ([], [], s)
  undo_each (u ∷ us) s =
      let (us', errs, s') = undo_each us s in
      let (u', errs', s'') = undo_one u errs s' in (u' ∷ us', errs', s'')

  unfoldable pub cleanup : Manager × W → List Failure × (Manager × W)
  cleanup s = let (us, errs, (m, w)) = undo_each s.0.undo s in (errs, (record m { undo = us }, w))

unfoldable pub all_undone : List Undo → Bool
all_undone [] = true
all_undone (u ∷ us) = u.done && all_undone us

unfoldable pub verify_restore : Manager → Option Failure
verify_restore m = if all_undone m.undo then none else some resources_remain
