-- ===== src/Netfilter/Snapshot.antt =====
-- internal/netfilter/manager.go: Snapshot, which looks at the host and changes nothing of it.
use sing_box_inbound_bench.Base.{
  ℕ, List, [], ◌∷◌, true, not, if◌then◌else◌, String, Option, none, some,
}
use sing_box_inbound_bench.Text.{itoa, is_blank, to_lower, contains}
use sing_box_inbound_bench.Netfilter.{
  Failure, access_table, chain_exists, access_ip, inspect_rule, inspect_route, priority_in_use,
  table_in_use, Manager, Exec, is_tproxy, chains, table,
}
use sing_box_inbound_bench.Netfilter.Rules.{and_then, run}

-- The bytes of `does not exist`.
abbrev pub does_not_exist : List ℕ
does_not_exist =
    100 ∷ 111 ∷ 101 ∷ 115 ∷ 32 ∷ 110 ∷ 111 ∷ 116 ∷ 32 ∷ 101 ∷ 120 ∷ 105 ∷ 115 ∷ 116 ∷ []

module _ {W : Type 0} (exec : Exec W) where
  unfoldable pub expect_success :
      (String → Failure) → (List ℕ × Option String) × (Manager × W) → Option Failure × (Manager × W)
  expect_success f ((output, some e), s) = (some (f e), s)
  expect_success f ((output, none), s) = (none, s)

  unfoldable pub expect_absent :
      String → (List ℕ × Option String) × (Manager × W) → Option Failure × (Manager × W)
  expect_absent chain ((output, some e), s) = (none, s)
  expect_absent chain ((output, none), s) = (some (chain_exists chain), s)

  -- The loop over the chains, none of which may exist.
  unfoldable pub chains_absent :
      String → String → List String → Manager × W → Option Failure × (Manager × W)
  chains_absent binary table [] s = (none, s)
  chains_absent binary table (chain ∷ rest) s =
      and_then (expect_absent chain (run exec binary ("-w" ∷ "-t" ∷ table ∷ "-S" ∷ chain ∷ []) s))
        (chains_absent binary table rest)

  unfoldable pub judge_rules :
      ℕ → (List ℕ × Option String) × (Manager × W) → Option Failure × (Manager × W)
  judge_rules priority ((output, some e), s) = (some (inspect_rule e), s)
  judge_rules priority ((output, none), s) =
      if not (is_blank output) then (some (priority_in_use priority), s) else (none, s)

  unfoldable pub judge_routes :
      ℕ → (List ℕ × Option String) × (Manager × W) → Option Failure × (Manager × W)
  judge_routes table ((output, some e), s) =
      if not (contains (to_lower output) does_not_exist)
      then (some (inspect_route e), s)
      else (none, s)
  judge_routes table ((output, none), s) =
      if not (is_blank output) then (some (table_in_use table), s) else (none, s)

  unfoldable pub policy_unused : Manager × W → Option Failure × (Manager × W)
  policy_unused s =
      let m = s.0 in
      and_then (expect_success access_ip (run exec m.config.ip_binary ("-Version" ∷ []) s)) (λ s.
        and_then
          (judge_rules m.config.rule_priority (
            run exec m.config.ip_binary
              (m.family_flag ∷ "rule" ∷ "show" ∷ "priority" ∷ itoa m.config.rule_priority ∷ []) s))
          (λ s. judge_routes m.config.route_table (
            run exec m.config.ip_binary
              (m.family_flag ∷ "route" ∷ "show" ∷ "table" ∷ itoa m.config.route_table ∷ []) s)))

  unfoldable pub taken : Manager × W → Option Failure × (Manager × W)
  taken (m, w) = (none, (record m { snapshotted = true }, w))

  unfoldable pub snapshot : Manager × W → Option Failure × (Manager × W)
  snapshot s =
      let m = s.0 in
      and_then
        (expect_success (access_table (table m))
          (run exec m.config.firewall_binary ("-w" ∷ "-t" ∷ table m ∷ "-S" ∷ []) s))
        (λ s.
          and_then (chains_absent m.config.firewall_binary (table m) (chains m) s)
            (λ s. and_then (if is_tproxy m.config.kind then policy_unused s else (none, s)) taken))
