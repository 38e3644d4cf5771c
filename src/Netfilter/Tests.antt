-- ===== src/Netfilter/Tests.antt =====
-- A manager of internal/netfilter/manager.go on a host that counts the entries it was given and fails
-- at the sixth.
use sing_box_inbound_bench.Base.{
  ℕ, suc, ◌-◌, ◌==◌, List, [], ◌∷◌, Bool, true, ◌||◌, if◌then◌else◌, String, str_eq, none, some,
  get_or, ◌≡◌, ◌↔◌, refl, All, inr,
}
use sing_box_inbound_bench.Text.{hex8, padded, is_space}
use sing_box_inbound_bench.Wire.{crc32}
use sing_box_inbound_bench.Netfilter.{
  ip4, tproxy, Config, no_snapshot, Manager, Exec, make_manager, new, chains,
}
use sing_box_inbound_bench.Netfilter.Rules.{
  and_then, mutate, append_rule, insert_jump, new_chain, new_chains, install, install_tproxy,
  cleanup, verify_restore,
}
use sing_box_inbound_bench.Netfilter.Snapshot.{
  snapshot, chains_absent, expect_success, expect_absent,
}
use sing_box_inbound_bench.Netfilter.Mutations.{mutations, tproxy_mutations}
use sing_box_inbound_bench.Netfilter.Restore.{Reverts, install-cleanup, cleanup-verify_restore}
use sing_box_inbound_bench.Netfilter.Refusal.{failed_snapshot-install}
use sing_box_inbound_bench.Netfilter.Counters.{
  Observation, Grew, prove, prove-Grew, parse_counters, split_lines, add_lines, fields_from,
  parse_uint, parse_digits,
}

abbrev config : Config
config = record {
  kind = tproxy;
  run_id = 114 ∷ 49 ∷ [];
  target = record { addr = ip4 "192.0.2.1"; port = 443 };
  listen = record { addr = ip4 "127.0.0.1"; port = 7893 };
  worker_uid = 2000;
  protocol = "udp";
  firewall_binary = "";
  ip_binary = "";
  mark = 0x2d0;
  route_table = 2022;
  rule_priority = 9000;
}

abbrev verb : String → List String → String
verb name args = if str_eq name "ip" then get_or args 2 "" else get_or args 3 ""

abbrev adds : String → Bool
adds v = str_eq v "-N" || str_eq v "-A" || str_eq v "-I" || str_eq v "add"

abbrev deletes : String → Bool
deletes v = str_eq v "-X" || str_eq v "-D" || str_eq v "del"

abbrev host : Exec ℕ
host name args w =
    let v = verb name args in
    if adds v
    then (if w == 5 then (([], some "exit status 1"), w) else (([], none), suc w))
    else if deletes v
    then (([], none), w - 1)
    else (([], none), w)

abbrev ready : Manager
ready = record (make_manager config) { snapshotted = true }

new_manager : new true config ≡ inr (make_manager config)
unfolding new
new_manager = refl

ready-Reverts : Reverts host (mutations ready) 0
unfolding mutations tproxy_mutations make_manager hex8 padded crc32
ready-Reverts = (([], refl), (([], refl), (([], refl), (([], refl), (([], refl), refl)))))

install-cleanup_example :
    let (f, s) = install host (ready, 0) in
    let (errs, s') = cleanup host s in (errs ≡ []) × (s'.1 ≡ 0) × (verify_restore s'.0 ≡ none)
unfolding make_manager
install-cleanup_example = install-cleanup host ready 0 refl ready-Reverts

-- The host has five entries when the sixth change fails.
install_partial : (install host (ready, 0)).1.1 ≡ 5
unfolding install install_tproxy mutate append_rule insert_jump new_chain new_chains and_then
    make_manager hex8 padded crc32
install_partial = refl

cleanup-verify_restore_example :
    let (errs, s) = cleanup host (ready, 0) in (errs ≡ []) ↔ (verify_restore s.0 ≡ none)
cleanup-verify_restore_example = cleanup-verify_restore host ready 0

-- This host answers a look at any chain, so no name is free.
failed_snapshot-install_example :
    let s = (snapshot host (make_manager config, 0)).1 in
    (install host s ≡ (some no_snapshot, s)) × (s.0.undo ≡ [])
unfolding snapshot chains_absent expect_success expect_absent and_then make_manager hex8 padded
    crc32
failed_snapshot-install_example =
    failed_snapshot-install host (make_manager config) 0 _ _ refl refl refl

abbrev counted : ℕ → Observation
counted n = record {
  family = "-4";
  counters =
      ("SBI_O", record { packets = n; bytes = suc n })
      ∷ ("SBI_P", record { packets = suc n; bytes = n })
      ∷ [];
  commands = [];
}

abbrev two_chains : Manager
two_chains = record ready { chain_out = "SBI_O"; chain_pre = "SBI_P" }

prove-Grew_example :
    (prove two_chains (counted 3) (counted 4) ≡ none)
    ↔ All (λ c. Grew c (counted 3) (counted 4)) (chains two_chains)
prove-Grew_example = prove-Grew two_chains (counted 3) (counted 4)

-- Two lines of `17 9` and one that has no counters.
counters_of_lines :
    parse_counters
      (112 ∷ 32 ∷ 98 ∷ 10 ∷ 49 ∷ 55 ∷ 32 ∷ 57 ∷ 10 ∷ 32 ∷ 49 ∷ 55 ∷ 32 ∷ 32 ∷ 57 ∷ 32 ∷ 120 ∷ [])
    ≡ record { packets = 34; bytes = 18 }
unfolding parse_counters split_lines add_lines fields_from parse_uint parse_digits is_space
counters_of_lines = refl
