-- ===== src/Netfilter/Refusal.antt =====
-- internal/netfilter/manager.go: Install behind a Snapshot that failed.
use sing_box_inbound_bench.Base.{
  ℕ, List, [], ◌∷◌, Bool, true, false, not, if◌then◌else◌, String, Option, none, some, ◌≡◌,
  Bool-cases, inl, inr, sym, subst,
}
use sing_box_inbound_bench.Text.{is_blank, to_lower, contains}
use sing_box_inbound_bench.Netfilter.{
  Failure, access_ip, access_table, no_snapshot, Manager, Exec, is_tproxy, table,
}
use sing_box_inbound_bench.Netfilter.Rules.{and_then, install}
use sing_box_inbound_bench.Netfilter.Snapshot.{
  expect_success, expect_absent, chains_absent, judge_rules, judge_routes, does_not_exist,
  policy_unused, taken, snapshot,
}
use sing_box_inbound_bench.Netfilter.Restore.{install_early}

module _ {W : Type 0} (exec : Exec W) where
  abbrev Untaken : Manager × W → Type 0
  Untaken s = (s.0.snapshotted ≡ false) × (s.0.undo ≡ [])

  -- The snapshot is not marked as taken, where the operation failed.
  abbrev UntakenIfFailed : Option Failure × (Manager × W) → Type 0
  UntakenIfFailed (none, s) = Unit
  UntakenIfFailed (some f, s) = Untaken s

  abbrev StaysUntaken : Option Failure × (Manager × W) → Type 0
  StaysUntaken r = Untaken r.1

  expect_success-StaysUntaken :
      (f : String → Failure) (r : (List ℕ × Option String) × (Manager × W))
      → Untaken r.1
      → StaysUntaken (expect_success exec f r)
  unfolding expect_success
  expect_success-StaysUntaken f ((o, some e), s) h = h
  expect_success-StaysUntaken f ((o, none), s) h = h

  expect_absent-StaysUntaken :
      (c : String) (r : (List ℕ × Option String) × (Manager × W))
      → Untaken r.1
      → StaysUntaken (expect_absent exec c r)
  unfolding expect_absent
  expect_absent-StaysUntaken c ((o, some e), s) h = h
  expect_absent-StaysUntaken c ((o, none), s) h = h

  if-StaysUntaken :
      (b : Bool) (f : Failure) (s : Manager × W)
      → Untaken s
      → StaysUntaken (if b then (some f, s) else (none, s))
  if-StaysUntaken true f s h = h
  if-StaysUntaken false f s h = h

  judge_rules-StaysUntaken :
      (n : ℕ) (r : (List ℕ × Option String) × (Manager × W))
      → Untaken r.1
      → StaysUntaken (judge_rules exec n r)
  unfolding judge_rules
  judge_rules-StaysUntaken n ((o, some e), s) h = h
  judge_rules-StaysUntaken n ((o, none), s) h = if-StaysUntaken (not (is_blank o)) _ s h

  judge_routes-StaysUntaken :
      (n : ℕ) (r : (List ℕ × Option String) × (Manager × W))
      → Untaken r.1
      → StaysUntaken (judge_routes exec n r)
  unfolding judge_routes
  judge_routes-StaysUntaken n ((o, some e), s) h =
      if-StaysUntaken (not (contains (to_lower o) does_not_exist)) _ s h
  judge_routes-StaysUntaken n ((o, none), s) h = if-StaysUntaken (not (is_blank o)) _ s h

  and_then-StaysUntaken :
      (r : Option Failure × (Manager × W)) (k : Manager × W → Option Failure × (Manager × W))
      → StaysUntaken r
      → ((s : Manager × W) → Untaken s → StaysUntaken (k s))
      → StaysUntaken (and_then r k)
  unfolding and_then
  and_then-StaysUntaken (none, s) k h next = next s h
  and_then-StaysUntaken (some f, s) k h next = h

  and_then-UntakenIfFailed :
      (r : Option Failure × (Manager × W)) (k : Manager × W → Option Failure × (Manager × W))
      → StaysUntaken r
      → ((s : Manager × W) → Untaken s → UntakenIfFailed (k s))
      → UntakenIfFailed (and_then r k)
  unfolding and_then
  and_then-UntakenIfFailed (none, s) k h next = next s h
  and_then-UntakenIfFailed (some f, s) k h next = h

  chains_absent-StaysUntaken :
      (binary table : String) (cs : List String) (s : Manager × W)
      → Untaken s
      → StaysUntaken (chains_absent exec binary table cs s)
  unfolding chains_absent
  chains_absent-StaysUntaken binary table [] s h = h
  chains_absent-StaysUntaken binary table (c ∷ cs) s h =
      and_then-StaysUntaken _ _ (expect_absent-StaysUntaken c _ h)
        (chains_absent-StaysUntaken binary table cs)

  policy_unused-StaysUntaken : (s : Manager × W) → Untaken s → StaysUntaken (policy_unused exec s)
  unfolding policy_unused
  policy_unused-StaysUntaken s h =
      and_then-StaysUntaken _ _ (expect_success-StaysUntaken access_ip _ h) (λ s h.
        and_then-StaysUntaken _ _ (judge_rules-StaysUntaken _ _ h)
          (λ s h. judge_routes-StaysUntaken _ _ h))

  snapshot-UntakenIfFailed :
      (m : Manager) (w : W)
      → m.snapshotted ≡ false
      → m.undo ≡ []
      → UntakenIfFailed (snapshot exec (m, w))
  unfolding snapshot taken
  snapshot-UntakenIfFailed m w h u =
      and_then-UntakenIfFailed _ _ (expect_success-StaysUntaken (access_table (table m)) _ (h, u))
        (λ s h.
          and_then-UntakenIfFailed _ _ (chains_absent-StaysUntaken _ _ _ s h)
            (λ s h. and_then-UntakenIfFailed _ _ (policy s h) (λ s h. tt)))
    where
      policy :
          (s : Manager × W)
          → Untaken s
          → StaysUntaken (if is_tproxy m.config.kind then policy_unused exec s else (none, s))
      policy s h = elim (Bool-cases (is_tproxy m.config.kind)) [
        | inl e ↦
            subst (λ b. StaysUntaken (if b then policy_unused exec s else (none, s))) (sym e)
              (policy_unused-StaysUntaken s h)
        | inr e ↦
            subst (λ b. StaysUntaken (if b then policy_unused exec s else (none, s))) (sym e) h
      ]

  -- A Snapshot that fails on a new manager leaves Install without effect: it runs no command, leaves
  -- host and manager as they are, and there is nothing to undo.
  pub failed_snapshot-install :
      (m : Manager) (w : W) (f : Failure) (s : Manager × W)
      → m.snapshotted ≡ false
      → m.undo ≡ []
      → snapshot exec (m, w) ≡ (some f, s)
      → (install exec s ≡ (some no_snapshot, s)) × (s.0.undo ≡ [])
  failed_snapshot-install m w f s h u failed =
      let (untaken, empty) = subst UntakenIfFailed failed (snapshot-UntakenIfFailed m w h u) in
      (install_early exec s.0 s.1 untaken, empty)
