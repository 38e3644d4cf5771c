-- ===== src/Netfilter/Restore.antt =====
-- internal/netfilter/manager.go: Cleanup behind any Install, complete or not.
use sing_box_inbound_bench.Base.{
  ℕ, List, [], ◌∷◌, ◌++◌, Bool, true, false, ◌&&◌, if◌then◌else◌, String, Option, none, some, ◌≡◌,
  ◌↔◌, refl, ap, sym, ◌∙◌, subst, Bool-cases, inl, inr, arith,
}
use sing_box_inbound_bench.Netfilter.{Undo, Failure, no_snapshot, resources_remain, Manager, Exec}
use sing_box_inbound_bench.Netfilter.Rules.{
  and_then, Mutation, run, mutated, mutate, install, undone, undo_one, undo_each, cleanup,
  all_undone, verify_restore,
}
use sing_box_inbound_bench.Netfilter.Mutations.{mutations, mutate_all, install-mutate_all}

abbrev pub is_empty : List Failure → Bool
is_empty [] = true
is_empty (f ∷ fs) = false

is_empty-snoc : (fs : List Failure) (f : Failure) → is_empty (fs ++ (f ∷ [])) ≡ false
is_empty-snoc [] f = refl
is_empty-snoc (g ∷ fs) f = refl

module _ {W : Type 0} (exec : Exec W) where
  -- The commands of the entries, run on `w` from the last to the first, lead back to `w₀`.
  abbrev pub Undoes : List Undo → W → W → Type 0
  Undoes [] w₀ w = w ≡ w₀
  Undoes (u ∷ us) w₀ w =
      (w₁ : W) × (out : List ℕ) × (u.done ≡ false)
      × (exec u.command.name u.command.args w₁ ≡ ((out, none), w₀))
      × Undoes us w₁ w

  Undoes-snoc :
      (us : List Undo) (u : Undo) (w₀ w w' : W) (out : List ℕ)
      → u.done ≡ false
      → exec u.command.name u.command.args w' ≡ ((out, none), w)
      → Undoes us w₀ w
      → Undoes (us ++ (u ∷ [])) w₀ w'
  Undoes-snoc [] u w₀ w w' out fresh back h =
      (w', out, fresh, back ∙ ap (λ v. ((out, none), v)) h, refl)
  Undoes-snoc (v ∷ us) u w₀ w w' out fresh back (w₁, o, f, b, h) =
      (w₁, o, f, b, Undoes-snoc us u w₁ w w' out fresh back h)

  -- What a list of changes promises on a host, of the documented behaviour of the tools: a change that
  -- fails leaves the host as it was, and the inverse of one that succeeds leads back.
  abbrev pub Reverted : Mutation → (W → Type 0) → W → (List ℕ × Option String) × W → Type 0
  Reverted x later w ((out, some e), w') = w' ≡ w
  Reverted x later w ((out, none), w') =
      ((o : List ℕ) × (exec x.name x.inverse w' ≡ ((o, none), w))) × later w'

  abbrev pub Reverts : List Mutation → W → Type 0
  Reverts [] w = Unit
  Reverts (x ∷ xs) w = Reverted x (Reverts xs) w (exec x.name x.forward w)

  mutate_all-Undoes :
      (xs : List Mutation) (m : Manager) (w₀ w : W)
      → Undoes m.undo w₀ w
      → Reverts xs w
      → let (f, s) = mutate_all exec xs (m, w) in Undoes s.0.undo w₀ s.1
  unfolding mutate_all mutate and_then
  mutate_all-Undoes [] m w₀ w undoes reverts = undoes
  mutate_all-Undoes (x ∷ xs) m w₀ w undoes reverts =
      go (mutate_all-Undoes xs) (exec x.name x.forward w) reverts
    where
      logged : Manager
      logged = record m {
        commands = m.commands ++ (record { name = x.name; args = x.forward } ∷ []);
      }

      go :
          ((m : Manager) (w₀ w : W)
            → Undoes m.undo w₀ w
            → Reverts xs w
            → let (f, s) = mutate_all exec xs (m, w) in Undoes s.0.undo w₀ s.1)
          → (r : (List ℕ × Option String) × W) → Reverted x (Reverts xs) w r
          → let (f, s) = and_then (mutated exec x (r.0, (logged, r.1))) (mutate_all exec xs) in
            Undoes s.0.undo w₀ s.1
      go rest ((out, some e), w') h = subst (Undoes m.undo w₀) (sym h) undoes
      go rest ((out, none), w') ((o, back), later) =
          rest _ w₀ w' (Undoes-snoc m.undo _ w₀ w w' o refl back undoes) later

  undo_one-back :
      (u : Undo) (errs : List Failure) (m : Manager) (w w₀ : W) (out : List ℕ)
      → u.done ≡ false
      → errs ≡ []
      → exec u.command.name u.command.args w ≡ ((out, none), w₀)
      → let (u', errs', s') = undo_one exec u errs (m, w) in
        (u'.done ≡ true) × (errs' ≡ []) × (s'.1 ≡ w₀)
  unfolding undo_one
  undo_one-back u errs m w w₀ out fresh clean back =
      subst (λ b. Restored (if b then (u, errs, (m, w)) else tried)) (sym fresh) (go _ back)
    where
      logged : Manager
      logged = record m { commands = m.commands ++ (u.command ∷ []) }

      tried : Undo × List Failure × (Manager × W)
      tried = undone exec u errs (run exec u.command.name u.command.args (m, w))

      Restored : Undo × List Failure × (Manager × W) → Type 0
      Restored (u', errs', s') = (u'.done ≡ true) × (errs' ≡ []) × (s'.1 ≡ w₀)

      go :
          (r : (List ℕ × Option String) × W)
          → r ≡ ((out, none), w₀)
          → Restored (undone exec u errs (r.0, (logged, r.1)))
      go ((o, some e), w') h = cc
      go ((o, none), w') h = (refl, clean, ap (λ p. p.1) h)

  undo_each-back :
      (us : List Undo) (m : Manager) (w₀ w : W)
      → Undoes us w₀ w
      → let (us', errs, s') = undo_each exec us (m, w) in
        (all_undone us' ≡ true) × (errs ≡ []) × (s'.1 ≡ w₀)
  unfolding undo_each all_undone
  undo_each-back [] m w₀ w h = (refl, refl, h)
  undo_each-back (u ∷ us) m w₀ w (w₁, out, fresh, back, h) =
      let (all, clean, here) = undo_each-back us m w₁ w h in
      let r = undo_each exec us (m, w) in
      let (first, clean', there) =
        undo_one-back u r.1 r.2.0 r.2.1 w₀ out fresh clean
          (ap (exec u.command.name u.command.args) here ∙ back) in
      (ground (arith, all, first), clean', there)

  cleanup-back :
      (m : Manager) (w₀ w : W)
      → Undoes m.undo w₀ w
      → let (errs, s) = cleanup exec (m, w) in
        (errs ≡ []) × (s.1 ≡ w₀) × (verify_restore s.0 ≡ none)
  unfolding cleanup verify_restore
  cleanup-back m w₀ w h =
      let (all, clean, here) = undo_each-back m.undo m w₀ w h in
      (clean, here, ap (λ b. if b then none else some resources_remain) all)

  pub install_early :
      (m : Manager) (w : W)
      → m.snapshotted ≡ false
      → install exec (m, w) ≡ (some no_snapshot, (m, w))
  unfolding install
  install_early m w early = ground (arith, early)

  install-Undoes :
      (m : Manager) (w : W)
      → m.undo ≡ []
      → Reverts (mutations m) w
      → let (f, s) = install exec (m, w) in Undoes s.0.undo w s.1
  install-Undoes m w empty reverts = elim (Bool-cases m.snapshotted) [
    | inl ready ↦
        subst (λ r. Undoes r.1.0.undo w r.1.1) (sym (install-mutate_all exec m w ready))
          (mutate_all-Undoes (mutations m) m w w undoes reverts)
    | inr early ↦ subst (λ r. Undoes r.1.0.undo w r.1.1) (sym (install_early m w early)) undoes
  ]
    where
      undoes : Undoes m.undo w w
      undoes = subst (λ us. Undoes us w w) (sym empty) refl

  -- Cleanup behind Install leads back to the host before Install, whether Install succeeded or failed
  -- at any of its changes: Cleanup returns no error, the host is the same, and VerifyRestore accepts.
  -- The manager has nothing to undo yet, and the tools behave on this host as documented: a change
  -- that fails changes nothing, and the inverse of a change that succeeded takes it back.
  pub install-cleanup :
      (m : Manager) (w : W)
      → m.undo ≡ []
      → Reverts (mutations m) w
      → let (f, s) = install exec (m, w) in
        let (errs, s') = cleanup exec s in (errs ≡ []) × (s'.1 ≡ w) × (verify_restore s'.0 ≡ none)
  install-cleanup m w empty reverts =
      let (f, s) = install exec (m, w) in cleanup-back s.0 w s.1 (install-Undoes m w empty reverts)

  undo_one-done :
      (u : Undo) (errs : List Failure) (s : Manager × W)
      → let (u', errs', s') = undo_one exec u errs s in is_empty errs' ≡ (u'.done && is_empty errs)
  unfolding undo_one
  undo_one-done u errs (m, w) = go (exec u.command.name u.command.args w) u.done refl
    where
      logged : Manager
      logged = record m { commands = m.commands ++ (u.command ∷ []) }

      go :
          (r : (List ℕ × Option String) × W) (b : Bool)
          → u.done ≡ b
          → let (u', errs', s') =
              if b then (u, errs, (m, w)) else undone exec u errs (r.0, (logged, r.1)) in
            is_empty errs' ≡ (u'.done && is_empty errs)
      go r true h = ground (arith, h)
      go ((o, some e), w') false h = ground (arith, h, is_empty-snoc errs)
      go ((o, none), w') false h = refl

  undo_each-done :
      (us : List Undo) (s : Manager × W)
      → let (us', errs, s') = undo_each exec us s in is_empty errs ≡ all_undone us'
  unfolding undo_each all_undone
  undo_each-done [] s = refl
  undo_each-done (u ∷ us) s =
      let r = undo_each exec us s in
      undo_one-done u r.1 r.2
      ∙ ap (λ b. (undo_one exec u r.1 r.2).0.done && b) (undo_each-done us s)

  -- On any host, VerifyRestore accepts the manager behind Cleanup exactly if Cleanup returned no
  -- error.
  pub cleanup-verify_restore :
      (m : Manager) (w : W)
      → let (errs, s) = cleanup exec (m, w) in (errs ≡ []) ↔ (verify_restore s.0 ≡ none)
  unfolding cleanup verify_restore
  cleanup-verify_restore m w = go r.1 (all_undone r.0) (undo_each-done m.undo (m, w))
    where
      r : List Undo × List Failure × (Manager × W)
      r = undo_each exec m.undo (m, w)

      go :
          (errs : List Failure) (b : Bool)
          → is_empty errs ≡ b
          → (errs ≡ []) ↔ ((if b then none else some resources_remain) ≡ none)
      go [] true h = (λ _. refl, λ _. refl)
      go [] false h = cc
      go (f ∷ fs) true h = cc
      go (f ∷ fs) false h = (λ e. cc, λ e. cc)
