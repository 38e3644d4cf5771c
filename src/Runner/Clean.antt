-- ===== src/Runner/Clean.antt =====
-- What a caller of internal/runner/lifecycle.go may conclude from the result of `Execute`.
use sing_box_inbound_bench.Base.{
  Bool, false, true, ◌&&◌, List, [], ◌∷◌, ◌++◌, map, ◌≡◌, refl, ap, sym, ◌∙◌, ◌⊎◌, inl, inr, arith,
  subst,
}
use sing_box_inbound_bench.Protocol.Trace.{PhaseName}
use sing_box_inbound_bench.Runner.{Context, Job, is_nil, execute}
use sing_box_inbound_bench.Runner.Transaction.{execute-Transaction}
use sing_box_inbound_bench.Runner.Transaction.Steps.{Step, outcomes}
use sing_box_inbound_bench.Runner.Transaction.Spec.{
  Ran, all_done, failed, next, main_names, Transaction, refused, setup_failed, started, opened,
  restore_steps, opening,
}

abbrev pub succeeded : PhaseName → Step
succeeded n = (n, true)

abbrev pub all_phases : List PhaseName
all_phases =
    PhaseName.preflight ∷ PhaseName.snapshot ∷ PhaseName.setup ∷ PhaseName.start
    ∷ PhaseName.observe_path_before ∷ PhaseName.warmup ∷ PhaseName.observe_path_after
    ∷ PhaseName.prove_path ∷ PhaseName.measure ∷ PhaseName.stop ∷ PhaseName.collect_artifacts
    ∷ PhaseName.cleanup ∷ PhaseName.verify_restore ∷ []

Ran-done :
    {ns : List PhaseName} {xs : List Step} {done : Bool}
    → Ran ns xs done
    → done ≡ true
    → xs ≡ map succeeded ns
Ran-done all_done e = refl
Ran-done failed e = cc
Ran-done (next {n = n} r) e = ap (λ xs. (n, true) ∷ xs) (Ran-done r e)

record Flags (done valid s a b c : Bool) : Type 0 where
  done_true : done ≡ true
  valid_true : valid ≡ true
  s_true : s ≡ true
  a_true : a ≡ true
  b_true : b ≡ true
  c_true : c ≡ true

and-Flags :
    (done valid s a b c : Bool)
    → (done && valid && s && a && b && c) ≡ true
    → Flags done valid s a b c
and-Flags done valid s a b c h = ground arith

-- The three facts about a run that ended without an error.
abbrev pub IsClean : Bool → List Step → Bool → Type 0
IsClean valid os restored = (os ≡ map succeeded all_phases) × (restored ≡ true) × (valid ≡ true)

clean_started :
    (valid : Bool) (xs : List Step) (done s a b c : Bool)
    → Ran (main_names valid) xs done
    → Flags done valid s a b c
    → opened ((PhaseName.setup, true) ∷ (xs ++ ((PhaseName.stop, s) ∷ restore_steps a b c)))
      ≡ map succeeded all_phases
unfolding main_names
clean_started valid xs done s a b c r f =
    let e : xs ≡ map succeeded (main_names true) =
      Ran-done (subst (λ v. Ran (main_names v) xs done) f.valid_true r) f.done_true in
    rw (e, f.s_true, f.a_true, f.b_true, f.c_true)

IsClean-Transaction :
    {valid restored clean : Bool} {os : List Step}
    → Transaction valid os restored clean
    → clean ≡ true
    → IsClean valid os restored
IsClean-Transaction (refused r e f) h = cc
IsClean-Transaction (setup_failed a b c o e f) h = cc
IsClean-Transaction {valid = valid} (started xs done s a b c r o e f) h =
    let flags = and-Flags done valid s a b c (sym f ∙ h) in
    (o ∙ clean_started valid xs done s a b c r flags, e ∙ flags.c_true, flags.valid_true)

-- A phase of that name stands among the steps.
abbrev pub HasRun : PhaseName → List Step → Type 0
HasRun n [] = ⊥
HasRun n (x ∷ xs) = (x.0 ≡ n) ⊎ HasRun n xs

Ran-HasRun :
    (n : PhaseName) {ns : List PhaseName} {xs : List Step} {done : Bool}
    → Ran ns xs done
    → HasRun n xs
    → HasRun n (map succeeded ns)
Ran-HasRun n all_done h = h
Ran-HasRun n failed (inl e) = inl e
Ran-HasRun n failed (inr h) = absurd h
Ran-HasRun n (next r) (inl e) = inl e
Ran-HasRun n (next r) (inr h) = inr (Ran-HasRun n r h)

HasRun-append :
    (n : PhaseName) (xs ys : List Step) → HasRun n (xs ++ ys) → HasRun n xs ⊎ HasRun n ys
HasRun-append n [] ys h = inr h
HasRun-append n (x ∷ xs) ys (inl e) = inl (inl e)
HasRun-append n (x ∷ xs) ys (inr h) = elim (HasRun-append n xs ys h) [
  | inl l ↦ inl (inr l)
  | inr r ↦ inr r
]

unproved_main : HasRun PhaseName.measure (map succeeded (main_names false)) → ⊥
unfolding main_names
unproved_main h = ground arith

unproved_opening : HasRun PhaseName.measure (map succeeded opening) → ⊥
unproved_opening h = ground arith

measured-Transaction :
    {valid restored clean : Bool} {os : List Step}
    → Transaction valid os restored clean
    → HasRun PhaseName.measure os
    → valid ≡ true
measured-Transaction {valid = true} t h = refl
measured-Transaction {valid = false} (refused r e f) h =
    absurd (unproved_opening (Ran-HasRun PhaseName.measure r h))
measured-Transaction {valid = false} (setup_failed a b c o e f) h =
    let h' = subst (HasRun PhaseName.measure) o h in ground arith
measured-Transaction {valid = false} (started xs done s a b c r o e f) h =
    elim (HasRun-append PhaseName.measure xs ((PhaseName.stop, s) ∷ restore_steps a b c)
      (tail_of _ (subst (HasRun PhaseName.measure) o h))) [
        | inl l ↦ absurd (unproved_main (Ran-HasRun PhaseName.measure r l))
        | inr l ↦ ground arith
      ]
  where
    tail_of :
        (ys : List Step)
        → HasRun PhaseName.measure (opened ((PhaseName.setup, true) ∷ ys))
        → HasRun PhaseName.measure ys
    tail_of ys h = ground arith

module _ {W : Type 0} (job : Job W) where
  -- `Execute` returns no error only where all thirteen phases ran and succeeded in their order,
  -- the restoration was verified, and the path proof is valid.
  pub execute-IsClean :
      (ctx : Context) (w : W)
      → is_nil (execute job ctx w).0 ≡ true
      → let r = (execute job ctx w).1 in
        IsClean r.report.path_proof.valid (outcomes r) r.report.trace.restore_verified
  execute-IsClean ctx w = IsClean-Transaction (execute-Transaction job ctx w)

  -- The measurement runs only under a path proof that is valid and reported.
  pub execute_measured :
      (ctx : Context) (w : W)
      → let r = (execute job ctx w).1 in
        HasRun PhaseName.measure (outcomes r) → r.report.path_proof.valid ≡ true
  execute_measured ctx w = measured-Transaction (execute-Transaction job ctx w)
