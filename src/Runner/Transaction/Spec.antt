-- ===== src/Runner/Transaction/Spec.antt =====
-- The transaction that `Execute` of internal/runner/lifecycle.go promises, as a relation on the names
-- and the successes of the phases in its trace.
use sing_box_inbound_bench.Base.{Bool, false, true, ◌&&◌, List, [], ◌∷◌, ◌++◌, ◌≡◌, if◌then◌else◌}
use sing_box_inbound_bench.Protocol.Trace.{PhaseName}
use sing_box_inbound_bench.Runner.Transaction.Steps.{Step}

-- `Ran names xs done`: the phases of `names` ran in order up to the first that failed, with the
-- outcomes `xs`, and `done` tells whether all of them succeeded.
pub data Ran : List PhaseName → List Step → Bool → Type 0 where
  all_done : Ran [] [] true
  failed : {n : PhaseName} {ns : List PhaseName} → Ran (n ∷ ns) ((n, false) ∷ []) false
  next :
      {n : PhaseName} {ns : List PhaseName} {xs : List Step} {done : Bool}
      → Ran ns xs done
      → Ran (n ∷ ns) ((n, true) ∷ xs) done

-- The phases from `start` on. Only a valid path proof lets the measurement begin.
unfoldable pub main_names : Bool → List PhaseName
main_names valid =
    PhaseName.start
    ∷ PhaseName.observe_path_before
    ∷ PhaseName.warmup
    ∷ PhaseName.observe_path_after
    ∷ PhaseName.prove_path
    ∷ (if valid then PhaseName.measure ∷ [] else [])

-- What follows once the snapshot is taken and the setup attempted.
abbrev pub restore_steps : Bool → Bool → Bool → List Step
restore_steps a b c =
    (PhaseName.collect_artifacts, a) ∷ (PhaseName.cleanup, b) ∷ (PhaseName.verify_restore, c) ∷ []

abbrev pub opening : List PhaseName
opening = PhaseName.preflight ∷ PhaseName.snapshot ∷ []

abbrev pub opened : List Step → List Step
opened xs = (PhaseName.preflight, true) ∷ (PhaseName.snapshot, true) ∷ xs

-- The three shapes of a run: what the trace holds, whether the restoration was verified, and
-- whether no error is returned.
pub data Transaction (valid : Bool) (os : List Step) (restored clean : Bool) : Type 0 where
  refused :
      Ran opening os false → restored ≡ false → clean ≡ false → Transaction valid os restored clean
  setup_failed :
      (a b c : Bool)
      → os ≡ opened ((PhaseName.setup, false) ∷ restore_steps a b c)
      → restored ≡ c
      → clean ≡ false
      → Transaction valid os restored clean
  started :
      (xs : List Step) (done s a b c : Bool)
      → Ran (main_names valid) xs done
      → os ≡ opened ((PhaseName.setup, true) ∷ (xs ++ ((PhaseName.stop, s) ∷ restore_steps a b c)))
      → restored ≡ c
      → clean ≡ (done && valid && s && a && b && c)
      → Transaction valid os restored clean
