-- ===== src/Command/Jobs/Found.antt =====
-- cmd/inbound-bench/main.go: matrixJobConfig finds the configuration of each job of a matrix.
use sing_box_inbound_bench.Base.{
  ℕ, ◌+◌, ◌*◌, List, [], ◌∷◌, ◌++◌, String, str_eq, str_eq_iff, false, none, some, All, ◌≡◌, ◌≢◌,
  refl, ap, subst, ◌∙◌, arith, if-true, if-false,
}
use sing_box_inbound_bench.Protocol.Config.{Config}
use sing_box_inbound_bench.Protocol.Matrix.{MatrixConfig}
use sing_box_inbound_bench.Protocol.Matrix.Accepted.{Distinct}
use sing_box_inbound_bench.Command.Jobs.{
  case_job, control_job, found, failed, no_control, case_missing, find_case, matrix_job_config,
}

All-middle :
    (P : Config → Type 0) (before : List Config) (c : Config) (after : List Config)
    → All P (before ++ (c ∷ after))
    → P c
All-middle P [] c after h = h.0
All-middle P (b ∷ before) c after h = All-middle P before c after h.1

str_ne : (x y : String) → x ≢ y → str_eq x y ≡ false
str_ne x y h = ground (arith, str_eq_iff x y)

find_case-append :
    (before : List Config) (c : Config) (after : List Config)
    → Distinct (before ++ (c ∷ after))
    → find_case c.run_id (before ++ (c ∷ after)) ≡ some c
unfolding find_case
find_case-append [] c after h = if-true _ _ _ ((str_eq_iff c.run_id c.run_id).1 refl)
find_case-append (b ∷ before) c after h =
    if-false _ _ _ (str_ne b.run_id c.run_id (All-middle _ before c after h.0))
    ∙ find_case-append before c after h.1

-- The job of a case leads back to the case, with the block as its index, if the cases have identifiers
-- of their own.
pub matrix_job_config-case_job :
    (path : List String → String) (m : MatrixConfig) (before : List Config) (c : Config)
    (after : List Config) (block : ℕ)
    → m.cases ≡ before ++ (c ∷ after)
    → Distinct m.cases
    → matrix_job_config m (case_job path block c) ≡ found c block
unfolding matrix_job_config case_job
matrix_job_config-case_job path m before c after block e h =
    ap (λ o. elim o [ none ↦ failed (case_missing c.run_id) | some d ↦ found d block ])
      (ap (find_case c.run_id) e ∙ find_case-append before c after (subst Distinct e h))

-- The jobs of the control lead to the control, with an index of their own before and after a block.
pub matrix_job_config-control_job :
    (path : List String → String) (m : MatrixConfig) (c : Config) (block : ℕ)
    → m.raw_control ≡ some c
    → (matrix_job_config m (control_job path c block "before") ≡ found c (block * 2))
      × (matrix_job_config m (control_job path c block "after") ≡ found c (block * 2 + 1))
unfolding matrix_job_config control_job
matrix_job_config-control_job path m c block e = (
  ap (λ o. elim o [ none ↦ failed no_control | some d ↦ found d (block * 2 + 0) ]) e
      ∙ ap (found c) (omega arith),
  ap (λ o. elim o [ none ↦ failed no_control | some d ↦ found d (block * 2 + 1) ]) e,
)
