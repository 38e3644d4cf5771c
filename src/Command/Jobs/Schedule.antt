-- ===== src/Command/Jobs/Schedule.antt =====
-- cmd/inbound-bench/main.go: buildMatrixState builds a schedule of the matrix.
use sing_box_inbound_bench.Base.{
  ℕ, zero, suc, ◌+◌, ◌<◌, List, [], ◌∷◌, map, String, Bool, false, none, some, All, ◌≡◌, ◌≢◌, refl,
  sym, subst, arith, if-true, if-false, if-both, Option, ◌≤◌, inl, inr, Bool-cases,
}
use sing_box_inbound_bench.Base.Int.{ℤ, pos, pos_part, ltb_ℤ, max_ℤ}
use sing_box_inbound_bench.Protocol.Config.{Config}
use sing_box_inbound_bench.Protocol.Matrix.{MatrixConfig}
use sing_box_inbound_bench.Command.Jobs.{
  rounds, block_count, due, case_job, control_job, control_jobs, precedes, block_jobs, blocks_jobs,
  build_matrix_state, matrix_order,
}
use sing_box_inbound_bench.Command.Jobs.Spec.{
  Sorts, IsOver, Selected, no_case, taken, passed, CaseJob, CaseJobs, no_job, with_job, Controls,
  without, one_job, Block, Schedule, ended, next,
}

due-Selected : (block : ℕ) (cs : List Config) → Selected block cs (due block cs)
unfolding due
due-Selected block [] = no_case
due-Selected block (c ∷ cs) =
    let rest = due-Selected block cs in
    if-both (Selected block (c ∷ cs)) (ltb_ℤ (pos block) (rounds c)) (λ here. taken c here rest)
      (λ over. passed c over rest)

abbrev Ended : ℕ → List Config → Type 0
Ended block cs = All (IsOver block) cs

above_max :
    (a b : ℤ) (n : ℕ) → pos_part (max_ℤ a b) ≤ n → (pos_part a ≤ n) × (ltb_ℤ (pos n) b ≡ false)
above_max a b n h = (ground arith, ground arith)

max_below : (a b : ℤ) (n : ℕ) → pos_part a ≤ n → ltb_ℤ (pos n) b ≡ false → pos_part (max_ℤ a b) ≤ n
max_below a b n h k = ground arith

block_count_lem :
    (blocks : ℤ) (cs : List Config)
    → (pos_part blocks ≤ pos_part (block_count blocks cs))
      × Ended (pos_part (block_count blocks cs)) cs
unfolding block_count
block_count_lem blocks [] = (omega arith, tt)
block_count_lem blocks (c ∷ cs) =
    let rest = block_count_lem (max_ℤ blocks (rounds c)) cs in
    let here =
      above_max blocks (rounds c) (pos_part (block_count (max_ℤ blocks (rounds c)) cs)) rest.0 in
    (here.0, (here.1, rest.1))

cons_ne_nil : (c : Config) (cs : List Config) → (c ∷ cs) ≢ []
cons_ne_nil c cs = ground arith

-- A block below the number of blocks has a case that is due.
some_due :
    (blocks : ℤ) (cs : List Config) (block : ℕ)
    → pos_part blocks ≤ block
    → block < pos_part (block_count blocks cs)
    → due block cs ≢ []
unfolding block_count due
some_due blocks [] block h k = ground arith
some_due blocks (c ∷ cs) block h k = elim (Bool-cases (ltb_ℤ (pos block) (rounds c))) [
  | inl here ↦ subst (λ cs. cs ≢ []) (sym (if-true _ _ _ here)) (cons_ne_nil c (due block cs))
  | inr later ↦
      subst (λ cs. cs ≢ []) (sym (if-false _ _ _ later))
        (some_due (max_ℤ blocks (rounds c)) cs block (max_below blocks (rounds c) block h later) k)
]

module _ (path : List String → String) (m : MatrixConfig) where
  case_job-CaseJob : (block : ℕ) (c : Config) → CaseJob path m block c (case_job path block c)
  unfolding case_job
  case_job-CaseJob block c = record {
    id = refl;
    case_id = refl;
    subject = refl;
    in_block = refl;
    warmup = (λ h. h, λ h. h);
    no_control = refl;
    result = refl;
    new = record { complete = refl; valid = refl; error = refl; recovery = refl };
  }

  jobs-CaseJobs :
      (block : ℕ) (cs : List Config) → CaseJobs path m block cs (map (case_job path block) cs)
  jobs-CaseJobs block [] = no_job
  jobs-CaseJobs block (c ∷ cs) = with_job (case_job-CaseJob block c) (jobs-CaseJobs block cs)

  control_jobs-Controls :
      (block : ℕ) (position : String) (control : Option Config)
      → Controls path m block position control (control_jobs path control block position)
  unfolding control_jobs control_job
  control_jobs-Controls block position none = without
  control_jobs-Controls block position (some c) = one_job (record {
    id = refl;
    case_id = refl;
    subject = refl;
    in_block = refl;
    measured = refl;
    control = refl;
    result = refl;
    new = record { complete = refl; valid = refl; error = refl; recovery = refl };
  })

  module _ (order : (Config → Config → Bool) → List Config → List Config)
      (sorts : Sorts order) where
    block_jobs-Block :
        (block : ℕ) → due block m.cases ≢ [] → Block path m block (block_jobs path order m block)
    unfolding block_jobs
    block_jobs-Block block some_case =
        let cases = order (precedes path order m block) (due block m.cases) in
        let sorted = sorts (λ c. matrix_order m.seed block c.run_id) (due block m.cases) in
        record {
          due_cases = due block m.cases;
          cases = cases;
          selected = due-Selected block m.cases;
          some_due = some_case;
          all_due = sorted.0;
          in_order = sorted.1;
          before = control_jobs path m.raw_control block "before";
          of_cases = map (case_job path block) cases;
          after = control_jobs path m.raw_control block "after";
          listed = refl;
          control_before = control_jobs-Controls block "before" m.raw_control;
          case_jobs = jobs-CaseJobs block cases;
          control_after = control_jobs-Controls block "after" m.raw_control;
        }

    blocks_jobs-Schedule :
        (block more : ℕ)
        → block + more ≡ pos_part (block_count (pos 0) m.cases)
        → Schedule path m block (blocks_jobs path order m block more)
    unfolding blocks_jobs
    blocks_jobs-Schedule block zero h =
        let end : pos_part (block_count (pos 0) m.cases) ≡ block = omega (arith, h) in
        ended (subst (λ b. Ended b m.cases) end (block_count_lem (pos 0) m.cases).1)
    blocks_jobs-Schedule block (suc more) h =
        next
          (block_jobs-Block block (some_due (pos 0) m.cases block (omega arith) (omega (arith, h))))
          (blocks_jobs-Schedule (suc block) more (omega (arith, h)))

    -- The jobs of buildMatrixState are a schedule of the matrix, in blocks from zero on, until no case has a
    -- repetition left: the jobs of a block are one of the raw control before it, one of each case that has
    -- a repetition in the block, ordered by the hash of the seed, the block and the case, and one of the
    -- control after it, where there is a control; and each block has a case. A job has the name, the
    -- result's path and the warmup of its case and block, and is still to be run. The sort is one that
    -- does what is documented of sort.Slice.
    pub build_matrix_state-Schedule : Schedule path m 0 (build_matrix_state path order m).jobs
    unfolding build_matrix_state
    build_matrix_state-Schedule =
        blocks_jobs-Schedule 0 (pos_part (block_count (pos 0) m.cases)) (omega arith)
