-- ===== src/Command/Jobs/Spec.antt =====
-- cmd/inbound-bench/main.go: the schedule of a matrix, which buildMatrixState is to make.
use mathlib.Core.List.{Perm}
use sing_box_inbound_bench.Base.{
  ℕ, suc, List, [], ◌∷◌, ◌++◌, String, Bool, true, false, none, some, All, ◌≡◌, ◌≢◌, str_append,
  Option, ◌↔◌, ltb,
}
use sing_box_inbound_bench.Base.Int.{pos, add_int, ltb_ℤ}
use sing_box_inbound_bench.Text.{pad3}
use sing_box_inbound_bench.Protocol.Config.{Config, subject_raw}
use sing_box_inbound_bench.Protocol.Matrix.{MatrixConfig}
use sing_box_inbound_bench.Command.Jobs.{MatrixJob, repetition_name, matrix_order}

-- Each configuration has a key that none of those behind it is below.
abbrev pub IsOrdered : (Config → ℕ) → List Config → Type 0
IsOrdered key [] = Unit
IsOrdered key (c ∷ cs) = All (λ d. ltb (key d) (key c) ≡ false) cs × IsOrdered key cs

-- What sort.Slice promises of its result, where `less` compares keys: the same elements, in order.
abbrev pub Sorts : ((Config → Config → Bool) → List Config → List Config) → Type 0
Sorts order =
    (key : Config → ℕ) (cs : List Config)
    → Perm (order (λ l r. ltb (key l) (key r)) cs) cs
      × IsOrdered key (order (λ l r. ltb (key l) (key r)) cs)

-- A case is due in a block while it has a repetition, warmups included, left.
abbrev pub IsDue : ℕ → Config → Type 0
IsDue block c =
    ltb_ℤ (pos block) (add_int c.execution.warmup_repetitions c.execution.repetitions) ≡ true

-- A case that has no repetition in a block.
abbrev pub IsOver : ℕ → Config → Type 0
IsOver block c =
    ltb_ℤ (pos block) (add_int c.execution.warmup_repetitions c.execution.repetitions) ≡ false

-- Of some cases, in their order, those that are due in a block.
pub data Selected (block : ℕ) : List Config → List Config → Type 0 where
  no_case : Selected block [] []
  taken :
      {cs due : List Config} (c : Config)
      → IsDue block c
      → Selected block cs due
      → Selected block (c ∷ cs) (c ∷ due)
  passed :
      {cs due : List Config} (c : Config)
      → IsOver block c
      → Selected block cs due
      → Selected block (c ∷ cs) due

module _ (path : List String → String) (m : MatrixConfig) where
  -- A job that is still to be run.
  pub record IsNew (j : MatrixJob) : Type 0 where
    pub complete : j.complete ≡ false
    pub valid : j.valid ≡ false
    pub error : j.error ≡ ""
    pub recovery : j.recovery ≡ none

  -- The job of a case in a block.
  pub record CaseJob (block : ℕ) (c : Config) (j : MatrixJob) : Type 0 where
    pub id : j.id ≡ str_append c.run_id (str_append "-block-" (pad3 block))
    pub case_id : j.case_id ≡ c.run_id
    pub subject : j.subject ≡ c.subject.kind
    pub in_block : j.block ≡ block
    pub warmup : (j.warmup ≡ true) ↔ (ltb_ℤ (pos block) c.execution.warmup_repetitions ≡ true)
    pub no_control : j.control ≡ ""
    pub result :
        j.result
        ≡ path (
            "cases"
            ∷ c.run_id
            ∷ c.subject.kind
            ∷ repetition_name block c.execution.warmup_repetitions
            ∷ [])
    pub new : IsNew j

  pub data CaseJobs (block : ℕ) : List Config → List MatrixJob → Type 0 where
    no_job : CaseJobs block [] []
    with_job :
        {cs : List Config} {js : List MatrixJob} {c : Config} {j : MatrixJob}
        → CaseJob block c j
        → CaseJobs block cs js
        → CaseJobs block (c ∷ cs) (j ∷ js)

  -- The job of the control before or after a block.
  pub record ControlJob (block : ℕ) (position : String) (c : Config) (j : MatrixJob) : Type 0 where
    pub id :
        j.id
        ≡ str_append "raw-control-"
            (str_append "block-" (str_append (pad3 block) (str_append "-" position)))
    pub case_id : j.case_id ≡ c.run_id
    pub subject : j.subject ≡ subject_raw
    pub in_block : j.block ≡ block
    pub measured : j.warmup ≡ false
    pub control : j.control ≡ position
    pub result :
        j.result
        ≡ path (
            "controls"
            ∷ "raw"
            ∷ str_append
                (str_append "block-" (str_append (pad3 block) (str_append "-" position)))
                ".json"
            ∷ [])
    pub new : IsNew j

  -- One job if the matrix has a control, and none if it has not.
  pub data Controls (block : ℕ) (position : String) : Option Config → List MatrixJob → Type 0 where
    without : Controls block position none []
    one_job :
        {c : Config} {j : MatrixJob}
        → ControlJob block position c j
        → Controls block position (some c) (j ∷ [])

  -- The jobs of a block: the control before, each case that is due, in the order of the block, and
  -- the control after. There is a case that is due.
  pub record Block (block : ℕ) (jobs : List MatrixJob) : Type 0 where
    pub due_cases : List Config
    pub cases : List Config
    pub selected : Selected block m.cases due_cases
    pub some_due : due_cases ≢ []
    pub all_due : Perm cases due_cases
    pub in_order : IsOrdered (λ c. matrix_order m.seed block c.run_id) cases
    pub before : List MatrixJob
    pub of_cases : List MatrixJob
    pub after : List MatrixJob
    pub listed : jobs ≡ before ++ (of_cases ++ after)
    pub control_before : Controls block "before" m.raw_control before
    pub case_jobs : CaseJobs block cases of_cases
    pub control_after : Controls block "after" m.raw_control after

  -- The jobs of the blocks from one on, until no case is due.
  pub data Schedule : ℕ → List MatrixJob → Type 0 where
    ended : {block : ℕ} → All (IsOver block) m.cases → Schedule block []
    next :
        {block : ℕ} {now later : List MatrixJob}
        → Block block now
        → Schedule (suc block) later
        → Schedule block (now ++ later)
