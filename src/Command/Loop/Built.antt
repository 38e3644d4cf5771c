-- ===== src/Command/Loop/Built.antt =====
-- cmd/inbound-bench/main.go: the loop of runMatrix over the jobs of buildMatrixState.
use sing_box_inbound_bench.Base.{
  ℕ, zero, suc, List, [], ◌∷◌, map, String, Bool, true, ◌≡◌, refl, Option, none, some, All,
  All-append,
}
use sing_box_inbound_bench.Protocol.Config.{Config}
use sing_box_inbound_bench.Protocol.Matrix.{MatrixConfig}
use sing_box_inbound_bench.Command.Jobs.{
  case_job, control_job, control_jobs, block_jobs, blocks_jobs, build_matrix_state,
}
use sing_box_inbound_bench.Command.Loop.{Lab, run_matrix_jobs}
use sing_box_inbound_bench.Command.Loop.Progress.{NoRecovery, Progress, run_matrix_jobs-Progress}

module _ (path : List String → String)
    (order : (Config → Config → Bool) → List Config → List Config) where
  case_jobs-NoRecovery :
      (block : ℕ) (cs : List Config) → All NoRecovery (map (case_job path block) cs)
  unfolding case_job
  case_jobs-NoRecovery block [] = tt
  case_jobs-NoRecovery block (c ∷ cs) = (refl, case_jobs-NoRecovery block cs)

  control_jobs-NoRecovery :
      (c : Option Config) (block : ℕ) (position : String)
      → All NoRecovery (control_jobs path c block position)
  unfolding control_jobs control_job
  control_jobs-NoRecovery none block position = tt
  control_jobs-NoRecovery (some c) block position = (refl, tt)

  blocks_jobs-NoRecovery :
      (m : MatrixConfig) (block more : ℕ) → All NoRecovery (blocks_jobs path order m block more)
  unfolding blocks_jobs block_jobs
  blocks_jobs-NoRecovery m block zero = tt
  blocks_jobs-NoRecovery m block (suc more) =
      All-append NoRecovery _ _
        (All-append NoRecovery _ _ (control_jobs-NoRecovery m.raw_control block "before") (
          All-append NoRecovery _ _ (case_jobs-NoRecovery block _)
            (control_jobs-NoRecovery m.raw_control block "after")))
        (blocks_jobs-NoRecovery m (suc block) more)

  module _ {W : Type 0} (lab : Lab W) (matrix : MatrixConfig) where
    -- Of the jobs that buildMatrixState makes, the loop of runMatrix treats a first part: each either has
    -- a result that is read, and is marked complete with its validity, or has none and is run: the
    -- repetition of its configuration is executed, in the world where it had no result, and leaves it
    -- complete under its name, with the validity of the repetition; the other jobs are as they were made.
    -- Behind a job that was run the loop goes on only if its recovery was valid, where there was one, and
    -- if the job was valid, where the matrix is to fail fast. If there is no error, the loop has come to
    -- the end of the jobs.
    pub run_matrix_jobs-built :
        (w : W)
        → let state = build_matrix_state path order matrix in
          let e = run_matrix_jobs lab matrix state w in
          (to_end : Bool) × Progress lab matrix state.jobs e.jobs to_end
          × (e.error ≡ none → to_end ≡ true)
    unfolding build_matrix_state
    run_matrix_jobs-built w =
        run_matrix_jobs-Progress lab matrix (build_matrix_state path order matrix) w
          (blocks_jobs-NoRecovery matrix 0 _)
