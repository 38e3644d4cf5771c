-- ===== src/Command/Loop.antt =====
-- cmd/inbound-bench/main.go: the loop of runMatrix over its jobs. Results, contexts and processes are
-- those of the world `W`; an `error` is `Option String`, by its text. The state that is written behind a
-- job is that of all jobs: those before it as they run_ended, those behind it as they were.
pub mod Turns
pub mod Progress
pub mod Built
mod Tests
use sing_box_inbound_bench.Base.{
  ℕ, List, [], ◌∷◌, ◌++◌, String, str_append, str_eq, Bool, true, false, not, ◌&&◌, if◌then◌else◌,
  Option, none, some,
}
use sing_box_inbound_bench.Protocol.Config.{Config, mode_pps}
use sing_box_inbound_bench.Protocol.Matrix.{MatrixConfig}
use sing_box_inbound_bench.Runner.{is_nil, error_text, join}
use sing_box_inbound_bench.Command.Jobs.{
  MatrixJob, MatrixRecovery, MatrixState, JobError, no_control, case_missing, JobConfig, found,
  failed, matrix_job_config,
}
use sing_box_inbound_bench.Command.Recovery.{
  Machine, wait_context, milliseconds, run_matrix_recovery_probe,
}

-- What DecodeRepetition finds at a path: a repetition, by its validity, no file, or another error.
pub data Stored : Type 0 where
  stored : Bool → Stored
  absent : Stored
  unreadable : String → Stored

-- What the loop calls beside the Machine of the probe. `execute_repetition` returns the validity of the
-- repetition and the error, for a configuration, an index, a warmup and the result of the job.
pub record Lab (W : Type 0) : Type 0 where
  pub machine : Machine W
  pub decode_repetition : String → W → Stored
  pub execute_repetition : Config → ℕ → Bool → String → W → (Bool × Option String) × W
  pub write_state : MatrixState → W → Option String × W
  pub summarize_matrix : MatrixConfig → W → Option String × W

-- `errors.Join(errs...)`
unfoldable pub join_all : List String → Option String
join_all [] = none
join_all (e ∷ es) = join (some e) (join_all es)

abbrev pub job_error_text : JobError → String
job_error_text no_control = "raw control job has no configuration"
job_error_text (case_missing id) = str_append "matrix case " (str_append id " is missing")

-- The variables of the loop: the job that `&state.Jobs[index]` points at, and the errors of the run.
pub record Turn (W : Type 0) : Type 0 where
  pub job : MatrixJob
  pub run_errors : List String
  pub world : W

-- What runMatrix leaves: its jobs, its error, and the world.
pub record End (W : Type 0) : Type 0 where
  pub jobs : List MatrixJob
  pub error : Option String
  pub world : W

-- `fmt.Errorf("%s" + label + ": %w", job.ID, err)`
abbrev pub about : MatrixJob → String → String → String
about job label e = str_append job.id (str_append label (str_append ": " e))

-- The error of a step behind the execution, joined to that of the execution.
abbrev pub note_error : {W : Type 0} → Option String → String → Option String → Turn W → Turn W
note_error execute_err label none t = t
note_error execute_err label (some e) t =
    let job : MatrixJob = t.job in
    record t {
      job = record job { error = error_text (join execute_err (some e)) };
      run_errors = t.run_errors ++ (about job label e ∷ []);
    }

abbrev pub set_recovery : {W : Type 0} → MatrixRecovery → Turn W → Turn W
set_recovery r t =
    let job : MatrixJob = t.job in record t { job = record job { recovery = some r } }

-- The job behind its execution.
unfoldable pub record_result : {W : Type 0} → Bool → Option String → Turn W → Turn W
record_result valid none t =
    let job : MatrixJob = t.job in record t { job = record job { complete = true; valid = valid } }
record_result valid (some e) t =
    let job : MatrixJob = t.job in
    record t {
      job = record job { complete = true; valid = valid; error = e };
      run_errors = t.run_errors ++ (about job "" e ∷ []);
    }

unfoldable pub with_jobs : MatrixState → List MatrixJob → MatrixState
with_jobs state jobs = record state { jobs = jobs }

abbrev pub is_unrecovered : Option MatrixRecovery → Bool
is_unrecovered none = false
is_unrecovered (some r) = not r.valid

-- The error of a run that stops at an invalid job.
abbrev pub fail_fast_error : MatrixJob → List String → Option String
fail_fast_error job [] = some (str_append job.id " completed with an invalid result")
fail_fast_error job (e ∷ es) = join_all (e ∷ es)

abbrev pub run_ended : {W : Type 0} → List MatrixJob → Option String → W → End W
run_ended jobs err w = record { jobs = jobs; error = err; world = w }

module _ {W : Type 0} (lab : Lab W) (matrix : MatrixConfig) where
  open lab use {machine, decode_repetition, execute_repetition, write_state, summarize_matrix}

  unfoldable pub cool_down : Option String → Turn W → Turn W
  cool_down execute_err t =
      let (err, w) = wait_context machine (milliseconds matrix.cooldown_ms) t.world in
      if str_eq t.job.control ""
      then note_error execute_err " cooldown" err (record t { world = w })
      else t

  abbrev pub probe : Option String → Option Config → Turn W → Turn W
  probe execute_err none t = t
  probe execute_err (some raw_control) t =
      let ((r, err), w) = run_matrix_recovery_probe machine raw_control t.world in
      note_error execute_err " recovery" err (set_recovery r (record t { world = w }))

  unfoldable pub recover : Option String → Config → Turn W → Turn W
  recover execute_err config t =
      if is_nil (machine.context_err t.world)
        && str_eq t.job.control ""
        && str_eq config.workload.mode mode_pps
      then probe execute_err matrix.raw_control t
      else t

  -- The part of a turn that runs the job, up to where the state is written.
  unfoldable pub run_job : Config → ℕ → Turn W → Turn W
  run_job config case_index t =
      let ((valid, err), w) =
        execute_repetition config case_index t.job.warmup t.job.result t.world in
      recover err config (cool_down err (record_result valid err (record t { world = w })))

  -- The end of a turn, behind the write of the state: a return, or the `next` turn.
  unfoldable pub end_turn :
      List MatrixJob → (List String → W → End W) → Turn W → Option String × W → End W
  end_turn jobs next t (some e, w) = run_ended jobs (join (join_all t.run_errors) (some e)) w
  end_turn jobs next t (none, w) =
      if not (is_nil (machine.context_err w))
      then run_ended jobs (join (join_all t.run_errors) (machine.context_err w)) w
      else if is_unrecovered t.job.recovery
      then run_ended jobs (join_all t.run_errors) w
      else if matrix.fail_fast && not t.job.valid
      then run_ended jobs (fail_fast_error t.job t.run_errors) w
      else next t.run_errors w

  -- The code behind the loop.
  unfoldable pub summarized : List MatrixJob → List String → Option String × W → End W
  summarized jobs run_errors (none, w) = run_ended jobs (join_all run_errors) w
  summarized jobs run_errors (some e, w) = run_ended jobs (join_all (run_errors ++ (e ∷ []))) w

  unfoldable pub finish_matrix : List MatrixJob → List String → Option String × W → End W
  finish_matrix jobs run_errors (some e, w) = run_ended jobs (join (join_all run_errors) (some e)) w
  finish_matrix jobs run_errors (none, w) = summarized jobs run_errors (summarize_matrix matrix w)

  module _ (state : MatrixState) where
    abbrev pub with_config :
        JobConfig
        → MatrixJob
        → List MatrixJob
        → List MatrixJob
        → (MatrixJob → List String → W → End W)
        → List String
        → W
        → End W
    with_config (failed e) job before rest next run_errors w =
        run_ended (before ++ (job ∷ rest)) (some (job_error_text e)) w
    with_config (found config case_index) job before rest next run_errors w =
        let t =
          run_job config case_index (record { job = job; run_errors = run_errors; world = w }) in
        let jobs = before ++ (t.job ∷ rest) in
        end_turn jobs (next t.job) t (write_state (with_jobs state jobs) t.world)

    -- A turn for a job, whose result may be there from an earlier run.
    unfoldable pub take_turn :
        Stored
        → MatrixJob
        → List MatrixJob
        → List MatrixJob
        → (MatrixJob → List String → W → End W)
        → List String
        → W
        → End W
    take_turn (stored valid) job before rest next run_errors w =
        next (record job { complete = true; valid = valid }) run_errors w
    take_turn (unreadable e) job before rest next run_errors w =
        run_ended (before ++ (job ∷ rest))
          (some
            (str_append "resume result " (str_append job.result (str_append " is unreadable: " e))))
          w
    take_turn absent job before rest next run_errors w =
        with_config (matrix_job_config matrix job) job before rest next run_errors w

    -- The turns for `rest`, behind those for the jobs `before`.
    unfoldable pub run_jobs : List MatrixJob → List MatrixJob → List String → W → End W
    run_jobs before [] run_errors w =
        finish_matrix before run_errors (write_state (with_jobs state before) w)
    run_jobs before (job ∷ rest) run_errors w =
        take_turn (decode_repetition job.result w) job before rest
          (λ job' run_errors' w'. run_jobs (before ++ (job' ∷ [])) rest run_errors' w') run_errors w

  -- runMatrix from the first turn on.
  unfoldable pub run_matrix_jobs : MatrixState → W → End W
  run_matrix_jobs state w = run_jobs state [] state.jobs [] w
