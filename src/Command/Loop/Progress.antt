-- ===== src/Command/Loop/Progress.antt =====
-- cmd/inbound-bench/main.go: how far the loop of runMatrix comes.
use mathlib.Core.List.{append_assoc, append-nil}
use sing_box_inbound_bench.Base.{
  ℕ, List, [], ◌∷◌, ◌++◌, String, Bool, true, false, not, ◌&&◌, ◌≡◌, ◌≢◌, refl, sym, subst, ◌∙◌,
  if-both, Option, none, some, All,
}
use sing_box_inbound_bench.Protocol.Config.{Config}
use sing_box_inbound_bench.Protocol.Matrix.{MatrixConfig}
use sing_box_inbound_bench.Runner.{is_nil, join}
use sing_box_inbound_bench.Command.Jobs.{
  MatrixJob, MatrixState, JobConfig, found, failed, matrix_job_config,
}
use sing_box_inbound_bench.Command.Loop.{
  Stored, stored, absent, unreadable, Lab, join_all, Turn, End, run_ended, run_job, is_unrecovered,
  fail_fast_error, end_turn, summarized, finish_matrix, with_config, take_turn, run_jobs,
  run_matrix_jobs,
}
use sing_box_inbound_bench.Command.Loop.Turns.{SameJob, run_job-TurnDone}

-- A job that had no result was run, in the world where it had none: the repetition was executed with the
-- job's configuration and index, for its warmup and result, and its validity is that of the job.
pub record Executed {W : Type 0} (lab : Lab W) (matrix : MatrixConfig) (j j' : MatrixJob)
    : Type 0 where
  pub world : W
  pub no_result : lab.decode_repetition j.result world ≡ absent
  pub config : Config
  pub case_index : ℕ
  pub configured : matrix_job_config matrix j ≡ found config case_index
  pub same_job : SameJob j j'
  pub complete : j'.complete ≡ true
  pub judged : j'.valid ≡ (lab.execute_repetition config case_index j.warmup j.result world).0.0

-- The jobs before a run of the loop, behind it, and whether it came to their end.
pub data Progress {W : Type 0} (lab : Lab W) (matrix : MatrixConfig)
    : List MatrixJob → List MatrixJob → Bool → Type 0 where
  all_done : Progress lab matrix [] [] true
  -- the rest is left as it was
  stopped : (js : List MatrixJob) → Progress lab matrix js js false
  -- its result was there
  kept :
      {js js' : List MatrixJob} {end : Bool}
      → (j : MatrixJob) (valid : Bool) (w : W) → lab.decode_repetition j.result w ≡ stored valid
      → Progress lab matrix js js' end
      → Progress lab matrix (j ∷ js) (record j { complete = true; valid = valid } ∷ js') end
  -- it was run, and the loop went on
  ran :
      {js js' : List MatrixJob} {end : Bool} {j j' : MatrixJob}
      → Executed lab matrix j j'
      → is_unrecovered j'.recovery ≡ false
      → (matrix.fail_fast ≡ true → j'.valid ≡ true)
      → Progress lab matrix js js' end
      → Progress lab matrix (j ∷ js) (j' ∷ js') end
  -- it was run, and the loop ended behind it
  ran_last :
      {j j' : MatrixJob}
      → Executed lab matrix j j'
      → (js : List MatrixJob) → Progress lab matrix (j ∷ js) (j' ∷ js) false

abbrev pub NoRecovery : MatrixJob → Type 0
NoRecovery j = j.recovery ≡ none

join-ne_none : (a : Option String) (e : String) → join a (some e) ≢ none
join-ne_none none e h = cc
join-ne_none (some a) e h = cc

join_all-none : (es : List String) → join_all es ≡ none → es ≡ []
unfolding join_all
join_all-none [] h = refl
join_all-none (e ∷ es) h = absurd (started (join_all es) h)
  where
    started : (r : Option String) → join (some e) r ≢ none
    started none k = cc
    started (some x) k = cc

fail_fast_error-ne_none : (j : MatrixJob) (es : List String) → fail_fast_error j es ≢ none
fail_fast_error-ne_none j [] h = cc
fail_fast_error-ne_none j (e ∷ es) h = cons-nil (join_all-none (e ∷ es) h)
  where
    cons-nil : e ∷ es ≡ [] → ⊥
    cons-nil k = cc

join-is_nil : (a b : Option String) → is_nil b ≡ false → join a b ≢ none
join-is_nil a none n h = cc
join-is_nil a (some e) n h = join-ne_none a e h

module _ {W : Type 0} (lab : Lab W) (matrix : MatrixConfig) where
  -- A run of the loop that has left the jobs `before`, and had `rest` before it.
  pub record Ended (before rest : List MatrixJob) (e : End W) : Type 0 where
    pub after : List MatrixJob
    pub to_end : Bool
    pub jobs : e.jobs ≡ before ++ after
    pub progress : Progress lab matrix rest after to_end
    pub clean : e.error ≡ none → to_end ≡ true

  stopped-Ended :
      (before rest : List MatrixJob) (err : Option String) (w : W)
      → err ≢ none
      → Ended before rest (run_ended (before ++ rest) err w)
  stopped-Ended before rest err w n = record {
    after = rest;
    to_end = false;
    jobs = refl;
    progress = stopped rest;
    clean = λ h. absurd (n h);
  }

  last-Ended :
      (before rest : List MatrixJob) (j j' : MatrixJob) (err : Option String) (w : W)
      → Executed lab matrix j j'
      → err ≢ none
      → Ended before (j ∷ rest) (run_ended (before ++ (j' ∷ rest)) err w)
  last-Ended before rest j j' err w x n = record {
    after = j' ∷ rest;
    to_end = false;
    jobs = refl;
    progress = ran_last x rest;
    clean = λ h. absurd (n h);
  }

  at_end :
      (before : List MatrixJob) (err : Option String) (w : W)
      → Ended before [] (run_ended before err w)
  at_end before err w = record {
    after = [];
    to_end = true;
    jobs = sym (append-nil before);
    progress = all_done;
    clean = λ _. refl;
  }

  summarized-Ended :
      (before : List MatrixJob) (errs : List String) (r : Option String × W)
      → Ended before [] (summarized lab matrix before errs r)
  unfolding summarized
  summarized-Ended before errs (none, w) = at_end before _ w
  summarized-Ended before errs (some e, w) = at_end before _ w

  finish_matrix-Ended :
      (before : List MatrixJob) (errs : List String) (r : Option String × W)
      → Ended before [] (finish_matrix lab matrix before errs r)
  unfolding finish_matrix
  finish_matrix-Ended before errs (some e, w) = at_end before _ w
  finish_matrix-Ended before errs (none, w) = summarized-Ended before errs _

  -- The jobs behind a turn, seen from before it.
  onto-Ended :
      {before rest : List MatrixJob} {j j' : MatrixJob} {e : End W}
      → ((after : List MatrixJob) (to_end : Bool)
          → Progress lab matrix rest after to_end
          → Progress lab matrix (j ∷ rest) (j' ∷ after) to_end)
      → Ended (before ++ (j' ∷ [])) rest e
      → Ended before (j ∷ rest) e
  onto-Ended {before} {rest} {j} {j'} step d = record {
    after = j' ∷ d.after;
    to_end = d.to_end;
    jobs = d.jobs ∙ append_assoc before (j' ∷ []) d.after;
    progress = step d.after d.to_end d.progress;
    clean = d.clean;
  }

  Next : List MatrixJob → List MatrixJob → (MatrixJob → List String → W → End W) → Type 0
  Next before rest next =
      (j' : MatrixJob) (errs : List String) (w : W)
      → Ended (before ++ (j' ∷ [])) rest (next j' errs w)

  end_turn-Ended :
      (before rest : List MatrixJob) (j : MatrixJob) (next : MatrixJob → List String → W → End W)
      (t : Turn W) (written : Option String × W)
      → Executed lab matrix j t.job
      → (is_unrecovered t.job.recovery ≡ true → t.run_errors ≢ [])
      → Next before rest next
      → Ended before
          (j ∷ rest)
          (end_turn lab matrix (before ++ (t.job ∷ rest)) (next t.job) t written)
  unfolding end_turn Next
  end_turn-Ended before rest j next t (some e, w) x reported n =
      last-Ended before rest j t.job _ w x (join-ne_none _ e)
  end_turn-Ended before rest j next t (none, w) x reported n =
      if-both (Ended before (j ∷ rest)) (not (is_nil (lab.machine.context_err w)))
        (λ cancelled.
          last-Ended before rest j t.job _ w x
            (join-is_nil _ (lab.machine.context_err w) (is_false _ cancelled)))
        (λ _.
          if-both (Ended before (j ∷ rest)) (is_unrecovered t.job.recovery)
            (λ u. last-Ended before rest j t.job _ w x (λ h. reported u (join_all-none _ h)))
            (λ recovered.
              if-both (Ended before (j ∷ rest)) (matrix.fail_fast && not t.job.valid)
                (λ _.
                  last-Ended before rest j t.job _ w x (fail_fast_error-ne_none t.job t.run_errors))
                (λ fine.
                  onto-Ended (λ after end p. ran x recovered (valid_if _ _ fine) p)
                    (n t.job t.run_errors w))))
    where
      is_false : (b : Bool) → not b ≡ true → b ≡ false
      is_false true h = sym h
      is_false false h = refl

      valid_if : (f v : Bool) → (f && not v) ≡ false → f ≡ true → v ≡ true
      valid_if f true h e = refl
      valid_if true false h e = sym h
      valid_if false false h e = e

  with_config-Ended :
      (state : MatrixState) (c : JobConfig) (j : MatrixJob) (before rest : List MatrixJob)
      (next : MatrixJob → List String → W → End W) (errs : List String) (w : W)
      → matrix_job_config matrix j ≡ c
      → lab.decode_repetition j.result w ≡ absent
      → NoRecovery j
      → Next before rest next
      → Ended before (j ∷ rest) (with_config lab matrix state c j before rest next errs w)
  with_config-Ended state (failed e) j before rest next errs w k m r n =
      stopped-Ended before (j ∷ rest) _ w (λ h. cc)
  with_config-Ended state (found c i) j before rest next errs w k m r n =
      let t : Turn W = record { job = j; run_errors = errs; world = w } in
      let d = run_job-TurnDone lab matrix c i t r in
      end_turn-Ended before rest j next (run_job lab matrix c i t) _
        (record {
          world = w;
          no_result = m;
          config = c;
          case_index = i;
          configured = k;
          same_job = d.same_job;
          complete = d.complete;
          judged = d.judged;
        })
        d.reported n

  take_turn-Ended :
      (state : MatrixState) (s : Stored) (j : MatrixJob) (before rest : List MatrixJob)
      (next : MatrixJob → List String → W → End W) (errs : List String) (w : W)
      → lab.decode_repetition j.result w ≡ s
      → NoRecovery j
      → Next before rest next
      → Ended before (j ∷ rest) (take_turn lab matrix state s j before rest next errs w)
  unfolding take_turn Next
  take_turn-Ended state (stored valid) j before rest next errs w m r n =
      onto-Ended (λ after end p. kept j valid w m p) (n _ errs w)
  take_turn-Ended state (unreadable e) j before rest next errs w m r n =
      stopped-Ended before (j ∷ rest) _ w (λ h. cc)
  take_turn-Ended state absent j before rest next errs w m r n =
      with_config-Ended state (matrix_job_config matrix j) j before rest next errs w refl m r n

  run_jobs-Ended :
      (state : MatrixState) (before rest : List MatrixJob) (errs : List String) (w : W)
      → All NoRecovery rest
      → Ended before rest (run_jobs lab matrix state before rest errs w)
  unfolding run_jobs Next
  run_jobs-Ended state before [] errs w r = finish_matrix-Ended before errs _
  run_jobs-Ended state before (j ∷ rest) errs w r =
      take_turn-Ended state _ j before rest _ errs w refl r.0
        (λ j' errs' w'. run_jobs-Ended state (before ++ (j' ∷ [])) rest errs' w' r.1)

  -- The loop through the jobs of any state without recoveries.
  pub run_matrix_jobs-Progress :
      (state : MatrixState) (w : W)
      → All NoRecovery state.jobs
      → let e = run_matrix_jobs lab matrix state w in
        (to_end : Bool) × Progress lab matrix state.jobs e.jobs to_end
        × (e.error ≡ none → to_end ≡ true)
  unfolding run_matrix_jobs
  run_matrix_jobs-Progress state w r =
      let d = run_jobs-Ended state [] state.jobs [] w r in
      (
        d.to_end,
        subst (λ js. Progress lab matrix state.jobs js d.to_end) (sym d.jobs) d.progress,
        d.clean,
      )
