-- ===== src/Command/Loop/Turns.antt =====
-- cmd/inbound-bench/main.go: what one turn of the loop of runMatrix does to its job.
use sing_box_inbound_bench.Base.{
  ℕ, List, [], ◌∷◌, ◌++◌, String, str_eq, Bool, true, not, ◌≡◌, ◌≢◌, ◌⊎◌, refl, ◌∙◌, Option, none,
  some, arith, if-both, inl, inr,
}
use sing_box_inbound_bench.Protocol.Config.{Config}
use sing_box_inbound_bench.Protocol.Matrix.{MatrixConfig}
use sing_box_inbound_bench.Runner.{is_nil}
use sing_box_inbound_bench.Command.Jobs.{MatrixJob, MatrixRecovery}
use sing_box_inbound_bench.Command.Recovery.{wait_context, milliseconds, run_matrix_recovery_probe}
use sing_box_inbound_bench.Command.Recovery.Probed.{run_matrix_recovery_probe-Probed}
use sing_box_inbound_bench.Command.Loop.{
  Lab, Turn, note_error, cool_down, set_recovery, probe, recover, record_result, run_job,
  is_unrecovered,
}

-- All that names a job is kept.
pub record SameJob (j j' : MatrixJob) : Type 0 where
  pub id : j'.id ≡ j.id
  pub case_id : j'.case_id ≡ j.case_id
  pub subject : j'.subject ≡ j.subject
  pub block : j'.block ≡ j.block
  pub warmup : j'.warmup ≡ j.warmup
  pub control : j'.control ≡ j.control
  pub result : j'.result ≡ j.result

SameJob-refl : (j : MatrixJob) → SameJob j j
SameJob-refl j = record {
  id = refl;
  case_id = refl;
  subject = refl;
  block = refl;
  warmup = refl;
  control = refl;
  result = refl;
}

-- A turn that has run its job so far, whose repetition was `valid`: a recovery that failed has left an
-- error.
pub record TurnDone {W : Type 0} (j : MatrixJob) (valid : Bool) (t : Turn W) : Type 0 where
  pub same_job : SameJob j t.job
  pub complete : t.job.complete ≡ true
  pub judged : t.job.valid ≡ valid
  pub reported : is_unrecovered t.job.recovery ≡ true → t.run_errors ≢ []

snoc-[] : {A : Type 0} (xs : List A) (x : A) → xs ++ (x ∷ []) ≢ []
snoc-[] [] x h = cc
snoc-[] (y ∷ ys) x h = cc

SameJob-trans : {j k l : MatrixJob} → SameJob j k → SameJob k l → SameJob j l
SameJob-trans a b = record {
  id = b.id ∙ a.id;
  case_id = b.case_id ∙ a.case_id;
  subject = b.subject ∙ a.subject;
  block = b.block ∙ a.block;
  warmup = b.warmup ∙ a.warmup;
  control = b.control ∙ a.control;
  result = b.result ∙ a.result;
}

-- The fields that a turn writes do not name the job.
written :
    (j : MatrixJob) (complete valid : Bool) (error : String) (recovery : Option MatrixRecovery)
    → SameJob j
        (record j { complete = complete; valid = valid; error = error; recovery = recovery })
written j complete valid error recovery = record {
  id = refl;
  case_id = refl;
  subject = refl;
  block = refl;
  warmup = refl;
  control = refl;
  result = refl;
}

unrecovered-none : (r : Option MatrixRecovery) → r ≡ none → is_unrecovered r ≡ true → ⊥
unrecovered-none none e u = cc
unrecovered-none (some r) e u = cc

record_result-TurnDone :
    {W : Type 0} (valid : Bool) (err : Option String) (t : Turn W)
    → t.job.recovery ≡ none
    → TurnDone t.job valid (record_result valid err t)
unfolding record_result
record_result-TurnDone valid none t r = record {
  same_job = written t.job true valid t.job.error t.job.recovery;
  complete = refl;
  judged = refl;
  reported = λ u. absurd (unrecovered-none _ r u);
}
record_result-TurnDone valid (some text) t r = record {
  same_job = written t.job true valid text t.job.recovery;
  complete = refl;
  judged = refl;
  reported = λ u. absurd (unrecovered-none _ r u);
}

note_error-TurnDone :
    {W : Type 0} (execute_err : Option String) (label : String) (err : Option String)
    (j : MatrixJob) (valid : Bool) (t : Turn W)
    → SameJob j t.job
    → t.job.complete ≡ true
    → t.job.valid ≡ valid
    → (is_unrecovered t.job.recovery ≡ true → (t.run_errors ≢ []) ⊎ (err ≢ none))
    → TurnDone j valid (note_error execute_err label err t)
note_error-TurnDone execute_err label none j valid t s c v r = record {
  same_job = s;
  complete = c;
  judged = v;
  reported = λ u. elim (r u) [ inl n ↦ n | inr n ↦ absurd (n refl) ];
}
note_error-TurnDone execute_err label (some e) j valid t s c v r = record {
  same_job = SameJob-trans s (written t.job t.job.complete t.job.valid _ t.job.recovery);
  complete = c;
  judged = v;
  reported = λ u. snoc-[] t.run_errors _;
}

not_valid-error :
    (valid : Bool) (err : Option String) → valid ≡ is_nil err → not valid ≡ true → err ≢ none
not_valid-error valid none e u n = ground (arith, e, u)
not_valid-error valid (some x) e u n = cc

module _ {W : Type 0} (lab : Lab W) (matrix : MatrixConfig) where
  open lab use {machine}

  cool_down-TurnDone :
      (execute_err : Option String) (j : MatrixJob) (valid : Bool) (t : Turn W)
      → TurnDone j valid t
      → TurnDone j valid (cool_down lab matrix execute_err t)
  unfolding cool_down
  cool_down-TurnDone execute_err j valid t d =
      let waited = wait_context machine (milliseconds matrix.cooldown_ms) t.world in
      if-both (TurnDone j valid) (str_eq t.job.control "")
        (λ _.
          note_error-TurnDone execute_err " cooldown" waited.0 j valid
            (record t { world = waited.1 }) d.same_job d.complete d.judged
            (λ u. inl (d.reported u)))
        (λ _. d)

  probe-TurnDone :
      (execute_err : Option String) (raw_control : Option Config) (j : MatrixJob) (valid : Bool)
      (t : Turn W)
      → TurnDone j valid t
      → TurnDone j valid (probe lab matrix execute_err raw_control t)
  probe-TurnDone execute_err none j valid t d = d
  probe-TurnDone execute_err (some c) j valid t d =
      let ((r, err), w) = run_matrix_recovery_probe machine c t.world in
      let probed = run_matrix_recovery_probe-Probed machine c t.world in
      note_error-TurnDone execute_err " recovery" err j valid
        (set_recovery r (record t { world = w }))
        (SameJob-trans d.same_job (written t.job t.job.complete t.job.valid t.job.error (some r)))
        d.complete d.judged (λ u. inr (not_valid-error r.valid err probed.valid_or_error u))

  -- A job that has run is complete, as valid as its repetition, has kept its name, and if the probe behind it failed, an error of the
  -- run says so.
  pub run_job-TurnDone :
      (config : Config) (case_index : ℕ) (t : Turn W)
      → t.job.recovery ≡ none
      → TurnDone t.job
          (lab.execute_repetition config case_index t.job.warmup t.job.result t.world).0.0
          (run_job lab matrix config case_index t)
  unfolding run_job recover
  run_job-TurnDone config case_index t r =
      let ((valid, err), w) =
        lab.execute_repetition config case_index t.job.warmup t.job.result t.world in
      let executed = record_result-TurnDone valid err (record t { world = w }) r in
      let cooled = cool_down-TurnDone err t.job valid _ executed in
      if-both (TurnDone t.job valid) _
        (λ _. probe-TurnDone err matrix.raw_control t.job valid _ cooled) (λ _. cooled)
