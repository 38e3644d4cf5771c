-- ===== src/Command/Recovery/Probed.antt =====
-- cmd/inbound-bench/main.go: what the probe of the network returns.
use sing_box_inbound_bench.Base.{
  ℕ, zero, suc, ◌+◌, ◌≤◌, ◌≡◌, refl, true, false, ltb, String, Option, none, some, arith, if-both,
  if◌then◌else◌,
}
use sing_box_inbound_bench.Protocol.Config.{Config}
use sing_box_inbound_bench.Runner.{is_nil, join}
use sing_box_inbound_bench.Udp.Echo.{Counters}
use sing_box_inbound_bench.Command.Jobs.{MatrixRecovery}
use sing_box_inbound_bench.Command.Recovery.{
  Machine, healthy, probe_text, Probe, give_up, after_wait, Rest, judge_attempt,
  matrix_recovery_attempts, matrix_recovery_interval, attempt_round, attempt_rounds, stamped,
  run_matrix_recovery_probe, wait_context,
}

pub record Answered (c : Counters) : Type 0 where
  pub operations : c.operations ≡ 8
  pub failed : c.failed ≡ 0
  pub lost : c.lost ≡ 0
  pub corrupt : c.corrupt ≡ 0

healthy-Answered : (e : Option String) (c : Counters) → healthy e c ≡ true → Answered c
unfolding healthy
healthy-Answered e c h = record {
  operations = ground (arith, h);
  failed = ground (arith, h);
  lost = ground (arith, h);
  corrupt = ground (arith, h);
}

-- One to five attempts, the last of them answered exactly if there is no error.
pub record Probed (r : MatrixRecovery) (err : Option String) : Type 0 where
  pub tried : 1 ≤ r.attempts
  pub bounded : r.attempts ≤ 5
  pub valid_or_error : r.valid ≡ is_nil err
  pub answered : r.valid ≡ true → Answered r.counters

module _ {W : Type 0} (machine : Machine W) (raw_control : Config) where
  abbrev pub IsProbed : Probe machine → Type 0
  IsProbed ((r, err), w) = Probed r err

  give_up-IsProbed :
      (r : MatrixRecovery) (last_err : Option String) (w : W)
      → 1 ≤ r.attempts
      → r.attempts ≤ 5
      → r.valid ≡ false
      → IsProbed (give_up machine r last_err w)
  give_up-IsProbed r last_err w l b v = record {
    tried = l;
    bounded = b;
    valid_or_error = v;
    answered = λ t. cc;
  }

  after_wait-IsProbed :
      (r : MatrixRecovery) (last_err : Option String) (next : W → Probe machine)
      (waited : Option String × W)
      → 1 ≤ r.attempts
      → r.attempts ≤ 5
      → r.valid ≡ false
      → ((w : W) → IsProbed (next w))
      → IsProbed (after_wait machine r last_err next waited)
  after_wait-IsProbed r last_err next (none, w) l b v n = n w
  after_wait-IsProbed r last_err next (some e, w) l b v n =
      give_up-IsProbed r (join last_err (some e)) w l b v

  judge_attempt-IsProbed :
      (attempt : ℕ) (r : MatrixRecovery) (next : Rest machine)
      (result : (Counters × Option String) × W)
      → 1 ≤ attempt
      → attempt ≤ 5
      → r.valid ≡ false
      → ((r' : MatrixRecovery) (e : Option String) (w' : W)
          → r'.attempts ≡ attempt
          → r'.valid ≡ false
          → IsProbed (next r' e w'))
      → IsProbed (judge_attempt machine attempt r next result)
  unfolding judge_attempt
  judge_attempt-IsProbed attempt r next ((counters, probe_err), w) l b v n =
      let r' : MatrixRecovery = record r { attempts = attempt; counters = counters } in
      let last_err = join probe_err (some (probe_text counters)) in
      let waiting : Probe machine =
        after_wait machine r' last_err (next r' last_err)
          (wait_context machine matrix_recovery_interval w) in
      let rest : Probe machine = next r' last_err w in
      let kept = n r' last_err w refl v in
      let done : Probe machine = ((record r' { valid = true; error = "" }, none), w) in
      if-both IsProbed (healthy probe_err counters) {x = done}
        {y = if ltb attempt matrix_recovery_attempts then waiting else rest}
        (λ h. record {
          tried = l;
          bounded = b;
          valid_or_error = refl;
          answered = λ _. healthy-Answered probe_err counters h;
        })
        (λ _.
          if-both IsProbed (ltb attempt matrix_recovery_attempts) {x = waiting} {y = rest}
            (λ _.
              after_wait-IsProbed r' last_err (next r' last_err)
                (wait_context machine matrix_recovery_interval w) l b v
                (λ w'. n r' last_err w' refl v))
            (λ _. kept))

  attempt_rounds-IsProbed :
      (left attempt : ℕ) (r : MatrixRecovery) (last_err : Option String) (w : W)
      → attempt + left ≡ 6
      → r.attempts + 1 ≡ attempt
      → 1 ≤ r.attempts + left
      → r.valid ≡ false
      → IsProbed (attempt_rounds machine raw_control left attempt r last_err w)
  unfolding attempt_rounds attempt_round
  attempt_rounds-IsProbed zero attempt r last_err w e a l v =
      give_up-IsProbed r last_err w (omega arith) (omega arith) v
  attempt_rounds-IsProbed (suc left) attempt r last_err w e a l v =
      judge_attempt-IsProbed attempt r (attempt_rounds machine raw_control left (attempt + 1)) _
        (omega arith) (omega arith) v
        (λ r' e' w' a' v'.
          attempt_rounds-IsProbed left (attempt + 1) r' e' w' (omega arith) (omega (arith, a'))
            (omega (arith, a')) v')

  stamped-IsProbed : (p : Probe machine) → IsProbed p → IsProbed (stamped machine p)
  stamped-IsProbed ((r, err), w) p = record {
    tried = p.tried;
    bounded = p.bounded;
    valid_or_error = p.valid_or_error;
    answered = p.answered;
  }

  pub run_matrix_recovery_probe-Probed :
      (w : W) → let ((r, err), w') = run_matrix_recovery_probe machine raw_control w in Probed r err
  unfolding run_matrix_recovery_probe
  run_matrix_recovery_probe-Probed w =
      stamped-IsProbed _ (attempt_rounds-IsProbed 5 1 _ none _ refl refl (omega arith) refl)
