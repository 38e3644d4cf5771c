-- ===== src/Tcp/Short/Accounted.antt =====
-- Every attempt of runShort of internal/workload/tcp/tcp.go is counted.
use sing_box_inbound_bench.Base.{
  ℕ, suc, ◌+◌, ◌≤◌, [], ◌∷◌, ◌++◌, true, false, if-both, Bool-cases, if-true, if-false, length,
  length-append, u64, Option, none, some, ◌≡◌, ◌⊎◌, inl, inr, refl, ap, subst, sym, arith,
}
use sing_box_inbound_bench.Wire.{Error, Result, ok, err}
use sing_box_inbound_bench.Workers
use sing_box_inbound_bench.Tcp.Upload.{Conn}
use sing_box_inbound_bench.Tcp.Echo.{Echoing}
use sing_box_inbound_bench.Tcp.Echo.Settled.{Settled}
use sing_box_inbound_bench.Tcp.Echo.Total.{run_echo-Settled}
use sing_box_inbound_bench.Tcp.Short.{
  ShortConfig, Shorts, one, Attempt, undialed, dialed, dialed_of, attempt_on, is_transport_error,
  ShortTurn, returned, continued, failed_attempt, add_echo, without_sample, lacks_sample,
  completed_attempt, judge_short,
}

-- Of `k` attempts, `failures` have failed and each other one is an operation with its three latencies.
pub record Accounted (k failures : ℕ) (s : Shorts) : Type 0 where
  pub all : length s.latencies + failures ≡ k
  pub operations : s.operations ≡ u64 (length s.latencies)
  pub failed : s.failed ≡ u64 failures
  pub intact : s.corrupt ≡ 0
  pub connects : length s.connect_latencies ≡ length s.latencies
  pub applications : length s.application_latencies ≡ length s.latencies

-- The attempt behind `k` of them has ended the loop: its samples are left out, and it is corrupt or
-- not.
pub record Broken (k failures : ℕ) (s : Shorts) : Type 0 where
  pub all : length s.latencies + failures ≡ k
  pub failed : s.failed ≡ u64 failures
  pub at_most_corrupt : s.corrupt ≤ 1
  pub connects : length s.connect_latencies ≡ length s.latencies
  pub applications : length s.application_latencies ≡ length s.latencies

one_sample :
    (local : Echoing)
    → lacks_sample local ≡ false
    → (length local.latencies ≡ 1) × (local.operations ≡ 1)
unfolding lacks_sample
one_sample local h = (ground (arith, h), ground (arith, h))

-- An attempt with an error has no operation.
abbrev pub Sampled : Attempt → Type 0
Sampled (undialed e) = Unit
Sampled (dialed none local) = Unit
Sampled (dialed (some e) local) = local.operations ≡ 0

one_request : (w : ℕ) → Workers.per_worker_requests 1 1 w ≡ 1
unfolding Workers.per_worker_requests
one_request w = ground arith

module _ (config : ShortConfig) where
  pub data Ended : Option Error → Shorts → Type 0 where
    -- the attempts that were asked for, or those before the end of the context or of the time
    completed :
        {s : Shorts}
        → (k failures : ℕ) → (Workers.goes_on config.requests k ≡ false) ⊎ (config.stop k ≡ true)
        → Accounted k failures s
        → Ended none s
    broken : {s : Shorts} {e : Error} → (k failures : ℕ) → Broken k failures s → Ended (some e) s

  unfoldable pub TurnDone : ℕ → ShortTurn → Type 0
  TurnDone k (returned e s) = Ended (some e) s
  TurnDone k (continued s) = (failures : ℕ) × Accounted (suc k) failures s

  Accounted-Broken : {k failures : ℕ} {s : Shorts} → Accounted k failures s → Broken k failures s
  Accounted-Broken a = record {
    all = a.all;
    failed = a.failed;
    at_most_corrupt = omega (arith, a.intact);
    connects = a.connects;
    applications = a.applications;
  }

  module _ (k failures : ℕ) where
    failed_attempt-TurnDone :
        (context : Option Error) (e : Error) (s : Shorts)
        → Accounted k failures s
        → TurnDone k (failed_attempt context e s)
    unfolding failed_attempt TurnDone
    failed_attempt-TurnDone (some c) e s a = broken k failures (Accounted-Broken a)
    failed_attempt-TurnDone none e s a =
        if-both (TurnDone k) (is_transport_error e)
          (λ _. (
            failures + 1,
            record {
              all = omega (arith, a.all);
              operations = a.operations;
              failed = omega (arith, a.failed);
              intact = a.intact;
              connects = a.connects;
              applications = a.applications;
            },
          ))
          (λ _. broken k failures (record {
            all = a.all;
            failed = a.failed;
            at_most_corrupt = omega (arith, a.intact);
            connects = a.connects;
            applications = a.applications;
          }))

    -- What one runEcho without an operation counts leaves the account.
    add_none-Accounted :
        (local : Echoing) (s : Shorts)
        → local.operations ≡ 0
        → Accounted k failures s
        → Accounted k failures (add_echo local s)
    unfolding add_echo
    add_none-Accounted local s z a = record {
      all = a.all;
      operations = omega (arith, a.operations, z);
      failed = a.failed;
      intact = a.intact;
      connects = a.connects;
      applications = a.applications;
    }

    kept-Broken :
        (local : Echoing) (s : Shorts)
        → Accounted k failures s
        → Broken k failures (add_echo local s)
    unfolding add_echo
    kept-Broken local s a = record {
      all = a.all;
      failed = a.failed;
      at_most_corrupt = omega (arith, a.intact);
      connects = a.connects;
      applications = a.applications;
    }

    completed_attempt-TurnDone :
        (local : Echoing) (s : Shorts)
        → Accounted k failures s
        → TurnDone k (completed_attempt config k local (add_echo local s))
    unfolding completed_attempt add_echo TurnDone
    completed_attempt-TurnDone local s a = elim (Bool-cases (lacks_sample local)) [
      | inl l ↦ subst (TurnDone k) (sym (if-true _ _ _ l)) (lacking (config.context_err k))
      | inr l ↦ subst (TurnDone k) (sym (if-false _ _ _ l)) (sampled l)
    ]
      where
        added : Shorts
        added = add_echo local s

        lacking : (context : Option Error) → TurnDone k (without_sample context added)
        lacking (some c) = broken k failures (kept-Broken local s a)
        lacking none = broken k failures (kept-Broken local s a)

        sampled :
            lacks_sample local ≡ false
            → TurnDone k (
                continued (record added {
                  latencies = s.latencies ++ (config.elapsed k ∷ []);
                  connect_latencies = s.connect_latencies ++ (config.connect_latency k ∷ []);
                  application_latencies = s.application_latencies ++ local.latencies;
                }))
        sampled l =
            let (one_latency, one_operation) = one_sample local l in
            (
              failures,
              record {
                all = omega (arith, length-append s.latencies (config.elapsed k ∷ []), a.all);
                operations = omega (
                  arith,
                  length-append s.latencies (config.elapsed k ∷ []),
                  a.operations,
                  one_operation,
                );
                failed = a.failed;
                intact = a.intact;
                connects = omega (
                  arith,
                  length-append s.latencies (config.elapsed k ∷ []),
                  length-append s.connect_latencies (config.connect_latency k ∷ []),
                  a.connects,
                );
                applications = omega (
                  arith,
                  length-append s.latencies (config.elapsed k ∷ []),
                  length-append s.application_latencies local.latencies,
                  a.applications,
                  one_latency,
                );
              },
            )

    pub judge_short-TurnDone :
        (s : Shorts) (attempt : Attempt)
        → Accounted k failures s
        → Sampled attempt
        → TurnDone k (judge_short config k s attempt)
    unfolding judge_short
    judge_short-TurnDone s (undialed e) a z = failed_attempt-TurnDone (config.context_err k) e s a
    judge_short-TurnDone s (dialed (some e) local) a z =
        failed_attempt-TurnDone (config.context_err k) e (add_echo local s)
          (add_none-Accounted local s z a)
    judge_short-TurnDone s (dialed none local) a z = completed_attempt-TurnDone local s a

  -- The attempt that a round makes, which returns.
  pub attempt-Sampled :
      (k : ℕ) (c : Result Conn) → (a : Attempt) × (attempt_on config k c ≡ some a) × Sampled a
  unfolding one
  attempt-Sampled k (err e) = (undialed e, refl, tt)
  attempt-Sampled k (ok c) =
      let (e, s, returns, settled) = run_echo-Settled (one config k) (config.worker + k) c in
      (dialed e s, ap dialed_of returns, by_error e s settled)
    where
      first_round : (j : ℕ) → Workers.goes_on (one config k).requests j ≡ true → j ≡ 0
      first_round j h = ground (arith, one_request (config.worker + k), h)

      by_error :
          (e : Option Error) (s : Echoing) → Settled (one config k) e s → Sampled (dialed e s)
      by_error none s t = tt
      by_error (some e) s t =
          omega (arith, t.counted.operations, first_round t.k (t.round_due e refl))
