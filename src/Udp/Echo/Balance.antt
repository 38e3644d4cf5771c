-- ===== src/Udp/Echo/Balance.antt =====
-- internal/workload/udp/udp.go: what the counters of a flow of the echo mode add up to.
use sing_box_inbound_bench.Base.{
  ℕ, suc, ◌+◌, ◌-◌, ◌≤◌, List, [], ◌∷◌, ◌++◌, Bool, true, false, if◌then◌else◌, length,
  length-append, drop, u64, Option, none, some, ◌≡◌, ◌⊎◌, inl, inr, refl, arith,
}
use sing_box_inbound_bench.Wire.{Error, Result, ok, err}
use sing_box_inbound_bench.Workers
use sing_box_inbound_bench.Protocol.Endpoint.{Endpoint, decode_endpoint, encoded_endpoint_size}
use sing_box_inbound_bench.Udp.{Header, parse}
use sing_box_inbound_bench.Udp.Echo.{
  Counters, ClientConfig, Flow, no_flow, Exchange, Round, returns, goes_on, Run, returned, waits,
  resume, request, count_sent, count_received, count_corrupt, count_reordered, count_lost,
  count_payload, count_operation, record_path, accept_response, judge_response, read_response,
  after_write, echo_round, run_echo_flow,
}

-- The counters of a flow that has sent `k` packets: each is lost, corrupt, reordered or an operation,
-- all but the lost ones were received, and each operation has its latency.
pub record Balanced (k : ℕ) (c : Counters) (latencies : List ℕ) : Type 0 where
  pub sent : c.packets_sent ≡ u64 k
  pub settled : u64 (c.operations + c.lost + c.corrupt + c.reordered) ≡ u64 k
  pub received : c.packets_received ≡ u64 (c.operations + c.corrupt + c.reordered)
  pub timed : c.operations ≡ u64 (length latencies)

-- In the midst of a round: the packet is sent, and not yet settled.
record Sent (k : ℕ) (c : Counters) (latencies : List ℕ) : Type 0 where
  sent : c.packets_sent ≡ u64 (suc k)
  settled : u64 (c.operations + c.lost + c.corrupt + c.reordered) ≡ u64 k
  received : c.packets_received ≡ u64 (c.operations + c.corrupt + c.reordered)
  timed : c.operations ≡ u64 (length latencies)

-- The answer is received, and not yet settled.
record Received (k : ℕ) (c : Counters) (latencies : List ℕ) : Type 0 where
  sent : c.packets_sent ≡ u64 (suc k)
  settled : u64 (c.operations + c.lost + c.corrupt + c.reordered) ≡ u64 k
  received : c.packets_received ≡ u64 (c.operations + c.corrupt + c.reordered + 1)
  timed : c.operations ≡ u64 (length latencies)

module _ (config : ClientConfig) (flow : ℕ) where
  -- A round that goes on leaves the counters balanced, and one that returns has an error.
  Settles : ℕ → Round → Type 0
  Settles k (returns none s) = ⊥
  Settles k (returns (some e) s) = Unit
  Settles k (goes_on s) = Balanced (suc k) s.counters s.latencies

  operation-Settles :
      (k : ℕ) (x : Exchange) (s : Flow)
      → Received k s.counters s.latencies
      → Settles k (goes_on (count_operation config flow x s))
  unfolding Settles
  operation-Settles k x s r = record {
    sent = r.sent;
    settled = omega (arith, r.settled);
    received = omega (arith, r.received);
    timed = omega (arith, r.timed, length-append s.latencies (x.elapsed ∷ []));
  }

  corrupt-Settles :
      (k : ℕ) (s : Flow)
      → Received k s.counters s.latencies
      → Settles k (goes_on (count_corrupt config flow s))
  unfolding Settles
  corrupt-Settles k s r = record {
    sent = r.sent;
    settled = omega (arith, r.settled);
    received = omega (arith, r.received);
    timed = r.timed;
  }

  reordered-Settles :
      (k : ℕ) (s : Flow)
      → Received k s.counters s.latencies
      → Settles k (goes_on (count_reordered config flow s))
  unfolding Settles
  reordered-Settles k s r = record {
    sent = r.sent;
    settled = omega (arith, r.settled);
    received = omega (arith, r.received);
    timed = r.timed;
  }

  lost-Settles :
      (k : ℕ) (s : Flow)
      → Sent k s.counters s.latencies
      → Settles k (goes_on (count_lost config flow s))
  unfolding Settles
  lost-Settles k s r = record {
    sent = r.sent;
    settled = omega (arith, r.settled);
    received = r.received;
    timed = r.timed;
  }

  returns-Settles : (k : ℕ) (e : Error) (s : Flow) → Settles k (returns (some e) s)
  unfolding Settles
  returns-Settles k e s = tt

  if-Settles :
      (k : ℕ) (b : Bool) (r t : Round) → Settles k r → Settles k t → Settles k (if b then r else t)
  if-Settles k true r t h g = h
  if-Settles k false r t h g = g

  record_path-Settles :
      (k : ℕ) (x : Exchange) (s : Flow) (peer client_local : Result Endpoint)
      → Received k s.counters s.latencies
      → Settles k (record_path config flow x s peer client_local)
  record_path-Settles k x s (err e) l r = returns-Settles k e s
  record_path-Settles k x s (ok p) (err e) r = returns-Settles k e s
  record_path-Settles k x s (ok p) (ok l) r =
      operation-Settles k x
        (record s {
          paths = s.paths ++ (record { client_local = l; server_observed_peer = p } ∷ []);
          proof_collected = true;
        })
        r

  accept_response-Settles :
      (k : ℕ) (h got : Header) (response : List ℕ) (x : Exchange) (s : Flow)
      → Received k s.counters s.latencies
      → Settles k (accept_response config flow h got response x s)
  unfolding accept_response
  accept_response-Settles k h got response x s r =
      let s' : Flow = record s { previous = got.sequence } in
      if-Settles k _ _ _ (reordered-Settles k s r) (
        if-Settles k _ _ _
          (record_path-Settles k x s'
            (decode_endpoint (drop (length response - encoded_endpoint_size) response))
            x.client_local r)
          (operation-Settles k x s' r))

  judge_response-Settles :
      (k : ℕ) (h : Header) (response : List ℕ) (x : Exchange) (s : Flow) (got : Option Header)
      → Received k s.counters s.latencies
      → Settles k (judge_response config flow h response x s got)
  unfolding judge_response
  judge_response-Settles k h response x s none r = corrupt-Settles k s r
  judge_response-Settles k h response x s (some got) r =
      if-Settles k _ _ _ (corrupt-Settles k s r) (
        accept_response-Settles k h got response x (count_payload config flow s)
          (record { sent = r.sent; settled = r.settled; received = r.received; timed = r.timed }))

  read_response-Settles :
      (k : ℕ) (h : Header) (x : Exchange) (s : Flow) (received : Result (List ℕ))
      → Sent k s.counters s.latencies
      → Settles k (read_response config flow h x s received)
  unfolding read_response
  read_response-Settles k h x s (err e) r =
      if-Settles k _ _ _ (lost-Settles k s r) (returns-Settles k e s)
  read_response-Settles k h x s (ok bytes) r =
      judge_response-Settles k h _ x (count_received config flow s) (parse _) (record {
        sent = r.sent;
        settled = r.settled;
        received = omega (arith, r.received);
        timed = r.timed;
      })

  after_write-Settles :
      (k : ℕ) (h : Header) (x : Exchange) (s : Flow) (d w : Option Error)
      → Balanced k s.counters s.latencies
      → Settles k (after_write config flow h x s d w)
  unfolding after_write
  after_write-Settles k h x s (some e) w r = returns-Settles k e s
  after_write-Settles k h x s none (some e) r = returns-Settles k e s
  after_write-Settles k h x s none none r =
      read_response-Settles k h x (count_sent config flow s) x.received (record {
        sent = omega (arith, r.sent);
        settled = r.settled;
        received = r.received;
        timed = r.timed;
      })

  -- Only a cancelled round returns without an error, and it changes nothing.
  abbrev SettlesOrCancelled : ℕ → Exchange → Round → Type 0
  SettlesOrCancelled k x (returns none s) = (x.cancelled ≡ true) × Balanced k s.counters s.latencies
  SettlesOrCancelled k x (returns (some e) s) = Unit
  SettlesOrCancelled k x (goes_on s) = Balanced (suc k) s.counters s.latencies

  Settles-OrCancelled : (k : ℕ) (x : Exchange) (r : Round) → Settles k r → SettlesOrCancelled k x r
  unfolding Settles
  Settles-OrCancelled k x (returns none s) h = absurd h
  Settles-OrCancelled k x (returns (some e) s) h = h
  Settles-OrCancelled k x (goes_on s) h = h

  echo_round-Settles :
      (k : ℕ) (s : Flow) (x : Exchange)
      → Balanced k s.counters s.latencies
      → SettlesOrCancelled k x (echo_round config flow k s x)
  unfolding echo_round
  echo_round-Settles k s x r = go x.cancelled refl
    where
      after : Round
      after = after_write config flow (request config flow k s x) x s x.deadline_error x.write_error

      go :
          (b : Bool)
          → x.cancelled ≡ b
          → SettlesOrCancelled k x (if b then returns none s else after)
      go true e = (e, r)
      go false e =
          Settles-OrCancelled k x after
            (after_write-Settles k _ x s x.deadline_error x.write_error r)

  abbrev share : ℕ
  share = Workers.per_worker_requests config.requests config.flows flow

  abbrev pub AnyCancelled : List Exchange → Type 0
  AnyCancelled [] = ⊥
  AnyCancelled (x ∷ xs) = (x.cancelled ≡ true) ⊎ AnyCancelled xs

  -- What is known of a flow that has run on these exchanges.
  abbrev pub Settled : List Exchange → Run → Type 0
  Settled xs (returned (some e) s) = Unit
  Settled xs (waits s) = (k : ℕ) × Balanced k s.counters s.latencies
  Settled xs (returned none s) =
      (k : ℕ) × Balanced k s.counters s.latencies × ((k ≡ share) ⊎ AnyCancelled xs)

  Settled-more : (x : Exchange) (xs : List Exchange) (r : Run) → Settled xs r → Settled (x ∷ xs) r
  Settled-more x xs (returned (some e) s) h = h
  Settled-more x xs (waits s) h = h
  Settled-more x xs (returned none s) (k, b, inl e) = (k, b, inl e)
  Settled-more x xs (returned none s) (k, b, inr c) = (k, b, inr (inr c))

  run_echo_flow-from :
      (xs : List Exchange) (k : ℕ) (s : Flow)
      → Balanced k s.counters s.latencies
      → (share ≡ 0) ⊎ (k ≤ share)
      → Settled xs (run_echo_flow config flow k s xs)
  unfolding run_echo_flow
  run_echo_flow-from [] k s r within = go (Workers.goes_on share k) refl
    where
      go :
          (b : Bool)
          → Workers.goes_on share k ≡ b
          → Settled [] (if b then waits s else returned none s)
      go true e = (k, r)
      go false e = (k, r, inl (ground arith))
  run_echo_flow-from (x ∷ xs) k s r within =
      go (run_echo_flow-from xs (suc k)) (Workers.goes_on share k) refl
        (echo_round config flow k s x) (echo_round-Settles k s x r)
    where
      next : Flow → Run
      next t = run_echo_flow config flow (suc k) t xs

      resumed :
          ((t : Flow)
            → Balanced (suc k) t.counters t.latencies
            → (share ≡ 0) ⊎ (suc k ≤ share)
            → Settled xs (next t))
          → (share ≡ 0) ⊎ (suc k ≤ share)
          → (q : Round) → SettlesOrCancelled k x q
          → Settled (x ∷ xs) (resume next q)
      resumed rest bound (returns none t) (c, b) = (k, b, inr (inl c))
      resumed rest bound (returns (some e) t) b = tt
      resumed rest bound (goes_on t) b = Settled-more x xs (next t) (rest t b bound)

      go :
          ((t : Flow)
            → Balanced (suc k) t.counters t.latencies
            → (share ≡ 0) ⊎ (suc k ≤ share)
            → Settled xs (next t))
          → (b : Bool) → Workers.goes_on share k ≡ b
          → (q : Round) → SettlesOrCancelled k x q
          → Settled (x ∷ xs) (if b then resume next q else returned none s)
      go rest true e q h = resumed rest (ground arith) q h
      go rest false e q h = (k, r, inl (ground arith))

  -- A flow that returns without an error, or waits for the network, has sent some number `k` of
  -- packets, and its counters account for each of them: it is lost, corrupt, reordered or an
  -- operation, all but the lost ones were received, and each operation has its latency. If it has
  -- returned, `k` is the flow's share of the requests, or its context was cancelled. All equations
  -- are of 64-bit counters.
  pub run_echo_flow-Settled :
      (xs : List Exchange) → Settled xs (run_echo_flow config flow 0 no_flow xs)
  run_echo_flow-Settled xs = run_echo_flow-from xs 0 no_flow fresh (inr (omega arith))
    where
      fresh : Balanced 0 no_flow.counters no_flow.latencies
      fresh = record { sent = refl; settled = refl; received = refl; timed = refl }
