-- ===== src/Tcp/Echo/Total.antt =====
-- runEcho of internal/workload/tcp/tcp.go returns, and its counters account for its rounds.
use sing_box_inbound_bench.Base.{
  ℕ, zero, suc, ◌+◌, ◌<◌, ◌≤◌, List, Bool, true, false, not, ◌||◌, if-both, length, u64, Option,
  none, some, ◌≡◌, ◌⊎◌, inl, inr, refl, ap, sym, arith,
}
use sing_box_inbound_bench.Wire.{Error, Result, ok, err, Stream, read_full, read_full-length}
use sing_box_inbound_bench.Workers
use sing_box_inbound_bench.Tcp.{
  FrameHeader, write_header, read_header, parse_header, with_rest, parse_read,
}
use sing_box_inbound_bench.Tcp.Upload.{Conn, send}
use sing_box_inbound_bench.Tcp.Echo.{
  EchoConfig, Echoing, Round, returned, echoed, echo_payload, echo_header, await_answer,
  send_payload, exchange_round, after_round, echo_rounds, new_echoing, run_echo,
}
use sing_box_inbound_bench.Tcp.Echo.Settled.{
  Counted, Settled, left, RoundDone, failed-Settled, take_answer-RoundDone, moved,
}

read_header-shorter :
    (s t : Stream) (h : FrameHeader) → read_header s ≡ ok (h, t) → length t.bytes < length s.bytes
unfolding read_header
read_header-shorter s t h e = by_read (read_full 24 s) refl e
  where
    by_read :
        (r : Result (List ℕ × Stream))
        → read_full 24 s ≡ r
        → parse_read r ≡ ok (h, t)
        → length t.bytes < length s.bytes
    by_read (err x) p q = cc
    by_read (ok (buffer, rest)) p q =
        let e' : rest ≡ t = by_parse (parse_header buffer) q in
        omega (arith, read_full-length 24 s rest buffer p, ap (λ (u : Stream). length u.bytes) e')
      where
        by_parse : (x : Result FrameHeader) → with_rest x rest ≡ ok (h, t) → rest ≡ t
        by_parse (err x) k = cc
        by_parse (ok x) k = cc

send-input : (bytes : List ℕ) (c : Conn) → (send bytes c).1.input ≡ c.input
unfolding send
send-input bytes c = ground arith

due-within : (n k : ℕ) → Workers.goes_on n k ≡ true → 0 < n → k + 1 ≤ n
due-within n k h positive = ground arith

is_over :
    (n k : ℕ) (stop : Bool)
    → (0 < n → k ≤ n)
    → (not (Workers.goes_on n k) || stop) ≡ true
    → (k ≡ n) ⊎ (stop ≡ true)
is_over n k true within h = inr refl
is_over n k false within h =
    let positive : 0 < n = ground arith in let reached = within positive in inl (ground arith)

module _ (config : EchoConfig) where
  at_sent :
      (k : ℕ) (s : Echoing) (c : Conn)
      → Counted config k k k s
      → Counted config k
          (suc k)
          k
          (record s { conn = c; bytes_sent = u64 (s.bytes_sent + config.payload_size) })
  at_sent k s c d = record {
    operations = d.operations;
    latencies = d.latencies;
    bytes_sent = omega (arith, d.bytes_sent);
    bytes_received = d.bytes_received;
  }

  unsent-RoundDone :
      (k bound : ℕ) (e : Error) (s : Echoing) (c : Conn)
      → Workers.goes_on config.requests k ≡ true
      → Counted config k k k s
      → RoundDone config k bound (returned e (record s { conn = c }))
  unfolding RoundDone
  unsent-RoundDone k bound e s c due d =
      failed-Settled config k k k e (record s { conn = c }) due
        (moved config k bound 0 due s (record s { conn = c }) refl refl refl refl d) (omega arith)
        (omega arith) (omega arith)

  await_answer-RoundDone :
      (k sequence bound : ℕ) (s : Echoing) (sent : Option Error × Conn)
      → Workers.goes_on config.requests k ≡ true
      → Counted config k k k s
      → length sent.1.input.bytes ≤ bound
      → RoundDone config k bound (await_answer config k sequence s sent)
  unfolding await_answer
  await_answer-RoundDone k sequence bound s (some e, c) due d l =
      unsent-RoundDone k bound e s c due d
  await_answer-RoundDone k sequence bound s (none, c) due d l =
      take_answer-RoundDone config k bound sequence due _ (read_header c.input) (at_sent k s c d)
        (λ h input e. omega (arith, read_header-shorter c.input input h e, l))

  send_payload-RoundDone :
      (k sequence bound : ℕ) (s : Echoing) (sent : Option Error × Conn)
      → Workers.goes_on config.requests k ≡ true
      → Counted config k k k s
      → length sent.1.input.bytes ≤ bound
      → RoundDone config k bound (send_payload config k sequence s sent)
  unfolding send_payload
  send_payload-RoundDone k sequence bound s (some e, c) due d l =
      unsent-RoundDone k bound e s c due d
  send_payload-RoundDone k sequence bound s (none, c) due d l =
      await_answer-RoundDone k sequence bound s (send (echo_payload config sequence) c) due d (
        omega (
          arith,
          ap (λ (i : Stream). length i.bytes) (send-input (echo_payload config sequence) c),
          l,
        ))

  exchange_round-RoundDone :
      (k sequence : ℕ) (s : Echoing)
      → Workers.goes_on config.requests k ≡ true
      → Counted config k k k s
      → RoundDone config k (left config s) (exchange_round config k sequence s)
  unfolding exchange_round
  exchange_round-RoundDone k sequence s due d =
      let frame = write_header (echo_header config k sequence) in
      send_payload-RoundDone k sequence (left config s) s (send frame s.conn) due d
        (omega (arith, ap (λ (i : Stream). length i.bytes) (send-input frame s.conn)))

  Returns : Option (Option Error × Echoing) → Type 0
  Returns r = (e : Option Error) × (s : Echoing) × (r ≡ some (e, s)) × Settled config e s

  after_round-Returns :
      (next : Echoing → Option (Option Error × Echoing)) (k bound : ℕ) (r : Round)
      → RoundDone config k bound r
      → ((t : Echoing)
          → Counted config (k + 1) (k + 1) (k + 1) t
          → left config t < bound
          → Returns (next t))
      → Returns (after_round next r)
  unfolding Returns RoundDone
  after_round-Returns next k bound (returned e t) done n = (some e, t, refl, done)
  after_round-Returns next k bound (echoed t) (c, shorter) n =
      n t
        (record {
          operations = omega (arith, c.operations);
          latencies = omega (arith, c.latencies);
          bytes_sent = omega (arith, c.bytes_sent);
          bytes_received = omega (arith, c.bytes_received);
        })
        shorter

  echo_rounds-Settled :
      (fuel k sequence : ℕ) (s : Echoing)
      → Counted config k k k s
      → (0 < config.requests → k ≤ config.requests)
      → left config s < fuel
      → Returns (echo_rounds fuel config k sequence s)
  unfolding echo_rounds Returns
  echo_rounds-Settled zero k sequence s d within l = absurd (omega (arith, l))
  echo_rounds-Settled (suc fuel) k sequence s d within l =
      if-both Returns (not (Workers.goes_on config.requests k) || config.stop k)
        {x = some (none, s)}
        {y = after_round (echo_rounds fuel config (k + 1) (u64 (sequence + 1)))
          (exchange_round config k (u64 (sequence + 1)) s)}
        (λ over. (
          none,
          s,
          refl,
          record {
            k = k;
            round_due = λ x h. cc;
            sent = k;
            got = k;
            counted = d;
            got_sent = (omega arith, omega arith, omega arith);
            complete = λ _. (refl, is_over config.requests k (config.stop k) within over);
          },
        ))
        (λ more.
          after_round-Returns (echo_rounds fuel config (k + 1) (u64 (sequence + 1))) k
            (left config s) (exchange_round config k (u64 (sequence + 1)) s)
            (exchange_round-RoundDone k (u64 (sequence + 1)) s (is_due _ _ more) d)
            (λ t c shorter.
              echo_rounds-Settled fuel (k + 1) (u64 (sequence + 1)) t c
                (due-within config.requests k (is_due _ _ more)) (omega (arith, shorter, l))))
    where
      is_due : (a b : Bool) → (not a || b) ≡ false → a ≡ true
      is_due true b h = refl
      is_due false b h = sym h

  -- runEcho returns, on every connection: its fuel is enough. It has completed some number k of rounds,
  -- which are its operations, each with its latency. Its bytes are those of k payloads sent and received,
  -- and where it has an error, perhaps of one more payload that was sent, and then perhaps of one that was
  -- received. Without an error, k is the number of requests, or the worker was stopped.
  pub run_echo-Settled :
      (worker : ℕ) (c : Conn)
      → (e : Option Error) × (s : Echoing) × (run_echo config worker c ≡ some (e, s))
        × Settled config e s
  unfolding run_echo Returns
  run_echo-Settled worker c =
      echo_rounds-Settled _ 0 _ (new_echoing c)
        (record {
          operations = refl;
          latencies = refl;
          bytes_sent = omega arith;
          bytes_received = omega arith;
        })
        (λ _. omega arith) (omega arith)
