-- ===== src/Tcp/Echo/Settled.antt =====
-- The counters of runEcho of internal/workload/tcp/tcp.go account for its rounds, and it returns.
use sing_box_inbound_bench.Base.{
  ℕ, suc, ◌+◌, ◌*◌, ◌<◌, ◌≤◌, List, [], ◌∷◌, true, not, ◌==◌, if-both, length, length-append, u64,
  Option, none, some, ◌≡◌, ◌⊎◌, refl, ap, ◌∙◌, arith, String,
}
use sing_box_inbound_bench.Wire.{
  Error, refused, Result, ok, err, Stream, read_full, read_full-length, crc32,
}
use sing_box_inbound_bench.Workers
use sing_box_inbound_bench.Protocol.Endpoint.{Endpoint, decode_endpoint, encoded_endpoint_size}
use sing_box_inbound_bench.Tcp.{FrameHeader}
use sing_box_inbound_bench.Tcp.Echo.{
  EchoConfig, Echoing, Round, returned, echoed, asks_proof, at_stream, take_echo, read_echo,
  with_path, with_peer, take_proof, take_answer,
}

module _ (config : EchoConfig) where
  abbrev pub bytes_of : ℕ → ℕ
  bytes_of k = u64 (k * config.payload_size)

  -- `k` rounds are counted, with the payloads of `sent` rounds sent and of `got` rounds received.
  pub record Counted (k sent got : ℕ) (s : Echoing) : Type 0 where
    pub operations : s.operations ≡ u64 k
    pub latencies : length s.latencies ≡ k
    pub bytes_sent : s.bytes_sent ≡ bytes_of sent
    pub bytes_received : s.bytes_received ≡ bytes_of got

  -- A run that has ended behind `k` rounds.
  pub record Settled (e : Option Error) (s : Echoing) : Type 0 where
    pub k : ℕ
    pub sent : ℕ
    pub got : ℕ
    pub counted : Counted k sent got s
    -- an error is one of a round that was due
    pub round_due : (x : Error) → e ≡ some x → Workers.goes_on config.requests k ≡ true
    pub got_sent : (k ≤ got) × (got ≤ sent) × (sent ≤ k + 1)
    pub complete : e ≡ none → (sent ≡ k) × ((k ≡ config.requests) ⊎ (config.stop k ≡ true))

  abbrev pub left : Echoing → ℕ
  left s = length s.conn.input.bytes

  -- A round that started with `k` of them counted, and `bound` bytes to read.
  unfoldable pub RoundDone : ℕ → ℕ → Round → Type 0
  RoundDone k bound (returned e s) = Settled (some e) s
  RoundDone k bound (echoed s) = Counted (suc k) (suc k) (suc k) s × (left s < bound)

  pub failed-Settled :
      (k sent got : ℕ) (e : Error) (s : Echoing)
      → Workers.goes_on config.requests k ≡ true
      → Counted k sent got s
      → k ≤ got
      → got ≤ sent
      → sent ≤ k + 1
      → Settled (some e) s
  failed-Settled k sent got e s due c p q r = record {
    round_due = λ x _. due;
    k = k;
    sent = sent;
    got = got;
    counted = c;
    got_sent = (p, q, r);
    complete = λ h. cc;
  }

  module _ (k bound sequence : ℕ) (due : Workers.goes_on config.requests k ≡ true) where
    take_echo-RoundDone :
        (checksum : ℕ) (s : Echoing) (r : Result (List ℕ × Stream))
        → Counted k (suc k) k s
        → ((payload : List ℕ) (input : Stream)
            → r ≡ ok (payload, input)
            → length input.bytes < bound)
        → RoundDone k bound (take_echo config sequence checksum s r)
    unfolding take_echo RoundDone
    take_echo-RoundDone checksum s (err e) c less =
        failed-Settled k (suc k) k e s due c (omega arith) (omega arith) (omega arith)
    take_echo-RoundDone checksum s (ok (payload, input)) c less =
        if-both (RoundDone k bound) (not (crc32 payload == checksum))
          (λ _.
            failed-Settled k (suc k) (suc k) _ _ due
              (record {
                operations = c.operations;
                latencies = c.latencies;
                bytes_sent = c.bytes_sent;
                bytes_received = omega (arith, c.bytes_received);
              })
              (omega arith) (omega arith) (omega arith))
          (λ _. (
            record {
              operations = omega (arith, c.operations);
              latencies =
                  omega
                    (arith, length-append s.latencies (config.elapsed sequence ∷ []), c.latencies);
              bytes_sent = c.bytes_sent;
              bytes_received = omega (arith, c.bytes_received);
            },
            less payload input refl,
          ))

    read_echo-RoundDone :
        (checksum : ℕ) (s : Echoing)
        → Counted k (suc k) k s
        → left s < bound
        → RoundDone k bound (read_echo config sequence checksum s)
    read_echo-RoundDone checksum s c less = take_echo-RoundDone checksum s _ c (λ payload input e.
        omega (arith, read_full-length config.payload_size s.conn.input input payload e))

    unread-Settled : (e : Error) (s : Echoing) → Counted k (suc k) k s → Settled (some e) s
    unread-Settled e s c =
        failed-Settled k (suc k) k e s due c (omega arith) (omega arith) (omega arith)

    -- A change of the connection or of the paths keeps the counters.
    pub moved :
        {sent got : ℕ} (s t : Echoing)
        → t.operations ≡ s.operations
        → t.latencies ≡ s.latencies
        → t.bytes_sent ≡ s.bytes_sent
        → t.bytes_received ≡ s.bytes_received
        → Counted k sent got s
        → Counted k sent got t
    moved s t o l b r c = record {
      operations = o ∙ c.operations;
      latencies = ap (λ (xs : List ℕ). length xs) l ∙ c.latencies;
      bytes_sent = b ∙ c.bytes_sent;
      bytes_received = r ∙ c.bytes_received;
    }

    with_peer-RoundDone :
        (checksum : ℕ) (s : Echoing) (peer : Result Endpoint)
        → Counted k (suc k) k s
        → left s < bound
        → RoundDone k bound (with_peer config sequence checksum s peer)
    unfolding RoundDone
    with_peer-RoundDone checksum s (err e) c less = unread-Settled e s c
    with_peer-RoundDone checksum s (ok peer) c less = by_local config.client_local
      where
        by_local :
            (local : Result String)
            → RoundDone k bound
                (with_path config sequence checksum s (config.endpoint_text peer) local)
        by_local (err e) = unread-Settled e s c
        by_local (ok local) = read_echo-RoundDone checksum _ (moved s _ refl refl refl refl c) less

    take_proof-RoundDone :
        (checksum : ℕ) (s : Echoing) (r : Result (List ℕ × Stream))
        → Counted k (suc k) k s
        → ((observed : List ℕ) (input : Stream)
            → r ≡ ok (observed, input)
            → length input.bytes < bound)
        → RoundDone k bound (take_proof config sequence checksum s r)
    unfolding take_proof RoundDone
    take_proof-RoundDone checksum s (err e) c less = unread-Settled e s c
    take_proof-RoundDone checksum s (ok (observed, input)) c less =
        with_peer-RoundDone checksum (at_stream input s) (decode_endpoint observed)
          (moved s (at_stream input s) refl refl refl refl c) (less observed input refl)

    unread-RoundDone :
        (e : Error) (s : Echoing) → Counted k (suc k) k s → RoundDone k bound (returned e s)
    unfolding RoundDone
    unread-RoundDone e s c = unread-Settled e s c

    pub take_answer-RoundDone :
        (s : Echoing) (r : Result (FrameHeader × Stream))
        → Counted k (suc k) k s
        → ((h : FrameHeader) (input : Stream) → r ≡ ok (h, input) → length input.bytes < bound)
        → RoundDone k bound (take_answer config k sequence s r)
    unfolding take_answer
    take_answer-RoundDone s (err e) c less = unread-RoundDone e s c
    take_answer-RoundDone s (ok (response, input)) c less =
        let t = at_stream input s in
        let c' = moved s t refl refl refl refl c in
        let shorter = less response input refl in
        if-both (RoundDone k bound) _
          (λ _. unread-RoundDone (refused "response header mismatch") t c')
          (λ _.
            if-both (RoundDone k bound) (asks_proof config k)
              (λ _.
                take_proof-RoundDone response.checksum t (read_full encoded_endpoint_size input) c'
                  (λ observed rest e.
                    omega (
                      arith,
                      read_full-length encoded_endpoint_size input rest observed e,
                      shorter,
                    )))
              (λ _. read_echo-RoundDone response.checksum t c' shorter))
