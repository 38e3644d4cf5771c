-- ===== src/Tcp/Serve/Rounds.antt =====
-- The rounds of runEcho of internal/workload/tcp/tcp.go on the answers of serveConnection.
use mathlib.Core.List.{append_assoc}
use sing_box_inbound_bench.Base.{
  ℕ, zero, suc, ◌+◌, ◌*◌, ◌^◌, ◌<◌, List, [], ◌∷◌, ◌++◌, Bool, true, false, not, ◌&&◌, ◌||◌, ◌==◌,
  if-false, if◌then◌else◌, length, u32, u64, bit_or, bit_and, ◌≡◌, refl, ap, ◌∙◌, arith, String,
}
use sing_box_inbound_bench.Wire.{eof, ok, read_full, read_full-append, crc32, crc32-lt}
use sing_box_inbound_bench.Subject.Evidence.{SocketPathEvidence}
use sing_box_inbound_bench.Protocol.Endpoint.{Endpoint, decode_endpoint, encoded_endpoint_size}
use sing_box_inbound_bench.Tcp.{
  FrameHeader, write_header, read_header, op_echo, op_short, flag_response, flag_proof,
}
use sing_box_inbound_bench.Tcp.Frames.{IsHeader, read-write}
use sing_box_inbound_bench.Tcp.Upload.{send}
use sing_box_inbound_bench.Tcp.Upload.Server.{conn}
use sing_box_inbound_bench.Tcp.Download.Exchange.{length-fill_payload}
use sing_box_inbound_bench.Tcp.Echo.{
  EchoConfig, Echoing, echoed, asks_proof, request_flags, expected_flags, echo_operation,
  echo_payload, echo_header, take_echo, read_echo, with_path, with_peer, take_proof, take_answer,
  await_answer, send_payload, exchange_round,
}
use sing_box_inbound_bench.Tcp.Serve.{response_header}
use sing_box_inbound_bench.Tcp.Serve.Requests.{echo_request}
use sing_box_inbound_bench.Tcp.Serve.Conversation.{seen, answer_of}

abbrev pub latencies_of : EchoConfig → ℕ → ℕ → List ℕ
latencies_of config first zero = []
latencies_of config first (suc k) =
    latencies_of config first k ++ (config.elapsed (first + suc k) ∷ [])

module _ (config : EchoConfig) (first : ℕ) (peer : List ℕ) (client : Endpoint)
    (local : String) where
  abbrev pub path : SocketPathEvidence
  path = record {
    network = "tcp";
    client_local = local;
    server_observed_peer = config.endpoint_text client;
  }

  -- The proof is asked for in the first round.
  abbrev pub paths_of : ℕ → List SocketPathEvidence
  paths_of zero = []
  paths_of (suc k) = if config.collect_proof then path ∷ [] else []

  -- The client behind `k` rounds.
  abbrev pub behind : ℕ → List ℕ → List ℕ → Echoing
  behind k input out = record {
    conn = conn input eof out;
    operations = k;
    bytes_sent = u64 (k * config.payload_size);
    bytes_received = u64 (k * config.payload_size);
    latencies = latencies_of config first k;
    paths = paths_of k;
  }

  -- The client in a round, which has sent its request.
  abbrev sent : ℕ → List ℕ → List ℕ → List SocketPathEvidence → Echoing
  sent k input out paths = record {
    conn = conn input eof out;
    operations = k;
    bytes_sent = u64 (u64 (k * config.payload_size) + config.payload_size);
    bytes_received = u64 (k * config.payload_size);
    latencies = latencies_of config first k;
    paths = paths;
  }

  module _ (size : length peer ≡ encoded_endpoint_size) (known : decode_endpoint peer ≡ ok client)
      (own : config.client_local ≡ ok local) where
    abbrev pub at : ℕ → ℕ
    at k = first + suc k

    abbrev pub block : ℕ → List ℕ
    block k = echo_payload config (at k)

    counted :
        (k : ℕ)
        → suc k < 2 ^ 64
        → (rest out : List ℕ) (paths : List SocketPathEvidence)
        → read_echo config (at k) (crc32 (block k)) (sent k (block k ++ rest) out paths)
          ≡ echoed (record (behind (suc k) rest out) { paths = paths })
    unfolding take_echo
    counted k bound rest out paths =
        ap (take_echo config (at k) (crc32 (block k)) (sent k (block k ++ rest) out paths)) (
          read_full-append config.payload_size (block k) rest eof
            (length-fill_payload config.payload_size (at k)))
        ∙ if-false _ _ _ same
        ∙ (λ i. echoed (record {
          conn = conn rest eof out;
          operations = one i;
          bytes_sent = more i;
          bytes_received = more i;
          latencies = latencies_of config first (suc k);
          paths = paths;
        }))
      where
        same : not (crc32 (block k) == crc32 (block k)) ≡ false
        same = ground arith

        one : u64 (k + 1) ≡ suc k
        one = omega (arith, bound)

        more :
            u64 (u64 (k * config.payload_size) + config.payload_size)
            ≡ u64 (suc k * config.payload_size)
        more = omega arith

    abbrev shown : Bool → List ℕ
    shown b = if b then peer else []

    abbrev grown : Bool → List SocketPathEvidence → List SocketPathEvidence
    grown b paths = if b then paths ++ (path ∷ []) else paths

    answered :
        (k : ℕ)
        → suc k < 2 ^ 64
        → (b : Bool) (rest out : List ℕ)
        → (if b
            then take_proof config
                (at k)
                (crc32 (block k))
                (sent k ((shown b ++ block k) ++ rest) out (paths_of k))
                (read_full encoded_endpoint_size
                  (record { bytes = (shown b ++ block k) ++ rest; at_end = eof }))
            else read_echo config
                (at k)
                (crc32 (block k))
                (sent k ((shown b ++ block k) ++ rest) out (paths_of k)))
          ≡ echoed (record (behind (suc k) rest out) { paths = grown b (paths_of k) })
    unfolding take_proof
    answered k bound true rest out =
        ap
          (λ bytes.
            take_proof config (at k) (crc32 (block k)) (sent k bytes out (paths_of k))
              (read_full encoded_endpoint_size (record { bytes = bytes; at_end = eof })))
          (append_assoc peer (block k) rest)
        ∙ ap
            (take_proof config (at k) (crc32 (block k))
              (sent k (peer ++ (block k ++ rest)) out (paths_of k)))
            (read_full-append encoded_endpoint_size peer (block k ++ rest) eof size)
        ∙ ap (with_peer config (at k) (crc32 (block k)) (sent k (block k ++ rest) out (paths_of k)))
            known
        ∙ ap
            (with_path config (at k) (crc32 (block k)) (sent k (block k ++ rest) out (paths_of k))
              (config.endpoint_text client))
            own
        ∙ counted k bound rest out (paths_of k ++ (path ∷ []))
    answered k bound false rest out = counted k bound rest out (paths_of k)

    grown_lem : (k : ℕ) → grown (asks_proof config k) (paths_of k) ≡ paths_of (suc k)
    grown_lem zero = by_proof config.collect_proof
      where
        by_proof :
            (b : Bool) → (if b && true then path ∷ [] else []) ≡ (if b then path ∷ [] else [])
        by_proof true = refl
        by_proof false = refl
    grown_lem (suc k) = by_proof config.collect_proof (suc k == 0) later
      where
        later : (suc k == 0) ≡ false
        later = ground arith

        by_proof : (b c : Bool) → c ≡ false → grown (b && c) (paths_of (suc k)) ≡ paths_of (suc k)
        by_proof true true h = ground arith
        by_proof true false h = refl
        by_proof false c h = refl

    flags_lem : (k : ℕ) → bit_or (request_flags config k) flag_response ≡ expected_flags config k
    flags_lem k = by_proof (asks_proof config k)
      where
        by_proof :
            (b : Bool)
            → bit_or (if b then flag_proof else 0) flag_response
              ≡ (if b then bit_or flag_response flag_proof else flag_response)
        by_proof true = refl
        by_proof false = refl

    seen_lem : (k : ℕ) → seen peer (echo_header config k (at k)) ≡ shown (asks_proof config k)
    unfolding echo_header
    seen_lem k = by_proof (asks_proof config k)
      where
        by_proof :
            (b : Bool)
            → (if not (bit_and (if b then flag_proof else 0) flag_proof == 0) then peer else [])
              ≡ shown b
        by_proof true = refl
        by_proof false = refl

    answer_lem :
        (k : ℕ) (rest : List ℕ)
        → answer_of peer (echo_request config first k) ++ rest
          ≡ write_header (response_header (echo_header config k (at k)))
            ++ ((shown (asks_proof config k) ++ block k) ++ rest)
    unfolding answer_of echo_request
    answer_lem k rest =
        append_assoc (write_header (response_header (echo_header config k (at k))))
          (seen peer (echo_header config k (at k)) ++ block k) rest
        ∙ ap
            (λ xs.
              write_header (response_header (echo_header config k (at k)))
              ++ ((xs ++ block k) ++ rest))
            (seen_lem k)

    response_IsHeader :
        config.short_mode ≡ false
        → (k : ℕ) → at k < 2 ^ 64
        → IsHeader (response_header (echo_header config k (at k)))
    unfolding response_header echo_header
    response_IsHeader long k h = record {
      operation_u8 = let o = if-false config.short_mode op_short op_echo long in omega arith;
      flags_u16 = by_proof (asks_proof config k);
      length_u32 = omega arith;
      sequence_u64 = h;
      checksum_u32 = crc32-lt (block k);
    }
      where
        by_proof : (b : Bool) → bit_or (if b then flag_proof else 0) flag_response < 2 ^ 16
        by_proof true = omega arith
        by_proof false = omega arith

    pub round_lem :
        config.short_mode ≡ false
        → (k : ℕ) (rest out : List ℕ) → at k < 2 ^ 64
        → exchange_round config k
            (at k)
            (behind k (answer_of peer (echo_request config first k) ++ rest) out)
          ≡ echoed
              (behind (suc k) rest ((out ++ write_header (echo_header config k (at k))) ++ block k))
    unfolding exchange_round send_payload await_answer send take_answer response_header echo_header
    round_lem long k rest out h =
        ap
          (λ bytes.
            take_answer config k (at k) (sent k bytes now (paths_of k))
              (read_header (record { bytes = bytes; at_end = eof })))
          (answer_lem k rest)
        ∙ ap
            (take_answer config k (at k)
              (sent k (write_header (response_header header) ++ body) now (paths_of k)))
            (read-write (response_header header) body eof (response_IsHeader long k h))
        ∙ if-false _ _ _ matches
        ∙ answered k (omega (arith, h)) (asks_proof config k) rest now
        ∙ ap (λ paths. echoed (record (behind (suc k) rest now) { paths = paths })) (grown_lem k)
      where
        header : FrameHeader
        header = echo_header config k (at k)

        body : List ℕ
        body = (shown (asks_proof config k) ++ block k) ++ rest

        now : List ℕ
        now = (out ++ write_header header) ++ block k

        flags : bit_or (request_flags config k) flag_response ≡ expected_flags config k
        flags = flags_lem k

        matches :
            (not (bit_or (request_flags config k) flag_response == expected_flags config k)
              || not (at k == at k)
              || not (echo_operation config == echo_operation config)
              || not (u32 config.payload_size == u32 config.payload_size))
            ≡ false
        matches = ground arith
