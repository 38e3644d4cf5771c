-- ===== src/Udp/Echo.antt =====
-- internal/workload/udp/udp.go: a flow of the echo mode, `runEchoFlow` behind its dial. What the
-- network, the clock and the context give to a round is its Exchange.
pub mod Balance
use sing_box_inbound_bench.Base.{
  ℕ, zero, suc, ◌+◌, ◌-◌, ◌*◌, bit_and, bit_or, List, [], ◌∷◌, ◌++◌, Bool, true, false, not, ◌&&◌,
  ◌||◌, ◌==◌, leb, if◌then◌else◌, length, take, drop, u32, u64, Option, none, some,
}
use sing_box_inbound_bench.Wire.{Error, eof, unexpected_eof, transport, refused, Result, ok, err}
use sing_box_inbound_bench.Workers
use sing_box_inbound_bench.Protocol.Endpoint.{Endpoint, encoded_endpoint_size, decode_endpoint}
use sing_box_inbound_bench.Udp.{Header, header_size, flag_response, flag_proof, build, parse}

pub record Counters : Type 0 where
  pub operations : ℕ
  pub failed : ℕ
  pub bytes_sent : ℕ
  pub bytes_received : ℕ
  pub packets_sent : ℕ
  pub packets_received : ℕ
  pub lost : ℕ
  pub reordered : ℕ
  pub corrupt : ℕ

abbrev pub no_counters : Counters
no_counters = record {
  operations = 0;
  failed = 0;
  bytes_sent = 0;
  bytes_received = 0;
  packets_sent = 0;
  packets_received = 0;
  lost = 0;
  reordered = 0;
  corrupt = 0;
}

pub record ClientConfig : Type 0 where
  pub payload_bytes : ℕ
  pub requests : ℕ
  pub flows : ℕ
  pub run_hash : ℕ
  pub collect_proof : Bool

-- The socket paths that a flow collects: the client's endpoint and the server's view of it.
pub record PathEvidence : Type 0 where
  pub client_local : Endpoint
  pub server_observed_peer : Endpoint

-- The variables of a flow, with what it adds to the counters.
pub record Flow : Type 0 where
  pub counters : Counters
  pub previous : ℕ
  pub proof_collected : Bool
  pub latencies : List ℕ
  pub paths : List PathEvidence

abbrev pub no_flow : Flow
no_flow = record {
  counters = no_counters;
  previous = 0;
  proof_collected = false;
  latencies = [];
  paths = [];
}

pub record Exchange : Type 0 where
  pub cancelled : Bool
  pub sent_at : ℕ
  pub deadline_error : Option Error
  pub write_error : Option Error
  pub received : Result (List ℕ)
  pub client_local : Result Endpoint
  pub elapsed : ℕ

-- A round: the flow returns with an error, or without one, or goes on.
pub data Round : Type 0 where
  returns : Option Error → Flow → Round
  goes_on : Flow → Round

-- The flow has returned, or waits for the next exchange.
pub data Run : Type 0 where
  returned : Option Error → Flow → Run
  waits : Flow → Run

abbrev pub resume : (Flow → Run) → Round → Run
resume next (returns e s) = returned e s
resume next (goes_on s) = next s

abbrev pub is_timeout : Error → Bool
is_timeout (transport timeout) = timeout
is_timeout eof = false
is_timeout unexpected_eof = false
is_timeout (refused text) = false

module _ (config : ClientConfig) (flow : ℕ) where
  abbrev pub request : ℕ → Flow → Exchange → Header
  request completed s x = record {
    flags = if config.collect_proof && not s.proof_collected then flag_proof else 0;
    run = config.run_hash;
    flow = u32 flow;
    sequence = u64 (completed + 1);
    sent_ns = u64 x.sent_at;
    checksum = 0;
  }

  abbrev pub wants_proof : Header → Bool
  wants_proof h = not (bit_and h.flags flag_proof == 0)

  abbrev pub packet_length : ℕ
  packet_length = header_size + config.payload_bytes

  abbrev pub count_sent : Flow → Flow
  count_sent s =
      let c : Counters = s.counters in
      record s {
        counters = record c {
          packets_sent = u64 (c.packets_sent + 1);
          bytes_sent = u64 (c.bytes_sent + config.payload_bytes);
        };
      }

  abbrev pub count_lost : Flow → Flow
  count_lost s =
      let c : Counters = s.counters in record s { counters = record c { lost = u64 (c.lost + 1) } }

  abbrev pub count_received : Flow → Flow
  count_received s =
      let c : Counters = s.counters in
      record s { counters = record c { packets_received = u64 (c.packets_received + 1) } }

  abbrev pub count_corrupt : Flow → Flow
  count_corrupt s =
      let c : Counters = s.counters in
      record s { counters = record c { corrupt = u64 (c.corrupt + 1) } }

  abbrev pub count_payload : Flow → Flow
  count_payload s =
      let c : Counters = s.counters in
      record s {
        counters = record c { bytes_received = u64 (c.bytes_received + config.payload_bytes) };
      }

  abbrev pub count_reordered : Flow → Flow
  count_reordered s =
      let c : Counters = s.counters in
      record s { counters = record c { reordered = u64 (c.reordered + 1) } }

  abbrev pub count_operation : Exchange → Flow → Flow
  count_operation x s =
      let c : Counters = s.counters in
      record s {
        latencies = s.latencies ++ (x.elapsed ∷ []);
        counters = record c { operations = u64 (c.operations + 1) };
      }

  abbrev pub record_path : Exchange → Flow → Result Endpoint → Result Endpoint → Round
  record_path x s (err e) client_local = returns (some e) s
  record_path x s (ok peer) (err e) = returns (some e) s
  record_path x s (ok peer) (ok client_local) = goes_on (
      count_operation x (record s {
        paths =
            s.paths ++ (record { client_local = client_local; server_observed_peer = peer } ∷ []);
        proof_collected = true;
      }))

  unfoldable pub accept_response : Header → Header → List ℕ → Exchange → Flow → Round
  accept_response h got response x s =
      let s' : Flow = record s { previous = got.sequence } in
      if leb got.sequence s.previous || not (got.sequence == h.sequence)
      then goes_on (count_reordered s)
      else if wants_proof h
      then record_path x s'
          (decode_endpoint (drop (length response - encoded_endpoint_size) response)) x.client_local
      else goes_on (count_operation x s')

  unfoldable pub judge_response : Header → List ℕ → Exchange → Flow → Option Header → Round
  judge_response h response x s none = goes_on (count_corrupt s)
  judge_response h response x s (some got) =
      let expected_length = packet_length + (if wants_proof h then encoded_endpoint_size else 0) in
      let expected_flags =
        if wants_proof h then bit_or flag_response flag_proof else flag_response in
      if not (got.flags == expected_flags)
        || not (got.run == config.run_hash)
        || not (got.flow == u32 flow)
        || not (length response == expected_length)
      then goes_on (count_corrupt s)
      else accept_response h got response x (count_payload s)

  abbrev pub response_size : ℕ
  response_size = packet_length + (if config.collect_proof then encoded_endpoint_size else 0)

  unfoldable pub read_response : Header → Exchange → Flow → Result (List ℕ) → Round
  read_response h x s (err e) = if is_timeout e then goes_on (count_lost s) else returns (some e) s
  read_response h x s (ok bytes) =
      let response = take response_size bytes in
      judge_response h response x (count_received s) (parse response)

  unfoldable pub after_write : Header → Exchange → Flow → Option Error → Option Error → Round
  after_write h x s (some e) write_error = returns (some e) s
  after_write h x s none (some e) = returns (some e) s
  after_write h x s none none = read_response h x (count_sent s) x.received

  -- The body of the loop.
  unfoldable pub echo_round : ℕ → Flow → Exchange → Round
  echo_round completed s x =
      if x.cancelled
      then returns none s
      else after_write (request completed s x) x s x.deadline_error x.write_error

  -- The loop on the exchanges that the network gives.
  unfoldable pub run_echo_flow : ℕ → Flow → List Exchange → Run
  run_echo_flow completed s [] =
      if Workers.goes_on (Workers.per_worker_requests config.requests config.flows flow) completed
      then waits s
      else returned none s
  run_echo_flow completed s (x ∷ xs) =
      let rest = λ (s : Flow). run_echo_flow (suc completed) s xs in
      if Workers.goes_on (Workers.per_worker_requests config.requests config.flows flow) completed
      then resume rest (echo_round completed s x)
      else returned none s
