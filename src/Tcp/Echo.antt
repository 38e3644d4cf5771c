-- ===== src/Tcp/Echo.antt =====
-- The echo mode of internal/workload/tcp/tcp.go: runEcho behind its dial. As in the download, deadlines
-- are left out, and a worker's clock and its context are the parameter `stop`; `elapsed` is the latency
-- that the clock gives for a sequence number. The texts of endpoints are those of net/netip.
pub mod Settled
pub mod Total
mod Tests
use sing_box_inbound_bench.Base.{
  ℕ, zero, suc, ◌+◌, ◌*◌, ◌/◌, ◌%◌, ◌^◌, List, [], ◌∷◌, ◌++◌, Bool, true, false, not, ◌&&◌, ◌||◌,
  ◌==◌, if◌then◌else◌, length, u64, u32, bit_or, bit_and, Option, none, some, String,
}
use sing_box_inbound_bench.Wire.{Error, refused, Result, ok, err, Stream, read_full, crc32}
use sing_box_inbound_bench.Workers
use sing_box_inbound_bench.Protocol.Endpoint.{Endpoint, decode_endpoint, encoded_endpoint_size}
use sing_box_inbound_bench.Subject.Evidence.{SocketPathEvidence}
use sing_box_inbound_bench.Tcp.{
  FrameHeader, write_header, read_header, op_echo, op_short, flag_response, flag_proof,
}
use sing_box_inbound_bench.Tcp.Upload.{Conn, send}
use sing_box_inbound_bench.Tcp.Download.{fill_payload}

-- What runEcho reads of its configuration, and of the world.
pub record EchoConfig : Type 0 where
  pub short_mode : Bool
  pub payload_size : ℕ
  pub requests : ℕ
  pub collect_proof : Bool
  pub stop : ℕ → Bool
  pub elapsed : ℕ → ℕ
  -- the canonical text of the connection's local address, and the text of an endpoint
  pub client_local : Result String
  pub endpoint_text : Endpoint → String

-- The client's end of the connection, and what it adds to the counters, latencies and paths.
pub record Echoing : Type 0 where
  pub conn : Conn
  pub operations : ℕ
  pub bytes_sent : ℕ
  pub bytes_received : ℕ
  pub latencies : List ℕ
  pub paths : List SocketPathEvidence

-- A round of the loop: the function returns, or goes on.
pub data Round : Type 0 where
  returned : Error → Echoing → Round
  echoed : Echoing → Round

abbrev pub echo_operation : EchoConfig → ℕ
echo_operation config = if config.short_mode then op_short else op_echo

abbrev pub asks_proof : EchoConfig → ℕ → Bool
asks_proof config completed = config.collect_proof && (completed == 0)

abbrev pub request_flags : EchoConfig → ℕ → ℕ
request_flags config completed = if asks_proof config completed then flag_proof else 0

abbrev pub expected_flags : EchoConfig → ℕ → ℕ
expected_flags config completed =
    if asks_proof config completed then bit_or flag_response flag_proof else flag_response

-- The payload behind `fillPayload(payload, sequence)`.
abbrev pub echo_payload : EchoConfig → ℕ → List ℕ
echo_payload config sequence = fill_payload config.payload_size sequence

unfoldable pub echo_header : EchoConfig → ℕ → ℕ → FrameHeader
echo_header config completed sequence = record {
  operation = echo_operation config;
  flags = request_flags config completed;
  length = u32 config.payload_size;
  sequence = sequence;
  checksum = crc32 (echo_payload config sequence);
}

abbrev pub at_stream : Stream → Echoing → Echoing
at_stream input s = let c : Conn = s.conn in record s { conn = record c { input = input } }

-- The response's payload.
unfoldable pub take_echo : EchoConfig → ℕ → ℕ → Echoing → Result (List ℕ × Stream) → Round
take_echo config sequence checksum s (err e) = returned e s
take_echo config sequence checksum s (ok (payload, input)) =
    let received : Echoing = record (at_stream input s) {
      bytes_received = u64 (s.bytes_received + config.payload_size);
    } in
    if not (crc32 payload == checksum)
    then returned (refused "response checksum mismatch") received
    else echoed (record received {
      latencies = s.latencies ++ (config.elapsed sequence ∷ []);
      operations = u64 (s.operations + 1);
    })

abbrev pub read_echo : EchoConfig → ℕ → ℕ → Echoing → Round
read_echo config sequence checksum s =
    take_echo config sequence checksum s (read_full config.payload_size s.conn.input)

abbrev pub with_path : EchoConfig → ℕ → ℕ → Echoing → String → Result String → Round
with_path config sequence checksum s peer (err e) = returned e s
with_path config sequence checksum s peer (ok local) =
    read_echo config sequence checksum (record s {
      paths =
          s.paths
          ++ (record { network = "tcp"; client_local = local; server_observed_peer = peer } ∷ []);
    })

abbrev pub with_peer : EchoConfig → ℕ → ℕ → Echoing → Result Endpoint → Round
with_peer config sequence checksum s (err e) = returned e s
with_peer config sequence checksum s (ok peer) =
    with_path config sequence checksum s (config.endpoint_text peer) config.client_local

-- The endpoint in front of the payload of a response with a proof.
unfoldable pub take_proof : EchoConfig → ℕ → ℕ → Echoing → Result (List ℕ × Stream) → Round
take_proof config sequence checksum s (err e) = returned e s
take_proof config sequence checksum s (ok (observed, input)) =
    with_peer config sequence checksum (at_stream input s) (decode_endpoint observed)

unfoldable pub take_answer : EchoConfig → ℕ → ℕ → Echoing → Result (FrameHeader × Stream) → Round
take_answer config completed sequence s (err e) = returned e s
take_answer config completed sequence s (ok (response, input)) =
    if not (response.flags == expected_flags config completed)
      || not (response.sequence == sequence)
      || not (response.operation == echo_operation config)
      || not (response.length == u32 config.payload_size)
    then returned (refused "response header mismatch") (at_stream input s)
    else if asks_proof config completed
    then take_proof config sequence response.checksum (at_stream input s)
        (read_full encoded_endpoint_size input)
    else read_echo config sequence response.checksum (at_stream input s)

unfoldable pub await_answer : EchoConfig → ℕ → ℕ → Echoing → Option Error × Conn → Round
await_answer config completed sequence s (some e, c) = returned e (record s { conn = c })
await_answer config completed sequence s (none, c) =
    take_answer config completed sequence
      (record s { conn = c; bytes_sent = u64 (s.bytes_sent + config.payload_size) })
      (read_header c.input)

unfoldable pub send_payload : EchoConfig → ℕ → ℕ → Echoing → Option Error × Conn → Round
send_payload config completed sequence s (some e, c) = returned e (record s { conn = c })
send_payload config completed sequence s (none, c) =
    await_answer config completed sequence s (send (echo_payload config sequence) c)

-- The body of the loop, for a sequence number that has been counted up.
unfoldable pub exchange_round : EchoConfig → ℕ → ℕ → Echoing → Round
exchange_round config completed sequence s =
    send_payload config completed sequence s
      (send (write_header (echo_header config completed sequence)) s.conn)

abbrev pub after_round :
    (Echoing → Option (Option Error × Echoing)) → Round → Option (Option Error × Echoing)
after_round next (returned e s) = some (some e, s)
after_round next (echoed s) = next s

-- The loop, where `none` is the end of the fuel.
unfoldable pub echo_rounds : ℕ → EchoConfig → ℕ → ℕ → Echoing → Option (Option Error × Echoing)
echo_rounds zero config completed sequence s = none
echo_rounds (suc fuel) config completed sequence s =
    let next =
      after_round (echo_rounds fuel config (completed + 1) (u64 (sequence + 1)))
        (exchange_round config completed (u64 (sequence + 1)) s) in
    if not (Workers.goes_on config.requests completed) || config.stop completed
    then some (none, s)
    else next

abbrev pub new_echoing : Conn → Echoing
new_echoing c = record {
  conn = c;
  operations = 0;
  bytes_sent = 0;
  bytes_received = 0;
  latencies = [];
  paths = [];
}

-- runEcho of a worker on a connection, with enough fuel for its requests, or for all bytes that the
-- server may send.
unfoldable pub run_echo : EchoConfig → ℕ → Conn → Option (Option Error × Echoing)
run_echo config worker c =
    echo_rounds (suc (length c.input.bytes)) config 0 (u64 (worker * 2 ^ 48)) (new_echoing c)
