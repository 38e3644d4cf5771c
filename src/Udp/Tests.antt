-- ===== src/Udp/Tests.antt =====
-- Packets of four payload bytes, and a flow of two requests of which one is answered.
use sing_box_inbound_bench.Base.{
  ◌*◌, ◌/◌, ◌≤◌, ℕ, List, [], ◌∷◌, ◌++◌, true, false, none, some, ◌≡◌, refl, arith,
}
use sing_box_inbound_bench.Wire.{transport, ok, err, crc32}
use sing_box_inbound_bench.Protocol.Endpoint.{ip4, Endpoint, encode_endpoint, unmap}
use sing_box_inbound_bench.Udp.{Header, header_size, payload_from, build, parse}
use sing_box_inbound_bench.Udp.Packets.{IsHeader, parse-build}
use sing_box_inbound_bench.Udp.Server.{Answers, serve_packet-Answers}
use sing_box_inbound_bench.Udp.Echo.{
  ClientConfig, Exchange, no_flow, no_counters, returned, run_echo_flow, echo_round, after_write,
  read_response, judge_response, accept_response,
}
use sing_box_inbound_bench.Workers.{per_worker_requests}
use sing_box_inbound_bench.Udp.Echo.Balance.{Settled, run_echo_flow-Settled}
use sing_box_inbound_bench.Udp.Schedule.{second, packet_count, packet_offset}
use sing_box_inbound_bench.Udp.Schedule.Exact.{schedule_fits}
use sing_box_inbound_bench.Udp.Receive.{
  Reception, got, receive_pps_flow, receive_round, take_response, take_sequence, settle,
}
use sing_box_inbound_bench.Udp.Receive.Distinct.{fresh_flow}

abbrev header : Header
header = record { flags = 2; run = 77; flow = 3; sequence = 12; sent_ns = 5000000000; checksum = 0 }

header-IsHeader : IsHeader header
header-IsHeader = record {
  flags_u8 = omega arith;
  run_u32 = omega arith;
  flow_u32 = omega arith;
  sequence_u64 = omega arith;
  sent_ns_u64 = omega arith;
}

parse-build_example :
    parse (build 4 header)
    ≡ some (record header { checksum = crc32 (payload_from 12 header_size 4) })
parse-build_example = parse-build 4 header header-IsHeader

abbrev sender : Endpoint
sender = record { ip = ip4 (127 ∷ 0 ∷ 0 ∷ 1 ∷ []); port = 5353 }

abbrev sender_bytes : List ℕ
sender_bytes =
    4 ∷ 0 ∷ 0 ∷ 0 ∷ 0 ∷ 0 ∷ 0 ∷ 0 ∷ 0 ∷ 0 ∷ 0 ∷ 0 ∷ 0 ∷ 0 ∷ 127 ∷ 0 ∷ 0 ∷ 1 ∷ 20 ∷ 233 ∷ []

sender_encoded : encode_endpoint sender ≡ ok sender_bytes
unfolding encode_endpoint unmap
sender_encoded = refl

serve_packet-Answers_example :
    let payload = payload_from 12 header_size 4 in
    Answers sender (build 4 (record header { flags = 0 })) header 1 payload
    × Answers sender (build 4 (record header { flags = 2 })) header 3 (payload ++ sender_bytes)
serve_packet-Answers_example =
    serve_packet-Answers 4 header sender sender_bytes header-IsHeader sender_encoded

abbrev config : ClientConfig
config = record { payload_bytes = 4; requests = 2; flows = 1; run_hash = 77; collect_proof = false }

abbrev unanswered : Exchange
unanswered = record {
  cancelled = false;
  sent_at = 1;
  deadline_error = none;
  write_error = none;
  received = err (transport true);
  client_local = ok sender;
  elapsed = 20;
}

abbrev answered : Exchange
answered = record unanswered {
  received =
      ok (
        build 4
          (record { flags = 1; run = 77; flow = 0; sequence = 2; sent_ns = 1; checksum = 0 }));
}

run_echo_flow-Settled_example :
    Settled config 0
      (unanswered ∷ answered ∷ [])
      (run_echo_flow config 0 0 no_flow (unanswered ∷ answered ∷ []))
run_echo_flow-Settled_example = run_echo_flow-Settled config 0 (unanswered ∷ answered ∷ [])

-- The first request of the flow is lost, and the second is an operation.
one_answered :
    run_echo_flow config 0 0 no_flow (unanswered ∷ answered ∷ [])
    ≡ returned none (record no_flow {
      counters = record no_counters {
        operations = 1;
        bytes_sent = 8;
        bytes_received = 4;
        packets_sent = 2;
        packets_received = 1;
        lost = 1;
      };
      previous = 2;
      latencies = 20 ∷ [];
    })
unfolding run_echo_flow echo_round after_write read_response judge_response accept_response build
    payload_from parse per_worker_requests crc32
one_answered = refl

-- A second and a half at a thousand packets a second.
count_1500 : packet_count 1000 0 1500000000 ≡ ok 1500
unfolding packet_count
count_1500 = refl

schedule_fits_example :
    (1500 ≡ 1500000000 * 1000 / second)
    × (packet_offset 700 1000 ≡ ok (700 * second / 1000))
    × (700 * second / 1000 ≤ 1500000000)
schedule_fits_example =
    schedule_fits 1000 1500000000 1500 700 (omega arith) (omega arith) (omega arith) count_1500
      (omega arith)

-- The answer to the first packet of a flow.
abbrev first_answer : Reception
first_answer = record {
  read =
      got (
        build 4
          (record { flags = 1; run = 77; flow = 0; sequence = 1; sent_ns = 1; checksum = 0 }));
  sent_at = λ i. 10;
  now = 30;
}

-- The second copy of an answer is no operation.
copy_reordered :
    (receive_pps_flow 77 0 2 (fresh_flow 77 0 2) (first_answer ∷ first_answer ∷ [])).counters
    ≡ record no_counters { operations = 1; bytes_received = 8; packets_received = 2; reordered = 1 }
unfolding receive_pps_flow receive_round take_response take_sequence settle build payload_from parse
    crc32
copy_reordered = refl
