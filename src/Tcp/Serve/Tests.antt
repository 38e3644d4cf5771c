-- ===== src/Tcp/Serve/Tests.antt =====
-- Two echoes between runEcho and serveConnection of internal/workload/tcp/tcp.go, the first with a proof.
use sing_box_inbound_bench.Base.{
  ℕ, ◌*◌, ◌^◌, List, [], ◌∷◌, false, true, none, some, ◌≡◌, refl, arith,
}
use sing_box_inbound_bench.Wire.{eof, ok, crc32}
use sing_box_inbound_bench.Protocol.Endpoint.{ip4, canonical, unmap, encode_endpoint}
use sing_box_inbound_bench.Tcp.{op_echo, flag_proof}
use sing_box_inbound_bench.Tcp.Upload.Server.{conn}
use sing_box_inbound_bench.Tcp.Echo.{EchoConfig, run_echo}
use sing_box_inbound_bench.Tcp.Serve.{ServerConfig, serve_connection}
use sing_box_inbound_bench.Tcp.Serve.Conversation.{
  EchoRequest, Accepted, requests_stream, answers, serve_connection-answers,
}
use sing_box_inbound_bench.Tcp.Serve.Rounds.{behind}
use sing_box_inbound_bench.Tcp.Serve.Requests.{Agreed, requests_of}
use sing_box_inbound_bench.Tcp.Serve.Exchange.{echo_exchange}

abbrev client : EchoConfig
client = record {
  short_mode = false;
  payload_size = 3;
  requests = 2;
  collect_proof = true;
  stop = λ k. false;
  elapsed = λ sequence. 250;
  client_local = ok "10.0.0.2:40000";
  endpoint_text = λ e. "10.0.0.3:50000";
}

abbrev server : ServerConfig
server = record {
  max_payload = 65536;
  remote = record { ip = ip4 (10 ∷ 0 ∷ 0 ∷ 3 ∷ []); port = 50000 };
  closed = λ e. false;
}

abbrev seen_peer : List ℕ
seen_peer = 4 ∷ 0 ∷ 0 ∷ 0 ∷ 0 ∷ 0 ∷ 0 ∷ 0 ∷ 0 ∷ 0 ∷ 0 ∷ 0 ∷ 0 ∷ 0 ∷ 10 ∷ 0 ∷ 0 ∷ 3 ∷ 195 ∷ 80 ∷ []

abbrev asking : EchoRequest
asking = record {
  header = record {
    operation = op_echo;
    flags = flag_proof;
    length = 2;
    sequence = 1;
    checksum = crc32 (7 ∷ 8 ∷ []);
  };
  payload = 7 ∷ 8 ∷ [];
}

abbrev plain : EchoRequest
plain = record {
  header = record {
    operation = op_echo;
    flags = 0;
    length = 1;
    sequence = 2;
    checksum = crc32 (9 ∷ []);
  };
  payload = 9 ∷ [];
}

asking-Accepted : Accepted server asking
unfolding crc32
asking-Accepted = record {
  header_ok = record {
    operation_u8 = omega arith;
    flags_u16 = omega arith;
    length_u32 = omega arith;
    sequence_u64 = omega arith;
    checksum_u32 = omega arith;
  };
  is_echo = refl;
  exact = refl;
  intact = refl;
  bounded = omega arith;
}

plain-Accepted : Accepted server plain
unfolding crc32
plain-Accepted = record {
  header_ok = record {
    operation_u8 = omega arith;
    flags_u16 = omega arith;
    length_u32 = omega arith;
    sequence_u64 = omega arith;
    checksum_u32 = omega arith;
  };
  is_echo = refl;
  exact = refl;
  intact = refl;
  bounded = omega arith;
}

seen_peer_lem : encode_endpoint server.remote ≡ ok seen_peer
unfolding encode_endpoint unmap
seen_peer_lem = refl

serve_connection-answers_example :
    serve_connection 5 server (conn (requests_stream (asking ∷ plain ∷ [])) eof [])
    ≡ some (none, conn [] eof (answers seen_peer (asking ∷ plain ∷ [])))
serve_connection-answers_example =
    serve_connection-answers server seen_peer seen_peer_lem 5 (asking ∷ plain ∷ [])
      (asking-Accepted, (plain-Accepted, tt))

agreed : Agreed client server "10.0.0.2:40000"
agreed = record {
  long = refl;
  goes = λ k. refl;
  own = refl;
  some_request = omega arith;
  sequences = omega arith;
  bounded = omega arith;
  remote_ip = refl;
  remote_port = omega arith;
}

echo_exchange_example :
    (peer : List ℕ) × (encode_endpoint server.remote ≡ ok peer)
    × (run_echo client 1 (conn (answers peer (requests_of client 1)) eof [])
        ≡ some (
          none,
          behind client
              (1 * 2 ^ 48)
              peer
              (canonical server.remote)
              "10.0.0.2:40000"
              2
              []
              (requests_stream (requests_of client 1)),
        ))
    × (serve_connection 5 server (conn (requests_stream (requests_of client 1)) eof [])
        ≡ some (none, conn [] eof (answers peer (requests_of client 1))))
echo_exchange_example = echo_exchange client server "10.0.0.2:40000" 1 5 agreed (omega arith)
