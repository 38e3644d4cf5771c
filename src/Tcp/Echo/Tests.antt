-- ===== src/Tcp/Echo/Tests.antt =====
-- A run of runEcho of internal/workload/tcp/tcp.go with one request, which is answered.
use sing_box_inbound_bench.Base.{ℕ, [], ◌++◌, false, Option, none, some, ◌≡◌, refl}
use sing_box_inbound_bench.Wire.{Error, eof, ok, crc32, read_full}
use sing_box_inbound_bench.Tcp.{
  FrameHeader, write_header, read_header, parse_header, op_echo, flag_response,
}
use sing_box_inbound_bench.Tcp.Upload.{Conn, send}
use sing_box_inbound_bench.Tcp.Download.{fill_payload, payload_bytes, xorshift}
use sing_box_inbound_bench.Tcp.Echo.{
  EchoConfig, Echoing, run_echo, echo_rounds, exchange_round, send_payload, await_answer,
  take_answer, take_echo, echo_header,
}
use sing_box_inbound_bench.Tcp.Echo.Settled.{Settled}
use sing_box_inbound_bench.Tcp.Echo.Total.{run_echo-Settled}

abbrev config : EchoConfig
config = record {
  short_mode = false;
  payload_size = 3;
  requests = 1;
  collect_proof = false;
  stop = λ k. false;
  elapsed = λ sequence. 250;
  client_local = ok "10.0.0.2:40000";
  endpoint_text = λ e. "10.0.0.3:50000";
}

abbrev echo_answer : FrameHeader
echo_answer = record {
  operation = op_echo;
  flags = flag_response;
  length = 3;
  sequence = 1;
  checksum = crc32 (fill_payload 3 1);
}

abbrev connection : Conn
connection = record {
  input = record { bytes = write_header echo_answer ++ fill_payload 3 1; at_end = eof };
  output = [];
  breaks_after = none;
}

run_echo-Settled_example :
    (e : Option Error) × (s : Echoing) × (run_echo config 0 connection ≡ some (e, s))
    × Settled config e s
run_echo-Settled_example = run_echo-Settled config 0 connection

abbrev operations_of : Option (Option Error × Echoing) → ℕ
operations_of none = 0
operations_of (some (e, s)) = s.operations

one_echo : operations_of (run_echo config 0 connection) ≡ 1
unfolding run_echo echo_rounds exchange_round send_payload await_answer take_answer take_echo
    echo_header send read_header parse_header write_header read_full fill_payload payload_bytes
    xorshift crc32
one_echo = refl
