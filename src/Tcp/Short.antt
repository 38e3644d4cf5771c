-- ===== src/Tcp/Short.antt =====
-- The short mode of internal/workload/tcp/tcp.go: runShort, each of whose attempts is a runEcho of one
-- request on a connection of its own. What the world gives is a function of the attempt's number.
pub mod Accounted
pub mod Total
mod Tests
use sing_box_inbound_bench.Base.{
  ℕ, zero, suc, ◌+◌, List, [], ◌∷◌, ◌++◌, Bool, true, false, not, ◌||◌, ◌==◌, if◌then◌else◌, length,
  u64, Option, none, some, String,
}
use sing_box_inbound_bench.Wire.{
  Error, eof, unexpected_eof, transport, refused, Result, ok, err, Stream,
}
use sing_box_inbound_bench.Workers
use sing_box_inbound_bench.Protocol.Endpoint.{Endpoint}
use sing_box_inbound_bench.Subject.Evidence.{SocketPathEvidence}
use sing_box_inbound_bench.Tcp.Upload.{Conn}
use sing_box_inbound_bench.Tcp.Echo.{EchoConfig, Echoing, run_echo}

-- What runShort reads of its configuration, and of the world at an attempt: whether its context or its
-- time has ended before it, the connection that the dial gives, the latencies that the clock gives, and
-- the error of its context behind it.
pub record ShortConfig : Type 0 where
  pub worker : ℕ
  pub payload_size : ℕ
  pub requests : ℕ
  pub collect_proof : Bool
  pub endpoint_text : Endpoint → String
  pub stop : ℕ → Bool
  pub dial : ℕ → Result Conn
  pub client_local : ℕ → Result String
  pub cancelled : ℕ → ℕ → Bool
  pub echo_elapsed : ℕ → ℕ → ℕ
  pub connect_latency : ℕ → ℕ
  pub elapsed : ℕ → ℕ
  pub context_err : ℕ → Option Error

-- What a worker adds to the counters, latencies and paths.
pub record Shorts : Type 0 where
  pub operations : ℕ
  pub failed : ℕ
  pub corrupt : ℕ
  pub bytes_sent : ℕ
  pub bytes_received : ℕ
  pub latencies : List ℕ
  pub connect_latencies : List ℕ
  pub application_latencies : List ℕ
  pub paths : List SocketPathEvidence

-- The configuration `one` of an attempt, as its runEcho reads it.
unfoldable pub one : ShortConfig → ℕ → EchoConfig
one config completed = record {
  short_mode = true;
  payload_size = config.payload_size;
  requests = Workers.per_worker_requests 1 1 (config.worker + completed);
  collect_proof = config.collect_proof;
  stop = config.cancelled completed;
  elapsed = config.echo_elapsed completed;
  client_local = config.client_local completed;
  endpoint_text = config.endpoint_text;
}

-- An attempt: the error of its runEcho, with what it has counted beside its connection, or nothing if
-- the dial failed.
pub data Attempt : Type 0 where
  undialed : Error → Attempt
  dialed : Option Error → Echoing → Attempt

abbrev pub dialed_of : Option (Option Error × Echoing) → Option Attempt
dialed_of none = none
dialed_of (some (e, s)) = some (dialed e s)

abbrev pub attempt_on : ShortConfig → ℕ → Result Conn → Option Attempt
attempt_on config completed (err e) = some (undialed e)
attempt_on config completed (ok c) =
    dialed_of (run_echo (one config completed) (config.worker + completed) c)

-- `isTransportError`
unfoldable pub is_transport_error : Error → Bool
is_transport_error eof = true
is_transport_error unexpected_eof = true
is_transport_error (transport timeout) = true
is_transport_error (refused text) = false

-- A turn of the loop: the function returns, or goes on.
pub data ShortTurn : Type 0 where
  returned : Error → Shorts → ShortTurn
  continued : Shorts → ShortTurn

unfoldable pub failed_attempt : Option Error → Error → Shorts → ShortTurn
failed_attempt (some cancelled) e s = returned cancelled s
failed_attempt none e s =
    if is_transport_error e
    then continued (record s { failed = u64 (s.failed + 1) })
    else returned e (record s { corrupt = u64 (s.corrupt + 1) })

unfoldable pub add_echo : Echoing → Shorts → Shorts
add_echo local s = record s {
  operations = u64 (s.operations + local.operations);
  bytes_sent = u64 (s.bytes_sent + local.bytes_sent);
  bytes_received = u64 (s.bytes_received + local.bytes_received);
  paths = s.paths ++ local.paths;
}

abbrev pub without_sample : Option Error → Shorts → ShortTurn
without_sample (some cancelled) s = returned cancelled s
without_sample none s =
    returned (refused "short TCP attempt completed without one latency sample") s

-- `len(localLatency) != 1 || localCounters.operations.Load() != 1`
unfoldable pub lacks_sample : Echoing → Bool
lacks_sample local = not (length local.latencies == 1) || not (local.operations == 1)

unfoldable pub completed_attempt : ShortConfig → ℕ → Echoing → Shorts → ShortTurn
completed_attempt config completed local s =
    if lacks_sample local
    then without_sample (config.context_err completed) s
    else continued (record s {
      latencies = s.latencies ++ (config.elapsed completed ∷ []);
      connect_latencies = s.connect_latencies ++ (config.connect_latency completed ∷ []);
      application_latencies = s.application_latencies ++ local.latencies;
    })

-- The body of the loop behind its attempt.
unfoldable pub judge_short : ShortConfig → ℕ → Shorts → Attempt → ShortTurn
judge_short config completed s (undialed e) = failed_attempt (config.context_err completed) e s
judge_short config completed s (dialed (some e) local) =
    failed_attempt (config.context_err completed) e (add_echo local s)
judge_short config completed s (dialed none local) =
    completed_attempt config completed local (add_echo local s)

abbrev pub after_turn :
    (Shorts → Option (Option Error × Shorts)) → ShortTurn → Option (Option Error × Shorts)
after_turn next (returned e s) = some (some e, s)
after_turn next (continued s) = next s

abbrev pub after_attempt :
    ShortConfig
    → ℕ
    → Shorts
    → (Shorts → Option (Option Error × Shorts))
    → Option Attempt
    → Option (Option Error × Shorts)
after_attempt config completed s next none = none
after_attempt config completed s next (some a) = after_turn next (judge_short config completed s a)

-- The loop, where `none` is the end of the fuel.
unfoldable pub short_rounds : ℕ → ShortConfig → ℕ → Shorts → Option (Option Error × Shorts)
short_rounds zero config completed s = none
short_rounds (suc fuel) config completed s =
    let next =
      after_attempt config completed s (short_rounds fuel config (completed + 1))
        (attempt_on config completed (config.dial completed)) in
    if not (Workers.goes_on config.requests completed) || config.stop completed
    then some (none, s)
    else next

abbrev pub no_shorts : Shorts
no_shorts = record {
  operations = 0;
  failed = 0;
  corrupt = 0;
  bytes_sent = 0;
  bytes_received = 0;
  latencies = [];
  connect_latencies = [];
  application_latencies = [];
  paths = [];
}

unfoldable pub run_short : ℕ → ShortConfig → Option (Option Error × Shorts)
run_short fuel config = short_rounds fuel config 0 no_shorts
