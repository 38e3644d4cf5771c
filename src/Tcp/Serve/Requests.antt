-- ===== src/Tcp/Serve/Requests.antt =====
-- The requests that runEcho of internal/workload/tcp/tcp.go makes, which serveConnection accepts.
use sing_box_inbound_bench.Base.{
  ℕ, zero, suc, ◌+◌, ◌*◌, ◌^◌, ◌≤◌, ◌<◌, List, [], ◌∷◌, ◌++◌, Bool, true, false, if-false,
  if◌then◌else◌, length, u32, ◌≡◌, refl, ap, arith, length-append, All, String,
}
use sing_box_inbound_bench.Wire.{ok, crc32-lt}
use sing_box_inbound_bench.Protocol.Endpoint.Laws.{IsIp}
use sing_box_inbound_bench.Tcp.{write_header, op_echo, op_short, flag_proof}
use sing_box_inbound_bench.Tcp.Frames.{length-write}
use sing_box_inbound_bench.Tcp.Download.Exchange.{length-fill_payload}
use sing_box_inbound_bench.Tcp.Echo.{EchoConfig, asks_proof, echo_payload, echo_header}
use sing_box_inbound_bench.Tcp.Serve.{ServerConfig, response_header}
use sing_box_inbound_bench.Tcp.Serve.Conversation.{EchoRequest, Accepted, answer_of, answers}

-- The requests of a client behind `k` of them, for the sequence numbers behind `first + k`.
unfoldable pub echo_request : EchoConfig → ℕ → ℕ → EchoRequest
echo_request config first k = record {
  header = echo_header config k (first + suc k);
  payload = echo_payload config (first + suc k);
}

unfoldable pub echo_requests : EchoConfig → ℕ → ℕ → ℕ → List EchoRequest
echo_requests config first k zero = []
echo_requests config first k (suc more) =
    echo_request config first k ∷ echo_requests config first (suc k) more

-- A client in the echo mode, which is not stopped, and a server that takes its payloads and can tell its
-- address; `local` is the client's own endpoint.
pub record Agreed (config : EchoConfig) (server : ServerConfig) (local : String) : Type 0 where
  pub long : config.short_mode ≡ false
  pub goes : (k : ℕ) → config.stop k ≡ false
  pub own : config.client_local ≡ ok local
  pub some_request : 0 < config.requests
  pub sequences : config.requests < 2 ^ 48
  pub bounded : config.payload_size ≤ u32 server.max_payload
  pub remote_ip : IsIp server.remote.ip
  pub remote_port : server.remote.port < 2 ^ 16

-- The requests of a worker.
abbrev pub requests_of : EchoConfig → ℕ → List EchoRequest
requests_of config worker = echo_requests config (worker * 2 ^ 48) 0 config.requests

-- A stream of answers has as many bytes as requests, and more.
pub answers-long : (peer : List ℕ) (rs : List EchoRequest) → length rs ≤ length (answers peer rs)
unfolding answers answer_of
answers-long peer [] = omega arith
answers-long peer (r ∷ rs) =
    let less = answers-long peer rs in
    longer (write_header (response_header r.header)) (length-write (response_header r.header)) _
      less
  where
    longer :
        (w : List ℕ)
        → length w ≡ 24
        → (xs : List ℕ) → length rs ≤ length (answers peer rs)
        → suc (length rs) ≤ length ((w ++ xs) ++ answers peer rs)
    longer w h xs less =
        ground (arith, length-append (w ++ xs) (answers peer rs), length-append w xs)

pub length-echo_requests :
    (config : EchoConfig) (first k more : ℕ) → length (echo_requests config first k more) ≡ more
unfolding echo_requests
length-echo_requests config first k zero = refl
length-echo_requests config first k (suc more) =
    ap suc (length-echo_requests config first (suc k) more)

module _ (config : EchoConfig) (server : ServerConfig) (local : String)
    (a : Agreed config server local) (first : ℕ) where
  request-Accepted :
      (k : ℕ) → first + suc k < 2 ^ 64 → Accepted server (echo_request config first k)
  unfolding echo_request echo_header
  request-Accepted k h = record {
    header_ok = record {
      operation_u8 = omega (arith, echo);
      flags_u16 = by_proof (asks_proof config k);
      length_u32 = omega arith;
      sequence_u64 = h;
      checksum_u32 = crc32-lt _;
    };
    is_echo = echo;
    exact = omega (arith, length-fill_payload config.payload_size (first + suc k), a.bounded);
    intact = refl;
    bounded = omega (arith, a.bounded);
  }
    where
      echo : (if config.short_mode then op_short else op_echo) ≡ op_echo
      echo = if-false _ _ _ a.long

      by_proof : (b : Bool) → (if b then flag_proof else 0) < 2 ^ 16
      by_proof true = omega arith
      by_proof false = omega arith

  pub requests-Accepted :
      (k more : ℕ)
      → first + (k + more) < 2 ^ 64
      → All (Accepted server) (echo_requests config first k more)
  unfolding echo_requests
  requests-Accepted k zero h = tt
  requests-Accepted k (suc more) h =
      (request-Accepted k (omega (arith, h)), requests-Accepted (suc k) more (omega (arith, h)))
