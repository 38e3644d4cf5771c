-- ===== src/Tcp/Serve/Exchange.antt =====
-- runEcho and serveConnection of internal/workload/tcp/tcp.go, each on what the other sends.
use mathlib.Core.List.{append_assoc, append-nil}
use sing_box_inbound_bench.Base.{
  ℕ, zero, suc, ◌+◌, ◌*◌, ◌^◌, ◌<◌, List, [], ◌++◌, true, false, not, ◌||◌, if-true, if-false,
  length, u64, none, some, ◌≡◌, ap, sym, ◌∙◌, arith, String,
}
use sing_box_inbound_bench.Wire.{eof, ok}
use sing_box_inbound_bench.Workers
use sing_box_inbound_bench.Protocol.Endpoint.{
  Endpoint, encode_endpoint, decode_endpoint, encoded_endpoint_size, canonical,
}
use sing_box_inbound_bench.Protocol.Endpoint.Laws.{decode-encode_endpoint}
use sing_box_inbound_bench.Tcp.{write_header}
use sing_box_inbound_bench.Tcp.Upload.Server.{conn}
use sing_box_inbound_bench.Tcp.Echo.{
  EchoConfig, echo_header, exchange_round, after_round, echo_rounds, new_echoing, run_echo,
}
use sing_box_inbound_bench.Tcp.Serve.{ServerConfig, serve_connection}
use sing_box_inbound_bench.Tcp.Serve.Conversation.{
  answer_of, answers, requests_stream, serve_connection-answers,
}
use sing_box_inbound_bench.Tcp.Serve.Requests.{
  Agreed, echo_request, echo_requests, requests_of, answers-long, length-echo_requests,
  requests-Accepted,
}
use sing_box_inbound_bench.Tcp.Serve.Rounds.{behind, block, round_lem}

module _ (config : EchoConfig) (server : ServerConfig) (local : String)
    (a : Agreed config server local) (first : ℕ) where
  module _ (peer : List ℕ) (client : Endpoint) (size : length peer ≡ encoded_endpoint_size)
      (known : decode_endpoint peer ≡ ok client) where
    rounds_lem :
        (more fuel k : ℕ) (out : List ℕ)
        → k + more ≡ config.requests
        → first + config.requests < 2 ^ 64
        → more < fuel
        → echo_rounds fuel config k (first + k) (
            behind config first peer client local k
              (answers peer (echo_requests config first k more))
              out)
          ≡ some (
            none,
            behind config first peer client local config.requests []
                (out ++ requests_stream (echo_requests config first k more)),
          )
    unfolding echo_rounds echo_requests answers requests_stream echo_request
    rounds_lem more zero k out h bound enough = ground (arith, enough)
    rounds_lem zero (suc fuel) k out h bound enough =
        if-true _ _ _ done
        ∙ (λ i. some (none, behind config first peer client local (same i) [] (padded i)))
      where
        padded : out ≡ out ++ []
        padded = sym (append-nil out)

        same : k ≡ config.requests
        same = omega (arith, h)

        done : (not (Workers.goes_on config.requests k) || config.stop k) ≡ true
        done = let p = a.some_request in ground arith
    rounds_lem (suc more) (suc fuel) k out h bound enough =
        if-false _ _ _ goes_on
        ∙ ap
            (λ j. after_round (echo_rounds fuel config (k + 1) j) (
              exchange_round config k j (
                behind config first peer client local k
                  (answer_of peer (echo_request config first k) ++ later) out)))
            next
        ∙ ap (after_round (echo_rounds fuel config (k + 1) (first + suc k))) (
            round_lem config first peer client local size known a.own a.long k later out
              (omega (arith, h, bound)))
        ∙ ap
            (λ j.
              echo_rounds fuel config j (first + suc k)
                (behind config first peer client local (suc k) later now))
            one
        ∙ rounds_lem more fuel (suc k) now (omega (arith, h)) bound (omega (arith, enough))
        ∙ ap (λ xs. some (none, behind config first peer client local config.requests [] xs))
            (regroup header)
      where
        header : List ℕ
        header = write_header (echo_header config k (first + suc k))

        later : List ℕ
        later = answers peer (echo_requests config first (suc k) more)

        now : List ℕ
        now = (out ++ header) ++ block config first peer client local size known a.own k

        one : k + 1 ≡ suc k
        one = omega arith

        next : u64 (first + k + 1) ≡ first + suc k
        next = omega (arith, h, bound)

        goes_on : (not (Workers.goes_on config.requests k) || config.stop k) ≡ false
        goes_on = let s = a.goes k in ground arith

        regroup :
            (w : List ℕ)
            → now ++ requests_stream (echo_requests config first (suc k) more)
              ≡ out ++ requests_stream (echo_requests config first k (suc more))
        regroup w = append_assoc (out ++ header) _ _ ∙ append_assoc out header _

module _ (config : EchoConfig) (server : ServerConfig) (local : String)
    (a : Agreed config server local) (worker : ℕ) (small : worker < 2 ^ 16) where
  fits : worker * 2 ^ 48 + config.requests < 2 ^ 64
  fits = omega (arith, small, a.sequences)

  run_echo_lem :
      (peer : List ℕ) (client : Endpoint)
      → length peer ≡ encoded_endpoint_size
      → decode_endpoint peer ≡ ok client
      → run_echo config worker (conn (answers peer (requests_of config worker)) eof [])
        ≡ some (
          none,
          behind config
              (worker * 2 ^ 48)
              peer
              client
              local
              config.requests
              []
              (requests_stream (requests_of config worker)),
        )
  unfolding run_echo
  run_echo_lem peer client size known =
      (λ i.
        echo_rounds (suc (length stream)) config 0 (start i)
          (record (new_echoing (conn stream eof [])) {
            bytes_sent = no_bytes i;
            bytes_received = no_bytes i;
          }))
      ∙ rounds_lem config server local a (worker * 2 ^ 48) peer client size known config.requests
          (suc (length stream)) 0 [] (omega arith) fits
          (omega (
            arith,
            answers-long peer (requests_of config worker),
            length-echo_requests config (worker * 2 ^ 48) 0 config.requests,
          ))
    where
      stream : List ℕ
      stream = answers peer (requests_of config worker)

      start : u64 (worker * 2 ^ 48) ≡ worker * 2 ^ 48 + 0
      start = omega (arith, small)

      no_bytes : 0 ≡ u64 (0 * config.payload_size)
      no_bytes = omega arith

-- A worker in the echo mode, of a number below 2 ^ 16 and with 1 to 2 ^ 48 - 1 requests, that is not
-- stopped and can read its own address, and a server that sees it at an IP address and whose maximum its
-- payload fits: the server answers all of the worker's requests, without an error; and on these answers the
-- worker sends these requests, and ends without an error, with an operation and a latency for each request,
-- the bytes of their payloads sent and received, and the path, if it was asked for, that the server's view
-- of the client gives.
pub echo_exchange :
    (config : EchoConfig) (server : ServerConfig) (local : String) (worker fuel : ℕ)
    → Agreed config server local
    → worker < 2 ^ 16
    → (peer : List ℕ) × (encode_endpoint server.remote ≡ ok peer)
      × (run_echo config worker (conn (answers peer (requests_of config worker)) eof [])
          ≡ some (
            none,
            behind config
                (worker * 2 ^ 48)
                peer
                (canonical server.remote)
                local
                config.requests
                []
                (requests_stream (requests_of config worker)),
          ))
      × (serve_connection fuel server (conn (requests_stream (requests_of config worker)) eof [])
          ≡ some (none, conn [] eof (answers peer (requests_of config worker))))
echo_exchange config server local worker fuel a small =
    let (peer, encoded, size, known) =
      decode-encode_endpoint server.remote a.remote_ip a.remote_port in
    (
      peer,
      encoded,
      run_echo_lem config server local a worker small peer (canonical server.remote) size known,
      serve_connection-answers server peer encoded fuel (requests_of config worker) (
          requests-Accepted config server local a (worker * 2 ^ 48) 0 config.requests
            (omega (arith, fits config server local a worker small))),
    )
