-- ===== src/Tcp/Serve/Conversation.antt =====
-- A conversation with serveConnection of internal/workload/tcp/tcp.go in the echo mode.
use mathlib.Core.List.{append_assoc, append-nil}
use sing_box_inbound_bench.Base.{
  ℕ, zero, suc, ◌≤◌, ◌<◌, List, [], ◌∷◌, ◌++◌, Bool, true, false, not, ◌||◌, ◌==◌, ltb, if-true,
  if-false, if◌then◌else◌, length, u32, bit_and, none, some, ◌≡◌, refl, ap, sym, ◌∙◌, arith,
  length-append, All,
}
use sing_box_inbound_bench.Wire.{eof, ok, read_full, read_full-append, crc32}
use sing_box_inbound_bench.Protocol.Endpoint.{encode_endpoint}
use sing_box_inbound_bench.Tcp.{
  FrameHeader, write_header, read_header, op_echo, op_short, op_upload, op_download, flag_proof,
}
use sing_box_inbound_bench.Tcp.Frames.{IsHeader, read-write, length-write}
use sing_box_inbound_bench.Tcp.Upload.{send}
use sing_box_inbound_bench.Tcp.Upload.Server.{conn}
use sing_box_inbound_bench.Tcp.Serve.{
  ServerConfig, response_header, before_payload, observed_peer, next_frame, flushed, send_answer,
  answer_request, after_serving, serve_echo, serve_frame, first_frame, serve_connection,
}

-- A request, with its payload.
pub record EchoRequest : Type 0 where
  pub header : FrameHeader
  pub payload : List ℕ

-- A request that the server accepts.
pub record Accepted (config : ServerConfig) (r : EchoRequest) : Type 0 where
  pub header_ok : IsHeader r.header
  pub is_echo : r.header.operation ≡ op_echo
  pub exact : length r.payload ≡ r.header.length
  pub intact : crc32 r.payload ≡ r.header.checksum
  pub bounded : r.header.length ≤ u32 config.max_payload

unfoldable pub requests_stream : List EchoRequest → List ℕ
requests_stream [] = []
requests_stream (r ∷ rs) = write_header r.header ++ (r.payload ++ requests_stream rs)

-- The endpoint that the server has seen, for a request that asks for a proof.
abbrev pub seen : List ℕ → FrameHeader → List ℕ
seen peer h = if not (bit_and h.flags flag_proof == 0) then peer else []

-- The request again, with the flag of a response, and the peer in front of its payload.
unfoldable pub answer_of : List ℕ → EchoRequest → List ℕ
answer_of peer r = write_header (response_header r.header) ++ (seen peer r.header ++ r.payload)

unfoldable pub answers : List ℕ → List EchoRequest → List ℕ
answers peer [] = []
answers peer (r ∷ rs) = answer_of peer r ++ answers peer rs

count_stream : (rs : List EchoRequest) → length rs ≤ length (requests_stream rs)
unfolding requests_stream
count_stream [] = omega arith
count_stream (r ∷ rs) =
    let less = count_stream rs in longer (write_header r.header) (length-write r.header) less
  where
    longer :
        (w : List ℕ)
        → length w ≡ 24
        → length rs ≤ length (requests_stream rs)
        → suc (length rs) ≤ length (w ++ (r.payload ++ requests_stream rs))
    longer w h less = ground (
      arith,
      length-append w (r.payload ++ requests_stream rs),
      length-append r.payload (requests_stream rs),
    )

module _ (config : ServerConfig) (peer : List ℕ)
    (known : encode_endpoint config.remote ≡ ok peer) where
  observed : (h : FrameHeader) → observed_peer config h ≡ ok (seen peer h)
  unfolding observed_peer
  observed h = by_flag (not (bit_and h.flags flag_proof == 0))
    where
      by_flag :
          (b : Bool)
          → (if b then encode_endpoint config.remote else ok []) ≡ ok (if b then peer else [])
      by_flag true = known
      by_flag false = refl

  answer_request_lem :
      (r : EchoRequest) (rest out : List ℕ)
      → Accepted config r
      → answer_request config r.header
          (conn (r.payload ++ rest) eof out)
          (ok (r.payload, record { bytes = rest; at_end = eof }))
        ≡ next_frame config
            (conn rest eof (out ++ answer_of peer r))
            (read_header (record { bytes = rest; at_end = eof }))
  unfolding answer_request send_answer flushed send answer_of
  answer_request_lem r rest out v =
      if-false _ _ _ same
      ∙ ap (λ p. send_answer config r.header (conn rest eof out) (before_payload r.payload p))
          (observed r.header)
      ∙ if-false _ _ _ long
    where
      same : not (crc32 r.payload == r.header.checksum) ≡ false
      same = let e = v.intact in ground arith

      long : (r.header.operation == op_short) ≡ false
      long = let e = v.is_echo in ground arith

  -- The frame of a request is taken by the loop, and by the switch.
  taken :
      (r : EchoRequest)
      → Accepted config r
      → (not (r.header.operation == op_echo) || ltb (u32 config.max_payload) r.header.length)
        ≡ false
  taken r v = let e = v.is_echo in let l = v.bounded in ground arith

  serve_echo_step :
      (fuel : ℕ) (r : EchoRequest) (rest out : List ℕ)
      → Accepted config r
      → serve_echo (suc fuel) config r.header (conn (r.payload ++ rest) eof out)
        ≡ after_serving (serve_echo fuel config) (
            next_frame config
              (conn rest eof (out ++ answer_of peer r))
              (read_header (record { bytes = rest; at_end = eof })))
  unfolding serve_echo
  serve_echo_step fuel r rest out v =
      ap
        (λ p.
          after_serving (serve_echo fuel config)
            (answer_request config r.header (conn (r.payload ++ rest) eof out) p))
        (read_full-append r.header.length r.payload rest eof v.exact)
      ∙ ap (after_serving (serve_echo fuel config)) (answer_request_lem r rest out v)

  serve_echo_lem :
      (rs : List EchoRequest) (fuel : ℕ) (r : EchoRequest) (out : List ℕ)
      → Accepted config r
      → All (Accepted config) rs
      → length rs < fuel
      → serve_echo fuel config r.header (conn (r.payload ++ requests_stream rs) eof out)
        ≡ some (none, conn [] eof (out ++ answers peer (r ∷ rs)))
  unfolding requests_stream read_header read_full next_frame answers
  serve_echo_lem rs zero r out v vs h = ground (arith, h)
  serve_echo_lem [] (suc fuel) r out v vs h =
      serve_echo_step fuel r [] out v
      ∙ ap (λ xs. some (none, conn [] eof (out ++ xs))) (sym (append-nil (answer_of peer r)))
  serve_echo_lem (s ∷ rs) (suc fuel) r out v (w, ws) h =
      serve_echo_step fuel r (requests_stream (s ∷ rs)) out v
      ∙ ap
          (λ p.
            after_serving (serve_echo fuel config)
              (next_frame config (conn (requests_stream (s ∷ rs)) eof (out ++ answer_of peer r)) p))
          (read-write s.header (s.payload ++ requests_stream rs) eof w.header_ok)
      ∙ ap (after_serving (serve_echo fuel config)) (if-false _ _ _ (taken s w))
      ∙ serve_echo_lem rs fuel s (out ++ answer_of peer r) w ws (omega (arith, h))
      ∙ ap (λ xs. some (none, conn [] eof xs))
          (append_assoc out (answer_of peer r) (answers peer (s ∷ rs)))

  serve_frame_lem :
      (fuel : ℕ) (rs : List EchoRequest) (r : EchoRequest) (out : List ℕ)
      → Accepted config r
      → All (Accepted config) rs
      → serve_frame fuel config r.header (conn (r.payload ++ requests_stream rs) eof out)
        ≡ some (none, conn [] eof (out ++ answers peer (r ∷ rs)))
  unfolding serve_frame
  serve_frame_lem fuel rs r out v vs =
      if-false _ _ _ small
      ∙ if-false _ _ _ not_upload
      ∙ if-false _ _ _ not_download
      ∙ if-true _ _ _ echo
      ∙ serve_echo_lem rs (suc (length (r.payload ++ requests_stream rs))) r out v vs enough
    where
      is_echo : r.header.operation ≡ op_echo
      is_echo = v.is_echo

      bounded : r.header.length ≤ u32 config.max_payload
      bounded = v.bounded

      small : ltb (u32 config.max_payload) r.header.length ≡ false
      small = ground arith

      not_upload : (r.header.operation == op_upload) ≡ false
      not_upload = ground arith

      not_download : (r.header.operation == op_download) ≡ false
      not_download = ground arith

      echo : ((r.header.operation == op_echo) || (r.header.operation == op_short)) ≡ true
      echo = ground arith

      enough : length rs < suc (length (r.payload ++ requests_stream rs))
      enough = ground (arith, length-append r.payload (requests_stream rs), count_stream rs)

  -- A stream of requests of the echo mode, each with its payload and its checksum, in the server's maximum,
  -- is taken to its end without an error, and answered in order: each request comes back with the flag of
  -- a response, and where it asks for a proof with the endpoint of the client in front of its payload.
  pub serve_connection-answers :
      (fuel : ℕ) (rs : List EchoRequest)
      → All (Accepted config) rs
      → serve_connection fuel config (conn (requests_stream rs) eof [])
        ≡ some (none, conn [] eof (answers peer rs))
  unfolding serve_connection requests_stream answers read_header read_full
  serve_connection-answers fuel [] vs = refl
  serve_connection-answers fuel (r ∷ rs) (v, vs) =
      ap (first_frame fuel config (conn (requests_stream (r ∷ rs)) eof []))
        (read-write r.header (r.payload ++ requests_stream rs) eof v.header_ok)
      ∙ serve_frame_lem fuel rs r [] v vs
