-- ===== src/Udp/Server.antt =====
-- internal/workload/udp/udp.go: the server's answer to a datagram, in the loop of `Serve`.
use sing_box_inbound_bench.Base.{
  ℕ, ◌+◌, ◌^◌, ◌<◌, bit_and, bit_or, List, ◌++◌, not, ◌==◌, if◌then◌else◌, take, drop, set, Option,
  none, some, ◌≡◌, ap, ◌∙◌, arith,
}
use sing_box_inbound_bench.Wire.{Error, Result, ok, err, crc32}
use sing_box_inbound_bench.Wire.BigEndian.{put32, byte_at}
use sing_box_inbound_bench.Protocol.Endpoint.{Endpoint, encode_endpoint}
use sing_box_inbound_bench.Udp.{
  Header, header_size, flag_response, flag_proof, payload_from, sealed, build, parse,
}
use sing_box_inbound_bench.Udp.Packets.{IsHeader, parse-sealed}

-- A datagram is dropped, or answered with a packet, or ends the server.
pub data Reply : Type 0 where
  ignored : Reply
  replied : List ℕ → Reply
  failed : Error → Reply

-- `binary.BigEndian.PutUint32(packet[i:i+4], v)`
abbrev pub write32 : ℕ → ℕ → List ℕ → List ℕ
write32 i v packet = take i packet ++ put32 v (drop (i + 4) packet)

-- `packet[5] |= flagResponse`
abbrev pub mark_response : List ℕ → List ℕ
mark_response packet = set packet 5 (bit_or (byte_at packet 5) flag_response)

abbrev pub seal_header : List ℕ → List ℕ
seal_header packet = write32 36 (crc32 (take 36 packet)) packet

abbrev pub seal_payload : List ℕ → List ℕ
seal_payload packet = write32 32 (crc32 (drop header_size packet)) packet

unfoldable pub answer_proof : List ℕ → Result (List ℕ) → Reply
answer_proof packet (err e) = failed e
answer_proof packet (ok observed) =
    replied (seal_header (seal_payload (mark_response (packet ++ observed))))

unfoldable pub answer : Endpoint → List ℕ → Option Header → Reply
answer address packet none = ignored
answer address packet (some h) =
    if not (bit_and h.flags flag_response == 0)
    then ignored
    else if not (bit_and h.flags flag_proof == 0)
    then answer_proof packet (encode_endpoint address)
    else replied (seal_header (mark_response packet))

unfoldable pub serve_packet : Endpoint → List ℕ → Reply
serve_packet address packet = answer address packet (parse packet)

-- The header with other flags, and the checksum of the payload.
abbrev pub with_flags : ℕ → Header → List ℕ → Header
with_flags flags h payload = record h { flags = flags; checksum = crc32 payload }

IsHeader-flags :
    (flags : ℕ) (h : Header) → IsHeader h → flags < 2 ^ 8 → IsHeader (record h { flags = flags })
IsHeader-flags flags h v small = record {
  flags_u8 = small;
  run_u32 = v.run_u32;
  flow_u32 = v.flow_u32;
  sequence_u64 = v.sequence_u64;
  sent_ns_u64 = v.sent_ns_u64;
}

answer-plain :
    (address : Endpoint) (h : Header) (payload : List ℕ)
    → IsHeader h
    → serve_packet address (sealed (record h { flags = 0 }) payload)
      ≡ replied (sealed (record h { flags = 1 }) payload)
unfolding serve_packet answer
answer-plain address h payload v =
    ap (answer address (sealed (record h { flags = 0 }) payload))
      (parse-sealed (record h { flags = 0 }) payload (IsHeader-flags 0 h v (omega arith)))

answer-proof :
    (address : Endpoint) (h : Header) (payload observed : List ℕ)
    → IsHeader h
    → encode_endpoint address ≡ ok observed
    → serve_packet address (sealed (record h { flags = 2 }) payload)
      ≡ replied (sealed (record h { flags = 3 }) (payload ++ observed))
unfolding serve_packet answer answer_proof
answer-proof address h payload observed v e =
    ap (answer address (sealed (record h { flags = 2 }) payload))
      (parse-sealed (record h { flags = 2 }) payload (IsHeader-flags 2 h v (omega arith)))
    ∙ ap (answer_proof (sealed (record h { flags = 2 }) payload)) e

answer-response :
    (address : Endpoint) (h : Header) (payload : List ℕ)
    → IsHeader h
    → serve_packet address (sealed (record h { flags = 1 }) payload) ≡ ignored
unfolding serve_packet answer
answer-response address h payload v =
    ap (answer address (sealed (record h { flags = 1 }) payload))
      (parse-sealed (record h { flags = 1 }) payload (IsHeader-flags 1 h v (omega arith)))

answer-proof_response :
    (address : Endpoint) (h : Header) (payload : List ℕ)
    → IsHeader h
    → serve_packet address (sealed (record h { flags = 3 }) payload) ≡ ignored
unfolding serve_packet answer
answer-proof_response address h payload v =
    ap (answer address (sealed (record h { flags = 3 }) payload))
      (parse-sealed (record h { flags = 3 }) payload (IsHeader-flags 3 h v (omega arith)))

-- What an answer to a request with the header `h` holds: it is parsed as the header of the request
-- with the flags of an answer and this payload, and the server drops it where it comes back.
abbrev pub Answers : Endpoint → List ℕ → Header → ℕ → List ℕ → Type 0
Answers address request h flags payload =
    (reply : List ℕ) × (serve_packet address request ≡ replied reply)
    × (parse reply ≡ some (with_flags flags h payload))
    × (serve_packet address reply ≡ ignored)

-- The server answers a plain request that the client built with its own payload, and a request for a
-- proof with the payload and the sender's endpoint in its encoding; the answer is parsed as the
-- request's header with the flags of an answer, and the server never answers an answer. The header's
-- fields fit their widths, and the sender's endpoint can be encoded.
pub serve_packet-Answers :
    (n : ℕ) (h : Header) (address : Endpoint) (observed : List ℕ)
    → IsHeader h
    → encode_endpoint address ≡ ok observed
    → let payload = payload_from h.sequence header_size n in
      Answers address (build n (record h { flags = 0 })) h 1 payload
      × Answers address (build n (record h { flags = 2 })) h 3 (payload ++ observed)
unfolding build
serve_packet-Answers n h address observed v e =
    let payload = payload_from h.sequence header_size n in
    (
      (
        _,
        answer-plain address h payload v,
        parse-sealed (record h { flags = 1 }) payload (IsHeader-flags 1 h v (omega arith)),
        answer-response address h payload v,
      ),
      (
        _,
        answer-proof address h payload observed v e,
        parse-sealed (record h { flags = 3 }) (payload ++ observed)
            (IsHeader-flags 3 h v (omega arith)),
        answer-proof_response address h (payload ++ observed) v,
      ),
    )
