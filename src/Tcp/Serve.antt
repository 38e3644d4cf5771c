-- ===== src/Tcp/Serve.antt =====
-- serveConnection of internal/workload/tcp/tcp.go, with its loop over the frames of the echo mode. As in
-- the other loops, deadlines are left out; an answer is sent when it is flushed.
pub mod Conversation
pub mod Requests
pub mod Rounds
pub mod Exchange
mod Tests
use sing_box_inbound_bench.Base.{
  ℕ, zero, suc, List, [], ◌++◌, Bool, not, ◌||◌, ◌==◌, ltb, if◌then◌else◌, length, u32, bit_or,
  bit_and, Option, none, some,
}
use sing_box_inbound_bench.Wire.{
  Error, eof, unexpected_eof, transport, refused, Result, ok, err, Stream, read_full, crc32,
}
use sing_box_inbound_bench.Protocol.Endpoint.{Endpoint, encode_endpoint}
use sing_box_inbound_bench.Tcp.{
  FrameHeader, write_header, read_header, op_echo, op_short, op_upload, op_download, flag_response,
  flag_proof,
}
use sing_box_inbound_bench.Tcp.Upload.{Conn, send, serve_upload}
use sing_box_inbound_bench.Tcp.Download.{serve_download}

-- The server's maximum, the remote address of the connection, and which errors are net.ErrClosed.
pub record ServerConfig : Type 0 where
  pub max_payload : ℕ
  pub remote : Endpoint
  pub closed : Error → Bool

abbrev pub Served : Type 0
Served = Option Error × Conn

-- A round of the loop: the function returns, or goes on with the header of the next frame.
pub data Serving : Type 0 where
  closing : Served → Serving
  serving : FrameHeader → Conn → Serving

unfoldable pub response_header : FrameHeader → FrameHeader
response_header h = record h { flags = bit_or h.flags flag_response }

abbrev pub before_payload : List ℕ → Result (List ℕ) → Result (List ℕ)
before_payload payload (err e) = err e
before_payload payload (ok observed) = ok (observed ++ payload)

-- The endpoint that the server has seen, where the request asks for it.
unfoldable pub observed_peer : ServerConfig → FrameHeader → Result (List ℕ)
observed_peer config h =
    if not (bit_and h.flags flag_proof == 0) then encode_endpoint config.remote else ok []

-- An error of a read ends the connection, and is none at the end of the stream.
abbrev pub end_of_frames : Error → Option Error
end_of_frames eof = none
end_of_frames unexpected_eof = some unexpected_eof
end_of_frames (transport timeout) = some (transport timeout)
end_of_frames (refused text) = some (refused text)

unfoldable pub next_frame : ServerConfig → Conn → Result (FrameHeader × Stream) → Serving
next_frame config c (err e) = closing (end_of_frames e, c)
next_frame config c (ok (h, input)) =
    if not (h.operation == op_echo) || ltb (u32 config.max_payload) h.length
    then closing (some (refused "unexpected frame on echo connection"), record c { input = input })
    else serving h (record c { input = input })

unfoldable pub flushed : ServerConfig → FrameHeader → Served → Serving
flushed config h (some e, c) = closing (some e, c)
flushed config h (none, c) =
    if h.operation == op_short then closing (none, c) else next_frame config c (read_header c.input)

unfoldable pub send_answer : ServerConfig → FrameHeader → Conn → Result (List ℕ) → Serving
send_answer config h c (err e) = closing (some e, c)
send_answer config h c (ok bytes) =
    flushed config h (send (write_header (response_header h) ++ bytes) c)

unfoldable pub answer_request :
    ServerConfig → FrameHeader → Conn → Result (List ℕ × Stream) → Serving
answer_request config h c (err e) = closing (some e, c)
answer_request config h c (ok (payload, input)) =
    if not (crc32 payload == h.checksum)
    then closing (some (refused "request checksum mismatch"), record c { input = input })
    else send_answer config h (record c { input = input })
        (before_payload payload (observed_peer config h))

abbrev pub after_serving : (FrameHeader → Conn → Option Served) → Serving → Option Served
after_serving next (closing r) = some r
after_serving next (serving h c) = next h c

-- The loop, where `none` is the end of the fuel.
unfoldable pub serve_echo : ℕ → ServerConfig → FrameHeader → Conn → Option Served
serve_echo zero config h c = none
serve_echo (suc fuel) config h c =
    after_serving (serve_echo fuel config) (answer_request config h c (read_full h.length c.input))

-- The fuel of the loops is enough for the frames of the stream, and `fuel` is that of a download.
unfoldable pub serve_frame : ℕ → ServerConfig → FrameHeader → Conn → Option Served
serve_frame fuel config h c =
    if ltb (u32 config.max_payload) h.length
    then some (some (refused "payload exceeds server maximum"), c)
    else if h.operation == op_upload
    then serve_upload h c
    else if h.operation == op_download
    then serve_download config.closed fuel h c
    else if (h.operation == op_echo) || (h.operation == op_short)
    then serve_echo (suc (length c.input.bytes)) config h c
    else some (some (refused "unsupported TCP operation"), c)

abbrev pub first_frame : ℕ → ServerConfig → Conn → Result (FrameHeader × Stream) → Option Served
first_frame fuel config c (err e) = some (end_of_frames e, c)
first_frame fuel config c (ok (h, input)) = serve_frame fuel config h (record c { input = input })

unfoldable pub serve_connection : ℕ → ServerConfig → Conn → Option Served
serve_connection fuel config c = first_frame fuel config c (read_header c.input)
