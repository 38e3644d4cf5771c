-- ===== src/Tcp/Upload.antt =====
-- The upload of internal/workload/tcp/tcp.go: the server's serveUpload and the client's runUpload.
-- Deadlines, and the buffers between a write and the network, are left out. A worker's clock and
-- its context are the parameter `stop`, asked once a round.
pub mod Server
pub mod Client
pub mod Rounds
pub mod Sound
use sing_box_inbound_bench.Base.{
  ℕ, zero, suc, ◌+◌, ◌/◌, ◌%◌, ◌^◌, List, [], ◌∷◌, ◌++◌, Bool, true, false, not, ◌&&◌, ◌||◌, ◌==◌,
  if◌then◌else◌, ltb, leb, length, u64, u32, Option, none, some,
}
use sing_box_inbound_bench.Wire.{
  Error, transport, refused, Result, ok, err, Stream, read_full, crc32,
}
use sing_box_inbound_bench.Tcp.{
  FrameHeader, write_header, read_header, op_upload, op_upload_data, op_upload_done, flag_response,
}

-- One end of a connection: what it will read, what it has sent, and how many more writes succeed,
-- where `none` is no limit.
pub record Conn : Type 0 where
  pub input : Stream
  pub output : List ℕ
  pub breaks_after : Option ℕ

abbrev pub spend : Option ℕ → Option ℕ
spend none = none
spend (some zero) = some 0
spend (some (suc n)) = some n

abbrev pub is_broken : Option ℕ → Bool
is_broken none = false
is_broken (some zero) = true
is_broken (some (suc n)) = false

-- A write that the network takes or refuses as a whole.
unfoldable pub send : List ℕ → Conn → Option Error × Conn
send bytes c =
    if is_broken c.breaks_after
    then (some (transport false), c)
    else (none, record c { output = c.output ++ bytes; breaks_after = spend c.breaks_after })

abbrev pub upload_ack_window_bytes : ℕ
upload_ack_window_bytes = 2 ^ 20

unfoldable pub upload_ack_interval : ℕ → ℕ
upload_ack_interval payload_bytes =
    if leb payload_bytes 0 || leb upload_ack_window_bytes payload_bytes
    then 1
    else upload_ack_window_bytes / payload_bytes

unfoldable pub acknowledgement : ℕ → FrameHeader
acknowledgement completed = record {
  operation = op_upload;
  flags = flag_response;
  length = 0;
  sequence = completed;
  checksum = 0;
}

pub write_upload_acknowledgement : ℕ → Conn → Option Error × Conn
write_upload_acknowledgement completed = send (write_header (acknowledgement completed))

-- The three frames that a client sends, for its payload block.
abbrev pub control_frame : List ℕ → ℕ → FrameHeader
control_frame payload requested = record {
  operation = op_upload;
  flags = 0;
  length = length payload;
  sequence = requested;
  checksum = crc32 payload;
}

abbrev pub data_frame : List ℕ → ℕ → FrameHeader
data_frame payload sequence = record {
  operation = op_upload_data;
  flags = 0;
  length = length payload;
  sequence = sequence;
  checksum = crc32 payload;
}

abbrev pub done_frame : ℕ → FrameHeader
done_frame completed = record {
  operation = op_upload_done;
  flags = 0;
  length = 0;
  sequence = completed;
  checksum = 0;
}

-- A round of a loop: the function returns, with its error, or goes on with its counter.
pub data Round : Type 0 where
  returns : Option Error × Conn → Round
  goes_on : ℕ → Conn → Round

abbrev refuse : Error → Conn → Round
refuse e c = returns (some e, c)

finish_upload : FrameHeader → ℕ → FrameHeader → Conn → Round
finish_upload control completed frame c =
    if not (frame.flags == 0) || not (frame.length == 0) || not (frame.sequence == completed)
    then refuse (refused "upload finish frame mismatch") c
    else if not (control.sequence == 0) && not (completed == control.sequence)
    then refuse (refused "upload finished early") c
    else returns (write_upload_acknowledgement completed c)

abbrev acknowledged : ℕ → Option Error × Conn → Round
acknowledged completed (none, c) = goes_on completed c
acknowledged completed (some e, c) = returns (some e, c)

count_block : ℕ → ℕ → Conn → Round
count_block ack_interval completed c =
    if completed % ack_interval == 0
    then acknowledged completed (write_upload_acknowledgement completed c)
    else goes_on completed c

take_payload : FrameHeader → ℕ → FrameHeader → Conn → Result (List ℕ × Stream) → Round
take_payload control completed frame c (err e) = refuse e c
take_payload control completed frame c (ok (payload, input)) =
    let c' = record c { input = input } in
    if not (crc32 payload == frame.checksum)
    then refuse (refused "upload payload checksum mismatch") c'
    else count_block (upload_ack_interval control.length) (u64 (completed + 1)) c'

take_data : FrameHeader → ℕ → FrameHeader → Conn → Round
take_data control completed frame c =
    if not (frame.operation == op_upload_data)
      || not (frame.flags == 0)
      || not (frame.length == control.length)
      || not (frame.sequence == u64 (completed + 1))
      || not (frame.checksum == control.checksum)
    then refuse (refused "upload data frame mismatch") c
    else if not (control.sequence == 0) && ltb control.sequence frame.sequence
    then refuse (refused "upload exceeded requested block count") c
    else take_payload control completed frame c (read_full control.length c.input)

take_frame : FrameHeader → ℕ → Conn → Result (FrameHeader × Stream) → Round
take_frame control completed c (err e) = refuse e c
take_frame control completed c (ok (frame, input)) =
    let c' = record c { input = input } in
    if frame.operation == op_upload_done
    then finish_upload control completed frame c'
    else take_data control completed frame c'

-- The body of the server's loop.
pub serve_round : FrameHeader → ℕ → Conn → Round
serve_round control completed c = take_frame control completed c (read_header c.input)

abbrev pub resume : (ℕ → Conn → Option (Option Error × Conn)) → Round → Option (Option Error × Conn)
resume next (returns r) = some r
resume next (goes_on completed c) = next completed c

-- The loop, where `none` is the end of the fuel.
pub serve_blocks : ℕ → FrameHeader → ℕ → Conn → Option (Option Error × Conn)
serve_blocks zero control completed c = none
serve_blocks (suc fuel) control completed c =
    resume (serve_blocks fuel control) (serve_round control completed c)

-- A round that goes on has taken a header, so there are fewer rounds than bytes.
pub serve_upload : FrameHeader → Conn → Option (Option Error × Conn)
serve_upload control c = serve_blocks (suc (length c.input.bytes)) control 0 c
