-- ===== src/Tcp.antt =====
-- internal/workload/tcp/tcp.go: the frames of the TCP workload, and its modes.
pub mod Frames
pub mod Upload
pub mod Download
pub mod Echo
pub mod Short
pub mod Serve
mod Tests
use sing_box_inbound_bench.Base.{
  ℕ, ◌%◌, ◌/◌, ◌^◌, List, [], ◌∷◌, Bool, not, ◌||◌, ◌==◌, if◌then◌else◌,
}
use sing_box_inbound_bench.Wire.{Error, refused, Result, ok, err, Stream, read_full}
use sing_box_inbound_bench.Wire.BigEndian.{put16, put32, put64, byte_at, u16_at, u32_at, u64_at}

abbrev pub frame_magic : ℕ
frame_magic = 0x53424942

abbrev pub frame_version : ℕ
frame_version = 4

abbrev pub header_size : ℕ
header_size = 24

abbrev pub op_echo : ℕ
op_echo = 1

abbrev pub op_upload : ℕ
op_upload = 2

abbrev pub op_download : ℕ
op_download = 3

abbrev pub op_short : ℕ
op_short = 4

abbrev pub op_upload_data : ℕ
op_upload_data = 5

abbrev pub op_upload_done : ℕ
op_upload_done = 6

abbrev pub flag_response : ℕ
flag_response = 1

abbrev pub flag_proof : ℕ
flag_proof = 2

pub record FrameHeader : Type 0 where
  pub operation : ℕ  -- uint8
  pub flags : ℕ  -- uint16
  pub length : ℕ  -- uint32
  pub sequence : ℕ  -- uint64
  pub checksum : ℕ  -- uint32

-- The 24 bytes of the header.
unfoldable pub write_header : FrameHeader → List ℕ
write_header h = put32 frame_magic (
    (frame_version % 256)
    ∷ (h.operation % 256)
    ∷ put16 h.flags (put32 h.length (put64 h.sequence (put32 h.checksum []))))

-- The tests and the fields of a buffer of 24 bytes.
unfoldable pub parse_header : List ℕ → Result FrameHeader
parse_header buffer =
    if not (u32_at buffer 0 == frame_magic) || not (byte_at buffer 4 == frame_version)
    then err (refused "invalid TCP benchmark frame")
    else ok (record {
      operation = byte_at buffer 5;
      flags = u16_at buffer 6;
      length = u32_at buffer 8;
      sequence = u64_at buffer 12;
      checksum = u32_at buffer 20;
    })

abbrev pub with_rest : Result FrameHeader → Stream → Result (FrameHeader × Stream)
with_rest (ok h) s = ok (h, s)
with_rest (err e) s = err e

abbrev pub parse_read : Result (List ℕ × Stream) → Result (FrameHeader × Stream)
parse_read (ok (buffer, s)) = with_rest (parse_header buffer) s
parse_read (err e) = err e

unfoldable pub read_header : Stream → Result (FrameHeader × Stream)
read_header s = parse_read (read_full header_size s)
