-- ===== src/Tcp/Frames.antt =====
-- The header of internal/workload/tcp/tcp.go, written and read again.
use sing_box_inbound_bench.Base.{ℕ, ◌%◌, ◌^◌, ◌<◌, List, ◌++◌, length, ◌≡◌, refl, ap, ◌∙◌, arith}
use sing_box_inbound_bench.Wire.{read_full-append, Error, ok}
use sing_box_inbound_bench.Wire.BigEndian.{got16_eq, got32_eq, got64_eq}
use sing_box_inbound_bench.Tcp.{
  FrameHeader, write_header, parse_header, with_rest, parse_read, read_header,
}

-- The fields fit the widths of the struct.
pub record IsHeader (h : FrameHeader) : Type 0 where
  pub operation_u8 : h.operation < 2 ^ 8
  pub flags_u16 : h.flags < 2 ^ 16
  pub length_u32 : h.length < 2 ^ 32
  pub sequence_u64 : h.sequence < 2 ^ 64
  pub checksum_u32 : h.checksum < 2 ^ 32

pub parse-write : (h : FrameHeader) → IsHeader h → parse_header (write_header h) ≡ ok h
unfolding write_header parse_header
parse-write h v = λ i. ok (record {
  operation = low_byte i;
  flags = got16_eq h.flags v.flags_u16 i;
  length = got32_eq h.length v.length_u32 i;
  sequence = got64_eq h.sequence v.sequence_u64 i;
  checksum = got32_eq h.checksum v.checksum_u32 i;
})
  where
    low_byte : h.operation % 256 ≡ h.operation
    low_byte = omega arith

pub length-write : (h : FrameHeader) → length (write_header h) ≡ 24
unfolding write_header
length-write h = refl

-- A read of a header takes the 24 bytes that the writer put before the rest of the stream.
pub read-write :
    (h : FrameHeader) (rest : List ℕ) (e : Error)
    → IsHeader h
    → read_header (record { bytes = write_header h ++ rest; at_end = e })
      ≡ ok (h, record { bytes = rest; at_end = e })
unfolding read_header
read-write h rest e v =
    ap parse_read (read_full-append 24 (write_header h) rest e (length-write h))
    ∙ ap (λ r. with_rest r (record { bytes = rest; at_end = e })) (parse-write h v)
