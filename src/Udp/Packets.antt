-- ===== src/Udp/Packets.antt =====
-- internal/workload/udp/udp.go: a packet that is built is parsed again.
use sing_box_inbound_bench.Base.{
  ℕ, ◌%◌, ◌^◌, ◌<◌, List, ◌||◌, not, ◌==◌, ltb, length, if-false, false, some, ◌≡◌, ◌∙◌, arith,
}
use sing_box_inbound_bench.Wire.{crc32, crc32-lt}
use sing_box_inbound_bench.Wire.BigEndian.{got32, got32_eq, got64_eq}
use sing_box_inbound_bench.Udp.{Header, header_size, payload_from, head, sealed, build, parse}

-- The fields fit the widths of the struct.
pub record IsHeader (h : Header) : Type 0 where
  pub flags_u8 : h.flags < 2 ^ 8
  pub run_u32 : h.run < 2 ^ 32
  pub flow_u32 : h.flow < 2 ^ 32
  pub sequence_u64 : h.sequence < 2 ^ 64
  pub sent_ns_u64 : h.sent_ns < 2 ^ 64

pub parse-sealed :
    (h : Header) (payload : List ℕ)
    → IsHeader h
    → parse (sealed h payload) ≡ some (record h { checksum = crc32 payload })
unfolding parse
parse-sealed h payload v = if-false _ _ _ long_enough ∙ if-false _ _ _ intact ∙ (λ i. some (record {
  flags = low_byte i;
  run = got32_eq h.run v.run_u32 i;
  flow = got32_eq h.flow v.flow_u32 i;
  sequence = got64_eq h.sequence v.sequence_u64 i;
  sent_ns = got64_eq h.sent_ns v.sent_ns_u64 i;
  checksum = got32_eq (crc32 payload) (crc32-lt payload) i;
}))
  where
    low_byte : h.flags % 256 ≡ h.flags
    low_byte = ground (arith, v.flags_u8)

    long_enough : (ltb (length (sealed h payload)) 40 || false || false || false) ≡ false
    long_enough = ground arith

    intact :
        (not (crc32 (head h payload) == got32 (crc32 (head h payload)))
          || not (crc32 payload == got32 (crc32 payload)))
        ≡ false
    intact = ground (
      arith,
      got32_eq (crc32 (head h payload)) (crc32-lt (head h payload)),
      got32_eq (crc32 payload) (crc32-lt payload),
    )

-- A packet that is built is parsed as the header that it was built from, with the checksum of its
-- payload, where the header's fields fit their widths.
pub parse-build :
    (n : ℕ) (h : Header)
    → IsHeader h
    → parse (build n h)
      ≡ some (record h { checksum = crc32 (payload_from h.sequence header_size n) })
unfolding build
parse-build n h v = parse-sealed h (payload_from h.sequence header_size n) v
