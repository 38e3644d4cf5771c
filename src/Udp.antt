-- ===== src/Udp.antt =====
-- internal/workload/udp/udp.go: the packets of the UDP workload, `build` and `parse`. A time stamp is
-- the number that its 64 bits stand for without a sign.
pub mod Packets
pub mod Server
pub mod Echo
pub mod Schedule
pub mod Receive
mod Tests
use sing_box_inbound_bench.Base.{
  ℕ, zero, suc, ◌+◌, ◌*◌, ◌%◌, List, [], ◌∷◌, ◌++◌, Bool, not, ◌||◌, ◌==◌, if◌then◌else◌, ltb,
  length, take, drop, u64, Option, none, some,
}
use sing_box_inbound_bench.Wire.{crc32}
use sing_box_inbound_bench.Wire.BigEndian.{put16, put32, put64, byte_at, u16_at, u32_at, u64_at}

abbrev pub packet_magic : ℕ
packet_magic = 0x53424955

abbrev pub packet_version : ℕ
packet_version = 2

abbrev pub header_size : ℕ
header_size = 40

abbrev pub flag_response : ℕ
flag_response = 1

abbrev pub flag_proof : ℕ
flag_proof = 2

pub record Header : Type 0 where
  pub flags : ℕ  -- uint8
  pub run : ℕ  -- uint32
  pub flow : ℕ  -- uint32
  pub sequence : ℕ  -- uint64
  pub sent_ns : ℕ  -- int64
  pub checksum : ℕ  -- uint32

-- The payload bytes from `index` on, which `build` derives from the sequence.
unfoldable pub payload_from : ℕ → ℕ → ℕ → List ℕ
payload_from sequence index zero = []
payload_from sequence index (suc n) =
    (u64 (u64 (sequence * 0x9e3779b97f4a7c15) + index) % 256) ∷ payload_from sequence (index + 1) n

-- The first 36 bytes of a packet with that payload.
abbrev pub head : Header → List ℕ → List ℕ
head h payload = put32 packet_magic (
    (packet_version % 256)
    ∷ (h.flags % 256)
    ∷ put16 header_size (
        put32 h.run (put32 h.flow (put64 h.sequence (put64 h.sent_ns (put32 (crc32 payload) []))))))

abbrev pub sealed : Header → List ℕ → List ℕ
sealed h payload = head h payload ++ put32 (crc32 (head h payload)) payload

-- A packet of `header_size + payload_bytes` bytes.
unfoldable pub build : ℕ → Header → List ℕ
build payload_bytes h = sealed h (payload_from h.sequence header_size payload_bytes)

unfoldable pub parse : List ℕ → Option Header
parse packet =
    if ltb (length packet) header_size
      || not (u32_at packet 0 == packet_magic)
      || not (byte_at packet 4 == packet_version)
      || not (u16_at packet 6 == header_size)
    then none
    else if not (crc32 (take 36 packet) == u32_at packet 36)
        || not (crc32 (drop header_size packet) == u32_at packet 32)
    then none
    else some (record {
      flags = byte_at packet 5;
      run = u32_at packet 8;
      flow = u32_at packet 12;
      sequence = u64_at packet 16;
      sent_ns = u64_at packet 24;
      checksum = u32_at packet 32;
    })
