-- ===== src/Wire.antt =====
-- Bytes as internal/workload/tcp, internal/workload/udp and internal/protocol/endpoint.go lay them
-- out: the big-endian integers of encoding/binary and the IEEE checksum of hash/crc32, which are
-- Go's standard library, and a connection's stream of bytes.
pub mod BigEndian
use sing_box_inbound_bench.Base.{
  ℕ, zero, suc, ◌/◌, ◌%◌, ◌^◌, ◌<◌, bit_xor, List, [], ◌∷◌, Bool, ◌==◌, if◌then◌else◌, leb, length,
  take, drop, u32, ◌≡◌, refl, arith, String, ◌++◌, true, ◌∙◌, subst, if-true, length-append,
  take-append, drop-append, length-drop, ◌+◌,
}

-- One bit of the reflected polynomial division.
crc_bit : ℕ → ℕ
crc_bit c = if c % 2 == 1 then bit_xor (c / 2) 0xedb88320 else c / 2

crc_bits : ℕ → ℕ → ℕ
crc_bits zero c = c
crc_bits (suc k) c = crc_bits k (crc_bit c)

crc_bytes : List ℕ → ℕ → ℕ
crc_bytes [] c = c
crc_bytes (b ∷ bs) c = crc_bytes bs (crc_bits 8 (bit_xor c b))

-- `crc32.ChecksumIEEE`
unfoldable pub crc32 : List ℕ → ℕ
unfolding crc_bytes crc_bits crc_bit
crc32 bs = u32 (bit_xor (crc_bytes bs 0xffffffff) 0xffffffff)

pub crc32-lt : (bs : List ℕ) → crc32 bs < 2 ^ 32
unfolding crc32
crc32-lt bs = omega arith

-- The check value of the algorithm, over the digits 1 to 9.
crc32_check : crc32 (0x31 ∷ 0x32 ∷ 0x33 ∷ 0x34 ∷ 0x35 ∷ 0x36 ∷ 0x37 ∷ 0x38 ∷ 0x39 ∷ []) ≡ 0xcbf43926
unfolding crc32
crc32_check = refl

pub data Error : Type 0 where
  eof unexpected_eof : Error
  -- an error of the network, and whether it is a timeout
  transport : Bool → Error
  -- an error that the program makes, by words for its text
  refused : String → Error

pub data Result {ℓ} (A : Type ℓ) : Type ℓ where
  ok : A → Result A
  err : Error → Result A

-- What a connection will still deliver, and how its stream ends.
pub record Stream : Type 0 where
  pub bytes : List ℕ
  pub at_end : Error

-- A short read is unexpected if some bytes came before the orderly end.
abbrev pub short_read : List ℕ → Error → Error
short_read [] e = e
short_read (b ∷ bs) eof = unexpected_eof
short_read (b ∷ bs) e = e

-- `io.ReadFull` of `n` bytes: the bytes, and what is left of the stream.
unfoldable pub read_full : ℕ → Stream → Result (List ℕ × Stream)
read_full n s =
    if leb n (length s.bytes)
    then ok (take n s.bytes, record s { bytes = drop n s.bytes })
    else err (short_read s.bytes s.at_end)

-- A read of the exact length of a prefix takes that prefix.
pub read_full-append :
    (n : ℕ) (xs rest : List ℕ) (e : Error)
    → length xs ≡ n
    → read_full n (record { bytes = xs ++ rest; at_end = e })
      ≡ ok (xs, record { bytes = rest; at_end = e })
unfolding read_full
read_full-append n xs rest e h =
    subst (λ k. read_full k s ≡ ok (xs, record { bytes = rest; at_end = e })) h exact
  where
    s : Stream
    s = record { bytes = xs ++ rest; at_end = e }

    enough : leb (length xs) (length (xs ++ rest)) ≡ true
    enough = ground (arith, length-append xs rest)

    exact : read_full (length xs) s ≡ ok (xs, record { bytes = rest; at_end = e })
    exact =
        if-true (leb (length xs) (length (xs ++ rest))) _ _ enough
        ∙ (λ i. ok (take-append xs rest i, record { bytes = drop-append xs rest i; at_end = e }))

-- A read takes as many bytes as it was asked for.
pub read_full-length :
    (n : ℕ) (s t : Stream) (bs : List ℕ)
    → read_full n s ≡ ok (bs, t)
    → length t.bytes + n ≡ length s.bytes
unfolding read_full
read_full-length n s t bs h = ground (arith, length-drop n s.bytes)
