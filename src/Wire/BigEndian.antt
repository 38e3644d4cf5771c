-- ===== src/Wire/BigEndian.antt =====
-- `binary.BigEndian`: PutUint16, PutUint32, PutUint64 and their inverses.
use sing_box_inbound_bench.Base.{ℕ, ◌*◌, ◌+◌, ◌/◌, ◌%◌, ◌^◌, ◌<◌, List, ◌∷◌, ◌≡◌, arith, get_or}

abbrev pub put16 : ℕ → List ℕ → List ℕ
put16 v rest = (v / 2 ^ 8 % 256) ∷ (v % 256) ∷ rest

abbrev pub put32 : ℕ → List ℕ → List ℕ
put32 v rest = put16 (v / 2 ^ 16) (put16 v rest)

abbrev pub put64 : ℕ → List ℕ → List ℕ
put64 v rest = put32 (v / 2 ^ 32) (put32 v rest)

abbrev pub get16 : ℕ → ℕ → ℕ
get16 a b = a * 256 + b

abbrev pub get32 : ℕ → ℕ → ℕ → ℕ → ℕ
get32 a b c d = get16 a b * 2 ^ 16 + get16 c d

abbrev pub get64 : ℕ → ℕ → ℕ → ℕ → ℕ → ℕ → ℕ → ℕ → ℕ
get64 a b c d e f g h = get32 a b c d * 2 ^ 32 + get32 e f g h

-- The value that the bytes of `v` stand for.
abbrev pub got16 : ℕ → ℕ
got16 v = get16 (v / 2 ^ 8 % 256) (v % 256)

abbrev pub got32 : ℕ → ℕ
got32 v = got16 (v / 2 ^ 16) * 2 ^ 16 + got16 v

abbrev pub got64 : ℕ → ℕ
got64 v = got32 (v / 2 ^ 32) * 2 ^ 32 + got32 v

pub got16_mod : (v : ℕ) → got16 v ≡ v % 2 ^ 16
got16_mod v = omega arith

pub got32_mod : (v : ℕ) → got32 v ≡ v % 2 ^ 32
got32_mod v = omega (arith, got16_mod (v / 2 ^ 16), got16_mod v)

pub got16_eq : (v : ℕ) → v < 2 ^ 16 → got16 v ≡ v
got16_eq v h = omega arith

pub got32_eq : (v : ℕ) → v < 2 ^ 32 → got32 v ≡ v
got32_eq v h = omega arith

pub got64_eq : (v : ℕ) → v < 2 ^ 64 → got64 v ≡ v
got64_eq v h = omega (arith, got32_mod (v / 2 ^ 32), got32_mod v)

-- The integers at an offset of a slice.
abbrev pub byte_at : List ℕ → ℕ → ℕ
byte_at bs i = get_or bs i 0

abbrev pub u16_at : List ℕ → ℕ → ℕ
u16_at bs i = get16 (byte_at bs i) (byte_at bs (i + 1))

abbrev pub u32_at : List ℕ → ℕ → ℕ
u32_at bs i = get32 (byte_at bs i) (byte_at bs (i + 1)) (byte_at bs (i + 2)) (byte_at bs (i + 3))

abbrev pub u64_at : List ℕ → ℕ → ℕ
u64_at bs i =
    get64 (byte_at bs i) (byte_at bs (i + 1)) (byte_at bs (i + 2)) (byte_at bs (i + 3))
      (byte_at bs (i + 4)) (byte_at bs (i + 5)) (byte_at bs (i + 6)) (byte_at bs (i + 7))
