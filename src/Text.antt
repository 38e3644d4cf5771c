-- ===== src/Text.antt =====
-- What the program uses of Go's strings, strconv and fmt: numbers in digits, and tests on bytes. White
-- space and letters are those of ASCII, which the tools of the host print.
use Prim.Native.Char.{code}
use sing_box_inbound_bench.Base.{
  ltb, ◌++◌, ℕ, zero, suc, ◌+◌, ◌/◌, ◌%◌, List, [], ◌∷◌, Bool, true, false, ◌&&◌, ◌||◌, ◌==◌, leb,
  if◌then◌else◌, String, str_append, get_or, ◌≡◌, refl,
}

abbrev lower_digits : List String
lower_digits =
    "0" ∷ "1" ∷ "2" ∷ "3" ∷ "4" ∷ "5" ∷ "6" ∷ "7" ∷ "8" ∷ "9" ∷ "a" ∷ "b" ∷ "c" ∷ "d" ∷ "e" ∷ "f"
    ∷ []

abbrev upper_digits : List String
upper_digits =
    "0" ∷ "1" ∷ "2" ∷ "3" ∷ "4" ∷ "5" ∷ "6" ∷ "7" ∷ "8" ∷ "9" ∷ "A" ∷ "B" ∷ "C" ∷ "D" ∷ "E" ∷ "F"
    ∷ []

-- The digits of `n` in a base, before `text`. A number of 64 bits has at most 64 digits.
unfoldable pub digits : ℕ → List String → ℕ → ℕ → String → String
digits zero names base n text = text
digits (suc fuel) names base n text =
    let more = digits fuel names base (n / base) (str_append (get_or names (n % base) "") text) in
    if n == 0 then text else more

-- `strconv.Itoa` and `strconv.FormatUint(n, 10)`
unfoldable pub itoa : ℕ → String
itoa n = if n == 0 then "0" else digits 64 lower_digits 10 n ""

-- `%x`
unfoldable pub hex : ℕ → String
hex n = if n == 0 then "0" else digits 64 lower_digits 16 n ""

-- The last `k` digits in base 16, in capitals, with leading zeros.
unfoldable pub padded : ℕ → ℕ → String → String
padded zero n text = text
padded (suc k) n text = padded k (n / 16) (str_append (get_or upper_digits (n % 16) "") text)

-- `%08X` of a number of 32 bits
unfoldable pub hex8 : ℕ → String
hex8 n = padded 8 n ""

unfoldable pub is_space : ℕ → Bool
is_space b = (leb 9 b && leb b 13) || b == 32

-- `strings.TrimSpace(string(output)) == ""`
unfoldable pub is_blank : List ℕ → Bool
is_blank [] = true
is_blank (b ∷ bs) = is_space b && is_blank bs

unfoldable pub to_lower : List ℕ → List ℕ
to_lower [] = []
to_lower (b ∷ bs) = (if leb 65 b && leb b 90 then b + 32 else b) ∷ to_lower bs

unfoldable pub has_prefix : List ℕ → List ℕ → Bool
has_prefix s [] = true
has_prefix [] (p ∷ ps) = false
has_prefix (b ∷ bs) (p ∷ ps) = (b == p) && has_prefix bs ps

-- `strings.Contains`
unfoldable pub contains : List ℕ → List ℕ → Bool
contains [] pattern = has_prefix [] pattern
contains (b ∷ bs) pattern = has_prefix (b ∷ bs) pattern || contains bs pattern

itoa_zero : itoa 0 ≡ "0"
unfolding itoa
itoa_zero = refl

itoa_port : itoa 65535 ≡ "65535"
unfolding itoa digits
itoa_port = refl

hex8_example : hex8 0xbeef ≡ "0000BEEF"
unfolding hex8 padded
hex8_example = refl

abbrev lower_hex : ℕ → String
lower_hex d = get_or lower_digits d ""

unfoldable pub padded_lower : ℕ → ℕ → String → String
padded_lower zero n text = text
padded_lower (suc k) n text = padded_lower k (n / 16) (str_append (lower_hex (n % 16)) text)

-- `%08x` of a number of 32 bits
unfoldable pub hex8_lower : ℕ → String
hex8_lower n = padded_lower 8 n ""

-- The bytes of a character in UTF-8, by its code.
unfoldable pub utf8 : ℕ → List ℕ
utf8 c =
    if ltb c 0x80
    then c ∷ []
    else if ltb c 0x800
    then (0xc0 + c / 64) ∷ (0x80 + c % 64) ∷ []
    else if ltb c 0x10000
    then (0xe0 + c / 4096) ∷ (0x80 + c / 64 % 64) ∷ (0x80 + c % 64) ∷ []
    else (0xf0 + c / 262144) ∷ (0x80 + c / 4096 % 64) ∷ (0x80 + c / 64 % 64) ∷ (0x80 + c % 64) ∷ []

-- The bytes of a text.
unfoldable pub bytes : String → List ℕ
bytes String.[] = []
bytes (String.◌∷◌ c s) = utf8 (code c) ++ bytes s

bytes_example : bytes "aé" ≡ 97 ∷ 195 ∷ 169 ∷ []
unfolding bytes utf8
bytes_example = refl

-- `%03d` of a number that is not negative
unfoldable pub pad3 : ℕ → String
pad3 n =
    if ltb n 10
    then str_append "00" (itoa n)
    else if ltb n 100
    then str_append "0" (itoa n)
    else itoa n
