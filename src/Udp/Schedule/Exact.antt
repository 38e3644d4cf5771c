-- ===== src/Udp/Schedule/Exact.antt =====
-- internal/workload/udp/udp.go: the schedule of the PPS mode is exact, and fits the duration.
use native.Mathlib.Nat.{
  mod-add-div', mul-add-div_right, div-mul-le_self, le-div_iff_mul-le, mod-lt, div-lt_iff_lt-mul,
  mul-le-mul, add-mul, mul_right_comm,
}
use sing_box_inbound_bench.Base.{
  ℕ, suc, ◌+◌, ◌*◌, ◌/◌, ◌%◌, ◌^◌, ◌<◌, ◌≤◌, false, ◌||◌, ◌==◌, ltb, if-false, u64, max_int, ◌≡◌,
  ap, sym, ◌∙◌, arith, Bool-cases, inl, inr,
}
use sing_box_inbound_bench.Wire.{ok}
use sing_box_inbound_bench.Udp.Schedule.{
  second, is_negative, counted, div_int, packet_count, packet_offset,
}

-- A product is divided exactly where its factor is divided with its remainder.
pub split_div : (n d k : ℕ) → 0 < d → n / d * k + n % d * k / d ≡ n * k / d
split_div n d k h = sym (mul-add-div_right h (n / d * k) (n % d * k)) ∙ ap (λ m. m / d) regrouped
  where
    regrouped : n / d * k * d + n % d * k ≡ n * k
    regrouped = omega (
      arith,
      mul_right_comm (n / d) k d,
      add-mul (n % d) (n / d * d) k,
      ap (λ m. m * k) (mod-add-div' n d),
    )

pub packet_count-counted :
    (pps duration : ℕ)
    → 1 ≤ pps
    → pps ≤ 1000000000
    → duration < 2 ^ 63
    → packet_count pps 0 duration ≡ counted (duration * pps / second)
unfolding packet_count
packet_count-counted pps duration some_rate few bound =
    if-false _ _ _ in_range
    ∙ if-false _ _ _ fits
    ∙ ap counted (unwrapped ∙ split_div duration second pps (omega arith))
  where
    whole : duration / second * pps ≤ 9223372036 * 1000000000
    whole = let q : duration / second ≤ 9223372036 = omega arith in mul-le-mul q few

    part : duration % second * pps ≤ 1000000000 * 1000000000
    part = let r : duration % second ≤ 1000000000 = omega arith in mul-le-mul r few

    in_range : (ltb pps 1 || ltb 1000000000 pps) ≡ false
    in_range = ground arith

    below : duration / second ≤ max_int / pps
    below = (le-div_iff_mul-le some_rate).1 (omega (arith, whole))

    fits : ltb (max_int / pps) (duration / second) ≡ false
    fits = ground (arith, below)

    unwrapped :
        u64 (u64 (duration / second * pps) + u64 (duration % second * pps) / second)
        ≡ duration / second * pps + duration % second * pps / second
    unwrapped = omega (arith, whole, part)

pub packet_offset-ok :
    (index rate : ℕ)
    → 1 ≤ rate
    → rate ≤ 1000000000
    → index * second / rate ≤ max_int
    → packet_offset index rate ≡ ok (index * second / rate)
unfolding packet_offset div_int
packet_offset-ok index rate some_rate few bound =
    if-false _ _ _ in_range ∙ if-false _ _ _ fits ∙ ap ok (unwrapped ∙ exact)
  where
    exact : index / rate * second + index % rate * second / rate ≡ index * second / rate
    exact = split_div index rate second some_rate

    in_range : ltb rate 1 ≡ false
    in_range = ground arith

    fits : ltb (max_int / second) (index / rate) ≡ false
    fits = ground (arith, exact)

    unwrapped :
        u64 (u64 (index / rate * second) + div_int (u64 (index % rate * second)) rate)
        ≡ index / rate * second + index % rate * second / rate
    unwrapped =
        ap (λ n. u64 (u64 (index / rate * second) + div_int n rate)) small
        ∙ ap (λ n. u64 (u64 (index / rate * second) + n)) (if-false _ _ _ positive)
        ∙ omega (arith, exact)
      where
        small : u64 (index % rate * second) ≡ index % rate * second
        small = omega (arith, mod-lt index some_rate)

        positive : is_negative (index % rate * second) ≡ false
        positive = let below = mod-lt index some_rate in ground (arith, below)

counted-ok : (n total : ℕ) → counted n ≡ ok total → n ≡ total
counted-ok n total h = elim (Bool-cases (is_negative n || n == 0)) [
  | inl e ↦ ground (arith, h, e)
  | inr e ↦ ground (arith, h, e)
]

-- Where the duration and the rate give a number of packets, it is the duration times the rate, rounded
-- down; and each of these packets, and the end of the schedule, has the offset that the rate gives,
-- rounded down, which is not behind the duration. Nothing overflows on the way.
pub schedule_fits :
    (pps duration total index : ℕ)
    → 1 ≤ pps
    → pps ≤ 1000000000
    → duration < 2 ^ 63
    → packet_count pps 0 duration ≡ ok total
    → index ≤ total
    → (total ≡ duration * pps / second)
      × (packet_offset index pps ≡ ok (index * second / pps))
      × (index * second / pps ≤ duration)
schedule_fits pps duration total index some_rate few bound counts within =
    (sym exact, packet_offset-ok index pps some_rate few (omega (arith, in_time)), in_time)
  where
    exact : duration * pps / second ≡ total
    exact =
        counted-ok _ total (sym (packet_count-counted pps duration some_rate few bound) ∙ counts)

    behind : index * second < suc duration * pps
    behind = omega (arith, div-mul-le_self (duration * pps) second, exact, add-mul duration 1 pps)

    in_time : index * second / pps ≤ duration
    in_time = omega (arith, (div-lt_iff_lt-mul some_rate).1 behind)
