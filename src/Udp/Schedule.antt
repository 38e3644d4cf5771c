-- ===== src/Udp/Schedule.antt =====
-- internal/workload/udp/udp.go: the schedule of the PPS mode, packetCount and packetOffset. The numbers
-- of a configuration are not negative, a time is a number of nanoseconds, and an int of 64 bits is the
-- number that its bits stand for without a sign.
pub mod Exact
use sing_box_inbound_bench.Base.{
  ℕ, suc, ◌+◌, ◌-◌, ◌*◌, ◌/◌, ◌%◌, ◌^◌, ◌<◌, ◌≤◌, Bool, true, false, ◌||◌, ◌==◌, ltb, leb,
  if◌then◌else◌, if-false, u64, max_int, ◌≡◌, refl, ap, sym, ◌∙◌, arith,
}
use sing_box_inbound_bench.Wire.{Result, ok, err, refused}

abbrev pub second : ℕ
second = 1000000000

-- The sign bit of an int is set.
abbrev pub is_negative : ℕ → Bool
is_negative n = leb (2 ^ 63) n

abbrev pub counted : ℕ → Result ℕ
counted total =
    if is_negative total || total == 0
    then err (refused "PPS duration is too short for the offered rate")
    else ok total

unfoldable pub packet_count : ℕ → ℕ → ℕ → Result ℕ
packet_count offered_pps requests duration =
    if ltb offered_pps 1 || ltb 1000000000 offered_pps
    then err (refused "offered PPS must be between 1 and 1000000000")
    else if ltb 0 requests
    then ok requests
    else if ltb (max_int / offered_pps) (duration / second)
    then err (refused "PPS packet count overflows int")
    else counted (
        u64
          (u64 (duration / second * offered_pps) + u64 (duration % second * offered_pps) / second))

-- The quotient of an int and one that is positive, which is rounded towards zero.
unfoldable pub div_int : ℕ → ℕ → ℕ
div_int n d = if is_negative n then u64 (2 ^ 64 - (2 ^ 64 - n) / d) else n / d

unfoldable pub packet_offset : ℕ → ℕ → Result ℕ
packet_offset index rate =
    if ltb rate 1
    then err (refused "invalid packet schedule")
    else if ltb (max_int / second) (index / rate)
    then err (refused "PPS schedule exceeds time.Duration")
    else ok (u64 (u64 (index / rate * second) + div_int (u64 (index % rate * second)) rate))
