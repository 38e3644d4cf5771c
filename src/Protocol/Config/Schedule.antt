-- ===== src/Protocol/Config/Schedule.antt =====
-- internal/protocol/protocol.go and internal/workload/udp/udp.go: the packets that Validate expects of a
-- configuration are those that packetCount schedules.
use native.Mathlib.Nat.{mul-le-mul, le-div_iff_mul-le, mul-div-mul_right, mul_right_comm}
use sing_box_inbound_bench.Base.{
  ℕ, zero, suc, ◌+◌, ◌*◌, ◌/◌, ◌%◌, ◌-◌, ◌^◌, ◌<◌, ◌≤◌, [], str_eq, true, false, not, ◌&&◌, ◌||◌,
  ltb, if-true, if-false, if◌then◌else◌, sym, ◌∙◌, ap, subst, ◌⊎◌, inl, inr, ◌≡◌, refl, arith, u64,
  append-[],
}
use sing_box_inbound_bench.Base.Int.{ℤ, pos, negsuc, pos_part, ltb_ℤ, eq_ℤ}
use sing_box_inbound_bench.Wire.{ok}
use sing_box_inbound_bench.Protocol.Config.{Config, WorkloadConfig, mode_pps}
use sing_box_inbound_bench.Protocol.Config.Errors.{check, check-[], NetText}
use sing_box_inbound_bench.Protocol.Config.Workload.{
  packets_of, limit_errors, rate_errors, worker_errors, scheduled_packets, expected_packets,
}
use sing_box_inbound_bench.Protocol.Config.Validate.{validate}
use sing_box_inbound_bench.Protocol.Config.Accepted.{
  validate-parts, workload_errors-parts, int_in_range,
}
use sing_box_inbound_bench.Udp.Schedule.{packet_count, second, counted}
use sing_box_inbound_bench.Udp.Schedule.Exact.{split_div, packet_count-counted}

scheduled_packets_exact :
    (d r : ℕ) → 1 ≤ r → r ≤ 1000000000 → d * 1000000 < 2 ^ 63 → scheduled_packets d r ≡ d * r / 1000
unfolding scheduled_packets
scheduled_packets_exact d r some_rate few bound =
    if-false _ _ _ fits ∙ unwrapped ∙ split_div d 1000 r (omega arith)
  where
    whole : d / 1000 * r ≤ 9223372036 * 1000000000
    whole = let q : d / 1000 ≤ 9223372036 = omega arith in mul-le-mul q few

    part : d % 1000 * r ≤ 1000 * 1000000000
    part = let q : d % 1000 ≤ 1000 = omega arith in mul-le-mul q few

    fits : ltb ((2 ^ 64 - 1) / r) (d / 1000) ≡ false
    fits =
        let below : d / 1000 ≤ (2 ^ 64 - 1) / r =
          (le-div_iff_mul-le some_rate).1 (omega (arith, whole)) in
        ground (arith, below)

    unwrapped :
        u64 (u64 (d / 1000 * r) + u64 (d % 1000 * r) / 1000) ≡ d / 1000 * r + d % 1000 * r / 1000
    unwrapped = omega (arith, whole, part)

same_packets : (d r : ℕ) → d * 1000000 * r / second ≡ d * r / 1000
same_packets d r =
    ap (λ m. m / second) (mul_right_comm d 1000000 r) ∙ mul-div-mul_right (d * r) 1000 (omega arith)

counted_ok : (n : ℕ) → 1 ≤ n → n < 2 ^ 63 → counted n ≡ ok n
counted_ok n some_packet bound = ground arith

-- A schedule by duration.
by_duration :
    (d r f : ℕ)
    → 1 ≤ r
    → r ≤ 1000000000
    → d * 1000000 < 2 ^ 63
    → 1 ≤ f
    → f ≤ scheduled_packets d r
    → packet_count r 0 (d * 1000000) ≡ ok (scheduled_packets d r)
by_duration d r f some_rate few bound some_flow enough =
    let same = scheduled_packets_exact d r some_rate few bound in
    let product : d * r ≤ d * 1000000000 =
      (let same_d : d ≤ d = omega arith in mul-le-mul same_d few) in
    packet_count-counted r (d * 1000000) some_rate few bound
    ∙ ap counted (same_packets d r ∙ sym same)
    ∙ counted_ok (scheduled_packets d r) (omega (arith, enough)) (omega (arith, same, product))

by_requests :
    (r n duration : ℕ) → 1 ≤ r → r ≤ 1000000000 → packet_count r (suc n) duration ≡ ok (suc n)
unfolding packet_count
by_requests r n duration some_rate few = ground arith

exclusive :
    (q d o : ℤ)
    → (ltb_ℤ q (pos 0) || ltb_ℤ d (pos 0) || ltb_ℤ o (pos 0)) ≡ false
    → (if eq_ℤ q (pos 0) then eq_ℤ d (pos 0) else not (eq_ℤ d (pos 0))) ≡ false
    → ((k : ℕ) × (q ≡ pos 0) × (d ≡ pos (suc k))) ⊎ ((n : ℕ) × (q ≡ pos (suc n)) × (d ≡ pos 0))
exclusive (pos zero) (pos zero) o h k = cc
exclusive (pos zero) (pos (suc d)) o h k = inl (d, refl, refl)
exclusive (pos (suc n)) (pos zero) o h k = inr (n, refl, refl)
exclusive (pos (suc n)) (pos (suc d)) o h k = ground arith
exclusive (pos q) (negsuc d) o h k = ground arith
exclusive (negsuc q) d o h k = ground arith

-- The limits of a workload that Validate accepts: a duration or requests, and not both.
limits_of :
    (w : WorkloadConfig)
    → limit_errors w ≡ []
    → ((d : ℕ) × (w.requests ≡ pos 0) × (w.duration_ms ≡ pos (suc d)))
      ⊎ ((n : ℕ) × (w.requests ≡ pos (suc n)) × (w.duration_ms ≡ pos 0))
unfolding limit_errors
limits_of w h =
    let a = append-[] (check _ _) _ h in
    exclusive w.requests w.duration_ms w.offered_pps (check-[] _ _ a.0) (check-[] _ _ a.1)

-- The rate is a rate, and there is a packet for each flow.
rates_of :
    (w : WorkloadConfig)
    → rate_errors w ≡ []
    → worker_errors w ≡ []
    → str_eq w.mode mode_pps ≡ true
    → (r : ℕ) × (w.offered_pps ≡ pos r)
      × (1 ≤ r)
      × (r ≤ 1000000000)
      × (1 ≤ pos_part w.flows)
      × (pos_part w.flows ≤ expected_packets w)
unfolding rate_errors worker_errors
rates_of w h k pps =
    let a = append-[] (check _ _) _ (sym (if-true _ _ _ pps) ∙ h) in
    let r = int_in_range w.offered_pps 1000000000 (check-[] _ _ a.0) in
    let f = some_flow w.connections w.flows (check-[] _ _ k) in
    (r.0, r.1, r.2, r.3, f, enough w.flows (expected_packets w) f (check-[] _ _ a.1))
  where
    some_flow : (c f : ℤ) → (ltb_ℤ c (pos 1) || ltb_ℤ f (pos 1)) ≡ false → 1 ≤ pos_part f
    some_flow c f e = ground arith

    enough :
        (f : ℤ) (n : ℕ)
        → 1 ≤ pos_part f
        → (ltb_ℤ (pos 0) f && ltb n (pos_part f)) ≡ false
        → pos_part f ≤ n
    enough f n some e = ground arith

packets_by_duration :
    (d r : ℕ) → 1 ≤ r → packets_of (pos 0) (pos (suc d)) (pos r) ≡ scheduled_packets (suc d) r
unfolding packets_of
packets_by_duration d r some_rate = ground arith

packets_by_requests : (n : ℕ) (d o : ℤ) → packets_of (pos (suc n)) d o ≡ suc n
unfolding packets_of
packets_by_requests n d o = ground arith

packets_scheduled :
    (q d : ℤ) (r f : ℕ)
    → 1 ≤ r
    → r ≤ 1000000000
    → pos_part d * 1000000 < 2 ^ 63
    → 1 ≤ f
    → f ≤ packets_of q d (pos r)
    → ((k : ℕ) × (q ≡ pos 0) × (d ≡ pos (suc k))) ⊎ ((n : ℕ) × (q ≡ pos (suc n)) × (d ≡ pos 0))
    → packet_count r (pos_part q) (pos_part d * 1000000) ≡ ok (packets_of q d (pos r))
packets_scheduled q d r f some_rate few bound some_flow enough (inl (k, eq, ed)) =
    let total : packets_of q d (pos r) ≡ scheduled_packets (suc k) r =
      ap (λ x. packets_of x d (pos r)) eq
      ∙ ap (λ x. packets_of (pos 0) x (pos r)) ed
      ∙ packets_by_duration k r some_rate in
    let small : suc k * 1000000 < 2 ^ 63 = subst (λ x. pos_part x * 1000000 < 2 ^ 63) ed bound in
    let flows : f ≤ scheduled_packets (suc k) r = omega (arith, total, enough) in
    ap (λ x. packet_count r (pos_part x) (pos_part d * 1000000)) eq
    ∙ ap (λ x. packet_count r 0 (pos_part x * 1000000)) ed
    ∙ by_duration (suc k) r f some_rate few small some_flow flows
    ∙ ap ok (sym total)
packets_scheduled q d r f some_rate few bound some_flow enough (inr (n, eq, ed)) =
    ap (λ x. packet_count r (pos_part x) (pos_part d * 1000000)) eq
    ∙ by_requests r n (pos_part d * 1000000) some_rate few
    ∙ ap ok (sym (ap (λ x. packets_of x d (pos r)) eq ∙ packets_by_requests n d (pos r)))

-- Of an accepted configuration of the PPS mode, of which the duration in nanoseconds is an int64, the
-- schedule of the workload succeeds with the packets that Validate expects of it, at least one for each
-- flow, of which there is one.
pub accepted-packet_count :
    (net : NetText) (c : Config)
    → validate net c ≡ []
    → str_eq c.workload.mode mode_pps ≡ true
    → pos_part c.workload.duration_ms * 1000000 < 2 ^ 63
    → (packet_count
          (pos_part c.workload.offered_pps)
          (pos_part c.workload.requests)
          (pos_part c.workload.duration_ms * 1000000)
        ≡ ok (expected_packets c.workload))
      × (1 ≤ pos_part c.workload.flows)
      × (pos_part c.workload.flows ≤ expected_packets c.workload)
accepted-packet_count net c h pps bound =
    let w = workload_errors-parts net c.workload (validate-parts net c h).1 in
    let r = rates_of c.workload w.5 w.6 pps in
    (
      subst Scheduled (sym r.1) (
          packets_scheduled c.workload.requests c.workload.duration_ms r.0
            (pos_part c.workload.flows) r.2 r.3 bound r.4
            (subst
              (λ o.
                pos_part c.workload.flows ≤ packets_of c.workload.requests c.workload.duration_ms o)
              r.1 r.5)
            (limits_of c.workload w.4)),
      r.4,
      r.5,
    )
  where
    Scheduled : ℤ → Type 0
    Scheduled o =
        packet_count (pos_part o) (pos_part c.workload.requests)
          (pos_part c.workload.duration_ms * 1000000)
        ≡ ok (packets_of c.workload.requests c.workload.duration_ms o)
