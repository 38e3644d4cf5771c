-- ===== src/Protocol/Config/Accepted.antt =====
-- internal/protocol/protocol.go: what a configuration that Validate accepts has.
use sing_box_inbound_bench.Base.{
  ℕ, ◌+◌, ◌≤◌, [], str_eq, Bool, true, false, ◌&&◌, ◌||◌, sym, ◌∙◌, ap, ◌≡◌, refl, arith, append-[],
}
use sing_box_inbound_bench.Base.Int.{ℤ, pos, negsuc, add_int, ltb_ℤ}
use sing_box_inbound_bench.Protocol.Config.{Config, WorkloadConfig, protocol_udp}
use sing_box_inbound_bench.Protocol.Config.Errors.{check, check-[], NetText}
use sing_box_inbound_bench.Protocol.Config.Workload.{
  protocol_errors, target_errors, payload_errors, socket_mode_errors, limit_errors, rate_errors,
  worker_errors, workload_errors,
}
use sing_box_inbound_bench.Protocol.Config.Validate.{
  identity_errors, execution_errors, subject_errors, validate,
}
use sing_box_inbound_bench.Udp.{header_size}

module _ (net : NetText) (c : Config) where
  -- A configuration is accepted if all of its parts are.
  pub validate-parts :
      validate net c ≡ []
      → (identity_errors c ≡ [])
        × (workload_errors net c.workload ≡ [])
        × (execution_errors c ≡ [])
        × (subject_errors net c ≡ [])
  unfolding validate
  validate-parts h =
      let a = append-[] (identity_errors c) _ h in
      let b = append-[] (workload_errors net c.workload) _ a.1 in
      let d = append-[] (execution_errors c) _ b.1 in (a.0, b.0, d.0, d.1)

-- The errors of a workload, part by part.
abbrev pub WorkloadAccepted : NetText → WorkloadConfig → Type 0
WorkloadAccepted net w =
    (protocol_errors w ≡ [])
    × (target_errors net w.target ≡ [])
    × (payload_errors w ≡ [])
    × (socket_mode_errors w ≡ [])
    × (limit_errors w ≡ [])
    × (rate_errors w ≡ [])
    × (worker_errors w ≡ [])

module _ (net : NetText) (w : WorkloadConfig) where
  pub workload_errors-parts : workload_errors net w ≡ [] → WorkloadAccepted net w
  unfolding workload_errors
  workload_errors-parts h =
      let a = append-[] (protocol_errors w) _ h in
      let b = append-[] (target_errors net w.target) _ a.1 in
      let d = append-[] (payload_errors w) _ b.1 in
      let e = append-[] (socket_mode_errors w) _ d.1 in
      let f = append-[] (limit_errors w) _ e.1 in
      let g = append-[] (rate_errors w) _ f.1 in (a.0, b.0, d.0, e.0, f.0, g.0, g.1)

  pub workload_errors_none : WorkloadAccepted net w → workload_errors net w ≡ []
  unfolding workload_errors
  workload_errors_none (a, b, d, e, f, g, k) = cc

pub int_in_range :
    (z : ℤ) (top : ℕ)
    → (ltb_ℤ z (pos 1) || ltb_ℤ (pos top) z) ≡ false
    → (p : ℕ) × (z ≡ pos p) × (1 ≤ p) × (p ≤ top)
int_in_range (pos p) top h = (p, refl, ground arith, ground arith)
int_in_range (negsuc p) top h = ground arith

payload_in_range :
    (w : WorkloadConfig)
    → payload_errors w ≡ []
    → (p : ℕ) × (w.payload_bytes ≡ pos p) × (1 ≤ p) × (p ≤ 0x100000)
unfolding payload_errors
payload_in_range w h =
    int_in_range w.payload_bytes 0x100000 (check-[] _ _ (append-[] (check _ _) _ h).0)

small_sum : (p : ℕ) → p ≤ 0x100000 → add_int (pos p) (pos 40) ≡ pos (p + 40)
unfolding add_int
small_sum p h = ground arith

pub not_and : (a b : Bool) → (a && b) ≡ false → a ≡ true → b ≡ false
not_and true b h e = h
not_and false b h e = cc

packet_in_range :
    (w : WorkloadConfig) (p : ℕ)
    → payload_errors w ≡ []
    → str_eq w.protocol protocol_udp ≡ true
    → w.payload_bytes ≡ pos p
    → p ≤ 0x100000
    → header_size + p ≤ 65507
unfolding payload_errors
packet_in_range w p h udp e bound = ground (arith, sym small ∙ sum_in_range)
  where
    sum_in_range : ltb_ℤ (pos 65507) (add_int w.payload_bytes (pos 40)) ≡ false
    sum_in_range = not_and _ _ (check-[] _ _ (append-[] (check _ _) _ h).1) udp

    small : ltb_ℤ (pos 65507) (add_int w.payload_bytes (pos 40)) ≡ ltb_ℤ (pos 65507) (pos (p + 40))
    small =
        ap (λ z. ltb_ℤ (pos 65507) (add_int z (pos 40))) e
        ∙ ap (ltb_ℤ (pos 65507)) (small_sum p bound)

-- A UDP packet of an accepted workload, header included, is a UDP datagram.
pub accepted-packet_fits :
    (net : NetText) (c : Config)
    → validate net c ≡ []
    → str_eq c.workload.protocol protocol_udp ≡ true
    → (p : ℕ) × (c.workload.payload_bytes ≡ pos p) × (1 ≤ p) × (header_size + p ≤ 65507)
accepted-packet_fits net c h udp =
    let payload = (workload_errors-parts net c.workload (validate-parts net c h).1).2 in
    let found = payload_in_range c.workload payload in
    (found.0, found.1, found.2, packet_in_range c.workload found.0 payload udp found.1 found.3)
