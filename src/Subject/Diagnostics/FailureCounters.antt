-- ===== src/Subject/Diagnostics/FailureCounters.antt =====
-- internal/subject/singbox/diagnostics.go: validateFailureCounterDeltas refuses every change.
use sing_box_inbound_bench.Base.{ℕ, ◌≡◌, ◌↔◌, refl, String, List, [], ◌∷◌, none, arith}
use sing_box_inbound_bench.Subject.Diagnostics.{
  EbpfInboundDiagnostics, failure_counters, counter_of, change, changes, changed_error,
  validate_failure_counter_deltas,
}

pub record SameCounters (b a : EbpfInboundDiagnostics) : Type 0 where
  pub counters : b.counters ≡ a.counters
  pub udp_nat : b.udp_nat ≡ a.udp_nat

change-[] :
    (name : String) (b a : ℕ) (rest : List String)
    → (change name b a rest ≡ []) ↔ ((b ≡ a) × (rest ≡ []))
change-[] name b a rest = (λ h. ground (arith, h), λ h. ground (arith, h.0, h.1))

abbrev SameValues : List (String × ℕ) → List (String × ℕ) → Type 0
SameValues [] after = Unit
SameValues ((name, v) ∷ before) after = (v ≡ counter_of name after) × SameValues before after

changes-SameValues :
    (before after : List (String × ℕ)) → (changes before after ≡ []) ↔ SameValues before after
unfolding changes
changes-SameValues [] after = (λ h. tt, λ h. refl)
changes-SameValues ((name, v) ∷ before) after =
    let (forth, back) = change-[] name v (counter_of name after) (changes before after) in
    let (forths, backs) = changes-SameValues before after in
    (λ h. ((forth h).0, forths (forth h).1), λ g. back (g.0, backs g.1))

changed_error-none : (es : List String) → (changed_error es ≡ none) ↔ (es ≡ [])
changed_error-none [] = (λ h. refl, λ h. refl)
changed_error-none (e ∷ es) = (λ h. cc, λ h. cc)

SameValues-SameCounters :
    (b a : EbpfInboundDiagnostics)
    → SameValues (failure_counters b) (failure_counters a)
    → SameCounters b a
unfolding failure_counters counter_of
SameValues-SameCounters b a
      (h₀, (h₁, (h₂, (h₃, (h₄, (h₅, (h₆, (h₇, (h₈, (h₉, (k₀, (k₁, (k₂, (k₃, _)))))))))))))) =
    record {
      counters = λ i. record {
        assignment_lookup_failures = h₀ i;
        tc_socket_lookup_failures = h₁ i;
        tc_sk_assign_failures = h₂ i;
        tc_assignment_update_failures = h₃ i;
        token_reservation_failures = h₄ i;
        rewrite_failures = h₅ i;
        shared_reconcile_failures = h₆ i;
        recovery_attempts = h₇ i;
        recovery_failures = h₈ i;
        fake_ip_icmp_rewrite_failure_drops = h₉ i;
      };
      udp_nat = λ i. record {
        capacity_evictions = k₀ i;
        queue_drops = k₁ i;
        pending_release_capacity_rejected = k₂ i;
        release_notification_drops = k₃ i;
      };
    }

SameCounters-SameValues :
    (b a : EbpfInboundDiagnostics)
    → SameCounters b a
    → SameValues (failure_counters b) (failure_counters a)
unfolding failure_counters counter_of
SameCounters-SameValues b a same = (
  λ i. (same.counters i).assignment_lookup_failures,
  (
    λ i. (same.counters i).tc_socket_lookup_failures,
    (
      λ i. (same.counters i).tc_sk_assign_failures,
      (
        λ i. (same.counters i).tc_assignment_update_failures,
        (
          λ i. (same.counters i).token_reservation_failures,
          (
            λ i. (same.counters i).rewrite_failures,
            (
              λ i. (same.counters i).shared_reconcile_failures,
              (
                λ i. (same.counters i).recovery_attempts,
                (
                  λ i. (same.counters i).recovery_failures,
                  (
                    λ i. (same.counters i).fake_ip_icmp_rewrite_failure_drops,
                    (
                      λ i. (same.udp_nat i).capacity_evictions,
                      (
                        λ i. (same.udp_nat i).queue_drops,
                        (
                          λ i. (same.udp_nat i).pending_release_capacity_rejected,
                          (λ i. (same.udp_nat i).release_notification_drops, tt),
                        ),
                      ),
                    ),
                  ),
                ),
              ),
            ),
          ),
        ),
      ),
    ),
  ),
)

pub validate-SameCounters :
    (b a : EbpfInboundDiagnostics) → (validate_failure_counter_deltas b a ≡ none) ↔ SameCounters b a
unfolding validate_failure_counter_deltas
validate-SameCounters b a =
    let (none_to_empty, empty_to_none) = changed_error-none _ in
    let (empty_to_same, same_to_empty) = changes-SameValues _ _ in
    (
      λ h. SameValues-SameCounters b a (empty_to_same (none_to_empty h)),
      λ g. empty_to_none (same_to_empty (SameCounters-SameValues b a g)),
    )
