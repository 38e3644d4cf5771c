-- ===== src/Subject/Evidence/Checks.antt =====
-- internal/subject/path.go: when a check of ValidateSocketPathEvidence has no error.
use sing_box_inbound_bench.Base.{
  ℕ, ◌∷◌, ◌≡◌, ◌↔◌, refl, sym, ap, ◌∙◌, Bool, true, false, not, ◌&&◌, ◌||◌, ==_iff, String,
  str_eq_iff, List, [], Option, none, some, ◌⊎◌, inl, inr, arith, Bool-cases,
}
use sing_box_inbound_bench.Protocol.Endpoint.{Ip, no_ip, ip4, ip6}
use sing_box_inbound_bench.Subject.Evidence.{eq_bytes, eq_ip, fail_if, then_check}

pub fail_if-none : (test : Bool) (e : String) → (fail_if test e ≡ none) ↔ (test ≡ false)
fail_if-none true e = (λ h. cc, λ h. cc)
fail_if-none false e = (λ h. refl, λ h. refl)

pub then_check-none : (a b : Option String) → (then_check a b ≡ none) ↔ ((a ≡ none) × (b ≡ none))
then_check-none none b = (λ h. (refl, h), λ h. h.1)
then_check-none (some e) b = (λ h. cc, λ h. h.0)

pub true-false : true ≡ false → ⊥
true-false h = cc

pub not-false : (b : Bool) → not b ≡ false → b ≡ true
not-false true h = refl
not-false false h = cc

-- A check that fails exactly if, or unless, `P` holds.
module _ {ℓ} {P : Type ℓ} (test : Bool) (e : String) (decides : (test ≡ true) ↔ P) where
  pub check_refutes : (fail_if test e ≡ none) ↔ (¬ P)
  check_refutes = (
    λ h p. true-false (sym (decides.1 p) ∙ (fail_if-none test e).0 h),
    λ n.
        (fail_if-none test e).1
          (elim (Bool-cases test) [ inl t ↦ absurd (n (decides.0 t)) | inr f ↦ f ]),
  )

  pub check_decides : (fail_if (not test) e ≡ none) ↔ P
  check_decides = (
    λ h. decides.0 (not-false test ((fail_if-none (not test) e).0 h)),
    λ p. (fail_if-none (not test) e).1 (ap not (decides.1 p)),
  )

pub left-right : {A : Type 0} {e : String} {a : A} → ◌≡◌ {A = String ⊎ A} (inl e) (inr a) → ⊥
left-right h = cc

pub right-right : {A : Type 0} {a b : A} → ◌≡◌ {A = String ⊎ A} (inr a) (inr b) → a ≡ b
right-right h = cc

pub unless_verified :
    (named verified same : Bool) (e : String) {Name Same : Type 0}
    → (named ≡ true) ↔ Name
    → (same ≡ true) ↔ Same
    → (fail_if (not named && (not verified || not same)) e ≡ none)
      ↔ (¬ Name → (verified ≡ true) × Same)
unless_verified true verified same e n s = (λ h k. absurd (k (n.0 refl)), λ h. refl)
unless_verified false true true e n s = (λ h k. (refl, s.0 refl), λ h. refl)
unless_verified false true false e n s =
    (λ h. cc, λ h. absurd (true-false (sym (s.1 (h (λ k. true-false (sym (n.1 k)))).1))))
unless_verified false false same e n s =
    (λ h. cc, λ h. absurd (true-false (sym (h (λ k. true-false (sym (n.1 k)))).0)))

pub eq_bytes_iff : (xs ys : List ℕ) → (eq_bytes xs ys ≡ true) ↔ (xs ≡ ys)
unfolding eq_bytes
eq_bytes_iff [] [] = (λ h. refl, λ h. refl)
eq_bytes_iff [] (y ∷ ys) = (λ h. cc, λ h. cc)
eq_bytes_iff (x ∷ xs) [] = (λ h. cc, λ h. cc)
eq_bytes_iff (x ∷ xs) (y ∷ ys) =
    let (forth, back) = eq_bytes_iff xs ys in
    (
      λ h. ground (arith, ==_iff x y, eq_bytes_iff xs ys),
      λ h. ground (arith, ==_iff x y, eq_bytes_iff xs ys),
    )

pub eq_ip_iff : (a b : Ip) → (eq_ip a b ≡ true) ↔ (a ≡ b)
unfolding eq_ip
eq_ip_iff no_ip no_ip = (λ h. refl, λ h. refl)
eq_ip_iff no_ip (ip4 b) = (λ h. cc, λ h. cc)
eq_ip_iff no_ip (ip6 b y) = (λ h. cc, λ h. cc)
eq_ip_iff (ip4 a) no_ip = (λ h. cc, λ h. cc)
eq_ip_iff (ip4 a) (ip6 b y) = (λ h. cc, λ h. cc)
eq_ip_iff (ip6 a z) no_ip = (λ h. cc, λ h. cc)
eq_ip_iff (ip6 a z) (ip4 b) = (λ h. cc, λ h. cc)
eq_ip_iff (ip4 a) (ip4 b) =
    (λ h. ground (arith, eq_bytes_iff a b), λ h. ground (arith, eq_bytes_iff a b))
eq_ip_iff (ip6 a z) (ip6 b y) = (
  λ h. ground (arith, eq_bytes_iff a b, str_eq_iff z y),
  λ h. ground (arith, eq_bytes_iff a b, str_eq_iff z y),
)
