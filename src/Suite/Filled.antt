-- ===== src/Suite/Filled.antt =====
-- internal/suite/matrix.go: the defaults of a preset leave nothing unset.
use sing_box_inbound_bench.Base.{
  Bool, true, false, ◌||◌, if◌then◌else◌, ◌≡◌, refl, subst, arith, ◌⊎◌, inl, inr,
}
use sing_box_inbound_bench.Suite.Generated.{and_then-accepted}
use sing_box_inbound_bench.Base.Int.{ℤ, pos, ltb_ℤ}
use sing_box_inbound_bench.Protocol.Config.Defaults.{or_int}
use sing_box_inbound_bench.Suite.{
  Options, SuiteError, Checked, accepted, rejected, unset, or_unset, has_negative, fill,
  fill_preset, fill_rest, apply_preset_defaults,
}

-- An option that is unset has a default, and one that is set is not negative.
or_int_positive :
    (z d : ℤ) → ltb_ℤ z (pos 0) ≡ false → ltb_ℤ (pos 0) d ≡ true → ltb_ℤ (pos 0) (or_int z d) ≡ true
unfolding or_int
or_int_positive z d h k = ground arith

-- Options that the presets have filled.
abbrev pub IsFilled : Options → Type 0
IsFilled o =
    (ltb_ℤ o.warmup_repetitions (pos 0) ≡ false)
    × (ltb_ℤ (pos 0) o.repetitions ≡ true)
    × (ltb_ℤ (pos 0) o.duration ≡ true)
    × (ltb_ℤ (pos 0) o.idle_duration ≡ true)
    × (ltb_ℤ (pos 0) o.udp_pps ≡ true)
    × (ltb_ℤ (pos 0) o.udp_mtu_pps ≡ true)

warmups_filled :
    (z d : ℤ)
    → ltb_ℤ z unset ≡ false
    → ltb_ℤ d (pos 0) ≡ false
    → ltb_ℤ (or_unset (or_unset z d) (pos 0)) (pos 0) ≡ false
warmups_filled z d h k = ground arith

-- No option is negative, but for the warmups at minus one.
abbrev IsAllowed : Options → Type 0
IsAllowed o =
    (ltb_ℤ o.warmup_repetitions unset ≡ false)
    × (ltb_ℤ o.repetitions (pos 0) ≡ false)
    × (ltb_ℤ o.duration (pos 0) ≡ false)
    × (ltb_ℤ o.idle_duration (pos 0) ≡ false)
    × (ltb_ℤ o.udp_pps (pos 0) ≡ false)
    × (ltb_ℤ o.udp_mtu_pps (pos 0) ≡ false)

allowed : (o : Options) → has_negative o ≡ false → IsAllowed o
unfolding has_negative
allowed o h = seven _ _ _ _ _ _ _ h
  where
    seven :
        (a b c d e f g : Bool)
        → (a || b || c || d || e || f || g) ≡ false
        → (a ≡ false) × (b ≡ false) × (c ≡ false) × (d ≡ false) × (f ≡ false) × (g ≡ false)
    seven a b c d e f g h =
        (ground arith, ground arith, ground arith, ground arith, ground arith, ground arith)

fill-IsFilled :
    (w r d i p : ℤ) (o : Options)
    → ltb_ℤ w (pos 0) ≡ false
    → ltb_ℤ (pos 0) r ≡ true
    → ltb_ℤ (pos 0) d ≡ true
    → ltb_ℤ (pos 0) i ≡ true
    → ltb_ℤ (pos 0) p ≡ true
    → IsAllowed o
    → IsFilled (fill_rest (fill w r d i p o))
unfolding fill fill_rest
fill-IsFilled w r d i p o hw hr hd hi hp a =
    let pps = or_int_positive o.udp_pps p a.4 hp in
    (
      warmups_filled o.warmup_repetitions w a.0 hw,
      or_int_positive o.repetitions r a.1 hr,
      or_int_positive o.duration d a.2 hd,
      or_int_positive o.idle_duration i a.3 hi,
      pps,
      or_int_positive o.udp_mtu_pps (or_int o.udp_pps p) a.5 pps,
    )

-- The value of a chain of three tests is one of its three.
chosen :
    (a b c : Bool) (x y z p : Options) (e : SuiteError)
    → (if a then accepted x else if b then accepted y else if c then accepted z else rejected e)
      ≡ accepted p
    → (x ≡ p) ⊎ ((y ≡ p) ⊎ (z ≡ p))
chosen true b c x y z p e h = inl cc
chosen false true c x y z p e h = inr (inl cc)
chosen false false true x y z p e h = inr (inr cc)
chosen false false false x y z p e h = ground arith

preset-IsFilled :
    (o p : Options) → IsAllowed o → fill_preset o ≡ accepted p → IsFilled (fill_rest p)
unfolding fill_preset
preset-IsFilled o p a h = elim (chosen _ _ _ _ _ _ p _ h) [
  | inl e ↦
      subst (λ q. IsFilled (fill_rest q)) e
        (fill-IsFilled (pos 0) (pos 1) (pos 1000) (pos 1000) (pos 10000) o refl refl refl refl refl
          a)
  | inr (inl e) ↦
      subst (λ q. IsFilled (fill_rest q)) e
        (fill-IsFilled (pos 1) (pos 3) (pos 10000) (pos 10000) (pos 100000) o refl refl refl refl
          refl a)
  | inr (inr e) ↦
      subst (λ q. IsFilled (fill_rest q)) e
        (fill-IsFilled (pos 1) (pos 5) (pos 20000) (pos 10000) (pos 100000) o refl refl refl refl
          refl a)
]

unless_negative :
    (b : Bool) (e : SuiteError) (x : Checked Options) (q : Options)
    → (if b then rejected e else x) ≡ accepted q
    → (b ≡ false) × (x ≡ accepted q)
unless_negative true e x q h = ground arith
unless_negative false e x q h = (refl, h)

-- Options that the defaults of a preset are applied to without an error have no value that is unset: the
-- warmups are not negative, and the repetitions, the durations and the rates are positive.
pub apply_preset_defaults-IsFilled :
    (o q : Options) → apply_preset_defaults o ≡ accepted q → IsFilled q
unfolding apply_preset_defaults
apply_preset_defaults-IsFilled o q h =
    let n = unless_negative _ _ _ q h in
    let p = and_then-accepted _ _ q n.1 in
    let same : accepted (fill_rest p.0) ≡ accepted q = p.2 in
    subst IsFilled (accepted_inj _ _ same) (preset-IsFilled o p.0 (allowed o n.0) p.1)
  where
    accepted_inj : (x y : Options) → accepted x ≡ accepted y → x ≡ y
    accepted_inj x y e = cc
