-- ===== src/Netdev/Differences.antt =====
-- internal/netdev/stats.go: the difference of two readings is what was added between them.
use sing_box_inbound_bench.Base.{
  ℕ, ◌+◌, ◌-◌, ◌<◌, List, [], ◌∷◌, true, false, ltb, if-true, if-false, none, some, ◌≡◌, ◌⊎◌, inl,
  inr, refl, ap, ◌∙◌, arith, Bool-cases,
}
use sing_box_inbound_bench.Netdev.{Stats, values, prepend, subtract_all, from_values, delta}

-- The counters, one by one, before with what was added are the counters after.
abbrev pub Sums : List ℕ → List ℕ → List ℕ → Type 0
Sums [] [] [] = Unit
Sums (b ∷ bs) (d ∷ ds) (a ∷ cs) = (b + d ≡ a) × Sums bs ds cs
Sums [] [] (a ∷ cs) = ⊥
Sums [] (d ∷ ds) cs = ⊥
Sums (b ∷ bs) [] cs = ⊥
Sums (b ∷ bs) (d ∷ ds) [] = ⊥

-- Some counter is smaller after than before.
abbrev pub MovedBack : List ℕ → List ℕ → Type 0
MovedBack (b ∷ bs) (a ∷ cs) = (a < b) ⊎ MovedBack bs cs
MovedBack [] cs = ⊥
MovedBack (b ∷ bs) [] = ⊥

subtract_all-Sums : (bs ds cs : List ℕ) → Sums bs ds cs → subtract_all bs cs ≡ some ds
unfolding subtract_all
subtract_all-Sums [] [] [] h = refl
subtract_all-Sums [] [] (a ∷ cs) h = absurd h
subtract_all-Sums [] (d ∷ ds) cs h = absurd h
subtract_all-Sums (b ∷ bs) [] cs h = absurd h
subtract_all-Sums (b ∷ bs) (d ∷ ds) [] h = absurd h
subtract_all-Sums (b ∷ bs) (d ∷ ds) (a ∷ cs) (e, h) =
    if-false _ _ _ forward
    ∙ ap (prepend (a - b)) (subtract_all-Sums bs ds cs h)
    ∙ ap (λ n. some (n ∷ ds)) difference
  where
    forward : ltb a b ≡ false
    forward = ground arith

    difference : a - b ≡ d
    difference = omega arith

subtract_all-MovedBack : (bs cs : List ℕ) → MovedBack bs cs → subtract_all bs cs ≡ none
unfolding subtract_all
subtract_all-MovedBack [] cs h = absurd h
subtract_all-MovedBack (b ∷ bs) [] h = absurd h
subtract_all-MovedBack (b ∷ bs) (a ∷ cs) (inl less) =
    let back : ltb a b ≡ true = ground arith in if-true _ _ _ back
subtract_all-MovedBack (b ∷ bs) (a ∷ cs) (inr h) = elim (Bool-cases (ltb a b)) [
  | inl e ↦ if-true _ _ _ e
  | inr e ↦ if-false _ _ _ e ∙ ap (prepend (a - b)) (subtract_all-MovedBack bs cs h)
]

-- The difference of two readings, where nothing moved backwards, is what was added to each counter of
-- the first to make the second; and it is refused where any counter moved backwards.
pub delta-Sums :
    (before after : Stats)
    → ((d : Stats) → Sums (values before) (values d) (values after) → delta before after ≡ some d)
      × (MovedBack (values before) (values after) → delta before after ≡ none)
unfolding delta
delta-Sums before after = (
  λ d h. ap from_values (subtract_all-Sums (values before) (values d) (values after) h),
  λ h. ap from_values (subtract_all-MovedBack (values before) (values after) h),
)
