-- ===== src/Command/Jobs/Samples.antt =====
-- A sort to put in place of sort.Slice in the tests: insertion, with what is documented of sort.Slice.
use mathlib.Core.List.{Perm}
use mathlib.Core.List.Perm
use sing_box_inbound_bench.Base.{
  ℕ, List, [], ◌∷◌, Bool, false, if◌then◌else◌, ltb, All, ◌≡◌, sym, subst, arith, Bool-cases, inl,
  inr, if-true, if-false,
}
use sing_box_inbound_bench.Protocol.Config.{Config}
use sing_box_inbound_bench.Command.Jobs.Spec.{IsOrdered, Sorts}

unfoldable pub insert : (Config → Config → Bool) → Config → List Config → List Config
insert less x [] = x ∷ []
insert less x (y ∷ ys) = let rest = insert less x ys in if less y x then y ∷ rest else x ∷ y ∷ ys

unfoldable pub insertion_sort : (Config → Config → Bool) → List Config → List Config
insertion_sort less [] = []
insertion_sort less (x ∷ xs) = insert less x (insertion_sort less xs)

module _ (key : Config → ℕ) where
  abbrev less : Config → Config → Bool
  less l r = ltb (key l) (key r)

  abbrev AllAbove : Config → List Config → Type 0
  AllAbove c cs = All (λ d. less d c ≡ false) cs

  insert-perm : (x : Config) (ys : List Config) → Perm (insert less x ys) (x ∷ ys)
  unfolding insert
  insert-perm x [] = Perm.refl (x ∷ [])
  insert-perm x (y ∷ ys) = elim (Bool-cases (less y x)) [
    | inl e ↦
        subst (λ zs. Perm zs (x ∷ y ∷ ys)) (sym (if-true _ _ _ e))
          (Perm.trans (Perm.cons y (insert-perm x ys)) (Perm.swap x y ys))
    | inr e ↦ subst (λ zs. Perm zs (x ∷ y ∷ ys)) (sym (if-false _ _ _ e)) (Perm.refl (x ∷ y ∷ ys))
  ]

  insert-AllAbove :
      (c x : Config) (ys : List Config)
      → less x c ≡ false
      → AllAbove c ys
      → AllAbove c (insert less x ys)
  unfolding insert
  insert-AllAbove c x [] h _ = (h, tt)
  insert-AllAbove c x (y ∷ ys) h (k, ks) = elim (Bool-cases (less y x)) [
    | inl e ↦ subst (AllAbove c) (sym (if-true _ _ _ e)) (k, insert-AllAbove c x ys h ks)
    | inr e ↦ subst (AllAbove c) (sym (if-false _ _ _ e)) (h, (k, ks))
  ]

  AllAbove-trans :
      (x y : Config) (ys : List Config) → less y x ≡ false → AllAbove y ys → AllAbove x ys
  AllAbove-trans x y [] h _ = tt
  AllAbove-trans x y (z ∷ zs) h (k, ks) = (ground arith, AllAbove-trans x y zs h ks)

  insert-IsOrdered :
      (x : Config) (ys : List Config) → IsOrdered key ys → IsOrdered key (insert less x ys)
  unfolding insert
  insert-IsOrdered x [] _ = (tt, tt)
  insert-IsOrdered x (y ∷ ys) (k, ks) = elim (Bool-cases (less y x)) [
    | inl e ↦
        subst (IsOrdered key) (sym (if-true _ _ _ e))
          (insert-AllAbove y x ys (ground arith) k, insert-IsOrdered x ys ks)
    | inr e ↦
        subst (IsOrdered key) (sym (if-false _ _ _ e)) ((e, AllAbove-trans x y ys e k), (k, ks))
  ]

  insertion_sort-perm : (xs : List Config) → Perm (insertion_sort less xs) xs
  unfolding insertion_sort
  insertion_sort-perm [] = Perm.refl []
  insertion_sort-perm (x ∷ xs) =
      Perm.trans (insert-perm x (insertion_sort less xs)) (Perm.cons x (insertion_sort-perm xs))

  insertion_sort-IsOrdered : (xs : List Config) → IsOrdered key (insertion_sort less xs)
  unfolding insertion_sort
  insertion_sort-IsOrdered [] = tt
  insertion_sort-IsOrdered (x ∷ xs) =
      insert-IsOrdered x (insertion_sort less xs) (insertion_sort-IsOrdered xs)

pub insertion_sort-Sorts : Sorts insertion_sort
insertion_sort-Sorts key xs = (insertion_sort-perm key xs, insertion_sort-IsOrdered key xs)
