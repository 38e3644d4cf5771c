-- ===== src/Suite/Selection.antt =====
-- internal/suite/matrix.go: the subjects and the workloads that are selected are those that were requested.
use sing_box_inbound_bench.Base.{
  List, [], ◌∷◌, String, str_eq, str_eq_iff, Bool, true, false, not, ◌&&◌, ◌||◌, if◌then◌else◌, All,
  ◌≡◌, refl, ap, sym, ◌∙◌, arith, Bool-cases, inl, inr, if-true, if-false,
}
use sing_box_inbound_bench.Protocol.Config.{contains_text, subject_kinds}
use sing_box_inbound_bench.Suite.{
  SuiteError, Checked, accepted, rejected, duplicate_subject, mark, remove, pick, picked,
  selected_subjects,
}
use sing_box_inbound_bench.Suite.Generated.{and_then-accepted}

-- The elements of a list that a test holds of, in their order.
abbrev pub keep : (String → Bool) → List String → List String
keep f [] = []
keep f (x ∷ xs) = if f x then x ∷ keep f xs else keep f xs

abbrev DistinctTexts : List String → Type 0
DistinctTexts [] = Unit
DistinctTexts (x ∷ xs) = All (λ y. str_eq x y ≡ false) xs × DistinctTexts xs

keep_same :
    (f g : String → Bool) (xs : List String) → All (λ x. f x ≡ g x) xs → keep f xs ≡ keep g xs
keep_same f g [] _ = refl
keep_same f g (x ∷ xs) (h, hs) =
    λ i. if h i then x ∷ keep_same f g xs hs i else keep_same f g xs hs i

unless_duplicate :
    (b : Bool) (e : SuiteError) (rest : Checked (List String)) (w : List String)
    → (if b then rejected e else rest) ≡ accepted w
    → rest ≡ accepted w
unless_duplicate true e rest w h = ground arith
unless_duplicate false e rest w h = h

mark-contains_text :
    (kinds wanted w : List String) (k : String)
    → mark wanted kinds ≡ accepted w
    → contains_text w k ≡ (contains_text kinds k || contains_text wanted k)
unfolding mark contains_text
mark-contains_text [] wanted w k h = cc
mark-contains_text (kind ∷ kinds) wanted w k h = ground (
  arith,
  mark-contains_text kinds (kind ∷ wanted) w k (
      unless_duplicate (contains_text wanted kind) (duplicate_subject kind)
        (mark (kind ∷ wanted) kinds) w h),
)

remove-contains_text :
    (kind : String) (wanted : List String) (k : String)
    → contains_text (remove kind wanted) k ≡ (not (str_eq kind k) && contains_text wanted k)
unfolding remove contains_text
remove-contains_text kind [] k = ground arith
remove-contains_text kind (w ∷ wanted) k = ground (
  arith,
  remove-contains_text kind wanted k,
  str_eq_iff w kind,
  str_eq_iff w k,
  str_eq_iff kind k,
)

without :
    (kind : String) (wanted xs : List String)
    → All (λ y. str_eq kind y ≡ false) xs
    → All (λ x. contains_text (remove kind wanted) x ≡ contains_text wanted x) xs
without kind wanted [] _ = tt
without kind wanted (x ∷ xs) (h, hs) =
    (ground (arith, remove-contains_text kind wanted x, h), without kind wanted xs hs)

pick-keep :
    (kinds wanted : List String)
    → DistinctTexts kinds
    → (pick kinds wanted).0 ≡ keep (contains_text wanted) kinds
unfolding pick
pick-keep [] wanted _ = refl
pick-keep (kind ∷ kinds) wanted (h, hs) = elim (Bool-cases (contains_text wanted kind)) [
  | inl e ↦
      let taken =
        pick-keep kinds (remove kind wanted) hs
        ∙ keep_same _ _ kinds (without kind wanted kinds h) in
      ap (λ (p : List String × List String). p.0) (if-true _ _ _ e)
      ∙ ap (λ xs. kind ∷ xs) taken
      ∙ sym (if-true _ _ _ e)
  | inr e ↦
      ap (λ (p : List String × List String). p.0) (if-false _ _ _ e)
      ∙ pick-keep kinds wanted hs
      ∙ sym (if-false _ _ _ e)
]

same_text :
    (wanted : List String) (x k : String)
    → str_eq x k ≡ true
    → contains_text wanted x ≡ contains_text wanted k
same_text wanted x k h = ap (contains_text wanted) ((str_eq_iff x k).0 h)

not_found :
    (wanted kinds : List String) (kind k : String)
    → contains_text wanted kind ≡ false
    → (contains_text wanted k && not (contains_text kinds k))
      ≡ (contains_text wanted k && not (str_eq kind k || contains_text kinds k))
not_found wanted kinds kind k e = elim (Bool-cases (str_eq kind k)) [
  | inl same ↦ ground (arith, same_text wanted kind k same, e, same)
  | inr other ↦ ground (arith, other)
]

pick-contains_text :
    (kinds wanted : List String) (k : String)
    → contains_text (pick kinds wanted).1 k
      ≡ (contains_text wanted k && not (contains_text kinds k))
unfolding pick contains_text
pick-contains_text [] wanted k = ground arith
pick-contains_text (kind ∷ kinds) wanted k = elim (Bool-cases (contains_text wanted kind)) [
  | inl e ↦
      ap (λ (p : List String × List String). contains_text p.1 k) (if-true _ _ _ e)
      ∙ ground (
        arith,
        pick-contains_text kinds (remove kind wanted) k,
        remove-contains_text kind wanted k,
      )
  | inr e ↦
      ap (λ (p : List String × List String). contains_text p.1 k) (if-false _ _ _ e)
      ∙ pick-contains_text kinds wanted k
      ∙ not_found wanted kinds kind k e
]

picked-accepted :
    (x : List String × List String) (out : List String)
    → picked x ≡ accepted out
    → (x.0 ≡ out) × (x.1 ≡ [])
unfolding picked
picked-accepted (selected, []) out h = (cc, refl)
picked-accepted (selected, kind ∷ kinds) out h = ground arith

nothing : (k : String) → contains_text [] k ≡ false
unfolding contains_text
nothing k = refl

or_nothing :
    (xs : List String) (k : String)
    → (contains_text xs k || contains_text [] k) ≡ contains_text xs k
or_nothing xs k = ground (arith, nothing k)

keep_all :
    (f g : String → Bool) → ((x : String) → f x ≡ g x) → (xs : List String) → keep f xs ≡ keep g xs
keep_all f g h [] = refl
keep_all f g h (x ∷ xs) = λ i. if h x i then x ∷ keep_all f g h xs i else keep_all f g h xs i

kinds_distinct : DistinctTexts subject_kinds
kinds_distinct = ground arith

wanted_available :
    (req kinds wanted : List String) (k : String)
    → contains_text wanted k ≡ contains_text req k
    → (pick kinds wanted).1 ≡ []
    → contains_text req k ≡ true
    → contains_text kinds k ≡ true
wanted_available req kinds wanted k same none_left h =
    let left = sym (pick-contains_text kinds wanted k) ∙ ap (λ xs. contains_text xs k) none_left in
    ground (arith, left, same, h, nothing k)

-- The subjects that are selected for a request are the available ones that it names, in their order, and
-- the request names no other.
pub selected_subjects-keep :
    (kind : String) (kinds out : List String)
    → selected_subjects (kind ∷ kinds) ≡ accepted out
    → (out ≡ keep (contains_text (kind ∷ kinds)) subject_kinds)
      × ((k : String)
          → contains_text (kind ∷ kinds) k ≡ true
          → contains_text subject_kinds k ≡ true)
unfolding selected_subjects
selected_subjects-keep kind kinds out h =
    let a = and_then-accepted _ _ out h in
    let b = picked-accepted _ out a.2 in
    let same = λ (k : String).
      mark-contains_text (kind ∷ kinds) [] a.0 k a.1 ∙ or_nothing (kind ∷ kinds) k in
    (
      sym b.0 ∙ pick-keep subject_kinds a.0 kinds_distinct ∙ keep_all _ _ same subject_kinds,
      λ k named. wanted_available (kind ∷ kinds) subject_kinds a.0 k (same k) b.1 named,
    )
