-- ===== src/Command/Jobs/Redaction.antt =====
-- cmd/inbound-bench/main.go, runMatrix: the redaction of the matrix that is written to matrix.json. A
-- MatrixConfig holds its cases and its control by reference, so the copy `redacted` has those of the
-- matrix itself, and the loop over the copy writes to both. Configurations are cells of a heap.
use sing_box_inbound_bench.Base.{
  ℕ, ◌==◌, List, [], ◌∷◌, map, str_eq, str_eq_iff, Bool, true, false, not, if◌then◌else◌, Option,
  none, some, ◌≡◌, ◌≢◌, ◌⊎◌, ◌∙◌, arith, inl, inr, refl, ap, sym, subst, Bool-cases, if-true,
  if-false, if-both,
}
use sing_box_inbound_bench.Protocol.Config.{Config}

abbrev pub Heap : Type 0
Heap = ℕ → Config

-- What the redaction touches of a MatrixConfig: its elements of Cases and its RawControl, by their
-- addresses, and Resume.
pub record MatrixVar : Type 0 where
  pub resume : Bool
  pub cases : List ℕ
  pub raw_control : Option ℕ

abbrev pub redacted_config : Config → Config
redacted_config c = record c { subject = record c.subject { api_token = "<redacted>" } }

-- The function literal `redactConfig`, on a pointer that is not nil.
unfoldable pub redact_config : ℕ → Heap → Heap
redact_config p h =
    if not (str_eq (h p).subject.api_token "")
    then (λ a. if a == p then redacted_config (h p) else h a)
    else h

unfoldable pub redact_control : Option ℕ → Heap → Heap
redact_control none h = h
redact_control (some p) h = redact_config p h

-- The loop over `redacted.Cases`.
unfoldable pub redact_cases : List ℕ → Heap → Heap
redact_cases [] h = h
redact_cases (p ∷ ps) h = redact_cases ps (redact_config p h)

-- The copy `redacted`, whose addresses are those of the matrix, and the heap that is left.
unfoldable pub redact_matrix : MatrixVar → Heap → MatrixVar × Heap
redact_matrix matrix h =
    let redacted : MatrixVar = matrix in
    let cells = redact_control redacted.raw_control (redact_cases redacted.cases h) in
    (record redacted { resume = false }, cells)

-- A configuration, and what is left of it: the same without its token.
pub data Redacted : Config → Config → Type 0 where
  no_token : {c : Config} → c.subject.api_token ≡ "" → Redacted c c
  replaced :
      {c : Config}
      → c.subject.api_token ≢ ""
      → Redacted c (record c { subject = record c.subject { api_token = "<redacted>" } })

pub data AllRedacted : List Config → List Config → Type 0 where
  none_left : AllRedacted [] []
  then_all :
      {c d : Config} {cs ds : List Config}
      → Redacted c d
      → AllRedacted cs ds
      → AllRedacted (c ∷ cs) (d ∷ ds)

abbrev pub ControlRedacted : Heap → Heap → Option ℕ → Option ℕ → Type 0
ControlRedacted before after none none = Unit
ControlRedacted before after none (some q) = ⊥
ControlRedacted before after (some p) none = ⊥
ControlRedacted before after (some p) (some q) = Redacted (before p) (after q)

-- The cases and the control of one matrix, and those that another has later.
pub record MatrixRedacted (before : Heap) (m : MatrixVar) (after : Heap) (n : MatrixVar)
    : Type 0 where
  pub cases : AllRedacted (map before m.cases) (map after n.cases)
  pub control : ControlRedacted before after m.raw_control n.raw_control

-- A cell that was not redacted yet, or was.
Touched : Config → Config → Type 0
Touched c d = (c ≡ d) ⊎ Redacted c d

written :
    (c : Config) → Redacted c (if not (str_eq c.subject.api_token "") then redacted_config c else c)
written c = elim (Bool-cases (str_eq c.subject.api_token "")) [
  | inl e ↦
      subst (Redacted c) (sym (if-false _ _ _ (ap not e)))
        (no_token ((str_eq_iff c.subject.api_token "").0 e))
  | inr e ↦ subst (Redacted c) (sym (if-true _ _ _ (ap not e))) (replaced (λ n. unequal c n e))
]
  where
    unequal : (c : Config) → c.subject.api_token ≡ "" → str_eq c.subject.api_token "" ≡ false → ⊥
    unequal c n e = let same = (str_eq_iff c.subject.api_token "").1 n in cc

-- To redact once more changes nothing.
rewritten :
    (c d : Config)
    → Touched c d
    → Redacted c (if not (str_eq d.subject.api_token "") then redacted_config d else d)
unfolding Touched
rewritten c d (inl e) =
    subst (λ d. Redacted c (if not (str_eq d.subject.api_token "") then redacted_config d else d)) e
      (written c)
rewritten c d (inr r) = again r
  where
    again :
        {x y : Config}
        → Redacted x y
        → Redacted x (if not (str_eq y.subject.api_token "") then redacted_config y else y)
    again {x} (no_token e) = written x
    again (replaced n) = replaced n

same_cell : (p a : ℕ) (h : Heap) → (a == p) ≡ true → h p ≡ h a
same_cell p a h e = let q : p ≡ a = ground (arith, e) in ap h q

cell :
    (p a : ℕ) (h : Heap) (b : Bool)
    → (if b then (λ a. if a == p then redacted_config (h p) else h a) else h) a
      ≡ (if a == p then (if b then redacted_config (h p) else h p) else h a)
cell p a h true = refl
cell p a h false = elim (Bool-cases (a == p)) [
  | inl e ↦ sym (same_cell p a h e) ∙ sym (if-true (a == p) (h p) (h a) e)
  | inr e ↦ sym (if-false (a == p) (h p) (h a) e)
]

module _ (c : Config) (p a : ℕ) (h : Heap) where
  at_cell :
      (P : Config → Type 0)
      → ((a == p) ≡ true
          → P (if not (str_eq (h p).subject.api_token "") then redacted_config (h p) else h p))
      → ((a == p) ≡ false → P (h a))
      → P (redact_config p h a)
  unfolding redact_config
  at_cell P here there = subst P (sym (cell p a h _)) (if-both P (a == p) here there)

  Touched-redact : Touched c (h a) → Touched c (redact_config p h a)
  unfolding Touched
  Touched-redact t =
      at_cell (λ d. Touched c d)
        (λ e. inr (rewritten c (h p) (subst (λ d. Touched c d) (sym (same_cell p a h e)) t)))
        (λ _. t)

  Redacted-redact : Redacted c (h a) → Redacted c (redact_config p h a)
  unfolding Touched
  Redacted-redact r =
      at_cell (Redacted c)
        (λ e. rewritten c (h p) (inr (subst (Redacted c) (sym (same_cell p a h e)) r))) (λ _. r)

redact_here : (c : Config) (p : ℕ) (h : Heap) → Touched c (h p) → Redacted c (redact_config p h p)
redact_here c p h t =
    at_cell c p p h (Redacted c) (λ _. rewritten c (h p) t) (λ e. absurd (unequal e))
  where
    unequal : (p == p) ≡ false → ⊥
    unequal e = ground arith

-- A cell that is redacted stays so.
redact_cases-kept :
    (c : Config) (a : ℕ) (ps : List ℕ) (h : Heap)
    → Redacted c (h a)
    → Redacted c (redact_cases ps h a)
unfolding redact_cases
redact_cases-kept c a [] h r = r
redact_cases-kept c a (p ∷ ps) h r =
    redact_cases-kept c a ps (redact_config p h) (Redacted-redact c p a h r)

redact_cases-Touched :
    (c : Config) (a : ℕ) (ps : List ℕ) (h : Heap)
    → Touched c (h a)
    → Touched c (redact_cases ps h a)
unfolding redact_cases
redact_cases-Touched c a [] h t = t
redact_cases-Touched c a (p ∷ ps) h t =
    redact_cases-Touched c a ps (redact_config p h) (Touched-redact c p a h t)

redact_control-kept :
    (c : Config) (a : ℕ) (control : Option ℕ) (h : Heap)
    → Redacted c (h a)
    → Redacted c (redact_control control h a)
unfolding redact_control
redact_control-kept c a none h r = r
redact_control-kept c a (some p) h r = Redacted-redact c p a h r

module _ (before : Heap) (control : Option ℕ) where
  cases-AllRedacted :
      (ps : List ℕ) (h : Heap)
      → ((a : ℕ) → Touched (before a) (h a))
      → AllRedacted (map before ps) (map (redact_control control (redact_cases ps h)) ps)
  unfolding redact_cases
  cases-AllRedacted [] h t = none_left
  cases-AllRedacted (p ∷ ps) h t =
      let here = redact_here (before p) p h (t p) in
      then_all
        (redact_control-kept (before p) p control (redact_cases ps (redact_config p h))
          (redact_cases-kept (before p) p ps (redact_config p h) here))
        (cases-AllRedacted ps (redact_config p h) (λ a. Touched-redact (before a) p a h (t a)))

control-Redacted :
    (before : Heap) (control : Option ℕ) (h : Heap)
    → ((a : ℕ) → Touched (before a) (h a))
    → ControlRedacted before (redact_control control h) control control
unfolding redact_control
control-Redacted before none h t = tt
control-Redacted before (some p) h t = redact_here (before p) p h (t p)

-- The matrix that is written has the cases and the control of the matrix, each the same but for its token,
-- which is the text for a redacted one where there was one; and so has, from then on, the matrix that the
-- jobs are run with.
pub redact_matrix-shared :
    (matrix : MatrixVar) (before : Heap)
    → let (redacted, after) = redact_matrix matrix before in
      MatrixRedacted before matrix after redacted
      × MatrixRedacted before matrix after matrix
      × (redacted.resume ≡ false)
unfolding redact_matrix Touched
redact_matrix-shared matrix before =
    let untouched : (a : ℕ) → Touched (before a) (before a) = λ a. inl refl in
    let shared : MatrixRedacted before matrix (redact_matrix matrix before).1 matrix = record {
      cases = cases-AllRedacted before matrix.raw_control matrix.cases before untouched;
      control =
          control-Redacted before matrix.raw_control (redact_cases matrix.cases before)
            (λ a. redact_cases-Touched (before a) a matrix.cases before (untouched a));
    } in
    (record { cases = shared.cases; control = shared.control }, shared, refl)
