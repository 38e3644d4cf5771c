-- ===== src/Protocol/Matrix/Accepted.antt =====
-- internal/protocol/matrix.go: what a matrix that NormalizeAndValidateMatrix accepts has, and that to
-- normalize is to do so for good.
use sing_box_inbound_bench.Base.{
  ℕ, suc, List, [], ◌∷◌, ◌++◌, String, str_eq_iff, Bool, true, false, not, Option, none, some, All,
  append-[], ◌≡◌, ◌≢◌, refl, ap, ◌∙◌, arith,
}
use sing_box_inbound_bench.Protocol.Config.{Config, version, contains_text, subject_raw}
use sing_box_inbound_bench.Base.Int.{pos}
use sing_box_inbound_bench.Protocol.Config.Defaults.{apply_defaults}
use sing_box_inbound_bench.Protocol.Config.Idempotent.{
  apply_defaults_idem, or_text_idem, or_int_idem,
}
use sing_box_inbound_bench.Protocol.Config.Errors.{NetText, ConfigError}
use sing_box_inbound_bench.Protocol.Config.Validate.{validate}
use sing_box_inbound_bench.Protocol.Matrix.{
  MatrixConfig, MatrixError, fault, wrapped, check_case, check_cases, control_errors, judge_control,
  check_control, header_errors, no_case_errors, normalize_and_validate_matrix,
}

-- Configurations with an identifier of their own each.
abbrev pub Distinct : List Config → Type 0
Distinct [] = Unit
Distinct (c ∷ cs) = All (λ d. c.run_id ≢ d.run_id) cs × Distinct cs

abbrev pub Accepted : NetText → Config → Type 0
Accepted net c = validate net c ≡ []

abbrev pub ControlAccepted : NetText → Option Config → Type 0
ControlAccepted net none = Unit
ControlAccepted net (some c) = (validate net c ≡ []) × (c.subject.kind ≡ subject_raw)

-- The cases are accepted with identifiers of their own, and the control is an accepted raw subject.
abbrev pub IsRunnable : NetText → MatrixConfig → Type 0
IsRunnable net m =
    (m.cases ≢ [])
    × All (Accepted net) m.cases
    × Distinct m.cases
    × ControlAccepted net m.raw_control

wrapped-[] :
    (wrap : List ConfigError → MatrixError) (es : List ConfigError) → wrapped wrap es ≡ [] → es ≡ []
unfolding wrapped
wrapped-[] wrap [] h = refl
wrapped-[] wrap (e ∷ es) h = cc

fault-[] : (bad : Bool) (e : MatrixError) → fault bad e ≡ [] → bad ≡ false
unfolding fault
fault-[] true e h = cc
fault-[] false e h = refl

abbrev IsFresh : List String → Config → Type 0
IsFresh seen c = contains_text seen c.run_id ≡ false

IsFresh-head :
    (id : String) (seen : List String) (c : Config) → IsFresh (id ∷ seen) c → id ≢ c.run_id
unfolding contains_text
IsFresh-head id seen c h = ground (arith, str_eq_iff id c.run_id)

IsFresh-tail :
    (id : String) (seen : List String) (c : Config) → IsFresh (id ∷ seen) c → IsFresh seen c
unfolding contains_text
IsFresh-tail id seen c h = ground arith

All-weaken :
    {P Q : Config → Type 0} → ((c : Config) → P c → Q c) → (cs : List Config) → All P cs → All Q cs
All-weaken f [] _ = tt
All-weaken f (c ∷ cs) (p, ps) = (f c p, All-weaken f cs ps)

cases_runnable :
    (net : NetText) (index : ℕ) (seen : List String) (cs : List Config)
    → (check_cases net index seen cs).1 ≡ []
    → All (Accepted net) (check_cases net index seen cs).0
      × Distinct (check_cases net index seen cs).0
      × All (IsFresh seen) (check_cases net index seen cs).0
unfolding check_cases
cases_runnable net index seen [] h = (tt, tt, tt)
cases_runnable net index seen (c ∷ cs) h =
    let d = apply_defaults c in
    let a = append-[] (wrapped _ _) _ h in
    let b = append-[] (fault _ _) _ a.1 in
    let rest = cases_runnable net (suc index) (d.run_id ∷ seen) cs b.1 in
    let out = (check_cases net (suc index) (d.run_id ∷ seen) cs).0 in
    (
      (wrapped-[] _ _ a.0, rest.0),
      (All-weaken (IsFresh-head d.run_id seen) out rest.2, rest.1),
      (fault-[] _ _ b.0, All-weaken (IsFresh-tail d.run_id seen) out rest.2),
    )

judged :
    (es : List ConfigError) (d : Config)
    → judge_control es d ≡ []
    → (es ≡ []) × (d.subject.kind ≡ subject_raw)
unfolding judge_control
judged [] d h = (refl, (str_eq_iff d.subject.kind subject_raw).0 (unnot _ (fault-[] _ _ h)))
  where
    unnot : (b : Bool) → not b ≡ false → b ≡ true
    unnot b e = ground arith
judged (e ∷ es) d h = cc

control_accepted :
    (net : NetText) (o : Option Config)
    → (check_control net o).1 ≡ []
    → ControlAccepted net (check_control net o).0
unfolding check_control
control_accepted net none h = tt
control_accepted net (some c) h = judged (validate net (apply_defaults c)) (apply_defaults c) h

some_case :
    (net : NetText) (cs : List Config) → no_case_errors cs ≡ [] → (check_cases net 0 [] cs).0 ≢ []
unfolding no_case_errors check_cases
some_case net [] h = ground arith
some_case net (c ∷ cs) h = ground arith

-- A matrix that is accepted can be run.
pub accepted-IsRunnable :
    (net : NetText) (m : MatrixConfig)
    → (normalize_and_validate_matrix net m).1 ≡ []
    → IsRunnable net (normalize_and_validate_matrix net m).0
unfolding normalize_and_validate_matrix
accepted-IsRunnable net m h =
    let a = append-[] (header_errors net _) _ h in
    let b = append-[] (no_case_errors m.cases) _ a.1 in
    let d = append-[] (check_cases net 0 [] m.cases).1 _ b.1 in
    let runnable = cases_runnable net 0 [] m.cases d.0 in
    (some_case net m.cases b.0, runnable.0, runnable.1, control_accepted net m.raw_control d.1)

check_cases_idem :
    (net : NetText) (index : ℕ) (seen : List String) (cs : List Config)
    → check_cases net index seen (check_cases net index seen cs).0 ≡ check_cases net index seen cs
unfolding check_cases apply_defaults
check_cases_idem net index seen [] = refl
check_cases_idem net index seen (c ∷ cs) =
    let again =
      check_cases net (suc index) (c.run_id ∷ seen)
        (check_cases net (suc index) (c.run_id ∷ seen) cs).0 in
    ap (λ d. check_case net index seen d again) (apply_defaults_idem c)
    ∙ ap (check_case net index seen (apply_defaults c))
        (check_cases_idem net (suc index) (c.run_id ∷ seen) cs)

check_control_idem :
    (net : NetText) (o : Option Config)
    → check_control net (check_control net o).0 ≡ check_control net o
unfolding check_control
check_control_idem net none = refl
check_control_idem net (some c) =
    λ i. (some (apply_defaults_idem c i), control_errors net (apply_defaults_idem c i))

no_case_errors_same :
    (net : NetText) (cs : List Config)
    → no_case_errors (check_cases net 0 [] cs).0 ≡ no_case_errors cs
unfolding no_case_errors check_cases
no_case_errors_same net [] = refl
no_case_errors_same net (c ∷ cs) = refl

-- A matrix that has been normalized is not changed again, and has the same errors.
pub normalize_and_validate_matrix_idem :
    (net : NetText) (m : MatrixConfig)
    → normalize_and_validate_matrix net (normalize_and_validate_matrix net m).0
      ≡ normalize_and_validate_matrix net m
unfolding normalize_and_validate_matrix header_errors
normalize_and_validate_matrix_idem net m = λ i.
    let n = record m {
      protocol_version = or_text_idem m.protocol_version version i;
      seed = or_int_idem m.seed (pos 1) i;
    } in
    let checked = check_cases_idem net 0 [] m.cases i in
    let control = check_control_idem net m.raw_control i in
    (
      record n { cases = checked.0; raw_control = control.0 },
      header_errors net n ++ (no_case_errors_same net m.cases i ++ (checked.1 ++ control.1)),
    )
