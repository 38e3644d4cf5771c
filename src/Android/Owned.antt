-- ===== src/Android/Owned.antt =====
-- internal/platform/android/orchestrator.go and internal/netfilter/manager.go: snapshotOwnership owns what
-- each case of the matrix leaves on the device, the chains of its netfilter manager among it.
use Prim.Native.String.{len}
use text.Mathlib.TextPositions.{len-append}
use sing_box_inbound_bench.Base.{
  ◌<◌, List, [], ◌∷◌, ◌++◌, String, str_append, str_eq, str_eq_iff, Bool, true, false, not, ◌||◌,
  if◌then◌else◌, if-true, if-false, All, ◌≡◌, refl, ap, sym, subst, ◌∙◌, arith, Bool-cases, inl,
  inr,
}
use sing_box_inbound_bench.Text.{bytes, hex8}
use sing_box_inbound_bench.Wire.{crc32}
use sing_box_inbound_bench.Protocol.Config.{Config, subject_redirect, subject_tproxy, contains_text}
use sing_box_inbound_bench.Protocol.Config.Errors.{NetText}
use sing_box_inbound_bench.Protocol.Matrix.{MatrixConfig}
use sing_box_inbound_bench.Netfilter
use sing_box_inbound_bench.Netfilter.{make_manager, chains, is_redirect}
use sing_box_inbound_bench.Android.{
  SnapshotOwnership, add_to, add_marker, own_markers, add_all, own_cases, snapshot_ownership,
  chain_hash,
}

-- A marker is owned under the name of a command.
unfoldable pub owns : SnapshotOwnership → String → String → Bool
owns [] name marker = false
owns ((n, ms) ∷ own) name marker =
    let rest = owns own name marker in if str_eq n name then contains_text ms marker else rest

contains_text-append :
    (xs ys : List String) (x : String)
    → contains_text (xs ++ ys) x ≡ (contains_text xs x || contains_text ys x)
unfolding contains_text
contains_text-append [] ys x = refl
contains_text-append (z ∷ zs) ys x = ground (arith, contains_text-append zs ys x)

contains_text-single : (x y : String) → contains_text (y ∷ []) x ≡ str_eq y x
unfolding contains_text
contains_text-single x y = ground arith

add_to-keeps :
    (y : String) (ms : List String) (x : String)
    → contains_text ms x ≡ true
    → contains_text (add_to y ms) x ≡ true
unfolding add_to
add_to-keeps y ms x h = ground (arith, contains_text-append ms (y ∷ []) x, h)

add_to-adds :
    (y : String) (ms : List String) → str_eq y "" ≡ false → contains_text (add_to y ms) y ≡ true
unfolding add_to
add_to-adds y ms h =
    ground (arith, contains_text-append ms (y ∷ []) y, contains_text-single y y, str_eq_iff y y, h)

add_marker-keeps :
    (n y : String) (own : SnapshotOwnership) (name x : String)
    → owns own name x ≡ true
    → owns (add_marker n y own) name x ≡ true
unfolding owns add_marker
add_marker-keeps n y [] name x h = cc
add_marker-keeps n y ((k, ms) ∷ own) name x h = elim (Bool-cases (str_eq k n)) [
  | inl e ↦
      subst (λ o. owns o name x ≡ true) (sym (if-true _ _ _ e))
        (ground (arith, add_to-keeps y ms x, h))
  | inr e ↦
      subst (λ o. owns o name x ≡ true) (sym (if-false _ _ _ e))
        (ground (arith, add_marker-keeps n y own name x, h))
]

add_marker-adds :
    (n y : String) (own : SnapshotOwnership)
    → str_eq y "" ≡ false
    → owns (add_marker n y own) n y ≡ true
unfolding owns add_marker
add_marker-adds n y [] h =
    subst (λ b. owns (if not b then (n, y ∷ []) ∷ [] else []) n y ≡ true) (sym h)
      (if-true _ _ _ ((str_eq_iff n n).1 refl) ∙ contains_text-single y y ∙ (str_eq_iff y y).1 refl)
add_marker-adds n y ((k, ms) ∷ own) h = elim (Bool-cases (str_eq k n)) [
  | inl e ↦
      subst (λ o. owns o n y ≡ true) (sym (if-true _ _ _ e)) (if-true _ _ _ e ∙ add_to-adds y ms h)
  | inr e ↦
      subst (λ o. owns o n y ≡ true) (sym (if-false _ _ _ e))
        (if-false _ _ _ e ∙ add_marker-adds n y own h)
]

add_all-keeps :
    (calls : List (String × String)) (own : SnapshotOwnership) (name x : String)
    → owns own name x ≡ true
    → owns (add_all calls own) name x ≡ true
unfolding add_all
add_all-keeps [] own name x h = h
add_all-keeps ((n, y) ∷ calls) own name x h =
    add_all-keeps calls (add_marker n y own) name x (add_marker-keeps n y own name x h)

-- A call of `add` has left its marker.
abbrev pub IsOwned : SnapshotOwnership → String × String → Type 0
IsOwned own (name, marker) = str_eq marker "" ≡ false → owns own name marker ≡ true

add_all-IsOwned :
    (calls : List (String × String)) (own : SnapshotOwnership)
    → All (IsOwned (add_all calls own)) calls
unfolding add_all
add_all-IsOwned [] own = tt
add_all-IsOwned ((n, y) ∷ calls) own = (
  λ h. add_all-keeps calls (add_marker n y own) n y (add_marker-adds n y own h),
  add_all-IsOwned calls (add_marker n y own),
)

own_cases-keeps :
    (net : NetText) (cs : List Config) (own : SnapshotOwnership) (name x : String)
    → owns own name x ≡ true
    → owns (own_cases net cs own) name x ≡ true
unfolding own_cases
own_cases-keeps net [] own name x h = h
own_cases-keeps net (c ∷ cs) own name x h =
    own_cases-keeps net cs (add_all (own_markers net c) own) name x
      (add_all-keeps (own_markers net c) own name x h)

still-IsOwned :
    (net : NetText) (cs : List Config) (own : SnapshotOwnership) (calls : List (String × String))
    → All (IsOwned own) calls
    → All (IsOwned (own_cases net cs own)) calls
still-IsOwned net cs own [] _ = tt
still-IsOwned net cs own ((n, y) ∷ calls) (h, hs) =
    (λ e. own_cases-keeps net cs own n y (h e), still-IsOwned net cs own calls hs)

own_cases-IsOwned :
    (net : NetText) (before : List Config) (c : Config) (after : List Config)
    (own : SnapshotOwnership)
    → All (IsOwned (own_cases net (before ++ (c ∷ after)) own)) (own_markers net c)
unfolding own_cases
own_cases-IsOwned net [] c after own =
    still-IsOwned net after (add_all (own_markers net c) own) (own_markers net c)
      (add_all-IsOwned (own_markers net c) own)
own_cases-IsOwned net (b ∷ before) c after own =
    own_cases-IsOwned net before c after (add_all (own_markers net b) own)

case-IsOwned :
    (net : NetText) (m : MatrixConfig) (before : List Config) (c : Config) (after : List Config)
    → m.cases ≡ before ++ (c ∷ after)
    → All (IsOwned (snapshot_ownership net m)) (own_markers net c)
unfolding snapshot_ownership
case-IsOwned net m before c after e =
    subst (λ cs. All (IsOwned (own_cases net cs [])) (own_markers net c)) (sym e)
      (own_cases-IsOwned net before c after [])

abbrev pub InBoth : SnapshotOwnership → String → Type 0
InBoth own chain = (owns own "iptables" chain ≡ true) × (owns own "ip6tables" chain ≡ true)

named : (stem hash : String) → 0 < len stem → str_eq (str_append stem hash) "" ≡ false
named stem hash h = elim (Bool-cases (str_eq (str_append stem hash) "")) [
  | inl e ↦
      let none = ap len ((str_eq_iff (str_append stem hash) "").0 e) in
      absurd (omega (arith, len-append stem hash, none, h))
  | inr e ↦ e
]

-- The chains of a manager, by its kind and the hash of its run.
chains_named : Bool → String → List String
chains_named redirected hash =
    if str_eq (if redirected then "" else str_append "SBI_P_" hash) ""
    then str_append (if redirected then "SBI_R_" else "SBI_O_") hash ∷ []
    else str_append (if redirected then "SBI_R_" else "SBI_O_") hash
      ∷ (if redirected then "" else str_append "SBI_P_" hash)
      ∷ []

chains-make_manager :
    (n : Netfilter.Config)
    → chains (make_manager n) ≡ chains_named (is_redirect n.kind) (hex8 (crc32 n.run_id))
unfolding make_manager chains_named
chains-make_manager n = refl

module _ (net : NetText) (c : Config) (own : SnapshotOwnership)
    (owned : All (IsOwned own) (own_markers net c)) where
  redirect_chains :
      str_eq c.subject.kind subject_redirect ≡ true
      → All (InBoth own) (chains_named true (chain_hash c))
  unfolding own_markers chains_named
  redirect_chains e =
      let calls = subst (All (IsOwned own)) (if-true _ _ _ e) owned in
      let text = named "SBI_R_" (chain_hash c) (omega arith) in ((calls.0 text, calls.1.0 text), tt)

  tproxy_chains :
      str_eq c.subject.kind subject_redirect ≡ false
      → str_eq c.subject.kind subject_tproxy ≡ true
      → All (InBoth own) (chains_named false (chain_hash c))
  unfolding own_markers chains_named
  tproxy_chains d e =
      let calls = subst (All (IsOwned own)) (if-false _ _ _ d ∙ if-true _ _ _ e) owned in
      let out = named "SBI_O_" (chain_hash c) (omega arith) in
      let pre = named "SBI_P_" (chain_hash c) (omega arith) in
      subst (All (InBoth own)) (sym (if-false _ _ _ pre))
        ((calls.0 out, calls.1.1.0 out), ((calls.1.0 pre, calls.1.1.1.0 pre), tt))

-- Of each redirect or tproxy case of the matrix, the chains that a netfilter manager of that kind for the
-- case's run creates are owned in both firewalls, so that VerifySnapshot looks for them.
pub snapshot_ownership-chains :
    (net : NetText) (m : MatrixConfig) (before : List Config) (c : Config) (after : List Config)
    (n : Netfilter.Config)
    → m.cases ≡ before ++ (c ∷ after)
    → (str_eq c.subject.kind subject_redirect || str_eq c.subject.kind subject_tproxy) ≡ true
    → is_redirect n.kind ≡ str_eq c.subject.kind subject_redirect
    → n.run_id ≡ bytes c.run_id
    → All (InBoth (snapshot_ownership net m)) (chains (make_manager n))
snapshot_ownership-chains net m before c after n e kind same run =
    let own = snapshot_ownership net m in
    let owned = case-IsOwned net m before c after e in
    subst (All (InBoth own)) (sym (chains-make_manager n)) (
      subst (λ id. All (InBoth own) (chains_named (is_redirect n.kind) (hex8 (crc32 id)))) (sym run)
        (subst (λ b. All (InBoth own) (chains_named b (chain_hash c))) (sym same)
          (elim (Bool-cases (str_eq c.subject.kind subject_redirect)) [
            | inl r ↦
                subst (λ b. All (InBoth own) (chains_named b (chain_hash c))) (sym r)
                  (redirect_chains net c own owned r)
            | inr r ↦
                subst (λ b. All (InBoth own) (chains_named b (chain_hash c))) (sym r)
                  (tproxy_chains net c own owned r (other _ _ kind r))
          ])))
  where
    other : (a b : Bool) → (a || b) ≡ true → a ≡ false → b ≡ true
    other a b h k = ground arith
