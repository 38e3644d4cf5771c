-- ===== src/Netfilter/Counters.antt =====
-- internal/netfilter/manager.go: Observe, Prove and parseCounters. An observation is the value itself,
-- which the program passes on as JSON, and its map of chains is an association list.
use sing_box_inbound_bench.Base.{
  ℕ, ◌+◌, ◌-◌, ◌*◌, ◌^◌, ◌<◌, List, [], ◌∷◌, ◌++◌, Bool, true, false, ◌&&◌, ◌==◌, ltb, leb,
  if◌then◌else◌, u64, String, str_eq, Option, none, some, ◌⊎◌, inl, inr, ◌≡◌, ◌↔◌, refl, All,
  Bool-cases, arith, length, sym, ◌∙◌, if-true, if-false,
}
use sing_box_inbound_bench.Text.{is_space}
use sing_box_inbound_bench.Netfilter.{
  Command, Failure, read_counters, not_increased, Manager, Exec, chains, table,
}
use sing_box_inbound_bench.Netfilter.Rules.{run}

pub record ChainCounters : Type 0 where
  pub packets : ℕ
  pub bytes : ℕ

pub record Observation : Type 0 where
  pub family : String
  pub counters : List (String × ChainCounters)
  pub commands : List Command

-- The first piece and the others, of a text that begins with `b`.
abbrev onto : ℕ → List (List ℕ) → List (List ℕ)
onto b [] = (b ∷ []) ∷ []
onto b (piece ∷ pieces) = (b ∷ piece) ∷ pieces

-- `strings.Split(string(output), "\n")`
unfoldable pub split_lines : List ℕ → List (List ℕ)
split_lines [] = [] ∷ []
split_lines (b ∷ bs) = let rest = split_lines bs in if b == 10 then [] ∷ rest else onto b rest

abbrev starts_field : List ℕ → List (List ℕ) → List (List ℕ)
starts_field word [] = if leb 1 (length word) then word ∷ [] else []
starts_field word (f ∷ fs) = if leb 1 (length word) then word ∷ f ∷ fs else f ∷ fs

-- `strings.Fields`, behind the bytes `word` of a field that has begun.
unfoldable pub fields_from : List ℕ → List ℕ → List (List ℕ)
fields_from word [] = starts_field word []
fields_from word (b ∷ bs) =
    let ended = fields_from [] bs in
    let grown = fields_from (word ++ (b ∷ [])) bs in
    if is_space b then starts_field word ended else grown

abbrev is_digit : ℕ → Bool
is_digit b = leb 48 b && leb b 57

-- The value of a run of digits behind `n`, and nothing where a byte is no digit or the value does not
-- fit 64 bits.
unfoldable pub parse_digits : ℕ → List ℕ → Option ℕ
parse_digits n [] = if ltb n (2 ^ 64) then some n else none
parse_digits n (b ∷ bs) =
    let rest = parse_digits (n * 10 + (b - 48)) bs in if is_digit b then rest else none

-- `strconv.ParseUint(text, 10, 64)`
unfoldable pub parse_uint : List ℕ → Option ℕ
parse_uint [] = none
parse_uint (b ∷ bs) = parse_digits 0 (b ∷ bs)

abbrev pub add_counters : ChainCounters → Option ℕ → Option ℕ → ChainCounters
add_counters c (some packets) (some bytes) = record {
  packets = u64 (c.packets + packets);
  bytes = u64 (c.bytes + bytes);
}
add_counters c none bytes = c
add_counters c (some packets) none = c

abbrev pub add_fields : ChainCounters → List (List ℕ) → ChainCounters
add_fields c [] = c
add_fields c (f ∷ []) = c
add_fields c (f ∷ g ∷ rest) = add_counters c (parse_uint f) (parse_uint g)

unfoldable pub add_lines : ChainCounters → List (List ℕ) → ChainCounters
add_lines c [] = c
add_lines c (line ∷ lines) = add_lines (add_fields c (fields_from [] line)) lines

unfoldable pub parse_counters : List ℕ → ChainCounters
parse_counters output = add_lines (record { packets = 0; bytes = 0 }) (split_lines output)

abbrev pub lookup : String → List (String × ChainCounters) → Option ChainCounters
lookup chain [] = none
lookup chain ((name, c) ∷ rest) = if str_eq name chain then some c else lookup chain rest

abbrev pub increased : Option ChainCounters → Option ChainCounters → Bool
increased (some b) (some a) = ltb b.packets a.packets && ltb b.bytes a.bytes
increased none a = false
increased (some b) none = false

unfoldable pub prove_chains : List String → Observation → Observation → Option Failure
prove_chains [] before after = none
prove_chains (chain ∷ rest) before after =
    let others = prove_chains rest before after in
    if increased (lookup chain before.counters) (lookup chain after.counters)
    then others
    else some (not_increased chain)

unfoldable pub prove : Manager → Observation → Observation → Option Failure
prove m before after = prove_chains (chains m) before after

module _ {W : Type 0} (exec : Exec W) where
  abbrev pub Observed : Type 0
  Observed = (Failure ⊎ Observation) × (Manager × W)

  abbrev pub counted :
      String
      → Observation
      → (Observation → Manager × W → Observed)
      → (List ℕ × Option String) × (Manager × W)
      → Observed
  counted chain o next ((output, some e), s) = (inl (read_counters chain e), s)
  counted chain o next ((output, none), s) =
      next (record o { counters = o.counters ++ ((chain, parse_counters output) ∷ []) }) s

  unfoldable pub observe_chains : Manager → List String → Observation → Manager × W → Observed
  observe_chains m [] o s = (inr o, s)
  observe_chains m (chain ∷ rest) o s = counted chain o (observe_chains m rest) (
      run exec m.config.firewall_binary
        ("-w" ∷ "-t" ∷ table m ∷ "-L" ∷ chain ∷ "-n" ∷ "-v" ∷ "-x" ∷ []) s)

  unfoldable pub observe : Manager × W → Observed
  observe (m, w) =
      observe_chains m (chains m)
        (record { family = m.family_flag; counters = []; commands = m.commands }) (m, w)

-- Both observations have the chain, and its packets and its bytes grew from the first to the second.
pub record Grew (chain : String) (before after : Observation) : Type 0 where
  pub first : ChainCounters
  pub second : ChainCounters
  pub first_read : lookup chain before.counters ≡ some first
  pub second_read : lookup chain after.counters ≡ some second
  pub packets_grew : first.packets < second.packets
  pub bytes_grew : first.bytes < second.bytes

increased-Grew :
    (chain : String) (before after : Observation)
    → (increased (lookup chain before.counters) (lookup chain after.counters) ≡ true)
      ↔ Grew chain before after
increased-Grew chain before after = (
  forth (lookup chain before.counters) (lookup chain after.counters) refl refl,
  λ g. back _ _ g.first g.second g.first_read g.second_read g.packets_grew g.bytes_grew,
)
  where
    forth :
        (b a : Option ChainCounters)
        → lookup chain before.counters ≡ b
        → lookup chain after.counters ≡ a
        → increased b a ≡ true
        → Grew chain before after
    forth none a p q h = cc
    forth (some b) none p q h = cc
    forth (some b) (some a) p q h = record {
      first = b;
      second = a;
      first_read = p;
      second_read = q;
      packets_grew = ground (arith, h);
      bytes_grew = ground (arith, h);
    }

    back :
        (b a : Option ChainCounters) (x y : ChainCounters)
        → b ≡ some x
        → a ≡ some y
        → x.packets < y.packets
        → x.bytes < y.bytes
        → increased b a ≡ true
    back none a x y p q h k = cc
    back (some b) none x y p q h k = cc
    back (some b) (some a) x y p q h k = grind arith

prove_chains-Grew :
    (cs : List String) (before after : Observation)
    → (prove_chains cs before after ≡ none) ↔ All (λ c. Grew c before after) cs
unfolding prove_chains
prove_chains-Grew [] before after = (λ _. tt, λ _. refl)
prove_chains-Grew (c ∷ cs) before after =
    let (forth, back) = increased-Grew c before after in
    let (forths, backs) = prove_chains-Grew cs before after in
    (
      λ h. elim (Bool-cases (increased (lookup c before.counters) (lookup c after.counters))) [
        | inl e ↦ (forth e, forths (sym (if-true _ _ _ e) ∙ h))
        | inr e ↦ absurd (some-none (sym (if-false _ _ _ e) ∙ h))
      ],
      λ g. if-true _ _ _ (back g.0) ∙ backs g.1,
    )
  where
    some-none : some (not_increased c) ≡ none → ⊥
    some-none h = cc

-- Prove accepts two observations exactly if each chain of the manager stands in both, and its packets
-- and its bytes grew from the first to the second.
pub prove-Grew :
    (m : Manager) (before after : Observation)
    → (prove m before after ≡ none) ↔ All (λ c. Grew c before after) (chains m)
unfolding prove
prove-Grew m = prove_chains-Grew (chains m)
