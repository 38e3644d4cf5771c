-- ===== src/Netfilter/Mutations.antt =====
-- internal/netfilter/manager.go: the changes that Install makes, as a list.
use sing_box_inbound_bench.Base.{
  List, [], ◌∷◌, ◌++◌, map, Bool, true, false, not, if◌then◌else◌, String, Option, none, some, ◌≡◌,
  refl, sym, ◌∙◌,
}
use sing_box_inbound_bench.Netfilter.{Failure, no_snapshot, Manager, Exec, is_redirect, chains}
use sing_box_inbound_bench.Netfilter.Rules.{
  and_then, Mutation, mutate, append_rule, insert_jump, new_chain, new_chains, install_redirect,
  install_tproxy, install, redirect_rule, owner_jump, route_args, rule_args, mark_rule, tproxy_rule,
  pre_jump,
}

module _ (m : Manager) where
  abbrev pub appended : String → String → List String → Mutation
  appended table chain rule = record {
    name = m.config.firewall_binary;
    forward = "-w" ∷ "-t" ∷ table ∷ "-A" ∷ chain ∷ rule;
    inverse = "-w" ∷ "-t" ∷ table ∷ "-D" ∷ chain ∷ rule;
  }

  abbrev pub inserted : String → String → List String → Mutation
  inserted table chain rule = record {
    name = m.config.firewall_binary;
    forward = "-w" ∷ "-t" ∷ table ∷ "-I" ∷ chain ∷ "1" ∷ rule;
    inverse = "-w" ∷ "-t" ∷ table ∷ "-D" ∷ chain ∷ rule;
  }

  abbrev pub created : String → String → Mutation
  created table chain = record {
    name = m.config.firewall_binary;
    forward = "-w" ∷ "-t" ∷ table ∷ "-N" ∷ chain ∷ [];
    inverse = "-w" ∷ "-t" ∷ table ∷ "-X" ∷ chain ∷ [];
  }

  unfoldable pub redirect_mutations : List Mutation
  redirect_mutations =
      created "nat" m.chain_out
      ∷ appended "nat" m.chain_out (redirect_rule m)
      ∷ inserted "nat" "OUTPUT" (owner_jump m "tcp")
      ∷ []

  abbrev pub policy_mutation : (String → List String) → Mutation
  policy_mutation args = record {
    name = m.config.ip_binary;
    forward = args "add";
    inverse = args "del";
  }

  abbrev pub filled_mutations : List Mutation
  filled_mutations =
      appended "mangle" m.chain_out (mark_rule m)
      ∷ appended "mangle" m.chain_pre (tproxy_rule m)
      ∷ inserted "mangle" "OUTPUT" (owner_jump m m.config.protocol)
      ∷ inserted "mangle" "PREROUTING" (pre_jump m)
      ∷ []

  unfoldable pub tproxy_mutations : List Mutation
  tproxy_mutations =
      policy_mutation (route_args m)
      ∷ policy_mutation (rule_args m)
      ∷ (map (created "mangle") (chains m) ++ filled_mutations)

  -- The changes of the manager's kind. The chains are complete before a jump leads to them.
  unfoldable pub mutations : List Mutation
  mutations = if is_redirect m.config.kind then redirect_mutations else tproxy_mutations

module _ {W : Type 0} (exec : Exec W) where
  unfoldable pub mutate_all : List Mutation → Manager × W → Option Failure × (Manager × W)
  mutate_all [] s = (none, s)
  mutate_all (x ∷ xs) s = and_then (mutate exec x.name x.forward x.inverse s) (mutate_all xs)

  and_then-none : (r : Option Failure × (Manager × W)) → and_then r (λ s. (none, s)) ≡ r
  unfolding and_then
  and_then-none (none, s) = refl
  and_then-none (some f, s) = refl

  and_then_assoc :
      (r : Option Failure × (Manager × W)) (k l : Manager × W → Option Failure × (Manager × W))
      → and_then (and_then r k) l ≡ and_then r (λ s. and_then (k s) l)
  unfolding and_then
  and_then_assoc (none, s) k l = refl
  and_then_assoc (some f, s) k l = refl

  install_redirect_eq :
      (m : Manager) (w : W)
      → install_redirect exec (m, w) ≡ mutate_all (redirect_mutations m) (m, w)
  unfolding install_redirect new_chain append_rule insert_jump mutate_all redirect_mutations
  install_redirect_eq m w = λ i. and_then (new_chain exec m "nat" m.chain_out (m, w)) (λ s.
      and_then (append_rule exec m "nat" m.chain_out (redirect_rule m) s)
        (λ s. sym (and_then-none (insert_jump exec m "nat" "OUTPUT" (owner_jump m "tcp") s)) i))

  new_chains-then :
      (m : Manager) (cs : List String) (rest : List Mutation) (s : Manager × W)
      → and_then (new_chains exec m cs s) (mutate_all rest)
        ≡ mutate_all (map (created m "mangle") cs ++ rest) s
  unfolding new_chains new_chain mutate_all and_then
  new_chains-then m [] rest s = refl
  new_chains-then m (c ∷ cs) rest s =
      and_then_assoc (new_chain exec m "mangle" c s) (new_chains exec m cs) (mutate_all rest)
      ∙ (λ i. and_then (new_chain exec m "mangle" c s) (λ s. new_chains-then m cs rest s i))

  fill_eq :
      (m : Manager) (s : Manager × W)
      → and_then (append_rule exec m "mangle" m.chain_out (mark_rule m) s) (λ s.
        and_then (append_rule exec m "mangle" m.chain_pre (tproxy_rule m) s) (λ s.
          and_then
            (insert_jump exec m "mangle" "OUTPUT" (owner_jump m m.config.protocol) s)
            (insert_jump exec m "mangle" "PREROUTING" (pre_jump m))))
        ≡ mutate_all (filled_mutations m) s
  unfolding append_rule insert_jump mutate_all
  fill_eq m s = λ i. and_then (append_rule exec m "mangle" m.chain_out (mark_rule m) s) (λ s.
      and_then (append_rule exec m "mangle" m.chain_pre (tproxy_rule m) s) (λ s.
        and_then (insert_jump exec m "mangle" "OUTPUT" (owner_jump m m.config.protocol) s)
          (λ s. sym (and_then-none (insert_jump exec m "mangle" "PREROUTING" (pre_jump m) s)) i)))

  install_tproxy_eq :
      (m : Manager) (w : W) → install_tproxy exec (m, w) ≡ mutate_all (tproxy_mutations m) (m, w)
  unfolding install_tproxy mutate_all tproxy_mutations
  install_tproxy_eq m w = λ i.
      and_then (mutate exec m.config.ip_binary (route_args m "add") (route_args m "del") (m, w))
        (λ s.
          and_then (mutate exec m.config.ip_binary (rule_args m "add") (rule_args m "del") s) (λ s.
            ((λ j. and_then (new_chains exec m (chains m) s) (λ s. fill_eq m s j))
                ∙ new_chains-then m (chains m) (filled_mutations m) s)
              i))

  -- Behind a snapshot, Install makes the changes of the list in order, up to the first that fails.
  pub install-mutate_all :
      (m : Manager) (w : W)
      → m.snapshotted ≡ true
      → install exec (m, w) ≡ mutate_all (mutations m) (m, w)
  unfolding install mutations
  install-mutate_all m w ready = go m.snapshotted (is_redirect m.config.kind) ready
    where
      go :
          (b k : Bool)
          → b ≡ true
          → (if not b
              then (some no_snapshot, (m, w))
              else if k
              then install_redirect exec (m, w)
              else install_tproxy exec (m, w))
            ≡ mutate_all (if k then redirect_mutations m else tproxy_mutations m) (m, w)
      go true true h = install_redirect_eq m w
      go true false h = install_tproxy_eq m w
      go false k h = cc
