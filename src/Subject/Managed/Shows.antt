-- ===== src/Subject/Managed/Shows.antt =====
-- internal/subject/singbox/subject.go: what a valid proof of ProvePath has shown.
use sing_box_inbound_bench.Base.{
  ℕ, ◌≡◌, ◌≢◌, Bool, refl, sym, ap, ◌∙◌, true, false, not, ◌||◌, if◌then◌else◌, if-true, if-false,
  String, str_eq, str_eq_iff, Option, none, some, ◌⊎◌, inl, inr, Bool-cases, and-true_iff,
}
use sing_box_inbound_bench.Netfilter.{Manager, Failure}
use sing_box_inbound_bench.Netfilter.Counters
use sing_box_inbound_bench.Netfilter.Counters.{Grew, prove-Grew}
use sing_box_inbound_bench.Protocol.Config.{subject_direct, subject_tun, subject_tun_auto}
use sing_box_inbound_bench.Protocol.Trace.{PathProof}
use sing_box_inbound_bench.Runner.{Observation, WarmupEvidence, is_nil-none}
use sing_box_inbound_bench.Subject.Evidence.{Laws}
use sing_box_inbound_bench.Subject.Diagnostics.{
  EbpfInboundDiagnostics, decode_benchmark_inbound, inbound_judged, validate_ebpf_diagnostics,
}
use sing_box_inbound_bench.Subject.Diagnostics.Unharmed.{validate_ebpf_inbound-Attached}
use sing_box_inbound_bench.Subject.Managed.{
  Managed, Env, refusal, prove_decoded, subject_kind, prove_direct, prove_netfilter,
  ebpf_cgroup_path, prove_ebpf, prove_interception, prove_path, new_proof,
}
use sing_box_inbound_bench.Subject.Managed.Spec.{
  IsOtherKind, ChainsGrew, Evidenced, Shows, by_direct, by_netfilter, by_ebpf, socket-Evidenced,
}
use sing_box_inbound_bench.Subject.Managed.Tun.{tun-Shows}

not_kind : (x y : String) → str_eq x y ≡ false → x ≢ y
not_kind x y f e = let same = (str_eq_iff x y).1 e in cc

or-false : (a b : Bool) → (a || b) ≡ false → (a ≡ false) × (b ≡ false)
or-false false b h = (refl, h)
or-false true b h = cc

module _ (env : Env) (m : Managed) (laws : Laws env.externals) where
  refusal-none : (f : Option Failure) → refusal f ≡ none → f ≡ none
  refusal-none none h = refl
  refusal-none (some f) h = cc

  prove_decoded-ChainsGrew :
      (manager : Manager) (before after : Observation)
      → prove_decoded manager
          (env.decode_counters before.content)
          (env.decode_counters after.content)
        ≡ none
      → ChainsGrew env manager before after
  prove_decoded-ChainsGrew manager before after =
      cases (env.decode_counters before.content) (env.decode_counters after.content) refl refl
    where
      cases :
          (x y : String ⊎ Counters.Observation)
          → env.decode_counters before.content ≡ x
          → env.decode_counters after.content ≡ y
          → prove_decoded manager x y ≡ none
          → ChainsGrew env manager before after
      cases (inl e) y p q h = cc
      cases (inr b) (inl e) p q h = cc
      cases (inr b) (inr a) p q h = record {
        first = b;
        second = a;
        first_read = p;
        second_read = q;
        grew = (prove-Grew manager b a).0 (refusal-none _ h);
      }

  netfilter-Shows :
      (manager : Manager) (now : ℕ) (before after : Observation) (warmup : WarmupEvidence)
      → subject_kind env m ≢ subject_direct
      → m.netfilter ≡ some manager
      → (prove_netfilter env m manager (new_proof env m now before after warmup) warmup).valid
        ≡ true
      → Shows env m before after warmup
  unfolding prove_netfilter
  netfilter-Shows manager now before after warmup d e h =
      let (counted, shown) = (and-true_iff _ _).0 h in
      by_netfilter manager d e
        (prove_decoded-ChainsGrew manager before after ((is_nil-none _).0 counted))
        (socket-Evidenced env m laws warmup true "" shown)

  ebpf-Shows :
      (now : ℕ) (before after : Observation) (warmup : WarmupEvidence)
      → IsOtherKind env m
      → (prove_ebpf env m (new_proof env m now before after warmup) warmup).0.valid ≡ true
      → Shows env m before after warmup
  unfolding prove_ebpf validate_ebpf_diagnostics
  ebpf-Shows now before after warmup other h =
      let (valid, shown) = (and-true_iff _ _).0 h in
      cases
        (decode_benchmark_inbound env.externals.clean m.config.subject env.decode_diagnostics
          after.content)
        refl valid other (socket-Evidenced env m laws warmup true (ebpf_cgroup_path env m) shown)
    where
      cases :
          (x : String ⊎ EbpfInboundDiagnostics)
          → decode_benchmark_inbound env.externals.clean m.config.subject env.decode_diagnostics
              after.content
            ≡ x
          → (inbound_judged env.externals.clean m.config.subject env.decode_diagnostics x).0 ≡ true
          → IsOtherKind env m
          → Evidenced env m warmup true (ebpf_cgroup_path env m)
          → Shows env m before after warmup
      cases (inl e) p v other shown = cc
      cases (inr d) p v other shown =
          by_ebpf d other p
            ((validate_ebpf_inbound-Attached env.externals.clean m.config.subject d).0 v) shown

  direct-Shows :
      (now : ℕ) (before after : Observation) (warmup : WarmupEvidence)
      → subject_kind env m ≡ subject_direct
      → (prove_direct env m (new_proof env m now before after warmup) warmup).valid ≡ true
      → Shows env m before after warmup
  unfolding prove_direct
  direct-Shows now before after warmup e h =
      by_direct e (socket-Evidenced env m laws warmup true "" h)

  interception-Shows :
      (manager : Option Manager) (now : ℕ) (before after : Observation) (warmup : WarmupEvidence)
      → subject_kind env m ≢ subject_direct
      → m.netfilter ≡ manager
      → (prove_interception env m manager (new_proof env m now before after warmup) warmup).0.valid
        ≡ true
      → Shows env m before after warmup
  interception-Shows (some manager) now before after warmup d e h =
      netfilter-Shows manager now before after warmup d e h
  interception-Shows none now before after warmup d e h =
      elim (Bool-cases
        (str_eq (subject_kind env m) subject_tun || str_eq (subject_kind env m) subject_tun_auto)) [
          | inl t ↦
              tun-Shows env m laws now before after warmup t e
                (sym (ap (λ (r : PathProof × Option String). r.0.valid) (if-true _ _ _ t)) ∙ h)
          | inr f ↦
              ebpf-Shows now before after warmup
                (record {
                  no_manager = e;
                  not_direct = d;
                  not_tun = not_kind _ subject_tun (or-false _ _ f).0;
                  not_tun_auto = not_kind _ subject_tun_auto (or-false _ _ f).1;
                })
                (sym (ap (λ (r : PathProof × Option String). r.0.valid) (if-false _ _ _ f)) ∙ h)
        ]

  -- A proof of ProvePath is valid only if the warmup was, and the evidence shows the path in the way of the
  -- kind of the subject: of each the worker is Proven with redirected sockets; beside it, of a subject with
  -- a netfilter manager, but for the direct one, the chains of the manager grew; of the TUN subject without
  -- a manager the packets of the interface did in both directions; and of a subject that has no manager and
  -- is neither direct nor TUN the eBPF inbound is attached, the worker verified in its cgroup where the
  -- subject is one of cgroups. Only behind auto_redirect, whose queue must have grown under one backend,
  -- may sockets be direct: where the interface did not grow in both directions.
  pub prove_path-Shows :
      (now : ℕ) (before after : Observation) (warmup : WarmupEvidence)
      → (prove_path env m now before after warmup).0.valid ≡ true
      → (warmup.valid ≡ true) × Shows env m before after warmup
  unfolding prove_path
  prove_path-Shows now before after warmup h = elim (Bool-cases warmup.valid) [
    | inl v ↦ (
      v,
      by_kind
          (sym (ap (λ (r : PathProof × Option String). r.0.valid) (if-false _ _ _ (ap not v))) ∙ h),
    )
    | inr n ↦ absurd (
        false-true
          (sym (ap (λ (r : PathProof × Option String). r.0.valid) (if-true _ _ _ (ap not n))) ∙ h))
  ]
    where
      false-true : false ≡ true → ⊥
      false-true k = cc

      by_kind :
          (let r : PathProof × Option String =
              if str_eq (subject_kind env m) subject_direct
              then (prove_direct env m (new_proof env m now before after warmup) warmup, none)
              else prove_interception env m m.netfilter
                  (new_proof env m now before after warmup)
                  warmup in
            r.0.valid ≡ true)
          → Shows env m before after warmup
      by_kind k = elim (Bool-cases (str_eq (subject_kind env m) subject_direct)) [
        | inl t ↦
            direct-Shows now before after warmup ((str_eq_iff _ _).0 t)
              (sym (ap (λ (r : PathProof × Option String). r.0.valid) (if-true _ _ _ t)) ∙ k)
        | inr f ↦
            interception-Shows m.netfilter now before after warmup (not_kind _ subject_direct f)
              refl (sym (ap (λ (r : PathProof × Option String). r.0.valid) (if-false _ _ _ f)) ∙ k)
      ]
