-- ===== src/Subject/Diagnostics/Unharmed.antt =====
-- internal/subject/singbox/diagnostics.go: which diagnostics ValidateRuntimeDiagnostics accepts.
use sing_box_inbound_bench.Base.{
  ◌≡◌, ◌≢◌, ◌↔◌, refl, sym, ap, ◌∙◌, subst, Bool, true, false, not, ◌&&◌, ◌||◌, if◌then◌else◌,
  String, str_eq, str_eq_iff, List, [], ◌∷◌, none, ◌⊎◌, inl, inr, Bool-cases, arith,
}
use sing_box_inbound_bench.Protocol.Config.{SubjectConfig}
use sing_box_inbound_bench.Subject.Evidence.Checks.{
  fail_if-none, then_check-none, not-false, left-right, right-right,
}
use sing_box_inbound_bench.Subject.Diagnostics.{
  EbpfAttachmentDiagnostics, EbpfInboundDiagnostics, DiagnosticsEnvelope, want_plane, is_healthy,
  attached, any_attached, validate_ebpf_inbound, decode_benchmark_inbound, compare_inbounds,
  with_before, validate_runtime_diagnostics,
}
use sing_box_inbound_bench.Subject.Diagnostics.FailureCounters.{SameCounters, validate-SameCounters}

-- An attachment of the local role that serves the plane of the subject: to the cgroup of the
-- configuration, or to the outbound interface where one is configured.
pub record Serves (clean : String → String) (config : SubjectConfig) (a : EbpfAttachmentDiagnostics)
    : Type 0 where
  pub local : a.role ≡ "local"
  pub to_cgroup :
      want_plane config ≡ "cgroup"
      → (a.mechanism ≡ "cgroup") × (clean a.interface_name ≡ clean config.cgroup_path)
  pub to_interface :
      want_plane config ≢ "cgroup"
      → (a.mechanism ≢ "")
        × (a.mechanism ≢ "cgroup")
        × ((config.outbound_interface ≡ "") ⊎ (a.interface_name ≡ config.outbound_interface))

abbrev pub SomeServes : (String → String) → SubjectConfig → List EbpfAttachmentDiagnostics → Type 0
SomeServes clean config [] = ⊥
SomeServes clean config (a ∷ rest) = Serves clean config a ⊎ SomeServes clean config rest

pub record Attached (clean : String → String) (config : SubjectConfig) (d : EbpfInboundDiagnostics)
    : Type 0 where
  pub normal : d.state ≡ "normal"
  pub enabled : d.local_enabled ≡ true
  pub plane : d.local_data_plane ≡ want_plane config
  pub served : SomeServes clean config d.attachments

pub record Unharmed (clean : String → String) (config : SubjectConfig)
    (b a : EbpfInboundDiagnostics) : Type 0 where
  pub attached_after : Attached clean config a
  pub recovered : a.recovery_pending ≡ false
  pub recoverable : a.recovery_unrecoverable ≡ false
  pub no_new_error : (a.last_error ≡ "") ⊎ (a.last_error ≡ b.last_error)
  pub same_counters : SameCounters b a

or-true : (b : Bool) → (b || true) ≡ true
or-true true = refl
or-true false = refl

and-not-true : (b : Bool) → (b && not true) ≡ false
and-not-true true = refl
and-not-true false = refl

or_false : (a b : Bool) → (a || b) ≡ false → (a ≡ false) × (b ≡ false)
or_false false b h = (refl, h)
or_false true b h = cc

no_new_error_iff :
    (after before : String)
    → ((not (str_eq after "") && not (str_eq after before)) ≡ false)
      ↔ ((after ≡ "") ⊎ (after ≡ before))
no_new_error_iff after before =
    let empty = str_eq_iff after "" in
    let same = str_eq_iff after before in
    (
      λ h. elim (Bool-cases (str_eq after "")) [
        | inl t ↦ inl (empty.0 t)
        | inr f ↦ inr (ground (arith, h, f))
      ],
      λ g. elim g [ inl e ↦ ground (arith, e) | inr e ↦ rw (same.1 e) (and-not-true _) ],
    )

both_tests :
    (a b : Bool) (s t u : String)
    → (let r : Bool × String = if not a then (false, s) else if b then (true, t) else (false, u) in
        r.0 ≡ true)
    → (a ≡ true) × (b ≡ true)
both_tests true true s t u h = (refl, refl)
both_tests true false s t u h = cc
both_tests false b s t u h = cc

module _ (clean : String → String) (config : SubjectConfig) where
  attached-Serves :
      (a : EbpfAttachmentDiagnostics) → (attached clean config a ≡ true) ↔ Serves clean config a
  unfolding attached
  attached-Serves a =
      let role = str_eq_iff a.role "local" in
      let plane = str_eq_iff (want_plane config) "cgroup" in
      let mechanism = str_eq_iff a.mechanism "cgroup" in
      let no_mechanism = str_eq_iff a.mechanism "" in
      let path = str_eq_iff (clean a.interface_name) (clean config.cgroup_path) in
      let any_interface = str_eq_iff config.outbound_interface "" in
      let interface = str_eq_iff a.interface_name config.outbound_interface in
      (
        λ h. record {
          local = ground (arith, h);
          to_cgroup = λ e. (ground (arith, h, e), ground (arith, h, e));
          to_interface = λ e. (
            ground (arith, h, e),
            ground (arith, h, e),
            elim (Bool-cases (str_eq config.outbound_interface "")) [
              | inl t ↦ inl (any_interface.0 t)
              | inr f ↦ inr (ground (arith, h, e, f))
            ],
          );
        },
        λ g. elim (Bool-cases (str_eq (want_plane config) "cgroup")) [
          | inl t ↦ ground (arith, t, g.local, g.to_cgroup (plane.0 t))
          | inr f ↦
              let n : want_plane config ≢ "cgroup" = λ e. ground (arith, f, plane.1 e) in
              ground (arith, f, g.local, g.to_interface n)
        ],
      )

  any_attached-SomeServes :
      (attachments : List EbpfAttachmentDiagnostics)
      → (any_attached clean config attachments ≡ true)
      → SomeServes clean config attachments
  unfolding any_attached
  any_attached-SomeServes [] h = cc
  any_attached-SomeServes (a ∷ rest) h = elim (Bool-cases (attached clean config a)) [
    | inl e ↦ inl ((attached-Serves a).0 e)
    | inr e ↦
        inr
          (any_attached-SomeServes rest (sym (ap (λ b. b || any_attached clean config rest) e) ∙ h))
  ]

  SomeServes-any_attached :
      (attachments : List EbpfAttachmentDiagnostics)
      → SomeServes clean config attachments
      → any_attached clean config attachments ≡ true
  unfolding any_attached
  SomeServes-any_attached [] h = absurd h
  SomeServes-any_attached (a ∷ rest) (inl s) =
      ap (λ b. b || any_attached clean config rest) ((attached-Serves a).1 s)
  SomeServes-any_attached (a ∷ rest) (inr s) =
      rw (SomeServes-any_attached rest s) (or-true (attached clean config a))

  healthy_iff :
      (d : EbpfInboundDiagnostics)
      → (is_healthy (want_plane config) d ≡ true) ↔ (
          (d.state ≡ "normal")
          × (d.local_enabled ≡ true)
          × (d.local_data_plane ≡ want_plane config))
  healthy_iff d =
      let state = str_eq_iff d.state "normal" in
      let plane = str_eq_iff d.local_data_plane (want_plane config) in
      (
        λ h. (ground (arith, h), ground (arith, h), ground (arith, h)),
        λ g. ground (arith, g.0, g.1, g.2),
      )

  pub validate_ebpf_inbound-Attached :
      (d : EbpfInboundDiagnostics)
      → ((validate_ebpf_inbound clean config d).0 ≡ true) ↔ Attached clean config d
  unfolding validate_ebpf_inbound
  validate_ebpf_inbound-Attached d =
      let (healthy, from_healthy) = healthy_iff d in
      (
        λ h.
            let (p, q) = both_tests _ _ _ _ _ h in
            let (n, e, l) = healthy p in
            record {
              normal = n;
              enabled = e;
              plane = l;
              served = any_attached-SomeServes d.attachments q;
            },
        λ g. rw (
          from_healthy (g.normal, g.enabled, g.plane),
          SomeServes-any_attached d.attachments g.served,
        ),
      )

  compare-Unharmed :
      (b a : EbpfInboundDiagnostics) (decode : String → String ⊎ DiagnosticsEnvelope)
      → (compare_inbounds clean config decode b a ≡ none) ↔ Unharmed clean config b a
  unfolding compare_inbounds
  compare-Unharmed b a decode =
      let valid = (validate_ebpf_inbound clean config a).0 in
      let attached = validate_ebpf_inbound-Attached a in
      let counters = validate-SameCounters b a in
      (
        λ h.
            let (v, h₁) = (then_check-none _ _).0 h in
            let (r, h₂) = (then_check-none _ _).0 h₁ in
            let (e, c) = (then_check-none _ _).0 h₂ in
            let (p, u) = or_false _ _ ((fail_if-none _ _).0 r) in
            record {
              attached_after = attached.0 (not-false valid ((fail_if-none _ _).0 v));
              recovered = p;
              recoverable = u;
              no_new_error =
                  (no_new_error_iff a.last_error b.last_error).0 ((fail_if-none _ _).0 e);
              same_counters = counters.0 c;
            },
        λ g. (then_check-none _ _).1 (
          (fail_if-none (not valid) _).1 (ap not (attached.1 g.attached_after)),
          (then_check-none _ _).1 (
            rw (g.recovered, g.recoverable),
            (then_check-none _ _).1 (
              (fail_if-none _ _).1 ((no_new_error_iff a.last_error b.last_error).1 g.no_new_error),
              counters.1 g.same_counters,
            ),
          ),
        ),
      )

  -- ValidateRuntimeDiagnostics has no error exactly if both texts hold the inbound of the benchmark, and
  -- the later one is Unharmed: it is attached for the subject's plane, is not recovering, reports no
  -- error that was not there before, and none of its failure counters has changed.
  pub validate_runtime_diagnostics-Unharmed :
      (decode : String → String ⊎ DiagnosticsEnvelope) (before after : String)
      → (validate_runtime_diagnostics clean config decode before after ≡ none) ↔ (
          (b : EbpfInboundDiagnostics) × (a : EbpfInboundDiagnostics) × (decode_benchmark_inbound
              clean config decode before
            ≡ inr b)
          × (decode_benchmark_inbound clean config decode after ≡ inr a)
          × Unharmed clean config b a)
  unfolding validate_runtime_diagnostics
  validate_runtime_diagnostics-Unharmed decode before after =
      cases (decode_benchmark_inbound clean config decode before)
        (decode_benchmark_inbound clean config decode after)
    where
      cases :
          (x y : String ⊎ EbpfInboundDiagnostics)
          → (with_before clean config decode x y ≡ none) ↔ (
              (b : EbpfInboundDiagnostics) × (a : EbpfInboundDiagnostics) × (x ≡ inr b)
              × (y ≡ inr a)
              × Unharmed clean config b a)
      cases (inl e) y = (λ h. cc, λ g. absurd (left-right g.2))
      cases (inr b) (inl e) = (λ h. cc, λ g. absurd (left-right g.3))
      cases (inr b) (inr a) =
          let (forth, back) = compare-Unharmed b a decode in
          (
            λ h. (b, a, refl, refl, forth h),
            λ g. back (
                subst (λ x. Unharmed clean config x a) (sym (right-right g.2))
                  (subst (Unharmed clean config g.0) (sym (right-right g.3)) g.4)),
          )
