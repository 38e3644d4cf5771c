-- ===== src/Suite/Generated.antt =====
-- internal/suite/matrix.go: the cases that Generate makes of its subjects and workloads.
use sing_box_inbound_bench.Base.{
  List, [], ◌∷◌, ◌++◌, String, str_append, str_eq, str_eq_iff, Bool, false, ◌&&◌, if◌then◌else◌,
  some, All, All-append, ◌≡◌, ◌≢◌, inl, inr, refl, ap, sym, subst, ◌∙◌, arith, Bool-cases, if-true,
  if-false, if-both, and-true_iff,
}
use sing_box_inbound_bench.Protocol.Endpoint.{Endpoint}
use sing_box_inbound_bench.Protocol.Config.{
  Config, SubjectConfig, WorkloadConfig, subject_raw, subject_direct, subject_redirect,
  protocol_udp,
}
use sing_box_inbound_bench.Protocol.Config.Defaults.{
  apply_defaults, subject_defaults, workload_defaults, execution_defaults,
}
use sing_box_inbound_bench.Protocol.Config.Idempotent.{apply_defaults_idem}
use sing_box_inbound_bench.Protocol.Config.Errors.{ConfigError, NetText}
use sing_box_inbound_bench.Protocol.Config.Validate.{validate}
use sing_box_inbound_bench.Suite.{Options, Checked, accepted, rejected, and_then}
use sing_box_inbound_bench.Suite.Templates.{WorkloadTemplate}
use sing_box_inbound_bench.Suite.Build.{
  add_case, managed_subject, build_subject, build_config, case_config, subject_cases, all_cases,
  empty_subject, is_ip6,
}

-- A chain that ends with a value had one at each link.
pub and_then-accepted {ℓ κ} :
    {A : Type ℓ} {B : Type κ} (x : Checked A) (f : A → Checked B) (b : B)
    → and_then x f ≡ accepted b
    → (a : A) × (x ≡ accepted a) × (f a ≡ accepted b)
unfolding and_then
and_then-accepted (accepted a) f b h = (a, refl, h)
and_then-accepted (rejected e) f b h = ground arith

pub accepted_inj {ℓ} : {A : Type ℓ} (x y : A) → accepted x ≡ accepted y → x ≡ y
accepted_inj x y e = cc

record OfKind (kind : String) (s : SubjectConfig) : Type 0 where
  kind_same : s.kind ≡ kind

module _ (print : Endpoint → String) (net : NetText) (o : Options)
    (target raw_target : Endpoint) where
  -- Where the workload of a subject goes: that of the raw subject to the raw target, that of the direct
  -- subject to its listener, which goes to the target, and any other where its template says.
  pub data Goes (t : WorkloadTemplate) (c : Config) : String → Type 0 where
    raw : c.workload.target ≡ print raw_target → Goes t c subject_raw
    direct :
        c.workload.target ≡ c.subject.listen
        → c.subject.target ≡ print target
        → Goes t c subject_direct
    intercepted :
        {kind : String}
        → kind ≢ subject_raw
        → kind ≢ subject_direct
        → c.workload.target ≡ t.config.target
        → Goes t c kind

  -- The case of a subject under a workload, which is named for both.
  pub record Case (kind : String) (t : WorkloadTemplate) (c : Config) : Type 0 where
    pub run_id : c.run_id ≡ str_append kind (str_append "-" t.name)
    pub subject : c.subject.kind ≡ kind
    pub protocol : c.workload.protocol ≡ t.config.protocol
    pub mode : c.workload.mode ≡ t.config.mode
    pub goes : Goes t c kind
    pub warmups : c.execution.warmup_repetitions ≡ o.warmup_repetitions
    pub worker_uid : c.execution.worker_uid ≡ some o.worker_uid
    pub defaulted : apply_defaults c ≡ c

  -- The cases of a subject: one of each workload, in their order, but none of the redirect subject under UDP.
  pub data SubjectCases (kind : String) : List WorkloadTemplate → List Config → Type 0 where
    no_template : SubjectCases kind [] []
    left_out :
        {ts : List WorkloadTemplate} {cs : List Config} (t : WorkloadTemplate)
        → kind ≡ subject_redirect
        → t.config.protocol ≡ protocol_udp
        → SubjectCases kind ts cs
        → SubjectCases kind (t ∷ ts) cs
    with_case :
        {ts : List WorkloadTemplate} {cs : List Config} (t : WorkloadTemplate) (c : Config)
        → (kind ≡ subject_redirect → t.config.protocol ≢ protocol_udp)
        → Case kind t c
        → validate net c ≡ []
        → SubjectCases kind ts cs
        → SubjectCases kind (t ∷ ts) (c ∷ cs)

  pub data AllCases (ts : List WorkloadTemplate) : List String → List Config → Type 0 where
    no_subject : AllCases ts [] []
    then_subject :
        {kind : String} {kinds : List String} {cs ds : List Config}
        → SubjectCases kind ts cs
        → AllCases ts kinds ds
        → AllCases ts (kind ∷ kinds) (cs ++ ds)

  managed_subject-OfKind :
      (v6 : Bool) (s : SubjectConfig) → OfKind s.kind (managed_subject print o v6 s)
  unfolding managed_subject
  managed_subject-OfKind v6 s =
      if-both (OfKind s.kind) _ (λ _. record { kind_same = refl })
        (λ _. record { kind_same = refl })

  build_subject-kind :
      (at : Endpoint) (kind run_id : String) (v6 : Bool) (s : SubjectConfig)
      → (build_subject print o at kind run_id v6 s).kind ≡ s.kind
  unfolding build_subject
  build_subject-kind at kind run_id v6 s = ground arith

  raw-Case :
      (t : WorkloadTemplate)
      → Case subject_raw t (case_config print o target raw_target subject_raw t)
  unfolding case_config build_config managed_subject build_subject empty_subject apply_defaults
      subject_defaults workload_defaults execution_defaults
  raw-Case t = record {
    run_id = refl;
    subject = refl;
    protocol = refl;
    mode = refl;
    goes = raw refl;
    warmups = refl;
    worker_uid = refl;
    defaulted = apply_defaults_idem _;
  }

  direct-Case :
      (t : WorkloadTemplate)
      → Case subject_direct t (case_config print o target raw_target subject_direct t)
  unfolding case_config build_config managed_subject build_subject empty_subject apply_defaults
      subject_defaults workload_defaults execution_defaults
  direct-Case t = record {
    run_id = refl;
    subject = refl;
    protocol = refl;
    mode = refl;
    goes = direct refl refl;
    warmups = refl;
    worker_uid = refl;
    defaulted = apply_defaults_idem _;
  }

  other-Case :
      (kind : String) (t : WorkloadTemplate)
      → str_eq kind subject_raw ≡ false
      → str_eq kind subject_direct ≡ false
      → Case kind t (case_config print o target raw_target kind t)
  unfolding case_config build_config empty_subject apply_defaults subject_defaults workload_defaults
      execution_defaults
  other-Case kind t r d =
      subst (λ c. Case kind t (apply_defaults c)) (sym (if-false _ _ _ r))
        (record {
          run_id = refl;
          subject =
              build_subject-kind target kind _ _ _
              ∙ (managed_subject-OfKind (is_ip6 target.ip)
                  (empty_subject kind o.outbound_interface)).kind_same;
          protocol = ap (λ (w : WorkloadConfig). w.protocol) same;
          mode = ap (λ (w : WorkloadConfig). w.mode) same;
          goes =
              intercepted (not_kind subject_raw r) (not_kind subject_direct d)
                (ap (λ (w : WorkloadConfig). w.target) same);
          warmups = refl;
          worker_uid = refl;
          defaulted = apply_defaults_idem _;
        })
    where
      not_kind : (k : String) → str_eq kind k ≡ false → kind ≢ k
      not_kind k f e = let same = (str_eq_iff kind k).1 e in cc

      same :
          (if str_eq kind subject_direct
            then record t.config { target = (build_config print o target kind t).subject.listen }
            else t.config)
          ≡ t.config
      same = if-false _ _ _ d

  case_config-Case :
      (kind : String) (t : WorkloadTemplate)
      → Case kind t (case_config print o target raw_target kind t)
  case_config-Case kind t = elim (Bool-cases (str_eq kind subject_raw)) [
    | inl r ↦ subst IsCase (sym ((str_eq_iff kind subject_raw).0 r)) (raw-Case t)
    | inr r ↦ elim (Bool-cases (str_eq kind subject_direct)) [
      | inl d ↦ subst IsCase (sym ((str_eq_iff kind subject_direct).0 d)) (direct-Case t)
      | inr d ↦ other-Case kind t r d
    ]
  ]
    where
      IsCase : String → Type 0
      IsCase k = Case k t (case_config print o target raw_target k t)

  -- A case that is added was accepted.
  added :
      (c : Config) (es : List ConfigError) (rest : Checked (List Config)) (out : List Config)
      → add_case c es rest ≡ accepted out
      → (es ≡ []) × (cs : List Config) × (rest ≡ accepted cs) × (c ∷ cs ≡ out)
  unfolding add_case
  added c [] rest out h =
      let a = and_then-accepted rest _ out h in (refl, a.0, a.1, accepted_inj _ _ a.2)
  added c (e ∷ es) rest out h = ground arith

  subject_cases-SubjectCases :
      (kind : String) (ts : List WorkloadTemplate) (out : List Config)
      → subject_cases print net o target raw_target kind ts ≡ accepted out
      → SubjectCases kind ts out
  unfolding subject_cases
  subject_cases-SubjectCases kind [] out h =
      subst (SubjectCases kind []) (accepted_inj _ _ h) no_template
  subject_cases-SubjectCases kind (t ∷ ts) out h =
      elim (Bool-cases (str_eq kind subject_redirect && str_eq t.config.protocol protocol_udp)) [
        | inl e ↦
            let (redirect, udp) = (and-true_iff _ _).0 e in
            left_out t ((str_eq_iff _ _).0 redirect) ((str_eq_iff _ _).0 udp)
              (subject_cases-SubjectCases kind ts out (sym (if-true _ _ _ e) ∙ h))
        | inr n ↦
            let a =
              added (case_config print o target raw_target kind t) _ _ out
                (sym (if-false _ _ _ n) ∙ h) in
            subst (SubjectCases kind (t ∷ ts)) a.3 (
              with_case t (case_config print o target raw_target kind t)
                (λ redirect udp. both kind t.config.protocol n redirect udp)
                (case_config-Case kind t) a.0 (subject_cases-SubjectCases kind ts a.1 a.2))
      ]
    where
      both :
          (k p : String)
          → (str_eq k subject_redirect && str_eq p protocol_udp) ≡ false
          → k ≡ subject_redirect
          → p ≡ protocol_udp
          → ⊥
      both k p n redirect udp =
          let a = (str_eq_iff k subject_redirect).1 redirect in
          let b = (str_eq_iff p protocol_udp).1 udp in ground (arith, a, b, n)

  pub all_cases-AllCases :
      (ts : List WorkloadTemplate) (kinds : List String) (out : List Config)
      → all_cases print net o target raw_target ts kinds ≡ accepted out
      → AllCases ts kinds out
  unfolding all_cases
  all_cases-AllCases ts [] out h = subst (AllCases ts []) (accepted_inj _ _ h) no_subject
  all_cases-AllCases ts (kind ∷ kinds) out h =
      let a = and_then-accepted _ _ out h in
      let b = and_then-accepted _ _ out a.2 in
      subst (AllCases ts (kind ∷ kinds)) (accepted_inj _ _ b.2) (
        then_subject (subject_cases-SubjectCases kind ts a.0 a.1)
          (all_cases-AllCases ts kinds b.0 b.1))

  abbrev pub Defaulted : List Config → Type 0
  Defaulted cs = All (λ c. apply_defaults c ≡ c) cs

  SubjectCases-Defaulted :
      {kind : String} {ts : List WorkloadTemplate} {cs : List Config}
      → SubjectCases kind ts cs
      → Defaulted cs
  SubjectCases-Defaulted no_template = tt
  SubjectCases-Defaulted (left_out t r u s) = SubjectCases-Defaulted s
  SubjectCases-Defaulted (with_case t c n k v s) = (k.defaulted, SubjectCases-Defaulted s)

  pub AllCases-Defaulted :
      {ts : List WorkloadTemplate} {kinds : List String} {cs : List Config}
      → AllCases ts kinds cs
      → Defaulted cs
  AllCases-Defaulted no_subject = tt
  AllCases-Defaulted (then_subject s a) =
      All-append (λ c. apply_defaults c ≡ c) _ _ (SubjectCases-Defaulted s) (AllCases-Defaulted a)
