-- ===== src/Suite/Laws.antt =====
-- internal/suite/matrix.go: what a matrix that Generate returns is made of, and that it can be run.
use sing_box_inbound_bench.Base.{
  ℕ, suc, not, ◌&&◌, All, str_eq_iff, List, [], ◌∷◌, String, str_eq, Bool, true, false, ◌||◌,
  if◌then◌else◌, Option, none, some, ◌≡◌, refl, ap, sym, subst, ◌∙◌, arith, Bool-cases, ◌⊎◌, inl,
  inr, if-true, if-false,
}
use sing_box_inbound_bench.Protocol.Config.{Config, subject_raw}
use sing_box_inbound_bench.Suite.Templates.{WorkloadTemplate, workloads}
use sing_box_inbound_bench.Suite.Generated.{
  and_then-accepted, accepted_inj, AllCases, all_cases-AllCases, AllCases-Defaulted,
}
use sing_box_inbound_bench.Base.Int.{pos}
use sing_box_inbound_bench.Protocol.Config.Defaults.{
  or_int, apply_defaults, subject_defaults, workload_defaults, execution_defaults,
}
use sing_box_inbound_bench.Protocol.Config.Errors.{NetText}
use sing_box_inbound_bench.Protocol.Endpoint.{Endpoint}
use sing_box_inbound_bench.Protocol.Matrix.{
  MatrixConfig, MatrixError, check_cases, check_control, normalize_and_validate_matrix,
}
use sing_box_inbound_bench.Protocol.Matrix.Accepted.{
  IsRunnable, accepted-IsRunnable, normalize_and_validate_matrix_idem,
}
use sing_box_inbound_bench.Suite.{
  Options, SuiteError, accepted, rejected, apply_preset_defaults, selected_subjects,
  raw_target_unreadable, families_differ,
}
use sing_box_inbound_bench.Suite.Build.{
  generate, generate_for, normalized, matrix_of, read_raw_target, is_ip6, default_options,
  control_config, build_config, build_subject, managed_subject, empty_subject,
}

normalized_ok :
    (x : MatrixConfig × List MatrixError) (m : MatrixConfig)
    → normalized x ≡ accepted m
    → x ≡ (m, [])
unfolding normalized
normalized_ok (n, []) m h = cc
normalized_ok (n, e ∷ es) m h = ground arith

module _ (print : Endpoint → String) (net : NetText) where
  -- A control of the raw subject, which is measured once.
  pub record Control (raw_target : Endpoint) (c : Config) : Type 0 where
    pub run_id : c.run_id ≡ "raw-control"
    pub subject : c.subject.kind ≡ subject_raw
    pub target : c.workload.target ≡ print raw_target
    pub warmups : c.execution.warmup_repetitions ≡ pos 0
    pub repetitions : c.execution.repetitions ≡ pos 1

  -- The raw target is the one of the options, in the family of the target, or the target itself.
  abbrev pub IsRawTarget : String → Endpoint → Endpoint → Type 0
  IsRawTarget text target raw_target =
      ((text ≡ "") × (raw_target ≡ target))
      ⊎ ((net.parse_addr_port text ≡ some raw_target) × (is_ip6 raw_target.ip ≡ is_ip6 target.ip))

  -- What a matrix has from the options that were filled, the targets, the workloads and the subjects.
  pub record FromOptions (p : Options) (target : Endpoint) (m : MatrixConfig) : Type 0 where
    pub raw_target : Endpoint
    pub is_raw_target : IsRawTarget p.raw_target target raw_target
    pub selected : List WorkloadTemplate
    pub of_workloads : workloads p (print target) ≡ accepted selected
    pub kinds : List String
    pub of_subjects : selected_subjects p.subjects ≡ accepted kinds
    pub cases : AllCases print net p target raw_target selected kinds m.cases
    pub control : Config
    pub has_control : m.raw_control ≡ some control
    pub of_control : Control raw_target control
    pub matrix_id : m.matrix_id ≡ p.matrix_id
    pub output_directory : m.output_directory ≡ p.output_directory
    pub cooldown_ms : m.cooldown_ms ≡ p.cooldown_ms
    pub fail_fast : m.fail_fast ≡ p.fail_fast
    pub given : MatrixConfig
    pub normal : normalize_and_validate_matrix net given ≡ (m, [])

  read_raw_target-IsRawTarget :
      (text : String) (target : Endpoint) (raw_target : Endpoint)
      → read_raw_target text target (net.parse_addr_port text) ≡ accepted raw_target
      → IsRawTarget text target raw_target
  unfolding read_raw_target
  read_raw_target-IsRawTarget text target raw_target h = elim (Bool-cases (str_eq text "")) [
    | inl e ↦
        inl ((str_eq_iff text "").0 e, sym (accepted_inj _ _ (sym (if-false _ _ _ (ap not e)) ∙ h)))
    | inr n ↦ inr (by_read (net.parse_addr_port text) (sym (if-true _ _ _ (ap not n)) ∙ h))
  ]
    where
      families : (a b : Bool) → (a && b || not a && not b) ≡ true → a ≡ b
      families true true k = refl
      families true false k = ground arith
      families false true k = ground arith
      families false false k = refl

      by_read :
          (read : Option Endpoint)
          → elim read [
            | none ↦ rejected raw_target_unreadable
            | some raw ↦
                if is_ip6 raw.ip && is_ip6 target.ip
                  || not (is_ip6 raw.ip) && not (is_ip6 target.ip)
                then accepted raw
                else rejected families_differ
          ]
            ≡ accepted raw_target
          → (read ≡ some raw_target) × (is_ip6 raw_target.ip ≡ is_ip6 target.ip)
      by_read none k = ground arith
      by_read (some raw) k =
          elim (Bool-cases
            (is_ip6 raw.ip && is_ip6 target.ip || not (is_ip6 raw.ip) && not (is_ip6 target.ip))) [
              | inl e ↦
                  let same = accepted_inj raw raw_target (sym (if-true _ _ _ e) ∙ k) in
                  (ap some same, sym (ap (λ (x : Endpoint). is_ip6 x.ip) same) ∙ families _ _ e)
              | inr n ↦ let refuse = sym (if-false _ _ _ n) ∙ k in ground (arith, refuse)
            ]

  -- Cases that have their defaults are not changed.
  check_cases_same :
      (index : ℕ) (seen : List String) (cs : List Config)
      → All (λ c. apply_defaults c ≡ c) cs
      → (check_cases net index seen cs).0 ≡ cs
  unfolding check_cases
  check_cases_same index seen [] _ = refl
  check_cases_same index seen (c ∷ cs) (d, ds) =
      λ i. d i ∷ check_cases_same (suc index) ((apply_defaults c).run_id ∷ seen) cs ds i

  normalized-FromOptions :
      (p : Options) (target raw_target : Endpoint) (ts : List WorkloadTemplate)
      (kinds : List String) (cs : List Config) (m : MatrixConfig)
      → IsRawTarget p.raw_target target raw_target
      → workloads p (print target) ≡ accepted ts
      → selected_subjects p.subjects ≡ accepted kinds
      → AllCases print net p target raw_target ts kinds cs
      → normalize_and_validate_matrix net (matrix_of print net p raw_target cs) ≡ (m, [])
      → FromOptions p target m
  unfolding normalize_and_validate_matrix matrix_of check_control control_config build_config
      build_subject managed_subject empty_subject apply_defaults subject_defaults workload_defaults
      execution_defaults or_int
  normalized-FromOptions p target raw_target ts kinds cs m r w s a n = record {
    raw_target = raw_target;
    is_raw_target = r;
    selected = ts;
    of_workloads = w;
    kinds = kinds;
    of_subjects = s;
    cases =
        subst (AllCases print net p target raw_target ts kinds)
          (sym (check_cases_same 0 [] cs (AllCases-Defaulted print net p target raw_target a))
            ∙ ap (λ (x : MatrixConfig × List MatrixError). x.0.cases) n)
          a;
    control = apply_defaults (control_config print p raw_target);
    has_control = sym (ap (λ (x : MatrixConfig × List MatrixError). x.0.raw_control) n);
    of_control = record {
      run_id = refl;
      subject = refl;
      target = refl;
      warmups = refl;
      repetitions = refl;
    };
    matrix_id = sym (ap (λ (x : MatrixConfig × List MatrixError). x.0.matrix_id) n);
    output_directory = sym (ap (λ (x : MatrixConfig × List MatrixError). x.0.output_directory) n);
    cooldown_ms = sym (ap (λ (x : MatrixConfig × List MatrixError). x.0.cooldown_ms) n);
    fail_fast = sym (ap (λ (x : MatrixConfig × List MatrixError). x.0.fail_fast) n);
    given = matrix_of print net p raw_target cs;
    normal = n;
  }

  abbrev FromRead : Options → Option Endpoint → MatrixConfig → Type 0
  FromRead p read m = (target : Endpoint) × (read ≡ some target) × FromOptions p target m

  refused :
      {e : SuiteError} {m : MatrixConfig} (p : Options) (read : Option Endpoint)
      → rejected e ≡ accepted m
      → FromRead p read m
  refused p read h = ground (arith, h)

  generate_for-FromOptions :
      (p : Options) (read : Option Endpoint) (m : MatrixConfig)
      → generate_for print net p read ≡ accepted m
      → FromRead p read m
  unfolding generate_for
  generate_for-FromOptions p none m h = ground arith
  generate_for-FromOptions p (some target) m h =
      elim (Bool-cases (
        str_eq p.output_directory ""
        || str_eq p.sing_box_binary ""
        || str_eq p.outbound_interface "")) [
          | inl e ↦ refused p (some target) (sym (if-true _ _ _ e) ∙ h)
          | inr e ↦
              let a = and_then-accepted _ _ m (sym (if-false _ _ _ e) ∙ h) in
              let b = and_then-accepted _ _ m a.2 in
              let c = and_then-accepted _ _ m b.2 in
              let d = and_then-accepted _ _ m c.2 in
              (
                target,
                refl,
                normalized-FromOptions p target a.0 b.0 c.0 d.0 m
                    (read_raw_target-IsRawTarget p.raw_target target a.0 a.1) b.1 c.1
                    (all_cases-AllCases print net p target a.0 b.0 c.0 d.0 d.1)
                    (normalized_ok _ m d.2),
              )
        ]

  -- A matrix is generated from options: with the defaults of a preset, and a target that can be read.
  pub record Generated (o : Options) (m : MatrixConfig) : Type 0 where
    pub options : Options
    pub filled : apply_preset_defaults (default_options o) ≡ accepted options
    pub target : Endpoint
    pub target_read : net.parse_addr_port options.target ≡ some target
    pub from_options : FromOptions options target m

  -- A matrix that Generate returns is Generated from the options: it has one case of each selected subject
  -- and workload, in their order, but none of the redirect subject under UDP; each is named for both, was
  -- accepted, and goes to the raw target under the raw subject, over the listener to the target under the
  -- direct one, and where its workload says under the others; and it has one control, of the raw subject
  -- at the raw target. The matrix can be run: it has a case, its cases are accepted with identifiers of
  -- their own, and its control is an accepted raw subject; and to normalize and validate it once more
  -- changes nothing and finds no error.
  pub generate-IsRunnable :
      (o : Options) (m : MatrixConfig)
      → generate print net o ≡ accepted m
      → Generated o m × IsRunnable net m × (normalize_and_validate_matrix net m ≡ (m, []))
  unfolding generate
  generate-IsRunnable o m h =
      let a = and_then-accepted _ _ m h in
      let g = generate_for-FromOptions a.0 _ m a.2 in
      let n = g.2.normal in
      let given = g.2.given in
      (
        record { options = a.0; filled = a.1; target = g.0; target_read = g.1; from_options = g.2 },
        subst (λ x. IsRunnable net x.0) n
            (accepted-IsRunnable net given (ap (λ (x : MatrixConfig × List MatrixError). x.1) n)),
        subst (λ x. normalize_and_validate_matrix net x.0 ≡ x) n
            (normalize_and_validate_matrix_idem net given),
      )
