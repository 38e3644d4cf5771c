-- ===== src/Subject/Managed/Tun.antt =====
-- internal/subject/singbox/subject.go: the proof through a TUN interface.
use sing_box_inbound_bench.Base.{
  ℕ, ◌≡◌, refl, sym, ap, subst, ◌∙◌, Bool, true, false, ◌||◌, ltb→lt, String, str_eq, str_eq_iff,
  Option, none, some, inl, inr, Bool-cases, and-true_iff, arith,
}
use sing_box_inbound_bench.Netdev
use sing_box_inbound_bench.Netdev.{Stats}
use sing_box_inbound_bench.Protocol.Config.{subject_tun, subject_tun_auto}
use sing_box_inbound_bench.Runner.{Observation, WarmupEvidence, is_nil, is_nil-none, join}
use sing_box_inbound_bench.Subject.Evidence.{Laws}
use sing_box_inbound_bench.Subject.Managed.{
  Managed, TunObservation, Env, delta_error, both_grew, activity_error, backend_error, subject_kind,
  socket_error, prove_tun, new_proof,
}
use sing_box_inbound_bench.Subject.Managed.Spec.{
  TunRead, QueueGrew, Evidenced, Shows, by_tun, by_tun_auto, socket-Evidenced,
}

join-none : (a b : Option String) → is_nil (join a b) ≡ true → (a ≡ none) × (b ≡ none)
join-none none none h = (refl, refl)
join-none none (some b) h = cc
join-none (some a) none h = cc
join-none (some a) (some b) h = cc

activity-redirected :
    (k : String) (redirected : Bool)
    → str_eq k subject_tun ≡ true
    → activity_error k redirected ≡ none
    → redirected ≡ true
unfolding activity_error
activity-redirected k true e h = refl
activity-redirected k false e h = ground (arith, e, h)

backend-QueueGrew :
    (k : String) (first second : TunObservation)
    → str_eq k subject_tun_auto ≡ true
    → backend_error k first second ≡ none
    → QueueGrew first second
unfolding backend_error
backend-QueueGrew k first second e h =
    let unknown = str_eq_iff first.backend "" in
    let same = str_eq_iff first.backend second.backend in
    record {
      known = λ n. ground (arith, unknown.1 n, e, h);
      stable = ground (arith, e, h);
      packets_grew = ground (arith, e, h);
    }

with_error : {A : Type 0} (x : A × Option String) → x.1 ≡ none → x ≡ (x.0, none)
with_error x e = λ i. (x.0, e i)

module _ (env : Env) (m : Managed) (laws : Laws env.externals) where
  -- A TUN subject in each of its two kinds.
  pub tun-Shows :
      (now : ℕ) (before after : Observation) (warmup : WarmupEvidence)
      → (str_eq (subject_kind env m) subject_tun || str_eq (subject_kind env m) subject_tun_auto)
        ≡ true
      → m.netfilter ≡ none
      → (prove_tun env m (new_proof env m now before after warmup) warmup).valid ≡ true
      → Shows env m before after warmup
  unfolding prove_tun
  tun-Shows now before after warmup k no_manager h =
      let first = env.decode_tun before.content in
      let second = env.decode_tun after.content in
      let (h₁, shown) = (and-true_iff _ _).0 h in
      let (h₂, backend) = (and-true_iff _ _).0 h₁ in
      let (h₃, activity) = (and-true_iff _ _).0 h₂ in
      let (decoded, no_delta_error) = (and-true_iff _ _).0 h₃ in
      let (b, a) = join-none first.1 second.1 decoded in
      by_delta (Netdev.delta first.0.interface second.0.interface) refl (with_error first b)
        (with_error second a) ((is_nil-none _).0 no_delta_error) ((is_nil-none _).0 activity)
        ((is_nil-none _).0 backend) shown
    where
      by_delta :
          (delta : Option Stats)
          → Netdev.delta
              (env.decode_tun before.content).0.interface
              (env.decode_tun after.content).0.interface
            ≡ delta
          → env.decode_tun before.content ≡ ((env.decode_tun before.content).0, none)
          → env.decode_tun after.content ≡ ((env.decode_tun after.content).0, none)
          → delta_error delta ≡ none
          → activity_error (subject_kind env m) (both_grew delta) ≡ none
          → backend_error
              (subject_kind env m)
              (env.decode_tun before.content).0
              (env.decode_tun after.content).0
            ≡ none
          → is_nil (socket_error env m warmup (both_grew delta) "") ≡ true
          → Shows env m before after warmup
      by_delta none e p q de act back shown = cc
      by_delta (some d) e p q de act back shown =
          let read : TunRead env before after = record {
            first = (env.decode_tun before.content).0;
            second = (env.decode_tun after.content).0;
            first_read = p;
            second_read = q;
            d = d;
            added = e;
          } in
          elim (Bool-cases (str_eq (subject_kind env m) subject_tun)) [
            | inl is_tun ↦
                let grew = activity-redirected (subject_kind env m) _ is_tun act in
                let (rx, tx) = (and-true_iff _ _).0 grew in
                by_tun ((str_eq_iff _ _).0 is_tun) no_manager read (ltb→lt _ _ rx) (ltb→lt _ _ tx) (
                  subst (λ b. Evidenced env m warmup b "") grew
                    (socket-Evidenced env m laws warmup _ "" shown))
            | inr no_tun ↦
                let auto =
                  sym (ap (λ b. b || str_eq (subject_kind env m) subject_tun_auto) no_tun) ∙ k in
                by_tun_auto ((str_eq_iff _ _).0 auto) no_manager read
                  (backend-QueueGrew (subject_kind env m) _ _ auto back)
                  (socket-Evidenced env m laws warmup _ "" shown)
          ]
