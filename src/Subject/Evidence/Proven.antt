-- ===== src/Subject/Evidence/Proven.antt =====
-- internal/subject/path.go: what ValidateSocketPathEvidence accepts.
use sing_box_inbound_bench.Base.{
  ℕ, ◌≤◌, ◌∷◌, ◌≡◌, ◌≢◌, ◌↔◌, refl, sym, ap, subst, ◌∙◌, Bool, true, false, ◌==◌, ==_iff, String,
  str_append, str_eq, str_eq_iff, List, [], Option, none, some, ◌⊎◌, inl, inr, arith, All,
}
use sing_box_inbound_bench.Base.Int.{ℤ, pos, negsuc, pos_part, ltb_ℤ}
use sing_box_inbound_bench.Protocol.Endpoint.{Endpoint, canonical, unmap}
use sing_box_inbound_bench.Subject.Evidence.{
  WorkerIdentity, SocketPathEvidence, WarmupResult, Externals, Laws, fail_if, print_canonical,
  canonical_endpoint, parsed_addr, compare_tuples, with_client, check_paths, check_uid,
  check_cgroup, is_empty, check_result, check_decoded, validate_socket_path_evidence,
}
use sing_box_inbound_bench.Subject.Evidence.Checks.{
  then_check-none, check_refutes, check_decides, left-right, right-right, unless_verified,
  eq_ip_iff,
}

-- Redirected traffic reaches the server from another endpoint than the worker's, other traffic from
-- the worker's address.
abbrev pub Tuples : Bool → Endpoint → Endpoint → Type 0
Tuples true client server = canonical client ≢ canonical server
Tuples false client server = unmap client.ip ≡ unmap server.ip

pub record Shown (ext : Externals) (redirected : Bool) (path : SocketPathEvidence) : Type 0 where
  pub client : Endpoint
  pub server : Endpoint
  pub client_read : ext.parse_addr_port path.client_local ≡ inr client
  pub server_read : ext.parse_addr_port path.server_observed_peer ≡ inr server
  pub tuples : Tuples redirected client server

pub record Proven (ext : Externals) (redirected : Bool) (worker_uid : Option ℕ)
    (cgroup_path : String) (result : WarmupResult) : Type 0 where
  pub has_pid : 1 ≤ pos_part result.identity.pid
  pub as_user : (uid : ℕ) → worker_uid ≡ some uid → result.identity.uid ≡ uid
  pub in_cgroup :
      cgroup_path ≢ ""
      → (result.identity.cgroup_verified ≡ true)
        × (ext.clean result.identity.cgroup_path ≡ ext.clean cgroup_path)
  pub has_paths : result.socket_paths ≢ []
  pub paths : All (Shown ext redirected) result.socket_paths

module _ (ext : Externals) (laws : Laws ext) where
  open ext use {parse_addr_port, addr_port_text}

  -- Two endpoints that were read print the same text only if they are the same without zones.
  same_text :
      {t u : String} {c s : Endpoint}
      → parse_addr_port t ≡ inr c
      → parse_addr_port u ≡ inr s
      → (addr_port_text (canonical c) ≡ addr_port_text (canonical s)) ↔ (canonical c ≡ canonical s)
  same_text {t} {u} {c} {s} p q = (
    λ h. inr_injective (sym (laws.reads_back t c p) ∙ ap parse_addr_port h ∙ laws.reads_back u s q),
    λ h. ap addr_port_text h,
  )
    where
      inr_injective : {a b : Endpoint} → ◌≡◌ {A = String ⊎ Endpoint} (inr a) (inr b) → a ≡ b
      inr_injective h = cc

  parsed_addr-canonical :
      {t : String} {e : Endpoint}
      → parse_addr_port t ≡ inr e
      → parsed_addr ext (addr_port_text (canonical e)) ≡ unmap e.ip
  unfolding parsed_addr
  parsed_addr-canonical {t} {e} p = rw (laws.reads_back t e p)

  compare-Tuples :
      (redirected : Bool) (network : String) {t u : String} {c s : Endpoint}
      → parse_addr_port t ≡ inr c
      → parse_addr_port u ≡ inr s
      → (compare_tuples ext redirected network
            (addr_port_text (canonical c))
            (addr_port_text (canonical s))
          ≡ none)
        ↔ Tuples redirected c s
  unfolding compare_tuples
  compare-Tuples true network {t} {u} {c} {s} p q =
      let (forth, back) =
        check_refutes (str_eq (addr_port_text (canonical c)) (addr_port_text (canonical s)))
          (str_append network
            " server observed the worker socket tuple; redirection was not proven")
          (
            (λ h. (same_text p q).0 ((str_eq_iff _ _).0 h)),
            λ h. (str_eq_iff _ _).1 ((same_text p q).1 h),
          ) in
      (λ h. forth ((then_check-none _ none).0 h).0, λ h. (then_check-none _ none).1 (back h, refl))
  compare-Tuples false network {t} {u} {c} {s} p q =
      rw (parsed_addr-canonical p, parsed_addr-canonical q) (check_decides _ _ (eq_ip_iff _ _))

  same_ends :
      {redirected : Bool} {path : SocketPathEvidence} {c s : Endpoint}
      → parse_addr_port path.client_local ≡ inr c
      → parse_addr_port path.server_observed_peer ≡ inr s
      → (g : Shown ext redirected path) → ◌≡◌ {A = Endpoint × Endpoint} (g.client, g.server) (c, s)
  same_ends p q g = pair (sym g.client_read ∙ p) (sym g.server_read ∙ q)
    where
      pair :
          {a b c d : Endpoint}
          → ◌≡◌ {A = String ⊎ Endpoint} (inr a) (inr b)
          → ◌≡◌ {A = String ⊎ Endpoint} (inr c) (inr d)
          → ◌≡◌ {A = Endpoint × Endpoint} (a, c) (b, d)
      pair h k = cc

  abbrev Both : Bool → SocketPathEvidence → Type 0
  Both redirected path =
      (with_client ext redirected path (canonical_endpoint ext path.client_local) ≡ none)
      ↔ Shown ext redirected path

  with_client-Shown : (redirected : Bool) (path : SocketPathEvidence) → Both redirected path
  unfolding canonical_endpoint
  with_client-Shown redirected path =
      cases (parse_addr_port path.client_local) (parse_addr_port path.server_observed_peer) refl
        refl
    where
      cases :
          (x y : String ⊎ Endpoint)
          → parse_addr_port path.client_local ≡ x
          → parse_addr_port path.server_observed_peer ≡ y
          → (with_client ext redirected path (print_canonical ext x) ≡ none)
            ↔ Shown ext redirected path
      cases (inl e) y p q = (λ h. cc, λ g. absurd (left-right (sym p ∙ g.client_read)))
      cases (inr c) (inl e) p q = rw q (λ h. cc, λ g. absurd (left-right (sym q ∙ g.server_read)))
      cases (inr c) (inr s) p q =
          let (forth, back) = compare-Tuples redirected path.network p q in
          rw q (
            λ h. record {
              client = c;
              server = s;
              client_read = p;
              server_read = q;
              tuples = forth h;
            },
            λ g. back (
                subst (λ (x : Endpoint × Endpoint). Tuples redirected x.0 x.1) (same_ends p q g)
                  g.tuples),
          )

  check_paths-Shown :
      (redirected : Bool) (paths : List SocketPathEvidence)
      → (check_paths ext redirected paths ≡ none) ↔ All (Shown ext redirected) paths
  unfolding check_paths
  check_paths-Shown redirected [] = (λ _. tt, λ _. refl)
  check_paths-Shown redirected (path ∷ paths) =
      let (forth, back) =
        then_check-none (with_client ext redirected path (canonical_endpoint ext path.client_local))
          (check_paths ext redirected paths) in
      let (first, first_back) = with_client-Shown redirected path in
      let (rest, rest_back) = check_paths-Shown redirected paths in
      (λ h. (first (forth h).0, rest (forth h).1), λ g. back (first_back g.0, rest_back g.1))

  has_pid_iff : (pid : ℤ) (e : String) → (fail_if (ltb_ℤ pid (pos 1)) e ≡ none) ↔ (1 ≤ pos_part pid)
  has_pid_iff (pos n) e = (λ h. ground (arith, h), λ h. ground (arith, h))
  has_pid_iff (negsuc n) e = (λ h. ground (arith, h), λ h. ground (arith, h))

  as_user_iff :
      (worker_uid : Option ℕ) (uid : ℕ)
      → (check_uid ext worker_uid uid ≡ none)
        ↔ ((wanted : ℕ) → worker_uid ≡ some wanted → uid ≡ wanted)
  as_user_iff none uid = (λ h wanted e. cc, λ h. refl)
  as_user_iff (some u) uid =
      let (forth, back) = check_decides (uid == u) _ (==_iff uid u) in
      (λ h wanted e. forth h ∙ some-injective e, λ h. back (h u refl))
    where
      some-injective : {a b : ℕ} → some a ≡ some b → a ≡ b
      some-injective h = cc

  in_cgroup_iff :
      (cgroup_path : String) (identity : WorkerIdentity)
      → (check_cgroup ext cgroup_path identity ≡ none) ↔ (
          cgroup_path ≢ ""
          → (identity.cgroup_verified ≡ true)
            × (ext.clean identity.cgroup_path ≡ ext.clean cgroup_path))
  unfolding check_cgroup
  in_cgroup_iff cgroup_path identity =
      unless_verified (str_eq cgroup_path "") identity.cgroup_verified
        (str_eq (ext.clean identity.cgroup_path) (ext.clean cgroup_path)) _ (str_eq_iff _ _)
        (str_eq_iff _ _)

  has_paths_iff :
      (paths : List SocketPathEvidence) (e : String)
      → (fail_if (is_empty ext paths) e ≡ none) ↔ (paths ≢ [])
  has_paths_iff [] e = (λ h. cc, λ h. absurd (h refl))
  has_paths_iff (p ∷ ps) e = (λ h k. cc, λ h. refl)

  check_result-Proven :
      (redirected : Bool) (worker_uid : Option ℕ) (cgroup_path : String) (result : WarmupResult)
      → (check_result ext redirected worker_uid cgroup_path result ≡ none)
        ↔ Proven ext redirected worker_uid cgroup_path result
  unfolding check_result
  check_result-Proven redirected worker_uid cgroup_path result =
      let i = result.identity in
      let pid = has_pid_iff i.pid "worker evidence has no PID" in
      let uid = as_user_iff worker_uid i.uid in
      let cgroup = in_cgroup_iff cgroup_path i in
      let some_paths =
        has_paths_iff result.socket_paths "worker returned no socket tuple evidence" in
      let shown = check_paths-Shown redirected result.socket_paths in
      (
        λ h.
            let (a, h₁) = (then_check-none _ _).0 h in
            let (b, h₂) = (then_check-none _ _).0 h₁ in
            let (c, h₃) = (then_check-none _ _).0 h₂ in
            let (d, e) = (then_check-none _ _).0 h₃ in
            record {
              has_pid = pid.0 a;
              as_user = uid.0 b;
              in_cgroup = cgroup.0 c;
              has_paths = some_paths.0 d;
              paths = shown.0 e;
            },
        λ g. (then_check-none _ _).1 (
          pid.1 g.has_pid,
          (then_check-none _ _).1 (
            uid.1 g.as_user,
            (then_check-none _ _).1 (
              cgroup.1 g.in_cgroup,
              (then_check-none _ _).1 (some_paths.1 g.has_paths, shown.1 g.paths),
            ),
          ),
        ),
      )

  -- ValidateSocketPathEvidence has no error exactly if the details are a worker's result that is
  -- Proven: with a process, the user and the verified cgroup that are asked for, and at least one pair
  -- of tuples, each of which can be read, and shows that the server saw another endpoint than the
  -- worker's, or the worker's address where no redirection is expected.
  pub validate_socket_path_evidence-Proven :
      (details : String) (redirected : Bool) (worker_uid : Option ℕ) (cgroup_path : String)
      → (validate_socket_path_evidence ext details redirected worker_uid cgroup_path ≡ none) ↔ (
          (result : WarmupResult) × (ext.decode_result details ≡ inr result)
          × Proven ext redirected worker_uid cgroup_path result)
  unfolding validate_socket_path_evidence
  validate_socket_path_evidence-Proven details redirected worker_uid cgroup_path =
      cases (ext.decode_result details) refl
    where
      cases :
          (d : String ⊎ WarmupResult)
          → ext.decode_result details ≡ d
          → (check_decoded ext redirected worker_uid cgroup_path d ≡ none) ↔ (
              (result : WarmupResult) × (ext.decode_result details ≡ inr result)
              × Proven ext redirected worker_uid cgroup_path result)
      cases (inl e) p = (λ h. cc, λ g. absurd (left-right (sym p ∙ g.1)))
      cases (inr r) p =
          let (forth, back) = check_result-Proven redirected worker_uid cgroup_path r in
          (
            λ h. (r, p, forth h),
            λ g. back (
                subst (Proven ext redirected worker_uid cgroup_path) (right-right (sym g.1 ∙ p))
                  g.2),
          )
