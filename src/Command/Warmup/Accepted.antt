-- ===== src/Command/Warmup/Accepted.antt =====
-- cmd/inbound-bench/main.go and internal/worker/worker.go: the worker process accepts the requests that
-- the command makes of an accepted configuration, and each worker of a warmup has work.
use native.Mathlib.Nat.{le-div_iff_mul-le}
use sing_box_inbound_bench.Base.{
  ◌/◌, ℕ, ◌≤◌, min, max, [], ◌++◌, str_eq, Bool, true, false, not, ◌&&◌, ◌||◌, if◌then◌else◌, subst,
  sym, ap, ◌∙◌, ◌≡◌, refl, arith, append-[],
}
use sing_box_inbound_bench.Base.Int.{ℤ, pos, negsuc, pos_part, min_ℤ, max_ℤ, ltb_ℤ, eq_ℤ, add_int}
use sing_box_inbound_bench.Text.{bytes}
use sing_box_inbound_bench.Workers.{per_worker_requests}
use sing_box_inbound_bench.Workers.Shares.{share_eq}
use sing_box_inbound_bench.Protocol.Config.{
  Config, WorkloadConfig, protocol_tcp, protocol_udp, contains_text, version,
}
use sing_box_inbound_bench.Protocol.Config.Errors.{
  ConfigError, check, check-[], NetText, bad_run_id, version_mismatch, check_none, bad_payload,
  packet_too_large, negative_amount, not_one_limit, no_workers,
}
use sing_box_inbound_bench.Protocol.Config.Workload.{
  valid_mode, protocol_errors, payload_errors, socket_mode_errors, limit_errors, rate_errors,
  worker_errors, workload_errors,
}
use sing_box_inbound_bench.Protocol.Config.Subject.{
  proxy_errors, tun_errors, direct_errors, ebpf_errors,
}
use sing_box_inbound_bench.Protocol.Config.Validate.{
  run_id_pattern, validate, identity_errors, execution_errors, subject_errors,
}
use sing_box_inbound_bench.Protocol.Config.Accepted.{
  validate-parts, workload_errors-parts, workload_errors_none, int_in_range,
}
use sing_box_inbound_bench.Command.Warmup.{
  warmup_workers, warmup_workload, Request, make_worker_request, warmup_request, validation,
  request_accepted,
}

-- An accepted identity has a run identifier, which is all that the worker process checks of it.
identity_ok :
    (c : Config) (r : Request)
    → identity_errors c ≡ []
    → r.run_id ≡ c.run_id
    → identity_errors (validation r) ≡ []
unfolding identity_errors contains_text check
identity_ok c r h e =
    let parts = append-[] (check _ bad_run_id) _ (append-[] (check _ version_mismatch) _ h).1 in
    subst (λ id. check (not (run_id_pattern (bytes id))) bad_run_id ++ [] ≡ []) (sym e)
      (ap (λ xs. xs ++ []) parts.0)

execution_ok : (r : Request) → execution_errors (validation r) ≡ []
unfolding execution_errors check
execution_ok r = refl

-- A raw subject has nothing more to check, whatever the network.
subject_ok : (net : NetText) (r : Request) → subject_errors net (validation r) ≡ []
unfolding subject_errors proxy_errors tun_errors direct_errors ebpf_errors check
subject_ok net r = refl

validation_ok :
    (net : NetText) (r : Request)
    → identity_errors (validation r) ≡ []
    → workload_errors net r.workload ≡ []
    → validate net (validation r) ≡ []
unfolding validate
validation_ok net r a b = cc (a, b, execution_ok r, subject_ok net r)

request_ok :
    (net : NetText) (r : Request)
    → r.protocol_version ≡ version
    → validate net (validation r) ≡ []
    → request_accepted net r ≡ true
unfolding request_accepted
request_ok net r v h = cc

-- The worker process accepts the request of a measurement of an accepted configuration.
pub accepted-make_worker_request :
    (net : NetText) (c : Config) (index : ℕ) (collect_proof : Bool)
    → validate net c ≡ []
    → request_accepted net (make_worker_request c index collect_proof) ≡ true
accepted-make_worker_request net c index collect_proof h =
    let parts = validate-parts net c h in
    let r = make_worker_request c index collect_proof in
    request_ok net r refl (validation_ok net r (identity_ok c r parts.0 refl) parts.1)

warmup_workers_range : (z : ℤ) → (n : ℕ) × (warmup_workers z ≡ pos n) × (1 ≤ n) × (n ≤ 8)
unfolding warmup_workers
warmup_workers_range (pos n) = (min (max n 1) 8, ground arith, omega arith, omega arith)
warmup_workers_range (negsuc n) = (1, ground arith, omega arith, omega arith)

warmup_requests : (w : WorkloadConfig) → (warmup_workload w).requests ≡ pos 8
unfolding warmup_workload
warmup_requests w =
    let a = warmup_workers_range w.connections in
    let b = warmup_workers_range w.flows in cc (a.1, b.1, largest a.0 b.0 a.3 b.3)
  where
    largest : (a b : ℕ) → a ≤ 8 → b ≤ 8 → max_ℤ (max_ℤ (pos 8) (pos a)) (pos b) ≡ pos 8
    largest a b h k = ground arith

echo_of :
    (t u : Bool) (e f : ConfigError)
    → (not t && not u) ≡ false
    → check (not t && not u) e ++ check (not (if t then true else if u then true else false)) f ≡ []
unfolding check
echo_of true u e f h = refl
echo_of false true e f h = refl
echo_of false false e f h = cc

-- Echo is a mode of both protocols.
echo_valid :
    (w : WorkloadConfig) → protocol_errors w ≡ [] → protocol_errors (warmup_workload w) ≡ []
unfolding protocol_errors warmup_workload valid_mode
echo_valid w h =
    echo_of (str_eq w.protocol protocol_tcp) (str_eq w.protocol protocol_udp) _ _
      (check-[] _ _ (append-[] (check _ _) _ h).0)

payload_of :
    (n : ℕ) (udp : Bool)
    → 1 ≤ n
    → n ≤ 64
    → check (ltb_ℤ (pos n) (pos 1) || ltb_ℤ (pos 0x100000) (pos n)) bad_payload
        ++ check (udp && ltb_ℤ (pos 65507) (add_int (pos n) (pos 40))) packet_too_large
      ≡ []
unfolding add_int
payload_of n udp positive small =
    cc (check_none _ bad_payload in_range, check_none _ packet_too_large fits)
  where
    in_range : (ltb_ℤ (pos n) (pos 1) || ltb_ℤ (pos 0x100000) (pos n)) ≡ false
    in_range = ground arith

    fits : (udp && ltb_ℤ (pos 65507) (add_int (pos n) (pos 40))) ≡ false
    fits = ground arith

small_payload :
    (w : WorkloadConfig) → payload_errors w ≡ [] → payload_errors (warmup_workload w) ≡ []
unfolding payload_errors warmup_workload
small_payload w h =
    let p = int_in_range w.payload_bytes 0x100000 (check-[] _ _ (append-[] (check _ _) _ h).0) in
    let udp = str_eq w.protocol protocol_udp in
    subst
      (λ z.
        check (ltb_ℤ z (pos 1) || ltb_ℤ (pos 0x100000) z) bad_payload
          ++ check (udp && ltb_ℤ (pos 65507) (add_int z (pos 40))) packet_too_large
        ≡ [])
      (sym (ap (λ z. min_ℤ z (pos 64)) p.1 ∙ least p.0))
      (payload_of (min p.0 64) udp (omega (arith, p.2)) (omega arith))
  where
    least : (n : ℕ) → min_ℤ (pos n) (pos 64) ≡ pos (min n 64)
    least n = ground arith

same_socket :
    (w : WorkloadConfig) → socket_mode_errors w ≡ [] → socket_mode_errors (warmup_workload w) ≡ []
unfolding socket_mode_errors warmup_workload
same_socket w h = h

warmup_limit : (w : WorkloadConfig) → limit_errors (warmup_workload w) ≡ []
unfolding limit_errors check warmup_workload
warmup_limit w = subst Fine (sym (warmup_requests w)) refl
  where
    Fine : ℤ → Type 0
    Fine q =
        check (ltb_ℤ q (pos 0) || false || false) negative_amount
          ++ check (if eq_ℤ q (pos 0) then true else false) not_one_limit
        ≡ []

warmup_rate : (w : WorkloadConfig) → rate_errors (warmup_workload w) ≡ []
unfolding rate_errors warmup_workload check
warmup_rate w = refl

warmup_worker : (w : WorkloadConfig) → worker_errors (warmup_workload w) ≡ []
unfolding worker_errors warmup_workload
warmup_worker w =
    let a = warmup_workers_range w.connections in
    let b = warmup_workers_range w.flows in
    check_none _ no_workers
      (some_worker (warmup_workers w.connections) (warmup_workers w.flows) a.0 b.0 a.1 b.1 a.2 b.2)
  where
    some_worker :
        (x y : ℤ) (a b : ℕ)
        → x ≡ pos a
        → y ≡ pos b
        → 1 ≤ a
        → 1 ≤ b
        → (ltb_ℤ x (pos 1) || ltb_ℤ y (pos 1)) ≡ false
    some_worker x y a b e f h k = ground arith

warmup_ok :
    (net : NetText) (w : WorkloadConfig)
    → workload_errors net w ≡ []
    → workload_errors net (warmup_workload w) ≡ []
unfolding warmup_workload
warmup_ok net w h =
    let p = workload_errors-parts net w h in
    workload_errors_none net (warmup_workload w) (
      echo_valid w p.0,
      p.1,
      small_payload w p.2,
      same_socket w p.3,
      warmup_limit w,
      warmup_rate w,
      warmup_worker w,
    )

some_share : (workers k : ℕ) → 1 ≤ workers → workers ≤ 8 → 1 ≤ per_worker_requests 8 workers k
some_share workers k some_worker few =
    let whole : 1 ≤ 8 / workers = (le-div_iff_mul-le some_worker).1 (omega (arith, few)) in
    ground (arith, whole, share_eq 8 workers k)

warmup_share :
    (w : WorkloadConfig) (z : ℤ) (k : ℕ)
    → 1
      ≤ per_worker_requests (pos_part (warmup_workload w).requests) (pos_part (warmup_workers z)) k
warmup_share w z k =
    let a = warmup_workers_range z in
    subst (λ q. 1 ≤ per_worker_requests (pos_part q) (pos_part (warmup_workers z)) k)
      (sym (warmup_requests w))
      (subst (λ q. 1 ≤ per_worker_requests 8 (pos_part q) k) (sym a.1) (some_share a.0 k a.2 a.3))

warmup_shares :
    (w : WorkloadConfig) (k : ℕ)
    → (1
        ≤ per_worker_requests
            (pos_part (warmup_workload w).requests)
            (pos_part (warmup_workload w).connections)
            k)
      × (1
          ≤ per_worker_requests
              (pos_part (warmup_workload w).requests)
              (pos_part (warmup_workload w).flows)
              k)
unfolding warmup_workload
warmup_shares w k = (warmup_share w w.connections k, warmup_share w w.flows k)

-- The worker process accepts the request of the warmup of an accepted configuration, and each of the
-- warmup's connections and flows has a request to send.
pub accepted-warmup_request :
    (net : NetText) (c : Config) (index k : ℕ)
    → validate net c ≡ []
    → (request_accepted net (warmup_request c index) ≡ true)
      × (1
          ≤ per_worker_requests
              (pos_part (warmup_workload c.workload).requests)
              (pos_part (warmup_workload c.workload).connections)
              k)
      × (1
          ≤ per_worker_requests
              (pos_part (warmup_workload c.workload).requests)
              (pos_part (warmup_workload c.workload).flows)
              k)
accepted-warmup_request net c index k h =
    let parts = validate-parts net c h in
    let r = warmup_request c index in
    let accepted =
      request_ok net r refl
        (validation_ok net r (identity_ok c r parts.0 refl) (warmup_ok net c.workload parts.1)) in
    (accepted, (warmup_shares c.workload k).0, (warmup_shares c.workload k).1)
