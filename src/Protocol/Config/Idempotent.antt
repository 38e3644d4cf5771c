-- ===== src/Protocol/Config/Idempotent.antt =====
-- internal/protocol/protocol.go: ApplyDefaults fills in for good.
use sing_box_inbound_bench.Base.{
  ℕ, String, str_eq, Bool, true, false, arith, if◌then◌else◌, ◌≡◌, refl,
}
use sing_box_inbound_bench.Base.Int.{ℤ, pos}
use sing_box_inbound_bench.Protocol.Config.{
  Config, SubjectConfig, WorkloadConfig, ExecutionConfig, version, protocol_udp,
  udp_socket_connected, subject_tproxy,
}
use sing_box_inbound_bench.Protocol.Config.Defaults.{
  or_int, or_uint, or_text, is_tun, default_tun_name, workload_defaults, execution_defaults,
  subject_defaults, apply_defaults,
}

pub or_int_idem : (x d : ℤ) → or_int (or_int x d) d ≡ or_int x d
unfolding or_int
or_int_idem x d = ground arith

or_uint_idem : (x d : ℕ) → or_uint (or_uint x d) d ≡ or_uint x d
unfolding or_uint
or_uint_idem x d = ground arith

pub or_text_idem : (x d : String) → or_text (or_text x d) d ≡ or_text x d
unfolding or_text
or_text_idem x d = ground arith

-- A default that a condition guards is idempotent where the default is.
module _ {A : Type 0} (default : A → A) (x : A) (idem : default (default x) ≡ default x) where
  guarded_idem :
      (b : Bool)
      → (if b then default (if b then default x else x) else (if b then default x else x))
        ≡ (if b then default x else x)
  guarded_idem true = idem
  guarded_idem false = refl

workload_defaults_idem :
    (w : WorkloadConfig) → workload_defaults (workload_defaults w) ≡ workload_defaults w
unfolding workload_defaults
workload_defaults_idem w = λ i. record w {
  payload_bytes = or_int_idem w.payload_bytes (pos 64) i;
  connections = or_int_idem w.connections (pos 1) i;
  flows = or_int_idem w.flows (pos 1) i;
  timeout_ms = or_int_idem w.timeout_ms (pos 2000) i;
  udp_socket_mode =
      guarded_idem (λ m. or_text m udp_socket_connected) w.udp_socket_mode
        (or_text_idem w.udp_socket_mode udp_socket_connected) (str_eq w.protocol protocol_udp) i;
}

execution_defaults_idem :
    (e : ExecutionConfig) → execution_defaults (execution_defaults e) ≡ execution_defaults e
unfolding execution_defaults
execution_defaults_idem e = λ i. record e {
  repetitions = or_int_idem e.repetitions (pos 5) i;
  startup_timeout_ms = or_int_idem e.startup_timeout_ms (pos 10000) i;
}

subject_defaults_idem :
    (run_id : String) (s : SubjectConfig)
    → subject_defaults run_id (subject_defaults run_id s) ≡ subject_defaults run_id s
unfolding subject_defaults
subject_defaults_idem run_id s =
    let tproxy = str_eq s.kind subject_tproxy in
    λ i. record s {
      tun_name =
          guarded_idem (λ x. or_text x (default_tun_name run_id)) s.tun_name
            (or_text_idem s.tun_name (default_tun_name run_id)) (is_tun s.kind) i;
      mtu = guarded_idem (λ x. or_uint x 1500) s.mtu (or_uint_idem s.mtu 1500) (is_tun s.kind) i;
      mark =
          guarded_idem (λ x. or_uint x 0x00800000) s.mark (or_uint_idem s.mark 0x00800000) tproxy i;
      route_table =
          guarded_idem (λ x. or_int x (pos 20230)) s.route_table
            (or_int_idem s.route_table (pos 20230)) tproxy i;
      rule_priority =
          guarded_idem (λ x. or_int x (pos 12000)) s.rule_priority
            (or_int_idem s.rule_priority (pos 12000)) tproxy i;
    }

-- Defaults that are filled in are filled in for good.
pub apply_defaults_idem : (c : Config) → apply_defaults (apply_defaults c) ≡ apply_defaults c
unfolding apply_defaults
apply_defaults_idem c = λ i. record c {
  protocol_version = or_text_idem c.protocol_version version i;
  subject = subject_defaults_idem c.run_id c.subject i;
  workload = workload_defaults_idem c.workload i;
  execution = execution_defaults_idem c.execution i;
}
