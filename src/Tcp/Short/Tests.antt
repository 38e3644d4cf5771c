-- ===== src/Tcp/Short/Tests.antt =====
-- A worker of runShort of internal/workload/tcp/tcp.go whose dials fail: it makes its requests.
use sing_box_inbound_bench.Base.{ℕ, true, false, Option, none, some, ◌≡◌, refl}
use sing_box_inbound_bench.Wire.{Error, transport, ok, err}
use sing_box_inbound_bench.Tcp.Short.{
  ShortConfig, Shorts, run_short, short_rounds, judge_short, failed_attempt, is_transport_error,
}

abbrev config : ShortConfig
config = record {
  worker = 0;
  payload_size = 3;
  requests = 2;
  collect_proof = false;
  endpoint_text = λ e. "";
  stop = λ k. false;
  dial = λ k. err (transport true);
  client_local = λ k. ok "10.0.0.2:40000";
  cancelled = λ k j. false;
  echo_elapsed = λ k sequence. 0;
  connect_latency = λ k. 0;
  elapsed = λ k. 0;
  context_err = λ k. none;
}

abbrev failed_of : Option (Option Error × Shorts) → ℕ
failed_of none = 0
failed_of (some (e, s)) = s.failed

two_failures : failed_of (run_short 3 config) ≡ 2
unfolding run_short short_rounds judge_short failed_attempt is_transport_error
two_failures = refl
