-- ===== src/Command/Recovery.antt =====
-- cmd/inbound-bench/main.go, runMatrixRecoveryProbe and waitContext. Clocks, contexts and processes are
-- those of the world `W`; an `error` is `Option String`, by its text.
pub mod Probed
use sing_box_inbound_bench.Base.{
  ℕ, zero, suc, ◌+◌, ◌*◌, ◌%◌, ◌^◌, List, String, str_append, Bool, true, false, ◌&&◌, ◌==◌, ltb,
  if◌then◌else◌, Option, none, some,
}
use sing_box_inbound_bench.Base.Int.{ℤ, pos, ltb_ℤ, bits, from_bits}
use sing_box_inbound_bench.Text.{itoa}
use sing_box_inbound_bench.Protocol.Config.{Config, version, protocol_udp, mode_echo}
use sing_box_inbound_bench.Runner.{is_nil, error_text, join}
use sing_box_inbound_bench.Udp.Echo.{Counters, no_counters}
use sing_box_inbound_bench.Command.Warmup.{Request}
use sing_box_inbound_bench.Command.Jobs.{MatrixRecovery}

abbrev pub matrix_recovery_attempts : ℕ
matrix_recovery_attempts = 5

-- In nanoseconds.
abbrev pub second : ℤ
second = pos 1000000000

abbrev pub matrix_recovery_interval : ℤ
matrix_recovery_interval = second

abbrev pub matrix_recovery_timeout : ℤ
matrix_recovery_timeout = pos 6000000000

-- What the code calls of the operating system. `context_err` is the error of the command's context,
-- `sleep` what its select returns between a timer of that many nanoseconds and the context, and
-- `run_worker` what worker.RunProcess returns in a temporary directory under a timeout.
pub record Machine (W : Type 0) : Type 0 where
  pub now : W → ℕ × W
  pub context_err : W → Option String
  pub sleep : ℤ → W → Option String × W
  pub run_worker : ℤ → String → Request → W → (Counters × Option String) × W

unfoldable pub matrix_recovery_request : Config → Request
matrix_recovery_request raw_control = record {
  protocol_version = version;
  run_id = "matrix-recovery";
  index = 0;
  workload = record {
    protocol = protocol_udp;
    mode = mode_echo;
    target = raw_control.workload.target;
    payload_bytes = pos 64;
    requests = pos 8;
    duration_ms = pos 0;
    connections = pos 1;
    flows = pos 1;
    offered_pps = pos 0;
    udp_socket_mode = "";
    timeout_ms = pos 500;
  };
  worker_uid = raw_control.execution.worker_uid;
  cgroup_path = "";
  collect_proof = false;
}

unfoldable pub healthy : Option String → Counters → Bool
healthy probe_err counters =
    is_nil probe_err
    && (counters.operations == 8)
    && (counters.failed == 0)
    && (counters.lost == 0)
    && (counters.corrupt == 0)

abbrev pub probe_text : Counters → String
probe_text c = str_append "raw UDP health probe received " (
    str_append (itoa c.operations) (
      str_append "/8 operations (failed=" (
        str_append (itoa c.failed) (
          str_append " lost=" (
            str_append (itoa c.lost) (str_append " corrupt=" (str_append (itoa c.corrupt) ")")))))))

-- `time.Duration(n) * time.Millisecond`
unfoldable pub milliseconds : ℤ → ℤ
milliseconds n = from_bits (bits n * 1000000 % 2 ^ 64)

module _ {W : Type 0} (machine : Machine W) where
  open machine use {now, context_err, sleep, run_worker}

  unfoldable pub wait_context : ℤ → W → Option String × W
  wait_context duration w = if ltb_ℤ (pos 0) duration then sleep duration w else (context_err w, w)

  abbrev pub Probe : Type 0
  Probe = (MatrixRecovery × Option String) × W

  abbrev pub give_up : MatrixRecovery → Option String → W → Probe
  give_up r last_err w = (
    (
      record r { error = error_text last_err },
      some (str_append "network did not recover after UDP PPS workload: " (error_text last_err)),
    ),
    w,
  )

  -- Whether the wait behind an attempt ends the loop.
  abbrev pub after_wait : MatrixRecovery → Option String → (W → Probe) → Option String × W → Probe
  after_wait r last_err next (none, w) = next w
  after_wait r last_err next (some e, w) = give_up r (join last_err (some e)) w

  abbrev pub Rest : Type 0
  Rest = MatrixRecovery → Option String → W → Probe

  -- The round of an attempt behind what its worker returned, before the rounds of `next`.
  unfoldable pub judge_attempt : ℕ → MatrixRecovery → Rest → (Counters × Option String) × W → Probe
  judge_attempt attempt r next ((counters, probe_err), w) =
      let r' : MatrixRecovery = record r { attempts = attempt; counters = counters } in
      let last_err = join probe_err (some (probe_text counters)) in
      if healthy probe_err counters
      then ((record r' { valid = true; error = "" }, none), w)
      else if ltb attempt matrix_recovery_attempts
      then after_wait r' last_err (next r' last_err) (wait_context matrix_recovery_interval w)
      else next r' last_err w

  unfoldable pub attempt_round : Config → ℕ → MatrixRecovery → Rest → W → Probe
  attempt_round raw_control attempt r next w = judge_attempt attempt r next (
      run_worker matrix_recovery_timeout raw_control.execution.temporary_directory
        (matrix_recovery_request raw_control) w)

  -- The attempts from `attempt` on, `left` of them.
  unfoldable pub attempt_rounds : Config → ℕ → ℕ → MatrixRecovery → Option String → W → Probe
  attempt_rounds raw_control zero attempt r last_err w = give_up r last_err w
  attempt_rounds raw_control (suc left) attempt r last_err w =
      attempt_round raw_control attempt r (attempt_rounds raw_control left (attempt + 1)) w

  -- The deferred function.
  abbrev pub stamped : Probe → Probe
  stamped ((r, err), w) =
      let (finished, w') = now w in ((record r { finished_at = finished }, err), w')

  unfoldable pub run_matrix_recovery_probe : Config → W → Probe
  run_matrix_recovery_probe raw_control w =
      let (started, w₁) = now w in
      let r : MatrixRecovery = record {
        started_at = started;
        finished_at = 0;
        attempts = 0;
        valid = false;
        counters = no_counters;
        error = "";
      } in
      stamped (attempt_rounds raw_control matrix_recovery_attempts 1 r none w₁)
