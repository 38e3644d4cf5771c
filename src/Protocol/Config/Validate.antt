-- ===== src/Protocol/Config/Validate.antt =====
-- internal/protocol/protocol.go: Validate, which collects every error of a configuration, in order. The
-- texts that net, net/netip and path read are read by the parameter `net`.
use sing_box_inbound_bench.Base.{
  ℕ, List, [], ◌∷◌, ◌++◌, str_eq, Bool, true, false, not, ◌&&◌, ◌||◌, leb, ◌==◌, length,
}
use sing_box_inbound_bench.Base.Int.{pos, ltb_ℤ}
use sing_box_inbound_bench.Text.{bytes}
use sing_box_inbound_bench.Protocol.Config.{
  Config, version, subject_raw, subject_kinds, contains_text,
}
use sing_box_inbound_bench.Protocol.Config.Errors.{
  ConfigError, check, NetText, version_mismatch, bad_run_id, unsupported_subject, bad_repetitions,
  no_output_directory, no_binary,
}
use sing_box_inbound_bench.Protocol.Config.Workload.{workload_errors}
use sing_box_inbound_bench.Protocol.Config.Subject.{
  proxy_errors, tun_errors, direct_errors, ebpf_errors,
}

unfoldable pub is_alphanumeric : ℕ → Bool
is_alphanumeric c = (leb 48 c && leb c 57) || (leb 65 c && leb c 90) || (leb 97 c && leb c 122)

unfoldable pub all_run_id : List ℕ → Bool
all_run_id [] = true
all_run_id (c ∷ cs) = (is_alphanumeric c || c == 46 || c == 95 || c == 45) && all_run_id cs

-- The pattern `^[A-Za-z0-9][A-Za-z0-9._-]{0,63}$`
unfoldable pub run_id_pattern : List ℕ → Bool
run_id_pattern [] = false
run_id_pattern (c ∷ cs) = is_alphanumeric c && all_run_id cs && leb (length cs) 63

unfoldable pub identity_errors : Config → List ConfigError
identity_errors c =
    check (not (str_eq c.protocol_version version)) version_mismatch
    ++ (check (not (run_id_pattern (bytes c.run_id))) bad_run_id
        ++ check (not (contains_text subject_kinds c.subject.kind))
            (unsupported_subject c.subject.kind))

unfoldable pub execution_errors : Config → List ConfigError
execution_errors c =
    check (ltb_ℤ c.execution.repetitions (pos 1) || ltb_ℤ c.execution.warmup_repetitions (pos 0))
      bad_repetitions
    ++ (check (str_eq c.execution.output_directory "") no_output_directory
        ++ check (not (str_eq c.subject.kind subject_raw) && str_eq c.subject.sing_box_binary "")
            no_binary)

unfoldable pub subject_errors : NetText → Config → List ConfigError
subject_errors net c =
    proxy_errors net c ++ (tun_errors net c ++ (direct_errors net c ++ ebpf_errors net c))

-- All errors of a configuration; Go joins them, and there is no error where there is none to join.
unfoldable pub validate : NetText → Config → List ConfigError
validate net c =
    identity_errors c
    ++ (workload_errors net c.workload ++ (execution_errors c ++ subject_errors net c))
