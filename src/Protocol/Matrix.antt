-- ===== src/Protocol/Matrix.antt =====
-- internal/protocol/matrix.go: the configuration of a matrix and NormalizeAndValidateMatrix. Errors are
-- collected in order; `net.clean` also stands for filepath.Clean, which is path.Clean on Unix.
pub mod Accepted
pub mod Samples
mod Tests
use sing_box_inbound_bench.Base.{
  ℕ, zero, suc, List, [], ◌∷◌, ◌++◌, String, str_eq, Bool, true, false, not, ◌||◌, if◌then◌else◌,
  Option, none, some,
}
use sing_box_inbound_bench.Base.Int.{ℤ, pos, ltb_ℤ}
use sing_box_inbound_bench.Text.{bytes}
use sing_box_inbound_bench.Protocol.Config.{Config, version, subject_raw, contains_text}
use sing_box_inbound_bench.Protocol.Config.Defaults.{apply_defaults, or_text, or_int}
use sing_box_inbound_bench.Protocol.Config.Errors.{ConfigError, NetText}
use sing_box_inbound_bench.Protocol.Config.Validate.{validate, run_id_pattern}

pub record MatrixConfig : Type 0 where
  pub protocol_version : String
  pub matrix_id : String
  pub seed : ℤ
  pub output_directory : String
  pub cooldown_ms : ℤ
  pub fail_fast : Bool
  pub resume : Bool
  pub raw_control : Option Config
  pub cases : List Config

pub data MatrixError : Type 0 where
  matrix_version_mismatch bad_matrix_id no_output root_output negative_cooldown no_cases :
      MatrixError
  bad_case : ℕ → List ConfigError → MatrixError
  duplicate_case : String → MatrixError
  bad_control : List ConfigError → MatrixError
  control_not_raw : MatrixError

-- An error, if a condition holds.
unfoldable pub fault : Bool → MatrixError → List MatrixError
fault bad e = if bad then e ∷ [] else []

unfoldable pub header_errors : NetText → MatrixConfig → List MatrixError
header_errors net m =
    fault (not (str_eq m.protocol_version version)) matrix_version_mismatch
    ++ (fault (not (run_id_pattern (bytes m.matrix_id))) bad_matrix_id
        ++ ((if str_eq m.output_directory ""
              then no_output ∷ []
              else fault (str_eq (net.clean m.output_directory) "/") root_output)
            ++ fault (ltb_ℤ m.cooldown_ms (pos 0)) negative_cooldown))

unfoldable pub no_case_errors : List Config → List MatrixError
no_case_errors [] = no_cases ∷ []
no_case_errors (c ∷ cs) = []

-- The errors of `Validate` as one error of the matrix.
unfoldable pub wrapped : (List ConfigError → MatrixError) → List ConfigError → List MatrixError
wrapped wrap [] = []
wrapped wrap (e ∷ es) = wrap (e ∷ es) ∷ []

-- One case, with its defaults, before the rest of the loop.
abbrev pub check_case :
    NetText
    → ℕ
    → List String
    → Config
    → List Config × List MatrixError
    → List Config × List MatrixError
check_case net index seen d rest = (
  d ∷ rest.0,
  wrapped (bad_case index) (validate net d)
      ++ (fault (contains_text seen d.run_id) (duplicate_case d.run_id) ++ rest.1),
)

-- The loop over the cases, of which those before had the identifiers `seen`.
unfoldable pub check_cases :
    NetText → ℕ → List String → List Config → List Config × List MatrixError
check_cases net index seen [] = ([], [])
check_cases net index seen (c ∷ cs) =
    let d = apply_defaults c in
    check_case net index seen d (check_cases net (suc index) (d.run_id ∷ seen) cs)

-- The errors of a control of which `Validate` has returned errors.
unfoldable pub judge_control : List ConfigError → Config → List MatrixError
judge_control [] d = fault (not (str_eq d.subject.kind subject_raw)) control_not_raw
judge_control (e ∷ es) d = bad_control (e ∷ es) ∷ []

abbrev pub control_errors : NetText → Config → List MatrixError
control_errors net d = judge_control (validate net d) d

unfoldable pub check_control : NetText → Option Config → Option Config × List MatrixError
check_control net none = (none, [])
check_control net (some c) = (some (apply_defaults c), control_errors net (apply_defaults c))

-- The matrix with its defaults, and its errors.
unfoldable pub normalize_and_validate_matrix :
    NetText → MatrixConfig → MatrixConfig × List MatrixError
normalize_and_validate_matrix net m =
    let n = record m {
      protocol_version = or_text m.protocol_version version;
      seed = or_int m.seed (pos 1);
    } in
    let checked = check_cases net 0 [] m.cases in
    let control = check_control net m.raw_control in
    (
      record n { cases = checked.0; raw_control = control.0 },
      header_errors net n ++ (no_case_errors m.cases ++ (checked.1 ++ control.1)),
    )
