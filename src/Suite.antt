-- ===== src/Suite.antt =====
-- internal/suite/matrix.go: the generator of a matrix. Its options, its errors, the defaults of its presets
-- and the subjects that it selects. Errors are without their texts.
pub mod Templates
pub mod Build
pub mod Generated
pub mod Filled
pub mod Laws
pub mod Selection
mod Tests
use sing_box_inbound_bench.Base.{
  ℕ, List, [], ◌∷◌, ◌++◌, String, str_eq, Bool, true, false, not, ◌||◌, if◌then◌else◌,
}
use sing_box_inbound_bench.Base.Int.{ℤ, pos, negsuc, ltb_ℤ, eq_ℤ}
use sing_box_inbound_bench.Protocol.Config.{subject_kinds, contains_text}
use sing_box_inbound_bench.Protocol.Config.Errors.{ConfigError}
use sing_box_inbound_bench.Protocol.Config.Defaults.{or_int, or_text}
use sing_box_inbound_bench.Protocol.Matrix.{MatrixError}

pub record Options : Type 0 where
  pub matrix_id : String
  pub output_directory : String
  pub sing_box_binary : String
  pub target : String
  pub raw_target : String
  pub outbound_interface : String
  pub worker_uid : ℕ
  pub seed : ℤ
  pub warmup_repetitions : ℤ
  pub repetitions : ℤ
  pub duration : ℤ
  pub idle_duration : ℤ
  pub requests : ℤ
  pub udp_pps : ℤ
  pub udp_mtu_pps : ℤ
  pub cooldown_ms : ℤ
  pub fail_fast : Bool
  pub preset : String
  pub subjects : List String
  pub workloads : List String

abbrev pub preset_smoke : String
preset_smoke = "smoke"

abbrev pub preset_core : String
preset_core = "core"

abbrev pub preset_full : String
preset_full = "full"

pub data SuiteError : Type 0 where
  negative_option target_unreadable missing_option raw_target_unreadable families_differ :
      SuiteError
  unknown_preset duplicate_subject unknown_subject duplicate_workload unknown_workload :
      String → SuiteError
  case_rejected : String → List ConfigError → SuiteError
  matrix_rejected : List MatrixError → SuiteError

-- A value, or the error that a function of the package returns in its place.
pub data Checked {ℓ} (A : Type ℓ) : Type ℓ where
  accepted : A → Checked A
  rejected : SuiteError → Checked A

unfoldable pub and_then {ℓ κ} : {A : Type ℓ} {B : Type κ} → Checked A → (A → Checked B) → Checked B
and_then (accepted a) f = f a
and_then (rejected e) f = rejected e

-- The value of an option at minus one.
abbrev pub unset : ℤ
unset = negsuc 0

abbrev pub or_unset : ℤ → ℤ → ℤ
or_unset x default = if eq_ℤ x unset then default else x

unfoldable pub has_negative : Options → Bool
has_negative o =
    ltb_ℤ o.warmup_repetitions unset
    || ltb_ℤ o.repetitions (pos 0)
    || ltb_ℤ o.duration (pos 0)
    || ltb_ℤ o.idle_duration (pos 0)
    || ltb_ℤ o.requests (pos 0)
    || ltb_ℤ o.udp_pps (pos 0)
    || ltb_ℤ o.udp_mtu_pps (pos 0)

-- The defaults of one preset.
unfoldable pub fill : ℤ → ℤ → ℤ → ℤ → ℤ → Options → Options
fill warmups repetitions duration idle_duration udp_pps o = record o {
  warmup_repetitions = or_unset o.warmup_repetitions warmups;
  repetitions = or_int o.repetitions repetitions;
  duration = or_int o.duration duration;
  idle_duration = or_int o.idle_duration idle_duration;
  udp_pps = or_int o.udp_pps udp_pps;
}

unfoldable pub fill_preset : Options → Checked Options
fill_preset o =
    if str_eq o.preset preset_smoke
    then accepted (fill (pos 0) (pos 1) (pos 1000) (pos 1000) (pos 10000) o)
    else if str_eq o.preset preset_core
    then accepted (fill (pos 1) (pos 3) (pos 10000) (pos 10000) (pos 100000) o)
    else if str_eq o.preset preset_full
    then accepted (fill (pos 1) (pos 5) (pos 20000) (pos 10000) (pos 100000) o)
    else rejected (unknown_preset o.preset)

-- What follows the choice of the preset.
unfoldable pub fill_rest : Options → Options
fill_rest o = record o {
  warmup_repetitions = or_unset o.warmup_repetitions (pos 0);
  udp_mtu_pps = or_int o.udp_mtu_pps o.udp_pps;
}

unfoldable pub apply_preset_defaults : Options → Checked Options
apply_preset_defaults o =
    if has_negative o
    then rejected negative_option
    else and_then (fill_preset o) (λ p. accepted (fill_rest p))

-- The set of the requested subjects, as the keys of a map.
unfoldable pub mark : List String → List String → Checked (List String)
mark wanted [] = accepted wanted
mark wanted (kind ∷ kinds) =
    let rest = mark (kind ∷ wanted) kinds in
    if contains_text wanted kind then rejected (duplicate_subject kind) else rest

unfoldable pub remove : String → List String → List String
remove kind [] = []
remove kind (w ∷ wanted) = let rest = remove kind wanted in if str_eq w kind then rest else w ∷ rest

-- The available subjects that are wanted, with the wanted ones that are left.
unfoldable pub pick : List String → List String → List String × List String
pick [] wanted = ([], wanted)
pick (kind ∷ kinds) wanted =
    let taken = pick kinds (remove kind wanted) in
    let passed = pick kinds wanted in
    if contains_text wanted kind then (kind ∷ taken.0, taken.1) else passed

-- An unknown subject is an error, whichever of them the map's iteration comes to.
unfoldable pub picked : List String × List String → Checked (List String)
picked (selected, []) = accepted selected
picked (selected, kind ∷ kinds) = rejected (unknown_subject kind)

unfoldable pub selected_subjects : List String → Checked (List String)
selected_subjects [] = accepted subject_kinds
selected_subjects (kind ∷ kinds) =
    and_then (mark [] (kind ∷ kinds)) (λ wanted. picked (pick subject_kinds wanted))
