-- ===== src/Protocol/Trace.antt =====
-- internal/protocol/protocol.go, lines 126 to 154: path proofs and execution traces. A time is a
-- number of nanoseconds, and raw JSON is its text.
use sing_box_inbound_bench.Base.{ℕ, Bool, false, String, List}

pub record PathProof : Type 0 where
  pub valid : Bool
  pub method : String
  pub observed_at : ℕ
  pub before : String
  pub after : String
  pub evidence : String
  pub error : String

-- The zero value of the struct.
abbrev pub no_proof : PathProof
no_proof = record {
  valid = false;
  method = "";
  observed_at = 0;
  before = "";
  after = "";
  evidence = "";
  error = "";
}

-- The names that lifecycle.go gives to its phases.
pub data PhaseName : Type 0 where
  preflight snapshot setup start observe_path_before warmup observe_path_after prove_path measure
        stop collect_artifacts cleanup verify_restore :
      PhaseName

pub record PhaseResult : Type 0 where
  pub name : PhaseName
  pub started_at : ℕ
  pub finished_at : ℕ
  pub success : Bool
  pub error : String

pub record ExecutionTrace : Type 0 where
  pub started_at : ℕ
  pub finished_at : ℕ
  pub restore_verified : Bool
  pub phases : List PhaseResult
