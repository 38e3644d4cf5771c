-- ===== src/Command/Jobs.antt =====
-- cmd/inbound-bench/main.go: the jobs of a matrix, with MatrixJob and MatrixState of
-- internal/protocol/matrix.go. An index of a case stands for the case, which is all that the loops read
-- with it. `path` joins the elements of a path, as filepath.Join does, and `order` sorts, as sort.Slice
-- does.
pub mod Spec
pub mod Schedule
pub mod Found
pub mod Redaction
pub mod Samples
mod Tests
use sing_box_inbound_bench.Base.{
  ℕ, zero, suc, ◌+◌, ◌*◌, ◌-◌, ◌%◌, ◌^◌, List, [], ◌∷◌, ◌++◌, map, String, str_append, str_eq, Bool,
  true, false, if◌then◌else◌, Option, none, some, ltb, bit_xor,
}
use sing_box_inbound_bench.Base.Int.{
  ℤ, pos, negsuc, pos_part, add_int, ltb_ℤ, max_ℤ, bits, from_bits,
}
use sing_box_inbound_bench.Text.{bytes, itoa, pad3}
use sing_box_inbound_bench.Protocol.Config.{Config, version, subject_raw}
use sing_box_inbound_bench.Protocol.Matrix.{MatrixConfig}
use sing_box_inbound_bench.Udp.Echo.{Counters}

pub record MatrixRecovery : Type 0 where
  pub started_at : ℕ
  pub finished_at : ℕ
  pub attempts : ℕ
  pub valid : Bool
  pub counters : Counters
  pub error : String

pub record MatrixJob : Type 0 where
  pub id : String
  pub case_id : String
  pub subject : String
  pub block : ℕ
  pub warmup : Bool
  pub control : String
  pub result : String
  pub complete : Bool
  pub valid : Bool
  pub error : String
  pub recovery : Option MatrixRecovery

pub record MatrixState : Type 0 where
  pub protocol_version : String
  pub matrix_id : String
  pub seed : ℤ
  pub jobs : List MatrixJob

-- `%03d` of an int
unfoldable pub pad3_int : ℤ → String
pad3_int (pos n) = pad3 n
pad3_int (negsuc n) =
    str_append "-" (if ltb n 9 then str_append "0" (itoa (suc n)) else itoa (suc n))

-- The difference of two ints, which wraps around.
unfoldable pub sub_int : ℤ → ℤ → ℤ
sub_int a b = from_bits ((bits a + (2 ^ 64 - bits b)) % 2 ^ 64)

unfoldable pub repetition_name : ℕ → ℤ → String
repetition_name index warmups =
    if ltb_ℤ (pos index) warmups
    then str_append "warmup-" (str_append (pad3 index) ".json")
    else str_append "rep-" (str_append (pad3_int (sub_int (pos index) warmups)) ".json")

-- The 64-bit FNV-1a hash of hash/fnv, from a state on.
unfoldable pub fnv64a : ℕ → List ℕ → ℕ
fnv64a h [] = h
fnv64a h (b ∷ bs) = fnv64a (bit_xor h b * 0x100000001b3 % 2 ^ 64) bs

unfoldable pub itoa_int : ℤ → String
itoa_int (pos n) = itoa n
itoa_int (negsuc n) = str_append "-" (itoa (suc n))

unfoldable pub matrix_order : ℤ → ℕ → String → ℕ
matrix_order seed block case_id = fnv64a 0xcbf29ce484222325 (
    bytes (
      str_append (itoa_int seed)
        (str_append "/" (str_append (itoa block) (str_append "/" case_id)))))

-- The repetitions of a case, warmups included.
abbrev pub rounds : Config → ℤ
rounds c = add_int c.execution.warmup_repetitions c.execution.repetitions

unfoldable pub block_count : ℤ → List Config → ℤ
block_count blocks [] = blocks
block_count blocks (c ∷ cs) = block_count (max_ℤ blocks (rounds c)) cs

-- The cases with a repetition in a block.
unfoldable pub due : ℕ → List Config → List Config
due block [] = []
due block (c ∷ cs) =
    let rest = due block cs in if ltb_ℤ (pos block) (rounds c) then c ∷ rest else rest

module _ (path : List String → String) where
  unfoldable pub case_job : ℕ → Config → MatrixJob
  case_job block c = record {
    id = str_append c.run_id (str_append "-block-" (pad3 block));
    case_id = c.run_id;
    subject = c.subject.kind;
    block = block;
    warmup = ltb_ℤ (pos block) c.execution.warmup_repetitions;
    control = "";
    result = path (
        "cases"
        ∷ c.run_id
        ∷ c.subject.kind
        ∷ repetition_name block c.execution.warmup_repetitions
        ∷ []);
    complete = false;
    valid = false;
    error = "";
    recovery = none;
  }

  unfoldable pub control_job : Config → ℕ → String → MatrixJob
  control_job raw_control block position =
      let stem = str_append "block-" (str_append (pad3 block) (str_append "-" position)) in
      record {
        id = str_append "raw-control-" stem;
        case_id = raw_control.run_id;
        subject = subject_raw;
        block = block;
        warmup = false;
        control = position;
        result = path ("controls" ∷ "raw" ∷ str_append stem ".json" ∷ []);
        complete = false;
        valid = false;
        error = "";
        recovery = none;
      }

  unfoldable pub control_jobs : Option Config → ℕ → String → List MatrixJob
  control_jobs none block position = []
  control_jobs (some c) block position = control_job c block position ∷ []

  module _ (order : (Config → Config → Bool) → List Config → List Config) where
    abbrev pub precedes : MatrixConfig → ℕ → Config → Config → Bool
    precedes m block left right =
        ltb (matrix_order m.seed block left.run_id) (matrix_order m.seed block right.run_id)

    unfoldable pub block_jobs : MatrixConfig → ℕ → List MatrixJob
    block_jobs m block =
        control_jobs m.raw_control block "before"
        ++ (map (case_job block) (order (precedes m block) (due block m.cases))
            ++ control_jobs m.raw_control block "after")

    -- The blocks from `block` on, `more` of them.
    unfoldable pub blocks_jobs : MatrixConfig → ℕ → ℕ → List MatrixJob
    blocks_jobs m block zero = []
    blocks_jobs m block (suc more) = block_jobs m block ++ blocks_jobs m (suc block) more

    unfoldable pub build_matrix_state : MatrixConfig → MatrixState
    build_matrix_state m = record {
      protocol_version = version;
      matrix_id = m.matrix_id;
      seed = m.seed;
      jobs = blocks_jobs m 0 (pos_part (block_count (pos 0) m.cases));
    }

pub data JobError : Type 0 where
  no_control : JobError
  case_missing : String → JobError

pub data JobConfig : Type 0 where
  found : Config → ℕ → JobConfig
  failed : JobError → JobConfig

-- The first case with an identifier.
unfoldable pub find_case : String → List Config → Option Config
find_case id [] = none
find_case id (c ∷ cs) = let rest = find_case id cs in if str_eq c.run_id id then some c else rest

-- The configuration of a job, with the index of the repetition that it runs.
unfoldable pub matrix_job_config : MatrixConfig → MatrixJob → JobConfig
matrix_job_config m job = elim (str_eq job.control "") [
  | false ↦ elim m.raw_control [
    | none ↦ failed no_control
    | some c ↦ found c (job.block * 2 + (if str_eq job.control "after" then 1 else 0))
  ]
  | true ↦ elim (find_case job.case_id m.cases) [
    | none ↦ failed (case_missing job.case_id)
    | some c ↦ found c job.block
  ]
]
