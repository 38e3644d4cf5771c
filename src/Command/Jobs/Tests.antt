-- ===== src/Command/Jobs/Tests.antt =====
-- Tests of the jobs, and the theorems about them at a sample.
use sing_box_inbound_bench.Base.{
  List, [], ◌∷◌, map, String, ◌≡◌, refl, true, false, some, if◌then◌else◌, ◌==◌,
}
use sing_box_inbound_bench.Base.Int.{pos, add_int}
use sing_box_inbound_bench.Text.{pad3, itoa, digits}
use sing_box_inbound_bench.Protocol.Config.Samples.{pps_config}
use sing_box_inbound_bench.Protocol.Matrix.Samples.{one_case}
use sing_box_inbound_bench.Command.Jobs.{
  MatrixJob, repetition_name, sub_int, pad3_int, block_count, due, case_job, control_job,
  control_jobs, block_jobs, build_matrix_state, fnv64a,
}
use sing_box_inbound_bench.Command.Jobs.Spec.{Schedule}
use sing_box_inbound_bench.Command.Jobs.Schedule.{build_matrix_state-Schedule}
use sing_box_inbound_bench.Command.Jobs.Redaction.{
  Heap, MatrixVar, MatrixRedacted, redact_matrix, redact_matrix-shared,
}
use sing_box_inbound_bench.Command.Jobs.Samples.{insert, insertion_sort, insertion_sort-Sorts}

abbrev last_of : List String → String
last_of [] = ""
last_of (x ∷ []) = x
last_of (x ∷ y ∷ ys) = last_of (y ∷ ys)

build_matrix_state-Schedule_example :
    Schedule last_of one_case 0 (build_matrix_state last_of insertion_sort one_case).jobs
build_matrix_state-Schedule_example =
    build_matrix_state-Schedule last_of one_case insertion_sort insertion_sort-Sorts

-- A heap with a case that has a token, a case that has none, and a control.
abbrev cells : Heap
cells = λ a.
    if a == 0
    then record pps_config { subject = record pps_config.subject { api_token = "secret" } }
    else pps_config

abbrev variable : MatrixVar
variable = record { resume = true; cases = 0 ∷ 1 ∷ []; raw_control = some 2 }

redact_matrix-shared_example :
    let (redacted, after) = redact_matrix variable cells in
    MatrixRedacted cells variable after redacted
    × MatrixRedacted cells variable after variable
    × (redacted.resume ≡ false)
redact_matrix-shared_example = redact_matrix-shared variable cells

-- One warmup and five repetitions are six blocks, of three jobs each with the control.
jobs_sample :
    map (λ (j : MatrixJob). j.id) (block_jobs last_of insertion_sort one_case 5)
    ≡ "raw-control-block-005-before" ∷ "pps.1-block-005" ∷ "raw-control-block-005-after" ∷ []
unfolding block_jobs control_jobs control_job case_job due insertion_sort insert pad3 itoa digits
    add_int
jobs_sample = refl

blocks_sample : block_count (pos 0) one_case.cases ≡ pos 6
unfolding block_count add_int
blocks_sample = refl

repetition_name_sample : repetition_name 12 (pos 2) ≡ "rep-010.json"
unfolding repetition_name pad3_int pad3 itoa digits sub_int
repetition_name_sample = refl

-- The FNV-1a hash of the letter a.
fnv64a_check : fnv64a 0xcbf29ce484222325 (0x61 ∷ []) ≡ 0xaf63dc4c8601ec8c
unfolding fnv64a
fnv64a_check = refl
