-- ===== src/Android/Restored.antt =====
-- internal/platform/android/orchestrator.go: VerifySnapshot accepts exactly the devices on which no state of
-- the benchmark has appeared.
use sing_box_inbound_bench.Base.{ℕ, List, String, true, Option, some, All, ◌≡◌}
use sing_box_inbound_bench.Text.{bytes, contains}
use sing_box_inbound_bench.Android.{CommandResult, Commands, find_command}

-- A marker that is in the output behind was in the output before.
abbrev pub IsKept : List ℕ → List ℕ → String → Type 0
IsKept left right marker =
    contains right (bytes marker) ≡ true → contains left (bytes marker) ≡ true

-- No marker has appeared in a command's output, where both outputs were read.
abbrev pub IsRestored : Commands → Commands → String × List String → Type 0
IsRestored before after (name, markers) =
    (left right : CommandResult)
    → find_command name before ≡ some left
    → find_command name after ≡ some right
    → left.error ≡ ""
    → right.error ≡ ""
    → All (IsKept left.output right.output) markers

abbrev Kept : List String → Option CommandResult → Option CommandResult → Type 0
Kept markers before after =
    (left right : CommandResult)
    → before ≡ some left
    → after ≡ some right
    → left.error ≡ ""
    → right.error ≡ ""
    → All (IsKept left.output right.output) markers
