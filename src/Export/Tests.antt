-- ===== src/Export/Tests.antt =====
-- A staging of two artifacts over a directory that holds one of them, a stale copy of the other, and a leftover.
use mathlib.Core.Path.{◌≡◌, refl}
use sp1_lean.Texts.{split_lines, occurs}
use sp1_lean.Base.{Memᴰ, ◌↔◌, ◌⊎◌, not, keep}
use sp1_lean.Base.{◌++◌}
use sp1_lean.Export.RustLog.{check_rust_log}
use sp1_lean.Export.RustLog.Ran.{Ran, reversed, check_rust_log-Ran}
use sp1_lean.Base.{
  ℕ, Bool, true, false, Option, none, some, List, [], ◌∷◌, Text, codes, nat_eq, list_eq, ◌==◌,
  if◌then◌else◌, length, all,
}
use sp1_lean.Base.Dict.{Dict, NodupKeys, lookup}
use sp1_lean.Base.Results.{ok}
use sp1_lean.Export.Stage.{
  File, regular, Files, directory, Report, is_regular, open_directory, stage_inputs,
}
use sp1_lean.Export.Stage.Staged.{IsStaged, stage_inputs-IsStaged}

-- The source directory, and a hash for the example: the length.
abbrev read : Text → Option Text
read n =
    if n == codes "a.rs"
    then some (codes "fn a")
    else if n == codes "b.rs"
    then some (codes "fn bb")
    else none

abbrev hash : Text → Text
hash t = length t ∷ []

abbrev hashes : Dict Text Text
hashes = (codes "a.rs", 4 ∷ []) ∷ (codes "b.rs", 5 ∷ []) ∷ []

abbrev before : Files
before =
    (codes "old.rs", regular [])
    ∷ (codes "a.rs", regular (codes "fn a"))
    ∷ (codes "b.rs", regular (codes "fn b"))
    ∷ []

abbrev after : Files
after = (codes "a.rs", regular (codes "fn a")) ∷ (codes "b.rs", regular (codes "fn bb")) ∷ []

abbrev report : Report
report = record { changed = codes "b.rs" ∷ []; removed = codes "old.rs" ∷ []; unchanged = 1 }

staged : stage_inputs read hash (directory before) hashes ≡ ok (after, report)
unfolding stage_inputs all sp1_lean.Base.contains sp1_lean.Base.list_beq lookup
    sp1_lean.Base.Order.Sorting.sort_by sp1_lean.Base.keep sp1_lean.Base.Dict.has
    sp1_lean.Base.Dict.insert
staged = refl

hashes-NodupKeys : NodupKeys hashes
unfolding lookup sp1_lean.Base.list_beq
hashes-NodupKeys = (refl, (refl, tt))

stage_inputs-IsStaged_example :
    (files : Files) × (open_directory (directory before) ≡ ok files)
    × (all (λ (f : Text × File). is_regular f.1) files ≡ true)
    × IsStaged read hash hashes files after report
stage_inputs-IsStaged_example =
    stage_inputs-IsStaged read hash (directory before) hashes after report hashes-NodupKeys staged

-- A log of two test binaries.
abbrev log : Text
log =
    codes "     Running tests/ram_export.rs (target/release/deps/ram_export-1)\n"
    ++ (codes
          "test result: ok. 4 passed; 0 failed; 0 ignored; 0 measured; 0 filtered out; finished in 0.01s\n"
        ++ (codes "     Running tests/system_export.rs (target/release/deps/system_export-2)\n"
            ++ codes
                "test result: ok. 14 passed; 0 failed; 0 ignored; 0 measured; 0 filtered out; finished in 0.02s\n"))

abbrev expected_tests : Dict Text ℕ
expected_tests = (codes "system_export", 14) ∷ (codes "ram_export", 4) ∷ []

abbrev log_binaries : Dict Text Text
log_binaries =
    (codes "ram_export", codes "target/release/deps/ram_export-1")
    ∷ (codes "system_export", codes "target/release/deps/system_export-2")
    ∷ []

log-accepted : check_rust_log log expected_tests ≡ ok log_binaries
unfolding check_rust_log sp1_lean.Base.starts_with sp1_lean.Base.Dict.has sp1_lean.Base.Dict.insert
    sp1_lean.Base.list_beq all sp1_lean.Base.option_beq lookup
log-accepted = refl

check_rust_log-Ran_example :
    (occurs (codes "warning:") log ≡ false)
    × ((name : Text) (n : ℕ)
        → lookup name expected_tests ≡ some n
        → Ran name n (reversed (split_lines false log) []))
check_rust_log-Ran_example = check_rust_log-Ran log expected_tests log_binaries log-accepted

abbrev halt_tests : Dict Text ℕ
halt_tests = (codes "assembly_halt_export", 3) ∷ []
