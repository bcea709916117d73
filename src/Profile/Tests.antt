-- ===== src/Profile/Tests.antt =====
-- Two logs, a summary, and the tables for three modules.
use sp1_lean.Base.{
  Memᴰ, ℕ, ◌≡◌, ◌≢◌, ◌↔◌, refl, Bool, true, false, Option, none, some, List, [], ◌∷◌, ◌++◌, map,
  Text, codes, nat_eq, list_eq, ◌==◌, choose, gather, if◌then◌else◌,
}
use sp1_lean.Base.Dict.{Dict, lookup, NodupKeys}
use sp1_lean.Base.Results.{raise, ok}
use sp1_lean.Profile.Seconds.{float_of, seconds, pillar_of}
use sp1_lean.Profile.Cumulative.{category, parse_cumulative, diagnosed, check_log, bad_number}
use sp1_lean.Texts.{split_lines}
use sp1_lean.Profile.Cumulative.Readable.{CanRead, behind_header}
use sp1_lean.Profile.Cumulative.Diagnosed.{HasDiagnostic}
use sp1_lean.Profile.Cumulative.Totals.{total, final_block, parse_cumulative-total, check_log_iff}
use sp1_lean.Profile.Stats.{stats, rank}
use sp1_lean.Profile.Stats.Bounds.{IsSummary, stats-IsSummary}
use sp1_lean.Profile.Summary.{Sweep, read_summary, lake_times}
use sp1_lean.Base.Items.{latest}
use sp1_lean.Profile.Summary.Latest.{reports, lake_times-latest}
use sp1_lean.Profile.Summary.Rows.{
  rows_of, row_time, row_wall, row_exit, row_categories, read_summary-latest,
}
use sp1_lean.Profile.Report.{Times, pillar_table, entries}
use sp1_lean.Profile.Report.Pillars.{IsTable, pillar_table-IsTable}
use sp1_lean.Profile.Report.Entries.{entry_of, entries-entry_of}

abbrev unline : List Text → Text
unline [] = []
unline (l ∷ ls) = l ++ (10 ∷ unline ls)

float_test : float_of (codes "1.5e+1") ≡ some 15000000000
unfolding float_of sp1_lean.Base.list_beq
float_test = refl

float_bad_test : float_of (codes "1.2.3") ≡ none
unfolding float_of
float_bad_test = refl

float_dot_test : float_of (codes ".") ≡ none
unfolding float_of
float_dot_test = refl

seconds_test : seconds (codes "12.5") (codes "ms") ≡ some 12500000
unfolding seconds sp1_lean.Base.list_beq
seconds_test = refl

pillar_test : pillar_of (codes "SP1Clean.Machine.Cpu") ≡ codes "SP1Clean.Machine"
unfolding pillar_of sp1_lean.Base.list_beq
pillar_test = refl

pillar_root_test : pillar_of (codes "ToClean.List") ≡ codes "ToClean"
unfolding pillar_of sp1_lean.Base.list_beq
pillar_root_test = refl

category_test :
    category (codes "  tactic execution 12.5ms")
    ≡ some (codes "tactic execution", codes "12.5", codes "ms")
unfolding category
category_test = refl

abbrev header : Text
header = codes "cumulative profiling times:"

abbrev profile : Text
profile = unline (
    codes "import 9s"
    ∷ header
    ∷ codes "  import 1s"
    ∷ header
    ∷ codes "  import 12.5ms"
    ∷ codes "  simp 2s"
    ∷ codes "stray"
    ∷ codes "  simp 0.5s"
    ∷ codes "  module linting 3ms"
    ∷ [])

abbrev profile_totals : Dict Text ℕ
profile_totals =
    (codes "import", 12500000) ∷ (codes "simp", 2500000000) ∷ (codes "module linting", 3000000) ∷ []

profile_test : parse_cumulative (some profile) ≡ ok profile_totals
unfolding parse_cumulative sp1_lean.Base.starts_with sp1_lean.Base.Dict.upsert
    sp1_lean.Base.list_beq
profile_test = refl

bad_profile_test :
    parse_cumulative (some (unline (header ∷ codes "  import 1.2.3s" ∷ []))) ≡ raise bad_number
unfolding parse_cumulative sp1_lean.Base.starts_with
bad_profile_test = refl

parse_cumulative-total_example :
    lookup (codes "simp") profile_totals ≡ total (codes "simp") (final_block profile)
parse_cumulative-total_example =
    parse_cumulative-total (codes "simp") profile profile_totals profile_test

check_log_iff_example : (check_log profile ≡ ok tt) ↔ (
    (¬ HasDiagnostic false profile)
    × ((l : Text) → Memᴰ l (behind_header (split_lines false profile)) → CanRead l)
    × (total (codes "import") (final_block profile) ≢ none)
    × (total (codes "module linting") (final_block profile) ≢ none))
check_log_iff_example = check_log_iff profile

check_log_test : check_log profile ≡ ok tt
unfolding check_log sp1_lean.Base.starts_with sp1_lean.Base.Dict.has sp1_lean.Base.Dict.upsert
    sp1_lean.Base.list_beq
check_log_test = refl

diagnosed_test : diagnosed (codes "Foo.lean:3: error: x") ≡ true
unfolding diagnosed sp1_lean.Base.starts_with
diagnosed_test = refl

diagnosed_inside_test : diagnosed (codes "noerror: x") ≡ false
unfolding diagnosed sp1_lean.Base.starts_with
diagnosed_inside_test = refl

rank_test : rank 9 10 6 ≡ 4
unfolding rank
rank_test = refl

rank_odd_test : rank 9 10 16 ≡ 14
unfolding rank
rank_odd_test = refl

stats-IsSummary_example : IsSummary (5 ∷ 1 ∷ 9 ∷ []) (stats (5 ∷ 1 ∷ 9 ∷ []))
stats-IsSummary_example = stats-IsSummary 5 (1 ∷ 9 ∷ [])

abbrev build_log : Text
build_log = codes "2026 [1/2] Built A.B (1.5s) Built C (200ms) Built A.B (3s)"

abbrev build_times : Dict Text ℕ
build_times = (codes "A.B", 3000000000) ∷ (codes "C", 200000000) ∷ []

lake_times_test : lake_times (build_log ∷ []) ≡ ok build_times
unfolding lake_times sp1_lean.Base.Dict.insert sp1_lean.Base.list_beq
lake_times_test = refl

lake_times-latest_example :
    lookup (codes "A.B") build_times ≡ latest (codes "A.B") (gather reports (build_log ∷ []))
lake_times-latest_example =
    lake_times-latest (codes "A.B") (build_log ∷ []) build_times lake_times_test

abbrev tabbed : List Text → Text
tabbed [] = []
tabbed (c ∷ []) = c
tabbed (c ∷ d ∷ columns) = c ++ (9 ∷ tabbed (d ∷ columns))

abbrev summary_text : Text
summary_text = unline (
    tabbed (codes "1.5" ∷ codes "2" ∷ codes "0" ∷ codes "A" ∷ [])
    ∷ codes "junk"
    ∷ tabbed (codes "3" ∷ codes "1" ∷ codes "A" ∷ [])
    ∷ [])

abbrev no_logs : Text → Option Text
no_logs _ = none

abbrev sweep : Sweep
sweep = record {
  times = (codes "A", 3000000000) ∷ [];
  walls = (codes "A", 2000000000) ∷ [];
  exits = (codes "A", 1) ∷ [];
  categories = (codes "A", []) ∷ [];
}

sweep_test : read_summary no_logs summary_text ≡ ok sweep
unfolding read_summary sp1_lean.Base.Dict.insert sp1_lean.Base.list_beq
sweep_test = refl

read_summary-latest_example :
    (lookup (codes "A") sweep.times ≡ latest (codes "A") (choose row_time (rows_of summary_text)))
    × (lookup (codes "A") sweep.walls ≡ latest (codes "A") (choose row_wall (rows_of summary_text)))
    × (lookup (codes "A") sweep.exits ≡ latest (codes "A") (choose row_exit (rows_of summary_text)))
    × (lookup (codes "A") sweep.categories
        ≡ latest (codes "A") (choose (row_categories no_logs) (rows_of summary_text)))
read_summary-latest_example = read_summary-latest no_logs summary_text (codes "A") sweep sweep_test

abbrev three_times : Times
three_times =
    (codes "SP1Clean.Core.A", 3) ∷ (codes "ToClean.B", 9) ∷ (codes "SP1Clean.Core.C", 4) ∷ []

three_times-NodupKeys : NodupKeys three_times
unfolding lookup sp1_lean.Base.list_beq
three_times-NodupKeys = (refl, (refl, (refl, tt)))

pillar_table-IsTable_example : IsTable three_times (pillar_table three_times none)
pillar_table-IsTable_example = pillar_table-IsTable three_times none three_times-NodupKeys

abbrev exit_codes : Times
exit_codes = (codes "ToClean.B", 1) ∷ []

exit_codes-NodupKeys : NodupKeys exit_codes
unfolding lookup
exit_codes-NodupKeys = (refl, tt)

entries-entry_of_example :
    lookup (codes "ToClean.B") (entries three_times exit_codes (some []) [])
    ≡ entry_of
        (lookup (codes "ToClean.B") three_times)
        (lookup (codes "ToClean.B") [])
        (lookup (codes "ToClean.B") exit_codes)
        (lookup (codes "ToClean.B") [])
entries-entry_of_example =
    entries-entry_of (codes "ToClean.B") three_times exit_codes [] [] exit_codes-NodupKeys tt tt
