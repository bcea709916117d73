-- ===== src/Export/RustLog.antt =====
-- scripts/check_ensemble_export.py: `RUST_TESTS`, `check_rust_log` and `rust_groups`.
pub mod Ran
pub mod Groups
use sp1_lean.Texts.{split_lines, number_from, occurs, search}
use sp1_lean.Base.{
  ℕ, zero, suc, ◌+◌, ◌-◌, ◌*◌, Bool, true, false, not, ◌&&◌, ◌||◌, Option, none, some, List, [],
  ◌∷◌, ◌++◌, map, String, Text, codes, nat_beq, nat_eq, list_eq, option_eq, ◌==◌, contains, all,
  keep, if◌then◌else◌, starts_with, or_else,
}
use sp1_lean.Base.Dict.{Dict, lookup, has, insert}
use sp1_lean.Base.Results.{Result, raise, ok, ◌>>=◌, require}
use sp1_lean.Regex.{Regex, seq, group, lit, plus, is_digit, is_alnum, match, captured, Captures}

abbrev pub rust_tests : Dict Text ℕ
rust_tests =
    (codes "clean_export", 17)
    ∷ (codes "instruction_export", 26)
    ∷ (codes "symbolic_arithmetic_export", 2)
    ∷ (codes "system_export", 4)
    ∷ (codes "syscall_export", 7)
    ∷ (codes "host_control_export", 9)
    ∷ (codes "byte_provider_export", 6)
    ∷ (codes "ram_export", 4)
    ∷ (codes "syscall_code_export", 3)
    ∷ (codes "program_export", 5)
    ∷ (codes "write_permission_export", 3)
    ∷ (codes "hint_source_export", 5)
    ∷ (codes "assembly_boundaries_export", 5)
    ∷ (codes "assembly_stopped_export", 5)
    ∷ (codes "assembly_hint_read_export", 3)
    ∷ (codes "assembly_halt_export", 3)
    ∷ (codes "assembly_commitments_export", 3)
    ∷ (codes "assembly_ordinary_export", 3)
    ∷ (codes "assembly_hints_export", 4)
    ∷ (codes "assembly_enter_export", 3)
    ∷ []

abbrev pub is_word : ℕ → Bool
is_word c = is_alnum c || nat_beq c b'_'

unfoldable pub running_re : Regex
unfolding lit
running_re = seq (lit (codes "Running tests/")) (
    seq (group "name" (plus is_word)) (
      seq (lit (codes ".rs ("))
        (seq (group "binary" (plus (λ c. not (nat_beq c b')')))) (lit (codes ")")))))

unfoldable pub result_re : Regex
unfolding lit
result_re = seq (lit (codes "test result: ok. ")) (
    seq (group "passed" (plus is_digit))
      (lit (codes " passed; 0 failed; 0 ignored; 0 measured; 0 filtered out;")))

-- `running.groups()`
unfoldable pub running : Text → Option (Text × Text)
unfolding search running_re captured
running line = elim (search running_re line) [
  | none ↦ none
  | some c ↦ some (or_else (captured "name" c) [], or_else (captured "binary" c) [])
]

unfoldable pub completed : Text → Option ℕ
unfolding match result_re captured number_from
completed line = elim (match result_re line) [
  | none ↦ none
  | some c ↦ some (number_from 0 (or_else (captured "passed" c) []))
]

pub data LogError : Type 0 where
  warnings unexpected_marker incomplete : LogError
  duplicate : Text → LogError

pub record LogState : Type 0 where
  pub current : Option Text
  pub counts : Dict Text ℕ
  pub binaries : Dict Text Text

-- The first half of the loop's body.
unfoldable pub start_binary : LogState → Option (Text × Text) → Result LogError LogState
start_binary s none = ok s
start_binary s (some (name, binary)) =
    if has name s.binaries
    then raise (duplicate name)
    else ok (record s { current = some name; binaries = insert name binary s.binaries })

-- The second half.
unfoldable pub count_result : LogState → Option ℕ → Result LogError LogState
count_result s none = ok s
count_result s (some n) = elim s.current [
  | none ↦ raise unexpected_marker
  | some name ↦
      if has name s.counts
      then raise unexpected_marker
      else ok (record s { current = none; counts = insert name n s.counts })
]

unfoldable pub read_line : LogState → Text → Result LogError LogState
unfolding start_binary count_result running completed
read_line s line = start_binary s (running line) >>= λ t. count_result t (completed line)

unfoldable pub read_lines : LogState → List Text → Result LogError LogState
unfolding read_line
read_lines s [] = ok s
read_lines s (l ∷ ls) = read_line s l >>= λ t. read_lines t ls

abbrev pub same_counts : Dict Text ℕ → Dict Text ℕ → Bool
same_counts a b = all (λ c. lookup c.0 b == some c.1) a && all (λ c. lookup c.0 a == some c.1) b

abbrev pub same_names : Dict Text Text → Dict Text ℕ → Bool
same_names a b = all (λ c. has c.0 b) a && all (λ c. has c.0 a) b

unfoldable pub check_rust_log : Text → Dict Text ℕ → Result LogError (Dict Text Text)
unfolding occurs read_lines split_lines
check_rust_log log expected = do
  _ ← require (not (occurs (codes "warning:") log)) warnings
  s ← read_lines (record { current = none; counts = []; binaries = [] }) (split_lines false log)
  _ ← require (same_counts s.counts expected && same_names s.binaries expected) incomplete
  ok s.binaries

abbrev pub is_assembly : Text → Bool
is_assembly = starts_with (codes "assembly_")

-- `rust_groups()`
unfoldable pub rust_groups : Dict Text (Dict Text ℕ)
rust_groups =
    (codes "components", keep (λ t. not (is_assembly t.0)) rust_tests)
    ∷ map (λ t. (t.0, t ∷ [])) (keep (λ t. is_assembly t.0) rust_tests)
