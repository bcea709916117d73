-- ===== src/Profile/Summary.antt =====
-- scripts/profile_aggregate.py: the readings of `run_profile_dir` and `run_lake_logs`, before the report is written. A log is a text, and the
-- logs of a profile directory are a function of the module's name.
pub mod Latest
pub mod Rows
use sp1_lean.Base.{
  ℕ, zero, suc, ◌+◌, Bool, true, false, not, ◌&&◌, ◌||◌, Option, none, some, List, [], ◌∷◌, ◌++◌,
  Text, codes, nat_beq, nat_eq, list_eq, ◌==◌, if◌then◌else◌, or_else,
}
use sp1_lean.Base.Dict.{Dict, insert}
use sp1_lean.Base.Results.{Result, raise, ok, ◌>>=◌}
use sp1_lean.Regex.{Regex, seq, alt, group, lit, plus, is_digit, is_alnum, captured, Captures}
use sp1_lean.Texts.{split_lines, split_on, find_all}
use sp1_lean.Profile.Seconds.{seconds, float_of, int_of}
use sp1_lean.Profile.Cumulative.{ProfileError, bad_number, number_or_raise, parse_cumulative}

-- `for ... in line.split("\t")`: with four columns, with three, or with another number
pub data Row : Type 0 where
  full : Text → Text → Text → Text → Row
  short : Text → Text → Text → Row
  other : Row

unfoldable pub row_of : List Text → Row
row_of (cpu ∷ wall ∷ code ∷ name ∷ []) = full cpu wall code name
row_of (cpu ∷ code ∷ name ∷ []) = short cpu code name
row_of _ = other

unfoldable pub columns : Text → Row
unfolding row_of split_on
columns line = row_of (split_on 9 line)

pub record Sweep : Type 0 where
  pub times : Dict Text ℕ
  pub walls : Dict Text ℕ
  pub exits : Dict Text ℕ
  pub categories : Dict Text (Dict Text ℕ)

module _ (logs : Text → Option Text) where
  -- The assignments behind the `if`, for a module that may have a wall time.
  unfoldable pub enter : Sweep → Text → Text → Text → Dict Text ℕ → Result ProfileError Sweep
  unfolding float_of int_of parse_cumulative
  enter s cpu code name walls = do
    time ← number_or_raise (float_of cpu)
    exit ← number_or_raise (int_of code)
    cats ← parse_cumulative (logs name)
    ok (record {
      times = insert name time s.times;
      walls = walls;
      exits = insert name exit s.exits;
      categories = insert name cats s.categories;
    })

  unfoldable pub read_row : Sweep → Row → Result ProfileError Sweep
  unfolding enter float_of
  read_row s other = ok s
  read_row s (short cpu code name) = enter s cpu code name s.walls
  read_row s (full cpu wall code name) =
      number_or_raise (float_of wall) >>= λ w. enter s cpu code name (insert name w s.walls)

  unfoldable pub read_rows : Sweep → List Text → Result ProfileError Sweep
  unfolding read_row columns
  read_rows s [] = ok s
  read_rows s (l ∷ ls) = read_row s (columns l) >>= λ t. read_rows t ls

  unfoldable pub read_summary : Text → Result ProfileError Sweep
  unfolding read_rows split_lines
  read_summary summary =
      read_rows (record { times = []; walls = []; exits = []; categories = [] })
        (split_lines false summary)

-- `BUILT_RE`
unfoldable pub built_re : Regex
unfolding lit
built_re = seq (lit (codes "Built ")) (
    seq
      (group "module" (plus (λ c. is_alnum c || nat_beq c b'_' || nat_beq c b'.' || nat_beq c 39)))
      (seq (lit (codes " (")) (
        seq (group "value" (plus (λ c. is_digit c || nat_beq c b'.')))
          (seq (group "unit" (alt (lit (codes "ms")) (lit (codes "s")))) (lit (codes ")"))))))

abbrev pub Built : Type 0
Built = Text × Option ℕ

unfoldable pub built : Captures → Text × Option ℕ
unfolding captured seconds
built c = (
  or_else (captured "module" c) [],
  seconds (or_else (captured "value" c) []) (or_else (captured "unit" c) []),
)

-- `times[match.group(1)] = seconds(match.group(2), match.group(3))`
unfoldable pub add_built : Dict Text ℕ → List Captures → Result ProfileError (Dict Text ℕ)
unfolding built
add_built times [] = ok times
add_built times (c ∷ cs) =
    number_or_raise (built c).1 >>= λ n. add_built (insert (built c).0 n times) cs

unfoldable pub add_logs : Dict Text ℕ → List Text → Result ProfileError (Dict Text ℕ)
unfolding add_built find_all built_re
add_logs times [] = ok times
add_logs times (log ∷ logs) = add_built times (find_all built_re log) >>= λ t. add_logs t logs

unfoldable pub lake_times : List Text → Result ProfileError (Dict Text ℕ)
unfolding add_logs
lake_times logs = add_logs [] logs
