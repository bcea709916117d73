-- ===== src/Profile/Cumulative.antt =====
-- scripts/profile_aggregate.py: `CATEGORY_RE`, `parse_cumulative` and `check_log`.
pub mod Diagnosed
pub mod Readable
pub mod Totals
use sp1_lean.Base.{
  ℕ, zero, suc, ◌+◌, Bool, true, false, not, ◌&&◌, ◌||◌, Option, none, some, List, [], ◌∷◌, ◌++◌,
  Text, codes, nat_beq, nat_eq, list_eq, ◌==◌, if◌then◌else◌, starts_with, or_else,
}
use sp1_lean.Base.Dict.{Dict, has, upsert}
use sp1_lean.Base.Results.{Result, raise, ok, ◌>>=◌, require}
use sp1_lean.Regex.{
  Regex, seq, alt, group, one, lit, many, few, plus, opt, at_end, is_digit, is_alnum, is_dot, match,
  captured,
}
use sp1_lean.Texts.{is_space, split_lines}
use sp1_lean.Profile.Seconds.{seconds}

abbrev number_re : Regex
number_re = seq (plus (λ c. is_digit c || nat_beq c b'.')) (
    opt (
      seq (one (λ c. nat_beq c b'e' || nat_beq c b'E'))
        (seq (opt (one (λ c. nat_beq c b'+' || nat_beq c b'-'))) (plus is_digit))))

unfoldable pub category_re : Regex
unfolding lit
category_re = seq (many is_space) (
    seq (group "name" (seq (one (λ c. not (is_space c))) (few is_dot))) (
      seq (lit (codes " ")) (
        seq (group "value" number_re) (
          seq (group "unit" (alt (lit (codes "ms")) (lit (codes "s"))))
            (seq (many is_space) at_end)))))

-- A line's category, value and unit.
unfoldable pub category : Text → Option (Text × Text × Text)
unfolding match category_re captured
category line = elim (match category_re line) [
  | none ↦ none
  | some c ↦ some (
    or_else (captured "name" c) [],
    or_else (captured "value" c) [],
    or_else (captured "unit" c) [],
  )
]

abbrev pub times_header : Text
times_header = codes "cumulative profiling times:"

pub data ProfileError : Type 0 where
  bad_number diagnostics incomplete_report : ProfileError

pub record Block : Type 0 where
  pub in_block : Bool
  pub categories : Dict Text ℕ

abbrev pub number_or_raise : Option ℕ → Result ProfileError ℕ
number_or_raise none = raise bad_number
number_or_raise (some n) = ok n

-- `categories[name] = categories.get(name, 0.0) + seconds(value, unit)`
unfoldable pub add_category : Block → Option (Text × Text × Text) → Result ProfileError Block
unfolding seconds
add_category b none = ok b
add_category b (some (name, value, unit)) = number_or_raise (seconds value unit) >>= λ n.
    ok (record b { categories = upsert name 0 (λ t. t + n) b.categories })

-- The loop's body.
unfoldable pub read_times : Block → Text → Result ProfileError Block
unfolding add_category category
read_times b line =
    if starts_with times_header line
    then ok (record { in_block = true; categories = [] })
    else if b.in_block
    then add_category b (category line)
    else ok b

unfoldable pub read_all_times : Block → List Text → Result ProfileError Block
unfolding read_times
read_all_times b [] = ok b
read_all_times b (l ∷ ls) = read_times b l >>= λ c. read_all_times c ls

abbrev pub no_block : Block
no_block = record { in_block = false; categories = [] }

-- None stands for a log that does not exist.
unfoldable pub parse_cumulative : Option Text → Result ProfileError (Dict Text ℕ)
unfolding read_all_times split_lines
parse_cumulative none = ok []
parse_cumulative (some log) =
    read_all_times no_block (split_lines false log) >>= λ b. ok b.categories

abbrev pub is_word_char : ℕ → Bool
is_word_char c = is_alnum c || nat_beq c b'_'

-- The search of `check_log`; the Boolean says whether the character before is a letter, a digit or "_".
unfoldable pub diagnosed_from : Bool → Text → Bool
diagnosed_from inside [] = false
diagnosed_from inside (c ∷ text) =
    (not inside
      && (starts_with (codes "error:") (c ∷ text) || starts_with (codes "warning:") (c ∷ text)))
    || starts_with (codes "stack overflow") (c ∷ text)
    || starts_with (codes "PANIC") (c ∷ text)
    || starts_with (codes "uncaught exception") (c ∷ text)
    || diagnosed_from (is_word_char c) text

unfoldable pub diagnosed : Text → Bool
unfolding diagnosed_from
diagnosed text = diagnosed_from false text

unfoldable pub check_log : Text → Result ProfileError (Unit {0})
unfolding diagnosed parse_cumulative
check_log log = do
  _ ← require (not (diagnosed log)) diagnostics
  categories ← parse_cumulative (some log)
  require (has (codes "import") categories && has (codes "module linting") categories)
      incomplete_report
