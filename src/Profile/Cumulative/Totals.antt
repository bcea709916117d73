-- ===== src/Profile/Cumulative/Totals.antt =====
-- What `parse_cumulative` and `check_log` make of a log: the totals of its last block.
use sp1_lean.Base.{
  Memᴰ, ℕ, ◌+◌, ◌≡◌, ◌≢◌, ◌↔◌, refl, sym, ◌∙◌, ap, true, false, ◌&&◌, inl, inr, Option, none, some,
  List, [], ◌∷◌, Text, codes, arith, nat_eq, list_eq, ◌==◌, eq_iff, if◌then◌else◌, starts_with,
  or_else, Bool-cases, Option-cases,
}
use sp1_lean.Base.Dict.{Dict, lookup, has, lookup-upsert, has_iff}
use sp1_lean.Base.Results.{ok, Result-cases, raise-not-ok, ok-injective}
use sp1_lean.Texts.{split_lines}
use sp1_lean.Profile.Seconds.{seconds}
use sp1_lean.Profile.Cumulative.Readable.{
  CanRead, behind_header, parse_cumulative-CanRead, header_step, outside_step, inside_step,
}
use sp1_lean.Profile.Cumulative.Diagnosed.{HasDiagnostic, diagnosed_iff}
use sp1_lean.Profile.Cumulative.{
  category, times_header, bad_number, diagnostics, incomplete_report, Block, add_category,
  read_all_times, no_block, parse_cumulative, diagnosed, check_log,
}

-- The lines behind the last header.
unfoldable pub last_block : List Text → Option (List Text)
last_block [] = none
last_block (l ∷ ls) =
    let here = if starts_with times_header l then some ls else none in
    elim (last_block ls) [ some b ↦ some b | none ↦ here ]

-- What a line says, if it says something.
unfoldable pub reading : Text → Option (Text × ℕ)
unfolding category seconds
reading line = elim (category line) [
  | none ↦ none
  | some c ↦ elim (seconds c.1 c.2) [ none ↦ none | some n ↦ some (c.0, n) ]
]

abbrev pub plus_option : Option ℕ → Option ℕ → Option ℕ
plus_option none t = t
plus_option (some a) none = some a
plus_option (some a) (some b) = some (a + b)

abbrev pub amount : Text → Option (Text × ℕ) → Option ℕ
amount name none = none
amount name (some (other, n)) = if other == name then some n else none

-- The sum of what lines say on one category.
unfoldable pub total : Text → List Text → Option ℕ
unfolding reading
total name [] = none
total name (l ∷ ls) = plus_option (amount name (reading l)) (total name ls)

plus_option_assoc :
    (a b c : Option ℕ) → plus_option (plus_option a b) c ≡ plus_option a (plus_option b c)
plus_option_assoc none b c = refl
plus_option_assoc (some a) none c = refl
plus_option_assoc (some a) (some b) none = refl
plus_option_assoc (some a) (some b) (some c) = ap some (omega arith)

reading_known :
    (line : Text) {other value unit : Text} {n : ℕ}
    → category line ≡ some (other, value, unit)
    → seconds value unit ≡ some n
    → reading line ≡ some (other, n)
unfolding reading
reading_known line q r = rw (q, reading) (rw r refl)

added_amount :
    (name other : Text) (n : ℕ) (a b : Option ℕ)
    → (other ≡ name → b ≡ a)
    → (if other == name then some (or_else b 0 + n) else a)
      ≡ plus_option a (amount name (some (other, n)))
added_amount name other n none none h = ground (arith)
added_amount name other n none (some y) h = ground (arith, eq_iff other name)
added_amount name other n (some x) none h = ground (arith, eq_iff other name)
added_amount name other n (some x) (some y) h = ground (arith, eq_iff other name)

-- A line in the block adds its reading.
add_category-lookup :
    (name line : Text) (b c : Block)
    → add_category b (category line) ≡ ok c
    → (c.in_block ≡ b.in_block)
      × (lookup name c.categories
          ≡ plus_option (lookup name b.categories) (amount name (reading line)))
unfolding add_category reading
add_category-lookup name line b c e = elim (Option-cases (category line)) [
  | inl q ↦
      let same = ok-injective b c (rw (q, add_category) at e) in
      rw (q, reading)
        (
          sym (ap (λ (x : Block). x.in_block) same),
          ground (arith, ap (λ (x : Block). lookup name x.categories) same),
        )
  | inr ((other, value, unit), q) ↦ elim (Option-cases (seconds value unit)) [
    | inl r ↦ absurd (raise-not-ok bad_number c (rw r at (rw (q, add_category) at e)))
    | inr (n, r) ↦
        let same = ok-injective _ c (rw r at (rw (q, add_category) at e)) in
        (
          sym (ap (λ (x : Block). x.in_block) same),
          sym (ap (λ (x : Block). lookup name x.categories) same)
              ∙ (lookup-upsert name other 0 (λ t. t + n) b.categories ∙ added name other n q r),
        )
  ]
]
  where
    added :
        (name other : Text) (n : ℕ) {value unit : Text}
        → category line ≡ some (other, value, unit)
        → seconds value unit ≡ some n
        → (if other == name
            then some (or_else (lookup other b.categories) 0 + n)
            else lookup name b.categories)
          ≡ plus_option (lookup name b.categories) (amount name (reading line))
    added name other n {value} {unit} q r =
        let known : reading line ≡ some (other, n) = reading_known line q r in
        rw known (
          added_amount name other n (lookup name b.categories) (lookup other b.categories)
            (λ e. ap (λ k. lookup k b.categories) e))

-- What the lines leave behind, from any state.
abbrev after : Text → Block → Option (List Text) → List Text → Option ℕ
after name b (some block) ls = total name block
after name b none ls =
    if b.in_block
    then plus_option (lookup name b.categories) (total name ls)
    else lookup name b.categories

read_all_times_lem :
    (name : Text) (b c : Block) (ls : List Text)
    → read_all_times b ls ≡ ok c
    → lookup name c.categories ≡ after name b (last_block ls) ls
unfolding lookup read_all_times last_block total
read_all_times_lem name b c [] e =
    ground (arith, ap (λ (x : Block). lookup name x.categories) (ok-injective b c e))
read_all_times_lem name b c (l ∷ ls) e = elim (Bool-cases (starts_with times_header l)) [
  | inl h ↦
      let later =
        read_all_times_lem name (record { in_block = true; categories = [] }) c ls
          (rw (header_step b l h) at e) in
      elim (Option-cases (last_block ls)) [
        | inl q ↦ rw (q, h) (rw q at later)
        | inr (k, q) ↦ rw q (rw q at later)
      ]
  | inr h ↦ elim (Bool-cases b.in_block) [
    | inr o ↦
        let later = read_all_times_lem name b c ls (rw (outside_step b l h o) at e) in
        elim (Option-cases (last_block ls)) [
          | inl q ↦ rw (q, h, o) (rw (q, o) at later)
          | inr (k, q) ↦ rw q (rw q at later)
        ]
    | inl o ↦ elim (Result-cases (add_category b (category l))) [
      | inl (x, q) ↦ absurd (raise-not-ok x c (rw (inside_step b l h o, q) at e))
      | inr (d, q) ↦
          let later = read_all_times_lem name d c ls (rw (inside_step b l h o, q) at e) in
          let (stays, adds) = add_category-lookup name l b d q in
          elim (Option-cases (last_block ls)) [
            | inl q ↦
                rw (q, h, o)
                  ((rw (q, stays ∙ o, adds) at later)
                    ∙ plus_option_assoc (lookup name b.categories) (amount name (reading l))
                        (total name ls))
            | inr (k, q) ↦ rw q (rw q at later)
          ]
    ]
  ]
]

-- The block of a whole log: the lines behind its last header, or none.
unfoldable pub final_block : Text → List Text
unfolding last_block split_lines
final_block log = or_else (last_block (split_lines false log)) []

-- If `parse_cumulative` returns, it has for every category the sum of what the lines behind the last header say on it, and has no other category.
pub parse_cumulative-total :
    (name log : Text) (categories : Dict Text ℕ)
    → parse_cumulative (some log) ≡ ok categories
    → lookup name categories ≡ total name (final_block log)
unfolding parse_cumulative final_block total lookup
parse_cumulative-total name log categories e =
    elim (Result-cases (read_all_times no_block (split_lines false log))) [
      | inl (x, q) ↦ absurd (raise-not-ok x categories (rw (q, parse_cumulative) at e))
      | inr (b, q) ↦
          let same = ok-injective b.categories categories (rw (q, parse_cumulative) at e) in
          let found = read_all_times_lem name no_block b (split_lines false log) q in
          elim (Option-cases (last_block (split_lines false log))) [
            | inl r ↦ rw r (rw (r, same) at found)
            | inr (k, r) ↦ rw r (rw (r, same) at found)
          ]
    ]

has_total :
    (name log : Text) (categories : Dict Text ℕ)
    → parse_cumulative (some log) ≡ ok categories
    → (has name categories ≡ true) ↔ (total name (final_block log) ≢ none)
has_total name log categories e =
    rw (← parse_cumulative-total name log categories e) (has_iff name categories)

-- `check_log` accepts a log exactly if the log nowhere holds "stack overflow", "PANIC" or "uncaught exception", nor "error:" or "warning:" behind no letter, digit or "_", the number of every line behind its first header that has a category can be read, and the lines behind its last header speak of
-- "import" and of "module linting".
pub check_log_iff :
    (log : Text)
    → (check_log log ≡ ok tt) ↔ (
        (¬ HasDiagnostic false log)
        × ((l : Text) → Memᴰ l (behind_header (split_lines false log)) → CanRead l)
        × (total (codes "import") (final_block log) ≢ none)
        × (total (codes "module linting") (final_block log) ≢ none))
unfolding check_log
check_log_iff log = elim (Bool-cases (diagnosed log)) [
  | inl d ↦ (
    λ e. absurd (raise-not-ok diagnostics tt (rw (d, check_log) at e)),
    λ t. absurd (t.0 ((diagnosed_iff log).0 d)),
  )
  | inr d ↦ elim (Result-cases (parse_cumulative (some log))) [
    | inl (x, q) ↦ (
      λ e. absurd (raise-not-ok x tt (rw (d, check_log, q) at e)),
      λ t.
          let (categories, read) = (parse_cumulative-CanRead log).1 t.1 in
          absurd (raise-not-ok x categories (sym q ∙ read)),
    )
    | inr (categories, q) ↦
        let one = has_total (codes "import") log categories q in
        let two = has_total (codes "module linting") log categories q in
        elim (Bool-cases
          (has (codes "import") categories && has (codes "module linting") categories)) [
            | inl r ↦ (
              λ e. (
                undiagnosed d,
                (parse_cumulative-CanRead log).0 (categories, q),
                one.0 (ground (arith, r)),
                two.0 (ground (arith, r)),
              ),
              λ t. rw (d, check_log, q) (rw r refl),
            )
            | inr r ↦ (
              λ e. absurd (raise-not-ok incomplete_report tt (rw r at (rw (d, check_log, q) at e))),
              λ (a, b, c, f). absurd (ground (arith, r, one.1 c, two.1 f)),
            )
          ]
  ]
]
  where
    undiagnosed : diagnosed log ≡ false → ¬ HasDiagnostic false log
    undiagnosed d h = cc (d, (diagnosed_iff log).1 h)
