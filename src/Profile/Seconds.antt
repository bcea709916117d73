-- ===== src/Profile/Seconds.antt =====
-- scripts/profile_aggregate.py: `seconds` and `pillar_of`. A float is a whole number of units of 10^-9; what is smaller is
-- cut off, and a text that is not a plain decimal number raises ValueError.
use sp1_lean.Base.{
  ℕ, ◌+◌, ◌*◌, ◌/◌, ◌^◌, Bool, ◌||◌, Option, none, some, [], ◌∷◌, ◌++◌, Text, codes, nat_beq,
  nat_eq, list_eq, ◌==◌, if◌then◌else◌, length, or_else, ◌>>=◌,
}
use sp1_lean.Regex.{Regex, seq, group, one, lit, many, plus, opt, is_digit, captured}
use sp1_lean.Texts.{full_match, number_from, split_on}

unfoldable pub float_re : Regex
unfolding lit
float_re = seq (group "whole" (many is_digit)) (
    seq (opt (seq (lit (codes ".")) (group "fraction" (many is_digit)))) (
      opt (
        seq (one (λ c. nat_beq c b'e' || nat_beq c b'E')) (
          seq (opt (group "sign" (one (λ c. nat_beq c b'+' || nat_beq c b'-'))))
            (group "power" (plus is_digit))))))

-- `int(text)`, for a text of digits
unfoldable pub int_of : Text → Option ℕ
unfolding number_from full_match
int_of text = elim (full_match (plus is_digit) text) [
  | none ↦ none
  | some _ ↦ some (number_from 0 text)
]

unfoldable pub scaled : Text → Text → Bool → ℕ → ℕ
unfolding number_from
scaled whole fraction negative power =
    let n = number_from 0 (whole ++ fraction) in
    if negative
    then (n * 10 ^ 9) / 10 ^ (length fraction + power)
    else (n * 10 ^ (9 + power)) / 10 ^ length fraction

-- `float(text)`
unfoldable pub float_of : Text → Option ℕ
unfolding full_match float_re captured number_from scaled
float_of text = do
  c ← full_match float_re text
  elim (or_else (captured "whole" c) [] ++ or_else (captured "fraction" c) []) [
    | [] ↦ none
    | _ ∷ _ ↦ some (
        scaled (or_else (captured "whole" c) []) (or_else (captured "fraction" c) [])
          (or_else (captured "sign" c) [] == codes "-")
          (number_from 0 (or_else (captured "power" c) [])))
  ]

unfoldable pub seconds : Text → Text → Option ℕ
unfolding float_of
seconds value unit = do n ← float_of value; some (if unit == codes "ms" then n / 1000 else n)

abbrev pub clean_root : Text
clean_root = codes "SP1Clean"

unfoldable pub pillar_of : Text → Text
unfolding split_on
pillar_of name = elim (split_on b'.' name) [
  | [] ↦ []
  | root ∷ [] ↦ root
  | root ∷ part ∷ _ ↦ if root == clean_root then (root ++ codes ".") ++ part else root
]
