-- ===== src/Texts.antt =====
-- Texts as the scripts read and print them: Python's `str` methods and the searches of `re`.
pub mod Decimal
use sp1_lean.Base.{
  ℕ, zero, suc, ◌+◌, ◌-◌, ◌*◌, ◌/◌, ◌%◌, Bool, true, false, ◌&&◌, ◌||◌, Option, none, some, List,
  [], ◌∷◌, Text, leb, ltb, nat_beq, nat_eq, list_eq, ◌==◌, if◌then◌else◌, starts_with, length,
}
use sp1_lean.Regex.{Regex, run, match, Captures}

abbrev pub is_some {ℓ} : {A : Type ℓ} → Option A → Bool
is_some none = false
is_some (some _) = true

-- `str.isspace` of one character
abbrev pub is_space : ℕ → Bool
is_space c =
    (leb 9 c && leb c 13)
    || (leb 28 c && leb c 32)
    || nat_beq c 133
    || nat_beq c 160
    || nat_beq c 5760
    || (leb 8192 c && leb c 8202)
    || nat_beq c 8232
    || nat_beq c 8233
    || nat_beq c 8239
    || nat_beq c 8287
    || nat_beq c 12288

-- `re.fullmatch`
unfoldable pub full_match : Regex → Text → Option Captures
unfolding run
full_match r s = run r (λ t c. elim t [ [] ↦ some c | _ ∷ _ ↦ none ]) s []

-- `re.search`: the first position at which the expression matches
unfoldable pub search : Regex → Text → Option Captures
unfolding match
search r [] = match r []
search r (x ∷ s) =
    let later = search r s in elim (match r (x ∷ s)) [ some c ↦ some c | none ↦ later ]

-- A character in front of the first part.
unfoldable pub cons_line : ℕ → List Text → List Text
cons_line c [] = (c ∷ []) ∷ []
cons_line c (l ∷ ls) = (c ∷ l) ∷ ls

-- The match at a position, with the length of what it leaves.
unfoldable pub match_at : Regex → Text → Option (ℕ × Captures)
unfolding run
match_at r s = run r (λ t c. some (length t, c)) s []

-- `re.finditer(r, s)`, without the matches that are empty. The number is how much of the text the last match still
-- covers, and the test says of the character before a position, if there is one, whether a match may start there.
unfoldable pub find_from : (Option ℕ → Bool) → Regex → ℕ → Option ℕ → Text → List Captures
unfolding match_at
find_from start r covered before [] = []
find_from start r (suc n) before (x ∷ s) = find_from start r n (some x) s
find_from start r zero before (x ∷ s) =
    let other = find_from start r zero (some x) s in
    elim (if start before then match_at r (x ∷ s) else none) [
      | none ↦ other
      | some m ↦ m.1 ∷ find_from start r (length s - m.0) (some x) s
    ]

unfoldable pub find_all : Regex → Text → List Captures
unfolding find_from
find_all r s = find_from (λ _. true) r zero none s

-- `^` with `re.M`: the beginning, or behind a line feed
abbrev pub at_line_start : Option ℕ → Bool
at_line_start none = true
at_line_start (some x) = nat_beq x 10

-- `re.finditer("^...", s, re.M)`
unfoldable pub find_lines : Regex → Text → List Captures
unfolding find_from
find_lines r s = find_from at_line_start r zero none s

-- `$` with `re.M`: the end, or before a line feed
abbrev pub at_line_end : Text → Bool
at_line_end [] = true
at_line_end (x ∷ s) = nat_beq x 10

-- `s.split(sep)` for one character, and for a word
unfoldable pub split_on : ℕ → Text → List Text
unfolding cons_line
split_on sep [] = [] ∷ []
split_on sep (c ∷ text) =
    let rest = split_on sep text in if nat_beq c sep then [] ∷ rest else cons_line c rest

unfoldable pub split_from : Text → ℕ → Text → List Text
unfolding cons_line
split_from word covered [] = [] ∷ []
split_from word (suc n) (c ∷ text) = split_from word n text
split_from word zero (c ∷ text) =
    let rest = split_from word zero text in
    let behind = split_from word (length word - 1) text in
    if starts_with word (c ∷ text) then [] ∷ behind else cons_line c rest

unfoldable pub split_word : Text → Text → List Text
unfolding split_from
split_word word text = split_from word zero text

-- `s.endswith(w)`
unfoldable pub ends_with : Text → Text → Bool
ends_with w [] = w == []
ends_with w (c ∷ s) = (w == (c ∷ s)) || ends_with w s

-- `word in text`
unfoldable pub occurs : Text → Text → Bool
occurs word [] = starts_with word []
occurs word (c ∷ text) = starts_with word (c ∷ text) || occurs word text

-- `int(text)`, for a text of digits
unfoldable pub number_from : ℕ → Text → ℕ
number_from n [] = n
number_from n (c ∷ text) = number_from (n * 10 + (c - b'0')) text

-- `str(n)`; a number has at most as many digits as it has units.
unfoldable pub digits : ℕ → ℕ → Text → Text
digits zero n text = text
digits (suc fuel) n text =
    let rest = digits fuel (n / 10) ((b'0' + n % 10) ∷ text) in
    if ltb n 10 then (b'0' + n) ∷ text else rest

unfoldable pub decimal : ℕ → Text
unfolding digits
decimal n = digits (suc n) n []

-- The lines of a text, without their ends.
unfoldable pub lines : Text → List Text
unfolding cons_line
lines [] = [] ∷ []
lines (c ∷ text) = if nat_beq c 10 then [] ∷ lines text else cons_line c (lines text)

unfoldable pub strip_left : Text → Text
strip_left [] = []
strip_left (c ∷ text) = if is_space c then strip_left text else c ∷ text

unfoldable pub reverse_onto : Text → Text → Text
reverse_onto [] rest = rest
reverse_onto (c ∷ text) rest = reverse_onto text (c ∷ rest)

-- `s.strip()`
unfoldable pub strip : Text → Text
unfolding strip_left reverse_onto
strip text = reverse_onto (strip_left (reverse_onto (strip_left text) [])) []

-- The newlines of `open` in text mode: "\r\n" and "\r" are read as "\n". The flag says that the character before was a carriage return.
unfoldable pub universal_newlines : Bool → Text → Text
universal_newlines cr [] = []
universal_newlines cr (c ∷ text) =
    let rest = universal_newlines (nat_beq c 13) text in
    if cr && nat_beq c 10 then rest else if nat_beq c 13 then 10 ∷ rest else c ∷ rest

-- `str.splitlines`; the flag says that the character before was a carriage return.
abbrev pub is_break : ℕ → Bool
is_break c =
    (leb 10 c && leb c 13)
    || ((leb 28 c && leb c 30) || (nat_beq c 133 || (nat_beq c 8232 || nat_beq c 8233)))

unfoldable pub split_lines : Bool → Text → List Text
unfolding cons_line
split_lines cr [] = []
split_lines cr (c ∷ s) =
    let rest = split_lines (nat_beq c 13) s in
    if cr && nat_beq c 10 then rest else if is_break c then [] ∷ rest else cons_line c rest

-- `text.split()`
unfoldable pub words : Text → List Text
unfolding cons_line
words [] = []
words (c ∷ []) = if is_space c then [] else (c ∷ []) ∷ []
words (c ∷ d ∷ text) =
    let rest = words (d ∷ text) in
    if is_space c then rest else if is_space d then (c ∷ []) ∷ rest else cons_line c rest
