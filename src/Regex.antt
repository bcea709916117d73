-- ===== src/Regex.antt =====
-- The part of Python's `re` that the scripts use: a backtracking matcher over a text, with greedy
-- and lazy runs of a character class, ordered alternatives, named groups and `$`. The texts are ASCII, so
-- that `\d` is 0-9.
pub mod Takes
pub mod Parses
use text.Mathlib.Text.{◌==◌ as str_eq}
use sp1_lean.Base.{
  ℕ, zero, suc, ◌-◌, ◌≡◌, Bool, true, false, not, ◌&&◌, ◌||◌, Option, none, some, List, [], ◌∷◌,
  ◌++◌, String, Text, codes, leb, nat_beq, if◌then◌else◌, length, take,
}

pub data Regex : Type 0 where
  empty : Regex
  one : (ℕ → Bool) → Regex
  seq alt : Regex → Regex → Regex
  -- a greedy run of a class
  many : (ℕ → Bool) → Regex
  -- a lazy run of a class
  few : (ℕ → Bool) → Regex
  group : String → Regex → Regex
  -- `$`: the end, or a line feed that is the last character
  at_end : Regex
  -- a test of the text that is left, such as the `$` of `re.M`
  ahead : (Text → Bool) → Regex

-- `[0-9]`, `[0-9a-f]`, `[A-Za-z0-9]`, and `.`
abbrev pub is_digit : ℕ → Bool
is_digit c = leb b'0' c && leb c b'9'

abbrev pub is_hex : ℕ → Bool
is_hex c = is_digit c || (leb b'a' c && leb c b'f')

abbrev pub is_alnum : ℕ → Bool
is_alnum c = is_digit c || (leb b'a' c && leb c b'z') || (leb b'A' c && leb c b'Z')

abbrev pub is_dot : ℕ → Bool
is_dot c = not (nat_beq c 10)

unfoldable pub lit : Text → Regex
lit [] = empty
lit (c ∷ w) = seq (one (nat_beq c)) (lit w)

unfoldable pub times : ℕ → (ℕ → Bool) → Regex
times zero p = empty
times (suc n) p = seq (one p) (times n p)

abbrev pub plus : (ℕ → Bool) → Regex
plus p = seq (one p) (many p)

abbrev pub opt : Regex → Regex
opt r = alt r empty

-- What the groups have captured, the latest first.
abbrev pub Captures : Type 0
Captures = List (String × Text)

-- `m.group(name)`, which is None for a group that took no part
unfoldable pub captured : String → Captures → Option Text
captured name [] = none
captured name ((other, w) ∷ c) = if str_eq other name then some w else captured name c

-- The text between a position and a later one.
abbrev pub between : Text → Text → Text
between s t = take (length s - length t) s

module _ {R : Type 0} where
  abbrev pub or_next : Option R → Option R → Option R
  or_next (some r) other = some r
  or_next none other = other

  unfoldable pub run_many : (ℕ → Bool) → (Text → Option R) → Text → Option R
  run_many p k [] = k []
  run_many p k (x ∷ s) = elim (p x) [
    | true ↦ elim (run_many p k s) [ some r ↦ some r | none ↦ k (x ∷ s) ]
    | false ↦ k (x ∷ s)
  ]

  unfoldable pub run_few : (ℕ → Bool) → (Text → Option R) → Text → Option R
  run_few p k [] = k []
  run_few p k (x ∷ s) =
      let later = run_few p k s in
      elim (k (x ∷ s)) [ some r ↦ some r | none ↦ if p x then later else none ]

  unfoldable pub run_end : (Text → Option R) → Text → Option R
  run_end k [] = k []
  run_end k (x ∷ []) = if nat_beq x 10 then k (x ∷ []) else none
  run_end k (x ∷ _ ∷ _) = none

  -- `run r k s c` tries the ways in which `r` can match a prefix of `s`, in the matcher's order,
  -- and goes on with `k` after each, until one succeeds.
  unfoldable pub run : Regex → (Text → Captures → Option R) → Text → Captures → Option R
  unfolding run_many run_few run_end
  run empty k s c = k s c
  run (one p) k [] c = none
  run (one p) k (x ∷ s) c = if p x then k s c else none
  run (seq a b) k s c = run a (run b k) s c
  run (alt a b) k s c = elim (run a k s c) [ some r ↦ some r | none ↦ run b k s c ]
  run (many p) k s c = run_many p (λ t. k t c) s
  run (few p) k s c = run_few p (λ t. k t c) s
  run (group name r) k s c = run r (λ t d. k t ((name, between s t) ∷ d)) s c
  run at_end k s c = run_end (λ t. k t c) s
  run (ahead q) k s c = if q s then k s c else none

-- `re.match(r, s)`: the captures of the first match of a prefix
unfoldable pub match : Regex → Text → Option Captures
unfolding run
match r s = run r (λ t c. some c) s []
