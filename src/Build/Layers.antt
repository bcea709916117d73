-- ===== src/Build/Layers.antt =====
-- scripts/build_semantics.py: `classify_layer`, and the strata of `load_strata` and `classify_stratum`. The patterns
-- have no brackets, which `fnmatch` reads as classes of characters.
pub mod Tables
pub mod Strata
use sp1_lean.Base.{
  ℕ, zero, suc, ◌+◌, Bool, true, false, ◌&&◌, ◌||◌, Option, none, some, List, [], ◌∷◌, ◌++◌, map,
  Text, String, codes, all, or_else, ◌>>=◌, nat_eq, list_eq, ◌==◌, contains, if◌then◌else◌,
  starts_with, length, nat_beq,
}
use mathlib.Core.List.{head?}
use sp1_lean.Regex.{is_digit}
use sp1_lean.Texts.{strip, words, split_on, number_from, lines, universal_newlines}
use sp1_lean.Base.Order.{nat_order}
use sp1_lean.Base.Order.Sorting.{sort_down}

-- `fnmatch.fnmatch(path, pattern)`: a star stands for any text, slashes included, and a question mark for one character; no pattern has a bracket.
unfoldable pub glob : Text → Text → Bool
glob [] [] = true
glob [] (d ∷ path) = false
glob (c ∷ pattern) [] = nat_beq c b'*' && glob pattern []
glob (c ∷ pattern) (d ∷ path) =
    let skip = glob pattern (d ∷ path) in
    let more = glob (c ∷ pattern) path in
    let next = glob pattern path in
    if nat_beq c b'*' then skip || more else (nat_beq c b'?' || nat_beq c d) && next

-- A pattern with a star matches the whole path, one without is a prefix of it.
unfoldable pub fits : Text → Text → Bool
unfolding glob
fits pattern path = if contains pattern b'*' then glob pattern path else starts_with pattern path

-- `for prefix, layer in LAYERS: ...`: the first that fits
unfoldable pub first_fit {ℓ} : {A : Type ℓ} → List (Text × A) → Text → Option A
unfolding fits
first_fit [] path = none
first_fit ((pattern, a) ∷ table) path =
    let rest = first_fit table path in if fits pattern path then some a else rest

pub record Stratum : Type 0 where
  pub prefix : Text
  pub level : ℕ
  pub pillar : Text

-- `int(level)`
abbrev pub level_of : Text → Option ℕ
level_of [] = none
level_of (c ∷ digits) =
    if all is_digit (c ∷ digits) then some (number_from 0 (c ∷ digits)) else none

-- `level, pillar, prefix = line.split()`; None stands for a ValueError.
abbrev pub stratum_of : List Text → Option Stratum
stratum_of (level ∷ pillar ∷ prefix ∷ []) = elim (level_of level) [
  | none ↦ none
  | some n ↦ some (record { prefix = prefix; level = n; pillar = pillar })
]
stratum_of _ = none

unfoldable pub parse_strata : List Text → Option (List Stratum)
unfolding strip words split_on number_from
parse_strata [] = some []
parse_strata (raw ∷ ls) =
    let rest = parse_strata ls in
    let line = strip (or_else (head? (split_on b'#' raw)) []) in
    if line == []
    then rest
    else (stratum_of (words line) >>= λ s. rest >>= λ strata. some (s ∷ strata))

-- `strata.sort(key=lambda e: -len(e[0]))`
unfoldable pub sort_strata : List Stratum → List Stratum
sort_strata = sort_down (λ s. length s.prefix)

-- None stands for the ValueError.
unfoldable pub load_strata : Text → Option (List Stratum)
unfolding parse_strata sort_strata lines universal_newlines
load_strata text =
    parse_strata (lines (universal_newlines false text)) >>= λ strata. some (sort_strata strata)

unfoldable pub matching : List Stratum → Text → Option Stratum
unfolding fits
matching [] path = none
matching (s ∷ strata) path =
    let rest = matching strata path in if fits s.prefix path then some s else rest

-- The levels, with that of the generated model, which is below all others.
pub data Level : Type 0 where
  below : Level
  at : ℕ → Level

abbrev pub root_files : List Text
root_files =
    codes "SP1Clean.lean"
    ∷ codes "SP1Clean/Core.lean"
    ∷ codes "ToClean.lean"
    ∷ codes "ToMathlib.lean"
    ∷ codes "ToPolyFun.lean"
    ∷ []

unfoldable pub other_stratum : Text → Option Level
other_stratum path =
    if starts_with (codes "LeanRV64D") path
    then some below
    else if starts_with (codes "SP1CleanTest") path
    then some (at 12)
    else if contains root_files path
    then some (at 99)
    else none

unfoldable pub classify_stratum : Text → List Stratum → Option Level
unfolding matching other_stratum
classify_stratum path strata = elim (matching strata path) [
  | none ↦ other_stratum path
  | some s ↦ some (at s.level)
]
