-- ===== src/Flags.antt =====
-- scripts/lean_flags.py: `_flatten`, `_render` and `flags_for`, over a lakefile that was read. The options are Booleans, texts, whole
-- numbers, lists of texts, and tables of them.
pub mod Override
pub mod Paths
pub mod Toml
pub mod Read
mod Tests
use mathlib.Core.List.{foldl, head?}
use sp1_lean.Texts.{decimal}
use sp1_lean.Base.{
  ℕ, suc, ◌+◌, ◌-◌, ◌/◌, ◌%◌, Bool, true, false, not, ◌&&◌, ◌||◌, Option, none, some, List, [], ◌∷◌,
  ◌++◌, map, Text, codes, nat_eq, list_eq, ◌==◌, keep, ◌>>=◌, ltb, nat_beq, contains, gather,
  if◌then◌else◌,
}
use sp1_lean.Base.Dict.{Dict, insert}

pub data Scalar : Type 0 where
  boolean : Bool → Scalar
  text : Text → Scalar
  number : ℕ → Scalar
  -- one less than zero less the number
  negative : ℕ → Scalar
  strings : List Text → Scalar

mutual
  pub data Setting : Type 0 where
    scalar : Scalar → Setting
    table : Settings → Setting

  pub data Settings : Type 0 where
    no_settings : Settings
    setting : Text → Setting → Settings → Settings

unfoldable pub find_setting : Text → Settings → Option Setting
find_setting k no_settings = none
find_setting k (setting j v rest) = if j == k then some v else find_setting k rest

-- `table[key] = value`
unfoldable pub set_setting : Text → Setting → Settings → Settings
set_setting k v no_settings = setting k v no_settings
set_setting k v (setting j w rest) =
    let later = set_setting k v rest in if j == k then setting j v rest else setting j w later

-- `repr` of a text
abbrev pub hex_digit : ℕ → ℕ
hex_digit n = if ltb n 10 then b'0' + n else (b'a' + n) - 10

abbrev pub escape : ℕ → ℕ → Text
escape mark c =
    if nat_beq c b'\\' || nat_beq c mark
    then b'\\' ∷ c ∷ []
    else if nat_beq c 9
    then codes "\\t"
    else if nat_beq c 10
    then codes "\\n"
    else if nat_beq c 13
    then codes "\\r"
    else if ltb c 32 || nat_beq c 127
    then codes "\\x" ++ (hex_digit (c / 16) ∷ hex_digit (c % 16) ∷ [])
    else c ∷ []

unfoldable pub repr : Text → Text
repr t =
    let mark = if contains t 39 && not (contains t 34) then 34 else 39 in
    mark ∷ (gather (escape mark) t ++ (mark ∷ []))

-- `", ".join(parts)`
unfoldable pub comma_join : List Text → Text
comma_join [] = []
comma_join (part ∷ []) = part
comma_join (part ∷ next ∷ parts) = part ++ (codes ", " ++ comma_join (next ∷ parts))

unfoldable pub render : Scalar → Text
unfolding decimal repr comma_join
render (boolean true) = codes "true"
render (boolean false) = codes "false"
render (text t) = t
render (number n) = decimal n
render (negative n) = b'-' ∷ decimal (suc n)
render (strings ts) = codes "[" ++ (comma_join (map repr ts) ++ codes "]")

-- `flat.update(other)`
unfoldable pub update {ℓ} : {V : Type ℓ} → Dict Text V → Dict Text V → Dict Text V
update flat [] = flat
update flat ((k, v) ∷ other) = update (insert k v flat) other

-- The loop of `_flatten` from the dict that it has so far.
unfoldable mutual
  unfolding update

  pub flatten_from : Text → Settings → Dict Text Scalar → Dict Text Scalar
  flatten_from prefix no_settings flat = flat
  flatten_from prefix (setting key value rest) flat =
      flatten_from prefix rest (flatten_one (prefix ++ key) value flat)

  pub flatten_one : Text → Setting → Dict Text Scalar → Dict Text Scalar
  flatten_one name (scalar v) flat = insert name v flat
  flatten_one name (table settings) flat =
      update flat (flatten_from (name ++ codes ".") settings [])

unfoldable pub flatten : Settings → Dict Text Scalar
unfolding flatten_from flatten_one
flatten settings = flatten_from [] settings []

-- A [[lean_lib]], or the package; what is missing is empty.
pub record Library : Type 0 where
  pub name : Text
  pub more_args : List Text
  pub options : Settings

pub record Lakefile : Type 0 where
  pub more_args : List Text
  pub options : Settings
  pub libraries : List Library

abbrev pub flag : Text × Scalar → Text
flag (key, value) = codes "-D" ++ (key ++ (codes "=" ++ render value))

-- None stands for the KeyError.
unfoldable pub flags_for : Lakefile → Option Text → Option (List Text)
unfolding flatten update render
flags_for config none = some (config.more_args ++ map flag (flatten config.options))
flags_for config (some lib) = do
  entry ← head? (keep (λ l. l.name == lib) config.libraries)
  some (
      (config.more_args ++ entry.more_args)
      ++ map flag (update (flatten config.options) (flatten entry.options)))
