-- ===== src/Flags/Toml.antt =====
-- scripts/lean_flags.py: `parse_minimal_toml`. The tables of the root are named by their keys, in place of the reference `current` to one of them.
pub mod Enough
pub mod Written
pub mod Plain
use sp1_lean.Base.{
  ℕ, zero, suc, ◌+◌, ◌-◌, Bool, true, false, not, ◌&&◌, ◌||◌, Option, none, some, List, [], ◌∷◌,
  ◌++◌, Text, codes, nat_eq, list_eq, leb, nat_beq, ◌==◌, String, or_else, all, if◌then◌else◌,
  length, take, drop, starts_with,
}
use sp1_lean.Base.Dict.{Dict, lookup, insert}
use sp1_lean.Base.Results.{Result, raise, ok, ◌>>=◌}
use sp1_lean.Regex.{
  Regex, one, seq, many, group, at_end, plus, is_digit, is_alnum, is_dot, Captures, captured, match,
}
use sp1_lean.Texts.{
  split_lines, is_space, is_some, cons_line, split_on, ends_with, number_from, strip,
}
use sp1_lean.Flags.{
  Scalar, boolean, text, number, negative, strings, Setting, scalar, table, Settings, no_settings,
  setting, find_setting, set_setting,
}

pub data TomlError : Type 0 where
  multi_line_array unsupported_element unsupported_value : Text → TomlError
  unsupported_line : ℕ → Text → TomlError
  -- `current`, or a part of a dotted key, is no dict; the root has no list to append to
  not_a_table not_a_list : TomlError

-- `_strip_comment` before the `strip`
unfoldable pub code_part : Bool → Text → Text
code_part quoted [] = []
code_part quoted (c ∷ line) =
    let now = if nat_beq c 34 then not quoted else quoted in
    let rest = code_part now line in if nat_beq c b'#' && not now then [] else c ∷ rest

unfoldable pub strip_comment : Text → Text
unfolding code_part strip
strip_comment line = strip (code_part false line)

-- `s[a:-b]`
abbrev pub inside : ℕ → ℕ → Text → Text
inside a b s = drop a (take (length s - b) s)

-- `_STRING_RE.match`, behind the opening quote: what stands before the closing one, and what is left.
unfoldable pub string_body : Bool → Text → Option (Text × Text)
string_body escaped [] = none
string_body escaped (c ∷ s) =
    let rest = string_body (not escaped && nat_beq c b'\\') s in
    if not escaped && nat_beq c 34
    then some ([], s)
    else if escaped && not (is_dot c)
    then none
    else elim rest [ none ↦ none | some r ↦ some (c ∷ r.0, r.1) ]

unfoldable pub string_match : Text → Option (Text × Text)
unfolding string_body
string_match [] = none
string_match (c ∷ s) = let rest = string_body false s in if nat_beq c 34 then rest else none

-- `.lstrip(",")`
unfoldable pub strip_commas : Text → Text
strip_commas [] = []
strip_commas (c ∷ s) = if nat_beq c b',' then strip_commas s else c ∷ s

-- The loop over the elements of an array; each takes two characters at least.
unfoldable pub elements : ℕ → Text → Result TomlError (List Text)
unfolding string_match strip_commas strip
elements n [] = ok []
elements zero (c ∷ rest) = raise (unsupported_element (c ∷ rest))
elements (suc n) (c ∷ rest) = elim (string_match (c ∷ rest)) [
  | none ↦ raise (unsupported_element (c ∷ rest))
  | some m ↦ do more ← elements n (strip (strip_commas (strip m.1))); ok (m.0 ∷ more)
]

-- `\d+`, and `int` of it
unfoldable pub digits_of : Text → Option ℕ
unfolding number_from
digits_of [] = none
digits_of (c ∷ s) = if all is_digit (c ∷ s) then some (number_from 0 (c ∷ s)) else none

abbrev pub negated : ℕ → Scalar
negated zero = number 0
negated (suc n) = negative n

-- `-?\d+`
unfoldable pub integer : Text → Option Scalar
unfolding digits_of
integer [] = none
integer (c ∷ s) =
    if nat_beq c b'-'
    then elim (digits_of s) [ none ↦ none | some n ↦ some (negated n) ]
    else elim (digits_of (c ∷ s)) [ none ↦ none | some n ↦ some (number n) ]

-- A text in quotes and nothing behind it, or a number.
unfoldable pub parse_plain : Text → Result TomlError Scalar
unfolding string_match integer
parse_plain raw = elim (string_match raw) [
  | some (t, []) ↦ ok (text t)
  | _ ↦ elim (integer raw) [ none ↦ raise (unsupported_value raw) | some v ↦ ok v ]
]

unfoldable pub parse_array : Text → Result TomlError Scalar
unfolding ends_with elements strip
parse_array raw = elim (ends_with (codes "]") raw) [
  | false ↦ raise (multi_line_array raw)
  | true ↦ do items ← elements (length raw) (strip (inside 1 1 raw)); ok (strings items)
]

unfoldable pub parse_value : Text → Result TomlError Scalar
unfolding strip parse_array parse_plain
parse_value given =
    let raw = strip given in
    if raw == codes "true"
    then ok (boolean true)
    else if raw == codes "false"
    then ok (boolean false)
    else if starts_with (codes "[") raw
    then parse_array raw
    else parse_plain raw

-- `_set_dotted`, along the parts of the key
unfoldable pub set_path : List Text → Setting → Settings → Result TomlError Settings
unfolding find_setting set_setting
set_path [] v t = ok t
set_path (k ∷ []) v t = ok (set_setting k v t)
set_path (k ∷ next ∷ ks) v t = elim (find_setting k t) [
  | none ↦ do inner ← set_path (next ∷ ks) v no_settings; ok (set_setting k (table inner) t)
  | some (table u) ↦ do inner ← set_path (next ∷ ks) v u; ok (set_setting k (table inner) t)
  | some (scalar _) ↦ raise not_a_table
]

unfoldable pub set_dotted : Settings → Text → Scalar → Result TomlError Settings
unfolding set_path split_on
set_dotted t key v = set_path (split_on b'.' key) (scalar v) t

-- `_KEY_RE`
abbrev pub is_key : ℕ → Bool
is_key c = is_alnum c || (nat_beq c b'_' || (nat_beq c b'.' || nat_beq c b'-'))

unfoldable pub key_re : Regex
key_re = seq (group "key" (plus is_key)) (
    seq (many is_space)
      (seq (one (nat_beq b'=')) (seq (many is_space) (seq (group "value" (many is_dot)) at_end))))

-- What a line asks for.
pub data Line : Type 0 where
  blank : Line
  array_header header : Text → Line
  assignment : Text → Scalar → Line

abbrev pub part : String → Captures → Text
part name c = or_else (captured name c) []

unfoldable pub line_of : ℕ → Text → Result TomlError Line
unfolding strip_comment strip key_re match parse_value
line_of lineno line =
    let stripped = strip_comment line in
    if stripped == []
    then ok blank
    else if starts_with (codes "[[") stripped
    then ok (array_header (strip (inside 2 2 stripped)))
    else if starts_with (codes "[") stripped
    then ok (header (strip (inside 1 1 stripped)))
    else elim (match key_re stripped) [
      | none ↦ raise (unsupported_line lineno line)
      | some m ↦ do v ← parse_value (part "value" m); ok (assignment (part "key" m) v)
    ]

-- The dict `root`: its tables and other values, and its lists of tables, which may begin with texts. A list hides a value of the same key.
pub record Toml : Type 0 where
  pub root : Settings
  pub arrays : Dict Text (List Text × List Settings)

-- Where `current` points to: the root, a table of it, the last table of a list, or no dict.
pub data Current : Type 0 where
  at_root at_other : Current
  at_table at_last : Text → Current

abbrev pub set_last : List Settings → Settings → List Settings
set_last [] t = []
set_last (u ∷ []) t = t ∷ []
set_last (u ∷ next ∷ us) t = u ∷ set_last (next ∷ us) t

unfoldable pub last_of : List Settings → Option Settings
last_of [] = none
last_of (u ∷ []) = some u
last_of (u ∷ next ∷ us) = last_of (next ∷ us)

-- `root.setdefault(name, []).append({})`
unfoldable pub open_array : Toml → Text → Result TomlError (Toml × Current)
unfolding find_setting
open_array toml name = elim (lookup name toml.arrays) [
  | some (ts, tables) ↦ ok (
    record toml { arrays = insert name (ts, tables ++ (no_settings ∷ [])) toml.arrays },
    at_last name,
  )
  | none ↦ elim (find_setting name toml.root) [
    | none ↦
        ok (record toml { arrays = insert name ([], no_settings ∷ []) toml.arrays }, at_last name)
    | some (scalar (strings ts)) ↦
        ok (record toml { arrays = insert name (ts, no_settings ∷ []) toml.arrays }, at_last name)
    | some _ ↦ raise not_a_list
  ]
]

-- `root.setdefault(name, {})`
unfoldable pub open_table : Toml → Text → Toml × Current
unfolding find_setting set_setting
open_table toml name = elim (lookup name toml.arrays) [
  | some _ ↦ (toml, at_other)
  | none ↦ elim (find_setting name toml.root) [
    | none ↦ (record toml { root = set_setting name (table no_settings) toml.root }, at_table name)
    | some (table _) ↦ (toml, at_table name)
    | some (scalar _) ↦ (toml, at_other)
  ]
]

unfoldable pub assign : Toml → Current → Text → Scalar → Result TomlError Toml
unfolding set_dotted find_setting set_setting last_of
assign toml at_root key v = do root ← set_dotted toml.root key v; ok (record toml { root = root })
assign toml at_other key v = raise not_a_table
assign toml (at_table name) key v = elim (find_setting name toml.root) [
  | some (table t) ↦ do
    u ← set_dotted t key v
    ok (record toml { root = set_setting name (table u) toml.root })
  | _ ↦ raise not_a_table
]
assign toml (at_last name) key v = elim (lookup name toml.arrays) [
  | none ↦ raise not_a_table
  | some (ts, tables) ↦ elim (last_of tables) [
    | none ↦ raise not_a_table
    | some t ↦ do
      u ← set_dotted t key v
      ok (record toml { arrays = insert name (ts, set_last tables u) toml.arrays })
  ]
]

unfoldable pub read_line : Toml → Current → Line → Result TomlError (Toml × Current)
unfolding open_array open_table assign
read_line toml current blank = ok (toml, current)
read_line toml current (array_header name) = open_array toml name
read_line toml current (header name) = ok (open_table toml name)
read_line toml current (assignment key v) = do next ← assign toml current key v; ok (next, current)

unfoldable pub read_lines : ℕ → Toml → Current → List Text → Result TomlError Toml
unfolding line_of read_line
read_lines lineno toml current [] = ok toml
read_lines lineno toml current (line ∷ rest) = do
  l ← line_of lineno line
  next ← read_line toml current l
  read_lines (suc lineno) next.0 next.1 rest

abbrev pub empty_toml : Toml
empty_toml = record { root = no_settings; arrays = [] }

unfoldable pub parse_minimal_toml : Text → Result TomlError Toml
unfolding split_lines read_lines
parse_minimal_toml given = read_lines 1 empty_toml at_root (split_lines false given)
