-- ===== src/Pins/Sp1.antt =====
-- scripts/check_pins.py: `sp1_pin_errors`, on the texts of Cargo.toml and Cargo.lock. The classes of the expressions are read as ASCII.
pub mod Pinned
use sp1_lean.Base.{
  ℕ, zero, suc, ◌+◌, ◌-◌, Bool, true, false, not, ◌&&◌, ◌||◌, Option, none, some, List, [], ◌∷◌,
  ◌++◌, map, Text, codes, nat_beq, String, nat_eq, list_eq, option_eq, ◌==◌, if◌then◌else◌, or_else,
  starts_with, length, drop, contains, all, any, gather,
}
use sp1_lean.Base.Dict.{Dict, lookup, has}
use sp1_lean.Regex.{
  Regex, seq, alt, group, one, lit, many, plus, times, opt, ahead, is_digit, is_hex, is_alnum,
  is_dot, captured, Captures,
}
use sp1_lean.Texts.{is_some, is_space, full_match, find_all, find_lines, at_line_end, split_word}
use sp1_lean.Flags.{update}

abbrev pub is_word : ℕ → Bool
is_word c = is_alnum c || nat_beq c b'_'

abbrev pub in_name : ℕ → Bool
in_name c = is_word c || nat_beq c b'-'

abbrev pub not_quote : ℕ → Bool
not_quote c = not (nat_beq c 34)

abbrev pub quote : Text
quote = 34 ∷ []

abbrev pub version_re : Regex
version_re =
    seq (plus is_digit)
      (seq (one (nat_beq b'.')) (seq (plus is_digit) (seq (one (nat_beq b'.')) (plus is_digit))))

-- `re.fullmatch(r"v\d+\.\d+\.\d+", version)`
unfoldable pub is_release : Text → Bool
unfolding full_match
is_release version = is_some (full_match (seq (one (nat_beq b'v')) version_re) version)

-- `re.fullmatch(r"[0-9a-f]{40}", revision)`
unfoldable pub is_commit : Text → Bool
unfolding full_match
is_commit revision = is_some (full_match (times 40 is_hex) revision)

-- `name = ...` for a name that starts with a word
abbrev pub crate_re : String → Regex
crate_re word = seq (lit (codes word)) (plus in_name)

unfoldable pub direct_re : Regex
unfolding lit
direct_re = seq (group "name" (alt (crate_re "sp1-") (crate_re "slop-"))) (
    seq (many is_space) (
      seq (lit (codes "="))
        (seq (many is_space) (seq (group "raw" (plus is_dot)) (ahead at_line_end)))))

unfoldable pub direct : Text → List (Text × Text)
unfolding find_lines direct_re captured
direct cargo =
    map (λ c. (or_else (captured "name" c) [], or_else (captured "raw" c) []))
      (find_lines direct_re cargo)

unfoldable pub attribute_re : Regex
unfolding lit
attribute_re = seq (group "key" (plus is_word)) (
    seq (many is_space) (
      seq (lit (codes "="))
        (seq (many is_space) (seq (lit quote) (seq (group "value" (plus not_quote)) (lit quote))))))

-- `dict(re.findall(...))`, for an expression with a key and a value
unfoldable pub pair_of : Captures → Text × Text
unfolding captured
pair_of c = (or_else (captured "key" c) [], or_else (captured "value" c) [])

unfoldable pub attributes : Text → Dict Text Text
unfolding find_all attribute_re captured update
attributes raw = update [] (map pair_of (find_all attribute_re raw))

unfoldable pub field_re : Regex
unfolding lit
field_re =
    seq
      (group "key" (alt (lit (codes "name")) (alt (lit (codes "version")) (lit (codes "source")))))
      (seq (lit (codes " = ")) (
        seq (lit quote)
          (seq (group "value" (plus not_quote)) (seq (lit quote) (ahead at_line_end)))))

unfoldable pub fields : Text → Dict Text Text
unfolding find_lines field_re captured update
fields block = update [] (map pair_of (find_lines field_re block))

abbrev pub repository : Text
repository = codes "https://github.com/succinctlabs/sp1"

pub data PinError : Type 0 where
  unstable_release short_commit missing_or_duplicate not_locked : PinError
  direct_differs duplicate_locked locked_differs : Text → PinError

-- `if not b: errors.append(e)`
abbrev pub ensure {ℓ} : {E : Type ℓ} → Bool → E → List E
ensure true e = []
ensure false e = e ∷ []

-- `len(set(names)) == len(names)`
unfoldable pub distinct : List Text → Bool
distinct [] = true
distinct (n ∷ names) = not (contains names n) && distinct names

-- The name of a block that the loop does not pass over.
unfoldable pub crate_name : Text → Option Text
unfolding fields
crate_name block =
    let name = or_else (lookup (codes "name") (fields block)) [] in
    if (starts_with (codes "sp1-") name || starts_with (codes "slop-") name)
      && not (name == codes "sp1-clean-comparison")
    then some name
    else none

unfoldable pub blocks_of : Text → List Text
unfolding split_word
blocks_of locked = split_word (codes "[[package]]") locked

module _ (version revision : Text) where
  unfoldable pub is_pinned : Dict Text Text → Bool
  is_pinned attributes =
      lookup (codes "git") attributes == some repository
      && lookup (codes "rev") attributes == some revision
      && not (
          has (codes "path") attributes
          || has (codes "branch") attributes
          || has (codes "tag") attributes)

  unfoldable pub direct_errors : Text × Text → List PinError
  unfolding is_pinned attributes
  direct_errors (name, raw) = ensure (is_pinned (attributes raw)) (direct_differs name)

  abbrev pub expected : Text
  expected =
      (((codes "git+" ++ repository) ++ codes "?rev=") ++ revision) ++ (codes "#" ++ revision)

  -- `version.removeprefix("v")`
  abbrev pub bare_version : Text
  bare_version = if starts_with (codes "v") version then drop 1 version else version

  unfoldable pub is_locked : Dict Text Text → Bool
  is_locked fields =
      lookup (codes "source") fields == some expected
      && lookup (codes "version") fields == some bare_version

  -- The loop over the blocks, with the names found so far.
  unfoldable pub locked_loop : List Text → List Text → List Text × List PinError
  unfolding crate_name is_locked fields
  locked_loop found [] = (found, [])
  locked_loop found (block ∷ blocks) = elim (crate_name block) [
    | none ↦ locked_loop found blocks
    | some name ↦
        let (names, errors) = locked_loop (name ∷ found) blocks in
        (
          names,
          ensure (not (contains found name)) (duplicate_locked name)
              ++ (ensure (is_locked (fields block)) (locked_differs name) ++ errors),
        )
  ]

  unfoldable pub sp1_pin_errors : Text → Text → List PinError
  unfolding is_release is_commit direct distinct direct_errors locked_loop blocks_of
  sp1_pin_errors cargo locked =
      let found = locked_loop [] (blocks_of locked) in
      ensure (is_release version) unstable_release
      ++ (ensure (is_commit revision) short_commit
          ++ (ensure
                (not (nat_beq (length (direct cargo)) 0)
                  && distinct (map (λ d. d.0) (direct cargo)))
                missing_or_duplicate
              ++ (gather direct_errors (direct cargo)
                  ++ (found.1
                      ++ ensure (all (λ d. contains found.0 d.0) (direct cargo)) not_locked))))
