-- ===== src/Release/Surface.antt =====
-- scripts/check_release_surface.py: `instruction_export_errors` and what `main` asks of the sources, which are texts that were read.
pub mod Released
use sp1_lean.Base.{
  ℕ, String, Bool, true, false, not, ◌&&◌, Option, none, some, List, [], ◌∷◌, ◌++◌, map, gather,
  Text, codes, leb, nat_beq, nat_eq, list_eq, ◌==◌, contains, or_else, if◌then◌else◌,
}
use sp1_lean.Base.Dict.{Dict}
use sp1_lean.Regex.{
  Regex, one, seq, many, few, group, ahead, lit, plus, is_alnum, Captures, captured,
}
use sp1_lean.Texts.{is_space, is_some, search, find_all, find_lines, at_line_end}
use sp1_lean.Pins.Sp1.{ensure, is_word, not_quote, quote}
use sp1_lean.Export.Artifacts.Names.{snake}
use sp1_lean.Release.{Review, Inventory, Native, CoverageError, coverage_errors}
use sp1_lean.Release.Chips.{Chip, chips}

pub data Failure : Type 0 where
  coverage : CoverageError → Failure
  invalid_coverage unknown_ids ids_differ exporters_differ registrations_differ other_ensemble :
      Failure
  missing_file : Text → Failure
  missing_anchor : Text → Failure

-- `\("([^"]+_instruction\.rs)",`
unfoldable pub export_re : Regex
unfolding lit
export_re = seq (lit (40 ∷ quote)) (
    seq (group "file" (seq (plus not_quote) (lit (codes "_instruction.rs"))))
      (lit (quote ++ codes ",")))

abbrev pub blank : Regex
blank = many is_space

-- `generated_instruction!\(\s*(\w+),\s*"([^"]+)",\s*(\w+)\s*\);`
unfoldable pub registration_re : Regex
unfolding lit
registration_re = seq (lit (codes "generated_instruction!(")) (
    seq blank (
      seq (group "module" (plus is_word)) (
        seq (lit (codes ",")) (
          seq blank (
            seq (lit quote) (
              seq (group "file" (plus not_quote)) (
                seq (lit (quote ++ codes ",")) (
                  seq blank
                    (seq (group "program" (plus is_word)) (seq blank (lit (codes ");"))))))))))))

-- `use\s+\$module::Ensemble\s+as\s+\$program\s*;`
unfoldable pub ensemble_re : Regex
unfolding lit
ensemble_re = seq (lit (codes "use")) (
    seq (plus is_space) (
      seq (lit (codes "$module::Ensemble")) (
        seq (plus is_space) (
          seq (lit (codes "as"))
            (seq (plus is_space) (seq (lit (codes "$program")) (seq blank (lit (codes ";")))))))))

-- The text of a group of a match.
abbrev pub part : String → Captures → Text
part name c = or_else (captured name c) []

pub record Registration : Type 0 where
  pub unit : Text
  pub file : Text
  pub program : Text

unfoldable pub same_registrations : List Registration → List Registration → Bool
same_registrations [] [] = true
same_registrations (a ∷ rest) (b ∷ others) =
    ((a.unit == b.unit) && ((a.file == b.file) && (a.program == b.program)))
    && same_registrations rest others
same_registrations _ _ = false

abbrev pub file_of : Chip → Text
file_of c = snake c.name ++ codes "_instruction.rs"

abbrev pub registration_of : Chip → Registration
registration_of c = record {
  unit = codes "generated_" ++ snake c.name;
  file = file_of c;
  program = c.name ++ codes "Instruction";
}

unfoldable pub exported : Text → List Text
unfolding find_all export_re
exported lean = map (part "file") (find_all export_re lean)

unfoldable pub registrations : Text → List Registration
unfolding find_all registration_re
registrations rust =
    map (λ c. record { unit = part "module" c; file = part "file" c; program = part "program" c })
      (find_all registration_re rust)

unfoldable pub instruction_export_errors : Text → Text → List Failure
unfolding exported registrations same_registrations search ensemble_re
instruction_export_errors lean rust =
    ensure (exported lean == map file_of chips) exporters_differ
    ++ (ensure (same_registrations (registrations rust) (map registration_of chips))
          registrations_differ
        ++ ensure (is_some (search ensemble_re rust)) other_ensemble)

-- `inductive InstructionChipId where\n(?P<body>.*?)\nderiving` with `re.S`
unfoldable pub enum_re : Regex
unfolding lit
enum_re =
    seq (lit (codes "inductive InstructionChipId where" ++ (10 ∷ [])))
      (seq (group "body" (few (λ _. true))) (lit (10 ∷ codes "deriving")))

-- `^\s*\|\s*([A-Za-z0-9_]+)\s*$` with `re.M`
unfoldable pub id_re : Regex
unfolding lit
id_re = seq blank (
    seq (lit (codes "|"))
      (seq blank (seq (group "id" (plus is_word)) (seq blank (ahead at_line_end)))))

unfoldable pub chip_ids : Text → Option (List Text)
unfolding search enum_re find_lines id_re
chip_ids identity = elim (search enum_re identity) [
  | none ↦ none
  | some c ↦ some (map (part "id") (find_lines id_re (part "body" c)))
]

unfoldable pub identity_errors : Text → List Failure
unfolding chip_ids
identity_errors identity = elim (chip_ids identity) [
  | none ↦ unknown_ids ∷ []
  | some ids ↦ ensure (ids == map (λ (c : Chip). c.id) chips) ids_differ
]

-- `\b` behind a letter
abbrev pub at_word_end : Text → Bool
at_word_end [] = true
at_word_end (c ∷ s) = not (is_word c)

-- `^theorem\s+...\b` with `re.M`
unfoldable pub has_anchor : Text → Text → Bool
unfolding find_lines lit
has_anchor anchor source =
    not
      (elim (find_lines
        (seq (lit (codes "theorem")) (seq (plus is_space) (seq (lit anchor) (ahead at_word_end))))
        source) [ [] ↦ true | _ ∷ _ ↦ false ])

abbrev pub documented : List Text
documented = codes "ShiftLeft" ∷ codes "ShiftRight" ∷ codes "DivRem" ∷ []

-- The four files that a chip needs.
abbrev pub files_of : Chip → List Text
files_of c =
    let name = c.name ++ codes "Chip" in
    (codes "SP1Clean/Proofs/Chips/" ++ (name ++ codes "/Formal.lean"))
    ∷ (codes "SP1Clean/Alignment/Chips/" ++ (name ++ codes "/Bridge.lean"))
    ∷ (codes "SP1Clean/Proofs/Chips/" ++ (name ++ codes "/Complete.lean"))
    ∷ ((if contains documented c.name
          then codes "SP1Clean/Proofs/Chips/"
          else codes "SP1Clean/Native/Chips/")
        ++ (name ++ codes "/Defs.lean"))
    ∷ []

-- The values that `main` reads for `coverage_errors`.
pub record Coverage : Type 0 where
  pub review : Review
  pub inventories : Dict Text Inventory
  pub revision : Text
  pub native : Option Native

pub record Sources : Type 0 where
  pub coverage : Option Coverage
  pub identity : Text
  pub exporter : Text
  pub comparison : Text
  pub nonvacuity : Text

unfoldable pub chip_errors : (Text → Bool) → Text → Chip → List Failure
unfolding has_anchor
chip_errors is_file nonvacuity c =
    gather (λ path. ensure (is_file path) (missing_file path)) (files_of c)
    ++ ensure (has_anchor c.anchor nonvacuity) (missing_anchor c.anchor)

module _ (digest : Text → Text) (is_file : Text → Bool) where
  unfoldable pub review_errors : Option Coverage → List Failure
  unfolding coverage_errors
  review_errors none = invalid_coverage ∷ []
  review_errors (some c) =
      map coverage (coverage_errors digest is_file c.review c.inventories c.revision c.native)

  unfoldable pub failures : Sources → List Failure
  unfolding review_errors identity_errors instruction_export_errors chip_errors
  failures s =
      review_errors s.coverage
      ++ (identity_errors s.identity
          ++ (instruction_export_errors s.exporter s.comparison
              ++ gather (chip_errors is_file s.nonvacuity) chips))

  unfoldable pub release_status : Sources → ℕ
  unfolding failures
  release_status s = elim (failures s) [ [] ↦ 0 | _ ∷ _ ↦ 1 ]
