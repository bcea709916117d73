-- ===== src/Pins/Check/Backend.antt =====
-- scripts/check_pins.py: what `check` asks of the Rust backend of Clean.
use mathlib.Core.List.{head?}
use sp1_lean.Base.{
  Bool, true, false, not, ◌&&◌, Option, none, some, List, [], ◌∷◌, ◌++◌, map, Text, codes, nat_beq,
  nat_eq, list_eq, option_eq, ◌==◌, or_else, ◌>>=◌, keep,
}
use sp1_lean.Base.Dict.{Dict, lookup, has}
use sp1_lean.Regex.{Regex, seq, group, lit, many, plus, ahead, captured}
use sp1_lean.Texts.{is_some, is_space, find_lines, at_line_end}
use sp1_lean.Pins.Sp1.{ensure, not_quote, quote, attributes, blocks_of}
use sp1_lean.Pins.Check.Values.{Package, CheckError, backend_differs, locked_backend_differs}
use sp1_lean.Pins.Check.Manifest.{remove_git}

unfoldable pub backend_re : Regex
unfolding lit
backend_re = seq (lit (codes "clean_backend")) (
    seq (many is_space) (
      seq (lit (codes "=")) (
        seq (many is_space) (
          seq (lit (codes "{")) (
            seq (group "pin" (plus (λ c. not (nat_beq c b'}') && not (nat_beq c 10))))
              (lit (codes "}")))))))

unfoldable pub backend_pin : Text → Dict Text Text
unfolding find_lines backend_re captured attributes
backend_pin cargo = elim (head? (find_lines backend_re cargo)) [
  | none ↦ []
  | some c ↦ attributes (or_else (captured "pin" c) [])
]

unfoldable pub backend_name_re : Regex
unfolding lit
backend_name_re =
    seq (lit (codes "name = "))
      (seq (lit quote) (seq (lit (codes "clean_backend")) (seq (lit quote) (ahead at_line_end))))

unfoldable pub source_re : Regex
unfolding lit
source_re =
    seq (lit (codes "source = "))
      (seq (lit quote) (seq (group "value" (plus not_quote)) (lit quote)))

unfoldable pub locked_source : Text → Option Text
unfolding find_lines captured
locked_source block = head? (find_lines source_re block) >>= captured "value"

unfoldable pub locked_sources : Text → List (Option Text)
unfolding blocks_of find_lines locked_source
locked_sources locked =
    map locked_source
      (keep (λ b. is_some (head? (find_lines backend_name_re b))) (blocks_of locked))

-- The `and` looks up the repository only if the revisions agree.
unfoldable pub same_backend : Dict Text Text → Package → Text → Option Bool
unfolding remove_git
same_backend pin clean revision = elim (lookup (codes "rev") pin == some revision) [
  | false ↦ some false
  | true ↦ do
    url ← clean.url
    some (
        remove_git (or_else (lookup (codes "git") pin) []) == remove_git url
        && not (has (codes "path") pin))
]

abbrev pub locked_at : Dict Text Text → Text → Text
locked_at pin revision =
    ((codes "git+" ++ or_else (lookup (codes "git") pin) []) ++ codes "?rev=")
    ++ (revision ++ (codes "#" ++ revision))

unfoldable pub backend_errors : Text → Text → Dict Text Package → Option (List CheckError)
unfolding backend_pin locked_sources same_backend
backend_errors cargo locked manifest = do
  clean ← lookup (codes "Clean") manifest
  revision ← clean.rev
  same ← same_backend (backend_pin cargo) clean revision
  some (
      ensure same backend_differs
      ++ ensure (locked_sources locked == (some (locked_at (backend_pin cargo) revision) ∷ []))
          locked_backend_differs)
