-- ===== src/Build/Sources.antt =====
-- scripts/build_semantics.py: `read_graph`, over the files of the trees, and `read_touched`. A file is its path and its text.
use sp1_lean.Base.{
  ◌-◌, Bool, not, ◌||◌, Option, none, some, List, [], ◌∷◌, map, Text, codes, nat_beq, nat_eq,
  list_eq, ◌==◌, if◌then◌else◌, starts_with, length, take, contains, keep, any, gather,
}
use sp1_lean.Base.Dict.{insert}
use sp1_lean.Regex.{Regex, seq, group, lit, plus, opt, is_alnum, match, captured}
use sp1_lean.Texts.{is_space, ends_with, lines, strip}
use sp1_lean.Build.Graph.{Source, Graph}

-- A word with the spaces behind it.
abbrev pub word_re : Text → Regex
word_re word = seq (lit word) (plus is_space)

-- `IMPORT_RE`
unfoldable pub import_re : Regex
unfolding lit
import_re = seq (opt (word_re (codes "public"))) (
    seq (opt (word_re (codes "meta"))) (
      seq (word_re (codes "import")) (
        seq (opt (word_re (codes "all"))) (
          group "name" (
            plus (λ c.
              is_alnum c || nat_beq c b'_' || nat_beq c b'.' || nat_beq c 171 || nat_beq c 187))))))

unfoldable pub import_of : Text → Option Text
unfolding match import_re captured
import_of s = elim (match import_re s) [ none ↦ none | some c ↦ captured "name" c ]

abbrev pub header_words : List Text
header_words = codes "--" ∷ codes "/-" ∷ codes "module" ∷ codes "prelude" ∷ []

-- A line that is no import and does not end the header.
unfoldable pub in_header : Text → Bool
unfolding ends_with
in_header s = (s == []) || any (λ w. starts_with w s) header_words || ends_with (codes "-/") s

-- The imports of the header; the loop goes on behind it only to count the lines.
unfoldable pub header_imports : List Text → List Text
unfolding import_of in_header strip
header_imports [] = []
header_imports (line ∷ ls) =
    let rest = header_imports ls in
    elim (import_of (strip line)) [
      | some m ↦ m ∷ rest
      | none ↦ if in_header (strip line) then rest else []
    ]

-- `for line in f`: an empty text behind the last line feed is no line.
unfoldable pub drop_last_empty : List Text → List Text
drop_last_empty [] = []
drop_last_empty ([] ∷ []) = []
drop_last_empty (l ∷ ls) = l ∷ drop_last_empty ls

unfoldable pub file_lines : Text → List Text
unfolding lines drop_last_empty
file_lines text = drop_last_empty (lines text)

-- `path[:-5].replace("/", ".")`
unfoldable pub module_name : Text → Text
module_name path = map (λ c. if nat_beq c b'/' then b'.' else c) (take (length path - 5) path)

unfoldable pub read_source : Text × Text → Source
unfolding header_imports file_lines
read_source (path, text) = record {
  path = path;
  imports = header_imports (file_lines text);
  lines = length (file_lines text);
}

unfoldable pub add_sources : Graph → List (Text × Text) → Graph
unfolding module_name read_source
add_sources graph [] = graph
add_sources graph (f ∷ files) = add_sources (insert (module_name f.0) (read_source f) graph) files

abbrev pub lean_suffix : Text
lean_suffix = codes ".lean"

-- The files of the trees, in the order in which the loop meets them.
unfoldable pub read_graph : List (List (Text × Text)) → Graph
unfolding add_sources ends_with
read_graph trees = add_sources [] (gather (keep (λ f. ends_with lean_suffix f.0)) trees)

-- One line of the file of touched modules.
unfoldable pub touched_item : Text → Text
unfolding strip ends_with module_name
touched_item raw = if ends_with lean_suffix (strip raw) then module_name (strip raw) else strip raw

unfoldable pub read_touched : List Text → List Text → List Text
unfolding touched_item
read_touched raws modules =
    keep (λ m. contains modules m) (map touched_item (keep (λ r. not (strip r == [])) raws))
