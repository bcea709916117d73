-- ===== src/Export/Stage.antt =====
-- scripts/check_ensemble_export.py: `stage_inputs`. A file's content is the list of its bytes; what reading a file of the
-- source gives, and the hash, are parameters. The order of `iterdir` is that of the directory's list.
pub mod Reads
pub mod Refresh
pub mod Staged
use mathlib.Core.List.{foldl}
use sp1_lean.Base.{
  ℕ, zero, suc, ◌-◌, ◌≡◌, Bool, true, false, not, ◌&&◌, ◌||◌, Option, none, some, List, [], ◌∷◌,
  ◌++◌, map, Text, codes, nat_eq, list_eq, option_eq, ◌==◌, contains, all, any, keep, if◌then◌else◌,
  length, nat_beq,
}
use sp1_lean.Base.Dict.{Dict, lookup, has, insert}
use sp1_lean.Base.Order.{text_order}
use sp1_lean.Base.Order.Sorting.{sort_by}
use sp1_lean.Base.Results.{Result, raise, ok, ◌>>=◌, require}

-- An entry of a directory: a regular file, or a link, a directory or something else.
pub data File : Type 0 where
  regular : Text → File
  irregular : File

abbrev pub Files : Type 0
Files = Dict Text File

pub data Destination : Type 0 where
  missing link not_a_directory : Destination
  directory : Files → Destination

-- What `stage_inputs` raises.
pub data StageError : Type 0 where
  no_inventory destination_link destination_exists irregular_inputs : StageError
  unreadable hash_mismatch : Text → StageError

-- The dict that `stage_inputs` returns.
pub record Report : Type 0 where
  pub changed : List Text
  pub removed : List Text
  pub unchanged : ℕ

-- `Path(name).name == name`
unfoldable pub is_basename : Text → Bool
is_basename name = not (contains name b'/') && not (name == codes ".")

abbrev pub is_regular : File → Bool
is_regular (regular _) = true
is_regular irregular = false

-- `path.exists() and path.read_bytes() == content`, for a regular file
abbrev pub holds : Option File → Text → Bool
holds (some (regular t)) content = t == content
holds _ content = false

module _ (read : Text → Option Text) (sha256 : Text → Text) where
  unfoldable pub read_all : Dict Text Text → Result StageError (Dict Text Text)
  read_all [] = ok []
  read_all ((name, expected) ∷ hashes) =
      let rest = read_all hashes in
      elim (read name) [
        | none ↦ raise (unreadable name)
        | some content ↦
            if sha256 content == expected
            then (rest >>= λ contents. ok ((name, content) ∷ contents))
            else raise (hash_mismatch name)
      ]

-- `destination.mkdir(exist_ok=True)` and `destination.iterdir()`
unfoldable pub open_directory : Destination → Result StageError Files
open_directory missing = ok []
open_directory link = raise destination_link
open_directory not_a_directory = raise destination_exists
open_directory (directory files) = ok files

-- The files that stay, and the names of those that go.
unfoldable pub kept : Dict Text Text → Files → Files
kept contents = keep (λ f. has f.0 contents)

unfoldable pub dropped : Dict Text Text → Files → List Text
dropped contents files = map (λ f. f.0) (keep (λ f. not (has f.0 contents)) files)

-- `path.write_bytes(content)`, where the file does not hold it yet.
unfoldable pub refresh : Files × List Text → Text × Text → Files × List Text
refresh (files, changed) (name, content) =
    if holds (lookup name files) content
    then (files, changed)
    else (insert name (regular content) files, changed ++ (name ∷ []))

unfoldable pub refresh_all : Dict Text Text → Files × List Text → Files × List Text
unfolding refresh
refresh_all [] state = state
refresh_all (c ∷ contents) state = refresh_all contents (refresh state c)

unfoldable pub replace_files : Dict Text Text → Files → Files × Report
unfolding kept dropped refresh_all
replace_files contents files =
    let (after, changed) = refresh_all contents (kept contents files, []) in
    (
      after,
      record {
        changed = sort_by (λ t. t) changed;
        removed = sort_by (λ t. t) (dropped contents files);
        unchanged = length contents - length changed;
      },
    )

unfoldable pub stage_inputs :
    (Text → Option Text)
    → (Text → Text)
    → Destination
    → Dict Text Text
    → Result StageError (Files × Report)
unfolding is_basename read_all open_directory replace_files
stage_inputs read sha256 destination hashes = do
  _ ← require (not (nat_beq (length hashes) 0) && all (λ h. is_basename h.0) hashes) no_inventory
  contents ← read_all read sha256 hashes
  files ← open_directory destination
  _ ← require (all (λ f. is_regular f.1) files) irregular_inputs
  ok (replace_files contents files)
