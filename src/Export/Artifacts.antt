-- ===== src/Export/Artifacts.antt =====
-- scripts/check_ensemble_export.py: `artifact_hashes`, `check_source` and `verify`. A generation is its
-- directory with the record of its generation.json; the current source identity, the hash
-- and the inventory, which the script takes from `artifact_names`, are parameters.
pub mod Names
pub mod Verified
pub mod Digest
mod Tests
use sp1_lean.Texts.{ends_with}
use sp1_lean.Base.{
  ℕ, Bool, true, false, not, ◌&&◌, ◌||◌, Option, none, some, List, [], ◌∷◌, ◌++◌, map, Text, codes,
  nat_eq, list_eq, option_eq, ◌==◌, contains, all, any, keep, if◌then◌else◌,
}
use sp1_lean.Base.Dict.{Dict, lookup}
use sp1_lean.Base.Results.{Result, raise, ok, ◌>>=◌, require}
use sp1_lean.Trust.Policy.{same_set, repeats}
use sp1_lean.Export.Stage.{
  File, regular, irregular, Files, Destination, directory, StageError, Report, stage_inputs,
}
use sp1_lean.Export.Artifacts.Names.{artifact_names}

pub data ExportError : Type 0 where
  duplicate_names unexpected_inventory not_regular stale_source : ExportError
  hashes_differ nondeterministic same_directory output_exists : ExportError
  not_staged : StageError → ExportError

-- `p.suffix in {".rs", ".json"}`
abbrev pub has_suffix : Text → Bool
has_suffix n =
    (ends_with (codes ".rs") n && not (n == codes ".rs"))
    || (ends_with (codes ".json") n && not (n == codes ".json"))

unfoldable pub is_artifact : Text → Bool
unfolding ends_with
is_artifact n =
    has_suffix n
    && (not (n == codes "generation.json" || n == codes "provenance.json")
        && not (ends_with (codes ".timing.json") n))

module _ (sha256 : Text → Text) where
  -- `{name: digest(directory / name) for name in names}`; a name that is no regular file is refused, a directory by the read.
  unfoldable pub digests : Files → List Text → Result ExportError (Dict Text Text)
  digests files [] = ok []
  digests files (n ∷ names) =
      let rest = digests files names in
      elim (lookup n files) [
        | some (regular t) ↦ (rest >>= λ hashes. ok ((n, sha256 t) ∷ hashes))
        | _ ↦ raise not_regular
      ]

  unfoldable pub artifact_hashes : List Text → Files → Result ExportError (Dict Text Text)
  unfolding digests is_artifact same_set repeats
  artifact_hashes names files = do
    _ ← require (not (repeats names)) duplicate_names
    _ ← require (same_set (keep is_artifact (map (λ f. f.0) files)) names) unexpected_inventory
    digests files names

-- Equality of dicts of texts.
abbrev pub same_texts : Dict Text Text → Dict Text Text → Bool
same_texts a b = all (λ c. lookup c.0 b == some c.1) a && all (λ c. lookup c.0 a == some c.1) b

-- The record of generation.json.
pub record Generation : Type 0 where
  pub source : Dict Text Text
  pub executable : Text
  pub artifacts : Dict Text Text

abbrev pub same_generation : Generation → Generation → Bool
same_generation g h =
    same_texts g.source h.source
    && (g.executable == h.executable && same_texts g.artifacts h.artifacts)

module _ (identity : Dict Text Text) (sha256 : Text → Text) (names : List Text) where
  -- One pass of the loop of `verify`.
  unfoldable pub authenticate : Files → Generation → Result ExportError (Dict Text Text)
  unfolding artifact_hashes
  authenticate files g = do
    _ ← require (same_texts g.source identity) stale_source
    hashes ← artifact_hashes sha256 names files
    _ ← require (same_texts g.artifacts hashes) hashes_differ
    ok hashes

  -- `(first / name).read_bytes()`
  abbrev pub read_from : Files → Text → Option Text
  read_from files n = elim (lookup n files) [
    | none ↦ none
    | some f ↦ elim f [ regular t ↦ some t | irregular ↦ none ]
  ]

  -- Staging into the directory that `mkdir` has just made.
  unfoldable pub stage_new : Files → Dict Text Text → Result ExportError Files
  unfolding stage_inputs
  stage_new files hashes = elim (stage_inputs (read_from files) sha256 (directory []) hashes) [
    | raise e ↦ raise (not_staged e)
    | ok r ↦ ok r.0
  ]

  -- The end of `verify`: what is published is the files, and the record, to which "deterministic" is added.
  unfoldable pub publish :
      Files → Generation → Bool → Bool → Result ExportError (Files × Generation)
  unfolding stage_new
  publish first g same_path out_exists = do
    _ ← require (not same_path) same_directory
    _ ← require (not out_exists) output_exists
    out ← stage_new first g.artifacts
    ok (out, g)

  unfoldable pub verify :
      Files
      → Generation
      → Files
      → Generation
      → Bool
      → Bool
      → Result ExportError (Files × Generation)
  unfolding authenticate publish
  verify first g second h same_path out_exists = do
    _ ← authenticate first g
    _ ← authenticate second h
    _ ← require (same_generation g h) nondeterministic
    publish first g same_path out_exists
