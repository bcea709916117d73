-- ===== src/Pins/Check.antt =====
-- scripts/check_pins.py: `check`, on the values that are read from the lakefile, the Lake manifest and the provenance file. None stands for the KeyError or TypeError
-- that `main` reports as invalid data.
pub mod Values
pub mod Manifest
pub mod Backend
pub mod Backed
pub mod Libraries
pub mod Agree
use mathlib.Core.List.{head?}
use sp1_lean.Base.{
  ℕ, zero, suc, ◌+◌, ◌-◌, Bool, true, false, not, ◌&&◌, ◌||◌, Option, none, some, List, [], ◌∷◌,
  ◌++◌, map, Text, codes, nat_beq, nat_eq, list_eq, option_eq, ◌==◌, if◌then◌else◌, or_else, ◌>>=◌,
  starts_with, length, drop, take, contains, all, keep, gather, ltb,
}
use sp1_lean.Base.Dict.{Dict, lookup, has}
use sp1_lean.Base.Results.{Result, raise, ok}
use sp1_lean.Regex.{
  Regex, seq, group, one, lit, many, plus, times, opt, ahead, is_digit, is_hex, captured, Captures,
}
use sp1_lean.Texts.{is_some, is_space, full_match, find_lines, at_line_end, ends_with, occurs}
use sp1_lean.Flags.{
  update, Scalar, boolean, text, number, Setting, scalar, table, Settings, no_settings, setting,
}
use sp1_lean.Pins.Sp1.{
  PinError, ensure, distinct, version_re, is_commit, not_quote, quote, attributes, blocks_of,
  sp1_pin_errors,
}
use sp1_lean.Pins.Sail.{Source, SailPins, SailError, validate_sail}
use sp1_lean.Pins.Check.Values.{
  Requirement, Package, LeanLib, Provenance, Root, CheckError, duplicate_package,
  duplicate_dependency, backend_differs, locked_backend_differs, vague_toolchain, not_module_system,
  bad_fingerprint, config_differs, test_options_differ, rvfi_options_differ, rvfi_roots_differ,
  not_git, short_revision, not_required, missing, path_dependency, url_mismatch, moving_branch,
  disagree, expected_commit, wrong_sources, misplaced_linter, sp1, sail_tree,
}
use sp1_lean.Pins.Check.Manifest.{
  remove_git, by_name, package_errors, candidate_re, is_tag, requirement_errors, manifest_errors,
}
use sp1_lean.Pins.Check.Backend.{backend_pin, locked_sources, same_backend, backend_errors}
use sp1_lean.Pins.Check.Libraries.{lib_names, library_errors}
use sp1_lean.Texts.{strip}

unfoldable pub is_toolchain : Text → Bool
unfolding full_match lit
is_toolchain toolchain =
    is_some
      (full_match (seq (lit (codes "leanprover/lean4:v")) (seq version_re candidate_re)) toolchain)

-- `re.fullmatch(r"[0-9a-f]{64}", digest)`
unfoldable pub is_digest : Text → Bool
unfolding full_match
is_digest digest = is_some (full_match (times 64 is_hex) digest)

unfoldable pub provenance_errors : Provenance → List CheckError
unfolding is_commit is_digest
provenance_errors p =
    ensure (is_commit p.compiler_revision) (expected_commit (codes "compilerRevision"))
    ++ (ensure (is_commit p.model_revision) (expected_commit (codes "modelRevision"))
        ++ (ensure (is_commit p.base_snapshot) (expected_commit (codes "baseSnapshot"))
            ++ (ensure p.pins.module_system not_module_system
                ++ ensure (is_digest p.pins.tree && ltb 0 p.pins.count) bad_fingerprint)))

abbrev pub tree_errors : Result SailError (Unit {0}) → List CheckError
tree_errors (raise e) = sail_tree e ∷ []
tree_errors (ok _) = []

unfoldable pub check : (Text → Text) → Root → Bool → Option (List CheckError)
unfolding manifest_errors backend_errors library_errors provenance_errors is_toolchain strip
    sp1_pin_errors validate_sail
check sha root source_only = do
  backend ← backend_errors root.cargo root.locked (by_name root.packages)
  libraries ← library_errors (lib_names root.libraries)
  some (
      manifest_errors root.requirements root.packages
      ++ (backend
          ++ (ensure (is_toolchain (strip root.toolchain)) vague_toolchain
              ++ (map sp1 (
                    sp1_pin_errors root.provenance.sp1_version root.provenance.sp1_revision
                      root.cargo root.locked)
                  ++ (provenance_errors root.provenance
                      ++ ((if source_only
                            then []
                            else tree_errors (validate_sail sha root.sail root.provenance.pins))
                          ++ (ensure (sha root.sail_config == root.provenance.config) config_differs
                              ++ libraries)))))))

-- What `main` returns.
unfoldable pub status : (Text → Text) → Root → Bool → ℕ
unfolding check
status sha root source_only = elim (check sha root source_only) [
  | none ↦ 1
  | some [] ↦ 0
  | some (_ ∷ _) ↦ 1
]
