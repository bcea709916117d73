-- ===== src/Pins/Tests.antt =====
-- A repository whose pins agree, and trees of the Sail model.
use sp1_lean.Base.{
  ℕ, zero, suc, ◌+◌, ◌≡◌, ◌↔◌, refl, ap, Bool, true, false, Option, none, some, List, [], ◌∷◌, ◌++◌,
  map, Memᴰ, Memᴰ-nil, Text, codes, replicate, arith, nat_eq, list_eq, ◌==◌, there, inl, inr, subst,
  sym, contains, contains_iff,
}
use sp1_lean.Base.Results.{ok}
use sp1_lean.Flags.{no_settings, setting, scalar, table, boolean}
use sp1_lean.Pins.Sp1.{sp1_pin_errors, not_locked, locked_differs, short_commit}
use sp1_lean.Pins.Sp1.Pinned.{IsPinned, sp1_pin_errors-IsPinned}
use sp1_lean.Pins.Sail.{regular, directory, Source, SailPins, validate_sail}
use sp1_lean.Pins.Check.Values.{Package, LeanLib, Root}
use sp1_lean.Pins.Check.{check, status, is_toolchain, provenance_errors}
use sp1_lean.Texts.{strip}
use sp1_lean.Pins.Check.Manifest.{manifest_errors, by_name}
use sp1_lean.Pins.Check.Backend.{backend_errors}
use sp1_lean.Pins.Check.Libraries.{library_errors, lib_names}
use sp1_lean.Pins.Check.Agree.{IsReproducible, status-IsReproducible}

abbrev commit : Text
commit = replicate 40 b'a'

abbrev digest : Text
digest = replicate 64 b'0'

abbrev quoted : Text → Text
quoted t = 34 ∷ (t ++ (34 ∷ []))

abbrev at_commit : Text → Text
at_commit git =
    codes "{ git = " ++ (quoted git ++ (codes ", rev = " ++ (quoted commit ++ codes " }")))

abbrev sp1_git : Text
sp1_git = codes "https://github.com/succinctlabs/sp1"

abbrev clean_git : Text
clean_git = codes "https://clean"

abbrev cargo : Text
cargo =
    codes "sp1-sdk = "
    ++ (at_commit sp1_git
        ++ (10 ∷ (codes "clean_backend = " ++ (at_commit clean_git ++ (10 ∷ [])))))

abbrev locked_at : Text → Text
locked_at git = codes "git+" ++ (git ++ (codes "?rev=" ++ (commit ++ (codes "#" ++ commit))))

abbrev locked_package : Text → Text → Text
locked_package name git =
    codes "[[package]]"
    ++ (10
        ∷ (codes "name = "
            ++ (quoted name
                ++ (10
                    ∷ (codes "version = "
                        ++ (quoted (codes "1.2.3")
                            ++ (10
                                ∷ (codes "source = "
                                    ++ (quoted (locked_at git) ++ (10 ∷ []))))))))))

abbrev locked : Text
locked =
    locked_package (codes "sp1-sdk") sp1_git ++ locked_package (codes "clean_backend") clean_git

sp1_pins_test : sp1_pin_errors (codes "v1.2.3") commit cargo locked ≡ []
unfolding sp1_pin_errors sp1_lean.Regex.times contains sp1_lean.Base.gather sp1_lean.Base.option_beq
    sp1_lean.Base.Dict.lookup sp1_lean.Base.Dict.insert sp1_lean.Base.list_beq
    sp1_lean.Base.Dict.has sp1_lean.Base.starts_with sp1_lean.Base.all sp1_lean.Pins.Sp1.pair_of
sp1_pins_test = refl

not_locked_test :
    sp1_pin_errors (codes "v1.2.4") commit cargo (locked_package (codes "sp1-core") sp1_git)
    ≡ locked_differs (codes "sp1-core") ∷ not_locked ∷ []
unfolding sp1_pin_errors sp1_lean.Regex.times contains sp1_lean.Base.gather sp1_lean.Base.option_beq
    sp1_lean.Base.Dict.lookup sp1_lean.Base.Dict.insert sp1_lean.Base.list_beq
    sp1_lean.Base.Dict.has sp1_lean.Base.starts_with sp1_lean.Base.all sp1_lean.Pins.Sp1.pair_of
not_locked_test = refl

sp1_pin_errors-IsPinned_example :
    (sp1_pin_errors (codes "v1.2.3") commit cargo locked ≡ [])
    ↔ IsPinned (codes "v1.2.3") commit cargo locked
sp1_pin_errors-IsPinned_example = sp1_pin_errors-IsPinned (codes "v1.2.3") commit cargo locked

abbrev module_text : Text
module_text = codes "module" ++ (10 ∷ codes "def x")

abbrev sail_tree : Source
sail_tree = record {
  is_link = false;
  models_link = false;
  root = some (regular module_text);
  entries =
      (codes "LeanRV64D" ∷ codes "B.lean" ∷ [], regular module_text)
      ∷ (codes "LeanRV64D" ∷ codes "sub" ∷ [], directory)
      ∷ [];
}

abbrev constant : Text → Text
constant _ = digest

abbrev sail_pins : SailPins
sail_pins = record { tree = digest; count = 2; module_system = true }

sail_tree_test : validate_sail constant sail_tree sail_pins ≡ ok tt
unfolding validate_sail sp1_lean.Base.any sp1_lean.Base.list_beq sp1_lean.Base.Order.Sorting.sort_by
    sp1_lean.Base.choose sp1_lean.Base.all sp1_lean.Base.starts_with
sail_tree_test = refl

abbrev git_package : Text → Text → Package
git_package name url = record {
  name = name;
  kind = some (codes "git");
  url = some url;
  rev = some commit;
  input_rev = some (codes "v4.1.0");
  inherited = false;
}

abbrev library : Text → Option Text → Option (List Text) → LeanLib
library name src roots = record {
  name = name;
  src_dir = src;
  module_system = some true;
  options = none;
  roots = roots;
}

abbrev sail_dir : Option Text
sail_dir = some (codes ".lake/generated/sail")

abbrev rvfi : LeanLib
rvfi = record {
  name = codes "LeanRV64DRvfi";
  src_dir = sail_dir;
  module_system = some true;
  options = some (
      setting (codes "backward")
        (table (
          setting (codes "do")
            (table (setting (codes "legacy") (scalar (boolean true)) no_settings)) no_settings))
        no_settings);
  roots = some (codes "LeanRV64D.RvfiDii" ∷ []);
}

abbrev agreeing : Root
agreeing = record {
  requirements =
      record { name = codes "Clean"; git = some (codes "https://clean.git"); rev = some commit }
      ∷ record {
        name = codes "mathlib";
        git = some (codes "https://m");
        rev = some (codes "v4.1.0");
      }
      ∷ [];
  libraries =
      library (codes "LeanRV64D") sail_dir none ∷ rvfi ∷ library (codes "SP1Clean") none none ∷ [];
  packages =
      git_package (codes "mathlib") (codes "https://m.git")
      ∷ git_package (codes "Clean") clean_git
      ∷ [];
  cargo = cargo;
  locked = locked;
  toolchain = codes "leanprover/lean4:v4.1.0-rc2" ++ (10 ∷ []);
  provenance = record {
    compiler_revision = commit;
    model_revision = commit;
    base_snapshot = commit;
    pins = sail_pins;
    config = digest;
    sp1_version = codes "v1.2.3";
    sp1_revision = commit;
  };
  sail = sail_tree;
  sail_config = codes "config";
}

manifest_test : manifest_errors agreeing.requirements agreeing.packages ≡ []
unfolding manifest_errors contains sp1_lean.Base.list_beq sp1_lean.Base.gather
    sp1_lean.Base.option_beq sp1_lean.Regex.times sp1_lean.Base.Dict.lookup by_name
    sp1_lean.Base.Dict.insert sp1_lean.Pins.Check.Manifest.candidate_re
manifest_test = refl

backend_test : backend_errors cargo locked (by_name agreeing.packages) ≡ some []
unfolding backend_errors sp1_lean.Base.Dict.lookup sp1_lean.Base.Dict.insert sp1_lean.Base.list_beq
    sp1_lean.Base.option_beq sp1_lean.Base.Dict.has sp1_lean.Base.keep sp1_lean.Base.starts_with
    by_name sp1_lean.Pins.Sp1.pair_of sp1_lean.Pins.Check.Backend.backend_name_re
    sp1_lean.Pins.Check.Backend.source_re
backend_test = refl

library_test : library_errors (lib_names agreeing.libraries) ≡ some []
unfolding library_errors sp1_lean.Base.Dict.lookup lib_names sp1_lean.Base.Dict.insert
    sp1_lean.Base.list_beq contains sp1_lean.Base.option_beq
library_test = refl

toolchain_test : is_toolchain (strip agreeing.toolchain) ≡ true
unfolding is_toolchain strip sp1_lean.Pins.Check.Manifest.candidate_re
toolchain_test = refl

provenance_test : provenance_errors agreeing.provenance ≡ []
unfolding provenance_errors sp1_lean.Regex.times
provenance_test = refl

-- A check whose parts report nothing.
status_zero :
    (sha : Text → Text) (root : Root)
    → backend_errors root.cargo root.locked (by_name root.packages) ≡ some []
    → library_errors (lib_names root.libraries) ≡ some []
    → manifest_errors root.requirements root.packages ≡ []
    → is_toolchain (strip root.toolchain) ≡ true
    → sp1_pin_errors root.provenance.sp1_version root.provenance.sp1_revision root.cargo root.locked
      ≡ []
    → provenance_errors root.provenance ≡ []
    → validate_sail sha root.sail root.provenance.pins ≡ ok tt
    → (sha root.sail_config == root.provenance.config) ≡ true
    → status sha root false ≡ 0
unfolding status check
status_zero sha root a b c d e f g h = rw (a, check, b, c, d, e, f, g, h, status) refl

agreeing_test : status constant agreeing false ≡ 0
unfolding sp1_lean.Base.list_beq
agreeing_test =
    status_zero constant agreeing backend_test library_test manifest_test toolchain_test
      sp1_pins_test provenance_test sail_tree_test refl

status-IsReproducible_example : IsReproducible constant agreeing false
status-IsReproducible_example = status-IsReproducible constant agreeing false agreeing_test
