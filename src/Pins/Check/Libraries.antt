-- ===== src/Pins/Check/Libraries.antt =====
-- scripts/check_pins.py: what `check` asks of the libraries of the lakefile.
use sp1_lean.Base.{
  ℕ, suc, Bool, true, false, not, ◌&&◌, Option, none, some, List, [], ◌∷◌, ◌++◌, map, Text, codes,
  nat_beq, nat_eq, list_eq, option_eq, ◌==◌, if◌then◌else◌, or_else, ◌>>=◌, contains,
}
use sp1_lean.Base.Dict.{Dict, lookup}
use sp1_lean.Texts.{is_some, occurs}
use sp1_lean.Flags.{
  update, Scalar, boolean, text, number, negative, strings, find_setting, set_setting, Setting,
  scalar, table, Settings, no_settings, setting,
}
use sp1_lean.Pins.Sp1.{ensure}
use sp1_lean.Pins.Check.Values.{
  LeanLib, CheckError, test_options_differ, rvfi_options_differ, rvfi_roots_differ, wrong_sources,
  misplaced_linter,
}

-- The number of the keys of a dict, and one of its values.
unfoldable pub key_count : Settings → ℕ
key_count no_settings = 0
key_count (setting _ _ rest) = suc (key_count rest)

abbrev pub same_scalar : Scalar → Scalar → Bool
same_scalar (boolean true) (boolean b) = b
same_scalar (boolean false) (boolean b) = not b
same_scalar (text s) (text t) = s == t
same_scalar (number m) (number n) = nat_beq m n
same_scalar (negative m) (negative n) = nat_beq m n
same_scalar (strings s) (strings t) = s == t
same_scalar (boolean true) (number n) = nat_beq n 1
same_scalar (boolean false) (number n) = nat_beq n 0
same_scalar (number n) (boolean true) = nat_beq n 1
same_scalar (number n) (boolean false) = nat_beq n 0
same_scalar _ _ = false

-- `==` of dicts: as many keys, and for each of them equal values
unfoldable mutual
  unfolding find_setting key_count

  pub same_setting : Setting → Setting → Bool
  same_setting (scalar a) (scalar b) = same_scalar a b
  same_setting (table a) (table b) = nat_beq (key_count a) (key_count b) && within a b
  same_setting _ _ = false

  pub within : Settings → Settings → Bool
  within no_settings other = true
  within (setting k v rest) other =
      elim (find_setting k other) [ none ↦ false | some w ↦ same_setting v w ] && within rest other

-- `{"do": {"legacy": True}}`
abbrev pub legacy : Setting
legacy = table (
    setting (codes "do") (table (setting (codes "legacy") (scalar (boolean true)) no_settings))
      no_settings)

-- `library.get("leanOptions", {})`, and `options.get(name)`
abbrev pub options_of : LeanLib → Settings
options_of l = or_else l.options no_settings

abbrev pub same_options : Option Settings → Option Settings → Bool
same_options none none = true
same_options (some a) (some b) = same_setting (table a) (table b)
same_options _ _ = false

unfoldable pub lib_names : List LeanLib → Dict Text LeanLib
unfolding update
lib_names libraries = update [] (map (λ (l : LeanLib). (l.name, l)) libraries)

abbrev pub sail_dir : Text
sail_dir = codes ".lake/generated/sail"

abbrev pub is_true : Option Bool → Bool
is_true (some true) = true
is_true _ = false

abbrev pub sources_errors : LeanLib → List CheckError
sources_errors l =
    ensure (l.src_dir == some sail_dir && is_true l.module_system) (wrong_sources l.name)

-- `"linter" in opts.get("weak", {})`; a Boolean or a number has no `in`.
unfoldable pub linter_inside : Option Setting → Option Bool
unfolding find_setting occurs
linter_inside none = some false
linter_inside (some (table weak)) = some (is_some (find_setting (codes "linter") weak))
linter_inside (some (scalar (text t))) = some (occurs (codes "linter") t)
linter_inside (some (scalar (strings ts))) = some (contains ts (codes "linter"))
linter_inside (some (scalar _)) = none

abbrev pub may_lint : List Text
may_lint =
    codes "SP1CoreTest" ∷ codes "SP1CleanTest" ∷ codes "LeanRV64D" ∷ codes "LeanRV64DRvfi" ∷ []

unfoldable pub linter_errors : Text → Settings → Option (List CheckError)
unfolding find_setting linter_inside
linter_errors name opts =
    if contains may_lint name
    then some []
    else if is_some (find_setting (codes "linter") opts)
    then some (misplaced_linter name ∷ [])
    else linter_inside (find_setting (codes "weak") opts) >>= λ b.
        some (ensure (not b) (misplaced_linter name))

unfoldable pub all_linter_errors : Dict Text LeanLib → Option (List CheckError)
unfolding linter_errors
all_linter_errors [] = some []
all_linter_errors ((name, l) ∷ libraries) = do
  errors ← linter_errors name (options_of l)
  more ← all_linter_errors libraries
  some (errors ++ more)

unfoldable pub library_errors : Dict Text LeanLib → Option (List CheckError)
unfolding same_setting set_setting all_linter_errors
library_errors libraries = do
  model ← lookup (codes "LeanRV64D") libraries
  rvfi ← lookup (codes "LeanRV64DRvfi") libraries
  linters ← all_linter_errors libraries
  some (
      sources_errors model
      ++ (sources_errors rvfi
          ++ (ensure
                (same_options (lookup (codes "SP1CoreTest") libraries >>= λ l. some (options_of l))
                  (lookup (codes "SP1CleanTest") libraries >>= λ l. some (options_of l)))
                test_options_differ
              ++ (ensure
                    (same_setting (table (options_of rvfi))
                      (table (set_setting (codes "backward") legacy (options_of model))))
                    rvfi_options_differ
                  ++ (ensure (rvfi.roots == some (codes "LeanRV64D.RvfiDii" ∷ [])) rvfi_roots_differ
                      ++ linters)))))
