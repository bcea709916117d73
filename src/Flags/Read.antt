-- ===== src/Flags/Read.antt =====
-- scripts/lean_flags.py: the values of a lakefile that `flags_for` reads, from the dict that `parse_minimal_toml` returns.
pub mod Options
use sp1_lean.Base.{ℕ, Bool, Option, none, some, List, [], ◌∷◌, Text, codes, nat_eq, list_eq, ◌>>=◌}
use sp1_lean.Base.Dict.{Dict, lookup}
use sp1_lean.Flags.{
  text, strings, Setting, scalar, table, Settings, no_settings, find_setting, Library, Lakefile,
}
use sp1_lean.Flags.Toml.{Toml}

-- The values that `flags_for` reads by `get`; None stands for a value of another type than it expects.
unfoldable pub args_of : Option Setting → Option (List Text)
args_of none = some []
args_of (some (scalar (strings ts))) = some ts
args_of (some _) = none

unfoldable pub options_of : Option Setting → Option Settings
options_of none = some no_settings
options_of (some (table t)) = some t
options_of (some (scalar _)) = none

unfoldable pub library_of : Settings → Option Library
unfolding find_setting args_of options_of
library_of entry = elim (find_setting (codes "name") entry) [
  | some (scalar (text name)) ↦ do
    args ← args_of (find_setting (codes "moreLeanArgs") entry)
    options ← options_of (find_setting (codes "leanOptions") entry)
    some (record { name = name; more_args = args; options = options })
  | _ ↦ none
]

unfoldable pub all_libraries : List Settings → Option (List Library)
unfolding library_of
all_libraries [] = some []
all_libraries (entry ∷ entries) = do l ← library_of entry; ls ← all_libraries entries; some (l ∷ ls)

-- `config.get("lean_lib", [])`
unfoldable pub libraries_of : Toml → Option (List Library)
unfolding all_libraries find_setting
libraries_of toml = elim (lookup (codes "lean_lib") toml.arrays) [
  | some ([], tables) ↦ all_libraries tables
  | some (_ ∷ _, tables) ↦ none
  | none ↦ elim (find_setting (codes "lean_lib") toml.root) [ none ↦ some [] | some _ ↦ none ]
]

-- `config.get(key)` of a key of the package
unfoldable pub package_value : Toml → Text → Option (Option Setting)
unfolding find_setting
package_value toml key = elim (lookup key toml.arrays) [
  | some _ ↦ none
  | none ↦ some (find_setting key toml.root)
]

unfoldable pub package_args : Toml → Option (List Text)
unfolding package_value args_of
package_args toml = do value ← package_value toml (codes "moreLeanArgs"); args_of value

unfoldable pub package_options : Toml → Option Settings
unfolding package_value options_of
package_options toml = do value ← package_value toml (codes "leanOptions"); options_of value

unfoldable pub lakefile_of : Toml → Option Lakefile
unfolding package_args package_options libraries_of
lakefile_of toml = do
  args ← package_args toml
  options ← package_options toml
  libraries ← libraries_of toml
  some (record { more_args = args; options = options; libraries = libraries })
