-- ===== src/Flags/Tests.antt =====
-- A lakefile with one library that changes one of two options.
use sp1_lean.Base.{
  ◌≡◌, refl, Bool, true, false, Option, none, some, List, [], ◌∷◌, Text, codes, nat_eq, list_eq,
  ◌==◌, keep, ◌++◌, Memᴰ, contains, contains_iff,
}
use sp1_lean.Base.Dict.{lookup}
use sp1_lean.Base.Results.{raise, ok}
use sp1_lean.Texts.{split_on}
use sp1_lean.Flags.{text, strings, negative, Settings, find_setting, render, flatten}
use sp1_lean.Flags.Paths.{IsPlain, IsPlainValue}
use sp1_lean.Flags.Toml.{
  unsupported_value, not_a_table, not_a_list, parse_value, set_dotted, header, line_of, Toml,
  parse_minimal_toml,
}
use sp1_lean.Flags.Toml.Written.{Through}
use sp1_lean.Flags.Toml.Plain.{set_dotted-flatten}
use sp1_lean.Flags.Read.{lakefile_of}
use sp1_lean.Flags.Read.Options.{IsConfigured, parse_minimal_toml-IsConfigured}
use sp1_lean.Flags.{
  boolean, number, scalar, table, no_settings, setting, Library, Lakefile, flags_for,
}

abbrev library : Library
library = record {
  name = codes "SP1Clean";
  more_args = codes "--profile" ∷ [];
  options =
      setting (codes "weak") (table (setting (codes "steps") (scalar (number 12)) no_settings))
        no_settings;
}

abbrev config : Lakefile
config = record {
  more_args = [];
  options = setting (codes "autoImplicit") (scalar (boolean false)) (
      setting (codes "weak") (table (setting (codes "steps") (scalar (number 3)) no_settings))
        no_settings);
  libraries = library ∷ [];
}

abbrev flags : List Text
flags = codes "--profile" ∷ codes "-DautoImplicit=false" ∷ codes "-Dweak.steps=12" ∷ []

flags-computed : flags_for config (some (codes "SP1Clean")) ≡ some flags
unfolding flags_for keep sp1_lean.Base.list_beq sp1_lean.Base.Dict.insert
flags-computed = refl

-- The same lakefile as a text, with dotted keys, a comment and an array.
abbrev quoted : Text → Text
quoted t = 34 ∷ (t ++ (34 ∷ []))

abbrev lakefile : Text
lakefile =
    codes "moreLeanArgs = [] # none"
    ++ (10
        ∷ (codes "[leanOptions]"
            ++ (10
                ∷ (codes "autoImplicit = false"
                    ++ (10
                        ∷ (codes "weak.steps = 3"
                            ++ (10
                                ∷ (10
                                    ∷ (codes "[[lean_lib]]"
                                        ++ (10
                                            ∷ (codes "name = "
                                                ++ (quoted (codes "SP1Clean")
                                                    ++ (10
                                                        ∷ (codes "moreLeanArgs = [ "
                                                            ++ (quoted (codes "--profile")
                                                            ++ (codes ",]"
                                                            ++ (10
                                                            ∷ codes
                                                            "leanOptions.weak.steps = 12")))))))))))))))))

abbrev tree : Toml
tree = record {
  root = setting (codes "moreLeanArgs") (scalar (strings [])) (
      setting (codes "leanOptions")
        (table (
          setting (codes "autoImplicit") (scalar (boolean false)) (
            setting (codes "weak") (table (setting (codes "steps") (scalar (number 3)) no_settings))
              no_settings)))
        no_settings);
  arrays =
      (
        codes "lean_lib",
        (
          [],
          setting (codes "name") (scalar (text (codes "SP1Clean"))) (
                setting (codes "moreLeanArgs") (scalar (strings (codes "--profile" ∷ [])))
                  (setting (codes "leanOptions") (table library.options) no_settings))
              ∷ [],
        ),
      )
      ∷ [];
}

lakefile-parsed : parse_minimal_toml lakefile ≡ ok tree
unfolding parse_minimal_toml sp1_lean.Base.list_beq sp1_lean.Base.starts_with
    sp1_lean.Regex.captured lookup sp1_lean.Base.all sp1_lean.Base.Dict.insert
lakefile-parsed = refl

lakefile_of-tree : lakefile_of tree ≡ some config
unfolding lakefile_of lookup sp1_lean.Base.list_beq
lakefile_of-tree = refl

parse_minimal_toml-IsConfigured_example :
    (entry : Library) × Memᴰ entry config.libraries
    × (entry.name ≡ codes "SP1Clean")
    × IsConfigured config entry flags
parse_minimal_toml-IsConfigured_example =
    parse_minimal_toml-IsConfigured lakefile tree config (codes "SP1Clean") flags lakefile-parsed
      lakefile_of-tree flags-computed

values_test : parse_value (codes " -12 ") ≡ ok (negative 11)
unfolding parse_value sp1_lean.Base.list_beq sp1_lean.Base.starts_with sp1_lean.Base.all
values_test = refl

escapes_test :
    parse_value (quoted (codes "a\\" ++ quoted (codes "b")))
    ≡ raise (unsupported_value (quoted (codes "a\\" ++ quoted (codes "b"))))
unfolding parse_value sp1_lean.Base.list_beq sp1_lean.Base.starts_with sp1_lean.Base.all
escapes_test = refl

-- A header without its closing bracket loses its last letter.
header_test : line_of 1 (codes "[leanOptions") ≡ ok (header (codes "leanOption"))
unfolding line_of sp1_lean.Base.list_beq sp1_lean.Base.starts_with
header_test = refl

array_test : parse_minimal_toml (codes "[a]" ++ (10 ∷ codes "[[a]]")) ≡ raise not_a_list
unfolding parse_minimal_toml sp1_lean.Base.list_beq sp1_lean.Base.starts_with lookup
array_test = refl

override_test : parse_minimal_toml (codes "a = 1" ++ (10 ∷ codes "a.b = 2")) ≡ raise not_a_table
unfolding parse_minimal_toml sp1_lean.Base.list_beq sp1_lean.Base.starts_with
    sp1_lean.Regex.captured sp1_lean.Base.all
override_test = refl

repr_test :
    render (strings (codes "a'b" ∷ (34 ∷ codes "'") ∷ []))
    ≡ codes "[" ++ (quoted (codes "a'b") ++ codes ", '\"\\'']")
unfolding render contains sp1_lean.Base.gather
repr_test = refl

abbrev weak : Settings
weak =
    setting (codes "weak") (table (setting (codes "linter") (scalar (boolean true)) no_settings))
      no_settings

abbrev written : Settings
written =
    setting (codes "weak")
      (table (
        setting (codes "linter") (scalar (boolean true))
          (setting (codes "steps") (scalar (number 4)) no_settings)))
      no_settings

not_in : (k : Text) → contains k b'.' ≡ false → ¬ Memᴰ b'.' k
not_in k e m = absurd (cc (e, (contains_iff k b'.').1 m))

weak-IsPlain : IsPlain weak
unfolding IsPlain IsPlainValue find_setting contains
weak-IsPlain = (not_in (codes "weak") refl, refl, (not_in (codes "linter") refl, refl, tt, tt), tt)

weak-written : set_dotted weak (codes "weak.steps") (number 4) ≡ ok written
unfolding set_dotted sp1_lean.Base.list_beq
weak-written = refl

set_dotted-flatten_example :
    IsPlain written
    × (lookup (codes "weak.steps") (flatten written) ≡ some (number 4))
    × ((name : Text)
        → ¬ Through (split_on b'.' (codes "weak.steps")) (split_on b'.' name)
        → lookup name (flatten written) ≡ lookup name (flatten weak))
set_dotted-flatten_example =
    set_dotted-flatten weak written (codes "weak.steps") (number 4) weak-IsPlain weak-written
