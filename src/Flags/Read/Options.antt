-- ===== src/Flags/Read/Options.antt =====
-- From the text of a lakefile to the options of a library.
use mathlib.Core.Option.{some-injective}
use mathlib.Core.List.{head?}
use sp1_lean.Base.{
  ◌≡◌, refl, sym, ap, ◌∙◌, subst, inl, inr, Option, none, some, List, [], ◌∷◌, ◌++◌, map, Text,
  codes, nat_eq, list_eq, ◌==◌, eq_iff, Memᴰ, Memᴰ-nil, Memᴰ-cons, Memᴰ-keep, here, there,
  Option-cases,
}
use sp1_lean.Base.{>>=-some}
use sp1_lean.Base.Dict.{Dict, lookup, NodupKeys}
use sp1_lean.Base.Items.{prefer}
use sp1_lean.Base.Results.{ok}
use sp1_lean.Texts.{split_on}
use sp1_lean.Flags.{
  boolean, text, number, negative, strings, Scalar, Setting, scalar, table, Settings, no_settings,
  find_setting, Library, Lakefile, flag, flatten, flags_for,
}
use sp1_lean.Flags.Override.{flags_for-IsFlags}
use sp1_lean.Flags.Paths.{IsPlain, IsPlainValue, value_at, lookup-flatten}
use sp1_lean.Flags.Toml.{Toml, parse_minimal_toml}
use sp1_lean.Flags.Toml.Written.{find_setting-IsPlainValue}
use sp1_lean.Flags.Toml.Plain.{IsTidy, parse_minimal_toml-IsTidy}
use sp1_lean.Flags.Read.{
  args_of, options_of, library_of, all_libraries, libraries_of, package_value, package_args,
  package_options, lakefile_of,
}

options_of-IsPlain :
    (value : Option Setting) (options : Settings)
    → ((v : Setting) → value ≡ some v → IsPlainValue v)
    → options_of value ≡ some options
    → IsPlain options
unfolding options_of IsPlain IsPlainValue
options_of-IsPlain none options h e = subst IsPlain (some-injective no_settings options e) tt
options_of-IsPlain (some (table t)) options h e =
    subst IsPlain (some-injective t options e) (h (table t) refl)
options_of-IsPlain (some (scalar v)) options h e = absurd (cc e)

library_of-IsPlain :
    (entry : Settings) (l : Library) → IsPlain entry → library_of entry ≡ some l → IsPlain l.options
unfolding library_of
library_of-IsPlain entry l h e = elim (Option-cases (find_setting (codes "name") entry)) [
  | inl q ↦ absurd (cc (rw (q, library_of) at e))
  | inr (table t, q) ↦ absurd (cc (rw (q, library_of) at e))
  | inr (scalar (boolean b), q) ↦ absurd (cc (rw (q, library_of) at e))
  | inr (scalar (number n), q) ↦ absurd (cc (rw (q, library_of) at e))
  | inr (scalar (negative n), q) ↦ absurd (cc (rw (q, library_of) at e))
  | inr (scalar (strings ts), q) ↦ absurd (cc (rw (q, library_of) at e))
  | inr (scalar (text name), q) ↦
      let (args, r, e1) =
        >>=-some (args_of (find_setting (codes "moreLeanArgs") entry)) _ l
          (rw (q, library_of) at e) in
      let (options, s, e2) =
        >>=-some (options_of (find_setting (codes "leanOptions") entry)) _ l e1 in
      subst (λ x. IsPlain x.options) (some-injective _ l e2)
        (options_of-IsPlain (find_setting (codes "leanOptions") entry) options
          (λ v f. find_setting-IsPlainValue (codes "leanOptions") v entry h f) s)
]

all_libraries-IsPlain :
    (entries : List Settings) (ls : List Library)
    → ((t : Settings) → Memᴰ t entries → IsPlain t)
    → all_libraries entries ≡ some ls
    → (l : Library) → Memᴰ l ls
    → IsPlain l.options
unfolding all_libraries
all_libraries-IsPlain [] ls h e l m =
    absurd (Memᴰ-nil (subst (λ x. Memᴰ l x) (sym (some-injective [] ls e)) m))
all_libraries-IsPlain (entry ∷ entries) ls h e l m =
    let (one, q, e1) = >>=-some (library_of entry) _ ls e in
    let (more, r, e2) = >>=-some (all_libraries entries) _ ls e1 in
    let same = some-injective (one ∷ more) ls e2 in
    elim ((Memᴰ-cons l one more).0 (subst (λ x. Memᴰ l x) (sym same) m)) [
      | inl f ↦
          subst (λ x. IsPlain x.options) (sym f) (library_of-IsPlain entry one (h entry here) q)
      | inr i ↦ all_libraries-IsPlain entries more (λ t j. h t (there j)) r l i
    ]

-- The options of a lakefile, and of each of its libraries, are plain.
record IsPlainFile (config : Lakefile) : Type 0 where
  pub package_options : IsPlain config.options
  pub library_options : (l : Library) → Memᴰ l config.libraries → IsPlain l.options

libraries_of-IsPlain :
    (toml : Toml) (ls : List Library)
    → IsTidy toml
    → libraries_of toml ≡ some ls
    → (l : Library) → Memᴰ l ls
    → IsPlain l.options
unfolding libraries_of
libraries_of-IsPlain toml ls h e = elim (Option-cases (lookup (codes "lean_lib") toml.arrays)) [
  | inr (([], us), q) ↦
      all_libraries-IsPlain us ls (h.lists (codes "lean_lib") [] us q) (rw (q, libraries_of) at e)
  | inr ((t ∷ ts, us), q) ↦ absurd (cc (rw (q, libraries_of) at e))
  | inl q ↦ elim (Option-cases (find_setting (codes "lean_lib") toml.root)) [
    | inr (v, r) ↦ absurd (cc (rw r at (rw (q, libraries_of) at e)))
    | inl r ↦ λ l m. absurd (
        Memᴰ-nil (
          subst (λ x. Memᴰ l x) (sym (some-injective [] ls (rw r at (rw (q, libraries_of) at e))))
            m))
  ]
]

package_options-IsPlain :
    (toml : Toml) (options : Settings)
    → IsTidy toml
    → package_options toml ≡ some options
    → IsPlain options
unfolding package_options package_value
package_options-IsPlain toml options h e =
    elim (Option-cases (lookup (codes "leanOptions") toml.arrays)) [
      | inr (l, q) ↦ absurd (cc (rw (q, package_options, package_value) at e))
      | inl q ↦
          options_of-IsPlain (find_setting (codes "leanOptions") toml.root) options
            (h.values (codes "leanOptions")) (rw (q, package_options, package_value) at e)
    ]

lakefile_of-IsPlainFile :
    (toml : Toml) (config : Lakefile)
    → IsTidy toml
    → lakefile_of toml ≡ some config
    → IsPlainFile config
unfolding lakefile_of
lakefile_of-IsPlainFile toml config h e =
    let (args, q, e1) = >>=-some (package_args toml) _ config e in
    let (options, r, e2) = >>=-some (package_options toml) _ config e1 in
    let (ls, s, e3) = >>=-some (libraries_of toml) _ config e2 in
    subst IsPlainFile (some-injective _ config e3) (record {
      package_options = package_options-IsPlain toml options h r;
      library_options = libraries_of-IsPlain toml ls h s;
    })

head?-mem : {A : Type 0} (xs : List A) (a : A) → head? xs ≡ some a → Memᴰ a xs
head?-mem [] a e = absurd (cc e)
head?-mem (x ∷ xs) a e = subst (λ y. Memᴰ y (x ∷ xs)) (some-injective x a e) here

-- The flags are those of the package and of the library in turn, then one for each option; an option is what the library has at the path of its dotted name, or else what the package has there.
pub record IsConfigured (config : Lakefile) (entry : Library) (flags : List Text) : Type 0 where
  pub options : Dict Text Scalar
  pub once : NodupKeys options
  pub written : flags ≡ (config.more_args ++ entry.more_args) ++ map flag options
  pub each :
      (name : Text)
      → lookup name options
        ≡ prefer
            (value_at (split_on b'.' name) (table entry.options))
            (value_at (split_on b'.' name) (table config.options))

-- If `parse_minimal_toml` accepts a lakefile whose values have the types that `flags_for` expects, and `flags_for` returns for a library, then the library is an entry of the file, and the flags
-- are the arguments of the package and of the library and one `-D` flag for each option; the option of a dotted name is the one at the path of its parts in the library's tables, or else
-- in the package's.
pub parse_minimal_toml-IsConfigured :
    (given : Text) (toml : Toml) (config : Lakefile) (lib : Text) (flags : List Text)
    → parse_minimal_toml given ≡ ok toml
    → lakefile_of toml ≡ some config
    → flags_for config (some lib) ≡ some flags
    → (entry : Library) × Memᴰ entry config.libraries
      × (entry.name ≡ lib)
      × IsConfigured config entry flags
parse_minimal_toml-IsConfigured given toml config lib flags e f g =
    let (entry, first, found) = flags_for-IsFlags config lib flags g in
    let plain = lakefile_of-IsPlainFile toml config (parse_minimal_toml-IsTidy given toml e) f in
    let (mem, named) =
      (Memᴰ-keep (λ (l : Library). l.name == lib) entry config.libraries).0
        (head?-mem _ entry first) in
    (
      entry,
      mem,
      (eq_iff entry.name lib).0 named,
      record {
        options = found.options;
        once = found.once;
        written = found.written;
        each = λ name.
            found.overridden name
            ∙ ap (λ l. prefer l (lookup name (flatten config.options)))
                (lookup-flatten entry.options name (plain.library_options entry mem))
            ∙ ap (prefer (value_at (split_on b'.' name) (table entry.options)))
                (lookup-flatten config.options name plain.package_options);
      },
    )
