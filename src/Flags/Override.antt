-- ===== src/Flags/Override.antt =====
-- The options of a library override those of the package.
use mathlib.Core.Option.{some-injective}
use mathlib.Core.List.{head?}
use sp1_lean.Base.{
  ◌≡◌, refl, sym, ap, ◌∙◌, subst, none, some, List, [], ◌∷◌, ◌++◌, map, inl, inr, Text, codes,
  nat_eq, list_eq, ◌==◌, eq_iff, keep, Bool-cases, Option-cases,
}
use sp1_lean.Base.Items.{prefer}
use sp1_lean.Base.Dict.{Dict, lookup, insert, lookup-insert, NodupKeys, upsert-NodupKeys}
use sp1_lean.Flags.{
  Scalar, Setting, scalar, table, Settings, no_settings, setting, update, flatten_from, flatten_one,
  flatten, Library, Lakefile, flag, flags_for,
}

module _ {ℓ} {V : Type ℓ} where
  insert-NodupKeys : (k : Text) (v : V) (d : Dict Text V) → NodupKeys d → NodupKeys (insert k v d)
  unfolding insert
  insert-NodupKeys k v d h = upsert-NodupKeys k v (λ _. v) d h

  update-NodupKeys : (d other : Dict Text V) → NodupKeys d → NodupKeys (update d other)
  unfolding update
  update-NodupKeys d [] h = h
  update-NodupKeys d ((k, v) ∷ other) h =
      update-NodupKeys (insert k v d) other (insert-NodupKeys k v d h)

  pub lookup-update :
      (k : Text) (d other : Dict Text V)
      → NodupKeys other
      → lookup k (update d other) ≡ prefer (lookup k other) (lookup k d)
  unfolding update lookup
  lookup-update k d [] h = refl
  lookup-update k d ((j, v) ∷ other) h =
      lookup-update k (insert j v d) other h.1 ∙ elim (Bool-cases (j == k)) [
        | inr s ↦ rw s (ap (prefer (lookup k other)) (lookup-insert k j v d ∙ rw s refl))
        | inl s ↦
            let gone : lookup k other ≡ none =
              subst (λ x. lookup x other ≡ none) ((eq_iff j k).0 s) h.0 in
            rw s (rw gone (lookup-insert k j v d ∙ rw s refl))
      ]

mutual
  unfolding flatten_from flatten_one

  pub flatten_from-NodupKeys :
      (p : Text) (settings : Settings) (flat : Dict Text Scalar)
      → NodupKeys flat
      → NodupKeys (flatten_from p settings flat)
  flatten_from-NodupKeys p no_settings flat h = h
  flatten_from-NodupKeys p (setting key value rest) flat h =
      flatten_from-NodupKeys p rest (flatten_one (p ++ key) value flat)
        (flatten_one-NodupKeys (p ++ key) value flat h)

  flatten_one-NodupKeys :
      (name : Text) (value : Setting) (flat : Dict Text Scalar)
      → NodupKeys flat
      → NodupKeys (flatten_one name value flat)
  flatten_one-NodupKeys name (scalar v) flat h = insert-NodupKeys name v flat h
  flatten_one-NodupKeys name (table settings) flat h =
      update-NodupKeys flat (flatten_from (name ++ codes ".") settings []) h

flatten-NodupKeys : (settings : Settings) → NodupKeys (flatten settings)
unfolding flatten
flatten-NodupKeys settings = flatten_from-NodupKeys [] settings [] tt

-- The flags of a library: those of the package and of the library in turn, then one flag for each option.
pub record IsFlags (config : Lakefile) (entry : Library) (flags : List Text) : Type 0 where
  pub options : Dict Text Scalar
  pub once : NodupKeys options
  pub written : flags ≡ (config.more_args ++ entry.more_args) ++ map flag options
  pub overridden :
      (k : Text)
      → lookup k options
        ≡ prefer (lookup k (flatten entry.options)) (lookup k (flatten config.options))

-- If `flags_for` returns for a library, the lakefile has a library of that name, and the flags are the arguments of the package, those of the
-- first such library, and one `-D` flag for each option of either, with the library's value wherever the library sets it.
pub flags_for-IsFlags :
    (config : Lakefile) (lib : Text) (flags : List Text)
    → flags_for config (some lib) ≡ some flags
    → (entry : Library) × (head? (keep (λ (l : Library). l.name == lib) config.libraries)
        ≡ some entry)
      × IsFlags config entry flags
unfolding flags_for
flags_for-IsFlags config lib flags e =
    elim (Option-cases (head? (keep (λ (l : Library). l.name == lib) config.libraries))) [
      | inl q ↦ absurd (cc (rw (q, flags_for) at e))
      | inr (entry, q) ↦ (
        entry,
        q,
        record {
          options = update (flatten config.options) (flatten entry.options);
          once =
              update-NodupKeys (flatten config.options) (flatten entry.options)
                (flatten-NodupKeys config.options);
          written = sym (some-injective _ flags (rw (q, flags_for) at e));
          overridden = λ k.
              lookup-update k (flatten config.options) (flatten entry.options)
                (flatten-NodupKeys entry.options);
        },
      )
    ]
