-- ===== src/Profile/Report/Entries.antt =====
-- What a report says of a module.
use sp1_lean.Base.{
  ℕ, ◌≡◌, refl, ◌∙◌, ap, inl, inr, Option, none, some, [], ◌∷◌, map, Text, arith, nat_eq, list_eq,
  ◌==◌, eq_iff, or_else, Bool-cases, if_true, if_false, subst,
}
use sp1_lean.Base.Dict.{Dict, lookup, upsert, NodupKeys, lookup-upsert}
use sp1_lean.Profile.Report.{
  Times, Entry, no_entry, set_all, set_categories, set_exit, set_wall, entries,
}

-- An entry, after a dict that may speak of its module.
abbrev pub updated {ℓ} : {V : Type ℓ} → (V → Entry → Entry) → Option V → Option Entry → Option Entry
updated set none e = e
updated set (some v) e = some (set v (or_else e no_entry))

set_all-updated {ℓ} :
    {V : Type ℓ} (set : V → Entry → Entry) (k : Text) (values : Dict Text V) (old : Dict Text Entry)
    → NodupKeys values
    → lookup k (set_all set values old) ≡ updated set (lookup k values) (lookup k old)
unfolding set_all lookup
set_all-updated set k [] old h = refl
set_all-updated set k ((m, v) ∷ values) old h =
    set_all-updated set k values (upsert m no_entry (set v) old) h.1 ∙ elim (Bool-cases (m == k)) [
      | inl e ↦
          let gone : lookup k values ≡ none =
            subst (λ x. lookup x values ≡ none) ((eq_iff m k).0 e) h.0 in
          rw (gone, e)
            (lookup-upsert k m no_entry (set v) old
              ∙ (if_true (m == k) _ _ e
                  ∙ ap (λ x. some (set v (or_else (lookup x old) no_entry))) ((eq_iff m k).0 e)))
      | inr e ↦ rw e (
          ap (updated set (lookup k values))
            (lookup-upsert k m no_entry (set v) old ∙ if_false (m == k) _ _ e))
    ]

abbrev first_entry : Text × ℕ → Text × Entry
first_entry t = (t.0, record { time = some t.1; categories = none; exit = none; wall = none })

abbrev timed : Option ℕ → Option Entry
timed none = none
timed (some n) = some (record { time = some n; categories = none; exit = none; wall = none })

lookup-timed :
    (k : Text) (times : Times) → lookup k (map first_entry times) ≡ timed (lookup k times)
unfolding lookup
lookup-timed k [] = refl
lookup-timed k ((m, n) ∷ times) = elim (Bool-cases (m == k)) [
  | inl e ↦ rw e refl
  | inr e ↦ rw e (lookup-timed k times)
]

-- The entry of a module of which the dicts say this; none, if they say nothing.
abbrev pub entry_of : Option ℕ → Option Times → Option ℕ → Option ℕ → Option Entry
entry_of none none none none = none
entry_of time cats exit wall =
    some (record { time = time; categories = cats; exit = exit; wall = wall })

updated_all :
    (time : Option ℕ) (cats : Option Times) (exit wall : Option ℕ)
    → updated set_wall wall (updated set_exit exit (updated set_categories cats (timed time)))
      ≡ entry_of time cats exit wall
updated_all none none none none = refl
updated_all time cats exit wall = ground arith

-- In a report, a module has an entry exactly if one of the dicts speaks of it, and the entry has what each of them says: its seconds, categories, exit
-- status and wall time. The keys of each dict are distinct.
pub entries-entry_of :
    (k : Text) (times exits walls : Times) (cats : Dict Text Times)
    → NodupKeys exits
    → NodupKeys walls
    → NodupKeys cats
    → lookup k (entries times exits (some cats) walls)
      ≡ entry_of (lookup k times) (lookup k cats) (lookup k exits) (lookup k walls)
unfolding entries
entries-entry_of k times exits walls cats e w c =
    set_all-updated set_wall k walls _ w
    ∙ (ap (updated set_wall (lookup k walls)) (
          set_all-updated set_exit k exits _ e
          ∙ ap (updated set_exit (lookup k exits)) (
              set_all-updated set_categories k cats (map first_entry times) c
              ∙ ap (updated set_categories (lookup k cats)) (lookup-timed k times)))
        ∙ updated_all (lookup k times) (lookup k cats) (lookup k exits) (lookup k walls))
