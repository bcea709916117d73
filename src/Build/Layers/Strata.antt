-- ===== src/Build/Layers/Strata.antt =====
-- A path belongs to the stratum with the longest pattern that fits, and to the first layer that fits.
use mathlib.Core.Logic.{⊎_elim}
use mathlib.Core.List.Memᴰ
use mathlib.Core.Option.{some-injective}
use sp1_lean.Base.{
  ℕ, ◌≤◌, ◌≡◌, sym, ap, ◌∙◌, subst, true, false, ◌↔◌, inl, inr, Option, none, some, List, [], ◌∷◌,
  ◌++◌, Memᴰ, arith, Text, nat_eq, list_eq, length, Bool-cases, Option-cases, there, Memᴰ-nil, ltb,
}
use sp1_lean.Base.Order.{nat_order}
use sp1_lean.Base.Order.Sorting.{IsSortedDown, Memᴰ-sort_down, sort_down-IsSortedDown}
use sp1_lean.Build.Layers.{
  fits, first_fit, Stratum, sort_strata, matching, Level, at, other_stratum, classify_stratum,
}
use sp1_lean.Build.Layers.Tables.{Layer, layers, classify_layer}

-- The entry of a table that decides: it fits, and no entry before it does.
pub record IsFirst {ℓ} {A : Type ℓ} (table : List (Text × A)) (path : Text) (a : A) : Type ℓ where
  pub before : List (Text × A)
  pub pattern : Text
  pub after : List (Text × A)
  pub split : table ≡ before ++ ((pattern, a) ∷ after)
  pub fitting : fits pattern path ≡ true
  pub earlier : (t : Text × A) → Memᴰ t before → fits t.0 path ≡ false

first_fit-IsFirst {ℓ} :
    {A : Type ℓ} (table : List (Text × A)) (path : Text) (a : A)
    → first_fit table path ≡ some a
    → IsFirst table path a
unfolding first_fit
first_fit-IsFirst [] path a h = absurd (cc h)
first_fit-IsFirst ((p, b) ∷ table) path a h = elim (Bool-cases (fits p path)) [
  | inl e ↦
      let same = some-injective _ _ (rw (e, first_fit) at h) in
      record {
        before = [];
        pattern = p;
        after = table;
        split = ap (λ x. (p, x) ∷ table) same;
        fitting = e;
        earlier = λ t i. absurd (Memᴰ-nil i);
      }
  | inr e ↦
      let r = first_fit-IsFirst table path a (rw (e, first_fit) at h) in
      record {
        before = (p, b) ∷ r.before;
        pattern = r.pattern;
        after = r.after;
        split = ap (λ t. (p, b) ∷ t) r.split;
        fitting = r.fitting;
        earlier = λ t i.
            ⊎_elim (λ q. subst (λ x. fits x.0 path ≡ false) (sym q) e) (r.earlier t)
              (Memᴰ.cases_cons i);
      }
]

-- The layer of a path is that of the first pattern of `LAYERS` that fits it.
pub classify_layer-IsFirst :
    (path : Text) (layer : Layer) → classify_layer path ≡ some layer → IsFirst layers path layer
unfolding classify_layer
classify_layer-IsFirst path layer h = first_fit-IsFirst layers path layer h

matching-mem :
    (strata : List Stratum) (path : Text) (s : Stratum)
    → matching strata path ≡ some s
    → Memᴰ s strata × (fits s.prefix path ≡ true)
unfolding matching
matching-mem [] path s h = absurd (cc h)
matching-mem (t ∷ strata) path s h = elim (Bool-cases (fits t.prefix path)) [
  | inl e ↦
      let same = some-injective _ _ (rw (e, matching) at h) in
      (Memᴰ.head (sym same), subst (λ (x : Stratum). fits x.prefix path ≡ true) same e)
  | inr e ↦ let (i, f) = matching-mem strata path s (rw (e, matching) at h) in (there i, f)
]

le_of_not_less : (a b : ℕ) → ltb a b ≡ false → b ≤ a
le_of_not_less a b h = ground arith

le_of_eq : {a b : ℕ} → a ≡ b → a ≤ b
le_of_eq h = omega arith

matching-longest :
    (strata : List Stratum) (path : Text) (s t : Stratum)
    → IsSortedDown (λ (x : Stratum). length x.prefix) strata
    → matching strata path ≡ some s
    → Memᴰ t strata
    → fits t.prefix path ≡ true
    → length t.prefix ≤ length s.prefix
unfolding matching
matching-longest [] path s t sorted h i f = absurd (Memᴰ-nil i)
matching-longest (x ∷ strata) path s t sorted h i f = elim (Bool-cases (fits x.prefix path)) [
  | inl e ↦
      let same = some-injective _ _ (rw (e, matching) at h) in
      ⊎_elim (λ q. le_of_eq (ap (λ (y : Stratum). length y.prefix) (q ∙ same)))
        (λ j.
          subst (λ (y : Stratum). length t.prefix ≤ length y.prefix) same
            (le_of_not_less _ _ (sorted.0 t j)))
        (Memᴰ.cases_cons i)
  | inr e ↦
      ⊎_elim (λ q. absurd (cc (e, f, ap (λ (y : Stratum). fits y.prefix path) q)))
        (λ j. matching-longest strata path s t sorted.1 (rw (e, matching) at h) j f)
        (Memᴰ.cases_cons i)
]

matching-none :
    (strata : List Stratum) (path : Text) (t : Stratum)
    → matching strata path ≡ none
    → Memᴰ t strata
    → fits t.prefix path ≡ false
unfolding matching
matching-none [] path t h i = absurd (Memᴰ-nil i)
matching-none (x ∷ strata) path t h i = elim (Bool-cases (fits x.prefix path)) [
  | inl e ↦ absurd (cc (rw (e, matching) at h))
  | inr e ↦
      ⊎_elim (λ q. subst (λ (y : Stratum). fits y.prefix path ≡ false) (sym q) e)
        (λ j. matching-none strata path t (rw (e, matching) at h) j) (Memᴰ.cases_cons i)
]

-- What a path's stratum is: that of the longest pattern that fits or, if none does, one of the fixed cases.
pub data Classified (path : Text) (strata : List Stratum) : Option Level → Type 0 where
  by_prefix :
      (s : Stratum)
      → Memᴰ s strata
      → fits s.prefix path ≡ true
      → ((t : Stratum)
          → Memᴰ t strata
          → fits t.prefix path ≡ true
          → length t.prefix ≤ length s.prefix)
      → Classified path strata (some (at s.level))
  by_default :
      ((t : Stratum) → Memᴰ t strata → fits t.prefix path ≡ false)
      → Classified path strata (other_stratum path)

-- A path has the level of the longest pattern that fits it, in whatever order the strata are written; a path
-- that none fits has the level of its tree, if it is generated, a test or a root file, and otherwise none.
pub classify_stratum-Classified :
    (path : Text) (strata : List Stratum)
    → Classified path strata (classify_stratum path (sort_strata strata))
unfolding classify_stratum sort_strata
classify_stratum-Classified path strata = elim (Option-cases (matching (sort_strata strata) path)) [
  | inl e ↦
      rw (e, classify_stratum)
        (by_default (λ t i. matching-none (sort_strata strata) path t e ((sorted t).1 i)))
  | inr (s, e) ↦
      let (i, f) = matching-mem (sort_strata strata) path s e in
      rw (e, classify_stratum)
        (by_prefix s ((sorted s).0 i) f (λ t j g.
          matching-longest (sort_strata strata) path s t
            (sort_down-IsSortedDown (λ (x : Stratum). length x.prefix) strata) e ((sorted t).1 j)
            g))
]
  where
    sorted : (t : Stratum) → Memᴰ t (sort_strata strata) ↔ Memᴰ t strata
    sorted t = Memᴰ-sort_down (λ (x : Stratum). length x.prefix) t strata
