-- ===== src/Flags/Toml/Written.antt =====
-- What an assignment to a dotted key leaves in a table.
use sp1_lean.Base.{
  ℕ, ◌≡◌, refl, sym, ap, ◌∙◌, subst, Bool, true, false, inl, inr, none, some, List, [], ◌∷◌, ◌++◌,
  Text, nat_eq, list_eq, nat_beq, ◌==◌, eq_iff, eq_refl, if◌then◌else◌, Memᴰ, Memᴰ-nil, Bool-cases,
  Option-cases,
}
use mathlib.Core.Option.{some-injective}
use sp1_lean.Base.Results.{ok, >>=-ok, raise-not-ok, ok-injective}
use sp1_lean.Texts.{cons_line, split_on}
use sp1_lean.Flags.{
  Scalar, Setting, scalar, table, Settings, no_settings, setting, find_setting, set_setting,
}
use sp1_lean.Flags.Paths.{IsPlain, IsPlainValue, value_at, no_dot}
use sp1_lean.Flags.Toml.{not_a_table, set_path}

if_twice {ℓ} :
    {A : Type ℓ} (b : Bool) (x y z : A)
    → (if b then x else z) ≡ (if b then x else (if b then y else z))
if_twice true x y z = refl
if_twice false x y z = refl

-- Two keys differ if one of them is, and the other is not, a third.
differs : (i j k : Text) → (i == k) ≡ false → i ≡ j → (k == j) ≡ false
differs i j k e q = elim (Bool-cases (k == j)) [
  | inl f ↦ absurd (cc (e, (eq_iff i k).1 (q ∙ sym ((eq_iff k j).0 f))))
  | inr f ↦ f
]

pub find_setting-set_setting :
    (j k : Text) (w : Setting) (t : Settings)
    → find_setting j (set_setting k w t) ≡ (if k == j then some w else find_setting j t)
unfolding find_setting set_setting
find_setting-set_setting j k w no_settings = refl
find_setting-set_setting j k w (setting i x rest) = elim (Bool-cases (i == k)) [
  | inl e ↦
      rw (e, find_setting)
        (rw ((eq_iff i k).0 e) (if_twice (k == j) (some w) (some x) (find_setting j rest)))
  | inr e ↦ elim (Bool-cases (i == j)) [
    | inl f ↦ rw (e, find_setting) (rw f (rw (differs i j k e ((eq_iff i j).0 f)) refl))
    | inr f ↦ rw (e, find_setting) (rw f (find_setting-set_setting j k w rest))
  ]
]

set_setting-IsPlain :
    (k : Text) (w : Setting) (t : Settings)
    → ¬ Memᴰ b'.' k
    → IsPlainValue w
    → IsPlain t
    → IsPlain (set_setting k w t)
unfolding set_setting IsPlain IsPlainValue find_setting
set_setting-IsPlain k w no_settings nd hw ht = (nd, refl, hw, tt)
set_setting-IsPlain k w (setting i x rest) nd hw ht = elim (Bool-cases (i == k)) [
  | inl e ↦ rw e (ht.0, ht.1, hw, ht.3)
  | inr e ↦ rw e (
    ht.0,
    find_setting-set_setting i k w rest ∙ rw (differs i i k e refl) ht.1,
    ht.2,
    set_setting-IsPlain k w rest nd hw ht.3,
  )
]

pub find_setting-IsPlainValue :
    (k : Text) (v : Setting) (t : Settings) → IsPlain t → find_setting k t ≡ some v → IsPlainValue v
unfolding find_setting IsPlain IsPlainValue
find_setting-IsPlainValue k v no_settings h e = absurd (cc e)
find_setting-IsPlainValue k v (setting j w rest) h e = elim (Bool-cases (j == k)) [
  | inl f ↦ subst IsPlainValue (some-injective w v (rw f at e)) h.2
  | inr f ↦ find_setting-IsPlainValue k v rest h.3 (rw f at e)
]

-- No part has a dot.
unfoldable pub Undotted : List Text → Type 0
Undotted [] = Unit
Undotted (k ∷ ks) = (¬ Memᴰ b'.' k) × Undotted ks

cons_line-Undotted :
    (c : ℕ) (ks : List Text) → nat_beq c b'.' ≡ false → Undotted ks → Undotted (cons_line c ks)
unfolding cons_line Undotted
cons_line-Undotted c [] e h = (no_dot c [] e Memᴰ-nil, tt)
cons_line-Undotted c (k ∷ ks) e h = (no_dot c k e h.0, h.1)

pub split_on-Undotted : (s : Text) → Undotted (split_on b'.' s)
unfolding split_on Undotted
split_on-Undotted [] = (Memᴰ-nil, tt)
split_on-Undotted (c ∷ s) = elim (Bool-cases (nat_beq c b'.')) [
  | inl e ↦ rw e (Memᴰ-nil, split_on-Undotted s)
  | inr e ↦ rw e (cons_line-Undotted c (split_on b'.' s) e (split_on-Undotted s))
]

-- How the tables on the way are found or made.
pub data Step (k : Text) (ks : List Text) (v : Setting) (t u : Settings) : Type 0 where
  fresh :
      (inner : Settings)
      → find_setting k t ≡ none
      → set_path ks v no_settings ≡ ok inner
      → u ≡ set_setting k (table inner) t
      → Step k ks v t u
  inside :
      (w inner : Settings)
      → find_setting k t ≡ some (table w)
      → set_path ks v w ≡ ok inner
      → u ≡ set_setting k (table inner) t
      → Step k ks v t u

pub set_path-Step :
    (k next : Text) (ks : List Text) (v : Setting) (t u : Settings)
    → set_path (k ∷ next ∷ ks) v t ≡ ok u
    → Step k (next ∷ ks) v t u
unfolding set_path
set_path-Step k next ks v t u e = elim (Option-cases (find_setting k t)) [
  | inl q ↦
      let (inner, r, f) = >>=-ok (set_path (next ∷ ks) v no_settings) _ u (rw (q, set_path) at e) in
      fresh inner q r (sym (ok-injective _ u f))
  | inr (scalar x, q) ↦ absurd (raise-not-ok not_a_table u (rw (q, set_path) at e))
  | inr (table w, q) ↦
      let (inner, r, f) = >>=-ok (set_path (next ∷ ks) v w) _ u (rw (q, set_path) at e) in
      inside w inner q r (sym (ok-injective _ u f))
]

-- The tables that an assignment makes are plain.
pub set_path-IsPlain :
    (ks : List Text) (v : Setting) (t u : Settings)
    → Undotted ks
    → IsPlainValue v
    → IsPlain t
    → set_path ks v t ≡ ok u
    → IsPlain u
unfolding set_path Undotted IsPlain IsPlainValue
set_path-IsPlain [] v t u nd hv ht e = subst IsPlain (ok-injective t u e) ht
set_path-IsPlain (k ∷ []) v t u nd hv ht e =
    subst IsPlain (ok-injective _ u e) (set_setting-IsPlain k v t nd.0 hv ht)
set_path-IsPlain (k ∷ next ∷ ks) v t u nd hv ht e = elim (set_path-Step k next ks v t u e) [
  | fresh inner q r s ↦ subst IsPlain (sym s) (
      set_setting-IsPlain k (table inner) t nd.0
        (set_path-IsPlain (next ∷ ks) v no_settings inner nd.1 hv tt r) ht)
  | inside w inner q r s ↦ subst IsPlain (sym s) (
      set_setting-IsPlain k (table inner) t nd.0
        (set_path-IsPlain (next ∷ ks) v w inner nd.1 hv
          (find_setting-IsPlainValue k (table w) t ht q) r)
        ht)
]

found : (k : Text) (w : Setting) (t : Settings) → find_setting k (set_setting k w t) ≡ some w
found k w t = find_setting-set_setting k k w t ∙ rw (eq_refl k) refl

kept :
    (j k : Text) (w : Setting) (t : Settings)
    → (k == j) ≡ false
    → find_setting j (set_setting k w t) ≡ find_setting j t
kept j k w t e = find_setting-set_setting j k w t ∙ rw e refl

entry_at :
    (p : Text) (ps : List Text) (t : Settings) (w : Setting)
    → find_setting p t ≡ some w
    → value_at (p ∷ ps) (table t) ≡ value_at ps w
unfolding value_at
entry_at p ps t w e = rw (e, value_at) refl

no_entry :
    (p : Text) (ps : List Text) (t : Settings)
    → find_setting p t ≡ none
    → value_at (p ∷ ps) (table t) ≡ none
unfolding value_at
no_entry p ps t e = rw (e, value_at) refl

same_entry :
    (p : Text) (ps : List Text) (u t : Settings)
    → find_setting p u ≡ find_setting p t
    → value_at (p ∷ ps) (table u) ≡ value_at (p ∷ ps) (table t)
unfolding value_at
same_entry p ps u t e = rw (e, value_at) refl

-- The path that is assigned to has the value.
pub set_path-value_at :
    (k : Text) (ks : List Text) (v : Scalar) (t u : Settings)
    → set_path (k ∷ ks) (scalar v) t ≡ ok u
    → value_at (k ∷ ks) (table u) ≡ some v
unfolding set_path value_at
set_path-value_at k [] v t u e =
    rw
      (
        subst (λ x. find_setting k x ≡ some (scalar v)) (ok-injective _ u e) (found k (scalar v) t),
        value_at,
      )
      refl
set_path-value_at k (next ∷ ks) v t u e = elim (set_path-Step k next ks (scalar v) t u e) [
  | fresh inner q r s ↦
      rw (ap (find_setting k) s ∙ found k (table inner) t, value_at)
        (set_path-value_at next ks v no_settings inner r)
  | inside w inner q r s ↦
      rw (ap (find_setting k) s ∙ found k (table inner) t, value_at)
        (set_path-value_at next ks v w inner r)
]

-- A path through the one that is assigned to.
abbrev pub Through : List Text → List Text → Type 0
Through ks ps = (more : List Text) × (ps ≡ ks ++ more)

no_settings-value_at : (ps : List Text) → value_at ps (table no_settings) ≡ none
unfolding value_at find_setting
no_settings-value_at [] = refl
no_settings-value_at (p ∷ ps) = refl

-- Every other path has what it had.
pub set_path_keeps :
    (k : Text) (ks ps : List Text) (v : Scalar) (t u : Settings)
    → set_path (k ∷ ks) (scalar v) t ≡ ok u
    → ¬ Through (k ∷ ks) ps
    → value_at ps (table u) ≡ value_at ps (table t)
unfolding set_path value_at
set_path_keeps k ks [] v t u e h = refl
set_path_keeps k [] (p ∷ ps) v t u e h =
    let other : (k == p) ≡ false = elim (Bool-cases (k == p)) [
      | inl f ↦ absurd (h (ps, ap (λ x. x ∷ ps) (sym ((eq_iff k p).0 f))))
      | inr f ↦ f
    ] in
    same_entry p ps u t
      (ap (find_setting p) (sym (ok-injective _ u e)) ∙ kept p k (scalar v) t other)
set_path_keeps k (next ∷ ks) (p ∷ ps) v t u e h = elim (Bool-cases (k == p)) [
  | inr f ↦ elim (set_path-Step k next ks (scalar v) t u e) [
    | fresh inner q r s ↦ same_entry p ps u t (ap (find_setting p) s ∙ kept p k (table inner) t f)
    | inside w inner q r s ↦
        same_entry p ps u t (ap (find_setting p) s ∙ kept p k (table inner) t f)
  ]
  | inl f ↦
      let same = (eq_iff k p).0 f in
      let below : ¬ Through (next ∷ ks) ps = λ (more, g). h (more, cc (same, g)) in
      elim (set_path-Step k next ks (scalar v) t u e) [
        | fresh inner q r s ↦
            entry_at p ps u (table inner) (
              ap (find_setting p) s
              ∙ ap (λ x. find_setting x (set_setting k (table inner) t)) (sym same)
              ∙ found k (table inner) t)
            ∙ set_path_keeps next ks ps v no_settings inner r below
            ∙ no_settings-value_at ps
            ∙ sym (no_entry p ps t (ap (λ x. find_setting x t) (sym same) ∙ q))
        | inside w inner q r s ↦
            entry_at p ps u (table inner) (
              ap (find_setting p) s
              ∙ ap (λ x. find_setting x (set_setting k (table inner) t)) (sym same)
              ∙ found k (table inner) t)
            ∙ set_path_keeps next ks ps v w inner r below
            ∙ sym (entry_at p ps t (table w) (ap (λ x. find_setting x t) (sym same) ∙ q))
      ]
]
