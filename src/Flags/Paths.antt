-- ===== src/Flags/Paths.antt =====
-- What `_flatten` makes of nested tables: the option of a dotted name is the one at the path of its parts.
use mathlib.Core.List.{append_assoc, append-nil}
use sp1_lean.Base.{
  ℕ, ◌≡◌, refl, sym, ap, ◌∙◌, subst, Bool, true, false, inl, inr, Option, none, some, List, [], ◌∷◌,
  ◌++◌, Text, codes, nat_eq, list_eq, nat_beq, ◌==◌, eq_iff, if◌then◌else◌, Memᴰ, Memᴰ-nil,
  Memᴰ-cons, Memᴰ-append, here, there, Bool-cases,
}
use sp1_lean.Base.Dict.{Dict, lookup, lookup-insert}
use sp1_lean.Base.Items.{prefer, latest, latest-append, prefer_assoc, prefer-none, prefer_if}
use sp1_lean.Texts.{cons_line, split_on}
use sp1_lean.Flags.{
  Scalar, Setting, scalar, table, Settings, no_settings, setting, find_setting, flatten_from,
  flatten_one, flatten,
}
use sp1_lean.Flags.Override.{lookup-update, flatten_from-NodupKeys}

-- The scalar at a path.
unfoldable pub value_at : List Text → Setting → Option Scalar
unfolding find_setting
value_at [] (scalar v) = some v
value_at [] (table t) = none
value_at (k ∷ ks) (scalar v) = none
value_at (k ∷ ks) (table t) = elim (find_setting k t) [ none ↦ none | some w ↦ value_at ks w ]

-- No key has a dot, and no table has a key twice.
unfoldable mutual
  pub IsPlain : Settings → Type 0
  IsPlain no_settings = Unit
  IsPlain (setting k v rest) =
      (¬ Memᴰ b'.' k) × (find_setting k rest ≡ none) × IsPlainValue v × IsPlain rest

  pub IsPlainValue : Setting → Type 0
  IsPlainValue (scalar v) = Unit
  IsPlainValue (table t) = IsPlain t

-- The options in the order in which `_flatten` meets them.
unfoldable mutual
  pub items : Text → Settings → List (Text × Scalar)
  items p no_settings = []
  items p (setting k v rest) = items_of (p ++ k) v ++ items p rest

  pub items_of : Text → Setting → List (Text × Scalar)
  items_of name (scalar v) = (name, v) ∷ []
  items_of name (table t) = items (name ++ codes ".") t

mutual
  unfolding flatten_from flatten_one items items_of latest lookup

  lookup-flatten_from :
      (n p : Text) (t : Settings) (flat : Dict Text Scalar)
      → lookup n (flatten_from p t flat) ≡ prefer (latest n (items p t)) (lookup n flat)
  lookup-flatten_from n p no_settings flat = refl
  lookup-flatten_from n p (setting k v rest) flat =
      lookup-flatten_from n p rest (flatten_one (p ++ k) v flat)
      ∙ ap (prefer (latest n (items p rest))) (lookup-flatten_one n (p ++ k) v flat)
      ∙ sym
          (prefer_assoc (latest n (items p rest)) (latest n (items_of (p ++ k) v)) (lookup n flat))
      ∙ ap (λ l. prefer l (lookup n flat))
          (sym (latest-append n (items_of (p ++ k) v) (items p rest)))

  lookup-flatten_one :
      (n name : Text) (v : Setting) (flat : Dict Text Scalar)
      → lookup n (flatten_one name v flat) ≡ prefer (latest n (items_of name v)) (lookup n flat)
  lookup-flatten_one n name (scalar v) flat =
      lookup-insert n name v flat ∙ prefer_if (name == n) none v (lookup n flat)
  lookup-flatten_one n name (table t) flat =
      lookup-update n flat (flatten_from (name ++ codes ".") t [])
        (flatten_from-NodupKeys (name ++ codes ".") t [] tt)
      ∙ ap (λ l. prefer l (lookup n flat))
          (lookup-flatten_from n (name ++ codes ".") t [] ∙ prefer-none _)

append_cancel : (p a b : Text) → p ++ a ≡ p ++ b → a ≡ b
append_cancel [] a b h = h
append_cancel (x ∷ p) a b h = append_cancel p a b (cc h)

not_dot : (c : ℕ) (k : Text) → ¬ Memᴰ b'.' (c ∷ k) → nat_beq c b'.' ≡ false
not_dot c k h = elim (Bool-cases (nat_beq c b'.')) [
  | inl e ↦ absurd (h (subst (λ x. Memᴰ x (c ∷ k)) ((eq_iff c b'.').0 e) here))
  | inr e ↦ e
]

pub no_dot : (c : ℕ) (k : Text) → nat_beq c b'.' ≡ false → ¬ Memᴰ b'.' k → ¬ Memᴰ b'.' (c ∷ k)
no_dot c k e h m = elim ((Memᴰ-cons b'.' c k).0 m) [
  | inl q ↦ absurd (cc (sym e, (eq_iff c b'.').1 (sym q)))
  | inr t ↦ h t
]

-- A text up to its first dot, and what is behind.
split_dot : (k r : Text) → ¬ Memᴰ b'.' k → split_on b'.' (k ++ (b'.' ∷ r)) ≡ k ∷ split_on b'.' r
unfolding split_on cons_line
split_dot [] r h = refl
split_dot (c ∷ k) r h = rw (not_dot c k h) (ap (cons_line c) (split_dot k r (λ m. h (there m))))

split_none : (k : Text) → ¬ Memᴰ b'.' k → split_on b'.' k ≡ k ∷ []
unfolding split_on cons_line
split_none [] h = refl
split_none (c ∷ k) h = rw (not_dot c k h) (ap (cons_line c) (split_none k (λ m. h (there m))))

-- The two ways in which a text splits.
data Split (r : Text) : Type 0 where
  whole : ¬ Memᴰ b'.' r → Split r
  parts : (k s : Text) → ¬ Memᴰ b'.' k → r ≡ k ++ (b'.' ∷ s) → Split r

split_cases : (r : Text) → Split r
split_cases [] = whole Memᴰ-nil
split_cases (c ∷ r) = elim (Bool-cases (nat_beq c b'.')) [
  | inl e ↦ parts [] r Memᴰ-nil (ap (λ x. x ∷ r) ((eq_iff c b'.').0 e))
  | inr e ↦ elim (split_cases r) [
    | whole h ↦ whole (no_dot c r e h)
    | parts k s h q ↦ parts (c ∷ k) s (no_dot c k e h) (ap (λ t. c ∷ t) q)
  ]
]

-- A name that does not begin with the prefix of a table is none of its options.
mutual
  unfolding items items_of latest

  latest-items-none :
      (n p : Text) (t : Settings) → ((s : Text) → ¬ (n ≡ p ++ s)) → latest n (items p t) ≡ none
  latest-items-none n p no_settings h = refl
  latest-items-none n p (setting k v rest) h =
      latest-append n (items_of (p ++ k) v) (items p rest)
      ∙ ap (λ l. prefer l (latest n (items_of (p ++ k) v))) (latest-items-none n p rest h)
      ∙ latest-items_of-none n (p ++ k) v (λ s e. h (k ++ s) (e ∙ append_assoc p k s))

  latest-items_of-none :
      (n name : Text) (v : Setting)
      → ((s : Text) → ¬ (n ≡ name ++ s))
      → latest n (items_of name v) ≡ none
  latest-items_of-none n name (scalar v) h = elim (Bool-cases (name == n)) [
    | inl e ↦ absurd (h [] (sym ((eq_iff name n).0 e) ∙ sym (append-nil name)))
    | inr e ↦ rw e refl
  ]
  latest-items_of-none n name (table t) h =
      latest-items-none n (name ++ codes ".") t
        (λ s e. h (codes "." ++ s) (e ∙ append_assoc name (codes ".") s))

dot_inside : (k s : Text) → Memᴰ b'.' (k ++ (b'.' ∷ s))
dot_inside k s = (Memᴰ-append b'.' k (b'.' ∷ s)).1 (inr here)

-- What a table has at a path by its entry for a key.
value_in : Text → List Text → Setting → Option Scalar
value_in k [] v = none
value_in k (h ∷ ks) v = if k == h then value_at ks v else none

value_in-value_at :
    (k : Text) (ks : List Text) (v : Setting) (rest : Settings)
    → find_setting k rest ≡ none
    → prefer (value_at ks (table rest)) (value_in k ks v) ≡ value_at ks (table (setting k v rest))
unfolding value_at value_in find_setting
value_in-value_at k [] v rest h = refl
value_in-value_at k (j ∷ ks) v rest h = elim (Bool-cases (k == j)) [
  | inl e ↦
      let gone : find_setting j rest ≡ none =
        subst (λ x. find_setting x rest ≡ none) ((eq_iff k j).0 e) h in
      rw (e, value_at, find_setting) (rw (gone, prefer) refl)
  | inr e ↦ rw (e, value_at, find_setting) (prefer-none _)
]

-- An entry of a list of options, for a name with the prefix of the table.
latest_one :
    (p k r : Text) (v : Scalar)
    → latest (p ++ r) ((p ++ k, v) ∷ []) ≡ (if k == r then some v else none)
unfolding latest
latest_one p k r v = elim (Bool-cases (k == r)) [
  | inl e ↦ rw e (rw ((eq_iff (p ++ k) (p ++ r)).1 (ap (λ x. p ++ x) ((eq_iff k r).0 e))) refl)
  | inr e ↦ elim (Bool-cases ((p ++ k) == (p ++ r))) [
    | inl f ↦ absurd (cc (e, (eq_iff k r).1 (append_cancel p k r ((eq_iff (p ++ k) (p ++ r)).0 f))))
    | inr f ↦ rw e (rw f refl)
  ]
]

-- The options below an entry that is a table.
below_cancel : (p k r s : Text) → p ++ r ≡ ((p ++ k) ++ codes ".") ++ s → r ≡ k ++ (b'.' ∷ s)
below_cancel p k r s e =
    append_cancel p r (k ++ (b'.' ∷ s))
      (e ∙ append_assoc (p ++ k) (codes ".") s ∙ append_assoc p k (b'.' ∷ s))

-- Splitting gives one part at least.
pub split_some : (r : Text) → (h : Text) × (ks : List Text) × (split_on b'.' r ≡ h ∷ ks)
split_some r = elim (split_cases r) [
  | whole w ↦ (r, [], split_none r w)
  | parts j s w q ↦ (j, split_on b'.' s, ap (split_on b'.') q ∙ split_dot j s w)
]

if_none : (b : Bool) → ◌≡◌ {A = Option Scalar} (if b then none else none) none
if_none true = refl
if_none false = refl

scalar_in :
    (k r : Text) (x : Scalar)
    → ¬ Memᴰ b'.' k
    → (if k == r then some x else none) ≡ value_in k (split_on b'.' r) (scalar x)
unfolding value_in value_at
scalar_in k r x nd = elim (split_cases r) [
  | whole w ↦ rw (split_none r w, value_in) refl
  | parts j s w q ↦
      let (h, ks, e) = split_some s in
      elim (Bool-cases (k == r)) [
        | inl f ↦
            absurd (nd (subst (λ y. Memᴰ b'.' y) (sym ((eq_iff k r).0 f ∙ q)) (dot_inside j s)))
        | inr f ↦ rw f (
            rw (ap (split_on b'.') q ∙ split_dot j s w, value_in)
              (rw (e, value_at) (sym (if_none (k == j)))))
      ]
]

-- No option of a table under a key has a name that does not begin with the key.
not_below :
    (p k r : Text) (t : Settings)
    → ((s : Text) → ¬ (r ≡ k ++ (b'.' ∷ s)))
    → latest (p ++ r) (items ((p ++ k) ++ codes ".") t) ≡ none
not_below p k r t h =
    latest-items-none (p ++ r) ((p ++ k) ++ codes ".") t (λ s e. h s (below_cancel p k r s e))

same_head :
    (j k s u : Text) → ¬ Memᴰ b'.' j → ¬ Memᴰ b'.' k → j ++ (b'.' ∷ s) ≡ k ++ (b'.' ∷ u) → k ≡ j
same_head j k s u nj nk e =
    let q : j ∷ split_on b'.' s ≡ k ∷ split_on b'.' u =
      sym (split_dot j s nj) ∙ ap (split_on b'.') e ∙ split_dot k u nk in
    cc q

mutual
  unfolding items items_of IsPlain IsPlainValue value_at value_in latest

  latest-items :
      (p r : Text) (t : Settings)
      → IsPlain t
      → latest (p ++ r) (items p t) ≡ value_at (split_on b'.' r) (table t)
  latest-items p r no_settings h = let (j, ks, e) = split_some r in rw (e, value_at) refl
  latest-items p r (setting k v rest) h =
      latest-append (p ++ r) (items_of (p ++ k) v) (items p rest)
      ∙ rw (latest-items p r rest h.3)
          (rw (latest-items_of p k r v h.0 h.2) (value_in-value_at k (split_on b'.' r) v rest h.1))

  latest-items_of :
      (p k r : Text) (v : Setting)
      → ¬ Memᴰ b'.' k
      → IsPlainValue v
      → latest (p ++ r) (items_of (p ++ k) v) ≡ value_in k (split_on b'.' r) v
  latest-items_of p k r (scalar x) nd h = latest_one p k r x ∙ scalar_in k r x nd
  latest-items_of p k r (table t) nd h = elim (split_cases r) [
    | whole w ↦
        not_below p k r t (λ s e. w (subst (λ y. Memᴰ b'.' y) (sym e) (dot_inside k s)))
        ∙ rw (split_none r w, value_in) (sym (if_none (k == r)))
    | parts j s w q ↦
        rw (ap (split_on b'.') q ∙ split_dot j s w, value_in)
          (elim (Bool-cases (k == j)) [
            | inl e ↦
                let from : p ++ r ≡ ((p ++ k) ++ codes ".") ++ s =
                  ap (λ x. p ++ x) (q ∙ ap (λ x. x ++ (b'.' ∷ s)) (sym ((eq_iff k j).0 e)))
                  ∙ sym (append_assoc (p ++ k) (codes ".") s ∙ append_assoc p k (b'.' ∷ s)) in
                rw e (
                  ap (λ n. latest n (items ((p ++ k) ++ codes ".") t)) from
                  ∙ latest-items ((p ++ k) ++ codes ".") s t h)
            | inr e ↦ rw e (
                not_below p k r t
                  (λ u f. absurd (cc (e, (eq_iff k j).1 (same_head j k s u w nd (sym q ∙ f))))))
          ])
  ]

-- For tables whose keys are without dots and distinct, the option that `_flatten` has under a dotted name is the one at the path that the parts
-- of the name make, through the tables.
pub lookup-flatten :
    (t : Settings) (name : Text)
    → IsPlain t
    → lookup name (flatten t) ≡ value_at (split_on b'.' name) (table t)
unfolding flatten lookup
lookup-flatten t name h =
    lookup-flatten_from name [] t [] ∙ prefer-none _ ∙ latest-items [] name t h
