-- ===== src/Base/Items.antt =====
-- The last item of a key, in a list of items and in a dict that they are entered into.
use sp1_lean.Base.{
  ◌≡◌, refl, ◌∙◌, ap, Bool, true, false, inl, inr, Option, none, some, List, [], ◌∷◌, ◌++◌, Text,
  nat_eq, list_eq, ◌==◌, if◌then◌else◌, choose, Option-cases,
}
use sp1_lean.Base.Dict.{Dict, lookup, insert, lookup-insert}

abbrev pub prefer {ℓ} : {V : Type ℓ} → Option V → Option V → Option V
prefer none b = b
prefer (some a) b = some a

-- The value of the last item with a key.
unfoldable pub latest {ℓ} : {V : Type ℓ} → Text → List (Text × V) → Option V
latest k [] = none
latest k ((j, v) ∷ items) = prefer (latest k items) (if j == k then some v else none)

pub prefer_assoc {ℓ} :
    {V : Type ℓ} (a b c : Option V) → prefer (prefer a b) c ≡ prefer a (prefer b c)
prefer_assoc none b c = refl
prefer_assoc (some a) b c = refl

pub prefer-none {ℓ} : {V : Type ℓ} (a : Option V) → prefer a none ≡ a
prefer-none none = refl
prefer-none (some a) = refl

pub latest-append {ℓ} :
    {V : Type ℓ} (k : Text) (xs ys : List (Text × V))
    → latest k (xs ++ ys) ≡ prefer (latest k ys) (latest k xs)
unfolding latest
latest-append k [] ys = elim (Option-cases (latest k ys)) [
  | inl e ↦ rw e refl
  | inr (v, e) ↦ rw e refl
]
latest-append k ((j, v) ∷ xs) ys =
    rw (latest-append k xs ys) (prefer_assoc (latest k ys) (latest k xs) _)

pub prefer_if {ℓ} :
    {V : Type ℓ} (b : Bool) (l : Option V) (v : V) (m : Option V)
    → prefer l (if b then some v else m) ≡ prefer (prefer l (if b then some v else none)) m
prefer_if true none v m = refl
prefer_if true (some w) v m = refl
prefer_if false none v m = refl
prefer_if false (some w) v m = refl

pub choose-some {ℓ κ} :
    {A : Type ℓ} {B : Type κ} (f : A → Option B) (x : A) (xs : List A) {y : B}
    → f x ≡ some y
    → choose f (x ∷ xs) ≡ y ∷ choose f xs
unfolding choose
choose-some f x xs e = rw (e, choose) refl

pub choose-none {ℓ κ} :
    {A : Type ℓ} {B : Type κ} (f : A → Option B) (x : A) (xs : List A)
    → f x ≡ none
    → choose f (x ∷ xs) ≡ choose f xs
unfolding choose
choose-none f x xs e = rw (e, choose) refl

-- A dict whose items are overwritten by others in turn.
pub prefer-insert {ℓ} :
    {V : Type ℓ} (k j : Text) (v : V) (d : Dict Text V) (items : List (Text × V))
    → prefer (latest k items) (lookup k (insert j v d))
      ≡ prefer (latest k ((j, v) ∷ items)) (lookup k d)
unfolding latest
prefer-insert k j v d items =
    ap (prefer (latest k items)) (lookup-insert k j v d)
    ∙ prefer_if (j == k) (latest k items) v (lookup k d)
