-- ===== src/Base/Members.antt =====
-- Membership in the lists that comprehensions build.
use Prim.Native.Nat.{ℕ, zero, suc}
use mathlib.Core.Path.{◌≡◌, refl, ap, subst}
use mathlib.Core.Logic.{◌↔◌, ◌⊎◌, inl, inr, ⊎_elim}
use mathlib.Core.Bool.{Bool, true}
use mathlib.Core.Option.{Option, some, some-injective}
use mathlib.Core.List.{List, [], ◌∷◌, ◌++◌, Memᴰ}
use mathlib.Core.List.Memᴰ
use native.Mathlib.Omega.{arith}
use sp1_lean.Base.Tests.{Bool-cases, Option-cases}
use sp1_lean.Base.Lists.{keep, gather, choose, drop, take, all, any}
use sp1_lean.Base.Equality.{Comparable, eq_iff, contains}

-- A member in front, and one further back.
pub here {ℓ} : {A : Type ℓ} {a : A} {xs : List A} → Memᴰ a (a ∷ xs)
here = Memᴰ.head refl

pub there {ℓ} : {A : Type ℓ} {a x : A} {xs : List A} → Memᴰ a xs → Memᴰ a (x ∷ xs)
there = Memᴰ.tail

module _ {ℓ} {A : Type ℓ} where
  pub Memᴰ-nil : {a : A} → Memᴰ a [] → ⊥
  Memᴰ-nil = Memᴰ.not-nil

  pub Memᴰ-cons : (a x : A) (xs : List A) → Memᴰ a (x ∷ xs) ↔ ((a ≡ x) ⊎ Memᴰ a xs)
  Memᴰ-cons a x xs = (Memᴰ.cases_cons, ⊎_elim Memᴰ.head Memᴰ.tail)

  pub Memᴰ-append : (a : A) (xs ys : List A) → Memᴰ a (xs ++ ys) ↔ (Memᴰ a xs ⊎ Memᴰ a ys)
  Memᴰ-append a xs ys = (Memᴰ.append_cases xs, ⊎_elim (Memᴰ.append_left ys) (Memᴰ.append_right xs))

  pub Memᴰ-keep :
      (p : A → Bool) (a : A) (xs : List A) → Memᴰ a (keep p xs) ↔ (Memᴰ a xs × (p a ≡ true))
  unfolding keep
  Memᴰ-keep p a [] = (λ m. absurd (Memᴰ-nil m), λ m. absurd (Memᴰ-nil m.0))
  Memᴰ-keep p a (x ∷ xs) =
      ground
        (arith, Memᴰ-keep p a xs, Memᴰ-cons a x xs, Memᴰ-cons a x (keep p xs), ap p {x = a} {y = x})

  pub Memᴰ-drop : (n : ℕ) (a : A) (xs : List A) → Memᴰ a (drop n xs) → Memᴰ a xs
  Memᴰ-drop zero a xs m = m
  Memᴰ-drop (suc n) a [] m = m
  Memᴰ-drop (suc n) a (x ∷ xs) m = there (Memᴰ-drop n a xs m)

  pub Memᴰ-take : (n : ℕ) (a : A) (xs : List A) → Memᴰ a (take n xs) → Memᴰ a xs
  Memᴰ-take zero a xs m = absurd (Memᴰ-nil m)
  Memᴰ-take (suc n) a [] m = m
  Memᴰ-take (suc n) a (x ∷ xs) m =
      ⊎_elim Memᴰ.head (λ t. there (Memᴰ-take n a xs t)) (Memᴰ.cases_cons m)

  pub Memᴰ-take-or-drop :
      (n : ℕ) (a : A) (xs : List A) → Memᴰ a xs → Memᴰ a (take n xs) ⊎ Memᴰ a (drop n xs)
  Memᴰ-take-or-drop zero a xs m = inr m
  Memᴰ-take-or-drop (suc n) a [] m = inr m
  Memᴰ-take-or-drop (suc n) a (x ∷ xs) m =
      ⊎_elim (λ e. inl (Memᴰ.head e))
        (λ t. ⊎_elim (λ l. inl (there l)) inr (Memᴰ-take-or-drop n a xs t)) (Memᴰ.cases_cons m)

  -- `all` and `any` as statements about members.
  pub all-mem : (p : A → Bool) (a : A) (xs : List A) → all p xs ≡ true → Memᴰ a xs → p a ≡ true
  unfolding all
  all-mem p a [] h m = absurd (Memᴰ-nil m)
  all-mem p a (x ∷ xs) h m = ground (arith, Memᴰ-cons a x xs, all-mem p a xs, ap p {x = a} {y = x})

  pub all_intro :
      (p : A → Bool) (xs : List A) → ((a : A) → Memᴰ a xs → p a ≡ true) → all p xs ≡ true
  unfolding all
  all_intro p [] h = refl
  all_intro p (x ∷ xs) h = ground (arith, h x here, all_intro p xs (λ a m. h a (there m)))

  pub any-mem : (p : A → Bool) (xs : List A) → any p xs ≡ true → (a : A) × Memᴰ a xs × (p a ≡ true)
  unfolding any
  any-mem p [] h = ground arith
  any-mem p (x ∷ xs) h = elim (Bool-cases (p x)) [
    | inl e ↦ (x, here, e)
    | inr e ↦ let (a, m, q) = any-mem p xs (ground arith) in (a, there m, q)
  ]

  pub any_intro : (p : A → Bool) (a : A) (xs : List A) → Memᴰ a xs → p a ≡ true → any p xs ≡ true
  unfolding any
  any_intro p a [] m h = absurd (Memᴰ-nil m)
  any_intro p a (x ∷ xs) m h =
      ground
        (arith, Memᴰ-cons a x xs, λ (t : Memᴰ a xs). any_intro p a xs t h, ap p {x = a} {y = x})

module _ {ℓ κ} {A : Type ℓ} {B : Type κ} where
  pub Memᴰ-gather :
      (f : A → List B) (b : B) (xs : List A)
      → Memᴰ b (gather f xs) ↔ ((a : A) × Memᴰ a xs × Memᴰ b (f a))
  unfolding gather
  Memᴰ-gather f b [] = (λ m. absurd (Memᴰ-nil m), λ t. absurd (Memᴰ-nil t.1))
  Memᴰ-gather f b (x ∷ xs) = (
    λ m. elim ((Memᴰ-append b (f x) (gather f xs)).0 m) [
      | inl front ↦ (x, here, front)
      | inr back ↦ let (a, i, j) = (Memᴰ-gather f b xs).0 back in (a, there i, j)
    ],
    λ (a, i, j). (Memᴰ-append b (f x) (gather f xs)).1 (
        ⊎_elim (λ e. inl (subst (λ y. Memᴰ b (f y)) e j))
          (λ t. inr ((Memᴰ-gather f b xs).1 (a, t, j))) (Memᴰ.cases_cons i)),
  )

  pub Memᴰ-choose :
      (f : A → Option B) (b : B) (xs : List A)
      → Memᴰ b (choose f xs) ↔ ((a : A) × Memᴰ a xs × (f a ≡ some b))
  unfolding choose
  Memᴰ-choose f b [] = (λ m. absurd (Memᴰ-nil m), λ t. absurd (Memᴰ-nil t.1))
  Memᴰ-choose f b (x ∷ xs) = elim (Option-cases (f x)) [
    | inl e ↦
        rw (e, choose)
          (
            λ m. let (a, i, j) = (Memᴰ-choose f b xs).0 m in (a, there i, j),
            λ (a, i, j).
                ⊎_elim (λ q. cc (ap f q)) (λ t. (Memᴰ-choose f b xs).1 (a, t, j))
                  (Memᴰ.cases_cons i),
          )
    | inr (y, e) ↦
        rw (e, choose)
          (
            λ m.
                ⊎_elim (λ q. (x, here, cc))
                  (λ t. let (a, i, j) = (Memᴰ-choose f b xs).0 t in (a, there i, j))
                  (Memᴰ.cases_cons m),
            λ (a, i, j).
                ⊎_elim (λ q. Memᴰ.head (some-injective b y (cc (ap f q))))
                  (λ t. there ((Memᴰ-choose f b xs).1 (a, t, j))) (Memᴰ.cases_cons i),
          )
  ]

module _ {ℓ} {A : Type ℓ} ⦃e : Comparable A⦄ where
  pub contains_iff : (xs : List A) (a : A) → (contains xs a ≡ true) ↔ Memᴰ a xs
  unfolding contains
  contains_iff [] a = (λ h. cc, λ m. absurd (Memᴰ-nil m))
  contains_iff (x ∷ xs) a = ground (arith, contains_iff xs a, Memᴰ-cons a x xs, eq_iff a x)
