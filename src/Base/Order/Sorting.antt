-- ===== src/Base/Order/Sorting.antt =====
-- `sorted(xs, key=key)` and `sorted(xs, key=key, reverse=True)`: both keep the order of elements
-- with equal keys.
use mathlib.Core.Logic.{⊎_elim}
use mathlib.Core.List.{Perm}
use mathlib.Core.List.Memᴰ
use mathlib.Core.List.Perm
use sp1_lean.Base.{
  ◌≡◌, refl, false, ◌↔◌, inl, inr, List, [], ◌∷◌, Memᴰ, arith, if◌then◌else◌, Bool-cases, Memᴰ-nil,
  Memᴰ-cons,
}
use sp1_lean.Base.Order.{Order, less, less_trans_neg, less_asymm}

module _ {ℓ κ} {A : Type ℓ} {K : Type κ} ⦃o : Order K⦄ (key : A → K) where
  unfoldable pub insert_by : A → List A → List A
  insert_by x [] = x ∷ []
  insert_by x (y ∷ ys) =
      let rest = insert_by x ys in if less (key y) (key x) then y ∷ rest else x ∷ y ∷ ys

  unfoldable pub sort_by : List A → List A
  unfolding insert_by
  sort_by [] = []
  sort_by (x ∷ xs) = insert_by x (sort_by xs)

  unfoldable pub insert_down : A → List A → List A
  insert_down x [] = x ∷ []
  insert_down x (y ∷ ys) =
      let rest = insert_down x ys in if less (key x) (key y) then y ∷ rest else x ∷ y ∷ ys

  unfoldable pub sort_down : List A → List A
  unfolding insert_down
  sort_down [] = []
  sort_down (x ∷ xs) = insert_down x (sort_down xs)

  insert_by-perm : (x : A) (xs : List A) → Perm (insert_by x xs) (x ∷ xs)
  unfolding insert_by
  insert_by-perm x [] = Perm.refl _
  insert_by-perm x (y ∷ ys) = elim (Bool-cases (less (key y) (key x))) [
    | inl e ↦ rw (e, insert_by) (Perm.trans (Perm.cons y (insert_by-perm x ys)) (Perm.swap x y ys))
    | inr e ↦ rw (e, insert_by) (Perm.refl _)
  ]

  -- Sorting only reorders.
  pub sort_by-perm : (xs : List A) → Perm (sort_by xs) xs
  unfolding sort_by
  sort_by-perm [] = Perm.refl []
  sort_by-perm (x ∷ xs) = Perm.trans (insert_by-perm x (sort_by xs)) (Perm.cons x (sort_by-perm xs))

  Memᴰ-insert_by : (a x : A) (xs : List A) → Memᴰ a (insert_by x xs) ↔ Memᴰ a (x ∷ xs)
  unfolding insert_by
  Memᴰ-insert_by a x [] = (λ m. m, λ m. m)
  Memᴰ-insert_by a x (y ∷ ys) = elim (Bool-cases (less (key y) (key x))) [
    | inl e ↦
        rw (e, insert_by)
          (ground (
            arith,
            Memᴰ-insert_by a x ys,
            Memᴰ-cons a x ys,
            Memᴰ-cons a y (insert_by x ys),
            Memᴰ-cons a x (y ∷ ys),
            Memᴰ-cons a y ys,
          ))
    | inr e ↦ rw (e, insert_by) (λ m. m, λ m. m)
  ]

  pub Memᴰ-sort_by : (a : A) (xs : List A) → Memᴰ a (sort_by xs) ↔ Memᴰ a xs
  unfolding sort_by
  Memᴰ-sort_by a [] = (λ m. m, λ m. m)
  Memᴰ-sort_by a (x ∷ xs) = ground (
    arith,
    Memᴰ-insert_by a x (sort_by xs),
    Memᴰ-sort_by a xs,
    Memᴰ-cons a x (sort_by xs),
    Memᴰ-cons a x xs,
  )

  Memᴰ-insert_down : (a x : A) (xs : List A) → Memᴰ a (insert_down x xs) ↔ Memᴰ a (x ∷ xs)
  unfolding insert_down
  Memᴰ-insert_down a x [] = (λ m. m, λ m. m)
  Memᴰ-insert_down a x (y ∷ ys) = elim (Bool-cases (less (key x) (key y))) [
    | inl e ↦
        rw (e, insert_down)
          (ground (
            arith,
            Memᴰ-insert_down a x ys,
            Memᴰ-cons a x ys,
            Memᴰ-cons a y (insert_down x ys),
            Memᴰ-cons a x (y ∷ ys),
            Memᴰ-cons a y ys,
          ))
    | inr e ↦ rw (e, insert_down) (λ m. m, λ m. m)
  ]

  pub Memᴰ-sort_down : (a : A) (xs : List A) → Memᴰ a (sort_down xs) ↔ Memᴰ a xs
  unfolding sort_down
  Memᴰ-sort_down a [] = (λ m. m, λ m. m)
  Memᴰ-sort_down a (x ∷ xs) = ground (
    arith,
    Memᴰ-insert_down a x (sort_down xs),
    Memᴰ-sort_down a xs,
    Memᴰ-cons a x (sort_down xs),
    Memᴰ-cons a x xs,
  )

  -- Sorted upwards: no element is below one before it.
  abbrev pub Above : A → List A → Type ℓ
  Above x ys = (a : A) → Memᴰ a ys → less (key a) (key x) ≡ false

  abbrev pub IsSorted : List A → Type ℓ
  IsSorted [] = Unit
  IsSorted (x ∷ xs) = Above x xs × IsSorted xs

  insert_by-IsSorted : (x : A) (xs : List A) → IsSorted xs → IsSorted (insert_by x xs)
  unfolding insert_by
  insert_by-IsSorted x [] s = (λ a m. absurd (Memᴰ-nil m), tt)
  insert_by-IsSorted x (y ∷ ys) s = elim (Bool-cases (less (key y) (key x))) [
    | inl e ↦
        rw (e, insert_by)
          (
            λ a m.
                ⊎_elim (λ q. rw q (less_asymm (key y) (key x) e)) (s.0 a)
                  (Memᴰ.cases_cons ((Memᴰ-insert_by a x ys).0 m)),
            insert_by-IsSorted x ys s.1,
          )
    | inr e ↦
        rw (e, insert_by)
          (
            λ a m.
                ⊎_elim (λ q. rw q e) (λ t. less_trans_neg (key x) (key y) (key a) e (s.0 a t))
                  (Memᴰ.cases_cons m),
            s,
          )
  ]

  pub sort_by-IsSorted : (xs : List A) → IsSorted (sort_by xs)
  unfolding sort_by
  sort_by-IsSorted [] = tt
  sort_by-IsSorted (x ∷ xs) = insert_by-IsSorted x (sort_by xs) (sort_by-IsSorted xs)

  -- Sorted downwards: no element is above one before it.
  abbrev pub IsSortedDown : List A → Type ℓ
  IsSortedDown [] = Unit
  IsSortedDown (x ∷ xs) = ((a : A) → Memᴰ a xs → less (key x) (key a) ≡ false) × IsSortedDown xs

  insert_down-IsSortedDown :
      (x : A) (xs : List A) → IsSortedDown xs → IsSortedDown (insert_down x xs)
  unfolding insert_down
  insert_down-IsSortedDown x [] s = (λ a m. absurd (Memᴰ-nil m), tt)
  insert_down-IsSortedDown x (y ∷ ys) s = elim (Bool-cases (less (key x) (key y))) [
    | inl e ↦
        rw (e, insert_down)
          (
            λ a m.
                ⊎_elim (λ q. rw q (less_asymm (key x) (key y) e)) (s.0 a)
                  (Memᴰ.cases_cons ((Memᴰ-insert_down a x ys).0 m)),
            insert_down-IsSortedDown x ys s.1,
          )
    | inr e ↦
        rw (e, insert_down)
          (
            λ a m.
                ⊎_elim (λ q. rw q e) (λ t. less_trans_neg (key a) (key y) (key x) (s.0 a t) e)
                  (Memᴰ.cases_cons m),
            s,
          )
  ]

  pub sort_down-IsSortedDown : (xs : List A) → IsSortedDown (sort_down xs)
  unfolding sort_down
  sort_down-IsSortedDown [] = tt
  sort_down-IsSortedDown (x ∷ xs) =
      insert_down-IsSortedDown x (sort_down xs) (sort_down-IsSortedDown xs)

-- Elements that are pairwise related both ways stay so when they are sorted.
abbrev pub Apart {ℓ κ} : {A : Type ℓ} → (A → A → Type κ) → List A → Type (ℓ ⊔ κ)
Apart R [] = Unit
Apart R (x ∷ xs) = ((a : _) → Memᴰ a xs → R x a) × Apart R xs

module _ {ℓ κ ι} {A : Type ℓ} {K : Type κ} ⦃o : Order K⦄ (key : A → K) (R : A → A → Type ι)
    (flip : (x y : A) → R x y → R y x) where
  insert_by-Apart :
      (x : A) (xs : List A)
      → ((a : A) → Memᴰ a xs → R x a)
      → Apart R xs
      → Apart R (insert_by key x xs)
  unfolding insert_by
  insert_by-Apart x [] h s = (h, tt)
  insert_by-Apart x (y ∷ ys) h s = elim (Bool-cases (less (key y) (key x))) [
    | inl e ↦
        rw (e, insert_by)
          (
            λ a m.
                ⊎_elim (λ q. rw q (flip x y (h y (Memᴰ.head refl)))) (s.0 a)
                  (Memᴰ.cases_cons ((Memᴰ-insert_by key a x ys).0 m)),
            insert_by-Apart x ys (λ a m. h a (Memᴰ.tail m)) s.1,
          )
    | inr e ↦ rw (e, insert_by) (h, s)
  ]

  pub sort_by-Apart : (xs : List A) → Apart R xs → Apart R (sort_by key xs)
  unfolding sort_by
  sort_by-Apart [] s = tt
  sort_by-Apart (x ∷ xs) s =
      insert_by-Apart x (sort_by key xs) (λ a m. s.0 a ((Memᴰ-sort_by key a xs).0 m))
        (sort_by-Apart xs s.1)

  insert_down-Apart :
      (x : A) (xs : List A)
      → ((a : A) → Memᴰ a xs → R x a)
      → Apart R xs
      → Apart R (insert_down key x xs)
  unfolding insert_down
  insert_down-Apart x [] h s = (h, tt)
  insert_down-Apart x (y ∷ ys) h s = elim (Bool-cases (less (key x) (key y))) [
    | inl e ↦
        rw (e, insert_down)
          (
            λ a m.
                ⊎_elim (λ q. rw q (flip x y (h y (Memᴰ.head refl)))) (s.0 a)
                  (Memᴰ.cases_cons ((Memᴰ-insert_down key a x ys).0 m)),
            insert_down-Apart x ys (λ a m. h a (Memᴰ.tail m)) s.1,
          )
    | inr e ↦ rw (e, insert_down) (h, s)
  ]

  pub sort_down-Apart : (xs : List A) → Apart R xs → Apart R (sort_down key xs)
  unfolding sort_down
  sort_down-Apart [] s = tt
  sort_down-Apart (x ∷ xs) s =
      insert_down-Apart x (sort_down key xs) (λ a m. s.0 a ((Memᴰ-sort_down key a xs).0 m))
        (sort_down-Apart xs s.1)
