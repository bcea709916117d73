-- ===== src/Base/Order.antt =====
-- Python's `max`, `sorted` and comparison of texts, over any totally ordered key.
pub mod Sorting
use Prim.Native.Nat.{◌≤◌}
use mathlib.Core.Logic.{⊎_elim, ◌↔◌}
use mathlib.Core.List.Memᴰ
use mathlib.Core.Option.{some-injective}
use sp1_lean.Base.{
  ℕ, ◌≡◌, refl, sym, ap, Bool, true, false, ◌⊎◌, inl, inr, Option, none, some, List, [], ◌∷◌, Memᴰ,
  arith, ltb, if◌then◌else◌, Bool-cases, here, there, Memᴰ-nil, Memᴰ-cons, Text,
}

pub record Order {ℓ} (K : Type ℓ) : Type ℓ where
  pub less : K → K → Bool
  pub less_irrefl : (a : K) → less a a ≡ false
  pub less_trans : (a b c : K) → less a b ≡ true → less b c ≡ true → less a c ≡ true
  pub less_total : (a b : K) → less a b ≡ false → less b a ≡ false → a ≡ b

abbrev pub less {ℓ} : {K : Type ℓ} ⦃o : Order K⦄ → K → K → Bool
less ⦃o⦄ = o.less

module _ {ℓ} {K : Type ℓ} ⦃o : Order K⦄ where
  -- "Not above" is transitive too.
  pub less_trans_neg : (a b c : K) → less b a ≡ false → less c b ≡ false → less c a ≡ false
  less_trans_neg a b c h k = elim (Bool-cases (less c a)) [
    | inr e ↦ e
    | inl e ↦ elim (Bool-cases (less a b)) [
      | inl lower ↦ cc (o.less_trans c a b e lower)
      | inr level ↦ cc (o.less_total a b level h)
    ]
  ]

  pub less_asymm : (a b : K) → less a b ≡ true → less b a ≡ false
  less_asymm a b h = elim (Bool-cases (less b a)) [
    | inr e ↦ e
    | inl e ↦ cc (o.less_trans a b a h e, o.less_irrefl a)
  ]

pub ltb_irrefl : (a : ℕ) → ltb a a ≡ false
ltb_irrefl a = ground arith

pub ltb_trans : (a b c : ℕ) → ltb a b ≡ true → ltb b c ≡ true → ltb a c ≡ true
ltb_trans a b c h k = ground arith

pub ltb_total : (a b : ℕ) → ltb a b ≡ false → ltb b a ≡ false → a ≡ b
ltb_total a b h k = ground arith

instance abbrev pub nat_order : Order ℕ
nat_order = record {
  less = ltb;
  less_irrefl = ltb_irrefl;
  less_trans = ltb_trans;
  less_total = ltb_total;
}

-- Texts are compared code point by code point, and a proper prefix comes first.
unfoldable pub text_less : Text → Text → Bool
text_less [] [] = false
text_less [] (_ ∷ _) = true
text_less (_ ∷ _) [] = false
text_less (x ∷ xs) (y ∷ ys) =
    let rest = text_less xs ys in if ltb x y then true else if ltb y x then false else rest

pub text_less_irrefl : (a : Text) → text_less a a ≡ false
unfolding text_less
text_less_irrefl [] = refl
text_less_irrefl (x ∷ xs) = ground (arith, text_less_irrefl xs)

pub text_less_trans :
    (a b c : Text) → text_less a b ≡ true → text_less b c ≡ true → text_less a c ≡ true
unfolding text_less
text_less_trans [] [] c h k = ground arith
text_less_trans [] (y ∷ ys) [] h k = ground arith
text_less_trans [] (y ∷ ys) (z ∷ zs) h k = refl
text_less_trans (x ∷ xs) [] c h k = ground arith
text_less_trans (x ∷ xs) (y ∷ ys) [] h k = ground arith
text_less_trans (x ∷ xs) (y ∷ ys) (z ∷ zs) h k = ground (arith, text_less_trans xs ys zs)

pub text_less_total : (a b : Text) → text_less a b ≡ false → text_less b a ≡ false → a ≡ b
unfolding text_less
text_less_total [] [] h k = refl
text_less_total [] (y ∷ ys) h k = ground arith
text_less_total (x ∷ xs) [] h k = ground arith
text_less_total (x ∷ xs) (y ∷ ys) h k = ground (arith, text_less_total xs ys)

instance abbrev pub text_order : Order Text
text_order = record {
  less = text_less;
  less_irrefl = text_less_irrefl;
  less_trans = text_less_trans;
  less_total = text_less_total;
}

module _ {ℓ κ} {A : Type ℓ} {K : Type κ} ⦃o : Order K⦄ (key : A → K) where
  -- `max(x :: xs, key=key)` is the first of the maximal elements.
  unfoldable pub max_from : A → List A → A
  max_from best [] = best
  max_from best (x ∷ xs) = max_from (if less (key best) (key x) then x else best) xs

  unfoldable pub max_by : List A → Option A
  unfolding max_from
  max_by [] = none
  max_by (x ∷ xs) = some (max_from x xs)

  max_from-mem : (best : A) (xs : List A) → Memᴰ (max_from best xs) (best ∷ xs)
  unfolding max_from
  max_from-mem best [] = here
  max_from-mem best (x ∷ xs) = elim (Bool-cases (less (key best) (key x))) [
    | inl e ↦ rw (e, max_from) (there (max_from-mem x xs))
    | inr e ↦
        rw (e, max_from)
          (⊎_elim Memᴰ.head (λ t. there (there t)) (Memᴰ.cases_cons (max_from-mem best xs)))
  ]

  max_from-above :
      (best a : A) (xs : List A)
      → Memᴰ a (best ∷ xs)
      → less (key (max_from best xs)) (key a) ≡ false
  unfolding max_from
  max_from-above best a [] m = rw (Memᴰ.eq_of_singleton m) (o.less_irrefl _)
  max_from-above best a (x ∷ xs) m = elim (Bool-cases (less (key best) (key x))) [
    | inl e ↦
        rw (e, max_from)
          (⊎_elim
            (λ q.
              less_trans_neg (key a) (key x) (key (max_from x xs))
                (rw q (less_asymm (key best) (key x) e)) (max_from-above x x xs here))
            (max_from-above x a xs) (Memᴰ.cases_cons m))
    | inr e ↦
        rw (e, max_from)
          (⊎_elim (λ q. max_from-above best a xs (Memᴰ.head q))
            (λ t.
              ⊎_elim
                (λ q.
                  less_trans_neg (key a) (key best) (key (max_from best xs)) (rw q e)
                    (max_from-above best best xs here))
                (λ u. max_from-above best a xs (there u)) (Memᴰ.cases_cons t))
            (Memᴰ.cases_cons m))
  ]

  pub max_by-mem : {m : A} (xs : List A) → max_by xs ≡ some m → Memᴰ m xs
  unfolding max_by
  max_by-mem [] h = cc
  max_by-mem (x ∷ xs) h = Memᴰ.cast (sym (some-injective _ _ h)) (max_from-mem x xs)

  -- No member is above the maximum.
  pub max_by-above :
      {m : A} (a : A) (xs : List A) → max_by xs ≡ some m → Memᴰ a xs → less (key m) (key a) ≡ false
  unfolding max_by
  max_by-above a [] h i = cc
  max_by-above a (x ∷ xs) h i = rw (sym (some-injective _ _ h)) (max_from-above x a xs i)

  pub max_by-none : (xs : List A) → (max_by xs ≡ none) ↔ (xs ≡ [])
  unfolding max_by
  max_by-none [] = ground arith
  max_by-none (x ∷ xs) = ground arith

  pub max_by-some : (a : A) (xs : List A) → Memᴰ a xs → (m : A) × (max_by xs ≡ some m)
  unfolding max_by
  max_by-some a [] i = absurd (Memᴰ-nil i)
  max_by-some a (x ∷ xs) i = (max_from x xs, refl)
