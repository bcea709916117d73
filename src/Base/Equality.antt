-- ===== src/Base/Equality.antt =====
-- Python's `==` and `in`, and texts as lists of code points.
use Prim.Native.Char.{code}
use Prim.Native.Nat.{ℕ}
use Prim.Native.String.{String}
use mathlib.Core.Path.{◌≡◌, refl}
use mathlib.Core.Logic.{◌↔◌}
use mathlib.Core.Bool.{Bool, true, false, ◌&&◌, ◌||◌}
use mathlib.Core.Option.{Option, none, some}
use mathlib.Core.List.{List, [], ◌∷◌}
use native.Mathlib.Omega.{arith}
use sp1_lean.Base.Tests.{nat_beq, nat_beq_iff}

-- A type whose values can be compared.
pub record Comparable {ℓ} (A : Type ℓ) : Type ℓ where
  pub is_same : A → A → Bool
  pub is_same_iff : (x y : A) → (is_same x y ≡ true) ↔ (x ≡ y)

instance abbrev pub nat_eq : Comparable ℕ
nat_eq = record { is_same = nat_beq; is_same_iff = nat_beq_iff }

infix 50 ◌==◌
abbrev pub ◌==◌ {ℓ} : {A : Type ℓ} ⦃c : Comparable A⦄ (x y : A) → Bool
◌==◌ ⦃c⦄ x y = c.is_same x y

pub eq_iff {ℓ} : {A : Type ℓ} ⦃c : Comparable A⦄ (x y : A) → ((x == y) ≡ true) ↔ (x ≡ y)
eq_iff ⦃c⦄ x y = c.is_same_iff x y

module _ {ℓ} {A : Type ℓ} ⦃e : Comparable A⦄ where
  unfoldable pub list_beq : List A → List A → Bool
  list_beq [] [] = true
  list_beq [] (_ ∷ _) = false
  list_beq (_ ∷ _) [] = false
  list_beq (x ∷ xs) (y ∷ ys) = (x == y) && list_beq xs ys

  pub list_beq_iff : (xs ys : List A) → (list_beq xs ys ≡ true) ↔ (xs ≡ ys)
  unfolding list_beq
  list_beq_iff [] [] = ground arith
  list_beq_iff [] (y ∷ ys) = ground arith
  list_beq_iff (x ∷ xs) [] = ground arith
  list_beq_iff (x ∷ xs) (y ∷ ys) = ground (arith, list_beq_iff xs ys, eq_iff x y)

  unfoldable pub option_beq : Option A → Option A → Bool
  option_beq none none = true
  option_beq (some x) (some y) = x == y
  option_beq _ _ = false

  pub option_beq_iff : (a b : Option A) → (option_beq a b ≡ true) ↔ (a ≡ b)
  unfolding option_beq
  option_beq_iff none none = ground arith
  option_beq_iff none (some y) = ground arith
  option_beq_iff (some x) none = ground arith
  option_beq_iff (some x) (some y) = ground (arith, eq_iff x y)

  instance abbrev pub list_eq : Comparable (List A)
  list_eq = record { is_same = list_beq; is_same_iff = list_beq_iff }

  instance abbrev pub option_eq : Comparable (Option A)
  option_eq = record { is_same = option_beq; is_same_iff = option_beq_iff }

  -- `x in xs`
  unfoldable pub contains : List A → A → Bool
  contains [] a = false
  contains (x ∷ xs) a = (a == x) || contains xs a

pub eq_refl {ℓ} : {A : Type ℓ} ⦃e : Comparable A⦄ (a : A) → (a == a) ≡ true
eq_refl a = (eq_iff a a).1 refl

-- A text is the list of its code points.
abbrev pub Text : Type 0
Text = List ℕ

abbrev pub codes : String → Text
codes String.[] = []
codes (String.◌∷◌ c s) = code c ∷ codes s

-- `s.startswith(w)`, written `starts_with w s`
unfoldable pub starts_with : Text → Text → Bool
starts_with [] s = true
starts_with (c ∷ w) [] = false
starts_with (c ∷ w) (d ∷ s) = nat_beq c d && starts_with w s
