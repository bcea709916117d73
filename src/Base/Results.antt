-- ===== src/Base/Results.antt =====
-- Computations that may raise an error.
use sp1_lean.Base.{◌≡◌, refl, ap, ◌⊎◌, inl, inr, Bool, true, false}

pub data Result {ℓ κ} (E : Type ℓ) (A : Type κ) : Type (ℓ ⊔ κ) where
  raise : E → Result E A
  ok : A → Result E A

infixl 5 ◌>>=◌
abbrev pub ◌>>=◌ {ℓ κ μ} :
    {E : Type ℓ} {A : Type κ} {B : Type μ} → Result E A → (A → Result E B) → Result E B
raise e >>= f = raise e
ok a >>= f = f a

-- `if not b: raise e`
abbrev pub require {ℓ} : {E : Type ℓ} → Bool → E → Result E (Unit {0})
require true e = ok tt
require false e = raise e

pub Result-cases {ℓ κ} :
    {E : Type ℓ} {A : Type κ} (r : Result E A) → ((e : E) × (r ≡ raise e)) ⊎ ((a : A) × (r ≡ ok a))
Result-cases (raise e) = inl (e, refl)
Result-cases (ok a) = inr (a, refl)

pub raise-not-ok {ℓ κ} :
    {E : Type ℓ} {A : Type κ} (e : E) (a : A) → ¬ (◌≡◌ {A = Result E A} (raise e) (ok a))
raise-not-ok e a h = cc h

pub ok-injective {ℓ κ} :
    {E : Type ℓ} {A : Type κ} (a b : A) → ◌≡◌ {A = Result E A} (ok a) (ok b) → a ≡ b
ok-injective {E} {A} a b h = ap (λ (r : Result E A). elim r [ raise _ ↦ a | ok x ↦ x ]) h

-- What a chain of steps that may raise has gone through.
pub >>=-ok {ℓ κ μ} :
    {E : Type ℓ} {A : Type κ} {B : Type μ} (r : Result E A) (f : A → Result E B) (b : B)
    → (r >>= f) ≡ ok b
    → (a : A) × (r ≡ ok a) × (f a ≡ ok b)
>>=-ok (raise e) f b h = absurd (raise-not-ok e b h)
>>=-ok (ok a) f b h = (a, refl, h)

pub require-ok {ℓ} : {E : Type ℓ} (b : Bool) (e : E) (u : Unit {0}) → require b e ≡ ok u → b ≡ true
require-ok true e u h = refl
require-ok false e u h = absurd (raise-not-ok e u h)

-- A chain that starts with a test.
pub >>=-require {ℓ κ} :
    {E : Type ℓ} {B : Type κ} (t : Bool) (e : E) (f : Unit {0} → Result E B) (b : B)
    → (require t e >>= f) ≡ ok b
    → (t ≡ true) × (f tt ≡ ok b)
>>=-require true e f b h = (refl, h)
>>=-require false e f b h = absurd (raise-not-ok e b h)
