-- ===== src/Texts/Decimal.antt =====
-- Numbers that are printed and read again.
use sp1_lean.Base.{
  ℕ, zero, suc, ◌+◌, ◌/◌, ◌%◌, ◌≡◌, ◌<◌, sym, ◌∙◌, ap, inl, inr, [], ◌∷◌, Text, arith, ltb,
  Bool-cases,
}
use sp1_lean.Texts.{number_from, digits, decimal}

number_from-digits :
    (fuel n : ℕ) (text : Text) → n < fuel → number_from 0 (digits fuel n text) ≡ number_from n text
unfolding digits number_from
number_from-digits zero n text h = absurd (omega (arith, h))
number_from-digits (suc fuel) n text h = elim (Bool-cases (ltb n 10)) [
  | inl q ↦ rw (q, digits) (ap (λ m. number_from m text) (ground (arith, q)))
  | inr q ↦
      rw (q, digits)
        (number_from-digits fuel (n / 10) ((b'0' + n % 10) ∷ text) (ground (arith, q, h))
          ∙ ap (λ m. number_from m text) (omega arith))
]

-- Reading a number that was printed gives the number.
pub number_from-decimal : (n : ℕ) → number_from 0 (decimal n) ≡ n
unfolding decimal number_from
number_from-decimal n = number_from-digits (suc n) n [] (omega arith)

pub decimal-injective : (m n : ℕ) → decimal m ≡ decimal n → m ≡ n
decimal-injective m n e =
    sym (number_from-decimal m) ∙ (ap (number_from 0) e ∙ number_from-decimal n)
