-- ===== src/Flags/Toml/Enough.antt =====
-- The fuel of the loop over the elements of an array.
use mathlib.Core.Option.{some-injective}
use sp1_lean.Base.{
  ℕ, zero, suc, ◌+◌, ◌≡◌, ◌≤◌, ◌<◌, refl, ap, Bool, false, not, ◌&&◌, inl, inr, some, [], ◌∷◌, Text,
  arith, nat_beq, length, length-take, length-drop, take, ◌-◌, Bool-cases, Option-cases,
}
use sp1_lean.Base.Results.{ok, ◌>>=◌}
use sp1_lean.Regex.{is_dot}
use sp1_lean.Texts.{strip_left, reverse_onto, strip}
use sp1_lean.Flags.Toml.{string_body, string_match, strip_commas, elements, inside}

length-strip_left : (s : Text) → length (strip_left s) ≤ length s
unfolding strip_left
length-strip_left [] = omega arith
length-strip_left (c ∷ s) = ground (arith, length-strip_left s)

length-reverse_onto : (s rest : Text) → length (reverse_onto s rest) ≡ length s + length rest
unfolding reverse_onto
length-reverse_onto [] rest = omega arith
length-reverse_onto (c ∷ s) rest = omega (arith, length-reverse_onto s (c ∷ rest))

length-strip : (s : Text) → length (strip s) ≤ length s
unfolding strip
length-strip s =
    let left = strip_left s in
    let back = reverse_onto left [] in
    omega (
      arith,
      length-strip_left s,
      length-reverse_onto left [],
      length-strip_left back,
      length-reverse_onto (strip_left back) [],
    )

length-strip_commas : (s : Text) → length (strip_commas s) ≤ length s
unfolding strip_commas
length-strip_commas [] = omega arith
length-strip_commas (c ∷ s) = ground (arith, length-strip_commas s)

-- What is left behind a text in quotes is shorter.
length-string_body :
    (escaped : Bool) (s t rest : Text)
    → string_body escaped s ≡ some (t, rest)
    → length rest < length s
unfolding string_body
length-string_body escaped [] t rest e = absurd (cc e)
length-string_body escaped (c ∷ s) t rest e = elim (Bool-cases (not escaped && nat_beq c 34)) [
  | inl q ↦
      let same = some-injective ([], s) (t, rest) (rw (q, string_body) at e) in
      omega (arith, ap (λ (x : Text × Text). length x.1) same)
  | inr q ↦ elim (Bool-cases (escaped && not (is_dot c))) [
    | inl r ↦ absurd (cc (rw r at (rw (q, string_body) at e)))
    | inr r ↦ elim (Option-cases (string_body (not escaped && nat_beq c b'\\') s)) [
      | inl o ↦ absurd (cc (rw o at (rw r at (rw (q, string_body) at e))))
      | inr ((u, left), o) ↦
          let same =
            some-injective (c ∷ u, left) (t, rest) (rw o at (rw r at (rw (q, string_body) at e))) in
          omega (
            arith,
            ap (λ (x : Text × Text). length x.1) same,
            length-string_body (not escaped && nat_beq c b'\\') s u left o,
          )
    ]
  ]
]

length-string_match : (s t rest : Text) → string_match s ≡ some (t, rest) → length rest < length s
unfolding string_match
length-string_match [] t rest e = absurd (cc e)
length-string_match (c ∷ s) t rest e = elim (Bool-cases (nat_beq c 34)) [
  | inl q ↦ omega (arith, length-string_body false s t rest (rw (q, string_match) at e))
  | inr q ↦ absurd (cc (rw (q, string_match) at e))
]

-- What is left of an array once an element was read.
abbrev behind : Text → Text
behind rest = strip (strip_commas (strip rest))

length-behind : (rest : Text) → length (behind rest) ≤ length rest
length-behind rest = omega (
  arith,
  length-strip (strip_commas (strip rest)),
  length-strip_commas (strip rest),
  length-strip rest,
)

-- However much fuel there is beyond the length of the text, the elements, or the text at which the loop stops, are the same.
pub elements-enough :
    (n k : ℕ) (given : Text)
    → length given ≤ n
    → length given ≤ k
    → elements n given ≡ elements k given
unfolding elements
elements-enough n k [] h j = refl
elements-enough zero k (c ∷ given) h j = absurd (omega (arith, h))
elements-enough (suc n) zero (c ∷ given) h j = absurd (omega (arith, j))
elements-enough (suc n) (suc k) (c ∷ given) h j = elim (Option-cases (string_match (c ∷ given))) [
  | inl q ↦ rw (q, elements) refl
  | inr ((t, rest), q) ↦
      let shorter = length-string_match (c ∷ given) t rest q in
      let left = length-behind rest in
      rw (q, elements)
        (ap (λ r. r >>= λ more. ok (t ∷ more))
          (elements-enough n k (behind rest) (omega (arith, shorter, left, h))
            (omega (arith, shorter, left, j))))
]

-- The fuel that `parse_array` takes is enough: any more gives the same.
parse_array-enough :
    (raw : Text) (n : ℕ)
    → length raw ≤ n
    → elements (length raw) (strip (inside 1 1 raw)) ≡ elements n (strip (inside 1 1 raw))
parse_array-enough raw n h =
    let short = length-strip (inside 1 1 raw) in
    let cut = length-drop 1 (take (length raw - 1) raw) in
    let within = length-take (length raw - 1) raw in
    elements-enough (length raw) n (strip (inside 1 1 raw)) (omega (arith, short, cut, within))
      (omega (arith, short, cut, within, h))
