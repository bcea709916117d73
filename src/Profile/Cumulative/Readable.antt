-- ===== src/Profile/Cumulative/Readable.antt =====
-- The logs that `parse_cumulative` reads without an error.
use mathlib.Core.List.Memᴰ
use mathlib.Core.Option.{some-injective}
use sp1_lean.Base.{
  ℕ, ◌+◌, ◌≡◌, ◌≢◌, ◌↔◌, refl, sym, subst, ◌∙◌, ap, true, false, inl, inr, none, some, List, [],
  ◌∷◌, Memᴰ, Memᴰ-nil, Text, nat_eq, list_eq, starts_with, Bool-cases, Option-cases, here, there,
  if_true, if_false, if◌then◌else◌,
}
use sp1_lean.Base.Dict.{Dict, upsert}
use sp1_lean.Base.Results.{ok, ◌>>=◌, raise-not-ok, ok-injective, >>=-ok}
use sp1_lean.Texts.{split_lines}
use sp1_lean.Profile.Seconds.{seconds}
use sp1_lean.Profile.Cumulative.{
  category, times_header, bad_number, Block, add_category, read_times, read_all_times, no_block,
  parse_cumulative,
}

pub header_step :
    (b : Block) (l : Text)
    → starts_with times_header l ≡ true
    → read_times b l ≡ ok (record { in_block = true; categories = [] })
unfolding read_times
header_step b l h = rw h refl

pub outside_step :
    (b : Block) (l : Text)
    → starts_with times_header l ≡ false
    → b.in_block ≡ false
    → read_times b l ≡ ok b
unfolding read_times
outside_step b l h o = if_false _ _ _ h ∙ if_false _ _ _ o

pub inside_step :
    (b : Block) (l : Text)
    → starts_with times_header l ≡ false
    → b.in_block ≡ true
    → read_times b l ≡ add_category b (category l)
unfolding read_times
inside_step b l h o = if_false _ _ _ h ∙ if_true _ _ _ o

-- A line whose number, if it has a category, can be read.
abbrev pub CanRead : Text → Type 0
CanRead l =
    starts_with times_header l ≡ false
    → (name value unit : Text) → category l ≡ some (name, value, unit)
    → seconds value unit ≢ none

-- The lines behind the first header.
unfoldable pub behind_header : List Text → List Text
behind_header [] = []
behind_header (l ∷ ls) =
    let rest = behind_header ls in if starts_with times_header l then ls else rest

-- A line that can be read keeps the loop in the block.
CanRead-read :
    (b : Block) (l : Text)
    → b.in_block ≡ true
    → CanRead l
    → (c : Block) × (read_times b l ≡ ok c) × (c.in_block ≡ true)
unfolding add_category
CanRead-read b l o can = elim (Bool-cases (starts_with times_header l)) [
  | inl h ↦ (record { in_block = true; categories = [] }, header_step b l h, refl)
  | inr h ↦ elim (Option-cases (category l)) [
    | inl q ↦ (b, inside_step b l h o ∙ rw (q, add_category) refl, o)
    | inr ((name, value, unit), q) ↦ elim (Option-cases (seconds value unit)) [
      | inl r ↦ absurd (can h name value unit q r)
      | inr (n, r) ↦ (
        record b { categories = upsert name 0 (λ t. t + n) b.categories },
        inside_step b l h o ∙ rw (q, add_category) (rw r refl),
        o,
      )
    ]
  ]
]

read-CanRead :
    (b c : Block) (l : Text)
    → b.in_block ≡ true
    → read_times b l ≡ ok c
    → CanRead l × (c.in_block ≡ true)
unfolding add_category
read-CanRead b c l o e = elim (Bool-cases (starts_with times_header l)) [
  | inl h ↦ (
    λ f. absurd (cc (h, f)),
    sym (ap (λ (x : Block). x.in_block) (ok-injective _ c (sym (header_step b l h) ∙ e))),
  )
  | inr h ↦
      let step = sym (inside_step b l h o) ∙ e in
      elim (Option-cases (category l)) [
        | inl q ↦ (
          λ _ name value unit p. absurd (cc (q, p)),
          sym (ap (λ (x : Block). x.in_block) (ok-injective b c (rw (q, add_category) at step)))
              ∙ o,
        )
        | inr ((name, value, unit), q) ↦ elim (Option-cases (seconds value unit)) [
          | inl r ↦ absurd (raise-not-ok bad_number c (rw r at (rw (q, add_category) at step)))
          | inr (n, r) ↦ (
            λ _ x y z p. known x y z p q r,
            sym (
                  ap (λ (x : Block). x.in_block)
                    (ok-injective _ c (rw r at (rw (q, add_category) at step))))
                ∙ o,
          )
        ]
      ]
]
  where
    known :
        {name value unit : Text} {n : ℕ}
        → (x y z : Text) → category l ≡ some (x, y, z)
        → category l ≡ some (name, value, unit)
        → seconds value unit ≡ some n
        → seconds y z ≢ none
    known {name} {value} {unit} x y z p q r e =
        let same = some-injective (x, y, z) (name, value, unit) (sym p ∙ q) in
        cc (
          e,
          r,
          ap (λ (u : Text × Text × Text). u.1) same,
          ap (λ (u : Text × Text × Text). u.2) same,
        )

-- A list of lines that are all readable, from its first line on.
AllRead-cons :
    (l : Text) (ls : List Text)
    → CanRead l
    → ((x : Text) → Memᴰ x ls → CanRead x)
    → (x : Text) → Memᴰ x (l ∷ ls)
    → CanRead x
AllRead-cons l ls h rest x m = elim (Memᴰ.cases_cons m) [
  | inl q ↦ subst CanRead (sym q) h
  | inr t ↦ rest x t
]

inside_iff :
    (b : Block) (ls : List Text)
    → b.in_block ≡ true
    → ((c : Block) × (read_all_times b ls ≡ ok c)) ↔ ((l : Text) → Memᴰ l ls → CanRead l)
unfolding read_all_times
inside_iff b [] o = (λ _ l m. absurd (Memᴰ-nil m), λ _. (b, refl))
inside_iff b (l ∷ ls) o = (
  λ (c, e).
      let (d, q, rest) = >>=-ok (read_times b l) (λ x. read_all_times x ls) c e in
      let (can, still) = read-CanRead b d l o q in
      AllRead-cons l ls can ((inside_iff d ls still).0 (c, rest)),
  λ all.
      let (d, q, still) = CanRead-read b l o (all l here) in
      let (c, e) = (inside_iff d ls still).1 (λ x m. all x (there m)) in
      (c, ap (λ r. r >>= λ x. read_all_times x ls) q ∙ e),
)

outside_iff :
    (b : Block) (ls : List Text)
    → b.in_block ≡ false
    → ((c : Block) × (read_all_times b ls ≡ ok c))
      ↔ ((l : Text) → Memᴰ l (behind_header ls) → CanRead l)
unfolding read_all_times behind_header
outside_iff b [] o = (λ _ l m. absurd (Memᴰ-nil m), λ _. (b, refl))
outside_iff b (l ∷ ls) o = elim (Bool-cases (starts_with times_header l)) [
  | inl h ↦
      rw (header_step b l h, h) (inside_iff (record { in_block = true; categories = [] }) ls refl)
  | inr h ↦ rw (outside_step b l h o, h) (outside_iff b ls o)
]

-- A log is read exactly if the number of every line behind its first header that has a category can be read.
pub parse_cumulative-CanRead :
    (log : Text)
    → ((categories : Dict Text ℕ) × (parse_cumulative (some log) ≡ ok categories))
      ↔ ((l : Text) → Memᴰ l (behind_header (split_lines false log)) → CanRead l)
unfolding parse_cumulative
parse_cumulative-CanRead log = (
  λ (categories, e).
      let (b, q, _) =
        >>=-ok (read_all_times no_block (split_lines false log)) (λ x. ok x.categories) categories
          e in
      (outside_iff no_block (split_lines false log) refl).0 (b, q),
  λ all.
      let (b, q) = (outside_iff no_block (split_lines false log) refl).1 all in
      (b.categories, ap (λ r. r >>= λ x. ok x.categories) q),
)
