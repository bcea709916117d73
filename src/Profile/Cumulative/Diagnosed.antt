-- ===== src/Profile/Cumulative/Diagnosed.antt =====
-- The diagnostics for which `check_log` searches a log.
use sp1_lean.Base.{
  ℕ, ◌≡◌, ◌↔◌, ◌⊎◌, refl, sym, subst, ap, Bool, true, false, not, ◌&&◌, ◌||◌, inl, inr, [], ◌∷◌,
  ◌++◌, Text, codes, arith, starts_with, Bool-cases,
}
use sp1_lean.Profile.Cumulative.{is_word_char, diagnosed_from, diagnosed}

-- A prefix and what follows it.
abbrev Begins : Text → Text → Type 0
Begins word text = (after : Text) × (text ≡ word ++ after)

cons_head : {x y : ℕ} {xs ys : Text} → ◌≡◌ {A = Text} (x ∷ xs) (y ∷ ys) → x ≡ y
cons_head {x} e = ap (λ (t : Text). elim t [ [] ↦ x | c ∷ _ ↦ c ]) e

cons_tail : {x y : ℕ} {xs ys : Text} → ◌≡◌ {A = Text} (x ∷ xs) (y ∷ ys) → xs ≡ ys
cons_tail e = ap (λ (t : Text). elim t [ [] ↦ [] | _ ∷ r ↦ r ]) e

starts_with_iff : (w text : Text) → (starts_with w text ≡ true) ↔ Begins w text
unfolding starts_with
starts_with_iff [] text = (λ _. (text, refl), λ _. refl)
starts_with_iff (c ∷ w) [] = (λ h. absurd (cc h), λ (t, e). absurd (cc e))
starts_with_iff (c ∷ w) (d ∷ text) = (
  λ h.
      let (t, e) = (starts_with_iff w text).0 (ground (arith, h)) in
      let same : d ≡ c = ground (arith, h) in (t, rw same (ap (λ x. c ∷ x) e)),
  λ (t, e).
      let head = cons_head e in
      let rest = (starts_with_iff w text).1 (t, cons_tail e) in ground (arith, head, rest),
)

-- Whether the last character of a text is one of a word; the flag stands for an empty text.
abbrev pub ends_in_word : Bool → Text → Bool
ends_in_word inside [] = inside
ends_in_word inside (c ∷ text) = ends_in_word (is_word_char c) text

-- What counts as a diagnostic.
pub data Message : Text → Type 0 where
  overflow : Message (codes "stack overflow")
  panic : Message (codes "PANIC")
  uncaught : Message (codes "uncaught exception")

-- What counts as one where no word goes before it directly.
pub data Marker : Text → Type 0 where
  error : Marker (codes "error:")
  warning : Marker (codes "warning:")

pub record HasDiagnostic (inside : Bool) (text : Text) : Type 0 where
  pub before : Text
  pub word : Text
  pub after : Text
  pub split : text ≡ before ++ (word ++ after)
  pub counts : Message word ⊎ (Marker word × (ends_in_word inside before ≡ false))

-- A diagnostic at the beginning of a text.
abbrev here_diagnosed : Bool → Text → Bool
here_diagnosed inside text =
    (not inside && (starts_with (codes "error:") text || starts_with (codes "warning:") text))
    || starts_with (codes "stack overflow") text
    || starts_with (codes "PANIC") text
    || starts_with (codes "uncaught exception") text

abbrev AtStart : Bool → Text → Type 0
AtStart inside text =
    (word : Text) × Begins word text × (Message word ⊎ (Marker word × (inside ≡ false)))

AtStart-text :
    (inside : Bool) (text : Text) → AtStart inside text → here_diagnosed inside text ≡ true
AtStart-text inside text (w, b, inl overflow) = ground (arith, (starts_with_iff w text).1 b)
AtStart-text inside text (w, b, inl panic) = ground (arith, (starts_with_iff w text).1 b)
AtStart-text inside text (w, b, inl uncaught) = ground (arith, (starts_with_iff w text).1 b)
AtStart-text inside text (w, b, inr (error, h)) = ground (arith, (starts_with_iff w text).1 b)
AtStart-text inside text (w, b, inr (warning, h)) = ground (arith, (starts_with_iff w text).1 b)

text-AtStart :
    (inside : Bool) (text : Text) → here_diagnosed inside text ≡ true → AtStart inside text
text-AtStart inside text h = elim (Bool-cases (starts_with (codes "stack overflow") text)) [
  | inl q ↦ (codes "stack overflow", (starts_with_iff _ text).0 q, inl overflow)
  | inr a ↦ elim (Bool-cases (starts_with (codes "PANIC") text)) [
    | inl q ↦ (codes "PANIC", (starts_with_iff _ text).0 q, inl panic)
    | inr b ↦ elim (Bool-cases (starts_with (codes "uncaught exception") text)) [
      | inl q ↦ (codes "uncaught exception", (starts_with_iff _ text).0 q, inl uncaught)
      | inr d ↦ elim (Bool-cases (starts_with (codes "error:") text)) [
        | inl q ↦ (codes "error:", (starts_with_iff _ text).0 q, inr (error, outside a b d h))
        | inr e ↦ (
          codes "warning:",
          (starts_with_iff _ text).0 (marked a b d h e),
          inr (warning, outside a b d h),
        )
      ]
    ]
  ]
]
  where
    outside :
        starts_with (codes "stack overflow") text ≡ false
        → starts_with (codes "PANIC") text ≡ false
        → starts_with (codes "uncaught exception") text ≡ false
        → here_diagnosed inside text ≡ true
        → inside ≡ false
    outside a b d h = ground arith

    marked :
        starts_with (codes "stack overflow") text ≡ false
        → starts_with (codes "PANIC") text ≡ false
        → starts_with (codes "uncaught exception") text ≡ false
        → here_diagnosed inside text ≡ true
        → starts_with (codes "error:") text ≡ false
        → starts_with (codes "warning:") text ≡ true
    marked a b d h e = ground arith

not_empty :
    (inside : Bool) (before word after : Text)
    → Message word ⊎ (Marker word × (ends_in_word inside before ≡ false))
    → [] ≡ before ++ (word ++ after)
    → ⊥
not_empty inside (c ∷ before) word after k e = cc e
not_empty inside [] word after (inl overflow) e = cc e
not_empty inside [] word after (inl panic) e = cc e
not_empty inside [] word after (inl uncaught) e = cc e
not_empty inside [] word after (inr (error, h)) e = cc e
not_empty inside [] word after (inr (warning, h)) e = cc e

or_true : (a b : Bool) → (a || b) ≡ true → (a ≡ true) ⊎ (b ≡ true)
or_true true b h = inl refl
or_true false b h = inr h

diagnosed_from_iff :
    (inside : Bool) (text : Text) → (diagnosed_from inside text ≡ true) ↔ HasDiagnostic inside text
unfolding diagnosed_from
diagnosed_from_iff inside [] =
    (λ h. absurd (cc h), λ d. absurd (not_empty inside d.before d.word d.after d.counts d.split))
diagnosed_from_iff inside (c ∷ text) = (
  λ h. elim (or_true (here_diagnosed inside (c ∷ text)) (diagnosed_from (is_word_char c) text) h) [
    | inl q ↦
        let (word, (after, e), k) = text-AtStart inside (c ∷ text) q in
        record { before = []; word = word; after = after; split = e; counts = k }
    | inr q ↦
        let d = (diagnosed_from_iff (is_word_char c) text).0 q in
        record {
          before = c ∷ d.before;
          word = d.word;
          after = d.after;
          split = ap (λ t. c ∷ t) d.split;
          counts = d.counts;
        }
  ],
  λ d. found (diagnosed_from_iff (is_word_char c) text).1 d.before d.word d.after d.split d.counts,
)
  where
    later : diagnosed_from (is_word_char c) text ≡ true → diagnosed_from inside (c ∷ text) ≡ true
    later h = ground (arith, h)

    at_start : here_diagnosed inside (c ∷ text) ≡ true → diagnosed_from inside (c ∷ text) ≡ true
    at_start h = ground (arith, h)

    found :
        (HasDiagnostic (is_word_char c) text → diagnosed_from (is_word_char c) text ≡ true)
        → (before word after : Text) → c ∷ text ≡ before ++ (word ++ after)
        → Message word ⊎ (Marker word × (ends_in_word inside before ≡ false))
        → diagnosed_from inside (c ∷ text) ≡ true
    found rest [] word after e k = at_start (AtStart-text inside (c ∷ text) (word, (after, e), k))
    found rest (d ∷ before) word after e k = later (
        rest (record {
          before = before;
          word = word;
          after = after;
          split = cons_tail e;
          counts =
              subst
                (λ x. Message word ⊎ (Marker word × (ends_in_word (is_word_char x) before ≡ false)))
                (sym (cons_head e)) k;
        }))

-- A log is diagnosed exactly if it holds a message, or a marker behind a character that is none of a word.
pub diagnosed_iff : (text : Text) → (diagnosed text ≡ true) ↔ HasDiagnostic false text
unfolding diagnosed
diagnosed_iff text = diagnosed_from_iff false text
