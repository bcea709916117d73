-- ===== src/Regex/Parses.antt =====
-- What a regular expression accepts, as a relation, and that the matcher decides it.
use mathlib.Core.Option.{some-injective}
use sp1_lean.Base.{
  subst, ℕ, ◌≡◌, ◌≢◌, refl, ap, Bool, true, Option, none, some, [], ◌∷◌, ◌⊎◌, String, Text, arith,
  Bool-cases, Option-cases, inl, inr,
}
use sp1_lean.Regex.{
  Regex, empty, one, seq, alt, many, few, group, at_end, ahead, Captures, between, run, run_many,
  run_few, run_end, match,
}

-- `Parses r s c t d`: `r` can take the text from `s` to `t`, and the captures from `c` to `d`.
pub data Parses : Regex → Text → Captures → Text → Captures → Type 0 where
  empty_rule : {s : Text} {c : Captures} → Parses empty s c s c
  one_rule :
      {p : ℕ → Bool} {x : ℕ} {s : Text} {c : Captures} → p x ≡ true → Parses (one p) (x ∷ s) c s c
  seq_rule :
      {a b : Regex} {s t u : Text} {c d e : Captures}
      → Parses a s c t d
      → Parses b t d u e
      → Parses (seq a b) s c u e
  left_rule :
      {a b : Regex} {s t : Text} {c d : Captures} → Parses a s c t d → Parses (alt a b) s c t d
  right_rule :
      {a b : Regex} {s t : Text} {c d : Captures} → Parses b s c t d → Parses (alt a b) s c t d
  stop_rule : {p : ℕ → Bool} {s : Text} {c : Captures} → Parses (many p) s c s c
  more_rule :
      {p : ℕ → Bool} {x : ℕ} {s t : Text} {c d : Captures}
      → p x ≡ true
      → Parses (many p) s c t d
      → Parses (many p) (x ∷ s) c t d
  lazy_stop_rule : {p : ℕ → Bool} {s : Text} {c : Captures} → Parses (few p) s c s c
  lazy_more_rule :
      {p : ℕ → Bool} {x : ℕ} {s t : Text} {c d : Captures}
      → p x ≡ true
      → Parses (few p) s c t d
      → Parses (few p) (x ∷ s) c t d
  group_rule :
      {name : String} {r : Regex} {s t : Text} {c d e : Captures}
      → Parses r s c t d
      → e ≡ (name, between s t) ∷ d
      → Parses (group name r) s c t e
  end_rule : {s : Text} {c : Captures} → (s ≡ []) ⊎ (s ≡ 10 ∷ []) → Parses at_end s c s c
  ahead_rule : {q : Text → Bool} {s : Text} {c : Captures} → q s ≡ true → Parses (ahead q) s c s c

abbrev Success : {R : Type 0} → (Text → Captures → Option R) → Regex → Text → Captures → R → Type 0
Success k r s c v = (t : Text) × (d : Captures) × Parses r s c t d × (k t d ≡ some v)

module _ {R : Type 0} where
  run_many_sound :
      (p : ℕ → Bool) (k : Text → Captures → Option R) (s : Text) (c : Captures) {v : R}
      → run_many p (λ t. k t c) s ≡ some v
      → Success k (many p) s c v
  unfolding run_many
  run_many_sound p k [] c h = ([], c, stop_rule, h)
  run_many_sound p k (x ∷ s) c h = elim (Bool-cases (p x)) [
    | inr e ↦ (x ∷ s, c, stop_rule, rw (e, run_many) at h)
    | inl e ↦ elim (Option-cases (run_many p (λ t. k t c) s)) [
      | inl f ↦ (x ∷ s, c, stop_rule, ground arith)
      | inr (w, f) ↦
          let (t, d, parsed, done) = run_many_sound p k s c f in
          (t, d, more_rule e parsed, ground arith)
    ]
  ]

  run_few_sound :
      (p : ℕ → Bool) (k : Text → Captures → Option R) (s : Text) (c : Captures) {v : R}
      → run_few p (λ t. k t c) s ≡ some v
      → Success k (few p) s c v
  unfolding run_few
  run_few_sound p k [] c h = ([], c, lazy_stop_rule, h)
  run_few_sound p k (x ∷ s) c h = elim (Option-cases (k (x ∷ s) c)) [
    | inr (w, f) ↦ (x ∷ s, c, lazy_stop_rule, ground arith)
    | inl f ↦ elim (Bool-cases (p x)) [
      | inr e ↦ absurd (ground arith)
      | inl e ↦
          let (t, d, parsed, done) = run_few_sound p k s c (ground arith) in
          (t, d, lazy_more_rule e parsed, done)
    ]
  ]

  run_end_sound :
      (k : Text → Captures → Option R) (s : Text) (c : Captures) {v : R}
      → run_end (λ t. k t c) s ≡ some v
      → Success k at_end s c v
  unfolding run_end
  run_end_sound k [] c h = ([], c, end_rule (inl refl), h)
  run_end_sound k (x ∷ []) c h =
      (x ∷ [], c, end_rule (inr (ap (λ y. y ∷ []) (ground arith))), ground arith)
  run_end_sound k (x ∷ y ∷ s) c h = cc

  -- What the matcher returns comes from a parse.
  pub run_sound :
      (r : Regex) (k : Text → Captures → Option R) (s : Text) (c : Captures) {v : R}
      → run r k s c ≡ some v
      → Success k r s c v
  unfolding run
  run_sound empty k s c h = (s, c, empty_rule, h)
  run_sound (one p) k [] c h = cc
  run_sound (one p) k (x ∷ s) c h = (s, c, one_rule (ground arith), ground arith)
  run_sound (seq a b) k s c h =
      let (t, d, first, rest) = run_sound a (run b k) s c h in
      let (u, e, second, done) = run_sound b k t d rest in (u, e, seq_rule first second, done)
  run_sound (alt a b) k s c h = elim (Option-cases (run a k s c)) [
    | inl e ↦
        let (t, d, parsed, done) = run_sound b k s c (rw (e, run) at h) in
        (t, d, right_rule parsed, done)
    | inr (w, e) ↦
        let (t, d, parsed, done) = run_sound a k s c e in (t, d, left_rule parsed, ground arith)
  ]
  run_sound (many p) k s c h = run_many_sound p k s c h
  run_sound (few p) k s c h = run_few_sound p k s c h
  run_sound (group name r) k s c h =
      let (t, d, inner, done) = run_sound r (λ t d. k t ((name, between s t) ∷ d)) s c h in
      (t, (name, between s t) ∷ d, group_rule inner refl, done)
  run_sound at_end k s c h = run_end_sound k s c h
  run_sound (ahead q) k s c h = (s, c, ahead_rule (ground arith), ground arith)

  run_many_step :
      (p : ℕ → Bool) (k : Text → Option R) (x : ℕ) (s : Text)
      → p x ≡ true
      → run_many p k s ≢ none
      → run_many p k (x ∷ s) ≢ none
  unfolding run_many
  run_many_step p k x s e h = ground arith

  run_many_stop :
      (p : ℕ → Bool) (k : Text → Option R) (s : Text) → k s ≢ none → run_many p k s ≢ none
  unfolding run_many
  run_many_stop p k [] h = h
  run_many_stop p k (x ∷ s) h = ground arith

  run_few_step :
      (p : ℕ → Bool) (k : Text → Option R) (x : ℕ) (s : Text)
      → p x ≡ true
      → run_few p k s ≢ none
      → run_few p k (x ∷ s) ≢ none
  unfolding run_few
  run_few_step p k x s e h = ground arith

  run_few_stop : (p : ℕ → Bool) (k : Text → Option R) (s : Text) → k s ≢ none → run_few p k s ≢ none
  unfolding run_few
  run_few_stop p k [] h = h
  run_few_stop p k (x ∷ s) h = ground arith

  -- Where there is a parse after which `k` succeeds, the matcher finds one.
  pub run_complete :
      {r : Regex} {s t : Text} {c d : Captures} (k : Text → Captures → Option R)
      → Parses r s c t d
      → k t d ≢ none
      → run r k s c ≢ none
  unfolding run
  run_complete k empty_rule h = h
  run_complete k (one_rule e) h = ground arith
  run_complete k (seq_rule {a} {b} p q) h = run_complete (run b k) p (run_complete k q h)
  run_complete k (left_rule p) h = ground (arith, run_complete k p h)
  run_complete k (right_rule p) h = ground (arith, run_complete k p h)
  run_complete k (stop_rule {p} {s} {c}) h = run_many_stop p (λ t. k t c) s h
  run_complete k (more_rule {p} {x} {s} {c = c} e q) h =
      run_many_step p (λ t. k t c) x s e (run_complete k q h)
  run_complete k (lazy_stop_rule {p} {s} {c}) h = run_few_stop p (λ t. k t c) s h
  run_complete k (lazy_more_rule {p} {x} {s} {c = c} e q) h =
      run_few_step p (λ t. k t c) x s e (run_complete k q h)
  run_complete k (group_rule {name} {s = s} q e) h =
      run_complete (λ t d. k t ((name, between s t) ∷ d)) q (rw (← e) h)
  run_complete k (end_rule (inl e)) h = ground arith
  run_complete k (end_rule (inr e)) h = ground arith
  run_complete k (ahead_rule e) h = ground arith

-- A match comes from a parse of a prefix, and where there is a parse there is a match.
pub match_sound :
    (r : Regex) (s : Text) {d : Captures} → match r s ≡ some d → (t : Text) × Parses r s [] t d
unfolding match
match_sound r s h =
    let (t, d, parsed, e) = run_sound r (λ t c. some c) s [] h in
    (t, subst (Parses r s [] t) (some-injective _ _ e) parsed)

pub match_complete : {r : Regex} {s t : Text} {d : Captures} → Parses r s [] t d → match r s ≢ none
unfolding match
match_complete p = run_complete (λ t c. some c) p (λ e. cc)
