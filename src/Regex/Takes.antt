-- ===== src/Regex/Takes.antt =====
-- Rules for how the matcher runs over a text of the shape that an expression is meant for: one rule
-- for each way to build the expression.
use mathlib.Core.List.{append-nil, append_assoc}
use sp1_lean.Base.{
  ℕ, zero, suc, ◌-◌, ◌≡◌, refl, ap, Bool, true, false, Option, none, some, List, [], ◌∷◌, ◌++◌,
  String, Text, arith, length, take, nat_beq, length-append, all,
}
use sp1_lean.Regex.{
  Regex, empty, seq, alt, many, group, at_end, lit, times, plus, Captures, between, run, run_many,
  match,
}

take-append {ℓ} : {A : Type ℓ} (xs ys : List A) → take (length xs) (xs ++ ys) ≡ xs
take-append [] ys = refl
take-append (x ∷ xs) ys = ap (λ t. x ∷ t) (take-append xs ys)

pub between-append : (xs ys : Text) → between (xs ++ ys) ys ≡ xs
between-append xs ys =
    let e : length (xs ++ ys) - length ys ≡ length xs = omega (arith, length-append {0} xs ys) in
    rw e (take-append xs ys)

-- The text does not go on with the class.
abbrev pub Stops : (ℕ → Bool) → Text → Type 0
Stops p [] = Unit
Stops p (x ∷ s) = p x ≡ false

-- Whatever comes next, the first way in which `r` matches `w ++ t` takes `w`.
pub record Takes (R : Type 0) (r : Regex) (w t : Text) (c d : Captures) : Type 0 where
  pub runs : (k : Text → Captures → Option R) (v : R) → k t d ≡ some v → run r k (w ++ t) c ≡ some v

pub record Fails (R : Type 0) (r : Regex) (s : Text) (c : Captures) : Type 0 where
  pub runs : (k : Text → Captures → Option R) → run r k s c ≡ none

module _ {R : Type 0} {c : Captures} where
  pub Takes-empty : (t : Text) → Takes R empty [] t c c
  unfolding run
  Takes-empty t = record { runs = λ k v e. e }

  run-lit : (w t : Text) (k : Text → Captures → Option R) → run (lit w) k (w ++ t) c ≡ k t c
  unfolding run lit
  run-lit [] t k = refl
  run-lit (x ∷ w) t k = ground (arith, run-lit w t k)

  pub Takes-lit : (w t : Text) → Takes R (lit w) w t c c
  Takes-lit w t = record { runs = λ k v e. rw (run-lit w t k) e }

  run-times :
      (p : ℕ → Bool) (n : ℕ) (w t : Text) (k : Text → Captures → Option R)
      → length w ≡ n
      → all p w ≡ true
      → run (times n p) k (w ++ t) c ≡ k t c
  unfolding run times all
  run-times p zero [] t k l h = refl
  run-times p zero (x ∷ w) t k l h = absurd (omega arith)
  run-times p (suc n) [] t k l h = absurd (omega arith)
  run-times p (suc n) (x ∷ w) t k l h = ground (arith, run-times p n w t k)

  pub Takes-times :
      (p : ℕ → Bool) (n : ℕ) (w t : Text)
      → length w ≡ n
      → all p w ≡ true
      → Takes R (times n p) w t c c
  Takes-times p n w t l h = record { runs = λ k v e. rw (run-times p n w t k l h) e }

  run_many-all :
      (p : ℕ → Bool) (w t : Text) (k : Text → Captures → Option R) {v : R}
      → all p w ≡ true
      → Stops p t
      → k t c ≡ some v
      → run (many p) k (w ++ t) c ≡ some v
  unfolding run all
  run_many-all p [] [] k h stop e = e
  run_many-all p [] (x ∷ t) k h stop e = rw (stop, run_many) e
  run_many-all p (x ∷ w) t k h stop e = ground (arith, run_many-all p w t k (ground arith) stop e)

  pub Takes-plus :
      (p : ℕ → Bool) (x : ℕ) (w t : Text)
      → all p (x ∷ w) ≡ true
      → Stops p t
      → Takes R (plus p) (x ∷ w) t c c
  unfolding run all
  Takes-plus p x w t h stop = record {
    runs = λ k v e. ground (arith, run_many-all p w t k (ground arith) stop e);
  }

  pub Takes-seq :
      {a b : Regex} {w u t : Text} {d e : Captures}
      → Takes R a w (u ++ t) c d
      → Takes R b u t d e
      → Takes R (seq a b) (w ++ u) t c e
  unfolding run
  Takes-seq {b} {w} {u} {t} p q = record {
    runs = λ k v h. rw (append_assoc w u t) (p.runs (run b k) v (q.runs k v h));
  }

  pub Takes-group :
      {name : String} {r : Regex} {w t : Text} {d : Captures}
      → Takes R r w t c d
      → Takes R (group name r) w t c ((name, w) ∷ d)
  unfolding run
  Takes-group {name} {w} {t} p = record {
    runs =
        λ k v h. p.runs (λ u d. k u ((name, between (w ++ t) u) ∷ d)) v (rw (between-append w t) h);
  }

  pub Takes-left :
      {a b : Regex} {w t : Text} {d : Captures} → Takes R a w t c d → Takes R (alt a b) w t c d
  unfolding run
  Takes-left p = record { runs = λ k v h. rw (p.runs k v h, run) }

  pub Takes-right :
      {a b : Regex} {w t : Text} {d : Captures}
      → Fails R a (w ++ t) c
      → Takes R b w t c d
      → Takes R (alt a b) w t c d
  unfolding run
  Takes-right f p = record { runs = λ k v h. rw (f.runs k, run) (p.runs k v h) }

  pub Fails-seq : {a b : Regex} {s : Text} → Fails R a s c → Fails R (seq a b) s c
  unfolding run
  Fails-seq {b} f = record { runs = λ k. f.runs (run b k) }

  pub Fails-group :
      {name : String} {r : Regex} {s : Text} → Fails R r s c → Fails R (group name r) s c
  unfolding run
  Fails-group {name} {s} f = record { runs = λ k. f.runs (λ t d. k t ((name, between s t) ∷ d)) }

  pub Fails-alt : {a b : Regex} {s : Text} → Fails R a s c → Fails R b s c → Fails R (alt a b) s c
  unfolding run
  Fails-alt f g = record { runs = λ k. rw (f.runs k, run) (g.runs k) }

  -- A word that differs in its first character, or in its second.
  pub Fails-lit : (x y : ℕ) (w s : Text) → nat_beq x y ≡ false → Fails R (lit (x ∷ w)) (y ∷ s) c
  unfolding run lit
  Fails-lit x y w s h = record { runs = λ k. ground arith }

  pub Fails-lit_second :
      (x y a b : ℕ) (w s : Text) → nat_beq y b ≡ false → Fails R (lit (x ∷ y ∷ w)) (a ∷ b ∷ s) c
  unfolding run lit
  Fails-lit_second x y a b w s h = record { runs = λ k. ground arith }

  pub Takes-at_end : Takes R at_end [] [] c c
  unfolding run
  Takes-at_end = record { runs = λ k v e. e }

-- An expression that takes the whole text matches it.
pub match-Takes :
    {r : Regex} {w : Text} {d : Captures} → Takes Captures r w [] [] d → match r w ≡ some d
unfolding match
match-Takes {w} {d} p = rw append-nil at (p.runs (λ t c. some c) d refl)
