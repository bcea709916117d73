-- ===== src/Cache/Key/RoundTrip.antt =====
-- `parse_key` reads back every key of the layout.
use mathlib.Core.List.{append-nil}
use sp1_lean.Base.{
  ℕ, suc, ◌≡◌, ◌≢◌, refl, ap, subst, Bool, true, false, Option, none, some, [], ◌∷◌, ◌++◌, String,
  Text, codes, all, length, length-append, or_else, arith, nat_beq,
}
use sp1_lean.Regex.{
  seq, group, at_end, lit, plus, opt, is_digit, is_hex, is_alnum, is_dot, match, captured, run,
  Captures,
}
use sp1_lean.Regex.Takes.{
  Takes, Fails, Stops, Takes-empty, Takes-lit, Takes-times, Takes-plus, Takes-seq, Takes-group,
  Fails-seq, Fails-group, Fails-alt, Fails-lit, Fails-lit_second, Takes-left, Takes-right,
  Takes-at_end, match-Takes,
}
use sp1_lean.Cache.Key.{
  prefix_body, prefix_re, kind_re, kind_part, pr_part, sha_part, rest_re, parse_key,
}
use sp1_lean.Cache.Key.Layout.{
  Mark, align_test, test, align, core, mark_text, Layout, prefix_text, mark_part, pull_part,
  build_text, rest_text, key_text, IsRun, IsHash, IsPull, IsLayout, kind_text, fields,
}

module _ {R : Type 0} {c : Captures} where
  Takes-run : (p : ℕ → Bool) (w t : Text) → IsRun p w → Stops p t → Takes R (plus p) w t c c
  Takes-run p [] t h stop = absurd (h.nonempty refl)
  Takes-run p (x ∷ w) t h stop = Takes-plus p x w t h.within stop

  Takes-prefix_body :
      (b : Layout) (t : Text) → IsLayout b → Takes R prefix_body (prefix_text b) t c c
  unfolding prefix_body
  Takes-prefix_body b t h = Takes-seq (Takes-lit _ _) (
      Takes-seq (Takes-run is_digit b.version _ h.version refl) (
        Takes-seq (Takes-lit _ _) (
          Takes-seq (Takes-run is_alnum b.os _ h.os refl) (
            Takes-seq (Takes-lit _ _) (Takes-times is_hex 64 b.hash t h.hash.size h.hash.within)))))

  -- The end of a key.
  Takes-last :
      (p : ℕ → Bool) (name : String) (w : Text)
      → IsRun p w
      → Takes R (seq (group name (plus p)) at_end) w [] c ((name, w) ∷ c)
  Takes-last p name w h =
      subst (λ u. Takes R (seq (group name (plus p)) at_end) u [] c ((name, w) ∷ c)) (append-nil w)
        (Takes-seq (Takes-group (Takes-run p w [] h tt)) Takes-at_end)

module _ {R : Type 0} {c : Captures} where
  Takes-sha_part :
      (b : Layout)
      → IsLayout b
      → Takes R sha_part
          (build_text b)
          []
          c
          (("attempt", b.attempt) ∷ ("run", b.run) ∷ ("sha", b.sha) ∷ c)
  unfolding sha_part
  Takes-sha_part b h =
      Takes-seq (Takes-group (Takes-times is_hex 40 b.sha _ h.sha.size h.sha.within)) (
        Takes-seq (Takes-lit _ _) (
          Takes-seq (Takes-group (Takes-run is_digit b.run _ h.run refl))
            (Takes-seq (Takes-lit _ _) (Takes-last is_digit "attempt" b.attempt h.attempt))))

  -- The kind is followed by `pr` or by a hexadecimal digit, never by the `t` of `-test`.
  Fails-align_test :
      (t : Text)
      → Stops (nat_beq b't') t
      → Fails R (lit (codes "align-test")) (codes "align-" ++ t) c
  unfolding run lit
  Fails-align_test [] h = record { runs = λ k. refl }
  Fails-align_test (x ∷ t) h = record { runs = λ k. ground arith }

  Takes-kind_re :
      (m : Mark) (t : Text)
      → Stops (nat_beq b't') t
      → Takes R kind_re (mark_text m) (codes "-" ++ t) c c
  unfolding kind_re
  Takes-kind_re align_test t h = Takes-left (Takes-lit _ _)
  Takes-kind_re test t h = Takes-right (Fails-lit b'a' b't' _ _ refl) (Takes-left (Takes-lit _ _))
  Takes-kind_re align t h =
      Takes-right (Fails-align_test t h)
        (Takes-right (Fails-lit b't' b'a' _ _ refl) (Takes-left (Takes-lit _ _)))
  Takes-kind_re core t h = Takes-right (Fails-lit b'a' b'c' _ _ refl) (
      Takes-right (Fails-lit b't' b'c' _ _ refl)
        (Takes-right (Fails-lit b'a' b'c' _ _ refl) (Takes-lit _ _)))

-- What follows the kind: `pr`, or two hexadecimal digits.
data Starts : Text → Type 0 where
  pull : (t : Text) → Starts (b'p' ∷ b'r' ∷ t)
  hash : {x y : ℕ} (t : Text) → is_hex x ≡ true → is_hex y ≡ true → Starts (x ∷ y ∷ t)

Starts-Stops : {t : Text} → Starts t → Stops (nat_beq b't') t
Starts-Stops (pull t) = refl
Starts-Stops (hash t h k) = ground arith

Starts-hash : (n : ℕ) (w t : Text) → IsHash (suc (suc n)) w → Starts (w ++ t)
unfolding all
Starts-hash n [] t h = absurd (omega (arith, h.size))
Starts-hash n (x ∷ []) t h = absurd (omega (arith, h.size))
Starts-hash n (x ∷ y ∷ w) t h = hash (w ++ t) (ground (arith, h.within)) (ground (arith, h.within))

-- A hexadecimal digit is none of the letters by which the words are told apart.
hex_ne :
    (x : ℕ)
    → is_hex x ≡ true
    → (nat_beq b'l' x ≡ false)
      × (nat_beq b'o' x ≡ false)
      × (nat_beq b't' x ≡ false)
      × (nat_beq b'p' x ≡ false)
hex_ne x h = (ground arith, ground arith, ground arith, ground arith)

module _ {R : Type 0} {c : Captures} where
  Fails-kind_part : {t : Text} → Starts t → Fails R kind_part t c
  unfolding kind_part kind_re
  Fails-kind_part (pull t) = Fails-seq (
      Fails-group (
        Fails-alt (Fails-lit b'a' b'p' _ _ refl) (
          Fails-alt (Fails-lit b't' b'p' _ _ refl)
            (Fails-alt (Fails-lit b'a' b'p' _ _ refl) (Fails-lit b'c' b'p' _ _ refl)))))
  Fails-kind_part (hash {x} {y} t h k) =
      let first = hex_ne x h in
      let second = hex_ne y k in
      Fails-seq (
        Fails-group (
          Fails-alt (Fails-lit_second b'a' b'l' x y _ _ second.0) (
            Fails-alt (Fails-lit b't' x _ _ first.2) (
              Fails-alt (Fails-lit_second b'a' b'l' x y _ _ second.0)
                (Fails-lit_second b'c' b'o' x y _ _ second.1)))))

  Takes-kind_part :
      (m : Mark) (t : Text)
      → Starts t
      → Takes R kind_part (mark_text m ++ codes "-") t c (("kind", mark_text m) ∷ c)
  unfolding kind_part
  Takes-kind_part m t h =
      Takes-seq (Takes-group (Takes-kind_re m t (Starts-Stops h))) (Takes-lit _ _)

  Takes-pr_part :
      (n t : Text)
      → IsRun is_digit n
      → Takes R pr_part (codes "pr" ++ (n ++ codes "-")) t c (("pr", n) ∷ c)
  unfolding pr_part
  Takes-pr_part n t h =
      Takes-seq (Takes-lit _ _)
        (Takes-seq (Takes-group (Takes-run is_digit n _ h refl)) (Takes-lit _ _))

  Fails-pr_part : (w t : Text) → IsHash 40 w → Fails R pr_part (w ++ t) c
  unfolding pr_part all
  Fails-pr_part [] t h = absurd (omega (arith, h.size))
  Fails-pr_part (x ∷ w) t h =
      Fails-seq (Fails-lit b'p' x _ _ (hex_ne x (ground (arith, h.within))).3)

abbrev with_mark : Option Mark → Captures → Captures
with_mark none c = c
with_mark (some m) c = ("kind", mark_text m) ∷ c

abbrev with_pull : Option Text → Captures → Captures
with_pull none c = c
with_pull (some n) c = ("pr", n) ∷ c

module _ {R : Type 0} {c : Captures} where
  Takes-opt_mark :
      (m : Option Mark) (t : Text)
      → Starts t
      → Takes R (opt kind_part) (mark_part m) t c (with_mark m c)
  Takes-opt_mark none t h = Takes-right (Fails-kind_part h) (Takes-empty t)
  Takes-opt_mark (some m) t h = Takes-left (Takes-kind_part m t h)

  Takes-opt_pull :
      (p : Option Text) (w t : Text)
      → IsPull p
      → IsHash 40 w
      → Takes R (opt pr_part) (pull_part p) (w ++ t) c (with_pull p c)
  Takes-opt_pull none w t _ h = Takes-right (Fails-pr_part w t h) (Takes-empty (w ++ t))
  Takes-opt_pull (some n) w t q h = Takes-left (Takes-pr_part n (w ++ t) q)

Starts-pull : (p : Option Text) (w t : Text) → IsHash 40 w → Starts (pull_part p ++ (w ++ t))
Starts-pull none w t h = Starts-hash 38 w t h
Starts-pull (some n) w t h = pull _

abbrev rest_captures : Layout → Captures
rest_captures b =
    ("attempt", b.attempt) ∷ ("run", b.run) ∷ ("sha", b.sha) ∷ with_pull b.pr (with_mark b.mark [])

match-rest_re : (b : Layout) → IsLayout b → match rest_re (rest_text b) ≡ some (rest_captures b)
unfolding rest_re
match-rest_re b h = match-Takes (
    Takes-seq {d = with_mark b.mark []}
      (rw append-nil (Takes-opt_mark b.mark _ (Starts-pull b.pr b.sha _ h.sha)))
      (Takes-seq {d = with_pull b.pr (with_mark b.mark [])}
        (rw append-nil (Takes-opt_pull b.pr b.sha _ h.pr h.sha)) (Takes-sha_part b h)))

-- Every character of the rest of a key can be read by `.`.
all-append :
    (p : ℕ → Bool) (xs ys : Text) → all p xs ≡ true → all p ys ≡ true → all p (xs ++ ys) ≡ true
unfolding all
all-append p [] ys h k = k
all-append p (x ∷ xs) ys h k = ground (arith, all-append p xs ys)

all_weaken :
    (p q : ℕ → Bool) (xs : Text)
    → ((x : ℕ) → p x ≡ true → q x ≡ true)
    → all p xs ≡ true
    → all q xs ≡ true
unfolding all
all_weaken p q [] w h = refl
all_weaken p q (x ∷ xs) w h = ground (arith, w x, all_weaken p q xs w)

digit_dot : (x : ℕ) → is_digit x ≡ true → is_dot x ≡ true
digit_dot x h = ground arith

hex_dot : (x : ℕ) → is_hex x ≡ true → is_dot x ≡ true
hex_dot x h = ground arith

mark_dots : (m : Option Mark) → all is_dot (mark_part m) ≡ true
unfolding all
mark_dots none = refl
mark_dots (some align_test) = refl
mark_dots (some test) = refl
mark_dots (some align) = refl
mark_dots (some core) = refl

dash_dots : (w : Text) → all is_dot w ≡ true → all is_dot (codes "-" ++ w) ≡ true
unfolding all
dash_dots w h = h

run_dots : (w : Text) → IsRun is_digit w → all is_dot w ≡ true
run_dots w h = all_weaken is_digit is_dot w digit_dot h.within

pull_dots : (p : Option Text) → IsPull p → all is_dot (pull_part p) ≡ true
unfolding all
pull_dots none h = refl
pull_dots (some n) h = all-append is_dot n (codes "-") (run_dots n h) refl

rest_dots : (b : Layout) → IsLayout b → all is_dot (rest_text b) ≡ true
rest_dots b h = all-append is_dot _ _ (mark_dots b.mark) (
    all-append is_dot _ _ (pull_dots b.pr h.pr) (
      all-append is_dot b.sha _ (all_weaken is_hex is_dot b.sha hex_dot h.sha.within) (
        dash_dots _ (
          all-append is_dot b.run _ (run_dots b.run h.run)
            (dash_dots _ (run_dots b.attempt h.attempt))))))

rest_nonempty : (b : Layout) → IsLayout b → rest_text b ≢ []
rest_nonempty b h e = omega (
  arith,
  ap length e,
  length-append (mark_part b.mark) (pull_part b.pr ++ build_text b),
  length-append (pull_part b.pr) (build_text b),
  length-append b.sha (codes "-" ++ (b.run ++ (codes "-" ++ b.attempt))),
  h.sha.size,
)

match-prefix_re :
    (b : Layout)
    → IsLayout b
    → match prefix_re (key_text b) ≡ some (("rest", rest_text b) ∷ ("prefix", prefix_text b) ∷ [])
unfolding prefix_re
match-prefix_re b h = match-Takes (
    Takes-seq (Takes-group (Takes-prefix_body b _ h)) (
      Takes-seq (Takes-lit _ _) (
        Takes-last is_dot "rest" (rest_text b)
          (record { within = rest_dots b h; nonempty = rest_nonempty b h }))))

captured-kind :
    (m : Option Mark) (p : Option Text)
    → or_else (captured "kind" (with_pull p (with_mark m []))) (codes "core") ≡ kind_text m
unfolding captured
captured-kind none none = refl
captured-kind none (some n) = refl
captured-kind (some m) none = refl
captured-kind (some m) (some n) = refl

captured-pr : (m : Option Mark) (p : Option Text) → captured "pr" (with_pull p (with_mark m [])) ≡ p
unfolding captured
captured-pr none none = refl
captured-pr none (some n) = refl
captured-pr (some m) none = refl
captured-pr (some m) (some n) = refl

-- `parse_key` returns the fields of every key of the layout.
pub parse_key-key_text : (b : Layout) → IsLayout b → parse_key (key_text b) ≡ some (fields b)
unfolding parse_key
parse_key-key_text b h =
    rw (match-prefix_re b h)
      (rw (match-rest_re b h) (rw (captured-kind b.mark b.pr) (rw (captured-pr b.mark b.pr))))
