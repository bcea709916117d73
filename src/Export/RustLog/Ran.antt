-- ===== src/Export/RustLog/Ran.antt =====
-- What a log that `check_rust_log` accepts shows.
use mathlib.Core.Option.{some-injective}
use sp1_lean.Texts.{split_lines, occurs}
use sp1_lean.Base.{
  ℕ, ◌≡◌, refl, sym, ◌∙◌, subst, true, false, not, ◌&&◌, inl, inr, Option, none, some, List, [],
  ◌∷◌, arith, Text, codes, nat_eq, list_eq, option_eq, ◌==◌, eq_iff, all-mem, if◌then◌else◌,
  and_both, Bool-cases, Option-cases,
}
use sp1_lean.Base.Dict.{Dict, lookup, has, lookup-insert, mem_of_lookup}
use sp1_lean.Base.Results.{ok, raise-not-ok, ok-injective, >>=-ok, >>=-require}
use sp1_lean.Export.RustLog.{
  running, completed, warnings, unexpected_marker, incomplete, duplicate, LogState, start_binary,
  count_result, read_line, read_lines, same_counts, same_names, check_rust_log,
}

-- The lines read so far, the latest first: the last binary that was started is `name`.
pub data Open (name : Text) : List Text → Type 0 where
  opened : {l binary : Text} {h : List Text} → running l ≡ some (name, binary) → Open name (l ∷ h)
  still : {l : Text} {h : List Text} → running l ≡ none → Open name h → Open name (l ∷ h)

-- A line counted n successes, and the binary started last before it, or on it, is `name`.
pub data Ran (name : Text) (n : ℕ) : List Text → Type 0 where
  now_ran :
      {l : Text} {h : List Text} → completed l ≡ some n → Open name (l ∷ h) → Ran name n (l ∷ h)
  before : {l : Text} {h : List Text} → Ran name n h → Ran name n (l ∷ h)

abbrev pub reversed : List Text → List Text → List Text
reversed [] h = h
reversed (l ∷ ls) h = reversed ls (l ∷ h)

record IsHistory (s : LogState) (h : List Text) : Type 0 where
  pub current_open : (name : Text) → s.current ≡ some name → Open name h
  pub counted : (name : Text) (n : ℕ) → lookup name s.counts ≡ some n → Ran name n h

abbrev blank : LogState
blank = record { current = none; counts = []; binaries = [] }

blank-IsHistory : IsHistory blank []
unfolding lookup
blank-IsHistory = record {
  current_open = λ name c. absurd (cc c);
  counted = λ name n c. absurd (cc c);
}

-- The state between the two halves: the current line is the latest, and not yet counted.
start_binary-IsHistory :
    (s t : LogState) (l : Text) (h : List Text) (o : Option (Text × Text))
    → running l ≡ o
    → IsHistory s h
    → start_binary s o ≡ ok t
    → IsHistory t (l ∷ h)
unfolding start_binary
start_binary-IsHistory s t l h none q i e =
    subst (λ x. IsHistory x (l ∷ h)) (ok-injective s t e)
      (record {
        current_open = λ name c. still q (i.current_open name c);
        counted = λ name n c. before (i.counted name n c);
      })
start_binary-IsHistory s t l h (some (m, b)) q i e = elim (Bool-cases (has m s.binaries)) [
  | inl d ↦ absurd (raise-not-ok (duplicate m) t (rw (d, start_binary) at e))
  | inr d ↦
      subst (λ x. IsHistory x (l ∷ h)) (ok-injective _ t (rw (d, start_binary) at e))
        (record {
          current_open = λ name c. subst (λ x. Open x (l ∷ h)) (some-injective m name c) (opened q);
          counted = λ name n c. before (i.counted name n c);
        })
]

count_result-IsHistory :
    (s t : LogState) (l : Text) (h : List Text) (o : Option ℕ)
    → completed l ≡ o
    → IsHistory s (l ∷ h)
    → count_result s o ≡ ok t
    → IsHistory t (l ∷ h)
unfolding count_result
count_result-IsHistory s t l h none q i e = subst (λ x. IsHistory x (l ∷ h)) (ok-injective s t e) i
count_result-IsHistory s t l h (some k) q i e = elim (Option-cases s.current) [
  | inl c ↦ absurd (raise-not-ok unexpected_marker t (rw (c, count_result) at e))
  | inr (m, c) ↦ elim (Bool-cases (has m s.counts)) [
    | inl d ↦ absurd (raise-not-ok unexpected_marker t (rw d at (rw (c, count_result) at e)))
    | inr d ↦
        subst (λ x. IsHistory x (l ∷ h)) (ok-injective _ t (rw d at (rw (c, count_result) at e)))
          (record {
            current_open = λ name r. absurd (cc r);
            counted = λ name n r.
                later m n name (i.current_open m c) (sym (lookup-insert name m k s.counts) ∙ r);
          })
  ]
]
  where
    later :
        (m : Text) (n : ℕ) (name : Text)
        → Open m (l ∷ h)
        → (if m == name then some k else lookup name s.counts) ≡ some n
        → Ran name n (l ∷ h)
    later m n name op r = elim (Bool-cases (m == name)) [
      | inr d ↦ i.counted name n (rw d at r)
      | inl d ↦ now_ran (q ∙ (rw d at r)) (subst (λ x. Open x (l ∷ h)) ((eq_iff m name).0 d) op)
    ]

-- Reading lines keeps the history.
read_lines-IsHistory :
    (s t : LogState) (ls h : List Text)
    → IsHistory s h
    → read_lines s ls ≡ ok t
    → IsHistory t (reversed ls h)
unfolding read_lines read_line
read_lines-IsHistory s t [] h i e = subst (λ x. IsHistory x h) (ok-injective s t e) i
read_lines-IsHistory s t (l ∷ ls) h i e =
    let (v, line_read, e1) = >>=-ok (read_line s l) (λ x. read_lines x ls) t e in
    let (u, q, r) = >>=-ok (start_binary s (running l)) _ v line_read in
    read_lines-IsHistory v t ls (l ∷ h)
      (count_result-IsHistory u v l h (completed l) refl
        (start_binary-IsHistory s u l h (running l) refl i q) r)
      e1

same_counts-lookup :
    (a b : Dict Text ℕ) (name : Text) (n : ℕ)
    → same_counts a b ≡ true
    → lookup name b ≡ some n
    → lookup name a ≡ some n
same_counts-lookup a b name n h l = (eq_iff (lookup name a) (some n)).0 (
    all-mem (λ (c : Text × ℕ). lookup c.0 a == some c.1) (name, n) b (ground arith)
      (mem_of_lookup b l))

-- If `check_rust_log` accepts a log, the log nowhere says "warning:", and for every test binary that is expected, with its number of
-- tests, some line of the log counts that number of successes, no failed, ignored or filtered test, at a point where that binary is the
-- one started last.
pub check_rust_log-Ran :
    (log : Text) (expected : Dict Text ℕ) (binaries : Dict Text Text)
    → check_rust_log log expected ≡ ok binaries
    → (occurs (codes "warning:") log ≡ false)
      × ((name : Text) (n : ℕ)
          → lookup name expected ≡ some n
          → Ran name n (reversed (split_lines false log) []))
unfolding check_rust_log
check_rust_log-Ran log expected binaries e =
    let (quiet, e1) = >>=-require (not (occurs (codes "warning:") log)) warnings _ binaries e in
    let (s, q, e2) = >>=-ok (read_lines blank (split_lines false log)) _ binaries e1 in
    let (complete, _) =
      >>=-require (same_counts s.counts expected && same_names s.binaries expected) incomplete _
        binaries e2 in
    let i = read_lines-IsHistory blank s (split_lines false log) [] blank-IsHistory q in
    (
      ground (arith, quiet),
      λ name n l.
          i.counted name n
            (same_counts-lookup s.counts expected name n (and_both _ _ complete).0 l),
    )
