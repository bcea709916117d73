-- ===== src/Profile/Summary/Rows.antt =====
-- What the reading of a summary keeps of a module that has several rows.
use sp1_lean.Base.{
  false, ℕ, ◌≡◌, refl, sym, subst, ◌∙◌, ap, inl, inr, Option, none, some, List, [], ◌∷◌, Text,
  nat_eq, list_eq, choose, map, Option-cases,
}
use sp1_lean.Base.Dict.{Dict, lookup, insert}
use sp1_lean.Base.Results.{raise, ok, raise-not-ok, ok-injective, >>=-ok}
use sp1_lean.Texts.{split_lines}
use sp1_lean.Profile.Seconds.{float_of, int_of}
use sp1_lean.Profile.Cumulative.{bad_number, number_or_raise, parse_cumulative}
use sp1_lean.Profile.Summary.{
  Row, full, short, other, columns, Sweep, enter, read_row, read_rows, read_summary,
}
use sp1_lean.Base.Items.{prefer, latest, prefer-none, choose-some, choose-none, prefer-insert}

-- What a row says of its module.
unfoldable pub row_time : Row → Option (Text × ℕ)
unfolding float_of
row_time (full cpu _ _ name) = elim (float_of cpu) [ none ↦ none | some n ↦ some (name, n) ]
row_time (short cpu _ name) = elim (float_of cpu) [ none ↦ none | some n ↦ some (name, n) ]
row_time other = none

unfoldable pub row_wall : Row → Option (Text × ℕ)
unfolding float_of
row_wall (full _ wall _ name) = elim (float_of wall) [ none ↦ none | some n ↦ some (name, n) ]
row_wall _ = none

unfoldable pub row_exit : Row → Option (Text × ℕ)
unfolding int_of
row_exit (full _ _ code name) = elim (int_of code) [ none ↦ none | some n ↦ some (name, n) ]
row_exit (short _ code name) = elim (int_of code) [ none ↦ none | some n ↦ some (name, n) ]
row_exit other = none

-- The figures of `logs`, by module.
unfoldable pub row_categories : (Text → Option Text) → Row → Option (Text × Dict Text ℕ)
unfolding parse_cumulative
row_categories logs (full _ _ _ name) = elim (parse_cumulative (logs name)) [
  | raise _ ↦ none
  | ok d ↦ some (name, d)
]
row_categories logs (short _ _ name) = elim (parse_cumulative (logs name)) [
  | raise _ ↦ none
  | ok d ↦ some (name, d)
]
row_categories logs other = none

-- One dict of a step: its old content, with what the row says.
abbrev Adds {ℓ} : {V : Type ℓ} → Text → Dict Text V → Option (Text × V) → Dict Text V → Type ℓ
Adds {V} k d none e = lookup k e ≡ lookup k d
Adds {V} k d (some (j, v)) e = lookup k e ≡ lookup k (insert j v d)

record Step (logs : Text → Option Text) (s : Sweep) (row : Row) (t : Sweep) : Type 0 where
  pub time : (k : Text) → Adds k s.times (row_time row) t.times
  pub wall : (k : Text) → Adds k s.walls (row_wall row) t.walls
  pub exit : (k : Text) → Adds k s.exits (row_exit row) t.exits
  pub cats : (k : Text) → Adds k s.categories (row_categories logs row) t.categories

record Entered (logs : Text → Option Text) (s : Sweep) (cpu code name : Text) (walls : Dict Text ℕ)
    (t : Sweep) : Type 0 where
  pub time : ℕ
  pub exit : ℕ
  pub cats : Dict Text ℕ
  pub time_read : float_of cpu ≡ some time
  pub exit_read : int_of code ≡ some exit
  pub cats_read : parse_cumulative (logs name) ≡ ok cats
  pub times_set : t.times ≡ insert name time s.times
  pub walls_set : t.walls ≡ walls
  pub exits_set : t.exits ≡ insert name exit s.exits
  pub categories_set : t.categories ≡ insert name cats s.categories

Adds-some {ℓ} :
    {V : Type ℓ} (k : Text) (d e : Dict Text V) (o : Option (Text × V)) (j : Text) (v : V)
    → o ≡ some (j, v)
    → e ≡ insert j v d
    → Adds k d o e
Adds-some k d e o j v q r = subst (λ x. Adds k d x e) (sym q) (ap (lookup k) r)

number_or_raise-ok : (o : Option ℕ) (n : ℕ) → number_or_raise o ≡ ok n → o ≡ some n
number_or_raise-ok none n e = absurd (raise-not-ok bad_number n e)
number_or_raise-ok (some m) n e = ap some (ok-injective m n e)

module _ (logs : Text → Option Text) where
  enter-Entered :
      (s t : Sweep) (cpu code name : Text) (walls : Dict Text ℕ)
      → enter logs s cpu code name walls ≡ ok t
      → Entered logs s cpu code name walls t
  unfolding enter
  enter-Entered s t cpu code name walls e =
      let (time, a, e1) = >>=-ok (number_or_raise (float_of cpu)) _ t e in
      let (exit, b, e2) = >>=-ok (number_or_raise (int_of code)) _ t e1 in
      let (cats, u, e3) = >>=-ok (parse_cumulative (logs name)) _ t e2 in
      let same = sym (ok-injective _ t e3) in
      record {
        time = time;
        exit = exit;
        cats = cats;
        time_read = number_or_raise-ok (float_of cpu) time a;
        exit_read = number_or_raise-ok (int_of code) exit b;
        cats_read = u;
        times_set = ap (λ (x : Sweep). x.times) same;
        walls_set = ap (λ (x : Sweep). x.walls) same;
        exits_set = ap (λ (x : Sweep). x.exits) same;
        categories_set = ap (λ (x : Sweep). x.categories) same;
      }

  read_row-Step : (s t : Sweep) (row : Row) → read_row logs s row ≡ ok t → Step logs s row t
  unfolding read_row row_time row_wall row_exit row_categories
  read_row-Step s t other e =
      let same = sym (ok-injective s t e) in
      record {
        time = λ k. ap (λ (x : Sweep). lookup k x.times) same;
        wall = λ k. ap (λ (x : Sweep). lookup k x.walls) same;
        exit = λ k. ap (λ (x : Sweep). lookup k x.exits) same;
        cats = λ k. ap (λ (x : Sweep). lookup k x.categories) same;
      }
  read_row-Step s t (short cpu code name) e =
      let done = enter-Entered s t cpu code name s.walls e in
      record {
        time = λ k.
            Adds-some k _ _ _ name done.time (rw (done.time_read, row_time) refl) done.times_set;
        wall = λ k. ap (lookup k) done.walls_set;
        exit = λ k.
            Adds-some k _ _ _ name done.exit (rw (done.exit_read, row_exit) refl) done.exits_set;
        cats = λ k.
            Adds-some k _ _ _ name done.cats (rw (done.cats_read, row_categories) refl)
              done.categories_set;
      }
  read_row-Step s t (full cpu wall code name) e =
      let (w, a, e1) =
        >>=-ok (number_or_raise (float_of wall))
          (λ w. enter logs s cpu code name (insert name w s.walls)) t e in
      let done = enter-Entered s t cpu code name (insert name w s.walls) e1 in
      record {
        time = λ k.
            Adds-some k _ _ _ name done.time (rw (done.time_read, row_time) refl) done.times_set;
        wall = λ k.
            Adds-some k _ _ _ name w (rw (number_or_raise-ok (float_of wall) w a, row_wall) refl)
              done.walls_set;
        exit = λ k.
            Adds-some k _ _ _ name done.exit (rw (done.exit_read, row_exit) refl) done.exits_set;
        cats = λ k.
            Adds-some k _ _ _ name done.cats (rw (done.cats_read, row_categories) refl)
              done.categories_set;
      }

-- One dict after all the rows.
Adds-latest {ℓ} :
    {V : Type ℓ} (k : Text) (f : Row → Option (Text × V)) (row : Row) (rows : List Row)
    (d e : Dict Text V) (r : Option V)
    → Adds k d (f row) e
    → r ≡ prefer (latest k (choose f rows)) (lookup k e)
    → r ≡ prefer (latest k (choose f (row ∷ rows))) (lookup k d)
Adds-latest k f row rows d e r a h = elim (Option-cases (f row)) [
  | inl q ↦
      h
      ∙ (ap (prefer (latest k (choose f rows))) (subst (λ o. Adds k d o e) q a)
          ∙ ap (λ l. prefer (latest k l) (lookup k d)) (sym (choose-none f row rows q)))
  | inr ((j, v), q) ↦
      h
      ∙ (ap (prefer (latest k (choose f rows))) (subst (λ o. Adds k d o e) q a)
          ∙ (prefer-insert k j v d (choose f rows)
              ∙ ap (λ l. prefer (latest k l) (lookup k d)) (sym (choose-some f row rows q))))
]

-- What a sweep holds, from another on: for each dict, the last row that speaks of a module decides.
record After (logs : Text → Option Text) (s : Sweep) (rows : List Row) (t : Sweep) : Type 0 where
  pub time :
      (k : Text) → lookup k t.times ≡ prefer (latest k (choose row_time rows)) (lookup k s.times)
  pub wall :
      (k : Text) → lookup k t.walls ≡ prefer (latest k (choose row_wall rows)) (lookup k s.walls)
  pub exit :
      (k : Text) → lookup k t.exits ≡ prefer (latest k (choose row_exit rows)) (lookup k s.exits)
  pub cats :
      (k : Text)
      → lookup k t.categories
        ≡ prefer (latest k (choose (row_categories logs) rows)) (lookup k s.categories)

read_rows-After :
    (logs : Text → Option Text) (s t : Sweep) (ls : List Text)
    → read_rows logs s ls ≡ ok t
    → After logs s (map columns ls) t
unfolding read_rows choose latest
read_rows-After logs s t [] e =
    let same = sym (ok-injective s t e) in
    record {
      time = λ k. ap (λ (x : Sweep). lookup k x.times) same;
      wall = λ k. ap (λ (x : Sweep). lookup k x.walls) same;
      exit = λ k. ap (λ (x : Sweep). lookup k x.exits) same;
      cats = λ k. ap (λ (x : Sweep). lookup k x.categories) same;
    }
read_rows-After logs s t (l ∷ ls) e =
    let (u, q, e1) = >>=-ok (read_row logs s (columns l)) (λ x. read_rows logs x ls) t e in
    let step = read_row-Step logs s u (columns l) q in
    let rest = read_rows-After logs u t ls e1 in
    let rows = map columns ls in
    record {
      time = λ k.
          Adds-latest k row_time (columns l) rows s.times u.times _ (step.time k) (rest.time k);
      wall = λ k.
          Adds-latest k row_wall (columns l) rows s.walls u.walls _ (step.wall k) (rest.wall k);
      exit = λ k.
          Adds-latest k row_exit (columns l) rows s.exits u.exits _ (step.exit k) (rest.exit k);
      cats = λ k.
          Adds-latest k (row_categories logs) (columns l) rows s.categories u.categories _
            (step.cats k) (rest.cats k);
    }

-- The rows of a summary.
abbrev pub rows_of : Text → List Row
rows_of summary = map columns (split_lines false summary)

-- If `run_profile_dir` can read a summary and the logs, each module has the time, the exit status and the categories of its last row of three or four columns,
-- and the wall time of its last row of four columns, even where a row of three comes behind; a module without such a row has none of them.
pub read_summary-latest :
    (logs : Text → Option Text) (summary k : Text) (s : Sweep)
    → read_summary logs summary ≡ ok s
    → (lookup k s.times ≡ latest k (choose row_time (rows_of summary)))
      × (lookup k s.walls ≡ latest k (choose row_wall (rows_of summary)))
      × (lookup k s.exits ≡ latest k (choose row_exit (rows_of summary)))
      × (lookup k s.categories ≡ latest k (choose (row_categories logs) (rows_of summary)))
unfolding read_summary lookup
read_summary-latest logs summary k s e =
    let found = read_rows-After logs _ s (split_lines false summary) e in
    (
      found.time k ∙ prefer-none _,
      found.wall k ∙ prefer-none _,
      found.exit k ∙ prefer-none _,
      found.cats k ∙ prefer-none _,
    )
