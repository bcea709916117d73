-- ===== src/Gate/Accepts.antt =====
-- The CI gate accepts exactly the complete graphs of successful jobs with a full build, and names what
-- it objects to.
use mathlib.Core.Logic.{⊎_elim}
use mathlib.Core.List.Memᴰ
use sp1_lean.Base.{
  ◌≡◌, ◌≢◌, refl, sym, ap, ◌∙◌, subst, true, not, ◌⊎◌, ◌↔◌, inl, inr, Option, some, List, [], ◌∷◌,
  Memᴰ, arith, Text, codes, nat_eq, list_eq, option_eq, ◌==◌, eq_iff, contains, contains_iff, keep,
  Memᴰ-keep, Memᴰ-append, Memᴰ-nil, Bool-cases, here,
}
use sp1_lean.Base.Dict.{Dict}
use sp1_lean.Gate.{
  Job, Jobs, required, success, incomplete, failed, passed, names, unnamed, unexpected, difference,
  failures, full_build, judge, validate,
}

absent_iff : (ns : List Text) (n : Text) → (not (contains ns n) ≡ true) ↔ (¬ Memᴰ n ns)
absent_iff ns n = ground (arith, contains_iff ns n)

pub Memᴰ-difference :
    (jobs : Jobs) (n : Text)
    → Memᴰ n (difference jobs)
      ↔ ((Memᴰ n required × (¬ Memᴰ n (names jobs))) ⊎ (Memᴰ n (names jobs) × (¬ Memᴰ n required)))
unfolding difference unnamed unexpected
Memᴰ-difference jobs n = ground (
  arith,
  Memᴰ-append n (unnamed jobs) (unexpected jobs),
  Memᴰ-keep (λ (m : Text). not (contains (names jobs) m)) n required,
  Memᴰ-keep (λ (m : Text). not (contains required m)) n (names jobs),
  absent_iff (names jobs) n,
  absent_iff required n,
)

pub Memᴰ-failures :
    (jobs : Jobs) (n : Text) (r : Option Text)
    → Memᴰ (n, r) (failures jobs)
      ↔ ((j : Job) × Memᴰ (n, j) jobs × (j.result ≡ r) × (r ≢ some success))
unfolding failures
Memᴰ-failures jobs n r = (
  λ m.
      let ((k, j), i, q) =
        Memᴰ.of_map {B = Text × Option Text} (λ (t : Text × Job). (t.0, t.1.result))
          (keep (λ (t : Text × Job). not (t.1.result == some success)) jobs) m in
      let (l, f) =
        (Memᴰ-keep (λ (t : Text × Job). not (t.1.result == some success)) (k, j) jobs).0 i in
      let name = ap (λ (t : Text × Option Text). t.0) q in
      let result = ap (λ (t : Text × Option Text). t.1) q in
      (
        j,
        subst (λ t. Memᴰ (t, j) jobs) name l,
        result,
        λ e. cc (f, (eq_iff j.result (some success)).1 (result ∙ e)),
      ),
  λ (j, i, q, differs).
      subst (λ t. Memᴰ (n, t) (failures jobs)) q
        (Memᴰ.map {B = Text × Option Text} (λ (t : Text × Job). (t.0, t.1.result)) {a = (n, j)}
          ((Memᴰ-keep (λ (t : Text × Job). not (t.1.result == some success)) (n, j) jobs).1 (
            i,
            ground (
              arith,
              eq_iff j.result (some success),
              λ (e : j.result ≡ some success). differs (sym q ∙ e),
            ),
          ))),
)

-- Every required job ran, no other job did, all of them succeeded, and the build was a full one.
pub record IsFull (jobs : Jobs) : Type 0 where
  pub complete : (n : Text) → Memᴰ n required ↔ Memᴰ n (names jobs)
  pub succeeded : (n : Text) (j : Job) → Memᴰ (n, j) jobs → j.result ≡ some success
  pub full : full_build jobs ≡ some (codes "true")

empty_of {ℓ} : {A : Type ℓ} (xs : List A) → ((x : A) → ¬ Memᴰ x xs) → xs ≡ []
empty_of [] h = refl
empty_of (x ∷ xs) h = absurd (h x here)

judge_passed :
    (ns : List Text) (fs : Dict Text (Option Text)) (full : Option Text)
    → (judge ns fs full ≡ passed) ↔ ((ns ≡ []) × (fs ≡ []) × (full ≡ some (codes "true")))
unfolding judge
judge_passed (n ∷ ns) fs full = (λ h. cc h, λ (e, f, g). cc e)
judge_passed [] (f ∷ fs) full = (λ h. cc h, λ (e, f, g). cc f)
judge_passed [] [] full = ground (arith, eq_iff full (some (codes "true")))

judge_incomplete :
    (ns ms : List Text) (fs : Dict Text (Option Text)) (full : Option Text)
    → judge ns fs full ≡ incomplete ms
    → ns ≡ ms
unfolding judge
judge_incomplete (n ∷ ns) ms fs full h = cc h
judge_incomplete [] ms (f ∷ fs) full h = cc h
judge_incomplete [] ms [] full h = ground arith

judge_failed :
    (ns : List Text) (fs gs : Dict Text (Option Text)) (full : Option Text)
    → judge ns fs full ≡ failed gs
    → (ns ≡ []) × (fs ≡ gs)
unfolding judge
judge_failed (n ∷ ns) fs gs full h = cc h
judge_failed [] (f ∷ fs) gs full h = (refl, cc h)
judge_failed [] [] gs full h = ground arith

-- Membership is decided by `contains`.
present : (ns : List Text) (n : Text) → (¬ (¬ Memᴰ n ns)) → Memᴰ n ns
present ns n h = elim (Bool-cases (contains ns n)) [
  | inl t ↦ (contains_iff ns n).0 t
  | inr f ↦ absurd (h (λ m. cc (f, (contains_iff ns n).1 m)))
]

complete_iff :
    (jobs : Jobs) → (difference jobs ≡ []) ↔ ((n : Text) → Memᴰ n required ↔ Memᴰ n (names jobs))
complete_iff jobs = (
  λ d n. (
    λ i.
        present (names jobs) n
          (λ out. Memᴰ-nil (subst (Memᴰ n) d ((Memᴰ-difference jobs n).1 (inl (i, out))))),
    λ i.
        present required n
          (λ out. Memᴰ-nil (subst (Memᴰ n) d ((Memᴰ-difference jobs n).1 (inr (i, out))))),
  ),
  λ h. empty_of (difference jobs) (λ n m.
      ⊎_elim (λ (i, out). out ((h n).0 i)) (λ (i, out). out ((h n).1 i))
        ((Memᴰ-difference jobs n).0 m)),
)

all_succeeded :
    (jobs : Jobs)
    → failures jobs ≡ []
    → (n : Text) (j : Job) → Memᴰ (n, j) jobs
    → j.result ≡ some success
all_succeeded jobs f n j i = elim (Bool-cases (j.result == some success)) [
  | inl t ↦ (eq_iff j.result (some success)).0 t
  | inr e ↦ absurd (
      Memᴰ-nil (
        subst (Memᴰ (n, j.result)) f (
          (Memᴰ-failures jobs n j.result).1
            (j, i, refl, λ q. cc (e, (eq_iff j.result (some success)).1 q)))))
]

-- `validate` accepts exactly the complete graphs of jobs that all succeeded, with a full build.
pub validate_passed : (jobs : Jobs) → (validate jobs ≡ passed) ↔ IsFull jobs
unfolding validate
validate_passed jobs = (
  λ h.
      let (d, f, b) = (judge_passed (difference jobs) (failures jobs) (full_build jobs)).0 h in
      record {
        complete = (complete_iff jobs).0 d;
        succeeded = λ n j i. all_succeeded jobs f n j i;
        full = b;
      },
  λ h. (judge_passed (difference jobs) (failures jobs) (full_build jobs)).1 (
    (complete_iff jobs).1 h.complete,
    empty_of (failures jobs) (λ (n, r) m.
        let (j, i, q, differs) = (Memᴰ-failures jobs n r).0 m in
        differs (sym q ∙ h.succeeded n j i)),
    h.full,
  ),
)

-- Where `validate` raises "incomplete", it names the required jobs that are missing and the jobs that are not required,
-- and no others.
pub validate_incomplete :
    (jobs : Jobs) (ns : List Text)
    → validate jobs ≡ incomplete ns
    → (n : Text)
    → Memᴰ n ns
      ↔ ((Memᴰ n required × (¬ Memᴰ n (names jobs))) ⊎ (Memᴰ n (names jobs) × (¬ Memᴰ n required)))
unfolding validate
validate_incomplete jobs ns h n =
    subst
      (λ ms. Memᴰ n ms ↔ (
        (Memᴰ n required × (¬ Memᴰ n (names jobs))) ⊎ (Memᴰ n (names jobs) × (¬ Memᴰ n required))))
      (judge_incomplete (difference jobs) ns (failures jobs) (full_build jobs) h)
      (Memᴰ-difference jobs n)

-- Where `validate` raises "did not pass", the graph is complete, and the message shows the jobs that did not succeed, each
-- with its result, and no others.
pub validate_failed :
    (jobs : Jobs) (fs : Dict Text (Option Text))
    → validate jobs ≡ failed fs
    → ((n : Text) → Memᴰ n required ↔ Memᴰ n (names jobs))
      × ((n : Text) (r : Option Text)
          → Memᴰ (n, r) fs ↔ ((j : Job) × Memᴰ (n, j) jobs × (j.result ≡ r) × (r ≢ some success)))
unfolding validate
validate_failed jobs fs h =
    let (d, e) = judge_failed (difference jobs) (failures jobs) fs (full_build jobs) h in
    (
      (complete_iff jobs).0 d,
      λ n r.
          subst
            (λ gs.
              Memᴰ (n, r) gs ↔ ((j : Job) × Memᴰ (n, j) jobs × (j.result ≡ r) × (r ≢ some success)))
            e (Memᴰ-failures jobs n r),
    )
