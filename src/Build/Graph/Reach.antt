-- ===== src/Build/Graph/Reach.antt =====
-- The loop of `closure` ends, and returns the modules of the graph that the start imports, directly or not.
use mathlib.Core.Logic.{⊎_elim}
use mathlib.Core.List.Memᴰ
use mathlib.Core.Option.{some-injective}
use sp1_lean.Base.{
  ℕ, zero, suc, ◌+◌, ◌≤◌, ◌≡◌, refl, sym, ap, ◌∙◌, subst, false, ◌⊎◌, ◌↔◌, inl, inr, some, List, [],
  ◌∷◌, Memᴰ, arith, Text, nat_eq, list_eq, contains, contains_iff, ◌==◌, eq_iff, if◌then◌else◌,
  length, Bool-cases, Option-cases, here, there, Memᴰ-nil, Memᴰ-cons,
}
use sp1_lean.Base.Dict.{lookup}
use sp1_lean.Build.Graph.{Source, Graph, push_all, visit, loop, imports_total, closure}

pub Memᴰ-push_all {ℓ} :
    {A : Type ℓ} (a : A) (xs ys : List A) → Memᴰ a (push_all xs ys) ↔ (Memᴰ a xs ⊎ Memᴰ a ys)
Memᴰ-push_all a [] ys = (inr, ⊎_elim (λ m. absurd (Memᴰ-nil m)) (λ m. m))
Memᴰ-push_all a (x ∷ xs) ys =
    ground (arith, Memᴰ-push_all a xs (x ∷ ys), Memᴰ-cons a x xs, Memᴰ-cons a x ys)

length-push_all {ℓ} :
    {A : Type ℓ} (xs ys : List A) → length (push_all xs ys) ≡ length xs + length ys
length-push_all [] ys = omega arith
length-push_all (x ∷ xs) ys = omega (arith, length-push_all xs (x ∷ ys))

-- The imports of the modules that have not been seen.
weight : Graph → List Text → ℕ
weight [] seen = 0
weight ((m, source) ∷ graph) seen =
    (if contains seen m then 0 else length source.imports) + weight graph seen

weight-nil : (graph : Graph) → weight graph [] ≡ imports_total graph
unfolding weight contains
weight-nil [] = refl
weight-nil ((m, source) ∷ graph) = omega (arith, weight-nil graph)

weight_weaken :
    (graph : Graph) (m : Text) (seen : List Text) → weight graph (m ∷ seen) ≤ weight graph seen
unfolding weight contains
weight_weaken [] m seen = ground arith
weight_weaken ((n, source) ∷ graph) m seen = ground (arith, weight_weaken graph m seen)

weight_falls :
    (graph : Graph) (m : Text) (seen : List Text) (source : Source)
    → lookup m graph ≡ some source
    → contains seen m ≡ false
    → weight graph (m ∷ seen) + length source.imports ≤ weight graph seen
unfolding weight contains lookup
weight_falls [] m seen source h out = cc h
weight_falls ((n, s) ∷ graph) m seen source h out = elim (Bool-cases (n == m)) [
  | inl e ↦
      let name = (eq_iff n m).0 e in
      let same : s ≡ source = some-injective _ _ (rw (e, lookup) at h) in
      ground (
        arith,
        ap (contains seen) name,
        ap (λ (t : Source). length t.imports) same,
        weight_weaken graph m seen,
      )
  | inr e ↦ ground (arith, weight_falls graph m seen source (rw (e, lookup) at h) out)
]

module _ (graph : Graph) where
  abbrev pub InGraph : Text → Type 0
  InGraph m = (source : Source) × (lookup m graph ≡ some source)

  -- A chain of imports inside the graph.
  pub data Reaches (start : Text) : Text → Type 0 where
    at_start : InGraph start → Reaches start start
    by_import :
        {m n : Text} (source : Source)
        → Reaches start m
        → lookup m graph ≡ some source
        → Memᴰ n source.imports
        → InGraph n
        → Reaches start n

  -- What the loop keeps. The start and all imports of a module seen are seen or on the stack, if they are in the graph.
  record IsSearch (start : Text) (seen stack : List Text) : Type 0 where
    pub sound : (m : Text) → Memᴰ m seen → Reaches start m
    pub pending : (m : Text) → Memᴰ m stack → InGraph m → Reaches start m
    pub start_covered : InGraph start → Memᴰ start seen ⊎ Memᴰ start stack
    pub covered :
        (m n : Text) (source : Source)
        → Memᴰ m seen
        → lookup m graph ≡ some source
        → Memᴰ n source.imports
        → InGraph n
        → Memᴰ n seen ⊎ Memᴰ n stack

  -- A module that is skipped leaves the stack.
  skip :
      (start m : Text) (seen stack : List Text)
      → ((InGraph m) → Memᴰ m seen)
      → IsSearch start seen (m ∷ stack)
      → IsSearch start seen stack
  skip start m seen stack known s = record {
    sound = s.sound;
    pending = λ n i g. s.pending n (there i) g;
    start_covered = λ g. drop_m start g (s.start_covered g);
    covered = λ k n source i l j g. drop_m n g (s.covered k n source i l j g);
  }
    where
      drop_m :
          (n : Text) → InGraph n → Memᴰ n seen ⊎ Memᴰ n (m ∷ stack) → Memᴰ n seen ⊎ Memᴰ n stack
      drop_m n g (inl i) = inl i
      drop_m n g (inr i) =
          ⊎_elim (λ e. inl (subst (λ t. Memᴰ t seen) (sym e) (known (subst InGraph e g)))) inr
            (Memᴰ.cases_cons i)

  expand :
      (start m : Text) (seen stack : List Text) (source : Source)
      → lookup m graph ≡ some source
      → IsSearch start seen (m ∷ stack)
      → IsSearch start (m ∷ seen) (push_all source.imports stack)
  expand start m seen stack source l s = record {
    sound =
        λ n i. ⊎_elim (λ e. subst (Reaches start) (sym e) reached) (s.sound n) (Memᴰ.cases_cons i);
    pending = λ n i g.
        ⊎_elim (λ j. by_import source reached l j g) (λ j. s.pending n (there j) g)
          ((Memᴰ-push_all n source.imports stack).0 i);
    start_covered = λ g. moved start (s.start_covered g);
    covered = λ k n t i q j g.
        ⊎_elim (λ e. imported n t (subst (λ x. lookup x graph ≡ some t) e q) j)
          (λ h. moved n (s.covered k n t h q j g)) (Memᴰ.cases_cons i);
  }
    where
      reached : Reaches start m
      reached = s.pending m here (source, l)

      moved :
          (n : Text)
          → Memᴰ n seen ⊎ Memᴰ n (m ∷ stack)
          → Memᴰ n (m ∷ seen) ⊎ Memᴰ n (push_all source.imports stack)
      moved n (inl i) = inl (there i)
      moved n (inr i) =
          ⊎_elim (λ e. inl (Memᴰ.head e))
            (λ j. inr ((Memᴰ-push_all n source.imports stack).1 (inr j))) (Memᴰ.cases_cons i)

      imported :
          (n : Text) (t : Source)
          → lookup m graph ≡ some t
          → Memᴰ n t.imports
          → Memᴰ n (m ∷ seen) ⊎ Memᴰ n (push_all source.imports stack)
      imported n t q j = inr (
          (Memᴰ-push_all n source.imports stack).1 (
            inl (subst (λ (x : Source). Memᴰ n x.imports) (some-injective t source (sym q ∙ l)) j)))

  -- One pass keeps the invariant and takes one from the work that is left.
  work : List Text × List Text → ℕ
  work (seen, stack) = weight graph seen + length stack

  visit_keeps :
      (start m : Text) (seen stack : List Text)
      → IsSearch start seen (m ∷ stack)
      → (IsSearch start (visit graph m seen stack).0 (visit graph m seen stack).1)
        × (suc (work (visit graph m seen stack)) ≤ work (seen, m ∷ stack))
  unfolding visit work
  visit_keeps start m seen stack s = elim (Bool-cases (contains seen m)) [
    | inl t ↦
        rw (t, visit) (skip start m seen stack (λ _. (contains_iff seen m).0 t) s, omega arith)
    | inr f ↦ elim (Option-cases (lookup m graph)) [
      | inl e ↦
          rw (f, visit)
            (rw (e, visit) (skip start m seen stack (λ g. absurd (cc (e, g.1))) s, omega arith))
      | inr (source, e) ↦
          rw (f, visit)
            (rw (e, visit)
              (
                expand start m seen stack source e s,
                omega (
                  arith,
                  weight_falls graph m seen source e f,
                  length-push_all source.imports stack,
                ),
              ))
    ]
  ]

  loop_ends :
      (start : Text) (fuel : ℕ) (seen stack : List Text)
      → IsSearch start seen stack
      → work (seen, stack) ≤ fuel
      → (result : List Text) × (loop graph fuel (seen, stack) ≡ some result)
        × IsSearch start result []
  unfolding loop work
  loop_ends start fuel seen [] s h = (seen, refl, s)
  loop_ends start zero seen (m ∷ stack) s h = absurd (omega (arith, h))
  loop_ends start (suc fuel) seen (m ∷ stack) s h =
      let (kept, falls) = visit_keeps start m seen stack s in
      loop_ends start fuel (visit graph m seen stack).0 (visit graph m seen stack).1 kept
        (omega (arith, h, falls))

  complete :
      (start : Text) (seen : List Text)
      → IsSearch start seen []
      → (m : Text) → Reaches start m
      → Memᴰ m seen
  complete start seen s m (at_start g) =
      ⊎_elim (λ i. i) (λ i. absurd (Memᴰ-nil i)) (s.start_covered g)
  complete start seen s n (by_import {m} source r l j g) =
      ⊎_elim (λ i. i) (λ i. absurd (Memᴰ-nil i))
        (s.covered m n source (complete start seen s m r) l j g)

  -- The loop of `closure` ends, and returns exactly the modules of the graph that a chain of imports inside the graph
  -- joins to the start.
  pub closure-Reaches :
      (start : Text)
      → (seen : List Text) × (closure graph start ≡ some seen)
        × ((m : Text) → Memᴰ m seen ↔ Reaches start m)
  unfolding closure work
  closure-Reaches start =
      let begun : IsSearch start [] (start ∷ []) = record {
        sound = λ m i. absurd (Memᴰ-nil i);
        pending = λ m i g.
            subst (Reaches start) (sym (Memᴰ.eq_of_singleton i))
              (at_start (subst InGraph (Memᴰ.eq_of_singleton i) g));
        start_covered = λ g. inr here;
        covered = λ m n source i. absurd (Memᴰ-nil i);
      } in
      let (seen, ends, s) =
        loop_ends start (1 + imports_total graph) [] (start ∷ []) begun
          (omega (arith, weight-nil graph)) in
      (seen, ends, λ m. (s.sound m, complete start seen s m))
