-- ===== src/Build/Critical/Topological.antt =====
-- The order in which the loop of `critical_path` visits the modules: a module comes after its imports.
use mathlib.Core.List.Memᴰ
use mathlib.Core.Logic.{⊎_elim}
use mathlib.Core.Option.{some-injective}
use sp1_lean.Base.{
  ℕ, zero, suc, ◌≡◌, refl, sym, ap, subst, Bool, true, false, ◌⊎◌, inl, inr, some, List, [], ◌∷◌,
  Text, nat_eq, list_eq, contains, contains_iff, Memᴰ, Memᴰ-nil, here, there, Bool-cases,
  Option-cases,
}
use sp1_lean.Base.Dict.{Dict, has}
use sp1_lean.Build.Critical.{
  Visits, Item, imports_of, push_imports, run_stack, run_roots, no_visits,
}
use sp1_lean.Build.Critical.Waiting.{
  Either, Needs, Good, Good-mono, push_imports-Good, push_imports-keeps, push_imports-inside,
}

module _ (imports : Dict Text (List Text)) (secs : Dict Text ℕ) where
  -- Every module comes after all that it needs; the latest is first in the list.
  abbrev pub IsTopological : List Text → Type 0
  IsTopological [] = Unit
  IsTopological (m ∷ earlier) =
      ((i : Text) → Needs imports secs m i → Memᴰ i earlier)
      × (has m secs ≡ true)
      × IsTopological earlier

  abbrev Held : Text → Visits → List Item → Type 0
  Held x s stack = Memᴰ x s.order ⊎ ((b : Bool) × Memᴰ (x, b) stack)

  record IsSound (s : Visits) (stack : List Item) : Type 0 where
    pub good : Good imports secs s.order [] stack
    pub inside : (x : Item) → Memᴰ x stack → has x.0 secs ≡ true
    pub topological : IsTopological s.order
    pub held : (x : Text) → Memᴰ x s.seen → Held x s stack

  Held-rest :
      (x m : Text) (b : Bool) (s : Visits) (stack : List Item)
      → Held x s ((m, b) ∷ stack)
      → (x ≡ m) ⊎ Held x s stack
  Held-rest x m b s stack (inl d) = inr (inl d)
  Held-rest x m b s stack (inr (c, i)) = elim (Memᴰ.cases_cons i) [
    | inl q ↦ inl (ap (λ (y : Item). y.0) q)
    | inr t ↦ inr (inr (c, t))
  ]

  -- The three cases of the loop's body keep the stack sound, and lose no module.
  leave-IsSound :
      (m : Text) (s : Visits) (stack : List Item)
      → IsSound s ((m, true) ∷ stack)
      → IsSound (record { order = m ∷ s.order; seen = s.seen }) stack
        × ((x : Text)
            → Held x s ((m, true) ∷ stack)
            → Held x (record { order = m ∷ s.order; seen = s.seen }) stack)
  leave-IsSound m s stack i = (
    record {
      good = Good-mono imports secs s.order (m ∷ s.order) stack (m ∷ []) [] moved i.good.1;
      inside = λ x k. i.inside x (there k);
      topological = (
        λ j n. ⊎_elim (λ d. d) (λ u. absurd (Memᴰ-nil u)) (i.good.0 refl j n),
        i.inside (m, true) here,
        i.topological,
      );
      held = λ x k. kept x (i.held x k);
    },
    kept,
  )
    where
      moved : (x : Text) → Either x s.order (m ∷ []) → Either x (m ∷ s.order) []
      moved x (inl d) = inl (there d)
      moved x (inr u) = inl (Memᴰ.head (Memᴰ.eq_of_singleton u))

      kept :
          (x : Text)
          → Held x s ((m, true) ∷ stack)
          → Held x (record { order = m ∷ s.order; seen = s.seen }) stack
      kept x h = elim (Held-rest x m true s stack h) [
        | inl q ↦ inl (Memᴰ.head q)
        | inr (inl d) ↦ inl (there d)
        | inr (inr t) ↦ inr t
      ]

  pass-IsSound :
      (m : Text) (s : Visits) (stack : List Item)
      → Memᴰ m s.order
      → IsSound s ((m, false) ∷ stack)
      → IsSound s stack × ((x : Text) → Held x s ((m, false) ∷ stack) → Held x s stack)
  pass-IsSound m s stack d i = (
    record {
      good = Good-mono imports secs s.order s.order stack (m ∷ []) [] moved i.good.1;
      inside = λ x k. i.inside x (there k);
      topological = i.topological;
      held = λ x k. kept x (i.held x k);
    },
    kept,
  )
    where
      moved : (x : Text) → Either x s.order (m ∷ []) → Either x s.order []
      moved x (inl k) = inl k
      moved x (inr u) = inl (subst (λ y. Memᴰ y s.order) (sym (Memᴰ.eq_of_singleton u)) d)

      kept : (x : Text) → Held x s ((m, false) ∷ stack) → Held x s stack
      kept x h = elim (Held-rest x m false s stack h) [
        | inl q ↦ inl (subst (λ y. Memᴰ y s.order) (sym q) d)
        | inr t ↦ t
      ]

  abbrev entered : Text → Visits → Visits
  entered m s = record { order = s.order; seen = m ∷ s.seen }

  abbrev expanded : Text → Visits → List Item → List Item
  expanded m s stack =
      push_imports imports secs s.order (imports_of imports secs m) ((m, true) ∷ stack)

  enter-IsSound :
      (m : Text) (s : Visits) (stack : List Item)
      → IsSound s ((m, false) ∷ stack)
      → IsSound (entered m s) (expanded m s stack)
        × ((x : Text) → Held x s ((m, false) ∷ stack) → Held x (entered m s) (expanded m s stack))
  enter-IsSound m s stack i = (
    record {
      good =
          push_imports-Good imports secs s.order (imports_of imports secs m) ((m, true) ∷ stack)
            (λ above c. (
              λ _ j n. c j n.0 n.1,
              Good-mono imports secs s.order s.order stack (m ∷ []) (m ∷ above) wider i.good.1,
            ));
      inside =
          push_imports-inside imports secs s.order (imports_of imports secs m) ((m, true) ∷ stack)
            items;
      topological = i.topological;
      held = λ x k. elim (Memᴰ.cases_cons k) [
        | inl q ↦ inr (
          true,
          push_imports-keeps imports secs s.order (imports_of imports secs m) ((m, true) ∷ stack)
              (x, true) (Memᴰ.head (ap (λ y. (y, true)) q)),
        )
        | inr t ↦ kept x (i.held x t)
      ];
    },
    kept,
  )
    where
      wider :
          {above : List Text}
          → (x : Text) → Either x s.order (m ∷ [])
          → Either x s.order (m ∷ above)
      wider x (inl k) = inl k
      wider x (inr u) = inr (Memᴰ.head (Memᴰ.eq_of_singleton u))

      items : (x : Item) → Memᴰ x ((m, true) ∷ stack) → has x.0 secs ≡ true
      items x k = elim (Memᴰ.cases_cons k) [
        | inl q ↦ subst (λ (z : Item). has z.0 secs ≡ true) (sym q) (i.inside (m, false) here)
        | inr t ↦ i.inside x (there t)
      ]

      kept : (x : Text) → Held x s ((m, false) ∷ stack) → Held x (entered m s) (expanded m s stack)
      kept x h = elim (Held-rest x m false s stack h) [
        | inl q ↦ inr (
          true,
          push_imports-keeps imports secs s.order (imports_of imports secs m) ((m, true) ∷ stack)
              (x, true) (Memᴰ.head (ap (λ y. (y, true)) q)),
        )
        | inr (inl d) ↦ inl d
        | inr (inr (b, t)) ↦ inr (
          b,
          push_imports-keeps imports secs s.order (imports_of imports secs m) ((m, true) ∷ stack)
              (x, b) (there t),
        )
      ]

  run_stack-IsSound :
      (n : ℕ) (s t : Visits) (stack : List Item)
      → run_stack imports secs n s stack ≡ some t
      → IsSound s stack
      → IsSound t [] × ((x : Text) → Held x s stack → Held x t [])
  unfolding run_stack
  run_stack-IsSound n s t [] e i =
      let same = some-injective s t e in
      (
        subst (λ (x : Visits). IsSound x []) same i,
        λ x. subst (λ (y : Visits). Held x s [] → Held x y []) same (λ h. h),
      )
  run_stack-IsSound zero s t (_ ∷ _) e i = absurd (cc e)
  run_stack-IsSound (suc n) s t ((m, true) ∷ stack) e i =
      let (sound, kept) = leave-IsSound m s stack i in
      let (done, later) = run_stack-IsSound n _ t stack e sound in (done, λ x h. later x (kept x h))
  run_stack-IsSound (suc n) s t ((m, false) ∷ stack) e i = elim (Bool-cases (contains s.order m)) [
    | inl d ↦
        let (sound, kept) = pass-IsSound m s stack ((contains_iff s.order m).0 d) i in
        let (done, later) = run_stack-IsSound n s t stack (rw (d, run_stack) at e) sound in
        (done, λ x h. later x (kept x h))
    | inr d ↦
        let (sound, kept) = enter-IsSound m s stack i in
        let (done, later) =
          run_stack-IsSound n (entered m s) t (expanded m s stack) (rw (d, run_stack) at e) sound in
        (done, λ x h. later x (kept x h))
  ]

  -- After the loop over the roots, all of them are done.
  run_roots-IsSound :
      (n : ℕ) (s t : Visits) (roots : List Text)
      → ((x : Text) → Memᴰ x roots → has x secs ≡ true)
      → run_roots imports secs n s roots ≡ some t
      → IsSound s []
      → IsSound t []
        × ((x : Text) → Held x s [] → Held x t [])
        × ((x : Text) → Memᴰ x roots → Memᴰ x t.order)
  unfolding run_roots
  run_roots-IsSound n s t [] h e i =
      let same = some-injective s t e in
      (
        subst (λ (x : Visits). IsSound x []) same i,
        λ x. subst (λ (y : Visits). Held x s [] → Held x y []) same (λ k. k),
        λ x m. absurd (Memᴰ-nil m),
      )
  run_roots-IsSound n s t (root ∷ roots) h e i = elim (Bool-cases (contains s.seen root)) [
    | inl d ↦
        let (sound, kept, all) =
          run_roots-IsSound n s t roots (λ x m. h x (there m)) (rw (d, run_roots) at e) i in
        (
          sound,
          kept,
          with_root root roots t
              (finished root t (kept root (i.held root ((contains_iff s.seen root).0 d)))) all,
        )
    | inr d ↦ elim (Option-cases (run_stack imports secs n s ((root, false) ∷ []))) [
      | inl q ↦ absurd (cc (rw q at (rw (d, run_roots) at e)))
      | inr (u, q) ↦
          let (middle, first) = run_stack-IsSound n s u ((root, false) ∷ []) q (start i) in
          let (sound, kept, all) =
            run_roots-IsSound n u t roots (λ x m. h x (there m)) (rw q at (rw (d, run_roots) at e))
              middle in
          (
            sound,
            λ x k. kept x (first x (grown x k)),
            with_root root roots t (finished root t (kept root (first root (inr (false, here)))))
                all,
          )
    ]
  ]
    where
      finished : (x : Text) (t : Visits) → Held x t [] → Memᴰ x t.order
      finished x t (inl k) = k
      finished x t (inr (b, k)) = absurd (Memᴰ-nil k)

      with_root :
          (root : Text) (roots : List Text) (t : Visits)
          → Memᴰ root t.order
          → ((x : Text) → Memᴰ x roots → Memᴰ x t.order)
          → (x : Text) → Memᴰ x (root ∷ roots)
          → Memᴰ x t.order
      with_root root roots t k all x m = elim (Memᴰ.cases_cons m) [
        | inl q ↦ subst (λ y. Memᴰ y t.order) (sym q) k
        | inr r ↦ all x r
      ]

      grown : (x : Text) → Held x s [] → Held x s ((root, false) ∷ [])
      grown x (inl k) = inl k
      grown x (inr (b, k)) = absurd (Memᴰ-nil k)

      start : IsSound s [] → IsSound s ((root, false) ∷ [])
      start i = record {
        good = (λ f. absurd (cc f), tt);
        inside = λ x k.
            subst (λ (z : Item). has z.0 secs ≡ true) (sym (Memᴰ.eq_of_singleton k)) (h root here);
        topological = i.topological;
        held = λ x k. grown x (i.held x k);
      }

  no_visits-IsSound : IsSound no_visits []
  no_visits-IsSound = record {
    good = tt;
    inside = λ x m. absurd (Memᴰ-nil m);
    topological = tt;
    held = λ x m. absurd (Memᴰ-nil m);
  }

  -- From the beginning: the order is topological, and has every root.
  pub run_roots-IsTopological :
      (n : ℕ) (t : Visits) (roots : List Text)
      → ((x : Text) → Memᴰ x roots → has x secs ≡ true)
      → run_roots imports secs n no_visits roots ≡ some t
      → IsTopological t.order × ((x : Text) → Memᴰ x roots → Memᴰ x t.order)
  run_roots-IsTopological n t roots h e =
      let (sound, kept, all) = run_roots-IsSound n no_visits t roots h e no_visits-IsSound in
      (sound.topological, all)
