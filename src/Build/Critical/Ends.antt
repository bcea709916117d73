-- ===== src/Build/Critical/Ends.antt =====
-- The loop of `critical_path` ends where the imports have no cycle.
use sp1_lean.Base.{
  ℕ, zero, suc, ◌+◌, ◌≤◌, ◌<◌, ◌≡◌, refl, true, false, not, ◌&&◌, inl, inr, some, List, [], ◌∷◌,
  map, Text, arith, nat_eq, list_eq, contains, Memᴰ, here, there, Bool-cases, Option-cases, or_else,
}
use sp1_lean.Base.Dict.{Dict, has}
use sp1_lean.Base.Order.{nat_order, max_by}
use sp1_lean.Build.Critical.{
  Visits, Item, imports_of, push_imports, run_stack, run_roots, no_visits, heavier, weigh,
  critical_path,
}
use sp1_lean.Build.Critical.Waiting.{Needs}

module _ (imports : Dict Text (List Text)) (secs : Dict Text ℕ) where
  run_stack_mono :
      (n k : ℕ) (s : Visits) (stack : List Item) {t : Visits}
      → n ≤ k
      → run_stack imports secs n s stack ≡ some t
      → run_stack imports secs k s stack ≡ some t
  unfolding run_stack
  run_stack_mono n k s [] h e = e
  run_stack_mono zero k s (_ ∷ _) h e = absurd (cc e)
  run_stack_mono (suc n) zero s (_ ∷ _) h e = absurd (omega arith)
  run_stack_mono (suc n) (suc k) s ((m, true) ∷ stack) h e =
      run_stack_mono n k (record { order = m ∷ s.order; seen = s.seen }) stack (omega arith) e
  run_stack_mono (suc n) (suc k) s ((m, false) ∷ stack) h e =
      elim (Bool-cases (contains s.order m)) [
        | inl d ↦
            rw (d, run_stack) (run_stack_mono n k s stack (omega arith) (rw (d, run_stack) at e))
        | inr d ↦
            rw (d, run_stack)
              (run_stack_mono n k (record { order = s.order; seen = m ∷ s.seen })
                (push_imports imports secs s.order (imports_of imports secs m) ((m, true) ∷ stack))
                (omega arith) (rw (d, run_stack) at e))
      ]

  run_roots_mono :
      (n k : ℕ) (s : Visits) (roots : List Text) {t : Visits}
      → n ≤ k
      → run_roots imports secs n s roots ≡ some t
      → run_roots imports secs k s roots ≡ some t
  unfolding run_roots
  run_roots_mono n k s [] h e = e
  run_roots_mono n k s (root ∷ roots) h e = elim (Bool-cases (contains s.seen root)) [
    | inl d ↦ rw (d, run_roots) (run_roots_mono n k s roots h (rw (d, run_roots) at e))
    | inr d ↦ elim (Option-cases (run_stack imports secs n s ((root, false) ∷ []))) [
      | inl q ↦ absurd (cc (rw q at (rw (d, run_roots) at e)))
      | inr (u, q) ↦
          let more = run_stack_mono n k s ((root, false) ∷ []) h q in
          rw (d, run_roots)
            (rw more (run_roots_mono n k u roots h (rw q at (rw (d, run_roots) at e))))
    ]
  ]

  -- From every state, some fuel is enough for a stack.
  abbrev Halts : List Item → Type 0
  Halts stack = (s : Visits) → (n : ℕ) × (t : Visits) × (run_stack imports secs n s stack ≡ some t)

  Halts-nil : Halts []
  unfolding run_stack
  Halts-nil s = (0, s, refl)

  Halts-leave : (m : Text) (stack : List Item) → Halts stack → Halts ((m, true) ∷ stack)
  unfolding run_stack
  Halts-leave m stack h s =
      let (n, t, e) = h (record { order = m ∷ s.order; seen = s.seen }) in (suc n, t, e)

  -- A module may go onto any stack from which the loop ends.
  abbrev Pushable : Text → Type 0
  Pushable i = (stack : List Item) → Halts stack → Halts ((i, false) ∷ stack)

  Halts-push_imports :
      (done is : List Text) (stack : List Item)
      → ((i : Text) → Memᴰ i is → has i secs ≡ true → Pushable i)
      → Halts stack
      → Halts (push_imports imports secs done is stack)
  unfolding push_imports
  Halts-push_imports done [] stack f h = h
  Halts-push_imports done (i ∷ is) stack f h =
      elim (Bool-cases (has i secs && not (contains done i))) [
        | inl e ↦
            rw (e, push_imports)
              (Halts-push_imports done is ((i, false) ∷ stack) (λ j m. f j (there m))
                (f i here (ground arith) stack h))
        | inr e ↦ rw (e, push_imports) (Halts-push_imports done is stack (λ j m. f j (there m)) h)
      ]

  module _ (rank : Text → ℕ)
      (descends : (m i : Text) → Needs imports secs m i → rank i < rank m) where
    rank-Pushable : (r : ℕ) (m : Text) → rank m < r → Pushable m
    unfolding run_stack
    rank-Pushable zero m l stack h s = absurd (omega arith)
    rank-Pushable (suc r) m l stack h s = elim (Bool-cases (contains s.order m)) [
      | inl d ↦ let (n, t, e) = h s in (suc n, t, rw (d, run_stack) e)
      | inr d ↦
          let lower = λ (i : Text) (j : Memᴰ i (imports_of imports secs m)) (k : has i secs ≡ true).
            rank-Pushable r i (below i j k) in
          let (n, t, e) =
            Halts-push_imports s.order (imports_of imports secs m) ((m, true) ∷ stack) lower
              (Halts-leave m stack h) (record { order = s.order; seen = m ∷ s.seen }) in
          (suc n, t, rw (d, run_stack) e)
    ]
      where
        below : (i : Text) → Memᴰ i (imports_of imports secs m) → has i secs ≡ true → rank i < r
        below i j k = omega (arith, descends m i (j, k), l)

    run_roots_ends :
        (roots : List Text) (s : Visits)
        → (n : ℕ) × (t : Visits) × (run_roots imports secs n s roots ≡ some t)
    unfolding run_roots
    run_roots_ends [] s = (0, s, refl)
    run_roots_ends (root ∷ roots) s = elim (Bool-cases (contains s.seen root)) [
      | inl d ↦ let (n, t, e) = run_roots_ends roots s in (n, t, rw (d, run_roots) e)
      | inr d ↦
          let (n, u, e) = rank-Pushable (suc (rank root)) root (omega arith) [] Halts-nil s in
          let (k, t, f) = run_roots_ends roots u in
          let first = run_stack_mono n (n + k) s ((root, false) ∷ []) (omega arith) e in
          let rest = run_roots_mono k (n + k) u roots (omega arith) f in
          (n + k, t, rw (d, run_roots) (rw first rest))
    ]

    -- Where every module has a rank and the modules of the log that it imports have lower ones, as in a graph without cycles, the loop of `critical_path` ends: with some
    -- fuel, and with any more, it returns the same result.
    pub critical_path_ends :
        (n : ℕ) × (w : ℕ × List Text) × ((k : ℕ) → n ≤ k → critical_path imports secs k ≡ some w)
    unfolding critical_path
    critical_path_ends =
        let (n, t, e) = run_roots_ends (map (λ (s : Text × ℕ). s.0) secs) no_visits in
        (
          n,
          or_else (max_by heavier (map (λ b. b.1) (weigh imports secs t.order))) (0, []),
          λ k h.
              let more = run_roots_mono n k no_visits (map (λ (s : Text × ℕ). s.0) secs) h e in
              rw (more, critical_path) refl,
        )
