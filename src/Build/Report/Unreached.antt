-- ===== src/Build/Report/Unreached.antt =====
-- The modules that no headline reaches.
use mathlib.Core.List.Memᴰ
use mathlib.Core.Logic.{⊎_elim}
use sp1_lean.Base.{
  ◌≡◌, ◌↔◌, refl, subst, Bool, true, false, not, ◌&&◌, ◌||◌, inl, inr, some, List, [], ◌∷◌, map,
  Text, codes, arith, nat_eq, list_eq, ◌==◌, eq_iff, Memᴰ, Memᴰ-nil, Memᴰ-keep, here, there,
  Bool-cases, contains, contains_iff, any,
}
use sp1_lean.Base.Dict.{Dict, has, has_iff}
use sp1_lean.Build.Graph.{Graph, Source}
use sp1_lean.Build.Graph.Reach.{Reaches, at_start, by_import, closure-Reaches}
use sp1_lean.Build.Report.{headlines, closures_of, is_reached, root_of, unreached_from, unreached}

module _ (graph : Graph) where
  -- Only a module of the graph reaches others.
  Reaches-has : (h m : Text) → Reaches graph h m → has h graph ≡ true
  Reaches-has h m (at_start i) = (has_iff h graph).1 (λ e. cc (e, i.1))
  Reaches-has h m (by_import source r l i g) = Reaches-has h _ r

  -- The closures of headlines reach what one of these reaches.
  abbrev Covers : List Text → Dict Text (List Text) → Type 0
  Covers hs closures =
      (m : Text) → (is_reached closures m ≡ true) ↔ ((h : Text) × Memᴰ h hs × Reaches graph h m)

  closures_of-Covers :
      (hs : List Text)
      → (closures : Dict Text (List Text)) × (closures_of graph hs ≡ some closures)
        × Covers hs closures
  unfolding closures_of any
  closures_of-Covers [] = ([], refl, λ m. (λ e. absurd (cc e), λ (h, i, _). absurd (Memᴰ-nil i)))
  closures_of-Covers (h ∷ hs) = elim (Bool-cases (has h graph)) [
    | inr q ↦
        let (closures, e, covers) = closures_of-Covers hs in
        (
          closures,
          rw (q, closures_of) e,
          λ m. (
            λ k. let (g, i, r) = (covers m).0 k in (g, there i, r),
            λ (g, i, r).
                ⊎_elim (λ s. absurd (cc (q, subst (λ x. has x graph ≡ true) s (Reaches-has g m r))))
                  (λ t. (covers m).1 (g, t, r)) (Memᴰ.cases_cons i),
          ),
        )
    | inl q ↦
        let (seen, f, reach) = closure-Reaches graph h in
        let (closures, e, covers) = closures_of-Covers hs in
        (
          (h, seen) ∷ closures,
          rw (q, closures_of) (rw f (rw e refl)),
          λ m. (
            λ k. elim (Bool-cases (contains seen m)) [
              | inl c ↦ (h, here, (reach m).0 ((contains_iff seen m).0 c))
              | inr c ↦ let (g, i, r) = (covers m).0 (rw c at k) in (g, there i, r)
            ],
            λ (g, i, r).
                ⊎_elim
                  (λ s.
                    or_left (contains seen m) _
                      ((contains_iff seen m).1 ((reach m).1 (subst (λ x. Reaches graph x m) s r))))
                  (λ t. or_right (contains seen m) _ ((covers m).1 (g, t, r))) (Memᴰ.cases_cons i),
          ),
        )
  ]
    where
      or_left : (a b : Bool) → a ≡ true → (a || b) ≡ true
      or_left a b e = ground arith

      or_right : (a b : Bool) → b ≡ true → (a || b) ≡ true
      or_right a b e = ground arith

  -- The report on unreached modules is always computed, and lists exactly the modules of the graph under SP1Clean that no headline reaches by imports.
  pub unreached_iff :
      (ms : List Text) × (unreached graph ≡ some ms)
      × ((m : Text)
          → Memᴰ m ms ↔ (
              Memᴰ m (map (λ g. g.0) graph)
              × (root_of m ≡ codes "SP1Clean")
              × ((h : Text) → Memᴰ h headlines → ¬ Reaches graph h m)))
  unfolding unreached unreached_from
  unreached_iff =
      let (closures, e, covers) = closures_of-Covers headlines in
      (
        unreached_from closures graph,
        rw (e, unreached) refl,
        λ m.
            let test = λ (x : Text). not (is_reached closures x) && root_of x == codes "SP1Clean" in
            let kept = Memᴰ-keep test m (map (λ (g : Text × Source). g.0) graph) in
            (
              λ i.
                  let (known, t) = kept.0 i in
                  let (away, under) =
                    both (is_reached closures m) (root_of m == codes "SP1Clean") t in
                  (
                    known,
                    (eq_iff (root_of m) (codes "SP1Clean")).0 under,
                    λ h j r. cc (away, (covers m).1 (h, j, r)),
                  ),
              λ (known, under, none_reach). kept.1 (
                known,
                joined (is_reached closures m) (root_of m == codes "SP1Clean")
                    (λ e. let (h, j, r) = (covers m).0 e in none_reach h j r)
                    ((eq_iff (root_of m) (codes "SP1Clean")).1 under),
              ),
            ),
      )
    where
      both : (a b : Bool) → (not a && b) ≡ true → (a ≡ false) × (b ≡ true)
      both true b h = absurd (cc h)
      both false b h = (refl, h)

      joined : (a b : Bool) → (a ≡ true → ⊥) → b ≡ true → (not a && b) ≡ true
      joined true b n h = absurd (n refl)
      joined false b n h = h
