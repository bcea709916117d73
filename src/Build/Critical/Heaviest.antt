-- ===== src/Build/Critical/Heaviest.antt =====
-- The path that `critical_path` returns is a chain of imports, and none weighs more.
use mathlib.Core.List.Memᴰ
use mathlib.Core.Option.{some-injective}
use sp1_lean.Base.{
  ℕ, ◌+◌, ◌≤◌, ◌≡◌, ◌⊎◌, refl, sym, ◌∙◌, ap, subst, true, inl, inr, some, List, [], ◌∷◌, ◌++◌, map,
  Text, arith, nat_eq, list_eq, ◌==◌, eq_iff, Memᴰ, Memᴰ-nil, Memᴰ-choose, choose, List-cases, here,
  Bool-cases, Option-cases, if_true, if_false,
}
use sp1_lean.Base.Dict.{
  Dict, lookup, has, has_iff, insert, lookup-insert, mem_of_lookup, lookup_of_mem, NodupKeys,
  upsert-NodupKeys,
}
use sp1_lean.Base.Order.{nat_order, max_by, max_by-mem, max_by-above, max_by-none}
use sp1_lean.Build.Critical.{
  imports_of, seconds_of, heavier, extend, weigh, run_roots, no_visits, critical_path,
}
use sp1_lean.Build.Critical.Topological.{IsTopological, run_roots-IsTopological}
use sp1_lean.Build.Critical.Waiting.{Needs}

has-mem : (s : Text × ℕ) (d : Dict Text ℕ) → Memᴰ s d → has s.0 d ≡ true
unfolding has
has-mem s [] m = absurd (Memᴰ-nil m)
has-mem s ((j, v) ∷ d) m = elim (Memᴰ.cases_cons m) [
  | inl e ↦ ground (arith, eq_iff j s.0, ap (λ (x : Text × ℕ). x.0) e)
  | inr t ↦ ground (arith, has-mem s d t)
]

module _ (imports : Dict Text (List Text)) (secs : Dict Text ℕ) where
  -- A path that ends in a module, from each module to one that imports it; all of them are in the log.
  pub data Chain : List Text → Text → Type 0 where
    single : {m : Text} → has m secs ≡ true → Chain (m ∷ []) m
    longer :
        {m i : Text} {path : List Text}
        → Chain path i
        → Needs imports secs m i
        → has m secs ≡ true
        → Chain (path ++ (m ∷ [])) m

  unfoldable pub weight : List Text → ℕ
  weight [] = 0
  weight (m ∷ path) = seconds_of imports secs m + weight path

  weight-append :
      (path : List Text) (m : Text)
      → weight (path ++ (m ∷ [])) ≡ weight path + seconds_of imports secs m
  unfolding weight
  weight-append [] m = omega arith
  weight-append (x ∷ path) m = omega (arith, weight-append path m)

  -- A weight and its path are the best for a module.
  pub record IsHeaviest (m : Text) (w : ℕ × List Text) : Type 0 where
    pub chain : Chain w.1 m
    pub weighs : w.0 ≡ weight w.1
    pub above : (path : List Text) → Chain path m → weight path ≤ w.0

  Chain-has : (path : List Text) (m : Text) → Chain path m → has m secs ≡ true
  Chain-has path m (single h) = h
  Chain-has path m (longer c n h) = h

  abbrev AllHeaviest : Dict Text (ℕ × List Text) → Type 0
  AllHeaviest best = (m : Text) (w : ℕ × List Text) → lookup m best ≡ some w → IsHeaviest m w

  abbrev HasAll : List Text → Dict Text (ℕ × List Text) → Type 0
  HasAll order best = (m : Text) → Memᴰ m order → (w : ℕ × List Text) × (lookup m best ≡ some w)

  abbrev candidates : Dict Text (ℕ × List Text) → Text → List (ℕ × List Text)
  candidates best m = choose (λ (i : Text). lookup i best) (imports_of imports secs m)

  extend-IsHeaviest :
      (earlier : List Text) (m : Text) (best : Dict Text (ℕ × List Text))
      → ((i : Text) → Needs imports secs m i → Memᴰ i earlier)
      → has m secs ≡ true
      → AllHeaviest best
      → HasAll earlier best
      → IsHeaviest m (extend imports secs best m)
  unfolding extend weight
  extend-IsHeaviest earlier m best needs known heaviest all =
      elim (Option-cases (max_by heavier (candidates best m))) [
        | inl q ↦
            rw (q, extend)
              (record {
                chain = single known;
                weighs = omega arith;
                above = alone ((max_by-none heavier (candidates best m)).0 q);
              })
        | inr (p, q) ↦
            let (i, j, e) =
              (Memᴰ-choose (λ (i : Text). lookup i best) p (imports_of imports secs m)).0
                (max_by-mem heavier (candidates best m) q) in
            let before = heaviest i p e in
            rw (q, extend)
              (record {
                chain = longer before.chain (j, Chain-has p.1 i before.chain) known;
                weighs = omega (arith, before.weighs, weight-append p.1 m);
                above = below p q;
              })
      ]
    where
      candidate :
          (i : Text)
          → Needs imports secs m i
          → (w : ℕ × List Text) × (lookup i best ≡ some w) × Memᴰ w (candidates best m)
      candidate i n =
          let (w, e) = all i (needs i n) in
          (
            w,
            e,
            (Memᴰ-choose (λ (i : Text). lookup i best) w (imports_of imports secs m)).1 (i, n.0, e),
          )

      alone :
          candidates best m ≡ []
          → (path : List Text) → Chain path m
          → weight path ≤ 0 + seconds_of imports secs m
      alone e path (single h) = omega arith
      alone e path (longer {i} c n h) =
          let (w, _, k) = candidate i n in absurd (Memᴰ-nil (subst (Memᴰ w) e k))

      below :
          (p : ℕ × List Text)
          → max_by heavier (candidates best m) ≡ some p
          → (path : List Text) → Chain path m
          → weight path ≤ p.0 + seconds_of imports secs m
      below p q path (single h) = omega arith
      below p q path (longer {i} {path = rest} c n h) =
          let (w, e, k) = candidate i n in
          let top = max_by-above heavier w (candidates best m) q k in
          let bound = (heaviest i w e).above rest c in
          ground (arith, weight-append rest m, top, bound)

  weigh-IsHeaviest :
      (order : List Text)
      → IsTopological imports secs order
      → AllHeaviest (weigh imports secs order) × HasAll order (weigh imports secs order)
  unfolding weigh lookup
  weigh-IsHeaviest [] t = (λ m w e. absurd (cc e), λ m i. absurd (Memᴰ-nil i))
  weigh-IsHeaviest (n ∷ earlier) t =
      let (heaviest, all) = weigh-IsHeaviest earlier t.2 in
      let best = weigh imports secs earlier in
      let new = extend-IsHeaviest earlier n best t.0 t.1 heaviest all in
      (
        λ m w e. elim (Bool-cases (n == m)) [
          | inl q ↦
              let same = some-injective _ w (
                sym (lookup-insert m n (extend imports secs best n) best ∙ if_true (n == m) _ _ q)
                ∙ e) in
              subst (λ x. IsHeaviest x w) ((eq_iff n m).0 q) (subst (IsHeaviest n) same new)
          | inr q ↦ heaviest m w (
              sym (lookup-insert m n (extend imports secs best n) best ∙ if_false (n == m) _ _ q)
              ∙ e)
        ],
        λ m i. elim (Bool-cases (n == m)) [
          | inl q ↦ (
            extend imports secs best n,
            lookup-insert m n (extend imports secs best n) best ∙ if_true (n == m) _ _ q,
          )
          | inr q ↦
              let back : Memᴰ m earlier = elim (Memᴰ.cases_cons i) [
                | inl e ↦ absurd (cc (q, (eq_iff n m).1 (sym e)))
                | inr k ↦ k
              ] in
              let (w, e) = all m back in
              (
                w,
                lookup-insert m n (extend imports secs best n) best ∙ (if_false (n == m) _ _ q ∙ e),
              )
        ],
      )

  weigh-NodupKeys : (order : List Text) → NodupKeys (weigh imports secs order)
  unfolding weigh insert
  weigh-NodupKeys [] = tt
  weigh-NodupKeys (m ∷ earlier) =
      upsert-NodupKeys m (extend imports secs (weigh imports secs earlier) m)
        (λ _. extend imports secs (weigh imports secs earlier) m) (weigh imports secs earlier)
        (weigh-NodupKeys earlier)

  -- What `critical_path` promises of a length and a path.
  pub record IsCritical (w : ℕ × List Text) : Type 0 where
    pub weighs : w.0 ≡ weight w.1
    pub above : (path : List Text) (m : Text) → Chain path m → weight path ≤ w.0
    pub real : ((w.1 ≡ []) × (secs ≡ [])) ⊎ ((m : Text) × Chain w.1 m)

  abbrev keys : List Text
  keys = map (λ (s : Text × ℕ). s.0) secs

  keys-has : (x : Text) → Memᴰ x keys → has x secs ≡ true
  keys-has x m =
      let (s, k, e) = Memᴰ.of_map (λ (s : Text × ℕ). s.0) secs m in
      subst (λ y. has y secs ≡ true) e (has-mem s secs k)

  has-keys : (x : Text) → has x secs ≡ true → Memᴰ x keys
  has-keys x h = elim (Option-cases (lookup x secs)) [
    | inl q ↦ absurd ((has_iff x secs).0 h q)
    | inr (n, q) ↦ Memᴰ.map (λ (s : Text × ℕ). s.0) (mem_of_lookup secs q)
  ]

  -- The best of the modules of the log, if there are any.
  IsCritical-none :
      (best : Dict Text (ℕ × List Text))
      → HasAll keys best
      → map (λ (b : Text × (ℕ × List Text)). b.1) best ≡ []
      → IsCritical (0, [])
  unfolding weight lookup
  IsCritical-none best all e = record {
    weighs = refl;
    above = λ path m c. absurd (unknown best e all m (has-keys m (Chain-has path m c)));
    real = inl (
      refl,
      elim (List-cases secs) [
        | inl q ↦ q
        | inr (s, rest, q) ↦ absurd (
            unknown best e all s.0 (Memᴰ.map (λ (x : Text × ℕ). x.0) (subst (Memᴰ s) (sym q) here)))
      ],
    );
  }
    where
      unknown :
          (best : Dict Text (ℕ × List Text))
          → map (λ (b : Text × (ℕ × List Text)). b.1) best ≡ []
          → HasAll keys best
          → (m : Text) → Memᴰ m keys
          → ⊥
      unknown [] e all m k = let (w, q) = all m k in absurd (cc q)
      unknown (b ∷ best) e all m k = absurd (cc e)

  IsCritical-some :
      (best : Dict Text (ℕ × List Text)) (v : ℕ × List Text)
      → NodupKeys best
      → AllHeaviest best
      → HasAll keys best
      → max_by heavier (map (λ (b : Text × (ℕ × List Text)). b.1) best) ≡ some v
      → IsCritical v
  IsCritical-some best v once heaviest all r =
      let ((m, u), i, f) =
        Memᴰ.of_map (λ (b : Text × (ℕ × List Text)). b.1) best (max_by-mem heavier _ r) in
      let own = subst (IsHeaviest m) f (heaviest m u (lookup_of_mem best once i)) in
      record {
        weighs = own.weighs;
        above = λ path k c.
            let (w, q) = all k (has-keys k (Chain-has path k c)) in
            let top =
              max_by-above heavier w _ r
                (Memᴰ.map (λ (b : Text × (ℕ × List Text)). b.1) (mem_of_lookup best q)) in
            let bound = (heaviest k w q).above path c in ground (arith, top, bound);
        real = inr (m, own.chain);
      }

  -- If the loop of `critical_path` ends, the length is the sum of the seconds of the path, the path is a chain of imports among the modules of the log, or is empty
  -- if the log has none, and no chain of imports among these modules weighs more.
  pub critical_path-IsCritical :
      (n : ℕ) (w : ℕ × List Text) → critical_path imports secs n ≡ some w → IsCritical w
  unfolding critical_path weight
  critical_path-IsCritical n w e =
      elim (Option-cases (run_roots imports secs n no_visits (map (λ s. s.0) secs))) [
        | inl q ↦ absurd (cc (rw (q, critical_path) at e))
        | inr (t, q) ↦
            let (order, roots) =
              run_roots-IsTopological imports secs n t (map (λ (s : Text × ℕ). s.0) secs) keys-has
                q in
            let (heaviest, all) = weigh-IsHeaviest t.order order in
            let best = weigh imports secs t.order in
            let known = λ (m : Text) (k : Memᴰ m keys). all m (roots m k) in
            elim (Option-cases (max_by heavier (map (λ (b : Text × (ℕ × List Text)). b.1) best))) [
              | inl r ↦
                  let same = some-injective _ w (rw r at (rw (q, critical_path) at e)) in
                  subst IsCritical same (
                    IsCritical-none best known
                      ((max_by-none heavier (map (λ (b : Text × (ℕ × List Text)). b.1) best)).0 r))
              | inr (v, r) ↦
                  let same = some-injective _ w (rw r at (rw (q, critical_path) at e)) in
                  subst IsCritical same
                    (IsCritical-some best v (weigh-NodupKeys t.order) heaviest known r)
            ]
      ]
