-- ===== src/Trust/Verdict.antt =====
-- What a scan that passes shows of the declarations it is about.
use mathlib.Core.Logic.{⊎_elim}
use mathlib.Core.List.Memᴰ
use mathlib.Core.Option.{some-injective}
use sp1_lean.Base.{
  ℕ, ◌≡◌, refl, sym, ap, subst, Bool, true, false, not, ◌&&◌, ◌⊎◌, ◌↔◌, inl, inr, Option, none,
  some, List, [], ◌∷◌, map, Memᴰ, arith, Text, nat_eq, list_eq, option_eq, ◌==◌, eq_iff, contains,
  contains_iff, Memᴰ-keep, Memᴰ-gather, Memᴰ-nil, if◌then◌else◌, Bool-cases, List-cases, here, all,
  all-mem, option_beq, list_beq,
}
use sp1_lean.Base.Results.{ok, Result-cases}
use sp1_lean.Json.{Json}
use sp1_lean.Trust.Policy.{
  native_decide, bv_decide, standard_axioms, sorry, never_excepted, native_tactic, Policy, Scope,
  main_scope, test_scope, is_test, is_test_native, Category, forbidden, logical, sail_interface,
  approved_bv, test_native, classify, load_policy,
}
use sp1_lean.Trust.Safe.{IsSafe, load_policy-IsSafe}
use sp1_lean.Trust.Scan.{
  Declaration, Use, uses, is_forbidden, violations, validate_report, scan_status,
}

-- An axiom that a scope may rest on.
pub data Allowed (scope : Scope) (p : Policy) (a : Text) : Type 0 where
  standard : Memᴰ a standard_axioms → Allowed scope p a
  by_sail : Memᴰ a p.sail_names → Allowed scope p a
  by_bv : Memᴰ a p.bv_names → Allowed scope p a
  by_tactic :
      (t : Text)
      → scope ≡ test_scope
      → native_tactic a ≡ some t
      → Memᴰ t (native_decide ∷ bv_decide ∷ [])
      → Allowed scope p a

-- The outcome of a chain of tests in the order of `classify`.
chain :
    (is_sorry in_standard in_sail in_bv by_native : Bool)
    → (is_forbidden (
          if is_sorry
          then forbidden
          else if in_standard
          then logical
          else if in_sail
          then sail_interface
          else if in_bv
          then approved_bv
          else if by_native
          then test_native
          else forbidden)
        ≡ false)
      ↔ ((is_sorry ≡ false)
          × ((in_standard ≡ true) ⊎ ((in_sail ≡ true) ⊎ ((in_bv ≡ true) ⊎ (by_native ≡ true)))))
chain true b c d e = (λ h. cc h, λ (f, g). cc f)
chain false true c d e = (λ h. (refl, inl refl), λ h. refl)
chain false false true d e = (λ h. (refl, inr (inl refl)), λ h. refl)
chain false false false true e = (λ h. (refl, inr (inr (inl refl))), λ h. refl)
chain false false false false true = (λ h. (refl, inr (inr (inr refl))), λ h. refl)
chain false false false false false = (λ h. cc h, λ h. ground arith)

by_tactic_iff :
    (scope : Scope) (tactics : List Text) (o : Option Text)
    → ((is_test scope && elim o [ none ↦ false | some t ↦ contains tactics t ]) ≡ true)
      ↔ ((t : Text) × (scope ≡ test_scope) × (o ≡ some t) × Memᴰ t tactics)
by_tactic_iff main_scope tactics o = (λ h. cc h, λ (t, q, r, m). cc q)
by_tactic_iff test_scope tactics none = (λ h. cc h, λ (t, q, r, m). cc r)
by_tactic_iff test_scope tactics (some t) = (
  λ h. (t, refl, refl, (contains_iff tactics t).0 h),
  λ (u, q, r, m).
      (contains_iff tactics t).1 (subst (λ x. Memᴰ x tactics) (sym (some-injective t u r)) m),
)

test_native_iff :
    (a : Text) (scope : Scope) (p : Policy)
    → (is_test_native a scope p ≡ true)
      ↔ ((t : Text) × (scope ≡ test_scope) × (native_tactic a ≡ some t) × Memᴰ t p.tactics)
unfolding is_test_native
test_native_iff a scope p = by_tactic_iff scope p.tactics (native_tactic a)

classify_chain :
    (a : Text) (scope : Scope) (p : Policy)
    → (is_forbidden (classify a scope p) ≡ false) ↔ (
        ((a == sorry) ≡ false)
        × ((contains p.standard a ≡ true)
            ⊎ ((contains p.sail_names a ≡ true)
                ⊎ ((contains p.bv_names a ≡ true) ⊎ (is_test_native a scope p ≡ true)))))
unfolding classify
classify_chain a scope p =
    chain (a == sorry) (contains p.standard a) (contains p.sail_names a) (contains p.bv_names a)
      (is_test_native a scope p)

-- Tested name by name.
never_native : all (λ a. native_tactic a == none) never_excepted ≡ true
unfolding native_tactic all option_beq
never_native = refl

never_standard : all (λ a. not (contains standard_axioms a)) never_excepted ≡ true
unfolding all contains list_beq
never_standard = refl

not_native : (a : Text) → Memᴰ a never_excepted → native_tactic a ≡ none
not_native a i =
    (eq_iff (native_tactic a) none).0
      (all-mem (λ (b : Text). native_tactic b == none) a never_excepted never_native i)

not_standard : (a : Text) → Memᴰ a never_excepted → ¬ Memᴰ a standard_axioms
not_standard a i j = cc (
  all-mem (λ (b : Text). not (contains standard_axioms b)) a never_excepted never_standard i,
  (contains_iff standard_axioms a).1 j,
)

module _ (scope : Scope) (p : Policy) (safe : IsSafe p) where
  -- No policy allows a name that is never excepted, in either scope.
  barred : (a : Text) → Memᴰ a never_excepted → ¬ Allowed scope p a
  barred a i (standard j) = not_standard a i j
  barred a i (by_sail j) = safe.sail_is.fresh a j (Memᴰ.append_right standard_axioms i)
  barred a i (by_bv j) = safe.bv_is.fresh a j (Memᴰ.append_right standard_axioms i)
  barred a i (by_tactic t s q j) = cc (not_native a i, q)

  classify_sound : (a : Text) → is_forbidden (classify a scope p) ≡ false → Allowed scope p a
  classify_sound a h =
      let (_, k) = (classify_chain a scope p).0 h in
      ⊎_elim (λ t. standard ((safe.standard_is a).0 ((contains_iff p.standard a).0 t)))
        (λ k1.
          ⊎_elim (λ t. by_sail ((contains_iff p.sail_names a).0 t))
            (λ k2.
              ⊎_elim (λ t. by_bv ((contains_iff p.bv_names a).0 t))
                (λ t.
                  let (u, s, q, m) = (test_native_iff a scope p).0 t in
                  by_tactic u s q ((safe.tactics_are u).0 m))
                k2)
            k1)
        k

  classify_complete : (a : Text) → Allowed scope p a → is_forbidden (classify a scope p) ≡ false
  classify_complete a x = (classify_chain a scope p).1 (not_sorry, how x)
    where
      not_sorry : (a == sorry) ≡ false
      not_sorry =
          ⊎_elim
            (λ t. absurd (barred sorry here (subst (Allowed scope p) ((eq_iff a sorry).0 t) x)))
            (λ f. f) (Bool-cases (a == sorry))

      how :
          Allowed scope p a
          → (contains p.standard a ≡ true)
            ⊎ ((contains p.sail_names a ≡ true)
                ⊎ ((contains p.bv_names a ≡ true) ⊎ (is_test_native a scope p ≡ true)))
      how (standard i) = inl ((contains_iff p.standard a).1 ((safe.standard_is a).1 i))
      how (by_sail i) = inr (inl ((contains_iff p.sail_names a).1 i))
      how (by_bv i) = inr (inr (inl ((contains_iff p.bv_names a).1 i)))
      how (by_tactic t s q m) =
          inr (inr (inr ((test_native_iff a scope p).1 (t, s, q, (safe.tactics_are t).1 m))))

  -- Under a policy that `load_policy` accepts, `classify` forbids exactly the axioms that the scope may not rest on: the main
  -- scope may rest on Lean's three logical axioms and on the names that the policy excepts, the test scope on the
  -- axioms of the two native tactics besides.
  pub classify-Allowed :
      (a : Text) → (is_forbidden (classify a scope p) ≡ false) ↔ Allowed scope p a
  classify-Allowed a = (classify_sound a, classify_complete a)

  -- Under a policy that `load_policy` accepts, `sorryAx`, `Lean.trustCompiler` and `Lean.ofReduceBool` are forbidden in either scope.
  pub classify_barred : (a : Text) → Memᴰ a never_excepted → classify a scope p ≡ forbidden
  classify_barred a i = go (classify a scope p) (λ h. barred a i (classify_sound a h))
    where
      go : (c : Category) → (¬ (is_forbidden c ≡ false)) → c ≡ forbidden
      go forbidden h = refl
      go logical h = absurd (h refl)
      go sail_interface h = absurd (h refl)
      go approved_bv h = absurd (h refl)
      go test_native h = absurd (h refl)

pub Memᴰ-uses :
    (d : Declaration) (a : Text) (entries : List Declaration)
    → Memᴰ (d, a) (uses entries) ↔ (Memᴰ d entries × Memᴰ a d.axioms)
unfolding uses
Memᴰ-uses d a entries = (
  λ m.
      let (e, i, j) =
        (Memᴰ-gather (λ (e : Declaration). map (λ b. (e, b)) e.axioms) (d, a) entries).0 m in
      let (b, k, q) = Memᴰ.of_map {B = Use} (λ b. (e, b)) e.axioms j in
      let same : e ≡ d = ap (λ (u : Use). u.0) q in
      (
        subst (λ x. Memᴰ x entries) same i,
        subst (λ x. Memᴰ x d.axioms) (ap (λ (u : Use). u.1) q)
            (subst (λ (x : Declaration). Memᴰ b x.axioms) same k),
      ),
  λ (i, j).
      (Memᴰ-gather (λ (e : Declaration). map (λ b. (e, b)) e.axioms) (d, a) entries).1
        (d, i, Memᴰ.map {B = Use} (λ b. (d, b)) j),
)

-- The violations are the pairs of a declaration and a forbidden axiom of it, all of them and no others.
pub violations_iff :
    (entries : List Declaration) (scope : Scope) (p : Policy) (d : Declaration) (a : Text)
    → Memᴰ (d, a) (violations entries scope p)
      ↔ (Memᴰ d entries × Memᴰ a d.axioms × (is_forbidden (classify a scope p) ≡ true))
unfolding violations
violations_iff entries scope p d a = ground (
  arith,
  Memᴰ-uses d a entries,
  Memᴰ-keep (λ (u : Use). is_forbidden (classify u.1 scope p)) (d, a) (uses entries),
)

-- If `scan` returns 0 under a policy that `load_policy` accepts, the report is one that `validate_report` accepts, and every axiom
-- of every declaration in it is one that the scope may rest on.
pub scan_passes :
    (policy report : Json) (roots modules : List Text) (output : Text) (scope : Scope) (p : Policy)
    → load_policy policy ≡ ok p
    → scan_status report roots modules output scope p ≡ 0
    → (entries : List Declaration) × (validate_report report roots modules output ≡ ok entries)
      × ((d : Declaration) (a : Text) → Memᴰ d entries → Memᴰ a d.axioms → Allowed scope p a)
unfolding scan_status
scan_passes policy report roots modules output scope p loaded h =
    elim (Result-cases (validate_report report roots modules output)) [
      | inl (e, q) ↦ absurd (two_not_zero (rw (q, scan_status) at h))
      | inr (entries, q) ↦ elim (List-cases (violations entries scope p)) [
        | inr (u, rest, r) ↦ absurd (one_not_zero (rw r at (rw (q, scan_status) at h)))
        | inl r ↦ (entries, q, λ d a i j. allowed entries r d a i j)
      ]
    ]
  where
    two_not_zero : ¬ (◌≡◌ {A = ℕ} 2 0)
    two_not_zero e = omega (arith, e)

    one_not_zero : ¬ (◌≡◌ {A = ℕ} 1 0)
    one_not_zero e = omega (arith, e)

    allowed :
        (entries : List Declaration)
        → violations entries scope p ≡ []
        → (d : Declaration) (a : Text) → Memᴰ d entries
        → Memᴰ a d.axioms
        → Allowed scope p a
    allowed entries r d a i j = elim (Bool-cases (is_forbidden (classify a scope p))) [
      | inr f ↦ (classify-Allowed scope p (load_policy-IsSafe policy p loaded) a).0 f
      | inl t ↦
          absurd
            (Memᴰ-nil (subst (Memᴰ (d, a)) r ((violations_iff entries scope p d a).1 (i, j, t))))
    ]
