-- ===== src/Export/RustLog/Groups.antt =====
-- The groups in which the Rust tests run.
use mathlib.Core.Logic.{⊎_elim}
use mathlib.Core.List.Memᴰ
use sp1_lean.Base.{
  ℕ, ◌≡◌, sym, ap, subst, true, false, not, ◌⊎◌, ◌↔◌, inl, inr, [], ◌∷◌, Memᴰ, Text, codes, keep,
  Memᴰ-keep, Bool-cases, here, there,
}
use sp1_lean.Base.Dict.{Dict}
use sp1_lean.Export.RustLog.{rust_tests, is_assembly, rust_groups}

abbrev Test : Type 0
Test = Text × ℕ

abbrev alone : Test → Text × Dict Text ℕ
alone t = (t.0, t ∷ [])

-- Every test of `RUST_TESTS`, with its count, is in a group, and the groups have no other tests: a test of the assembly is
-- alone in the group of its own name, and all others are in the group "components".
pub rust_groups_iff :
    (t : Text × ℕ) (g : Text × Dict Text ℕ)
    → (Memᴰ g rust_groups × Memᴰ t g.1) ↔ (
        Memᴰ t rust_tests
        × (((is_assembly t.0 ≡ true) × (g ≡ (t.0, t ∷ [])))
            ⊎ ((is_assembly t.0 ≡ false)
                × (g ≡ (
                  codes "components",
                  keep (λ (u : Text × ℕ). not (is_assembly u.0)) rust_tests,
                )))))
unfolding rust_groups
rust_groups_iff t g = (
  λ (i, j).
      ⊎_elim (λ q. components q (subst (λ (x : Text × Dict Text ℕ). Memᴰ t x.1) q j))
        (λ k.
          let (u, m, q) = Memᴰ.of_map alone (keep (λ (x : Test). is_assembly x.0) rust_tests) k in
          let (n, a) = (Memᴰ-keep (λ (x : Test). is_assembly x.0) u rust_tests).0 m in
          let same : t ≡ u =
            Memᴰ.eq_of_singleton (subst (λ (x : Text × Dict Text ℕ). Memᴰ t x.1) (sym q) j) in
          (
            subst (λ x. Memᴰ x rust_tests) (sym same) n,
            inl (
              subst (λ (x : Test). is_assembly x.0 ≡ true) (sym same) a,
              sym (subst (λ x. alone x ≡ g) (sym same) q),
            ),
          ))
        (Memᴰ.cases_cons i),
  λ (m, c).
      ⊎_elim
        (λ (a, q). (
          subst (λ x. Memᴰ x rust_groups) (sym q)
              (there (
                Memᴰ.map alone
                  ((Memᴰ-keep (λ (x : Test). is_assembly x.0) t rust_tests).1 (m, a)))),
          subst (λ (x : Text × Dict Text ℕ). Memᴰ t x.1) (sym q) here,
        ))
        (λ (a, q). (
          Memᴰ.head q,
          subst (λ (x : Text × Dict Text ℕ). Memᴰ t x.1) (sym q)
              ((Memᴰ-keep (λ (u : Test). not (is_assembly u.0)) t rust_tests).1 (m, ap not a)),
        ))
        c,
)
  where
    components :
        g ≡ (codes "components", keep (λ (u : Test). not (is_assembly u.0)) rust_tests)
        → Memᴰ t (keep (λ (u : Test). not (is_assembly u.0)) rust_tests)
        → Memᴰ t rust_tests
          × (((is_assembly t.0 ≡ true) × (g ≡ (t.0, t ∷ [])))
              ⊎ ((is_assembly t.0 ≡ false)
                  × (g ≡ (
                    codes "components",
                    keep (λ (u : Test). not (is_assembly u.0)) rust_tests,
                  ))))
    components q j =
        let (m, a) = (Memᴰ-keep (λ (u : Test). not (is_assembly u.0)) t rust_tests).0 j in
        (
          m,
          inr (⊎_elim (λ b. absurd (cc (a, ap not b))) (λ b. b) (Bool-cases (is_assembly t.0)), q),
        )
