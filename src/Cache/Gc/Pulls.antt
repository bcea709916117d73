-- ===== src/Cache/Gc/Pulls.antt =====
-- Which entries the rule for the builds of pull requests can reach.
use mathlib.Core.Logic.{⊎_elim}
use mathlib.Core.List.{foldl}
use mathlib.Core.List.Memᴰ
use sp1_lean.Base.{
  ◌≡◌, refl, sym, ◌∙◌, ap, subst, true, not, ◌&&◌, ◌⊎◌, inl, inr, some, List, [], ◌∷◌, ◌++◌, Memᴰ,
  arith, Text, codes, nat_eq, list_eq, option_eq, ◌==◌, eq_iff, keep, starts_with, there, Memᴰ-nil,
  Memᴰ-append, Memᴰ-keep, Memᴰ-gather,
}
use sp1_lean.Base.Dict.{Dict, upsert, Memᴰ-upsert}
use sp1_lean.Base.Order.{nat_order}
use sp1_lean.Cache.Key.{BuildKey}
use sp1_lean.Cache.Gc.{older_build, Condemned, Owned, pr_refs, keep_sha, base_kind, pr_at, pr_rule}

-- The items that `pr_refs` files under a ref.
pub record OnPull (prefix : Text) (os : List Owned) (ref : Text) (o : Owned) : Type 0 where
  pub item : Memᴰ o os
  pub ref_is : o.0.ref ≡ ref
  pub pull : starts_with (codes "refs/pull/") o.0.ref ≡ true
  pub prefix_is : o.1.prefix ≡ prefix

abbrev file_item : Dict Text (List Owned) → Owned → Dict Text (List Owned)
file_item m o = upsert o.0.ref [] (λ items. items ++ (o ∷ [])) m

file_item_sound :
    (m : Dict Text (List Owned)) (o x : Owned) (ref : Text) (items : List Owned)
    → Memᴰ (ref, items) (file_item m o)
    → Memᴰ x items
    → ((old : List Owned) × Memᴰ (ref, old) m × Memᴰ x old) ⊎ ((x ≡ o) × (ref ≡ o.0.ref))
file_item_sound m o x ref items i j =
    elim (Memᴰ-upsert ref o.0.ref items [] (λ old. old ++ (o ∷ [])) m i) [
      | inl t ↦ inl (items, t, j)
      | inr (q, inl r) ↦ inr (Memᴰ.eq_of_singleton (subst (Memᴰ x) r j), q)
      | inr (q, inr (v, t, r)) ↦
          ⊎_elim (λ old. inl (v, subst (λ z. Memᴰ (z, v) m) (sym q) t, old))
            (λ last. inr (Memᴰ.eq_of_singleton last, q))
            ((Memᴰ-append x v (o ∷ [])).0 (subst (Memᴰ x) r j))
    ]

file_fold_sound :
    (m : Dict Text (List Owned)) (os : List Owned) (x : Owned) (ref : Text) (items : List Owned)
    → Memᴰ (ref, items) (foldl file_item m os)
    → Memᴰ x items
    → ((old : List Owned) × Memᴰ (ref, old) m × Memᴰ x old) ⊎ (Memᴰ x os × (ref ≡ x.0.ref))
file_fold_sound m [] x ref items i j = inl (items, i, j)
file_fold_sound m (o ∷ os) x ref items i j =
    elim (file_fold_sound (file_item m o) os x ref items i j) [
      | inr (t, q) ↦ inr (there t, q)
      | inl (old, t, u) ↦
          ⊎_elim inl (λ (same, q). inr (Memᴰ.head same, q ∙ ap (λ (y : Owned). y.0.ref) (sym same)))
            (file_item_sound m o x ref old t u)
    ]

pr_refs_sound :
    (prefix : Text) (os : List Owned) (x : Owned) (ref : Text) (items : List Owned)
    → Memᴰ (ref, items) (pr_refs prefix os)
    → Memᴰ x items
    → OnPull prefix os ref x
unfolding pr_refs
pr_refs_sound prefix os x ref items i j =
    ⊎_elim (λ (_, t, _). absurd (Memᴰ-nil t))
      (λ (t, q).
        let (m, u) =
          (Memᴰ-keep
              (λ (o : Owned). starts_with (codes "refs/pull/") o.0.ref && o.1.prefix == prefix) x
              os).0
            t in
        record {
          item = m;
          ref_is = sym q;
          pull = ground arith;
          prefix_is = ground (arith, eq_iff x.1.prefix prefix);
        })
      (file_fold_sound [] _ x ref items i j)

pr_at-mem :
    (ref : Text) (items : List Owned) (d : Condemned)
    → Memᴰ d (pr_at ref items)
    → (o : Owned) × Memᴰ o items × (o.0 ≡ d.0)
unfolding pr_at
pr_at-mem ref items d i =
    let (o, j, q) =
      Memᴰ.of_map (λ (o : Owned). (o.0, older_build (base_kind o.1.kind) ref))
        (keep (λ o. not (keep_sha (base_kind o.1.kind) items == some o.1.sha)) items) i in
    (o, ((Memᴰ-keep _ o items).0 j).0, ap (λ (c : Condemned). c.0) q)

pub Memᴰ-pr_rule :
    (prefix : Text) (os : List Owned) (d : Condemned)
    → Memᴰ d (pr_rule prefix os)
    → (p : BuildKey) × OnPull prefix os d.0.ref (d.0, p)
unfolding pr_rule
Memᴰ-pr_rule prefix os d i =
    let ((ref, items), j, k) =
      (Memᴰ-gather (λ (g : Text × List Owned). pr_at g.0 g.1) d (pr_refs prefix os)).0 i in
    let ((e, p), l, same) = pr_at-mem ref items d k in
    let from : OnPull prefix os ref (e, p) = pr_refs_sound prefix os (e, p) ref items j l in
    subst (λ x. (f : BuildKey) × OnPull prefix os x.ref (x, f)) same
      (p, record { item = from.item; ref_is = refl; pull = from.pull; prefix_is = from.prefix_is })
