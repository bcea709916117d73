-- ===== src/Base/Dict.antt =====
-- Python's dicts in insertion order, as association lists with distinct keys.
use mathlib.Core.Logic.{⊎_elim}
use mathlib.Core.List.Memᴰ
use sp1_lean.Base.{
  ◌≡◌, ◌≢◌, refl, ap, Bool, true, false, ◌⊎◌, ◌↔◌, inl, inr, Option, none, some, List, [], ◌∷◌,
  Memᴰ, arith, Comparable, ◌==◌, eq_iff, eq_refl, if◌then◌else◌, Bool-cases, here, there, Memᴰ-nil,
  or_else,
}

abbrev pub Dict {ℓ κ} : Type ℓ → Type κ → Type (ℓ ⊔ κ)
Dict K V = List (K × V)

module _ {ℓ κ} {K : Type ℓ} {V : Type κ} ⦃e : Comparable K⦄ where
  -- `d.get(k)`
  unfoldable pub lookup : K → Dict K V → Option V
  lookup k [] = none
  lookup k ((j, v) ∷ m) = if j == k then some v else lookup k m

  -- `k in d`
  unfoldable pub has : K → Dict K V → Bool
  has k [] = false
  has k ((j, v) ∷ m) = if j == k then true else has k m

  -- `d[k] = f(d.setdefault(k, start))`
  unfoldable pub upsert : K → V → (V → V) → Dict K V → Dict K V
  upsert k start f [] = (k, f start) ∷ []
  upsert k start f ((j, v) ∷ m) = if j == k then (j, f v) ∷ m else (j, v) ∷ upsert k start f m

  -- `d[k] = v`
  unfoldable pub insert : K → V → Dict K V → Dict K V
  unfolding upsert
  insert k v = upsert k v (λ _. v)

  abbrev pub NodupKeys : Dict K V → Type κ
  NodupKeys [] = Unit
  NodupKeys ((k, _) ∷ m) = (lookup k m ≡ none) × NodupKeys m

  pub lookup-upsert :
      (j k : K) (start : V) (f : V → V) (m : Dict K V)
      → lookup j (upsert k start f m)
        ≡ (if k == j then some (f (or_else (lookup k m) start)) else lookup j m)
  unfolding lookup upsert
  lookup-upsert j k start f [] = refl
  lookup-upsert j k start f ((i, w) ∷ m) =
      ground (arith, eq_iff k j, eq_iff i k, eq_iff i j, lookup-upsert j k start f m)

  pub lookup-insert :
      (j k : K) (v : V) (m : Dict K V)
      → lookup j (insert k v m) ≡ (if k == j then some v else lookup j m)
  unfolding insert
  lookup-insert j k v m = lookup-upsert j k v (λ _. v) m

  pub has_iff : (k : K) (m : Dict K V) → (has k m ≡ true) ↔ (lookup k m ≢ none)
  unfolding has lookup
  has_iff k [] = (λ h. cc, λ h. absurd (h refl))
  has_iff k ((j, v) ∷ m) = ground (arith, has_iff k m)

  pub upsert-NodupKeys :
      (k : K) (start : V) (f : V → V) (m : Dict K V) → NodupKeys m → NodupKeys (upsert k start f m)
  unfolding upsert
  upsert-NodupKeys k start f [] h = (unfold lookup in refl, tt)
  upsert-NodupKeys k start f ((j, w) ∷ m) h =
      ground (
        arith,
        eq_iff j k,
        upsert-NodupKeys k start f m h.1,
        lookup-upsert j k start f m,
        eq_iff k j,
      )

  pub lookup_of_mem :
      {k : K} {v : V} (m : Dict K V) → NodupKeys m → Memᴰ (k, v) m → lookup k m ≡ some v
  unfolding lookup
  lookup_of_mem [] h i = absurd (Memᴰ-nil i)
  lookup_of_mem {k} {v} ((j, w) ∷ m) h i = elim (Memᴰ.cases_cons i) [
    | inl q ↦ ground (arith, eq_refl k, ap (λ (p : K × V). p.0) q, ap (λ (p : K × V). p.1) q)
    | inr t ↦ ground (arith, eq_iff j k, lookup_of_mem m h.1 t)
  ]

  pub mem_of_lookup : {k : K} {v : V} (m : Dict K V) → lookup k m ≡ some v → Memᴰ (k, v) m
  unfolding lookup
  mem_of_lookup [] h = cc
  mem_of_lookup {k} {v} ((j, w) ∷ m) h = elim (Bool-cases (j == k)) [
    | inl q ↦ Memᴰ.head (ground (arith, eq_iff j k))
    | inr q ↦ there (mem_of_lookup m (rw (q, lookup) at h))
  ]

  -- Where an item of an updated dict comes from.
  pub Memᴰ-upsert :
      (j k : K) (w start : V) (f : V → V) (m : Dict K V)
      → Memᴰ (j, w) (upsert k start f m)
      → Memᴰ (j, w) m ⊎ ((j ≡ k) × ((w ≡ f start) ⊎ ((v : V) × Memᴰ (k, v) m × (w ≡ f v))))
  unfolding upsert
  Memᴰ-upsert j k w start f [] i =
      let q = Memᴰ.eq_of_singleton i in
      inr (ap (λ (p : K × V). p.0) q, inl (ap (λ (p : K × V). p.1) q))
  Memᴰ-upsert j k w start f ((l, v) ∷ m) i = elim (Bool-cases (l == k)) [
    | inl e ↦
        ⊎_elim
          (λ q. inr (
            ground (arith, eq_iff l k, ap (λ (p : K × V). p.0) q),
            inr (v, Memᴰ.head (ground (arith, eq_iff l k)), ap (λ (p : K × V). p.1) q),
          ))
          (λ t. inl (there t)) (Memᴰ.cases_cons (rw (e, upsert) at i))
    | inr e ↦
        ⊎_elim (λ q. inl (Memᴰ.head q))
          (λ t.
            ⊎_elim (λ u. inl (there u))
              (λ (q, r). inr (q, ⊎_elim inl (λ (u, a, b). inr (u, there a, b)) r))
              (Memᴰ-upsert j k w start f m t))
          (Memᴰ.cases_cons (rw (e, upsert) at i))
  ]

  -- The updated item is there.
  pub Memᴰ-upsert_self :
      (k : K) (start : V) (f : V → V) (m : Dict K V)
      → (w : V) × Memᴰ (k, f w) (upsert k start f m) × ((w ≡ start) ⊎ Memᴰ (k, w) m)
  unfolding upsert
  Memᴰ-upsert_self k start f [] = (start, here, inl refl)
  Memᴰ-upsert_self k start f ((j, v) ∷ m) = elim (Bool-cases (j == k)) [
    | inl e ↦
        let q = (eq_iff j k).0 e in
        rw (e, upsert) (v, Memᴰ.head (ground (arith)), inr (Memᴰ.head (ground (arith))))
    | inr e ↦
        let (w, i, o) = Memᴰ-upsert_self k start f m in
        rw (e, upsert) (w, there i, ⊎_elim inl (λ t. inr (there t)) o)
  ]

  -- An item stays, perhaps updated.
  pub Memᴰ-upsert_keeps :
      (j k : K) (v start : V) (f : V → V) (m : Dict K V)
      → Memᴰ (j, v) m
      → Memᴰ (j, v) (upsert k start f m) ⊎ Memᴰ (j, f v) (upsert k start f m)
  unfolding upsert
  Memᴰ-upsert_keeps j k v start f [] i = absurd (Memᴰ-nil i)
  Memᴰ-upsert_keeps j k v start f ((l, u) ∷ m) i = elim (Bool-cases (l == k)) [
    | inl e ↦
        rw (e, upsert)
          (⊎_elim
            (λ q.
              inr
                (Memᴰ.head (ground (arith, ap (λ (p : K × V). p.0) q, ap (λ (p : K × V). p.1) q))))
            (λ t. inl (there t)) (Memᴰ.cases_cons i))
    | inr e ↦
        rw (e, upsert)
          (⊎_elim (λ q. inl (Memᴰ.head q))
            (λ t.
              ⊎_elim (λ a. inl (there a)) (λ a. inr (there a))
                (Memᴰ-upsert_keeps j k v start f m t))
            (Memᴰ.cases_cons i))
  ]
