-- ===== src/Cache/Gc/Condemn.antt =====
-- What a row of `condemn` calls leaves in `doomed`.
use mathlib.Core.Logic.{⊎_elim}
use mathlib.Core.List.Memᴰ
use sp1_lean.Base.{
  ℕ, ◌+◌, ◌≤◌, ◌≡◌, ◌≢◌, refl, sym, ap, subst, Bool, false, ◌⊎◌, inl, inr, List, [], ◌∷◌, ◌++◌,
  Memᴰ, arith, nat_eq, ◌==◌, eq_iff, Bool-cases, here, there, Memᴰ-nil, Memᴰ-append, any, any-mem,
  any_intro,
}
use sp1_lean.Cache.Entry.{Entry, Instant, when, minutes}
use sp1_lean.Cache.Gc.{Condemned, is_young, condemn, condemn_all}

-- No two condemned entries share an id.
abbrev pub Fresh : ℕ → List Condemned → Type 0
Fresh i ds = (d : Condemned) → Memᴰ d ds → d.0.id ≢ i

abbrev pub DistinctIds : List Condemned → Type 0
DistinctIds [] = Unit
DistinctIds (d ∷ ds) = Fresh d.0.id ds × DistinctIds ds

DistinctIds-snoc :
    (ds : List Condemned) (x : Condemned)
    → DistinctIds ds
    → Fresh x.0.id ds
    → DistinctIds (ds ++ (x ∷ []))
DistinctIds-snoc [] x h f = (λ d i. absurd (Memᴰ-nil i), tt)
DistinctIds-snoc (d ∷ ds) x h f = (
  λ c i.
      ⊎_elim (h.0 c)
        (λ j. λ e. f d here (rw (← e) (ap (λ (y : Condemned). y.0.id) (Memᴰ.eq_of_singleton j))))
        ((Memᴰ-append c ds (x ∷ [])).0 i),
  DistinctIds-snoc ds x h.1 (λ c i. f c (there i)),
)

-- An entry with the id is condemned.
abbrev pub HasId : ℕ → List Condemned → Type 0
HasId i ds = (d : Condemned) × Memᴰ d ds × (d.0.id ≡ i)

module _ (now : Instant) (min_age : ℕ) where
  abbrev pub Old : Entry → Type 0
  Old e = when e + minutes min_age ≤ now

  Old-of_not_young : (e : Entry) → is_young now min_age e ≡ false → Old e
  unfolding is_young
  Old-of_not_young e h = ground arith

  pub not_young_of_Old : (e : Entry) → Old e → is_young now min_age e ≡ false
  unfolding is_young
  not_young_of_Old e h = ground arith

  abbrev same_id : Entry → Condemned → Bool
  same_id e d = d.0.id == e.id

  -- One call: a new entry is the one that is called for, old enough, and with a fresh id.
  data Outcome (ds : List Condemned) (c : Condemned) : List Condemned → Type 0 where
    unchanged : Outcome ds c ds
    added : Old c.0 → Fresh c.0.id ds → Outcome ds c (ds ++ (c ∷ []))

  condemn-Outcome : (ds : List Condemned) (c : Condemned) → Outcome ds c (condemn now min_age ds c)
  unfolding condemn
  condemn-Outcome ds (e, reason) = elim (Bool-cases (any (same_id e) ds)) [
    | inl seen ↦ rw (seen) unchanged
    | inr new ↦ elim (Bool-cases (is_young now min_age e)) [
      | inl young ↦ rw (new) (rw young unchanged)
      | inr old ↦ rw (new) (
          rw old (
            added (Old-of_not_young e old)
              (λ d i q. cc (new, any_intro (same_id e) d ds i ((eq_iff d.0.id e.id).1 q)))))
    ]
  ]

  -- What is condemned was called for, and was old enough.
  pub condemn_all-mem :
      (ds cs : List Condemned) (c : Condemned)
      → Memᴰ c (condemn_all now min_age ds cs)
      → Memᴰ c ds ⊎ (Memᴰ c cs × Old c.0)
  unfolding condemn_all
  condemn_all-mem ds [] c i = inl i
  condemn_all-mem ds (x ∷ cs) c i =
      go (condemn now min_age ds x) (condemn-Outcome ds x)
        (condemn_all-mem (condemn now min_age ds x) cs c i)
    where
      go :
          (r : List Condemned)
          → Outcome ds x r
          → Memᴰ c r ⊎ (Memᴰ c cs × Old c.0)
          → Memᴰ c ds ⊎ (Memᴰ c (x ∷ cs) × Old c.0)
      go r o (inr (j, old)) = inr (there j, old)
      go r unchanged (inl j) = inl j
      go r (added old fresh) (inl j) =
          ⊎_elim inl
            (λ k. inr (
              Memᴰ.head (Memᴰ.eq_of_singleton k),
              subst (λ (y : Condemned). Old y.0) (sym (Memᴰ.eq_of_singleton k)) old,
            ))
            ((Memᴰ-append c ds (x ∷ [])).0 j)

  pub condemn_all-DistinctIds :
      (ds cs : List Condemned) → DistinctIds ds → DistinctIds (condemn_all now min_age ds cs)
  unfolding condemn_all
  condemn_all-DistinctIds ds [] h = h
  condemn_all-DistinctIds ds (x ∷ cs) h =
      condemn_all-DistinctIds (condemn now min_age ds x) cs
        (go (condemn now min_age ds x) (condemn-Outcome ds x))
    where
      go : (r : List Condemned) → Outcome ds x r → DistinctIds r
      go r unchanged = h
      go r (added old fresh) = DistinctIds-snoc ds x h fresh

  condemn-HasId :
      (i : ℕ) (ds : List Condemned) (x : Condemned)
      → HasId i ds
      → HasId i (condemn now min_age ds x)
  condemn-HasId i ds x (d, j, q) = go (condemn now min_age ds x) (condemn-Outcome ds x)
    where
      go : (r : List Condemned) → Outcome ds x r → HasId i r
      go r unchanged = (d, j, q)
      go r (added old fresh) = (d, (Memᴰ-append d ds (x ∷ [])).1 (inl j), q)

  condemn_all-HasId :
      (i : ℕ) (ds cs : List Condemned) → HasId i ds → HasId i (condemn_all now min_age ds cs)
  unfolding condemn_all
  condemn_all-HasId i ds [] h = h
  condemn_all-HasId i ds (x ∷ cs) h =
      condemn_all-HasId i (condemn now min_age ds x) cs (condemn-HasId i ds x h)

  condemn_old :
      (ds : List Condemned) (x : Condemned) → Old x.0 → HasId x.0.id (condemn now min_age ds x)
  unfolding condemn
  condemn_old ds (e, reason) old = elim (Bool-cases (any (same_id e) ds)) [
    | inl seen ↦
        rw seen (let (d, i, q) = any-mem (same_id e) ds seen in (d, i, (eq_iff d.0.id e.id).0 q))
    | inr new ↦ rw new (
        rw (not_young_of_Old e old)
          ((e, reason), (Memᴰ-append (e, reason) ds ((e, reason) ∷ [])).1 (inr here), refl))
  ]

  -- What is called for and is old enough is condemned, perhaps for an earlier reason.
  pub condemn_all_old :
      (ds cs : List Condemned) (c : Condemned)
      → Memᴰ c cs
      → Old c.0
      → HasId c.0.id (condemn_all now min_age ds cs)
  unfolding condemn_all
  condemn_all_old ds [] c i old = absurd (Memᴰ-nil i)
  condemn_all_old ds (x ∷ cs) c i old = elim (Memᴰ.cases_cons i) [
    | inl q ↦ condemn_all-HasId c.0.id (condemn now min_age ds x) cs (
        subst (λ (y : Condemned). HasId y.0.id (condemn now min_age ds x)) (sym q)
          (condemn_old ds x (subst (λ (y : Condemned). Old y.0) q old)))
    | inr j ↦ condemn_all_old (condemn now min_age ds x) cs c j old
  ]
