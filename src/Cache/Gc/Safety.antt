-- ===== src/Cache/Gc/Safety.antt =====
-- What the deletion plan of cache_gc.py never does, whatever the listing.
use sp1_lean.Base.{
  ℕ, ◌+◌, ◌≤◌, ◌≡◌, ◌≢◌, sym, true, ◌⊎◌, inl, inr, some, List, [], ◌∷◌, Memᴰ, Text, codes,
  starts_with,
}
use sp1_lean.Base.Order.{nat_order}
use sp1_lean.Base.Order.Sorting.{Memᴰ-sort_by, IsSorted, sort_by-IsSorted, Apart, sort_by-Apart}
use sp1_lean.Cache.Key.{BuildKey, parse_key}
use sp1_lean.Cache.Entry.{Entry, Instant, when, minutes, main_ref}
use sp1_lean.Cache.Gc.{Condemned, on_main, owned, calls, plan}
use sp1_lean.Cache.Gc.Condemn.{
  condemn_all-mem, DistinctIds, condemn_all-DistinctIds, condemn_all_old, HasId,
}
use sp1_lean.Cache.Gc.Causes.{
  Cause, closed, stale, build, pull, calls-Cause, Memᴰ-owned, Memᴰ-on_main, Memᴰ-current,
}

-- Where an entry stands that a rule other than rule 5 can name.
pub data Place (prefix : Text) (e : Entry) (p : BuildKey) : Type 0 where
  main_place : e.ref ≡ main_ref → Place prefix e p
  pull_place : starts_with (codes "refs/pull/") e.ref ≡ true → p.prefix ≡ prefix → Place prefix e p

distinct-Apart :
    (ds : List Condemned) → DistinctIds ds → Apart (λ (c d : Condemned). d.0.id ≢ c.0.id) ds
distinct-Apart [] h = tt
distinct-Apart (d ∷ ds) h = (h.0, distinct-Apart ds h.1)

module _ (prefix : Text) (now : Instant) (closed_refs : List Text)
    (keep_align keep_core min_age : ℕ) (entries : List Entry) where
  abbrev doomed : List Condemned
  doomed = plan prefix now closed_refs keep_align keep_core min_age entries

  abbrev called : List Condemned
  called = calls prefix now closed_refs keep_align keep_core min_age entries

  pub plan-called :
      (d : Condemned) → Memᴰ d doomed → Memᴰ d called × (when d.0 + minutes min_age ≤ now)
  unfolding plan
  plan-called d i =
      elim (condemn_all-mem now min_age [] called d ((Memᴰ-sort_by (λ c. when c.0) d _).0 i)) [
        | inl none_yet ↦ elim none_yet [ ]
        | inr found ↦ found
      ]

  pub called-HasId :
      (d : Condemned) → Memᴰ d called → when d.0 + minutes min_age ≤ now → HasId d.0.id doomed
  unfolding plan
  called-HasId d i old =
      let (c, j, q) = condemn_all_old now min_age [] called d i old in
      (c, (Memᴰ-sort_by (λ x. when x.0) c _).1 j, q)

  Cause-mem : (ids : List ℕ) (e : Entry) → Cause prefix closed_refs entries ids e → Memᴰ e entries
  Cause-mem ids e (closed m r) = m
  Cause-mem ids e (stale p m h) =
      (Memᴰ-owned e p entries ((Memᴰ-on_main (e, p) (owned entries)).0 m).0).0
  Cause-mem ids e (build p m free) =
      (Memᴰ-owned e p entries
        ((Memᴰ-on_main (e, p) (owned entries)).0
          ((Memᴰ-current prefix (e, p) (on_main (owned entries))).0 m).0).0).0
  Cause-mem ids e (pull p h) = (Memᴰ-owned e p entries h.item).0

  -- Every entry in the plan is an entry of the listing that is at least `min_age` minutes old.
  pub plan_old :
      (d : Condemned) → Memᴰ d doomed → Memᴰ d.0 entries × (when d.0 + minutes min_age ≤ now)
  plan_old d i =
      let (c, old) = plan-called d i in
      (
        Cause-mem _ d.0
            (calls-Cause prefix now closed_refs keep_align keep_core min_age entries d c),
        old,
      )

  -- The plan lists the oldest entries first, and never two entries with one id.
  pub plan_order :
      IsSorted (λ (d : Condemned). when d.0) doomed
      × Apart (λ (c d : Condemned). d.0.id ≢ c.0.id) doomed
  unfolding plan
  plan_order = (
    sort_by-IsSorted (λ (d : Condemned). when d.0) _,
    sort_by-Apart (λ (d : Condemned). when d.0) (λ (c d : Condemned). d.0.id ≢ c.0.id)
        (λ x y h e. h (sym e)) _
        (distinct-Apart _ (condemn_all-DistinctIds now min_age [] called tt)),
  )

  Cause-Place :
      (ids : List ℕ) (e : Entry)
      → Cause prefix closed_refs entries ids e
      → Memᴰ e.ref closed_refs ⊎ ((p : BuildKey) × (parse_key e.key ≡ some p) × Place prefix e p)
  Cause-Place ids e (closed m r) = inl r
  Cause-Place ids e (stale p m h) =
      let (o, r) = (Memᴰ-on_main (e, p) (owned entries)).0 m in
      inr (p, (Memᴰ-owned e p entries o).1, main_place r)
  Cause-Place ids e (build p m free) =
      let (c, _, _) = (Memᴰ-current prefix (e, p) (on_main (owned entries))).0 m in
      let (o, r) = (Memᴰ-on_main (e, p) (owned entries)).0 c in
      inr (p, (Memᴰ-owned e p entries o).1, main_place r)
  Cause-Place ids e (pull p h) =
      inr (p, (Memᴰ-owned e p entries h.item).1, pull_place h.pull h.prefix_is)

  -- An entry in the plan stands on a closed ref, or its key is one of the layout and it stands on main or,
  -- with the current prefix, on the ref of a pull request.
  pub plan_scope :
      (d : Condemned)
      → Memᴰ d doomed
      → Memᴰ d.0.ref closed_refs
        ⊎ ((p : BuildKey) × (parse_key d.0.key ≡ some p) × Place prefix d.0 p)
  plan_scope d i = Cause-Place _ d.0 (
      calls-Cause prefix now closed_refs keep_align keep_core min_age entries d (plan-called d i).0)
