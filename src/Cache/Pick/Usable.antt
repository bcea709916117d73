-- ===== src/Cache/Pick/Usable.antt =====
-- The entries that cache_pick.py considers are those that the job can restore.
use mathlib.Core.List.Memᴰ
use mathlib.Core.Option.{some-injective}
use sp1_lean.Base.{
  ◌≡◌, ◌≢◌, refl, subst, Bool, true, false, ◌&&◌, ◌⊎◌, ◌↔◌, inl, inr, Option, none, some, List, [],
  ◌∷◌, Memᴰ, arith, Text, nat_eq, list_eq, option_eq, ◌==◌, eq_iff, contains, contains_iff,
  Memᴰ-cons, Memᴰ-nil, Memᴰ-choose, choose, if◌then◌else◌, ◌>>=◌, Bool-cases, Option-cases,
}
use sp1_lean.Cache.Key.{BuildKey, parse_key}
use sp1_lean.Cache.Entry.{Entry, main_ref}
use sp1_lean.Cache.Pick.{
  Mode, pr_mode, main_mode, Place, on_main, own, Candidate, align_kind, core_kind, merge_ref,
  is_own, place_of, usable_entry,
}

-- Where a job may restore an entry from: main, or for a pull request its own merge ref.
pub data Allowed (mode : Mode) (pr : Option Text) (e : Entry) (p : BuildKey) : Place → Type 0 where
  at_main : e.ref ≡ main_ref → p.pr ≡ none → Allowed mode pr e p on_main
  at_own :
      (n : Text)
      → mode ≡ pr_mode
      → pr ≡ some n
      → n ≢ []
      → e.ref ≡ merge_ref n
      → p.pr ≡ some n
      → Allowed mode pr e p own

pub record IsUsable (prefix : Text) (mode : Mode) (pr : Option Text) (u : Candidate) : Type 0 where
  pub parsed : parse_key u.entry.key ≡ some u.fields
  pub prefix_is : u.fields.prefix ≡ prefix
  pub kind_is : (u.fields.kind ≡ core_kind) ⊎ (u.fields.kind ≡ align_kind)
  pub allowed : Allowed mode pr u.entry u.fields u.place

is_own_sound :
    (mode : Mode) (pr : Option Text) (e : Entry) (p : BuildKey)
    → is_own mode pr e p ≡ true
    → Allowed mode pr e p own
unfolding is_own
is_own_sound main_mode pr e p h = cc
is_own_sound pr_mode none e p h = cc
is_own_sound pr_mode (some n) e p h =
    at_own n refl refl (λ q. cc (h, (eq_iff n []).1 q)) (ground (arith, eq_iff e.ref (merge_ref n)))
      (ground (arith, eq_iff p.pr (some n)))

not_empty : (n : Text) → n ≢ [] → (n == []) ≡ false
not_empty n h = ground (arith, eq_iff n [])

place_of-own :
    (mode : Mode) (pr : Option Text) (e : Entry) (p : BuildKey) (n : Text)
    → mode ≡ pr_mode
    → pr ≡ some n
    → n ≢ []
    → e.ref ≡ merge_ref n
    → p.pr ≡ some n
    → place_of mode pr e p ≡ some own
unfolding place_of
place_of-own main_mode pr e p n m q nonempty r k = cc
place_of-own pr_mode none e p n m q nonempty r k = cc
place_of-own pr_mode (some l) e p n m q nonempty r k = ground (
  arith,
  some-injective l n q,
  eq_iff p.pr none,
  eq_iff p.pr (some l),
  eq_iff e.ref (merge_ref l),
  not_empty n nonempty,
  eq_iff l [],
)

placed-cases :
    (a b : Bool) (w : Place)
    → (if a then some on_main else if b then some own else none) ≡ some w
    → ((a ≡ true) × (on_main ≡ w)) ⊎ ((b ≡ true) × (own ≡ w))
placed-cases true b w h = inl (refl, some-injective _ _ h)
placed-cases false true w h = inr (refl, some-injective _ _ h)
placed-cases false false w h = cc

module _ (mode : Mode) (pr : Option Text) (e : Entry) (p : BuildKey) where
  place_of_sound : (w : Place) → place_of mode pr e p ≡ some w → Allowed mode pr e p w
  unfolding place_of
  place_of_sound w h =
      elim (placed-cases (e.ref == main_ref && p.pr == none) (is_own mode pr e p) w h) [
        | inl (t, q) ↦
            subst (Allowed mode pr e p) q
              (at_main (ground (arith, eq_iff e.ref main_ref)) (ground (arith, eq_iff p.pr none)))
        | inr (t, q) ↦ subst (Allowed mode pr e p) q (is_own_sound mode pr e p t)
      ]

  place_of_complete : {w : Place} → Allowed mode pr e p w → place_of mode pr e p ≡ some w
  unfolding place_of
  place_of_complete (at_main r k) = ground (arith, eq_iff e.ref main_ref, eq_iff p.pr none)
  place_of_complete (at_own n m q nonempty r k) = place_of-own mode pr e p n m q nonempty r k

kind_iff :
    (kind : Text)
    → (contains (core_kind ∷ align_kind ∷ []) kind ≡ true)
      ↔ ((kind ≡ core_kind) ⊎ (kind ≡ align_kind))
kind_iff kind = ground (
  arith,
  contains_iff (core_kind ∷ align_kind ∷ []) kind,
  Memᴰ-cons kind core_kind (align_kind ∷ []),
  Memᴰ-cons kind align_kind [],
  λ (m : Memᴰ kind []). Memᴰ-nil m,
)

module _ (prefix : Text) (mode : Mode) (pr : Option Text) where
  -- The rest of the loop body, once the key is read and the place is known.
  candidate_of : Entry → Option BuildKey → Option Candidate
  candidate_of e o = ◌>>=◌ {B = Candidate} o (λ p.
      if p.prefix == prefix && contains (core_kind ∷ align_kind ∷ []) p.kind
      then ◌>>=◌ {B = Candidate} (place_of mode pr e p)
          (λ w. some (record { entry = e; fields = p; place = w }))
      else none)

  candidate_of_sound :
      (e : Entry) (o : Option BuildKey) (u : Candidate)
      → parse_key e.key ≡ o
      → candidate_of e o ≡ some u
      → (u.entry ≡ e) × IsUsable prefix mode pr u
  unfolding candidate_of
  candidate_of_sound e none u q h = cc
  candidate_of_sound e (some p) u q h =
      elim (Bool-cases (p.prefix == prefix && contains (core_kind ∷ align_kind ∷ []) p.kind)) [
        | inr f ↦ cc (rw f at h)
        | inl t ↦ elim (Option-cases (place_of mode pr e p)) [
          | inl f ↦ cc (rw f at (rw t at h))
          | inr (w, g) ↦
              let same : ◌≡◌ {A = Candidate} (record { entry = e; fields = p; place = w }) u =
                some-injective _ _ (rw g at (rw t at h)) in
              subst (λ (v : Candidate). (v.entry ≡ e) × IsUsable prefix mode pr v) same
                (
                  refl,
                  record {
                    parsed = q;
                    prefix_is = ground (arith, eq_iff p.prefix prefix);
                    kind_is = (kind_iff p.kind).0 (ground arith);
                    allowed = place_of_sound mode pr e p w g;
                  },
                )
        ]
      ]

  -- What is considered can be restored, and comes from the listing.
  pub usable_entry_sound :
      (e : Entry) (u : Candidate)
      → usable_entry prefix mode pr e ≡ some u
      → (u.entry ≡ e) × IsUsable prefix mode pr u
  unfolding usable_entry candidate_of
  usable_entry_sound e u h = candidate_of_sound e (parse_key e.key) u refl h

  -- What can be restored is considered.
  pub usable_entry_complete :
      (u : Candidate) → IsUsable prefix mode pr u → usable_entry prefix mode pr u.entry ≡ some u
  unfolding usable_entry
  usable_entry_complete u h = rw h.parsed (
      rw ((eq_iff u.fields.prefix prefix).1 h.prefix_is) (
        rw ((kind_iff u.fields.kind).1 h.kind_is)
          (rw (place_of_complete mode pr u.entry u.fields h.allowed) refl)))

  pub Memᴰ-IsUsable :
      (entries : List Entry) (u : Candidate)
      → Memᴰ u (choose (usable_entry prefix mode pr) entries)
        ↔ (Memᴰ u.entry entries × IsUsable prefix mode pr u)
  Memᴰ-IsUsable entries u = (
    λ m.
        let (e, i, q) = (Memᴰ-choose (usable_entry prefix mode pr) u entries).0 m in
        let (same, h) = usable_entry_sound e u q in (Memᴰ.cast same i, h),
    λ (i, h).
        (Memᴰ-choose (usable_entry prefix mode pr) u entries).1
          (u.entry, i, usable_entry_complete u h),
  )
