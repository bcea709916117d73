-- ===== src/Cache/Pick/Choice.antt =====
-- The order in which cache_pick.py prefers the entries that a job can restore, as a relation, and
-- that `pick` follows it.
use mathlib.Core.Option.{some-injective}
use sp1_lean.Base.{
  ◌≡◌, ◌≢◌, refl, ◌∙◌, subst, true, false, ◌⊎◌, ◌↔◌, inl, inr, Option, none, some, List, [], ◌∷◌,
  Memᴰ, arith, Text, nat_eq, list_eq, option_eq, eq_iff, keep, Memᴰ-keep, Memᴰ-nil, choose,
  Option-cases,
}
use sp1_lean.Base.Order.{less, max_by-mem, max_by-above, max_by-none, text_order}
use sp1_lean.Cache.Entry.{Entry}
use sp1_lean.Cache.Pick.{
  Mode, pr_mode, main_mode, Place, on_main, own, same_place, Candidate, align_kind, core_kind,
  usable_entry, wanted, created, newest, newest_build, from_lineage, pick_entry, pick,
}
use sp1_lean.Cache.Pick.Usable.{Allowed, at_main, at_own, IsUsable, Memᴰ-IsUsable}

-- A build of some kind at some place, of the given sha if there is one.
pub record IsBuild (w : Place) (kind : Text) (sha : Option Text) (u : Candidate) : Type 0 where
  pub place_is : u.place ≡ w
  pub kind_is : u.fields.kind ≡ kind
  pub sha_is : (s : Text) → sha ≡ some s → u.fields.sha ≡ s

same_place_iff : (v w : Place) → (same_place v w ≡ true) ↔ (v ≡ w)
unfolding same_place
same_place_iff on_main on_main = (λ _. refl, λ _. refl)
same_place_iff own own = (λ _. refl, λ _. refl)
same_place_iff on_main own = (λ h. cc, λ h. cc)
same_place_iff own on_main = (λ h. cc, λ h. cc)

wanted_iff :
    (w : Place) (kind : Text) (sha : Option Text) (u : Candidate)
    → (wanted w kind sha u ≡ true) ↔ IsBuild w kind sha u
unfolding wanted
wanted_iff w kind none u = (
  λ h. record {
    place_is = (same_place_iff u.place w).0 (ground arith);
    kind_is = ground (arith, eq_iff u.fields.kind kind);
    sha_is = λ s q. cc;
  },
  λ b.
      ground
        (arith, (same_place_iff u.place w).1 b.place_is, (eq_iff u.fields.kind kind).1 b.kind_is),
)
wanted_iff w kind (some t) u = (
  λ h. record {
    place_is = (same_place_iff u.place w).0 (ground arith);
    kind_is = ground (arith, eq_iff u.fields.kind kind);
    sha_is = λ s q. ground (arith, eq_iff u.fields.sha t) ∙ some-injective t s q;
  },
  λ b. ground (
    arith,
    (same_place_iff u.place w).1 b.place_is,
    (eq_iff u.fields.kind kind).1 b.kind_is,
    (eq_iff u.fields.sha t).1 (b.sha_is t refl),
  ),
)

module _ (usable : List Candidate) where
  -- No build of a kind is on offer.
  abbrev pub Absent : Place → Text → Option Text → Type 0
  Absent w kind sha = (u : Candidate) → Memᴰ u usable → IsBuild w kind sha u → ⊥

  -- A build of a kind, none of which was created later.
  pub record IsNewest (w : Place) (kind : Text) (sha : Option Text) (u : Candidate) : Type 0 where
    pub offered : Memᴰ u usable
    pub build : IsBuild w kind sha u
    pub last :
        (v : Candidate)
        → Memᴰ v usable
        → IsBuild w kind sha v
        → less (created u) (created v) ≡ false

  -- The full build before the build of the core.
  pub data Build (w : Place) (sha : Option Text) (u : Candidate) : Type 0 where
    of_align : IsNewest w align_kind sha u → Build w sha u
    of_core : Absent w align_kind sha → IsNewest w core_kind sha u → Build w sha u

  abbrev pub NoBuild : Place → Option Text → Type 0
  NoBuild w sha = Absent w align_kind sha × Absent w core_kind sha

  -- The first sha of the lineage that main has a build of, and any build if there is none.
  pub data Lineage (u : Candidate) : List Text → Type 0 where
    any_sha : Build on_main none u → Lineage u []
    this_sha : {sha : Text} {rest : List Text} → Build on_main (some sha) u → Lineage u (sha ∷ rest)
    later_sha :
        {sha : Text} {rest : List Text}
        → NoBuild on_main (some sha)
        → Lineage u rest
        → Lineage u (sha ∷ rest)

  -- A pull request prefers a build of its own.
  pub data Choice (lineage : List Text) (u : Candidate) : Mode → Type 0 where
    own_build : Build own none u → Choice lineage u pr_mode
    no_own_build : NoBuild own none → Lineage u lineage → Choice lineage u pr_mode
    main_build : Lineage u lineage → Choice lineage u main_mode

  module _ (w : Place) (kind : Text) (sha : Option Text) where
    newest-IsNewest : (u : Candidate) → newest usable w kind sha ≡ some u → IsNewest w kind sha u
    unfolding newest
    newest-IsNewest u h =
        let (m, q) = (Memᴰ-keep (wanted w kind sha) u usable).0 (max_by-mem created _ h) in
        record {
          offered = m;
          build = (wanted_iff w kind sha u).0 q;
          last = λ v i b.
              max_by-above created v (keep (wanted w kind sha) usable) h
                ((Memᴰ-keep (wanted w kind sha) v usable).1 (i, (wanted_iff w kind sha v).1 b));
        }

    newest-Absent : newest usable w kind sha ≡ none → Absent w kind sha
    unfolding newest
    newest-Absent h u i b = Memᴰ-nil (
        subst (Memᴰ u) ((max_by-none created _).0 h)
          ((Memᴰ-keep (wanted w kind sha) u usable).1 (i, (wanted_iff w kind sha u).1 b)))

  Build-offered : {w : Place} {sha : Option Text} {u : Candidate} → Build w sha u → Memᴰ u usable
  Build-offered (of_align n) = n.offered
  Build-offered (of_core _ n) = n.offered

  Lineage-offered : {u : Candidate} {lineage : List Text} → Lineage u lineage → Memᴰ u usable
  Lineage-offered (any_sha b) = Build-offered b
  Lineage-offered (this_sha b) = Build-offered b
  Lineage-offered (later_sha _ l) = Lineage-offered l

  Choice-offered :
      {lineage : List Text} {u : Candidate} {mode : Mode} → Choice lineage u mode → Memᴰ u usable
  Choice-offered (own_build b) = Build-offered b
  Choice-offered (no_own_build _ l) = Lineage-offered l
  Choice-offered (main_build l) = Lineage-offered l

  newest_build-Build :
      (w : Place) (sha : Option Text) (u : Candidate)
      → newest_build usable w sha ≡ some u
      → Build w sha u
  unfolding newest_build
  newest_build-Build w sha u h = elim (Option-cases (newest usable w align_kind sha)) [
    | inl e ↦
        of_core (newest-Absent w align_kind sha e)
          (newest-IsNewest w core_kind sha u (rw (e, newest_build) at h))
    | inr (v, e) ↦ of_align (newest-IsNewest w align_kind sha u (e ∙ (rw (e, newest_build) at h)))
  ]

  newest_build-none :
      (w : Place) (sha : Option Text) → newest_build usable w sha ≡ none → NoBuild w sha
  unfolding newest_build
  newest_build-none w sha h = elim (Option-cases (newest usable w align_kind sha)) [
    | inl e ↦ (
      newest-Absent w align_kind sha e,
      newest-Absent w core_kind sha (rw (e, newest_build) at h),
    )
    | inr (v, e) ↦ cc (rw (e, newest_build) at h)
  ]

  from_lineage-Lineage :
      (lineage : List Text) (u : Candidate)
      → from_lineage usable lineage ≡ some u
      → Lineage u lineage
  unfolding from_lineage
  from_lineage-Lineage [] u h = any_sha (newest_build-Build on_main none u h)
  from_lineage-Lineage (sha ∷ rest) u h =
      elim (Option-cases (newest_build usable on_main (some sha))) [
        | inl e ↦
            later_sha (newest_build-none on_main (some sha) e)
              (from_lineage-Lineage rest u (rw (e, from_lineage) at h))
        | inr (v, e) ↦
            this_sha (newest_build-Build on_main (some sha) u (e ∙ (rw (e, from_lineage) at h)))
      ]

  -- If nothing is found, main has no build at all.
  from_lineage-none :
      (lineage : List Text) → from_lineage usable lineage ≡ none → NoBuild on_main none
  unfolding from_lineage
  from_lineage-none [] h = newest_build-none on_main none h
  from_lineage-none (sha ∷ rest) h = elim (Option-cases (newest_build usable on_main (some sha))) [
    | inl e ↦ from_lineage-none rest (rw (e, from_lineage) at h)
    | inr (v, e) ↦ cc (rw (e, from_lineage) at h)
  ]

  pick_entry-Choice :
      (mode : Mode) (lineage : List Text) (u : Candidate)
      → pick_entry usable mode lineage ≡ some u
      → Choice lineage u mode
  unfolding pick_entry
  pick_entry-Choice main_mode lineage u h = main_build (from_lineage-Lineage lineage u h)
  pick_entry-Choice pr_mode lineage u h = elim (Option-cases (newest_build usable own none)) [
    | inl e ↦
        no_own_build (newest_build-none own none e)
          (from_lineage-Lineage lineage u (rw (e, pick_entry) at h))
    | inr (v, e) ↦ own_build (newest_build-Build own none u (e ∙ (rw (e, pick_entry) at h)))
  ]

  pick_entry-main :
      (mode : Mode) (lineage : List Text)
      → pick_entry usable mode lineage ≡ none
      → NoBuild on_main none
  unfolding pick_entry
  pick_entry-main main_mode lineage h = from_lineage-none lineage h
  pick_entry-main pr_mode lineage h = elim (Option-cases (newest_build usable own none)) [
    | inl e ↦ from_lineage-none lineage (rw (e, pick_entry) at h)
    | inr (v, e) ↦ cc (rw (e, pick_entry) at h)
  ]

  pick_entry-own :
      (lineage : List Text) → pick_entry usable pr_mode lineage ≡ none → NoBuild own none
  unfolding pick_entry
  pick_entry-own lineage h = elim (Option-cases (newest_build usable own none)) [
    | inl e ↦ newest_build-none own none e
    | inr (v, e) ↦ cc (rw (e, pick_entry) at h)
  ]

  -- Where something is on offer, something is picked.
  pick_entry-finds :
      (mode : Mode) (lineage : List Text) (u : Candidate)
      → Memᴰ u usable
      → ((u.place ≡ own) → mode ≡ pr_mode)
      → (u.fields.kind ≡ core_kind) ⊎ (u.fields.kind ≡ align_kind)
      → pick_entry usable mode lineage ≢ none
  pick_entry-finds mode lineage u m pr kind h = elim (place-cases u.place) [
    | inl p ↦ unless on_main p (pick_entry-main mode lineage h)
    | inr p ↦
        unless own p
          (pick_entry-own lineage (subst (λ t. pick_entry usable t lineage ≡ none) (pr p) h))
  ]
    where
      place-cases : (w : Place) → (w ≡ on_main) ⊎ (w ≡ own)
      place-cases on_main = inl refl
      place-cases own = inr refl

      unless : (w : Place) → u.place ≡ w → NoBuild w none → ⊥
      unless w p (no_align, no_core) = elim kind [
        | inl k ↦ no_core u m (record { place_is = p; kind_is = k; sha_is = λ s q. cc })
        | inr k ↦ no_align u m (record { place_is = p; kind_is = k; sha_is = λ s q. cc })
      ]

module _ (entries : List Entry) (prefix : Text) (mode : Mode) (lineage : List Text)
    (pr : Option Text) where
  abbrev restorable : List Candidate
  restorable = choose (usable_entry prefix mode pr) entries

  picked :
      (key : Text)
      → pick entries prefix mode lineage pr ≡ some key
      → (u : Candidate) × (pick_entry restorable mode lineage ≡ some u) × (u.entry.key ≡ key)
  unfolding pick
  picked key h = elim (Option-cases (pick_entry restorable mode lineage)) [
    | inl e ↦ cc (rw (e, pick) at h)
    | inr (u, e) ↦ (u, e, some-injective _ _ (rw (e, pick) at h))
  ]

  -- The key that cache_pick.py prints is the key of an entry of the listing that the job can restore,
  -- and among all of these it is the one that the documented order prefers: for a pull request its own
  -- newest align entry, then its own newest core entry, and then, as on main, the first sha of the lineage with a
  -- build on main, align before core, and the newest of those; the newest main align and core entry come last.
  pub pick-Choice :
      (key : Text)
      → pick entries prefix mode lineage pr ≡ some key
      → (u : Candidate) × (u.entry.key ≡ key)
        × Memᴰ u.entry entries
        × IsUsable prefix mode pr u
        × Choice restorable lineage u mode
  pick-Choice key h =
      let (u, e, k) = picked key h in
      let c = pick_entry-Choice restorable mode lineage u e in
      let (m, i) = (Memᴰ-IsUsable prefix mode pr entries u).0 (Choice-offered restorable c) in
      (u, k, m, i, c)

  -- Whenever the listing has an entry that the job can restore, cache_pick.py prints a key.
  pub pick_finds :
      (u : Candidate)
      → Memᴰ u.entry entries
      → IsUsable prefix mode pr u
      → pick entries prefix mode lineage pr ≢ none
  unfolding pick
  pick_finds u m i h = elim (Option-cases (pick_entry restorable mode lineage)) [
    | inl e ↦
        pick_entry-finds restorable mode lineage u
          ((Memᴰ-IsUsable prefix mode pr entries u).1 (m, i)) (own_mode u.place i.allowed) i.kind_is
          e
    | inr (v, e) ↦ cc (rw (e, pick) at h)
  ]
    where
      own_mode : (w : Place) → Allowed mode pr u.entry u.fields w → (w ≡ own) → mode ≡ pr_mode
      own_mode on_main (at_main r k) q = cc
      own_mode own (at_own n t x y r k) q = t
