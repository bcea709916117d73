-- ===== src/Cache/Gc/Protect.antt =====
-- Rule 6 of cache_gc.py: the newest align entry of main is never in the plan, nor the newest core entry
-- among the shas that have no align entry.
use mathlib.Core.Logic.{⊎_elim}
use mathlib.Core.List.Memᴰ
use mathlib.Core.Option.{some-injective}
use sp1_lean.Base.{
  ℕ, ◌≤◌, ◌≡◌, ◌≢◌, sym, ap, ◌∙◌, subst, Bool-cases, true, false, inl, inr, none, some, List, [],
  ◌∷◌, Memᴰ, arith, Text, codes, starts_with, here, Memᴰ-nil, Memᴰ-append, contains_iff, nat_eq,
  list_eq, ltb,
}
use sp1_lean.Base.Dict.{has, lookup_of_mem}
use sp1_lean.Base.Order.{nat_order}
use sp1_lean.Base.Order.Sorting.{IsSortedDown, sort_down-IsSortedDown}
use sp1_lean.Cache.Key.{BuildKey, parse_key}
use sp1_lean.Cache.Entry.{Entry, Instant, when, main_ref}
use sp1_lean.Cache.Gc.{
  Condemned, Builds, Groups, on_main, owned, current, by_sha, align_shas, core_only, age_key,
  first_newest, protected, safe_ids, plan, align_kind, core_kind,
}
use sp1_lean.Cache.Gc.Groups.{InGroups, by_sha_sound, by_sha_complete}
use sp1_lean.Cache.Gc.Tidy.{by_sha-IsTidy, by_sha-NodupKeys, Newest, Newest-of_has, age_key-above}
use sp1_lean.Cache.Gc.Causes.{
  Cause, closed, stale, build, pull, calls-Cause, Memᴰ-owned, owned-mem, Memᴰ-on_main, Memᴰ-current,
  Memᴰ-align_shas, Memᴰ-core_only,
}
use sp1_lean.Cache.Gc.Safety.{plan-called}

le_of_not_less : (a b : ℕ) → ltb a b ≡ false → b ≤ a
le_of_not_less a b h = ground arith

le_of_eq : {a b : ℕ} → a ≡ b → a ≤ b
le_of_eq h = omega arith

not_pull : (ref : Text) → ref ≡ main_ref → ¬ (starts_with (codes "refs/pull/") ref ≡ true)
unfolding starts_with
not_pull ref e h = cc

-- A build of a kind that main holds under the current prefix.
pub record MainBuild (prefix : Text) (entries : List Entry) (kind sha : Text) (e : Entry)
    : Type 0 where
  pub fields : BuildKey
  pub listed : Memᴰ e entries
  pub parsed : parse_key e.key ≡ some fields
  pub on_main_ref : e.ref ≡ main_ref
  pub prefix_is : fields.prefix ≡ prefix
  pub no_pr : fields.pr ≡ none
  pub kind_is : fields.kind ≡ kind
  pub sha_is : fields.sha ≡ sha

module _ (prefix : Text) (entries : List Entry) where
  abbrev groups : Groups
  groups = by_sha (current prefix (on_main (owned entries)))

  -- The groups hold the builds of main, and no other entries.
  pub InGroups-MainBuild :
      {kind sha : Text} {e : Entry}
      → InGroups groups sha kind e
      → MainBuild prefix entries kind sha e
  InGroups-MainBuild {e} i =
      let f = by_sha_sound (current prefix (on_main (owned entries))) i in
      let (m, p, n) = (Memᴰ-current prefix (e, f.fields) (on_main (owned entries))).0 f.item in
      let (o, r) = (Memᴰ-on_main (e, f.fields) (owned entries)).0 m in
      let (l, k) = Memᴰ-owned e f.fields entries o in
      record {
        fields = f.fields;
        listed = l;
        parsed = k;
        on_main_ref = r;
        prefix_is = p;
        no_pr = n;
        kind_is = f.kind_is;
        sha_is = f.sha_is;
      }

  pub MainBuild-item :
      {kind sha : Text} {e : Entry} (h : MainBuild prefix entries kind sha e)
      → Memᴰ (e, h.fields) (current prefix (on_main (owned entries)))
  MainBuild-item {e} h = (Memᴰ-current prefix (e, h.fields) (on_main (owned entries))).1 (
    (Memᴰ-on_main (e, h.fields) (owned entries)).1
        (owned-mem e h.fields entries h.listed h.parsed, h.on_main_ref),
    h.prefix_is,
    h.no_pr,
  )

  pub MainBuild-InGroups :
      {kind sha : Text} {e : Entry}
      → MainBuild prefix entries kind sha e
      → InGroups groups sha kind e
  MainBuild-InGroups {kind} {sha} {e} h =
      subst (λ k. InGroups groups sha k e) h.kind_is
        (subst (λ s. InGroups groups s h.fields.kind e) h.sha_is
          (by_sha_complete (current prefix (on_main (owned entries))) (MainBuild-item h)))

-- Of shas sorted by their newest entry of a kind, the first has the newest entry of all.
first_newest-mem :
    (kind : Text) (shas : List (Text × Builds)) (sha : Text) (b : Builds) (m : Entry)
    → IsSortedDown (age_key kind) shas
    → ((s : Text) (c : Builds) → Memᴰ (s, c) shas → Newest kind s c)
    → Memᴰ (sha, b) shas
    → when m ≤ age_key kind (sha, b)
    → ((s : Text) (c : Builds) (es : List Entry) (n : Entry)
        → Memᴰ (s, c) shas
        → Memᴰ (kind, es) c
        → Memᴰ n es
        → when m ≤ when n
        → n ≡ m)
    → Memᴰ m.id (first_newest kind shas)
unfolding first_newest
first_newest-mem kind [] sha b m sorted newest i above only = absurd (Memᴰ-nil i)
first_newest-mem kind ((s, c) ∷ shas) sha b m sorted newest i above only =
    let n = newest s c here in
    let first_above : age_key kind (sha, b) ≤ age_key kind (s, c) =
      ⊎_elim (λ q. le_of_eq (ap (age_key kind) q)) (λ t. le_of_not_less _ _ (sorted.0 (sha, b) t))
        (Memᴰ.cases_cons i) in
    let same : n.entry ≡ m =
      only s c n.entries n.entry here n.build n.member (omega (arith, n.age)) in
    rw (n.is_newest, first_newest) (Memᴰ.head (ap (λ (e : Entry). e.id) (sym same)))

module _ (prefix : Text) (entries : List Entry) where
  abbrev pub main_groups : Groups
  main_groups = by_sha (current prefix (on_main (owned entries)))

  -- The entry is newer than every other build of its kind on main.
  pub record IsNewestAlign (m : Entry) (sha : Text) : Type 0 where
    pub is_build : MainBuild prefix entries align_kind sha m
    pub only :
        (e : Entry) (s : Text) → MainBuild prefix entries align_kind s e → when m ≤ when e → e ≡ m

  align-safe :
      (m : Entry) (sha : Text)
      → IsNewestAlign m sha
      → Memᴰ m.id (first_newest align_kind (align_shas main_groups))
  unfolding align_shas
  align-safe m sha h =
      let i = MainBuild-InGroups prefix entries h.is_build in
      let tidy = by_sha-IsTidy (current prefix (on_main (owned entries))) in
      let (has_align, above) =
        age_key-above align_kind sha i.builds i.entries m (tidy sha i.builds i.group) i.build
          i.entry in
      first_newest-mem align_kind (align_shas main_groups) sha i.builds m
        (sort_down-IsSortedDown (age_key align_kind) _)
        (λ s c j.
          let (g, t) = (Memᴰ-align_shas main_groups (s, c)).0 j in
          Newest-of_has align_kind s c (tidy s c g) t)
        ((Memᴰ-align_shas main_groups (sha, i.builds)).1 (i.group, has_align)) above
        (λ s c es n j k l. h.only n s (
          InGroups-MainBuild prefix entries (record {
            builds = c;
            entries = es;
            group = ((Memᴰ-align_shas main_groups (s, c)).0 j).0;
            build = k;
            entry = l;
          })))

  -- The entry is newer than every other core build of main whose sha has no align build.
  pub record IsNewestCoreOnly (m : Entry) (sha : Text) : Type 0 where
    pub is_build : MainBuild prefix entries core_kind sha m
    pub no_align : (a : Entry) → ¬ MainBuild prefix entries align_kind sha a
    pub only :
        (e : Entry) (s : Text)
        → MainBuild prefix entries core_kind s e
        → ((a : Entry) → ¬ MainBuild prefix entries align_kind s a)
        → when m ≤ when e
        → e ≡ m

  -- Builds without the kind align belong to a sha without an align build.
  pub lacks_align :
      (s : Text) (c : Builds)
      → Memᴰ (s, c) main_groups
      → has align_kind c ≡ false
      → (a : Entry) → ¬ MainBuild prefix entries align_kind s a
  lacks_align s c j lacks a h =
      let items = current prefix (on_main (owned entries)) in
      let i = MainBuild-InGroups prefix entries h in
      let same : i.builds ≡ c = some-injective _ _ (
        sym (lookup_of_mem main_groups (by_sha-NodupKeys items) i.group)
        ∙ lookup_of_mem main_groups (by_sha-NodupKeys items) j) in
      let (has_align, _) =
        age_key-above align_kind s i.builds i.entries a (by_sha-IsTidy items s i.builds i.group)
          i.build i.entry in
      cc (ap (has align_kind) same)

  has_align_build :
      (s : Text) (c : Builds)
      → Memᴰ (s, c) main_groups
      → has align_kind c ≡ true
      → (a : Entry) × MainBuild prefix entries align_kind s a
  has_align_build s c j t =
      let n = Newest-of_has align_kind s c (by_sha-IsTidy _ s c j) t in
      (
        n.entry,
        InGroups-MainBuild prefix entries (record {
          builds = c;
          entries = n.entries;
          group = j;
          build = n.build;
          entry = n.member;
        }),
      )

  core-safe :
      (m : Entry) (sha : Text)
      → IsNewestCoreOnly m sha
      → Memᴰ m.id (first_newest core_kind (core_only main_groups))
  unfolding core_only
  core-safe m sha h =
      let i = MainBuild-InGroups prefix entries h.is_build in
      let tidy = by_sha-IsTidy (current prefix (on_main (owned entries))) in
      let (has_core, above) =
        age_key-above core_kind sha i.builds i.entries m (tidy sha i.builds i.group) i.build
          i.entry in
      let lacks : has align_kind i.builds ≡ false =
        ⊎_elim (λ t. let (a, b) = has_align_build sha i.builds i.group t in absurd (h.no_align a b))
          (λ e. e) (Bool-cases (has align_kind i.builds)) in
      first_newest-mem core_kind (core_only main_groups) sha i.builds m
        (sort_down-IsSortedDown (age_key core_kind) _)
        (λ s c j.
          let (g, _, t) = (Memᴰ-core_only main_groups (s, c)).0 j in
          Newest-of_has core_kind s c (tidy s c g) t)
        ((Memᴰ-core_only main_groups (sha, i.builds)).1 (i.group, lacks, has_core)) above
        (λ s c es n j k l.
          let (g, lone, _) = (Memᴰ-core_only main_groups (s, c)).0 j in
          h.only n s
            (InGroups-MainBuild prefix entries
              (record { builds = c; entries = es; group = g; build = k; entry = l }))
            (lacks_align s c g lone))

  -- A build of main whose id is safe has no cause to go.
  no-Cause :
      (closed_refs : List Text) (ids : List ℕ) {kind sha : Text} (m : Entry)
      → MainBuild prefix entries kind sha m
      → ¬ Memᴰ main_ref closed_refs
      → Memᴰ m.id ids
      → ¬ Cause prefix closed_refs entries ids m
  no-Cause closed_refs ids m h live safe (closed i r) = live (Memᴰ.cast (sym h.on_main_ref) r)
  no-Cause closed_refs ids m h live safe (stale p i differs) =
      let (_, q) = Memᴰ-owned m p entries ((Memᴰ-on_main (m, p) (owned entries)).0 i).0 in
      let same : p ≡ h.fields = some-injective _ _ (sym q ∙ h.parsed) in
      differs (ap (λ (f : BuildKey). f.prefix) same ∙ h.prefix_is)
  no-Cause closed_refs ids m h live safe (build p i free) =
      cc (free, (contains_iff ids m.id).1 safe)
  no-Cause closed_refs ids m h live safe (pull p o) = not_pull m.ref h.on_main_ref o.pull

module _ (prefix : Text) (now : Instant) (closed_refs : List Text)
    (keep_align keep_core min_age : ℕ) (entries : List Entry) where
  abbrev doomed : List Condemned
  doomed = plan prefix now closed_refs keep_align keep_core min_age entries

  abbrev safe : List ℕ
  safe = safe_ids prefix now closed_refs keep_align keep_core min_age entries

  spared :
      {kind sha : Text} (m : Entry)
      → MainBuild prefix entries kind sha m
      → ¬ Memᴰ main_ref closed_refs
      → Memᴰ m.id safe
      → (d : Condemned) → Memᴰ d doomed
      → d.0 ≢ m
  spared m h live i d j e = no-Cause prefix entries closed_refs safe m h live i (
      subst (Cause prefix closed_refs entries safe) e (
        calls-Cause prefix now closed_refs keep_align keep_core min_age entries d
          (plan-called prefix now closed_refs keep_align keep_core min_age entries d j).0))

  -- The newest align build of main is never in the plan, unless main itself is named as closed.
  pub plan_spares_align :
      (m : Entry) (sha : Text)
      → IsNewestAlign prefix entries m sha
      → ¬ Memᴰ main_ref closed_refs
      → ¬ ((d : Condemned) × Memᴰ d doomed × (d.0 ≡ m))
  unfolding safe_ids protected
  plan_spares_align m sha h live (d, i, e) =
      spared m h.is_build live ((Memᴰ-append m.id _ _).1 (inl (align-safe prefix entries m sha h)))
        d i e

  -- The newest core build among the shas of main that have no align build is never in the plan, unless main
  -- itself is named as closed.
  pub plan_spares_core_only :
      (m : Entry) (sha : Text)
      → IsNewestCoreOnly prefix entries m sha
      → ¬ Memᴰ main_ref closed_refs
      → ¬ ((d : Condemned) × Memᴰ d doomed × (d.0 ≡ m))
  unfolding safe_ids protected
  plan_spares_core_only m sha h live (d, i, e) =
      spared m h.is_build live
        ((Memᴰ-append m.id (first_newest align_kind (align_shas (main_groups prefix entries))) _).1
          (inr (core-safe prefix entries m sha h)))
        d i e
