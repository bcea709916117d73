-- ===== src/Cache/Gc/Complete.antt =====
-- What the deletion plan of cache_gc.py takes: each rule's entries, once they are old enough.
use mathlib.Core.Logic.{⊎_elim}
use mathlib.Core.List.Memᴰ
use mathlib.Core.Option.{some-injective}
use sp1_lean.Base.{
  ℕ, ◌+◌, ◌≤◌, ◌≡◌, ◌≢◌, refl, sym, ap, ◌∙◌, subst, Bool-cases, false, not, Option, none, some,
  List, [], ◌∷◌, map, Memᴰ, Text, here, Memᴰ-nil, Memᴰ-keep, Memᴰ-gather, contains, contains_iff,
  nat_eq, list_eq, eq_iff, ◌==◌, keep, or_else, take, starts_with,
}
use sp1_lean.Base.Dict.{lookup, lookup_of_mem}
use sp1_lean.Base.Order.{nat_order}
use sp1_lean.Cache.Key.{BuildKey, parse_key}
use sp1_lean.Cache.Entry.{Entry, Instant, when, minutes, main_ref}
use sp1_lean.Cache.Gc.{
  Condemned, Owned, Builds, closed_ref, stale_prefix, superseded, on_main, owned, current, by_sha,
  align_shas, core_only, is_young, newest_of, first_newest, protected, closed_rule, stale_rule,
  superseded_at, superseded_rule, safe_ids, calls, plan, align_kind, core_kind,
}
use sp1_lean.Cache.Gc.Condemn.{HasId, not_young_of_Old}
use sp1_lean.Cache.Gc.Tidy.{by_sha-IsTidy, by_sha-NodupKeys, Newest, Newest-of_has, age_key-above}
use sp1_lean.Cache.Gc.Causes.{
  owned-mem, Memᴰ-on_main, Memᴰ-align_shas, Memᴰ-core_only, Memᴰ-unprotected,
}
use sp1_lean.Cache.Gc.Protect.{MainBuild, InGroups-MainBuild, MainBuild-InGroups, lacks_align}
use sp1_lean.Cache.Gc.Safety.{called-HasId}

module _ (prefix : Text) (now : Instant) (closed_refs : List Text)
    (keep_align keep_core min_age : ℕ) (entries : List Entry) where
  abbrev doomed : List Condemned
  doomed = plan prefix now closed_refs keep_align keep_core min_age entries

  abbrev Old : Entry → Type 0
  Old e = when e + minutes min_age ≤ now

  abbrev safe : List ℕ
  safe = safe_ids prefix now closed_refs keep_align keep_core min_age entries

  abbrev taken :
      (d : Condemned)
      → Memᴰ d (calls prefix now closed_refs keep_align keep_core min_age entries)
      → Old d.0
      → HasId d.0.id doomed
  taken d i old = called-HasId prefix now closed_refs keep_align keep_core min_age entries d i old

  -- Everything on a closed ref is in the plan once it is old enough, keys outside the layout too.
  pub plan_takes_closed :
      (e : Entry) → Memᴰ e entries → Memᴰ e.ref closed_refs → Old e → HasId e.id doomed
  unfolding calls closed_rule
  plan_takes_closed e i r old =
      taken (e, closed_ref e.ref)
        (Memᴰ.append_left _ (
          (Memᴰ-gather (λ ref. map (λ x. (x, closed_ref ref)) (keep (λ x. x.ref == ref) entries))
              (e, closed_ref e.ref) closed_refs).1
            (
              e.ref,
              r,
              Memᴰ.map (λ x. (x, closed_ref e.ref))
                  ((Memᴰ-keep (λ (x : Entry). x.ref == e.ref) e entries).1
                    (i, (eq_iff e.ref e.ref).1 refl)),
            )))
        old

  -- A build of main under another prefix is in the plan once it is old enough.
  pub plan_takes_stale :
      (e : Entry) (p : BuildKey)
      → Memᴰ e entries
      → parse_key e.key ≡ some p
      → e.ref ≡ main_ref
      → p.prefix ≢ prefix
      → Old e
      → HasId e.id doomed
  unfolding calls stale_rule
  plan_takes_stale e p i q m differs old =
      taken (e, stale_prefix)
        (Memᴰ.append_right (closed_rule closed_refs entries) (
          Memᴰ.append_left _ (
            Memᴰ.map (λ (o : Owned). (o.0, stale_prefix)) {a = (e, p)}
              ((Memᴰ-keep (λ (o : Owned). not (o.1.prefix == prefix)) (e, p)
                  (on_main (owned entries))).1
                (
                  (Memᴰ-on_main (e, p) (owned entries)).1 (owned-mem e p entries i q, m),
                  ⊎_elim (λ t. absurd (differs ((eq_iff p.prefix prefix).0 t))) (λ f. rw f)
                      (Bool-cases (p.prefix == prefix)),
                )))))
        old

kinds_differ : align_kind ≢ core_kind
unfolding starts_with
kinds_differ e = cc

first_newest-elim :
    (kind : Text) (shas : List (Text × Builds)) (i : ℕ)
    → ((s : Text) (c : Builds) → Memᴰ (s, c) shas → Newest kind s c)
    → Memᴰ i (first_newest kind shas)
    → (s : Text) × (c : Builds) × Memᴰ (s, c) shas × ((n : Newest kind s c) × (n.entry.id ≡ i))
unfolding first_newest
first_newest-elim kind [] i newest j = absurd (Memᴰ-nil j)
first_newest-elim kind ((s, c) ∷ shas) i newest j =
    let n = newest s c here in
    (s, c, here, (n, sym (Memᴰ.eq_of_singleton (rw (n.is_newest, first_newest) at j))))

-- Ids tell the entries of a listing apart.
abbrev pub IdsDiffer : List Entry → Type 0
IdsDiffer entries = (e f : Entry) → Memᴰ e entries → Memᴰ f entries → e.id ≡ f.id → e ≡ f

module _ (prefix : Text) (now : Instant) (closed_refs : List Text)
    (keep_align keep_core min_age : ℕ) (entries : List Entry) where
  abbrev items : List Owned
  items = current prefix (on_main (owned entries))

  -- A safe id is that of an align build, or of a core build whose sha has no align build.
  pub data Safe (i : ℕ) : Type 0 where
    safe_align :
        (m : Entry) (s : Text) → m.id ≡ i → MainBuild prefix entries align_kind s m → Safe i
    safe_core :
        (m : Entry) (s : Text)
        → m.id ≡ i
        → MainBuild prefix entries core_kind s m
        → ((a : Entry) → ¬ MainBuild prefix entries align_kind s a)
        → Safe i

  safe_ids-Safe :
      (i : ℕ)
      → Memᴰ i (safe_ids prefix now closed_refs keep_align keep_core min_age entries)
      → Safe i
  unfolding safe_ids protected
  safe_ids-Safe i j =
      ⊎_elim
        (λ k.
          let (s, c, l, (n, q)) =
            first_newest-elim align_kind (align_shas (by_sha items)) i
              (λ s c l.
                let (g, t) = (Memᴰ-align_shas (by_sha items) (s, c)).0 l in
                Newest-of_has align_kind s c (by_sha-IsTidy items s c g) t)
              k in
          safe_align n.entry s q (
            InGroups-MainBuild prefix entries (record {
              builds = c;
              entries = n.entries;
              group = ((Memᴰ-align_shas (by_sha items) (s, c)).0 l).0;
              build = n.build;
              entry = n.member;
            })))
        (λ k.
          let (s, c, l, (n, q)) =
            first_newest-elim core_kind (core_only (by_sha items)) i
              (λ s c l.
                let (g, _, t) = (Memᴰ-core_only (by_sha items) (s, c)).0 l in
                Newest-of_has core_kind s c (by_sha-IsTidy items s c g) t)
              k in
          let (g, lone, _) = (Memᴰ-core_only (by_sha items) (s, c)).0 l in
          safe_core n.entry s q
            (InGroups-MainBuild prefix entries (record {
              builds = c;
              entries = n.entries;
              group = g;
              build = n.build;
              entry = n.member;
            }))
            (lacks_align prefix entries s c g lone))
        (Memᴰ.append_cases (first_newest align_kind (align_shas (by_sha items))) j)

  -- Two readings of one entry agree.
  same_fields :
      {kind kind' s s' : Text} {e : Entry}
      → MainBuild prefix entries kind s e
      → MainBuild prefix entries kind' s' e
      → (kind ≡ kind') × (s ≡ s')
  same_fields h k =
      let q : h.fields ≡ k.fields = some-injective _ _ (sym h.parsed ∙ k.parsed) in
      (
        sym h.kind_is ∙ ap (λ (f : BuildKey). f.kind) q ∙ k.kind_is,
        sym h.sha_is ∙ ap (λ (f : BuildKey). f.sha) q ∙ k.sha_is,
      )

  superseded-not-Safe :
      {sha : Text} (e a : Entry)
      → IdsDiffer entries
      → MainBuild prefix entries core_kind sha e
      → MainBuild prefix entries align_kind sha a
      → ¬ Safe e.id
  superseded-not-Safe e a differ h k (safe_align m s q b) =
      let same : m ≡ e = differ m e b.listed h.listed q in
      kinds_differ (same_fields (subst (MainBuild prefix entries align_kind s) same b) h).0
  superseded-not-Safe e a differ h k (safe_core m s q b lone) =
      let same : m ≡ e = differ m e b.listed h.listed q in
      let shas = (same_fields (subst (MainBuild prefix entries core_kind s) same b) h).1 in
      lone a (subst (λ t. MainBuild prefix entries align_kind t a) (sym shas) k)

  abbrev planned : List Condemned
  planned = plan prefix now closed_refs keep_align keep_core min_age entries

  superseded_at-intro :
      (sha : Text) (b : Builds) (n e : Entry) (es : List Entry) (ids : List ℕ) (o : Option Entry)
      → o ≡ some n
      → is_young now min_age n ≡ false
      → lookup core_kind b ≡ some es
      → Memᴰ e es
      → contains ids e.id ≡ false
      → Memᴰ (e, superseded (take 8 sha)) (superseded_at now min_age ids (sha, b) o)
  unfolding superseded_at
  superseded_at-intro sha b n e es ids none q old l j free = cc
  superseded_at-intro sha b n e es ids (some a) q old l j free =
      let not_young : is_young now min_age a ≡ false = cc (some-injective _ _ q, old) in
      rw (not_young, superseded_at)
        (Memᴰ.map (λ x. (x, superseded (take 8 sha)))
          ((Memᴰ-unprotected ids e (or_else (lookup core_kind b) [])).1 (rw l j, free)))

  superseded_rule-mem :
      (sha : Text) (b : Builds) (n e : Entry) (es : List Entry) (ids : List ℕ)
      → Memᴰ (sha, b) (align_shas (by_sha items))
      → newest_of align_kind b ≡ some n
      → is_young now min_age n ≡ false
      → lookup core_kind b ≡ some es
      → Memᴰ e es
      → contains ids e.id ≡ false
      → Memᴰ
          (e, superseded (take 8 sha))
          (superseded_rule now min_age ids (align_shas (by_sha items)))
  unfolding superseded_rule
  superseded_rule-mem sha b n e es ids i q old l j free =
      (Memᴰ-gather
          (λ (g : Text × Builds). superseded_at now min_age ids g (newest_of align_kind g.1))
          (e, superseded (take 8 sha)) (align_shas (by_sha items))).1
        ((sha, b), i, superseded_at-intro sha b n e es ids (newest_of align_kind b) q old l j free)

  superseded-called :
      (d : Condemned)
      → Memᴰ d (
          superseded_rule now min_age
            (safe_ids prefix now closed_refs keep_align keep_core min_age entries)
            (align_shas (by_sha items)))
      → Memᴰ d (calls prefix now closed_refs keep_align keep_core min_age entries)
  unfolding calls
  superseded-called d i =
      Memᴰ.append_right (closed_rule closed_refs entries)
        (Memᴰ.append_right (stale_rule prefix (on_main (owned entries))) (Memᴰ.append_left _ i))

  -- Once every align build of a sha of main is old enough, the core builds of the sha that are old enough are
  -- in the plan, though one of them may be the newest core entry of main.
  pub plan_takes_superseded :
      (sha : Text) (e a : Entry)
      → IdsDiffer entries
      → MainBuild prefix entries core_kind sha e
      → MainBuild prefix entries align_kind sha a
      → ((x : Entry) → MainBuild prefix entries align_kind sha x → when x + minutes min_age ≤ now)
      → when e + minutes min_age ≤ now
      → HasId e.id planned
  plan_takes_superseded sha e a differ h k aligned_old old =
      let i = MainBuild-InGroups prefix entries h in
      let j = MainBuild-InGroups prefix entries k in
      let same : j.builds ≡ i.builds = some-injective _ _ (
        sym (lookup_of_mem (by_sha items) (by_sha-NodupKeys items) j.group)
        ∙ lookup_of_mem (by_sha items) (by_sha-NodupKeys items) i.group) in
      let tidy = by_sha-IsTidy items sha i.builds i.group in
      let has_align =
        (age_key-above align_kind sha i.builds j.entries a tidy
          (subst (λ b. Memᴰ (align_kind, j.entries) b) same j.build) j.entry).0 in
      let n = Newest-of_has align_kind sha i.builds tidy has_align in
      let n_build = InGroups-MainBuild prefix entries (record {
        builds = i.builds;
        entries = n.entries;
        group = i.group;
        build = n.build;
        entry = n.member;
      }) in
      let ids = safe_ids prefix now closed_refs keep_align keep_core min_age entries in
      let free : contains ids e.id ≡ false =
        ⊎_elim
          (λ t.
            absurd (
              superseded-not-Safe e a differ h k
                (safe_ids-Safe e.id ((contains_iff ids e.id).0 t))))
          (λ f. f) (Bool-cases (contains ids e.id)) in
      called-HasId prefix now closed_refs keep_align keep_core min_age entries
        (e, superseded (take 8 sha))
        (superseded-called _ (
          superseded_rule-mem sha i.builds n.entry e i.entries ids
            ((Memᴰ-align_shas (by_sha items) (sha, i.builds)).1 (i.group, has_align)) n.is_newest
            (not_young_of_Old now min_age n.entry (aligned_old n.entry n_build))
            (lookup_of_mem i.builds tidy.nodup i.build) i.entry free))
        old
