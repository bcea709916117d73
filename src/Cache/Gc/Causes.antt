-- ===== src/Cache/Gc/Causes.antt =====
-- Which entries the rules of `plan` can reach.
use mathlib.Core.List.Memᴰ
use mathlib.Core.Option.{some-injective}
use sp1_lean.Base.{
  ℕ, ◌≡◌, ◌≢◌, refl, sym, ap, subst, true, false, not, ◌&&◌, ◌↔◌, inl, inr, Option, none, some,
  List, [], map, Memᴰ, arith, Text, nat_eq, list_eq, option_eq, ◌==◌, eq_iff, contains, keep,
  gather, drop, take, or_else, ◌>>=◌, Bool-cases, Memᴰ-nil, Memᴰ-keep, Memᴰ-gather, Memᴰ-choose,
  Memᴰ-drop,
}
use sp1_lean.Base.Dict.{has, lookup, mem_of_lookup}
use sp1_lean.Base.Order.{nat_order}
use sp1_lean.Base.Order.Sorting.{Memᴰ-sort_down}
use sp1_lean.Cache.Key.{BuildKey, parse_key}
use sp1_lean.Cache.Entry.{Entry, Instant, main_ref}
use sp1_lean.Cache.Gc.{
  Reason, closed_ref, stale_prefix, superseded, old_align, old_core, Condemned, Owned, Builds,
  Groups, is_young, owned, on_main, closed_rule, stale_rule, current, by_sha, newest_of, align_kind,
  core_kind, age_key, align_shas, core_only, unprotected, superseded_at, superseded_rule,
  retention_rule, safe_ids, calls,
}
use sp1_lean.Cache.Gc.Groups.{InGroups, by_sha_sound}
use sp1_lean.Cache.Gc.Pulls.{OnPull, Memᴰ-pr_rule}

owned_item :
    (e : Entry) (p : BuildKey) (x : Entry) (entries : List Entry)
    → Memᴰ x entries
    → (o : Option BuildKey) → parse_key x.key ≡ o
    → ◌>>=◌ {B = Owned} o (λ f. some (x, f)) ≡ some (e, p)
    → Memᴰ e entries × (parse_key e.key ≡ some p)
owned_item e p x entries j none s q = cc
owned_item e p x entries j (some f) s q =
    let both : ◌≡◌ {A = Owned} (x, f) (e, p) = some-injective _ _ q in
    let same : x ≡ e = ap (λ (o : Owned). o.0) both in
    let fields : f ≡ p = ap (λ (o : Owned). o.1) both in
    (subst (λ y. Memᴰ y entries) same j, cc (ap (λ (y : Entry). parse_key y.key) same))

-- `owned` pairs an entry with what its key says.
pub Memᴰ-owned :
    (e : Entry) (p : BuildKey) (entries : List Entry)
    → Memᴰ (e, p) (owned entries)
    → Memᴰ e entries × (parse_key e.key ≡ some p)
unfolding owned
Memᴰ-owned e p entries i =
    let (x, j, q) = (Memᴰ-choose (λ x. parse_key x.key >>= λ f. some (x, f)) (e, p) entries).0 i in
    owned_item e p x entries j (parse_key x.key) refl q

-- The converse.
pub owned-mem :
    (e : Entry) (p : BuildKey) (entries : List Entry)
    → Memᴰ e entries
    → parse_key e.key ≡ some p
    → Memᴰ (e, p) (owned entries)
unfolding owned
owned-mem e p entries i q =
    (Memᴰ-choose (λ x. parse_key x.key >>= λ f. some (x, f)) (e, p) entries).1 (e, i, rw q)

pub Memᴰ-on_main :
    (o : Owned) (os : List Owned) → Memᴰ o (on_main os) ↔ (Memᴰ o os × (o.0.ref ≡ main_ref))
unfolding on_main
Memᴰ-on_main o os =
    ground (arith, Memᴰ-keep (λ (x : Owned). x.0.ref == main_ref) o os, eq_iff o.0.ref main_ref)

pub Memᴰ-current :
    (prefix : Text) (o : Owned) (os : List Owned)
    → Memᴰ o (current prefix os) ↔ (Memᴰ o os × (o.1.prefix ≡ prefix) × (o.1.pr ≡ none))
unfolding current
Memᴰ-current prefix o os = ground (
  arith,
  Memᴰ-keep (λ (x : Owned). x.1.prefix == prefix && x.1.pr == none) o os,
  eq_iff o.1.prefix prefix,
  eq_iff o.1.pr none,
)

Memᴰ-closed_rule :
    (refs : List Text) (entries : List Entry) (d : Condemned)
    → Memᴰ d (closed_rule refs entries)
    → Memᴰ d.0 entries × Memᴰ d.0.ref refs × (d.1 ≡ closed_ref d.0.ref)
unfolding closed_rule
Memᴰ-closed_rule refs entries d i =
    let (ref, j, k) =
      (Memᴰ-gather (λ r. map (λ e. (e, closed_ref r)) (keep (λ e. e.ref == r) entries)) d refs).0
        i in
    let (e, l, q) = Memᴰ.of_map (λ e. (e, closed_ref ref)) (keep (λ e. e.ref == ref) entries) k in
    let (m, t) = (Memᴰ-keep (λ (x : Entry). x.ref == ref) e entries).0 l in
    let at_ref = (eq_iff e.ref ref).0 t in
    subst (λ (c : Condemned). Memᴰ c.0 entries × Memᴰ c.0.ref refs × (c.1 ≡ closed_ref c.0.ref)) q
      (m, Memᴰ.cast at_ref j, ap closed_ref (sym at_ref))

Memᴰ-stale_rule :
    (prefix : Text) (main : List Owned) (d : Condemned)
    → Memᴰ d (stale_rule prefix main)
    → (p : BuildKey) × Memᴰ (d.0, p) main × (p.prefix ≢ prefix)
unfolding stale_rule
Memᴰ-stale_rule prefix main d i =
    let ((e, p), j, q) =
      Memᴰ.of_map (λ (o : Owned). (o.0, stale_prefix)) (keep (λ o. not (o.1.prefix == prefix)) main)
        i in
    let (m, t) = (Memᴰ-keep (λ (o : Owned). not (o.1.prefix == prefix)) (e, p) main).0 j in
    subst (λ (c : Condemned). (f : BuildKey) × Memᴰ (c.0, f) main × (f.prefix ≢ prefix)) q
      (p, m, λ same. cc (t, (eq_iff p.prefix prefix).1 same))

pub Memᴰ-unprotected :
    (ids : List ℕ) (e : Entry) (es : List Entry)
    → Memᴰ e (unprotected ids es) ↔ (Memᴰ e es × (contains ids e.id ≡ false))
Memᴰ-unprotected ids e es = ground (arith, Memᴰ-keep (λ (x : Entry). not (contains ids x.id)) e es)

module _ (groups : Groups) (g : Text × Builds) where
  pub Memᴰ-align_shas : Memᴰ g (align_shas groups) ↔ (Memᴰ g groups × (has align_kind g.1 ≡ true))
  unfolding align_shas
  Memᴰ-align_shas = ground (
    arith,
    Memᴰ-sort_down (age_key align_kind) g (keep (λ (x : Text × Builds). has align_kind x.1) groups),
    Memᴰ-keep (λ (x : Text × Builds). has align_kind x.1) g groups,
  )

  pub Memᴰ-core_only :
      Memᴰ g (core_only groups)
      ↔ (Memᴰ g groups × (has align_kind g.1 ≡ false) × (has core_kind g.1 ≡ true))
  unfolding core_only
  Memᴰ-core_only = ground (
    arith,
    Memᴰ-sort_down (age_key core_kind) g
        (keep (λ (x : Text × Builds). not (has align_kind x.1) && has core_kind x.1) groups),
    Memᴰ-keep (λ (x : Text × Builds). not (has align_kind x.1) && has core_kind x.1) g groups,
  )

module _ (groups : Groups) (ids : List ℕ) where
  -- What rules 1 and 2 name stands in the groups and is not protected.
  Memᴰ-retention_rule :
      (n : ℕ) (reason : Reason) (shas : List (Text × Builds)) (d : Condemned)
      → ((g : Text × Builds) → Memᴰ g shas → Memᴰ g groups)
      → Memᴰ d (retention_rule n reason ids shas)
      → (sha kind : Text) × InGroups groups sha kind d.0 × (contains ids d.0.id ≡ false)
  unfolding retention_rule
  Memᴰ-retention_rule n reason shas d sub i =
      let ((sha, builds), j, k) =
        (Memᴰ-gather
            (λ (g : Text × Builds).
              gather (λ (b : Text × List Entry). map (λ e. (e, reason)) (unprotected ids b.1)) g.1)
            d (drop n shas)).0
          i in
      let ((kind, es), l, m) =
        (Memᴰ-gather (λ (b : Text × List Entry). map (λ e. (e, reason)) (unprotected ids b.1)) d
            builds).0
          k in
      let (e, o, q) = Memᴰ.of_map (λ e. (e, reason)) (unprotected ids es) m in
      let (r, free) = (Memᴰ-unprotected ids e es).0 o in
      subst
        (λ (c : Condemned).
          (sha kind : Text) × InGroups groups sha kind c.0 × (contains ids c.0.id ≡ false))
        q
        (
          sha,
          kind,
          record {
            builds = builds;
            entries = es;
            group = sub (sha, builds) (Memᴰ-drop n _ shas j);
            build = l;
            entry = r;
          },
          free,
        )

  superseded_at-mem :
      (now : Instant) (min_age : ℕ) (g : Text × Builds) (o : Option Entry) (d : Condemned)
      → Memᴰ d (superseded_at now min_age ids g o)
      → Memᴰ d.0 (or_else (lookup core_kind g.1) []) × (contains ids d.0.id ≡ false)
  unfolding superseded_at
  superseded_at-mem now min_age g none d i = absurd (Memᴰ-nil i)
  superseded_at-mem now min_age g (some a) d i = elim (Bool-cases (is_young now min_age a)) [
    | inl young ↦ absurd (Memᴰ-nil (rw (young, superseded_at) at i))
    | inr old ↦
        let (e, j, q) =
          Memᴰ.of_map (λ e. (e, superseded (take 8 g.0)))
            (unprotected ids (or_else (lookup core_kind g.1) [])) (rw (old, superseded_at) at i) in
        subst
          (λ (c : Condemned).
            Memᴰ c.0 (or_else (lookup core_kind g.1) []) × (contains ids c.0.id ≡ false))
          q ((Memᴰ-unprotected ids e _).0 j)
  ]

  Memᴰ-superseded_rule :
      (now : Instant) (min_age : ℕ) (shas : List (Text × Builds)) (d : Condemned)
      → ((g : Text × Builds) → Memᴰ g shas → Memᴰ g groups)
      → Memᴰ d (superseded_rule now min_age ids shas)
      → (sha kind : Text) × InGroups groups sha kind d.0 × (contains ids d.0.id ≡ false)
  unfolding superseded_rule
  Memᴰ-superseded_rule now min_age shas d sub i =
      let ((sha, builds), j, k) =
        (Memᴰ-gather
            (λ (g : Text × Builds). superseded_at now min_age ids g (newest_of align_kind g.1)) d
            shas).0
          i in
      let (l, free) =
        superseded_at-mem now min_age (sha, builds) (newest_of align_kind builds) d k in
      go sha builds (sub (sha, builds) j) (lookup core_kind builds) refl l free
    where
      go :
          (sha : Text) (builds : Builds)
          → Memᴰ (sha, builds) groups
          → (o : Option (List Entry)) → lookup core_kind builds ≡ o
          → Memᴰ d.0 (or_else o [])
          → contains ids d.0.id ≡ false
          → (sha kind : Text) × InGroups groups sha kind d.0 × (contains ids d.0.id ≡ false)
      go sha builds j none q l free = absurd (Memᴰ-nil l)
      go sha builds j (some es) q l free = (
        sha,
        core_kind,
        record {
          builds = builds;
          entries = es;
          group = j;
          build = mem_of_lookup builds q;
          entry = l;
        },
        free,
      )

-- Why an entry may be condemned.
pub data Cause (prefix : Text) (closed_refs : List Text) (entries : List Entry) (ids : List ℕ)
    (e : Entry) : Type 0 where
  closed : Memᴰ e entries → Memᴰ e.ref closed_refs → Cause prefix closed_refs entries ids e
  stale :
      (p : BuildKey)
      → Memᴰ (e, p) (on_main (owned entries))
      → p.prefix ≢ prefix
      → Cause prefix closed_refs entries ids e
  build :
      (p : BuildKey)
      → Memᴰ (e, p) (current prefix (on_main (owned entries)))
      → contains ids e.id ≡ false
      → Cause prefix closed_refs entries ids e
  pull :
      (p : BuildKey)
      → OnPull prefix (owned entries) e.ref (e, p)
      → Cause prefix closed_refs entries ids e

module _ (prefix : Text) (now : Instant) (closed_refs : List Text)
    (keep_align keep_core min_age : ℕ) (entries : List Entry) where
  abbrev ids : List ℕ
  ids = safe_ids prefix now closed_refs keep_align keep_core min_age entries

  abbrev builds : Groups
  builds = by_sha (current prefix (on_main (owned entries)))

  abbrev Reached : Condemned → Type 0
  Reached d = Cause prefix closed_refs entries ids d.0

  from_groups :
      (d : Condemned)
      → (sha kind : Text) × InGroups builds sha kind d.0 × (contains ids d.0.id ≡ false)
      → Reached d
  from_groups d (sha, kind, i, free) =
      let f = by_sha_sound (current prefix (on_main (owned entries))) i in
      build f.fields f.item free

  -- Each call of `condemn` has a cause.
  pub calls-Cause :
      (d : Condemned)
      → Memᴰ d (calls prefix now closed_refs keep_align keep_core min_age entries)
      → Reached d
  unfolding calls
  calls-Cause d i =
      let aligned = align_shas builds in
      let in_aligned =
        λ (g : Text × Builds) (j : Memᴰ g aligned). ((Memᴰ-align_shas builds g).0 j).0 in
      let cores = core_only builds in
      let in_cores = λ (g : Text × Builds) (j : Memᴰ g cores). ((Memᴰ-core_only builds g).0 j).0 in
      elim (Memᴰ.append_cases (closed_rule closed_refs entries) i) [
        | inl a ↦ let (m, r, _) = Memᴰ-closed_rule closed_refs entries d a in closed m r
        | inr b ↦ elim (Memᴰ.append_cases (stale_rule prefix (on_main (owned entries))) b) [
          | inl a ↦
              let (p, m, h) = Memᴰ-stale_rule prefix (on_main (owned entries)) d a in stale p m h
          | inr c ↦ elim (Memᴰ.append_cases (superseded_rule now min_age ids aligned) c) [
            | inl a ↦
                from_groups d (Memᴰ-superseded_rule builds ids now min_age aligned d in_aligned a)
            | inr f ↦
                elim (Memᴰ.append_cases
                  (retention_rule keep_align (old_align keep_align) ids aligned) f) [
                    | inl a ↦ from_groups d (
                        Memᴰ-retention_rule builds ids keep_align (old_align keep_align) aligned d
                          in_aligned a)
                    | inr g ↦
                        elim (Memᴰ.append_cases
                          (retention_rule keep_core (old_core keep_core) ids cores) g) [
                            | inl a ↦ from_groups d (
                                Memᴰ-retention_rule builds ids keep_core (old_core keep_core) cores
                                  d in_cores a)
                            | inr a ↦
                                let (p, h) = Memᴰ-pr_rule prefix (owned entries) d a in pull p h
                          ]
                  ]
          ]
        ]
      ]
