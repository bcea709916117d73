-- ===== src/Cache/Tests/Plan.antt =====
-- The plan of cache_gc.py for the listings of the parent module.
use mathlib.Core.List.Memᴰ
use mathlib.Core.Logic.{⊎_elim}
use mathlib.Core.Option.{some-injective}
use sp1_lean.Base.{
  ℕ, ◌+◌, ◌*◌, ◌-◌, ◌≤◌, ◌≡◌, ◌≢◌, refl, Bool, true, false, Option, none, some, List, [], ◌∷◌, ◌++◌,
  Memᴰ, arith, Text, String, codes, here, there, replicate, map, nat_eq, list_eq, option_eq, ◌==◌,
}
use sp1_lean.Cache.Key.{BuildKey, parse_key}
use sp1_lean.Cache.Entry.{Stamp, Entry, when_stamp, when, minutes, main_ref, two_digits}
use sp1_lean.Base.{ltb, inl, inr, ◌∙◌, Memᴰ-nil, eq_iff, sym, subst, ap, take, ◌⊎◌}
use sp1_lean.Base.Order.{nat_order}
use sp1_lean.Base.Order.Sorting.{IsSorted, Apart}
use sp1_lean.Cache.Gc.Condemn.{HasId}
use sp1_lean.Cache.Gc.Safety
use sp1_lean.Cache.Gc.Safety.{plan_old, plan_order, plan_scope}
use sp1_lean.Cache.Gc.Complete.{IdsDiffer, plan_takes_superseded}
use sp1_lean.Cache.Gc.Protect.{
  MainBuild, IsNewestAlign, IsNewestCoreOnly, plan_spares_align, plan_spares_core_only,
}
use sp1_lean.Cache.Gc.{Reason, closed_ref, stale_prefix, superseded, Condemned, plan}
use sp1_lean.Cache.Tests.{
  now, prefix, old_prefix, at_time, sha, entry, is_old, core1, align1, core2, stale1, key1,
  align1-parsed, core2-parsed, core1-old, align1-old,
}

abbrev listing : List Entry
listing = core1 ∷ align1 ∷ core2 ∷ stale1 ∷ []

abbrev planned : List Condemned
planned = (stale1, stale_prefix) ∷ (core1, superseded (codes "00000000")) ∷ []

plan-listing : plan prefix now [] 5 2 10 listing ≡ planned
unfolding sp1_lean.Base.Order.Sorting.sort_by sp1_lean.Base.gather sp1_lean.Base.keep
    sp1_lean.Base.choose parse_key sp1_lean.Base.list_beq sp1_lean.Base.Order.Sorting.sort_down
    sp1_lean.Base.option_beq sp1_lean.Base.Dict.upsert sp1_lean.Base.Dict.has
    sp1_lean.Base.Dict.lookup sp1_lean.Base.Order.max_by when_stamp when sp1_lean.Base.contains
    sp1_lean.Base.starts_with sp1_lean.Base.any sp1_lean.Base.Order.Sorting.insert_by
    sp1_lean.Base.Order.Sorting.insert_down sp1_lean.Base.Order.max_from
    sp1_lean.Cache.Entry.days_before_month sp1_lean.Cache.Entry.is_leap sp1_lean.Cache.Entry.ordinal
    sp1_lean.Cache.Gc.add_build sp1_lean.Cache.Gc.age_key sp1_lean.Cache.Gc.align_shas
    sp1_lean.Cache.Gc.base_kind sp1_lean.Cache.Gc.by_sha sp1_lean.Cache.Gc.calls
    sp1_lean.Cache.Gc.closed_rule sp1_lean.Cache.Gc.condemn sp1_lean.Cache.Gc.condemn_all
    sp1_lean.Cache.Gc.core_only sp1_lean.Cache.Gc.current sp1_lean.Cache.Gc.first_newest
    sp1_lean.Cache.Gc.is_young sp1_lean.Cache.Gc.keep_sha sp1_lean.Cache.Gc.newest_of
    sp1_lean.Cache.Gc.on_main sp1_lean.Cache.Gc.owned sp1_lean.Cache.Gc.pr_at
    sp1_lean.Cache.Gc.pr_refs sp1_lean.Cache.Gc.pr_rule sp1_lean.Cache.Gc.protected
    sp1_lean.Cache.Gc.retention_rule sp1_lean.Cache.Gc.safe_ids sp1_lean.Cache.Gc.stale_rule
    sp1_lean.Cache.Gc.superseded_at sp1_lean.Cache.Gc.superseded_rule sp1_lean.Cache.Key.kind_part
    sp1_lean.Cache.Key.kind_re sp1_lean.Cache.Key.pr_part sp1_lean.Cache.Key.prefix_body
    sp1_lean.Cache.Key.prefix_re sp1_lean.Cache.Key.rest_re sp1_lean.Cache.Key.sha_part
    sp1_lean.Regex.captured sp1_lean.Regex.lit sp1_lean.Regex.match sp1_lean.Regex.run
    sp1_lean.Regex.run_end sp1_lean.Regex.run_many sp1_lean.Regex.times plan
plan-listing = refl

stale1-planned : Memᴰ (stale1, stale_prefix) (plan prefix now [] 5 2 10 listing)
stale1-planned = subst (Memᴰ (stale1, stale_prefix)) (sym plan-listing) here

plan_old_example : Memᴰ stale1 listing × (when stale1 + minutes 10 ≤ now)
plan_old_example = plan_old prefix now [] 5 2 10 listing (stale1, stale_prefix) stale1-planned

plan_order_example :
    IsSorted (λ (d : Condemned). when d.0) (plan prefix now [] 5 2 10 listing)
    × Apart (λ (c d : Condemned). d.0.id ≢ c.0.id) (plan prefix now [] 5 2 10 listing)
plan_order_example = plan_order prefix now [] 5 2 10 listing

plan_scope_example :
    Memᴰ stale1.ref []
    ⊎ ((p : BuildKey) × (parse_key stale1.key ≡ some p) × Safety.Place prefix stale1 p)
plan_scope_example = plan_scope prefix now [] 5 2 10 listing (stale1, stale_prefix) stale1-planned

abbrev pull1 : Entry
pull1 = entry 5 (codes "sail-toolchain") (codes "refs/pull/7/merge") (at_time 9 0)

pull1-old : ltb now (when pull1 + minutes 10) ≡ false
unfolding when when_stamp sp1_lean.Cache.Entry.ordinal sp1_lean.Cache.Entry.days_before_month
    sp1_lean.Cache.Entry.is_leap
pull1-old = refl

prefix_test : (old_prefix == prefix) ≡ false
unfolding sp1_lean.Base.list_beq
prefix_test = refl

prefixes_differ : old_prefix ≢ prefix
prefixes_differ e = cc (prefix_test, (eq_iff old_prefix prefix).1 e)

abbrev pub small : List Entry
small = core1 ∷ align1 ∷ core2 ∷ []

-- The entries of the listing, with their kind and their sha.
data Known (kind s : Text) (e : Entry) : Type 0 where
  core1_known : e ≡ core1 → kind ≡ codes "core" → s ≡ sha 1 → Known kind s e
  align1_known : e ≡ align1 → kind ≡ codes "align" → s ≡ sha 1 → Known kind s e
  core2_known : e ≡ core2 → kind ≡ codes "core" → s ≡ sha 2 → Known kind s e

parsed_as :
    {kind s : Text} {e f : Entry} {p : BuildKey}
    → MainBuild prefix small kind s e
    → e ≡ f
    → parse_key f.key ≡ some p
    → (kind ≡ p.kind) × (s ≡ p.sha)
parsed_as {e} {f} {p} h q r =
    let same : h.fields ≡ p =
      some-injective _ _ (sym h.parsed ∙ (ap (λ (x : Entry). parse_key x.key) q ∙ r)) in
    (
      sym h.kind_is ∙ ap (λ (x : BuildKey). x.kind) same,
      sym h.sha_is ∙ ap (λ (x : BuildKey). x.sha) same,
    )

known : {kind s : Text} (e : Entry) → MainBuild prefix small kind s e → Known kind s e
known e h = elim (Memᴰ.cases_cons h.listed) [
  | inl q ↦ let (k, s) = parsed_as h q key1 in core1_known q k s
  | inr t ↦ elim (Memᴰ.cases_cons t) [
    | inl q ↦ let (k, s) = parsed_as h q align1-parsed in align1_known q k s
    | inr u ↦
        let q = Memᴰ.eq_of_singleton u in
        let (k, s) = parsed_as h q core2-parsed in core2_known q k s
  ]
]

align1-MainBuild : MainBuild prefix small (codes "align") (sha 1) align1
align1-MainBuild = record {
  fields = record { prefix = prefix; kind = codes "align"; pr = none; sha = sha 1 };
  listed = there here;
  parsed = align1-parsed;
  on_main_ref = refl;
  prefix_is = refl;
  no_pr = refl;
  kind_is = refl;
  sha_is = refl;
}

core1-MainBuild : MainBuild prefix small (codes "core") (sha 1) core1
core1-MainBuild = record {
  fields = record { prefix = prefix; kind = codes "core"; pr = none; sha = sha 1 };
  listed = here;
  parsed = key1;
  on_main_ref = refl;
  prefix_is = refl;
  no_pr = refl;
  kind_is = refl;
  sha_is = refl;
}

core2-MainBuild : MainBuild prefix small (codes "core") (sha 2) core2
core2-MainBuild = record {
  fields = record { prefix = prefix; kind = codes "core"; pr = none; sha = sha 2 };
  listed = there (there here);
  parsed = core2-parsed;
  on_main_ref = refl;
  prefix_is = refl;
  no_pr = refl;
  kind_is = refl;
  sha_is = refl;
}

core_not_align : codes "core" ≢ codes "align"
core_not_align e = cc e

sha_test : (sha 1 == sha 2) ≡ false
unfolding sp1_lean.Base.list_beq
sha_test = refl

shas_differ : sha 1 ≢ sha 2
shas_differ e = cc (sha_test, (eq_iff (sha 1) (sha 2)).1 e)

-- Of the listing, only one entry is an align build.
only_align : (e : Entry) (s : Text) → Known (codes "align") s e → e ≡ align1
only_align e s (core1_known q k t) = absurd (core_not_align (sym k))
only_align e s (align1_known q k t) = q
only_align e s (core2_known q k t) = absurd (core_not_align (sym k))

align1-IsNewestAlign : IsNewestAlign prefix small align1 (sha 1)
align1-IsNewestAlign = record {
  is_build = align1-MainBuild;
  only = λ e s h later. only_align e s (known e h);
}

plan_spares_align_example :
    ¬ ((d : Condemned) × Memᴰ d (plan prefix now [] 5 2 10 small) × (d.0 ≡ align1))
plan_spares_align_example =
    plan_spares_align prefix now [] 5 2 10 small align1 (sha 1) align1-IsNewestAlign
      (λ m. Memᴰ-nil m)

core2-IsNewestCoreOnly : IsNewestCoreOnly prefix small core2 (sha 2)
core2-IsNewestCoreOnly = record {
  is_build = core2-MainBuild;
  no_align = λ a h. not_aligned a (known a h);
  only = λ e s h lone later. only_core e s (known e h) lone;
}
  where
    not_aligned : (a : Entry) → ¬ Known (codes "align") (sha 2) a
    not_aligned a (core1_known q k t) = core_not_align (sym k)
    not_aligned a (align1_known q k t) = shas_differ (sym t)
    not_aligned a (core2_known q k t) = core_not_align (sym k)

    only_core :
        (e : Entry) (s : Text)
        → Known (codes "core") s e
        → ((a : Entry) → ¬ MainBuild prefix small (codes "align") s a)
        → e ≡ core2
    only_core e s (core1_known q k t) lone = absurd (
        lone align1
          (subst (λ r. MainBuild prefix small (codes "align") r align1) (sym t) align1-MainBuild))
    only_core e s (align1_known q k t) lone = absurd (core_not_align k)
    only_core e s (core2_known q k t) lone = q

plan_spares_core_only_example :
    ¬ ((d : Condemned) × Memᴰ d (plan prefix now [] 5 2 10 small) × (d.0 ≡ core2))
plan_spares_core_only_example =
    plan_spares_core_only prefix now [] 5 2 10 small core2 (sha 2) core2-IsNewestCoreOnly
      (λ m. Memᴰ-nil m)

pub small-IdsDiffer : IdsDiffer small
small-IdsDiffer e f i j q = go (place e i) (place f j)
  where
    place : (x : Entry) → Memᴰ x small → (x ≡ core1) ⊎ ((x ≡ align1) ⊎ (x ≡ core2))
    place x m =
        ⊎_elim inl (λ t. inr (⊎_elim inl (λ u. inr (Memᴰ.eq_of_singleton u)) (Memᴰ.cases_cons t)))
          (Memᴰ.cases_cons m)

    id_of : {x y : Entry} → x ≡ y → x.id ≡ y.id
    id_of r = ap (λ (z : Entry). z.id) r

    go :
        (e ≡ core1) ⊎ ((e ≡ align1) ⊎ (e ≡ core2))
        → (f ≡ core1) ⊎ ((f ≡ align1) ⊎ (f ≡ core2))
        → e ≡ f
    go (inl a) (inl b) = a ∙ sym b
    go (inl a) (inr (inl b)) = absurd (omega (arith, id_of a, id_of b, q))
    go (inl a) (inr (inr b)) = absurd (omega (arith, id_of a, id_of b, q))
    go (inr (inl a)) (inl b) = absurd (omega (arith, id_of a, id_of b, q))
    go (inr (inl a)) (inr (inl b)) = a ∙ sym b
    go (inr (inl a)) (inr (inr b)) = absurd (omega (arith, id_of a, id_of b, q))
    go (inr (inr a)) (inl b) = absurd (omega (arith, id_of a, id_of b, q))
    go (inr (inr a)) (inr (inl b)) = absurd (omega (arith, id_of a, id_of b, q))
    go (inr (inr a)) (inr (inr b)) = a ∙ sym b

plan_takes_superseded_example : HasId 1 (plan prefix now [] 5 2 10 small)
plan_takes_superseded_example =
    plan_takes_superseded prefix now [] 5 2 10 small (sha 1) core1 align1 small-IdsDiffer
      core1-MainBuild align1-MainBuild
      (λ x h.
        subst (λ y. when y + minutes 10 ≤ now) (sym (only_align x (sha 1) (known x h)))
          (is_old align1 align1-old))
      (is_old core1 core1-old)
