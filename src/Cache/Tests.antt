-- ===== src/Cache/Tests.antt =====
-- Listings in the manner of scripts/tests/test_cache_gc.py and scripts/tests/test_cache_pick.py.
mod Plan
mod Picked
mod Swept
use mathlib.Core.List.Memᴰ
use mathlib.Core.Logic.{⊎_elim}
use mathlib.Core.Option.{some-injective}
use sp1_lean.Base.{
  ℕ, ◌+◌, ◌*◌, ◌-◌, ◌≤◌, ◌≡◌, ◌≢◌, refl, Bool, true, false, Option, none, some, List, [], ◌∷◌, ◌++◌,
  Memᴰ, arith, Text, String, codes, here, there, replicate, map, nat_eq, list_eq, option_eq, ◌==◌,
}
use sp1_lean.Cache.Key.{BuildKey, parse_key}
use sp1_lean.Cache.Entry.{Stamp, Entry, when_stamp, when, minutes, main_ref, two_digits}
use sp1_lean.Base.{ltb, inl, inr, ◌∙◌, Memᴰ-nil, eq_iff, sym, subst, ap, take, ◌⊎◌}
use sp1_lean.Base.Order.{nat_order}
use sp1_lean.Base.Order.Sorting.{IsSorted, Apart}
use sp1_lean.Cache.Gc.Condemn.{HasId}
use sp1_lean.Cache.Gc.Safety
use sp1_lean.Cache.Gc.Safety.{plan_old, plan_order, plan_scope}
use sp1_lean.Cache.Gc.Complete.{IdsDiffer, plan_takes_closed, plan_takes_superseded}
use sp1_lean.Cache.Gc.Protect.{
  MainBuild, IsNewestAlign, IsNewestCoreOnly, plan_spares_align, plan_spares_core_only,
}
use sp1_lean.Cache.Gc.{Reason, closed_ref, stale_prefix, superseded, Condemned, plan}

-- A moment of one day.
abbrev pub at_time : ℕ → ℕ → Stamp
at_time hour minute = record {
  year = 2026;
  month = 9;
  day = 22;
  hour = hour;
  minute = minute;
  second = 0;
  fraction = codes "12345";
}

abbrev pub now : ℕ
now = when_stamp (at_time 12 0)

abbrev pub prefix : Text
prefix = codes "sp1-v2-Linux-" ++ replicate 64 b'a'

abbrev pub old_prefix : Text
old_prefix = codes "sp1-v1-Linux-" ++ replicate 64 b'b'

abbrev pub sha : ℕ → Text
sha n = replicate 38 b'0' ++ two_digits n

-- Older than ten minutes.
pub is_old : (e : Entry) → ltb now (when e + minutes 10) ≡ false → when e + minutes 10 ≤ now
is_old e h = ground arith

abbrev pub key_at : Text → String → ℕ → Text
key_at p kind n = p ++ (codes kind ++ (sha n ++ codes "-10-1"))

abbrev pub entry : ℕ → Text → Text → Stamp → Entry
entry id key ref created_at = record {
  id = id;
  key = key;
  ref = ref;
  created_at = created_at;
  size_in_bytes = 800000000;
}

abbrev pub core1 : Entry
core1 = entry 1 (key_at prefix "-core-" 1) main_ref (at_time 7 0)

abbrev pub align1 : Entry
align1 = entry 2 (key_at prefix "-align-" 1) main_ref (at_time 8 0)

abbrev pub core2 : Entry
core2 = entry 3 (key_at prefix "-core-" 2) main_ref (at_time 11 0)

abbrev pub stale1 : Entry
stale1 = entry 4 (key_at old_prefix "-align-" 9) main_ref (at_time 6 0)

pub key1 :
    parse_key core1.key
    ≡ some (record { prefix = prefix; kind = codes "core"; pr = none; sha = sha 1 })
unfolding parse_key sp1_lean.Base.list_beq sp1_lean.Cache.Key.kind_part sp1_lean.Cache.Key.kind_re
    sp1_lean.Cache.Key.pr_part sp1_lean.Cache.Key.prefix_body sp1_lean.Cache.Key.prefix_re
    sp1_lean.Cache.Key.rest_re sp1_lean.Cache.Key.sha_part sp1_lean.Regex.captured
    sp1_lean.Regex.lit sp1_lean.Regex.match sp1_lean.Regex.run sp1_lean.Regex.run_end
    sp1_lean.Regex.run_many sp1_lean.Regex.times
key1 = refl

pub stale1-parsed :
    parse_key stale1.key
    ≡ some (record { prefix = old_prefix; kind = codes "align"; pr = none; sha = sha 9 })
unfolding parse_key sp1_lean.Base.list_beq sp1_lean.Cache.Key.kind_part sp1_lean.Cache.Key.kind_re
    sp1_lean.Cache.Key.pr_part sp1_lean.Cache.Key.prefix_body sp1_lean.Cache.Key.prefix_re
    sp1_lean.Cache.Key.rest_re sp1_lean.Cache.Key.sha_part sp1_lean.Regex.captured
    sp1_lean.Regex.lit sp1_lean.Regex.match sp1_lean.Regex.run sp1_lean.Regex.run_end
    sp1_lean.Regex.run_many sp1_lean.Regex.times
stale1-parsed = refl

pub align1-parsed :
    parse_key align1.key
    ≡ some (record { prefix = prefix; kind = codes "align"; pr = none; sha = sha 1 })
unfolding parse_key sp1_lean.Base.list_beq sp1_lean.Cache.Key.kind_part sp1_lean.Cache.Key.kind_re
    sp1_lean.Cache.Key.pr_part sp1_lean.Cache.Key.prefix_body sp1_lean.Cache.Key.prefix_re
    sp1_lean.Cache.Key.rest_re sp1_lean.Cache.Key.sha_part sp1_lean.Regex.captured
    sp1_lean.Regex.lit sp1_lean.Regex.match sp1_lean.Regex.run sp1_lean.Regex.run_end
    sp1_lean.Regex.run_many sp1_lean.Regex.times
align1-parsed = refl

pub core2-parsed :
    parse_key core2.key
    ≡ some (record { prefix = prefix; kind = codes "core"; pr = none; sha = sha 2 })
unfolding parse_key sp1_lean.Base.list_beq sp1_lean.Cache.Key.kind_part sp1_lean.Cache.Key.kind_re
    sp1_lean.Cache.Key.pr_part sp1_lean.Cache.Key.prefix_body sp1_lean.Cache.Key.prefix_re
    sp1_lean.Cache.Key.rest_re sp1_lean.Cache.Key.sha_part sp1_lean.Regex.captured
    sp1_lean.Regex.lit sp1_lean.Regex.match sp1_lean.Regex.run sp1_lean.Regex.run_end
    sp1_lean.Regex.run_many sp1_lean.Regex.times
core2-parsed = refl

pub core1-old : ltb now (when core1 + minutes 10) ≡ false
unfolding when when_stamp sp1_lean.Cache.Entry.ordinal sp1_lean.Cache.Entry.days_before_month
    sp1_lean.Cache.Entry.is_leap
core1-old = refl

pub align1-old : ltb now (when align1 + minutes 10) ≡ false
unfolding when when_stamp sp1_lean.Cache.Entry.ordinal sp1_lean.Cache.Entry.days_before_month
    sp1_lean.Cache.Entry.is_leap
align1-old = refl

pub stale1-old : ltb now (when stale1 + minutes 10) ≡ false
unfolding when when_stamp sp1_lean.Cache.Entry.ordinal sp1_lean.Cache.Entry.days_before_month
    sp1_lean.Cache.Entry.is_leap
stale1-old = refl
