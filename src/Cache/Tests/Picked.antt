-- ===== src/Cache/Tests/Picked.antt =====
-- Choices of cache_pick.py, and a key that `parse_key` reads back.
use sp1_lean.Base.{
  ℕ, ◌+◌, ◌*◌, ◌-◌, ◌≤◌, ◌≡◌, ◌≢◌, refl, Bool, true, false, Option, none, some, List, [], ◌∷◌, ◌++◌,
  Memᴰ, arith, Text, String, codes, here, there, replicate, map, nat_eq, list_eq, option_eq, ◌==◌,
}
use sp1_lean.Cache.Key.{parse_key}
use sp1_lean.Cache.Entry.{Entry}
use sp1_lean.Base.{ltb, inl, inr, ◌∙◌, Memᴰ-nil, eq_iff, sym, subst, ap, take, ◌⊎◌}
use sp1_lean.Base.Order.{nat_order}
use sp1_lean.Base.{choose, all, length}
use sp1_lean.Cache.Key.Layout.{Layout, align_test, IsLayout, key_text, fields}
use sp1_lean.Cache.Key.RoundTrip.{parse_key-key_text}
use sp1_lean.Cache.Pick.{pr_mode, main_mode, on_main, Candidate, usable_entry, pick}
use sp1_lean.Cache.Pick.Usable.{at_main, IsUsable}
use sp1_lean.Cache.Pick.Choice.{Choice, pick-Choice, pick_finds}
use sp1_lean.Cache.Tests.{prefix, sha, core1, align1, core2, stale1, core2-parsed}

abbrev layout : Layout
layout = record {
  version = codes "2";
  os = codes "Linux";
  hash = replicate 64 b'a';
  mark = some align_test;
  pr = some (codes "12");
  sha = replicate 40 b'0';
  run = codes "10";
  attempt = codes "1";
}

layout-IsLayout : IsLayout layout
unfolding all
layout-IsLayout = record {
  version = record { within = refl; nonempty = λ e. cc e };
  os = record { within = refl; nonempty = λ e. cc e };
  hash = record { within = refl; size = refl };
  pr = record { within = refl; nonempty = λ e. cc e };
  sha = record { within = refl; size = refl };
  run = record { within = refl; nonempty = λ e. cc e };
  attempt = record { within = refl; nonempty = λ e. cc e };
}

parse_key-key_text_example : parse_key (key_text layout) ≡ some (fields layout)
parse_key-key_text_example = parse_key-key_text layout layout-IsLayout

abbrev listing : List Entry
listing = core1 ∷ align1 ∷ core2 ∷ stale1 ∷ []

abbrev lineage : List Text
lineage = sha 3 ∷ sha 1 ∷ sha 2 ∷ []

pick-listing : pick listing prefix main_mode lineage none ≡ some align1.key
unfolding pick sp1_lean.Base.Order.max_by sp1_lean.Base.keep sp1_lean.Base.choose parse_key
    sp1_lean.Base.list_beq sp1_lean.Base.contains sp1_lean.Base.option_beq
pick-listing = refl

pick-Choice_example :
    (u : Candidate) × (u.entry.key ≡ align1.key)
    × Memᴰ u.entry listing
    × IsUsable prefix main_mode none u
    × Choice (choose (usable_entry prefix main_mode none) listing) lineage u main_mode
pick-Choice_example = pick-Choice listing prefix main_mode lineage none align1.key pick-listing

abbrev core2_usable : Candidate
core2_usable = record {
  entry = core2;
  fields = record { prefix = prefix; kind = codes "core"; pr = none; sha = sha 2 };
  place = on_main;
}

pick_finds_example : pick listing prefix pr_mode lineage (some (codes "12")) ≢ none
pick_finds_example =
    pick_finds listing prefix pr_mode lineage (some (codes "12")) core2_usable (there (there here))
      (record {
        parsed = core2-parsed;
        prefix_is = refl;
        kind_is = inl refl;
        allowed = at_main refl refl;
      })
