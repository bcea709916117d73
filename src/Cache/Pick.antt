-- ===== src/Cache/Pick.antt =====
-- scripts/ci/cache_pick.py: `pick`, over the listing and the keys of the sibling modules.
pub mod Usable
pub mod Choice
use sp1_lean.Base.{
  ℕ, ◌≡◌, Bool, true, false, not, ◌&&◌, ◌||◌, Option, none, some, List, [], ◌∷◌, ◌++◌, map, Text,
  codes, nat_eq, list_eq, option_eq, ◌==◌, contains, keep, choose, if◌then◌else◌, ◌>>=◌,
}
use sp1_lean.Base.Order.{max_by, text_order}
use sp1_lean.Cache.Key.{BuildKey, parse_key}
use sp1_lean.Cache.Entry.{Entry, created_text, main_ref}

pub data Mode : Type 0 where
  pr_mode main_mode : Mode

pub data Place : Type 0 where
  on_main own : Place

unfoldable pub same_place : Place → Place → Bool
same_place on_main on_main = true
same_place own own = true
same_place _ _ = false

pub record Candidate : Type 0 where
  pub entry : Entry
  pub fields : BuildKey
  pub place : Place

abbrev pub align_kind : Text
align_kind = codes "align"

abbrev pub core_kind : Text
core_kind = codes "core"

unfoldable pub merge_ref : Text → Text
merge_ref n = codes "refs/pull/" ++ (n ++ codes "/merge")

-- `mode == "pr" and pr and ref == f"refs/pull/{pr}/merge" and p["pr"] == pr`
unfoldable pub is_own : Mode → Option Text → Entry → BuildKey → Bool
unfolding merge_ref
is_own main_mode pr e p = false
is_own pr_mode none e p = false
is_own pr_mode (some n) e p = not (n == []) && (e.ref == merge_ref n && p.pr == some n)

unfoldable pub place_of : Mode → Option Text → Entry → BuildKey → Option Place
unfolding is_own
place_of mode pr e p =
    if e.ref == main_ref && p.pr == none
    then some on_main
    else if is_own mode pr e p
    then some own
    else none

unfoldable pub usable_entry : Text → Mode → Option Text → Entry → Option Candidate
unfolding place_of
usable_entry prefix mode pr e = do
  p ← parse_key e.key
  if p.prefix == prefix && contains (core_kind ∷ align_kind ∷ []) p.kind
      then (do w ← place_of mode pr e p; some (record { entry = e; fields = p; place = w }))
      else none

-- The filter of `newest`; `sha` None stands for any sha.
unfoldable pub wanted : Place → Text → Option Text → Candidate → Bool
unfolding same_place
wanted place kind none u = same_place u.place place && u.fields.kind == kind
wanted place kind (some sha) u =
    same_place u.place place && (u.fields.kind == kind && u.fields.sha == sha)

abbrev pub created : Candidate → Text
created u = created_text u.entry.created_at

-- `newest(where, kind, sha)`
unfoldable pub newest : List Candidate → Place → Text → Option Text → Option Candidate
unfolding wanted
newest usable place kind sha = max_by created (keep (wanted place kind sha) usable)

-- `for kind in ("align", "core")`: the first that is found
unfoldable pub newest_build : List Candidate → Place → Option Text → Option Candidate
unfolding newest
newest_build usable place sha = elim (newest usable place align_kind sha) [
  | some u ↦ some u
  | none ↦ newest usable place core_kind sha
]

-- The shas of the lineage in turn, and then any sha.
unfoldable pub from_lineage : List Candidate → List Text → Option Candidate
unfolding newest_build
from_lineage usable [] = newest_build usable on_main none
from_lineage usable (sha ∷ lineage) = elim (newest_build usable on_main (some sha)) [
  | some u ↦ some u
  | none ↦ from_lineage usable lineage
]

unfoldable pub pick_entry : List Candidate → Mode → List Text → Option Candidate
unfolding from_lineage
pick_entry usable main_mode lineage = from_lineage usable lineage
pick_entry usable pr_mode lineage = elim (newest_build usable own none) [
  | some u ↦ some u
  | none ↦ from_lineage usable lineage
]

unfoldable pub pick : List Entry → Text → Mode → List Text → Option Text → Option Text
unfolding usable_entry pick_entry
pick entries prefix mode lineage pr = do
  u ← pick_entry (choose (usable_entry prefix mode pr) entries) mode lineage
  some u.entry.key
