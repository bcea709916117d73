-- ===== src/Cache/Gc.antt =====
-- scripts/ci/cache_gc.py: `plan`. Each rule lists the calls of `condemn` that it makes, in order; the
-- calls are then carried out one after the other. Ages and the numbers to keep are not negative.
pub mod Condemn
pub mod Groups
pub mod Pulls
pub mod Causes
pub mod Safety
pub mod Tidy
pub mod Protect
pub mod Complete
use mathlib.Core.List.{foldl, head?}
use sp1_lean.Base.{
  ℕ, zero, suc, ◌+◌, Bool, true, false, not, ◌&&◌, ◌||◌, Option, none, some, List, [], ◌∷◌, ◌++◌,
  map, Text, codes, ltb, ◌==◌, nat_eq, list_eq, option_eq, contains, if◌then◌else◌, keep, gather,
  choose, any, take, drop, ◌>>=◌, or_else, starts_with,
}
use sp1_lean.Base.Dict.{Dict, lookup, has, upsert}
use sp1_lean.Base.Order.{max_by, nat_order}
use sp1_lean.Base.Order.Sorting.{sort_by, sort_down}
use sp1_lean.Cache.Key.{BuildKey, parse_key}
use sp1_lean.Cache.Entry.{Entry, Instant, when, minutes, main_ref}

-- Why an entry goes, with the values that the message shows.
pub data Reason : Type 0 where
  closed_ref : Text → Reason
  stale_prefix : Reason
  superseded : Text → Reason
  old_align old_core : ℕ → Reason
  older_build : Text → Text → Reason

abbrev pub Condemned : Type 0
Condemned = Entry × Reason

abbrev pub Owned : Type 0
Owned = Entry × BuildKey

abbrev pub Builds : Type 0
Builds = Dict Text (List Entry)

abbrev pub Groups : Type 0
Groups = Dict Text Builds

module _ (now : Instant) (min_age : ℕ) where
  -- `now - _when(entry) < min_age`
  unfoldable pub is_young : Entry → Bool
  is_young e = ltb now (when e + minutes min_age)

  unfoldable pub condemn : List Condemned → Condemned → List Condemned
  unfolding is_young
  condemn doomed (e, reason) =
      if any (λ d. d.0.id == e.id) doomed
      then doomed
      else if is_young e
      then doomed
      else doomed ++ ((e, reason) ∷ [])

  unfoldable pub condemn_all : List Condemned → List Condemned → List Condemned
  unfolding condemn
  condemn_all = foldl condemn

-- `[(e, p) for e, p in parsed if p]`
unfoldable pub owned : List Entry → List Owned
owned = choose (λ e. parse_key e.key >>= λ p. some (e, p))

unfoldable pub on_main : List Owned → List Owned
on_main = keep (λ o. o.0.ref == main_ref)

-- Rule 5: everything on the ref of a closed pull request.
unfoldable pub closed_rule : List Text → List Entry → List Condemned
closed_rule closed_refs entries =
    gather (λ ref. map (λ e. (e, closed_ref ref)) (keep (λ e. e.ref == ref) entries)) closed_refs

-- Rule 3: a stale prefix on main.
unfoldable pub stale_rule : Text → List Owned → List Condemned
stale_rule prefix main =
    map (λ o. (o.0, stale_prefix)) (keep (λ o. not (o.1.prefix == prefix)) main)

unfoldable pub current : Text → List Owned → List Owned
current prefix = keep (λ o. o.1.prefix == prefix && o.1.pr == none)

-- `by_sha.setdefault(sha, {}).setdefault(kind, []).append(e)`
unfoldable pub add_build : Groups → Owned → Groups
add_build groups (e, p) =
    upsert p.sha [] (λ builds. upsert p.kind [] (λ es. es ++ (e ∷ [])) builds) groups

unfoldable pub by_sha : List Owned → Groups
unfolding add_build
by_sha = foldl add_build []

abbrev pub newest : List Entry → Option Entry
newest = max_by when

abbrev pub align_kind : Text
align_kind = codes "align"

abbrev pub core_kind : Text
core_kind = codes "core"

unfoldable pub newest_of : Text → Builds → Option Entry
newest_of kind builds = lookup kind builds >>= newest

-- The sorting key. A list in `by_sha` is never empty, and only shas that have the kind are sorted.
unfoldable pub age_key : Text → Text × Builds → Instant
unfolding newest_of
age_key kind (_, builds) = elim (newest_of kind builds) [ none ↦ 0 | some e ↦ when e ]

unfoldable pub align_shas : Groups → List (Text × Builds)
unfolding age_key
align_shas groups = sort_down (age_key align_kind) (keep (λ g. has align_kind g.1) groups)

unfoldable pub core_only : Groups → List (Text × Builds)
unfolding age_key
core_only groups =
    sort_down (age_key core_kind) (keep (λ g. not (has align_kind g.1) && has core_kind g.1) groups)

-- The id of the newest entry of the first sha, if there is a sha.
unfoldable pub first_newest : Text → List (Text × Builds) → List ℕ
unfolding newest_of
first_newest kind [] = []
first_newest kind ((_, builds) ∷ _) = elim (newest_of kind builds) [
  | none ↦ []
  | some e ↦ e.id ∷ []
]

unfoldable pub protected : List (Text × Builds) → List (Text × Builds) → List ℕ
unfolding first_newest
protected aligned cores = first_newest align_kind aligned ++ first_newest core_kind cores

abbrev pub unprotected : List ℕ → List Entry → List Entry
unprotected ids = keep (λ e. not (contains ids e.id))

-- Rule 1: a core entry that an align entry of its sha, no longer young, supersedes.
unfoldable pub superseded_at : Instant → ℕ → List ℕ → Text × Builds → Option Entry → List Condemned
unfolding is_young
superseded_at now min_age ids g none = []
superseded_at now min_age ids g (some a) =
    if is_young now min_age a
    then []
    else map (λ e. (e, superseded (take 8 g.0)))
        (unprotected ids (or_else (lookup core_kind g.1) []))

unfoldable pub superseded_rule : Instant → ℕ → List ℕ → List (Text × Builds) → List Condemned
unfolding newest_of superseded_at
superseded_rule now min_age ids =
    gather (λ g. superseded_at now min_age ids g (newest_of align_kind g.1))

-- Rule 2: all builds of the shas behind the first n.
unfoldable pub retention_rule : ℕ → Reason → List ℕ → List (Text × Builds) → List Condemned
retention_rule n reason ids shas =
    gather (λ g. gather (λ b. map (λ e. (e, reason)) (unprotected ids b.1)) g.1) (drop n shas)

-- Rule 4: on the ref of a pull request, one build.
unfoldable pub pr_refs : Text → List Owned → Dict Text (List Owned)
pr_refs prefix os =
    foldl (λ m o. upsert o.0.ref [] (λ items. items ++ (o ∷ [])) m) []
      (keep (λ o. starts_with (codes "refs/pull/") o.0.ref && o.1.prefix == prefix) os)

-- `keep_sha.get(kind)` for the kinds core and align
unfoldable pub keep_sha : Text → List Owned → Option Text
keep_sha kind items = do
  m ← newest (map (λ o. o.0) (keep (λ o. o.1.kind == kind) items))
  o ← head? (keep (λ o. o.0.id == m.id) items)
  some o.1.sha

unfoldable pub base_kind : Text → Text
base_kind kind = if starts_with align_kind kind then align_kind else core_kind

unfoldable pub pr_at : Text → List Owned → List Condemned
unfolding keep_sha base_kind
pr_at ref items =
    map (λ o. (o.0, older_build (base_kind o.1.kind) ref))
      (keep (λ o. not (keep_sha (base_kind o.1.kind) items == some o.1.sha)) items)

unfoldable pub pr_rule : Text → List Owned → List Condemned
unfolding pr_refs pr_at
pr_rule prefix os = gather (λ g. pr_at g.0 g.1) (pr_refs prefix os)

module _ (prefix : Text) (now : Instant) (closed_refs : List Text)
    (keep_align keep_core min_age : ℕ) where
  -- The ids that rules 1 and 2 pass over.
  unfoldable pub safe_ids : List Entry → List ℕ
  unfolding owned on_main current by_sha align_shas core_only protected
  safe_ids entries =
      let groups = by_sha (current prefix (on_main (owned entries))) in
      protected (align_shas groups) (core_only groups)

  -- All calls of `condemn`, in order.
  unfoldable pub calls : List Entry → List Condemned
  unfolding safe_ids closed_rule stale_rule superseded_rule retention_rule pr_rule
  calls entries =
      let os = owned entries in
      let main = on_main os in
      let groups = by_sha (current prefix main) in
      let ids = safe_ids entries in
      closed_rule closed_refs entries
      ++ (stale_rule prefix main
          ++ (superseded_rule now min_age ids (align_shas groups)
              ++ (retention_rule keep_align (old_align keep_align) ids (align_shas groups)
                  ++ (retention_rule keep_core (old_core keep_core) ids (core_only groups)
                      ++ pr_rule prefix os))))

  unfoldable pub plan : List Entry → List Condemned
  unfolding calls condemn_all
  plan entries = sort_by (λ d. when d.0) (condemn_all now min_age [] (calls entries))
