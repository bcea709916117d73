-- ===== src/Cache/Sweep.antt =====
-- scripts/ci/cache_gc.py: `closed_pr_refs` and what `main` deletes. The listings of caches and of pull requests are inputs, and whether a call of `gh cache delete` fails.
pub mod Steps
pub mod Pulls
pub mod Spares
use sp1_lean.Base.{
  ℕ, ◌+◌, Bool, true, false, not, Option, none, some, List, [], ◌∷◌, ◌++◌, map, Text, codes,
  nat_beq, nat_eq, list_eq, ◌==◌, keep, if◌then◌else◌,
}
use sp1_lean.Texts.{decimal}
use sp1_lean.Cache.Entry.{Instant, Entry}
use sp1_lean.Cache.Gc.{Condemned, plan}

-- `refs/pull/N/merge`
unfoldable pub closed_pr_refs : List ℕ → List Text
unfolding decimal
closed_pr_refs numbers = map (λ n. codes "refs/pull/" ++ (decimal n ++ codes "/merge")) numbers

pub record Args : Type 0 where
  pub prefix : Text
  pub closed : List Text
  pub sweep_closed : Bool
  pub keep_align : ℕ
  pub keep_core : ℕ
  pub min_age : ℕ
  pub only_ref : Option Text
  pub apply : Bool

-- What `main` reads: the listing, the closed pull requests, the time, and which deletions fail.
pub record World : Type 0 where
  pub entries : List Entry
  pub pulls : List ℕ
  pub now : Instant
  pub fails : ℕ → Bool

unfoldable pub closed_refs : Args → World → List Text
unfolding closed_pr_refs
closed_refs args w = args.closed ++ (if args.sweep_closed then closed_pr_refs w.pulls else [])

abbrev pub planned : Args → World → List Condemned
planned args w =
    plan args.prefix w.now (closed_refs args w) args.keep_align args.keep_core args.min_age
      w.entries

-- `if args.only_ref`, which does not hold of an empty text
unfoldable pub restrict : Option Text → List Condemned → List Condemned
restrict none doomed = doomed
restrict (some ref) doomed = if ref == [] then doomed else keep (λ d. d.0.ref == ref) doomed

abbrev pub doomed : Args → World → List Condemned
doomed args w = restrict args.only_ref (planned args w)

unfoldable pub total_size : List Entry → ℕ
total_size [] = 0
total_size (e ∷ entries) = e.size_in_bytes + total_size entries

-- A deletion by id, and all of them in turn, up to one that fails.
unfoldable pub delete : ℕ → List Entry → List Entry
delete i entries = keep (λ e. not (nat_beq e.id i)) entries

unfoldable pub delete_all : (ℕ → Bool) → List Condemned → List Entry → List Entry × Bool
unfolding delete
delete_all fails [] entries = (entries, true)
delete_all fails (d ∷ ds) entries =
    let rest = delete_all fails ds (delete d.0.id entries) in
    if fails d.0.id then (entries, false) else rest

-- The sizes that are printed, what the service then has, and whether no deletion failed.
pub record Sweep : Type 0 where
  pub total : ℕ
  pub freed : ℕ
  pub left : List Entry
  pub completed : Bool

unfoldable pub sweep : Args → World → Sweep
unfolding closed_refs restrict total_size delete_all
sweep args w =
    let after =
      if args.apply then delete_all w.fails (doomed args w) w.entries else (w.entries, true) in
    record {
      total = total_size w.entries;
      freed = total_size (map (λ (d : Condemned). d.0) (doomed args w));
      left = after.0;
      completed = after.1;
    }
