-- ===== src/Cache/Sweep/Spares.antt =====
-- What is left of the caches after a sweep.
use mathlib.Core.List.Memᴰ
use mathlib.Core.Logic.{⊎_elim}
use sp1_lean.Base.{
  ◌⊎◌, ℕ, ◌+◌, ◌≤◌, ◌≡◌, ◌≢◌, refl, sym, ap, ◌∙◌, subst, true, false, inl, inr, none, some, List,
  [], map, Text, nat_eq, list_eq, Memᴰ, Memᴰ-nil, Bool-cases,
}
use sp1_lean.Cache.Entry.{Entry, when, minutes, main_ref}
use sp1_lean.Cache.Gc.{Condemned}
use sp1_lean.Cache.Gc.Safety.{plan_old, plan_order, plan_scope}
use sp1_lean.Cache.Gc.Condemn.{HasId}
use sp1_lean.Cache.Key.{parse_key}
use sp1_lean.Cache.Sweep.Pulls.{pull_ref, closed_pr_refs_iff}
use sp1_lean.Cache.Gc.Protect.{
  IsNewestAlign, IsNewestCoreOnly, plan_spares_align, plan_spares_core_only,
}
use sp1_lean.Cache.Gc.Complete.{IdsDiffer, plan_takes_closed}
use sp1_lean.Cache.Sweep.{
  Args, World, closed_refs, planned, restrict, doomed, total_size, Sweep, sweep,
}
use sp1_lean.Cache.Sweep.Steps.{
  delete_all-mem, delete_all_keeps, delete_all_takes, restrict-mem, restrict-ref, restrict-Apart,
  total_size-le,
}

-- Why a sweep leaves an entry.
pub data Spared (args : Args) (w : World) (e : Entry) : Type 0 where
  young : ¬ (when e + minutes args.min_age ≤ w.now) → Spared args w e
  elsewhere : (ref : Text) → args.only_ref ≡ some ref → ref ≢ [] → e.ref ≢ ref → Spared args w e
  newest_align :
      (sha : Text)
      → IsNewestAlign args.prefix w.entries e sha
      → ¬ Memᴰ main_ref (closed_refs args w)
      → Spared args w e
  newest_core :
      (sha : Text)
      → IsNewestCoreOnly args.prefix w.entries e sha
      → ¬ Memᴰ main_ref (closed_refs args w)
      → Spared args w e
  open_pull :
      (n : ℕ)
      → parse_key e.key ≡ none
      → e.ref ≡ pull_ref n
      → ¬ Memᴰ n w.pulls
      → ¬ Memᴰ e.ref args.closed
      → Spared args w e

pub record IsSwept (args : Args) (w : World) (s : Sweep) : Type 0 where
  pub dry : args.apply ≡ false → s.left ≡ w.entries
  pub only_listed : (e : Entry) → Memᴰ e s.left → Memᴰ e w.entries
  pub spares : (e : Entry) → Memᴰ e w.entries → Spared args w e → Memᴰ e s.left
  pub takes :
      args.apply ≡ true
      → s.completed ≡ true
      → (d : _) (e : Entry) → Memᴰ d (doomed args w)
      → Memᴰ e s.left
      → e.id ≢ d.0.id
  pub takes_closed :
      args.apply ≡ true
      → s.completed ≡ true
      → args.sweep_closed ≡ true
      → args.only_ref ≡ none
      → (n : ℕ) (e : Entry) → Memᴰ n w.pulls
      → Memᴰ e s.left
      → e.ref ≡ pull_ref n
      → ¬ (when e + minutes args.min_age ≤ w.now)
  pub freed_le : s.freed ≤ s.total

module _ (args : Args) (w : World) where
  abbrev refs : List Text
  refs = closed_refs args w

  listed :
      (d : Condemned)
      → Memᴰ d (doomed args w)
      → Memᴰ d.0 w.entries × (when d.0 + minutes args.min_age ≤ w.now)
  listed d i =
      plan_old args.prefix w.now refs args.keep_align args.keep_core args.min_age w.entries d
        (restrict-mem args.only_ref (planned args w) d i)

  -- A pull request whose ref is closed was named, or was listed as closed.
  named_or_listed :
      (n : ℕ) → Memᴰ (pull_ref n) refs → Memᴰ (pull_ref n) args.closed ⊎ Memᴰ n w.pulls
  unfolding closed_refs
  named_or_listed n i = elim (Memᴰ.append_cases args.closed i) [
    | inl j ↦ inl j
    | inr j ↦ elim (Bool-cases args.sweep_closed) [
      | inl q ↦ inr ((closed_pr_refs_iff n w.pulls).0 (rw q at j))
      | inr q ↦ absurd (Memᴰ-nil (rw q at j))
    ]
  ]

  closed_pull : (n : ℕ) → args.sweep_closed ≡ true → Memᴰ n w.pulls → Memᴰ (pull_ref n) refs
  unfolding closed_refs
  closed_pull n q i = Memᴰ.append_right args.closed (rw q ((closed_pr_refs_iff n w.pulls).1 i))

  old_closed :
      args.sweep_closed ≡ true
      → args.only_ref ≡ none
      → (n : ℕ) (e : Entry) → Memᴰ n w.pulls
      → Memᴰ e w.entries
      → e.ref ≡ pull_ref n
      → when e + minutes args.min_age ≤ w.now
      → HasId e.id (doomed args w)
  unfolding restrict
  old_closed q o n e i m at_pull old =
      let (d, j, same) =
        plan_takes_closed args.prefix w.now refs args.keep_align args.keep_core args.min_age
          w.entries e m (subst (λ x. Memᴰ x refs) (sym at_pull) (closed_pull n q i)) old in
      (d, subst (λ x. Memᴰ d (restrict x (planned args w))) (sym o) j, same)

  not_doomed : (e : Entry) → Spared args w e → (d : Condemned) → Memᴰ d (doomed args w) → d.0 ≢ e
  not_doomed e (young h) d i q =
      h (subst (λ x. when x + minutes args.min_age ≤ w.now) q (listed d i).1)
  not_doomed e (elsewhere ref o n h) d i q = h (
      ap (λ (x : Entry). x.ref) (sym q)
      ∙ restrict-ref ref (planned args w) d n
          (subst (λ x. Memᴰ d (restrict x (planned args w))) o i))
  not_doomed e (newest_align sha h live) d i q =
      plan_spares_align args.prefix w.now refs args.keep_align args.keep_core args.min_age w.entries
        e sha h live (d, restrict-mem args.only_ref (planned args w) d i, q)
  not_doomed e (newest_core sha h live) d i q =
      plan_spares_core_only args.prefix w.now refs args.keep_align args.keep_core args.min_age
        w.entries e sha h live (d, restrict-mem args.only_ref (planned args w) d i, q)
  not_doomed e (open_pull n foreign at_pull opened unnamed) d i q =
      elim (plan_scope args.prefix w.now refs args.keep_align args.keep_core args.min_age w.entries
        d (restrict-mem args.only_ref (planned args w) d i)) [
          | inl j ↦
              let place : d.0.ref ≡ pull_ref n = ap (λ (x : Entry). x.ref) q ∙ at_pull in
              ⊎_elim (λ k. unnamed (subst (λ x. Memᴰ x args.closed) (sym at_pull) k)) opened
                (named_or_listed n (subst (λ x. Memᴰ x refs) place j))
          | inr (p, parsed, _) ↦ cc (foreign, parsed, ap (λ (x : Entry). parse_key x.key) q)
        ]

  freed-total : total_size (map (λ (d : Condemned). d.0) (doomed args w)) ≤ total_size w.entries
  freed-total =
      total_size-le (doomed args w) w.entries
        (restrict-Apart args.only_ref (planned args w)
          (plan_order args.prefix w.now refs args.keep_align args.keep_core args.min_age
            w.entries).1)
        (λ d i. (listed d i).0)

  -- For a listing that ids tell apart, whichever deletions fail: a dry run changes nothing, and no entry is ever added; an entry stays if it is too young, is not on the ref to which the run is restricted, is
  -- the newest align build or the newest core build without align of main, unless main is named as closed, or has a key outside the layout and is on the ref of a pull request that is
  -- neither named nor listed as closed; after a run without a failure nothing of the plan is left, and nothing that is old enough on the ref of a pull request that is listed as closed,
  -- if these are to be swept and the run is not restricted to a ref;
  -- and the bytes that are freed are at most those of the listing.
  pub sweep-IsSwept : IdsDiffer w.entries → IsSwept args w (sweep args w)
  unfolding sweep
  sweep-IsSwept differ = elim (Bool-cases args.apply) [
    | inr q ↦ record {
      dry = λ _. rw (q, sweep) refl;
      only_listed = λ e m. rw (q, sweep) at m;
      spares = λ e m s. rw (q, sweep) m;
      takes = λ h. absurd (cc (q, h));
      takes_closed = λ h. absurd (cc (q, h));
      freed_le = freed-total;
    }
    | inl q ↦ record {
      dry = λ h. absurd (cc (q, h));
      only_listed = λ e m. delete_all-mem w.fails (doomed args w) w.entries e (rw (q, sweep) at m);
      spares = λ e m s.
          rw (q, sweep)
            (delete_all_keeps w.fails (doomed args w) w.entries e m
              (λ d i same. not_doomed e s d i (differ d.0 e (listed d i).0 m (sym same))));
      takes = λ _ h d e i m.
          delete_all_takes w.fails (doomed args w) w.entries (rw (q, sweep) at h) d e i
            (rw (q, sweep) at m);
      takes_closed = λ _ h c o n e i m at_pull old.
          let left = rw (q, sweep) at m in
          let listed_there = delete_all-mem w.fails (doomed args w) w.entries e left in
          let (d, j, same) = old_closed c o n e i listed_there at_pull old in
          delete_all_takes w.fails (doomed args w) w.entries (rw (q, sweep) at h) d e j left
            (sym same);
      freed_le = freed-total;
    }
  ]
