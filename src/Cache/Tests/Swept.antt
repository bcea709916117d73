-- ===== src/Cache/Tests/Swept.antt =====
-- A sweep of the closed pull requests too, in which no deletion fails, and one that is restricted to a pull request.
use sp1_lean.Base.{
  ℕ, ◌≡◌, refl, Bool, true, false, Option, none, some, List, [], ◌∷◌, Text, codes, nat_beq, nat_eq,
  list_eq,
}
use sp1_lean.Cache.Tests.{now, prefix, core1, align1, core2}
use sp1_lean.Cache.Tests.Plan.{small, small-IdsDiffer}
use sp1_lean.Cache.Gc.{stale_prefix}
use sp1_lean.Cache.Sweep.{Args, World, closed_pr_refs, restrict, delete_all, sweep}
use sp1_lean.Cache.Sweep.Spares.{IsSwept, sweep-IsSwept}

abbrev args : Option Text → Args
args only = record {
  prefix = prefix;
  closed = [];
  sweep_closed = true;
  keep_align = 5;
  keep_core = 2;
  min_age = 10;
  only_ref = only;
  apply = true;
}

abbrev world : World
world = record { entries = small; pulls = 12 ∷ []; now = now; fails = λ _. false }

pulls_test : closed_pr_refs (12 ∷ []) ≡ codes "refs/pull/12/merge" ∷ []
unfolding closed_pr_refs
pulls_test = refl

deleted_test :
    delete_all (λ _. false) ((core1, stale_prefix) ∷ []) small ≡ (align1 ∷ core2 ∷ [], true)
unfolding delete_all sp1_lean.Base.keep
deleted_test = refl

failing_test :
    delete_all (λ i. nat_beq i core1.id) ((core1, stale_prefix) ∷ []) small ≡ (small, false)
unfolding delete_all
failing_test = refl

restricted_test : restrict (some (codes "refs/pull/1/merge")) ((core1, stale_prefix) ∷ []) ≡ []
unfolding restrict sp1_lean.Base.list_beq sp1_lean.Base.keep
restricted_test = refl

sweep-IsSwept_example : IsSwept (args none) world (sweep (args none) world)
sweep-IsSwept_example = sweep-IsSwept (args none) world small-IdsDiffer
