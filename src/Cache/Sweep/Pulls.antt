-- ===== src/Cache/Sweep/Pulls.antt =====
-- The refs of closed pull requests.
use mathlib.Core.List.{append_cancel_left, append_cancel_right}
use mathlib.Core.List.Memᴰ
use sp1_lean.Base.{ℕ, ◌≡◌, ◌↔◌, subst, List, ◌++◌, Memᴰ, Text, codes}
use sp1_lean.Texts.{decimal}
use sp1_lean.Texts.Decimal.{decimal-injective}
use sp1_lean.Cache.Sweep.{closed_pr_refs}

abbrev pub pull_ref : ℕ → Text
pull_ref n = codes "refs/pull/" ++ (decimal n ++ codes "/merge")

pull_ref-injective : (m n : ℕ) → pull_ref m ≡ pull_ref n → m ≡ n
pull_ref-injective m n e = decimal-injective m n (
    append_cancel_right (decimal m) (decimal n) (codes "/merge")
      (append_cancel_left (codes "refs/pull/") _ _ e))

-- The refs are those of the pull requests that are closed, and of no others.
pub closed_pr_refs_iff :
    (n : ℕ) (pulls : List ℕ) → Memᴰ (pull_ref n) (closed_pr_refs pulls) ↔ Memᴰ n pulls
unfolding closed_pr_refs
closed_pr_refs_iff n pulls = (
  λ i.
      let (m, j, q) = Memᴰ.of_map pull_ref pulls i in
      subst (λ x. Memᴰ x pulls) (pull_ref-injective m n q) j,
  λ i. Memᴰ.map pull_ref i,
)
