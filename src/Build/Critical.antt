-- ===== src/Build/Critical.antt =====
-- scripts/build_semantics.py: `critical_path`. The loop runs on fuel; None stands for fuel that does not suffice. Seconds are whole units.
pub mod Topological
pub mod Waiting
pub mod Heaviest
pub mod Ends
use sp1_lean.Base.{
  ℕ, zero, suc, ◌+◌, Bool, true, false, not, ◌&&◌, Option, none, some, List, [], ◌∷◌, ◌++◌, map,
  Text, nat_eq, list_eq, contains, if◌then◌else◌, or_else, ◌>>=◌, choose,
}
use sp1_lean.Base.Dict.{Dict, lookup, has, insert}
use sp1_lean.Base.Order.{nat_order, max_by}

-- `order`, the latest first, and the keys of `state`; those of the value 2 are the members of `order`.
pub record Visits : Type 0 where
  pub order : List Text
  pub seen : List Text

abbrev pub Item : Type 0
Item = Text × Bool

-- A module's weight with the path that ends in it.
abbrev pub Weighted : Type 0
Weighted = ℕ × List Text

abbrev pub heavier : ℕ × List Text → ℕ
heavier w = w.0

abbrev pub no_visits : Visits
no_visits = record { order = []; seen = [] }

module _ (imports : Dict Text (List Text)) (secs : Dict Text ℕ) where
  abbrev pub imports_of : Text → List Text
  imports_of m = or_else (lookup m imports) []

  abbrev pub seconds_of : Text → ℕ
  seconds_of m = or_else (lookup m secs) 0

  -- `for i in imports.get(m, []): if ...: stack.append((i, False))`
  unfoldable pub push_imports : List Text → List Text → List (Text × Bool) → List (Text × Bool)
  push_imports done [] stack = stack
  push_imports done (i ∷ is) stack =
      push_imports done is
        (if has i secs && not (contains done i) then (i, false) ∷ stack else stack)

  -- The loop over the stack.
  unfoldable pub run_stack : ℕ → Visits → List (Text × Bool) → Option Visits
  unfolding push_imports
  run_stack n s [] = some s
  run_stack zero s (_ ∷ _) = none
  run_stack (suc n) s ((m, true) ∷ stack) =
      run_stack n (record { order = m ∷ s.order; seen = s.seen }) stack
  run_stack (suc n) s ((m, false) ∷ stack) = elim (contains s.order m) [
    | true ↦ run_stack n s stack
    | false ↦
        run_stack n (record { order = s.order; seen = m ∷ s.seen })
          (push_imports s.order (imports_of m) ((m, true) ∷ stack))
  ]

  -- The loop over the roots.
  unfoldable pub run_roots : ℕ → Visits → List Text → Option Visits
  unfolding run_stack
  run_roots n s [] = some s
  run_roots n s (root ∷ roots) = elim (contains s.seen root) [
    | true ↦ run_roots n s roots
    | false ↦ run_stack n s ((root, false) ∷ []) >>= λ t. run_roots n t roots
  ]

  -- `pred`, and `best[m]`
  unfoldable pub extend : Dict Text (ℕ × List Text) → Text → ℕ × List Text
  unfolding max_by
  extend best m =
      let pred = or_else (max_by heavier (choose (λ i. lookup i best) (imports_of m))) (0, []) in
      (pred.0 + seconds_of m, pred.1 ++ (m ∷ []))

  -- The loop over `order`, whose latest module comes first here.
  unfoldable pub weigh : List Text → Dict Text (ℕ × List Text)
  unfolding extend
  weigh [] = []
  weigh (m ∷ earlier) = let best = weigh earlier in insert m (extend best m) best

  unfoldable pub critical_path : ℕ → Option (ℕ × List Text)
  unfolding run_roots weigh
  critical_path n = run_roots n no_visits (map (λ s. s.0) secs) >>= λ s.
      some (or_else (max_by heavier (map (λ b. b.1) (weigh s.order))) (0, []))
