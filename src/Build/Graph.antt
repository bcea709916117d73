-- ===== src/Build/Graph.antt =====
-- scripts/build_semantics.py: `closure`, over the graph that `read_graph` returns. The loop runs on fuel.
pub mod Reach
use sp1_lean.Base.{
  ℕ, zero, suc, ◌+◌, Bool, true, false, ◌||◌, not, Option, none, some, List, [], ◌∷◌, ◌++◌, Text,
  nat_eq, list_eq, contains, if◌then◌else◌, length,
}
use sp1_lean.Base.Dict.{Dict, lookup}

-- `(path, imports, lines)`
pub record Source : Type 0 where
  pub path : Text
  pub imports : List Text
  pub lines : ℕ

abbrev pub Graph : Type 0
Graph = Dict Text Source

-- The stack's top is at its head, so an extension is pushed in reverse.
abbrev pub push_all {ℓ} : {A : Type ℓ} → List A → List A → List A
push_all [] stack = stack
push_all (x ∷ xs) stack = push_all xs (x ∷ stack)

-- What one pass over the popped module leaves: the modules seen and the stack.
unfoldable pub visit : Graph → Text → List Text → List Text → List Text × List Text
visit graph m seen stack = if contains seen m then (seen, stack) else elim (lookup m graph) [
  | none ↦ (seen, stack)
  | some source ↦ (m ∷ seen, push_all source.imports stack)
]

unfoldable pub loop : Graph → ℕ → List Text × List Text → Option (List Text)
unfolding visit
loop graph fuel (seen, []) = some seen
loop graph zero (seen, m ∷ stack) = none
loop graph (suc fuel) (seen, m ∷ stack) = loop graph fuel (visit graph m seen stack)

-- Each module is expanded at most once, so this many passes are enough.
abbrev pub imports_total : Graph → ℕ
imports_total [] = 0
imports_total ((_, source) ∷ graph) = length source.imports + imports_total graph

unfoldable pub closure : Graph → Text → Option (List Text)
unfolding loop
closure graph start = loop graph (1 + imports_total graph) ([], start ∷ [])
