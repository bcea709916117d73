-- ===== src/Build/Report.antt =====
-- scripts/build_semantics.py: what `main` computes for its reports on layers, claims and unreached modules. None of a closure stands for fuel that does not suffice.
pub mod Unreached
use sp1_lean.Base.{
  ℕ, zero, suc, ◌+◌, Bool, true, false, not, ◌&&◌, ◌||◌, Option, none, some, List, [], ◌∷◌, ◌++◌,
  map, Text, codes, nat_beq, nat_eq, list_eq, ◌==◌, if◌then◌else◌, or_else, length, contains, keep,
  any, ◌>>=◌,
}
use sp1_lean.Base.Dict.{Dict, lookup, has, upsert}
use sp1_lean.Texts.{split_on, is_some}
use sp1_lean.Build.Graph.{Source, Graph, closure}
use sp1_lean.Build.Layers.{Stratum, Level, classify_stratum}
use sp1_lean.Build.Layers.Tables.{Layer, classify_layer}

abbrev pub headlines : List Text
headlines =
    codes "SP1Clean.FormalModel.Shard"
    ∷ codes "SP1Clean.Soundness.Shard.Machine"
    ∷ codes "SP1Clean.Soundness.AIR"
    ∷ codes "SP1Clean.Soundness.BootHalt"
    ∷ codes "SP1Clean.Soundness.NativeCompleteness"
    ∷ codes "SP1Clean.Proofs.Completeness.NativeTraceCompiler"
    ∷ codes "SP1Clean.Soundness.HostHintReadFinalSnapshot"
    ∷ codes "SP1Clean.Soundness.Shard.Trace"
    ∷ []

-- A value of `info`.
pub record Info : Type 0 where
  pub layer : Option Layer
  pub stratum : Option Level
  pub secs : ℕ
  pub lines : ℕ

unfoldable pub info_of : List Stratum → Dict Text ℕ → Text × Source → Text × Info
unfolding classify_layer classify_stratum
info_of strata secs (m, source) = (
  m,
  record {
    layer = classify_layer source.path;
    stratum = classify_stratum source.path strata;
    secs = or_else (lookup m secs) 0;
    lines = source.lines;
  },
)

abbrev pub is_unassigned : Text × Info → Bool
is_unassigned (_, i) = not (is_some i.layer) || not (is_some i.stratum)

unfoldable pub unassigned : List Stratum → Dict Text ℕ → Graph → List Text
unfolding info_of
unassigned strata secs graph = map (λ i. i.0) (keep is_unassigned (map (info_of strata secs) graph))

-- `closures`, in the order of the headlines
unfoldable pub closures_of : Graph → List Text → Option (Dict Text (List Text))
unfolding closure
closures_of graph [] = some []
closures_of graph (h ∷ hs) = elim (has h graph) [
  | false ↦ closures_of graph hs
  | true ↦ do seen ← closure graph h; rest ← closures_of graph hs; some ((h, seen) ∷ rest)
]

unfoldable pub missing : Graph → List Text
missing graph = keep (λ h. not (has h graph)) headlines

-- `set().union(*closures.values())`, as a test
abbrev pub is_reached : Dict Text (List Text) → Text → Bool
is_reached closures m = any (λ (c : Text × List Text). contains c.1 m) closures

-- `m.split(".")[0]`
unfoldable pub root_of : Text → Text
unfolding split_on
root_of m = elim (split_on b'.' m) [ [] ↦ [] | root ∷ _ ↦ root ]

unfoldable pub unreached_from : Dict Text (List Text) → Graph → List Text
unfolding root_of
unreached_from closures graph =
    keep (λ m. not (is_reached closures m) && root_of m == codes "SP1Clean") (map (λ g. g.0) graph)

unfoldable pub unreached : Graph → Option (List Text)
unfolding closures_of unreached_from
unreached graph = closures_of graph headlines >>= λ closures. some (unreached_from closures graph)

-- The number and the seconds of the modules of a closure.
unfoldable pub claim_seconds : Dict Text ℕ → List Text → ℕ
claim_seconds secs [] = 0
claim_seconds secs (m ∷ ms) = or_else (lookup m secs) 0 + claim_seconds secs ms

unfoldable pub claims : Dict Text ℕ → Dict Text (List Text) → List (Text × ℕ × ℕ)
unfolding claim_seconds
claims secs [] = []
claims secs ((h, seen) ∷ closures) =
    (h, length seen, claim_seconds secs seen) ∷ claims secs closures
