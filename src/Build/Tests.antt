-- ===== src/Build/Tests.antt =====
-- A small import graph, paths of the repository, and three strata.
use sp1_lean.Base.{
  ◌≡◌, ◌↔◌, refl, Option, none, some, List, [], ◌∷◌, Memᴰ, Text, codes, nat_eq, list_eq,
}
use mathlib.Core.List.Memᴰ
use sp1_lean.Base.{
  ℕ, ◌+◌, ◌*◌, ◌^◌, ◌≤◌, ◌<◌, true, false, ◌++◌, map, if◌then◌else◌, ◌==◌, choose, Bool-cases,
  arith, eq_iff, inl, inr, subst, sym, Memᴰ-nil,
}
use sp1_lean.Base.Dict.{Dict, lookup}
use sp1_lean.Build.Critical.{critical_path}
use sp1_lean.Build.Critical.Waiting.{Needs}
use sp1_lean.Build.Critical.Heaviest.{IsCritical, critical_path-IsCritical}
use sp1_lean.Build.Critical.Ends.{critical_path_ends}
use sp1_lean.Build.Log.{Timed, Timeline, timed_of, read_lake_log_events, timeline_of, timeline}
use sp1_lean.Build.Log.Running.{IsTimed, IsTimeline, timeline-IsTimeline}
use sp1_lean.Build.Report.{headlines, root_of, unreached}
use sp1_lean.Build.Report.Unreached.{unreached_iff}
use sp1_lean.Build.Sources.{read_source, read_touched}
use sp1_lean.Build.Graph.{Source, Graph, closure}
use sp1_lean.Build.Graph.Reach.{Reaches, closure-Reaches}
use sp1_lean.Build.Layers.{Stratum, load_strata, sort_strata, classify_stratum}
use sp1_lean.Build.Layers.Tables.{machine, isa, classify_layer}
use sp1_lean.Build.Layers.Strata.{Classified, classify_stratum-Classified}

abbrev source : List Text → Source
source imports = record { path = []; imports = imports; lines = 1 }

-- Two modules that import each other, and a third that imports a module outside the graph.
abbrev graph : Graph
graph =
    (codes "A", source (codes "B" ∷ codes "Mathlib" ∷ []))
    ∷ (codes "B", source (codes "A" ∷ codes "D" ∷ []))
    ∷ (codes "D", source [])
    ∷ (codes "E", source (codes "A" ∷ []))
    ∷ []

closure-A : closure graph (codes "A") ≡ some (codes "D" ∷ codes "B" ∷ codes "A" ∷ [])
unfolding closure sp1_lean.Base.contains sp1_lean.Base.Dict.lookup sp1_lean.Base.list_beq
closure-A = refl

closure-Reaches_example :
    (seen : List Text) × (closure graph (codes "A") ≡ some seen)
    × ((m : Text) → Memᴰ m seen ↔ Reaches graph (codes "A") m)
closure-Reaches_example = closure-Reaches graph (codes "A")

abbrev bridge : Text
bridge = codes "SP1Clean/Alignment/Chips/AddChip/Bridge.lean"

bridge-isa : classify_layer bridge ≡ some isa
unfolding classify_layer sp1_lean.Base.contains sp1_lean.Base.starts_with
bridge-isa = refl

contracts-machine :
    classify_layer (codes "SP1Clean/Alignment/Chips/AddChip/Contracts.lean") ≡ some machine
unfolding classify_layer sp1_lean.Base.contains sp1_lean.Base.starts_with
contracts-machine = refl

abbrev strata : List Stratum
strata =
    record { prefix = codes "SP1Clean/Model/"; level = 2; pillar = codes "Model" }
    ∷ record { prefix = codes "SP1Clean/Model/Semantics/"; level = 3; pillar = codes "Semantics" }
    ∷ record { prefix = codes "ToClean/"; level = 0; pillar = codes "-" }
    ∷ []

load_strata_test :
    load_strata (
      codes "# strata"
      ++ (10
          ∷ (codes "2 Model SP1Clean/Model/"
              ++ (10
                  ∷ (codes "3  Semantics SP1Clean/Model/Semantics/ # runs"
                      ++ (10 ∷ codes "0 - ToClean/"))))))
    ≡ some (sort_strata strata)
unfolding load_strata sp1_lean.Base.all sp1_lean.Base.list_beq
load_strata_test = refl

abbrev semantics : Text
semantics = codes "SP1Clean/Model/Semantics/Run.lean"

classify_stratum-Classified_example :
    Classified semantics strata (classify_stratum semantics (sort_strata strata))
classify_stratum-Classified_example = classify_stratum-Classified semantics strata

-- A log of three modules, and the imports among them.
abbrev seconds : Dict Text ℕ
seconds = (codes "A", 5) ∷ (codes "B", 7) ∷ (codes "D", 2) ∷ (codes "Z", 1) ∷ []

abbrev imported : Dict Text (List Text)
imported =
    (codes "A", codes "B" ∷ codes "D" ∷ codes "Mathlib" ∷ [])
    ∷ (codes "B", codes "D" ∷ [])
    ∷ (codes "D", [])
    ∷ []

critical_test :
    critical_path imported seconds 20 ≡ some (14, codes "D" ∷ codes "B" ∷ codes "A" ∷ [])
unfolding critical_path sp1_lean.Base.contains lookup sp1_lean.Base.list_beq sp1_lean.Base.Dict.has
    sp1_lean.Base.Dict.insert choose
critical_test = refl

critical_path-IsCritical_example :
    IsCritical imported seconds (14, codes "D" ∷ codes "B" ∷ codes "A" ∷ [])
critical_path-IsCritical_example =
    critical_path-IsCritical imported seconds 20 (14, codes "D" ∷ codes "B" ∷ codes "A" ∷ [])
      critical_test

-- One import, and the depth of a module in that graph.
abbrev one_import : Dict Text (List Text)
one_import = (codes "A", codes "B" ∷ []) ∷ []

abbrev depth : Text → ℕ
depth m = if m == codes "A" then 1 else 0

depth_descends : (m i : Text) → Needs one_import seconds m i → depth i < depth m
unfolding lookup
depth_descends m i (k, h) = elim (Bool-cases (codes "A" == m)) [
  | inr q ↦ absurd (Memᴰ-nil (rw q at k))
  | inl q ↦
      let same : i ≡ codes "B" = Memᴰ.eq_of_singleton (rw q at k) in
      subst (λ x. depth x < depth m) (sym same)
        (subst (λ x. depth (codes "B") < depth x) ((eq_iff (codes "A") m).0 q)
          (unfold sp1_lean.Base.list_beq in ground arith))
]

critical_path_ends_example :
    (n : ℕ) × (w : ℕ × List Text) × ((k : ℕ) → n ≤ k → critical_path one_import seconds k ≡ some w)
critical_path_ends_example = critical_path_ends one_import seconds depth depth_descends

abbrev stamped : Text → Text → Text
stamped time built = codes "2026-09-21T05:" ++ (time ++ (codes ".5Z Built " ++ built))

abbrev stamped_log : Text
stamped_log =
    stamped (codes "00:10") (codes "A (10s)")
    ++ (10
        ∷ (stamped (codes "02:00") (codes "B (1.5s)")
            ++ (10 ∷ stamped (codes "02:01") (codes "C (20ms)"))))

abbrev first_timed : Timed
first_timed = record { name = codes "A"; secs = 10 * 10 ^ 9; finish = 1789966810 * 10 ^ 9 }

abbrev second_timed : Timed
second_timed = record { name = codes "B"; secs = 1500000000; finish = 1789966920 * 10 ^ 9 }

events_test : choose timed_of (read_lake_log_events stamped_log) ≡ first_timed ∷ second_timed ∷ []
unfolding choose read_lake_log_events sp1_lean.Base.Dict.insert sp1_lean.Base.list_beq
events_test = refl

abbrev two_timeline : Timeline
two_timeline = record {
  span = 120 * 10 ^ 9;
  total = 11500000000;
  peak = 1;
  le1 = 180;
  le2 = 180;
  solo = (codes "B", 120);
  running = 1 ∷ 1 ∷ 1 ∷ [];
}

timeline_test : timeline_of (first_timed ∷ second_timed ∷ []) ≡ some two_timeline
unfolding timeline_of
timeline_test = refl

timeline-IsTimeline_example :
    (timeline (read_lake_log_events stamped_log) ≡ none
      → (t : Timed) → ¬ IsTimed (read_lake_log_events stamped_log) t)
    × ((l : Timeline)
        → timeline (read_lake_log_events stamped_log) ≡ some l
        → IsTimeline (read_lake_log_events stamped_log) l)
timeline-IsTimeline_example = timeline-IsTimeline (read_lake_log_events stamped_log)

unreached_iff_example :
    (ms : List Text) × (unreached graph ≡ some ms)
    × ((m : Text)
        → Memᴰ m ms ↔ (
            Memᴰ m (map (λ g. g.0) graph)
            × (root_of m ≡ codes "SP1Clean")
            × ((h : Text) → Memᴰ h headlines → ¬ Reaches graph h m)))
unreached_iff_example = unreached_iff graph

abbrev module_file : Text
module_file =
    codes "module"
    ++ (10
        ∷ (codes "public import SP1Clean.Core"
            ++ (10
                ∷ (codes "-- a note"
                    ++ (10
                        ∷ (codes "import Mathlib"
                            ++ (10 ∷ (codes "def x := 1" ++ (10 ∷ codes "import Late")))))))))

source_test : read_source (codes "SP1Clean/A.lean", module_file) ≡ record {
  path = codes "SP1Clean/A.lean";
  imports = codes "SP1Clean.Core" ∷ codes "Mathlib" ∷ [];
  lines = 6;
}
unfolding read_source sp1_lean.Base.list_beq sp1_lean.Base.any sp1_lean.Base.starts_with
source_test = refl

touched_test :
    read_touched (codes " A.lean" ∷ codes "" ∷ codes "Q" ∷ []) (codes "A" ∷ []) ≡ codes "A" ∷ []
unfolding read_touched sp1_lean.Base.keep sp1_lean.Base.list_beq sp1_lean.Base.contains
touched_test = refl
