-- ===== src/Build/Layers/Tables.antt =====
-- scripts/build_semantics.py: the table `LAYERS` and `classify_layer`.
use sp1_lean.Base.{List, [], ◌∷◌, Option, Text, codes}
use sp1_lean.Build.Layers.{first_fit}

-- L1, L2, L3, L5 and G.
pub data Layer : Type 0 where
  isa native machine tests generated : Layer

abbrev pub layers : List (Text × Layer)
layers =
    (codes "LeanRV64D/", generated)
    ∷ (codes "LeanRV64D.lean", generated)
    ∷ (codes "SP1Clean/Model/Register.lean", isa)
    ∷ (codes "SP1Clean/Model/SailWrap.lean", isa)
    ∷ (codes "SP1Clean/Model/SailMemory.lean", isa)
    ∷ (codes "SP1Clean/Model/SailDecode.lean", isa)
    ∷ (codes "SP1Clean/Model/SailPure.lean", isa)
    ∷ (codes "SP1Clean/Semantics/ISA/", isa)
    ∷ (codes "SP1Clean/Model/Semantics/", isa)
    ∷ (codes "SP1Clean/Model/Core/", isa)
    ∷ (codes "SP1Clean/Model/Machine/", isa)
    ∷ (codes "SP1Clean/Proofs/Sail/", isa)
    ∷ (codes "SP1Clean/Alignment/Chips/*/Bridge.lean", isa)
    ∷ (codes "SP1Clean/Soundness/", machine)
    ∷ (codes "SP1Clean/Proofs/Completeness/", machine)
    ∷ (codes "SP1Clean/Alignment/", machine)
    ∷ (codes "SP1Clean/FormalModel/Shard", machine)
    ∷ (codes "SP1Clean/FormalModel/Execution.lean", machine)
    ∷ (codes "SP1Clean/FormalModel/EventExecution.lean", machine)
    ∷ (codes "SP1Clean/FormalModel/SupportedShard.lean", machine)
    ∷ (codes "SP1Clean/FormalModel/CoreShard.lean", machine)
    ∷ (codes "SP1Clean/FormalModel/Relations.lean", machine)
    ∷ (codes "SP1Clean/FormalModel/Verifier.lean", machine)
    ∷ (codes "SP1Clean/FormalModel/Trace", machine)
    ∷ (codes "SP1CleanTest/", tests)
    ∷ (codes "SP1CleanTest.lean", tests)
    ∷ (codes "SP1Clean/", native)
    ∷ (codes "SP1Clean.lean", native)
    ∷ (codes "ToClean/", native)
    ∷ (codes "ToClean.lean", native)
    ∷ (codes "ToMathlib/", native)
    ∷ (codes "ToMathlib.lean", native)
    ∷ (codes "ToPolyFun/", native)
    ∷ (codes "ToPolyFun.lean", native)
    ∷ []

-- None stands for "?".
unfoldable pub classify_layer : Text → Option Layer
unfolding first_fit
classify_layer = first_fit layers
