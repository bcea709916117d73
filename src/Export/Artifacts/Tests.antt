-- ===== src/Export/Artifacts/Tests.antt =====
-- Two generations of two artifacts.
use sp1_lean.Base.{
  ◌≡◌, refl, true, false, Bool, Option, none, some, List, [], ◌∷◌, Text, codes, nat_eq, list_eq,
  ◌==◌, eq_iff, length, contains,
}
use sp1_lean.Base.Dict.{Dict, NodupKeys, lookup}
use sp1_lean.Base.Results.{ok}
use sp1_lean.Export.Stage.{regular, Files}
use sp1_lean.Export.Artifacts.{Generation, same_texts, verify}
use sp1_lean.Export.Artifacts.Names.{snake}
use sp1_lean.Export.Artifacts.Verified.{IsPublished, verify-IsPublished}

-- The converted names are spelled as the Rust side includes them.
snake-alu_x0 : snake (codes "AluX0") ≡ codes "alu_x0"
snake-alu_x0 = refl

abbrev names : List Text
names = codes "add_instruction.rs" ∷ codes "opcodes.reference.json" ∷ []

-- A hash for the example: the length.
abbrev hash : Text → Text
hash t = length t ∷ []

abbrev files : Files
files =
    (codes "lean.log", regular [])
    ∷ (codes "add_instruction.rs", regular (codes "fn"))
    ∷ (codes "opcodes.reference.json", regular (codes "{}!"))
    ∷ (codes "generation.json", regular (codes "{}"))
    ∷ []

abbrev identity : Dict Text Text
identity = (codes "sourceRevision", codes "abc") ∷ []

abbrev generation : Generation
generation = record {
  source = identity;
  executable = codes "e";
  artifacts = (codes "add_instruction.rs", 2 ∷ []) ∷ (codes "opcodes.reference.json", 3 ∷ []) ∷ [];
}

abbrev published_files : Files
published_files =
    (codes "add_instruction.rs", regular (codes "fn"))
    ∷ (codes "opcodes.reference.json", regular (codes "{}!"))
    ∷ []

verified :
    verify identity hash names files generation files generation false false
    ≡ ok (published_files, generation)
unfolding verify sp1_lean.Base.all sp1_lean.Base.option_beq lookup sp1_lean.Base.list_beq contains
    sp1_lean.Base.keep sp1_lean.Base.Dict.insert
verified = refl

artifacts-NodupKeys : NodupKeys generation.artifacts
unfolding lookup sp1_lean.Base.list_beq
artifacts-NodupKeys = (refl, (refl, tt))

verify-IsPublished_example :
    (◌≡◌ {A = Bool} false false)
    × (same_texts generation.source identity ≡ true)
    × (same_texts generation.source identity ≡ true)
    × (generation.executable ≡ generation.executable)
    × (generation ≡ generation)
    × IsPublished identity hash names files files published_files
verify-IsPublished_example =
    verify-IsPublished identity hash names files generation files generation false false
      published_files generation artifacts-NodupKeys verified
