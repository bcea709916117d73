-- ===== src/Release/Tests.antt =====
-- A small release surface, and one with faults.
use sp1_lean.Base.{
  ℕ, ◌≡◌, refl, Bool, true, Option, none, some, List, [], ◌∷◌, ◌++◌, Text, codes, nat_eq, list_eq,
}
use sp1_lean.Base.Dict.{Dict}
use sp1_lean.Base.{gather}
use sp1_lean.Pins.Sp1.{quote}
use sp1_lean.Release.Chips.{Chip, chips}
use sp1_lean.Release.Surface.{
  Sources, file_of, registration_of, identity_errors, instruction_export_errors, unknown_ids,
  release_status,
}
use sp1_lean.Release.Surface.Released.{IsReleased, release_status-IsReleased}
use sp1_lean.Release.{
  Group, Shape, Native, Inventory, Review, other_revision, unknown_group, user_only, native_differs,
  coverage_errors,
}

abbrev same : Text → Text
same t = t

abbrev exists : Text → Bool
exists path = true

abbrev group : Group
group = record {
  export = codes "component";
  limit = codes "one shard";
  kind = codes "sp1-component";
  comparison = codes "rust/add.rs" ∷ [];
  lean = codes "Add.lean" ∷ [];
}

abbrev shape : Shape
shape = record { name = codes "Add"; width = 33; input_width = 3; fixed_width = 0; lookups = [] }

abbrev inventories : Dict Text Inventory
inventories =
    (codes "supervisor", record { layouts = codes "Add" ∷ []; content = codes "s" })
    ∷ (codes "mprotect", record { layouts = codes "AddUser" ∷ []; content = codes "m" })
    ∷ []

abbrev review_with : Text → Review
review_with name = record {
  revision = codes "d83e";
  groups = (codes "instructions", group) ∷ (codes "user", group) ∷ [];
  released = (codes "Add", name) ∷ (codes "AddUser", codes "user") ∷ [];
  inventories = (codes "supervisor", codes "s") ∷ (codes "mprotect", codes "m") ∷ [];
  native = record { shape = shape; group = codes "instructions" } ∷ [];
  verifier = codes "instructions";
  public_width = 58;
}

abbrev native_of : Shape → Option Native
native_of s = some (record { tables = record { shape = s; index = 0 } ∷ []; public_width = 58 })

coverage_test :
    coverage_errors same exists
      (review_with (codes "instructions"))
      inventories
      (codes "d83e")
      (native_of shape)
    ≡ []
unfolding coverage_errors sp1_lean.Base.list_beq sp1_lean.Base.gather sp1_lean.Base.contains
    sp1_lean.Base.all sp1_lean.Base.option_beq sp1_lean.Base.Dict.lookup
coverage_test = refl

user_test :
    coverage_errors same exists (review_with (codes "user")) inventories (codes "d83f") (
      native_of
        (record { name = codes "Add"; width = 34; input_width = 3; fixed_width = 0; lookups = [] }))
    ≡ other_revision ∷ user_only (codes "Add") ∷ native_differs ∷ []
unfolding coverage_errors sp1_lean.Base.list_beq sp1_lean.Base.gather sp1_lean.Base.contains
    sp1_lean.Base.all sp1_lean.Base.option_beq sp1_lean.Base.Dict.lookup
user_test = refl

unknown_test :
    coverage_errors same exists (review_with (codes "other")) inventories (codes "d83e") none
    ≡ unknown_group (codes "supervisor") (codes "Add") ∷ []
unfolding coverage_errors sp1_lean.Base.list_beq sp1_lean.Base.gather sp1_lean.Base.contains
    sp1_lean.Base.all sp1_lean.Base.option_beq sp1_lean.Base.Dict.lookup
unknown_test = refl

abbrev line : Text → Text
line t = t ++ (10 ∷ [])

abbrev exporter : Text
exporter =
    gather (λ c. line (codes "(" ++ (quote ++ (file_of c ++ (quote ++ codes ", exportRust c")))))
      chips

abbrev comparison : Text
comparison =
    line (codes "use $module::Ensemble as $program;")
    ++ gather
        (λ c.
          let r = registration_of c in
          line (
            codes "generated_instruction!("
            ++ (r.unit
                ++ (codes ", "
                    ++ (quote
                        ++ (r.file ++ (quote ++ (codes ", " ++ (r.program ++ codes ");")))))))))
        chips

abbrev identity : Text
identity =
    line (codes "inductive InstructionChipId where")
    ++ (gather (λ (c : Chip). line (codes "  | " ++ c.id)) chips ++ codes "deriving DecidableEq")

abbrev nonvacuity : Text
nonvacuity = gather (λ (c : Chip). line (codes "theorem " ++ (c.anchor ++ codes " : True"))) chips

abbrev sources : Sources
sources = record {
  coverage = some (record {
    review = review_with (codes "instructions");
    inventories = inventories;
    revision = codes "d83e";
    native = native_of shape;
  });
  identity = identity;
  exporter = exporter;
  comparison = comparison;
  nonvacuity = nonvacuity;
}

identity_test : identity_errors identity ≡ []
unfolding identity_errors gather sp1_lean.Base.list_beq sp1_lean.Regex.captured
identity_test = refl

export_test : instruction_export_errors exporter comparison ≡ []
unfolding instruction_export_errors sp1_lean.Base.list_beq gather sp1_lean.Regex.captured
export_test = refl

unnamed_test : identity_errors (codes "inductive") ≡ unknown_ids ∷ []
unfolding identity_errors
unnamed_test = refl

sources_test : release_status same exists sources ≡ 0
unfolding release_status sp1_lean.Base.list_beq gather sp1_lean.Base.contains sp1_lean.Base.all
    sp1_lean.Base.option_beq sp1_lean.Base.Dict.lookup sp1_lean.Regex.captured
sources_test = refl

release_status-IsReleased_example : IsReleased same exists sources
release_status-IsReleased_example = release_status-IsReleased same exists sources sources_test
