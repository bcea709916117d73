-- ===== src/Release.antt =====
-- scripts/check_release_surface.py: `coverage_errors`, on the review, the inventories and the native inventory that were read. The digest of an inventory and the
-- files of the repository are parameters.
pub mod Reviewed
pub mod Chips
pub mod Surface
mod Tests
use sp1_lean.Base.{
  ℕ, zero, suc, Bool, true, false, not, ◌&&◌, ◌||◌, Option, none, some, List, [], ◌∷◌, ◌++◌, map,
  Text, codes, nat_beq, nat_eq, list_eq, option_eq, ◌==◌, gather, all, contains, length,
  if◌then◌else◌,
}
use sp1_lean.Base.Dict.{Dict, lookup, has}
use sp1_lean.Pins.Sp1.{ensure}

pub record Group : Type 0 where
  pub export : Text
  pub limit : Text
  pub kind : Text
  pub comparison : List Text
  pub lean : List Text

-- The keys of a table that the review and the native inventory share.
pub record Shape : Type 0 where
  pub name : Text
  pub width : ℕ
  pub input_width : ℕ
  pub fixed_width : ℕ
  pub lookups : List Text

pub record Table : Type 0 where
  pub shape : Shape
  pub group : Text

pub record Slot : Type 0 where
  pub shape : Shape
  pub index : ℕ

pub record Native : Type 0 where
  pub tables : List Slot
  pub public_width : ℕ

-- An inventory of the released code, with the names of its layouts.
pub record Inventory : Type 0 where
  pub layouts : List Text
  pub content : Text

pub record Review : Type 0 where
  pub revision : Text
  pub groups : Dict Text Group
  pub released : Dict Text Text
  pub inventories : Dict Text Text
  pub native : List Table
  pub verifier : Text
  pub public_width : ℕ

pub data CoverageError : Type 0 where
  other_revision layouts_differ missing_verifier native_differs occurrences_lost
        public_width_differs :
      CoverageError
  invalid_status comparison_differs uncompared inventory_differs user_only unknown_native
        legacy_lookup :
      Text → CoverageError
  missing_evidence unknown_group : Text → Text → CoverageError

-- `==` of the keys that the two sides share
abbrev pub same_shape : Shape → Shape → Bool
same_shape a b =
    (a.name == b.name)
    && ((a.width == b.width)
        && ((a.input_width == b.input_width)
            && ((a.fixed_width == b.fixed_width) && (a.lookups == b.lookups))))

-- `actual == expected`
unfoldable pub same_tables : List Slot → List Table → Bool
same_tables [] [] = true
same_tables (a ∷ actual) (e ∷ expected) = same_shape a.shape e.shape && same_tables actual expected
same_tables _ _ = false

-- `list(range(n))`, from a number on
unfoldable pub range : ℕ → ℕ → List ℕ
range start zero = []
range start (suc n) = start ∷ range (suc start) n

abbrev pub names_of {ℓ} : {A : Type ℓ} → Dict Text A → List Text
names_of d = map (λ entry. entry.0) d

-- `==` of sets
abbrev pub same_set : List Text → List Text → Bool
same_set a b = all (contains b) a && all (contains a) b

abbrev pub statuses : List Text
statuses = codes "none" ∷ codes "subcomponent" ∷ codes "component" ∷ []

abbrev pub kinds : List Text
kinds = codes "none" ∷ codes "native-backend" ∷ codes "sp1-component" ∷ []

-- `(kind == "none") != (not comparison)` is false
abbrev pub is_matched : Group → Bool
is_matched g = if g.kind == codes "none" then g.comparison == [] else not (g.comparison == [])

-- One turn of the loop over the groups.
unfoldable pub group_errors : (Text → Bool) → Text × Group → List CoverageError
group_errors is_file (name, g) =
    ensure (contains statuses g.export && not (g.limit == [])) (invalid_status name)
    ++ (ensure (contains kinds g.kind && is_matched g) (comparison_differs name)
        ++ (ensure (not ((g.export == codes "component") && (g.comparison == []))) (uncompared name)
            ++ gather (λ path. ensure (is_file path) (missing_evidence name path))
                (g.lean ++ g.comparison)))

-- One turn of the loop over the layouts of an inventory.
unfoldable pub layout_errors : Review → Text → Text → List CoverageError
layout_errors review mode name =
    let group = lookup name review.released in
    ensure (elim group [ none ↦ false | some g ↦ contains (names_of review.groups) g ])
      (unknown_group mode name)
    ++ ensure (not ((mode == codes "supervisor") && (group == some (codes "user"))))
        (user_only name)

module _ (digest : Text → Text) (review : Review) where
  unfoldable pub inventory_errors : Text × Inventory → List CoverageError
  unfolding layout_errors
  inventory_errors (mode, inventory) =
      ensure (lookup mode review.inventories == some (digest inventory.content))
        (inventory_differs mode)
      ++ gather (layout_errors review mode) inventory.layouts

-- `groups.get(group, {}).get("export") == "component"`
abbrev pub is_component : Option Group → Bool
is_component none = false
is_component (some g) = g.export == codes "component"

unfoldable pub table_errors : Review → Table → List CoverageError
table_errors review table =
    ensure (contains (names_of review.groups) table.group) (unknown_native table.shape.name)
    ++ ensure
        (not (not (table.shape.lookups == []) && is_component (lookup table.group review.groups)))
        (legacy_lookup table.shape.name)

unfoldable pub native_errors : Review → Option Native → List CoverageError
unfolding same_tables range
native_errors review none = []
native_errors review (some native) =
    ensure (same_tables native.tables review.native) native_differs
    ++ (ensure (map (λ (s : Slot). s.index) native.tables == range 0 (length native.tables))
          occurrences_lost
        ++ ensure (review.public_width == native.public_width) public_width_differs)

-- The names of the layouts of all inventories.
unfoldable pub layouts_of : Dict Text Inventory → List Text
layouts_of inventories = gather (λ entry. entry.1.layouts) inventories

module _ (digest : Text → Text) (is_file : Text → Bool) where
  unfoldable pub coverage_errors :
      Review → Dict Text Inventory → Text → Option Native → List CoverageError
  unfolding group_errors layouts_of inventory_errors table_errors native_errors
  coverage_errors review inventories revision native =
      ensure (review.revision == revision) other_revision
      ++ (gather (group_errors is_file) review.groups
          ++ (ensure (same_set (names_of review.released) (layouts_of inventories)) layouts_differ
              ++ (gather (inventory_errors digest review) inventories
                  ++ (gather (table_errors review) review.native
                      ++ (ensure (contains (names_of review.groups) review.verifier)
                            missing_verifier
                          ++ native_errors review native)))))
