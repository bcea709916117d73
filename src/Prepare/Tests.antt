-- ===== src/Prepare/Tests.antt =====
-- A tree that a failing installation leaves in place.
use sp1_lean.Base.{
  ℕ, ◌≡◌, refl, true, false, Option, none, some, [], ◌∷◌, ◌++◌, Text, codes, nat_eq, list_eq,
}
use sp1_lean.Pins.Sail.{Source, SailPins, regular}
use sp1_lean.Prepare.{Calls, rename_failed, cleanup_failed, stop, from_tree, prepare}
use sp1_lean.Prepare.Prepared.{IsPrepared, prepare-IsPrepared}

abbrev constant : Text → Text
constant _ = codes "digest"

abbrev tree : Text → Source
tree text = record {
  is_link = false;
  models_link = false;
  root = some (regular text);
  entries = [];
}

abbrev pins : SailPins
pins = record { tree = codes "digest"; count = 1; module_system = false }

abbrev calls : Calls
calls = record {
  copied = some (tree (codes "new"));
  backup_fails = false;
  place_fails = true;
  restore_fails = false;
  cleanup_fails = false;
}

abbrev old : Option Source
old = some (tree (codes "old"))

prepare_test :
    prepare constant pins (from_tree (tree (codes "new"))) calls none old ≡ stop rename_failed old
unfolding prepare sp1_lean.Base.any sp1_lean.Base.list_beq sp1_lean.Base.Order.Sorting.sort_by
    sp1_lean.Base.choose
prepare_test = refl

prepare-IsPrepared_example :
    IsPrepared constant pins false false old
      (prepare constant pins (from_tree (tree (codes "new"))) calls none old)
prepare-IsPrepared_example =
    prepare-IsPrepared constant pins (from_tree (tree (codes "new"))) calls none old

-- The new tree stays where the temporary directory cannot be removed.
abbrev unclean : Calls
unclean = record calls { place_fails = false; cleanup_fails = true }

cleanup_test :
    prepare constant pins (from_tree (tree (codes "new"))) unclean none old
    ≡ stop cleanup_failed (some (tree (codes "new")))
unfolding prepare sp1_lean.Base.any sp1_lean.Base.list_beq sp1_lean.Base.Order.Sorting.sort_by
    sp1_lean.Base.choose
cleanup_test = refl
