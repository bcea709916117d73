-- ===== src/Prepare.antt =====
-- scripts/prepare_sail.py: `install` with its way back, and what `main` does under the lock. The file system's failures, the copy and the generator's tree are
-- inputs; None stands for a call that raises.
pub mod Prepared
mod Tests
use sp1_lean.Base.{ℕ, Bool, true, false, not, ◌||◌, Option, none, some, Text, if◌then◌else◌}
use sp1_lean.Base.Results.{Result, raise, ok}
use sp1_lean.Pins.Sail.{Source, SailPins, SailError, validate_sail}

pub data PrepareError : Type 0 where
  invalid : SailError → PrepareError
  copy_failed backup_failed rename_failed cleanup_failed missing_tree generator_failed :
      PrepareError

-- What the calls of one installation do: the copy that is made, none where a directory or the copy fails, whether each renaming fails, and
-- whether the temporary directory cannot be removed behind it.
pub record Calls : Type 0 where
  pub copied : Option Source
  pub backup_fails : Bool
  pub place_fails : Bool
  pub restore_fails : Bool
  pub cleanup_fails : Bool

-- How a step ends, with what then stands at the destination.
pub record Outcome : Type 0 where
  pub result : Result PrepareError (Unit {0})
  pub destination : Option Source

abbrev pub stop : PrepareError → Option Source → Outcome
stop e d = record { result = raise e; destination = d }

-- The four ways of calling the script.
pub data Mode : Type 0 where
  check_only default forced : Mode
  from_tree : Source → Mode

module _ (sha : Text → Text) (pins : SailPins) where
  -- `staged.rename(destination)`, and `backup.rename(destination)` where it fails
  unfoldable pub place : Calls → Source → Option Source → Outcome
  place calls staged backup =
      if calls.place_fails
      then stop rename_failed (if calls.restore_fails then none else backup)
      else record { result = ok tt; destination = some staged }

  unfoldable pub replace : Calls → Source → Option Source → Outcome
  unfolding place
  replace calls staged none = place calls staged none
  replace calls staged (some previous) =
      if calls.backup_fails
      then stop backup_failed (some previous)
      else place calls staged (some previous)

  -- The end of the `with`: an error of the cleanup replaces how the body ended.
  unfoldable pub leave : Calls → Outcome → Outcome
  leave calls o = if calls.cleanup_fails then stop cleanup_failed o.destination else o

  unfoldable pub stage : Calls → Option Source → Outcome
  unfolding replace validate_sail
  stage calls destination = elim calls.copied [
    | none ↦ stop copy_failed destination
    | some staged ↦ elim (validate_sail sha staged pins) [
      | raise e ↦ stop (invalid e) destination
      | ok _ ↦ replace calls staged destination
    ]
  ]

  unfoldable pub install : Calls → Source → Option Source → Outcome
  unfolding leave stage validate_sail
  install calls source destination = elim (validate_sail sha source pins) [
    | raise e ↦ stop (invalid e) destination
    | ok _ ↦ leave calls (stage calls destination)
  ]

  -- `validate(destination, pins)`
  unfoldable pub check_tree : Option Source → Result PrepareError (Unit {0})
  unfolding validate_sail
  check_tree none = raise missing_tree
  check_tree (some tree) = elim (validate_sail sha tree pins) [
    | raise e ↦ raise (invalid e)
    | ok _ ↦ ok tt
  ]

  unfoldable pub regenerate : Calls → Option Source → Option Source → Outcome
  unfolding install
  regenerate calls none destination = stop generator_failed destination
  regenerate calls (some generated) destination = install calls generated destination

  unfoldable pub prepare : Mode → Calls → Option Source → Option Source → Outcome
  unfolding check_tree install regenerate
  prepare check_only calls generated destination = record {
    result = check_tree destination;
    destination = destination;
  }
  prepare (from_tree source) calls generated destination = install calls source destination
  prepare forced calls generated destination = regenerate calls generated destination
  prepare default calls generated destination = elim (check_tree destination) [
    | ok _ ↦ record { result = ok tt; destination = destination }
    | raise _ ↦ regenerate calls generated destination
  ]
