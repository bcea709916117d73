-- ===== src/Pins/Check/Values.antt =====
-- scripts/check_pins.py: the values that `check` reads, and the errors that it reports.
use sp1_lean.Base.{Bool, Option, List, Text, nat_eq, list_eq, option_eq}
use sp1_lean.Flags.{Settings}
use sp1_lean.Pins.Sp1.{PinError}
use sp1_lean.Pins.Sail.{Source, SailPins, SailError}

pub record Requirement : Type 0 where
  pub name : Text
  pub git : Option Text
  pub rev : Option Text

pub record Package : Type 0 where
  pub name : Text
  pub kind : Option Text
  pub url : Option Text
  pub rev : Option Text
  pub input_rev : Option Text
  pub inherited : Bool

pub record LeanLib : Type 0 where
  pub name : Text
  pub src_dir : Option Text
  pub module_system : Option Bool
  pub options : Option Settings
  pub roots : Option (List Text)

pub record Provenance : Type 0 where
  pub compiler_revision : Text
  pub model_revision : Text
  pub base_snapshot : Text
  pub pins : SailPins
  pub config : Text
  pub sp1_version : Text
  pub sp1_revision : Text

pub record Root : Type 0 where
  pub requirements : List Requirement
  pub libraries : List LeanLib
  pub packages : List Package
  pub cargo : Text
  pub locked : Text
  pub toolchain : Text
  pub provenance : Provenance
  pub sail : Source
  pub sail_config : Text

pub data CheckError : Type 0 where
  duplicate_package duplicate_dependency backend_differs locked_backend_differs : CheckError
  vague_toolchain not_module_system bad_fingerprint config_differs : CheckError
  test_options_differ rvfi_options_differ rvfi_roots_differ : CheckError
  not_git short_revision not_required : Text → CheckError
  missing path_dependency url_mismatch moving_branch disagree : Text → CheckError
  expected_commit wrong_sources misplaced_linter : Text → CheckError
  sp1 : PinError → CheckError
  sail_tree : SailError → CheckError
