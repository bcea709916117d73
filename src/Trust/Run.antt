-- ===== src/Trust/Run.antt =====
-- scripts/check_trust.py: the inventory of source modules, the pinned scanner, `scan` and `main`. What the file system, git and the scanner give is an input; None stands for a call that fails.
pub mod Passes
use sp1_lean.Base.{
  ℕ, Bool, true, false, not, ◌&&◌, ◌||◌, Option, none, some, List, [], ◌∷◌, ◌++◌, map, Text, codes,
  nat_beq, nat_eq, list_eq, option_eq, ◌==◌, gather, contains, if◌then◌else◌, ◌>>=◌, ltb,
}
use sp1_lean.Base.Dict.{Dict, lookup}
use sp1_lean.Base.Order.{text_order}
use sp1_lean.Base.Order.Sorting.{sort_by}
use sp1_lean.Base.Results.{raise, ok}
use sp1_lean.Json.{Json}
use sp1_lean.Texts.{strip}
use sp1_lean.Trust.Policy.{Policy, Scope, main_scope, test_scope, load_policy}
use sp1_lean.Trust.Scan.{scan_status}

pub record Output : Type 0 where
  pub returncode : ℕ
  pub stdout : Text
  pub report : Option Json

pub record World : Type 0 where
  -- the parts of the module names of the files below a root, and whether the root has a file
  pub below : Text → List (List Text)
  pub is_file : Text → Bool
  -- the packages of the manifest with their revisions, the revision of the checkout, the scanner at a revision, and the one that is there
  pub packages : Dict Text Text
  pub head : Option Text
  pub shown : Text → Option Text
  pub present : Option Text
  pub has_metadata : Bool
  pub has_root_index : Bool
  pub run : List Text → Output

abbrev pub main_roots : List Text
main_roots = codes "SP1Clean" ∷ codes "ToClean" ∷ codes "ToMathlib" ∷ codes "ToPolyFun" ∷ []

abbrev pub scope_roots : Scope → List Text
scope_roots main_scope = main_roots
scope_roots test_scope = codes "SP1CleanTest" ∷ []

-- `".".join(parts)`
unfoldable pub dotted : List Text → Text
dotted [] = []
dotted (part ∷ []) = part
dotted (part ∷ next ∷ parts) = part ++ (b'.' ∷ dotted (next ∷ parts))

unfoldable pub modules_below : World → Text → List Text
unfolding dotted
modules_below w root =
    sort_by (λ m. m)
      (map dotted (w.below root ++ (if w.is_file root then (root ∷ []) ∷ [] else [])))

-- The members of a set.
unfoldable pub once : List Text → List Text
once [] = []
once (m ∷ ms) = let rest = once ms in if contains ms m then rest else m ∷ rest

unfoldable pub source_modules : World → Scope → List Text
unfolding modules_below once
source_modules w scope = sort_by (λ m. m) (once (gather (modules_below w) (scope_roots scope)))

abbrev pub check : Bool → Option (Unit {0})
check true = some tt
check false = none

-- The roots that are scanned, and the modules.
unfoldable pub scope_modules : World → Scope → Option (List Text × List Text)
unfolding source_modules
scope_modules w scope = elim (source_modules w scope) [
  | [] ↦ none
  | m ∷ ms ↦ some (elim scope [ main_scope ↦ main_roots | test_scope ↦ m ∷ ms ], m ∷ ms)
]

-- `scanner_path`: the scanner that is there is that of the pinned revision.
unfoldable pub same_scanner : Option Text → Option Text → (Text → Option Text) → Option Text → Bool
unfolding strip
same_scanner none head shown present = false
same_scanner (some pin) none shown present = false
same_scanner (some pin) (some head) shown present = elim (shown pin) [
  | none ↦ false
  | some pinned ↦ (strip head == pin) && (present == some pinned)
]

unfoldable pub is_pinned_scanner : World → Bool
unfolding same_scanner
is_pinned_scanner w = same_scanner (lookup (codes "PolyFun") w.packages) w.head w.shown w.present

-- What `validate_report` is called with.
pub record Scanned : Type 0 where
  pub roots : List Text
  pub modules : List Text
  pub output : Output
  pub report : Json

unfoldable pub scanned : World → Scope → Option Scanned
unfolding scope_modules is_pinned_scanner
scanned w scope = do
  _ ← check w.has_metadata
  inventory ← scope_modules w scope
  _ ← check (is_pinned_scanner w)
  _ ← check (elim scope [ main_scope ↦ w.has_root_index | test_scope ↦ true ])
  _ ← check (nat_beq (w.run inventory.0).returncode 0)
  report ← (w.run inventory.0).report
  some (record {
    roots = inventory.0;
    modules = inventory.1;
    output = w.run inventory.0;
    report = report;
  })

unfoldable pub scan : World → Scope → Policy → ℕ
unfolding scanned scan_status
scan w scope p = elim (scanned w scope) [
  | none ↦ 2
  | some s ↦ scan_status s.report s.roots s.modules s.output.stdout scope p
]

-- `status` in the report that is written in any case
pub data Status : Type 0 where
  passed failed broken : Status

unfoldable pub written : World → Scope → Policy → Status
unfolding scan
written w scope p =
    let code = scan w scope p in
    if nat_beq code 0 then passed else if nat_beq code 1 then failed else broken

-- `max` of the exit statuses
unfoldable pub worst : List ℕ → ℕ
worst [] = 0
worst (n ∷ ns) = let m = worst ns in if ltb n m then m else n

unfoldable pub run_main : World → Option Json → Bool → List Scope → ℕ
unfolding scan load_policy worst
run_main w none policy_only scopes = 2
run_main w (some policy) policy_only scopes = elim (load_policy policy) [
  | raise _ ↦ 2
  | ok p ↦ if policy_only then 0 else worst (map (λ scope. scan w scope p) scopes)
]
