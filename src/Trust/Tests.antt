-- ===== src/Trust/Tests.antt =====
-- A policy, and a report of two declarations.
use sp1_lean.Texts.{decimal}
use sp1_lean.Base.{
  ℕ, ◌≡◌, ◌≢◌, ◌↔◌, refl, Bool, true, false, List, [], ◌∷◌, ◌++◌, Memᴰ, Text, codes, nat_eq,
  list_eq, here, there, length,
}
use sp1_lean.Base.Results.{ok}
use sp1_lean.Json.{Json, number, str, array, object, Items, item, no_items, member, no_members}
use sp1_lean.Trust.Policy.{
  Policy, main_scope, classify, load_policy, native_decide, bv_decide, standard_axioms,
}
use sp1_lean.Trust.Safe.{IsSafe, load_policy-IsSafe}
use sp1_lean.Trust.Scan.{Declaration, is_forbidden, validate_report, scan_status, counts}
use sp1_lean.Trust.Verdict.{Allowed, classify-Allowed}
use sp1_lean.Base.{Option, some, none, ◌==◌}
use sp1_lean.Trust.Policy.{Scope, test_scope}
use sp1_lean.Trust.Run.{World, source_modules, run_main}
use sp1_lean.Trust.Run.Passes.{IsScanned, run_main-IsScanned}
use sp1_lean.Trust.Inventory.{IsInventory, validate_report-IsInventory}

abbrev text_items : List Text → Items
text_items [] = no_items
text_items (t ∷ ts) = item (str t) (text_items ts)

abbrev texts : List Text → Json
texts ts = array (text_items ts)

abbrev group_of : List Text → Json
group_of names =
    object (
      member (codes "reason") (str (codes "why")) (member (codes "names") (texts names) no_members))

abbrev bv_name : Text
bv_name = codes "SP1Clean.f._native.bv_decide"

abbrev policy_json : Json
policy_json = object (
    member (codes "version") (number 1) (
      member (codes "standard") (texts standard_axioms) (
        member (codes "sail") (group_of (codes "plat_term_write" ∷ [])) (
          member (codes "bvDecide") (group_of (bv_name ∷ [])) (
            member (codes "testNativeTactics") (texts (native_decide ∷ bv_decide ∷ []))
              no_members)))))

abbrev policy : Policy
policy = record {
  standard = standard_axioms;
  sail_names = codes "plat_term_write" ∷ [];
  bv_names = bv_name ∷ [];
  tactics = native_decide ∷ bv_decide ∷ [];
}

policy-loaded : load_policy policy_json ≡ ok policy
unfolding load_policy sp1_lean.Base.all sp1_lean.Base.contains sp1_lean.Base.list_beq
    sp1_lean.Base.Dict.lookup sp1_lean.Base.any
policy-loaded = refl

load_policy-IsSafe_example : IsSafe policy
load_policy-IsSafe_example = load_policy-IsSafe policy_json policy policy-loaded

policy-IsSafe : IsSafe policy
policy-IsSafe = load_policy-IsSafe policy_json policy policy-loaded

classify-Allowed_example :
    (is_forbidden (classify (codes "T.t._native.native_decide") main_scope policy) ≡ false)
    ↔ Allowed main_scope policy (codes "T.t._native.native_decide")
classify-Allowed_example =
    classify-Allowed main_scope policy policy-IsSafe (codes "T.t._native.native_decide")

abbrev first : Declaration
first = record {
  name = codes "SP1Clean.f";
  owner = codes "SP1Clean";
  axioms = codes "propext" ∷ bv_name ∷ [];
}

abbrev second : Declaration
second = record {
  name = codes "SP1Clean.g";
  owner = codes "SP1Clean";
  axioms = codes "sorryAx" ∷ [];
}

abbrev roots : List Text
roots = codes "SP1Clean" ∷ []

abbrev report_on : List Text → Json
report_on scanned_roots = object (
    member (codes "roots") (texts scanned_roots) (
      member (codes "declarationCount") (number 1) (
        member (codes "declarations")
          (array (
            item
              (object (
                member (codes "name") (str (codes "SP1Clean.f")) (
                  member (codes "module") (str (codes "SP1Clean"))
                    (member (codes "axioms") (texts (codes "propext" ∷ bv_name ∷ [])) no_members))))
              no_items))
          no_members)))

abbrev report : Json
report = report_on roots

abbrev output : Text
output = codes "start" ++ (10 ∷ codes "axiomsweep: 1 declarations across 1 modules under SP1Clean")

report-passes : scan_status report roots roots output main_scope policy ≡ 0
unfolding scan_status sp1_lean.Base.Dict.lookup sp1_lean.Base.list_beq sp1_lean.Base.option_beq
    sp1_lean.Base.choose sp1_lean.Base.contains sp1_lean.Base.all sp1_lean.Base.keep
    sp1_lean.Base.gather
report-passes = refl

report-accepted : validate_report report roots roots output ≡ ok (first ∷ [])
unfolding validate_report sp1_lean.Base.Dict.lookup sp1_lean.Base.list_beq sp1_lean.Base.option_beq
    sp1_lean.Base.choose sp1_lean.Base.contains sp1_lean.Base.all
report-accepted = refl

validate_report-IsInventory_example :
    IsInventory roots [] (first ∷ [])
    × (length (first ∷ []) ≢ 0)
    × (counts output ≡ (decimal (length (first ∷ [])) ∷ decimal (length roots) ∷ []) ∷ [])
validate_report-IsInventory_example =
    validate_report-IsInventory report roots roots output (first ∷ []) report-accepted

-- A checkout with one module and the pinned scanner.
abbrev world : World
world = record {
  below = λ root. [];
  is_file = λ root. root == codes "SP1Clean";
  packages = (codes "PolyFun", codes "4f2a") ∷ [];
  head = some (codes "4f2a" ++ (10 ∷ []));
  shown = λ pin. some (codes "scanner");
  present = some (codes "scanner");
  has_metadata = true;
  has_root_index = true;
  run = λ scanned_roots. record {
    returncode = 0;
    stdout = output;
    report = some (report_on scanned_roots);
  };
}

modules_test :
    source_modules (record world { below = λ root. (root ∷ codes "F" ∷ []) ∷ [] }) test_scope
    ≡ codes "SP1CleanTest.F" ∷ []
unfolding source_modules sp1_lean.Base.Order.Sorting.sort_by sp1_lean.Base.gather
    sp1_lean.Base.list_beq sp1_lean.Base.contains
modules_test = refl

main-passes : run_main world (some policy_json) false (main_scope ∷ []) ≡ 0
unfolding run_main sp1_lean.Base.all sp1_lean.Base.contains sp1_lean.Base.list_beq
    sp1_lean.Base.Dict.lookup sp1_lean.Base.any sp1_lean.Base.Order.Sorting.sort_by
    sp1_lean.Base.gather sp1_lean.Base.option_beq sp1_lean.Base.choose sp1_lean.Base.keep
main-passes = refl

other_scanner_test :
    run_main
      (record world { present = some (codes "other") })
      (some policy_json)
      false
      (main_scope ∷ [])
    ≡ 2
unfolding run_main sp1_lean.Base.all sp1_lean.Base.contains sp1_lean.Base.list_beq
    sp1_lean.Base.Dict.lookup sp1_lean.Base.any sp1_lean.Base.Order.Sorting.sort_by
    sp1_lean.Base.gather sp1_lean.Base.option_beq
other_scanner_test = refl

empty_test : run_main world (some policy_json) false (main_scope ∷ test_scope ∷ []) ≡ 2
unfolding run_main sp1_lean.Base.all sp1_lean.Base.contains sp1_lean.Base.list_beq
    sp1_lean.Base.Dict.lookup sp1_lean.Base.any sp1_lean.Base.Order.Sorting.sort_by
    sp1_lean.Base.gather sp1_lean.Base.option_beq sp1_lean.Base.choose sp1_lean.Base.keep
empty_test = refl

run_main-IsScanned_example :
    (j : Json) × (p : Policy) × (◌≡◌ {A = Option Json} (some policy_json) (some j))
    × (load_policy j ≡ ok p)
    × ((scope : Scope) → Memᴰ scope (main_scope ∷ []) → IsScanned world scope p)
run_main-IsScanned_example =
    run_main-IsScanned world (some policy_json) (main_scope ∷ []) main-passes
