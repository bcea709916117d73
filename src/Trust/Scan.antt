-- ===== src/Trust/Scan.antt =====
-- scripts/check_trust.py: `validate_report`, `evaluate`, and the exit status that `scan` computes from them. The report
-- of the scanner and its output are inputs.
use mathlib.Core.List.{foldl}
use sp1_lean.Texts.{decimal, lines}
use sp1_lean.Base.{
  ℕ, zero, suc, ◌+◌, ◌/◌, ◌%◌, ◌^◌, Bool, true, false, not, ◌&&◌, ◌||◌, Option, none, some, List,
  [], ◌∷◌, ◌++◌, map, String, Text, codes, nat_beq, nat_eq, list_eq, option_eq, ◌==◌, contains, all,
  any, choose, gather, if◌then◌else◌, or_else, length, ltb,
}
use sp1_lean.Base.Dict.{Dict, upsert}
use sp1_lean.Base.Order.{text_order}
use sp1_lean.Base.Order.Sorting.{sort_by}
use sp1_lean.Base.Results.{Result, raise, ok, ◌>>=◌, require}
use sp1_lean.Json.{Json, boolean, number, as_str, as_list, as_dict, get}
use sp1_lean.Regex.{Regex, seq, group, lit, plus, is_digit, match, captured}
use sp1_lean.Trust.Policy.{
  Policy, Scope, Category, forbidden, logical, sail_interface, approved_bv, test_native, classify,
  text_of,
}

pub data ReportError : Type 0 where
  roots_mismatch inconsistent_inventory coverage_differs malformed_declaration : ReportError
  duplicate_or_unowned malformed_axioms : ReportError

pub record Declaration : Type 0 where
  pub name : Text
  pub owner : Text
  pub axioms : List Text

unfoldable pub counts_re : Regex
unfolding lit
counts_re = seq (lit (codes "axiomsweep: ")) (
    seq (group "declarations" (plus is_digit)) (
      seq (lit (codes " declarations across "))
        (seq (group "modules" (plus is_digit)) (lit (codes " modules under ")))))

-- One match of the `re.findall` at the start of a line.
unfoldable pub count_at : Text → Option (List Text)
unfolding match captured counts_re
count_at line = elim (match counts_re line) [
  | none ↦ none
  | some c ↦ some (or_else (captured "declarations" c) [] ∷ or_else (captured "modules" c) [] ∷ [])
]

unfoldable pub counts : Text → List (List Text)
unfolding count_at lines
counts output = choose count_at (lines output)

-- `j == n`, which holds for True and 1, and for False and 0
abbrev pub is_count : ℕ → Json → Bool
is_count n (number m) = nat_beq m n
is_count n (boolean true) = nat_beq 1 n
is_count n (boolean false) = nat_beq 0 n
is_count n _ = false

-- `j == texts`
unfoldable pub is_texts : List Text → Json → Bool
is_texts texts j = elim (as_list j) [ none ↦ false | some js ↦ map as_str js == map some texts ]

-- `isinstance(j, str) and j`
abbrev pub is_nonempty : Json → Bool
is_nonempty j = elim (as_str j) [ none ↦ false | some t ↦ not (t == []) ]

unfoldable pub read_axioms : Json → Result ReportError (List Text)
read_axioms j = elim (as_list j) [
  | none ↦ raise malformed_axioms
  | some js ↦ if all is_nonempty js then ok (map text_of js) else raise malformed_axioms
]

abbrev pub owned_by : List Text → Json → Bool
owned_by modules j = elim (as_str j) [ none ↦ false | some m ↦ contains modules m ]

-- The body of the loop, over the names seen.
unfoldable pub check_entry : List Text → List Text → Json → Result ReportError Declaration
unfolding read_axioms
check_entry modules seen j = elim (as_dict j) [
  | none ↦ raise malformed_declaration
  | some d ↦ do
    _ ← require (is_nonempty (get (codes "name") d)) malformed_declaration
    _ ←
        require
          (not (contains seen (text_of (get (codes "name") d)))
            && owned_by modules (get (codes "module") d))
          duplicate_or_unowned
    axioms ← read_axioms (get (codes "axioms") d)
    ok (record {
      name = text_of (get (codes "name") d);
      owner = text_of (get (codes "module") d);
      axioms = axioms;
    })
]

unfoldable pub check_entries :
    List Text → List Text → List Json → Result ReportError (List Declaration)
unfolding check_entry
check_entries modules seen [] = ok []
check_entries modules seen (j ∷ js) = do
  d ← check_entry modules seen j
  ds ← check_entries modules (d.name ∷ seen) js
  ok (d ∷ ds)

unfoldable pub check_inventory :
    Dict Text Json → List Text → Text → Result ReportError (List Declaration)
unfolding check_entries counts decimal
check_inventory report modules output = elim (as_list (get (codes "declarations") report)) [
  | none ↦ raise inconsistent_inventory
  | some js ↦ do
    _ ←
        require
          (not (nat_beq (length js) 0)
            && is_count (length js) (get (codes "declarationCount") report))
          inconsistent_inventory
    _ ←
        require (counts output == ((decimal (length js) ∷ decimal (length modules) ∷ []) ∷ []))
          coverage_differs
    check_entries modules [] js
]

unfoldable pub validate_report :
    Json → List Text → List Text → Text → Result ReportError (List Declaration)
unfolding check_inventory is_texts
validate_report report roots modules output = elim (as_dict report) [
  | none ↦ raise roots_mismatch
  | some d ↦
      if is_texts roots (get (codes "roots") d)
      then check_inventory d modules output
      else raise roots_mismatch
]

abbrev pub category_name : Category → Text
category_name forbidden = codes "forbidden"
category_name logical = codes "logical"
category_name sail_interface = codes "sail"
category_name approved_bv = codes "approved-bv"
category_name test_native = codes "test-native"

-- The pairs that the two loops of `evaluate` go over.
abbrev pub Use : Type 0
Use = Declaration × Text

unfoldable pub uses : List Declaration → List Use
uses = gather (λ d. map (λ a. (d, a)) d.axioms)

abbrev pub add_member : Text → List Text → List Text
add_member a names = if contains names a then names else a ∷ names

unfoldable pub add_class : Scope → Policy → Dict Text (List Text) → Use → Dict Text (List Text)
unfolding classify
add_class scope p classes u =
    upsert (category_name (classify u.1 scope p)) [] (add_member u.1) classes

unfoldable pub classes : List Declaration → Scope → Policy → Dict Text (List Text)
unfolding add_class uses
classes entries scope p =
    map (λ c. (c.0, sort_by (λ t. t) c.1))
      (sort_by (λ c. c.0) (foldl (add_class scope p) [] (uses entries)))

abbrev pub is_forbidden : Category → Bool
is_forbidden forbidden = true
is_forbidden _ = false

unfoldable pub violations : List Declaration → Scope → Policy → List Use
unfolding classify uses
violations entries scope p =
    sp1_lean.Base.keep (λ u. is_forbidden (classify u.1 scope p)) (uses entries)

-- What `scan` returns: 0 with no violation, 1 with some, 2 where the report is refused.
unfoldable pub scan_status : Json → List Text → List Text → Text → Scope → Policy → ℕ
unfolding validate_report violations
scan_status report roots modules output scope p =
    elim (validate_report report roots modules output) [
      | raise _ ↦ 2
      | ok entries ↦ elim (violations entries scope p) [ [] ↦ 0 | _ ∷ _ ↦ 1 ]
    ]
