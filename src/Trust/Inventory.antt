-- ===== src/Trust/Inventory.antt =====
-- The reports that `validate_report` accepts: each declaration is named once and stands in a module of the inventory.
use mathlib.Core.Logic.{⊎_elim}
use mathlib.Core.List.Memᴰ
use sp1_lean.Texts.{decimal}
use sp1_lean.Base.{
  suc, ◌≡◌, ◌≢◌, refl, sym, ap, ◌∙◌, subst, true, false, not, ◌&&◌, inl, inr, Option, none, some,
  List, [], ◌∷◌, Memᴰ, arith, Text, codes, nat_beq, nat_beq_iff, nat_eq, list_eq, option_eq, ◌==◌,
  eq_iff, contains, contains_iff, Bool-cases, and_both, Option-cases, there, Memᴰ-nil, length,
  or_else,
}
use sp1_lean.Base.Order.Sorting.{Apart}
use sp1_lean.Base.Dict.{Dict}
use sp1_lean.Base.Results.{ok, require, >>=-ok, require-ok, raise-not-ok, ok-injective}
use sp1_lean.Json.{Json, as_dict, as_list, as_str, get}
use sp1_lean.Trust.Policy.{text_of}
use sp1_lean.Trust.Scan.{
  malformed_declaration, inconsistent_inventory, coverage_differs, duplicate_or_unowned,
  Declaration, counts, is_count, is_texts, is_nonempty, read_axioms, owned_by, check_entry,
  check_entries, check_inventory, validate_report,
}

owner_listed :
    (modules : List Text) (j : Json) → owned_by modules j ≡ true → Memᴰ (text_of j) modules
owner_listed modules j h = go (as_str j) h
  where
    go :
        (o : Option Text)
        → (elim o [ none ↦ false | some m ↦ contains modules m ]) ≡ true
        → Memᴰ (or_else o []) modules
    go none k = absurd (cc k)
    go (some t) k = (contains_iff modules t).0 k

-- One declaration that was read.
pub record IsOwned (modules seen : List Text) (d : Declaration) : Type 0 where
  pub fresh : ¬ Memᴰ d.name seen
  pub listed : Memᴰ d.owner modules

check_entry-IsOwned :
    (modules seen : List Text) (j : Json) (d : Declaration)
    → check_entry modules seen j ≡ ok d
    → IsOwned modules seen d
unfolding check_entry
check_entry-IsOwned modules seen j d h = elim (Option-cases (as_dict j)) [
  | inl e ↦ absurd (raise-not-ok malformed_declaration d (rw (e, check_entry) at h))
  | inr (m, e) ↦
      let name = get (codes "name") m in
      let owner = get (codes "module") m in
      let (u, q, h1) =
        >>=-ok (require (is_nonempty name) malformed_declaration) _ d (rw (e, check_entry) at h) in
      let (v, r, h2) =
        >>=-ok
          (require (not (contains seen (text_of name)) && owned_by modules owner)
            duplicate_or_unowned)
          _ d h1 in
      let (axioms, t, h3) = >>=-ok (read_axioms (get (codes "axioms") m)) _ d h2 in
      let (new, owned) =
        and_both (not (contains seen (text_of name))) (owned_by modules owner)
          (require-ok _ _ v r) in
      subst (IsOwned modules seen) (ok-injective _ d h3) (record {
        fresh = λ i. absurd (cc (new, (contains_iff seen (text_of name)).1 i));
        listed = owner_listed modules owner owned;
      })
]

-- The declarations that the loop returns.
pub record IsInventory (modules seen : List Text) (ds : List Declaration) : Type 0 where
  pub owned : (d : Declaration) → Memᴰ d ds → IsOwned modules seen d
  pub distinct : Apart (λ (d e : Declaration). e.name ≢ d.name) ds

check_entries-IsInventory :
    (modules seen : List Text) (js : List Json) (ds : List Declaration)
    → check_entries modules seen js ≡ ok ds
    → IsInventory modules seen ds × (length ds ≡ length js)
unfolding check_entries
check_entries-IsInventory modules seen [] ds h =
    subst (λ xs. IsInventory modules seen xs × (length xs ≡ 0)) (ok-injective [] ds h)
      (record { owned = λ d i. absurd (Memᴰ-nil i); distinct = tt }, refl)
check_entries-IsInventory modules seen (j ∷ js) ds h =
    let (d, q, h1) = >>=-ok (check_entry modules seen j) _ ds h in
    let (es, r, h2) = >>=-ok (check_entries modules (d.name ∷ seen) js) _ ds h1 in
    let (rest, size) = check_entries-IsInventory modules (d.name ∷ seen) js es r in
    let first = check_entry-IsOwned modules seen j d q in
    subst (λ xs. IsInventory modules seen xs × (length xs ≡ suc (length js)))
      (ok-injective (d ∷ es) ds h2)
      (
        record {
          owned = λ e i.
              ⊎_elim (λ s. subst (IsOwned modules seen) (sym s) first)
                (λ k. record {
                  fresh = λ m. (rest.owned e k).fresh (there m);
                  listed = (rest.owned e k).listed;
                })
                (Memᴰ.cases_cons i);
          distinct = (λ e i s. (rest.owned e i).fresh (Memᴰ.head s), rest.distinct);
        },
        ap suc size,
      )

-- A report that `validate_report` accepts lists at least one declaration; no two declarations share a name, each stands in a
-- module of the source inventory, and the scanner's output counts exactly these declarations and the inventory's modules.
pub validate_report-IsInventory :
    (report : Json) (roots modules : List Text) (output : Text) (ds : List Declaration)
    → validate_report report roots modules output ≡ ok ds
    → IsInventory modules [] ds
      × (length ds ≢ 0)
      × (counts output ≡ (decimal (length ds) ∷ decimal (length modules) ∷ []) ∷ [])
unfolding validate_report
validate_report-IsInventory report roots modules output ds h =
    elim (Option-cases (as_dict report)) [
      | inl e ↦ absurd (raise-not-ok _ ds (rw (e, validate_report) at h))
      | inr (d, e) ↦ elim (Bool-cases (is_texts roots (get (codes "roots") d))) [
        | inr f ↦ absurd (raise-not-ok _ ds (rw f at (rw (e, validate_report) at h)))
        | inl t ↦ inventory d (rw t at (rw (e, validate_report) at h))
      ]
    ]
  where
    inventory :
        (d : Dict Text Json)
        → check_inventory d modules output ≡ ok ds
        → IsInventory modules [] ds
          × (length ds ≢ 0)
          × (counts output ≡ (decimal (length ds) ∷ decimal (length modules) ∷ []) ∷ [])
    inventory d k = elim (Option-cases (as_list (get (codes "declarations") d))) [
      | inl e ↦ absurd (raise-not-ok _ ds (rw (e, check_inventory) at k))
      | inr (js, e) ↦
          let full =
            not (nat_beq (length js) 0)
            && is_count (length js) (get (codes "declarationCount") d) in
          let pair = (decimal (length js) ∷ decimal (length modules) ∷ []) ∷ [] in
          let (u, q, k1) =
            >>=-ok (require full inconsistent_inventory) _ ds (rw (e, check_inventory) at k) in
          let (v, r, k2) = >>=-ok (require (counts output == pair) coverage_differs) _ ds k1 in
          let (found, size) = check_entries-IsInventory modules [] js ds k2 in
          let (some_there, _) =
            and_both (not (nat_beq (length js) 0)) _ (require-ok full inconsistent_inventory u q) in
          (
            found,
            λ z. ground (arith, nat_beq_iff (length js) 0, size, some_there),
            (eq_iff (counts output) pair).0
                  (require-ok (counts output == pair) coverage_differs v r)
                ∙ ap (λ n. (decimal n ∷ decimal (length modules) ∷ []) ∷ []) (sym size),
          )
    ]
