-- ===== src/Trust/Run/Passes.antt =====
-- What a library is for which the trust check exits with 0.
use mathlib.Core.List.Memᴰ
use sp1_lean.Base.{
  ℕ, ◌≡◌, ◌≢◌, refl, sym, ap, ◌∙◌, subst, Bool, true, false, ◌↔◌, inl, inr, Option, none, some,
  List, [], ◌∷◌, ◌++◌, map, Text, codes, arith, nat_beq, nat_eq, list_eq, option_eq, ◌==◌, eq_iff,
  contains, contains_iff, gather, if◌then◌else◌, ltb, Memᴰ, Memᴰ-nil, Memᴰ-cons, Memᴰ-append,
  Memᴰ-gather, here, there, Bool-cases, >>=-some, Option-cases, List-cases, and_both,
}
use mathlib.Core.Option.{some-injective}
use sp1_lean.Base.Dict.{lookup}
use sp1_lean.Base.Order.{text_order}
use sp1_lean.Base.Order.Sorting.{Memᴰ-sort_by}
use sp1_lean.Base.Results.{ok, Result-cases}
use sp1_lean.Texts.{strip}
use sp1_lean.Json.{Json}
use sp1_lean.Trust.Policy.{Policy, Scope, main_scope, test_scope, load_policy}
use sp1_lean.Trust.Scan.{Declaration, validate_report}
use sp1_lean.Trust.Verdict.{Allowed, scan_passes}
use sp1_lean.Trust.Run.{
  same_scanner, Output, World, main_roots, scope_roots, dotted, modules_below, once, source_modules,
  check, scope_modules, is_pinned_scanner, Scanned, scanned, scan, worst, run_main,
}

-- A module of a root: that of a file below it, or its own.
pub data IsModule (w : World) (root m : Text) : Type 0 where
  file : (parts : List Text) → Memᴰ parts (w.below root) → m ≡ dotted parts → IsModule w root m
  own : w.is_file root ≡ true → m ≡ root → IsModule w root m

once_iff : (ms : List Text) (m : Text) → Memᴰ m (once ms) ↔ Memᴰ m ms
unfolding once
once_iff [] m = (λ i. i, λ i. i)
once_iff (x ∷ ms) m = elim (Bool-cases (contains ms x)) [
  | inl q ↦
      rw (q, once)
        (
          λ i. there ((once_iff ms m).0 i),
          λ i. (once_iff ms m).1 (elim ((Memᴰ-cons m x ms).0 i) [
            | inl e ↦ subst (λ y. Memᴰ y ms) (sym e) ((contains_iff ms x).0 q)
            | inr j ↦ j
          ]),
        )
  | inr q ↦ rw (q, once) (ground (arith, Memᴰ-cons m x ms, Memᴰ-cons m x (once ms), once_iff ms m))
]

root_file_iff :
    (b : Bool) (root : Text) (parts : List Text)
    → Memᴰ parts (if b then (root ∷ []) ∷ [] else []) ↔ ((b ≡ true) × (parts ≡ root ∷ []))
root_file_iff true root parts = (
  λ i. (refl, Memᴰ.eq_of_singleton i),
  λ h. subst (λ x. Memᴰ x ((root ∷ []) ∷ [])) (sym h.1) here,
)
root_file_iff false root parts = (λ i. absurd (Memᴰ-nil i), λ h. absurd (cc h.0))

modules_below_iff : (w : World) (root m : Text) → Memᴰ m (modules_below w root) ↔ IsModule w root m
unfolding modules_below dotted
modules_below_iff w root m =
    let files = w.below root ++ (if w.is_file root then (root ∷ []) ∷ [] else []) in
    let sorted = Memᴰ-sort_by (λ (x : Text). x) m (map dotted files) in
    (
      λ i.
          let (parts, j, q) = Memᴰ.of_map dotted files (sorted.0 i) in
          elim ((Memᴰ-append parts (w.below root) _).0 j) [
            | inl k ↦ file parts k (sym q)
            | inr k ↦
                let (there_is, one) = (root_file_iff (w.is_file root) root parts).0 k in
                own there_is (sym q ∙ ap dotted one)
          ],
      λ h. sorted.1 (elim h [
        | file parts k q ↦
            subst (λ x. Memᴰ x (map dotted files)) (sym q)
              (Memᴰ.map dotted ((Memᴰ-append parts (w.below root) _).1 (inl k)))
        | own there_is q ↦
            subst (λ x. Memᴰ x (map dotted files)) (sym q)
              (Memᴰ.map dotted (
                (Memᴰ-append (root ∷ []) (w.below root) _).1
                  (inr ((root_file_iff (w.is_file root) root (root ∷ [])).1 (there_is, refl)))))
      ]),
    )

source_modules_iff :
    (w : World) (scope : Scope) (m : Text)
    → Memᴰ m (source_modules w scope)
      ↔ ((root : Text) × Memᴰ root (scope_roots scope) × IsModule w root m)
unfolding source_modules
source_modules_iff w scope m =
    let sorted =
      Memᴰ-sort_by (λ (x : Text). x) m (once (gather (modules_below w) (scope_roots scope))) in
    let single = once_iff (gather (modules_below w) (scope_roots scope)) m in
    let found = Memᴰ-gather (modules_below w) m (scope_roots scope) in
    (
      λ i.
          let (root, j, k) = found.0 (single.0 (sorted.0 i)) in
          (root, j, (modules_below_iff w root m).0 k),
      λ (root, j, k). sorted.1 (single.1 (found.1 (root, j, (modules_below_iff w root m).1 k))),
    )

check-true : (b : Bool) (u : Unit {0}) → check b ≡ some u → b ≡ true
check-true true u h = refl
check-true false u h = absurd (cc h)

-- The scanner that is there is that of the pinned revision, which is checked out.
pub record IsPinnedScanner (pinned head : Option Text) (shown : Text → Option Text)
    (present : Option Text) : Type 0 where
  pub pin : Text
  pub revision : Text
  pub is_pin : pinned ≡ some pin
  pub is_head : head ≡ some revision
  pub at_pin : strip revision ≡ pin
  pub there_is : present ≢ none
  pub same : present ≡ shown pin

same_scanner-IsPinnedScanner :
    (pinned head : Option Text) (shown : Text → Option Text) (present : Option Text)
    → same_scanner pinned head shown present ≡ true
    → IsPinnedScanner pinned head shown present
unfolding same_scanner
same_scanner-IsPinnedScanner none head shown present h = absurd (cc h)
same_scanner-IsPinnedScanner (some pin) none shown present h = absurd (cc h)
same_scanner-IsPinnedScanner (some pin) (some head) shown present h =
    elim (Option-cases (shown pin)) [
      | inl q ↦ absurd (cc (rw (q, same_scanner) at h))
      | inr (text, q) ↦
          let (at_pin, same) =
            and_both (strip head == pin) (present == some text) (rw (q, same_scanner) at h) in
          let equal = (eq_iff present (some text)).0 same in
          record {
            pin = pin;
            revision = head;
            is_pin = refl;
            is_head = refl;
            at_pin = (eq_iff (strip head) pin).0 at_pin;
            there_is = λ n. absurd (cc (sym n ∙ equal));
            same = equal ∙ sym q;
          }
    ]

two_not_zero : ¬ (◌≡◌ {A = ℕ} 2 0)
two_not_zero e = omega (arith, e)

-- What a scan that returns 0 has found.
pub record IsScanned (w : World) (scope : Scope) (p : Policy) : Type 0 where
  pub roots : List Text
  pub modules : List Text
  pub modules_iff :
      (m : Text)
      → Memᴰ m modules ↔ ((root : Text) × Memᴰ root (scope_roots scope) × IsModule w root m)
  pub roots_of : (scope ≡ main_scope → roots ≡ main_roots) × (scope ≡ test_scope → roots ≡ modules)
  pub scanner : IsPinnedScanner (lookup (codes "PolyFun") w.packages) w.head w.shown w.present
  pub ran : (w.run roots).returncode ≡ 0
  pub report : Json
  pub is_report : (w.run roots).report ≡ some report
  pub entries : List Declaration
  pub validated : validate_report report roots modules (w.run roots).stdout ≡ ok entries
  pub allowed : (d : Declaration) (a : Text) → Memᴰ d entries → Memᴰ a d.axioms → Allowed scope p a

record IsInventory (w : World) (scope : Scope) (i : List Text × List Text) : Type 0 where
  pub modules : i.1 ≡ source_modules w scope
  pub roots_of : (scope ≡ main_scope → i.0 ≡ main_roots) × (scope ≡ test_scope → i.0 ≡ i.1)

scope_modules-IsInventory :
    (w : World) (scope : Scope) (i : List Text × List Text)
    → scope_modules w scope ≡ some i
    → IsInventory w scope i
unfolding scope_modules
scope_modules-IsInventory w main_scope i h = elim (List-cases (source_modules w main_scope)) [
  | inl q ↦ absurd (cc (rw (q, scope_modules) at h))
  | inr (m, ms, q) ↦
      subst (IsInventory w main_scope) (some-injective _ i (rw (q, scope_modules) at h))
        (record { modules = sym q; roots_of = (λ _. refl, λ e. absurd (cc e)) })
]
scope_modules-IsInventory w test_scope i h = elim (List-cases (source_modules w test_scope)) [
  | inl q ↦ absurd (cc (rw (q, scope_modules) at h))
  | inr (m, ms, q) ↦
      subst (IsInventory w test_scope) (some-injective _ i (rw (q, scope_modules) at h))
        (record { modules = sym q; roots_of = (λ e. absurd (cc e), λ _. refl) })
]

module _ (w : World) (scope : Scope) where
  record IsReady (s : Scanned) : Type 0 where
    pub inventory : IsInventory w scope (s.roots, s.modules)
    pub scanner : is_pinned_scanner w ≡ true
    pub output_is : s.output ≡ w.run s.roots
    pub ran : (w.run s.roots).returncode ≡ 0
    pub is_report : (w.run s.roots).report ≡ some s.report

  scanned-IsReady : (s : Scanned) → scanned w scope ≡ some s → IsReady s
  unfolding scanned
  scanned-IsReady s h =
      let (u0, q0, h0) = >>=-some (check w.has_metadata) _ s h in
      let (i, q1, h1) = >>=-some (scope_modules w scope) _ s h0 in
      let (u2, q2, h2) = >>=-some (check (is_pinned_scanner w)) _ s h1 in
      let (u3, q3, h3) =
        >>=-some (check (elim scope [ main_scope ↦ w.has_root_index | test_scope ↦ true ])) _ s
          h2 in
      let (u4, q4, h4) = >>=-some (check (nat_beq (w.run i.0).returncode 0)) _ s h3 in
      let (report, q5, h5) = >>=-some (w.run i.0).report _ s h4 in
      subst IsReady (some-injective _ s h5) (record {
        inventory = scope_modules-IsInventory w scope i q1;
        scanner = check-true (is_pinned_scanner w) u2 q2;
        output_is = refl;
        ran =
            (eq_iff (w.run i.0).returncode 0).0
              (check-true (nat_beq (w.run i.0).returncode 0) u4 q4);
        is_report = q5;
      })

  scan-IsScanned :
      (policy : Json) (p : Policy)
      → load_policy policy ≡ ok p
      → scan w scope p ≡ 0
      → IsScanned w scope p
  unfolding scan
  scan-IsScanned policy p loaded h = elim (Option-cases (scanned w scope)) [
    | inl q ↦ absurd (two_not_zero (rw (q, scan) at h))
    | inr (s, q) ↦
        let ready = scanned-IsReady s q in
        let (entries, valid, allowed) =
          scan_passes policy s.report s.roots s.modules s.output.stdout scope p loaded
            (rw (q, scan) at h) in
        record {
          roots = s.roots;
          modules = s.modules;
          modules_iff = λ m.
              subst
                (λ ms.
                  Memᴰ m ms ↔ ((root : Text) × Memᴰ root (scope_roots scope) × IsModule w root m))
                (sym ready.inventory.modules) (source_modules_iff w scope m);
          roots_of = ready.inventory.roots_of;
          scanner =
              same_scanner-IsPinnedScanner (lookup (codes "PolyFun") w.packages) w.head w.shown
                w.present (pinned ready.scanner);
          ran = ready.ran;
          report = s.report;
          is_report = ready.is_report;
          entries = entries;
          validated =
              subst
                (λ (o : Output). validate_report s.report s.roots s.modules o.stdout ≡ ok entries)
                ready.output_is valid;
          allowed = allowed;
        }
  ]
    where
      pinned :
          is_pinned_scanner w ≡ true
          → same_scanner (lookup (codes "PolyFun") w.packages) w.head w.shown w.present ≡ true
      pinned e = e

worst-zero : (ns : List ℕ) → worst ns ≡ 0 → (n : ℕ) → Memᴰ n ns → n ≡ 0
unfolding worst
worst-zero [] h n i = absurd (Memᴰ-nil i)
worst-zero (x ∷ ns) h n i = elim (Bool-cases (ltb x (worst ns))) [
  | inl q ↦ let z : worst ns ≡ 0 = rw q at h in absurd (ground (arith, q, z))
  | inr q ↦
      let z : x ≡ 0 = rw q at h in
      let small : worst ns ≡ 0 = ground (arith, q, z) in
      elim ((Memᴰ-cons n x ns).0 i) [ inl e ↦ e ∙ z | inr j ↦ worst-zero ns small n j ]
]

-- If check_trust.py exits with 0 and was to do more than check the policy, `load_policy` accepts the policy, and for each scope that was asked for: the modules are those of the source
-- files below the roots of the scope, the scanner is the one of the pinned revision, it ran without an error on these roots, `validate_report` accepts its report for these
-- modules, and every axiom of every declaration in it is one that the scope may rest on.
pub run_main-IsScanned :
    (w : World) (policy : Option Json) (scopes : List Scope)
    → run_main w policy false scopes ≡ 0
    → (j : Json) × (p : Policy) × (policy ≡ some j)
      × (load_policy j ≡ ok p)
      × ((scope : Scope) → Memᴰ scope scopes → IsScanned w scope p)
unfolding run_main
run_main-IsScanned w none scopes h = absurd (two_not_zero h)
run_main-IsScanned w (some j) scopes h = elim (Result-cases (load_policy j)) [
  | inl (e, q) ↦ absurd (two_not_zero (rw (q, run_main) at h))
  | inr (p, q) ↦ (
    j,
    p,
    refl,
    q,
    λ scope i. scan-IsScanned w scope j p q (
        worst-zero (map (λ s. scan w s p) scopes) (rw (q, run_main) at h) (scan w scope p)
          (Memᴰ.map (λ s. scan w s p) i)),
  )
]
