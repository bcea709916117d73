-- ===== src/Release/Reviewed.antt =====
-- What a release surface is on which `coverage_errors` reports nothing.
use sp1_lean.Base.{
  Comparable, ◌≡◌, refl, Bool, true, not, ◌&&◌, inl, inr, ◌↔◌, Option, some, List, [], ◌∷◌, ◌++◌,
  map, Text, codes, arith, nat_eq, list_eq, option_eq, ◌==◌, eq_iff, Memᴰ, Option-cases, gather,
  all, all-mem, contains, contains_iff, length,
}
use sp1_lean.Base.{and_both}
use sp1_lean.Base.Dict.{Dict, lookup}
use sp1_lean.Pins.Sp1.{ensure}
use sp1_lean.Pins.Sp1.Pinned.{ensure-nil, append-nil_iff, gather-nil_iff}
use sp1_lean.Release.{
  Group, Shape, Table, Slot, Native, Inventory, Review, other_revision, layouts_differ,
  missing_verifier, native_differs, occurrences_lost, public_width_differs, invalid_status,
  comparison_differs, uncompared, inventory_differs, user_only, unknown_native, legacy_lookup,
  missing_evidence, unknown_group, same_shape, same_tables, range, names_of, same_set, statuses,
  kinds, is_matched, group_errors, layout_errors, inventory_errors, table_errors, native_errors,
  layouts_of, coverage_errors,
}

-- A group has a known status and kind and a limit, it is compared exactly if its kind says so and whenever it is exported whole, and its evidence exists.
pub record IsGroup (is_file : Text → Bool) (g : Group) : Type 0 where
  pub status : Memᴰ g.export statuses
  pub limited : ¬ (g.limit ≡ [])
  pub kind : Memᴰ g.kind kinds
  pub compared : (g.kind ≡ codes "none") ↔ (g.comparison ≡ [])
  pub component_compared : g.export ≡ codes "component" → ¬ (g.comparison ≡ [])
  pub evidence : (path : Text) → Memᴰ path (g.lean ++ g.comparison) → is_file path ≡ true

-- A layout of the released code is in a group of the review, and in no user group if it is the supervisor's.
pub record IsLayout (review : Review) (mode name : Text) : Type 0 where
  pub group : Text
  pub is_group : lookup name review.released ≡ some group
  pub known : Memᴰ group (names_of review.groups)
  pub not_user : mode ≡ codes "supervisor" → ¬ (group ≡ codes "user")

-- A native table is in a group of the review, and in none that is exported whole if it has lookups.
pub record IsTable (review : Review) (t : Table) : Type 0 where
  pub known : Memᴰ t.group (names_of review.groups)
  pub no_lookups :
      (g : Group)
      → lookup t.group review.groups ≡ some g
      → g.export ≡ codes "component"
      → t.shape.lookups ≡ []

-- The native inventory has the tables of the review, in order and each in its slot, and its public width.
pub record IsNative (review : Review) (native : Native) : Type 0 where
  pub tables :
      map (λ (s : Slot). s.shape) native.tables ≡ map (λ (t : Table). t.shape) review.native
  pub slots : map (λ (s : Slot). s.index) native.tables ≡ range 0 (length native.tables)
  pub width : review.public_width ≡ native.public_width

pub record IsReviewed (digest : Text → Text) (is_file : Text → Bool) (review : Review)
    (inventories : Dict Text Inventory) (revision : Text) (native : Option Native) : Type 0 where
  pub same_revision : review.revision ≡ revision
  pub groups : (entry : Text × Group) → Memᴰ entry review.groups → IsGroup is_file entry.1
  pub layouts :
      (name : Text) → Memᴰ name (names_of review.released) ↔ Memᴰ name (layouts_of inventories)
  pub digests :
      (entry : Text × Inventory)
      → Memᴰ entry inventories
      → lookup entry.0 review.inventories ≡ some (digest entry.1.content)
  pub classified :
      (entry : Text × Inventory)
      → Memᴰ entry inventories
      → (name : Text) → Memᴰ name entry.1.layouts
      → IsLayout review entry.0 name
  pub tables : (t : Table) → Memᴰ t review.native → IsTable review t
  pub verifier : Memᴰ review.verifier (names_of review.groups)
  pub installed : (n : Native) → native ≡ some n → IsNative review n

same_shape_eq : (a b : Shape) → same_shape a b ≡ true → a ≡ b
same_shape_eq a b h =
    let p : a.name ≡ b.name = ground (arith, eq_iff a.name b.name) in
    let q : a.width ≡ b.width = ground (arith, eq_iff a.width b.width) in
    let r : a.input_width ≡ b.input_width = ground (arith, eq_iff a.input_width b.input_width) in
    let s : a.fixed_width ≡ b.fixed_width = ground (arith, eq_iff a.fixed_width b.fixed_width) in
    let t : a.lookups ≡ b.lookups = ground (arith, eq_iff a.lookups b.lookups) in
    λ i. record { name = p i; width = q i; input_width = r i; fixed_width = s i; lookups = t i }

same_tables-shapes :
    (actual : List Slot) (expected : List Table)
    → same_tables actual expected ≡ true
    → map (λ (s : Slot). s.shape) actual ≡ map (λ (t : Table). t.shape) expected
unfolding same_tables
same_tables-shapes [] [] h = refl
same_tables-shapes [] (e ∷ expected) h = absurd (cc h)
same_tables-shapes (a ∷ actual) [] h = absurd (cc h)
same_tables-shapes (a ∷ actual) (e ∷ expected) h =
    let p : a.shape ≡ e.shape = same_shape_eq a.shape e.shape (ground arith) in
    let q = same_tables-shapes actual expected (ground arith) in cc (p, q)

not_empty : {A : Type 0} ⦃e : Comparable A⦄ (xs : List A) → not (xs == []) ≡ true → ¬ (xs ≡ [])
not_empty xs h = ground (arith, eq_iff xs [])

is_matched_iff : (g : Group) → is_matched g ≡ true → (g.kind ≡ codes "none") ↔ (g.comparison ≡ [])
is_matched_iff g h = ground (arith, eq_iff g.kind (codes "none"), eq_iff g.comparison [])

group_errors-IsGroup :
    (is_file : Text → Bool) (entry : Text × Group)
    → group_errors is_file entry ≡ []
    → IsGroup is_file entry.1
unfolding group_errors
group_errors-IsGroup is_file (name, g) h =
    let (a, h1) =
      (append-nil_iff
          (ensure (contains statuses g.export && not (g.limit == [])) (invalid_status name)) _).0
        h in
    let (b, h2) =
      (append-nil_iff (ensure (contains kinds g.kind && is_matched g) (comparison_differs name))
          _).0
        h1 in
    let (c, d) =
      (append-nil_iff
          (ensure (not ((g.export == codes "component") && (g.comparison == []))) (uncompared name))
          _).0
        h2 in
    let (status, limit) = and_both _ _ ((ensure-nil _ (invalid_status name)).0 a) in
    let (kind, matched) = and_both _ _ ((ensure-nil _ (comparison_differs name)).0 b) in
    let compared = (ensure-nil _ (uncompared name)).0 c in
    record {
      status = (contains_iff statuses g.export).0 status;
      limited = not_empty g.limit limit;
      kind = (contains_iff kinds g.kind).0 kind;
      compared = is_matched_iff g matched;
      component_compared =
          λ e. ground (arith, eq_iff g.export (codes "component"), eq_iff g.comparison []);
      evidence = λ path m.
          (ensure-nil (is_file path) (missing_evidence name path)).0
            ((gather-nil_iff _ _).0 d path m);
    }

layout_errors-IsLayout :
    (review : Review) (mode name : Text)
    → layout_errors review mode name ≡ []
    → IsLayout review mode name
unfolding layout_errors
layout_errors-IsLayout review mode name h = elim (Option-cases (lookup name review.released)) [
  | inl q ↦ absurd (cc (rw (q, layout_errors) at h))
  | inr (group, q) ↦
      let (a, b) =
        (append-nil_iff (ensure (contains (names_of review.groups) group) (unknown_group mode name))
            _).0
          (rw (q, layout_errors) at h) in
      let supervised = (ensure-nil _ (user_only name)).0 b in
      record {
        group = group;
        is_group = q;
        known =
            (contains_iff (names_of review.groups) group).0
              ((ensure-nil _ (unknown_group mode name)).0 a);
        not_user = λ e f.
            ground
              (arith, eq_iff mode (codes "supervisor"), eq_iff (some group) (some (codes "user")));
      }
]

table_errors-IsTable : (review : Review) (t : Table) → table_errors review t ≡ [] → IsTable review t
unfolding table_errors
table_errors-IsTable review t h =
    let (a, b) =
      (append-nil_iff
          (ensure (contains (names_of review.groups) t.group) (unknown_native t.shape.name)) _).0
        h in
    record {
      known =
          (contains_iff (names_of review.groups) t.group).0
            ((ensure-nil _ (unknown_native t.shape.name)).0 a);
      no_lookups = λ g q e.
          let legacy = (ensure-nil _ (legacy_lookup t.shape.name)).0 (rw q at b) in
          ground (arith, eq_iff t.shape.lookups [], eq_iff g.export (codes "component"));
    }

native_errors-IsNative :
    (review : Review) (n : Native) → native_errors review (some n) ≡ [] → IsNative review n
unfolding native_errors
native_errors-IsNative review n h =
    let (a, h1) =
      (append-nil_iff (ensure (same_tables n.tables review.native) native_differs) _).0 h in
    let (b, c) =
      (append-nil_iff
          (ensure (map (λ (s : Slot). s.index) n.tables == range 0 (length n.tables))
            occurrences_lost)
          _).0
        h1 in
    record {
      tables = same_tables-shapes n.tables review.native ((ensure-nil _ native_differs).0 a);
      slots =
          (eq_iff (map (λ (s : Slot). s.index) n.tables) (range 0 (length n.tables))).0
            ((ensure-nil _ occurrences_lost).0 b);
      width =
          (eq_iff review.public_width n.public_width).0 ((ensure-nil _ public_width_differs).0 c);
    }

same_set_iff : (a b : List Text) → same_set a b ≡ true → (name : Text) → Memᴰ name a ↔ Memᴰ name b
same_set_iff a b h name =
    let (in_b, in_a) = and_both (all (contains b) a) (all (contains a) b) h in
    (
      λ m. (contains_iff b name).0 (all-mem (contains b) name a in_b m),
      λ m. (contains_iff a name).0 (all-mem (contains a) name b in_a m),
    )

module _ (digest : Text → Text) (is_file : Text → Bool) where
  -- If `coverage_errors` reports nothing, the release surface is reviewed: the review is of the pinned revision; every group has a known status and kind, a limit and evidence that
  -- exists, and one that is exported whole is compared with Rust; the review lists exactly the layouts of the inventories, has the digest of each of them and a group for each layout, no
  -- user group for one of the supervisor's; each native table has a group, and none with lookups a group that is exported whole; and the native inventory, where it is given, has the
  -- tables of the review in order, each in its slot, and its public width.
  pub coverage_errors-IsReviewed :
      (review : Review) (inventories : Dict Text Inventory) (revision : Text)
      (native : Option Native)
      → coverage_errors digest is_file review inventories revision native ≡ []
      → IsReviewed digest is_file review inventories revision native
  unfolding coverage_errors inventory_errors
  coverage_errors-IsReviewed review inventories revision native h =
      let (a, h1) = (append-nil_iff (ensure (review.revision == revision) other_revision) _).0 h in
      let (b, h2) = (append-nil_iff (gather (group_errors is_file) review.groups) _).0 h1 in
      let (c, h3) =
        (append-nil_iff
            (ensure (same_set (names_of review.released) (layouts_of inventories)) layouts_differ)
            _).0
          h2 in
      let (d, h4) = (append-nil_iff (gather (inventory_errors digest review) inventories) _).0 h3 in
      let (e, h5) = (append-nil_iff (gather (table_errors review) review.native) _).0 h4 in
      let (f, g) =
        (append-nil_iff
            (ensure (contains (names_of review.groups) review.verifier) missing_verifier) _).0
          h5 in
      let each = λ (entry : Text × Inventory) (m : Memᴰ entry inventories).
        (append-nil_iff
            (ensure (lookup entry.0 review.inventories == some (digest entry.1.content))
              (inventory_differs entry.0))
            _).0
          ((gather-nil_iff (inventory_errors digest review) inventories).0 d entry m) in
      record {
        same_revision = (eq_iff review.revision revision).0 ((ensure-nil _ other_revision).0 a);
        groups = λ entry m.
            group_errors-IsGroup is_file entry ((gather-nil_iff _ review.groups).0 b entry m);
        layouts =
            same_set_iff (names_of review.released) (layouts_of inventories)
              ((ensure-nil _ layouts_differ).0 c);
        digests = λ entry m.
            (eq_iff (lookup entry.0 review.inventories) (some (digest entry.1.content))).0
              ((ensure-nil _ (inventory_differs entry.0)).0 (each entry m).0);
        classified = λ entry m name n. layout_errors-IsLayout review entry.0 name (
            (gather-nil_iff (layout_errors review entry.0) entry.1.layouts).0 (each entry m).1 name
              n);
        tables = λ t m. table_errors-IsTable review t ((gather-nil_iff _ review.native).0 e t m);
        verifier =
            (contains_iff (names_of review.groups) review.verifier).0
              ((ensure-nil _ missing_verifier).0 f);
        installed = λ n q. native_errors-IsNative review n (rw q at g);
      }
