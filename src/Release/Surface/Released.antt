-- ===== src/Release/Surface/Released.antt =====
-- What the sources hold for which the release gate exits with 0.
use sp1_lean.Base.{
  ◌≡◌, ◌∙◌, refl, ap, Bool, true, ◌&&◌, some, List, [], ◌∷◌, map, gather, Text, arith, nat_eq,
  list_eq, ◌==◌, eq_iff, Memᴰ, Option-cases, List-cases, and_both, inl, inr,
}
use sp1_lean.Texts.{is_some, search}
use sp1_lean.Pins.Sp1.{ensure}
use sp1_lean.Pins.Sp1.Pinned.{ensure-nil, append-nil_iff, gather-nil_iff}
use sp1_lean.Release.Reviewed.{IsReviewed, coverage_errors-IsReviewed}
use sp1_lean.Release.Chips.{Chip, chips}
use sp1_lean.Release.Surface.{
  coverage, exporters_differ, registrations_differ, other_ensemble, ids_differ, missing_file,
  missing_anchor, ensemble_re, Registration, same_registrations, file_of, registration_of, exported,
  registrations, instruction_export_errors, chip_ids, identity_errors, has_anchor, files_of,
  Coverage, Sources, chip_errors, review_errors, failures, release_status,
}

same_registrations_eq : (xs ys : List Registration) → same_registrations xs ys ≡ true → xs ≡ ys
unfolding same_registrations
same_registrations_eq [] [] h = refl
same_registrations_eq [] (y ∷ ys) h = absurd (cc h)
same_registrations_eq (x ∷ xs) [] h = absurd (cc h)
same_registrations_eq (x ∷ xs) (y ∷ ys) h =
    let (one, more) = and_both _ (same_registrations xs ys) h in
    let e : x ≡ y = same x y one in cc (e, same_registrations_eq xs ys more)
  where
    same :
        (a b : Registration)
        → ((a.unit == b.unit) && ((a.file == b.file) && (a.program == b.program))) ≡ true
        → a ≡ b
    same a b h =
        let p : a.unit ≡ b.unit = ground (arith, eq_iff a.unit b.unit) in
        let q : a.file ≡ b.file = ground (arith, eq_iff a.file b.file) in
        let r : a.program ≡ b.program = ground (arith, eq_iff a.program b.program) in
        λ i. record { unit = p i; file = q i; program = r i }

-- What a chip of the release has: its four files, and a theorem that shows a row of it.
pub record IsShipped (is_file : Text → Bool) (nonvacuity : Text) (c : Chip) : Type 0 where
  pub files : (path : Text) → Memᴰ path (files_of c) → is_file path ≡ true
  pub anchor : has_anchor c.anchor nonvacuity ≡ true

pub record IsReleased (digest : Text → Text) (is_file : Text → Bool) (s : Sources) : Type 0 where
  pub read : Coverage
  pub is_read : s.coverage ≡ some read
  pub reviewed : IsReviewed digest is_file read.review read.inventories read.revision read.native
  pub ids : chip_ids s.identity ≡ some (map (λ (c : Chip). c.id) chips)
  pub exporters : exported s.exporter ≡ map file_of chips
  pub registered : registrations s.comparison ≡ map registration_of chips
  pub each_ensemble : is_some (search ensemble_re s.comparison) ≡ true
  pub shipped : (c : Chip) → Memᴰ c chips → IsShipped is_file s.nonvacuity c

map-nil {ℓ κ} : {A : Type ℓ} {B : Type κ} (f : A → B) (xs : List A) → map f xs ≡ [] → xs ≡ []
map-nil f [] h = refl
map-nil f (x ∷ xs) h = absurd (cc h)

identity_errors-ids :
    (identity : Text)
    → identity_errors identity ≡ []
    → chip_ids identity ≡ some (map (λ (c : Chip). c.id) chips)
unfolding identity_errors
identity_errors-ids identity h = elim (Option-cases (chip_ids identity)) [
  | inl q ↦ absurd (cc (rw (q, identity_errors) at h))
  | inr (ids, q) ↦
      let same =
        (ensure-nil (ids == map (λ (c : Chip). c.id) chips) ids_differ).0
          (rw (q, identity_errors) at h) in
      q ∙ ap some ((eq_iff ids (map (λ (c : Chip). c.id) chips)).0 same)
]

chip_errors-IsShipped :
    (is_file : Text → Bool) (nonvacuity : Text) (c : Chip)
    → chip_errors is_file nonvacuity c ≡ []
    → IsShipped is_file nonvacuity c
unfolding chip_errors
chip_errors-IsShipped is_file nonvacuity c h =
    let (a, b) =
      (append-nil_iff (gather (λ path. ensure (is_file path) (missing_file path)) (files_of c)) _).0
        h in
    record {
      files = λ path m.
          (ensure-nil (is_file path) (missing_file path)).0
            ((gather-nil_iff _ (files_of c)).0 a path m);
      anchor = (ensure-nil _ (missing_anchor c.anchor)).0 b;
    }

module _ (digest : Text → Text) (is_file : Text → Bool) where
  failures-IsReleased : (s : Sources) → failures digest is_file s ≡ [] → IsReleased digest is_file s
  unfolding failures review_errors instruction_export_errors
  failures-IsReleased s h = elim (Option-cases s.coverage) [
    | inl q ↦ absurd (cc (rw (q, failures) at h))
    | inr (read, q) ↦
        let (a, h1) = (append-nil_iff (review_errors digest is_file s.coverage) _).0 h in
        let (b, h2) = (append-nil_iff (identity_errors s.identity) _).0 h1 in
        let (c, d) = (append-nil_iff (instruction_export_errors s.exporter s.comparison) _).0 h2 in
        let (e, c1) =
          (append-nil_iff (ensure (exported s.exporter == map file_of chips) exporters_differ) _).0
            c in
        let (f, g) =
          (append-nil_iff
              (ensure (same_registrations (registrations s.comparison) (map registration_of chips))
                registrations_differ)
              _).0
            c1 in
        record {
          read = read;
          is_read = q;
          reviewed =
              coverage_errors-IsReviewed digest is_file read.review read.inventories read.revision
                read.native (map-nil coverage _ (rw (q, review_errors) at a));
          ids = identity_errors-ids s.identity b;
          exporters =
              (eq_iff (exported s.exporter) (map file_of chips)).0
                ((ensure-nil _ exporters_differ).0 e);
          registered =
              same_registrations_eq (registrations s.comparison) (map registration_of chips)
                ((ensure-nil _ registrations_differ).0 f);
          each_ensemble = (ensure-nil _ other_ensemble).0 g;
          shipped = λ chip m.
              chip_errors-IsShipped is_file s.nonvacuity chip ((gather-nil_iff _ chips).0 d chip m);
        }
  ]

  -- If the release gate exits with 0, the review of the coverage could be read and `coverage_errors` finds it complete; the chips of `InstructionChipId`, the files of the
  -- exporter and the registrations of the Rust comparison are those of the 25 chips in the order of the release; and each chip has its four files and its theorem on a real row.
  pub release_status-IsReleased :
      (s : Sources) → release_status digest is_file s ≡ 0 → IsReleased digest is_file s
  unfolding release_status
  release_status-IsReleased s h = elim (List-cases (failures digest is_file s)) [
    | inl q ↦ failures-IsReleased s q
    | inr (f, rest, q) ↦ absurd (cc (rw (q, release_status) at h))
  ]
