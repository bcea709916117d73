-- ===== src/Pins/Check/Agree.antt =====
-- What a repository is for which the pins check exits with 0.
use mathlib.Core.Option.{some-injective}
use sp1_lean.Base.{
  ◌≡◌, refl, sym, ◌∙◌, ap, Bool, true, false, ◌||◌, ◌⊎◌, inl, inr, some, List, [], ◌∷◌, map, Text,
  codes, arith, nat_eq, list_eq, option_eq, ◌==◌, eq_iff, Memᴰ, Bool-cases, Option-cases, or_else,
  gather, contains, contains_iff, if◌then◌else◌,
}
use sp1_lean.Base.Dict.{lookup}
use sp1_lean.Base.Results.{ok, Result-cases}
use sp1_lean.Texts.{is_some, strip}
use sp1_lean.Pins.Sp1.{ensure, is_commit, distinct, sp1_pin_errors}
use sp1_lean.Pins.Sp1.Pinned.{
  ensure-nil, append-nil_iff, gather-nil_iff, IsPinned, sp1_pin_errors-IsPinned,
}
use sp1_lean.Pins.Sail.{validate_sail}
use sp1_lean.Pins.Check.{is_toolchain, provenance_errors, tree_errors, check, status}
use sp1_lean.Pins.Check.Values.{
  Requirement, Package, Root, duplicate_package, duplicate_dependency, not_git, short_revision,
  not_required, missing, path_dependency, url_mismatch, moving_branch, disagree, vague_toolchain,
  config_differs, sp1,
}
use sp1_lean.Pins.Check.Manifest.{
  remove_git, by_name, package_errors, is_tag, nonempty, url_of, resolved, requirement_errors,
  manifest_errors,
}
use sp1_lean.Pins.Check.Backend.{backend_errors}
use sp1_lean.Pins.Check.Backed.{IsBackend, backend_errors-IsBackend}
use sp1_lean.Pins.Check.Libraries.{lib_names, library_errors}

-- A package of the Lake manifest is a git repository at a full commit, and is inherited or required.
pub record IsGitPin (requirements : List Requirement) (p : Package) : Type 0 where
  pub git : p.kind ≡ some (codes "git")
  pub commit : is_commit (or_else p.rev []) ≡ true
  pub wanted : (p.inherited ≡ true) ⊎ Memᴰ p.name (map (λ (d : Requirement). d.name) requirements)

-- A requirement and the package that the manifest has for it name the same repository, and the same commit or the same version tag.
pub record IsResolved (packages : List Package) (d : Requirement) : Type 0 where
  pub found : Package
  pub is_found : lookup d.name (by_name packages) ≡ some found
  pub same_url : remove_git (or_else d.git []) ≡ remove_git (or_else found.url [])
  pub same_revision :
      ((is_commit (or_else d.rev []) ≡ true) × (found.rev ≡ some (or_else d.rev [])))
      ⊎ ((is_tag (or_else d.rev []) ≡ true) × (found.input_rev ≡ some (or_else d.rev [])))

package_errors-IsGitPin :
    (requirements : List Requirement) (p : Package)
    → package_errors (map (λ (d : Requirement). d.name) requirements) p ≡ []
    → IsGitPin requirements p
unfolding package_errors
package_errors-IsGitPin requirements p h =
    let names = map (λ (d : Requirement). d.name) requirements in
    let (a, more) =
      (append-nil_iff (ensure (p.kind == some (codes "git")) (not_git p.name)) _).0 h in
    let (b, c) =
      (append-nil_iff (ensure (is_commit (or_else p.rev [])) (short_revision p.name)) _).0 more in
    let wanted = (ensure-nil (p.inherited || contains names p.name) (not_required p.name)).0 c in
    record {
      git = (eq_iff p.kind (some (codes "git"))).0 ((ensure-nil _ (not_git p.name)).0 a);
      commit = (ensure-nil _ (short_revision p.name)).0 b;
      wanted = elim (Bool-cases p.inherited) [
        | inl i ↦ inl i
        | inr i ↦ inr ((contains_iff names p.name).0 (rw i at wanted))
      ];
    }

requirement_errors-IsResolved :
    (packages : List Package) (d : Requirement)
    → requirement_errors (by_name packages) d ≡ []
    → IsResolved packages d
unfolding requirement_errors
requirement_errors-IsResolved packages d h =
    let revision = or_else d.rev [] in
    let hit = lookup d.name (by_name packages) in
    let (a, h1) = (append-nil_iff (ensure (is_some hit) (missing d.name)) _).0 h in
    let (b, h2) = (append-nil_iff (ensure (nonempty d.git) (path_dependency d.name)) _).0 h1 in
    let (c, h3) = (append-nil_iff (ensure _ (url_mismatch d.name)) _).0 h2 in
    let (e, f) = (append-nil_iff (ensure _ (moving_branch d.name)) _).0 h3 in
    let url =
      (eq_iff (remove_git (or_else d.git [])) (remove_git (or_else (url_of hit) []))).0
        ((ensure-nil _ (url_mismatch d.name)).0 c) in
    let exact = (ensure-nil (is_commit revision || is_tag revision) (moving_branch d.name)).0 e in
    let same =
      (eq_iff (some revision) (resolved (is_commit revision) hit)).0
        ((ensure-nil _ (disagree d.name)).0 f) in
    elim (Option-cases hit) [
      | inl q ↦ absurd (cc (rw q at ((ensure-nil (is_some hit) (missing d.name)).0 a)))
      | inr (p, q) ↦ record {
        found = p;
        is_found = q;
        same_url = rw q at url;
        same_revision = elim (Bool-cases (is_commit revision)) [
          | inl r ↦ inl (r, sym (rw (q, r) at same))
          | inr r ↦ inr (rw r at exact, sym (rw (q, r) at same))
        ];
      }
    ]

map-nil {ℓ κ} : {A : Type ℓ} {B : Type κ} (f : A → B) (xs : List A) → map f xs ≡ [] → xs ≡ []
map-nil f [] h = refl
map-nil f (x ∷ xs) h = absurd (cc h)

-- What a repository is for which `check` reports nothing: every package of the Lake manifest is a git repository at a full commit; every requirement is resolved to a
-- package of the same repository and revision; the Rust code takes Clean's backend from the repository and the commit of the Lake manifest, and from no path; the SP1 crates are pinned to the release of the
-- provenance; and the generated Sail tree is the pinned one, unless only the sources are checked.
pub record IsReproducible (sha : Text → Text) (root : Root) (source_only : Bool) : Type 0 where
  pub packages : (p : Package) → Memᴰ p root.packages → IsGitPin root.requirements p
  pub requirements : (d : Requirement) → Memᴰ d root.requirements → IsResolved root.packages d
  pub backend : IsBackend root
  pub toolchain : is_toolchain (strip root.toolchain) ≡ true
  pub sp1_pinned :
      IsPinned root.provenance.sp1_version root.provenance.sp1_revision root.cargo root.locked
  pub sail : source_only ≡ false → validate_sail sha root.sail root.provenance.pins ≡ ok tt
  pub config : sha root.sail_config ≡ root.provenance.config

check-IsReproducible :
    (sha : Text → Text) (root : Root) (source_only : Bool)
    → check sha root source_only ≡ some []
    → IsReproducible sha root source_only
unfolding check manifest_errors
check-IsReproducible sha root source_only h =
    elim (Option-cases (backend_errors root.cargo root.locked (by_name root.packages))) [
      | inl q ↦ absurd (cc (rw (q, check) at h))
      | inr (backend, q) ↦ elim (Option-cases (library_errors (lib_names root.libraries))) [
        | inl r ↦ absurd (cc (rw r at (rw (q, check) at h)))
        | inr (libraries, r) ↦
            let names = map (λ (d : Requirement). d.name) root.requirements in
            let nothing = some-injective _ _ (rw r at (rw (q, check) at h)) in
            let (a, h1) =
              (append-nil_iff (manifest_errors root.requirements root.packages) _).0 nothing in
            let (b, h2) = (append-nil_iff backend _).0 h1 in
            let (c, h3) =
              (append-nil_iff (ensure (is_toolchain (strip root.toolchain)) vague_toolchain) _).0
                h2 in
            let (d, h4) =
              (append-nil_iff
                  (map sp1 (
                    sp1_pin_errors root.provenance.sp1_version root.provenance.sp1_revision
                      root.cargo root.locked))
                  _).0
                h3 in
            let (e, h5) = (append-nil_iff (provenance_errors root.provenance) _).0 h4 in
            let (f, h6) =
              (append-nil_iff
                  (if source_only
                    then []
                    else tree_errors (validate_sail sha root.sail root.provenance.pins))
                  _).0
                h5 in
            let (g, _) =
              (append-nil_iff
                  (ensure (sha root.sail_config == root.provenance.config) config_differs) _).0
                h6 in
            let (_, a1) =
              (append-nil_iff
                  (ensure (distinct (map (λ (p : Package). p.name) root.packages))
                    duplicate_package)
                  _).0
                a in
            let (_, a2) = (append-nil_iff (ensure (distinct names) duplicate_dependency) _).0 a1 in
            let (a3, a4) = (append-nil_iff (gather (package_errors names) root.packages) _).0 a2 in
            record {
              packages = λ p m.
                  package_errors-IsGitPin root.requirements p
                    ((gather-nil_iff (package_errors names) root.packages).0 a3 p m);
              requirements = λ x m. requirement_errors-IsResolved root.packages x (
                  (gather-nil_iff (requirement_errors (by_name root.packages)) root.requirements).0
                    a4 x m);
              backend = backend_errors-IsBackend root (q ∙ ap some b);
              toolchain = (ensure-nil _ vague_toolchain).0 c;
              sp1_pinned =
                  (sp1_pin_errors-IsPinned root.provenance.sp1_version root.provenance.sp1_revision
                      root.cargo root.locked).0
                    (map-nil sp1 _ d);
              sail = λ s. tree_accepted (rw s at f);
              config =
                  (eq_iff (sha root.sail_config) root.provenance.config).0
                    ((ensure-nil _ config_differs).0 g);
            }
      ]
    ]
  where
    tree_accepted :
        tree_errors (validate_sail sha root.sail root.provenance.pins) ≡ []
        → validate_sail sha root.sail root.provenance.pins ≡ ok tt
    tree_accepted h = elim (Result-cases (validate_sail sha root.sail root.provenance.pins)) [
      | inl (x, q) ↦ absurd (cc (rw q at h))
      | inr (tt, q) ↦ q
    ]

-- If the pins check exits with 0, the repository is reproducible: every package of the Lake manifest is a git repository at a full commit, inherited or required; every requirement
-- is resolved to a package of the same repository and of the same commit or version tag; the Rust code takes Clean's backend from the manifest's repository and commit, in Cargo.toml and
-- in Cargo.lock, and from no path; the SP1 crates are those of the release; and the Sail tree and its configuration have the pinned digests, the tree only if it is checked.
pub status-IsReproducible :
    (sha : Text → Text) (root : Root) (source_only : Bool)
    → status sha root source_only ≡ 0
    → IsReproducible sha root source_only
unfolding status
status-IsReproducible sha root source_only h = elim (Option-cases (check sha root source_only)) [
  | inl q ↦ absurd (omega (arith, rw (q, status) at h))
  | inr ([], q) ↦ check-IsReproducible sha root source_only q
  | inr (x ∷ xs, q) ↦ absurd (omega (arith, rw (q, status) at h))
]
