-- ===== src/Pins/Check/Backed.antt =====
-- The Rust backend of a repository for which `check` finds no error in it.
use mathlib.Core.Option.{some-injective}
use sp1_lean.Base.{
  ◌≡◌, ◌∙◌, ap, true, not, inl, inr, none, some, [], ◌∷◌, Text, codes, arith, nat_eq, list_eq,
  option_eq, ◌==◌, eq_iff, Bool-cases, Option-cases, or_else, and_both,
}
use sp1_lean.Base.Dict.{Dict, lookup, has, has_iff}
use sp1_lean.Pins.Sp1.{ensure}
use sp1_lean.Pins.Sp1.Pinned.{ensure-nil, append-nil_iff}
use sp1_lean.Pins.Check.Values.{Package, Root, backend_differs, locked_backend_differs}
use sp1_lean.Pins.Check.Manifest.{remove_git, by_name}
use sp1_lean.Pins.Check.Backend.{
  backend_pin, locked_sources, locked_at, same_backend, backend_errors,
}

-- The manifest and the lockfile of the Rust code take Clean's backend from the repository and the commit that the Lake manifest has for Clean, and from no path.
pub record IsBackend (root : Root) : Type 0 where
  pub clean : Package
  pub revision : Text
  pub is_found : lookup (codes "Clean") (by_name root.packages) ≡ some clean
  pub at_commit : clean.rev ≡ some revision
  pub url : Text
  pub has_url : clean.url ≡ some url
  pub same_repository :
      remove_git (or_else (lookup (codes "git") (backend_pin root.cargo)) []) ≡ remove_git url
  pub no_path : lookup (codes "path") (backend_pin root.cargo) ≡ none
  pub pinned : lookup (codes "rev") (backend_pin root.cargo) ≡ some revision
  pub locked : locked_sources root.locked ≡ some (locked_at (backend_pin root.cargo) revision) ∷ []

-- A pin of the Rust code that agrees with a package of the Lake manifest.
record IsPin (pin : Dict Text Text) (clean : Package) (revision : Text) : Type 0 where
  pub url : Text
  pub has_url : clean.url ≡ some url
  pub same_repository : remove_git (or_else (lookup (codes "git") pin) []) ≡ remove_git url
  pub no_path : lookup (codes "path") pin ≡ none
  pub at_revision : lookup (codes "rev") pin ≡ some revision

same_backend-IsPin :
    (pin : Dict Text Text) (clean : Package) (revision : Text)
    → same_backend pin clean revision ≡ some true
    → IsPin pin clean revision
unfolding same_backend
same_backend-IsPin pin clean revision h =
    elim (Bool-cases (lookup (codes "rev") pin == some revision)) [
      | inr e ↦ absurd (cc (rw (e, same_backend) at h))
      | inl e ↦ elim (Option-cases clean.url) [
        | inl q ↦ absurd (cc (rw q at (rw (e, same_backend) at h)))
        | inr (url, q) ↦
            let agrees = some-injective _ true (rw q at (rw (e, same_backend) at h)) in
            let (repository, path) = and_both _ _ agrees in
            record {
              url = url;
              has_url = q;
              same_repository = (eq_iff _ (remove_git url)).0 repository;
              no_path = lookup_of_not (codes "path") pin path;
              at_revision = (eq_iff (lookup (codes "rev") pin) (some revision)).0 e;
            }
      ]
    ]
  where
    lookup_of_not : (k : Text) (d : Dict Text Text) → not (has k d) ≡ true → lookup k d ≡ none
    lookup_of_not k d n = elim (Option-cases (lookup k d)) [
      | inl q ↦ q
      | inr (v, q) ↦ absurd (ground (arith, n, (has_iff k d).1 (λ o. cc (o, q))))
    ]

pub backend_errors-IsBackend :
    (root : Root)
    → backend_errors root.cargo root.locked (by_name root.packages) ≡ some []
    → IsBackend root
unfolding backend_errors same_backend
backend_errors-IsBackend root h =
    elim (Option-cases (lookup (codes "Clean") (by_name root.packages))) [
      | inl q ↦ absurd (cc (rw (q, backend_errors) at h))
      | inr (clean, q) ↦ elim (Option-cases clean.rev) [
        | inl r ↦ absurd (cc (rw r at (rw (q, backend_errors) at h)))
        | inr (revision, r) ↦
            elim (Option-cases (same_backend (backend_pin root.cargo) clean revision)) [
              | inl u ↦ absurd (cc (rw u at (rw r at (rw (q, backend_errors) at h))))
              | inr (same, u) ↦
                  let nothing =
                    some-injective _ _ (rw u at (rw r at (rw (q, backend_errors) at h))) in
                  let (a, b) = (append-nil_iff (ensure same backend_differs) _).0 nothing in
                  let pin =
                    same_backend-IsPin (backend_pin root.cargo) clean revision
                      (u ∙ ap some ((ensure-nil same backend_differs).0 a)) in
                  record {
                    clean = clean;
                    revision = revision;
                    url = pin.url;
                    has_url = pin.has_url;
                    same_repository = pin.same_repository;
                    no_path = pin.no_path;
                    is_found = q;
                    at_commit = r;
                    pinned = pin.at_revision;
                    locked =
                        (eq_iff (locked_sources root.locked)
                            (some (locked_at (backend_pin root.cargo) revision) ∷ [])).0
                          ((ensure-nil _ locked_backend_differs).0 b);
                  }
            ]
      ]
    ]
