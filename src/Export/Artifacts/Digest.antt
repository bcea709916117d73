-- ===== src/Export/Artifacts/Digest.antt =====
-- What `artifact_hashes` computes: the hashes of the files that are named, and no others.
use mathlib.Core.Logic.{⊎_elim}
use mathlib.Core.List.Memᴰ
use sp1_lean.Base.{
  ◌≡◌, refl, sym, subst, not, inl, inr, some, List, [], ◌∷◌, map, Memᴰ, Text, nat_eq, list_eq,
  option_eq, ◌==◌, eq_iff, keep, Bool-cases, Option-cases, there, Memᴰ-nil,
}
use sp1_lean.Base.Dict.{Dict, lookup}
use sp1_lean.Base.Results.{ok, raise-not-ok, ok-injective, >>=-ok, >>=-require}
use sp1_lean.Trust.Policy.{same_set, repeats}
use sp1_lean.Export.Stage.{regular, irregular, Files}
use sp1_lean.Export.Artifacts.{
  duplicate_names, unexpected_inventory, not_regular, is_artifact, digests, artifact_hashes,
}

-- The hashes of the files that are named.
pub record IsDigest (sha256 : Text → Text) (files : Files) (names : List Text)
    (hashes : Dict Text Text) : Type 0 where
  pub named :
      (n : Text)
      → Memᴰ n names
      → (t : Text) × (lookup n files ≡ some (regular t)) × (lookup n hashes ≡ some (sha256 t))
  pub unnamed : (n h : Text) → lookup n hashes ≡ some h → Memᴰ n names

module _ (sha256 : Text → Text) (files : Files) where
  IsDigest-cons :
      (n t : Text) (names : List Text) (hashes : Dict Text Text)
      → lookup n files ≡ some (regular t)
      → IsDigest sha256 files names hashes
      → IsDigest sha256 files (n ∷ names) ((n, sha256 t) ∷ hashes)
  unfolding lookup
  IsDigest-cons n t names hashes l i = record {
    named = λ m j. elim (Bool-cases (n == m)) [
      | inl s ↦ (
        t,
        subst (λ x. lookup x files ≡ some (regular t)) ((eq_iff n m).0 s) l,
        rw (s, lookup) refl,
      )
      | inr s ↦
          ⊎_elim (λ q. absurd (cc (s, (eq_iff n m).1 (sym q))))
            (λ k. let (u, a, b) = i.named m k in (u, a, rw (s, lookup) b)) (Memᴰ.cases_cons j)
    ];
    unnamed = λ m h e. elim (Bool-cases (n == m)) [
      | inl s ↦ Memᴰ.head (sym ((eq_iff n m).0 s))
      | inr s ↦ there (i.unnamed m h (rw (s, lookup) at e))
    ];
  }

  digests-IsDigest :
      (names : List Text) (hashes : Dict Text Text)
      → digests sha256 files names ≡ ok hashes
      → IsDigest sha256 files names hashes
  unfolding digests lookup
  digests-IsDigest [] hashes e =
      subst (IsDigest sha256 files []) (ok-injective [] hashes e)
        (record { named = λ n j. absurd (Memᴰ-nil j); unnamed = λ n h q. absurd (cc q) })
  digests-IsDigest (n ∷ names) hashes e = elim (Option-cases (lookup n files)) [
    | inl q ↦ absurd (raise-not-ok not_regular hashes (rw (q, digests) at e))
    | inr (irregular, q) ↦ absurd (raise-not-ok not_regular hashes (rw (q, digests) at e))
    | inr (regular t, q) ↦
        let (rest, r, made) =
          >>=-ok (digests sha256 files names) (λ h. ok ((n, sha256 t) ∷ h)) hashes
            (rw (q, digests) at e) in
        subst (IsDigest sha256 files (n ∷ names)) (ok-injective _ hashes made)
          (IsDigest-cons n t names rest q (digests-IsDigest names rest r))
  ]

  pub artifact_hashes-IsDigest :
      (names : List Text) (hashes : Dict Text Text)
      → artifact_hashes sha256 names files ≡ ok hashes
      → IsDigest sha256 files names hashes
  unfolding artifact_hashes
  artifact_hashes-IsDigest names hashes e =
      let (_, e1) = >>=-require (not (repeats names)) duplicate_names _ hashes e in
      let (_, e2) =
        >>=-require (same_set (keep is_artifact (map (λ f. f.0) files)) names) unexpected_inventory
          _ hashes e1 in
      digests-IsDigest names hashes e2
