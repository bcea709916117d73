-- ===== src/Export/Stage/Reads.antt =====
-- The contents that `stage_inputs` has read and checked before it touches the destination.
use mathlib.Core.Option.{some-injective}
use sp1_lean.Base.{
  ◌≡◌, refl, ◌∙◌, subst, inl, inr, Option, none, some, [], ◌∷◌, arith, Text, nat_eq, list_eq,
  option_eq, ◌==◌, eq_iff, Bool-cases, Option-cases,
}
use sp1_lean.Base.Dict.{Dict, lookup, NodupKeys}
use sp1_lean.Base.Order.{text_order}
use sp1_lean.Base.Results.{ok, raise-not-ok, ok-injective, >>=-ok}
use sp1_lean.Export.Stage.{hash_mismatch, unreadable, read_all}

-- A dict of contents that were read, each with the hash that is expected of it.
pub record IsRead (read : Text → Option Text) (sha256 : Text → Text)
    (hashes contents : Dict Text Text) : Type 0 where
  pub absent : (n : Text) → lookup n hashes ≡ none → lookup n contents ≡ none
  pub present :
      (n h : Text)
      → lookup n hashes ≡ some h
      → (t : Text) × (read n ≡ some t) × (sha256 t ≡ h) × (lookup n contents ≡ some t)

module _ (read : Text → Option Text) (sha256 : Text → Text) where
  IsRead-cons :
      (n h t : Text) (hashes contents : Dict Text Text)
      → read n ≡ some t
      → sha256 t ≡ h
      → IsRead read sha256 hashes contents
      → IsRead read sha256 ((n, h) ∷ hashes) ((n, t) ∷ contents)
  unfolding lookup
  IsRead-cons n h t hashes contents r q c = record {
    absent = λ m e. ground (arith, c.absent m, e);
    present = λ m k e. elim (Bool-cases (n == m)) [
      | inl s ↦
          let same = (eq_iff n m).0 s in
          (
            t,
            subst (λ x. read x ≡ some t) same r,
            q ∙ some-injective _ _ (rw (s, lookup) at e),
            rw (s, lookup) refl,
          )
      | inr s ↦
          let (u, a, b, l) = c.present m k (rw (s, lookup) at e) in (u, a, b, rw (s, lookup) l)
    ];
  }

  -- What `read_all` has gone through for the first file of an inventory.
  record First (n h : Text) (hashes contents : Dict Text Text) : Type 0 where
    pub content : Text
    pub rest : Dict Text Text
    pub content_read : read n ≡ some content
    pub hashed : sha256 content ≡ h
    pub rest_read : read_all read sha256 hashes ≡ ok rest
    pub made : (n, content) ∷ rest ≡ contents

  read_all-First :
      (n h : Text) (hashes contents : Dict Text Text)
      → read_all read sha256 ((n, h) ∷ hashes) ≡ ok contents
      → First n h hashes contents
  unfolding read_all
  read_all-First n h hashes contents e = elim (Option-cases (read n)) [
    | inl q ↦ absurd (raise-not-ok (unreadable n) contents (rw (q, read_all) at e))
    | inr (t, q) ↦ elim (Bool-cases (sha256 t == h)) [
      | inr f ↦ absurd (raise-not-ok (hash_mismatch n) contents (rw f at (rw (q, read_all) at e)))
      | inl s ↦
          let (rest, r, made) =
            >>=-ok (read_all read sha256 hashes) (λ x. ok ((n, t) ∷ x)) contents
              (rw s at (rw (q, read_all) at e)) in
          record {
            content = t;
            rest = rest;
            content_read = q;
            hashed = (eq_iff (sha256 t) h).0 s;
            rest_read = r;
            made = ok-injective _ contents made;
          }
    ]
  ]

  pub read_all-IsRead :
      (hashes contents : Dict Text Text)
      → read_all read sha256 hashes ≡ ok contents
      → IsRead read sha256 hashes contents
  unfolding read_all lookup
  read_all-IsRead [] contents e =
      subst (IsRead read sha256 []) (ok-injective [] contents e)
        (record { absent = λ n q. q; present = λ n h q. absurd (cc q) })
  read_all-IsRead ((n, h) ∷ hashes) contents e =
      let first = read_all-First n h hashes contents e in
      subst (IsRead read sha256 ((n, h) ∷ hashes)) first.made (
        IsRead-cons n h first.content hashes first.rest first.content_read first.hashed
          (read_all-IsRead hashes first.rest first.rest_read))

  pub read_all-NodupKeys :
      (hashes contents : Dict Text Text)
      → read_all read sha256 hashes ≡ ok contents
      → NodupKeys hashes
      → NodupKeys contents
  unfolding read_all
  read_all-NodupKeys [] contents e d = subst NodupKeys (ok-injective [] contents e) tt
  read_all-NodupKeys ((n, h) ∷ hashes) contents e d =
      let first = read_all-First n h hashes contents e in
      subst NodupKeys first.made (
        (read_all-IsRead hashes first.rest first.rest_read).absent n d.0,
        read_all-NodupKeys hashes first.rest first.rest_read d.1,
      )
