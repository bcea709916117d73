-- ===== src/Trust/Safe.antt =====
-- What a trust policy that `load_policy` accepts can allow.
use sp1_lean.Base.{
  ◌≡◌, subst, true, not, ◌↔◌, inl, inr, List, [], ◌∷◌, ◌++◌, Memᴰ, arith, Text, codes, nat_eq,
  list_eq, option_eq, contains, contains_iff, all, any, all-mem, any_intro, Bool-cases,
  Option-cases,
}
use sp1_lean.Base.Dict.{Dict}
use sp1_lean.Base.Results.{ok, ◌>>=◌, require, >>=-ok, require-ok, ok-injective}
use sp1_lean.Json.{Json, get}
use sp1_lean.Trust.Policy.{
  native_decide, bv_decide, not_logical, bad_tactics, forbidden_exception, bad_exception, GroupKey,
  sail, bv, group_key, string_set, same_set, standard_axioms, never_excepted, policy_keys,
  as_record, is_one, is_wellnamed, load_group, Policy, load_fields, load_policy, is_explained,
}

abbrev pub SameMembers : List Text → List Text → Type 0
SameMembers xs ys = (n : Text) → Memᴰ n xs ↔ Memᴰ n ys

same_set-SameMembers : (xs ys : List Text) → same_set xs ys ≡ true → SameMembers xs ys
unfolding same_set
same_set-SameMembers xs ys h n = (
  λ i. (contains_iff ys n).0 (all-mem (contains ys) n xs (ground arith) i),
  λ i. (contains_iff xs n).0 (all-mem (contains xs) n ys (ground arith) i),
)

-- The names of a group are of its form, and none is a logical axiom or one that defeats the checks.
pub record IsGroup (k : GroupKey) (names : List Text) : Type 0 where
  pub wellnamed : (n : Text) → Memᴰ n names → is_wellnamed k n ≡ true
  pub fresh : (n : Text) → Memᴰ n names → ¬ Memᴰ n (standard_axioms ++ never_excepted)

pub record IsSafe (p : Policy) : Type 0 where
  pub standard_is : SameMembers p.standard standard_axioms
  pub sail_is : IsGroup sail p.sail_names
  pub bv_is : IsGroup bv p.bv_names
  pub tactics_are : SameMembers p.tactics (native_decide ∷ bv_decide ∷ [])

-- The end of `load_group`, once the names are read.
checked :
    (k : GroupKey) (ns names : List Text)
    → (do
      _ ←
          require
            (not (any (contains (standard_axioms ++ never_excepted)) ns))
            (forbidden_exception (group_key k))
      _ ← require (all (is_wellnamed k) ns) (bad_exception (group_key k))
      ok ns)
      ≡ ok names
    → IsGroup k names
checked k ns names h =
    let barred = contains (standard_axioms ++ never_excepted) in
    let (u, q, h1) =
      >>=-ok (require (not (any barred ns)) (forbidden_exception (group_key k))) _ names h in
    let (v, r, h2) =
      >>=-ok (require (all (is_wellnamed k) ns) (bad_exception (group_key k))) _ names h1 in
    subst (IsGroup k) (ok-injective ns names h2) (record {
      wellnamed = λ n i. all-mem (is_wellnamed k) n ns (require-ok _ _ v r) i;
      fresh = λ n i j. absurd (
          cc (
            require-ok _ _ u q,
            any_intro barred n ns i ((contains_iff (standard_axioms ++ never_excepted) n).1 j),
          ));
    })

load_group-IsGroup :
    (k : GroupKey) (j : Json) (names : List Text) → load_group k j ≡ ok names → IsGroup k names
unfolding load_group
load_group-IsGroup k j names h =
    elim (Option-cases (as_record (codes "reason" ∷ codes "names" ∷ []) j)) [
      | inl e ↦ absurd (cc (rw (e, load_group) at h))
      | inr (g, e) ↦
          let (u, q, h1) =
            >>=-ok (require (is_explained (get (codes "reason") g)) _) _ names
              (rw (e, load_group) at h) in
          let (ns, r, h2) = >>=-ok (string_set (get (codes "names") g) (group_key k)) _ names h1 in
          checked k ns names h2
    ]

load_fields-IsSafe : (d : Dict Text Json) (p : Policy) → load_fields d ≡ ok p → IsSafe p
unfolding load_fields
load_fields-IsSafe d p h =
    let (standard, q0, h0) =
      >>=-ok (string_set (get (codes "standard") d) (codes "standard")) _ p h in
    let (u, q1, h1) = >>=-ok (require (same_set standard standard_axioms) not_logical) _ p h0 in
    let (sails, q2, h2) = >>=-ok (load_group sail (get (codes "sail") d)) _ p h1 in
    let (bvs, q3, h3) = >>=-ok (load_group bv (get (codes "bvDecide") d)) _ p h2 in
    let (tactics, q4, h4) =
      >>=-ok (string_set (get (codes "testNativeTactics") d) (codes "testNativeTactics")) _ p h3 in
    let (v, q5, h5) =
      >>=-ok (require (same_set tactics (native_decide ∷ bv_decide ∷ [])) bad_tactics) _ p h4 in
    subst IsSafe (ok-injective _ p h5) (record {
      standard_is = same_set-SameMembers standard standard_axioms (require-ok _ _ u q1);
      sail_is = load_group-IsGroup sail _ sails q2;
      bv_is = load_group-IsGroup bv _ bvs q3;
      tactics_are = same_set-SameMembers tactics _ (require-ok _ _ v q5);
    })

-- A policy that `load_policy` accepts has exactly Lean's three logical axioms as its standard, excepts only names of the form
-- its group asks for, excepts neither a logical axiom nor one that defeats the checks, and knows just the two native tactics.
pub load_policy-IsSafe : (j : Json) (p : Policy) → load_policy j ≡ ok p → IsSafe p
unfolding load_policy
load_policy-IsSafe j p h = elim (Option-cases (as_record policy_keys j)) [
  | inl e ↦ absurd (cc (rw (e, load_policy) at h))
  | inr (d, e) ↦ elim (Bool-cases (is_one (get (codes "version") d))) [
    | inl t ↦ load_fields-IsSafe d p (rw t at (rw (e, load_policy) at h))
    | inr f ↦ absurd (cc (rw f at (rw (e, load_policy) at h)))
  ]
]
