-- ===== src/Pins/Sp1/Pinned.antt =====
-- What it means that `sp1_pin_errors` reports nothing.
use mathlib.Core.List.Memᴰ
use sp1_lean.Base.{
  ◌≡◌, ◌≢◌, ◌↔◌, ◌⊎◌, refl, sym, ap, subst, Bool, true, false, not, ◌&&◌, inl, inr, none, some,
  List, [], ◌∷◌, ◌++◌, map, Text, arith, nat_eq, list_eq, option_eq, nat_beq, length, Memᴰ,
  Memᴰ-nil, Memᴰ-cons, Option-cases, gather, contains, contains_iff, all, all-mem, all_intro, here,
  there,
}
use sp1_lean.Pins.Sp1.{
  PinError, unstable_release, short_commit, missing_or_duplicate, not_locked, direct_differs,
  duplicate_locked, locked_differs, ensure, distinct, is_release, is_commit, direct, direct_errors,
  attributes, fields, is_pinned, is_locked, crate_name, locked_loop, blocks_of, sp1_pin_errors,
}

pub both_true : (a b : Bool) → (a && b) ≡ true → (a ≡ true) × (b ≡ true)
both_true true b h = (refl, h)
both_true false b h = absurd (cc h)

pub and_true : {a b : Bool} → a ≡ true → b ≡ true → (a && b) ≡ true
and_true h k = ground arith

pub ensure-nil {ℓ} : {E : Type ℓ} (b : Bool) (e : E) → (ensure b e ≡ []) ↔ (b ≡ true)
ensure-nil true e = (λ _. refl, λ _. refl)
ensure-nil false e = (λ h. absurd (cc h), λ h. absurd (cc h))

pub append-nil_iff {ℓ} : {E : Type ℓ} (xs ys : List E) → (xs ++ ys ≡ []) ↔ ((xs ≡ []) × (ys ≡ []))
append-nil_iff [] ys = (λ h. (refl, h), λ h. h.1)
append-nil_iff (x ∷ xs) ys = (λ h. absurd (cc h), λ h. absurd (cc h.0))

-- No error for any.
pub gather-nil_iff {ℓ κ} :
    {A : Type ℓ} {E : Type κ} (f : A → List E) (xs : List A)
    → (gather f xs ≡ []) ↔ ((a : A) → Memᴰ a xs → f a ≡ [])
unfolding gather
gather-nil_iff f [] = (λ _ a m. absurd (Memᴰ-nil m), λ _. refl)
gather-nil_iff f (x ∷ xs) = (
  λ h a m.
      let (one, more) = (append-nil_iff (f x) (gather f xs)).0 h in
      elim (Memᴰ.cases_cons m) [
        | inl e ↦ subst (λ y. f y ≡ []) (sym e) one
        | inr t ↦ (gather-nil_iff f xs).0 more a t
      ],
  λ h.
      (append-nil_iff (f x) (gather f xs)).1
        (h x here, (gather-nil_iff f xs).1 (λ a m. h a (there m))),
)

not_there : (found : List Text) (name : Text) → ¬ Memᴰ name found → not (contains found name) ≡ true
not_there found name fresh = ground (arith, contains_iff found name)

-- No name comes twice, nor is one of those found before.
abbrev pub AllNew : List Text → List Text → Type 0
AllNew found [] = Unit
AllNew found (n ∷ names) = (¬ Memᴰ n found) × AllNew (n ∷ found) names

-- The names of the SP1 crates in the lockfile.
unfoldable pub locked_names : List Text → List Text
unfolding crate_name
locked_names [] = []
locked_names (b ∷ blocks) =
    let rest = locked_names blocks in elim (crate_name b) [ none ↦ rest | some n ↦ n ∷ rest ]

module _ (version revision : Text) where
  loop-names :
      (n : Text) (found blocks : List Text)
      → Memᴰ n (locked_loop version revision found blocks).0
        ↔ (Memᴰ n found ⊎ Memᴰ n (locked_names blocks))
  unfolding locked_loop locked_names
  loop-names n found [] = (inl, λ h. elim h [ inl m ↦ m | inr m ↦ absurd (Memᴰ-nil m) ])
  loop-names n found (b ∷ blocks) = elim (Option-cases (crate_name b)) [
    | inl q ↦ rw (q, locked_loop, locked_names) (loop-names n found blocks)
    | inr (name, q) ↦
        let rest = loop-names n (name ∷ found) blocks in
        rw (q, locked_loop, locked_names)
          (ground (arith, rest, Memᴰ-cons n name found, Memᴰ-cons n name (locked_names blocks)))
  ]

  -- Every SP1 crate of the blocks is the one that is expected.
  abbrev AllLocked : List Text → Type 0
  AllLocked blocks =
      (b n : Text)
      → Memᴰ b blocks
      → crate_name b ≡ some n
      → is_locked version revision (fields b) ≡ true

  AllLocked-there :
      (b : Text) (blocks : List Text)
      → crate_name b ≡ none
      → AllLocked blocks
      → AllLocked (b ∷ blocks)
  AllLocked-there b blocks q known c n m e = elim (Memᴰ.cases_cons m) [
    | inl same ↦ absurd (cc (q, e, ap crate_name same))
    | inr t ↦ known c n t e
  ]

  AllLocked-here :
      (b name : Text) (blocks : List Text)
      → crate_name b ≡ some name
      → is_locked version revision (fields b) ≡ true
      → AllLocked blocks
      → AllLocked (b ∷ blocks)
  AllLocked-here b name blocks q ok known c n m e = elim (Memᴰ.cases_cons m) [
    | inl same ↦ subst (λ x. is_locked version revision (fields x) ≡ true) (sym same) ok
    | inr t ↦ known c n t e
  ]

  loop-errors :
      (found blocks : List Text)
      → ((locked_loop version revision found blocks).1 ≡ [])
        ↔ (AllNew found (locked_names blocks) × AllLocked blocks)
  unfolding locked_loop locked_names
  loop-errors found [] = (λ _. (tt, λ b n m. absurd (Memᴰ-nil m)), λ _. refl)
  loop-errors found (b ∷ blocks) = elim (Option-cases (crate_name b)) [
    | inl q ↦
        rw (q, locked_loop, locked_names)
          (
            λ h.
                let (new, known) = (loop-errors found blocks).0 h in
                (new, AllLocked-there b blocks q known),
            λ (new, known). (loop-errors found blocks).1 (new, λ c n m e. known c n (there m) e),
          )
    | inr (name, q) ↦
        let rest = loop-errors (name ∷ found) blocks in
        rw (q, locked_loop, locked_names)
          (
            λ h.
                let (one, more) = (append-nil_iff _ _).0 h in
                let (two, end) = (append-nil_iff _ _).0 more in
                let (new, known) = rest.0 end in
                (
                  (
                    λ m. absurd (
                        ground (
                          arith,
                          (ensure-nil (not (contains found name)) (duplicate_locked name)).0 one,
                          contains_iff found name,
                        )),
                    new,
                  ),
                  AllLocked-here b name blocks q ((ensure-nil _ _).0 two) known,
                ),
            λ ((fresh, new), known). (append-nil_iff _ _).1 (
              (ensure-nil _ (duplicate_locked name)).1 (not_there found name fresh),
              (append-nil_iff _ _).1 (
                (ensure-nil _ (locked_differs name)).1 (known b name here q),
                rest.1 (new, λ c n m e. known c n (there m) e),
              ),
            ),
          )
  ]

-- No name stands in the list behind itself.
abbrev pub Distinct : List Text → Type 0
Distinct [] = Unit
Distinct (n ∷ names) = (¬ Memᴰ n names) × Distinct names

distinct_lem : (names : List Text) → (distinct names ≡ true) ↔ Distinct names
unfolding distinct
distinct_lem [] = (λ _. tt, λ _. refl)
distinct_lem (n ∷ names) = ground (arith, distinct_lem names, contains_iff names n)

-- What a manifest and a lockfile must say for the SP1 release of a version and a revision.
pub record IsPinned (version revision cargo locked : Text) : Type 0 where
  pub stable : is_release version ≡ true
  pub full : is_commit revision ≡ true
  pub some_direct : direct cargo ≢ []
  pub direct-Distinct : Distinct (map (λ d. d.0) (direct cargo))
  pub direct_pinned :
      (d : Text × Text) → Memᴰ d (direct cargo) → is_pinned version revision (attributes d.1) ≡ true
  pub locked_once : AllNew [] (locked_names (blocks_of locked))
  pub locked_pinned :
      (b n : Text)
      → Memᴰ b (blocks_of locked)
      → crate_name b ≡ some n
      → is_locked version revision (fields b) ≡ true
  pub all_locked :
      (d : Text × Text) → Memᴰ d (direct cargo) → Memᴰ d.0 (locked_names (blocks_of locked))

module _ (version revision cargo locked : Text) where
  abbrev found : List Text × List PinError
  found = locked_loop version revision [] (blocks_of locked)

  some_direct_lem : (not (nat_beq (length (direct cargo)) 0) ≡ true) ↔ (direct cargo ≢ [])
  some_direct_lem = nonempty_lem (direct cargo)
    where
      nonempty_lem : (xs : List (Text × Text)) → (not (nat_beq (length xs) 0) ≡ true) ↔ (xs ≢ [])
      nonempty_lem [] = (λ h. absurd (cc h), λ h. absurd (h refl))
      nonempty_lem (x ∷ xs) = (λ _ h. absurd (cc h), λ _. ground arith)

  found_all_lem :
      (all (λ (d : Text × Text). contains found.0 d.0) (direct cargo) ≡ true)
      ↔ ((d : Text × Text) → Memᴰ d (direct cargo) → Memᴰ d.0 (locked_names (blocks_of locked)))
  found_all_lem = (
    λ h d m.
        elim ((loop-names version revision d.0 [] (blocks_of locked)).0 (
          (contains_iff found.0 d.0).0
            (all-mem (λ (d : Text × Text). contains found.0 d.0) d (direct cargo) h m))) [
              | inl n ↦ absurd (Memᴰ-nil n)
              | inr n ↦ n
            ],
    λ h.
        all_intro (λ (d : Text × Text). contains found.0 d.0) (direct cargo)
          (λ d m.
            (contains_iff found.0 d.0).1
              ((loop-names version revision d.0 [] (blocks_of locked)).1 (inr (h d m)))),
  )

  -- `sp1_pin_errors` reports nothing exactly if the version is a stable release and the revision a full commit; the manifest has a direct SP1 dependency, none
  -- twice, and each of them names the repository and the revision and neither a path nor a branch nor a tag; the lockfile has no SP1 crate twice, and each of them has the
  -- release's source and version; and every direct dependency is locked.
  pub sp1_pin_errors-IsPinned :
      (sp1_pin_errors version revision cargo locked ≡ []) ↔ IsPinned version revision cargo locked
  unfolding sp1_pin_errors direct_errors
  sp1_pin_errors-IsPinned = (
    λ h.
        let (a, h1) = (append-nil_iff (ensure (is_release version) unstable_release) _).0 h in
        let (b, h2) = (append-nil_iff (ensure (is_commit revision) short_commit) _).0 h1 in
        let (c, h3) = (append-nil_iff (ensure _ missing_or_duplicate) _).0 h2 in
        let (d, h4) =
          (append-nil_iff (gather (direct_errors version revision) (direct cargo)) _).0 h3 in
        let (e, f) = (append-nil_iff found.1 _).0 h4 in
        let (new, known) = (loop-errors version revision [] (blocks_of locked)).0 e in
        let (nonempty, once) = both_true _ _ ((ensure-nil _ missing_or_duplicate).0 c) in
        record {
          stable = (ensure-nil _ unstable_release).0 a;
          full = (ensure-nil _ short_commit).0 b;
          some_direct = some_direct_lem.0 nonempty;
          direct-Distinct = (distinct_lem _).0 once;
          direct_pinned = λ x m.
              (ensure-nil _ (direct_differs x.0)).0
                ((gather-nil_iff (direct_errors version revision) (direct cargo)).0 d x m);
          locked_once = new;
          locked_pinned = known;
          all_locked = found_all_lem.0 ((ensure-nil _ not_locked).0 f);
        },
    λ p. (append-nil_iff (ensure (is_release version) unstable_release) _).1 (
      (ensure-nil _ unstable_release).1 p.stable,
      (append-nil_iff (ensure (is_commit revision) short_commit) _).1 (
        (ensure-nil _ short_commit).1 p.full,
        (append-nil_iff (ensure _ missing_or_duplicate) _).1 (
          (ensure-nil _ missing_or_duplicate).1
              (and_true (some_direct_lem.1 p.some_direct) ((distinct_lem _).1 p.direct-Distinct)),
          (append-nil_iff (gather (direct_errors version revision) (direct cargo)) _).1 (
            (gather-nil_iff (direct_errors version revision) (direct cargo)).1
                (λ x m. (ensure-nil _ (direct_differs x.0)).1 (p.direct_pinned x m)),
            (append-nil_iff found.1 _).1 (
              (loop-errors version revision [] (blocks_of locked)).1
                  (p.locked_once, p.locked_pinned),
              (ensure-nil _ not_locked).1 (found_all_lem.1 p.all_locked),
            ),
          ),
        ),
      ),
    ),
  )
