-- ===== src/Prepare/Prepared.antt =====
-- What stands at the destination once the preparation has run.
use sp1_lean.Base.{
  ◌≡◌, refl, sym, subst, Bool, false, inl, inr, Option, none, some, Text, Bool-cases, Option-cases,
  if_true, if_false, ◌⊎◌, true,
}
use sp1_lean.Base.Results.{ok, Result-cases, raise-not-ok}
use sp1_lean.Pins.Sail.{Source, SailPins, validate_sail}
use sp1_lean.Prepare.{
  PrepareError, Calls, Outcome, stop, place, replace, leave, stage, install, check_tree, Mode,
  check_only, default, forced, from_tree, regenerate, prepare,
}

module _ (sha : Text → Text) (pins : SailPins) where
  -- A tree stands that `validate_sail` accepts.
  abbrev pub HasValid : Option Source → Type 0
  HasValid d = (tree : Source) × (d ≡ some tree) × (validate_sail sha tree pins ≡ ok tt)

  -- A preparation that passes leaves a tree of the pins; in any case there stands what stood before, or a tree of the pins, or, where the renaming that is to restore the old tree
  -- fails, nothing; and one that fails leaves what there was, unless that renaming or the cleanup fails.
  pub record IsPrepared (restore_fails cleanup_fails : Bool) (before : Option Source) (o : Outcome)
      : Type 0 where
    pub passes : o.result ≡ ok tt → HasValid o.destination
    pub stands :
        (o.destination ≡ before)
        ⊎ (HasValid o.destination ⊎ ((restore_fails ≡ true) × (o.destination ≡ none)))
    pub fails :
        ¬ (o.result ≡ ok tt)
        → restore_fails ≡ false
        → cleanup_fails ≡ false
        → o.destination ≡ before

  stop-IsPrepared :
      (r c : Bool) (before : Option Source) (e : PrepareError)
      → IsPrepared r c before (stop e before)
  stop-IsPrepared r c before e = record {
    passes = λ h. absurd (raise-not-ok e tt h);
    stands = inl refl;
    fails = λ _ _ _. refl;
  }

  place-IsPrepared :
      (calls : Calls) (staged : Source) (before : Option Source)
      → validate_sail sha staged pins ≡ ok tt
      → IsPrepared calls.restore_fails calls.cleanup_fails before
          (place sha pins calls staged before)
  unfolding place
  place-IsPrepared calls staged before valid = elim (Bool-cases calls.place_fails) [
    | inl p ↦
        rw (p, place)
          (record {
            passes = λ h. absurd (raise-not-ok _ tt h);
            stands = elim (Bool-cases calls.restore_fails) [
              | inl r ↦ inr (inr (r, if_true calls.restore_fails none before r))
              | inr r ↦ inl (if_false calls.restore_fails none before r)
            ];
            fails = λ _ r _. if_false calls.restore_fails none before r;
          })
    | inr p ↦
        rw (p, place)
          (record {
            passes = λ _. (staged, refl, valid);
            stands = inr (inl (staged, refl, valid));
            fails = λ n _ _. absurd (n refl);
          })
  ]

  replace-IsPrepared :
      (calls : Calls) (staged : Source) (before : Option Source)
      → validate_sail sha staged pins ≡ ok tt
      → IsPrepared calls.restore_fails calls.cleanup_fails before
          (replace sha pins calls staged before)
  unfolding replace
  replace-IsPrepared calls staged none valid = place-IsPrepared calls staged none valid
  replace-IsPrepared calls staged (some previous) valid = elim (Bool-cases calls.backup_fails) [
    | inl p ↦
        rw (p, replace) (stop-IsPrepared calls.restore_fails calls.cleanup_fails (some previous) _)
    | inr p ↦ rw (p, replace) (place-IsPrepared calls staged (some previous) valid)
  ]

  leave-IsPrepared :
      (calls : Calls) (before : Option Source) (o : Outcome)
      → IsPrepared calls.restore_fails calls.cleanup_fails before o
      → IsPrepared calls.restore_fails calls.cleanup_fails before (leave sha pins calls o)
  unfolding leave
  leave-IsPrepared calls before o p = elim (Bool-cases calls.cleanup_fails) [
    | inr q ↦
        subst (IsPrepared calls.restore_fails calls.cleanup_fails before)
          (sym (if_false calls.cleanup_fails _ o q)) p
    | inl q ↦
        subst (IsPrepared calls.restore_fails calls.cleanup_fails before)
          (sym (if_true calls.cleanup_fails _ o q))
          (record {
            passes = λ h. absurd (raise-not-ok _ tt h);
            stands = p.stands;
            fails = λ _ _ c. absurd (cc (q, c));
          })
  ]

  valid_tree :
      (tree : Source) {u : Unit {0}}
      → validate_sail sha tree pins ≡ ok u
      → validate_sail sha tree pins ≡ ok tt
  valid_tree tree h = h

  stage-IsPrepared :
      (calls : Calls) (before : Option Source)
      → IsPrepared calls.restore_fails calls.cleanup_fails before (stage sha pins calls before)
  unfolding stage
  stage-IsPrepared calls before = elim (Option-cases calls.copied) [
    | inl c ↦ rw (c, stage) (stop-IsPrepared calls.restore_fails calls.cleanup_fails before _)
    | inr (staged, c) ↦ elim (Result-cases (validate_sail sha staged pins)) [
      | inl (e, r) ↦
          rw (c, stage) (rw r (stop-IsPrepared calls.restore_fails calls.cleanup_fails before _))
      | inr (v, r) ↦
          rw (c, stage) (rw r (replace-IsPrepared calls staged before (valid_tree staged r)))
    ]
  ]

  install-IsPrepared :
      (calls : Calls) (source : Source) (before : Option Source)
      → IsPrepared calls.restore_fails calls.cleanup_fails before
          (install sha pins calls source before)
  unfolding install
  install-IsPrepared calls source before = elim (Result-cases (validate_sail sha source pins)) [
    | inl (e, q) ↦
        rw (q, install) (stop-IsPrepared calls.restore_fails calls.cleanup_fails before _)
    | inr (u, q) ↦
        rw (q, install)
          (leave-IsPrepared calls before (stage sha pins calls before)
            (stage-IsPrepared calls before))
  ]

  check_tree-valid : (before : Option Source) → check_tree sha pins before ≡ ok tt → HasValid before
  unfolding check_tree
  check_tree-valid none h = absurd (raise-not-ok _ tt h)
  check_tree-valid (some tree) h = elim (Result-cases (validate_sail sha tree pins)) [
    | inl (e, q) ↦ absurd (raise-not-ok _ tt (rw (q, check_tree) at h))
    | inr (u, q) ↦ (tree, refl, valid_tree tree q)
  ]

  regenerate-IsPrepared :
      (calls : Calls) (generated before : Option Source)
      → IsPrepared calls.restore_fails calls.cleanup_fails before
          (regenerate sha pins calls generated before)
  unfolding regenerate
  regenerate-IsPrepared calls none before =
      stop-IsPrepared calls.restore_fails calls.cleanup_fails before _
  regenerate-IsPrepared calls (some tree) before = install-IsPrepared calls tree before

  -- In every mode of prepare_sail.py, and whichever of the generator, the copy, the renamings and the cleanup fail: if it passes, a tree that `validate_sail` accepts stands at the
  -- destination; at the end there stands what stood before, or a tree that `validate_sail` accepts, or nothing, the last only where the renaming that restores the old tree fails;
  -- and if it fails, the destination is what it was before, unless that renaming or the removal of the temporary directory fails as well.
  pub prepare-IsPrepared :
      (mode : Mode) (calls : Calls) (generated before : Option Source)
      → IsPrepared calls.restore_fails calls.cleanup_fails before
          (prepare sha pins mode calls generated before)
  unfolding prepare
  prepare-IsPrepared check_only calls generated before = record {
    passes = check_tree-valid before;
    stands = inl refl;
    fails = λ _ _ _. refl;
  }
  prepare-IsPrepared (from_tree source) calls generated before =
      install-IsPrepared calls source before
  prepare-IsPrepared forced calls generated before = regenerate-IsPrepared calls generated before
  prepare-IsPrepared default calls generated before =
      elim (Result-cases (check_tree sha pins before)) [
        | inl (e, q) ↦ rw (q, prepare) (regenerate-IsPrepared calls generated before)
        | inr (u, q) ↦
            rw (q, prepare)
              (record {
                passes = λ _. check_tree-valid before q;
                stands = inl refl;
                fails = λ n _ _. absurd (n refl);
              })
      ]
