-- ===== src/Export/Stage/Staged.antt =====
-- What the destination holds once `stage_inputs` has returned.
use mathlib.Core.Logic.{⊎_elim}
use mathlib.Core.List.Memᴰ
use sp1_lean.Base.{
  ◌≡◌, ◌≢◌, refl, sym, ap, ◌∙◌, subst, true, false, not, ◌&&◌, ◌↔◌, inl, inr, Option, none, some,
  [], Memᴰ, arith, Text, nat_beq, nat_eq, list_eq, option_eq, all, keep, Bool-cases, Option-cases,
  Memᴰ-nil, Memᴰ-keep, length,
}
use sp1_lean.Base.Dict.{Dict, lookup, has, has_iff, NodupKeys}
use sp1_lean.Base.Order.{text_order}
use sp1_lean.Base.Order.Sorting.{Memᴰ-sort_by}
use sp1_lean.Base.Results.{ok, ok-injective, >>=-ok, >>=-require}
use sp1_lean.Export.Stage.{
  File, regular, irregular, Files, Destination, no_inventory, irregular_inputs, Report, is_basename,
  is_regular, holds, read_all, open_directory, kept, dropped, refresh_all, replace_files,
  stage_inputs,
}
use sp1_lean.Export.Stage.Reads.{IsRead, read_all-IsRead, read_all-NodupKeys}
use sp1_lean.Export.Stage.Refresh.{
  lookup-kept, holds_iff, expected, lookup-refresh_all, Written, Memᴰ-refresh_all,
}

-- What `stage_inputs` leaves behind: exactly the files of the inventory, each with the bytes of the source and the hash that is
-- expected of it; the files that differed are reported as changed, and those outside the inventory as removed.
pub record IsStaged (read : Text → Option Text) (sha256 : Text → Text) (hashes : Dict Text Text)
    (before after : Files) (report : Report) : Type 0 where
  pub complete :
      (n h : Text)
      → lookup n hashes ≡ some h
      → (t : Text) × (read n ≡ some t) × (sha256 t ≡ h) × (lookup n after ≡ some (regular t))
  pub nothing_else : (n : Text) → lookup n hashes ≡ none → lookup n after ≡ none
  pub changed_are :
      (n : Text)
      → Memᴰ n report.changed ↔ (
          (h t : Text) × (lookup n hashes ≡ some h)
          × (lookup n after ≡ some (regular t))
          × (lookup n before ≢ some (regular t)))
  pub removed_are :
      (n : Text)
      → Memᴰ n report.removed
        ↔ ((f : File) × Memᴰ {A = Text × File} (n, f) before × (lookup n hashes ≡ none))

regular-injective :
    {t u : Text} → ◌≡◌ {A = Option File} (some (regular t)) (some (regular u)) → t ≡ u
regular-injective {t} h =
    ap
      (λ (o : Option File). elim o [ none ↦ t | some f ↦ elim f [ regular x ↦ x | irregular ↦ t ] ])
      h

has_of_lookup :
    (contents : Dict Text Text) (n t : Text) → lookup n contents ≡ some t → has n contents ≡ true
has_of_lookup contents n t l = (has_iff n contents).1 (λ q. cc (q, l))

lacks_of_lookup :
    (contents : Dict Text Text) (n : Text) → lookup n contents ≡ none → has n contents ≡ false
lacks_of_lookup contents n l =
    ⊎_elim (λ t. absurd ((has_iff n contents).0 t l)) (λ f. f) (Bool-cases (has n contents))

lookup_of_lacks :
    (contents : Dict Text Text) (n : Text) → has n contents ≡ false → lookup n contents ≡ none
lookup_of_lacks contents n f = elim (Option-cases (lookup n contents)) [
  | inl q ↦ q
  | inr (t, q) ↦ absurd (cc (f, has_of_lookup contents n t q))
]

module _ (read : Text → Option Text) (sha256 : Text → Text) (hashes contents : Dict Text Text)
    (before : Files) (reads : IsRead read sha256 hashes contents)
    (distinct : NodupKeys contents) where
  abbrev after : Files
  after = (refresh_all contents (kept contents before, [])).0

  final :
      (n : Text) → lookup n after ≡ expected (lookup n contents) (lookup n (kept contents before))
  final n = lookup-refresh_all contents (kept contents before) [] n distinct

  kept_here :
      (n t : Text) → lookup n contents ≡ some t → lookup n (kept contents before) ≡ lookup n before
  kept_here n t l = lookup-kept contents n before ∙ rw (has_of_lookup contents n t l) refl

  written : (n t : Text) → lookup n contents ≡ some t → lookup n after ≡ some (regular t)
  unfolding expected
  written n t l = final n ∙ rw l refl

  changed_iff :
      (n : Text)
      → Written contents (kept contents before) n ↔ (
          (h t : Text) × (lookup n hashes ≡ some h)
          × (lookup n after ≡ some (regular t))
          × (lookup n before ≢ some (regular t)))
  changed_iff n = (
    λ (t, l, f). elim (Option-cases (lookup n hashes)) [
      | inl q ↦ absurd (cc (reads.absent n q, l))
      | inr (h, q) ↦ (
        h,
        t,
        q,
        written n t l,
        λ e. cc (f, (holds_iff (lookup n (kept contents before)) t).1 (kept_here n t l ∙ e)),
      )
    ],
    λ (h, t, q, a, b).
        let (u, _, _, l) = reads.present n h q in
        let same : u ≡ t = regular-injective (sym (written n u l) ∙ a) in
        elim (Bool-cases (holds (lookup n (kept contents before)) u)) [
          | inr f ↦ (u, l, f)
          | inl e ↦ absurd (
              b (
                sym (kept_here n u l)
                ∙ ((holds_iff (lookup n (kept contents before)) u).0 e
                    ∙ ap (λ x. some (regular x)) same)))
        ],
  )

  dropped_iff :
      (n : Text)
      → Memᴰ n (dropped contents before)
        ↔ ((f : File) × Memᴰ {A = Text × File} (n, f) before × (lookup n hashes ≡ none))
  unfolding dropped
  dropped_iff n = (
    λ i.
        let ((m, f), j, q) =
          Memᴰ.of_map (λ (x : Text × File). x.0)
            (keep (λ (x : Text × File). not (has x.0 contents)) before) i in
        let (k, out) =
          (Memᴰ-keep (λ (x : Text × File). not (has x.0 contents)) (m, f) before).0 j in
        (
          f,
          subst (λ x. Memᴰ {A = Text × File} (x, f) before) q k,
          subst (λ x. lookup x hashes ≡ none) q
              (unlisted m (lookup_of_lacks contents m (ground arith))),
        ),
    λ (f, k, q).
        Memᴰ.map (λ (x : Text × File). x.0) {a = (n, f)}
          ((Memᴰ-keep (λ (x : Text × File). not (has x.0 contents)) (n, f) before).1
            (k, rw (lacks_of_lookup contents n (reads.absent n q)) refl)),
  )
    where
      unlisted : (m : Text) → lookup m contents ≡ none → lookup m hashes ≡ none
      unlisted m l = elim (Option-cases (lookup m hashes)) [
        | inl q ↦ q
        | inr (h, q) ↦ let (t, _, _, r) = reads.present m h q in absurd (cc (l, r))
      ]

  replace_files-IsStaged :
      IsStaged read sha256 hashes before
        (replace_files contents before).0
        (replace_files contents before).1
  unfolding replace_files expected
  replace_files-IsStaged = record {
    complete = λ n h q. let (t, r, s, l) = reads.present n h q in (t, r, s, written n t l);
    nothing_else = λ n q.
        let l = reads.absent n q in
        final n ∙ rw l (lookup-kept contents n before ∙ rw (lacks_of_lookup contents n l) refl);
    changed_are = λ n. (
      λ i. (changed_iff n).0 (
          ⊎_elim (λ j. absurd (Memᴰ-nil j)) (λ w. w)
            ((Memᴰ-refresh_all contents (kept contents before) [] n distinct).0 (
              (Memᴰ-sort_by (λ (t : Text). t) n
                  (refresh_all contents (kept contents before, [])).1).0
                i))),
      λ w.
          (Memᴰ-sort_by (λ (t : Text). t) n (refresh_all contents (kept contents before, [])).1).1 (
            (Memᴰ-refresh_all contents (kept contents before) [] n distinct).1
              (inr ((changed_iff n).1 w))),
    );
    removed_are = λ n. (
      λ i. (dropped_iff n).0 ((Memᴰ-sort_by (λ (t : Text). t) n (dropped contents before)).0 i),
      λ w. (Memᴰ-sort_by (λ (t : Text). t) n (dropped contents before)).1 ((dropped_iff n).1 w),
    );
  }

-- If `stage_inputs` returns, for an inventory that names each file once, the destination was no link and held regular files only, and
-- afterwards it holds exactly the files of the inventory, each with the bytes of the source and the hash that is expected of it; the
-- report names as changed the files whose bytes were not there before, and as removed the ones outside the inventory.
pub stage_inputs-IsStaged :
    (read : Text → Option Text) (sha256 : Text → Text) (destination : Destination)
    (hashes : Dict Text Text) (after : Files) (report : Report)
    → NodupKeys hashes
    → stage_inputs read sha256 destination hashes ≡ ok (after, report)
    → (before : Files) × (open_directory destination ≡ ok before)
      × (all (λ (f : Text × File). is_regular f.1) before ≡ true)
      × IsStaged read sha256 hashes before after report
unfolding stage_inputs
stage_inputs-IsStaged read sha256 destination hashes after report d h =
    let result : Files × Report = (after, report) in
    let (_, h1) =
      >>=-require
        (not (nat_beq (length hashes) 0) && all (λ (x : Text × Text). is_basename x.0) hashes)
        no_inventory _ result h in
    let (contents, q, h2) = >>=-ok (read_all read sha256 hashes) _ result h1 in
    let (before, r, h3) = >>=-ok (open_directory destination) _ result h2 in
    let (fine, h4) =
      >>=-require (all (λ (f : Text × File). is_regular f.1) before) irregular_inputs _ result h3 in
    (
      before,
      r,
      fine,
      subst (λ (x : Files × Report). IsStaged read sha256 hashes before x.0 x.1)
          (ok-injective (replace_files contents before) result h4)
          (replace_files-IsStaged read sha256 hashes contents before
            (read_all-IsRead read sha256 hashes contents q)
            (read_all-NodupKeys read sha256 hashes contents q d)),
    )
