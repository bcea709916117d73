-- ===== src/Export/Stage/Refresh.antt =====
-- What the loops over the destination leave under each name.
use mathlib.Core.Logic.{⊎_elim}
use mathlib.Core.List.Memᴰ
use mathlib.Core.Option.{some-injective}
use sp1_lean.Base.{
  ◌≡◌, refl, sym, ap, ◌∙◌, subst, true, false, ◌⊎◌, ◌↔◌, inl, inr, Option, none, some, List, [],
  ◌∷◌, Memᴰ, arith, Text, nat_eq, list_eq, option_eq, ◌==◌, eq_iff, keep, if◌then◌else◌, Bool-cases,
}
use sp1_lean.Base.Dict.{Dict, lookup, has, lookup-insert, NodupKeys}
use sp1_lean.Base.Order.{text_order}
use sp1_lean.Export.Stage.{File, regular, Files, holds, kept, refresh, refresh_all}

pub lookup-kept :
    (contents : Dict Text Text) (n : Text) (files : Files)
    → lookup n (kept contents files) ≡ (if has n contents then lookup n files else none)
unfolding kept lookup keep
lookup-kept contents n [] = ground arith
lookup-kept contents n ((m, f) ∷ files) =
    ground
      (arith, lookup-kept contents n files, eq_iff m n, ap (λ x. has x contents) {x = m} {y = n})

pub holds_iff : (o : Option File) (t : Text) → (holds o t ≡ true) ↔ (o ≡ some (regular t))
holds_iff none t = (λ h. cc h, λ h. cc h)
holds_iff (some (regular u)) t = (
  λ h. ap (λ x. some (regular x)) ((eq_iff u t).0 h),
  λ h. (eq_iff u t).1 (ap (λ (x : Text). x) (cc h)),
)
holds_iff (some _) t = (λ h. cc h, λ h. cc h)

lookup-refresh :
    (files : Files) (changed : List Text) (m t n : Text)
    → lookup n (refresh (files, changed) (m, t)).0
      ≡ (if m == n then some (regular t) else lookup n files)
unfolding refresh
lookup-refresh files changed m t n = elim (Bool-cases (holds (lookup m files) t)) [
  | inr e ↦ rw (e, refresh) (lookup-insert n m (regular t) files)
  | inl e ↦
      rw (e, refresh)
        (elim (Bool-cases (m == n)) [
          | inr s ↦ rw s refl
          | inl s ↦ rw s (
              subst (λ x. lookup x files ≡ some (regular t)) ((eq_iff m n).0 s)
                ((holds_iff (lookup m files) t).0 e))
        ])
]

-- What a directory holds under a name after it was refreshed.
unfoldable pub expected : Option Text → Option File → Option File
expected none old = old
expected (some t) old = some (regular t)

pub lookup-refresh_all :
    (contents : Dict Text Text) (files : Files) (changed : List Text) (n : Text)
    → NodupKeys contents
    → lookup n (refresh_all contents (files, changed)).0
      ≡ expected (lookup n contents) (lookup n files)
unfolding refresh_all expected lookup
lookup-refresh_all [] files changed n d = refl
lookup-refresh_all ((m, t) ∷ contents) files changed n d =
    let (after, more) = refresh (files, changed) (m, t) in
    lookup-refresh_all contents (refresh (files, changed) (m, t)).0
      (refresh (files, changed) (m, t)).1 n d.1
    ∙ elim (Bool-cases (m == n)) [
      | inr s ↦
          rw s (ap (expected (lookup n contents)) (lookup-refresh files changed m t n ∙ rw s refl))
      | inl s ↦
          let gone : lookup n contents ≡ none =
            subst (λ x. lookup x contents ≡ none) ((eq_iff m n).0 s) d.0 in
          rw s (rw gone (lookup-refresh files changed m t n ∙ rw s refl))
    ]

-- The names that a refresh writes.
abbrev pub Written : Dict Text Text → Files → Text → Type 0
Written contents files n =
    (t : Text) × (lookup n contents ≡ some t) × (holds (lookup n files) t ≡ false)

Memᴰ-refresh :
    (files : Files) (changed : List Text) (m t n : Text)
    → Memᴰ n (refresh (files, changed) (m, t)).1
      ↔ (Memᴰ n changed ⊎ ((n ≡ m) × (holds (lookup m files) t ≡ false)))
unfolding refresh
Memᴰ-refresh files changed m t n = elim (Bool-cases (holds (lookup m files) t)) [
  | inl e ↦ rw (e, refresh) (inl, ⊎_elim (λ i. i) (λ (q, f). absurd (cc f)))
  | inr e ↦
      rw (e, refresh)
        (
          λ i. ⊎_elim inl (λ j. inr (Memᴰ.eq_of_singleton j, refl)) (Memᴰ.append_cases changed i),
          ⊎_elim (Memᴰ.append_left (m ∷ [])) (λ (q, f). Memᴰ.append_right changed (Memᴰ.head q)),
        )
]

pub Memᴰ-refresh_all :
    (contents : Dict Text Text) (files : Files) (changed : List Text) (n : Text)
    → NodupKeys contents
    → Memᴰ n (refresh_all contents (files, changed)).1 ↔ (Memᴰ n changed ⊎ Written contents files n)
unfolding refresh_all lookup
Memᴰ-refresh_all [] files changed n d = (inl, ⊎_elim (λ i. i) (λ (t, q, f). absurd (cc q)))
Memᴰ-refresh_all ((m, t) ∷ contents) files changed n d =
    let files2 = (refresh (files, changed) (m, t)).0 in
    let changed2 = (refresh (files, changed) (m, t)).1 in
    let rest = Memᴰ-refresh_all contents files2 changed2 n d.1 in
    let first = Memᴰ-refresh files changed m t n in
    elim (Bool-cases (m == n)) [
      | inl s ↦
          let same = (eq_iff m n).0 s in
          let gone : lookup n contents ≡ none = subst (λ x. lookup x contents ≡ none) same d.0 in
          (
            λ i.
                ⊎_elim
                  (λ j.
                    ⊎_elim inl
                      (λ (q, f). inr (
                        t,
                        rw (s, lookup) refl,
                        subst (λ x. holds (lookup x files) t ≡ false) same f,
                      ))
                      (first.0 j))
                  (λ (u, l, f). absurd (cc (gone, l))) (rest.0 i),
            ⊎_elim (λ j. rest.1 (inl (first.1 (inl j))))
                (λ (u, l, f).
                  let twin : t ≡ u = some-injective t u (rw (s, lookup) at l) in
                  rest.1 (
                    inl (
                      first.1 (
                        inr (
                          sym same,
                          subst (λ x. holds (lookup x files) t ≡ false) (sym same)
                              (subst (λ v. holds (lookup n files) v ≡ false) (sym twin) f),
                        ))))),
          )
      | inr s ↦
          let still : lookup n files2 ≡ lookup n files =
            lookup-refresh files changed m t n ∙ rw s refl in
          (
            λ i.
                ⊎_elim
                  (λ j. ⊎_elim inl (λ (q, f). absurd (cc (s, (eq_iff m n).1 (sym q)))) (first.0 j))
                  (λ (u, l, f). inr (u, rw (s, lookup) l, subst (λ o. holds o u ≡ false) still f))
                  (rest.0 i),
            ⊎_elim (λ j. rest.1 (inl (first.1 (inl j))))
                (λ (u, l, f).
                  rest.1
                    (inr (u, rw (s, lookup) at l, subst (λ o. holds o u ≡ false) (sym still) f))),
          )
    ]
