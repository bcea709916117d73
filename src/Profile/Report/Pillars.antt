-- ===== src/Profile/Report/Pillars.antt =====
-- The table of the pillars divides the modules.
use mathlib.Core.List.Memᴰ
use sp1_lean.Base.{
  ℕ, ◌+◌, ◌≡◌, ◌≢◌, refl, sym, ◌∙◌, ap, subst, false, inl, inr, Option, List, [], ◌∷◌, ◌++◌, map,
  Text, arith, nat_eq, list_eq, ◌==◌, Memᴰ, Memᴰ-nil, Memᴰ-append, length, length-append, or_else,
  Bool-cases, here, there,
}
use sp1_lean.Base.Dict.{
  Dict, upsert, NodupKeys, upsert-NodupKeys, lookup_of_mem, Memᴰ-upsert, Memᴰ-upsert_self,
  Memᴰ-upsert_keeps,
}
use sp1_lean.Base.Order.{nat_order, less}
use sp1_lean.Base.Order.Sorting.{
  insert_down, sort_down, Memᴰ-sort_down, sort_down-IsSortedDown, IsSortedDown, Apart,
  sort_down-Apart,
}
use sp1_lean.Profile.Seconds.{pillar_of}
use sp1_lean.Profile.Stats.{sum}
use sp1_lean.Profile.Report.{
  Times, group_modules, time_of, seconds_of, Pillar, pillar_row, pillar_table,
}

-- The sum of a figure over a list.
unfoldable pub sum_of {ℓ} : {A : Type ℓ} → (A → ℕ) → List A → ℕ
sum_of f [] = 0
sum_of f (x ∷ xs) = f x + sum_of f xs

sum_of-insert_down {ℓ} :
    {A : Type ℓ} (key f : A → ℕ) (x : A) (xs : List A)
    → sum_of f (insert_down key x xs) ≡ f x + sum_of f xs
unfolding insert_down sum_of
sum_of-insert_down key f x [] = refl
sum_of-insert_down key f x (y ∷ ys) = elim (Bool-cases (less (key x) (key y))) [
  | inl e ↦ rw (e, insert_down) (omega (arith, sum_of-insert_down key f x ys))
  | inr e ↦ rw (e, insert_down) refl
]

sum_of-sort_down {ℓ} :
    {A : Type ℓ} (key f : A → ℕ) (xs : List A) → sum_of f (sort_down key xs) ≡ sum_of f xs
unfolding sort_down sum_of
sum_of-sort_down key f [] = refl
sum_of-sort_down key f (x ∷ xs) =
    sum_of-insert_down key f x (sort_down key xs) ∙ ap (λ n. f x + n) (sum_of-sort_down key f xs)

-- A figure of lists that adds up, over the groups.
module _ (f : List Text → ℕ) (one : Text → ℕ) (empty : f [] ≡ 0)
    (more : (m : Text) (ms : List Text) → f (ms ++ (m ∷ [])) ≡ f ms + one m) where
  abbrev of_group : Text × List Text → ℕ
  of_group g = f g.1

  sum_of-upsert :
      (k m : Text) (per : Dict Text (List Text))
      → sum_of of_group (upsert k [] (λ names. names ++ (m ∷ [])) per) ≡ sum_of of_group per + one m
  unfolding upsert sum_of
  sum_of-upsert k m [] = omega (arith, empty, more m [])
  sum_of-upsert k m ((j, names) ∷ per) = elim (Bool-cases (j == k)) [
    | inl e ↦ rw (e, upsert) (omega (arith, more m names))
    | inr e ↦ rw (e, upsert) (omega (arith, sum_of-upsert k m per))
  ]

  sum_of-group_modules :
      (per : Dict Text (List Text)) (ms : List Text)
      → sum_of of_group (group_modules per ms) ≡ sum_of of_group per + sum_of one ms
  unfolding group_modules sum_of
  sum_of-group_modules per [] = omega arith
  sum_of-group_modules per (m ∷ ms) = omega (
    arith,
    sum_of-group_modules (upsert (pillar_of m) [] (λ names. names ++ (m ∷ [])) per) ms,
    sum_of-upsert (pillar_of m) m per,
  )

  sum_of_groups : (ms : List Text) → sum_of of_group (group_modules [] ms) ≡ sum_of one ms
  unfolding sum_of
  sum_of_groups ms = omega (arith, sum_of-group_modules [] ms)

sum-append : (xs : List ℕ) (n : ℕ) → sum (xs ++ (n ∷ [])) ≡ sum xs + n
unfolding sum
sum-append [] n = omega arith
sum-append (x ∷ xs) n = omega (arith, sum-append xs n)

map-append {ℓ κ} :
    {A : Type ℓ} {B : Type κ} (f : A → B) (xs : List A) (y : A)
    → map f (xs ++ (y ∷ [])) ≡ map f xs ++ (f y ∷ [])
map-append f [] y = refl
map-append f (x ∷ xs) y = ap (λ l. f x ∷ l) (map-append f xs y)

sum_of-map {ℓ κ} :
    {A : Type ℓ} {B : Type κ} (f : B → ℕ) (g : A → B) (xs : List A)
    → sum_of f (map g xs) ≡ sum_of (λ x. f (g x)) xs
unfolding sum_of
sum_of-map f g [] = refl
sum_of-map f g (x ∷ xs) = ap (λ n. f (g x) + n) (sum_of-map f g xs)

sum_of-same {ℓ} :
    {A : Type ℓ} (f g : A → ℕ) (xs : List A)
    → ((a : A) → Memᴰ a xs → f a ≡ g a)
    → sum_of f xs ≡ sum_of g xs
unfolding sum_of
sum_of-same f g [] h = refl
sum_of-same f g (x ∷ xs) h = omega (arith, h x here, sum_of-same f g xs (λ a m. h a (there m)))

sum_of-one {ℓ} : {A : Type ℓ} (xs : List A) → sum_of (λ _. 1) xs ≡ length xs
unfolding sum_of
sum_of-one [] = refl
sum_of-one (x ∷ xs) = omega (arith, sum_of-one xs)

-- Every module is in the group of its pillar, and a group has only modules of its pillar.
abbrev IsGroup : List Text → Text × List Text → Type 0
IsGroup ms g = (m : Text) → Memᴰ m g.1 → (pillar_of m ≡ g.0) × Memᴰ m ms

group_modules-IsGroup :
    (all ms : List Text) (per : Dict Text (List Text))
    → ((m : Text) → Memᴰ m ms → Memᴰ m all)
    → ((g : Text × List Text) → Memᴰ g per → IsGroup all g)
    → (g : Text × List Text) → Memᴰ g (group_modules per ms)
    → IsGroup all g
unfolding group_modules
group_modules-IsGroup all [] per h old g i = old g i
group_modules-IsGroup all (m ∷ ms) per h old g i =
    group_modules-IsGroup all ms (upsert (pillar_of m) [] (λ names. names ++ (m ∷ [])) per)
      (λ n j. h n (there j)) added g i
  where
    added :
        (g : Text × List Text)
        → Memᴰ g (upsert (pillar_of m) [] (λ names. names ++ (m ∷ [])) per)
        → IsGroup all g
    added g j n k = elim (Memᴰ-upsert g.0 (pillar_of m) g.1 [] (λ names. names ++ (m ∷ [])) per j) [
      | inl i ↦ old g i n k
      | inr (q, inl r) ↦
          let same : n ≡ m = Memᴰ.eq_of_singleton (subst (Memᴰ n) r k) in
          (rw same (sym q), subst (λ x. Memᴰ x all) (sym same) (h m here))
      | inr (q, inr (v, a, b)) ↦ elim ((Memᴰ-append n v (m ∷ [])).0 (subst (Memᴰ n) b k)) [
        | inl c ↦ let (own, known) = old (pillar_of m, v) a n c in (own ∙ sym q, known)
        | inr c ↦
            let same : n ≡ m = Memᴰ.eq_of_singleton c in
            (rw same (sym q), subst (λ x. Memᴰ x all) (sym same) (h m here))
      ]
    ]

module _ (g : Text) (m : Text) where
  abbrev Holds : Dict Text (List Text) → Type 0
  Holds per = (names : List Text) × Memᴰ (g, names) per × Memᴰ m names

  upsert-Holds :
      (k n : Text) (per : Dict Text (List Text))
      → Holds per
      → Holds (upsert k [] (λ names. names ++ (n ∷ [])) per)
  upsert-Holds k n per (names, i, j) =
      elim (Memᴰ-upsert_keeps g k names [] (λ names. names ++ (n ∷ [])) per i) [
        | inl a ↦ (names, a, j)
        | inr a ↦ (names ++ (n ∷ []), a, (Memᴰ-append m names (n ∷ [])).1 (inl j))
      ]

  group_modules-Holds :
      (per : Dict Text (List Text)) (ms : List Text) → Holds per → Holds (group_modules per ms)
  unfolding group_modules
  group_modules-Holds per [] h = h
  group_modules-Holds per (n ∷ ms) h =
      group_modules-Holds (upsert (pillar_of n) [] (λ names. names ++ (n ∷ [])) per) ms
        (upsert-Holds (pillar_of n) n per h)

group_modules-all :
    (m : Text) (ms : List Text) (per : Dict Text (List Text))
    → Memᴰ m ms
    → Holds (pillar_of m) m (group_modules per ms)
unfolding group_modules
group_modules-all m [] per i = absurd (Memᴰ-nil i)
group_modules-all m (n ∷ ms) per i = elim (Memᴰ.cases_cons i) [
  | inr t ↦ group_modules-all m ms (upsert (pillar_of n) [] (λ names. names ++ (n ∷ [])) per) t
  | inl e ↦
      let (w, j, _) = Memᴰ-upsert_self (pillar_of n) [] (λ names. names ++ (n ∷ [])) per in
      group_modules-Holds (pillar_of m) m (upsert (pillar_of n) [] (λ names. names ++ (n ∷ [])) per)
        ms (w ++ (n ∷ []), rw e j, (Memᴰ-append m w (n ∷ [])).1 (inr (Memᴰ.head e)))
]

no_seconds : (times : Times) → seconds_of times [] ≡ 0
unfolding seconds_of sum
no_seconds times = refl

more_seconds :
    (times : Times) (m : Text) (ms : List Text)
    → seconds_of times (ms ++ (m ∷ [])) ≡ seconds_of times ms + time_of times m
unfolding seconds_of
more_seconds times m ms =
    ap sum (map-append (time_of times) ms m) ∙ sum-append (map (time_of times) ms) (time_of times m)

group_modules-NodupKeys :
    (per : Dict Text (List Text)) (ms : List Text)
    → NodupKeys per
    → NodupKeys (group_modules per ms)
unfolding group_modules
group_modules-NodupKeys per [] h = h
group_modules-NodupKeys per (m ∷ ms) h =
    group_modules-NodupKeys (upsert (pillar_of m) [] (λ names. names ++ (m ∷ [])) per) ms
      (upsert-NodupKeys (pillar_of m) [] (λ names. names ++ (m ∷ [])) per h)

-- Two entries of a dict have different keys.
abbrev OtherKey : Text × List Text → Text × List Text → Type 0
OtherKey g h = g.0 ≢ h.0

Apart-entries : (per : Dict Text (List Text)) → NodupKeys per → Apart OtherKey per
Apart-entries [] h = tt
Apart-entries ((k, v) ∷ per) h =
    (λ a m e. cc (h.0, lookup_of_mem per h.1 m, e), Apart-entries per h.1)

-- What the table of the pillars is, for the times of distinct modules: no two rows are of one pillar; the rows' seconds add up to those of all modules, and their counts to the number of the
-- modules; every module is in the row of its pillar; the modules of a row are those of its pillar, and its seconds are theirs; and no row
-- has more seconds than one above it.
pub record IsTable (times : Times) (rows : List Pillar) : Type 0 where
  pub seconds_total : sum_of (λ (r : Pillar). r.secs) rows ≡ sum_of (λ (t : Text × ℕ). t.1) times
  pub count_total : sum_of (λ (r : Pillar). length r.modules) rows ≡ length times
  pub distinct : Apart (λ (r s : Pillar). r.pillar ≢ s.pillar) rows
  pub own :
      (r : Pillar) (m : Text)
      → Memᴰ r rows
      → Memᴰ m r.modules
      → (pillar_of m ≡ r.pillar) × Memᴰ m (map (λ t. t.0) times)
  pub every :
      (m : Text) (n : ℕ)
      → Memᴰ (m, n) times
      → (r : Pillar) × Memᴰ r rows × (r.pillar ≡ pillar_of m) × Memᴰ m r.modules
  pub row_seconds : (r : Pillar) → Memᴰ r rows → r.secs ≡ seconds_of times r.modules
  pub descending : IsSortedDown (λ (r : Pillar). r.secs) rows

module _ (times : Times) (categories : Option (Dict Text Times)) where
  abbrev groups : Dict Text (List Text)
  groups = group_modules [] (map (λ t. t.0) times)

  abbrev sorted_groups : Dict Text (List Text)
  sorted_groups = sort_down (λ g. seconds_of times g.1) groups

  row_of_Mem :
      (r : Pillar)
      → Memᴰ r (pillar_table times categories)
      → (g : Text × List Text) × Memᴰ g groups × (pillar_row times categories g ≡ r)
  unfolding pillar_table
  row_of_Mem r i =
      let (g, j, e) = Memᴰ.of_map (pillar_row times categories) sorted_groups i in
      (g, (Memᴰ-sort_down (λ (g : Text × List Text). seconds_of times g.1) g groups).0 j, e)

  map-descending :
      (gs : Dict Text (List Text))
      → IsSortedDown (λ (g : Text × List Text). seconds_of times g.1) gs
      → IsSortedDown (λ (r : Pillar). r.secs) (map (pillar_row times categories) gs)
  unfolding pillar_row
  map-descending [] s = tt
  map-descending (g ∷ gs) s = (
    λ r i.
        let (h, j, e) = Memᴰ.of_map (pillar_row times categories) gs i in
        subst (λ (x : Pillar). less (seconds_of times g.1) x.secs ≡ false) e (s.0 h j),
    map-descending gs s.1,
  )

  map-Apart :
      (gs : Dict Text (List Text))
      → Apart OtherKey gs
      → Apart (λ (r s : Pillar). r.pillar ≢ s.pillar) (map (pillar_row times categories) gs)
  unfolding pillar_row
  map-Apart [] s = tt
  map-Apart (g ∷ gs) s = (
    λ r i.
        let (h, j, e) = Memᴰ.of_map (pillar_row times categories) gs i in
        subst (λ (x : Pillar). g.0 ≢ x.pillar) e (s.0 h j),
    map-Apart gs s.1,
  )

  by_groups :
      (f : List Text → ℕ) (h : Text × List Text → ℕ)
      → ((g : Text × List Text) → h g ≡ f g.1)
      → sum_of h sorted_groups ≡ sum_of (λ (g : Text × List Text). f g.1) groups
  by_groups f h e =
      sum_of-sort_down (λ (g : Text × List Text). seconds_of times g.1) h groups
      ∙ sum_of-same h (λ (g : Text × List Text). f g.1) groups (λ g _. e g)

  -- For distinct modules, `pillar_table` divides them by pillar: no two rows are of one pillar, no module and no second is lost or counted twice, every module is in the row of its pillar, and the rows
  -- descend by their seconds.
  pub pillar_table-IsTable : NodupKeys times → IsTable times (pillar_table times categories)
  unfolding pillar_table pillar_row
  pillar_table-IsTable h = record {
    seconds_total =
        sum_of-map (λ (r : Pillar). r.secs) (pillar_row times categories) sorted_groups
        ∙ (by_groups (seconds_of times) (λ (g : Text × List Text). seconds_of times g.1) (λ g. refl)
            ∙ (sum_of_groups (seconds_of times) (time_of times) (no_seconds times)
                  (more_seconds times) (map (λ t. t.0) times)
                ∙ (sum_of-map (time_of times) (λ t. t.0) times
                    ∙ sum_of-same (λ t. time_of times t.0) (λ t. t.1) times
                        (λ t m. ap (λ o. or_else o 0) (lookup_of_mem times h m)))));
    count_total =
        sum_of-map (λ (r : Pillar). length r.modules) (pillar_row times categories) sorted_groups
        ∙ (by_groups length (λ (g : Text × List Text). length g.1) (λ g. refl)
            ∙ (sum_of_groups length (λ _. 1) refl (λ m ms. length-append ms (m ∷ []))
                  (map (λ t. t.0) times)
                ∙ (sum_of-map (λ _. 1) (λ t. t.0) times ∙ sum_of-one times)));
    distinct = map-Apart sorted_groups (
        sort_down-Apart (λ (g : Text × List Text). seconds_of times g.1) OtherKey
          (λ x y n e. n (sym e)) groups
          (Apart-entries groups (group_modules-NodupKeys [] (map (λ t. t.0) times) tt)));
    own = λ r m i j.
        let (g, k, e) = row_of_Mem r i in
        let (a, b) =
          group_modules-IsGroup (map (λ t. t.0) times) (map (λ t. t.0) times) [] (λ n x. x)
            (λ x y. absurd (Memᴰ-nil y)) g k m
            (subst (λ (x : Pillar). Memᴰ m x.modules) (sym e) j) in
        (a ∙ ap (λ (x : Pillar). x.pillar) e, b);
    every = λ m n i.
        let (names, j, k) =
          group_modules-all m (map (λ t. t.0) times) [] (Memᴰ.map (λ (t : Text × ℕ). t.0) i) in
        (
          pillar_row times categories (pillar_of m, names),
          Memᴰ.map (pillar_row times categories) (
              (Memᴰ-sort_down (λ (g : Text × List Text). seconds_of times g.1) (pillar_of m, names)
                  groups).1
                j),
          refl,
          k,
        );
    row_seconds = λ r i.
        let (g, k, e) = row_of_Mem r i in
        subst (λ (x : Pillar). x.secs ≡ seconds_of times x.modules) e refl;
    descending =
        map-descending sorted_groups
          (sort_down-IsSortedDown (λ (g : Text × List Text). seconds_of times g.1) groups);
  }
