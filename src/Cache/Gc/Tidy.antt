-- ===== src/Cache/Gc/Tidy.antt =====
-- The lists in `by_sha` are never empty, and a kind stands once in the builds of a sha. So the newest
-- entry of a kind is always defined.
use mathlib.Core.Logic.{⊎_elim}
use mathlib.Core.List.{foldl}
use sp1_lean.Base.{
  ℕ, ◌≤◌, ◌≡◌, refl, sym, subst, inr, true, false, Option, none, some, List, [], ◌∷◌, ◌++◌, Memᴰ,
  arith, Text, here, Memᴰ-nil, Memᴰ-append, nat_eq, list_eq, ltb,
}
use sp1_lean.Base.Dict.{
  upsert, has, has_iff, lookup, Memᴰ-upsert, NodupKeys, upsert-NodupKeys, lookup_of_mem,
  mem_of_lookup,
}
use sp1_lean.Base.Order.{nat_order, max_by, max_by-mem, max_by-above, max_by-some}
use sp1_lean.Cache.Entry.{Entry, when}
use sp1_lean.Cache.Gc.{Owned, Builds, Groups, add_build, by_sha, newest_of, age_key}

pub record IsTidyBuilds (b : Builds) : Type 0 where
  pub nodup : NodupKeys b
  pub nonempty : (k : Text) (es : List Entry) → Memᴰ (k, es) b → (e : Entry) × Memᴰ e es

abbrev pub IsTidy : Groups → Type 0
IsTidy g = (s : Text) (b : Builds) → Memᴰ (s, b) g → IsTidyBuilds b

abbrev snoc : Entry → List Entry → List Entry
snoc x es = es ++ (x ∷ [])

upsert-IsTidyBuilds :
    (k : Text) (x : Entry) (b : Builds) → IsTidyBuilds b → IsTidyBuilds (upsert k [] (snoc x) b)
upsert-IsTidyBuilds k x b h = record {
  nodup = upsert-NodupKeys k [] (snoc x) b h.nodup;
  nonempty = λ j es i.
      ⊎_elim (h.nonempty j es)
        (λ (_, from).
          ⊎_elim (λ q. (x, subst (Memᴰ x) (sym q) here))
            (λ (v, _, q). (x, subst (Memᴰ x) (sym q) ((Memᴰ-append x v (x ∷ [])).1 (inr here))))
            from)
        (Memᴰ-upsert j k es [] (snoc x) b i);
}

empty_tidy : IsTidyBuilds []
empty_tidy = record { nodup = tt; nonempty = λ k es i. absurd (Memᴰ-nil i) }

add_build-IsTidy : (g : Groups) (o : Owned) → IsTidy g → IsTidy (add_build g o)
unfolding add_build
add_build-IsTidy g (x, p) h s b i =
    ⊎_elim (h s b)
      (λ (_, from).
        ⊎_elim (λ q. subst IsTidyBuilds (sym q) (upsert-IsTidyBuilds p.kind x [] empty_tidy))
          (λ (v, j, q). subst IsTidyBuilds (sym q) (upsert-IsTidyBuilds p.kind x v (h p.sha v j)))
          from)
      (Memᴰ-upsert s p.sha b [] (upsert p.kind [] (snoc x)) g i)

fold-IsTidy : (g : Groups) (items : List Owned) → IsTidy g → IsTidy (foldl add_build g items)
fold-IsTidy g [] h = h
fold-IsTidy g (o ∷ items) h = fold-IsTidy (add_build g o) items (add_build-IsTidy g o h)

pub by_sha-IsTidy : (items : List Owned) → IsTidy (by_sha items)
unfolding by_sha
by_sha-IsTidy items = fold-IsTidy [] items (λ s b i. absurd (Memᴰ-nil i))

newest_of-eq :
    (kind : Text) (b : Builds) (es : List Entry) {m : Entry}
    → lookup kind b ≡ some es
    → max_by when es ≡ some m
    → newest_of kind b ≡ some m
unfolding newest_of
newest_of-eq kind b es q r = rw q r

pub age_key-eq :
    (kind sha : Text) (b : Builds) {m : Entry}
    → newest_of kind b ≡ some m
    → age_key kind (sha, b) ≡ when m
unfolding age_key
age_key-eq kind sha b q = rw (q, age_key) refl

-- The newest entry of a kind that the builds have.
pub record Newest (kind sha : Text) (b : Builds) : Type 0 where
  pub entry : Entry
  pub entries : List Entry
  pub is_newest : newest_of kind b ≡ some entry
  pub build : Memᴰ (kind, entries) b
  pub member : Memᴰ entry entries
  pub age : age_key kind (sha, b) ≡ when entry

pub Newest-of_has :
    (kind sha : Text) (b : Builds) → IsTidyBuilds b → has kind b ≡ true → Newest kind sha b
Newest-of_has kind sha b h t = go (lookup kind b) refl
  where
    go : (o : Option (List Entry)) → lookup kind b ≡ o → Newest kind sha b
    go none q = absurd ((has_iff kind b).0 t q)
    go (some es) q =
        let i = mem_of_lookup b q in
        let (e, j) = h.nonempty kind es i in
        let (m, r) = max_by-some when e es j in
        record {
          entry = m;
          entries = es;
          is_newest = newest_of-eq kind b es q r;
          build = i;
          member = max_by-mem when es r;
          age = age_key-eq kind sha b (newest_of-eq kind b es q r);
        }

le_of_not_less : (a b : ℕ) → ltb a b ≡ false → b ≤ a
le_of_not_less a b h = ground arith

-- No entry of the kind is newer.
pub age_key-above :
    (kind sha : Text) (b : Builds) (es : List Entry) (e : Entry)
    → IsTidyBuilds b
    → Memᴰ (kind, es) b
    → Memᴰ e es
    → (has kind b ≡ true) × (when e ≤ age_key kind (sha, b))
age_key-above kind sha b es e h i j =
    let found = lookup_of_mem b h.nodup i in
    let (m, r) = max_by-some when e es j in
    (
      (has_iff kind b).1 (λ missing. cc (found, missing)),
      rw (age_key-eq kind sha b (newest_of-eq kind b es found r))
          (le_of_not_less (when m) (when e) (max_by-above when e es r j)),
    )

fold-NodupKeys :
    (g : Groups) (items : List Owned) → NodupKeys g → NodupKeys (foldl add_build g items)
unfolding add_build
fold-NodupKeys g [] h = h
fold-NodupKeys g ((x, p) ∷ items) h =
    fold-NodupKeys (add_build g (x, p)) items
      (upsert-NodupKeys p.sha [] (upsert p.kind [] (snoc x)) g h)

-- A sha stands once in `by_sha`.
pub by_sha-NodupKeys : (items : List Owned) → NodupKeys (by_sha items)
unfolding by_sha
by_sha-NodupKeys items = fold-NodupKeys [] items tt
