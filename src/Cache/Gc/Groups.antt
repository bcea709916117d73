-- ===== src/Cache/Gc/Groups.antt =====
-- `by_sha` holds each entry of its input, under its sha and its kind, and no other entry.
use mathlib.Core.Logic.{⊎_elim}
use mathlib.Core.List.Memᴰ
use mathlib.Core.List.{foldl}
use sp1_lean.Base.{
  ◌≡◌, sym, ap, subst, ◌⊎◌, inl, inr, List, [], ◌∷◌, ◌++◌, Memᴰ, Text, here, there, Memᴰ-nil,
  Memᴰ-append, nat_eq, list_eq,
}
use sp1_lean.Base.Dict.{upsert, Memᴰ-upsert, Memᴰ-upsert_self, Memᴰ-upsert_keeps}
use sp1_lean.Cache.Key.{BuildKey}
use sp1_lean.Cache.Entry.{Entry}
use sp1_lean.Cache.Gc.{Owned, Builds, Groups, add_build, by_sha}

-- The place of an entry in the groups.
pub record InGroups (groups : Groups) (sha kind : Text) (e : Entry) : Type 0 where
  pub builds : Builds
  pub entries : List Entry
  pub group : Memᴰ (sha, builds) groups
  pub build : Memᴰ (kind, entries) builds
  pub entry : Memᴰ e entries

-- The item of the input that an entry comes from.
pub record FromItem (items : List Owned) (sha kind : Text) (e : Entry) : Type 0 where
  pub fields : BuildKey
  pub item : Memᴰ (e, fields) items
  pub sha_is : fields.sha ≡ sha
  pub kind_is : fields.kind ≡ kind

abbrev snoc : Entry → List Entry → List Entry
snoc x es = es ++ (x ∷ [])

-- One more entry in the builds of a sha.
add_kind_sound :
    (k kind : Text) (x e : Entry) (es : List Entry) (w : Builds)
    → Memᴰ (kind, es) (upsert k [] (snoc x) w)
    → Memᴰ e es
    → ((old : List Entry) × Memᴰ (kind, old) w × Memᴰ e old) ⊎ ((e ≡ x) × (kind ≡ k))
add_kind_sound k kind x e es w i j = elim (Memᴰ-upsert kind k es [] (snoc x) w i) [
  | inl t ↦ inl (es, t, j)
  | inr (q, inl r) ↦ inr (Memᴰ.eq_of_singleton (subst (Memᴰ e) r j), q)
  | inr (q, inr (v, t, r)) ↦
      ⊎_elim (λ o. inl (v, subst (λ z. Memᴰ (z, v) w) (sym q) t, o))
        (λ last. inr (Memᴰ.eq_of_singleton last, q))
        ((Memᴰ-append e v (x ∷ [])).0 (subst (Memᴰ e) r j))
]

add_build_sound :
    (g : Groups) (o : Owned) {sha kind : Text} {e : Entry}
    → InGroups (add_build g o) sha kind e
    → InGroups g sha kind e ⊎ FromItem (o ∷ []) sha kind e
unfolding add_build
add_build_sound g (x, p) {sha} {kind} {e} h =
    elim (Memᴰ-upsert sha p.sha h.builds [] (upsert p.kind [] (snoc x)) g h.group) [
      | inl t ↦ inl (record {
        builds = h.builds;
        entries = h.entries;
        group = t;
        build = h.build;
        entry = h.entry;
      })
      | inr (q, inl r) ↦ from q [] (λ old i. absurd (Memᴰ-nil i)) r
      | inr (q, inr (v, t, r)) ↦ from q v (λ old i. t) r
    ]
  where
    from :
        sha ≡ p.sha
        → (w : Builds) → ((old : List Entry) → Memᴰ (kind, old) w → Memᴰ (p.sha, w) g)
        → h.builds ≡ upsert p.kind [] (snoc x) w
        → InGroups g sha kind e ⊎ FromItem ((x, p) ∷ []) sha kind e
    from q w group_of r =
        elim (add_kind_sound p.kind kind x e h.entries w
          (subst (λ b. Memᴰ (kind, h.entries) b) r h.build) h.entry) [
            | inl (old, i, j) ↦ inl (record {
              builds = w;
              entries = old;
              group = subst (λ z. Memᴰ (z, w) g) (sym q) (group_of old i);
              build = i;
              entry = j;
            })
            | inr (same, k) ↦ inr (record {
              fields = p;
              item = Memᴰ.head (ap (λ z. (z, p)) same);
              sha_is = sym q;
              kind_is = sym k;
            })
          ]

FromItem-weaken :
    (few more : List Owned) {sha kind : Text} {e : Entry}
    → ((o : Owned) → Memᴰ o few → Memᴰ o more)
    → FromItem few sha kind e
    → FromItem more sha kind e
FromItem-weaken few more w h = record {
  fields = h.fields;
  item = w _ h.item;
  sha_is = h.sha_is;
  kind_is = h.kind_is;
}

fold_sound :
    (g : Groups) (items : List Owned) {sha kind : Text} {e : Entry}
    → InGroups (foldl add_build g items) sha kind e
    → InGroups g sha kind e ⊎ FromItem items sha kind e
fold_sound g [] h = inl h
fold_sound g (o ∷ items) h =
    ⊎_elim
      (λ i.
        ⊎_elim inl
          (λ f.
            inr
              (FromItem-weaken (o ∷ []) (o ∷ items) (λ x m. Memᴰ.head (Memᴰ.eq_of_singleton m)) f))
          (add_build_sound g o i))
      (λ f. inr (FromItem-weaken items (o ∷ items) (λ x m. there m) f))
      (fold_sound (add_build g o) items h)

pub by_sha_sound :
    (items : List Owned) {sha kind : Text} {e : Entry}
    → InGroups (by_sha items) sha kind e
    → FromItem items sha kind e
unfolding by_sha
by_sha_sound items h = ⊎_elim (λ i. absurd (Memᴰ-nil i.group)) (λ f. f) (fold_sound [] items h)

-- Conversely, each item is found in its place, and stays there.
add_kind_keeps :
    (k kind : Text) (x e : Entry) (es : List Entry) (w : Builds)
    → Memᴰ (kind, es) w
    → Memᴰ e es
    → (now : List Entry) × Memᴰ (kind, now) (upsert k [] (snoc x) w) × Memᴰ e now
add_kind_keeps k kind x e es w i j =
    ⊎_elim (λ t. (es, t, j)) (λ t. (snoc x es, t, (Memᴰ-append e es (x ∷ [])).1 (inl j)))
      (Memᴰ-upsert_keeps kind k es [] (snoc x) w i)

add_build_keeps :
    (g : Groups) (o : Owned) {sha kind : Text} {e : Entry}
    → InGroups g sha kind e
    → InGroups (add_build g o) sha kind e
unfolding add_build
add_build_keeps g (x, p) {sha} {kind} {e} h =
    elim (Memᴰ-upsert_keeps sha p.sha h.builds [] (upsert p.kind [] (snoc x)) g h.group) [
      | inl t ↦ record {
        builds = h.builds;
        entries = h.entries;
        group = t;
        build = h.build;
        entry = h.entry;
      }
      | inr t ↦
          let (es, i, j) = add_kind_keeps p.kind kind x e h.entries h.builds h.build h.entry in
          record {
            builds = upsert p.kind [] (snoc x) h.builds;
            entries = es;
            group = t;
            build = i;
            entry = j;
          }
    ]

add_build_self :
    (g : Groups) (x : Entry) (p : BuildKey) → InGroups (add_build g (x, p)) p.sha p.kind x
unfolding add_build
add_build_self g x p =
    let (w, i, _) = Memᴰ-upsert_self p.sha [] (upsert p.kind [] (snoc x)) g in
    let (es, j, _) = Memᴰ-upsert_self p.kind [] (snoc x) w in
    record {
      builds = upsert p.kind [] (snoc x) w;
      entries = snoc x es;
      group = i;
      build = j;
      entry = (Memᴰ-append x es (x ∷ [])).1 (inr here);
    }

fold_keeps :
    (g : Groups) (items : List Owned) {sha kind : Text} {e : Entry}
    → InGroups g sha kind e
    → InGroups (foldl add_build g items) sha kind e
fold_keeps g [] h = h
fold_keeps g (o ∷ items) h = fold_keeps (add_build g o) items (add_build_keeps g o h)

fold_complete :
    (g : Groups) (items : List Owned) {x : Entry} {p : BuildKey}
    → Memᴰ (x, p) items
    → InGroups (foldl add_build g items) p.sha p.kind x
fold_complete g [] i = absurd (Memᴰ-nil i)
fold_complete g (o ∷ items) {x} {p} i = elim (Memᴰ.cases_cons i) [
  | inl q ↦
      fold_keeps (add_build g o) items
        (subst (λ (y : Owned). InGroups (add_build g y) p.sha p.kind x) q (add_build_self g x p))
  | inr t ↦ fold_complete (add_build g o) items t
]

pub by_sha_complete :
    (items : List Owned) {x : Entry} {p : BuildKey}
    → Memᴰ (x, p) items
    → InGroups (by_sha items) p.sha p.kind x
unfolding by_sha
by_sha_complete items i = fold_complete [] items i
