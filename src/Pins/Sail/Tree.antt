-- ===== src/Pins/Sail/Tree.antt =====
-- What a generated tree is that `validate_sail` accepts.
use mathlib.Core.List.{append_assoc}
use sp1_lean.Base.{
  ℕ, ◌≡◌, refl, sym, ◌∙◌, ap, Bool, true, false, not, ◌||◌, inl, inr, List, [], ◌∷◌, ◌++◌, map,
  Text, arith, nat_eq, list_eq, eq_iff, length, Memᴰ, Bool-cases, all, any, all-mem, any_intro,
  gather, here, there, ◌⊎◌, ◌≢◌, nat_beq, ◌==◌, codes, starts_with,
}
use sp1_lean.Base.Results.{ok, require-ok, ok-injective, >>=-ok, >>=-require}
use sp1_lean.Texts.{universal_newlines}
use sp1_lean.Pins.Sail.{
  Node, regular, link, Source, SailPins, linked_inputs, linked_contents, differs, not_module_mode,
  is_link_node, read_root, files, root_entry, as_posix, encode, tree_hash, same_tree, is_module,
  validate_sail,
}

-- A character that is not in a text.
abbrev pub Lacks : ℕ → Text → Type 0
Lacks c text = Memᴰ c text → ⊥

cons_head : {x y : ℕ} {xs ys : Text} → ◌≡◌ {A = Text} (x ∷ xs) (y ∷ ys) → x ≡ y
cons_head {x} e = ap (λ (t : Text). elim t [ [] ↦ x | c ∷ _ ↦ c ]) e

cons_tail : {x y : ℕ} {xs ys : Text} → ◌≡◌ {A = Text} (x ∷ xs) (y ∷ ys) → xs ≡ ys
cons_tail e = ap (λ (t : Text). elim t [ [] ↦ [] | _ ∷ r ↦ r ]) e

cons_same {ℓ} : {A : Type ℓ} {x y : A} {xs ys : List A} → x ≡ y → xs ≡ ys → x ∷ xs ≡ y ∷ ys
cons_same h k = rw (h, k) refl

pair_same : {a b c d : Text} → a ≡ b → c ≡ d → ◌≡◌ {A = Text × Text} (a, c) (b, d)
pair_same h k = rw (h, k) refl

not_empty : (c : ℕ) (xs r t : Text) → (xs ++ (c ∷ r)) ++ t ≡ [] → ⊥
not_empty c [] r t e = cc e
not_empty c (x ∷ xs) r t e = cc e

-- Two texts that are followed by the same separator, which is in neither.
separated :
    (c : ℕ) (xs ys r t : Text)
    → Lacks c xs
    → Lacks c ys
    → xs ++ (c ∷ r) ≡ ys ++ (c ∷ t)
    → (xs ≡ ys) × (r ≡ t)
separated c [] [] r t h k e = (refl, cons_tail e)
separated c [] (y ∷ ys) r t h k e = absurd (k (Memᴰ.head (cons_head e)))
separated c (x ∷ xs) [] r t h k e = absurd (h (Memᴰ.head (sym (cons_head e))))
separated c (x ∷ xs) (y ∷ ys) r t h k e =
    let (p, q) = separated c xs ys r t (λ m. h (there m)) (λ m. k (there m)) (cons_tail e) in
    (cons_same (cons_head e) p, q)

-- A file as the digest sees it.
abbrev pub shown : List Text × Text → Text × Text
shown f = (as_posix f.0, f.1)

-- Two different texts of two lists with one digest.
pub record Collision (sha : Text → Text) (xs ys : List Text) : Type 0 where
  pub one : Text
  pub other : Text
  pub in_first : Memᴰ one xs
  pub in_second : Memᴰ other ys
  pub differ : one ≢ other
  pub same_digest : sha one ≡ sha other

Collision-there :
    (sha : Text → Text) (x y : Text) (xs ys : List Text)
    → Collision sha xs ys
    → Collision sha (x ∷ xs) (y ∷ ys)
Collision-there sha x y xs ys c = record {
  one = c.one;
  other = c.other;
  in_first = there c.in_first;
  in_second = there c.in_second;
  differ = c.differ;
  same_digest = c.same_digest;
}

-- Two texts with one digest are the same, or collide.
same_or_Collision :
    (sha : Text → Text) (x y : Text) (xs ys : List Text)
    → sha x ≡ sha y
    → (x ≡ y) ⊎ Collision sha (x ∷ xs) (y ∷ ys)
same_or_Collision sha x y xs ys e = elim (Bool-cases (x == y)) [
  | inl q ↦ inl ((eq_iff x y).0 q)
  | inr q ↦ inr (record {
    one = x;
    other = y;
    in_first = here;
    in_second = here;
    differ = λ same. cc (q, (eq_iff x y).1 same);
    same_digest = e;
  })
]

abbrev pub contents_of : List (List Text × Text) → List Text
contents_of = map (λ (f : List Text × Text). f.1)

module _ (sha : Text → Text) (sha_one_line : (a : Text) → Lacks 10 (sha a)) where
  gather-encode-same :
      (xs ys : List (List Text × Text))
      → ((f : List Text × Text) → Memᴰ f xs → Lacks 0 (as_posix f.0))
      → ((f : List Text × Text) → Memᴰ f ys → Lacks 0 (as_posix f.0))
      → gather (encode sha) xs ≡ gather (encode sha) ys
      → (map shown xs ≡ map shown ys) ⊎ Collision sha (contents_of xs) (contents_of ys)
  unfolding gather encode
  gather-encode-same [] [] h k e = inl refl
  gather-encode-same [] (g ∷ ys) h k e = absurd (not_empty 0 (as_posix g.0) _ _ (sym e))
  gather-encode-same (f ∷ xs) [] h k e = absurd (not_empty 0 (as_posix f.0) _ _ e)
  gather-encode-same (f ∷ xs) (g ∷ ys) h k e =
      let spread = λ (p : List Text × Text) (t : Text).
        append_assoc (as_posix p.0) (0 ∷ (sha p.1 ++ (10 ∷ []))) t in
      let inner = λ (p : List Text × Text) (t : Text). append_assoc (sha p.1) (10 ∷ []) t in
      let (path, rest) =
        separated 0 (as_posix f.0) (as_posix g.0) ((sha f.1 ++ (10 ∷ [])) ++ gather (encode sha) xs)
          ((sha g.1 ++ (10 ∷ [])) ++ gather (encode sha) ys) (h f here) (k g here)
          ((sym (spread f _)) ∙ (e ∙ spread g _)) in
      let (digest, more) =
        separated 10 (sha f.1) (sha g.1) (gather (encode sha) xs) (gather (encode sha) ys)
          (sha_one_line f.1) (sha_one_line g.1) (sym (inner f _) ∙ (rest ∙ inner g _)) in
      elim (same_or_Collision sha f.1 g.1 (contents_of xs) (contents_of ys) digest) [
        | inr c ↦ inr c
        | inl same ↦
            elim (gather-encode-same xs ys (λ p m. h p (there m)) (λ p m. k p (there m)) more) [
              | inl others ↦ inl (cons_same (pair_same path same) others)
              | inr c ↦ inr (Collision-there sha f.1 g.1 (contents_of xs) (contents_of ys) c)
            ]
      ]

-- What `validate_sail` has seen of a tree that it accepts.
record Accepted (sha : Text → Text) (source : Source) (pins : SailPins) : Type 0 where
  pub content : Text
  pub root_read : read_root source.root ≡ ok content
  pub tree : sha (gather (encode sha) (files source content)) ≡ pins.tree
  pub count : length (files source content) ≡ pins.count
  pub no_link :
      (e : List Text × Node)
      → Memᴰ e (root_entry source.root ++ source.entries)
      → is_link_node e.1 ≡ false
  pub modules :
      pins.module_system ≡ true
      → (e : List Text × Node) → Memᴰ e (root_entry source.root ++ source.entries)
      → is_module e ≡ true

module _ (sha : Text → Text) (source : Source) (pins : SailPins) where
  abbrev all_entries : List (List Text × Node)
  all_entries = root_entry source.root ++ source.entries

  abbrev pub some_link : Bool
  some_link = any (λ (e : List Text × Node). is_link_node e.1) all_entries

  no_link_lem :
      some_link ≡ false → (e : List Text × Node) → Memᴰ e all_entries → is_link_node e.1 ≡ false
  no_link_lem h e m = elim (Bool-cases (is_link_node e.1)) [
    | inr q ↦ q
    | inl q ↦
        absurd (cc (h, any_intro (λ (x : List Text × Node). is_link_node x.1) e all_entries m q))
  ]

  modules_lem :
      (not pins.module_system || all is_module all_entries) ≡ true
      → pins.module_system ≡ true
      → (e : List Text × Node) → Memᴰ e all_entries
      → is_module e ≡ true
  modules_lem h k e m = all-mem is_module e all_entries (rw k at h) m

  validate_sail-Accepted : validate_sail sha source pins ≡ ok tt → Accepted sha source pins
  unfolding validate_sail tree_hash
  validate_sail-Accepted h =
      let (_, h1) = >>=-require (not (source.is_link || source.models_link)) linked_inputs _ tt h in
      let (b, h2) = >>=-require (not some_link) linked_contents _ tt h1 in
      let (found, t, h3) = >>=-ok (tree_hash sha source) _ tt h2 in
      let (content, c, h4) = >>=-ok (read_root source.root) _ found t in
      let (same, h5) = >>=-require (same_tree pins found) differs _ tt h3 in
      let made = ok-injective _ found h4 in
      let (tree, count) = pinned (rw (← made) at same) in
      record {
        content = content;
        root_read = c;
        tree = tree;
        count = count;
        no_link = no_link_lem (ground (arith, b));
        modules = modules_lem (require-ok _ not_module_mode tt h5);
      }
    where
      pinned :
          {t : Text} {n : ℕ} → same_tree pins (t, n) ≡ true → (t ≡ pins.tree) × (n ≡ pins.count)
      pinned {t} {n} k =
          ((eq_iff t pins.tree).0 (ground (arith, k)), (eq_iff n pins.count).0 (ground (arith, k)))

-- A text that begins with a word in a line of its own.
abbrev pub HasFirstLine : Text → Text → Type 0
HasFirstLine word content =
    (c : ℕ) × (rest : Text) × (content ≡ word ++ (c ∷ rest)) × ((c ≡ 10) ⊎ (c ≡ 13))

starts_with-HasFirstLine :
    (word content : Text)
    → all (λ (x : ℕ). not (nat_beq x 10)) word ≡ true
    → starts_with (word ++ (10 ∷ [])) (universal_newlines false content) ≡ true
    → HasFirstLine word content
unfolding starts_with universal_newlines all
starts_with-HasFirstLine [] [] h e = absurd (cc e)
starts_with-HasFirstLine [] (c ∷ content) h e = (c, content, refl, ground (arith, e))
starts_with-HasFirstLine (x ∷ word) [] h e = absurd (cc e)
starts_with-HasFirstLine (x ∷ word) (c ∷ content) h e = elim (Bool-cases (nat_beq c 13)) [
  | inl q ↦ absurd (ground (arith, h, rw q at e))
  | inr q ↦
      let next = rw q at e in
      let same : c ≡ x = ground (arith, next) in
      let (d, rest, split, line) =
        starts_with-HasFirstLine word content (ground (arith, h)) (ground (arith, next)) in
      (d, rest, cons_same same split, line)
]

-- A tree that holds no link, and in which every file begins with the line "module", if the pins ask for module mode.
pub record IsFit (pins : SailPins) (source : Source) : Type 0 where
  pub no_link :
      (e : List Text × Node) → Memᴰ e (root_entry source.root ++ source.entries) → e.1 ≢ link
  pub first_lines :
      pins.module_system ≡ true
      → (path : List Text) (content : Text)
      → Memᴰ {A = List Text × Node}
          (path, regular content)
          (root_entry source.root ++ source.entries)
      → HasFirstLine (codes "module") content

Accepted-IsFit :
    (sha : Text → Text) (source : Source) (pins : SailPins)
    → Accepted sha source pins
    → IsFit pins source
unfolding is_module all
Accepted-IsFit sha source pins p = record {
  no_link = λ e m q. cc (p.no_link e m, ap is_link_node q);
  first_lines = λ h path content m.
      starts_with-HasFirstLine (codes "module") content refl
        (p.modules h (path, regular content) m);
}

-- The files of a tree, for a root file that can be read.
abbrev pub HasFiles : Source → List (Text × Text) → Type 0
HasFiles source seen =
    (content : Text) × (read_root source.root ≡ ok content)
    × (map shown (files source content) ≡ seen)

-- The texts of which `tree_hash` takes the digest.
abbrev pub hashed : (Text → Text) → Source → Text → List Text
hashed sha source content =
    gather (encode sha) (files source content) ∷ contents_of (files source content)

-- Two different texts with one digest, one hashed for each of two trees.
abbrev pub Collide : (Text → Text) → Source → Source → Type 0
Collide sha a b =
    (x y : Text) × (read_root a.root ≡ ok x)
    × (read_root b.root ≡ ok y)
    × Collision sha (hashed sha a x) (hashed sha b y)

-- Two trees that `validate_sail` accepts with the same pinned digest hold the same files, by path and content, or two different texts that are hashed for them, file contents or lists
-- of paths and digests, have one digest; neither tree holds a link, and if the pins ask for module mode, every file of both
-- starts with the line "module". The digests have no line feed, and no path has a NUL.
pub validate_sail_same :
    (sha : Text → Text)
    → ((a : Text) → Lacks 10 (sha a))
    → (a b : Source) (pins : SailPins)
    → ((content : Text) (f : List Text × Text) → Memᴰ f (files a content) → Lacks 0 (as_posix f.0))
    → ((content : Text) (f : List Text × Text) → Memᴰ f (files b content) → Lacks 0 (as_posix f.0))
    → validate_sail sha a pins ≡ ok tt
    → validate_sail sha b pins ≡ ok tt
    → (((seen : List (Text × Text)) × HasFiles a seen × HasFiles b seen) ⊎ Collide sha a b)
      × IsFit pins a
      × IsFit pins b
validate_sail_same sha one_line a b pins clean_a clean_b accept_a accept_b =
    let p = validate_sail-Accepted sha a pins accept_a in
    let q = validate_sail-Accepted sha b pins accept_b in
    (agree p q, Accepted-IsFit sha a pins p, Accepted-IsFit sha b pins q)
  where
    agree :
        Accepted sha a pins
        → Accepted sha b pins
        → ((seen : List (Text × Text)) × HasFiles a seen × HasFiles b seen) ⊎ Collide sha a b
    agree p q =
        let xs = files a p.content in
        let ys = files b q.content in
        elim (same_or_Collision sha (gather (encode sha) xs) (gather (encode sha) ys)
          (contents_of xs) (contents_of ys) (p.tree ∙ sym q.tree)) [
            | inr c ↦ inr (p.content, q.content, p.root_read, q.root_read, c)
            | inl same ↦
                elim (gather-encode-same sha one_line xs ys (clean_a p.content) (clean_b q.content)
                  same) [
                    | inl seen ↦ inl (
                      map shown xs,
                      (p.content, p.root_read, refl),
                      (q.content, q.root_read, sym seen),
                    )
                    | inr c ↦ inr (
                      p.content,
                      q.content,
                      p.root_read,
                      q.root_read,
                      Collision-there sha _ _ (contents_of xs) (contents_of ys) c,
                    )
                  ]
          ]
