-- ===== src/Flags/Toml/Plain.antt =====
-- The tables of a lakefile that `parse_minimal_toml` accepts.
use mathlib.Core.Option.{some-injective}
use sp1_lean.Base.{
  ℕ, suc, ◌≡◌, sym, ap, ◌∙◌, subst, ◌⊎◌, inl, inr, some, List, [], ◌∷◌, ◌++◌, Text, nat_eq, list_eq,
  ◌==◌, Memᴰ, Memᴰ-nil, Memᴰ-cons, Memᴰ-append, here, there, Bool-cases, Option-cases,
}
use sp1_lean.Base.Dict.{Dict, lookup, insert, lookup-insert}
use sp1_lean.Base.Results.{ok, >>=-ok, raise-not-ok, ok-injective}
use sp1_lean.Texts.{split_on}
use sp1_lean.Flags.{
  Scalar, boolean, text, number, negative, strings, Setting, scalar, table, Settings, no_settings,
  find_setting, set_setting, flatten,
}
use sp1_lean.Flags.Paths.{IsPlain, IsPlainValue, value_at, split_some, lookup-flatten}
use sp1_lean.Flags.Toml.{
  not_a_table, not_a_list, set_path, set_dotted, Line, blank, array_header, header, assignment,
  line_of, Toml, Current, at_root, at_other, at_table, at_last, set_last, last_of, open_array,
  open_table, assign, read_line, read_lines, empty_toml, parse_minimal_toml,
}
use sp1_lean.Flags.Toml.Written.{
  find_setting-set_setting, Undotted, split_on-Undotted, set_path-IsPlain, set_path-value_at,
  Through, set_path_keeps, fresh, inside, set_path-Step,
}

-- If `_set_dotted` sets a dotted key in a table whose keys are without dots and distinct, the table stays so; `_flatten` then has the value under the dotted key, and what it had under
-- every other name that does not go on from the key.
pub set_dotted-flatten :
    (t u : Settings) (key : Text) (v : Scalar)
    → IsPlain t
    → set_dotted t key v ≡ ok u
    → IsPlain u
      × (lookup key (flatten u) ≡ some v)
      × ((name : Text)
          → ¬ Through (split_on b'.' key) (split_on b'.' name)
          → lookup name (flatten u) ≡ lookup name (flatten t))
unfolding set_dotted IsPlainValue
set_dotted-flatten t u key v h e =
    let (k, ks, q) = split_some key in
    let f : set_path (k ∷ ks) (scalar v) t ≡ ok u =
      subst (λ x. set_path x (scalar v) t ≡ ok u) q e in
    let plain =
      set_path-IsPlain (split_on b'.' key) (scalar v) t u (split_on-Undotted key) tt h e in
    (
      plain,
      lookup-flatten u key plain
          ∙ ap (λ x. value_at x (table u)) q
          ∙ set_path-value_at k ks v t u f,
      λ name other.
          lookup-flatten u name plain
          ∙ set_path_keeps k ks (split_on b'.' name) v t u f
              (subst (λ x. ¬ Through x (split_on b'.' name)) q other)
          ∙ sym (lookup-flatten t name h),
    )

-- Every table in the root or in a list has keys that are without dots and distinct.
pub record IsTidy (toml : Toml) : Type 0 where
  pub values : (k : Text) (v : Setting) → find_setting k toml.root ≡ some v → IsPlainValue v
  pub lists :
      (k : Text) (ts : List Text) (us : List Settings)
      → lookup k toml.arrays ≡ some (ts, us)
      → (t : Settings) → Memᴰ t us
      → IsPlain t

-- The values of a table after one is set.
values_set :
    (k : Text) (w : Setting) (t : Settings)
    → IsPlainValue w
    → ((j : Text) (v : Setting) → find_setting j t ≡ some v → IsPlainValue v)
    → (j : Text) (v : Setting) → find_setting j (set_setting k w t) ≡ some v
    → IsPlainValue v
values_set k w t hw h j v e = elim (Bool-cases (k == j)) [
  | inl f ↦
      subst IsPlainValue (some-injective w v (rw f at (sym (find_setting-set_setting j k w t) ∙ e)))
        hw
  | inr f ↦ h j v (rw f at (sym (find_setting-set_setting j k w t) ∙ e))
]

lists_set :
    (k : Text) (ts : List Text) (us : List Settings) (d : Dict Text (List Text × List Settings))
    → ((t : Settings) → Memᴰ t us → IsPlain t)
    → ((j : Text) (xs : List Text) (ys : List Settings)
        → lookup j d ≡ some (xs, ys)
        → (t : Settings) → Memᴰ t ys
        → IsPlain t)
    → (j : Text) (xs : List Text) (ys : List Settings)
    → lookup j (insert k (ts, us) d) ≡ some (xs, ys)
    → (t : Settings) → Memᴰ t ys
    → IsPlain t
lists_set k ts us d hu h j xs ys e = elim (Bool-cases (k == j)) [
  | inl f ↦
      let same =
        some-injective (ts, us) (xs, ys) (rw f at (sym (lookup-insert j k (ts, us) d) ∙ e)) in
      λ t m. hu t (subst (λ zs. Memᴰ t zs) (sym (ap (λ p. p.1) same)) m)
  | inr f ↦ h j xs ys (rw f at (sym (lookup-insert j k (ts, us) d) ∙ e))
]

-- An assignment below the root makes a table below the key, or a scalar.
set_path_values :
    (ks : List Text) (v : Scalar) (t u : Settings)
    → Undotted ks
    → ((j : Text) (w : Setting) → find_setting j t ≡ some w → IsPlainValue w)
    → set_path ks (scalar v) t ≡ ok u
    → (j : Text) (w : Setting) → find_setting j u ≡ some w
    → IsPlainValue w
unfolding set_path Undotted IsPlainValue
set_path_values [] v t u nd h e j w f = h j w (ap (find_setting j) (ok-injective t u e) ∙ f)
set_path_values (k ∷ []) v t u nd h e j w f =
    values_set k (scalar v) t tt h j w (ap (find_setting j) (ok-injective _ u e) ∙ f)
set_path_values (k ∷ next ∷ ks) v t u nd h e j w f =
    elim (set_path-Step k next ks (scalar v) t u e) [
      | fresh inner q r s ↦
          values_set k (table inner) t
            (set_path-IsPlain (next ∷ ks) (scalar v) no_settings inner nd.1 tt tt r) h j w
            (ap (find_setting j) (sym s) ∙ f)
      | inside x inner q r s ↦
          values_set k (table inner) t
            (set_path-IsPlain (next ∷ ks) (scalar v) x inner nd.1 tt (h k (table x) q) r) h j w
            (ap (find_setting j) (sym s) ∙ f)
    ]

open_array-IsTidy :
    (toml : Toml) (name : Text) (next : Toml × Current)
    → IsTidy toml
    → open_array toml name ≡ ok next
    → IsTidy next.0
unfolding open_array IsPlain
open_array-IsTidy toml name next h e = elim (Option-cases (lookup name toml.arrays)) [
  | inr ((ts, us), q) ↦
      subst (λ n. IsTidy n.0) (ok-injective _ next (rw (q, open_array) at e))
        (record {
          values = h.values;
          lists =
              lists_set name ts (us ++ (no_settings ∷ [])) toml.arrays
                (λ t m. elim ((Memᴰ-append t us (no_settings ∷ [])).0 m) [
                  | inl i ↦ h.lists name ts us q t i
                  | inr i ↦ one t i
                ])
                h.lists;
        })
  | inl q ↦ elim (Option-cases (find_setting name toml.root)) [
    | inl r ↦
        subst (λ n. IsTidy n.0) (ok-injective _ next (rw r at (rw (q, open_array) at e)))
          (fresh_list [])
    | inr (scalar (strings ts), r) ↦
        subst (λ n. IsTidy n.0) (ok-injective _ next (rw r at (rw (q, open_array) at e)))
          (fresh_list ts)
    | inr (scalar (boolean b), r) ↦
        absurd (raise-not-ok not_a_list next (rw r at (rw (q, open_array) at e)))
    | inr (scalar (text t), r) ↦
        absurd (raise-not-ok not_a_list next (rw r at (rw (q, open_array) at e)))
    | inr (scalar (number n), r) ↦
        absurd (raise-not-ok not_a_list next (rw r at (rw (q, open_array) at e)))
    | inr (scalar (negative n), r) ↦
        absurd (raise-not-ok not_a_list next (rw r at (rw (q, open_array) at e)))
    | inr (table t, r) ↦ absurd (raise-not-ok not_a_list next (rw r at (rw (q, open_array) at e)))
  ]
]
  where
    one : (t : Settings) → Memᴰ t (no_settings ∷ []) → IsPlain t
    one t m = elim ((Memᴰ-cons t no_settings []).0 m) [
      | inl q ↦ subst IsPlain (sym q) tt
      | inr i ↦ absurd (Memᴰ-nil i)
    ]

    fresh_list :
        (ts : List Text)
        → IsTidy (record toml { arrays = insert name (ts, no_settings ∷ []) toml.arrays })
    fresh_list ts = record {
      values = h.values;
      lists = lists_set name ts (no_settings ∷ []) toml.arrays one h.lists;
    }

open_table-IsTidy : (toml : Toml) (name : Text) → IsTidy toml → IsTidy (open_table toml name).0
unfolding open_table IsPlain IsPlainValue
open_table-IsTidy toml name h = elim (Option-cases (lookup name toml.arrays)) [
  | inr (l, q) ↦ rw (q, open_table) h
  | inl q ↦ elim (Option-cases (find_setting name toml.root)) [
    | inl r ↦
        rw (q, open_table)
          (rw r (record {
            values = values_set name (table no_settings) toml.root tt h.values;
            lists = h.lists;
          }))
    | inr (table t, r) ↦ rw (q, open_table) (rw r h)
    | inr (scalar v, r) ↦ rw (q, open_table) (rw r h)
  ]
]

last_of-mem : (us : List Settings) (t : Settings) → last_of us ≡ some t → Memᴰ t us
unfolding last_of
last_of-mem [] t e = absurd (cc e)
last_of-mem (u ∷ []) t e = subst (λ x. Memᴰ x (u ∷ [])) (some-injective u t e) here
last_of-mem (u ∷ next ∷ us) t e = there (last_of-mem (next ∷ us) t e)

set_last-mem : (us : List Settings) (t x : Settings) → Memᴰ x (set_last us t) → Memᴰ x us ⊎ (x ≡ t)
set_last-mem [] t x m = inl m
set_last-mem (u ∷ []) t x m = elim ((Memᴰ-cons x t []).0 m) [
  | inl q ↦ inr q
  | inr i ↦ absurd (Memᴰ-nil i)
]
set_last-mem (u ∷ next ∷ us) t x m = elim ((Memᴰ-cons x u (set_last (next ∷ us) t)).0 m) [
  | inl q ↦ inl ((Memᴰ-cons x u (next ∷ us)).1 (inl q))
  | inr i ↦ elim (set_last-mem (next ∷ us) t x i) [ inl j ↦ inl (there j) | inr q ↦ inr q ]
]

set_dotted-IsPlain :
    (t u : Settings) (key : Text) (v : Scalar) → IsPlain t → set_dotted t key v ≡ ok u → IsPlain u
set_dotted-IsPlain t u key v h e = (set_dotted-flatten t u key v h e).0

assign-IsTidy :
    (toml next : Toml) (current : Current) (key : Text) (v : Scalar)
    → IsTidy toml
    → assign toml current key v ≡ ok next
    → IsTidy next
unfolding assign set_dotted IsPlainValue
assign-IsTidy toml next at_other key v h e = absurd (raise-not-ok not_a_table next e)
assign-IsTidy toml next at_root key v h e =
    let (u, q, f) = >>=-ok (set_dotted toml.root key v) _ next e in
    subst IsTidy (ok-injective _ next f) (record {
      values = set_path_values (split_on b'.' key) v toml.root u (split_on-Undotted key) h.values q;
      lists = h.lists;
    })
assign-IsTidy toml next (at_table name) key v h e =
    elim (Option-cases (find_setting name toml.root)) [
      | inl q ↦ absurd (raise-not-ok not_a_table next (rw (q, assign) at e))
      | inr (scalar x, q) ↦ absurd (raise-not-ok not_a_table next (rw (q, assign) at e))
      | inr (table t, q) ↦
          let (u, r, f) = >>=-ok (set_dotted t key v) _ next (rw (q, assign) at e) in
          subst IsTidy (ok-injective _ next f) (record {
            values =
                values_set name (table u) toml.root
                  (set_dotted-IsPlain t u key v (h.values name (table t) q) r) h.values;
            lists = h.lists;
          })
    ]
assign-IsTidy toml next (at_last name) key v h e = elim (Option-cases (lookup name toml.arrays)) [
  | inl q ↦ absurd (raise-not-ok not_a_table next (rw (q, assign) at e))
  | inr ((ts, us), q) ↦ elim (Option-cases (last_of us)) [
    | inl r ↦ absurd (raise-not-ok not_a_table next (rw r at (rw (q, assign) at e)))
    | inr (t, r) ↦
        let (u, s, f) = >>=-ok (set_dotted t key v) _ next (rw r at (rw (q, assign) at e)) in
        let plain = set_dotted-IsPlain t u key v (h.lists name ts us q t (last_of-mem us t r)) s in
        subst IsTidy (ok-injective _ next f) (record {
          values = h.values;
          lists =
              lists_set name ts (set_last us u) toml.arrays
                (λ x m. elim (set_last-mem us u x m) [
                  | inl i ↦ h.lists name ts us q x i
                  | inr p ↦ subst IsPlain (sym p) plain
                ])
                h.lists;
        })
  ]
]

read_line-IsTidy :
    (toml : Toml) (current : Current) (l : Line) (next : Toml × Current)
    → IsTidy toml
    → read_line toml current l ≡ ok next
    → IsTidy next.0
unfolding read_line
read_line-IsTidy toml current blank next h e = subst (λ n. IsTidy n.0) (ok-injective _ next e) h
read_line-IsTidy toml current (array_header name) next h e = open_array-IsTidy toml name next h e
read_line-IsTidy toml current (header name) next h e =
    subst (λ n. IsTidy n.0) (ok-injective _ next e) (open_table-IsTidy toml name h)
read_line-IsTidy toml current (assignment key v) next h e =
    let (t, q, f) = >>=-ok (assign toml current key v) _ next e in
    subst (λ n. IsTidy n.0) (ok-injective _ next f) (assign-IsTidy toml t current key v h q)

read_lines-IsTidy :
    (lineno : ℕ) (toml : Toml) (current : Current) (ls : List Text) (end : Toml)
    → IsTidy toml
    → read_lines lineno toml current ls ≡ ok end
    → IsTidy end
unfolding read_lines
read_lines-IsTidy lineno toml current [] end h e = subst IsTidy (ok-injective toml end e) h
read_lines-IsTidy lineno toml current (line ∷ rest) end h e =
    let (l, q, f) = >>=-ok (line_of lineno line) _ end e in
    let (next, r, g) = >>=-ok (read_line toml current l) _ end f in
    read_lines-IsTidy (suc lineno) next.0 next.1 rest end (read_line-IsTidy toml current l next h r)
      g

-- Every lakefile that is accepted is tidy.
pub parse_minimal_toml-IsTidy :
    (given : Text) (toml : Toml) → parse_minimal_toml given ≡ ok toml → IsTidy toml
unfolding parse_minimal_toml find_setting lookup
parse_minimal_toml-IsTidy given toml e =
    read_lines-IsTidy 1 empty_toml at_root _ toml
      (record { values = λ k v q. absurd (cc q); lists = λ k ts us q. absurd (cc q) }) e
