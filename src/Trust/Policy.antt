-- ===== src/Trust/Policy.antt =====
-- scripts/check_trust.py: `string_set`, `load_policy` and `classify`.
use sp1_lean.Texts.{ends_with, full_match, is_some, is_space}
use sp1_lean.Base.{
  ℕ, Bool, true, false, not, ◌&&◌, ◌||◌, Option, none, some, List, [], ◌∷◌, ◌++◌, map, Text, codes,
  nat_beq, nat_eq, list_eq, option_eq, ◌==◌, contains, all, any, if◌then◌else◌, or_else,
}
use sp1_lean.Base.Dict.{Dict}
use sp1_lean.Base.Results.{Result, raise, ok, ◌>>=◌, require}
use sp1_lean.Json.{Json, boolean, number, as_str, as_list, as_dict, get}
use sp1_lean.Regex.{
  Regex, seq, alt, group, one, many, lit, plus, is_dot, is_alnum, is_digit, captured,
}

abbrev pub native_decide : Text
native_decide = codes "native_decide"

abbrev pub bv_decide : Text
bv_decide = codes "bv_decide"

-- `NATIVE`; the end is that of `re.fullmatch`
unfoldable pub native_re : Regex
unfolding lit
native_re =
    seq (group "owner" (plus is_dot))
      (seq (lit (codes "._native.")) (group "tactic" (alt (lit native_decide) (lit bv_decide))))

-- `NATIVE.fullmatch(name)[2]`
unfoldable pub native_tactic : Text → Option Text
unfolding full_match native_re captured
native_tactic name = elim (full_match native_re name) [ none ↦ none | some c ↦ captured "tactic" c ]

abbrev pub is_letter : ℕ → Bool
is_letter c = is_alnum c && not (is_digit c)

-- [A-Za-z][A-Za-z0-9_]*
unfoldable pub identifier_re : Regex
identifier_re = seq (one is_letter) (many (λ c. is_alnum c || nat_beq c b'_'))

unfoldable pub is_identifier : Text → Bool
unfolding full_match identifier_re
is_identifier name = is_some (full_match identifier_re name)

-- What the messages of the ValueErrors say, with the key they show.
pub data PolicyError : Type 0 where
  bad_names duplicate_names : Text → PolicyError
  unsupported_schema not_logical bad_tactics : PolicyError
  bad_group unexplained forbidden_exception bad_exception : Text → PolicyError

-- `isinstance(x, str) and x and not any(c.isspace() for c in x)`
unfoldable pub is_name : Json → Bool
is_name j = elim (as_str j) [ none ↦ false | some t ↦ not (t == []) && not (any is_space t) ]

abbrev pub text_of : Json → Text
text_of j = or_else (as_str j) []

-- `len(set(names)) != len(names)`
unfoldable pub repeats : List Text → Bool
repeats [] = false
repeats (n ∷ ns) = contains ns n || repeats ns

unfoldable pub string_set : Json → Text → Result PolicyError (List Text)
unfolding is_name repeats
string_set value label = elim (as_list value) [
  | none ↦ raise (bad_names label)
  | some js ↦ do
    _ ← require (not (elim js [ [] ↦ true | _ ∷ _ ↦ false ]) && all is_name js) (bad_names label)
    _ ← require (not (repeats (map text_of js))) (duplicate_names label)
    ok (map text_of js)
]

-- Equality of sets that lists stand for.
unfoldable pub same_set : List Text → List Text → Bool
same_set xs ys = all (contains ys) xs && all (contains xs) ys

abbrev pub standard_axioms : List Text
standard_axioms = codes "propext" ∷ codes "Classical.choice" ∷ codes "Quot.sound" ∷ []

abbrev pub sorry : Text
sorry = codes "sorryAx"

abbrev pub never_excepted : List Text
never_excepted = sorry ∷ codes "Lean.trustCompiler" ∷ codes "Lean.ofReduceBool" ∷ []

abbrev pub policy_keys : List Text
policy_keys =
    codes "version"
    ∷ codes "standard"
    ∷ codes "sail"
    ∷ codes "bvDecide"
    ∷ codes "testNativeTactics"
    ∷ []

-- `j == 1`, which holds for True too
abbrev pub is_one : Json → Bool
is_one (boolean b) = b
is_one (number n) = nat_beq n 1
is_one _ = false

abbrev pub keys : Dict Text Json → List Text
keys d = map (λ m. m.0) d

-- `isinstance(j, dict) and set(j) == expected`
unfoldable pub as_record : List Text → Json → Option (Dict Text Json)
unfolding same_set
as_record expected j = elim (as_dict j) [
  | none ↦ none
  | some d ↦ if same_set (keys d) expected then some d else none
]

-- `isinstance(j, str) and j.strip()`
abbrev pub is_explained : Json → Bool
is_explained j = elim (as_str j) [ none ↦ false | some t ↦ not (all is_space t) ]

pub data GroupKey : Type 0 where
  sail bv : GroupKey

abbrev pub group_key : GroupKey → Text
group_key sail = codes "sail"
group_key bv = codes "bvDecide"

unfoldable pub is_wellnamed : GroupKey → Text → Bool
unfolding is_identifier native_tactic ends_with
is_wellnamed sail n = is_identifier n
is_wellnamed bv n = is_some (native_tactic n) && ends_with (codes "._native.bv_decide") n

-- One pass of `for key in ("sail", "bvDecide")`.
unfoldable pub load_group : GroupKey → Json → Result PolicyError (List Text)
unfolding string_set as_record is_wellnamed
load_group k value = elim (as_record (codes "reason" ∷ codes "names" ∷ []) value) [
  | none ↦ raise (bad_group (group_key k))
  | some g ↦ do
    _ ← require (is_explained (get (codes "reason") g)) (unexplained (group_key k))
    names ← string_set (get (codes "names") g) (group_key k)
    _ ←
        require (not (any (contains (standard_axioms ++ never_excepted)) names))
          (forbidden_exception (group_key k))
    _ ← require (all (is_wellnamed k) names) (bad_exception (group_key k))
    ok names
]

-- The parts of the policy that `classify` reads.
pub record Policy : Type 0 where
  pub standard : List Text
  pub sail_names : List Text
  pub bv_names : List Text
  pub tactics : List Text

unfoldable pub load_fields : Dict Text Json → Result PolicyError Policy
unfolding string_set load_group same_set
load_fields policy = do
  standard ← string_set (get (codes "standard") policy) (codes "standard")
  _ ← require (same_set standard standard_axioms) not_logical
  sail_names ← load_group sail (get (codes "sail") policy)
  bv_names ← load_group bv (get (codes "bvDecide") policy)
  tactics ← string_set (get (codes "testNativeTactics") policy) (codes "testNativeTactics")
  _ ← require (same_set tactics (native_decide ∷ bv_decide ∷ [])) bad_tactics
  ok (record {
    standard = standard;
    sail_names = sail_names;
    bv_names = bv_names;
    tactics = tactics;
  })

unfoldable pub load_policy : Json → Result PolicyError Policy
unfolding load_fields as_record
load_policy j = elim (as_record policy_keys j) [
  | none ↦ raise unsupported_schema
  | some d ↦ if is_one (get (codes "version") d) then load_fields d else raise unsupported_schema
]

pub data Scope : Type 0 where
  main_scope test_scope : Scope

abbrev pub is_test : Scope → Bool
is_test main_scope = false
is_test test_scope = true

pub data Category : Type 0 where
  forbidden logical sail_interface approved_bv test_native : Category

-- `scope == "test" and native and native[2] in policy["testNativeTactics"]`
unfoldable pub is_test_native : Text → Scope → Policy → Bool
unfolding native_tactic
is_test_native a scope p =
    is_test scope && elim (native_tactic a) [ none ↦ false | some t ↦ contains p.tactics t ]

unfoldable pub classify : Text → Scope → Policy → Category
unfolding is_test_native
classify a scope p =
    if a == sorry
    then forbidden
    else if contains p.standard a
    then logical
    else if contains p.sail_names a
    then sail_interface
    else if contains p.bv_names a
    then approved_bv
    else if is_test_native a scope p
    then test_native
    else forbidden
