-- ===== src/Pins/Sail/Tests.antt =====
-- Two listings of one tree, in another order.
use mathlib.Core.List.Memᴰ
use sp1_lean.Base.{
  ℕ, zero, suc, ◌+◌, ◌≡◌, ◌⊎◌, refl, Bool, true, false, Option, some, List, [], ◌∷◌, ◌++◌, Memᴰ,
  Memᴰ-nil, Text, codes, arith, nat_eq, list_eq, inl, inr, subst, sym, contains, contains_iff,
}
use sp1_lean.Base.Results.{ok}
use sp1_lean.Pins.Sail.{
  regular, directory, Node, Source, SailPins, is_module, validate_sail, files, as_posix,
}
use sp1_lean.Pins.Sail.Tree.{Lacks, HasFiles, Collide, IsFit, validate_sail_same}

-- A hash without line feeds.
abbrev shifted : Text → Text
shifted [] = []
shifted (c ∷ t) = (c + 11) ∷ shifted t

shifted-Lacks : (a : Text) → Lacks 10 (shifted a)
shifted-Lacks [] m = Memᴰ-nil m
shifted-Lacks (c ∷ a) m = elim (Memᴰ.cases_cons m) [
  | inl e ↦ omega (arith, e)
  | inr t ↦ shifted-Lacks a t
]

abbrev module_text : Text
module_text = codes "module" ++ (10 ∷ codes "def x")

-- A file with the line ends of another system is one in module mode too.
crlf_test : is_module (codes "C.lean" ∷ [], regular (codes "module" ++ (13 ∷ 10 ∷ []))) ≡ true
unfolding is_module
crlf_test = refl

abbrev first_file : List Text × Node
first_file = (codes "LeanRV64D" ∷ codes "A.lean" ∷ [], regular module_text)

abbrev second_file : List Text × Node
second_file = (codes "LeanRV64D" ∷ codes "B.lean" ∷ [], regular module_text)

abbrev tree_of : List (List Text × Node) → Source
tree_of entries = record {
  is_link = false;
  models_link = false;
  root = some (regular module_text);
  entries = entries;
}

abbrev forwards : Source
forwards = tree_of (first_file ∷ second_file ∷ [])

abbrev backwards : Source
backwards =
    tree_of (second_file ∷ (codes "LeanRV64D" ∷ codes "sub" ∷ [], directory) ∷ first_file ∷ [])

abbrev line_of : Text → Text
line_of path = path ++ (0 ∷ (shifted module_text ++ (10 ∷ [])))

abbrev pins : SailPins
pins = record {
  tree = shifted (
      line_of (codes "LeanRV64D.lean")
      ++ (line_of (codes "LeanRV64D/A.lean") ++ line_of (codes "LeanRV64D/B.lean")));
  count = 3;
  module_system = true;
}

forwards_test : validate_sail shifted forwards pins ≡ ok tt
unfolding validate_sail sp1_lean.Base.any sp1_lean.Base.list_beq sp1_lean.Base.gather
    sp1_lean.Base.Order.Sorting.sort_by sp1_lean.Base.choose sp1_lean.Base.all
    sp1_lean.Base.starts_with sp1_lean.Pins.Sail.path_less sp1_lean.Base.Order.text_less
forwards_test = refl

backwards_test : validate_sail shifted backwards pins ≡ ok tt
unfolding validate_sail sp1_lean.Base.any sp1_lean.Base.list_beq sp1_lean.Base.gather
    sp1_lean.Base.Order.Sorting.sort_by sp1_lean.Base.choose sp1_lean.Base.all
    sp1_lean.Base.starts_with sp1_lean.Pins.Sail.path_less sp1_lean.Base.Order.text_less
backwards_test = refl

Lacks-contains : (c : ℕ) (t : Text) → contains t c ≡ false → Lacks c t
Lacks-contains c t h m = cc (h, (contains_iff t c).1 m)

abbrev CleanPaths : List (List Text × Text) → Type 0
CleanPaths fs = (f : List Text × Text) → Memᴰ f fs → Lacks 0 (as_posix f.0)

CleanPaths-cons :
    (f : List Text × Text) (fs : List (List Text × Text))
    → contains (as_posix f.0) 0 ≡ false
    → CleanPaths fs
    → CleanPaths (f ∷ fs)
CleanPaths-cons f fs h rest g m = elim (Memᴰ.cases_cons m) [
  | inl e ↦
      subst (λ (x : List Text × Text). Lacks 0 (as_posix x.0)) (sym e)
        (Lacks-contains 0 (as_posix f.0) h)
  | inr t ↦ rest g t
]

forwards-CleanPaths : (content : Text) → CleanPaths (files forwards content)
unfolding files as_posix contains sp1_lean.Base.Order.Sorting.sort_by sp1_lean.Base.choose
    sp1_lean.Pins.Sail.path_less sp1_lean.Base.Order.text_less
forwards-CleanPaths content =
    CleanPaths-cons _ _ refl
      (CleanPaths-cons _ _ refl (CleanPaths-cons _ _ refl (λ f m. absurd (Memᴰ-nil m))))

backwards-CleanPaths : (content : Text) → CleanPaths (files backwards content)
unfolding files as_posix contains sp1_lean.Base.Order.Sorting.sort_by sp1_lean.Base.choose
    sp1_lean.Pins.Sail.path_less sp1_lean.Base.Order.text_less
backwards-CleanPaths content =
    CleanPaths-cons _ _ refl
      (CleanPaths-cons _ _ refl (CleanPaths-cons _ _ refl (λ f m. absurd (Memᴰ-nil m))))

validate_sail_same_example :
    (((seen : List (Text × Text)) × HasFiles forwards seen × HasFiles backwards seen)
      ⊎ Collide shifted forwards backwards)
    × IsFit pins forwards
    × IsFit pins backwards
validate_sail_same_example =
    validate_sail_same shifted shifted-Lacks forwards backwards pins forwards-CleanPaths
      backwards-CleanPaths forwards_test backwards_test
