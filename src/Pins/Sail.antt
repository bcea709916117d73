-- ===== src/Pins/Sail.antt =====
-- scripts/check_pins.py: `tree_hash` and `validate_sail`, on a tree that is given as the entries of its directory. The hash is a parameter. A path
-- is the list of its parts, and texts stand for their bytes.
pub mod Tree
mod Tests
use sp1_lean.Base.{
  ℕ, zero, suc, ◌+◌, ◌≡◌, refl, Bool, true, false, not, ◌&&◌, ◌||◌, Option, none, some, List, [],
  ◌∷◌, ◌++◌, map, Text, codes, arith, nat_beq, nat_eq, list_eq, ◌==◌, if◌then◌else◌, starts_with,
  length, all, any, choose, gather,
}
use sp1_lean.Base.Order.{Order, less, less_asymm, text_order}
use sp1_lean.Base.Order.Sorting.{sort_by}
use sp1_lean.Base.Results.{Result, raise, ok, ◌>>=◌, require}
use sp1_lean.Texts.{universal_newlines}

-- Paths are compared part by part.
unfoldable pub path_less : List Text → List Text → Bool
path_less [] [] = false
path_less [] (_ ∷ _) = true
path_less (_ ∷ _) [] = false
path_less (x ∷ xs) (y ∷ ys) =
    let rest = path_less xs ys in if less x y then true else if less y x then false else rest

pub path_less_irrefl : (a : List Text) → path_less a a ≡ false
unfolding path_less
path_less_irrefl [] = refl
path_less_irrefl (x ∷ xs) = ground (arith, path_less_irrefl xs, text_order.less_irrefl x)

pub path_less_trans :
    (a b c : List Text) → path_less a b ≡ true → path_less b c ≡ true → path_less a c ≡ true
unfolding path_less
path_less_trans [] [] c h k = ground arith
path_less_trans [] (y ∷ ys) [] h k = ground arith
path_less_trans [] (y ∷ ys) (z ∷ zs) h k = refl
path_less_trans (x ∷ xs) [] c h k = ground arith
path_less_trans (x ∷ xs) (y ∷ ys) [] h k = ground arith
path_less_trans (x ∷ xs) (y ∷ ys) (z ∷ zs) h k = ground (
  arith,
  text_order.less_trans x y z,
  text_order.less_total x y,
  text_order.less_total y z,
  less_asymm x y,
  less_asymm y z,
  less_asymm x z,
  path_less_trans xs ys zs,
)

pub path_less_total : (a b : List Text) → path_less a b ≡ false → path_less b a ≡ false → a ≡ b
unfolding path_less
path_less_total [] [] h k = refl
path_less_total [] (y ∷ ys) h k = ground arith
path_less_total (x ∷ xs) [] h k = ground arith
path_less_total (x ∷ xs) (y ∷ ys) h k =
    ground (arith, text_order.less_total x y, path_less_total xs ys)

instance abbrev pub path_order : Order (List Text)
path_order = record {
  less = path_less;
  less_irrefl = path_less_irrefl;
  less_trans = path_less_trans;
  less_total = path_less_total;
}

pub data Node : Type 0 where
  regular : Text → Node
  directory link : Node

-- Whether the tree and its directory of modules are links, what `LeanRV64D.lean` is, and what `rglob` finds in the directory, with
-- the paths from the tree.
pub record Source : Type 0 where
  pub is_link : Bool
  pub models_link : Bool
  pub root : Option Node
  pub entries : List (List Text × Node)

pub data SailError : Type 0 where
  linked_inputs linked_contents differs not_module_mode os_error : SailError

abbrev pub is_link_node : Node → Bool
is_link_node link = true
is_link_node _ = false

-- A path with its content, if it is a file.
abbrev pub file_of : List Text × Node → Option (List Text × Text)
file_of (path, regular content) = some (path, content)
file_of _ = none

-- `path.as_posix()`
unfoldable pub as_posix : List Text → Text
as_posix [] = []
as_posix (part ∷ []) = part
as_posix (part ∷ next ∷ parts) = part ++ (b'/' ∷ as_posix (next ∷ parts))

abbrev pub root_path : List Text
root_path = codes "LeanRV64D.lean" ∷ []

-- `path.read_bytes()` of the first file
abbrev pub read_root : Option Node → Result SailError Text
read_root (some (regular content)) = ok content
read_root _ = raise os_error

unfoldable pub files : Source → Text → List (List Text × Text)
files source content = (root_path, content) ∷ sort_by (λ f. f.0) (choose file_of source.entries)

abbrev pub root_entry : Option Node → List (List Text × Node)
root_entry none = []
root_entry (some node) = (root_path, node) ∷ []

-- `pins`
pub record SailPins : Type 0 where
  pub tree : Text
  pub count : ℕ
  pub module_system : Bool

abbrev pub module_line : Text
module_line = codes "module" ++ (10 ∷ [])

-- `path.read_text().startswith("module\n")`
unfoldable pub is_module : List Text × Node → Bool
unfolding universal_newlines starts_with
is_module (_, regular content) = starts_with module_line (universal_newlines false content)
is_module _ = true

abbrev pub same_tree : SailPins → Text × ℕ → Bool
same_tree pins (tree, count) = tree == pins.tree && count == pins.count

module _ (sha : Text → Text) where
  unfoldable pub encode : List Text × Text → Text
  unfolding as_posix
  encode (path, content) = as_posix path ++ (0 ∷ (sha content ++ (10 ∷ [])))

  unfoldable pub tree_hash : Source → Result SailError (Text × ℕ)
  unfolding encode files
  tree_hash source = read_root source.root >>= λ content.
      ok (sha (gather encode (files source content)), length (files source content))

  unfoldable pub validate_sail : Source → SailPins → Result SailError (Unit {0})
  unfolding tree_hash is_module
  validate_sail source pins = do
    _ ← require (not (source.is_link || source.models_link)) linked_inputs
    _ ←
        require (not (any (λ e. is_link_node e.1) (root_entry source.root ++ source.entries)))
          linked_contents
    found ← tree_hash source
    _ ← require (same_tree pins found) differs
    require (not pins.module_system || all is_module (root_entry source.root ++ source.entries))
        not_module_mode
