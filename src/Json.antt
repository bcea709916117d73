-- ===== src/Json.antt =====
-- The values that Python's `json.loads` returns. Objects have distinct keys; the numbers that the scripts test
-- are natural.
use sp1_lean.Base.{ℕ, Bool, Option, none, some, List, [], ◌∷◌, Text, nat_eq, list_eq, or_else}
use sp1_lean.Base.Dict.{Dict, lookup}

mutual
  pub data Json : Type 0 where
    null : Json
    boolean : Bool → Json
    number : ℕ → Json
    str : Text → Json
    array : Items → Json
    object : Members → Json

  pub data Items : Type 0 where
    no_items : Items
    item : Json → Items → Items

  pub data Members : Type 0 where
    no_members : Members
    member : Text → Json → Members → Members

abbrev pub items : Items → List Json
items no_items = []
items (item j js) = j ∷ items js

abbrev pub members : Members → Dict Text Json
members no_members = []
members (member k j ms) = (k, j) ∷ members ms

-- `isinstance(j, str)`, `list` and `dict`
abbrev pub as_str : Json → Option Text
as_str (str t) = some t
as_str _ = none

abbrev pub as_list : Json → Option (List Json)
as_list (array js) = some (items js)
as_list _ = none

abbrev pub as_dict : Json → Option (Dict Text Json)
as_dict (object ms) = some (members ms)
as_dict _ = none

-- `d[k]`, for a key that is there
abbrev pub get : Text → Dict Text Json → Json
get k d = or_else (lookup k d) null
