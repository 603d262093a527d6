-- ===== src/Trace/Json.antt =====
-- The values that `json.loads` returns. The decoder itself is not part of the repository: it is an
-- argument of the functions that call it.
use expertflow.Base.{
  Bool, true, false, String, str_eq, Option, none, some, List, [], ◌∷◌, if◌then◌else◌,
}
use expertflow.Trace.Event.{ℤ, Float}

mutual
  pub data Json : Type 0 where
    null : Json
    bool : Bool → Json
    int : ℤ → Json
    float : Float → Json
    str : String → Json
    arr : Items → Json
    obj : Fields → Json

  pub data Items : Type 0 where
    nil : Items
    cons : Json → Items → Items

  -- An object's entries; `json.loads` leaves each key once.
  pub data Fields : Type 0 where
    end : Fields
    field : String → Json → Fields → Fields

-- `record.get(name)`
unfoldable pub get_field : String → Fields → Option Json
get_field name end = none
get_field name (field k v fs) = if str_eq k name then some v else get_field name fs

-- `name in names`
unfoldable pub str_elem : String → List String → Bool
str_elem s [] = false
str_elem s (t ∷ ts) = if str_eq t s then true else str_elem s ts

-- `set(record) - names` is not empty
unfoldable pub has_unknown : List String → Fields → Bool
unfolding str_elem
has_unknown names end = false
has_unknown names (field k v fs) = if str_elem k names then has_unknown names fs else true

-- `names - set(record)` is not empty
unfoldable pub has_missing : List String → Fields → Bool
unfolding get_field
has_missing [] fs = false
has_missing (name ∷ names) fs = elim (get_field name fs) [
  | none ↦ true
  | some _ ↦ has_missing names fs
]
