-- ===== src/Json.antt =====
-- `serde_json::Value`, with the accessors that the program calls.
use mcp_shield.Prelude.{
  ℕ, String, Bool, true, false, Option, none, some, List, [], ◌∷◌, ◌==◌, if◌then◌else◌,
}

-- `negsuc n` is -(n + 1).
pub data ℤ : Type 0 where
  pos : ℕ → ℤ
  negsuc : ℕ → ℤ

-- A number is an integer or, as its text, a float.
mutual
  pub data Value : Type 0 where
    null : Value
    bool : Bool → Value
    integer : ℤ → Value
    float : String → Value
    string : String → Value
    array : Items → Value
    object : Fields → Value

  pub data Items : Type 0 where
    nil : Items
    cons : Value → Items → Items

  pub data Fields : Type 0 where
    end : Fields
    field : String → Value → Fields → Fields

abbrev pub items : Items → List Value
items nil = []
items (cons v vs) = v ∷ items vs

abbrev pub of_items : List Value → Items
of_items [] = nil
of_items (v ∷ vs) = cons v (of_items vs)

unfoldable pub find_field : String → Fields → Option Value
find_field k end = none
find_field k (field j v fs) = if j == k then some v else find_field k fs

-- `map.insert(k, v)`
unfoldable pub set_field : String → Value → Fields → Fields
set_field k v end = field k v end
set_field k v (field j w fs) = if j == k then field k v fs else field j w (set_field k v fs)

-- `value.get(k)`
unfoldable pub get : Value → String → Option Value
unfolding find_field
get (object fs) k = find_field k fs
get _ k = none

-- `obj[k] = v`, on an object.
unfoldable pub put : Value → String → Value → Value
unfolding set_field
put (object fs) k v = object (set_field k v fs)
put v k w = v

abbrev pub as_str : Value → Option String
as_str (string s) = some s
as_str _ = none

abbrev pub as_array : Value → Option (List Value)
as_array (array vs) = some (items vs)
as_array _ = none

abbrev pub is_object : Value → Bool
is_object (object fs) = true
is_object _ = false

-- `value.get(k).and_then(|v| v.as_str())`
abbrev pub str_of : Option Value → Option String
str_of none = none
str_of (some v) = as_str v

abbrev pub array_of : Option Value → Option (List Value)
array_of none = none
array_of (some v) = as_array v
