-- ===== src/Blocks/Json.antt =====
-- JSON documents, as `json.loads` gives them, and `_kind` of scripts/gen_assertion_block_schema.py.
use lazily_spec.Prelude.{
  ℕ, suc, String, Bool, Option, none, some, List, [], ◌∷◌, ◌==◌, string_eq, if◌then◌else◌, ℤ,
}
use Prim.Native.Nat.{max}

-- A float is its literal. A dictionary is the list of its items; `get` reads the first of a key.
mutual
  pub data Json : Type 0 where
    null : Json
    bool : Bool → Json
    int : ℤ → Json
    float : String → Json
    str : String → Json
    arr : Items → Json
    obj : Fields → Json

  pub data Items : Type 0 where
    no_items : Items
    item : Json → Items → Items

  pub data Fields : Type 0 where
    no_fields : Fields
    field : String → Json → Fields → Fields

pub data Kind : Type 0 where
  null boolean integer number string array object : Kind

unfoldable pub kind : Json → Kind
kind null = Kind.null
kind (bool b) = boolean
kind (int n) = integer
kind (float t) = number
kind (str s) = string
kind (arr xs) = array
kind (obj fs) = object

unfoldable pub item_list : Items → List Json
item_list no_items = []
item_list (item v xs) = v ∷ item_list xs

-- value[key], where `key in value`
unfoldable pub get : String → Fields → Option Json
get key no_fields = none
get key (field k v fs) = if k == key then some v else get key fs

unfoldable pub keys : Fields → List String
keys no_fields = []
keys (field k v fs) = k ∷ keys fs

-- The fields of an object and the items of an array; none of another value.
unfoldable pub fields_of : Json → Fields
fields_of (obj fs) = fs
fields_of _ = no_fields

unfoldable pub items_of : Json → List Json
unfolding item_list
items_of (arr xs) = item_list xs
items_of _ = []

unfoldable mutual
  pub depth : Json → ℕ
  depth null = 0
  depth (bool b) = 0
  depth (int n) = 0
  depth (float t) = 0
  depth (str s) = 0
  depth (arr xs) = suc (depth_items xs)
  depth (obj fs) = suc (depth_fields fs)

  pub depth_items : Items → ℕ
  depth_items no_items = 0
  depth_items (item v xs) = max (depth v) (depth_items xs)

  pub depth_fields : Fields → ℕ
  depth_fields no_fields = 0
  depth_fields (field k v fs) = max (depth v) (depth_fields fs)
