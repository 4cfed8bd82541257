-- ===== src/Blocks/Infer.antt =====
-- `infer_schema`, `_schema_for_kind` and `build_schema` of scripts/gen_assertion_block_schema.py.
use lazily_spec.Prelude.{
  ℕ, zero, suc, String, Bool, true, false, not, ◌&&◌, none, some, List, [], ◌∷◌, ◌++◌, string_eq,
  if◌then◌else◌, all, contains,
}
use lazily_spec.Prelude.Sorted.{sorted}
use lazily_spec.Blocks.Json.{
  Json, Kind, null, boolean, integer, number, string, array, object, kind, get, keys, fields_of,
  items_of,
}

-- The schemas that are inferred. `record ps req` is a closed object schema with the properties `ps`
-- and the required keys `req`; `any_items` is an array schema with no `items`.
mutual
  pub data Schema : Type 0 where
    scalar : Kind → Schema
    closed : Props → List String → Schema
    any_items : Schema
    items : Schema → Schema
    any_of : Schemas → Schema

  pub data Props : Type 0 where
    no_props : Props
    prop : String → Schema → Props → Props

  pub data Schemas : Type 0 where
    no_schemas : Schemas
    schema : Schema → Schemas → Schemas

unfoldable pub same_kind : Kind → Kind → Bool
same_kind null null = true
same_kind boolean boolean = true
same_kind integer integer = true
same_kind number number = true
same_kind string string = true
same_kind array array = true
same_kind object object = true
same_kind _ _ = false

-- grouped[k], before integers and numbers are joined
unfoldable pub of_kind : Kind → List Json → List Json
unfolding kind same_kind
of_kind k [] = []
of_kind k (v ∷ vs) = let rest = of_kind k vs in if same_kind (kind v) k then v ∷ rest else rest

abbrev pub is_empty {ℓ} : {A : Type ℓ} → List A → Bool
is_empty [] = true
is_empty (x ∷ xs) = false

-- "integer" in grouped and "number" in grouped
unfoldable pub both_numbers : List Json → Bool
unfolding of_kind
both_numbers vs = not (is_empty (of_kind integer vs)) && not (is_empty (of_kind number vs))

unfoldable pub group : List Json → Kind → List Json
unfolding both_numbers of_kind
group vs integer = if both_numbers vs then [] else of_kind integer vs
group vs number =
    if both_numbers vs then of_kind number vs ++ of_kind integer vs else of_kind number vs
group vs k = of_kind k vs

unfoldable pub all_keys : List Json → List String
unfolding keys fields_of
all_keys [] = []
all_keys (v ∷ vs) = keys (fields_of v) ++ all_keys vs

abbrev pub has_key : String → Json → Bool
has_key key v = contains (keys (fields_of v)) key

-- The keys of the first value that all the others have.
unfoldable pub common : List String → List Json → List String
unfolding keys fields_of
common [] vs = []
common (k ∷ ks) vs = let rest = common ks vs in if all (has_key k) vs then k ∷ rest else rest

unfoldable pub required_keys : List Json → List String
unfolding common sorted keys fields_of
required_keys [] = []
required_keys (v ∷ vs) = sorted (common (keys (fields_of v)) vs)

-- [value[key] for value in values if key in value]
unfoldable pub collect : String → List Json → List Json
unfolding get fields_of
collect key [] = []
collect key (v ∷ vs) =
    let rest = collect key vs in elim (get key (fields_of v)) [ none ↦ rest | some u ↦ u ∷ rest ]

-- [item for value in values for item in value]
unfoldable pub all_items : List Json → List Json
unfolding items_of
all_items [] = []
all_items (v ∷ vs) = items_of v ++ all_items vs

module _ (infer : List Json → Schema) where
  unfoldable pub properties : List String → List Json → Props
  properties [] vs = no_props
  properties (k ∷ ks) vs = prop k (infer (collect k vs)) (properties ks vs)

  unfoldable pub array_schema : List Json → Schema
  array_schema [] = any_items
  array_schema (v ∷ vs) = items (infer (v ∷ vs))

  unfoldable pub schema_for_kind : Kind → List Json → Schema
  unfolding properties array_schema required_keys sorted all_keys collect all_items
  schema_for_kind object vs = closed (properties (sorted (all_keys vs)) vs) (required_keys vs)
  schema_for_kind array vs = array_schema (all_items vs)
  schema_for_kind k vs = scalar k

  unfoldable pub branch : Kind → List Json → List Schema
  unfolding schema_for_kind
  branch k [] = []
  branch k (v ∷ vs) = schema_for_kind k (v ∷ vs) ∷ []

  -- [_schema_for_kind(kind, grouped[kind]) for kind in order if kind in grouped]
  unfoldable pub branches : List Kind → List Json → List Schema
  unfolding branch group
  branches [] vs = []
  branches (k ∷ ks) vs = branch k (group vs k) ++ branches ks vs

abbrev pub order : List Kind
order = null ∷ boolean ∷ integer ∷ number ∷ string ∷ array ∷ object ∷ []

unfoldable pub schemas : List Schema → Schemas
schemas [] = no_schemas
schemas (s ∷ ss) = schema s (schemas ss)

-- One branch stands alone.
unfoldable pub join_branches : List Schema → Schema
unfolding schemas
join_branches (s ∷ []) = s
join_branches ss = any_of (schemas ss)

-- The recursion goes into the values, so their depth is fuel enough; `scalar null` is never reached.
unfoldable pub infer_schema : ℕ → List Json → Schema
unfolding branches join_branches
infer_schema zero vs = scalar null
infer_schema (suc f) vs = join_branches (branches (infer_schema f) order vs)
