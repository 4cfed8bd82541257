-- ===== src/Blocks/Accepts.antt =====
-- What the inferred schemas say of a document: the part of JSON Schema that they use.
use lazily_spec.Prelude.{
  String, Bool, true, false, ◌&&◌, ◌||◌, none, some, List, [], ◌∷◌, all, contains, string_eq,
}
use lazily_spec.Blocks.Json.{
  Json, Fields, Kind, integer, number, array, kind, arr, obj, item_list, get, keys,
}
use lazily_spec.Blocks.Infer.{
  Schema, Props, Schemas, scalar, closed, any_items, items, any_of, no_props, prop, no_schemas,
  schema, same_kind,
}

-- `type`: an integer is a number too.
unfoldable pub fits : Kind → Kind → Bool
unfolding same_kind
fits number integer = true
fits k j = same_kind k j

unfoldable pub prop_names : Props → List String
prop_names no_props = []
prop_names (prop k s ps) = k ∷ prop_names ps

-- `additionalProperties: false` and `required`
unfoldable pub closed_ok : Props → List String → Fields → Bool
unfolding prop_names keys
closed_ok ps req fs = all (contains (prop_names ps)) (keys fs) && all (contains (keys fs)) req

unfoldable mutual
  pub accepts : Schema → Json → Bool
  accepts (scalar k) v = fits k (kind v)
  accepts (closed ps req) (obj fs) = closed_ok ps req fs && accepts_props ps fs
  accepts (closed ps req) _ = false
  accepts any_items v = same_kind (kind v) array
  accepts (items s) (arr xs) = all (accepts s) (item_list xs)
  accepts (items s) _ = false
  accepts (any_of ss) v = accepts_any ss v

  pub accepts_props : Props → Fields → Bool
  accepts_props no_props fs = true
  accepts_props (prop k s ps) fs =
      elim (get k fs) [ none ↦ true | some v ↦ accepts s v ] && accepts_props ps fs

  pub accepts_any : Schemas → Json → Bool
  accepts_any no_schemas v = false
  accepts_any (schema s ss) v = accepts s v || accepts_any ss v
