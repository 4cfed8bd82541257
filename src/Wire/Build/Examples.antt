-- ===== src/Wire/Build/Examples.antt =====
-- An envelope of a record whose field is of a shared type, collected.
use lazily_spec.Prelude.{
  String, true, false, none, [], ◌∷◌, ok, err, ◌≡◌, ◌≢◌, refl, arith, inl, contains, string_eq,
}
use lazily_spec.Blocks.Json.{
  Json, item, no_items, item_list, no_fields, field, get, fields_of, keys,
}
use lazily_spec.Wire.Types.{text, ref, alias_decl, record_decl, envelope_decl, decl_name}
use lazily_spec.Wire.Build.Monad.{
  State, too_many_rounds, pure, raise, ◌>>=◌, ◌>>◌, require, add_type, add_emitted, add_shared,
  state, given, if◌then◌else◌,
}
use lazily_spec.Wire.Build.Nodes.{
  is_text, is_number, is_closed, is_byte, is_null, branches_of, nullable_inner, def_kind, is_pascal,
  is_snake, after_prefix,
}
use lazily_spec.Wire.Build.Declare.{
  Env, as_text, require_doc, resolve_in, resolve, enqueue, scalar, type_expr, alias_type, field_of,
  record_fields, record_type,
}
use lazily_spec.Wire.Build.Union.{
  declare_as, declaration, emit_new, emit, emit_all, emit_shared, drain,
}
use lazily_spec.Wire.Build.Surface.{
  name_of, envelope_variant, envelope_variants, envelope_type, root_type, collect, empty,
  checked_types, build,
}
use lazily_spec.Wire.Build.Queue.{collect-Complete}
use lazily_spec.Wire.Build.Accepted.{Closed, HasEnvelope, build-HasEnvelope}
use lazily_spec.Wire.Model.{check_types, type_exprs, refs}

abbrev tag : Json
tag = Json.obj (field "type" (Json.str "string") (field "description" (Json.str "t") no_fields))

abbrev tag_ref : Json
tag_ref = Json.obj (
    field "$ref" (Json.str "https://lazily.dev/schemas/defs.json#/$defs/Tag")
      (field "description" (Json.str "d") no_fields))

abbrev wrap : Json
wrap = Json.obj (
    field "type" (Json.str "object") (
      field "additionalProperties" (Json.bool false) (
        field "description" (Json.str "w")
          (field "properties" (Json.obj (field "tag" tag_ref no_fields)) no_fields))))

abbrev frame : Json
frame = Json.obj (field "name" (Json.str "Frame") (field "description" (Json.str "f") no_fields))

-- An envelope of one variant, the record above.
abbrev root : Json
root = Json.obj (
    field "type" (Json.str "object") (
      field "additionalProperties" (Json.bool false) (
        field "required" (Json.arr (item (Json.str "Wrap") no_items)) (
          field "x-lazily-envelope" frame (
            field "properties"
              (Json.obj (
                field "Wrap" (Json.obj (field "$ref" (Json.str "#/$defs/Wrap") no_fields))
                  no_fields))
              no_fields)))))

abbrev env : Env
env = record {
  schema_path = "schemas/wrap.json";
  root = root;
  defs = field "Wrap" wrap no_fields;
  shared = field "Tag" tag no_fields;
  scope_path = "schemas/wrap.json";
  scope_defs = field "Wrap" wrap no_fields;
  strip = λ s. s;
}

abbrev collected : State
collected = record {
  types =
      record_decl "Wrap" (
        record { name = "tag"; doc = "d"; is_required = false; type = ref "Tag"; default = none }
        ∷ [])
      ∷ envelope_decl "Frame" (("Wrap", "Wrap") ∷ [])
      ∷ alias_decl "Tag" (text none none none)
      ∷ [];
  emitted = "Tag" ∷ "Wrap" ∷ [];
  shared_queue = "Tag" ∷ [];
}

env-collected : collect 2 5 env empty ≡ ok (tt, collected)
unfolding collect root_type envelope_type envelope_variants envelope_variant name_of drain
    emit_shared emit_all emit emit_new declaration declare_as record_type record_fields field_of
    alias_type type_expr scalar enqueue resolve resolve_in require_doc as_text after_prefix is_snake
    is_pascal def_kind nullable_inner branches_of is_byte is_closed is_number is_text is_null pure
    raise ◌>>=◌ ◌>>◌ require add_type add_emitted add_shared state given if◌then◌else◌ get fields_of
    keys item_list
env-collected = refl

collect-Complete_example :
    (collect 2 5 env empty ≢ err too_many_rounds)
    × ((t : State) (n : String)
        → collect 2 5 env empty ≡ ok (tt, t)
        → contains t.shared_queue n ≡ true
        → contains t.emitted n ≡ true)
unfolding keys
collect-Complete_example = collect-Complete 2 5 env (inl refl) (omega arith)

collected_passes : check_types collected.types ≡ ok tt
unfolding check_types decl_name type_exprs refs
collected_passes = refl

env-built : build 2 5 env ≡ ok collected.types
unfolding build checked_types
env-built = rw (env-collected, build) (rw (collected_passes, checked_types) refl)

build-HasEnvelope_example : Closed collected.types × HasEnvelope root frame collected.types
unfolding get fields_of
build-HasEnvelope_example = build-HasEnvelope 2 5 env frame collected.types refl env-built
