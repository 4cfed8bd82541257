-- ===== src/Wire/Build/Declare.antt =====
-- `_resolve`, `type_expr`, `enum_type`, `alias_type` and `record_type`.
pub mod Steps
use lazily_spec.Prelude.{
  ℕ, zero, suc, String, Bool, true, false, not, ◌&&◌, ◌||◌, Option, none, some, List, [], ◌∷◌, ◌==◌,
  string_eq, contains, all, pos, ◌^◌, ◌-◌, nat_eq,
}
use lazily_spec.Blocks.Json.{Json, Fields, no_fields, field, get, keys, fields_of, item_list}
use lazily_spec.Wire.Types.{
  Expr, text, u64, bool, bytes, ref, nullable, list, Field, Decl, enum_decl, alias_decl,
  record_decl,
}
use lazily_spec.Wire.Build.Monad.{
  no_description, no_string_ref, foreign_ref, unsupported_definition, unsupported_shape,
  unnamed_enum, bad_enum, bad_enum_docs, undocumented_value, signed_integer, bounded_integer,
  open_record, empty_record, unknown_required, bad_field_name, default_of_required, recursion_limit,
  unresolved, declared_twice, Build, pure, raise, ◌>>=◌, ◌>>◌, require, add_type, add_emitted,
  add_shared, state, given, if◌then◌else◌,
}
use lazily_spec.Wire.Build.Nodes.{
  attribute, has_attribute, is_text, is_number, is_closed, is_byte, nullable_inner, def_kind,
  is_pascal, is_snake, after_prefix,
}

-- The schema's root, the documents that references resolve against, and `str.strip`.
pub record Env : Type 0 where
  pub schema_path : String
  pub root : Json
  pub defs : Fields
  pub shared : Fields
  pub scope_path : String
  pub scope_defs : Fields
  pub strip : String → String

abbrev pub shared_defs : String
shared_defs = "schemas/defs.json"

abbrev pub u64_max : ℕ
u64_max = 2 ^ 64 - 1

-- The value, if it is a text.
unfoldable pub as_text : Option Json → Option String
as_text (some (Json.str s)) = some s
as_text _ = none

unfoldable pub require_doc : Env → Json → Build String
unfolding as_text
require_doc env node =
    given (as_text (attribute "description" node)) (raise no_description)
      λ doc. if env.strip doc == "" then raise no_description else pure (env.strip doc)

abbrev pub Resolved : Type 0
Resolved = String × Json × Bool

unfoldable pub resolve_in : Env → String → Fields → Bool → Build Resolved
resolve_in env name defs is_shared = given (get name defs) (raise (unresolved name)) λ node.
    if is_shared && contains (keys env.defs) name && not (env.schema_path == shared_defs)
    then raise (declared_twice name)
    else pure (name, node, is_shared)

unfoldable pub resolve : Env → Json → Build Resolved
unfolding after_prefix
resolve env node = given (as_text (some node)) (raise no_string_ref) λ r.
    given (after_prefix "#/$defs/" r)
      (given (after_prefix "https://lazily.dev/schemas/defs.json#/$defs/" r) (raise foreign_ref)
        λ name. resolve_in env name env.shared true)
      λ name. resolve_in env name env.scope_defs (env.scope_path == shared_defs)

-- A shared declaration is queued once.
unfoldable pub enqueue : Bool → String → Build (Unit {0})
enqueue false name = pure tt
enqueue true name = do s ← state; if contains s.shared_queue name then pure tt else add_shared name

abbrev is_string : Json → Bool
is_string (Json.str s) = true
is_string _ = false

-- The values of an enum, each with its own documentation.
unfoldable pub documented : Env → Fields → List Json → Build (List (String × String))
unfolding as_text
documented env docs [] = pure []
documented env docs (value ∷ rest) = given (as_text (some value)) (raise bad_enum) λ wire.
    given (as_text (get wire docs)) (raise undocumented_value) λ doc.
      if env.strip doc == ""
      then raise undocumented_value
      else documented env docs rest >>= λ others. pure ((wire, env.strip doc) ∷ others)

abbrev strings : List Json → List String
strings [] = []
strings (Json.str s ∷ rest) = s ∷ strings rest
strings (value ∷ rest) = strings rest

abbrev items_at : String → Json → List Json
items_at key node = elim (attribute key node) [ some (Json.arr items) ↦ item_list items | _ ↦ [] ]

abbrev pub fields_at : String → Json → Fields
fields_at key node = elim (attribute key node) [ some fields ↦ fields_of fields | none ↦ no_fields ]

abbrev is_empty {ℓ} : {A : Type ℓ} → List A → Bool
is_empty [] = true
is_empty (x ∷ xs) = false

unfoldable pub enum_type : Env → String → Json → Build Decl
enum_type env name node = do
  let values = items_at "enum" node
  let docs = fields_at "x-lazily-enum-docs" node
  require (not (is_empty values) && all is_string values) bad_enum
  require (all (λ k. contains (strings values) k) (keys docs)) bad_enum_docs
  documentation ← documented env docs values
  require_doc env node
  pure (enum_decl name false documentation)

-- An inline enum is declared where its name is met first.
unfoldable pub declare_enum : Env → String → Json → List String → Build (Unit {0})
declare_enum env name node names =
    if contains names name
    then pure tt
    else add_emitted name >> (enum_type env name node >>= add_type)

unfoldable pub inline_enum : Env → Json → Build Expr
unfolding is_pascal as_text
inline_enum env node = given (as_text (attribute "x-lazily-name" node)) (raise unnamed_enum) λ name.
    do
      require (is_pascal name) unnamed_enum
      state >>= λ s. declare_enum env name node s.emitted
      pure (ref name)

abbrev number_at : String → Json → Option ℕ
number_at key node = elim (attribute key node) [ some (Json.int (pos n)) ↦ some n | _ ↦ none ]

abbrev text_at : String → Json → Option String
text_at key node = as_text (attribute key node)

-- node.get(key) is None
abbrev is_missing : String → Json → Bool
is_missing key node = elim (attribute key node) [ none ↦ true | some Json.null ↦ true | _ ↦ false ]

unfoldable pub unsigned : Json → Build Expr
unfolding is_number
unsigned node = do
  require (is_number "minimum" 0 node) signed_integer
  require (is_missing "maximum" node || is_number "maximum" u64_max node) bounded_integer
  pure u64

-- The types without a type inside.
unfoldable pub scalar : Env → Json → Build Expr
unfolding is_text as_text
scalar env node =
    if is_text "type" "string" node && has_attribute "enum" node
    then inline_enum env node
    else if is_text "type" "string" node && not (has_attribute "const" node)
    then pure
        (text (number_at "minLength" node) (number_at "maxLength" node) (text_at "pattern" node))
    else if is_text "type" "integer" node
    then unsigned node
    else if is_text "type" "boolean" node
    then pure bool
    else raise unsupported_shape

abbrev array_items : Json → Option Json
array_items node = elim (is_text "type" "array" node) [
  | false ↦ none
  | true ↦ elim (attribute "items" node) [ some (Json.obj fs) ↦ some (Json.obj fs) | _ ↦ none ]
]

-- On fuel, which bounds the nesting and the chain of aliases; Python's recursion limit does.
unfoldable pub type_expr : ℕ → Env → Json → Build Expr
unfolding def_kind is_byte is_text nullable_inner
type_expr zero env node = raise recursion_limit
type_expr (suc f) env node =
    given (attribute "$ref" node)
      (given (nullable_inner node)
        (given (array_items node) (scalar env node)
          λ item. if is_byte item then pure bytes else type_expr f env item >>= λ e. pure (list e))
        λ inner. type_expr f env inner >>= λ e. pure (nullable e))
      λ r. resolve env r >>= λ (name, target, is_shared).
        given (def_kind target) (raise unsupported_definition) λ kind.
          if kind == "nullable_alias"
          then type_expr f env target
          else enqueue is_shared name >> pure (ref name)

unfoldable pub alias_type : ℕ → Env → String → Json → Build Decl
alias_type f env name node = do
  require_doc env node
  target ← type_expr f env node
  pure (alias_decl name target)

unfoldable pub field_of : ℕ → Env → List String → String → Json → Build Field
unfolding is_snake
field_of f env required name node = do
  require (is_snake name) bad_field_name
  doc ← require_doc env node
  type ← type_expr f env node
  require (not (has_attribute "default" node && contains required name)) default_of_required
  pure (record {
    name = name;
    doc = doc;
    is_required = contains required name;
    type = type;
    default = attribute "default" node;
  })

unfoldable pub record_fields : ℕ → Env → List String → Fields → Build (List Field)
record_fields f env required no_fields = pure []
record_fields f env required (field name node rest) = do
  first ← field_of f env required name node
  others ← record_fields f env required rest
  pure (first ∷ others)

unfoldable pub record_type : ℕ → Env → String → Json → Build Decl
unfolding is_closed
record_type f env name node = do
  let properties = fields_at "properties" node
  let required = strings (items_at "required" node)
  require (is_closed node) open_record
  require (not (is_empty (keys properties))) empty_record
  require (all (λ k. contains (keys properties) k) required) unknown_required
  fields ← record_fields f env required properties
  require_doc env node
  pure (record_decl name fields)
