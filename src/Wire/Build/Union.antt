-- ===== src/Wire/Build/Union.antt =====
-- `union_type`, `declaration` and `_emit`.
pub mod Steps
use lazily_spec.Prelude.{
  ℕ, zero, suc, String, Bool, true, false, not, ◌&&◌, ◌||◌, Option, none, some, List, [], ◌∷◌, map,
  ◌==◌, string_eq, contains,
}
use lazily_spec.Blocks.Json.{Json, Fields, no_fields, field, item_list}
use lazily_spec.Wire.Types.{Expr, Variant, Decl, union_decl}
use lazily_spec.Wire.Model.{has_repeats}
use lazily_spec.Wire.Build.Monad.{
  unsupported_definition, open_variant, many_keys, optional_tag, bad_branch, bad_tag, other_title,
  few_tags, Build, pure, raise, ◌>>=◌, ◌>>◌, require, add_type, add_emitted, state,
}
use lazily_spec.Wire.Build.Nodes.{
  attribute, has_attribute, is_text, is_closed, branches_of, def_kind, is_pascal,
}
use lazily_spec.Wire.Build.Monad.{given, if◌then◌else◌, too_many_rounds, unresolved}
use lazily_spec.Prelude.{get_elem?}
use lazily_spec.Blocks.Json.{get}
use lazily_spec.Wire.Build.Declare.{
  as_text, shared_defs, Env, require_doc, type_expr, enum_type, alias_type, record_type,
}

-- The tag of a branch, and the node of its payload.
abbrev pub Branch : Type 0
Branch = String × Option Json

-- node.get("required") == [tag]
abbrev pub requires_only : String → Json → Bool
requires_only tag node = elim (attribute "required" node) [
  | some (Json.arr items) ↦ elim (item_list items) [ Json.str s ∷ [] ↦ s == tag | _ ↦ false ]
  | _ ↦ false
]

-- The only member of an object, if it has one.
abbrev only_member : Option Json → Option (String × Json)
only_member (some (Json.obj (field tag payload no_fields))) = some (tag, payload)
only_member _ = none

unfoldable pub tagged_branch : Json → Build Branch
unfolding is_closed
tagged_branch node =
    require (is_closed node) open_variant
    >> given (only_member (attribute "properties" node)) (raise many_keys)
        λ (tag, payload). require (requires_only tag node) optional_tag >> pure (tag, some payload)

abbrev is_object : Json → Bool
is_object (Json.obj fs) = true
is_object _ = false

unfoldable pub read_branch : Json → Build Branch
unfolding is_text
read_branch node =
    if not (is_object node)
    then raise bad_branch
    else if is_text "type" "string" node && has_attribute "const" node
    then given (as_text (attribute "const" node)) (raise bad_tag) (λ tag. pure (tag, none))
    else if is_text "type" "object" node
    then tagged_branch node
    else raise bad_branch

-- The node whose description documents the branch; an empty one for a unit variant without.
abbrev doc_source : Json → Option Json → Json
doc_source branch payload = elim (has_attribute "description" branch) [
  | true ↦ branch
  | false ↦ elim payload [ none ↦ Json.obj no_fields | some node ↦ node ]
]

unfoldable pub payload_type : ℕ → Env → Option Json → Build (Option Expr)
payload_type f env payload =
    given payload (pure none) λ node. type_expr f env node >>= λ e. pure (some e)

unfoldable pub variant_of : ℕ → Env → Json → Build Variant
unfolding is_pascal is_text
variant_of f env branch = do
  (tag, payload) ← read_branch branch
  require (is_pascal tag) bad_tag
  require (not (has_attribute "title" branch) || is_text "title" tag branch) other_title
  doc ← require_doc env (doc_source branch payload)
  type ← payload_type f env payload
  pure (record { tag = tag; doc = doc; payload = type })

unfoldable pub variants_of : ℕ → Env → List Json → Build (List Variant)
variants_of f env [] = pure []
variants_of f env (branch ∷ rest) = do
  first ← variant_of f env branch
  others ← variants_of f env rest
  pure (first ∷ others)

abbrev two_or_more {ℓ} : {A : Type ℓ} → List A → Bool
two_or_more (x ∷ y ∷ rest) = true
two_or_more _ = false

abbrev list_of : Option (List Json) → List Json
list_of none = []
list_of (some branches) = branches

unfoldable pub union_type : ℕ → Env → String → Json → Build Decl
unfolding has_repeats branches_of
union_type f env name node = do
  variants ← variants_of f env (list_of (branches_of node))
  let tags = map (λ v. v.tag) variants
  require (not (has_repeats tags) && two_or_more tags) few_tags
  require_doc env node
  pure (union_decl name variants)

unfoldable pub declare_as : ℕ → Env → String → Json → String → Build (Option Decl)
declare_as f env name node kind =
    if kind == "nullable_alias"
    then pure none
    else (if kind == "enum"
        then enum_type env name node
        else if kind == "record"
        then record_type f env name node
        else if kind == "union"
        then union_type f env name node
        else alias_type f env name node)
      >>= λ d. pure (some d)

unfoldable pub declaration : ℕ → Env → String → Json → Build (Option Decl)
unfolding def_kind
declaration f env name node =
    given (def_kind node) (raise unsupported_definition) λ kind. declare_as f env name node kind

abbrev pub add_declared : Option Decl → Build (Unit {0})
add_declared none = pure tt
add_declared (some d) = add_type d

unfoldable pub emit_new : ℕ → Env → String → Json → Build (Unit {0})
emit_new f env name node = add_emitted name >> (declaration f env name node >>= add_declared)

unfoldable pub emit : ℕ → Env → String → Json → Build (Unit {0})
emit f env name node =
    state >>= λ s. if contains s.emitted name then pure tt else emit_new f env name node

-- The first loop of `build`.
unfoldable pub emit_all : ℕ → Env → Fields → Build (Unit {0})
emit_all f env no_fields = pure tt
emit_all f env (field name node rest) = emit f env name node >> emit_all f env rest

-- One round of the loop over the shared queue.
unfoldable pub emit_shared : ℕ → Env → String → Build (Unit {0})
emit_shared f env name =
    given (get name env.shared) (raise (unresolved name)) λ node. emit f env name node

-- The loop over the shared queue, which grows under it: `rounds` bounds how often.
unfoldable pub drain : ℕ → ℕ → Env → ℕ → Build (Unit {0})
drain zero f env at = raise too_many_rounds
drain (suc rounds) f env at = state >>= λ s.
    given (get_elem? s.shared_queue at) (pure tt)
      λ name. emit_shared f env name >> drain rounds f env (suc at)
