-- ===== src/Wire/Build/Surface.antt =====
-- `build`: the definitions, the envelope of the root, the shared queue, the checks.
pub mod Steps
use lazily_spec.Prelude.{
  ℕ, String, Bool, false, not, ◌&&◌, Option, none, some, List, [], ◌∷◌, any, Result, ok, err,
}
use lazily_spec.Blocks.Json.{Json, Fields, no_fields, field}
use lazily_spec.Wire.Types.{Expr, ref, Decl, envelope_decl}
use lazily_spec.Wire.Model.{Unsupported, check_types}
use lazily_spec.Wire.Build.Monad.{
  BuildError, State, open_envelope, no_record_named, many_variants, unnamed_envelope, no_envelope,
  Build, pure, raise, ◌>>=◌, ◌>>◌, require, add_type, add_emitted, given, if◌then◌else◌,
}
use lazily_spec.Wire.Build.Nodes.{attribute, has_attribute, is_text, is_closed}
use lazily_spec.Wire.Build.Declare.{
  as_text, fields_at, shared_defs, Env, require_doc, type_expr, record_type,
}
use lazily_spec.Wire.Build.Union.{requires_only, emit_all, drain}

-- A variant's tag, and the name of its type.
abbrev pub Tagged : Type 0
Tagged = String × String

-- target["name"], where the target is a reference
unfoldable pub name_of : Expr → Build String
name_of (ref name) = pure name
name_of _ = raise no_record_named

-- A property that is no reference declares a record of its own, whether its tag is taken or not.
unfoldable pub envelope_variant : ℕ → Env → String → Json → Build Tagged
unfolding name_of
envelope_variant f env tag node =
    if has_attribute "$ref" node
    then (type_expr f env node >>= λ target. name_of target >>= λ name. pure (tag, name))
    else add_emitted tag >> (record_type f env tag node >>= λ d. add_type d >> pure (tag, tag))

unfoldable pub envelope_variants : ℕ → Env → Fields → Build (List Tagged)
envelope_variants f env no_fields = pure []
envelope_variants f env (field tag node rest) = do
  first ← envelope_variant f env tag node
  others ← envelope_variants f env rest
  pure (first ∷ others)

-- root.get("required") == [v["tag"] for v in variants] and len(variants) == 1
abbrev pub requires_one : Json → List Tagged → Bool
requires_one root ((tag, name) ∷ []) = requires_only tag root
requires_one root _ = false

-- A name that is no text is refused here; the name is not marked as emitted.
unfoldable pub envelope_type : ℕ → Env → Json → Build (Unit {0})
unfolding is_text is_closed as_text
envelope_type f env envelope = do
  require (is_text "type" "object" env.root && is_closed env.root) open_envelope
  variants ← envelope_variants f env (fields_at "properties" env.root)
  require (requires_one env.root variants) many_variants
  name ← given (as_text (attribute "name" envelope)) (raise unnamed_envelope) pure
  require_doc env envelope
  add_type (envelope_decl name variants)

-- root.get("x-lazily-envelope"), unless it is null
abbrev pub envelope_of : Json → Option Json
envelope_of root = elim (attribute "x-lazily-envelope" root) [
  | some Json.null ↦ none
  | other ↦ other
]

abbrev wire_keys : List String
wire_keys = "properties" ∷ "oneOf" ∷ "anyOf" ∷ "allOf" ∷ "items" ∷ []

-- Between the two loops of `build`: the envelope, or the refusal of another wire shape.
unfoldable pub root_type : ℕ → Env → Build (Unit {0})
root_type f env =
    given (envelope_of env.root)
      (require (not (any (λ key. has_attribute key env.root) wire_keys)) no_envelope)
      λ envelope. envelope_type f env envelope

-- `build`, up to the checks that end it.
unfoldable pub collect : ℕ → ℕ → Env → Build (Unit {0})
collect rounds f env =
    emit_all f env env.defs
    >> (root_type f env
        >> drain rounds f (record env { scope_path = shared_defs; scope_defs = env.shared }) 0)

-- A surface's builder before its first step.
abbrev pub empty : State
empty = record { types = []; emitted = []; shared_queue = [] }

-- What `build` raises: in one of its steps, or in the checks that end it.
pub data Refusal : Type 0 where
  in_step : BuildError → Refusal
  in_check : Unsupported → Refusal

unfoldable pub checked_types : State → Result Refusal (List Decl)
checked_types s = elim (check_types s.types) [ err e ↦ err (in_check e) | ok u ↦ ok s.types ]

unfoldable pub build : ℕ → ℕ → Env → Result Refusal (List Decl)
unfolding checked_types collect
build rounds f env = elim (collect rounds f env empty) [
  | err e ↦ err (in_step e)
  | ok (u, s) ↦ checked_types s
]
