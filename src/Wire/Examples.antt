-- ===== src/Wire/Examples.antt =====
-- A surface of one record, lowered.
use lazily_spec.Prelude.{true, false, none, List, [], ◌∷◌, ok, is_ok, ◌≡◌, refl, All}
use lazily_spec.Prelude.Members.{In, here}
use lazily_spec.Wire.Types.{
  Expr, ref, nullable, list, Decl, record_decl, decl_name, decl_kind, expr_kind,
}
use lazily_spec.Wire.Model.{check_types, refs, type_exprs, all_exprs}
use lazily_spec.Wire.Lowerable.{lowered_kinds, lowered_exprs, require_lowerable}
use lazily_spec.Wire.Kotlin.{kt_encode, kt_decode}
use lazily_spec.Prelude.{Bool-cases, inl, inr, ◌==◌, string_eq, arith, some}
use lazily_spec.Wire.Types.{u64, alias_decl}
use lazily_spec.Wire.Python.{py_alias_target, last_decl, py_decode, py_encode}
use lazily_spec.Prelude.{true, nat_eq}
use lazily_spec.Wire.Types.{Field, text}
use lazily_spec.Wire.Build.Nodes.{is_pascal}
use lazily_spec.Wire.Names.{decimal}
use lazily_spec.Wire.Constraints.{
  Case, capitalized, pascal, kt_name, py_checked, py_constraints, kt_constraints,
}
use lazily_spec.Wire.Python.Codec.{is_some, ScalarAliases, nesting, py_codec_total}
use lazily_spec.Wire.Total.{TypedIn, require_lowerable_total, kt_codec_exists}

abbrev children : Expr
children = list (nullable (ref "Node"))

abbrev node : Decl
node = record_decl "Node" (
    record { name = "children"; doc = "d"; is_required = true; type = children; default = none }
    ∷ [])

abbrev surface : List Decl
surface = node ∷ []

surface_passes : require_lowerable lowered_kinds lowered_exprs false surface ≡ ok tt
unfolding require_lowerable decl_kind type_exprs all_exprs expr_kind
surface_passes = refl

surface_closed : check_types surface ≡ ok tt
unfolding check_types decl_name type_exprs refs
surface_closed = refl

children_encoded :
    kt_encode surface children "children" 0
    ≡ ok "JsonArray(children.map { item -> item?.let { it.toJson() } ?: JsonNull })"
unfolding kt_encode decl_name decl_kind
children_encoded = refl

require_lowerable_total_example : All TypedIn surface
require_lowerable_total_example = require_lowerable_total lowered_kinds false surface surface_passes

field_listed : In ("children", children) (type_exprs node)
unfolding type_exprs
field_listed = here refl

kt_codec_exists_example :
    (is_ok (kt_encode surface children "src" 0) ≡ true)
    × (is_ok (kt_decode surface "wire" children "src" "children" 0) ≡ true)
kt_codec_exists_example =
    kt_codec_exists lowered_kinds false surface node ("children", children) "wire" "src" "children"
      0 surface_closed surface_passes (here refl) field_listed

abbrev ids : List Decl
ids = alias_decl "NodeId" u64 ∷ []

ids-ScalarAliases : ScalarAliases ids
unfolding py_alias_target last_decl decl_name
ids-ScalarAliases name target h = elim (Bool-cases ("NodeId" == name)) [
  | inl e ↦ let same : u64 ≡ target = cc (rw e at h) in rw (← same) tt
  | inr e ↦ absurd (ground (arith, rw e at h))
]

-- An alias of a number is written as it stands, so a list of them is copied.
ids_written : py_encode 3 ids (list (ref "NodeId")) "value" 0 ≡ some "list(value)"
unfolding py_encode py_alias_target last_decl decl_name
ids_written = refl

py_codec_total_example :
    (is_some (py_decode 3 ids (list (ref "NodeId")) "value" "ids" 0) ≡ true)
    × (is_some (py_encode 3 ids (list (ref "NodeId")) "value" 0) ≡ true)
unfolding nesting
py_codec_total_example =
    py_codec_total ids 3 (list (ref "NodeId")) "value" "ids" 0 ids-ScalarAliases (omega arith)

-- The case of the one letter that the name below begins with.
abbrev k_only : Case
k_only = record { upper = λ c. "K"; lower = λ c. "k" }

abbrev key_field : Field
key_field = record {
  name = "key";
  doc = "d";
  is_required = false;
  type = nullable (text (some 1) none none);
  default = none;
}

key_named : kt_name k_only "key" ≡ ok "key"
unfolding kt_name pascal capitalized is_pascal
key_named = refl

key_checked :
    py_constraints ids "Node" key_field
    ≡ ok (
        "        if self.key is not None and len(self.key) < 1:"
        ∷ "            raise ValueError(\"key must be a non-empty string\")" ∷ [])
unfolding py_constraints py_checked py_alias_target all_exprs decimal
key_checked = refl

-- An alias hides the numbers of a list from the refusal.
hidden_numbers :
    is_ok (py_constraints ids "Node" (record key_field { type = list (ref "NodeId") })) ≡ true
unfolding py_constraints py_checked py_alias_target last_decl decl_name all_exprs
hidden_numbers = refl

-- An alias hides a minimal length from Kotlin, which checks nothing where Python checks the length.
abbrev names : List Decl
names = alias_decl "Name" (text (some 1) none none) ∷ []

abbrev name_field : Field
name_field = record key_field { type = ref "Name" }

alias_unchecked : kt_constraints k_only "Node" name_field ≡ ok []
unfolding kt_constraints kt_name pascal capitalized is_pascal all_exprs
alias_unchecked = refl

alias_checked :
    py_constraints names "Node" name_field
    ≡ ok (
        "        if self.key is not None and len(self.key) < 1:"
        ∷ "            raise ValueError(\"key must be a non-empty string\")" ∷ [])
unfolding py_constraints py_checked py_alias_target last_decl decl_name all_exprs decimal
alias_checked = refl
