-- ===== src/Wire/Lowerable.antt =====
-- `_require_lowerable`, and the types of Rust, Go, Kotlin and Python.
use lazily_spec.Prelude.{map}
use lazily_spec.Prelude.{
  String, Bool, true, false, not, ◌||◌, Option, none, some, List, [], ◌∷◌, Result, ok, err,
  contains, string_eq,
}
use lazily_spec.Prelude.{◌>>=◌, ◌>>◌}
use lazily_spec.Prelude.Texts.{◌+++◌}
use lazily_spec.Wire.Types.{
  Expr, text, u64, bool, bytes, ref, nullable, list, Field, Decl, enum_decl, record_decl, decl_name,
  decl_kind, expr_kind,
}
use lazily_spec.Wire.Model.{
  Unsupported, unlowered_decl, unlowered_expr, unlowered_bounds, unlowered_open, unlowered_default,
  unlowered_optional, unsupported_kind, each_ok, unless, type_exprs, all_exprs,
}

abbrev pub lowered_kinds : List String
lowered_kinds = "enum" ∷ "record" ∷ "envelope" ∷ []

abbrev pub lowered_exprs : List String
lowered_exprs = "string" ∷ "u64" ∷ "bool" ∷ "ref" ∷ "nullable" ∷ "list" ∷ []

abbrev is_given {ℓ} : {A : Type ℓ} → Option A → Bool
is_given none = false
is_given (some a) = true

-- {"max_length", "pattern"} & set(node)
unfoldable pub is_bounded : Expr → Bool
is_bounded (text least most pattern) = is_given most || is_given pattern
is_bounded _ = false

unfoldable pub check_node : List String → String → String → Expr → Result Unsupported (Unit {0})
unfolding is_bounded
check_node exprs owner label e =
    unless (contains exprs (expr_kind e)) (unlowered_expr (expr_kind e) owner label)
    >> unless (not (is_bounded e)) (unlowered_bounds owner label)

unfoldable pub check_field : Bool → Field → Result Unsupported (Unit {0})
check_field optional f =
    unless (not (is_given f.default)) (unlowered_default f.name)
    >> unless (f.is_required || optional) (unlowered_optional f.name)

unfoldable pub check_rest : Bool → Decl → Result Unsupported (Unit {0})
unfolding check_field
check_rest optional (enum_decl name is_open values) = unless (not is_open) (unlowered_open name)
check_rest optional (record_decl name fields) = each_ok (check_field optional) fields
check_rest optional _ = ok tt

unfoldable pub check_exprs : List String → Decl → Result Unsupported (Unit {0})
unfolding check_node
check_exprs exprs t =
    each_ok (λ le. each_ok (check_node exprs (decl_name t) le.0) (all_exprs le.1)) (type_exprs t)

unfoldable pub check_decl : List String → List String → Bool → Decl → Result Unsupported (Unit {0})
unfolding check_exprs check_rest
check_decl kinds exprs optional t =
    unless (contains kinds (decl_kind t)) (unlowered_decl (decl_kind t) (decl_name t))
    >> (check_exprs exprs t >> check_rest optional t)

unfoldable pub require_lowerable :
    List String → List String → Bool → List Decl → Result Unsupported (Unit {0})
unfolding check_decl
require_lowerable kinds exprs optional ts = each_ok (check_decl kinds exprs optional) ts

-- A type written around another.
abbrev around : String → Result Unsupported String → String → Result Unsupported String
around before inner after = inner >>= λ s. ok (before +++ s +++ after)

unfoldable pub rust_type : Expr → Result Unsupported String
rust_type (text least most pattern) = ok "String"
rust_type u64 = ok "u64"
rust_type bool = ok "bool"
rust_type (ref name) = ok name
rust_type (nullable e) = around "Option<" (rust_type e) ">"
rust_type (list e) = around "Vec<" (rust_type e) ">"
rust_type bytes = ok "Vec<u8>"

unfoldable pub rust_optional_type : Field → Result Unsupported String
unfolding rust_type
rust_optional_type f = elim f.type [
  | nullable e ↦ rust_type (nullable e)
  | e ↦ around "Option<" (rust_type e) ">"
]

unfoldable pub go_type : Expr → Result Unsupported String
go_type (text least most pattern) = ok "string"
go_type u64 = ok "uint64"
go_type bool = ok "bool"
go_type (ref name) = ok name
go_type (nullable e) = around "*" (go_type e) ""
go_type (list e) = around "[]" (go_type e) ""
go_type bytes = err (unsupported_kind "bytes")

unfoldable pub kt_type : Expr → Result Unsupported String
kt_type (text least most pattern) = ok "String"
kt_type u64 = ok "ULong"
kt_type bool = ok "Boolean"
kt_type (ref name) = ok name
kt_type (nullable e) = around "" (kt_type e) "?"
kt_type (list e) = around "List<" (kt_type e) ">"
kt_type bytes = err (unsupported_kind "bytes")

unfoldable pub py_type : Expr → Result Unsupported String
py_type (text least most pattern) = ok "str"
py_type bytes = ok "bytes"
py_type u64 = ok "int"
py_type bool = ok "bool"
py_type (ref name) = ok name
py_type (nullable e) = around "" (py_type e) " | None"
py_type (list e) = around "list[" (py_type e) "]"

-- The kinds of an expression and of those in it, as `_py_kinds` and `_kt_kinds` collect them.
unfoldable pub py_kinds : Expr → List String
unfolding all_exprs
py_kinds e = map expr_kind (all_exprs e)

-- An `Option` that is always on the wire.
unfoldable pub required_nullable : Field → Bool
required_nullable f = elim f.type [ nullable e ↦ f.is_required | _ ↦ false ]
