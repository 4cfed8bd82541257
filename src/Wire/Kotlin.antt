-- ===== src/Wire/Kotlin.antt =====
-- `_kt_encode` and `_kt_decode`: the Kotlin expressions that write and read a value.
use lazily_spec.Prelude.{
  ℕ, suc, String, Option, none, some, List, [], ◌∷◌, Result, ok, err, ◌==◌, string_eq,
  if◌then◌else◌,
}
use lazily_spec.Prelude.{◌>>=◌}
use lazily_spec.Prelude.Texts.{◌+++◌}
use lazily_spec.Wire.Types.{
  Expr, text, u64, bool, bytes, ref, nullable, list, Decl, decl_name, decl_kind,
}
use lazily_spec.Wire.Model.{Unsupported, unsupported_kind, unknown_type}
use lazily_spec.Wire.Names.{at_depth}

-- types[name]["kind"], of the last declaration of the name, or the KeyError.
unfoldable pub kind_of : List Decl → String → Option String
kind_of [] name = none
kind_of (t ∷ ts) name = elim (kind_of ts name) [
  | some kind ↦ some kind
  | none ↦ if decl_name t == name then some (decl_kind t) else none
]

unfoldable pub by_kind : List Decl → String → String → String → Result Unsupported String
unfolding kind_of
by_kind types name for_enum otherwise = elim (kind_of types name) [
  | none ↦ err (unknown_type name)
  | some kind ↦ ok (if kind == "enum" then for_enum else otherwise)
]

module _ (types : List Decl) where
  unfoldable pub kt_encode : Expr → String → ℕ → Result Unsupported String
  unfolding by_kind at_depth
  kt_encode (text least most pattern) src depth = ok ("JsonPrimitive(" +++ src +++ ")")
  kt_encode u64 src depth = ok ("JsonPrimitive(" +++ src +++ ")")
  kt_encode bool src depth = ok ("JsonPrimitive(" +++ src +++ ")")
  kt_encode (ref name) src depth =
      by_kind types name ("JsonPrimitive(" +++ src +++ ".wireName)") (src +++ ".toJson()")
  kt_encode (nullable e) src depth =
      kt_encode e "it" depth >>= λ inner. ok (src +++ "?.let { " +++ inner +++ " } ?: JsonNull")
  kt_encode (list e) src depth = kt_encode e (at_depth "item" depth) (suc depth) >>= λ inner.
      ok (
        "JsonArray(" +++ src +++ ".map { " +++ at_depth "item" depth +++ " -> " +++ inner +++ " })")
  kt_encode bytes src depth = err (unsupported_kind "bytes")

  -- helper + fn + ("label", src)
  abbrev call : String → String → String → String → String
  call helper fn label src = helper +++ fn +++ "(\"" +++ label +++ "\", " +++ src +++ ")"

  unfoldable pub kt_decode : String → Expr → String → String → ℕ → Result Unsupported String
  unfolding by_kind at_depth
  kt_decode helper (text least most pattern) src label depth = ok (call helper "String" label src)
  kt_decode helper u64 src label depth = ok (call helper "U64" label src)
  kt_decode helper bool src label depth = ok (call helper "Boolean" label src)
  kt_decode helper (ref name) src label depth =
      by_kind types name (name +++ ".fromWire(" +++ call helper "String" label src +++ ")")
        (name +++ ".fromJson(" +++ src +++ ")")
  kt_decode helper (nullable e) src label depth =
      let value = at_depth "value" depth in
      kt_decode helper e value label (suc depth) >>= λ inner. ok (
        src +++ ".let { " +++ value +++ " -> if (" +++ value +++ " is JsonNull) null else "
        +++ inner +++ " }")
  kt_decode helper (list e) src label depth =
      let item = at_depth "item" depth in
      kt_decode helper e item (label +++ "[]") (suc depth) >>= λ inner.
      ok (call helper "List" label src +++ ".map { " +++ item +++ " -> " +++ inner +++ " }")
  kt_decode helper bytes src label depth = err (unsupported_kind "bytes")
