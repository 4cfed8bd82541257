-- ===== src/Wire/Python.antt =====
-- `_py_alias_target`, `_py_decode` and `_py_encode`: the Python expressions that read and write a value.
-- On fuel, since an alias of an alias has no end in a cycle; none is Python's recursion limit.
pub mod Codec
use lazily_spec.Prelude.{
  ℕ, zero, suc, String, Option, none, some, List, [], ◌∷◌, ◌==◌, string_eq, if◌then◌else◌,
}
use lazily_spec.Prelude.Maybe.{◌>>=◌}
use lazily_spec.Prelude.Texts.{◌+++◌}
use lazily_spec.Wire.Types.{
  Expr, text, u64, bool, bytes, ref, nullable, list, Decl, alias_decl, decl_name,
}
use lazily_spec.Wire.Names.{at_depth}

-- types[name], of the last declaration of the name
unfoldable pub last_decl : List Decl → String → Option Decl
last_decl [] name = none
last_decl (t ∷ ts) name = elim (last_decl ts name) [
  | some d ↦ some d
  | none ↦ if decl_name t == name then some t else none
]

abbrev pub target_of : Option Decl → Option Expr
target_of (some (alias_decl name target)) = some target
target_of _ = none

unfoldable pub py_alias_target : List Decl → Expr → Option Expr
unfolding last_decl
py_alias_target types (ref name) = target_of (last_decl types name)
py_alias_target types _ = none

-- helper("label", src)
abbrev pub py_call : String → String → String → String
py_call helper label src = helper +++ "(\"" +++ label +++ "\", " +++ src +++ ")"

unfoldable pub py_decode : ℕ → List Decl → Expr → String → String → ℕ → Option String
unfolding at_depth
py_decode zero types e src label depth = none
py_decode (suc f) types (text least most pattern) src label depth =
    some (py_call "_wire_str" label src)
py_decode (suc f) types u64 src label depth = some (py_call "_wire_u64" label src)
py_decode (suc f) types bool src label depth = some (py_call "_wire_bool" label src)
py_decode (suc f) types bytes src label depth = some (py_call "_wire_bytes" label src)
py_decode (suc f) types (ref name) src label depth = elim (py_alias_target types (ref name)) [
  | some target ↦ py_decode f types target src label depth
  | none ↦ some (name +++ ".from_wire(" +++ src +++ ")")
]
py_decode (suc f) types (nullable e) src label depth =
    py_decode f types e src label depth >>= λ inner.
    some ("None if " +++ src +++ " is None else " +++ inner)
py_decode (suc f) types (list e) src label depth =
    py_decode f types e (at_depth "item" depth) (label +++ "[]") (suc depth) >>= λ inner. some (
      "["
      +++ inner
      +++ " for "
      +++ at_depth "item" depth
      +++ " in "
      +++ py_call "_wire_list" label src
      +++ "]")

unfoldable pub py_encode : ℕ → List Decl → Expr → String → ℕ → Option String
unfolding at_depth
py_encode zero types e src depth = none
py_encode (suc f) types (text least most pattern) src depth = some src
py_encode (suc f) types u64 src depth = some src
py_encode (suc f) types bool src depth = some src
py_encode (suc f) types bytes src depth = some ("list(" +++ src +++ ")")
py_encode (suc f) types (ref name) src depth = elim (py_alias_target types (ref name)) [
  | some target ↦ py_encode f types target src depth
  | none ↦ some (src +++ ".to_wire()")
]
py_encode (suc f) types (nullable e) src depth = py_encode f types e src depth >>= λ inner.
    some (if inner == src then src else "None if " +++ src +++ " is None else " +++ inner)
py_encode (suc f) types (list e) src depth =
    py_encode f types e (at_depth "item" depth) (suc depth) >>= λ inner. some (
      if inner == at_depth "item" depth
      then "list(" +++ src +++ ")"
      else "[" +++ inner +++ " for " +++ at_depth "item" depth +++ " in " +++ src +++ "]")
