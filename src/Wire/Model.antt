-- ===== src/Wire/Model.antt =====
-- `_type_exprs`, `_all_exprs`, `_refs`, and the checks that end `build`.
use lazily_spec.Prelude.{
  String, Bool, true, false, not, ◌||◌, none, some, List, [], ◌∷◌, map, Result, ok, err, contains,
  string_eq,
}
use lazily_spec.Prelude.{◌>>◌}
use lazily_spec.Wire.Types.{
  Expr, ref, nullable, list, Variant, Decl, enum_decl, alias_decl, union_decl, record_decl,
  envelope_decl, decl_name,
}

-- The `UnsupportedSchema` errors of the checks on a model and of its lowering.
pub data Unsupported : Type 0 where
  nothing_declared : Unsupported
  duplicate_names : List String → Unsupported
  unknown_ref : String → String → String → Unsupported
  unlowered_decl : String → String → Unsupported
  unlowered_expr : String → String → String → Unsupported
  unlowered_bounds : String → String → Unsupported
  unlowered_open unlowered_default unlowered_optional : String → Unsupported
  unsupported_kind : String → Unsupported
  unknown_type : String → Unsupported
  not_an_identifier : String → Unsupported

-- for item in items: check(item)
abbrev pub each_ok {ℓ} :
    {A : Type ℓ} → (A → Result Unsupported (Unit {0})) → List A → Result Unsupported (Unit {0})
each_ok check [] = ok tt
each_ok check (x ∷ xs) = check x >> each_ok check xs

-- if not test: raise
abbrev pub unless : Bool → Unsupported → Result Unsupported (Unit {0})
unless true e = ok tt
unless false e = err e

abbrev payloads : List Variant → List (String × Expr)
payloads [] = []
payloads (v ∷ vs) = elim v.payload [ none ↦ payloads vs | some e ↦ (v.tag, e) ∷ payloads vs ]

unfoldable pub type_exprs : Decl → List (String × Expr)
type_exprs (record_decl name fields) = map (λ f. (f.name, f.type)) fields
type_exprs (union_decl name variants) = payloads variants
type_exprs (alias_decl name target) = ("target", target) ∷ []
type_exprs (enum_decl name is_open values) = []
type_exprs (envelope_decl name variants) = []

unfoldable pub all_exprs : Expr → List Expr
all_exprs (nullable e) = nullable e ∷ all_exprs e
all_exprs (list e) = list e ∷ all_exprs e
all_exprs e = e ∷ []

unfoldable pub refs : Expr → List String
refs (ref name) = name ∷ []
refs (nullable e) = refs e
refs (list e) = refs e
refs _ = []

unfoldable pub has_repeats : List String → Bool
has_repeats [] = false
has_repeats (x ∷ xs) = contains xs x || has_repeats xs

unfoldable pub check_refs : List String → Decl → Result Unsupported (Unit {0})
unfolding type_exprs refs
check_refs known t =
    each_ok
      (λ le.
        each_ok (λ r. unless (contains known r) (unknown_ref (decl_name t) le.0 r)) (refs le.1))
      (type_exprs t)

-- What `build` asks of the declarations that it has collected.
unfoldable pub check_types : List Decl → Result Unsupported (Unit {0})
unfolding has_repeats check_refs
check_types [] = err nothing_declared
check_types (t ∷ ts) = do
  let names = map decl_name (t ∷ ts)
  unless (not (has_repeats names)) (duplicate_names names)
  each_ok (check_refs names) (t ∷ ts)
