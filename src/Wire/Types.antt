-- ===== src/Wire/Types.antt =====
-- The declarations of a surface in the wire model of scripts/wire_codegen.py.
use lazily_spec.Prelude.{ℕ, String, Bool, Option, List}
use lazily_spec.Blocks.Json.{Json}

-- A type expression; a string carries its constraints.
pub data Expr : Type 0 where
  text : Option ℕ → Option ℕ → Option String → Expr
  u64 bool bytes : Expr
  ref : String → Expr
  nullable list : Expr → Expr

pub record Field : Type 0 where
  pub name : String
  pub doc : String
  pub is_required : Bool
  pub type : Expr
  pub default : Option Json

pub record Variant : Type 0 where
  pub tag : String
  pub doc : String
  pub payload : Option Expr

-- Each begins with the declaration's name; the Boolean of an enum is `open`.
pub data Decl : Type 0 where
  enum_decl : String → Bool → List (String × String) → Decl
  alias_decl : String → Expr → Decl
  union_decl : String → List Variant → Decl
  record_decl : String → List Field → Decl
  envelope_decl : String → List (String × String) → Decl

unfoldable pub decl_name : Decl → String
decl_name (enum_decl name is_open values) = name
decl_name (alias_decl name target) = name
decl_name (union_decl name variants) = name
decl_name (record_decl name fields) = name
decl_name (envelope_decl name variants) = name

unfoldable pub decl_kind : Decl → String
decl_kind (enum_decl name is_open values) = "enum"
decl_kind (alias_decl name target) = "alias"
decl_kind (union_decl name variants) = "union"
decl_kind (record_decl name fields) = "record"
decl_kind (envelope_decl name variants) = "envelope"

unfoldable pub expr_kind : Expr → String
expr_kind (text least most pattern) = "string"
expr_kind u64 = "u64"
expr_kind bool = "bool"
expr_kind bytes = "bytes"
expr_kind (ref name) = "ref"
expr_kind (nullable e) = "nullable"
expr_kind (list e) = "list"
