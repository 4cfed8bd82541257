-- ===== src/Wire/Constraints.antt =====
-- `pascal`, `_kt_name`, `_walk_nested`, `_py_constraints` and `_kt_constraints`.
use Prim.Native.Char.{Char, code}
use lazily_spec.Prelude.{
  ℕ, suc, String, Bool, true, false, not, ◌||◌, Option, none, some, List, [], ◌∷◌, any, contains,
  Result, ok, err, ◌==◌, nat_eq, string_eq, if◌then◌else◌, ◌>>=◌, ◌>>◌,
}
use lazily_spec.Prelude.Texts.{◌+++◌}
use lazily_spec.Wire.Types.{Expr, text, u64, nullable, list, Field, Decl}
use lazily_spec.Wire.Model.{Unsupported, not_an_identifier, unlowered_bounds, unless, all_exprs}
use lazily_spec.Wire.Names.{decimal}
use lazily_spec.Wire.Build.Nodes.{is_pascal}
use lazily_spec.Wire.Python.{py_alias_target}

-- Python's `str.upper` and `str.lower` of one character.
pub record Case : Type 0 where
  pub upper : Char → String
  pub lower : Char → String

-- wire.split("_"), each part with its first character in upper case, joined; `first` says whether a
-- part begins here
unfoldable pub capitalized : Case → Bool → String → String
capitalized cs first String.[] = ""
capitalized cs first (String.◌∷◌ c s) =
    if code c == 95
    then capitalized cs true s
    else (if first then cs.upper c else String.◌∷◌ c String.[]) +++ capitalized cs false s

unfoldable pub pascal : Case → String → Result Unsupported String
unfolding capitalized is_pascal
pascal cs wire =
    let name = capitalized cs true wire in
    if is_pascal name then ok name else err (not_an_identifier wire)

abbrev pub kt_keywords : List String
kt_keywords =
    "as" ∷ "break" ∷ "class" ∷ "continue" ∷ "do" ∷ "else" ∷ "false" ∷ "for" ∷ "fun" ∷ "if" ∷ "in"
    ∷ "interface" ∷ "is" ∷ "null" ∷ "object" ∷ "package" ∷ "return" ∷ "super" ∷ "this" ∷ "throw"
    ∷ "true" ∷ "try" ∷ "typealias" ∷ "typeof" ∷ "val" ∷ "var" ∷ "when" ∷ "while" ∷ []

-- name[:1].lower() + name[1:]
abbrev lowered_first : Case → String → String
lowered_first cs String.[] = ""
lowered_first cs (String.◌∷◌ c s) = cs.lower c +++ s

unfoldable pub kt_name : Case → String → Result Unsupported String
unfolding pascal
kt_name cs wire = pascal cs wire >>= λ upper.
    if contains kt_keywords (lowered_first cs upper)
    then err (not_an_identifier wire)
    else ok (lowered_first cs upper)

-- The types inside a list, of which each has one type inside at most.
abbrev pub walk_nested : Expr → List Expr
walk_nested (list e) = all_exprs e
walk_nested _ = []

-- "min_length" in e
abbrev pub has_min_length : Expr → Bool
has_min_length (text (some n) most pattern) = true
has_min_length _ = false

abbrev pub is_u64 : Expr → Bool
is_u64 u64 = true
is_u64 _ = false

abbrev pub unwrapped : Expr → Expr
unwrapped (nullable e) = e
unwrapped e = e

abbrev pub is_nullable : Expr → Bool
is_nullable (nullable e) = true
is_nullable _ = false

abbrev pub resolved : Option Expr → Expr → Expr
resolved none e = e
resolved (some target) e = target

-- min_length, where it is not 0
abbrev pub least_of : Expr → Option ℕ
least_of (text (some (suc n)) most pattern) = some (suc n)
least_of _ = none

abbrev message : ℕ → String
message n = if n == 1 then "a non-empty string" else "at least " +++ decimal n +++ " characters"

abbrev py_lines : String → String → Expr → List String
py_lines guard name u64 =
    ("        if " +++ guard +++ "not 0 <= self." +++ name +++ " <= _U64_MAX:")
    ∷ ("            raise ValueError(f\"" +++ name +++ " must be in 0..=2^64-1, got {self." +++ name
        +++ "}\")")
    ∷ []
py_lines guard name e = elim (least_of e) [
  | none ↦ []
  | some n ↦
      ("        if " +++ guard +++ "len(self." +++ name +++ ") < " +++ decimal n +++ ":")
      ∷ ("            raise ValueError(\"" +++ name +++ " must be " +++ message n +++ "\")")
      ∷ []
]

abbrev pub py_refuses : Expr → Bool
py_refuses e = is_u64 e || has_min_length e

-- The type that is checked: without its null, and what an alias stands for.
unfoldable pub py_checked : List Decl → Expr → Expr
unfolding py_alias_target
py_checked types e = resolved (py_alias_target types (unwrapped e)) (unwrapped e)

unfoldable pub py_constraints : List Decl → String → Field → Result Unsupported (List String)
unfolding py_checked all_exprs
py_constraints types owner f =
    unless (not (any py_refuses (walk_nested (py_checked types f.type))))
      (unlowered_bounds owner f.name)
    >> ok (
        py_lines
          (if is_nullable f.type || not f.is_required
            then "self." +++ f.name +++ " is not None and "
            else "")
          f.name (py_checked types f.type))

abbrev kt_lines : String → String → String → Expr → List String
kt_lines guard name wire e = elim (least_of e) [
  | none ↦ []
  | some n ↦
      ("        require("
        +++ guard
        +++ name
        +++ ".length >= "
        +++ decimal n
        +++ ") { \""
        +++ wire
        +++ " must be "
        +++ message n
        +++ "\" }")
      ∷ []
]

unfoldable pub kt_constraints : Case → String → Field → Result Unsupported (List String)
unfolding kt_name all_exprs
kt_constraints cs owner f = kt_name cs f.name >>= λ name.
    (unless (not (any has_min_length (walk_nested (unwrapped f.type))))
        (unlowered_bounds owner f.name)
      >> ok (
          kt_lines (if is_nullable f.type then name +++ " == null || " else "") name f.name
            (unwrapped f.type)))
