-- ===== src/Guard/Python.antt =====
-- `_scan_python` and its helpers.
pub mod Walk
pub mod FailClosed
use lazily_spec.Prelude.{
  ℕ, suc, String, Bool, true, false, not, ◌&&◌, ◌||◌, Option, none, some, List, [], ◌∷◌, ◌++◌, ◌==◌,
  string_eq, any, contains, get_elem?, if◌then◌else◌, Result, ok, err,
}
use lazily_spec.Prelude.Reports.{report, over}
use lazily_spec.Guard.Tree.{
  Node, Nodes, call, keyword, name, attribute, lambda, function, other, none_left, node, node_list,
  walk,
}

-- A function that is defined: its name, its positional parameters, its body.
pub record PyFunction : Type 0 where
  pub id : String
  pub params : List String
  pub body : Nodes

-- _PythonDefinitions, in the order of its visits
unfoldable mutual
  pub definitions : Node → List PyFunction
  definitions (call func args keywords line) =
      definitions func ++ (definitions_all args ++ definitions_all keywords)
  definitions (keyword arg value) = definitions value
  definitions (name id loaded) = []
  definitions (attribute value attr) = definitions value
  definitions (lambda params arguments body) = definitions arguments ++ definitions body
  definitions (function id params arguments body rest) =
      record { id = id; params = params; body = body }
      ∷ (definitions arguments ++ (definitions_all body ++ definitions_all rest))
  definitions (other kind parts) = definitions_all parts

  pub definitions_all : Nodes → List PyFunction
  definitions_all none_left = []
  definitions_all (node n ns) = definitions n ++ definitions_all ns

-- definitions.by_name.get(id, [])
unfoldable pub by_name : String → List PyFunction → List PyFunction
by_name id [] = []
by_name id (f ∷ fs) = let rest = by_name id fs in if f.id == id then f ∷ rest else rest

abbrev pub reads_name : String → Node → Bool
reads_name id (name n loaded) = loaded && n == id
reads_name id _ = false

unfoldable pub arg_used : Node → String → Bool
unfolding walk
arg_used tree id = any (reads_name id) (walk tree)

pub data PyError : Type 0 where
  cannot_parse : ℕ → String → PyError
  no_callback no_parameter : ℕ → String → PyError
  never_read unresolved no_value_parameter other_shape : ℕ → String → String → PyError
  never_reads : ℕ → String → String → String → PyError

abbrev pub function_name : Node → String
function_name (name id loaded) = id
function_name (attribute value attr) = attr
function_name _ = ""

abbrev pub is_assertion : String → Bool
is_assertion id = contains ("assert_key_with" ∷ "assert_key_into" ∷ []) id

abbrev is_check : Option String → Bool
is_check none = false
is_check (some arg) = arg == "check"

-- kw.value for the first keyword argument of the name `check`
unfoldable pub check_keyword : List Node → Option Node
check_keyword [] = none
check_keyword (keyword arg value ∷ rest) =
    let later = check_keyword rest in if is_check arg then some value else later
check_keyword (n ∷ rest) = check_keyword rest

unfoldable pub callback_node : List Node → List Node → Option Node
unfolding check_keyword
callback_node args keywords = elim (get_elem? args 2) [
  | some n ↦ some n
  | none ↦ check_keyword keywords
]

abbrev type_name : Node → String
type_name (call func args keywords line) = "Call"
type_name (keyword arg value) = "keyword"
type_name (name id loaded) = "Name"
type_name (attribute value attr) = "Attribute"
type_name (lambda params arguments body) = "Lambda"
type_name (function id params arguments body rest) = "FunctionDef"
type_name (other kind parts) = kind

-- name == "_" or not _python_arg_used(body, name)
unfoldable pub is_unread : String → List Node → Bool
is_unread id body = id == "_" || not (any (λ statement. arg_used statement id) body)

unfoldable pub candidate_errors : ℕ → String → String → PyFunction → List PyError
candidate_errors line fn id f = elim f.params [
  | [] ↦ no_value_parameter line fn id ∷ []
  | p ∷ ps ↦ report (is_unread p (node_list f.body)) (never_reads line fn id p)
]

unfoldable pub callback_errors : List PyFunction → ℕ → String → Option Node → List PyError
callback_errors defs line fn none = no_callback line fn ∷ []
callback_errors defs line fn (some (lambda [] arguments body)) = no_parameter line fn ∷ []
callback_errors defs line fn (some (lambda (p ∷ ps) arguments body)) =
    report (is_unread p (body ∷ [])) (never_read line fn p)
callback_errors defs line fn (some (name id loaded)) = elim (by_name id defs) [
  | [] ↦ unresolved line fn id ∷ []
  | f ∷ fs ↦ over (candidate_errors line fn id) (f ∷ fs)
]
callback_errors defs line fn (some callback) = other_shape line fn (type_name callback) ∷ []

-- One turn of the loop over the nodes.
unfoldable pub node_errors : List PyFunction → Node → List PyError
node_errors defs (call func args keywords line) =
    if is_assertion (function_name func)
    then callback_errors defs line (function_name func)
        (callback_node (node_list args) (node_list keywords))
    else []
node_errors defs _ = []

unfoldable pub scan_tree : Node → List PyError
unfolding definitions
scan_tree tree = over (node_errors (definitions tree)) (walk tree)

-- ast.parse gives a tree, or the line and the message of a syntax error
abbrev pub Parser : Type 0
Parser = String → Result (ℕ × String) Node

unfoldable pub scan_python : Parser → String → List PyError
scan_python parse text = elim (parse text) [
  | err (line, msg) ↦ cannot_parse line msg ∷ []
  | ok tree ↦ scan_tree tree
]
