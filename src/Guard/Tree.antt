-- ===== src/Guard/Tree.antt =====
-- The syntax trees of Python's `ast`, as far as the guard reads them, and `ast.walk`.
use lazily_spec.Prelude.{ℕ, zero, suc, ◌+◌, String, Bool, Option, List, [], ◌∷◌, ◌++◌}

-- A function and a lambda hold the names of their positional parameters beside the node of all their
-- arguments; a name holds whether it is loaded; every other node is its type with its children.
mutual
  pub data Node : Type 0 where
    call : Node → Nodes → Nodes → ℕ → Node
    keyword : Option String → Node → Node
    name : String → Bool → Node
    attribute : Node → String → Node
    lambda : List String → Node → Node → Node
    function : String → List String → Node → Nodes → Nodes → Node
    other : String → Nodes → Node

  pub data Nodes : Type 0 where
    none_left : Nodes
    node : Node → Nodes → Nodes

unfoldable pub node_list : Nodes → List Node
node_list none_left = []
node_list (node n ns) = n ∷ node_list ns

-- ast.iter_child_nodes
unfoldable pub children : Node → List Node
unfolding node_list
children (call func args keywords line) = func ∷ node_list args ++ node_list keywords
children (keyword arg value) = value ∷ []
children (name id loaded) = []
children (attribute value attr) = value ∷ []
children (lambda params arguments body) = arguments ∷ body ∷ []
children (function id params arguments body rest) = arguments ∷ node_list body ++ node_list rest
children (other kind parts) = node_list parts

unfoldable mutual
  pub size : Node → ℕ
  size (call func args keywords line) = suc (size func + (size_all args + size_all keywords))
  size (keyword arg value) = suc (size value)
  size (name id loaded) = 1
  size (attribute value attr) = suc (size value)
  size (lambda params arguments body) = suc (size arguments + size body)
  size (function id params arguments body rest) =
      suc (size arguments + (size_all body + size_all rest))
  size (other kind parts) = suc (size_all parts)

  pub size_all : Nodes → ℕ
  size_all none_left = 0
  size_all (node n ns) = size n + size_all ns

-- The queue of `ast.walk`: a node goes out at the front, and its children come in at the end.
unfoldable pub walk_from : ℕ → List Node → List Node
unfolding children
walk_from zero todo = []
walk_from (suc fuel) [] = []
walk_from (suc fuel) (n ∷ todo) = n ∷ walk_from fuel (todo ++ children n)

unfoldable pub walk : Node → List Node
unfolding walk_from size
walk tree = walk_from (size tree) (tree ∷ [])
