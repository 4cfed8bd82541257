-- ===== src/Guard/Python/Walk.antt =====
-- `ast.walk` reaches every node of a tree.
use lazily_spec.Prelude.{ℕ, zero, suc, ◌+◌, ◌≤◌, List, [], ◌∷◌, ◌++◌, ◌≡◌, refl, arith}
use lazily_spec.Prelude.Members.{In, here, there, In-append_left, In-append_right}
use lazily_spec.Guard.Tree.{
  Node, Nodes, call, keyword, name, attribute, lambda, function, other, none_left, node, node_list,
  children, size, size_all, walk_from, walk,
}

-- A node of the tree: the tree itself, or one inside a child.
pub data Inside (n : Node) : Node → Type 0 where
  itself : Inside n n
  inside : {tree child : Node} → In child (children tree) → Inside n child → Inside n tree

total : List Node → ℕ
total [] = 0
total (n ∷ ns) = size n + total ns

total-append : (ms ns : List Node) → total (ms ++ ns) ≡ total ms + total ns
unfolding total
total-append [] ns = omega arith
total-append (m ∷ ms) ns = omega (arith, total-append ms ns)

total-node_list : (ns : Nodes) → total (node_list ns) ≡ size_all ns
unfolding total node_list size_all
total-node_list none_left = refl
total-node_list (node n ns) = omega (arith, total-node_list ns)

total-children : (n : Node) → suc (total (children n)) ≡ size n
unfolding total children size
total-children (call func args keywords line) = omega (
  arith,
  total-append (node_list args) (node_list keywords),
  total-node_list args,
  total-node_list keywords,
)
total-children (keyword arg value) = omega arith
total-children (name id loaded) = refl
total-children (attribute value attr) = omega arith
total-children (lambda params arguments body) = omega arith
total-children (function id params arguments body rest) = omega (
  arith,
  total-append (node_list body) (node_list rest),
  total-node_list body,
  total-node_list rest,
)
total-children (other kind parts) = omega (arith, total-node_list parts)

Inside-walk_from :
    (fuel : ℕ) (todo : List Node) (n tree : Node)
    → Inside n tree
    → In tree todo
    → total todo ≤ fuel
    → In n (walk_from fuel todo)
unfolding walk_from total
Inside-walk_from fuel [] n tree s i h = elim i [ ]
Inside-walk_from zero (m ∷ todo) n tree s i h = absurd (omega (arith, total-children m, h))
Inside-walk_from (suc fuel) (m ∷ todo) n tree s (there i) h = there (
    Inside-walk_from fuel (todo ++ children m) n tree s (In-append_left tree todo (children m) i)
      (omega (arith, h, total-append todo (children m), total-children m)))
Inside-walk_from (suc fuel) (m ∷ todo) n tree itself (here e) h = here e
Inside-walk_from (suc fuel) (m ∷ todo) n tree (inside {child = child} j s) (here e) h = there (
    Inside-walk_from fuel (todo ++ children m) n child s
      (In-append_right child todo (children m) (rw e j))
      (omega (arith, h, total-append todo (children m), total-children m)))

-- The walk of a tree goes through each of its nodes.
pub Inside-walk : (n tree : Node) → Inside n tree → In n (walk tree)
unfolding walk
Inside-walk n tree s =
    Inside-walk_from (size tree) (tree ∷ []) n tree s (here refl) (unfold total in omega arith)
