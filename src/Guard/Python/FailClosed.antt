-- ===== src/Guard/Python/FailClosed.antt =====
-- What the silence of the Python scan says.
use lazily_spec.Prelude.{
  ℕ, zero, suc, String, true, false, Option, none, some, List, [], ◌∷◌, ◌++◌, ◌≡◌, ◌≢◌, refl, arith,
  ◌==◌, string_eq, eq_iff, inl, inr, Result, ok, err,
}
use lazily_spec.Prelude.Members.{In-append, any-In, In, here, there}
use lazily_spec.Prelude.Reports.{report, over, report-silent, over-silent}
use lazily_spec.Guard.Tree.{
  Node, Nodes, call, keyword, name, attribute, lambda, function, other, node_list, children,
  walk_from, walk, size,
}
use lazily_spec.Guard.Python.{
  PyFunction, definitions, by_name, reads_name, arg_used, PyError, function_name, is_assertion,
  callback_node, is_unread, candidate_errors, callback_errors, node_errors, scan_tree, Parser,
  scan_python,
}
use lazily_spec.Guard.Python.Walk.{Inside, itself, inside, Inside-walk}

walk_from-Inside :
    (fuel : ℕ) (todo : List Node) (n : Node)
    → In n (walk_from fuel todo)
    → (tree : Node) × In tree todo × Inside n tree
unfolding walk_from
walk_from-Inside zero todo n i = elim i [ ]
walk_from-Inside (suc fuel) [] n i = elim i [ ]
walk_from-Inside (suc fuel) (m ∷ todo) n (here e) = (m, here refl, rw e itself)
walk_from-Inside (suc fuel) (m ∷ todo) n (there i) =
    let (tree, j, s) = walk_from-Inside fuel (todo ++ children m) n i in
    elim (In-append tree todo (children m) j) [
      | inl k ↦ (tree, there k, s)
      | inr k ↦ (m, here refl, inside k s)
    ]

-- The parameter has a name, and is loaded inside one of the statements.
abbrev pub ReadIn : String → List Node → Type 0
ReadIn id body =
    ((id == "_") ≡ false)
    × ((statement : Node) × In statement body × Inside (name id true) statement)

reads_name-eq : (id : String) (n : Node) → reads_name id n ≡ true → n ≡ name id true
reads_name-eq id (name n loaded) h =
    let same : n ≡ id = (eq_iff n id).0 (ground arith) in
    let is_loaded : loaded ≡ true = ground arith in rw (same, is_loaded) refl
reads_name-eq id (call func args keywords line) h = cc
reads_name-eq id (keyword arg value) h = cc
reads_name-eq id (attribute value attr) h = cc
reads_name-eq id (lambda params arguments body) h = cc
reads_name-eq id (function f params arguments body rest) h = cc
reads_name-eq id (other kind parts) h = cc

arg_used-Inside : (tree : Node) (id : String) → arg_used tree id ≡ true → Inside (name id true) tree
unfolding arg_used walk
arg_used-Inside tree id h =
    let (n, i, r) = any-In (reads_name id) (walk_from (size tree) (tree ∷ [])) h in
    let (root, j, s) = walk_from-Inside (size tree) (tree ∷ []) n i in
    rw (← reads_name-eq id n r) (at_root n root j s)
  where
    at_root : (n root : Node) → In root (tree ∷ []) → Inside n root → Inside n tree
    at_root n root (here e) s = rw e s
    at_root n root (there j) s = elim j [ ]

is_unread-ReadIn : (id : String) (body : List Node) → is_unread id body ≡ false → ReadIn id body
unfolding is_unread
is_unread-ReadIn id body h =
    let (statement, i, u) = any-In (λ s. arg_used s id) body (ground arith) in
    (ground arith, (statement, i, arg_used-Inside statement id u))

-- A callback that reads its value: a lambda, or a name of which some function is defined, each of
-- which reads its own.
abbrev pub Reading : List PyFunction → Node → Type 0
Reading defs (lambda [] arguments body) = ⊥
Reading defs (lambda (p ∷ ps) arguments body) = ReadIn p (body ∷ [])
Reading defs (name id loaded) =
    (by_name id defs ≢ [])
    × ((f : PyFunction)
        → In f (by_name id defs)
        → (p : String) × (ps : List String) × (f.params ≡ p ∷ ps) × ReadIn p (node_list f.body))
Reading defs (call func args keywords line) = ⊥
Reading defs (keyword arg value) = ⊥
Reading defs (attribute value attr) = ⊥
Reading defs (function id params arguments body rest) = ⊥
Reading defs (other kind parts) = ⊥

candidate_errors-silent :
    (line : ℕ) (fn id : String) (f : PyFunction)
    → candidate_errors line fn id f ≡ []
    → (p : String) × (ps : List String) × (f.params ≡ p ∷ ps) × ReadIn p (node_list f.body)
unfolding candidate_errors
candidate_errors-silent line fn id f h = by_params f.params refl h
  where
    by_params :
        (params : List String)
        → f.params ≡ params
        → elim params [
          | [] ↦ PyError.no_value_parameter line fn id ∷ []
          | p ∷ ps ↦ report (is_unread p (node_list f.body)) (PyError.never_reads line fn id p)
        ]
          ≡ []
        → (p : String) × (ps : List String) × (f.params ≡ p ∷ ps) × ReadIn p (node_list f.body)
    by_params [] e h = absurd (ground arith)
    by_params (p ∷ ps) e h = (
      p,
      ps,
      e,
      is_unread-ReadIn p (node_list f.body)
          (report-silent (is_unread p (node_list f.body)) (PyError.never_reads line fn id p) h),
    )

callback_errors-silent :
    (defs : List PyFunction) (line : ℕ) (fn : String) (o : Option Node)
    → callback_errors defs line fn o ≡ []
    → (callback : Node) × (o ≡ some callback) × Reading defs callback
unfolding callback_errors
callback_errors-silent defs line fn none h = absurd (ground arith)
callback_errors-silent defs line fn (some (lambda [] arguments body)) h = absurd (ground arith)
callback_errors-silent defs line fn (some (lambda (p ∷ ps) arguments body)) h = (
  lambda (p ∷ ps) arguments body,
  refl,
  is_unread-ReadIn p (body ∷ [])
      (report-silent (is_unread p (body ∷ [])) (PyError.never_read line fn p) h),
)
callback_errors-silent defs line fn (some (name id loaded)) h =
    (name id loaded, refl, by_candidates (by_name id defs) h)
  where
    by_candidates :
        (fs : List PyFunction)
        → elim fs [
          | [] ↦ PyError.unresolved line fn id ∷ []
          | f ∷ rest ↦ over (candidate_errors line fn id) (f ∷ rest)
        ]
          ≡ []
        → (fs ≢ [])
          × ((f : PyFunction)
              → In f fs
              → (p : String) × (ps : List String) × (f.params ≡ p ∷ ps)
                × ReadIn p (node_list f.body))
    by_candidates [] h = absurd (ground arith)
    by_candidates (f ∷ rest) h = (
      λ e. cc,
      λ g i.
          candidate_errors-silent line fn id g
            (over-silent (candidate_errors line fn id) (f ∷ rest) h g i),
    )
callback_errors-silent defs line fn (some (call func args keywords l)) h = absurd (ground arith)
callback_errors-silent defs line fn (some (keyword arg value)) h = absurd (ground arith)
callback_errors-silent defs line fn (some (attribute value attr)) h = absurd (ground arith)
callback_errors-silent defs line fn (some (function id params arguments body rest)) h =
    absurd (ground arith)
callback_errors-silent defs line fn (some (other kind parts)) h = absurd (ground arith)

-- Every call of an assertion in the tree has a callback that reads its value.
abbrev pub AllRead : Node → Type 0
AllRead tree =
    (func : Node) (args keywords : Nodes) (line : ℕ)
    → Inside (call func args keywords line) tree
    → is_assertion (function_name func) ≡ true
    → (callback : Node) × (callback_node (node_list args) (node_list keywords) ≡ some callback)
      × Reading (definitions tree) callback

node_errors-silent :
    (defs : List PyFunction) (func : Node) (args keywords : Nodes) (line : ℕ)
    → node_errors defs (call func args keywords line) ≡ []
    → is_assertion (function_name func) ≡ true
    → (callback : Node) × (callback_node (node_list args) (node_list keywords) ≡ some callback)
      × Reading defs callback
unfolding node_errors
node_errors-silent defs func args keywords line h a =
    callback_errors-silent defs line (function_name func)
      (callback_node (node_list args) (node_list keywords)) (rw (a, node_errors) at h)

scan_tree-AllRead : (tree : Node) → scan_tree tree ≡ [] → AllRead tree
unfolding scan_tree
scan_tree-AllRead tree h func args keywords line i a =
    node_errors-silent (definitions tree) func args keywords line
      (over-silent (node_errors (definitions tree)) (walk tree) h (call func args keywords line)
        (Inside-walk (call func args keywords line) tree i))
      a

-- Where the scan of a Python text reports nothing, the text parses, and every call of an assertion
-- anywhere in its tree has a callback that is a lambda whose body loads its first parameter, or a name
-- of which some function is defined, each of which loads its own first parameter.
pub scan_python_fail_closed :
    (parse : Parser) (text : String)
    → scan_python parse text ≡ []
    → (tree : Node) × (parse text ≡ ok tree) × AllRead tree
unfolding scan_python
scan_python_fail_closed parse text h = by_parse (parse text) h
  where
    by_parse :
        (r : Result (ℕ × String) Node)
        → elim r [ err (line, msg) ↦ PyError.cannot_parse line msg ∷ [] | ok tree ↦ scan_tree tree ]
          ≡ []
        → (tree : Node) × (r ≡ ok tree) × AllRead tree
    by_parse (err (line, msg)) h = absurd (ground arith)
    by_parse (ok tree) h = (tree, refl, scan_tree-AllRead tree h)
