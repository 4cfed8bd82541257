-- ===== src/Guard/Run/Examples.antt =====
-- The guard on a Python file with one assertion, and on one whose callback ignores its parameter.
use lazily_spec.Prelude.{true, false, [], ◌∷◌, ◌≡◌, ◌↔◌, refl, ok, string_eq}
use lazily_spec.Prelude.Reports.{report, over}
use lazily_spec.Guard.Tree.{
  Node, call, name, lambda, other, none_left, node, node_list, children, size, size_all, walk_from,
  walk,
}
use lazily_spec.Guard.Python.{
  definitions, definitions_all, arg_used, never_read, callback_node, check_keyword, is_unread,
  callback_errors, node_errors, scan_tree, Parser, scan_python,
}
use lazily_spec.Guard.Python.FailClosed.{AllRead, scan_python_fail_closed}
use lazily_spec.Guard.Run.{
  py, source_globs, source_excludes, Host, scan_text, globbed, file_errors, run_binding, main,
}
use lazily_spec.Guard.Run.Accepted.{Passes, main-Passes}

-- assert_key_with(block, "k", lambda want: <body>), in a module
abbrev asserting : Node → Node
asserting body = other "Module" (
    node
      (call (name "assert_key_with" true)
        (node (name "block" true) (
          node (other "Constant" none_left)
            (node (lambda ("want" ∷ []) (other "arguments" none_left) body) none_left)))
        none_left 1)
      none_left)

abbrev parse : Parser
parse text = ok (asserting (name "want" true))

abbrev host : Host
host = record {
  glob = λ pattern. "tests/run.py" ∷ [];
  sort_paths = λ paths. paths;
  is_file = λ path. true;
  read_text = λ path. "";
  cls = record { is_space = λ c. false; is_alpha = λ c. false };
  parse = parse;
}

scanned : scan_python parse "" ≡ []
unfolding scan_python scan_tree node_errors callback_errors callback_node check_keyword is_unread
    arg_used walk walk_from children size size_all node_list definitions definitions_all report over
scanned = refl

ignoring :
    scan_tree (asserting (other "Constant" none_left)) ≡ never_read 1 "assert_key_with" "want" ∷ []
unfolding scan_tree node_errors callback_errors callback_node check_keyword is_unread arg_used walk
    walk_from children size size_all node_list definitions definitions_all report over
ignoring = refl

scan_python_fail_closed_example : (tree : Node) × (parse "" ≡ ok tree) × AllRead tree
scan_python_fail_closed_example = scan_python_fail_closed parse "" scanned

passes : main host py ≡ 0
unfolding main run_binding globbed file_errors scan_text source_globs source_excludes scan_python
    scan_tree node_errors callback_errors callback_node check_keyword is_unread arg_used walk
    walk_from children size size_all node_list definitions definitions_all report over
passes = refl

main-Passes_example : (main host py ≡ 0) ↔ Passes host py
main-Passes_example = main-Passes host (λ ps p. refl) py
