-- ===== src/Ordering/CompanionExample.antt =====
-- The check of py over an empty Python file, which the guard passes.
use lazily_spec.Prelude.{
  true, false, some, List, [], ◌∷◌, map, ◌≡◌, refl, pos, ok, string_eq, nat_eq, contains,
  if◌then◌else◌,
}
use lazily_spec.Prelude.Members.{In}
use lazily_spec.Prelude.Reports.{report, over}
use lazily_spec.Guard.Tree.{other, none_left, node_list, children, size, size_all, walk_from, walk}
use lazily_spec.Guard.Python.{definitions, definitions_all, node_errors, scan_tree, scan_python}
use lazily_spec.Guard.Run as Guard
use lazily_spec.Guard.Run.{py}
use lazily_spec.Guard.Run.Accepted.{Passes}
use lazily_spec.Ordering.Check.{OrderedCheck, Finder, reversed_pairs, order_errors, ordering_errors}
use lazily_spec.Ordering.Checks.{lookup, all_checks}
use lazily_spec.Ordering.Checks.Scripted.{py_checks}
use lazily_spec.Ordering.Run.{
  Host, check_faults, run_checks, run_binding, guard_faults, consumption_faults, main,
}
use lazily_spec.Ordering.Sound.Parts.{InPlace}
use lazily_spec.Ordering.Sound.Whole.{Documented}
use lazily_spec.Ordering.Sound.Companion.{main_companion}

abbrev guard_host : Guard.Host
guard_host = record {
  glob = λ pattern. "tests/run.py" ∷ [];
  sort_paths = λ paths. paths;
  is_file = λ path. true;
  read_text = λ path. "";
  cls = record { is_space = λ c. false; is_alpha = λ c. false };
  parse = λ text. ok (other "Module" none_left);
}

-- The anchors that come second stand behind the others.
abbrev finder : Finder
finder pattern text =
    if contains (map (λ check. check.after) py_checks) pattern
    then record { start = 5; end = 7 } ∷ []
    else record { start = 0; end = 3 } ∷ []

abbrev host : Host
host = record {
  finditer = finder;
  is_file = λ path. true;
  read_text = λ path. "";
  glob = λ pattern. [];
  sort_paths = λ paths. paths;
  search_call = λ name text. false;
  guard = λ binding. record { returncode = pos 0; stdout = ""; stderr = "" };
  strip = λ text. text;
  str = λ n. "0";
  splitlines = λ text. text ∷ [];
}

host-Documented : Documented host
host-Documented = record { sort_keeps = λ ps p. refl; has_line = λ text h. refl }

guard_exits : pos 0 ≡ pos (Guard.main guard_host py)
unfolding Guard.main Guard.run_binding Guard.globbed Guard.file_errors Guard.scan_text
    Guard.source_globs Guard.source_excludes scan_python scan_tree node_errors walk walk_from
    children size size_all node_list definitions definitions_all report over
guard_exits = refl

py_passes : main host "py" ≡ 0
unfolding main run_binding run_checks check_faults lookup ordering_errors order_errors
    reversed_pairs report over consumption_faults guard_faults
py_passes = refl

main_companion_example :
    ((checks : List OrderedCheck) × (lookup "py" all_checks ≡ some checks)
      × ((check : OrderedCheck) → In check checks → InPlace host check))
    × Passes guard_host py
main_companion_example =
    main_companion host guard_host py host-Documented (λ ps p. refl) guard_exits py_passes
