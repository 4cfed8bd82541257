-- ===== src/Ordering/Examples.antt =====
-- The check of gd, whose one file has its anchors in order.
use lazily_spec.Prelude.{
  true, false, some, [], ◌∷◌, ◌≡◌, ◌↔◌, refl, pos, ◌==◌, string_eq, nat_eq, if◌then◌else◌,
}
use lazily_spec.Prelude.Members.{In}
use lazily_spec.Prelude.Reports.{report, over}
use lazily_spec.Prelude.Sorted.{sorted, insert_key}
use lazily_spec.Ordering.Check.{
  OrderedCheck, Match, Finder, reversed, reversed_pairs, order_errors, ordering_errors,
}
use lazily_spec.Ordering.Checks.{lookup, all_checks, consumption_unconfigured}
use lazily_spec.Ordering.Checks.Scripted.{gd_checks}
use lazily_spec.Ordering.Run.{
  Host, check_faults, run_checks, run_binding, files_of, glob_all, sources, found_calls, found_in,
  exemption_faults, consumption_faults, main,
}
use lazily_spec.Ordering.Sound.{Ordered, ordering_errors_iff}
use lazily_spec.Ordering.Sound.Parts.{InPlace}
use lazily_spec.Ordering.Sound.Whole.{Documented, Consumed, main_accepts}

abbrev first : Match
first = record { start = 0; end = 3 }

abbrev second : Match
second = record { start = 5; end = 7 }

abbrev finder : Finder
finder pattern text =
    if pattern == "tail\\.has\\(\"after_publish\"\\)" then second ∷ [] else first ∷ []

abbrev host : Host
host = record {
  finditer = finder;
  is_file = λ path. true;
  read_text = λ path. "";
  glob = λ pattern. "tests/run.gd" ∷ [];
  sort_paths = λ paths. paths;
  search_call = λ name text. false;
  guard = λ binding. record { returncode = pos 0; stdout = ""; stderr = "" };
  strip = λ text. text;
  str = λ n. "0";
  splitlines = λ text. text ∷ [];
}

host-Documented : Documented host
host-Documented = record { sort_keeps = λ ps p. refl; has_line = λ text h. refl }

gd_listed : lookup "gd" all_checks ≡ some gd_checks
unfolding lookup
gd_listed = refl

gd_passes : main host "gd" ≡ 0
unfolding main run_binding run_checks check_faults lookup ordering_errors order_errors
    reversed_pairs report over consumption_faults exemption_faults sources files_of glob_all
    found_in found_calls sorted insert_key
gd_passes = refl

main_accepts_example : (main host "gd" ≡ 0) ↔ (
    ((check : OrderedCheck) → In check gd_checks → InPlace host check)
    × Consumed host "gd" (lookup "gd" consumption_unconfigured))
main_accepts_example = main_accepts host host-Documented "gd" gd_checks gd_listed

abbrev paired_check : OrderedCheck
paired_check = record { path = "f"; before = "a"; after = "b"; description = "d"; paired = true }

-- The second pair of two is reversed.
abbrev crossed : Finder
crossed pattern text = if pattern == "a" then first ∷ second ∷ [] else second ∷ first ∷ []

crossed-ordering_errors : ordering_errors crossed "" paired_check ≡ reversed 2 ∷ []
unfolding ordering_errors order_errors reversed_pairs report
crossed-ordering_errors = refl

ordering_errors_iff_example :
    (ordering_errors crossed "" paired_check ≡ [])
    ↔ Ordered true (first ∷ second ∷ []) (second ∷ first ∷ [])
ordering_errors_iff_example = ordering_errors_iff crossed "" paired_check
