-- ===== src/Ordering/Sound/Companion.antt =====
-- The check of the order runs the consumption guard: what both say together.
use lazily_spec.Prelude.{String, none, some, List, ◌≡◌, refl, pos, string_eq}
use lazily_spec.Prelude.Members.{In}
use lazily_spec.Guard.Resolve.{cpp, cs, dart, go, js, kt, rs}
use lazily_spec.Guard.Run.{Language, py, zig, c_like}
use lazily_spec.Guard.Run as Guard
use lazily_spec.Guard.Run.Accepted.{SortKeeps, Passes, main-Passes}
use lazily_spec.Ordering.Check.{OrderedCheck}
use lazily_spec.Ordering.Checks.{lookup, all_checks, consumption_unconfigured}
use lazily_spec.Ordering.Run.{Host, main}
use lazily_spec.Ordering.Sound.Parts.{InPlace}
use lazily_spec.Ordering.Sound.Whole.{Documented, main_accepts}

-- The option --binding of both scripts.
abbrev pub binding_name : Language → String
binding_name py = "py"
binding_name zig = "zig"
binding_name (c_like cpp) = "cpp"
binding_name (c_like cs) = "cs"
binding_name (c_like dart) = "dart"
binding_name (c_like go) = "go"
binding_name (c_like js) = "js"
binding_name (c_like kt) = "kt"
binding_name (c_like rs) = "rs"

abbrev Configured : String → Type 0
Configured binding =
    ((checks : List OrderedCheck) × (lookup binding all_checks ≡ some checks))
    × (lookup binding consumption_unconfigured ≡ none)

binding_name-Configured : (language : Language) → Configured (binding_name language)
unfolding lookup
binding_name-Configured py = ((_, refl), refl)
binding_name-Configured zig = ((_, refl), refl)
binding_name-Configured (c_like cpp) = ((_, refl), refl)
binding_name-Configured (c_like cs) = ((_, refl), refl)
binding_name-Configured (c_like dart) = ((_, refl), refl)
binding_name-Configured (c_like go) = ((_, refl), refl)
binding_name-Configured (c_like js) = ((_, refl), refl)
binding_name-Configured (c_like kt) = ((_, refl), refl)
binding_name-Configured (c_like rs) = ((_, refl), refl)

-- For each binding that the consumption guard configures, where the companion process exits with that
-- guard's status and the check of the order exits with 0, the file of each of the binding's checks has
-- its anchors in order, and the guard passes the binding's files. Sorting paths is taken to keep them,
-- and a text that is not empty to have a line.
pub main_companion :
    (host : Host) (guard_host : Guard.Host) (language : Language)
    → Documented host
    → SortKeeps guard_host
    → (host.guard (binding_name language)).returncode ≡ pos (Guard.main guard_host language)
    → main host (binding_name language) ≡ 0
    → ((checks : List OrderedCheck) × (lookup (binding_name language) all_checks ≡ some checks)
        × ((check : OrderedCheck) → In check checks → InPlace host check))
      × Passes guard_host language
main_companion host guard_host language documented keeps answered h =
    let ((checks, listed), configured) = binding_name-Configured language in
    let (in_place, consumed) =
      (main_accepts host documented (binding_name language) checks listed).0 h in
    let zero_code : (host.guard (binding_name language)).returncode ≡ pos 0 =
      rw configured at consumed in
    let zero_status : Guard.main guard_host language ≡ 0 = cc in
    ((checks, listed, in_place), (main-Passes guard_host keeps language).0 zero_status)
