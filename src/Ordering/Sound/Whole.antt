-- ===== src/Ordering/Sound/Whole.antt =====
-- What the whole check of a binding accepts.
use lazily_spec.Prelude.{
  zero, suc, ℤ, pos, negsuc, String, Bool, true, false, Option, none, some, List, [], ◌∷◌, ◌++◌,
  map, ◌≡◌, ◌↔◌, refl, ◌∙◌, sym, ap, arith, ◌==◌, string_eq, nat_eq, eq_iff, contains, Bool-cases,
  inl, inr, append-eq-nil,
}
use lazily_spec.Prelude.Members.{In, here, contains-In, In-contains}
use lazily_spec.Prelude.Texts.{◌+++◌}
use lazily_spec.Ordering.Check.{OrderedCheck, is_nil}
use lazily_spec.Ordering.Checks.{lookup, all_checks, Exemption, consumption_unconfigured}
use lazily_spec.Ordering.Run.{
  Host, Completed, Fault, run_binding, files_of, glob_all, sources, found_in, exemption_faults,
  join_lines, diagnostics, guard_faults, consumption_faults, main,
}
use lazily_spec.Ordering.Sound.Parts.{
  IsSource, InPlace, map-eq-nil, is_nil_iff, run_checks_iff, contains-files_of, glob_all-In,
  In-glob_all, found_in_iff,
}

-- What the library's functions are documented to do: `sorted` keeps what it is given, and a text that
-- is not empty has a line.
pub record Documented (host : Host) : Type 0 where
  pub sort_keeps : (ps : List String) (p : String) → contains (host.sort_paths ps) p ≡ contains ps p
  pub has_line : (text : String) → (text == "") ≡ false → is_nil (host.splitlines text) ≡ false

pub record Exempt (host : Host) (exemption : Exemption) : Type 0 where
  pub source : String
  pub some_source : IsSource host exemption.globs source
  pub no_call :
      (path name : String)
      → IsSource host exemption.globs path
      → In name exemption.call_names
      → host.search_call name (host.read_text path) ≡ false

abbrev pub Consumed : Host → String → Option Exemption → Type 0
Consumed host binding none = (host.guard binding).returncode ≡ pos 0
Consumed host binding (some exemption) = Exempt host exemption

abbrev is_blank : String → Bool
is_blank String.[] = true
is_blank (String.◌∷◌ c s) = false

filled : (t : String) → is_blank t ≡ false → (t == "") ≡ false
filled t h = elim (Bool-cases (t == "")) [
  | inl e ↦ absurd (ground (arith, ap is_blank ((eq_iff t "").0 e)))
  | inr e ↦ e
]

-- Some text is printed.
diagnostics_some : (host : Host) (result : Completed) → (diagnostics host result == "") ≡ false
unfolding diagnostics
diagnostics_some host result =
    elim (Bool-cases (join_lines (host.strip result.stdout) (host.strip result.stderr) == "")) [
      | inl e ↦ rw e (
          filled
            ("callback-consumption guard exited "
              +++ host.str result.returncode
              +++ " without diagnostics")
            refl)
      | inr e ↦ rw e e
    ]

module _ (host : Host) (documented : Documented host) where
  guard_faults_iff :
      (result : Completed) → (guard_faults host result ≡ []) ↔ (result.returncode ≡ pos 0)
  unfolding guard_faults
  guard_faults_iff result = by_code result.returncode
    where
      never : (n : ℤ) → map Fault.guard_line (host.splitlines (diagnostics host result)) ≡ [] → ⊥
      never n h = absurd (
          ground (
            arith,
            documented.has_line (diagnostics host result) (diagnostics_some host result),
            (is_nil_iff _).1 ((map-eq-nil _ _).0 h),
          ))

      by_code :
          (n : ℤ)
          → (elim n [
            | pos zero ↦ []
            | _ ↦ map Fault.guard_line (host.splitlines (diagnostics host result))
          ]
              ≡ [])
            ↔ (n ≡ pos 0)
      by_code (pos zero) = (λ h. refl, λ h. refl)
      by_code (pos (suc n)) = (λ h. absurd (never (pos (suc n)) h), λ h. cc)
      by_code (negsuc n) = (λ h. absurd (never (negsuc n) h), λ h. cc)

  sources-IsSource :
      (ex : Exemption) (p : String) → In p (sources host ex) → IsSource host ex.globs p
  unfolding sources
  sources-IsSource ex p i =
      let listed =
        sym (documented.sort_keeps (files_of host (glob_all host ex.globs)) p)
        ∙ In-contains p _ i in
      let both = sym (contains-files_of host (glob_all host ex.globs) p) ∙ listed in
      let (g, j, c) = glob_all-In host ex.globs p (ground (arith, both)) in
      record { glob = g; is_glob = j; listed = c; is_file = ground (arith, both) }

  IsSource-sources :
      (ex : Exemption) (p : String) → IsSource host ex.globs p → In p (sources host ex)
  unfolding sources
  IsSource-sources ex p s = contains-In p _ (
      documented.sort_keeps (files_of host (glob_all host ex.globs)) p
      ∙ contains-files_of host (glob_all host ex.globs) p
      ∙ ground (arith, In-glob_all host ex.globs s.glob p s.is_glob s.listed, s.is_file))

  exemption_faults_iff :
      (binding : String) (ex : Exemption) → (exemption_faults host binding ex ≡ []) ↔ Exempt host ex
  unfolding exemption_faults
  exemption_faults_iff binding ex = elim (Bool-cases (is_nil (sources host ex))) [
    | inl e ↦ (
      λ h. absurd (ground (arith, rw (e, exemption_faults) at h)),
      λ x.
          absurd
            (no_member (sources host ex) x.source e (IsSource-sources ex x.source x.some_source)),
    )
    | inr e ↦ elim (Bool-cases (is_nil (found_in host ex (sources host ex)))) [
      | inr e' ↦ (
        λ h. absurd (ground (arith, rw (e, e', exemption_faults) at h)),
        λ x.
            absurd (ground (arith, (is_nil_iff (found_in host ex (sources host ex))).1 (silent x))),
      )
      | inl e' ↦ (
        λ h.
            let (p, i) = first_of (sources host ex) e in
            record {
              source = p;
              some_source = sources-IsSource ex p i;
              no_call = λ path name s j.
                  (found_in_iff host ex (sources host ex)).0 ((is_nil_iff _).0 e') path name
                    (IsSource-sources ex path s) j;
            },
        λ x. rw (e, e', exemption_faults) refl,
      )
    ]
  ]
    where
      no_member : (ps : List String) (p : String) → is_nil ps ≡ true → In p ps → ⊥
      no_member [] p h i = elim i [ ]
      no_member (q ∷ ps) p h i = absurd (ground arith)

      first_of : (ps : List String) → is_nil ps ≡ false → (p : String) × In p ps
      first_of [] h = cc
      first_of (p ∷ ps) h = (p, here refl)

      silent : Exempt host ex → found_in host ex (sources host ex) ≡ []
      silent x =
          (found_in_iff host ex (sources host ex)).1
            (λ path name i j. x.no_call path name (sources-IsSource ex path i) j)

  consumption_faults_iff :
      (binding : String)
      → (consumption_faults host binding ≡ [])
        ↔ Consumed host binding (lookup binding consumption_unconfigured)
  unfolding consumption_faults
  consumption_faults_iff binding = by_entry (lookup binding consumption_unconfigured)
    where
      by_entry :
          (o : Option Exemption)
          → (elim o [
            | some ex ↦ exemption_faults host binding ex
            | none ↦ guard_faults host (host.guard binding)
          ]
              ≡ [])
            ↔ Consumed host binding o
      by_entry none = guard_faults_iff (host.guard binding)
      by_entry (some ex) = exemption_faults_iff binding ex

  main_silent :
      (binding : String)
      → (main host binding ≡ 0) ↔ (run_binding host binding ++ consumption_faults host binding ≡ [])
  unfolding main
  main_silent binding =
      elim (Bool-cases (is_nil (run_binding host binding ++ consumption_faults host binding))) [
        | inl e ↦ (λ h. (is_nil_iff _).0 e, λ h. rw (e, main) refl)
        | inr e ↦ (
          λ h. absurd (ground (arith, rw (e, main) at h)),
          λ h. absurd (
              ground (
                arith,
                (is_nil_iff (run_binding host binding ++ consumption_faults host binding)).1 h,
              )),
        )
      ]

  -- The exit status for a configured binding is 0 exactly where the file of each of its checks is there
  -- with its anchors in order, and the companion guard exits with 0, or, for a binding that it does not
  -- configure, some source file is found and none calls an assertion that takes a callback. Sorting
  -- paths is taken to keep them, and a text that is not empty to have a line.
  pub main_accepts :
      (binding : String) (checks : List OrderedCheck)
      → lookup binding all_checks ≡ some checks
      → (main host binding ≡ 0) ↔ (
          ((check : OrderedCheck) → In check checks → InPlace host check)
          × Consumed host binding (lookup binding consumption_unconfigured))
  unfolding run_binding
  main_accepts binding checks listed = (
    λ h.
        let (p, q) =
          append-eq-nil (run_binding host binding) (consumption_faults host binding)
            ((main_silent binding).0 h) in
        (
          (run_checks_iff host checks).0 (rw (listed, run_binding) at p),
          (consumption_faults_iff binding).0 q,
        ),
    λ (p, q). (main_silent binding).1 (
        rw (listed, run_binding, (run_checks_iff host checks).1 p)
          ((consumption_faults_iff binding).1 q)),
  )
