-- ===== src/Guard/Run/Accepted.antt =====
-- What the guard accepts of a binding's files.
use lazily_spec.Prelude.{
  String, true, false, List, [], ◌∷◌, map, ◌≡◌, ◌↔◌, refl, sym, ◌∙◌, arith, string_eq, contains,
  Bool-cases, inl, inr,
}
use lazily_spec.Prelude.Members.{In, here, there, contains-In, In-contains}
use lazily_spec.Prelude.Distinct.{contains-append}
use lazily_spec.Prelude.Reports.{over, over-silent, silent-over}
use lazily_spec.Guard.Run.{
  Language, source_globs, Host, scan_text, RunError, is_nil, globbed, is_scanned, file_errors,
  run_binding, main,
}

-- A file that one of the binding's patterns gives, and that is not excluded.
pub record IsSource (host : Host) (language : Language) (path : String) : Type 0 where
  pub pattern : String
  pub is_pattern : In pattern (source_globs language)
  pub listed : contains (host.glob pattern) path ≡ true
  pub scanned : is_scanned host language path ≡ true

map-eq-nil : {A B : Type 0} (f : A → B) (xs : List A) → (map f xs ≡ []) ↔ (xs ≡ [])
map-eq-nil f [] = (λ h. refl, λ h. refl)
map-eq-nil f (x ∷ xs) = (λ h. cc, λ h. cc)

module _ (host : Host) where
  globbed-In :
      (patterns : List String) (p : String)
      → contains (globbed host patterns) p ≡ true
      → (g : String) × In g patterns × (contains (host.glob g) p ≡ true)
  unfolding globbed
  globbed-In [] p h = cc
  globbed-In (g ∷ patterns) p h = elim (Bool-cases (contains (host.glob g) p)) [
    | inl e ↦ (g, here refl, e)
    | inr e ↦
        let (k, i, c) =
          globbed-In patterns p
            (ground (arith, contains-append (host.glob g) (globbed host patterns) p)) in
        (k, there i, c)
  ]

  In-globbed :
      (patterns : List String) (g p : String)
      → In g patterns
      → contains (host.glob g) p ≡ true
      → contains (globbed host patterns) p ≡ true
  unfolding globbed
  In-globbed [] g p i h = elim i [ ]
  In-globbed (k ∷ patterns) g p (here e) h =
      let listed : contains (host.glob k) p ≡ true = rw e h in
      ground (arith, contains-append (host.glob k) (globbed host patterns) p)
  In-globbed (k ∷ patterns) g p (there i) h =
      ground (
        arith,
        contains-append (host.glob k) (globbed host patterns) p,
        In-globbed patterns g p i h,
      )

  file_errors_iff :
      (language : Language) (path : String)
      → (file_errors host language path ≡ []) ↔ (
          is_scanned host language path ≡ true → scan_text host language (host.read_text path) ≡ [])
  unfolding file_errors
  file_errors_iff language path = elim (Bool-cases (is_scanned host language path)) [
    | inl e ↦ (
      λ h s.
          (map-eq-nil (RunError.in_file path) (scan_text host language (host.read_text path))).0
            (rw (e, file_errors) at h),
      λ h.
          rw (e, file_errors)
            ((map-eq-nil (RunError.in_file path) (scan_text host language (host.read_text path))).1
              (h e)),
    )
    | inr e ↦ (λ h s. absurd (ground (arith, e, s)), λ h. rw (e, file_errors) refl)
  ]

  -- `sorted` keeps the paths that it is given.
  abbrev pub SortKeeps : Type 0
  SortKeeps = (ps : List String) (p : String) → contains (host.sort_paths ps) p ≡ contains ps p

  -- Some path is listed, and no source file has a diagnostic.
  pub record Passes (language : Language) : Type 0 where
    pub path : String
    pub pattern : String
    pub is_pattern : In pattern (source_globs language)
    pub listed : contains (host.glob pattern) path ≡ true
    pub silent :
        (p : String) → IsSource host language p → scan_text host language (host.read_text p) ≡ []

  first_of : (ps : List String) → is_nil ps ≡ false → (p : String) × In p ps
  first_of [] h = cc
  first_of (p ∷ ps) h = (p, here refl)

  no_member : (ps : List String) (p : String) → is_nil ps ≡ true → contains ps p ≡ false
  no_member [] p h = refl
  no_member (q ∷ ps) p h = cc

  module _ (keeps : SortKeeps) (language : Language) where
    paths : List String
    paths = globbed host (source_globs language)

    over-Passes :
        is_nil paths ≡ false
        → over (file_errors host language) (host.sort_paths paths) ≡ []
        → Passes language
    unfolding paths
    over-Passes e h =
        let (p, i) = first_of paths e in
        let (g, j, c) = globbed-In (source_globs language) p (In-contains p paths i) in
        record {
          path = p;
          pattern = g;
          is_pattern = j;
          listed = c;
          silent = λ q s.
              (file_errors_iff language q).0
                (over-silent (file_errors host language) (host.sort_paths paths) h q (
                  contains-In q (host.sort_paths paths) (
                    keeps paths q
                    ∙ In-globbed (source_globs language) s.pattern q s.is_pattern s.listed)))
                s.scanned;
        }

    Passes-over : Passes language → over (file_errors host language) (host.sort_paths paths) ≡ []
    unfolding paths
    Passes-over o = silent-over (file_errors host language) (host.sort_paths paths) (λ q i.
        (file_errors_iff language q).1 (λ s.
          let (g, j, c) =
            globbed-In (source_globs language) q
              (sym (keeps paths q) ∙ In-contains q (host.sort_paths paths) i) in
          o.silent q (record { pattern = g; is_pattern = j; listed = c; scanned = s })))

    run_binding_iff : (run_binding host language ≡ []) ↔ Passes language
    unfolding run_binding paths
    run_binding_iff = elim (Bool-cases (is_nil (globbed host (source_globs language)))) [
      | inl e ↦ (
        λ h. absurd (ground (arith, rw (e, run_binding) at h)),
        λ o. absurd (
            ground (
              arith,
              no_member (globbed host (source_globs language)) o.path e,
              In-globbed (source_globs language) o.pattern o.path o.is_pattern o.listed,
            )),
      )
      | inr e ↦
          (λ h. over-Passes e (rw (e, run_binding) at h), λ o. rw (e, run_binding) (Passes-over o))
    ]

    -- The exit status for a binding is 0 exactly where one of its patterns gives a path, and the scan
    -- of each file that one gives, and that is not excluded, reports nothing. Sorting paths is taken to
    -- keep them.
    pub main-Passes : (main host language ≡ 0) ↔ Passes language
    unfolding main
    main-Passes = elim (Bool-cases (is_nil (run_binding host language))) [
      | inl e ↦
          (λ h. run_binding_iff.0 (nothing (run_binding host language) e), λ o. rw (e, main) refl)
      | inr e ↦ (
        λ h. absurd (ground (arith, rw (e, main) at h)),
        λ o.
            absurd (ground (arith, e, something (run_binding host language) (run_binding_iff.1 o))),
      )
    ]
      where
        nothing : {A : Type 0} (xs : List A) → is_nil xs ≡ true → xs ≡ []
        nothing [] h = refl
        nothing (x ∷ xs) h = cc

        something : {A : Type 0} (xs : List A) → xs ≡ [] → is_nil xs ≡ true
        something [] h = refl
        something (x ∷ xs) h = cc
