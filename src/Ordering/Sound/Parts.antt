-- ===== src/Ordering/Sound/Parts.antt =====
-- What the single parts of the check of a binding accept.
use lazily_spec.Prelude.{
  String, true, false, ◌&&◌, ◌||◌, List, [], ◌∷◌, map, ◌≡◌, ◌↔◌, ◌⊎◌, refl, arith, ◌==◌, string_eq,
  nat_eq, eq_iff, contains, Bool-cases, inl, inr, append-eq-nil, if◌then◌else◌,
}
use lazily_spec.Prelude.Members.{In, here, there}
use lazily_spec.Prelude.Distinct.{contains-append}
use lazily_spec.Prelude.Reports.{over-silent, silent-over}
use lazily_spec.Ordering.Check.{OrderedCheck, is_nil}
use lazily_spec.Ordering.Checks.{Exemption}
use lazily_spec.Ordering.Run.{
  Host, check_faults, run_checks, files_of, glob_all, found_calls, found_in,
}
use lazily_spec.Ordering.Sound.{Ordered, ordering_errors_iff}

-- A file that one of the patterns of paths gives.
pub record IsSource (host : Host) (globs : List String) (path : String) : Type 0 where
  pub glob : String
  pub is_glob : In glob globs
  pub listed : contains (host.glob glob) path ≡ true
  pub is_file : host.is_file path ≡ true

abbrev pub InPlace : Host → OrderedCheck → Type 0
InPlace host check =
    (host.is_file check.path ≡ true)
    × Ordered check.paired (host.finditer check.before (host.read_text check.path))
        (host.finditer check.after (host.read_text check.path))

pub map-eq-nil : {A B : Type 0} (f : A → B) (xs : List A) → (map f xs ≡ []) ↔ (xs ≡ [])
map-eq-nil f [] = (λ h. refl, λ h. refl)
map-eq-nil f (x ∷ xs) = (λ h. cc, λ h. cc)

pub is_nil_iff : {A : Type 0} (xs : List A) → (is_nil xs ≡ true) ↔ (xs ≡ [])
is_nil_iff [] = (λ h. refl, λ h. refl)
is_nil_iff (x ∷ xs) = (λ h. cc, λ h. cc)

module _ (host : Host) where
  check_faults_iff : (check : OrderedCheck) → (check_faults host check ≡ []) ↔ InPlace host check
  unfolding check_faults
  check_faults_iff check = elim (Bool-cases (host.is_file check.path)) [
    | inl e ↦ (
      λ h. (
        e,
        (ordering_errors_iff host.finditer (host.read_text check.path) check).0
            ((map-eq-nil _ _).0 (rw (e, check_faults) at h)),
      ),
      λ (_, o).
          rw (e, check_faults)
            ((map-eq-nil _ _).1
              ((ordering_errors_iff host.finditer (host.read_text check.path) check).1 o)),
    )
    | inr e ↦
        (λ h. absurd (ground (arith, rw (e, check_faults) at h)), λ (q, o). absurd (ground arith))
  ]

  pub run_checks_iff :
      (checks : List OrderedCheck)
      → (run_checks host checks ≡ [])
        ↔ ((check : OrderedCheck) → In check checks → InPlace host check)
  unfolding run_checks
  run_checks_iff checks = (
    λ h check i. (check_faults_iff check).0 (over-silent (check_faults host) checks h check i),
    λ h. silent-over (check_faults host) checks (λ check i. (check_faults_iff check).1 (h check i)),
  )

  pub contains-files_of :
      (paths : List String) (p : String)
      → contains (files_of host paths) p ≡ (contains paths p && host.is_file p)
  unfolding files_of
  contains-files_of [] p = refl
  contains-files_of (q ∷ paths) p =
      by_file (contains-files_of paths p) (Bool-cases (p == q)) (Bool-cases (host.is_file q))
    where
      by_file :
          contains (files_of host paths) p ≡ (contains paths p && host.is_file p)
          → ((p == q) ≡ true) ⊎ ((p == q) ≡ false)
          → (host.is_file q ≡ true) ⊎ (host.is_file q ≡ false)
          → contains (if host.is_file q then q ∷ files_of host paths else files_of host paths) p
            ≡ ((p == q || contains paths p) && host.is_file p)
      by_file ih (inr d) (inl e) = rw e (ground arith)
      by_file ih (inr d) (inr e) = rw e (ground arith)
      by_file ih (inl d) (inl e) =
          let same : host.is_file p ≡ true = rw ((eq_iff p q).0 d) e in rw e (ground arith)
      by_file ih (inl d) (inr e) =
          let same : host.is_file p ≡ false = rw ((eq_iff p q).0 d) e in rw e (ground arith)

  pub glob_all-In :
      (globs : List String) (p : String)
      → contains (glob_all host globs) p ≡ true
      → (g : String) × In g globs × (contains (host.glob g) p ≡ true)
  unfolding glob_all
  glob_all-In [] p h = cc
  glob_all-In (g ∷ globs) p h = elim (Bool-cases (contains (host.glob g) p)) [
    | inl e ↦ (g, here refl, e)
    | inr e ↦
        let (g', i, c) =
          glob_all-In globs p
            (ground (arith, contains-append (host.glob g) (glob_all host globs) p)) in
        (g', there i, c)
  ]

  pub In-glob_all :
      (globs : List String) (g p : String)
      → In g globs
      → contains (host.glob g) p ≡ true
      → contains (glob_all host globs) p ≡ true
  unfolding glob_all
  In-glob_all [] g p i h = elim i [ ]
  In-glob_all (k ∷ globs) g p (here e) h =
      let listed : contains (host.glob k) p ≡ true = rw e h in
      ground (arith, contains-append (host.glob k) (glob_all host globs) p)
  In-glob_all (k ∷ globs) g p (there i) h =
      ground
        (arith, contains-append (host.glob k) (glob_all host globs) p, In-glob_all globs g p i h)

  found_calls_iff :
      (path : String) (names : List String)
      → (found_calls host path names ≡ [])
        ↔ ((name : String) → In name names → host.search_call name (host.read_text path) ≡ false)
  unfolding found_calls
  found_calls_iff path [] = (λ h name i. elim i [ ], λ h. refl)
  found_calls_iff path (name ∷ names) =
      elim (Bool-cases (host.search_call name (host.read_text path))) [
        | inl e ↦ (
          λ h. absurd (ground (arith, rw (e, found_calls) at h)),
          λ h. absurd (ground (arith, h name (here refl))),
        )
        | inr e ↦ (
          λ h. first_clear e ((found_calls_iff path names).0 (rw (e, found_calls) at h)),
          λ h. rw (e, found_calls) ((found_calls_iff path names).1 (λ n i. h n (there i))),
        )
      ]
    where
      first_clear :
          host.search_call name (host.read_text path) ≡ false
          → ((n : String) → In n names → host.search_call n (host.read_text path) ≡ false)
          → (n : String) → In n (name ∷ names)
          → host.search_call n (host.read_text path) ≡ false
      first_clear e rest n (here q) = rw (← q) e
      first_clear e rest n (there i) = rest n i

  pub found_in_iff :
      (exemption : Exemption) (paths : List String)
      → (found_in host exemption paths ≡ []) ↔ (
          (path name : String)
          → In path paths
          → In name exemption.call_names
          → host.search_call name (host.read_text path) ≡ false)
  unfolding found_in
  found_in_iff exemption [] = (λ h path name i. elim i [ ], λ h. refl)
  found_in_iff exemption (p ∷ paths) = (
    λ h.
        let (x, y) =
          append-eq-nil (found_calls host p exemption.call_names) (found_in host exemption paths)
            h in
        first_clear ((found_calls_iff p exemption.call_names).0 x)
          ((found_in_iff exemption paths).0 y),
    λ h.
        rw ((found_calls_iff p exemption.call_names).1 (λ n i. h p n (here refl) i))
          ((found_in_iff exemption paths).1 (λ path n i j. h path n (there i) j)),
  )
    where
      first_clear :
          ((n : String) → In n exemption.call_names → host.search_call n (host.read_text p) ≡ false)
          → ((path n : String)
              → In path paths
              → In n exemption.call_names
              → host.search_call n (host.read_text path) ≡ false)
          → (path n : String) → In path (p ∷ paths)
          → In n exemption.call_names
          → host.search_call n (host.read_text path) ≡ false
      first_clear first rest path n (here q) j = rw (← q) (first n j)
      first_clear first rest path n (there i) j = rest path n i j
