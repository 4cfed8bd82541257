-- ===== src/Stores/Sound/Scanned.antt =====
-- Which files are scanned, and which of them have an entry among the hits.
use lazily_spec.Prelude.{
  String, Bool, true, some, List, [], ◌∷◌, ◌≡◌, ◌↔◌, refl, ◌∙◌, sym, ap, string_eq, Bool-cases, inl,
  inr,
}
use lazily_spec.Prelude.Members.{In-append, In, here, there, In-append_left, In-append_right}
use lazily_spec.Stores.Registry.{RelPath, Checkout, Host, Driver}
use lazily_spec.Stores.Scan.{
  is_source, filter, candidates, gathered, insert_path, sort_paths, scan_files,
}

-- A source file that stands under one of the roots.
pub record SourceOf (host : Host) (repo : Checkout) (roots : List String) (path : RelPath)
    : Type 0 where
  pub root : String
  pub is_root : In root roots
  pub listed : In path (candidates repo root)
  pub source : is_source host repo path ≡ true

-- A file that can be read, and in which the pattern of a driver is found.
pub record Uses (host : Host) (repo : Checkout) (drivers : List Driver) (path : RelPath)
    : Type 0 where
  pub text : String
  pub readable : repo.read_text path ≡ some text
  pub driver : Driver
  pub is_driver : In driver drivers
  pub found : host.search driver.pattern text ≡ true

module _ {ℓ} {A : Type ℓ} where
  filter-In : (p : A → Bool) (x : A) (xs : List A) → In x (filter p xs) → In x xs × (p x ≡ true)
  filter-In p x [] i = elim i [ ]
  filter-In p x (y ∷ ys) i = elim (Bool-cases (p y)) [
    | inl e ↦ at_kept e (λ j. filter-In p x ys j) (rw e at i)
    | inr e ↦ let (j, h) = filter-In p x ys (rw e at i) in (there j, h)
  ]
    where
      at_kept :
          p y ≡ true
          → (In x (filter p ys) → In x ys × (p x ≡ true))
          → In x (y ∷ filter p ys)
          → In x (y ∷ ys) × (p x ≡ true)
      at_kept e rest (here q) = (here q, ap p (sym q) ∙ e)
      at_kept e rest (there j) = let (k, h) = rest j in (there k, h)

  In-filter : (p : A → Bool) (x : A) (xs : List A) → In x xs → p x ≡ true → In x (filter p xs)
  In-filter p x [] i h = elim i [ ]
  In-filter p x (y ∷ ys) (here q) h = rw (ap p q ∙ h) (here q)
  In-filter p x (y ∷ ys) (there i) h = elim (Bool-cases (p y)) [
    | inl e ↦ rw e (there (In-filter p x ys i h))
    | inr e ↦ rw e (In-filter p x ys i h)
  ]

module _ (host : Host) where
  insert_path-In :
      (p q : RelPath) (ps : List RelPath) → In q (insert_path host p ps) → In q (p ∷ ps)
  unfolding insert_path
  insert_path-In p q [] i = i
  insert_path-In p q (r ∷ ps) i = elim (Bool-cases (host.precedes r p)) [
    | inl e ↦ past (λ j. insert_path-In p q ps j) (rw (e, insert_path) at i)
    | inr e ↦ rw (e, insert_path) at i
  ]
    where
      swap : In q (p ∷ ps) → In q (p ∷ r ∷ ps)
      swap (here e) = here e
      swap (there j) = there (there j)

      past :
          (In q (insert_path host p ps) → In q (p ∷ ps))
          → In q (r ∷ insert_path host p ps)
          → In q (p ∷ r ∷ ps)
      past rest (here e) = there (here e)
      past rest (there j) = swap (rest j)

  In-insert_path :
      (p q : RelPath) (ps : List RelPath) → In q (p ∷ ps) → In q (insert_path host p ps)
  unfolding insert_path
  In-insert_path p q [] i = i
  In-insert_path p q (r ∷ ps) i = elim (Bool-cases (host.precedes r p)) [
    | inl e ↦ rw (e, insert_path) (past (λ j. In-insert_path p q ps j) i)
    | inr e ↦ rw (e, insert_path) i
  ]
    where
      past :
          (In q (p ∷ ps) → In q (insert_path host p ps))
          → In q (p ∷ r ∷ ps)
          → In q (r ∷ insert_path host p ps)
      past rest (here e) = there (rest (here e))
      past rest (there (here e)) = here e
      past rest (there (there j)) = there (rest (there j))

  sort_paths-In : (q : RelPath) (ps : List RelPath) → In q (sort_paths host ps) → In q ps
  unfolding sort_paths
  sort_paths-In q [] i = i
  sort_paths-In q (p ∷ ps) i = elim (insert_path-In p q (sort_paths host ps) i) [
    | here e ↦ here e
    | there j ↦ there (sort_paths-In q ps j)
  ]

  In-sort_paths : (q : RelPath) (ps : List RelPath) → In q ps → In q (sort_paths host ps)
  unfolding sort_paths
  In-sort_paths q [] i = i
  In-sort_paths q (p ∷ ps) (here e) = In-insert_path p q (sort_paths host ps) (here e)
  In-sort_paths q (p ∷ ps) (there i) =
      In-insert_path p q (sort_paths host ps) (there (In-sort_paths q ps i))

  module _ (repo : Checkout) where
    gathered-In :
        (q : RelPath) (roots : List String)
        → In q (gathered host repo roots)
        → SourceOf host repo roots q
    unfolding gathered
    gathered-In q [] i = elim i [ ]
    gathered-In q (root ∷ roots) i =
        elim (In-append q (filter (is_source host repo) (candidates repo root))
          (gathered host repo roots) i) [
            | inl j ↦
                let (listed, source) = filter-In (is_source host repo) q (candidates repo root) j in
                record { root = root; is_root = here refl; listed = listed; source = source }
            | inr j ↦
                let rest = gathered-In q roots j in
                record {
                  root = rest.root;
                  is_root = there rest.is_root;
                  listed = rest.listed;
                  source = rest.source;
                }
          ]

    In-gathered :
        (q : RelPath) (roots : List String) (root : String)
        → In root roots
        → In q (candidates repo root)
        → is_source host repo q ≡ true
        → In q (gathered host repo roots)
    unfolding gathered
    In-gathered q [] root i l h = elim i [ ]
    In-gathered q (r ∷ roots) root (here e) l h =
        In-append_left q _ _ (In-filter (is_source host repo) q (candidates repo r) (rw e l) h)
    In-gathered q (r ∷ roots) root (there i) l h =
        In-append_right q (filter (is_source host repo) (candidates repo r)) _
          (In-gathered q roots root i l h)

    -- The scanned files are the source files under the roots.
    pub scan_files-In :
        (q : RelPath) (roots : List String)
        → In q (scan_files host repo roots) ↔ SourceOf host repo roots q
    unfolding scan_files
    scan_files-In q roots = (
      λ i. gathered-In q roots (sort_paths-In q (gathered host repo roots) i),
      λ s.
          In-sort_paths q (gathered host repo roots)
            (In-gathered q roots s.root s.is_root s.listed s.source),
    )
