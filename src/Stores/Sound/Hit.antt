-- ===== src/Stores/Sound/Hit.antt =====
-- The keys of `driver_hits` are the scanned files that use a driver.
use Prim.Native.Nat.{Ordering}
use Prim.Native.String.{compare}
use lazily_spec.Prelude.{
  String, Bool, true, false, not, ◌&&◌, ◌||◌, List, [], ◌∷◌, map, ◌≡◌, ◌↔◌, refl, ◌∙◌, sym, ap,
  arith, ◌==◌, string_eq, eq_iff, contains, any, Bool-cases, Option-cases, inl, inr,
}
use lazily_spec.Prelude.Members.{any-In, In-any, In, here, there}
use lazily_spec.Stores.Registry.{RelPath, Checkout, Host, Driver}
use lazily_spec.Stores.Scan.{
  as_posix, scan_files, found_in, Hits, put, file_hits, note, driver_hits_from, driver_hits, is_nil,
}
use lazily_spec.Stores.Check.{insert_hit, sort_hits}
use lazily_spec.Stores.Sound.Scanned.{SourceOf, Uses, scan_files-In}

abbrev pub hit_keys : Hits → List String
hit_keys hits = map (λ hit. hit.0) hits

contains-put :
    (k rel : String) (found : List String) (hits : Hits)
    → contains (hit_keys (put rel found hits)) k ≡ (k == rel || contains (hit_keys hits) k)
unfolding put
contains-put k rel found [] = refl
contains-put k rel found ((key, ids) ∷ hits) = elim (Bool-cases (key == rel)) [
  | inl e ↦ rw (e, put) (ground (arith, eq_iff key rel, eq_iff k rel, eq_iff k key))
  | inr e ↦ rw (e, put) (ground (arith, contains-put k rel found hits))
]

contains-note :
    (k rel : String) (found : List String) (hits : Hits)
    → contains (hit_keys (note rel found hits)) k
      ≡ ((not (is_nil found) && k == rel) || contains (hit_keys hits) k)
unfolding note
contains-note k rel [] hits = refl
contains-note k rel (id ∷ ids) hits = contains-put k rel (id ∷ ids) hits

contains-insert_hit :
    (k : String) (hit : String × List String) (rest : Hits)
    → contains (hit_keys (insert_hit hit rest)) k ≡ (k == hit.0 || contains (hit_keys rest) k)
unfolding insert_hit
contains-insert_hit k hit [] = refl
contains-insert_hit k hit (first ∷ rest) =
    by_order (contains-insert_hit k hit rest) (compare hit.0 first.0)
  where
    by_order :
        contains (hit_keys (insert_hit hit rest)) k ≡ (k == hit.0 || contains (hit_keys rest) k)
        → (o : Ordering)
        → contains
            (hit_keys
              (elim o [ Ordering.gt ↦ first ∷ insert_hit hit rest | _ ↦ hit ∷ first ∷ rest ]))
            k
          ≡ (k == hit.0 || (k == first.0 || contains (hit_keys rest) k))
    by_order ih Ordering.gt = rw ih (ground arith)
    by_order ih _ = refl

pub contains-sort_hits :
    (k : String) (hits : Hits) → contains (hit_keys (sort_hits hits)) k ≡ contains (hit_keys hits) k
unfolding sort_hits
contains-sort_hits k [] = refl
contains-sort_hits k (hit ∷ hits) =
    contains-insert_hit k hit (sort_hits hits)
    ∙ ap (λ b. k == hit.0 || b) (contains-sort_hits k hits)

module _ (host : Host) (repo : Checkout) (drivers : List Driver) where
  is_used : RelPath → Bool
  is_used path = not (is_nil (file_hits host drivers (repo.read_text path)))

  contains-driver_hits_from :
      (k : String) (hits : Hits) (paths : List RelPath)
      → contains (hit_keys (driver_hits_from host repo drivers hits paths)) k
        ≡ (contains (hit_keys hits) k || any (λ p. is_used p && k == as_posix p) paths)
  unfolding driver_hits_from is_used
  contains-driver_hits_from k hits [] = ground arith
  contains-driver_hits_from k hits (p ∷ paths) =
      contains-driver_hits_from k
        (note (as_posix p) (file_hits host drivers (repo.read_text p)) hits) paths
      ∙ rw (contains-note k (as_posix p) (file_hits host drivers (repo.read_text p)) hits)
          (ground arith)

  found_in-Uses :
      (ds : List Driver) (text : String)
      → is_nil (found_in host ds text) ≡ false
      → (d : Driver) × In d ds × (host.search d.pattern text ≡ true)
  unfolding found_in
  found_in-Uses [] text h = cc
  found_in-Uses (d ∷ ds) text h = elim (Bool-cases (host.search d.pattern text)) [
    | inl e ↦ (d, here refl, e)
    | inr e ↦ let (d', i, f) = found_in-Uses ds text (rw (e, found_in) at h) in (d', there i, f)
  ]

  In-found_in :
      (d : Driver) (ds : List Driver) (text : String)
      → In d ds
      → host.search d.pattern text ≡ true
      → is_nil (found_in host ds text) ≡ false
  unfolding found_in
  In-found_in d [] text i h = elim i [ ]
  In-found_in d (c ∷ ds) text (here e) h =
      let here_too : host.search c.pattern text ≡ true = rw e h in rw (here_too, found_in) refl
  In-found_in d (c ∷ ds) text (there i) h = elim (Bool-cases (host.search c.pattern text)) [
    | inl e ↦ rw (e, found_in) refl
    | inr e ↦ rw (e, found_in) (In-found_in d ds text i h)
  ]

  is_used_iff : (path : RelPath) → (is_used path ≡ true) ↔ Uses host repo drivers path
  unfolding is_used
  is_used_iff path = (
    λ h. used h,
    λ u. rw u.readable (rw (In-found_in u.driver drivers u.text u.is_driver u.found) refl),
  )
    where
      used :
          not (is_nil (file_hits host drivers (repo.read_text path))) ≡ true
          → Uses host repo drivers path
      used h = elim (Option-cases (repo.read_text path)) [
        | inl e ↦ absurd (ground (arith, rw e at h))
        | inr (text, e) ↦
            let (d, i, f) = found_in-Uses drivers text (ground (arith, rw e at h)) in
            record { text = text; readable = e; driver = d; is_driver = i; found = f }
      ]

  -- The keys of the hits are the source files that use a driver.
  pub driver_hits_iff :
      (roots : List String) (rel : String)
      → (contains (hit_keys (driver_hits host repo roots drivers)) rel ≡ true) ↔ (
          (path : RelPath) × SourceOf host repo roots path
          × Uses host repo drivers path
          × (rel ≡ as_posix path))
  unfolding driver_hits
  driver_hits_iff roots rel = (
    λ h.
        let (path, i, e) =
          any-In (λ p. is_used p && rel == as_posix p) (scan_files host repo roots)
            (sym (contains-driver_hits_from rel [] (scan_files host repo roots)) ∙ h) in
        (
          path,
          (scan_files-In host repo path roots).0 i,
          (is_used_iff path).0 (ground arith),
          (eq_iff rel (as_posix path)).0 (ground arith),
        ),
    λ (path, s, u, e).
        contains-driver_hits_from rel [] (scan_files host repo roots)
        ∙ In-any (λ p. is_used p && rel == as_posix p) path (scan_files host repo roots)
            ((scan_files-In host repo path roots).1 s)
            (ground (arith, (is_used_iff path).1 u, (eq_iff rel (as_posix path)).1 e)),
  )
