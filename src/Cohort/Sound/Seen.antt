-- ===== src/Cohort/Sound/Seen.antt =====
-- What `seen_coordinates` and `seen_artifacts` hold, and that silence means no repeats.
use lazily_spec.Prelude.{
  ℕ, suc, String, Bool, true, false, ◌&&◌, List, [], ◌∷◌, ◌++◌, map, ◌≡◌, refl, ap, ◌∙◌, arith,
  ◌==◌, string_eq, eq_iff, contains, Bool-cases, inl, inr,
}
use lazily_spec.Cohort.Manifest.{Host, Options, Artifact, Package}
use lazily_spec.Cohort.Packages.{
  Coordinate, coordinate_key, has_coordinate, Seen, artifacts_from, packages_from, add_coordinate,
  add_artifact,
}
use lazily_spec.Prelude.Distinct.{Distinct}
use lazily_spec.Cohort.Accepted.{DistinctCoordinates, artifact_files, package_files}

-- The elements added to a set, one after the other.
abbrev pub push {ℓ} : {A : Type ℓ} → List A → List A → List A
push [] seen = seen
push (x ∷ xs) seen = push xs (x ∷ seen)

pub push-append {ℓ} :
    {A : Type ℓ} (xs ys seen : List A) → push (xs ++ ys) seen ≡ push ys (push xs seen)
push-append [] ys seen = refl
push-append (x ∷ xs) ys seen = push-append xs ys (x ∷ seen)

-- Each element is new when its turn comes.
module _ {ℓ} {A : Type ℓ} (member : List A → A → Bool) where
  abbrev pub Fresh : List A → List A → Type 0
  Fresh seen [] = Unit
  Fresh seen (x ∷ xs) = (member seen x ≡ false) × Fresh (x ∷ seen) xs

  pub Fresh-append :
      (seen xs ys : List A) → Fresh seen xs → Fresh (push xs seen) ys → Fresh seen (xs ++ ys)
  Fresh-append seen [] ys h k = k
  Fresh-append seen (x ∷ xs) ys (hx, h) k = (hx, Fresh-append (x ∷ seen) xs ys h k)

Fresh-apart :
    (x : String) (seen xs : List String)
    → Fresh contains seen xs
    → contains seen x ≡ true
    → contains xs x ≡ false
Fresh-apart x seen [] h i = refl
Fresh-apart x seen (y ∷ xs) (hy, h) i = ground (arith, eq_iff x y, Fresh-apart x (y ∷ seen) xs h)

pub Fresh-Distinct : (seen xs : List String) → Fresh contains seen xs → Distinct xs
Fresh-Distinct seen [] h = tt
Fresh-Distinct seen (x ∷ xs) (hx, h) =
    (Fresh-apart x (x ∷ seen) xs h (ground (arith, eq_iff x x)), Fresh-Distinct (x ∷ seen) xs h)

Fresh-apart_coordinate :
    (x : Coordinate) (seen xs : List Coordinate)
    → Fresh has_coordinate seen xs
    → has_coordinate seen x ≡ true
    → has_coordinate xs x ≡ false
unfolding has_coordinate
Fresh-apart_coordinate x seen [] h i = refl
Fresh-apart_coordinate (a, b) seen ((c, d) ∷ xs) (hy, h) i = elim (Bool-cases (a == c && b == d)) [
  | inl e ↦
      let first : a ≡ c = (eq_iff a c).0 (ground arith) in
      let second : b ≡ d = (eq_iff b d).0 (ground arith) in cc (rw (first, second) at i)
  | inr e ↦ rw e (Fresh-apart_coordinate (a, b) ((c, d) ∷ seen) xs h (rw (e, has_coordinate) i))
]

pub Fresh-DistinctCoordinates :
    (seen xs : List Coordinate) → Fresh has_coordinate seen xs → DistinctCoordinates xs
unfolding has_coordinate
Fresh-DistinctCoordinates seen [] h = tt
Fresh-DistinctCoordinates seen (x ∷ xs) (hx, h) = (
  Fresh-apart_coordinate x (x ∷ seen) xs h (ground (arith, eq_iff x.0 x.0, eq_iff x.1 x.1)),
  Fresh-DistinctCoordinates (x ∷ seen) xs h,
)

module _ (host : Host) (options : Options) (at : ℕ) where
  pub artifacts_from-Seen :
      (i k : ℕ) (seen : Seen) (items : List Artifact)
      → (artifacts_from host options at i k seen items).1
        ≡ record seen { artifacts = push (artifact_files items) seen.artifacts }
  unfolding artifacts_from
  artifacts_from-Seen i k seen [] = refl
  artifacts_from-Seen i k seen (a ∷ items) =
      artifacts_from-Seen i (suc k) (add_artifact a.file seen) items

  pub packages_from-Seen :
      (i : ℕ) (seen : Seen) (ps : List Package)
      → (packages_from host options at i seen ps).1 ≡ record {
        coordinates = push (map coordinate_key ps) seen.coordinates;
        artifacts = push (package_files ps) seen.artifacts;
      }
  unfolding packages_from
  packages_from-Seen i seen [] = refl
  packages_from-Seen i seen (p ∷ ps) =
      let key = coordinate_key p in
      ap (λ s. (packages_from host options at (suc i) s ps).1)
        (artifacts_from-Seen i 0 (add_coordinate key seen) p.artifacts)
      ∙ packages_from-Seen (suc i)
          (record {
            coordinates = key ∷ seen.coordinates;
            artifacts = push (artifact_files p.artifacts) seen.artifacts;
          })
          ps
      ∙ rw (push-append (artifact_files p.artifacts) (package_files ps) seen.artifacts) refl
