-- ===== src/Prelude/Reports.antt =====
-- What a run of checks reports, and when it reports nothing.
use lazily_spec.Prelude.{
  ℕ, suc, Bool, true, false, List, [], ◌∷◌, ◌++◌, ◌≡◌, refl, append-eq-nil, All,
}
use lazily_spec.Prelude.Members.{In, here, there}

module _ {F : Type 0} where
  -- if test: errors.append(fault)
  unfoldable pub report : Bool → F → List F
  report true fault = fault ∷ []
  report false fault = []

  -- What a run of checks appends, in order.
  unfoldable pub gather : List (List F) → List F
  gather [] = []
  gather (faults ∷ rest) = faults ++ gather rest

  -- for index, item in enumerate(items)
  abbrev pub each {ℓ} : {A : Type ℓ} → ℕ → (ℕ → A → List F) → List A → List F
  each index f [] = []
  each index f (x ∷ xs) = f index x ++ each (suc index) f xs

  -- for item in items
  unfoldable pub over {ℓ} : {A : Type ℓ} → (A → List F) → List A → List F
  over f [] = []
  over f (x ∷ xs) = f x ++ over f xs

  pub report-silent : (b : Bool) (fault : F) → report b fault ≡ [] → b ≡ false
  unfolding report
  report-silent true fault h = cc
  report-silent false fault h = refl

  pub silent-report : (b : Bool) (fault : F) → b ≡ false → report b fault ≡ []
  unfolding report
  silent-report b fault h = rw h refl

  pub gather-silent :
      (parts : List (List F)) → gather parts ≡ [] → All (λ faults. faults ≡ []) parts
  unfolding gather
  gather-silent [] h = tt
  gather-silent (faults ∷ rest) h =
      let (first, others) = append-eq-nil faults (gather rest) h in
      (first, gather-silent rest others)

  pub silent-gather :
      (parts : List (List F)) → All (λ faults. faults ≡ []) parts → gather parts ≡ []
  unfolding gather
  silent-gather [] h = refl
  silent-gather (faults ∷ rest) (first, others) = rw first (silent-gather rest others)

  pub over-silent {ℓ} :
      {A : Type ℓ} (f : A → List F) (xs : List A) → over f xs ≡ [] → (x : A) → In x xs → f x ≡ []
  unfolding over
  over-silent f [] h x i = elim i [ ]
  over-silent f (y ∷ ys) h x (here e) =
      let (first, others) = append-eq-nil (f y) (over f ys) h in rw (← e) first
  over-silent f (y ∷ ys) h x (there i) =
      let (first, others) = append-eq-nil (f y) (over f ys) h in over-silent f ys others x i

  pub silent-over {ℓ} :
      {A : Type ℓ} (f : A → List F) (xs : List A) → ((x : A) → In x xs → f x ≡ []) → over f xs ≡ []
  unfolding over
  silent-over f [] h = refl
  silent-over f (y ∷ ys) h = rw (h y (here refl)) (silent-over f ys (λ x i. h x (there i)))
