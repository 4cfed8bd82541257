-- ===== src/Prelude/Members.antt =====
-- Membership in the lists that the inference works over.
use mathlib.Core.Path.{subst}
use lazily_spec.Prelude.{
  String, Bool, true, ◌⊎◌, any, List, [], ◌∷◌, ◌++◌, ◌≡◌, refl, ap, sym, inl, inr, arith, ◌==◌,
  string_eq, eq_iff, all, contains, All, Bool-cases,
}

pub data In {ℓ} {A : Type ℓ} (a : A) : List A → Type ℓ where
  here : {x : A} {xs : List A} → x ≡ a → In a (x ∷ xs)
  there : {x : A} {xs : List A} → In a xs → In a (x ∷ xs)

module _ {ℓ} {A : Type ℓ} where
  pub In-append_left : (a : A) (xs ys : List A) → In a xs → In a (xs ++ ys)
  In-append_left a [] ys h = elim h [ ]
  In-append_left a (x ∷ xs) ys (here e) = here e
  In-append_left a (x ∷ xs) ys (there h) = there (In-append_left a xs ys h)

  pub In-append_right : (a : A) (xs ys : List A) → In a ys → In a (xs ++ ys)
  In-append_right a [] ys h = h
  In-append_right a (x ∷ xs) ys h = there (In-append_right a xs ys h)

  pub In-append : (x : A) (xs ys : List A) → In x (xs ++ ys) → In x xs ⊎ In x ys
  In-append x [] ys i = inr i
  In-append x (z ∷ xs) ys (here e) = inl (here e)
  In-append x (z ∷ xs) ys (there i) = elim (In-append x xs ys i) [
    | inl j ↦ inl (there j)
    | inr j ↦ inr j
  ]

  pub any-In : (p : A → Bool) (xs : List A) → any p xs ≡ true → (x : A) × In x xs × (p x ≡ true)
  any-In p [] h = cc
  any-In p (x ∷ xs) h = elim (Bool-cases (p x)) [
    | inl e ↦ (x, here refl, e)
    | inr e ↦ let (y, i, f) = any-In p xs (ground arith) in (y, there i, f)
  ]

  pub In-any : (p : A → Bool) (x : A) (xs : List A) → In x xs → p x ≡ true → any p xs ≡ true
  In-any p x [] i h = elim i [ ]
  In-any p x (y ∷ ys) (here e) h = ground (arith, ap p e)
  In-any p x (y ∷ ys) (there i) h = ground (arith, In-any p x ys i h)

  pub All-In {κ} : (P : A → Type κ) (a : A) (xs : List A) → All P xs → In a xs → P a
  All-In P a [] h i = elim i [ ]
  All-In P a (x ∷ xs) (hx, h) (here e) = subst P e hx
  All-In P a (x ∷ xs) (hx, h) (there i) = All-In P a xs h i

  pub All-append {κ} : (P : A → Type κ) (xs ys : List A) → All P xs → All P ys → All P (xs ++ ys)
  All-append P [] ys h k = k
  All-append P (x ∷ xs) ys (hx, h) k = (hx, All-append P xs ys h k)

  pub all-In : (p : A → Bool) (a : A) (xs : List A) → all p xs ≡ true → In a xs → p a ≡ true
  all-In p a [] h i = elim i [ ]
  all-In p a (x ∷ xs) h (here e) = ground (arith, ap p e)
  all-In p a (x ∷ xs) h (there i) = all-In p a xs (ground arith) i

  pub all_intro : (p : A → Bool) (xs : List A) → ((a : A) → In a xs → p a ≡ true) → all p xs ≡ true
  all_intro p [] h = refl
  all_intro p (x ∷ xs) h = ground (arith, h x (here refl), all_intro p xs (λ a i. h a (there i)))

pub contains-In : (k : String) (ks : List String) → contains ks k ≡ true → In k ks
contains-In k [] h = cc
contains-In k (j ∷ ks) h = elim (Bool-cases (k == j)) [
  | inl e ↦ here (sym ((eq_iff k j).0 e))
  | inr e ↦ there (contains-In k ks (rw e at h))
]

pub In-contains : (k : String) (ks : List String) → In k ks → contains ks k ≡ true
In-contains k [] h = elim h [ ]
In-contains k (j ∷ ks) (here e) = rw ((eq_iff k j).1 (sym e))
In-contains k (j ∷ ks) (there h) = ground (arith, In-contains k ks h)
