-- ===== src/Prelude/Distinct.antt =====
-- Lists of texts in which nothing stands twice, and how they grow at the end.
use lazily_spec.Prelude.{
  suc, ◌≤◌, String, true, false, ◌||◌, List, [], ◌∷◌, ◌++◌, ◌≡◌, refl, arith, ◌==◌, string_eq,
  eq_iff, contains, All, length, if◌then◌else◌,
}

abbrev pub Distinct : List String → Type 0
Distinct [] = Unit
Distinct (x ∷ xs) = (contains xs x ≡ false) × Distinct xs

-- Every element of the second list is in the first.
abbrev pub Within : List String → List String → Type 0
Within ys xs = All (λ x. contains ys x ≡ true) xs

pub contains-append :
    (xs ys : List String) (n : String) → contains (xs ++ ys) n ≡ (contains xs n || contains ys n)
contains-append [] ys n = refl
contains-append (x ∷ xs) ys n = ground (arith, contains-append xs ys n)

pub contains-cons :
    (x n : String) (xs : List String) → contains xs n ≡ true → contains (x ∷ xs) n ≡ true
contains-cons x n xs h = ground arith

pub contains-head : (x : String) (xs : List String) → contains (x ∷ xs) x ≡ true
contains-head x xs = ground (arith, eq_iff x x)

pub Distinct-snoc :
    (xs : List String) (x : String) → Distinct xs → contains xs x ≡ false → Distinct (xs ++ x ∷ [])
Distinct-snoc [] x h k = (refl, tt)
Distinct-snoc (y ∷ xs) x (hy, h) k = (
  ground (arith, contains-append xs (x ∷ []) y, eq_iff y x, eq_iff x y),
  Distinct-snoc xs x h (ground arith),
)

pub Within-snoc :
    (ys xs : List String) (x : String)
    → Within ys xs
    → contains ys x ≡ true
    → Within ys (xs ++ x ∷ [])
Within-snoc ys [] x h k = (k, tt)
Within-snoc ys (y ∷ xs) x (hy, h) k = (hy, Within-snoc ys xs x h k)

-- The list without the first place of an element.
erase : String → List String → List String
erase x [] = []
erase x (y ∷ ys) = let rest = erase x ys in if x == y then ys else y ∷ rest

length-erase :
    (x : String) (ys : List String) → contains ys x ≡ true → length ys ≡ suc (length (erase x ys))
unfolding erase
length-erase x [] h = cc
length-erase x (y ∷ ys) h = ground (arith, length-erase x ys)

contains-erase :
    (x n : String) (ys : List String)
    → (n == x) ≡ false
    → contains ys n ≡ true
    → contains (erase x ys) n ≡ true
unfolding erase
contains-erase x n [] h k = k
contains-erase x n (y ∷ ys) h k =
    ground (arith, contains-erase x n ys, eq_iff n x, eq_iff n y, eq_iff x y)

Within-erase :
    (x : String) (ys xs : List String)
    → contains xs x ≡ false
    → Within ys xs
    → Within (erase x ys) xs
Within-erase x ys [] h k = tt
Within-erase x ys (y ∷ xs) h (hy, k) = (
  contains-erase x y ys (ground (arith, eq_iff x y, eq_iff y x)) hy,
  Within-erase x ys xs (ground arith) k,
)

-- Distinct elements of a list are no more than the list has.
pub Distinct-length_le : (xs ys : List String) → Distinct xs → Within ys xs → length xs ≤ length ys
Distinct-length_le [] ys h k = omega arith
Distinct-length_le (x ∷ xs) ys (hx, h) (kx, k) =
    omega (
      arith,
      length-erase x ys kx,
      Distinct-length_le xs (erase x ys) h (Within-erase x ys xs hx k),
    )
