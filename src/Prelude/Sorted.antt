-- ===== src/Prelude/Sorted.antt =====
-- Python's `sorted` on a set of texts.
use Prim.Native.Nat.{Ordering}
use Prim.Native.String.{compare}
use lazily_spec.Prelude.{
  String, List, [], ◌∷◌, ◌≡◌, refl, ap, ◌∙◌, inl, inr, arith, ◌==◌, ◌||◌, string_eq, eq_iff,
  if◌then◌else◌, contains, Bool-cases,
}

-- A key put in its place in a sorted list without doubles.
unfoldable pub insert_key : String → List String → List String
insert_key k [] = k ∷ []
insert_key k (j ∷ js) =
    let rest = insert_key k js in
    if k == j then j ∷ js else elim (compare k j) [ Ordering.gt ↦ j ∷ rest | _ ↦ k ∷ j ∷ js ]

-- sorted({...})
unfoldable pub sorted : List String → List String
unfolding insert_key
sorted [] = []
sorted (k ∷ ks) = insert_key k (sorted ks)

insert_key-In :
    (k j : String) (ks : List String) → contains (insert_key k ks) j ≡ (j == k || contains ks j)
unfolding insert_key
insert_key-In k j [] = refl
insert_key-In k j (i ∷ ks) = elim (Bool-cases (k == i)) [
  | inl e ↦ rw e (ground (arith, eq_iff j k, eq_iff j i, eq_iff k i))
  | inr e ↦ rw e (by_order (insert_key-In k j ks) (compare k i))
]
  where
    by_order :
        contains (insert_key k ks) j ≡ (j == k || contains ks j)
        → (o : Ordering)
        → contains (elim o [ Ordering.gt ↦ i ∷ insert_key k ks | _ ↦ k ∷ i ∷ ks ]) j
          ≡ (j == k || (j == i || contains ks j))
    by_order ih Ordering.gt = rw ih (ground arith)
    by_order ih _ = refl

pub sorted-In : (ks : List String) (j : String) → contains (sorted ks) j ≡ contains ks j
unfolding sorted
sorted-In [] j = refl
sorted-In (k ∷ ks) j = insert_key-In k j (sorted ks) ∙ ap (λ b. j == k || b) (sorted-In ks j)
