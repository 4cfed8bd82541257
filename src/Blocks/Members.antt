-- ===== src/Blocks/Members.antt =====
-- The values, fields and items that the inference goes into, and how deep they are.
use lazily_spec.Prelude.{
  ℕ, suc, ◌≤◌, ◌<◌, String, true, some, List, [], ◌∷◌, ◌≡◌, refl, arith, string_eq, All, Bool-cases,
  Option-cases, inl, inr,
}
use lazily_spec.Blocks.Json.{
  Json, Items, Fields, no_items, item, no_fields, field, Kind, arr, obj, kind, item_list, get,
  fields_of, items_of, depth, depth_items, depth_fields,
}
use lazily_spec.Blocks.Infer.{same_kind, of_kind, collect, all_items}
use lazily_spec.Prelude.Members.{In, here, there, In-append_left, In-append_right, All-append}

-- Every value is less deep than the fuel.
abbrev pub Below : ℕ → List Json → Type 0
Below n = All (λ v. depth v < n)

pub of_kind-In :
    (k : Kind) (v : Json) (vs : List Json)
    → same_kind (kind v) k ≡ true
    → In v vs
    → In v (of_kind k vs)
unfolding of_kind
of_kind-In k v [] e i = elim i [ ]
of_kind-In k v (x ∷ vs) e (here p) = rw (rw (← p) at e) (here p)
of_kind-In k v (x ∷ vs) e (there i) = elim (Bool-cases (same_kind (kind x) k)) [
  | inl h ↦ rw h (there (of_kind-In k v vs e i))
  | inr h ↦ rw h (of_kind-In k v vs e i)
]

pub of_kind-Below : (n : ℕ) (k : Kind) (vs : List Json) → Below n vs → Below n (of_kind k vs)
unfolding of_kind
of_kind-Below n k [] h = tt
of_kind-Below n k (x ∷ vs) (hx, h) = elim (Bool-cases (same_kind (kind x) k)) [
  | inl e ↦ rw e (hx, of_kind-Below n k vs h)
  | inr e ↦ rw e (of_kind-Below n k vs h)
]

get-depth : (k : String) (fs : Fields) (u : Json) → get k fs ≡ some u → depth u ≤ depth_fields fs
unfolding get depth
get-depth k no_fields u h = cc
get-depth k (field j v fs) u h = ground (arith, get-depth k fs u)

fields_depth : (v : Json) (k : String) (u : Json) → get k (fields_of v) ≡ some u → depth u < depth v
unfolding fields_of depth
fields_depth (obj fs) k u h = omega (arith, get-depth k fs u h)
fields_depth _ k u h = unfold get in cc

pub collect-Below :
    (n : ℕ) (k : String) (vs : List Json) → Below (suc n) vs → Below n (collect k vs)
unfolding collect
collect-Below n k [] h = tt
collect-Below n k (v ∷ vs) (hv, h) = elim (Option-cases (get k (fields_of v))) [
  | inl e ↦ rw (e, collect) (collect-Below n k vs h)
  | inr (u, e) ↦ rw (e, collect) (omega (arith, fields_depth v k u e), collect-Below n k vs h)
]

pub collect-In :
    (k : String) (v u : Json) (vs : List Json)
    → get k (fields_of v) ≡ some u
    → In v vs
    → In u (collect k vs)
unfolding collect
collect-In k v u [] e i = elim i [ ]
collect-In k v u (x ∷ vs) e (here p) = rw (rw (← p) at e, collect) (here refl)
collect-In k v u (x ∷ vs) e (there i) = elim (Option-cases (get k (fields_of x))) [
  | inl h ↦ rw (h, collect) (collect-In k v u vs e i)
  | inr (w, h) ↦ rw (h, collect) (there (collect-In k v u vs e i))
]

item_list-Below : (n : ℕ) (xs : Items) → depth_items xs < n → Below n (item_list xs)
unfolding item_list depth
item_list-Below n no_items h = tt
item_list-Below n (item v xs) h = (omega arith, item_list-Below n xs (omega arith))

items_of-Below : (n : ℕ) (v : Json) → depth v < suc n → Below n (items_of v)
unfolding items_of depth
items_of-Below n (arr xs) h = item_list-Below n xs (omega arith)
items_of-Below n _ h = tt

pub all_items-Below : (n : ℕ) (vs : List Json) → Below (suc n) vs → Below n (all_items vs)
unfolding all_items
all_items-Below n [] h = tt
all_items-Below n (v ∷ vs) (hv, h) =
    All-append (λ v. depth v < n) (items_of v) (all_items vs) (items_of-Below n v hv)
      (all_items-Below n vs h)

pub all_items-In : (v u : Json) (vs : List Json) → In v vs → In u (items_of v) → In u (all_items vs)
unfolding all_items
all_items-In v u [] h i = elim h [ ]
all_items-In v u (x ∷ vs) (here p) i = In-append_left u (items_of x) (all_items vs) (rw p i)
all_items-In v u (x ∷ vs) (there h) i =
    In-append_right u (items_of x) (all_items vs) (all_items-In v u vs h i)
