-- ===== src/Blocks/Sound.antt =====
-- Every document is accepted by a schema that was inferred from a list with the document in it.
use lazily_spec.Prelude.{
  ℕ, zero, suc, ◌<◌, String, true, ◌||◌, some, List, [], ◌∷◌, ◌++◌, ◌≡◌, refl, ap, arith, string_eq,
  all, contains, Bool-cases, Option-cases, inl, inr, ◌∙◌, ℤ,
}
use lazily_spec.Blocks.Json.{
  Json, Items, Fields, Kind, null, bool, int, float, str, arr, obj, boolean, integer, number,
  string, array, object, kind, item_list, get, keys, fields_of, items_of, depth,
}
use lazily_spec.Blocks.Infer.{
  Schema, same_kind, of_kind, both_numbers, group, all_keys, required_keys, collect, all_items,
  properties, array_schema, schema_for_kind, branch, branches, order, schemas, join_branches,
  infer_schema,
}
use lazily_spec.Blocks.Accepts.{accepts, accepts_any, accepts_props, closed_ok, prop_names, fits}
use lazily_spec.Prelude.Sorted.{sorted, sorted-In}
use lazily_spec.Prelude.Members.{
  In, here, there, In-append_left, In-append_right, All-In, all_intro, In-contains,
}
use lazily_spec.Blocks.Members.{
  Below, of_kind-In, of_kind-Below, collect-Below, collect-In, all_items-Below, all_items-In,
}
use lazily_spec.Blocks.Keys.{all_keys-In, required_keys-has}

prop_names-properties :
    (f : List Json → Schema) (ks : List String) (vs : List Json)
    → prop_names (properties f ks vs) ≡ ks
unfolding prop_names properties
prop_names-properties f [] vs = refl
prop_names-properties f (k ∷ ks) vs = ap (λ js. k ∷ js) (prop_names-properties f ks vs)

-- Each property's schema is inferred from the values of its key, so the object's own value passes.
accepts_props-properties :
    (f : List Json → Schema) (ks : List String) (vs : List Json) (fs : Fields)
    → ((k : String) (u : Json) → get k fs ≡ some u → accepts (f (collect k vs)) u ≡ true)
    → accepts_props (properties f ks vs) fs ≡ true
unfolding accepts properties
accepts_props-properties f [] vs fs h = refl
accepts_props-properties f (k ∷ ks) vs fs h = elim (Option-cases (get k fs)) [
  | inl e ↦ rw (e, accepts_props) (accepts_props-properties f ks vs fs h)
  | inr (u, e) ↦ rw (e, accepts_props) (rw (h k u e) (accepts_props-properties f ks vs fs h))
]

object_accepts :
    (f : List Json → Schema) (vs : List Json) (fs : Fields)
    → In (obj fs) vs
    → ((k : String) (u : Json) → get k fs ≡ some u → accepts (f (collect k vs)) u ≡ true)
    → accepts (schema_for_kind f object vs) (obj fs) ≡ true
unfolding accepts schema_for_kind closed_ok
object_accepts f vs fs i h =
    let ks = sorted (all_keys vs) in
    let names : all (contains (prop_names (properties f ks vs))) (keys fs) ≡ true =
      rw prop_names-properties (
        all_intro (contains ks) (keys fs) λ k m.
          sorted-In (all_keys vs) k
          ∙ In-contains k (all_keys vs) (all_keys-In k (obj fs) vs i (unfold fields_of in m))) in
    let needed : all (contains (keys fs)) (required_keys vs) ≡ true =
      all_intro (contains (keys fs)) (required_keys vs)
        λ k m. required_keys-has k (obj fs) vs i m in
    rw (names, needed) (accepts_props-properties f ks vs fs h)

array_accepts :
    (f : List Json → Schema) (vs : List Json) (xs : Items)
    → ((u : Json) → In u (item_list xs) → accepts (f vs) u ≡ true)
    → ((u : Json) → In u (item_list xs) → In u vs)
    → accepts (array_schema f vs) (arr xs) ≡ true
unfolding accepts array_schema
array_accepts f [] xs h i = unfold kind same_kind in refl
array_accepts f (v ∷ vs) xs h i = all_intro (accepts (f (v ∷ vs))) (item_list xs) h

accepts_any-append :
    (ss ts : List Schema) (v : Json)
    → accepts_any (schemas (ss ++ ts)) v
      ≡ (accepts_any (schemas ss) v || accepts_any (schemas ts) v)
unfolding accepts_any schemas
accepts_any-append [] ts v = refl
accepts_any-append (s ∷ ss) ts v = rw (accepts_any-append ss ts v) (ground arith)

join_accepts :
    (ss : List Schema) (v : Json)
    → accepts_any (schemas ss) v ≡ true
    → accepts (join_branches ss) v ≡ true
unfolding accepts_any schemas join_branches
join_accepts [] v h = h
join_accepts (s ∷ []) v h = ground arith
join_accepts (s ∷ t ∷ ss) v h = h

branch-accepts :
    (f : List Json → Schema) (k : Kind) (vs : List Json) (v : Json)
    → In v vs
    → accepts (schema_for_kind f k vs) v ≡ true
    → accepts_any (schemas (branch f k vs)) v ≡ true
unfolding branch schemas accepts_any
branch-accepts f k [] v i h = elim i [ ]
branch-accepts f k (x ∷ vs) v i h = rw h

branches_accept :
    (f : List Json → Schema) (k : Kind) (ks : List Kind) (vs : List Json) (v : Json)
    → In k ks
    → accepts_any (schemas (branch f k (group vs k))) v ≡ true
    → accepts_any (schemas (branches f ks vs)) v ≡ true
unfolding branches
branches_accept f k [] vs v i h = elim i [ ]
branches_accept f k (j ∷ ks) vs v (here e) h =
    rw (accepts_any-append (branch f j (group vs j)) (branches f ks vs) v, e, h)
branches_accept f k (j ∷ ks) vs v (there i) h =
    rw
      (
        accepts_any-append (branch f j (group vs j)) (branches f ks vs) v,
        branches_accept f k ks vs v i h,
      )
      (ground arith)

order-In : (k : Kind) → In k order
order-In null = here refl
order-In boolean = there (here refl)
order-In integer = there (there (here refl))
order-In number = there (there (there (here refl)))
order-In string = there (there (there (there (here refl))))
order-In array = there (there (there (there (there (here refl)))))
order-In object = there (there (there (there (there (there (here refl))))))

hit :
    (n : ℕ) (k : Kind) (vs : List Json) (v : Json)
    → In v (group vs k)
    → accepts (schema_for_kind (infer_schema n) k (group vs k)) v ≡ true
    → accepts (infer_schema (suc n) vs) v ≡ true
unfolding infer_schema
hit n k vs v i h = join_accepts (branches (infer_schema n) order vs) v (
    branches_accept (infer_schema n) k order vs v (order-In k)
      (branch-accepts (infer_schema n) k (group vs k) v i h))

-- Integers and numbers are joined where both are there.
module _ (n : ℕ) (vs : List Json) where
  int_hit : (z : ℤ) → In (int z) vs → accepts (infer_schema (suc n) vs) (int z) ≡ true
  unfolding accepts schema_for_kind fits same_kind kind
  int_hit z i =
      let mine = of_kind-In integer (int z) vs refl i in
      elim (Bool-cases (both_numbers vs)) [
        | inl e ↦
            hit n number vs (int z)
              (unfold group in
                rw e (In-append_right (int z) (of_kind number vs) (of_kind integer vs) mine))
              refl
        | inr e ↦ hit n integer vs (int z) (unfold group in rw e mine) refl
      ]

  float_hit : (t : String) → In (float t) vs → accepts (infer_schema (suc n) vs) (float t) ≡ true
  unfolding accepts schema_for_kind fits same_kind kind
  float_hit t i =
      let mine = of_kind-In number (float t) vs refl i in
      hit n number vs (float t)
        (elim (Bool-cases (both_numbers vs)) [
          | inl e ↦
              unfold group in
              rw e (In-append_left (float t) (of_kind number vs) (of_kind integer vs) mine)
          | inr e ↦ unfold group in rw e mine
        ])
        refl

-- A value is accepted by the schema inferred from any list of values, less deep than the fuel, that
-- it stands in: the inference loses no value of the corpus.
pub infer_schema_sound :
    (n : ℕ) (vs : List Json) (v : Json)
    → Below n vs
    → In v vs
    → accepts (infer_schema n vs) v ≡ true
unfolding accepts schema_for_kind fits same_kind kind group
infer_schema_sound zero vs v b i = absurd (none_below v (All-In (λ v. depth v < 0) v vs b i))
  where
    none_below : (v : Json) → depth v < 0 → ⊥
    none_below v h = omega arith
infer_schema_sound (suc n) vs null b i = hit n null vs null (of_kind-In null null vs refl i) refl
infer_schema_sound (suc n) vs (bool x) b i =
    hit n boolean vs (bool x) (of_kind-In boolean (bool x) vs refl i) refl
infer_schema_sound (suc n) vs (int z) b i = int_hit n vs z i
infer_schema_sound (suc n) vs (float t) b i = float_hit n vs t i
infer_schema_sound (suc n) vs (str s) b i =
    hit n string vs (str s) (of_kind-In string (str s) vs refl i) refl
infer_schema_sound (suc n) vs (arr xs) b i =
    let mine = of_kind-In array (arr xs) vs refl i in
    let g = of_kind array vs in
    let deep = all_items-Below n g (of_kind-Below (suc n) array vs b) in
    hit n array vs (arr xs) mine (
      array_accepts (infer_schema n) (all_items g) xs
        (λ u m.
          infer_schema_sound n (all_items g) u deep
            (all_items-In (arr xs) u g mine (items_in u xs m)))
        (λ u m. all_items-In (arr xs) u g mine (items_in u xs m)))
  where
    items_in : (u : Json) (xs : Items) → In u (item_list xs) → In u (items_of (arr xs))
    items_in u xs m = unfold items_of in m
infer_schema_sound (suc n) vs (obj fs) b i =
    let mine = of_kind-In object (obj fs) vs refl i in
    let g = of_kind object vs in
    hit n object vs (obj fs) mine (
      object_accepts (infer_schema n) g fs mine λ k u e.
        infer_schema_sound n (collect k g) u
          (collect-Below n k g (of_kind-Below (suc n) object vs b))
          (collect-In k (obj fs) u g (get_in k fs u e) mine))
  where
    get_in :
        (k : String) (fs : Fields) (u : Json)
        → get k fs ≡ some u
        → get k (fields_of (obj fs)) ≡ some u
    get_in k fs u e = unfold fields_of in e
