-- ===== src/Blocks/Keys.antt =====
-- The sorted keys of an inferred object schema.
use lazily_spec.Prelude.{
  String, true, List, [], ◌∷◌, ◌≡◌, sym, string_eq, all, Bool-cases, inl, inr, ◌∙◌,
}
use lazily_spec.Prelude.Sorted.{sorted-In}
use lazily_spec.Blocks.Json.{Json, keys, fields_of}
use lazily_spec.Blocks.Infer.{all_keys, has_key, common, required_keys}
use lazily_spec.Prelude.Members.{
  In, here, there, In-append_left, In-append_right, all-In, contains-In, In-contains,
}

pub all_keys-In :
    (k : String) (v : Json) (vs : List Json)
    → In v vs
    → In k (keys (fields_of v))
    → In k (all_keys vs)
unfolding all_keys
all_keys-In k v [] h i = elim h [ ]
all_keys-In k v (x ∷ vs) (here p) i = In-append_left k (keys (fields_of x)) (all_keys vs) (rw p i)
all_keys-In k v (x ∷ vs) (there h) i =
    In-append_right k (keys (fields_of x)) (all_keys vs) (all_keys-In k v vs h i)

common-has :
    (k : String) (ks : List String) (vs : List Json)
    → In k (common ks vs)
    → In k ks × (all (has_key k) vs ≡ true)
unfolding common
common-has k [] vs h = elim h [ ]
common-has k (j ∷ ks) vs h = elim (Bool-cases (all (has_key j) vs)) [
  | inl e ↦ common_head k j ks vs e (rw e at h) (common-has k ks vs)
  | inr e ↦ let (i, a) = common-has k ks vs (rw e at h) in (there i, a)
]
  where
    common_head :
        (k j : String) (ks : List String) (vs : List Json)
        → all (has_key j) vs ≡ true
        → In k (j ∷ common ks vs)
        → (In k (common ks vs) → In k ks × (all (has_key k) vs ≡ true))
        → In k (j ∷ ks) × (all (has_key k) vs ≡ true)
    common_head k j ks vs e (here p) ih = (here p, rw (← p) e)
    common_head k j ks vs e (there i) ih = let (i', a) = ih i in (there i', a)

-- A value among those that gave the required keys has each of them.
pub required_keys-has :
    (k : String) (v : Json) (vs : List Json)
    → In v vs
    → In k (required_keys vs)
    → has_key k v ≡ true
unfolding required_keys
required_keys-has k v [] h i = elim h [ ]
required_keys-has k v (w ∷ vs) h i =
    let unsorted =
      contains-In k (common (keys (fields_of w)) vs)
        (sym (sorted-In (common (keys (fields_of w)) vs) k) ∙ In-contains k _ i) in
    let (first, others) = common-has k (keys (fields_of w)) vs unsorted in go h first others
  where
    go : In v (w ∷ vs) → In k (keys (fields_of w)) → all (has_key k) vs ≡ true → has_key k v ≡ true
    go (here p) first others = rw (← p) (In-contains k (keys (fields_of w)) first)
    go (there q) first others = all-In (has_key k) v vs others q
