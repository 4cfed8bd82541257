-- ===== src/Wire/Total.antt =====
-- After the checks of the model and of `_require_lowerable` no expression is refused by a language.
use lazily_spec.Prelude.{
  ℕ, suc, String, Bool, true, false, not, some, List, [], ◌∷◌, map, Result, ok, err, is_ok, ◌≡◌,
  refl, arith, ◌>>=◌, ◌>>◌, ◌==◌, string_eq, eq_iff, contains, All, Bool-cases, Option-cases, inl,
  inr,
}
use lazily_spec.Prelude.Members.{In, All-In}
use lazily_spec.Prelude.Texts.{◌+++◌}
use lazily_spec.Wire.Types.{
  Expr, text, u64, bool, bytes, ref, nullable, list, Decl, decl_name, decl_kind, expr_kind,
}
use lazily_spec.Wire.Model.{
  Unsupported, unknown_ref, unlowered_decl, each_ok, unless, type_exprs, all_exprs, refs,
  check_refs, check_types, has_repeats, duplicate_names,
}
use lazily_spec.Wire.Lowerable.{
  lowered_exprs, check_node, check_exprs, check_decl, check_rest, require_lowerable, rust_type,
  go_type, kt_type, py_type,
}
use lazily_spec.Wire.Names.{at_depth}
use lazily_spec.Wire.Kotlin.{kind_of, by_kind, kt_encode, kt_decode}

abbrev Checked : Type 0
Checked = Result Unsupported (Unit {0})

pub >>-ok : (m k : Checked) → (m >> k) ≡ ok tt → (m ≡ ok tt) × (k ≡ ok tt)
>>-ok (ok x) k h = (refl, h)
>>-ok (err e) k h = cc

pub unless-ok : (b : Bool) (e : Unsupported) → unless b e ≡ ok tt → b ≡ true
unless-ok true e h = refl
unless-ok false e h = cc

each_ok-All {ℓ κ} :
    {A : Type ℓ} (P : A → Type κ) (check : A → Checked)
    → ((x : A) → check x ≡ ok tt → P x)
    → (xs : List A) → each_ok check xs ≡ ok tt
    → All P xs
each_ok-All P check holds [] h = tt
each_ok-All P check holds (x ∷ xs) h =
    let (first, others) = >>-ok (check x) (each_ok check xs) h in
    (holds x first, each_ok-All P check holds xs others)

-- Each backend has a type for the expression.
pub record Typed (e : Expr) : Type 0 where
  pub rust : is_ok (rust_type e) ≡ true
  pub go : is_ok (go_type e) ≡ true
  pub kotlin : is_ok (kt_type e) ≡ true
  pub python : is_ok (py_type e) ≡ true

-- The expressions without byte strings.
abbrev pub NoBytes : Expr → Type 0
NoBytes bytes = ⊥
NoBytes (nullable e) = NoBytes e
NoBytes (list e) = NoBytes e
NoBytes _ = Unit

module _ (owner label : String) where
  refuses_bytes : check_node lowered_exprs owner label bytes ≡ ok tt → ⊥
  unfolding check_node expr_kind
  refuses_bytes h = cc

  checked-NoBytes :
      (e : Expr) → each_ok (check_node lowered_exprs owner label) (all_exprs e) ≡ ok tt → NoBytes e
  unfolding all_exprs
  checked-NoBytes (text least most pattern) h = tt
  checked-NoBytes u64 h = tt
  checked-NoBytes bool h = tt
  checked-NoBytes (ref name) h = tt
  checked-NoBytes bytes h =
      refuses_bytes (>>-ok (check_node lowered_exprs owner label bytes) (ok tt) h).0
  checked-NoBytes (nullable e) h =
      checked-NoBytes e
        (>>-ok (check_node lowered_exprs owner label (nullable e))
          (each_ok (check_node lowered_exprs owner label) (all_exprs e)) h).1
  checked-NoBytes (list e) h =
      checked-NoBytes e
        (>>-ok (check_node lowered_exprs owner label (list e))
          (each_ok (check_node lowered_exprs owner label) (all_exprs e)) h).1

abbrev extend : (String → String) → String → Result Unsupported String
extend f s = ok (f s)

then-is_ok :
    (r : Result Unsupported String) (f : String → String)
    → is_ok r ≡ true
    → is_ok (r >>= extend f) ≡ true
then-is_ok (ok s) f h = refl
then-is_ok (err e) f h = cc

rust_total : (e : Expr) → is_ok (rust_type e) ≡ true
unfolding rust_type
rust_total (text least most pattern) = refl
rust_total u64 = refl
rust_total bool = refl
rust_total bytes = refl
rust_total (ref name) = refl
rust_total (nullable e) = then-is_ok (rust_type e) _ (rust_total e)
rust_total (list e) = then-is_ok (rust_type e) _ (rust_total e)

py_total : (e : Expr) → is_ok (py_type e) ≡ true
unfolding py_type
py_total (text least most pattern) = refl
py_total u64 = refl
py_total bool = refl
py_total bytes = refl
py_total (ref name) = refl
py_total (nullable e) = then-is_ok (py_type e) _ (py_total e)
py_total (list e) = then-is_ok (py_type e) _ (py_total e)

go_total : (e : Expr) → NoBytes e → is_ok (go_type e) ≡ true
unfolding go_type
go_total (text least most pattern) h = refl
go_total u64 h = refl
go_total bool h = refl
go_total bytes h = absurd h
go_total (ref name) h = refl
go_total (nullable e) h = then-is_ok (go_type e) _ (go_total e h)
go_total (list e) h = then-is_ok (go_type e) _ (go_total e h)

kt_total : (e : Expr) → NoBytes e → is_ok (kt_type e) ≡ true
unfolding kt_type
kt_total (text least most pattern) h = refl
kt_total u64 h = refl
kt_total bool h = refl
kt_total bytes h = absurd h
kt_total (ref name) h = refl
kt_total (nullable e) h = then-is_ok (kt_type e) _ (kt_total e h)
kt_total (list e) h = then-is_ok (kt_type e) _ (kt_total e h)

-- A declaration whose expressions hold no byte strings.
abbrev pub NoBytesIn : Decl → Type 0
NoBytesIn t = All (λ le. NoBytes le.1) (type_exprs t)

lowerable-NoBytesIn :
    (kinds : List String) (optional : Bool) (t : Decl)
    → check_decl kinds lowered_exprs optional t ≡ ok tt
    → NoBytesIn t
unfolding check_decl check_exprs
lowerable-NoBytesIn kinds optional t h =
    let rest =
      (>>-ok (unless (contains kinds (decl_kind t)) (unlowered_decl (decl_kind t) (decl_name t)))
        (check_exprs lowered_exprs t >> check_rest optional t) h).1 in
    each_ok-All (λ le. NoBytes le.1) _ (λ le k. checked-NoBytes (decl_name t) le.0 le.1 k)
      (type_exprs t) (>>-ok (check_exprs lowered_exprs t) (check_rest optional t) rest).0

-- Each of the declaration's expressions has a type in Rust, Go, Kotlin and Python.
abbrev pub TypedIn : Decl → Type 0
TypedIn t = All (λ le. Typed le.1) (type_exprs t)

every-Typed : (es : List (String × Expr)) → All (λ le. NoBytes le.1) es → All (λ le. Typed le.1) es
every-Typed [] h = tt
every-Typed ((label, e) ∷ es) (he, h) = (
  record { rust = rust_total e; go = go_total e he; kotlin = kt_total e he; python = py_total e },
  every-Typed es h,
)

-- On the expressions that backends lower by default, a surface that passes `_require_lowerable`,
-- with any kinds of declarations, has a type for each of its expressions in Rust, Go, Kotlin and
-- Python, so no backend refuses one.
pub require_lowerable_total :
    (kinds : List String) (optional : Bool) (ts : List Decl)
    → require_lowerable kinds lowered_exprs optional ts ≡ ok tt
    → All TypedIn ts
unfolding require_lowerable
require_lowerable_total kinds optional ts h =
    each_ok-All TypedIn _
      (λ t k. every-Typed (type_exprs t) (lowerable-NoBytesIn kinds optional t k)) ts h

-- Every name that the expression refers to is declared.
abbrev pub Known : List Decl → Expr → Type 0
Known ts e = All (λ r. contains (map decl_name ts) r ≡ true) (refs e)

kind_of_known :
    (ts : List Decl) (name : String)
    → contains (map decl_name ts) name ≡ true
    → (kind : String) × (kind_of ts name ≡ some kind)
unfolding kind_of
kind_of_known [] name h = cc
kind_of_known (t ∷ ts) name h = elim (Option-cases (kind_of ts name)) [
  | inr (kind, e) ↦ (kind, rw (e, kind_of) refl)
  | inl e ↦ elim (Bool-cases (name == decl_name t)) [
    | inl same ↦ (
      decl_kind t,
      rw (e, kind_of) (ground (arith, eq_iff name (decl_name t), eq_iff (decl_name t) name)),
    )
    | inr other ↦ let (kind, found) = kind_of_known ts name (ground arith) in (kind, cc)
  ]
]

by_kind-is_ok :
    (ts : List Decl) (name a b : String)
    → contains (map decl_name ts) name ≡ true
    → is_ok (by_kind ts name a b) ≡ true
unfolding by_kind
by_kind-is_ok ts name a b h = let (kind, e) = kind_of_known ts name h in rw (e, by_kind) refl

kt_codec_total :
    (ts : List Decl) (helper : String) (e : Expr) (src label : String) (depth : ℕ)
    → NoBytes e
    → Known ts e
    → (is_ok (kt_encode ts e src depth) ≡ true)
      × (is_ok (kt_decode ts helper e src label depth) ≡ true)
unfolding kt_encode kt_decode refs
kt_codec_total ts helper (text least most pattern) src label depth h k = (refl, refl)
kt_codec_total ts helper u64 src label depth h k = (refl, refl)
kt_codec_total ts helper bool src label depth h k = (refl, refl)
kt_codec_total ts helper bytes src label depth h k = absurd h
kt_codec_total ts helper (ref name) src label depth h (known, _) =
    (by_kind-is_ok ts name _ _ known, by_kind-is_ok ts name _ _ known)
kt_codec_total ts helper (nullable e) src label depth h k = (
  then-is_ok _ _ (kt_codec_total ts helper e "it" label depth h k).0,
  then-is_ok _ _ (kt_codec_total ts helper e (at_depth "value" depth) label (suc depth) h k).1,
)
kt_codec_total ts helper (list e) src label depth h k =
    let inner =
      kt_codec_total ts helper e (at_depth "item" depth) (label +++ "[]") (suc depth) h k in
    (then-is_ok _ _ inner.0, then-is_ok _ _ inner.1)

pub check_types-Known :
    (ts : List Decl)
    → check_types ts ≡ ok tt
    → All (λ t. All (λ le. Known ts le.1) (type_exprs t)) ts
unfolding check_types
check_types-Known [] h = tt
check_types-Known (t ∷ ts) h =
    let names = map decl_name (t ∷ ts) in
    let rest =
      (>>-ok (unless (not (has_repeats names)) (duplicate_names names))
        (each_ok (check_refs names) (t ∷ ts)) h).1 in
    each_ok-All (λ d. All (λ le. Known (t ∷ ts) le.1) (type_exprs d)) (check_refs names)
      (λ d k.
        each_ok-All (λ le. Known (t ∷ ts) le.1) _
          (λ le i.
            each_ok-All (λ r. contains names r ≡ true) _
              (λ r j. unless-ok (contains names r) (unknown_ref (decl_name d) le.0 r) j) (refs le.1)
              i)
          (type_exprs d) (unfold check_refs in k))
      (t ∷ ts) rest

-- On a surface whose declarations pass the checks that end `build`, and `_require_lowerable` on the
-- expressions that backends lower by default, Kotlin has, for every expression of every declaration,
-- the code that writes it and the code that reads it.
pub kt_codec_exists :
    (kinds : List String) (optional : Bool) (ts : List Decl) (t : Decl) (le : String × Expr)
    (helper src label : String) (depth : ℕ)
    → check_types ts ≡ ok tt
    → require_lowerable kinds lowered_exprs optional ts ≡ ok tt
    → In t ts
    → In le (type_exprs t)
    → (is_ok (kt_encode ts le.1 src depth) ≡ true)
      × (is_ok (kt_decode ts helper le.1 src label depth) ≡ true)
unfolding require_lowerable
kt_codec_exists kinds optional ts t le helper src label depth closed lowerable i j =
    let plain =
      All-In NoBytesIn t ts
        (each_ok-All NoBytesIn _ (λ d k. lowerable-NoBytesIn kinds optional d k) ts lowerable) i in
    let known =
      All-In (λ d. All (λ x. Known ts x.1) (type_exprs d)) t ts (check_types-Known ts closed) i in
    kt_codec_total ts helper le.1 src label depth
      (All-In (λ x. NoBytes x.1) le (type_exprs t) plain j)
      (All-In (λ x. Known ts x.1) le (type_exprs t) known j)
