-- ===== src/Wire/Python/Codec.antt =====
-- The Python codecs of an expression exist.
use lazily_spec.Prelude.{
  ℕ, zero, suc, ◌<◌, String, Bool, true, false, Option, none, some, List, ◌≡◌, refl, arith,
  Option-cases, inl, inr,
}
use lazily_spec.Prelude.Maybe.{◌>>=◌}
use lazily_spec.Prelude.Texts.{◌+++◌}
use lazily_spec.Wire.Types.{Expr, text, u64, bool, bytes, ref, nullable, list, Decl}
use lazily_spec.Wire.Names.{at_depth}
use lazily_spec.Wire.Python.{py_alias_target, py_decode, py_encode}

abbrev pub is_some {ℓ} : {A : Type ℓ} → Option A → Bool
is_some none = false
is_some (some a) = true

-- A type without a type inside.
abbrev pub IsScalar : Expr → Type 0
IsScalar (ref name) = ⊥
IsScalar (nullable e) = ⊥
IsScalar (list e) = ⊥
IsScalar _ = Unit

-- Every alias stands for such a type.
abbrev pub ScalarAliases : List Decl → Type 0
ScalarAliases types =
    (name : String) (target : Expr)
    → py_alias_target types (ref name) ≡ some target
    → IsScalar target

-- How deep lists and nullables are nested.
unfoldable pub nesting : Expr → ℕ
nesting (nullable e) = suc (nesting e)
nesting (list e) = suc (nesting e)
nesting _ = 1

then-is_some :
    (o : Option String) (f : String → String)
    → is_some o ≡ true
    → is_some (o >>= λ s. some (f s)) ≡ true
then-is_some none f h = cc
then-is_some (some s) f h = refl

scalar-py_codec :
    (types : List Decl) (f : ℕ) (e : Expr) (src label : String) (depth : ℕ)
    → IsScalar e
    → (is_some (py_decode (suc f) types e src label depth) ≡ true)
      × (is_some (py_encode (suc f) types e src depth) ≡ true)
unfolding py_decode py_encode
scalar-py_codec types f (text least most pattern) src label depth h = (refl, refl)
scalar-py_codec types f u64 src label depth h = (refl, refl)
scalar-py_codec types f bool src label depth h = (refl, refl)
scalar-py_codec types f bytes src label depth h = (refl, refl)
scalar-py_codec types f (ref name) src label depth h = absurd h
scalar-py_codec types f (nullable e) src label depth h = absurd h
scalar-py_codec types f (list e) src label depth h = absurd h

ref-py_codec :
    (types : List Decl) (f : ℕ) (name src label : String) (depth : ℕ)
    → ScalarAliases types
    → (is_some (py_decode (suc (suc f)) types (ref name) src label depth) ≡ true)
      × (is_some (py_encode (suc (suc f)) types (ref name) src depth) ≡ true)
unfolding py_decode py_encode
ref-py_codec types f name src label depth h =
    elim (Option-cases (py_alias_target types (ref name))) [
      | inl e ↦ (rw (e, is_some, py_decode) refl, rw (e, is_some, py_encode) refl)
      | inr (target, e) ↦
          let both = scalar-py_codec types f target src label depth (h name target e) in
          (rw (e, is_some, py_decode) both.0, rw (e, is_some, py_encode) both.1)
    ]

-- Where every alias stands for a type without a type inside, the code that reads a value and the code
-- that writes it exist for every expression, on any fuel above how deep its lists and nullables are
-- nested.
pub py_codec_total :
    (types : List Decl) (fuel : ℕ) (e : Expr) (src label : String) (depth : ℕ)
    → ScalarAliases types
    → nesting e < fuel
    → (is_some (py_decode fuel types e src label depth) ≡ true)
      × (is_some (py_encode fuel types e src depth) ≡ true)
unfolding py_decode py_encode nesting
py_codec_total types zero e src label depth h k = absurd (omega (arith, k))
py_codec_total types (suc fuel) (text least most pattern) src label depth h k = (refl, refl)
py_codec_total types (suc fuel) u64 src label depth h k = (refl, refl)
py_codec_total types (suc fuel) bool src label depth h k = (refl, refl)
py_codec_total types (suc fuel) bytes src label depth h k = (refl, refl)
py_codec_total types (suc zero) (ref name) src label depth h k = absurd (omega (arith, k))
py_codec_total types (suc (suc fuel)) (ref name) src label depth h k =
    ref-py_codec types fuel name src label depth h
py_codec_total types (suc fuel) (nullable e) src label depth h k =
    let both = py_codec_total types fuel e src label depth h (omega (arith, k)) in
    (then-is_some _ _ both.0, then-is_some _ _ both.1)
py_codec_total types (suc fuel) (list e) src label depth h k =
    let both =
      py_codec_total types fuel e (at_depth "item" depth) (label +++ "[]") (suc depth) h
        (omega (arith, k)) in
    (then-is_some _ _ both.0, then-is_some _ _ both.1)
