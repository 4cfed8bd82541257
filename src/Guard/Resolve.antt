-- ===== src/Guard/Resolve.antt =====
-- `_callback_for`, `_definition_call` and `_resolve_named_callback` of
-- scripts/check-assert-with-consumption.py.
use lazily_spec.Prelude.{
  ℕ, zero, suc, ◌+◌, ◌-◌, String, Bool, true, false, not, ◌&&◌, ◌||◌, Option, none, some, List, [],
  ◌∷◌, ◌++◌, ◌==◌, string_eq, nat_eq, ltb, if◌then◌else◌, length, get_elem?, drop, any, contains,
}
use lazily_spec.Prelude.Maybe.{◌>>=◌, ◌>>◌, guard}
use lazily_spec.Guard.Lexer.{Token}
use lazily_spec.Guard.Brackets.{matching, split_top_level}
use lazily_spec.Guard.Callback.{
  Callback, slice, value_at, parameter_from_typed, arrow_callback, dart_block_callback, go_callback,
  cpp_callback, rust_callback, kotlin_callback,
}

-- The bindings that `_scan_c_like` serves.
pub data Binding : Type 0 where
  cpp cs dart go js kt rs : Binding

unfoldable pub call_names : Binding → List String
call_names cpp = "assert_key_with" ∷ "assert_key_with_if_present" ∷ []
call_names cs = "AssertKeyWith" ∷ "TryAssertKeyWith" ∷ "AssertKeyInto" ∷ []
call_names dart = "assertKeyWith" ∷ "assertKeyIfPresent" ∷ []
call_names go = "assertKeyWith" ∷ []
call_names js = "assertKeyWith" ∷ []
call_names kt = "assertKeyWith" ∷ []
call_names rs = "assert_key_with" ∷ "assert_key_if_present" ∷ []

abbrev pub is_rs : Binding → Bool
is_rs rs = true
is_rs _ = false

abbrev or_else : Option Callback → Option Callback → Option Callback
or_else (some c) d = some c
or_else none d = d

-- `a or b` on the shapes of one argument.
callback_in : Binding → List Token → Option Callback
callback_in cpp arg = cpp_callback arg
callback_in go arg = go_callback arg
callback_in rs arg = rust_callback arg
callback_in cs arg = arrow_callback arg
callback_in js arg = arrow_callback arg
callback_in dart arg = or_else (dart_block_callback arg) (arrow_callback arg)
callback_in kt arg = none

abbrev pub callback_index : Binding → ℕ
callback_index cpp = 1
callback_index cs = 1
callback_index dart = 2
callback_index go = 3
callback_index js = 2
callback_index rs = 1
callback_index kt = 0

unfoldable pub callback_for : Binding → List (List Token) → List Token → Option Callback
unfolding callback_in
callback_for kt args trailing = kotlin_callback trailing
callback_for b args trailing = get_elem? args (callback_index b) >>= callback_in b

-- tokens[at - 1].value, or "" at the start
abbrev previous : List Token → ℕ → String
previous tokens zero = ""
previous tokens (suc at) = elim (get_elem? tokens at) [ none ↦ "" | some t ↦ t.value ]

-- lookback & words
abbrev pub looks_back : List Token → ℕ → List String → Bool
looks_back tokens at words = any (λ t. contains words t.value) (slice (at - 6) at tokens)

abbrev pub definition_words : List String
definition_words = "def" ∷ "fn" ∷ "fun" ∷ "func" ∷ "function" ∷ []

unfoldable pub definition_call : Binding → List Token → ℕ → Bool
definition_call cs tokens at = not (previous tokens at == ".")
definition_call cpp tokens at =
    contains ("void" ∷ "bool" ∷ []) (previous tokens at) || looks_back tokens at ("template" ∷ [])
definition_call dart tokens at = contains ("T" ∷ "void" ∷ "dynamic" ∷ []) (previous tokens at)
definition_call _ tokens at = looks_back tokens at definition_words

-- A call's results at each index from `at` on, one for each of `n` indices.
abbrev pub over {ℓ} : {A : Type ℓ} → ℕ → ℕ → (ℕ → List A) → List A
over at zero f = []
over at (suc n) f = f at ++ over (suc at) n f

abbrev pub maybe {ℓ} : {A : Type ℓ} → Option A → List A
maybe none = []
maybe (some a) = a ∷ []

-- `const fold = (want) => { ... }`
js_local : List Token → ℕ → Option Callback
js_local tokens at = do
  guard (not (at == 0) && ltb (at + 2) (length tokens) && value_at tokens (at + 1) "=")
  arrow_callback (drop (at + 2) tokens)

-- `function fold(want) { ... }`
js_function : List Token → ℕ → Option Callback
js_function tokens at = do
  guard (previous tokens at == "function" && value_at tokens (at + 1) "(")
  close ← matching tokens (at + 1)
  guard (ltb (close + 1) (length tokens))
  parameter ← parameter_from_typed (slice (at + 2) close tokens)
  guard (value_at tokens (close + 1) "{")
  body_close ← matching tokens (close + 1)
  some (parameter, slice (close + 2) body_close tokens)

-- A method's body is a block or an expression after an arrow.
cs_body : List Token → ℕ → String → Option Callback
cs_body tokens close parameter =
    if value_at tokens (close + 1) "{"
    then (matching tokens (close + 1) >>= λ body_close.
        some (parameter, slice (close + 2) body_close tokens))
    else if value_at tokens (close + 1) "=>"
    then some (parameter, drop (close + 2) tokens)
    else none

abbrev head_part : List (List Token) → List Token
head_part [] = []
head_part (part ∷ parts) = part

cs_method : List Token → ℕ → Option Callback
unfolding cs_body
cs_method tokens at = do
  guard (value_at tokens (at + 1) "(" && not (previous tokens at == "."))
  close ← matching tokens (at + 1)
  parameter ← parameter_from_typed (head_part (split_top_level (slice (at + 2) close tokens)))
  guard (ltb (close + 1) (length tokens))
  cs_body tokens close parameter

unfoldable pub resolve_named_callback : Binding → String → List Token → List Callback
unfolding js_local js_function cs_method
resolve_named_callback js name tokens = over 0 (length tokens) λ at.
    if value_at tokens at name
    then maybe (js_local tokens at) ++ maybe (js_function tokens at)
    else []
resolve_named_callback cs name tokens =
    over 0 (length tokens) λ at. if value_at tokens at name then maybe (cs_method tokens at) else []
resolve_named_callback _ name tokens = []
