-- ===== src/Guard/Callback.antt =====
-- The callback shapes that scripts/check-assert-with-consumption.py recognises, one per language.
use lazily_spec.Prelude.{
  ℕ, suc, ◌+◌, ◌-◌, String, Bool, true, false, not, ◌&&◌, ◌||◌, Option, none, some, List, [], ◌∷◌,
  ◌==◌, string_eq, nat_eq, if◌then◌else◌, length, get_elem?, take, drop, any, contains,
}
use lazily_spec.Prelude.Maybe.{◌>>=◌, ◌>>◌, guard}
use lazily_spec.Guard.Chars.{is_ident_start, is_ident_part}
use Prim.Native.Char.{code}
use lazily_spec.Guard.Lexer.{Token}
use lazily_spec.Guard.Brackets.{matching, split_top_level}

abbrev pub Callback : Type 0
Callback = String × List Token

-- tokens[a:b]
abbrev pub slice : ℕ → ℕ → List Token → List Token
slice a b tokens = take (b - a) (drop a tokens)

-- tokens[at].value, and whether it is there and equals `v`
abbrev pub value_at : List Token → ℕ → String → Bool
value_at tokens at v = elim (get_elem? tokens at) [ none ↦ false | some t ↦ t.value == v ]

all_ident_part : String → Bool
unfolding is_ident_part
all_ident_part String.[] = true
all_ident_part (String.◌∷◌ c s) = is_ident_part (code c) && all_ident_part s

-- IDENT.fullmatch(v)
unfoldable pub is_ident : String → Bool
unfolding is_ident_start all_ident_part
is_ident String.[] = false
is_ident (String.◌∷◌ c s) = is_ident_start (code c) && all_ident_part s

unfoldable pub identifiers : List Token → List String
unfolding is_ident
identifiers [] = []
identifiers (t ∷ ts) =
    let rest = identifiers ts in if is_ident t.value then t.value ∷ rest else rest

unfoldable pub body_uses : List Token → String → Bool
body_uses body name = any (λ t. t.value == name) body

-- xs[-1]
abbrev last {ℓ} : {A : Type ℓ} → A → List A → A
last x [] = x
last x (y ∷ ys) = last y ys

-- The index of the first token with this value, from the one at `at` on.
unfoldable pub find_from : ℕ → String → List Token → Option ℕ
find_from at v [] = none
find_from at v (t ∷ ts) =
    let rest = find_from (suc at) v ts in if t.value == v then some at else rest

abbrev pub find_value : ℕ → String → List Token → Option ℕ
find_value start v tokens = find_from start v (drop start tokens)

-- A parameter that is only a type: `const Json&`, or one of these words alone.
abbrev type_words : List String
type_words = "Json" ∷ "Value" ∷ "JsonElement" ∷ "dynamic" ∷ "any" ∷ "Object" ∷ []

ends_in_reference : List Token → Bool
ends_in_reference [] = false
ends_in_reference (t ∷ ts) = let v = (last t ts).value in v == "&" || v == "*"

parameter_of : List Token → List String → Option String
parameter_of tokens [] = none
parameter_of tokens (id ∷ ids) = do
  let candidate = last id ids
  guard (not (candidate == "_"))
  guard (not (ends_in_reference tokens))
  guard (not (length ids == 0 && contains type_words candidate))
  some candidate

unfoldable pub parameter_from_typed : List Token → Option String
unfolding identifiers parameter_of ends_in_reference
parameter_from_typed tokens = parameter_of tokens (identifiers tokens)

-- while params and params[0].value in {"async", "("}
drop_async : List Token → List Token
drop_async [] = []
drop_async (t ∷ ts) = let rest = drop_async ts in if t.value == "async" then rest else t ∷ ts

-- The parameters without their parentheses, if they have some.
strip_parens : List Token → Option (List Token)
strip_parens params =
    if value_at params 0 "("
    then (do close ← matching params 0; some (slice 1 close params))
    else some params

unfoldable pub arrow_callback : List Token → Option Callback
unfolding find_from drop_async strip_parens parameter_from_typed matching
arrow_callback tokens = do
  arrow ← find_value 0 "=>" tokens
  params ← strip_parens (drop_async (take arrow tokens))
  name ← parameter_from_typed params
  some (name, drop (arrow + 1) tokens)

unfoldable pub dart_block_callback : List Token → Option Callback
unfolding parameter_from_typed matching
dart_block_callback tokens = do
  guard (value_at tokens 0 "(")
  close ← matching tokens 0
  guard (value_at tokens (close + 1) "{")
  body_close ← matching tokens (close + 1)
  name ← parameter_from_typed (slice 1 close tokens)
  some (name, slice (close + 2) body_close tokens)

-- The first name of a typed field: `want any`.
first_of_two : List String → Option String
first_of_two (name ∷ _ ∷ _) = if name == "_" then none else some name
first_of_two _ = none

-- fields[0]
abbrev first_part : List (List Token) → List Token
first_part [] = []
first_part (part ∷ parts) = part

unfoldable pub go_callback : List Token → Option Callback
unfolding find_from identifiers first_of_two matching split_top_level
go_callback tokens = do
  guard (value_at tokens 0 "func")
  open_paren ← find_value 0 "(" tokens
  close_paren ← matching tokens open_paren
  name ←
      first_of_two
        (identifiers (first_part (split_top_level (slice (open_paren + 1) close_paren tokens))))
  body_open ← find_value (close_paren + 1) "{" tokens
  body_close ← matching tokens body_open
  some (name, slice (body_open + 1) body_close tokens)

unfoldable pub cpp_callback : List Token → Option Callback
unfolding find_from parameter_from_typed matching
cpp_callback tokens = do
  capture ← find_value 0 "[" tokens
  capture_close ← matching tokens capture
  params_open ← find_value (capture_close + 1) "(" tokens
  params_close ← matching tokens params_open
  name ← parameter_from_typed (slice (params_open + 1) params_close tokens)
  body_open ← find_value (params_close + 1) "{" tokens
  body_close ← matching tokens body_open
  some (name, slice (body_open + 1) body_close tokens)

-- ids[0] and ids[-1], unless that is `_` or there is none
abbrev named : String → Option String
named name = if name == "_" then none else some name

abbrev first_named : List String → Option String
first_named [] = none
first_named (id ∷ ids) = named id

abbrev last_named : List String → Option String
last_named [] = none
last_named (id ∷ ids) = named (last id ids)

unfoldable pub rust_callback : List Token → Option Callback
unfolding find_from identifiers
rust_callback tokens = do
  first ← find_value 0 "|" tokens
  second ← find_value (first + 1) "|" tokens
  name ← first_named (identifiers (slice (first + 1) second tokens))
  some (name, drop (second + 1) tokens)

-- The index of the first `-` that a `>` follows.
find_arrow : ℕ → List Token → Option ℕ
find_arrow at [] = none
find_arrow at (t ∷ ts) =
    let rest = find_arrow (suc at) ts in
    if t.value == "-" && value_at ts 0 ">" then some at else rest

kotlin_lambda : List Token → Option Callback
unfolding find_from find_arrow identifiers
kotlin_lambda inner = elim (find_value 0 "=>" inner) [
  | some _ ↦ none
  | none ↦ elim (find_arrow 0 inner) [
    | none ↦ some ("it", inner)
    | some i ↦ last_named (identifiers (take i inner)) >>= λ name. some (name, drop (i + 2) inner)
  ]
]

unfoldable pub kotlin_callback : List Token → Option Callback
unfolding kotlin_lambda matching
kotlin_callback tokens = do
  guard (value_at tokens 0 "{")
  close ← matching tokens 0
  kotlin_lambda (slice 1 close tokens)
