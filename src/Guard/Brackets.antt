-- ===== src/Guard/Brackets.antt =====
-- `_matching` and `_split_top_level` of scripts/check-assert-with-consumption.py.
use lazily_spec.Prelude.{
  ℕ, zero, suc, ◌+◌, String, Bool, true, false, Option, none, some, List, [], ◌∷◌, ◌==◌, string_eq,
  if◌then◌else◌, drop,
}
use lazily_spec.Guard.Lexer.{Token}
pub mod Matching
pub mod Parts

-- What OPEN_TO_CLOSE and CLOSE_TO_OPEN say of a token; a closer carries its opener.
pub data Kind : Type 0 where
  opener : Kind
  closer : String → Kind
  other : Kind

unfoldable pub kind : String → Kind
kind v =
    if v == "("
    then opener
    else if v == "["
    then opener
    else if v == "{"
    then opener
    else if v == ")"
    then closer "("
    else if v == "]"
    then closer "["
    else if v == "}"
    then closer "{"
    else other

-- stack[-1] != opener, and stack.pop(): none where the closer does not match.
pub pop : String → List String → Option (List String)
pop o [] = none
pop o (top ∷ stack) = if top == o then some stack else none

-- The loop of `_matching` from the token at `at` on.
pub matching_from : List String → ℕ → List Token → Option ℕ
matching_from stack at [] = none
matching_from stack at (t ∷ ts) = elim (kind t.value) [
  | opener ↦ matching_from (t.value ∷ stack) (suc at) ts
  | other ↦ matching_from stack (suc at) ts
  | closer o ↦ elim (pop o stack) [
    | none ↦ none
    | some [] ↦ some at
    | some (top ∷ below) ↦ matching_from (top ∷ below) (suc at) ts
  ]
]

-- The call of the loop, for the token at `start` and those behind it.
pub matching_at : ℕ → List Token → Option ℕ
unfolding matching_from
matching_at start [] = none
matching_at start (t ∷ ts) = elim (kind t.value) [
  | opener ↦ matching_from (t.value ∷ []) (suc start) ts
  | _ ↦ none
]

-- The index of the bracket that closes the one at `start`.
unfoldable pub matching : List Token → ℕ → Option ℕ
unfolding matching_at matching_from kind pop
matching tokens start = matching_at start (drop start tokens)

-- The stack after a token; a closer that does not match is passed over.
pub restack : String → List String → List String
restack v stack = elim (kind v) [
  | opener ↦ v ∷ stack
  | other ↦ stack
  | closer o ↦ elim (pop o stack) [ some below ↦ below | none ↦ stack ]
]

-- v == "," and not stack
pub is_separator : String → List String → Bool
is_separator v [] = v == ","
is_separator v (top ∷ below) = false

-- The part that is being filled, and the parts after it.
pub split_from : List String → List Token → List Token × List (List Token)
split_from stack [] = ([], [])
split_from stack (t ∷ ts) =
    let (part, parts) = split_from (restack t.value stack) ts in
    if is_separator t.value (restack t.value stack) then ([], part ∷ parts) else (t ∷ part, parts)

unfoldable pub split_top_level : List Token → List (List Token)
unfolding split_from restack is_separator kind pop
split_top_level tokens = let (part, parts) = split_from [] tokens in part ∷ parts
