-- ===== src/Guard/Zig.antt =====
-- `_zig_definitions` and `_scan_zig` of scripts/check-assert-with-consumption.py.
use lazily_spec.Prelude.{
  ℕ, ◌+◌, String, Bool, false, not, ◌&&◌, Option, none, some, List, [], ◌∷◌, ◌==◌, nat_eq,
  string_eq, if◌then◌else◌, length, get_elem?, ltb, any, contains,
}
use lazily_spec.Prelude.Maybe.{◌>>=◌, ◌>>◌, guard}
use lazily_spec.Guard.Chars.{CharClass}
use lazily_spec.Guard.Lexer.{Token, lex}
use lazily_spec.Guard.Brackets.{matching, split_top_level}
use lazily_spec.Guard.Callback.{slice, value_at, identifiers, body_uses, is_ident, find_value}
use lazily_spec.Guard.Resolve.{over, maybe, looks_back, definition_words}

-- A function: its name, the parameter that takes the fixture value, its body.
pub record Definition : Type 0 where
  pub name : String
  pub parameter : Option String
  pub body : List Token

abbrev last_part : List (List Token) → List Token
last_part [] = []
last_part (part ∷ []) = part
last_part (part ∷ parts) = last_part parts

-- ids[0], unless there is none or it is `_`
abbrev first_parameter : List String → Option String
first_parameter [] = none
first_parameter (id ∷ ids) = if id == "_" then none else some id

definition_at : List Token → ℕ → Option Definition
definition_at tokens at = do
  guard (value_at tokens at "fn" && ltb (at + 2) (length tokens))
  named ← get_elem? tokens (at + 1)
  guard (is_ident named.value && value_at tokens (at + 2) "(")
  close ← matching tokens (at + 2)
  body_open ← find_value (close + 1) "{" tokens
  body_close ← matching tokens body_open
  some (record {
    name = named.value;
    parameter =
        first_parameter (identifiers (last_part (split_top_level (slice (at + 3) close tokens))));
    body = slice (body_open + 1) body_close tokens;
  })

-- All definitions in their order; the source groups them by name.
unfoldable pub zig_definitions : List Token → List Definition
unfolding definition_at
zig_definitions tokens = over 0 (length tokens) (λ at. maybe (definition_at tokens at))

-- definitions.get(name, [])
unfoldable pub named_definitions : String → List Definition → List Definition
named_definitions name [] = []
named_definitions name (d ∷ ds) =
    let rest = named_definitions name ds in if d.name == name then d ∷ rest else rest

pub data ZigError : Type 0 where
  unclosed missing_callback : Token → ZigError
  unresolved unread : Token → String → ZigError

unfoldable pub reads_parameter : Definition → Bool
reads_parameter d = elim d.parameter [ none ↦ false | some p ↦ body_uses d.body p ]

-- callback_ids[-1] if callback_ids else ""
abbrev last_or_empty : List String → String
last_or_empty [] = ""
last_or_empty (id ∷ []) = id
last_or_empty (id ∷ ids) = last_or_empty ids

unfoldable pub judge : Token → String → List Definition → List ZigError
unfolding reads_parameter
judge t name [] = unresolved t name ∷ []
judge t name (d ∷ ds) = if any reads_parameter (d ∷ ds) then [] else unread t name ∷ []

unfoldable pub judge_argument : Token → List Definition → Option (List Token) → List ZigError
unfolding judge named_definitions
judge_argument t definitions none = missing_callback t ∷ []
judge_argument t definitions (some arg) =
    let name = last_or_empty (identifiers arg) in judge t name (named_definitions name definitions)

unfoldable pub zig_token : List Token → List Definition → ℕ → List ZigError
unfolding judge_argument
zig_token tokens definitions at = elim (get_elem? tokens at) [
  | none ↦ []
  | some t ↦
      if contains ("assertKeyWith" ∷ "assertKeyWithOpt" ∷ []) t.value
        && not (looks_back tokens at definition_words)
        && value_at tokens (at + 1) "("
      then elim (matching tokens (at + 1)) [
        | none ↦ unclosed t ∷ []
        | some close ↦
            judge_argument t definitions
              (get_elem? (split_top_level (slice (at + 2) close tokens)) 2)
      ]
      else []
]

unfoldable pub scan_zig : CharClass → String → List ZigError
unfolding zig_token zig_definitions lex
scan_zig cls text =
    let tokens = lex cls false text in
    over 0 (length tokens) (zig_token tokens (zig_definitions tokens))
