-- ===== src/Guard/Scan.antt =====
-- `_scan_c_like` of scripts/check-assert-with-consumption.py.
use lazily_spec.Prelude.{
  ℕ, suc, ◌+◌, String, Bool, true, false, not, ◌&&◌, Option, none, some, List, [], ◌∷◌, ◌==◌,
  nat_eq, if◌then◌else◌, length, get_elem?, all, contains, string_eq,
}
use lazily_spec.Prelude.Maybe.{◌>>=◌, ◌>>◌, guard}
use lazily_spec.Guard.Chars.{CharClass}
use lazily_spec.Guard.Lexer.{Token, lex}
use lazily_spec.Guard.Brackets.{matching, split_top_level}
use lazily_spec.Guard.Callback.{Callback, slice, value_at, identifiers, body_uses}
use lazily_spec.Guard.Resolve.{
  Binding, js, cs, kt, rs, cpp, dart, go, call_names, is_rs, callback_for, callback_index,
  definition_call, resolve_named_callback, over,
}
pub mod FailClosed

-- The diagnostics, without the path that each message begins with.
pub data ScanError : Type 0 where
  unclosed : Token → ScanError
  unnamed : Token → ScanError
  unread : Token → String → ScanError

-- A call of one of the assertion's names that is no definition of it.
unfoldable pub is_call : Binding → List Token → ℕ → Token → Bool
unfolding call_names definition_call
is_call b tokens at t =
    contains (call_names b) t.value
    && not (definition_call b tokens at)
    && value_at tokens (at + 1) "("

-- The block behind a Kotlin call.
unfoldable pub trailing_of : Binding → List Token → ℕ → List Token
trailing_of kt tokens close =
    elim (guard (value_at tokens (close + 1) "{") >> matching tokens (close + 1)) [
      | none ↦ []
      | some end ↦ slice (close + 1) (end + 1) tokens
    ]
trailing_of _ tokens close = []

-- candidates[0], where there is one and each of them reads its parameter
all_reading : List Callback → Option Callback
all_reading [] = none
all_reading (c ∷ rest) = if all (λ d. body_uses d.1 d.0) (c ∷ rest) then some c else none

only_one : List String → Option String
only_one (id ∷ []) = some id
only_one _ = none

-- The callback that an argument names.
unfoldable pub named_callback : Binding → List (List Token) → List Token → Option Callback
unfolding all_reading only_one
named_callback b args tokens = do
  arg ← get_elem? args (callback_index b)
  name ← only_one (identifiers arg)
  all_reading (resolve_named_callback b name tokens)

abbrev resolves : Binding → Bool
resolves cs = true
resolves js = true
resolves _ = false

unfoldable pub callback_at : Binding → List Token → ℕ → ℕ → Option Callback
callback_at b tokens at close =
    let args = split_top_level (slice (at + 2) close tokens) in
    elim (callback_for b args (trailing_of b tokens close)) [
      | some c ↦ some c
      | none ↦ if resolves b then named_callback b args tokens else none
    ]

unfoldable pub verdict : Token → Option Callback → List ScanError
verdict t none = unnamed t ∷ []
verdict t (some (name, body)) = if body_uses body name then [] else unread t name ∷ []

unfoldable pub scan_call : Binding → List Token → ℕ → Token → List ScanError
unfolding verdict
scan_call b tokens at t = elim (matching tokens (at + 1)) [
  | none ↦ unclosed t ∷ []
  | some close ↦ verdict t (callback_at b tokens at close)
]

-- One round of the loop over the tokens.
unfoldable pub scan_token : Binding → List Token → ℕ → List ScanError
unfolding scan_call
scan_token b tokens at = elim (get_elem? tokens at) [
  | none ↦ []
  | some t ↦ if is_call b tokens at t then scan_call b tokens at t else []
]

unfoldable pub scan_tokens : Binding → List Token → List ScanError
unfolding scan_token
scan_tokens b tokens = over 0 (length tokens) (scan_token b tokens)

unfoldable pub scan_c_like : CharClass → Binding → String → List ScanError
unfolding scan_tokens lex
scan_c_like cls b text = scan_tokens b (lex cls (is_rs b) text)
