-- ===== src/Guard/Lexer.antt =====
-- `_lex` of scripts/check-assert-with-consumption.py.
pub mod Rounds
pub mod Runs
pub mod Passed
pub mod Moves
pub mod Located
pub mod Prose
use Prim.Native.Char.{Char, code}
use lazily_spec.Prelude.{
  ℕ, zero, suc, ◌+◌, String, Bool, true, false, not, ◌&&◌, ◌||◌, Option, none, some, List, [], ◌∷◌,
  ◌==◌, nat_eq, if◌then◌else◌,
}
use lazily_spec.Guard.Chars.{
  CharClass, size, ◌+++◌, newlines, strip, cut, skip_line, skip_string, is_ident_start, span_ident,
}

pub record Token : Type 0 where
  pub value : String
  pub line : ℕ

-- One round of the loop: it returns, goes on, or goes on after a token.
pub data Step : Type 0 where
  stop : Step
  skip : ℕ → String → Step
  emit : String → ℕ → String → Step

abbrev one : Char → String
one c = String.◌∷◌ c String.[]

-- ch in {'"', "'", "`"}
abbrev pub is_quote : ℕ → Bool
is_quote c = c == 34 || c == 39 || c == 96

-- An identifier, an arrow, a path separator or one character.
lex_word : ℕ → Char → String → Step
lex_word line c s =
    if is_ident_start (code c)
    then (let (word, rest) = span_ident s in emit (String.◌∷◌ c word) line rest)
    else elim (strip "=>" (String.◌∷◌ c s)) [
      | some rest ↦ emit "=>" line rest
      | none ↦ elim (strip "::" (String.◌∷◌ c s)) [
        | some rest ↦ emit "::" line rest
        | none ↦ emit (one c) line s
      ]
    ]

-- The apostrophe of a Rust lifetime: a letter or `_` follows it, and no apostrophe follows that.
is_lifetime : CharClass → Bool → ℕ → String → Bool
is_lifetime cls rust c String.[] = false
is_lifetime cls rust c (String.◌∷◌ d String.[]) =
    rust && c == 39 && (cls.is_alpha d || code d == b'_')
is_lifetime cls rust c (String.◌∷◌ d (String.◌∷◌ e s)) =
    rust && c == 39 && (cls.is_alpha d || code d == b'_') && not (code e == 39)

lex_quoted : CharClass → Bool → ℕ → Char → String → Step
lex_quoted cls rust line c s =
    if is_lifetime cls rust (code c) s
    then emit (one c) line s
    else if is_quote (code c)
    then (let (line', rest) = skip_string (code c) false line s in skip line' rest)
    else lex_word line c s

-- The rest of a C++ raw string after `R"`, with its newlines; none where it is no raw string.
raw_string : String → Option (ℕ × String)
raw_string s = elim (cut "(" s) [
  | none ↦ none
  | some (delimiter, body) ↦ elim (cut (")" +++ delimiter +++ "\"") body) [
    | none ↦ none
    | some (inside, rest) ↦ some (newlines delimiter + newlines inside + newlines delimiter, rest)
  ]
]

lex_raw : CharClass → Bool → ℕ → Char → String → Step
lex_raw cls rust line c s = elim (strip "R\"" (String.◌∷◌ c s)) [
  | none ↦ lex_quoted cls rust line c s
  | some after ↦ elim (raw_string after) [
    | none ↦ lex_quoted cls rust line c s
    | some (n, rest) ↦ skip (line + n) rest
  ]
]

lex_comment : CharClass → Bool → ℕ → Char → String → Step
lex_comment cls rust line c s = elim (strip "//" (String.◌∷◌ c s)) [
  | some after ↦ skip line (skip_line after)
  | none ↦ elim (strip "/*" (String.◌∷◌ c s)) [
    | none ↦ lex_raw cls rust line c s
    | some after ↦ elim (cut "*/" after) [
      | none ↦ stop
      | some (inside, rest) ↦ skip (line + newlines inside) rest
    ]
  ]
]

pub lex_step : CharClass → Bool → ℕ → Char → String → Step
lex_step cls rust line c s =
    if code c == 10
    then skip (line + 1) s
    else if cls.is_space c
    then skip line s
    else lex_comment cls rust line c s

-- The loop; each round leaves a shorter text, so the text's size is fuel enough.
pub lex_from : CharClass → Bool → ℕ → ℕ → String → List Token
lex_from cls rust zero line s = []
lex_from cls rust (suc f) line String.[] = []
lex_from cls rust (suc f) line (String.◌∷◌ c s) = elim (lex_step cls rust line c s) [
  | stop ↦ []
  | skip line' rest ↦ lex_from cls rust f line' rest
  | emit word line' rest ↦ record { value = word; line = line } ∷ lex_from cls rust f line' rest
]

unfoldable pub lex : CharClass → Bool → String → List Token
unfolding lex_from lex_step lex_comment lex_raw raw_string lex_quoted lex_word is_lifetime strip cut
    skip_line skip_string span_ident is_ident_start
lex cls rust text = lex_from cls rust (size text) 1 text
