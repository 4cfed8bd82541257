-- ===== src/Guard/Chars.antt =====
-- The text functions that the lexer calls: searching, skipping and counting, on what is left of the
-- text from the current position on.
pub mod Laws
pub use lazily_spec.Prelude.Texts.{◌+++◌}
use Prim.Native.Char.{Char, code}
use lazily_spec.Prelude.{
  ℕ, ◌+◌, String, Bool, true, false, not, ◌&&◌, ◌||◌, Option, none, some, leb, ◌==◌, nat_eq,
  if◌then◌else◌, suc,
}

-- `str.isspace` and `str.isalpha` of Python's Unicode tables, on one character.
pub record CharClass : Type 0 where
  pub is_space : Char → Bool
  pub is_alpha : Char → Bool

abbrev pub size : String → ℕ
size String.[] = 0
size (String.◌∷◌ c s) = suc (size s)

-- text.count("\n")
abbrev pub newlines : String → ℕ
newlines String.[] = 0
newlines (String.◌∷◌ c s) = if code c == 10 then newlines s + 1 else newlines s

-- What follows `prefix`, if the text starts with it.
unfoldable pub strip : String → String → Option String
strip String.[] s = some s
strip (String.◌∷◌ p ps) String.[] = none
strip (String.◌∷◌ p ps) (String.◌∷◌ c s) =
    let rest = strip ps s in if code p == code c then rest else none

-- The text before and after the first `needle`, as `find` and slicing give them.
unfoldable pub cut : String → String → Option (String × String)
cut needle String.[] = none
cut needle (String.◌∷◌ c s) = elim (strip needle (String.◌∷◌ c s)) [
  | some after ↦ some (String.[], after)
  | none ↦ elim (cut needle s) [
    | some (before, after) ↦ some (String.◌∷◌ c before, after)
    | none ↦ none
  ]
]

-- From the next newline on.
unfoldable pub skip_line : String → String
skip_line String.[] = String.[]
skip_line (String.◌∷◌ c s) = let rest = skip_line s in if code c == 10 then String.◌∷◌ c s else rest

-- Past the closing quote, with the line there. An escaped character is passed over uncounted.
unfoldable pub skip_string : ℕ → Bool → ℕ → String → ℕ × String
skip_string quote escaped line String.[] = (line, String.[])
skip_string quote escaped line (String.◌∷◌ c s) =
    let plain = not escaped && not (code c == b'\\') in
    let rest =
      skip_string quote (not escaped && code c == b'\\')
        (if plain && code c == 10 then line + 1 else line) s in
    if plain && code c == quote then (line, s) else rest

-- [A-Za-z_$]
unfoldable pub is_ident_start : ℕ → Bool
is_ident_start c =
    (leb b'A' c && leb c b'Z') || (leb b'a' c && leb c b'z') || c == b'_' || c == b'$'

-- [A-Za-z0-9_$]
unfoldable pub is_ident_part : ℕ → Bool
unfolding is_ident_start
is_ident_part c = is_ident_start c || (leb b'0' c && leb c b'9')

-- The longest run of identifier characters, and what follows it.
unfoldable pub span_ident : String → String × String
unfolding is_ident_part
span_ident String.[] = (String.[], String.[])
span_ident (String.◌∷◌ c s) =
    let (word, rest) = span_ident s in
    if is_ident_part (code c) then (String.◌∷◌ c word, rest) else (String.[], String.◌∷◌ c s)
