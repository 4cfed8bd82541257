-- ===== src/Guard/Lexer/Prose.antt =====
-- Comments and string literals leave no token behind.
use Prim.Native.Char.{Char, code}
use lazily_spec.Prelude.{
  ℕ, ◌+◌, ◌≤◌, String, Bool, false, none, some, nat_eq, ◌≡◌, refl, arith, Option-cases, inl, inr,
  ◌≢◌, List, ◌∙◌, ap,
}
use lazily_spec.Guard.Chars.{CharClass, size, ◌+++◌, newlines, strip, cut, skip_line, skip_string}
use lazily_spec.Guard.Chars.Laws.{size-append}
use lazily_spec.Guard.Lexer.{
  Token, skip, lex_step, lex_comment, lex_raw, lex_quoted, is_lifetime, lex_from,
}
use lazily_spec.Guard.Lexer.Runs.{lex_from_fuel}

-- Python's tables count neither a slash nor a quotation mark as white space.
pub record InkClass (cls : CharClass) : Type 0 where
  pub slash : (c : Char) → code c ≡ b'/' → cls.is_space c ≡ false
  pub quote : (c : Char) → code c ≡ 34 → cls.is_space c ≡ false

skip_line-append :
    (body rest : String) → newlines body ≡ 0 → skip_line (body +++ "\n" +++ rest) ≡ "\n" +++ rest
unfolding skip_line
skip_line-append String.[] rest h = refl
skip_line-append (String.◌∷◌ c body) rest h = ground (arith, skip_line-append body rest)

-- Neither a quotation mark nor a backslash.
abbrev pub IsPlain : String → Type 0
IsPlain String.[] = Unit
IsPlain (String.◌∷◌ c s) = (code c ≢ 34) × (code c ≢ b'\\') × IsPlain s

skip_string-append :
    (line : ℕ) (body rest : String)
    → IsPlain body
    → skip_string 34 false line (body +++ "\"" +++ rest) ≡ (line + newlines body, rest)
unfolding skip_string
skip_string-append line String.[] rest h = ground arith
skip_string-append line (String.◌∷◌ c body) rest h =
    ground (arith, skip_string-append line body rest, skip_string-append (line + 1) body rest)

strip_star :
    (c : Char) (body rest : String)
    → strip "*/" (String.◌∷◌ c body) ≡ none
    → strip "*/" (String.◌∷◌ c (body +++ "*/" +++ rest)) ≡ none
unfolding strip
strip_star c String.[] rest h = ground arith
strip_star c (String.◌∷◌ d body) rest h = ground arith

cut-append :
    (body rest : String)
    → cut "*/" body ≡ none
    → cut "*/" (body +++ "*/" +++ rest) ≡ some (body, rest)
unfolding cut
cut-append String.[] rest h = unfold strip in refl
cut-append (String.◌∷◌ c body) rest h = elim (Option-cases (strip "*/" (String.◌∷◌ c body))) [
  | inr (after, e) ↦ cc (rw (e, cut) at h)
  | inl e ↦ elim (Option-cases (cut "*/" body)) [
    | inr ((b, a), e') ↦ cc (rw (e, e', cut) at h)
    | inl e' ↦ rw (strip_star c body rest e, cut-append body rest e', cut)
  ]
]

module _ (cls : CharClass) (ink : InkClass cls) (rust : Bool) where
  -- The tokens of a whole text that starts on `line`.
  abbrev pub tokens_at : ℕ → String → List Token
  tokens_at line s = lex_from cls rust (size s) line s

  comment_step :
      (line : ℕ) (after : String)
      → lex_step cls rust line "/" ("/" +++ after) ≡ skip line (skip_line after)
  unfolding lex_step lex_comment strip
  comment_step line after = rw (ink.slash "/" refl)

  block_step :
      (line : ℕ) (after inside rest : String)
      → cut "*/" after ≡ some (inside, rest)
      → lex_step cls rust line "/" ("*" +++ after) ≡ skip (line + newlines inside) rest
  unfolding lex_step lex_comment strip
  block_step line after inside rest e = rw (ink.slash "/" refl) (rw (e, lex_comment))

  no_lifetime : (s : String) → is_lifetime cls rust 34 s ≡ false
  unfolding is_lifetime
  no_lifetime String.[] = refl
  no_lifetime (String.◌∷◌ d String.[]) = ground arith
  no_lifetime (String.◌∷◌ d (String.◌∷◌ e s)) = ground arith

  string_step :
      (line line' : ℕ) (s rest : String)
      → skip_string 34 false line s ≡ (line', rest)
      → lex_step cls rust line "\"" s ≡ skip line' rest
  unfolding lex_step lex_comment lex_raw lex_quoted strip
  string_step line line' s rest e = rw (ink.quote "\"" refl, no_lifetime s) (rw e)

  round :
      (line : ℕ) (c : Char) (s : String) (line' : ℕ) (rest : String)
      → lex_step cls rust line c s ≡ skip line' rest
      → size rest ≤ size s
      → tokens_at line (String.◌∷◌ c s) ≡ tokens_at line' rest
  unfolding lex_from
  round line c s line' rest e h =
      rw (e, lex_from) (lex_from_fuel cls rust (size s) (size rest) line' rest h (omega arith))

  newline_round :
      (line : ℕ) (rest : String) → tokens_at line ("\n" +++ rest) ≡ tokens_at (line + 1) rest
  unfolding lex_step
  newline_round line rest = round line "\n" rest (line + 1) rest refl (omega arith)

  -- A line comment leaves no token, and the text goes on on the next line. The section's condition
  -- on Python's tables is part of this and of the next two.
  pub lex_line_comment :
      (line : ℕ) (body rest : String)
      → newlines body ≡ 0
      → tokens_at line ("//" +++ body +++ "\n" +++ rest) ≡ tokens_at (line + 1) rest
  lex_line_comment line body rest h =
      round line "/" ("/" +++ body +++ "\n" +++ rest) line ("\n" +++ rest)
        (comment_step line (body +++ "\n" +++ rest) ∙ ap (skip line) (skip_line-append body rest h))
        (omega (arith, size-append body ("\n" +++ rest)))
      ∙ newline_round line rest

  -- A closed block comment leaves no token, and moves the line by its newlines.
  pub lex_block_comment :
      (line : ℕ) (body rest : String)
      → cut "*/" body ≡ none
      → tokens_at line ("/*" +++ body +++ "*/" +++ rest) ≡ tokens_at (line + newlines body) rest
  lex_block_comment line body rest h =
      round line "/" ("*" +++ body +++ "*/" +++ rest) (line + newlines body) rest
        (block_step line (body +++ "*/" +++ rest) body rest (cut-append body rest h))
        (omega (arith, size-append body ("*/" +++ rest)))

  -- A string literal with no quotation mark and no backslash in it leaves no token.
  pub lex_string :
      (line : ℕ) (body rest : String)
      → IsPlain body
      → tokens_at line ("\"" +++ body +++ "\"" +++ rest) ≡ tokens_at (line + newlines body) rest
  lex_string line body rest h =
      round line "\"" (body +++ "\"" +++ rest) (line + newlines body) rest
        (string_step line (line + newlines body) (body +++ "\"" +++ rest) rest
          (skip_string-append line body rest h))
        (omega (arith, size-append body ("\"" +++ rest)))
