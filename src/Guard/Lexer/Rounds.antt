-- ===== src/Guard/Lexer/Rounds.antt =====
-- Every round of the lexer leaves a shorter text, and moves the line by the newlines it passes.
use Prim.Native.Char.{Char, code}
use lazily_spec.Prelude.{
  ℕ, ◌+◌, ◌≤◌, ◌<◌, String, Bool, true, false, ◌≡◌, refl, arith, ◌==◌, nat_eq, Option-cases,
  Bool-cases, inl, inr, some, some_pair, ap,
}
use lazily_spec.Guard.Chars.{
  CharClass, size, ◌+++◌, newlines, strip, cut, skip_string, is_ident_start, span_ident,
}
use lazily_spec.Guard.Chars.Laws.{
  newlines-append, strip_parts, cut_parts, skip_line_parts, skip_string_parts, span_ident_parts,
}
use lazily_spec.Guard.Lexer.{
  Step, stop, skip, emit, lex_word, is_quote, is_lifetime, lex_quoted, raw_string, lex_raw,
  lex_comment, lex_step,
}

-- The text `rest` on `line'` is what is left of the text `text` on `line`.
pub record Within (line : ℕ) (text : String) (line' : ℕ) (rest : String) : Type 0 where
  pub shorter : size rest < size text
  pub forward : line ≤ line'
  pub counted : line' + newlines rest ≤ line + newlines text

abbrev pub Progress : ℕ → String → Step → Type 0
Progress line text stop = Unit
Progress line text (skip line' rest) = Within line text line' rest
Progress line text (emit word line' rest) = Within line text line' rest × (line' ≡ line)

raw_string_parts :
    (text rest : String) (n : ℕ)
    → raw_string text ≡ some (n, rest)
    → (size rest ≤ size text) × (n + newlines rest ≡ newlines text)
unfolding raw_string
raw_string_parts text rest n h = elim (Option-cases (cut "(" text)) [
  | inl e ↦ cc (rw (e, raw_string) at h)
  | inr ((delimiter, body), e) ↦
      let close : String = ")" +++ delimiter +++ "\"" in
      elim (Option-cases (cut close body)) [
        | inl e' ↦ cc (rw (e, e', raw_string) at h)
        | inr ((inside, after), e') ↦
            let (count, left) = some_pair (rw (e, e', raw_string) at h) in
            let (a, b) = cut_parts "(" text delimiter body e in
            let (a', b') = cut_parts close body inside after e' in
            (
              omega (arith, ap size left),
              omega (arith, count, ap newlines left, newlines-append delimiter "\""),
            )
      ]
]

module _ (cls : CharClass) (rust : Bool) (line : ℕ) (c : Char) (s : String) where
  -- Taking a nonempty prefix with no newline in it, and leaving the line.
  stay :
      (p rest : String)
      → strip p (String.◌∷◌ c s) ≡ some rest
      → 0 < size p
      → Within line (String.◌∷◌ c s) line rest
  stay p rest e h =
      let (sizes, lines) = strip_parts p (String.◌∷◌ c s) rest e in
      record { shorter = omega arith; forward = omega arith; counted = omega arith }

  ident_char : is_ident_start (code c) ≡ true → newlines (String.◌∷◌ c s) ≡ newlines s
  unfolding is_ident_start
  ident_char h = ground arith

  one_char : Within line (String.◌∷◌ c s) line s
  one_char = record { shorter = omega arith; forward = omega arith; counted = ground arith }

  word-Progress :
      is_ident_start (code c) ≡ true → Within line (String.◌∷◌ c s) line (span_ident s).1
  word-Progress h =
      let (sizes, lines, _) = span_ident_parts s in
      record { shorter = omega arith; forward = omega arith; counted = omega (arith, ident_char h) }

  lex_word-Progress : Progress line (String.◌∷◌ c s) (lex_word line c s)
  unfolding lex_word
  lex_word-Progress = elim (Bool-cases (is_ident_start (code c))) [
    | inl word ↦ rw (word, lex_word) (word-Progress word, refl)
    | inr other ↦ elim (Option-cases (strip "=>" (String.◌∷◌ c s))) [
      | inr (rest, arrow) ↦ rw (other, arrow, lex_word) (stay "=>" rest arrow (omega arith), refl)
      | inl no_arrow ↦ elim (Option-cases (strip "::" (String.◌∷◌ c s))) [
        | inr (rest, path) ↦
            rw (other, no_arrow, path, lex_word) (stay "::" rest path (omega arith), refl)
        | inl no_path ↦ rw (other, no_arrow, no_path, lex_word) (one_char, refl)
      ]
    ]
  ]

  lex_quoted-Progress : Progress line (String.◌∷◌ c s) (lex_quoted cls rust line c s)
  unfolding lex_quoted
  lex_quoted-Progress = elim (Bool-cases (is_lifetime cls rust (code c) s)) [
    | inl life ↦ rw life (one_char, refl)
    | inr no_life ↦ elim (Bool-cases (is_quote (code c))) [
      | inl quoted ↦ rw (no_life, quoted) (past_string quoted)
      | inr plain ↦ rw (no_life, plain) lex_word-Progress
    ]
  ]
    where
      past_string :
          is_quote (code c) ≡ true
          → let (line', rest) = skip_string (code c) false line s in
            Within line (String.◌∷◌ c s) line' rest
      past_string h =
          let (a, b, d) = skip_string_parts (code c) false line s in
          record { shorter = omega arith; forward = b; counted = ground arith }

  lex_raw-Progress : Progress line (String.◌∷◌ c s) (lex_raw cls rust line c s)
  unfolding lex_raw
  lex_raw-Progress = elim (Option-cases (strip "R\"" (String.◌∷◌ c s))) [
    | inl e ↦ rw (e, lex_raw) lex_quoted-Progress
    | inr (after, e) ↦ elim (Option-cases (raw_string after)) [
      | inl e' ↦ rw (e, e', lex_raw) lex_quoted-Progress
      | inr ((n, rest), e') ↦
          let (a, b) = strip_parts "R\"" (String.◌∷◌ c s) after e in
          let (a', b') = raw_string_parts after rest n e' in
          rw (e, e', lex_raw)
            (record { shorter = omega arith; forward = omega arith; counted = omega arith })
    ]
  ]

  lex_comment-Progress : Progress line (String.◌∷◌ c s) (lex_comment cls rust line c s)
  unfolding lex_comment
  lex_comment-Progress = elim (Option-cases (strip "//" (String.◌∷◌ c s))) [
    | inr (after, e) ↦
        let (a, b) = strip_parts "//" (String.◌∷◌ c s) after e in
        let (a', b') = skip_line_parts after in
        rw (e, lex_comment)
          (record { shorter = omega arith; forward = omega arith; counted = omega arith })
    | inl e ↦ elim (Option-cases (strip "/*" (String.◌∷◌ c s))) [
      | inl e' ↦ rw (e, e', lex_comment) lex_raw-Progress
      | inr (after, e') ↦ elim (Option-cases (cut "*/" after)) [
        | inl open_end ↦ rw (e, e', open_end, lex_comment) tt
        | inr ((inside, rest), found) ↦
            let (a, b) = strip_parts "/*" (String.◌∷◌ c s) after e' in
            let (a', b') = cut_parts "*/" after inside rest found in
            rw (e, e', found, lex_comment)
              (record { shorter = omega arith; forward = omega arith; counted = omega arith })
      ]
    ]
  ]

  -- Each round leaves a shorter text; the line grows by no more than the newlines passed.
  pub lex_step-Progress : Progress line (String.◌∷◌ c s) (lex_step cls rust line c s)
  unfolding lex_step
  lex_step-Progress = elim (Bool-cases (code c == 10)) [
    | inl newline ↦
        rw newline (record { shorter = omega arith; forward = omega arith; counted = ground arith })
    | inr other ↦ elim (Bool-cases (cls.is_space c)) [
      | inl space ↦ rw (other, space) one_char
      | inr ink ↦ rw (other, ink) lex_comment-Progress
    ]
  ]
