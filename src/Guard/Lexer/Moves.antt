-- ===== src/Guard/Lexer/Moves.antt =====
-- What each round of the lexer passes.
use Prim.Native.Char.{Char, code}
use lazily_spec.Prelude.{
  ℕ, ◌+◌, String, Bool, true, false, ◌≡◌, refl, sym, ap, ◌∙◌, arith, ◌==◌, nat_eq, Option-cases,
  Bool-cases, inl, inr, some, some_pair,
}
use lazily_spec.Guard.Chars.{
  CharClass, ◌+++◌, newlines, strip, cut, skip_line, skip_string, is_ident_start, is_ident_part,
  span_ident,
}
use lazily_spec.Guard.Chars.Laws.{newlines-append, span_ident_parts}
use lazily_spec.Guard.Lexer.{
  Step, stop, skip, emit, lex_word, is_quote, is_lifetime, lex_quoted, raw_string, lex_raw,
  lex_comment, lex_step,
}
use lazily_spec.Guard.Lexer.Passed.{
  NoBackslash-append, append_assoc, strip-append, cut_append, Passed, skip_line-Passed,
  skip_string-SkippedFrom,
}

-- What a round passes: a token is what stands at the start of the text, without a newline.
unfoldable pub Moves : ℕ → String → Step → Type 0
Moves line text stop = Unit
Moves line text (skip line' rest) = Passed line text line' rest
Moves line text (emit word line' rest) =
    (text ≡ word +++ rest) × (line' ≡ line) × (newlines word ≡ 0)

raw_string-Passed :
    (line : ℕ) (text rest : String) (n : ℕ)
    → raw_string text ≡ some (n, rest)
    → Passed line text (line + n) rest
unfolding raw_string
raw_string-Passed line text rest n h = elim (Option-cases (cut "(" text)) [
  | inl e ↦ cc (rw (e, raw_string) at h)
  | inr ((delimiter, body), e) ↦
      let close : String = ")" +++ delimiter +++ "\"" in
      elim (Option-cases (cut close body)) [
        | inl e' ↦ cc (rw (e, e', raw_string) at h)
        | inr ((inside, after), e') ↦
            let (count, left) = some_pair (rw (e, e', raw_string) at h) in
            let front = cut_append "(" text delimiter body e in
            let back = cut_append close body inside after e' in
            record {
              passed = (delimiter +++ "(") +++ (inside +++ close);
              parts =
                  front
                  ∙ ap (λ r. (delimiter +++ "(") +++ r) back
                  ∙ sym (append_assoc (delimiter +++ "(") (inside +++ close) after)
                  ∙ ap (λ r. ((delimiter +++ "(") +++ (inside +++ close)) +++ r) left;
              counted = λ k. omega (
                arith,
                count,
                newlines-append (delimiter +++ "(") (inside +++ close),
                newlines-append delimiter "(",
                newlines-append inside close,
                newlines-append delimiter "\"",
              );
            }
      ]
]

span_ident-append : (s : String) → s ≡ (span_ident s).0 +++ (span_ident s).1
unfolding span_ident
span_ident-append String.[] = refl
span_ident-append (String.◌∷◌ c s) = elim (Bool-cases (is_ident_part (code c))) [
  | inl e ↦ rw e (ap (λ r. String.◌∷◌ c r) (span_ident-append s))
  | inr e ↦ rw e refl
]

-- A prefix of known text, then more.
after_prefix :
    (p : String) (line line' : ℕ) (text after rest : String)
    → newlines p ≡ 0
    → strip p text ≡ some after
    → Passed line after line' rest
    → Passed line text line' rest
after_prefix p line line' text after rest flat e m = record {
  passed = p +++ m.passed;
  parts =
      strip-append p text after e ∙ ap (λ r. p +++ r) m.parts ∙ sym (append_assoc p m.passed rest);
  counted = λ h.
      omega
        (arith, flat, m.counted (NoBackslash-append p m.passed h).1, newlines-append p m.passed);
}

module _ (cls : CharClass) (rust : Bool) (line : ℕ) (c : Char) (s : String)
    (inline : (code c == 10) ≡ false) where
  word-Moves :
      is_ident_start (code c) ≡ true
      → Moves line (String.◌∷◌ c s) (emit (String.◌∷◌ c (span_ident s).0) line (span_ident s).1)
  unfolding Moves
  word-Moves h =
      let (_, _, flat) = span_ident_parts s in
      (ap (λ r. String.◌∷◌ c r) (span_ident-append s), refl, ground (arith, inline, flat))

  lex_word-Moves : Moves line (String.◌∷◌ c s) (lex_word line c s)
  unfolding lex_word Moves
  lex_word-Moves = elim (Bool-cases (is_ident_start (code c))) [
    | inl word ↦ rw (word, lex_word) (word-Moves word)
    | inr other ↦ elim (Option-cases (strip "=>" (String.◌∷◌ c s))) [
      | inr (rest, arrow) ↦
          rw (other, arrow, lex_word) (strip-append "=>" (String.◌∷◌ c s) rest arrow, refl, refl)
      | inl no_arrow ↦ elim (Option-cases (strip "::" (String.◌∷◌ c s))) [
        | inr (rest, path) ↦
            rw (other, no_arrow, path, lex_word)
              (strip-append "::" (String.◌∷◌ c s) rest path, refl, refl)
        | inl no_path ↦ rw (other, no_arrow, no_path, lex_word) (refl, refl, ground (arith, inline))
      ]
    ]
  ]

  past_string :
      is_quote (code c) ≡ true
      → let (line', rest) = skip_string (code c) false line s in
        Passed line (String.◌∷◌ c s) line' rest
  past_string quoted =
      let more = skip_string-SkippedFrom (code c) false line s (λ e. ground (arith, e, inline)) in
      record {
        passed = String.◌∷◌ c more.passed;
        parts = ap (λ r. String.◌∷◌ c r) more.parts;
        counted = λ (hc, h). ground (arith, inline, more.counted refl h);
      }

  lex_quoted-Moves : Moves line (String.◌∷◌ c s) (lex_quoted cls rust line c s)
  unfolding lex_quoted Moves
  lex_quoted-Moves = elim (Bool-cases (is_lifetime cls rust (code c) s)) [
    | inl life ↦ rw life (refl, refl, ground (arith, inline))
    | inr no_life ↦ elim (Bool-cases (is_quote (code c))) [
      | inl quoted ↦ rw (no_life, quoted) (past_string quoted)
      | inr plain ↦ rw (no_life, plain) lex_word-Moves
    ]
  ]

  lex_raw-Moves : Moves line (String.◌∷◌ c s) (lex_raw cls rust line c s)
  unfolding lex_raw Moves
  lex_raw-Moves = elim (Option-cases (strip "R\"" (String.◌∷◌ c s))) [
    | inl e ↦ rw (e, lex_raw) lex_quoted-Moves
    | inr (after, e) ↦ elim (Option-cases (raw_string after)) [
      | inl e' ↦ rw (e, e', lex_raw) lex_quoted-Moves
      | inr ((n, rest), e') ↦
          rw (e, e', lex_raw)
            (after_prefix "R\"" line (line + n) (String.◌∷◌ c s) after rest refl e
              (raw_string-Passed line after rest n e'))
    ]
  ]

  lex_comment-Moves : Moves line (String.◌∷◌ c s) (lex_comment cls rust line c s)
  unfolding lex_comment Moves
  lex_comment-Moves = elim (Option-cases (strip "//" (String.◌∷◌ c s))) [
    | inr (after, e) ↦
        rw (e, lex_comment)
          (after_prefix "//" line line (String.◌∷◌ c s) after (skip_line after) refl e
            (skip_line-Passed line after))
    | inl e ↦ elim (Option-cases (strip "/*" (String.◌∷◌ c s))) [
      | inl e' ↦ rw (e, e', lex_comment) lex_raw-Moves
      | inr (after, e') ↦ elim (Option-cases (cut "*/" after)) [
        | inl open_end ↦ rw (e, e', open_end, lex_comment) tt
        | inr ((inside, rest), found) ↦
            rw (e, e', found, lex_comment)
              (after_prefix "/*" line (line + newlines inside) (String.◌∷◌ c s) after rest refl e'
                (record {
                  passed = inside +++ "*/";
                  parts = cut_append "*/" after inside rest found;
                  counted = λ h. omega (arith, newlines-append inside "*/");
                }))
      ]
    ]
  ]

module _ (cls : CharClass) (rust : Bool) where
  pub lex_step-Moves :
      (line : ℕ) (c : Char) (s : String) → Moves line (String.◌∷◌ c s) (lex_step cls rust line c s)
  unfolding lex_step Moves
  lex_step-Moves line c s = elim (Bool-cases (code c == 10)) [
    | inl newline ↦
        rw newline (record {
          passed = String.◌∷◌ c "";
          parts = refl;
          counted = λ h. ground (arith, newline);
        })
    | inr other ↦ elim (Bool-cases (cls.is_space c)) [
      | inl space ↦
          rw (other, space)
            (record {
              passed = String.◌∷◌ c "";
              parts = refl;
              counted = λ h. ground (arith, other);
            })
      | inr ink ↦ rw (other, ink) (lex_comment-Moves cls rust line c s other)
    ]
  ]
