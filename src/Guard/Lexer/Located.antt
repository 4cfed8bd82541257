-- ===== src/Guard/Lexer/Located.antt =====
-- Where the tokens stand: each is a piece of the text, and its line is the one that it stands on.
use mathlib.Core.Path.{subst}
use lazily_spec.Prelude.{ℕ, ◌+◌, String, Bool, List, ◌≡◌, refl, sym, ap, ◌∙◌, arith, nat_eq, All}
use lazily_spec.Guard.Chars.{CharClass, ◌+++◌, newlines}
use lazily_spec.Guard.Chars.Laws.{newlines-append}
use lazily_spec.Guard.Lexer.{Token, emit, lex}
use lazily_spec.Guard.Lexer.Runs.{Lexes, at_end, stopped, skipped, emitted, lex-Lexes}
use lazily_spec.Guard.Lexer.Passed.{NoBackslash, NoBackslash-append, append_assoc, Passed}
use lazily_spec.Guard.Lexer.Moves.{Moves, lex_step-Moves}

-- The token's value stands in the text, on the line that the token has.
pub record Located (text : String) (t : Token) : Type 0 where
  pub before : String
  pub after : String
  pub parts : text ≡ before +++ (t.value +++ after)
  pub counted : t.line ≡ 1 + newlines before

module _ (cls : CharClass) (rust : Bool) (whole : String) where
  tokens_from :
      (before : String) {line : ℕ} {text : String} {ts : List Token}
      → whole ≡ before +++ text
      → line ≡ 1 + newlines before
      → NoBackslash text
      → Lexes cls rust line text ts
      → All (Located whole) ts
  unfolding Moves
  tokens_from before p q plain at_end = tt
  tokens_from before p q plain (stopped c e) = tt
  tokens_from before {line} p q plain (skipped {line' = next_line} c {s} {rest} e more) =
      let m : Passed line (String.◌∷◌ c s) next_line rest =
        rw e at (lex_step-Moves cls rust line c s) in
      let (passed_plain, rest_plain) =
        NoBackslash-append m.passed rest (subst NoBackslash m.parts plain) in
      tokens_from (before +++ m.passed)
        (p ∙ ap (λ r. before +++ r) m.parts ∙ sym (append_assoc before m.passed rest))
        (omega (arith, q, m.counted passed_plain, newlines-append before m.passed)) rest_plain more
  tokens_from before {line} p q plain (emitted {line' = next_line} c {s} {rest} word e more) =
      let (parts, same, flat) : Moves line (String.◌∷◌ c s) (emit word next_line rest) =
        rw e at (lex_step-Moves cls rust line c s) in
      (
        record {
          before = before;
          after = rest;
          parts = p ∙ ap (λ r. before +++ r) parts;
          counted = q;
        },
        tokens_from (before +++ word)
            (p ∙ ap (λ r. before +++ r) parts ∙ sym (append_assoc before word rest))
            (omega (arith, q, same, flat, newlines-append before word))
            (NoBackslash-append word rest (subst NoBackslash parts plain)).1 more,
      )

-- In a text without a backslash, each token that `lex` gives stands in the text as it is, on the line
-- that it has: one more than the newlines before it, those in comments and strings included.
pub lex-Located :
    (cls : CharClass) (rust : Bool) (text : String)
    → NoBackslash text
    → All (Located text) (lex cls rust text)
lex-Located cls rust text plain =
    tokens_from cls rust text "" refl refl plain (lex-Lexes cls rust text)
