-- ===== src/Guard/Lexer/Runs.antt =====
-- The loop of `_lex` comes to an end on every text: its run as a finite chain of rounds.
use Prim.Native.Char.{Char}
use lazily_spec.Prelude.{ℕ, zero, suc, ◌≤◌, String, Bool, List, [], ◌∷◌, ◌≡◌, refl, ap, arith}
use lazily_spec.Guard.Chars.{CharClass, size}
use lazily_spec.Guard.Lexer.{Token, Step, stop, skip, emit, lex_step, lex_from, lex}
use lazily_spec.Guard.Lexer.Rounds.{Progress, lex_step-Progress}

module _ (cls : CharClass) (rust : Bool) where
  -- From a text on a line, finitely many rounds lead to the end of the text, or to a round that
  -- stops, and these are their tokens.
  pub data Lexes : ℕ → String → List Token → Type 0 where
    at_end : {line : ℕ} → Lexes line "" []
    stopped :
        {line : ℕ} (c : Char) {s : String}
        → lex_step cls rust line c s ≡ stop
        → Lexes line (String.◌∷◌ c s) []
    skipped :
        {line line' : ℕ} (c : Char) {s rest : String} {ts : List Token}
        → lex_step cls rust line c s ≡ skip line' rest
        → Lexes line' rest ts
        → Lexes line (String.◌∷◌ c s) ts
    emitted :
        {line line' : ℕ} (c : Char) {s rest : String} {ts : List Token} (word : String)
        → lex_step cls rust line c s ≡ emit word line' rest
        → Lexes line' rest ts
        → Lexes line (String.◌∷◌ c s) (record { value = word; line = line } ∷ ts)

  -- What `lex_from` does with a round.
  after : ℕ → ℕ → Step → List Token
  after f line stop = []
  after f line (skip line' rest) = lex_from cls rust f line' rest
  after f line (emit word line' rest) =
      record { value = word; line = line } ∷ lex_from cls rust f line' rest

  lex_from-suc :
      (f line : ℕ) (c : Char) (s : String)
      → lex_from cls rust (suc f) line (String.◌∷◌ c s) ≡ after f line (lex_step cls rust line c s)
  unfolding lex_from after
  lex_from-suc f line c s = by_round (lex_step cls rust line c s)
    where
      by_round :
          (r : Step)
          → elim r [
            | stop ↦ []
            | skip line' rest ↦ lex_from cls rust f line' rest
            | emit word line' rest ↦
                record { value = word; line = line } ∷ lex_from cls rust f line' rest
          ]
            ≡ after f line r
      by_round stop = refl
      by_round (skip line' rest) = refl
      by_round (emit word line' rest) = refl

  after_eq :
      (f g line : ℕ) (text : String) (r : Step)
      → Progress line text r
      → ((line' : ℕ) (rest : String)
          → suc (size rest) ≤ size text
          → lex_from cls rust f line' rest ≡ lex_from cls rust g line' rest)
      → after f line r ≡ after g line r
  unfolding after
  after_eq f g line text stop p h = refl
  after_eq f g line text (skip line' rest) p h = h line' rest p.shorter
  after_eq f g line text (emit word line' rest) (p, e) h =
      ap (λ ts. record { value = word; line = line } ∷ ts) (h line' rest p.shorter)

  -- Any two amounts of fuel that are no less than the size of the text give the same tokens.
  pub lex_from_fuel :
      (f g line : ℕ) (s : String)
      → size s ≤ f
      → size s ≤ g
      → lex_from cls rust f line s ≡ lex_from cls rust g line s
  unfolding lex_from
  lex_from_fuel zero zero line s hf hg = refl
  lex_from_fuel zero (suc g) line String.[] hf hg = refl
  lex_from_fuel zero (suc g) line (String.◌∷◌ c s) hf hg = absurd (omega arith)
  lex_from_fuel (suc f) zero line String.[] hf hg = refl
  lex_from_fuel (suc f) zero line (String.◌∷◌ c s) hf hg = absurd (omega arith)
  lex_from_fuel (suc f) (suc g) line String.[] hf hg = refl
  lex_from_fuel (suc f) (suc g) line (String.◌∷◌ c s) hf hg =
      rw (lex_from-suc, lex_from-suc)
        (after_eq f g line (String.◌∷◌ c s) (lex_step cls rust line c s)
          (lex_step-Progress cls rust line c s)
          λ line' rest h. lex_from_fuel f g line' rest (omega arith) (omega arith))

  after-Lexes :
      (f line : ℕ) (c : Char) (s : String) (r : Step)
      → lex_step cls rust line c s ≡ r
      → Progress line (String.◌∷◌ c s) r
      → ((line' : ℕ) (rest : String)
          → size rest ≤ size s
          → Lexes line' rest (lex_from cls rust f line' rest))
      → Lexes line (String.◌∷◌ c s) (after f line r)
  unfolding after
  after-Lexes f line c s stop e p h = stopped c e
  after-Lexes f line c s (skip line' rest) e p h =
      skipped c e (h line' rest (omega (arith, p.shorter)))
  after-Lexes f line c s (emit word line' rest) e (p, same) h =
      emitted c word e (h line' rest (omega (arith, p.shorter)))

  lex_from-Lexes :
      (f line : ℕ) (s : String) → size s ≤ f → Lexes line s (lex_from cls rust f line s)
  unfolding lex_from
  lex_from-Lexes zero line String.[] h = at_end
  lex_from-Lexes zero line (String.◌∷◌ c s) h = absurd (omega arith)
  lex_from-Lexes (suc f) line String.[] h = at_end
  lex_from-Lexes (suc f) line (String.◌∷◌ c s) h = rw lex_from-suc (
      after-Lexes f line c s (lex_step cls rust line c s) refl (lex_step-Progress cls rust line c s)
        λ line' rest k. lex_from-Lexes f line' rest (omega arith))

  -- On every text the loop ends after finitely many rounds, each of which does one step of the lexer
  -- on the text that the round before it left, and their tokens are those that `lex` gives.
  pub lex-Lexes : (text : String) → Lexes 1 text (lex cls rust text)
  unfolding lex
  lex-Lexes text = lex_from-Lexes (size text) 1 text (omega arith)
