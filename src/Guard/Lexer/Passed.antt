-- ===== src/Guard/Lexer/Passed.antt =====
-- What the searches and skips of the lexer pass: pieces of the text, with their newlines.
use Prim.Native.Char.{code}
use lazily_spec.Prelude.{
  ℕ, ◌+◌, String, Bool, true, false, ◌≡◌, ◌≢◌, refl, sym, ap, arith, ◌==◌, nat_eq, nat_beq_iff,
  if◌then◌else◌, Option-cases, Bool-cases, inl, inr, some, some_pair,
}
use lazily_spec.Guard.Chars.{◌+++◌, newlines, strip, cut, skip_line, skip_string}
use lazily_spec.Prelude.Texts.{cons-path}

abbrev pub NoBackslash : String → Type 0
NoBackslash String.[] = Unit
NoBackslash (String.◌∷◌ c s) = (code c ≢ b'\\') × NoBackslash s

pub NoBackslash-append : (s t : String) → NoBackslash (s +++ t) → NoBackslash s × NoBackslash t
NoBackslash-append String.[] t h = (tt, h)
NoBackslash-append (String.◌∷◌ c s) t (hc, h) =
    let (a, b) = NoBackslash-append s t h in ((hc, a), b)

pub append_assoc : (s t u : String) → (s +++ t) +++ u ≡ s +++ (t +++ u)
append_assoc String.[] t u = refl
append_assoc (String.◌∷◌ c s) t u = ap (λ r. String.◌∷◌ c r) (append_assoc s t u)

pub strip-append : (p s r : String) → strip p s ≡ some r → s ≡ p +++ r
unfolding strip
strip-append String.[] s r h = cc
strip-append (String.◌∷◌ p ps) String.[] r h = cc
strip-append (String.◌∷◌ p ps) (String.◌∷◌ c s) r h = elim (Bool-cases (code p == code c)) [
  | inl e ↦
      cons-path c p s (ps +++ r) (sym ((nat_beq_iff (code p) (code c)).0 e))
        (strip-append ps s r (rw e at h))
  | inr e ↦ cc (rw e at h)
]

pub cut_append :
    (needle s before after : String)
    → cut needle s ≡ some (before, after)
    → s ≡ (before +++ needle) +++ after
unfolding cut
cut_append needle String.[] before after h = cc
cut_append needle (String.◌∷◌ c s) before after h =
    elim (Option-cases (strip needle (String.◌∷◌ c s))) [
      | inl e ↦ elim (Option-cases (cut needle s)) [
        | inl none_left ↦ cc (rw (e, none_left, cut) at h)
        | inr ((b, a), found) ↦
            let (same_before, same_after) = some_pair (rw (e, found, cut) at h) in
            let ih = cut_append needle s b a found in
            rw (← same_before, ← same_after) (ap (λ r. String.◌∷◌ c r) ih)
      ]
      | inr (rest, e) ↦
          let (same_before, same_after) = some_pair (rw (e, cut) at h) in
          rw (← same_before, ← same_after) (strip-append needle (String.◌∷◌ c s) rest e)
    ]

-- What was passed from one text to the next, with the newlines in it counted if no backslash is.
pub record Passed (line : ℕ) (text : String) (line' : ℕ) (rest : String) : Type 0 where
  pub passed : String
  pub parts : text ≡ passed +++ rest
  pub counted : NoBackslash passed → line' ≡ line + newlines passed

pub skip_line-Passed : (line : ℕ) (s : String) → Passed line s line (skip_line s)
unfolding skip_line
skip_line-Passed line String.[] = record { passed = ""; parts = refl; counted = λ h. omega arith }
skip_line-Passed line (String.◌∷◌ c s) = elim (Bool-cases (code c == 10)) [
  | inl e ↦ rw e (record { passed = ""; parts = refl; counted = λ h. omega arith })
  | inr e ↦
      let more = skip_line-Passed line s in
      rw e (record {
        passed = String.◌∷◌ c more.passed;
        parts = ap (λ r. String.◌∷◌ c r) more.parts;
        counted = λ (hc, h). ground (arith, e, more.counted h);
      })
]

-- After an escaped character nothing is said of the count.
pub record SkippedFrom (escaped : Bool) (line : ℕ) (text : String) (to : ℕ × String) : Type 0 where
  pub passed : String
  pub parts : text ≡ passed +++ to.1
  pub counted : escaped ≡ false → NoBackslash passed → to.0 ≡ line + newlines passed

pub skip_string-SkippedFrom :
    (quote : ℕ) (escaped : Bool) (line : ℕ) (s : String)
    → quote ≢ 10
    → SkippedFrom escaped line s (skip_string quote escaped line s)
unfolding skip_string
skip_string-SkippedFrom quote escaped line String.[] q = record {
  passed = "";
  parts = refl;
  counted = λ e h. omega arith;
}
skip_string-SkippedFrom quote true line (String.◌∷◌ c s) q =
    let more = skip_string-SkippedFrom quote false line s q in
    record {
      passed = String.◌∷◌ c more.passed;
      parts = ap (λ r. String.◌∷◌ c r) more.parts;
      counted = λ e h. cc;
    }
skip_string-SkippedFrom quote false line (String.◌∷◌ c s) q = elim (Bool-cases (code c == b'\\')) [
  | inl slash ↦
      let more = skip_string-SkippedFrom quote true line s q in
      rw (slash, skip_string)
        (record {
          passed = String.◌∷◌ c more.passed;
          parts = ap (λ r. String.◌∷◌ c r) more.parts;
          counted = λ e (hc, h). absurd (hc ((nat_beq_iff (code c) b'\\').0 slash));
        })
  | inr plain ↦ elim (Bool-cases (code c == quote)) [
    | inl closing ↦
        rw (plain, closing, skip_string)
          (record {
            passed = String.◌∷◌ c "";
            parts = refl;
            counted = λ e h. ground (arith, q, nat_beq_iff (code c) quote);
          })
    | inr other ↦
        let next_line = if code c == 10 then line + 1 else line in
        let more = skip_string-SkippedFrom quote false next_line s q in
        rw (plain, other, skip_string)
          (record {
            passed = String.◌∷◌ c more.passed;
            parts = ap (λ r. String.◌∷◌ c r) more.parts;
            counted = λ e (hc, h). ground (arith, more.counted refl h);
          })
  ]
]
