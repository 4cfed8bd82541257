-- ===== src/Guard/Brackets/Matching.antt =====
-- `_matching` finds the closing bracket exactly where the tokens between are balanced.
use text.Mathlib.TextPositions.{eq_refl}
use lazily_spec.Prelude.{
  ℕ, zero, suc, ◌+◌, ◌≤◌, String, some, List, [], ◌∷◌, ◌++◌, append_assoc, ◌≡◌, refl, sym, ap,
  string_eq, eq_iff, arith, length, length-append, drop, ◌∙◌, ◌↔◌, ◌⊎◌, inl, inr,
}
use lazily_spec.Guard.Lexer.{Token}
use lazily_spec.Guard.Brackets.{
  Kind, opener, closer, other, kind, pop, matching_from, matching_at, matching,
}

-- Token sequences in which every bracket is closed by its partner.
pub data Balanced : List Token → Type 0 where
  none_left : Balanced []
  plain : (t : Token) {ts : List Token} → kind t.value ≡ other → Balanced ts → Balanced (t ∷ ts)
  group :
      (t c : Token) {inner ts : List Token}
      → kind t.value ≡ opener
      → Balanced inner
      → kind c.value ≡ closer t.value
      → Balanced ts
      → Balanced (t ∷ (inner ++ c ∷ ts))

pop_top : (v : String) (stack : List String) → pop v (v ∷ stack) ≡ some stack
unfolding pop
pop_top v stack = rw (eq_refl v)

pop-eq-some :
    (o top : String) (stack rest : List String)
    → pop o (top ∷ stack) ≡ some rest
    → (top ≡ o) × (stack ≡ rest)
unfolding pop
pop-eq-some o top stack rest h = ground (arith, eq_iff top o)

module _ (stack : List String) (at : ℕ) (t : Token) (ts : List Token) where
  open_step :
      kind t.value ≡ opener
      → matching_from stack at (t ∷ ts) ≡ matching_from (t.value ∷ stack) (suc at) ts
  unfolding matching_from
  open_step e = rw (e, matching_from)

  plain_step :
      kind t.value ≡ other → matching_from stack at (t ∷ ts) ≡ matching_from stack (suc at) ts
  unfolding matching_from
  plain_step e = rw (e, matching_from)

close_step :
    (v w : String) (stack : List String) (at : ℕ) (t : Token) (ts : List Token)
    → kind t.value ≡ closer v
    → matching_from (v ∷ w ∷ stack) at (t ∷ ts) ≡ matching_from (w ∷ stack) (suc at) ts
unfolding matching_from
close_step v w stack at t ts e = rw (e, matching_from) (rw (pop_top, matching_from))

-- Balanced tokens leave the stack as they found it.
matching_from-Balanced :
    (w : String) (stack : List String) (at : ℕ) {inner : List Token} (rest : List Token)
    → Balanced inner
    → matching_from (w ∷ stack) at (inner ++ rest)
      ≡ matching_from (w ∷ stack) (at + length inner) rest
matching_from-Balanced w stack at rest none_left =
    ap (λ i. matching_from (w ∷ stack) i rest) (omega arith)
matching_from-Balanced w stack at rest (plain t {ts} e b) =
    plain_step (w ∷ stack) at t (ts ++ rest) e
    ∙ matching_from-Balanced w stack (suc at) rest b
    ∙ ap (λ i. matching_from (w ∷ stack) i rest) (omega arith)
matching_from-Balanced w stack at rest (group t c {inner} {ts} e b e' b') = rw append_assoc (
    open_step (w ∷ stack) at t (inner ++ c ∷ (ts ++ rest)) e
    ∙ matching_from-Balanced t.value (w ∷ stack) (suc at) (c ∷ (ts ++ rest)) b
    ∙ close_step t.value w stack (suc at + length inner) c (ts ++ rest) e'
    ∙ matching_from-Balanced w stack (suc (suc at + length inner)) rest b'
    ∙ ap (λ i. matching_from (w ∷ stack) i rest) (omega (arith, length-append inner (c ∷ ts))))

last_close :
    (v : String) (at : ℕ) (t : Token) (ts : List Token)
    → kind t.value ≡ closer v
    → matching_from (v ∷ []) at (t ∷ ts) ≡ some at
unfolding matching_from
last_close v at t ts e = rw (e, matching_from) (rw (pop_top, matching_from))

-- What the loop does once the top of its stack is closed at `i`, with `rest` to come.
abbrev After : List String → ℕ → List Token → ℕ → Type 0
After [] i rest e = e ≡ i
After (w ∷ stack) i rest e = matching_from (w ∷ stack) (suc i) rest ≡ some e

-- The tokens up to the one that closes `s`, and what the loop does then.
record Closing (s : String) (stack : List String) (at : ℕ) (ts : List Token) (e : ℕ) : Type 0 where
  inner : List Token
  close : Token
  rest : List Token
  parts : ts ≡ inner ++ close ∷ rest
  balanced : Balanced inner
  closes : kind close.value ≡ closer s
  after : After stack (at + length inner) rest e

kind_cases : (k : Kind) → (k ≡ opener) ⊎ (k ≡ other) ⊎ ((o : String) × (k ≡ closer o))
kind_cases opener = inl refl
kind_cases other = inr (inl refl)
kind_cases (closer o) = inr (inr (o, refl))

close_found :
    (s o : String) (stack : List String) (at : ℕ) (t : Token) (ts : List Token) (e : ℕ)
    → kind t.value ≡ closer o
    → matching_from (s ∷ stack) at (t ∷ ts) ≡ some e
    → (o ≡ s) × After stack at ts e
unfolding matching_from pop
close_found s o [] at t ts e k h = ground (arith, rw (k, matching_from) at h, eq_iff s o)
close_found s o (w ∷ stack) at t ts e k h = ground (arith, rw (k, matching_from) at h, eq_iff s o)

After-index :
    (stack : List String) (i j : ℕ) (rest : List Token) (e : ℕ)
    → i ≡ j
    → After stack i rest e
    → After stack j rest e
After-index stack i j rest e p a = rw p at a

matching_from-Closing :
    (n : ℕ) (s : String) (stack : List String) (at : ℕ) (ts : List Token) (e : ℕ)
    → length ts ≤ n
    → matching_from (s ∷ stack) at ts ≡ some e
    → Closing s stack at ts e
matching_from-Closing n s stack at [] e le h = unfold matching_from in cc
matching_from-Closing zero s stack at (t ∷ ts) e le h = absurd (omega arith)
matching_from-Closing (suc n) s stack at (t ∷ ts) e le h = elim (kind_cases (kind t.value)) [
  | inr (inl k) ↦
      let r =
        matching_from-Closing n s stack (suc at) ts e (omega arith)
          (sym (plain_step (s ∷ stack) at t ts k) ∙ h) in
      record {
        inner = t ∷ r.inner;
        close = r.close;
        rest = r.rest;
        parts = ap (λ xs. t ∷ xs) r.parts;
        balanced = plain t k r.balanced;
        closes = r.closes;
        after = After-index stack _ _ r.rest e (omega arith) r.after;
      }
  | inr (inr (o, k)) ↦
      let (same, a) = close_found s o stack at t ts e k h in
      record {
        inner = [];
        close = t;
        rest = ts;
        parts = refl;
        balanced = none_left;
        closes = k ∙ ap closer same;
        after = After-index stack at _ ts e (omega arith) a;
      }
  | inl k ↦
      let r =
        matching_from-Closing n t.value (s ∷ stack) (suc at) ts e (omega arith)
          (sym (open_step (s ∷ stack) at t ts k) ∙ h) in
      let q =
        matching_from-Closing n s stack (suc (suc at + length r.inner)) r.rest e
          (omega (arith, ap length r.parts, length-append r.inner (r.close ∷ r.rest))) r.after in
      record {
        inner = t ∷ (r.inner ++ r.close ∷ q.inner);
        close = q.close;
        rest = q.rest;
        parts = rw (append_assoc, ← q.parts) (ap (λ xs. t ∷ xs) r.parts);
        balanced = group t r.close k r.balanced r.closes q.balanced;
        closes = q.closes;
        after =
            After-index stack _ _ q.rest e
              (omega (arith, length-append r.inner (r.close ∷ q.inner))) q.after;
      }
]

-- The bracket at `start` is closed at `end`, with balanced tokens between.
pub record Encloses (tokens : List Token) (start end : ℕ) : Type 0 where
  pub before : List Token
  pub opening : Token
  pub inner : List Token
  pub closing : Token
  pub rest : List Token
  pub parts : tokens ≡ before ++ opening ∷ (inner ++ closing ∷ rest)
  pub at_start : length before ≡ start
  pub opens : kind opening.value ≡ opener
  pub balanced : Balanced inner
  pub closes : kind closing.value ≡ closer opening.value
  pub at_end : end ≡ start + 1 + length inner

drop_prefix : (before ts : List Token) → drop (length before) (before ++ ts) ≡ ts
drop_prefix [] ts = refl
drop_prefix (t ∷ before) ts = drop_prefix before ts

-- The tokens before `start`, where there is one at `start`.
prefix_of :
    (tokens : List Token) (start : ℕ) (t : Token) (ts : List Token)
    → drop start tokens ≡ t ∷ ts
    → (before : List Token) × (tokens ≡ before ++ t ∷ ts) × (length before ≡ start)
prefix_of tokens zero t ts h = ([], h, refl)
prefix_of [] (suc start) t ts h = cc
prefix_of (x ∷ tokens) (suc start) t ts h =
    let (before, p, l) = prefix_of tokens start t ts h in
    (x ∷ before, ap (λ xs. x ∷ xs) p, ap suc l)

matching_at-Encloses :
    (tokens : List Token) (start end : ℕ) (left : List Token)
    → drop start tokens ≡ left
    → matching_at start left ≡ some end
    → Encloses tokens start end
unfolding matching_at
matching_at-Encloses tokens start end [] d h = cc
matching_at-Encloses tokens start end (t ∷ ts) d h = elim (kind_cases (kind t.value)) [
  | inr (inl k) ↦ cc (rw (k, matching_at) at h)
  | inr (inr (o, k)) ↦ cc (rw (k, matching_at) at h)
  | inl k ↦
      let (before, p, l) = prefix_of tokens start t ts d in
      let r =
        matching_from-Closing (length ts) t.value [] (suc start) ts end (omega arith)
          (rw (k, matching_at) at h) in
      record {
        before = before;
        opening = t;
        inner = r.inner;
        closing = r.close;
        rest = r.rest;
        parts = rw (← r.parts) p;
        at_start = l;
        opens = k;
        balanced = r.balanced;
        closes = r.closes;
        at_end = omega (arith, r.after);
      }
]

Encloses-matching_at :
    (tokens : List Token) (start end : ℕ)
    → Encloses tokens start end
    → matching_at start (drop start tokens) ≡ some end
unfolding matching_at
Encloses-matching_at tokens start end r =
    rw (r.parts, ← r.at_start, drop_prefix)
      (rw (r.opens, matching_at)
        (matching_from-Balanced r.opening.value [] (suc (length r.before)) (r.closing ∷ r.rest)
            r.balanced
          ∙ last_close r.opening.value (suc (length r.before) + length r.inner) r.closing r.rest
              r.closes
          ∙ ap some (omega (arith, r.at_end, r.at_start))))

-- `_matching` answers an index exactly where the token at `start` is an opening bracket and the
-- index is that of the bracket that closes it, with only balanced tokens between.
pub matching_iff :
    (tokens : List Token) (start end : ℕ)
    → (matching tokens start ≡ some end) ↔ Encloses tokens start end
unfolding matching
matching_iff tokens start end = (
  matching_at-Encloses tokens start end (drop start tokens) refl,
  Encloses-matching_at tokens start end,
)
