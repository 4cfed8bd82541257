-- ===== src/Guard/Scan/FailClosed.antt =====
-- The guard fails closed: it is silent only where each call has a callback that reads its parameter.
use lazily_spec.Prelude.{
  ℕ, zero, suc, ◌+◌, ◌<◌, String, true, Option, none, some, List, [], ◌∷◌, ◌≡◌, refl, arith, length,
  append-eq-nil, get_elem?, Option-cases, inl, inr, ap, string_eq, ◌∙◌,
}
use lazily_spec.Guard.Chars.{CharClass}
use lazily_spec.Guard.Lexer.{Token, lex}
use lazily_spec.Guard.Brackets.{matching}
use lazily_spec.Guard.Callback.{Callback, body_uses}
use lazily_spec.Guard.Resolve.{Binding, is_rs, over}
use lazily_spec.Guard.Scan.{
  is_call, callback_at, verdict, scan_call, scan_token, scan_tokens, scan_c_like,
}

-- Silence over all indices is silence at each.
over-eq-nil {ℓ} :
    {A : Type ℓ} (f : ℕ → List A) (n at i : ℕ) → over at n f ≡ [] → i < n → f (at + i) ≡ []
over-eq-nil f zero at i h lt = absurd (omega arith)
over-eq-nil f (suc n) at zero h lt =
    ap f (omega arith) ∙ (append-eq-nil (f at) (over (suc at) n f) h).0
over-eq-nil f (suc n) at (suc i) h lt =
    ap f (omega arith)
    ∙ over-eq-nil f n (suc at) i (append-eq-nil (f at) (over (suc at) n f) h).1 (omega arith)

-- The call at `at` is closed, and its callback reads the name that is taken for its parameter.
pub record Reads (b : Binding) (tokens : List Token) (at : ℕ) : Type 0 where
  pub close : ℕ
  pub closed : matching tokens (at + 1) ≡ some close
  pub name : String
  pub body : List Token
  pub found : callback_at b tokens at close ≡ some (name, body)
  pub reads : body_uses body name ≡ true

verdict-eq-nil :
    (t : Token) (r : Option Callback)
    → verdict t r ≡ []
    → (c : Callback) × (r ≡ some c) × (body_uses c.1 c.0 ≡ true)
unfolding verdict
verdict-eq-nil t none h = cc
verdict-eq-nil t (some (name, body)) h = ((name, body), refl, ground arith)

scan_call-eq-nil :
    (b : Binding) (tokens : List Token) (at : ℕ) (t : Token)
    → scan_call b tokens at t ≡ []
    → Reads b tokens at
unfolding scan_call
scan_call-eq-nil b tokens at t h = elim (Option-cases (matching tokens (at + 1))) [
  | inl e ↦ cc (rw (e, scan_call) at h)
  | inr (close, e) ↦
      let (c, found, reads) =
        verdict-eq-nil t (callback_at b tokens at close) (rw (e, scan_call) at h) in
      record { close = close; closed = e; name = c.0; body = c.1; found = found; reads = reads }
]

get_elem?_lt {ℓ} :
    {A : Type ℓ} (xs : List A) (i : ℕ) (x : A) → get_elem? xs i ≡ some x → i < length xs
get_elem?_lt [] i x h = cc
get_elem?_lt (y ∷ xs) zero x h = omega arith
get_elem?_lt (y ∷ xs) (suc i) x h = omega (arith, get_elem?_lt xs i x h)

-- Where the scan reports nothing, every call of an assertion is closed and has a callback whose
-- body reads the parameter that it names.
pub scan_tokens_fail_closed :
    (b : Binding) (tokens : List Token) (at : ℕ) (t : Token)
    → scan_tokens b tokens ≡ []
    → get_elem? tokens at ≡ some t
    → is_call b tokens at t ≡ true
    → Reads b tokens at
unfolding scan_tokens scan_token
scan_tokens_fail_closed b tokens at t h here call =
    let silent : scan_token b tokens at ≡ [] =
      ap (λ i. scan_token b tokens i) (omega arith)
      ∙ over-eq-nil (λ i. scan_token b tokens i) (length tokens) 0 at h
          (get_elem?_lt tokens at t here) in
    scan_call-eq-nil b tokens at t (rw (here, scan_token, call) at silent)

-- Where the scan of a text reports nothing, every call of an assertion in it, other than those
-- taken for definitions, is closed and has a callback whose body reads the name that the scan takes
-- for its parameter.
pub scan_c_like_fail_closed :
    (cls : CharClass) (b : Binding) (text : String) (at : ℕ) (t : Token)
    → scan_c_like cls b text ≡ []
    → get_elem? (lex cls (is_rs b) text) at ≡ some t
    → is_call b (lex cls (is_rs b) text) at t ≡ true
    → Reads b (lex cls (is_rs b) text) at
unfolding scan_c_like
scan_c_like_fail_closed cls b text at t h here call =
    scan_tokens_fail_closed b (lex cls (is_rs b) text) at t h here call
