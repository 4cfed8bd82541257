-- ===== src/Guard/Chars/Laws.antt =====
-- What searching and skipping keep of the text: its size and its newlines.
use Prim.Native.Char.{code}
use lazily_spec.Prelude.{
  ℕ, ◌+◌, ◌≤◌, String, Bool, true, false, some, nat_eq, ◌≡◌, arith, Option-cases, Bool-cases, inl,
  inr, ◌≢◌, some_pair, ap,
}
use lazily_spec.Guard.Chars.{
  size, ◌+++◌, newlines, strip, cut, skip_line, skip_string, is_ident_part, span_ident,
}

pub newlines-append : (s t : String) → newlines (s +++ t) ≡ newlines s + newlines t
newlines-append String.[] t = omega arith
newlines-append (String.◌∷◌ c s) t = ground (arith, newlines-append s t)

pub size-append : (s t : String) → size (s +++ t) ≡ size s + size t
size-append String.[] t = omega arith
size-append (String.◌∷◌ c s) t = ground (arith, size-append s t)

-- The text is the prefix and the rest, as far as size and newlines go.
pub strip_parts :
    (p s r : String)
    → strip p s ≡ some r
    → (size s ≡ size p + size r) × (newlines s ≡ newlines p + newlines r)
unfolding strip
strip_parts String.[] s r h = ground arith
strip_parts (String.◌∷◌ p ps) String.[] r h = cc
strip_parts (String.◌∷◌ p ps) (String.◌∷◌ c s) r h = ground (arith, strip_parts ps s r)

pub cut_parts :
    (needle s before after : String)
    → cut needle s ≡ some (before, after)
    → (size s ≡ size before + size needle + size after)
      × (newlines s ≡ newlines before + newlines needle + newlines after)
unfolding cut
cut_parts needle String.[] before after h = cc
cut_parts needle (String.◌∷◌ c s) before after h =
    elim (Option-cases (strip needle (String.◌∷◌ c s))) [
      | inl e ↦ elim (Option-cases (cut needle s)) [
        | inl none_left ↦ cc (rw (e, none_left, cut) at h)
        | inr ((b, a), found) ↦
            ground (arith, rw (e, found, cut) at h, cut_parts needle s b a found)
      ]
      | inr (rest, e) ↦
          let (b, a) = some_pair (rw (e, cut) at h) in
          omega (
            arith,
            ap size b,
            ap newlines b,
            ap size a,
            ap newlines a,
            strip_parts needle (String.◌∷◌ c s) rest e,
          )
    ]

pub skip_line_parts :
    (s : String) → (size (skip_line s) ≤ size s) × (newlines (skip_line s) ≡ newlines s)
unfolding skip_line
skip_line_parts String.[] = omega arith
skip_line_parts (String.◌∷◌ c s) = ground (arith, skip_line_parts s)

pub skip_string_parts :
    (quote : ℕ) (escaped : Bool) (line : ℕ) (s : String)
    → let (line', rest) = skip_string quote escaped line s in
      (size rest ≤ size s) × (line ≤ line') × (line' + newlines rest ≤ line + newlines s)
unfolding skip_string
skip_string_parts quote escaped line String.[] = omega arith
skip_string_parts quote true line (String.◌∷◌ c s) =
    ground (arith, skip_string_parts quote false line s)
skip_string_parts quote false line (String.◌∷◌ c s) = ground (
  arith,
  skip_string_parts quote true line s,
  skip_string_parts quote false line s,
  skip_string_parts quote false (line + 1) s,
)

ident_ne_newline : (c : ℕ) → is_ident_part c ≡ true → c ≢ 10
unfolding is_ident_part
ident_ne_newline c h = ground arith

pub span_ident_parts :
    (s : String)
    → let (word, rest) = span_ident s in
      (size s ≡ size word + size rest)
      × (newlines s ≡ newlines word + newlines rest)
      × (newlines word ≡ 0)
unfolding span_ident
span_ident_parts String.[] = omega arith
span_ident_parts (String.◌∷◌ c s) = elim (Bool-cases (is_ident_part (code c))) [
  | inl e ↦ rw e (ground (arith, span_ident_parts s, ident_ne_newline (code c) e))
  | inr e ↦ rw e (omega arith)
]
