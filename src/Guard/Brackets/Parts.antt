-- ===== src/Guard/Brackets/Parts.antt =====
-- `_split_top_level` cuts an argument list at its outer commas and nowhere else.
use text.Mathlib.TextPositions.{eq_refl}
use lazily_spec.Prelude.{
  String, false, List, [], ◌∷◌, ◌++◌, append_assoc, append-nil, ◌≡◌, ◌≢◌, refl, sym, ap, string_eq,
  eq_iff, arith, ◌∙◌, All,
}
use lazily_spec.Guard.Lexer.{Token}
use lazily_spec.Guard.Brackets.{
  opener, closer, other, kind, pop, restack, is_separator, split_from, split_top_level,
}
use lazily_spec.Guard.Brackets.Matching.{Balanced, none_left, plain, group}

-- One argument: balanced tokens with no comma outside brackets.
pub data Argument : List Token → Type 0 where
  nothing : Argument []
  word :
      (t : Token) {ts : List Token}
      → kind t.value ≡ other
      → t.value ≢ ","
      → Argument ts
      → Argument (t ∷ ts)
  bracket :
      (t c : Token) {inner ts : List Token}
      → kind t.value ≡ opener
      → Balanced inner
      → kind c.value ≡ closer t.value
      → Argument ts
      → Argument (t ∷ (inner ++ c ∷ ts))

-- `front` goes to the part that is being filled.
onto : List Token → List Token × List (List Token) → List Token × List (List Token)
onto front (part, parts) = (front ++ part, parts)

module _ (v : String) (stack : List String) where
  restack_opener : kind v ≡ opener → restack v stack ≡ v ∷ stack
  unfolding restack
  restack_opener e = rw (e, restack)

  restack_other : kind v ≡ other → restack v stack ≡ stack
  unfolding restack
  restack_other e = rw (e, restack)

restack_closer :
    (v o : String) (stack : List String) → kind v ≡ closer o → restack v (o ∷ stack) ≡ stack
unfolding restack pop
restack_closer v o stack e = rw (e, restack) (rw (eq_refl o))

inside : (v w : String) (stack : List String) → is_separator v (w ∷ stack) ≡ false
unfolding is_separator
inside v w stack = refl

not_separator : (v : String) (stack : List String) → v ≢ "," → is_separator v stack ≡ false
unfolding is_separator
not_separator v [] h = ground (arith, eq_iff v ",")
not_separator v (w ∷ stack) h = refl

kept :
    (stack below : List String) (t : Token) (ts : List Token)
    → restack t.value stack ≡ below
    → is_separator t.value below ≡ false
    → split_from stack (t ∷ ts) ≡ onto (t ∷ []) (split_from below ts)
unfolding split_from onto
kept stack below t ts e h = rw (e, h)

comma_other : kind "," ≡ other
unfolding kind
comma_other = refl

closer-ne-comma : (v o : String) → kind v ≡ closer o → v ≢ ","
closer-ne-comma v o e h = cc (e, ap kind h, comma_other)

onto-onto :
    (a b : List Token) (r : List Token × List (List Token)) → onto a (onto b r) ≡ onto (a ++ b) r
unfolding onto
onto-onto a b (part, parts) = rw append_assoc

group_onto :
    (t c : Token) (inner ts : List Token) (r : List Token × List (List Token))
    → onto (t ∷ []) (onto inner (onto (c ∷ []) (onto ts r))) ≡ onto (t ∷ (inner ++ c ∷ ts)) r
group_onto t c inner ts r = simp onto-onto

split_from-Balanced :
    (w : String) (stack : List String) {inner : List Token} (rest : List Token)
    → Balanced inner
    → split_from (w ∷ stack) (inner ++ rest) ≡ onto inner (split_from (w ∷ stack) rest)
unfolding onto
split_from-Balanced w stack rest none_left = refl
split_from-Balanced w stack rest (plain t {ts} e b) =
    kept (w ∷ stack) (w ∷ stack) t (ts ++ rest) (restack_other t.value (w ∷ stack) e)
      (inside t.value w stack)
    ∙ ap (onto (t ∷ [])) (split_from-Balanced w stack rest b)
split_from-Balanced w stack rest (group t c {inner} {ts} e b e' b') = rw append_assoc (
    kept (w ∷ stack) (t.value ∷ w ∷ stack) t (inner ++ c ∷ (ts ++ rest))
      (restack_opener t.value (w ∷ stack) e) (inside t.value t.value (w ∷ stack))
    ∙ ap (onto (t ∷ [])) (
        split_from-Balanced t.value (w ∷ stack) (c ∷ (ts ++ rest)) b
        ∙ ap (onto inner) (
            kept (t.value ∷ w ∷ stack) (w ∷ stack) c (ts ++ rest)
              (restack_closer c.value t.value (w ∷ stack) e') (inside c.value w stack)
            ∙ ap (onto (c ∷ [])) (split_from-Balanced w stack rest b')))
    ∙ group_onto t c inner ts (split_from (w ∷ stack) rest))

-- An argument ends where the text ends, or at the comma that follows it.
split_from-Argument :
    {front : List Token} (rest : List Token)
    → Argument front
    → split_from [] (front ++ rest) ≡ onto front (split_from [] rest)
unfolding onto
split_from-Argument rest nothing = refl
split_from-Argument rest (word t {ts} e h a) =
    kept [] [] t (ts ++ rest) (restack_other t.value [] e) (not_separator t.value [] h)
    ∙ ap (onto (t ∷ [])) (split_from-Argument rest a)
split_from-Argument rest (bracket t c {inner} {ts} e b e' a) = rw append_assoc (
    kept [] (t.value ∷ []) t (inner ++ c ∷ (ts ++ rest)) (restack_opener t.value [] e)
      (inside t.value t.value [])
    ∙ ap (onto (t ∷ [])) (
        split_from-Balanced t.value [] (c ∷ (ts ++ rest)) b
        ∙ ap (onto inner) (
            kept (t.value ∷ []) [] c (ts ++ rest) (restack_closer c.value t.value [] e')
              (not_separator c.value [] (closer-ne-comma c.value t.value e'))
            ∙ ap (onto (c ∷ [])) (split_from-Argument rest a)))
    ∙ group_onto t c inner ts (split_from [] rest))

comma_step :
    (t : Token) (ts : List Token)
    → t.value ≡ ","
    → split_from [] (t ∷ ts) ≡ ([], (split_from [] ts).0 ∷ (split_from [] ts).1)
unfolding split_from is_separator
comma_step t ts e = rw (e, restack_other "," [] comma_other)

-- Arguments with a comma token between each two, as they stand in a call.
abbrev pub listed : Token → List Token → List (List Token) → List Token
listed comma front [] = front
listed comma front (arg ∷ args) = front ++ comma ∷ listed comma arg args

front_only : (front : List Token) → onto front (split_from [] []) ≡ (front, [])
unfolding onto split_from
front_only front = rw append-nil

split_from-listed :
    (comma : Token) (front : List Token) (args : List (List Token))
    → comma.value ≡ ","
    → Argument front
    → All Argument args
    → split_from [] (listed comma front args) ≡ (front, args)
unfolding onto
split_from-listed comma front [] e a h =
    ap (split_from []) (sym (append-nil front)) ∙ split_from-Argument [] a ∙ front_only front
split_from-listed comma front (arg ∷ args) e a (b, h) =
    split_from-Argument (comma ∷ listed comma arg args) a
    ∙ ap (onto front) (
        comma_step comma (listed comma arg args) e
        ∙ ap (λ r. ([], r.0 ∷ r.1)) (split_from-listed comma arg args e b h))
    ∙ ap (λ xs. (xs, arg ∷ args)) (append-nil front)

-- A call's arguments, each balanced and without outer commas, come out one by one, as they are.
pub split_top_level-listed :
    (comma : Token) (first : List Token) (args : List (List Token))
    → comma.value ≡ ","
    → Argument first
    → All Argument args
    → split_top_level (listed comma first args) ≡ first ∷ args
unfolding split_top_level
split_top_level-listed comma first args e a h =
    ap (λ r. r.0 ∷ r.1) (split_from-listed comma first args e a h)
