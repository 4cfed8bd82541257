-- ===== src/Stores/Sound/Words.antt =====
-- What the search for an identifier finds.
use Prim.Native.Char.{code}
use lazily_spec.Prelude.{
  String, Bool, true, false, not, ◌&&◌, ◌≡◌, ◌↔◌, refl, sym, arith, nat_eq, nat_beq_iff, Bool-cases,
  inl, inr,
}
use lazily_spec.Prelude.Texts.{◌+++◌, cons-path}
use lazily_spec.Stores.Identifier.{is_word, ends_there, identifier_from, has_identifier}

-- Whether the text begins with a word character.
abbrev pub starts_word : String → Bool
starts_word String.[] = false
starts_word (String.◌∷◌ c s) = is_word c

-- Whether a word character stands at the end of the text, given whether one stands before it.
abbrev pub ends_word : Bool → String → Bool
ends_word in_word String.[] = in_word
ends_word in_word (String.◌∷◌ c s) = ends_word (is_word c) s

-- The name stands in the text with no word character beside it.
pub record Occurs (in_word : Bool) (text name : String) : Type 0 where
  pub before : String
  pub after : String
  pub parts : text ≡ before +++ name +++ after
  pub clear_before : ends_word in_word before ≡ false
  pub clear_after : starts_word after ≡ false

ends_there-after :
    (name s : String)
    → ends_there name s ≡ true
    → (after : String) × (s ≡ name +++ after) × (starts_word after ≡ false)
unfolding ends_there
ends_there-after String.[] String.[] h = (String.[], refl, refl)
ends_there-after String.[] (String.◌∷◌ c s) h = (String.◌∷◌ c s, refl, ground arith)
ends_there-after (String.◌∷◌ p ps) String.[] h = cc
ends_there-after (String.◌∷◌ p ps) (String.◌∷◌ c s) h =
    let (after, e, w) = ends_there-after ps s (ground arith) in
    (
      after,
      cons-path c p s (ps +++ after) (sym ((nat_beq_iff (code p) (code c)).0 (ground arith))) e,
      w,
    )

after-ends_there :
    (name after : String) → starts_word after ≡ false → ends_there name (name +++ after) ≡ true
unfolding ends_there
after-ends_there String.[] String.[] h = refl
after-ends_there String.[] (String.◌∷◌ c s) h = ground arith
after-ends_there (String.◌∷◌ p ps) after h =
    ground (arith, after-ends_there ps after h, nat_beq_iff (code p) (code p))

identifier_from-Occurs :
    (w : Bool) (name s : String) → identifier_from w name s ≡ true → Occurs w s name
unfolding identifier_from
identifier_from-Occurs w name String.[] h =
    let (after, e, c) = ends_there-after name String.[] (ground arith) in
    record {
      before = String.[];
      after = after;
      parts = e;
      clear_before = ground arith;
      clear_after = c;
    }
identifier_from-Occurs w name (String.◌∷◌ c s) h =
    elim (Bool-cases (not w && ends_there name (String.◌∷◌ c s))) [
      | inl e ↦
          let (after, p, k) = ends_there-after name (String.◌∷◌ c s) (ground arith) in
          record {
            before = String.[];
            after = after;
            parts = p;
            clear_before = ground arith;
            clear_after = k;
          }
      | inr e ↦
          let rest = identifier_from-Occurs (is_word c) name s (ground arith) in
          record {
            before = String.◌∷◌ c rest.before;
            after = rest.after;
            parts = λ i. String.◌∷◌ c (rest.parts i);
            clear_before = rest.clear_before;
            clear_after = rest.clear_after;
          }
    ]

here-identifier_from :
    (name s : String) → ends_there name s ≡ true → identifier_from false name s ≡ true
unfolding identifier_from
here-identifier_from name String.[] h = ground arith
here-identifier_from name (String.◌∷◌ c s) h = ground arith

parts-identifier_from :
    (w : Bool) (name before after : String)
    → ends_word w before ≡ false
    → starts_word after ≡ false
    → identifier_from w name (before +++ name +++ after) ≡ true
unfolding identifier_from
parts-identifier_from w name String.[] after b a =
    rw b (here-identifier_from name (name +++ after) (after-ends_there name after a))
parts-identifier_from w name (String.◌∷◌ c before) after b a =
    ground (arith, parts-identifier_from (is_word c) name before after b a)

-- A name is found in a text exactly where the text has it between two parts, the first of which does
-- not end, and the second of which does not begin, with a letter, a digit or an underscore.
pub has_identifier_iff :
    (text name : String) → (has_identifier text name ≡ true) ↔ Occurs false text name
unfolding has_identifier
has_identifier_iff text name = (
  λ h. identifier_from-Occurs false name text h,
  λ o. rw o.parts (parts-identifier_from false name o.before o.after o.clear_before o.clear_after),
)
