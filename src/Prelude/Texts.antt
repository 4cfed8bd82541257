-- ===== src/Prelude/Texts.antt =====
-- Texts joined and tested for a prefix, a suffix and a character.
use Prim.Native.Char.{Char, code}
use Prim.Native.String.{String}
use text.Mathlib.TextEquality.{Char-path}
use mathlib.Core.Path.{◌≡◌}
use mathlib.Core.Bool.{Bool, true, false, ◌&&◌, ◌||◌}
use lazily_spec.Prelude.Tests.{◌==◌, nat_eq, string_eq}

infixr 60 ◌+++◌
abbrev pub ◌+++◌ : String → String → String
String.[] +++ t = t
String.◌∷◌ c s +++ t = String.◌∷◌ c (s +++ t)

unfoldable pub starts_with : String → String → Bool
starts_with s String.[] = true
starts_with String.[] (String.◌∷◌ p ps) = false
starts_with (String.◌∷◌ c s) (String.◌∷◌ p ps) = code c == code p && starts_with s ps

unfoldable pub ends_with : String → String → Bool
ends_with String.[] suffix = String.[] == suffix
ends_with (String.◌∷◌ c s) suffix = String.◌∷◌ c s == suffix || ends_with s suffix

unfoldable pub has_char : Char → String → Bool
has_char d String.[] = false
has_char d (String.◌∷◌ c s) = code c == code d || has_char d s

pub cons-path :
    (c d : Char) (s t : String) → code c ≡ code d → s ≡ t → String.◌∷◌ c s ≡ String.◌∷◌ d t
cons-path c d s t p q = λ i. String.◌∷◌ (Char-path c d p i) (q i)
