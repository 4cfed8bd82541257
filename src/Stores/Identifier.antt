-- ===== src/Stores/Identifier.antt =====
-- `_has_identifier`, and `in` on texts.
use Prim.Native.Char.{Char, code}
use lazily_spec.Prelude.{String, Bool, true, false, not, ◌&&◌, ◌||◌, ◌==◌, nat_eq, string_eq, leb}
use lazily_spec.Prelude.Texts.{starts_with}

-- [A-Za-z0-9_]
unfoldable pub is_word : Char → Bool
is_word c =
    let n = code c in
    (leb 65 n && leb n 90) || (leb 97 n && leb n 122) || (leb 48 n && leb n 57) || n == 95

-- (?![A-Za-z0-9_]) after the first text in the second, where the second begins with the first
unfoldable pub ends_there : String → String → Bool
unfolding is_word
ends_there String.[] String.[] = true
ends_there String.[] (String.◌∷◌ c s) = not (is_word c)
ends_there (String.◌∷◌ p ps) String.[] = false
ends_there (String.◌∷◌ p ps) (String.◌∷◌ c s) = code p == code c && ends_there ps s

-- The search from one place on, by whether a word character stands before it.
unfoldable pub identifier_from : Bool → String → String → Bool
unfolding ends_there is_word
identifier_from in_word name String.[] = not in_word && ends_there name String.[]
identifier_from in_word name (String.◌∷◌ c s) =
    (not in_word && ends_there name (String.◌∷◌ c s)) || identifier_from (is_word c) name s

unfoldable pub has_identifier : String → String → Bool
unfolding identifier_from
has_identifier text name = identifier_from false name text

-- token in text
unfoldable pub is_in : String → String → Bool
unfolding starts_with
is_in token String.[] = starts_with String.[] token
is_in token (String.◌∷◌ c s) = starts_with (String.◌∷◌ c s) token || is_in token s
