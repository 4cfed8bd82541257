-- ===== src/Guard/Examples.antt =====
-- Runs of the guard of scripts/check-assert-with-consumption.py on small texts.
use Prim.Native.Char.{code}
use lazily_spec.Prelude.{
  String, true, false, none, some, List, All, [], ◌∷◌, ◌≡◌, refl, arith, ◌==◌, ◌||◌, ◌&&◌, nat_eq,
  leb, get_elem?, ◌↔◌,
}
use lazily_spec.Guard.Chars.{CharClass, cut, ◌+++◌, strip}
use lazily_spec.Guard.Lexer.{Token, lex}
use lazily_spec.Guard.Lexer.Runs.{Lexes, lex-Lexes}
use lazily_spec.Guard.Lexer.Located.{Located, lex-Located}
use lazily_spec.Guard.Lexer.Prose.{
  InkClass, tokens_at, lex_line_comment, lex_block_comment, lex_string,
}
use lazily_spec.Guard.Brackets.{kind, matching, split_top_level}
use lazily_spec.Guard.Brackets.Matching.{Encloses, matching_iff}
use lazily_spec.Guard.Brackets.Parts.{Argument, listed, split_top_level-listed}
use lazily_spec.Guard.Callback.{kotlin_callback, arrow_callback, body_uses}
use lazily_spec.Guard.Resolve.{js, kt, callback_for}
use lazily_spec.Guard.Scan.{unread, unnamed, trailing_of, is_call, callback_at, scan_c_like}
use lazily_spec.Guard.Scan.FailClosed.{Reads, scan_c_like_fail_closed}

abbrev ascii : CharClass
ascii = record {
  is_space = λ c. code c == 32 || code c == 10 || code c == 9 || code c == 13;
  is_alpha = λ c. leb 65 (code c) && leb (code c) 90 || leb 97 (code c) && leb (code c) 122;
}

ascii_ink : InkClass ascii
ascii_ink = record { slash = λ c e. rw e; quote = λ c e. rw e }

abbrev read_text : String
read_text = "assertKeyWith(block, key, (want) => { expect(want) });"

abbrev ignored_text : String
ignored_text = "assertKeyWith(block, key, (want) => { expect(1) });"

abbrev read_call : Token
read_call = record { value = "assertKeyWith"; line = 1 }

read_text_passes : scan_c_like ascii js read_text ≡ []
unfolding scan_c_like is_call matching callback_at callback_for split_top_level arrow_callback
    body_uses
read_text_passes = refl

ignored_text_fails : scan_c_like ascii js ignored_text ≡ unread read_call "want" ∷ []
unfolding scan_c_like is_call matching callback_at callback_for split_top_level arrow_callback
    body_uses
ignored_text_fails = refl

read_call_found : get_elem? (lex ascii false read_text) 0 ≡ some read_call
unfolding lex
read_call_found = refl

read_call_calls : is_call js (lex ascii false read_text) 0 read_call ≡ true
unfolding is_call lex
read_call_calls = refl

scan_c_like_fail_closed_example : Reads js (lex ascii false read_text) 0
scan_c_like_fail_closed_example =
    scan_c_like_fail_closed ascii js read_text 0 read_call read_text_passes read_call_found
      read_call_calls

abbrev token : String → Token
token v = record { value = v; line = 1 }

abbrev group_tokens : List Token
group_tokens = token "(" ∷ token "[" ∷ token "x" ∷ token "]" ∷ token ")" ∷ []

matching_iff_example : (matching group_tokens 0 ≡ some 4) ↔ Encloses group_tokens 0 4
matching_iff_example = matching_iff group_tokens 0 4

group_tokens-matching : matching group_tokens 0 ≡ some 4
unfolding matching
group_tokens-matching = refl

lex-Lexes_example : Lexes ascii false 1 "f(x) // g" (lex ascii false "f(x) // g")
lex-Lexes_example = lex-Lexes ascii false "f(x) // g"

lex-Located_example : All (Located "/*\n*/a") (lex ascii false "/*\n*/a")
lex-Located_example = lex-Located ascii false "/*\n*/a" (
  λ e. omega (arith, e),
  (
    λ e. omega (arith, e),
    (
      λ e. omega (arith, e),
      (λ e. omega (arith, e), (λ e. omega (arith, e), (λ e. omega (arith, e), tt))),
    ),
  ),
)

a_on_line_two : lex ascii false "/*\n*/a" ≡ record { value = "a"; line = 2 } ∷ []
unfolding lex
a_on_line_two = refl

lex_line_comment_example :
    tokens_at ascii ascii_ink false 1 ("//" +++ " no call" +++ "\n" +++ "x")
    ≡ tokens_at ascii ascii_ink false 2 "x"
lex_line_comment_example = lex_line_comment ascii ascii_ink false 1 " no call" "x" refl

no_end : cut "*/" " two\nlines " ≡ none
unfolding cut strip
no_end = refl

lex_block_comment_example :
    tokens_at ascii ascii_ink false 1 ("/*" +++ " two\nlines " +++ "*/" +++ "x")
    ≡ tokens_at ascii ascii_ink false 2 "x"
lex_block_comment_example = lex_block_comment ascii ascii_ink false 1 " two\nlines " "x" no_end

lex_string_example :
    tokens_at ascii ascii_ink false 1 ("\"" +++ "f(" +++ "\"" +++ "x")
    ≡ tokens_at ascii ascii_ink false 1 "x"
lex_string_example = lex_string ascii ascii_ink false 1 "f(" "x" (
  λ e. omega (arith, e),
  λ e. omega (arith, e),
  (λ e. omega (arith, e), λ e. omega (arith, e), tt),
)

x-Argument : Argument (token "x" ∷ [])
unfolding kind
x-Argument = Argument.word (token "x") refl (λ e. cc) Argument.nothing

split_top_level-listed_example :
    split_top_level (listed (token ",") (token "x" ∷ []) ((token "x" ∷ []) ∷ []))
    ≡ (token "x" ∷ []) ∷ (token "x" ∷ []) ∷ []
split_top_level-listed_example =
    split_top_level-listed (token ",") (token "x" ∷ []) ((token "x" ∷ []) ∷ []) refl x-Argument
      (x-Argument, tt)

-- Another arrow than Kotlin's is no callback.
kotlin_fat_arrow : scan_c_like ascii kt "assertKeyWith(k) { it => it }" ≡ unnamed read_call ∷ []
unfolding scan_c_like is_call matching callback_at callback_for kotlin_callback split_top_level
    trailing_of body_uses
kotlin_fat_arrow = refl

-- The type is taken for the parameter.
kotlin_blank : scan_c_like ascii kt "assertKeyWith(k) { _ : Json -> x as Json }" ≡ []
unfolding scan_c_like is_call matching callback_at callback_for kotlin_callback split_top_level
    trailing_of body_uses
kotlin_blank = refl
