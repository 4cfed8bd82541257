-- ===== src/Wire/Build/Nodes.antt =====
-- The tests of schema nodes: `_nullable_inner`, `_def_kind`, and the patterns of names.
use Prim.Native.Char.{code}
use lazily_spec.Prelude.{
  ℕ, String, Bool, true, false, not, ◌&&◌, ◌||◌, Option, none, some, List, [], ◌∷◌, ◌==◌, nat_eq,
  string_eq, leb, length, if◌then◌else◌, pos,
}
use lazily_spec.Blocks.Json.{Json, Fields, no_fields, field, get, keys, fields_of}

abbrev pub attribute : String → Json → Option Json
attribute key node = get key (fields_of node)

abbrev pub has_attribute : String → Json → Bool
has_attribute key node = elim (attribute key node) [ none ↦ false | some v ↦ true ]

-- node.get(key) == text
unfoldable pub is_text : String → String → Json → Bool
is_text key value node = elim (attribute key node) [ some (Json.str s) ↦ s == value | _ ↦ false ]

unfoldable pub is_number : String → ℕ → Json → Bool
is_number key n node = elim (attribute key node) [ some (Json.int (pos m)) ↦ m == n | _ ↦ false ]

-- node.get(key) is False
unfoldable pub is_closed : Json → Bool
is_closed node = elim (attribute "additionalProperties" node) [
  | some (Json.bool b) ↦ not b
  | _ ↦ false
]

-- node == {"type": "null"}
unfoldable pub is_null : Json → Bool
unfolding is_text
is_null node = length (keys (fields_of node)) == 1 && is_text "type" "null" node

-- node == {"type": "integer", "minimum": 0, "maximum": 255}
unfoldable pub is_byte : Json → Bool
unfolding is_text is_number
is_byte node =
    length (keys (fields_of node)) == 3
    && is_text "type" "integer" node
    && is_number "minimum" 0 node
    && is_number "maximum" 255 node

unfoldable pub branches_of : Json → Option (List Json)
branches_of node = elim (attribute "oneOf" node) [
  | some (Json.arr items) ↦ some (lazily_spec.Blocks.Json.item_list items)
  | _ ↦ none
]

-- The one of two branches that is not null, where the other is.
non_null : Json → Json → Option Json
unfolding is_null
non_null a b =
    if is_null a && not (is_null b)
    then some b
    else if is_null b && not (is_null a)
    then some a
    else none

abbrev of_two : Option (List Json) → Option Json
of_two (some (a ∷ b ∷ [])) = non_null a b
of_two _ = none

unfoldable pub nullable_inner : Json → Option Json
unfolding branches_of non_null
nullable_inner node = of_two (branches_of node)

unfoldable pub def_kind : Json → Option String
unfolding nullable_inner is_text branches_of
def_kind node = elim (nullable_inner node) [
  | some inner ↦ some "nullable_alias"
  | none ↦ elim (branches_of node) [
    | some branches ↦ some "union"
    | none ↦
        if is_text "type" "string" node && has_attribute "enum" node
        then some "enum"
        else if is_text "type" "object" node
        then some "record"
        else if is_text "type" "string" node
            || is_text "type" "integer" node
            || is_text "type" "boolean" node
        then some "alias"
        else none
  ]
]

abbrev is_upper : ℕ → Bool
is_upper c = leb 65 c && leb c 90

abbrev is_lower : ℕ → Bool
is_lower c = leb 97 c && leb c 122

abbrev is_digit : ℕ → Bool
is_digit c = leb 48 c && leb c 57

-- Each character is a letter or a digit.
abbrev all_alnum : String → Bool
all_alnum String.[] = true
all_alnum (String.◌∷◌ c s) =
    (is_upper (code c) || is_lower (code c) || is_digit (code c)) && all_alnum s

-- re.fullmatch(r"[A-Z][A-Za-z0-9]*", name)
unfoldable pub is_pascal : String → Bool
is_pascal String.[] = false
is_pascal (String.◌∷◌ c s) = is_upper (code c) && all_alnum s

abbrev all_snake : String → Bool
all_snake String.[] = true
all_snake (String.◌∷◌ c s) = (is_lower (code c) || is_digit (code c) || code c == 95) && all_snake s

-- re.fullmatch(r"[a-z][a-z0-9_]*", name)
unfoldable pub is_snake : String → Bool
is_snake String.[] = false
is_snake (String.◌∷◌ c s) = is_lower (code c) && all_snake s

-- ref[len(prefix) :], if it starts with the prefix
unfoldable pub after_prefix : String → String → Option String
after_prefix String.[] s = some s
after_prefix (String.◌∷◌ p ps) String.[] = none
after_prefix (String.◌∷◌ p ps) (String.◌∷◌ c s) =
    let rest = after_prefix ps s in if code p == code c then rest else none
