-- ===== src/Blocks/Walk.antt =====
-- `_pointer`, `iter_assertion_blocks` and `records` of scripts/gen_assertion_block_schema.py.
use Prim.Native.Char.{code}
use lazily_spec.Prelude.{
  String, List, [], ◌∷◌, ◌++◌, map, ◌==◌, nat_eq, string_eq, if◌then◌else◌, contains,
}
use lazily_spec.Prelude.Texts.{◌+++◌}
use lazily_spec.Blocks.Json.{
  Json, Items, Fields, null, bool, int, float, str, arr, obj, no_items, item, no_fields, field,
}
use lazily_spec.Blocks.Routes.{Block}

abbrev pub block_names : List String
block_names = "assertions" ∷ "expect" ∷ "expect_after" ∷ "expect_initial" ∷ "expected" ∷ []

-- A part of a path; an index is never looked at.
pub data Part : Type 0 where
  key : String → Part
  index : Part

-- part.replace("~", "~0").replace("/", "~1")
unfoldable pub escape : String → String
escape String.[] = String.[]
escape (String.◌∷◌ c s) =
    let rest = escape s in
    if code c == b'~'
    then "~0" +++ rest
    else if code c == b'/'
    then "~1" +++ rest
    else String.◌∷◌ c rest

unfoldable pub encode_part : Part → String
unfolding escape
encode_part (key k) = escape k
encode_part index = "*"

unfoldable pub join_parts : List Part → String
unfolding encode_part
join_parts [] = ""
join_parts (p ∷ []) = encode_part p
join_parts (p ∷ ps) = encode_part p +++ "/" +++ join_parts ps

unfoldable pub pointer : List Part → String
unfolding join_parts
pointer parts = "/" +++ join_parts parts

abbrev pub Site : Type 0
Site = String × Json

-- The elements of an array-valued block that are objects.
unfoldable pub element_sites : List Part → Items → List Site
unfolding pointer
element_sites path no_items = []
element_sites path (item (obj fs) rest) =
    (pointer (path ++ index ∷ []), obj fs) ∷ element_sites path rest
element_sites path (item v rest) = element_sites path rest

-- What a member with a block's name yields.
unfoldable pub member_sites : List Part → Json → List Site
unfolding pointer element_sites
member_sites path (obj fs) = (pointer path, obj fs) ∷ []
member_sites path (arr items) = element_sites path items
member_sites path v = []

abbrev named_sites : String → List Part → Json → List Site
named_sites k path v = if contains block_names k then member_sites path v else []

mutual
  pub iter_assertion_blocks : List Part → Json → List Site
  iter_assertion_blocks path null = []
  iter_assertion_blocks path (bool b) = []
  iter_assertion_blocks path (int n) = []
  iter_assertion_blocks path (float t) = []
  iter_assertion_blocks path (str s) = []
  iter_assertion_blocks path (arr items) = iter_items path items
  iter_assertion_blocks path (obj fs) = iter_fields path fs

  pub iter_items : List Part → Items → List Site
  iter_items path no_items = []
  iter_items path (item v rest) =
      iter_assertion_blocks (path ++ index ∷ []) v ++ iter_items path rest

  pub iter_fields : List Part → Fields → List Site
  iter_fields path no_fields = []
  iter_fields path (field k v rest) =
      let child = path ++ key k ∷ [] in
      named_sites k child v ++ iter_assertion_blocks child v ++ iter_fields path rest

abbrev block_at : String → Site → Block
block_at fixture site = record { fixture = fixture; pointer = site.0; value = site.1 }

-- The documents, each with its fixture's path, in the order that they are read.
unfoldable pub records : List (String × Json) → List Block
records [] = []
records ((fixture, document) ∷ rest) =
    map (block_at fixture) (iter_assertion_blocks [] document) ++ records rest
