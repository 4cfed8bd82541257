-- ===== src/MsgPack/NodeKey.antt =====
-- The encoder and the frames of scripts/gen_nodekey_null_leniency_fixture.py.
use Prim.Native.Nat.{bit_or}
use lazily_spec.Prelude.{
  ℕ, String, List, [], ◌∷◌, ◌++◌, ltb, leb, ◌==◌, string_eq, if◌then◌else◌, length, ok, err, ◌>>=◌,
  Result,
}
use lazily_spec.MsgPack.Bytes.{
  Bytes, to_bytes, utf8, join, EncodeError, large_number, long_string, long_array, long_map,
  Encoded,
}

unfoldable pub uint : ℕ → Encoded
uint n =
    if ltb n 0x80
    then ok (n ∷ [])
    else if leb n 0xff
    then ok (0xcc ∷ to_bytes 1 n)
    else err large_number

unfoldable pub str : String → Encoded
str s =
    let raw = utf8 s in
    if ltb (length raw) 32 then ok (bit_or 0xa0 (length raw) ∷ raw) else err long_string

abbrev pub nil : Bytes
nil = 0xc0 ∷ []

unfoldable pub array : List Bytes → Encoded
array items =
    if ltb (length items) 16 then ok (bit_or 0x90 (length items) ∷ join items) else err long_array

-- b"".join(_str(k) + v for k, v in pairs)
unfoldable pub entries : List (String × Bytes) → Encoded
entries [] = ok []
entries ((k, v) ∷ pairs) = do key ← str k; more ← entries pairs; ok (key ++ v ++ more)

unfoldable pub map : List (String × Bytes) → Encoded
map pairs =
    if ltb (length pairs) 16
    then (do body ← entries pairs; ok (bit_or 0x80 (length pairs) ∷ body))
    else err long_map

abbrev pub node : ℕ
node = 7

abbrev pub type_tag : String
type_tag = "i32"

abbrev pub payload : List ℕ
payload = 1 ∷ 2 ∷ 3 ∷ []

abbrev pub epoch : ℕ
epoch = 4

abbrev pub base_epoch : ℕ
base_epoch = 3

abbrev pub present_key : String
present_key = "scores/alice"

-- [_uint(b) for b in bs]
unfoldable pub uints : List ℕ → Result EncodeError (List Bytes)
uints [] = ok []
uints (b ∷ bs) = do first ← uint b; more ← uints bs; ok (first ∷ more)

-- What the form adds to the fields of a node.
unfoldable pub key_field : String → Result EncodeError (List (String × Bytes))
key_field form =
    if form == "null"
    then ok (("key", nil) ∷ [])
    else if form == "present"
    then (do raw ← str present_key; ok (("key", raw) ∷ []))
    else ok []

unfoldable pub node_fields : String → Result EncodeError (List (String × Bytes))
node_fields form = do
  id ← uint node
  tag ← str type_tag
  numbers ← uints payload
  bytes ← array numbers
  state ← map (("Payload", bytes) ∷ [])
  key ← key_field form
  ok ((("node", id) ∷ ("type_tag", tag) ∷ ("state", state) ∷ []) ++ key)

unfoldable pub snapshot_msgpack : String → Encoded
snapshot_msgpack form = do
  frame_epoch ← uint epoch
  fields ← node_fields form
  only ← map fields
  nodes ← array (only ∷ [])
  edges ← array []
  root ← uint node
  roots ← array (root ∷ [])
  body ← map (("epoch", frame_epoch) ∷ ("nodes", nodes) ∷ ("edges", edges) ∷ ("roots", roots) ∷ [])
  map (("Snapshot", body) ∷ [])

unfoldable pub delta_msgpack : String → Encoded
delta_msgpack form = do
  fields ← node_fields form
  added ← map fields
  op ← map (("NodeAdd", added) ∷ [])
  base ← uint base_epoch
  frame_epoch ← uint epoch
  ops ← array (op ∷ [])
  body ← map (("base_epoch", base) ∷ ("epoch", frame_epoch) ∷ ("ops", ops) ∷ [])
  map (("Delta", body) ∷ [])
