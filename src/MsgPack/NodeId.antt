-- ===== src/MsgPack/NodeId.antt =====
-- The encoder and the frames of scripts/gen_nodeid_exact_range_fixture.py.
use Prim.Native.Nat.{bit_or}
use lazily_spec.Prelude.{
  ℕ, ◌-◌, ◌^◌, String, List, [], ◌∷◌, ◌++◌, ltb, leb, if◌then◌else◌, length, Result, ok, err, ◌>>=◌,
  ℤ, pos, negsuc,
}
use lazily_spec.MsgPack.Bytes.{
  Bytes, to_bytes, utf8, join, EncodeError, not_unsigned, large_number, long_string, long_array,
  long_map, Encoded,
}

abbrev pub u64_max : ℕ
u64_max = 2 ^ 64 - 1

unfoldable pub uint : ℤ → Encoded
uint (negsuc n) = err not_unsigned
uint (pos n) =
    if ltb n 0x80
    then ok (n ∷ [])
    else if leb n 0xff
    then ok (0xcc ∷ to_bytes 1 n)
    else if leb n 0xffff
    then ok (0xcd ∷ to_bytes 2 n)
    else if leb n 0xffffffff
    then ok (0xce ∷ to_bytes 4 n)
    else if leb n u64_max
    then ok (0xcf ∷ to_bytes 8 n)
    else err large_number

unfoldable pub str : String → Encoded
str s =
    let raw = utf8 s in
    if ltb (length raw) 32
    then ok (bit_or 0xa0 (length raw) ∷ raw)
    else if leb (length raw) 0xff
    then ok (0xd9 ∷ length raw ∷ raw)
    else err long_string

unfoldable pub array : List Bytes → Encoded
array items =
    if ltb (length items) 16 then ok (bit_or 0x90 (length items) ∷ join items) else err long_array

-- b"".join(_str(k) + v for k, v in pairs)
unfoldable pub entries : List (String × Bytes) → Encoded
entries [] = ok []
entries ((k, v) ∷ pairs) = do key ← str k; more ← entries pairs; ok (key ++ v ++ more)

unfoldable pub map : List (String × Bytes) → Encoded
unfolding entries
map pairs =
    if ltb (length pairs) 16
    then (do body ← entries pairs; ok (bit_or 0x80 (length pairs) ∷ body))
    else err long_map

abbrev pub type_tag : String
type_tag = "i32"

abbrev pub payload : List ℕ
payload = 1 ∷ 2 ∷ 3 ∷ []

abbrev pub epoch : ℕ
epoch = 1

-- [_uint(b) for b in bs]
unfoldable pub uints : List ℕ → Result EncodeError (List Bytes)
unfolding uint
uints [] = ok []
uints (b ∷ bs) = do first ← uint (pos b); more ← uints bs; ok (first ∷ more)

unfoldable pub snapshot_msgpack : ℤ → Encoded
snapshot_msgpack node_id = do
  id ← uint node_id
  tag ← str type_tag
  numbers ← uints payload
  bytes ← array numbers
  state ← map (("Payload", bytes) ∷ [])
  node ← map (("node", id) ∷ ("type_tag", tag) ∷ ("state", state) ∷ [])
  frame_epoch ← uint (pos epoch)
  nodes ← array (node ∷ [])
  edges ← array []
  root ← uint node_id
  roots ← array (root ∷ [])
  body ← map (("epoch", frame_epoch) ∷ ("nodes", nodes) ∷ ("edges", edges) ∷ ("roots", roots) ∷ [])
  map (("Snapshot", body) ∷ [])
