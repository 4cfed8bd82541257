-- ===== src/MsgPack/Examples.antt =====
-- Runs of the MessagePack encoders of the fixture generators on small inputs.
use lazily_spec.Prelude.{
  String, ◌<◌, List, [], ◌∷◌, ◌≡◌, refl, arith, ok, length, pos, negsuc, ◌↔◌, ◌≤◌, ℕ,
}
use lazily_spec.MsgPack.Bytes.{Bytes, utf8}
use lazily_spec.MsgPack.NodeId
use lazily_spec.MsgPack.NodeId.{u64_max}
use lazily_spec.MsgPack.Blob
use lazily_spec.MsgPack.NodeKey
use lazily_spec.MsgPack.Decoder.{Item, no_items, item, no_fields, field}
use lazily_spec.MsgPack.Encodes.{
  Encodes, Writes, FieldsEncode, uint-Encodes, array-Writes, map-Writes,
}
use lazily_spec.MsgPack.Agree.{Blob_map-eq, NodeKey_map-eq}
use lazily_spec.MsgPack.Fnv.{digest_from, hex, fnv1a64_hex}
use lazily_spec.MsgPack.Snapshot.{snapshot_item, snapshot_exact, snapshot_msgpack_iff}
use lazily_spec.MsgPack.BlobDelta.{delta_item, delta_exact}

snapshot_exact_example :
    Writes 11 (NodeId.snapshot_msgpack (pos 9007199254740993)) (snapshot_item 9007199254740993)
snapshot_exact_example = snapshot_exact 9007199254740993 (omega arith)

abbrev pairs : List (String × Bytes)
pairs = ("node", 7 ∷ []) ∷ []

abbrev node_bytes : Bytes
node_bytes = 110 ∷ 111 ∷ 100 ∷ 101 ∷ []

seven : Encodes 1 (7 ∷ []) (Item.uint 7)
unfolding NodeId.uint
seven = uint-Encodes 7 refl

array-Writes_example :
    Writes 2 (NodeId.array ((7 ∷ []) ∷ [])) (Item.array (item (Item.uint 7) no_items))
array-Writes_example =
    array-Writes 1 ((7 ∷ []) ∷ []) (item (Item.uint 7) no_items) (omega arith) (seven, tt)

pairs-FieldsEncode : FieldsEncode 0xff 1 pairs (field node_bytes (Item.uint 7) no_fields)
unfolding utf8
pairs-FieldsEncode = (omega arith, refl, seven, tt)

map-Writes_example :
    Writes 3 (NodeId.map pairs) (Item.object (field node_bytes (Item.uint 7) no_fields))
map-Writes_example =
    map-Writes 1 pairs (field node_bytes (Item.uint 7) no_fields) (omega arith) pairs-FieldsEncode

short_keys : length (utf8 "node") < 32
unfolding utf8
short_keys = omega arith

Blob_map-eq_example : Blob.map pairs ≡ NodeId.map pairs
Blob_map-eq_example = Blob_map-eq pairs (short_keys, tt)

NodeKey_map-eq_example : NodeKey.map pairs ≡ Blob.map pairs
NodeKey_map-eq_example = NodeKey_map-eq pairs

short_form : length (utf8 "arena") < 32
unfolding utf8
short_form = omega arith

delta_exact_example : Writes 14 (Blob.delta_msgpack "arena") (delta_item "arena")
delta_exact_example = delta_exact "arena" short_form

snapshot_msgpack_iff_example :
    ((frame : Bytes) × (NodeId.snapshot_msgpack (negsuc 0) ≡ ok frame))
    ↔ ((n : ℕ) × (negsuc 0 ≡ pos n) × (n ≤ u64_max))
snapshot_msgpack_iff_example = snapshot_msgpack_iff (negsuc 0)

-- The published digest of "a", and a number that is wider than its field.
fnv1a64_a :
    fnv1a64_hex (97 ∷ [])
    ≡ 97 ∷ 102 ∷ 54 ∷ 51 ∷ 100 ∷ 99 ∷ 52 ∷ 99 ∷ 56 ∷ 54 ∷ 48 ∷ 49 ∷ 101 ∷ 99 ∷ 56 ∷ 99 ∷ []
unfolding fnv1a64_hex digest_from hex
fnv1a64_a = refl

hex_wide : hex 2 4095 ≡ 102 ∷ 102 ∷ 102 ∷ []
unfolding hex
hex_wide = refl

hex_padded : hex 3 10 ≡ 48 ∷ 48 ∷ 97 ∷ []
unfolding hex
hex_padded = refl
