-- ===== src/MsgPack/Agree.antt =====
-- The three generators' encoders agree byte for byte on what the narrower ones accept.
use lazily_spec.Prelude.{
  ℕ, suc, ◌≤◌, ◌<◌, String, List, [], ◌∷◌, ◌≡◌, refl, arith, length, pos, All,
}
use lazily_spec.MsgPack.Bytes.{Bytes, utf8}
use lazily_spec.MsgPack.NodeId
use lazily_spec.MsgPack.Blob
use lazily_spec.MsgPack.NodeKey
use lazily_spec.MsgPack.Decoder.{Item, Items, Fields, no_fields, field}
use lazily_spec.MsgPack.Encodes.{
  Writes, AllEncode, FieldsEncode, uint-Writes, str-Writes, array-Writes, map-Writes,
}

abbrev pub ShortKeys : List (String × Bytes) → Type 0
ShortKeys = All (λ p. length (utf8 p.0) < 32)

pub Blob_uint-eq : (n : ℕ) → n ≤ 0xffffffff → Blob.uint n ≡ NodeId.uint (pos n)
unfolding Blob.uint NodeId.uint
Blob_uint-eq n h = ground arith

pub NodeKey_uint-eq : (n : ℕ) → n ≤ 0xff → NodeKey.uint n ≡ NodeId.uint (pos n)
unfolding NodeKey.uint NodeId.uint
NodeKey_uint-eq n h = ground arith

pub Blob_str-eq : (s : String) → length (utf8 s) < 32 → Blob.str s ≡ NodeId.str s
unfolding Blob.str NodeId.str
Blob_str-eq s h = ground arith

pub NodeKey_str-eq : (s : String) → NodeKey.str s ≡ Blob.str s
unfolding Blob.str NodeKey.str
NodeKey_str-eq s = refl

pub Blob_array-eq : (items : List Bytes) → Blob.array items ≡ NodeId.array items
unfolding Blob.array NodeId.array
Blob_array-eq items = refl

pub NodeKey_array-eq : (items : List Bytes) → NodeKey.array items ≡ NodeId.array items
unfolding NodeKey.array NodeId.array
NodeKey_array-eq items = refl

Blob_entries-eq :
    (pairs : List (String × Bytes)) → ShortKeys pairs → Blob.entries pairs ≡ NodeId.entries pairs
unfolding Blob.entries NodeId.entries
Blob_entries-eq [] h = refl
Blob_entries-eq ((k, v) ∷ pairs) (hk, hs) = rw (Blob_str-eq k hk, Blob_entries-eq pairs hs)

NodeKey_entries-eq : (pairs : List (String × Bytes)) → NodeKey.entries pairs ≡ Blob.entries pairs
unfolding Blob.entries NodeKey.entries
NodeKey_entries-eq [] = refl
NodeKey_entries-eq ((k, v) ∷ pairs) = rw (NodeKey_str-eq k, NodeKey_entries-eq pairs)

-- On pairs whose keys are shorter than 32 bytes, the map encoders of the blob and the node-id
-- generators write the same bytes or fail with the same error.
pub Blob_map-eq :
    (pairs : List (String × Bytes)) → ShortKeys pairs → Blob.map pairs ≡ NodeId.map pairs
unfolding Blob.map NodeId.map
Blob_map-eq pairs h = rw (Blob_entries-eq pairs h)

-- On all pairs, the map encoders of the node-key and the blob generators write the same bytes or fail
-- with the same error.
pub NodeKey_map-eq : (pairs : List (String × Bytes)) → NodeKey.map pairs ≡ Blob.map pairs
unfolding Blob.map NodeKey.map
NodeKey_map-eq pairs = rw (NodeKey_entries-eq pairs)

FieldsEncode-ShortKeys :
    (depth : ℕ) (ps : List (String × Bytes)) (fs : Fields)
    → FieldsEncode 31 depth ps fs
    → ShortKeys ps
FieldsEncode-ShortKeys depth [] no_fields h = tt
FieldsEncode-ShortKeys depth [] (field key v fs) h = absurd h
FieldsEncode-ShortKeys depth (p ∷ ps) no_fields h = absurd h
FieldsEncode-ShortKeys depth ((k, x) ∷ ps) (field key v fs) (hk, he, hx, hps) =
    (omega arith, FieldsEncode-ShortKeys depth ps fs hps)

FieldsEncode-mono :
    (depth : ℕ) (ps : List (String × Bytes)) (fs : Fields)
    → FieldsEncode 31 depth ps fs
    → FieldsEncode 0xff depth ps fs
FieldsEncode-mono depth [] no_fields h = tt
FieldsEncode-mono depth [] (field key v fs) h = absurd h
FieldsEncode-mono depth (p ∷ ps) no_fields h = absurd h
FieldsEncode-mono depth ((k, x) ∷ ps) (field key v fs) (hk, he, hx, hps) =
    (omega arith, he, hx, FieldsEncode-mono depth ps fs hps)

-- The narrow encoders write what reads back.
pub Blob_uint-Writes : (n : ℕ) → n ≤ 0xffffffff → Writes 1 (Blob.uint n) (Item.uint n)
Blob_uint-Writes n h = rw (Blob_uint-eq n h) (uint-Writes n (omega arith))

pub Blob_str-Writes :
    (s : String) → length (utf8 s) < 32 → Writes 1 (Blob.str s) (Item.str (utf8 s))
Blob_str-Writes s h = rw (Blob_str-eq s h) (str-Writes s (omega arith))

pub Blob_array-Writes :
    (depth : ℕ) (xs : List Bytes) (vs : Items)
    → length xs < 16
    → AllEncode depth xs vs
    → Writes (suc depth) (Blob.array xs) (Item.array vs)
Blob_array-Writes depth xs vs h r = rw (Blob_array-eq xs) (array-Writes depth xs vs h r)

pub Blob_map-Writes :
    (depth : ℕ) (ps : List (String × Bytes)) (fs : Fields)
    → length ps < 16
    → FieldsEncode 31 depth ps fs
    → Writes (suc (suc depth)) (Blob.map ps) (Item.object fs)
Blob_map-Writes depth ps fs h r =
    rw (Blob_map-eq ps (FieldsEncode-ShortKeys depth ps fs r))
      (map-Writes depth ps fs h (FieldsEncode-mono depth ps fs r))
