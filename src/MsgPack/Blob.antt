-- ===== src/MsgPack/Blob.antt =====
-- The encoder and the frames of scripts/gen_blob_backend_discriminator_fixture.py.
use Prim.Native.Nat.{bit_or}
use lazily_spec.Prelude.{
  ℕ, String, Option, none, some, List, [], ◌∷◌, ◌++◌, ltb, leb, ◌==◌, string_eq, if◌then◌else◌,
  length, ok, err, ◌>>=◌, Result,
}
use lazily_spec.MsgPack.Bytes.{
  Bytes, to_bytes, utf8, join, EncodeError, large_number, long_string, long_array, long_map,
  Encoded,
}

unfoldable pub uint : ℕ → Encoded
uint n =
    if ltb n 0x80
    then ok (n ∷ [])
    else if leb n 0xff
    then ok (0xcc ∷ to_bytes 1 n)
    else if leb n 0xffff
    then ok (0xcd ∷ to_bytes 2 n)
    else if leb n 0xffffffff
    then ok (0xce ∷ to_bytes 4 n)
    else err large_number

unfoldable pub str : String → Encoded
str s =
    let raw = utf8 s in
    if ltb (length raw) 32 then ok (bit_or 0xa0 (length raw) ∷ raw) else err long_string

unfoldable pub array : List Bytes → Encoded
array items =
    if ltb (length items) 16 then ok (bit_or 0x90 (length items) ∷ join items) else err long_array

-- b"".join(_str(k) + v for k, v in pairs)
unfoldable pub entries : List (String × Bytes) → Encoded
entries [] = ok []
entries ((k, v) ∷ pairs) = do key ← str k; more ← entries pairs; ok (key ++ v ++ more)

unfoldable pub map : List (String × Bytes) → Encoded
map pairs =
    if ltb (length pairs) 16
    then (do body ← entries pairs; ok (bit_or 0x80 (length pairs) ∷ body))
    else err long_map

abbrev pub nil : Bytes
nil = 0xc0 ∷ []

abbrev pub node : ℕ
node = 7

abbrev pub base_epoch : ℕ
base_epoch = 8

abbrev pub frame_epoch : ℕ
frame_epoch = 9

abbrev pub blob_epoch : ℕ
blob_epoch = 5

abbrev pub offset : ℕ
offset = 40

abbrev pub len : ℕ
len = 17

abbrev pub generation : ℕ
generation = 2

abbrev pub checksum : ℕ
checksum = 987654321

abbrev pub non_string_backend : ℕ
non_string_backend = 7

-- The msgpack value for `backend`, or none when the entry is absent.
unfoldable pub backend_msgpack : String → Result EncodeError (Option Bytes)
backend_msgpack form =
    if form == "omitted"
    then ok none
    else if form == "null"
    then ok (some nil)
    else if form == "non_string"
    then (do raw ← uint non_string_backend; ok (some raw))
    else (do raw ← str form; ok (some raw))

-- fields.append(("backend", backend))
abbrev pub with_backend : Option Bytes → List (String × Bytes)
with_backend none = []
with_backend (some raw) = ("backend", raw) ∷ []

unfoldable pub descriptor_fields : String → Result EncodeError (List (String × Bytes))
descriptor_fields form = do
  at ← uint offset
  size ← uint len
  gen ← uint generation
  era ← uint blob_epoch
  sum ← uint checksum
  backend ← backend_msgpack form
  ok (
      (("offset", at)
        ∷ ("len", size)
        ∷ ("generation", gen)
        ∷ ("epoch", era)
        ∷ ("checksum", sum)
        ∷ [])
      ++ with_backend backend)

unfoldable pub delta_msgpack : String → Encoded
delta_msgpack form = do
  fields ← descriptor_fields form
  descriptor ← map fields
  payload ← map (("SharedBlob", descriptor) ∷ [])
  id ← uint node
  slot ← map (("node", id) ∷ ("payload", payload) ∷ [])
  op ← map (("SlotValue", slot) ∷ [])
  base ← uint base_epoch
  epoch ← uint frame_epoch
  ops ← array (op ∷ [])
  body ← map (("base_epoch", base) ∷ ("epoch", epoch) ∷ ("ops", ops) ∷ [])
  map (("Delta", body) ∷ [])
