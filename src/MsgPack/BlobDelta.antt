-- ===== src/MsgPack/BlobDelta.antt =====
-- The delta frames of scripts/gen_blob_backend_discriminator_fixture.py, decoded.
use lazily_spec.Prelude.{
  ℕ, zero, suc, ◌≤◌, ◌<◌, String, Option, none, some, List, [], ◌∷◌, ◌≡◌, refl, arith, length, ok,
  ◌==◌, string_eq, if◌then◌else◌, Bool-cases, inl, inr,
}
use lazily_spec.MsgPack.Bytes.{Bytes, utf8}
use lazily_spec.MsgPack.Blob
use lazily_spec.MsgPack.Blob.{with_backend, backend_msgpack, descriptor_fields, delta_msgpack}
use lazily_spec.MsgPack.Decoder.{Item, Fields, nil, no_fields, object, decode}
use lazily_spec.MsgPack.Encodes.{Encodes, Writes, Encodes-mono, FieldsEncode, ◌⊢◌&◌, one_item}
use lazily_spec.MsgPack.Agree.{
  Blob_uint-Writes, Blob_str-Writes, Blob_array-Writes, Blob_map-Writes,
}

-- What stands under `backend`: no entry, an explicit nil, an integer, or the token itself.
abbrev pub backend_fields : String → Fields
backend_fields form =
    if form == "omitted"
    then no_fields
    else if form == "null"
    then ("backend" ⊢ nil & no_fields)
    else if form == "non_string"
    then ("backend" ⊢ Item.uint Blob.non_string_backend & no_fields)
    else ("backend" ⊢ Item.str (utf8 form) & no_fields)

abbrev descriptor_item : String → Fields
descriptor_item form =
    "offset"
    ⊢ Item.uint Blob.offset & "len"
    ⊢ Item.uint Blob.len & "generation"
    ⊢ Item.uint Blob.generation & "epoch"
    ⊢ Item.uint Blob.blob_epoch & "checksum"
    ⊢ Item.uint Blob.checksum & backend_fields form

abbrev slot_fields : String → Fields
slot_fields form =
    "node"
    ⊢ Item.uint Blob.node & "payload"
    ⊢ object ("SharedBlob" ⊢ object (descriptor_item form) & no_fields) & no_fields

abbrev body_fields : String → Fields
body_fields form =
    "base_epoch"
    ⊢ Item.uint Blob.base_epoch & "epoch"
    ⊢ Item.uint Blob.frame_epoch & "ops"
    ⊢ Item.array (one_item (object ("SlotValue" ⊢ object (slot_fields form) & no_fields))) &
      no_fields

-- A delta frame as a peer is to read it.
abbrev pub delta_item : String → Item
delta_item form = object ("Delta" ⊢ object (body_fields form) & no_fields)

nil-Encodes : Encodes 1 Blob.nil nil
unfolding decode
nil-Encodes zero rest d = absurd (omega arith)
nil-Encodes (suc f) rest d = refl

backend-Writes :
    (form : String)
    → length (utf8 form) < 32
    → (raw : Option Bytes) × (backend_msgpack form ≡ ok raw)
      × FieldsEncode 31 1 (with_backend raw) (backend_fields form)
unfolding backend_msgpack
backend-Writes form h =
    let (number, e_number, r_number) = Blob_uint-Writes Blob.non_string_backend (omega arith) in
    let (text, e_text, r_text) = Blob_str-Writes form h in
    elim (Bool-cases (form == "omitted")) [
      | inl a ↦ (none, rw a, rw a tt)
      | inr a ↦ elim (Bool-cases (form == "null")) [
        | inl b ↦ (
          some Blob.nil,
          rw (a, b),
          rw (a, b) (unfold utf8 in omega arith, refl, nil-Encodes, tt),
        )
        | inr b ↦ elim (Bool-cases (form == "non_string")) [
          | inl c ↦ (
            some number,
            rw (a, b, c, e_number),
            rw (a, b, c) (unfold utf8 in omega arith, refl, r_number, tt),
          )
          | inr c ↦ (
            some text,
            rw (a, b, c, e_text),
            rw (a, b, c) (unfold utf8 in omega arith, refl, r_text, tt),
          )
        ]
      ]
    ]

length-with_backend : (raw : Option Bytes) → length (with_backend raw) ≤ 1
length-with_backend none = omega arith
length-with_backend (some raw) = omega arith

descriptor-Writes :
    (form : String)
    → length (utf8 form) < 32
    → (fields : List (String × Bytes)) × (descriptor_fields form ≡ ok fields)
      × (length fields < 16)
      × FieldsEncode 31 1 fields (descriptor_item form)
unfolding descriptor_fields utf8
descriptor-Writes form h =
    let (at, e_at, r_at) = Blob_uint-Writes Blob.offset (omega arith) in
    let (size, e_size, r_size) = Blob_uint-Writes Blob.len (omega arith) in
    let (gen, e_gen, r_gen) = Blob_uint-Writes Blob.generation (omega arith) in
    let (era, e_era, r_era) = Blob_uint-Writes Blob.blob_epoch (omega arith) in
    let (sum, e_sum, r_sum) = Blob_uint-Writes Blob.checksum (omega arith) in
    let (raw, e_raw, r_raw) = backend-Writes form h in
    (
      ("offset", at)
          ∷ ("len", size)
          ∷ ("generation", gen)
          ∷ ("epoch", era)
          ∷ ("checksum", sum)
          ∷ with_backend raw,
      rw (e_at, e_size, e_gen, e_era, e_sum, e_raw),
      omega (arith, length-with_backend raw),
      (
        omega arith,
        refl,
        r_at,
        (
          omega arith,
          refl,
          r_size,
          (omega arith, refl, r_gen, (omega arith, refl, r_era, (omega arith, refl, r_sum, r_raw))),
        ),
      ),
    )

slot-Writes :
    (form : String) (id payload : Bytes)
    → Encodes 1 id (Item.uint Blob.node)
    → Encodes 5 payload (object ("SharedBlob" ⊢ object (descriptor_item form) & no_fields))
    → Writes 7 (Blob.map (("node", id) ∷ ("payload", payload) ∷ [])) (object (slot_fields form))
unfolding utf8
slot-Writes form id payload r_id r_payload = Blob_map-Writes 5 _ (slot_fields form) (omega arith) (
  omega arith,
  refl,
  Encodes-mono 1 5 id _ (omega arith) r_id,
  (omega arith, refl, r_payload, tt),
)

wrap-Writes :
    (depth : ℕ) (k : String) (raw : Bytes) (v : Item)
    → length (utf8 k) ≤ 31
    → Encodes depth raw v
    → Writes (suc (suc depth)) (Blob.map ((k, raw) ∷ [])) (object (k ⊢ v & no_fields))
wrap-Writes depth k raw v h r =
    Blob_map-Writes depth _ (k ⊢ v & no_fields) (omega arith) (h, refl, r, tt)

body-Writes :
    (form : String) (base epoch ops : Bytes)
    → Encodes 1 base (Item.uint Blob.base_epoch)
    → Encodes 1 epoch (Item.uint Blob.frame_epoch)
    → Encodes 10 ops
        (Item.array (one_item (object ("SlotValue" ⊢ object (slot_fields form) & no_fields))))
    → Writes 12
        (Blob.map (("base_epoch", base) ∷ ("epoch", epoch) ∷ ("ops", ops) ∷ []))
        (object (body_fields form))
unfolding utf8
body-Writes form base epoch ops r_base r_epoch r_ops =
    Blob_map-Writes 10 _ (body_fields form) (omega arith) (
      omega arith,
      refl,
      Encodes-mono 1 10 base _ (omega arith) r_base,
      (
        omega arith,
        refl,
        Encodes-mono 1 10 epoch _ (omega arith) r_epoch,
        (omega arith, refl, r_ops, tt),
      ),
    )

-- For every form whose token is shorter than 32 bytes the delta is written, and it decodes to the
-- frame whose `backend` is absent, nil, an integer or the token itself, as the form says.
pub delta_exact :
    (form : String) → length (utf8 form) < 32 → Writes 14 (delta_msgpack form) (delta_item form)
unfolding delta_msgpack
delta_exact form h =
    let (fields, e_fields, short, r_fields) = descriptor-Writes form h in
    let (desc, e_desc, r_desc) = Blob_map-Writes 1 fields _ short r_fields in
    let (payload, e_payload, r_payload) =
      wrap-Writes 3 "SharedBlob" desc _ (unfold utf8 in omega arith) r_desc in
    let (id, e_id, r_id) = Blob_uint-Writes Blob.node (omega arith) in
    let (slot, e_slot, r_slot) = slot-Writes form id payload r_id r_payload in
    let (op, e_op, r_op) = wrap-Writes 7 "SlotValue" slot _ (unfold utf8 in omega arith) r_slot in
    let (base, e_base, r_base) = Blob_uint-Writes Blob.base_epoch (omega arith) in
    let (epoch, e_epoch, r_epoch) = Blob_uint-Writes Blob.frame_epoch (omega arith) in
    let (ops, e_ops, r_ops) = Blob_array-Writes 9 (op ∷ []) (one_item _) (omega arith) (r_op, tt) in
    let (body, e_body, r_body) = body-Writes form base epoch ops r_base r_epoch r_ops in
    let (frame, e_frame, r_frame) =
      wrap-Writes 12 "Delta" body _ (unfold utf8 in omega arith) r_body in
    (
      frame,
      rw (e_fields, e_desc, e_payload, e_id, e_slot, e_op, e_base, e_epoch, e_ops, e_body) e_frame,
      r_frame,
    )
