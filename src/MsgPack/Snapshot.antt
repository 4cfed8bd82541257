-- ===== src/MsgPack/Snapshot.antt =====
-- What the generated frames decode to.
use lazily_spec.Prelude.{
  ℕ, ◌≤◌, ◌<◌, List, [], ◌∷◌, ◌≡◌, refl, arith, length, All, ok, err, pos, negsuc, string_eq, ℤ,
  ◌↔◌, leb, Bool-cases, inl, inr,
}
use lazily_spec.MsgPack.Bytes.{Bytes, utf8, large_number}
use lazily_spec.MsgPack.NodeId
use lazily_spec.MsgPack.NodeId.{u64_max}
use lazily_spec.MsgPack.Decoder.{Item, Items, Fields, no_items, item, no_fields, object}
use lazily_spec.MsgPack.Encodes.{
  Encodes, Writes, Encodes-mono, uint-Writes, str-Writes, AllEncode, array-Writes, ◌⊢◌&◌, one_item,
  map-Writes,
}

abbrev uint_items : List ℕ → Items
uint_items [] = no_items
uint_items (n ∷ ns) = item (Item.uint n) (uint_items ns)

abbrev state_fields : Fields
state_fields = "Payload" ⊢ Item.array (uint_items NodeId.payload) & no_fields

abbrev node_fields : ℕ → Fields
node_fields n =
    "node"
    ⊢ Item.uint n & "type_tag"
    ⊢ Item.str (utf8 NodeId.type_tag) & "state"
    ⊢ object state_fields & no_fields

abbrev body_fields : ℕ → Fields
body_fields n =
    "epoch"
    ⊢ Item.uint NodeId.epoch & "nodes"
    ⊢ Item.array (one_item (object (node_fields n))) & "edges"
    ⊢ Item.array no_items & "roots"
    ⊢ Item.array (one_item (Item.uint n)) & no_fields

-- A node snapshot as a peer is to read it.
abbrev pub snapshot_item : ℕ → Item
snapshot_item n = object ("Snapshot" ⊢ object (body_fields n) & no_fields)

uints-Writes :
    (ns : List ℕ)
    → All (λ n. n ≤ u64_max) ns
    → (raw : List Bytes) × (NodeId.uints ns ≡ ok raw)
      × AllEncode 1 raw (uint_items ns)
      × (length raw ≡ length ns)
unfolding NodeId.uints
uints-Writes [] h = ([], refl, tt, refl)
uints-Writes (n ∷ ns) (hn, hns) =
    let (first, e, r) = uint-Writes n hn in
    let (more, em, rm, lm) = uints-Writes ns hns in
    (first ∷ more, unfold NodeId.uint in rw (e, em), (r, rm), omega (arith, lm))

state-Writes :
    (raw : Bytes)
    → Encodes 2 raw (Item.array (uint_items NodeId.payload))
    → Writes 4 (NodeId.map (("Payload", raw) ∷ [])) (object state_fields)
unfolding utf8
state-Writes raw r = map-Writes 2 _ state_fields (omega arith) (omega arith, refl, r, tt)

node-Writes :
    (n : ℕ) (id tag state : Bytes)
    → Encodes 1 id (Item.uint n)
    → Encodes 1 tag (Item.str (utf8 NodeId.type_tag))
    → Encodes 4 state (object state_fields)
    → Writes 6
        (NodeId.map (("node", id) ∷ ("type_tag", tag) ∷ ("state", state) ∷ []))
        (object (node_fields n))
unfolding utf8
node-Writes n id tag state r_id r_tag r_state = map-Writes 4 _ (node_fields n) (omega arith) (
    (
      omega arith,
      refl,
      Encodes-mono 1 4 id _ (omega arith) r_id,
      (
        omega arith,
        refl,
        Encodes-mono 1 4 tag _ (omega arith) r_tag,
        (omega arith, refl, r_state, tt),
      ),
    ))

body-Writes :
    (n : ℕ) (epoch nodes edges roots : Bytes)
    → Encodes 1 epoch (Item.uint NodeId.epoch)
    → Encodes 7 nodes (Item.array (one_item (object (node_fields n))))
    → Encodes 1 edges (Item.array no_items)
    → Encodes 2 roots (Item.array (one_item (Item.uint n)))
    → Writes 9
        (NodeId.map
          (("epoch", epoch) ∷ ("nodes", nodes) ∷ ("edges", edges) ∷ ("roots", roots) ∷ []))
        (object (body_fields n))
unfolding utf8
body-Writes n epoch nodes edges roots r_epoch r_nodes r_edges r_roots =
    map-Writes 7 _ (body_fields n) (omega arith) (
      (
        omega arith,
        refl,
        Encodes-mono 1 7 epoch _ (omega arith) r_epoch,
        (
          omega arith,
          refl,
          r_nodes,
          (
            omega arith,
            refl,
            Encodes-mono 1 7 edges _ (omega arith) r_edges,
            (omega arith, refl, Encodes-mono 2 7 roots _ (omega arith) r_roots, tt),
          ),
        ),
      ))

frame-Writes :
    (n : ℕ) (body : Bytes)
    → Encodes 9 body (object (body_fields n))
    → Writes 11 (NodeId.map (("Snapshot", body) ∷ [])) (snapshot_item n)
unfolding utf8
frame-Writes n body r = map-Writes 9 _ _ (omega arith) (omega arith, refl, r, tt)

-- Every unsigned 64-bit identifier is written, and the frame decodes to a snapshot that carries
-- that identifier, unrounded, as its node and as its root.
pub snapshot_exact :
    (n : ℕ) → n ≤ u64_max → Writes 11 (NodeId.snapshot_msgpack (pos n)) (snapshot_item n)
unfolding NodeId.snapshot_msgpack
snapshot_exact n h =
    let (id, e_id, r_id) = uint-Writes n h in
    let (tag, e_tag, r_tag) = str-Writes NodeId.type_tag (unfold utf8 in omega arith) in
    let (numbers, e_numbers, r_numbers, l) = uints-Writes NodeId.payload (omega arith) in
    let (raw, e_raw, r_raw) = array-Writes 1 numbers _ (omega (arith, l)) r_numbers in
    let (state, e_state, r_state) = state-Writes raw r_raw in
    let (node, e_node, r_node) = node-Writes n id tag state r_id r_tag r_state in
    let (epoch, e_epoch, r_epoch) = uint-Writes NodeId.epoch (omega arith) in
    let (nodes, e_nodes, r_nodes) =
      array-Writes 6 (node ∷ []) (one_item _) (omega arith) (r_node, tt) in
    let (edges, e_edges, r_edges) = array-Writes 0 [] no_items (omega arith) tt in
    let (roots, e_roots, r_roots) =
      array-Writes 1 (id ∷ []) (one_item _) (omega arith) (r_id, tt) in
    let (body, e_body, r_body) =
      body-Writes n epoch nodes edges roots r_epoch r_nodes r_edges r_roots in
    let (frame, e_frame, r_frame) = frame-Writes n body r_body in
    (
      frame,
      rw
          (
            e_id, e_tag, e_numbers, e_raw, e_state, e_node, e_epoch, e_nodes, e_edges, e_roots,
            e_body,
          )
          e_frame,
      r_frame,
    )

large : (n : ℕ) → u64_max < n → NodeId.uint (pos n) ≡ err large_number
unfolding NodeId.uint
large n h = ground arith

refused :
    (n : ℕ) (frame : Bytes) → u64_max < n → NodeId.snapshot_msgpack (pos n) ≡ ok frame → n ≤ u64_max
unfolding NodeId.snapshot_msgpack
refused n frame h e = cc (rw (large n h) at e)

-- A frame is written for exactly the unsigned 64-bit identifiers.
pub snapshot_msgpack_iff :
    (z : ℤ)
    → ((frame : Bytes) × (NodeId.snapshot_msgpack z ≡ ok frame))
      ↔ ((n : ℕ) × (z ≡ pos n) × (n ≤ u64_max))
unfolding NodeId.snapshot_msgpack NodeId.uint
snapshot_msgpack_iff (negsuc m) = (λ (frame, e). cc, λ (n, e, h). cc)
snapshot_msgpack_iff (pos n) = (
  λ (frame, e). elim (Bool-cases (leb n u64_max)) [
    | inl h ↦ (n, refl, ground (arith, h))
    | inr h ↦ (n, refl, refused n frame (ground (arith, h)) e)
  ],
  λ (m, e, h).
      let same_number : n ≡ m = cc in
      let (frame, written, r) = snapshot_exact n (omega arith) in (frame, written),
)
