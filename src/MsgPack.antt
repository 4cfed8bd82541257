-- ===== src/MsgPack.antt =====
-- The minimal MessagePack encoders of the fixture generators, scripts/gen_nodeid_exact_range_fixture.py,
-- scripts/gen_blob_backend_discriminator_fixture.py and scripts/gen_nodekey_null_leniency_fixture.py,
-- with an independent decoder, and their digest.
pub mod Bytes
pub mod NodeId
pub mod Blob
pub mod NodeKey
pub mod Fnv
pub mod Decoder
pub mod Encodes
pub mod Agree
pub mod Snapshot
pub mod BlobDelta
mod Examples
