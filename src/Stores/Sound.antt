-- ===== src/Stores/Sound.antt =====
-- What the check of a checkout accepts.
pub mod Scanned
pub mod Hit
pub mod Conforms
pub mod Silence
pub mod Binding
pub mod Accepted
pub mod Words
pub mod Sparse
