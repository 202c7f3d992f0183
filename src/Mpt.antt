-- ===== src/Mpt.antt =====
-- The sparse Merkle Patricia trie (primitives/src/mpt.rs), one child for each group of methods.
pub mod Node
pub mod Codec
pub mod Reference
pub mod Get
pub mod Canonical
pub mod Slots
pub mod Insert
pub mod Delete
pub mod Map
pub mod Decode
pub mod Proof
pub mod Tests
