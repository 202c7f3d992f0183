-- ===== src/Lib.antt =====
-- A verification library of sp1-reth: the execution of an Ethereum block from a witness. The host
-- (script/src) executes the block on a database that fetches what it needs from a provider, asks for
-- Merkle proofs of what was read, and builds the guest's input from them. The guest (program/src)
-- loads a database from the tries in its input (primitives/src/db.rs), prepares a header and executes
-- the transactions on that database (processor.rs), and hashes tries of accounts and storage
-- (mpt.rs). The tries come from Merkle proofs, so that nodes outside the proofs are digests.
--
-- The files and the code they model:
-- - Prelude: shared names, tests on numbers and byte strings, lists, maps as lists of entries, and
--   `Outcome`: a call returns, returns an error, or panics. A method of an object takes it and
--   returns it changed.
-- - Nibbles (primitives/src/mpt.rs): `to_nibs`, `to_encoded_path`, `lcp`, `prefix_nibs`.
-- - Mpt/Node (mpt.rs): `MptNode` with its cached reference; the array of 16 children is a list
--   with vacant slots. Mpt/Canonical is the shape that the methods keep.
-- - Mpt/Get, Mpt/Insert, Mpt/Delete (mpt.rs): `get`, `insert`, `delete` and their internal methods,
--   one definition for each arm that is longer than a few lines. Mpt/Map has the trie as a map from
--   keys to values.
-- - Mpt/Reference (mpt.rs): `encode`, `length`, `reference`, `hash`. The cache behind a `RefCell` is
--   explicit: `warm` is the node after `reference`, and `hashed` the node after `hash`.
-- - Mpt/Proof (mpt.rs): `mpt_from_proof`, `is_not_included`, `resolve_nodes`, `shorten_node_path`,
--   `node_from_digest`.
-- - Mpt/Decode (mpt.rs): `<MptNode as Decodable>::decode`, `MptNode::decode`, `parse_proof`.
-- - Tries (mpt.rs): `proofs_to_tries`, `add_orphaned_leafs`. Tries/Gathers and Tries/Accounts follow
--   their course for any properties that are to be kept, which Tries/Hash and Tries/Fuel fill in.
-- - Block (primitives/src/lib.rs): `SP1RethInput`, and the fields of reth's types that are read.
-- - Processor (primitives/src/processor.rs): the checks of the header and `initialize`;
--   Processor/TxEnv: `fill_eth_tx_env`; Processor/Execute: `execute`, `increase_account_balance`;
--   Processor/Finalize: `finalize`, which writes the accounts back to the tries.
-- - Db (primitives/src/db.rs): `InMemoryDBHelper`, with `StateAccount` and `get_rlp` of mpt.rs.
-- - Guest (program/src/main.rs): `main`, the composition of all of these.
-- - Alloy (primitives/src/alloy2reth.rs): the conversions of the RPC library's types.
-- - Remote (script/src/db.rs): `RemoteDb`, the database of the host. Remote/Runs has the sequences of
--   calls that an execution makes on it.
-- - Host (script/src/init.rs): `SP1RethInput::initialize`, the composition of the host's parts.
--
-- Parameters stand for the code of other crates: `Codec` for Keccak and RLP, `RlpReader` for the
-- views of the crate `rlp`; `HeaderOps`, `DbOps` and `Encoders` for headers, decoders, encoders and
-- bytecode; `Evm` for the EVM, its database, the roots of ordered tries and the number that 32 bytes
-- are; `Provider` for the RPC provider and `CacheOps` for revm's cache. Their laws are the lengths
-- of hashes and encodings, that a hash is made of bytes, that an item is shorter than the list it is
-- in, that the reader reads what the encoder wrote (`RlpLaws`), that no encoding of an account or a
-- number is empty, that a transaction uses no more gas than its limit, and that the cache changes no
-- other slot than the one it is given and tells of an account only what was inserted (`CacheLaws`).
-- Numbers are unbounded where the code's type cannot overflow; the wrap-around and the checked
-- operations on `u64` and `U256` are written out. Two functions have fuel: `resolve_nodes`, and with
-- it `proofs_to_tries` and `initialize` of the host, counts the passes through the store, and fuel
-- above the ranks is enough where the digests have ranks that fall from each node to the digests in
-- it; decoding counts nested lists, and `decode` gives it more than the length of its bytes.
--
-- Not modelled: `size` and `debug_rlp` of mpt.rs, which are for debugging; `main` of the host
-- (script/src/main.rs), which reads arguments, caches the input in a file and calls the prover; its
-- build script.
pub mod Prelude
pub mod Nibbles
pub mod Mpt
pub mod Block
pub mod Processor
pub mod Db
pub mod Tries
pub mod Remote
pub mod Host
pub mod Guest
pub mod Alloy
