-- ===== src/Mpt/Codec.antt =====
-- What primitives/src/mpt.rs uses of the crates `alloy_rlp` and `alloy_primitives`: Keccak-256, and
-- the RLP encodings of byte strings, of hashes and of headers, with their lengths.
use sp1_reth.Prelude.{ℕ, ◌<◌, ◌≡◌, length}
use sp1_reth.Nibbles.{Bytes, IsBytes}
use sp1_reth.Mpt.Node.{B256}

pub record Codec : Type 0 where
  -- `keccak256`, a hash of 32 bytes.
  pub keccak : Bytes → B256
  pub length-keccak : (bs : Bytes) → length (keccak bs) ≡ 32
  pub keccak-IsBytes : (bs : Bytes) → IsBytes (keccak bs)
  -- `<[u8] as Encodable>::encode` and `::length`, which measures what `encode` writes.
  pub encode_bytes : Bytes → Bytes
  pub length_bytes : Bytes → ℕ
  pub length-encode_bytes : (bs : Bytes) → length (encode_bytes bs) ≡ length_bytes bs
  -- `<B256 as Encodable>::encode`: the length byte and the 32 bytes.
  pub encode_b256 : B256 → Bytes
  pub length-encode_b256 : (d : B256) → length d ≡ 32 → length (encode_b256 d) ≡ 33
  -- `Header { list: true, payload_length }.encode`, and `length_of_length`, which measures it and
  -- is 1 for payloads below 56 bytes.
  pub encode_header : ℕ → Bytes
  pub length_of_length : ℕ → ℕ
  pub length-encode_header : (n : ℕ) → length (encode_header n) ≡ length_of_length n
  pub length_of_length_short : (n : ℕ) → n < 56 → length_of_length n ≡ 1

-- `alloy_rlp::EMPTY_STRING_CODE`.
abbrev pub empty_string_code : ℕ
empty_string_code = 0x80
