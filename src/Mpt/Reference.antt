-- ===== src/Mpt/Reference.antt =====
-- References, hashes and encodings of nodes (primitives/src/mpt.rs: `reference`, `hash`,
-- `reference_encode`, `reference_length`, `calc_reference`, `encode`, `length`, `payload_length`).
-- A cached reference is taken as it is; where there is none it is computed from the data.
pub mod Length
pub mod Coherent
use sp1_reth.Prelude.{
  ℕ, ◌+◌, Bool, true, false, List, [], ◌∷◌, ◌++◌, Option, none, some, ltb, length, if◌then◌else◌,
}
use sp1_reth.Nibbles.{Bytes}
use sp1_reth.Mpt.Node.{
  B256, MptNode, node, MptNodeData, null, branch, leaf, extension, MptNodeReference, Children,
  no_children, vacant, child, as_data,
}
use sp1_reth.Mpt.Codec.{Codec, empty_string_code}

-- The constant `EMPTY_ROOT`.
unfoldable pub empty_root : B256
empty_root =
    0x56 ∷ 0xe8 ∷ 0x1f ∷ 0x17 ∷ 0x1b ∷ 0xcc ∷ 0x55 ∷ 0xa6 ∷ 0xff ∷ 0x83 ∷ 0x45 ∷ 0xe6 ∷ 0x92 ∷ 0xc0
    ∷ 0xf8 ∷ 0x6e ∷ 0x5b ∷ 0x48 ∷ 0xe0 ∷ 0x1b ∷ 0x99 ∷ 0x6c ∷ 0xad ∷ 0xc0 ∷ 0x01 ∷ 0x62 ∷ 0x2f
    ∷ 0xb5 ∷ 0xe3 ∷ 0x63 ∷ 0xb4 ∷ 0x21 ∷ []

-- The bytes that stand for a node inside its parent.
unfoldable pub reference_encode : MptNodeReference → Bytes
reference_encode (MptNodeReference.bytes bs) = bs
reference_encode (MptNodeReference.digest d) = (empty_string_code + 32) ∷ d

unfoldable pub reference_length : MptNodeReference → ℕ
reference_length (MptNodeReference.bytes bs) = length bs
reference_length (MptNodeReference.digest d) = 1 + 32

-- A slot of a branch: a vacant one is the empty string.
unfoldable pub slots_encode : List (Option MptNodeReference) → Bytes
unfolding reference_encode
slots_encode [] = []
slots_encode (none ∷ rs) = empty_string_code ∷ slots_encode rs
slots_encode (some r ∷ rs) = reference_encode r ++ slots_encode rs

unfoldable pub slots_length : List (Option MptNodeReference) → ℕ
unfolding reference_length
slots_length [] = 0
slots_length (none ∷ rs) = 1 + slots_length rs
slots_length (some r ∷ rs) = reference_length r + slots_length rs

module _ (codec : Codec) where
  open codec use {keccak, encode_bytes, length_bytes, encode_b256, encode_header, length_of_length}

  -- The reference of a node with this encoding.
  unfoldable pub shorten : Bytes → MptNodeReference
  shorten encoded =
      if ltb (length encoded) 32
      then MptNodeReference.bytes encoded
      else MptNodeReference.digest (keccak encoded)

  abbrev pub encode_branch : List (Option MptNodeReference) → Bytes
  encode_branch rs =
      encode_header (1 + slots_length rs) ++ (slots_encode rs ++ empty_string_code ∷ [])

  abbrev pub encode_leaf : Bytes → Bytes → Bytes
  encode_leaf prefix value =
      encode_header (length_bytes prefix + length_bytes value)
      ++ (encode_bytes prefix ++ encode_bytes value)

  abbrev pub encode_extension : Bytes → MptNodeReference → Bytes
  encode_extension prefix r =
      encode_header (length_bytes prefix + reference_length r)
      ++ (encode_bytes prefix ++ reference_encode r)

  unfoldable mutual
    unfolding shorten slots_length slots_encode

    -- The cached reference, or the one that is computed and would be cached.
    pub reference : MptNode → MptNodeReference
    reference (node d (some r)) = r
    reference (node d none) = calc_reference d

    pub calc_reference : MptNodeData → MptNodeReference
    calc_reference null = MptNodeReference.bytes (empty_string_code ∷ [])
    calc_reference (branch cs) = shorten (encode_branch (references cs))
    calc_reference (leaf prefix value) = shorten (encode_leaf prefix value)
    calc_reference (extension prefix n) = shorten (encode_extension prefix (reference n))
    calc_reference (MptNodeData.digest d) = MptNodeReference.digest d

    pub references : Children → List (Option MptNodeReference)
    references no_children = []
    references (vacant cs) = none ∷ references cs
    references (child n cs) = some (reference n) ∷ references cs

  unfoldable pub encode : MptNodeData → Bytes
  unfolding reference
  encode null = empty_string_code ∷ []
  encode (branch cs) = encode_branch (references cs)
  encode (leaf prefix value) = encode_leaf prefix value
  encode (extension prefix n) = encode_extension prefix (reference n)
  encode (MptNodeData.digest d) = encode_b256 d

  unfoldable pub payload_length : MptNodeData → ℕ
  unfolding reference
  payload_length null = 0
  payload_length (branch cs) = 1 + slots_length (references cs)
  payload_length (leaf prefix value) = length_bytes prefix + length_bytes value
  payload_length (extension prefix n) = length_bytes prefix + reference_length (reference n)
  payload_length (MptNodeData.digest d) = 32

  unfoldable pub encoded_length : MptNodeData → ℕ
  unfolding payload_length
  encoded_length d = payload_length d + length_of_length (payload_length d)

  unfoldable pub digest_of : MptNodeReference → B256
  digest_of (MptNodeReference.digest d) = d
  digest_of (MptNodeReference.bytes bs) = keccak bs

  unfoldable pub hash : MptNode → B256
  unfolding reference digest_of
  hash (node null c) = empty_root
  hash (node d c) = digest_of (reference (node d c))

  -- The node after `reference`, which fills its cache. Where nothing is cached, the references of the
  -- children are computed on the way, and cached too.
  unfoldable mutual
    unfolding reference

    pub warm : MptNode → MptNode
    warm (node d (some r)) = node d (some r)
    warm (node d none) = node (warm_data d) (some (calc_reference d))

    pub warm_data : MptNodeData → MptNodeData
    warm_data null = null
    warm_data (branch cs) = branch (warm_children cs)
    warm_data (leaf prefix value) = leaf prefix value
    warm_data (extension prefix n) = extension prefix (warm n)
    warm_data (MptNodeData.digest d) = MptNodeData.digest d

    pub warm_children : Children → Children
    warm_children no_children = no_children
    warm_children (vacant cs) = vacant (warm_children cs)
    warm_children (child n cs) = child (warm n) (warm_children cs)

  -- The node after `hash`, which does not look at the cache of an empty node.
  unfoldable pub hashed : MptNode → MptNode
  unfolding warm
  hashed (node null c) = node null c
  hashed (node d c) = warm (node d c)
