-- ===== src/Mpt/Decode.antt =====
-- Decoding of nodes and proofs (primitives/src/mpt.rs: `<MptNode as Decodable>::decode`,
-- `MptNode::decode`, `parse_proof`). A view `Rlp` of the crate `rlp` is the byte string it is on.
pub mod Yields
pub mod Shape
pub mod Laws
pub mod Reads
pub mod Branch
pub mod Stub
pub mod RoundTrip
use sp1_reth.Prelude.{
  ℕ, zero, suc, ◌<◌, ◌≡◌, bit_and, Bool, true, false, List, [], ◌∷◌, Option, none, some, Outcome,
  ok, err, panic, ◌>>=◌, ◌>>◌, ◌==◌, if◌then◌else◌, length, take, All,
}
use sp1_reth.Nibbles.{Bytes}
use sp1_reth.Mpt.Node.{
  Error, legacy_rlp, MptNode, MptNodeData, null, branch, leaf, extension, digest, Children,
  no_children, vacant, child, capacity, from,
}

-- `rlp::Prototype`.
pub data Prototype : Type 0 where
  nothing : Prototype
  string : ℕ → Prototype
  list : ℕ → Prototype

-- What `decode` uses of the crate `rlp`; `none` is a `DecoderError`.
pub record RlpReader : Type 0 where
  pub prototype : Bytes → Option Prototype
  -- `Rlp::at`, the item of a list.
  pub item_at : Bytes → ℕ → Option Bytes
  -- `Rlp::iter`, the items of a list.
  pub items : Bytes → List Bytes
  -- `Rlp::as_val::<Vec<u8>>`.
  pub as_val : Bytes → Option Bytes
  -- An item is shorter than the list it is in.
  pub length-item_at : (r : Bytes) (i : ℕ) (x : Bytes) → item_at r i ≡ some x → length x < length r
  pub length-items : (r : Bytes) → All (λ x. length x < length r) (items r)

-- An error of the code, or that the fuel was used up.
pub data Stop : Type 0 where
  failed : Error → Stop
  out_of_fuel : Stop

abbrev pub Decoded : Type 0 → Type 0
Decoded A = Outcome Stop A

-- `?` on a result of the crate.
abbrev pub lift : {A : Type 0} → Option A → Decoded A
lift none = err (failed legacy_rlp)
lift (some a) = ok a

-- The pattern `Prototype::Null | Prototype::Data(0)`.
abbrev pub is_null_item : Prototype → Bool
is_null_item nothing = true
is_null_item (string n) = n == 0
is_null_item (list n) = false

module _ (reader : RlpReader) where
  open reader use {prototype, item_at, items, as_val}

  -- `Rlp::val_at::<Vec<u8>>`.
  abbrev pub val_at : Bytes → ℕ → Decoded Bytes
  val_at r i = lift (item_at r i) >>= λ x. lift (as_val x)

  -- The arms, where `next` decodes the items.
  module _ (next : Bytes → Decoded MptNode) where
    -- `path[0]` panics on an empty path.
    unfoldable pub decode_pair : Bytes → Bytes → Decoded MptNode
    decode_pair r [] = panic
    decode_pair r (prefix ∷ rest) =
        if bit_and prefix 0x20 == 0
        then (lift (item_at r 1) >>= λ x. next x >>= λ n. ok (from (extension (prefix ∷ rest) n)))
        else (val_at r 1 >>= λ value. ok (from (leaf (prefix ∷ rest) value)))

    unfoldable pub decode_slots : List Bytes → Decoded Children
    decode_slots [] = ok no_children
    decode_slots (x ∷ xs) = lift (prototype x) >>= λ p.
        if is_null_item p
        then (decode_slots xs >>= λ cs. ok (vacant cs))
        else (next x >>= λ n. decode_slots xs >>= λ cs. ok (child n cs))

    -- The conversion into an array of 16 panics on any other number of slots.
    unfoldable pub as_branch : Children → Bytes → Decoded MptNode
    as_branch cs [] = if capacity cs == 16 then ok (from (branch cs)) else panic
    as_branch cs (b ∷ bs) = err (failed legacy_rlp)

    unfoldable pub decode_list : Bytes → ℕ → Decoded MptNode
    unfolding decode_pair decode_slots as_branch
    decode_list r n =
        if n == 2
        then (val_at r 0 >>= decode_pair r)
        else if n == 17
        then (decode_slots (take 16 (items r)) >>= λ cs. val_at r 16 >>= as_branch cs)
        else err (failed legacy_rlp)

    -- `B256::from_slice` panics unless it has 32 bytes.
    abbrev pub as_digest : Bytes → Decoded MptNode
    as_digest bs = if length bs == 32 then ok (from (digest bs)) else panic

    unfoldable pub decode_as : Bytes → Prototype → Decoded MptNode
    unfolding decode_list
    decode_as r nothing = ok (from null)
    decode_as r (string n) =
        if n == 0
        then ok (from null)
        else if n == 32
        then (lift (as_val r) >>= as_digest)
        else err (failed legacy_rlp)
    decode_as r (list n) = decode_list r n

  -- Items are shorter than their list: fuel above the length is enough.
  unfoldable pub decode_loop : ℕ → Bytes → Decoded MptNode
  unfolding decode_as
  decode_loop zero r = err out_of_fuel
  decode_loop (suc fuel) r = lift (prototype r) >>= decode_as (decode_loop fuel) r

  -- The fuel of `decode` is never used up.
  abbrev pub as_error : Decoded MptNode → Outcome Error MptNode
  as_error (ok n) = ok n
  as_error (err (failed e)) = err e
  as_error (err out_of_fuel) = panic
  as_error panic = panic

  -- `MptNode::decode`.
  unfoldable pub decode : Bytes → Outcome Error MptNode
  unfolding decode_loop
  decode bs = as_error (decode_loop (suc (length bs)) bs)

  -- The first error ends it.
  unfoldable pub parse_proof : List Bytes → Outcome Error (List MptNode)
  unfolding decode
  parse_proof [] = ok []
  parse_proof (bs ∷ proof) = decode bs >>= λ n. parse_proof proof >>= λ nodes. ok (n ∷ nodes)
