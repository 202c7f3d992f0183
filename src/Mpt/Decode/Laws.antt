-- ===== src/Mpt/Decode/Laws.antt =====
-- What the crates `rlp` and `alloy_rlp` promise each other: the items that one encodes, the other
-- reads.
use sp1_reth.Prelude.{ℕ, zero, suc, ◌+◌, ◌≡◌, List, [], ◌∷◌, ◌++◌, Option, none, some, length}
use sp1_reth.Nibbles.{Bytes}
use sp1_reth.Mpt.Node.{B256}
use sp1_reth.Mpt.Codec.{Codec, empty_string_code}
use sp1_reth.Mpt.Decode.{string, list, RlpReader}

abbrev pub concat : List Bytes → Bytes
concat [] = []
concat (x ∷ xs) = x ++ concat xs

abbrev pub nth : List Bytes → ℕ → Option Bytes
nth [] i = none
nth (x ∷ xs) zero = some x
nth (x ∷ xs) (suc i) = nth xs i

-- The encodings of byte strings, and of lists of items.
mutual
  pub data IsItem (codec : Codec) : Bytes → Type 0 where
    is_string : (r bs : Bytes) → r ≡ codec.encode_bytes bs → IsItem codec r
    is_list :
        (r : Bytes) (xs : List Bytes)
        → AreItems codec xs
        → r ≡ codec.encode_header (length (concat xs)) ++ concat xs
        → IsItem codec r

  pub data AreItems (codec : Codec) : List Bytes → Type 0 where
    no_items : AreItems codec []
    more_items :
        (x : Bytes) (xs : List Bytes) → IsItem codec x → AreItems codec xs → AreItems codec (x ∷ xs)

-- What the reader sees in a list of these items.
pub record Lists (reader : RlpReader) (r : Bytes) (xs : List Bytes) : Type 0 where
  pub prototype_lem : reader.prototype r ≡ some (list (length xs))
  pub items_lem : reader.items r ≡ xs
  pub item_at_lem : (i : ℕ) → reader.item_at r i ≡ nth xs i

pub record RlpLaws (codec : Codec) (reader : RlpReader) : Type 0 where
  -- A string of fewer than 56 bytes, but not of one, has its length in front.
  pub encode_bytes_empty : codec.encode_bytes [] ≡ empty_string_code ∷ []
  pub encode_bytes_digest :
      (d : B256) → length d ≡ 32 → codec.encode_bytes d ≡ (empty_string_code + 32) ∷ d
  pub encode_b256_lem : (d : B256) → length d ≡ 32 → codec.encode_b256 d ≡ codec.encode_bytes d
  pub prototype-encode_bytes :
      (bs : Bytes) → reader.prototype (codec.encode_bytes bs) ≡ some (string (length bs))
  pub as_val-encode_bytes : (bs : Bytes) → reader.as_val (codec.encode_bytes bs) ≡ some bs
  pub lists :
      (xs : List Bytes)
      → AreItems codec xs
      → Lists reader (codec.encode_header (length (concat xs)) ++ concat xs) xs
