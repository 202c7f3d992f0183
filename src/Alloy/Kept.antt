-- ===== src/Alloy/Kept.antt =====
-- What a converted transaction has of its source (primitives/src/alloy2reth.rs).
use sp1_reth.Prelude.{ℕ, ◌<◌, List, [], ◌∷◌, none, ◌≡◌, ◌⊎◌, Option, some}
use sp1_reth.Block.{
  Address, TransactionKind, create, call, TxCommon, AccessListItem, Signature, Transaction, legacy,
  eip2930, eip1559, eip4844, u64_mod,
}
use sp1_reth.Alloy.{AlloySignature, AlloyTransaction, AlloyAccessListItem, u128_mod}

-- A call of the recipient, or a creation where there is none.
abbrev pub SameTarget : Option Address → TransactionKind → Type 0
SameTarget none create = Unit
SameTarget none (call to_addr) = ⊥
SameTarget (some to_addr) create = ⊥
SameTarget (some to_addr) (call other) = other ≡ to_addr

-- The shared fields, and that they fit.
pub record Copies (tx : AlloyTransaction) (c : TxCommon) : Type 0 where
  pub nonce : c.nonce ≡ tx.nonce
  pub gas_limit : c.gas_limit ≡ tx.gas
  pub to : SameTarget tx.to c.to
  pub value : c.value ≡ tx.value
  pub input : c.input ≡ tx.input
  pub nonce-lt : tx.nonce < u64_mod
  pub gas-lt : tx.gas < u64_mod

-- The entries of an access list, one by one.
abbrev pub SameItems : List AlloyAccessListItem → List AccessListItem → Type 0
SameItems [] [] = Unit
SameItems [] (item ∷ items) = ⊥
SameItems (raw ∷ raws) [] = ⊥
SameItems (raw ∷ raws) (item ∷ items) =
    (item.address ≡ raw.address) × (item.storage_keys ≡ raw.storage_keys) × SameItems raws items

-- The access list is there, with these entries.
abbrev pub Lists : Option (List AlloyAccessListItem) → List AccessListItem → Type 0
Lists list items = (raws : List AlloyAccessListItem) × (list ≡ some raws) × SameItems raws items

-- The source has this number, which fits `w` values.
abbrev pub Holds : ℕ → Option ℕ → ℕ → Type 0
Holds w o n = (o ≡ some n) × (n < w)

-- The chain is that of the source, if it has one, and fits 64 bits.
abbrev pub SameChain : Option ℕ → Option ℕ → Type 0
SameChain none chain = chain ≡ none
SameChain (some id) chain = (chain ≡ some id) × (id < u64_mod)

-- The kind of the transaction is that of its number, and each of its fields is the one of its source.
abbrev pub Converts : AlloyTransaction → Transaction → Type 0
Converts tx (legacy c chain price) =
    ((tx.transaction_type ≡ none) ⊎ (tx.transaction_type ≡ some 0))
    × Copies tx c
    × SameChain tx.chain_id chain
    × Holds u128_mod tx.gas_price price
Converts tx (eip2930 c chain price items) =
    (tx.transaction_type ≡ some 1)
    × Copies tx c
    × Holds u64_mod tx.chain_id chain
    × Holds u128_mod tx.gas_price price
    × Lists tx.access_list items
Converts tx (eip1559 c chain fee priority items) =
    (tx.transaction_type ≡ some 2)
    × Copies tx c
    × Holds u64_mod tx.chain_id chain
    × Holds u128_mod tx.max_fee_per_gas fee
    × Holds u128_mod tx.max_priority_fee_per_gas priority
    × Lists tx.access_list items
Converts tx (eip4844 c) = ⊥

-- The two numbers of a signature are kept.
abbrev pub Signed : Option AlloySignature → Signature → Type 0
Signed o sig = (raw : AlloySignature) × (o ≡ some raw) × (sig.r ≡ raw.r) × (sig.s ≡ raw.s)
