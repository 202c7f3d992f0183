-- ===== src/Alloy.antt =====
-- The conversions of transactions, signatures, withdrawals and access lists of
-- primitives/src/alloy2reth.rs.
pub mod Kept
pub mod Keeps
pub mod Headers
mod Tests
use sp1_reth.Prelude.{
  ℕ, ◌+◌, ◌-◌, ◌%◌, ◌^◌, Bool, true, false, List, Option, none, some, Outcome, ok, panic, ◌>>=◌,
  map, ltb, ◌==◌, if◌then◌else◌,
}
use sp1_reth.Nibbles.{Bytes}
use sp1_reth.Mpt.Node.{B256}
use sp1_reth.Block.{
  Address, TransactionKind, create, call, AccessListItem, TxCommon, Transaction, legacy, eip2930,
  eip1559, Signature, SignedTransaction, Withdrawal, u64_mod, u256_mod,
}
use sp1_reth.Processor.{Run, unwrap}

-- The types of `alloy_rpc_types`, with the fields that are read.
pub record AlloySignature : Type 0 where
  pub r : ℕ
  pub s : ℕ
  pub v : ℕ

pub record AlloyAccessListItem : Type 0 where
  pub address : Address
  pub storage_keys : List B256

pub record AlloyWithdrawal : Type 0 where
  pub index : ℕ
  pub validator_index : ℕ
  pub address : Address
  pub amount : ℕ

pub record AlloyTransaction : Type 0 where
  pub transaction_type : Option ℕ
  pub chain_id : Option ℕ
  pub nonce : ℕ
  pub gas_price : Option ℕ
  pub max_fee_per_gas : Option ℕ
  pub max_priority_fee_per_gas : Option ℕ
  pub gas : ℕ
  pub to : Option Address
  pub value : ℕ
  pub input : Bytes
  pub access_list : Option (List AlloyAccessListItem)
  pub signature : Option AlloySignature

-- `try_into().unwrap()` into `w` values.
abbrev pub narrow : ℕ → ℕ → Run ℕ
narrow w n = if ltb n w then ok n else panic

abbrev pub u128_mod : ℕ
u128_mod = 2 ^ 128

unfoldable pub withdrawal_into_reth : AlloyWithdrawal → Withdrawal
withdrawal_into_reth w = record {
  index = w.index;
  validator_index = w.validator_index;
  address = w.address;
  amount = w.amount;
}

unfoldable pub item_into_reth : AlloyAccessListItem → AccessListItem
item_into_reth item = record { address = item.address; storage_keys = item.storage_keys }

-- The subtraction of `U256` wraps.
unfoldable pub signature_into_reth : AlloySignature → Signature
signature_into_reth sig =
    let recovery_id = if ltb 1 sig.v then (sig.v + u256_mod - 37) % u256_mod else sig.v in
    record { r = sig.r; s = sig.s; odd_y_parity = recovery_id == 1 }

abbrev pub kind : Option Address → TransactionKind
kind none = create
kind (some to) = call to

-- The fields that the three kinds share.
unfoldable pub common_into_reth : AlloyTransaction → Run TxCommon
common_into_reth tx = do
  nonce ← narrow u64_mod tx.nonce
  gas_limit ← narrow u64_mod tx.gas
  ok (record {
    nonce = nonce;
    gas_limit = gas_limit;
    to = kind tx.to;
    value = tx.value;
    input = tx.input;
  })

abbrev pub chain_of : Option ℕ → Run (Option ℕ)
chain_of none = ok none
chain_of (some id) = narrow u64_mod id >>= λ chain. ok (some chain)

unfoldable pub legacy_into_reth : AlloyTransaction → Run Transaction
unfolding common_into_reth
legacy_into_reth tx = do
  common ← common_into_reth tx
  chain ← chain_of tx.chain_id
  price ← unwrap tx.gas_price
  gas_price ← narrow u128_mod price
  ok (legacy common chain gas_price)

unfoldable pub eip2930_into_reth : AlloyTransaction → Run Transaction
unfolding common_into_reth item_into_reth
eip2930_into_reth tx = do
  common ← common_into_reth tx
  id ← unwrap tx.chain_id
  chain ← narrow u64_mod id
  price ← unwrap tx.gas_price
  gas_price ← narrow u128_mod price
  items ← unwrap tx.access_list
  ok (eip2930 common chain gas_price (map item_into_reth items))

unfoldable pub eip1559_into_reth : AlloyTransaction → Run Transaction
unfolding common_into_reth item_into_reth
eip1559_into_reth tx = do
  common ← common_into_reth tx
  id ← unwrap tx.chain_id
  chain ← narrow u64_mod id
  fee ← unwrap tx.max_fee_per_gas
  max_fee ← narrow u128_mod fee
  priority ← unwrap tx.max_priority_fee_per_gas
  max_priority_fee ← narrow u128_mod priority
  items ← unwrap tx.access_list
  ok (eip1559 common chain max_fee max_priority_fee (map item_into_reth items))

-- A missing type is that of a legacy transaction; one above 2 panics.
unfoldable pub inner_into_reth : AlloyTransaction → Option ℕ → Run Transaction
unfolding legacy_into_reth eip2930_into_reth eip1559_into_reth
inner_into_reth tx none = legacy_into_reth tx
inner_into_reth tx (some tx_type) =
    if tx_type == 0
    then legacy_into_reth tx
    else if tx_type == 1
    then eip2930_into_reth tx
    else if tx_type == 2
    then eip1559_into_reth tx
    else panic

unfoldable pub transaction_into_reth : AlloyTransaction → Run SignedTransaction
unfolding inner_into_reth signature_into_reth
transaction_into_reth tx = do
  inner ← inner_into_reth tx tx.transaction_type
  sig ← unwrap tx.signature
  ok (record { signature = signature_into_reth sig; transaction = inner })
