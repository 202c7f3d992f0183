-- ===== src/Processor/TxEnv.antt =====
-- `fill_eth_tx_env` of primitives/src/processor.rs: the EVM's transaction environment, which is
-- reused from one transaction to the next.
use mathlib.Core.Path.{ap₂}
use sp1_reth.Prelude.{
  subst, ◌∙◌, ok_unique, ℕ, ◌≡◌, refl, List, [], Option, none, some, ok, panic, map, arith,
}
use sp1_reth.Nibbles.{Bytes}
use sp1_reth.Mpt.Node.{B256}
use sp1_reth.Block.{
  Address, TransactionKind, create, call, AccessListItem, Transaction, legacy, eip2930, eip1559,
  eip4844,
}
use sp1_reth.Processor.{Run}

-- `TransactTo::create()` and `TransactTo::Call`.
pub data TransactTo : Type 0 where
  to_create : TransactTo
  to_call : Address → TransactTo

pub record TxEnv : Type 0 where
  pub caller : Address
  pub gas_limit : ℕ
  pub gas_price : ℕ
  pub gas_priority_fee : Option ℕ
  pub transact_to : TransactTo
  pub value : ℕ
  pub input : Bytes
  pub chain_id : Option ℕ
  pub nonce : Option ℕ
  pub access_list : List (Address × List ℕ)
  pub blob_hashes : List B256
  pub max_fee_per_blob_gas : Option ℕ

abbrev pub target : TransactionKind → TransactTo
target (call to_addr) = to_call to_addr
target create = to_create

-- `to_u256` is `U256::from` on the bytes of a key.
abbrev pub access_entries : (B256 → ℕ) → List AccessListItem → List (Address × List ℕ)
access_entries to_u256 items =
    map (λ (item : AccessListItem). (item.address, map to_u256 item.storage_keys)) items

-- The assignments in the order of the source, which leave the fields of blobs as they are; a blob
-- transaction is `todo!()`.
unfoldable pub fill_eth_tx_env : (B256 → ℕ) → TxEnv → Transaction → Address → Run TxEnv
fill_eth_tx_env to_u256 tx_env (legacy tx chain gas_price) caller = ok (record tx_env {
  caller = caller;
  gas_limit = tx.gas_limit;
  gas_price = gas_price;
  gas_priority_fee = none;
  transact_to = target tx.to;
  value = tx.value;
  input = tx.input;
  chain_id = chain;
  nonce = some tx.nonce;
  access_list = [];
})
fill_eth_tx_env to_u256 tx_env (eip2930 tx chain gas_price items) caller = ok (record tx_env {
  caller = caller;
  gas_limit = tx.gas_limit;
  gas_price = gas_price;
  gas_priority_fee = none;
  transact_to = target tx.to;
  value = tx.value;
  input = tx.input;
  chain_id = some chain;
  nonce = some tx.nonce;
  access_list = access_entries to_u256 items;
})
fill_eth_tx_env to_u256 tx_env (eip1559 tx chain max_fee max_priority_fee items) caller =
    ok (record tx_env {
      caller = caller;
      gas_limit = tx.gas_limit;
      gas_price = max_fee;
      gas_priority_fee = some max_priority_fee;
      transact_to = target tx.to;
      value = tx.value;
      input = tx.input;
      chain_id = some chain;
      nonce = some tx.nonce;
      access_list = access_entries to_u256 items;
    })
fill_eth_tx_env to_u256 tx_env (eip4844 tx) caller = panic

-- `Transaction::gas_limit` of `reth_primitives`.
abbrev pub tx_gas_limit : Transaction → ℕ
tx_gas_limit (legacy tx chain gas_price) = tx.gas_limit
tx_gas_limit (eip2930 tx chain gas_price items) = tx.gas_limit
tx_gas_limit (eip1559 tx chain max_fee max_priority_fee items) = tx.gas_limit
tx_gas_limit (eip4844 tx) = tx.gas_limit

-- The fields that `fill_eth_tx_env` leaves as they are.
abbrev pub SameBlobs : TxEnv → TxEnv → Type 0
SameBlobs env other =
    (env.blob_hashes ≡ other.blob_hashes) × (env.max_fee_per_blob_gas ≡ other.max_fee_per_blob_gas)

filled_at :
    (to_u256 : B256 → ℕ) (before other : TxEnv) (tx : Transaction) (caller : Address)
    → fill_eth_tx_env to_u256 before tx caller
      ≡ fill_eth_tx_env to_u256
          (record other {
            blob_hashes = before.blob_hashes;
            max_fee_per_blob_gas = before.max_fee_per_blob_gas;
          })
          tx
          caller
unfolding fill_eth_tx_env
filled_at to_u256 before other (legacy tx c g) caller = refl
filled_at to_u256 before other (eip2930 tx c g items) caller = refl
filled_at to_u256 before other (eip1559 tx c m f items) caller = refl
filled_at to_u256 before other (eip4844 tx) caller = refl

kept_by :
    (before : TxEnv) {env filled : TxEnv}
    → filled ≡ env
    → SameBlobs filled before
    → SameBlobs env before
kept_by before e h = subst (λ x. SameBlobs x before) e h

-- What is filled in depends on the transaction, its sender and the fields of blobs.
pub fill_eth_tx_env_same :
    (to_u256 : B256 → ℕ) (before other : TxEnv) (tx : Transaction) (caller : Address)
    → SameBlobs before other
    → fill_eth_tx_env to_u256 before tx caller ≡ fill_eth_tx_env to_u256 other tx caller
fill_eth_tx_env_same to_u256 before other tx caller (hashes, fee) =
    filled_at to_u256 before other tx caller
    ∙ ap₂
        (λ b m.
          fill_eth_tx_env to_u256 (record other { blob_hashes = b; max_fee_per_blob_gas = m }) tx
            caller)
        hashes fee

pub fill_eth_tx_env-SameBlobs :
    (to_u256 : B256 → ℕ) (before : TxEnv) (tx : Transaction) (caller : Address) (env : TxEnv)
    → fill_eth_tx_env to_u256 before tx caller ≡ ok env
    → SameBlobs env before
unfolding fill_eth_tx_env
fill_eth_tx_env-SameBlobs to_u256 before (legacy tx c g) caller env e =
    kept_by before (ok_unique _ refl e) (refl, refl)
fill_eth_tx_env-SameBlobs to_u256 before (eip2930 tx c g items) caller env e =
    kept_by before (ok_unique _ refl e) (refl, refl)
fill_eth_tx_env-SameBlobs to_u256 before (eip1559 tx c m f items) caller env e =
    kept_by before (ok_unique _ refl e) (refl, refl)
fill_eth_tx_env-SameBlobs to_u256 before (eip4844 tx) caller env e = cc

pub fill_eth_tx_env-gas :
    (to_u256 : B256 → ℕ) (before : TxEnv) (tx : Transaction) (caller : Address) (env : TxEnv)
    → fill_eth_tx_env to_u256 before tx caller ≡ ok env
    → env.gas_limit ≡ tx_gas_limit tx
unfolding fill_eth_tx_env
fill_eth_tx_env-gas to_u256 before (legacy tx c g) caller env e = ground arith
fill_eth_tx_env-gas to_u256 before (eip2930 tx c g items) caller env e = ground arith
fill_eth_tx_env-gas to_u256 before (eip1559 tx c m f items) caller env e = ground arith
fill_eth_tx_env-gas to_u256 before (eip4844 tx) caller env e = cc
