-- ===== src/Block.antt =====
-- The data of a block: `SP1RethInput` of primitives/src/lib.rs, and the fields of the `reth` types
-- that the program reads or writes. Addresses, hashes and byte strings are lists of bytes; a `u64`
-- or `U256` is a number.
use sp1_reth.Prelude.{ℕ, Bool, List, Option, ◌^◌}
use sp1_reth.Nibbles.{Bytes}
use sp1_reth.Mpt.Node.{B256, MptNode}

abbrev pub Address : Type 0
Address = Bytes

abbrev pub u64_mod : ℕ
u64_mod = 2 ^ 64

abbrev pub u256_mod : ℕ
u256_mod = 2 ^ 256

pub record Header : Type 0 where
  pub parent_hash : B256
  pub ommers_hash : B256
  pub beneficiary : Address
  pub state_root : B256
  pub transactions_root : B256
  pub receipts_root : B256
  pub withdrawals_root : Option B256
  pub logs_bloom : Bytes
  pub difficulty : ℕ
  pub number : ℕ
  pub gas_limit : ℕ
  pub gas_used : ℕ
  pub timestamp : ℕ
  pub mix_hash : B256
  pub extra_data : Bytes
  pub nonce : ℕ
  pub base_fee_per_gas : Option ℕ
  pub blob_gas_used : Option ℕ
  pub excess_blob_gas : Option ℕ
  pub parent_beacon_block_root : Option B256

pub data TransactionKind : Type 0 where
  create : TransactionKind
  call : Address → TransactionKind

pub record AccessListItem : Type 0 where
  pub address : Address
  pub storage_keys : List B256

-- The fields that all three kinds of transaction have.
pub record TxCommon : Type 0 where
  pub nonce : ℕ
  pub gas_limit : ℕ
  pub to : TransactionKind
  pub value : ℕ
  pub input : Bytes

pub data Transaction : Type 0 where
  -- With its optional chain and its gas price.
  legacy : TxCommon → Option ℕ → ℕ → Transaction
  -- With its chain, gas price and access list.
  eip2930 : TxCommon → ℕ → ℕ → List AccessListItem → Transaction
  -- With its chain, the maximal fee and priority fee, and access list.
  eip1559 : TxCommon → ℕ → ℕ → ℕ → List AccessListItem → Transaction
  -- A blob transaction, of which only these fields are read.
  eip4844 : TxCommon → Transaction

pub record Signature : Type 0 where
  pub r : ℕ
  pub s : ℕ
  pub odd_y_parity : Bool

-- `TransactionSignedNoHash`.
pub record SignedTransaction : Type 0 where
  pub signature : Signature
  pub transaction : Transaction

pub record Withdrawal : Type 0 where
  pub index : ℕ
  pub validator_index : ℕ
  pub address : Address
  pub amount : ℕ

-- The trie of an account's storage, and the slots that the block touches.
abbrev pub StorageEntry : Type 0
StorageEntry = MptNode × List ℕ

-- A `HashMap` is the list of its entries.
pub record Sp1RethInput : Type 0 where
  pub parent_header : Header
  pub beneficiary : Address
  pub gas_limit : ℕ
  pub timestamp : ℕ
  pub extra_data : Bytes
  pub mix_hash : B256
  pub parent_state_trie : MptNode
  pub parent_storage : List (Address × StorageEntry)
  pub contracts : List Bytes
  pub ancestor_headers : List Header
  pub transactions : List SignedTransaction
  pub withdrawals : List Withdrawal
