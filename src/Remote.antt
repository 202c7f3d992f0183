-- ===== src/Remote.antt =====
-- The database of the host (script/src/db.rs: `RemoteDb`), which fetches from a provider what the
-- execution of a block asks for and records it.
pub mod Headers
pub mod Recorded
pub mod Slots
pub mod Fetches
pub mod Runs
pub mod Requests
pub mod Keys
pub mod Ancestors
pub mod Tests
use sp1_reth.Prelude.{
  ℕ, zero, suc, ◌+◌, ◌-◌, ◌%◌, Bool, true, false, List, [], ◌∷◌, ◌++◌, Option, none, some, Outcome,
  ok, err, panic, ◌>>=◌, map, min, ltb, if◌then◌else◌, lookup, put,
}
use sp1_reth.Nibbles.{Bytes}
use sp1_reth.Mpt.Node.{B256}
use sp1_reth.Block.{Address, Header, u64_mod}
use sp1_reth.Processor.{Run}
use sp1_reth.Processor.Execute.{AccountInfo}
use sp1_reth.Alloy.{AlloyTransaction, AlloyWithdrawal}
use sp1_reth.Alloy.Headers.{AlloyHeader}
use sp1_reth.Db.{
  nat_keys, bytes_keys, DbAccount, InMemoryDb, DbError, get_account_info, get_storage_slot,
  storage_keys, insert_block_hash,
}
use sp1_reth.Tries.{AccountProof, Proofs}
use sp1_reth.Remote.Headers.{remote_header}

-- `Block` of `alloy_rpc_types`, with the hash of its header; without transactions when only their
-- hashes were asked for.
pub record RpcBlock : Type 0 where
  pub header : AlloyHeader
  pub header_hash : Option B256
  pub transactions : Option (List AlloyTransaction)
  pub withdrawals : Option (List AlloyWithdrawal)

-- What `HttpProvider` answers, at a block's number where it takes one; `none` is an error.
pub record Provider : Type 0 where
  pub get_transaction_count : Address → ℕ → Option ℕ
  pub get_balance : Address → ℕ → Option ℕ
  pub get_code_at : Address → ℕ → Option Bytes
  pub get_storage_at : Address → ℕ → ℕ → Option ℕ
  pub get_proof : Address → List B256 → ℕ → Option AccountProof
  -- The inner `none` is a missing block.
  pub get_block : ℕ → Option (Option RpcBlock)
  pub get_block_by_number : ℕ → Bool → Option (Option RpcBlock)

-- What the code uses of `revm`, whose `CacheDB` has no database below it.
pub record CacheOps (Changes : Type 0) : Type 0 where
  pub info_of : DbAccount → Option AccountInfo
  -- `AccountInfo::new` with the hash of the code.
  pub account_info : ℕ → ℕ → Bytes → AccountInfo
  pub insert_account_info : Address → AccountInfo → InMemoryDb → InMemoryDb
  pub insert_account_storage : Address → ℕ → ℕ → InMemoryDb → Option InMemoryDb
  -- `Database::basic` and `Database::block_hash`, which may cache what they answer.
  pub basic : Address → InMemoryDb → Option InMemoryDb
  pub block_hash : ℕ → InMemoryDb → Option (B256 × InMemoryDb)
  pub commit : Changes → InMemoryDb → InMemoryDb
  -- `U256::to_be_bytes`.
  pub to_be_bytes : ℕ → B256

pub record RemoteDb : Type 0 where
  pub block_number : ℕ
  pub initial_db : InMemoryDb
  pub current_db : InMemoryDb

abbrev pub empty_db : InMemoryDb
empty_db = record { accounts = []; block_hashes = [] }

unfoldable pub new : ℕ → RemoteDb
new block_number = record {
  block_number = block_number;
  initial_db = empty_db;
  current_db = empty_db;
}

-- The calls return an `anyhow::Error`, whose text is not kept.
abbrev pub Fetched : Type 0 → Type 0
Fetched A = Outcome (Unit {0}) A

-- `?` on an answer of the provider or of `revm`.
abbrev pub lift : {A : Type 0} → Option A → Fetched A
lift none = err tt
lift (some a) = ok a

-- `unwrap` of an option, and of an answer.
abbrev pub unwrap : {A : Type 0} → Option A → Fetched A
unwrap none = panic
unwrap (some a) = ok a

-- What a local database knows ends the call; an error sends it on.
abbrev pub or_else : {A : Type 0} → Outcome DbError A → Fetched A → Fetched A
or_else (ok a) next = ok a
or_else (err e) next = next
or_else panic next = panic

abbrev pub known : {A : Type 0} → RemoteDb → Outcome DbError A → Outcome DbError (A × RemoteDb)
known db (ok a) = ok (a, db)
known db (err e) = err e
known db panic = panic

-- The slots of an entry, or none where it is missing.
abbrev pub indices_of : Option (List ℕ) → List ℕ
indices_of none = []
indices_of (some indices) = indices

-- A conversion has no error: it panics.
abbrev pub as_fetched : {A : Type 0} → Run A → Fetched A
as_fetched (ok a) = ok a
as_fetched (err e) = absurd e
as_fetched panic = panic

-- The least number that the map has a hash for, or the given one.
abbrev pub least : ℕ → List (ℕ × B256) → ℕ
least n [] = n
least n ((k, hash) ∷ rest) = min k (least n rest)

abbrev pub earliest_of : ℕ → List (ℕ × B256) → ℕ
earliest_of block_number [] = block_number
earliest_of block_number ((k, hash) ∷ rest) = least k rest

abbrev pub or_panic : Outcome DbError InMemoryDb → Fetched InMemoryDb
or_panic (ok db) = ok db
or_panic (err e) = panic
or_panic panic = panic

-- The keys of the second map, appended to those of the first.
unfoldable pub merge_keys :
    List (Address × List ℕ) → List (Address × List ℕ) → List (Address × List ℕ)
merge_keys keys [] = keys
merge_keys keys ((address, indices) ∷ rest) =
    merge_keys (put address (indices_of (lookup address keys) ++ indices) keys) rest

-- `as_limbs()[0]` of it.
abbrev pub earliest : RemoteDb → ℕ
earliest db = earliest_of db.block_number db.initial_db.block_hashes % u64_mod

module _ {Changes : Type 0} (provider : Provider) (ops : CacheOps Changes) where
  open provider use {
    get_transaction_count, get_balance, get_code_at, get_storage_at, get_proof, get_block,
    get_block_by_number,
  }
  open ops use {info_of, account_info, insert_account_info, insert_account_storage, to_be_bytes}

  -- The account from the provider. A nonce that is no `u64` panics.
  unfoldable pub fetch_account : RemoteDb → Address → Fetched (Option AccountInfo × RemoteDb)
  fetch_account db address = do
    nonce ← lift (get_transaction_count address db.block_number)
    balance ← lift (get_balance address db.block_number)
    code ← lift (get_code_at address db.block_number)
    nonce_u64 ← unwrap (if ltb nonce u64_mod then some nonce else none)
    let info = account_info balance nonce_u64 code
    ok (some info, record db { initial_db = insert_account_info address info db.initial_db })

  unfoldable pub basic : RemoteDb → Address → Fetched (Option AccountInfo × RemoteDb)
  unfolding get_account_info fetch_account
  basic db address = or_else (known db (get_account_info info_of db.current_db address)) (
      or_else (known db (get_account_info info_of db.initial_db address))
        (fetch_account db address))

  unfoldable pub fetch_slot : RemoteDb → Address → ℕ → Fetched (ℕ × RemoteDb)
  fetch_slot db address index = do
    loaded ← lift (ops.basic address db.initial_db)
    value ← lift (get_storage_at address index db.block_number)
    stored ← lift (insert_account_storage address index value loaded)
    ok (value, record db { initial_db = stored })

  unfoldable pub storage : RemoteDb → Address → ℕ → Fetched (ℕ × RemoteDb)
  unfolding get_storage_slot fetch_slot
  storage db address index = or_else (known db (get_storage_slot db.current_db address index)) (
      or_else (known db (get_storage_slot db.initial_db address index))
        (fetch_slot db address index))

  -- The hash from the provider; a missing block panics, as a number that is no `u64` does.
  unfoldable pub fetch_block_hash : RemoteDb → ℕ → Fetched (B256 × RemoteDb)
  unfolding insert_block_hash
  fetch_block_hash db number = do
    block_number ← unwrap (if ltb number u64_mod then some number else none)
    found ← unwrap (get_block_by_number block_number false)
    block ← unwrap found
    hash ← unwrap block.header_hash
    stored ← or_panic (insert_block_hash db.initial_db block_number hash)
    ok (hash, record db { initial_db = stored })

  unfoldable pub block_hash : RemoteDb → ℕ → Fetched (B256 × RemoteDb)
  unfolding fetch_block_hash
  block_hash db number = elim (ops.block_hash number db.initial_db) [
    | none ↦ fetch_block_hash db number
    | some (hash, cached) ↦ ok (hash, record db { initial_db = cached })
  ]

  -- `unreachable!()`.
  unfoldable pub code_by_hash : RemoteDb → B256 → Fetched (Bytes × RemoteDb)
  code_by_hash db code_hash = panic

  unfoldable pub commit : Changes → RemoteDb → RemoteDb
  commit changes db = record db { current_db = ops.commit changes db.current_db }

  unfoldable pub fetch_storage_proofs : ℕ → List (Address × List ℕ) → Fetched Proofs
  fetch_storage_proofs block_number [] = ok []
  fetch_storage_proofs block_number ((address, keys) ∷ storage_keys) = do
    proof ← lift (get_proof address (map to_be_bytes keys) block_number)
    proofs ← fetch_storage_proofs block_number storage_keys
    ok ((address, proof) ∷ proofs)

  unfoldable pub fetch_initial_storage_proofs : RemoteDb → Fetched Proofs
  unfolding fetch_storage_proofs storage_keys
  fetch_initial_storage_proofs db =
      fetch_storage_proofs db.block_number (storage_keys db.initial_db)

  unfoldable pub fetch_latest_storage_proofs : RemoteDb → Fetched Proofs
  unfolding fetch_storage_proofs storage_keys merge_keys
  fetch_latest_storage_proofs db =
      fetch_storage_proofs ((db.block_number + 1) % u64_mod)
        (merge_keys (storage_keys db.initial_db) (storage_keys db.current_db))

  unfoldable pub fetch_header : ℕ → Fetched Header
  unfolding remote_header
  fetch_header number = do
    found ← unwrap (get_block number)
    block ← unwrap found
    as_fetched (remote_header block.header)

  -- The headers below `number`, downwards, `count` many.
  unfoldable pub fetch_headers : ℕ → ℕ → Fetched (List Header)
  unfolding fetch_header
  fetch_headers number zero = ok []
  fetch_headers number (suc count) = do
    header ← fetch_header (number - 1)
    headers ← fetch_headers (number - 1) count
    ok (header ∷ headers)

  unfoldable pub fetch_ancestor_headers : RemoteDb → Fetched (List Header)
  unfolding fetch_headers
  fetch_ancestor_headers db = fetch_headers db.block_number (db.block_number - earliest db)
