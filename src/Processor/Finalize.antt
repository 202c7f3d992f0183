-- ===== src/Processor/Finalize.antt =====
-- `finalize` of primitives/src/processor.rs: the changed accounts are written to the tries.
pub mod Slots
pub mod Written
pub mod Writes
pub mod Tests
use sp1_reth.Prelude.{
  ℕ, Bool, true, false, List, [], ◌∷◌, Option, none, some, Outcome, ok, err, panic, ◌>>=◌, ◌==◌,
  if◌then◌else◌, lookup, put, ◌≢◌,
}
use sp1_reth.Nibbles.{Bytes}
use sp1_reth.Mpt.Node.{B256, MptNode, default, clear}
use sp1_reth.Mpt.Codec.{Codec}
use sp1_reth.Mpt.Reference.{hash, hashed}
use sp1_reth.Mpt.Insert.{Changed, insert_rlp}
use sp1_reth.Mpt.Delete.{delete}
use sp1_reth.Block.{Address, Header, StorageEntry, Sp1RethInput}
use sp1_reth.Db.{
  StateAccount, AccountState, not_existing, touched, storage_cleared, unchanged, DbAccount,
  InMemoryDb, bytes_keys,
}
use sp1_reth.Processor.{EvmProcessor, Run, unwrap}

-- What the program takes from `alloy_rlp` and `alloy_primitives` here.
pub record Encoders : Type 0 where
  pub codec : Codec
  pub to_be_bytes : ℕ → Bytes
  pub encode_u256 : ℕ → Bytes
  pub encode_account : StateAccount → Bytes
  -- An encoding has at least one byte.
  pub encode_u256-ne : (value : ℕ) → encode_u256 value ≢ []
  pub encode_account-ne : (account : StateAccount) → encode_account account ≢ []

-- `unwrap` of the result of a method that changes a trie.
abbrev pub unwrap_trie : Changed → Run MptNode
unwrap_trie (ok (n, b)) = ok n
unwrap_trie (err e) = panic
unwrap_trie panic = panic

-- An account whose storage was cleared starts from the empty trie.
unfoldable pub start_trie : AccountState → MptNode → MptNode
unfolding clear
start_trie storage_cleared trie = clear trie
start_trie touched trie = trie
start_trie not_existing trie = trie
start_trie unchanged trie = trie

abbrev pub state_account : DbAccount → B256 → StateAccount
state_account account storage_root = record {
  nonce = account.info.nonce;
  balance = account.info.balance;
  storage_root = storage_root;
  code_hash = account.info.code_hash;
}

-- The state trie and the storage tries of the input.
abbrev pub Tries : Type 0
Tries = MptNode × List (Address × StorageEntry)

module _ (ops : Encoders) where
  open ops use {codec, to_be_bytes, encode_u256, encode_account}

  -- One slot: a zero is no entry.
  unfoldable pub write_slot : MptNode → ℕ → ℕ → Run MptNode
  write_slot trie key value =
      if value == 0
      then unwrap_trie (delete trie (codec.keccak (to_be_bytes key)))
      else unwrap_trie (insert_rlp encode_u256 trie (codec.keccak (to_be_bytes key)) value)

  unfoldable pub write_slots : MptNode → List (ℕ × ℕ) → Run MptNode
  unfolding write_slot
  write_slots trie [] = ok trie
  write_slots trie ((key, value) ∷ rest) =
      write_slot trie key value >>= λ trie'. write_slots trie' rest

  -- Where the account has changed and exists.
  unfoldable pub write_account : Tries → Address → DbAccount → StorageEntry → Run Tries
  unfolding write_slots start_trie hash hashed
  write_account (state_trie, storage) address account (trie, slots) = do
    trie' ← write_slots (start_trie account.account_state trie) account.storage
    state_trie' ← unwrap_trie (
        insert_rlp encode_account state_trie (codec.keccak address)
          (state_account account (hash codec trie')))
    ok (state_trie', put address (hashed codec trie', slots) storage)

  -- The body of the loop.
  unfoldable pub finalize_account : Tries → Address → DbAccount → AccountState → Run Tries
  unfolding write_account
  finalize_account tries address account unchanged = ok tries
  finalize_account (state_trie, storage) address account not_existing =
      unwrap_trie (delete state_trie (codec.keccak address)) >>= λ state_trie'.
      ok (state_trie', storage)
  finalize_account (state_trie, storage) address account touched =
      unwrap (lookup address storage) >>= write_account (state_trie, storage) address account
  finalize_account (state_trie, storage) address account storage_cleared =
      unwrap (lookup address storage) >>= write_account (state_trie, storage) address account

  unfoldable pub finalize_accounts : Tries → List (Address × DbAccount) → Run Tries
  unfolding finalize_account
  finalize_accounts tries [] = ok tries
  finalize_accounts tries ((address, account) ∷ rest) =
      finalize_account tries address account account.account_state >>= λ tries'.
      finalize_accounts tries' rest

  -- The state trie is taken out of the input, and the database out of the processor.
  unfoldable pub finalize : EvmProcessor InMemoryDb → Run (EvmProcessor InMemoryDb)
  unfolding finalize_accounts
  finalize p = do
    db ← unwrap p.db
    (state_trie, storage) ←
        finalize_accounts (p.input.parent_state_trie, p.input.parent_storage) db.accounts
    h ← unwrap p.header
    ok (record {
      input = record (p.input) { parent_state_trie = default; parent_storage = storage };
      db = none;
      header = some (record h { state_root = hash codec state_trie });
    })
