-- ===== src/Processor/Finalize/Written.antt =====
-- The changes of the state trie that the accounts of the database ask for: what `finalize`
-- (primitives/src/processor.rs) is to write.
use sp1_reth.Prelude.{◌≡◌, ◌≢◌, List, [], ◌∷◌, some, ok, lookup}
use sp1_reth.Mpt.Node.{B256, MptNode, default}
use sp1_reth.Mpt.Reference.{hash}
use sp1_reth.Mpt.Map.Runs.{Op, put, remove, run}
use sp1_reth.Block.{Address, StorageEntry}
use sp1_reth.Db.{StateAccount, not_existing, storage_cleared, unchanged, DbAccount, bytes_keys}
use sp1_reth.Processor.Finalize.Slots.{slot_ops}
use sp1_reth.Processor.Finalize.{Encoders}

-- The fields of the account that are in the state trie, with the root of its storage.
abbrev pub written_account : DbAccount → B256 → StateAccount
written_account account root = record {
  nonce = account.info.nonce;
  balance = account.info.balance;
  storage_root = root;
  code_hash = account.info.code_hash;
}

module _ (ops : Encoders) where
  open ops use {codec, encode_account}

  -- The changes of the state trie that the accounts ask for: nothing for an unchanged one, a removal
  -- for a deleted one, and for any other its fields, with the hash of its storage trie after the
  -- changes of its slots, which start from the empty trie where the storage was cleared.
  pub data IsWritten (storage : List (Address × StorageEntry))
      : List (Address × DbAccount) → List Op → Type 0 where
    nothing : IsWritten storage [] []
    kept :
        (a : Address) (account : DbAccount) (rest : List (Address × DbAccount)) (changes : List Op)
        → account.account_state ≡ unchanged
        → IsWritten storage rest changes
        → IsWritten storage ((a, account) ∷ rest) changes
    deleted :
        (a : Address) (account : DbAccount) (rest : List (Address × DbAccount)) (changes : List Op)
        → account.account_state ≡ not_existing
        → IsWritten storage rest changes
        → IsWritten storage ((a, account) ∷ rest) (remove (codec.keccak a) ∷ changes)
    stored :
        (a : Address) (account : DbAccount) (rest : List (Address × DbAccount)) (changes : List Op)
        (entry : StorageEntry) (first t : MptNode)
        → account.account_state ≢ unchanged
        → account.account_state ≢ not_existing
        → lookup a storage ≡ some entry
        → (account.account_state ≡ storage_cleared → first ≡ default)
        → (account.account_state ≢ storage_cleared → first ≡ entry.0)
        → run (slot_ops ops account.storage) first ≡ ok t
        → IsWritten storage rest changes
        → IsWritten storage ((a, account) ∷ rest) (
            put (codec.keccak a) (encode_account (written_account account (hash codec t)))
            ∷ changes)
