-- ===== src/Db.antt =====
-- `InMemoryDBHelper` of primitives/src/db.rs, with `StateAccount` and `get_rlp` of
-- primitives/src/mpt.rs.
pub mod Storage
pub mod Rlp
pub mod Ancestors
pub mod Tests
use sp1_reth.Prelude.{
  ℕ, ◌-◌, ◌≡◌, Bool, true, false, not, ◌||◌, List, [], ◌∷◌, Option, none, some, Outcome, ok, err,
  panic, ◌>>=◌, ◌>>◌, map, ltb, leb, ◌==◌, list_eq, if◌then◌else◌, Keys, lookup, put, ==_iff,
  list_eq_iff,
}
use sp1_reth.Nibbles.{Bytes}
use sp1_reth.Mpt.Node.{B256, Error, rlp, MptNode}
use sp1_reth.Mpt.Codec.{Codec}
use sp1_reth.Mpt.Reference.{empty_root, hash, hashed}
use sp1_reth.Mpt.Get.{get}
use sp1_reth.Block.{Address, Header, StorageEntry, Sp1RethInput}
use sp1_reth.Processor.Execute.{AccountInfo}

instance unfoldable pub nat_keys : Keys ℕ
nat_keys = record { same = ◌==◌; same_iff = ==_iff }

instance unfoldable pub bytes_keys : Keys Bytes
bytes_keys = record { same = list_eq; same_iff = list_eq_iff }

pub record StateAccount : Type 0 where
  pub nonce : ℕ
  pub balance : ℕ
  pub storage_root : B256
  pub code_hash : B256

abbrev pub keccak_empty : B256
keccak_empty =
    0xc5 ∷ 0xd2 ∷ 0x46 ∷ 0x01 ∷ 0x86 ∷ 0xf7 ∷ 0x23 ∷ 0x3c ∷ 0x92 ∷ 0x7e ∷ 0x7d ∷ 0xb2 ∷ 0xdc ∷ 0xc7
    ∷ 0x03 ∷ 0xc0 ∷ 0xe5 ∷ 0x00 ∷ 0xb6 ∷ 0x53 ∷ 0xca ∷ 0x82 ∷ 0x27 ∷ 0x3b ∷ 0x7b ∷ 0xfa ∷ 0xd8
    ∷ 0x04 ∷ 0x5d ∷ 0x85 ∷ 0xa4 ∷ 0x70 ∷ []

abbrev pub default_account : StateAccount
default_account = record {
  nonce = 0;
  balance = 0;
  storage_root = empty_root;
  code_hash = keccak_empty;
}

-- `AccountState` of `revm`.
pub data AccountState : Type 0 where
  not_existing : AccountState
  touched : AccountState
  storage_cleared : AccountState
  unchanged : AccountState

pub record DbAccount : Type 0 where
  pub info : AccountInfo
  pub account_state : AccountState
  pub storage : List (ℕ × ℕ)

pub record InMemoryDb : Type 0 where
  pub accounts : List (Address × DbAccount)
  pub block_hashes : List (ℕ × B256)

-- What the program takes from `alloy_rlp`, `alloy_primitives` and `revm`.
pub record DbOps : Type 0 where
  pub codec : Codec
  pub decode_account : Bytes → Option StateAccount
  pub decode_u256 : Bytes → Option ℕ
  pub to_be_bytes : ℕ → Bytes
  pub hash_slow : Header → B256
  pub empty_bytecode : Bytes
  pub new_raw : Bytes → Bytes

-- A value is decoded, and a missing one is no error.
unfoldable pub get_rlp :
    {A : Type 0} → (Bytes → Option A) → MptNode → Bytes → Outcome Error (Option A)
get_rlp decode n key = get n key >>= λ found. elim found [
  | none ↦ ok none
  | some bs ↦ elim (decode bs) [ none ↦ err rlp | some a ↦ ok (some a) ]
]

abbrev pub unwrap_or : {A : Type 0} → Option A → A → A
unwrap_or none d = d
unwrap_or (some a) d = a

module _ (ops : DbOps) where
  open ops use {codec, decode_account, decode_u256, to_be_bytes, hash_slow, empty_bytecode, new_raw}

  -- The contracts by their hashes.
  abbrev pub index_contracts : List Bytes → List (B256 × Bytes) → List (B256 × Bytes)
  index_contracts [] m = m
  index_contracts (bs ∷ rest) m = index_contracts rest (put (codec.keccak bs) bs m)

  unfoldable pub find_account : MptNode → Address → Outcome Error StateAccount
  unfolding get_rlp
  find_account state_trie address =
      get_rlp decode_account state_trie (codec.keccak address) >>= λ found.
      ok (unwrap_or found default_account)

  unfoldable pub find_slot : MptNode → ℕ → Outcome Error ℕ
  unfolding get_rlp
  find_slot storage_trie slot =
      get_rlp decode_u256 storage_trie (codec.keccak (to_be_bytes slot)) >>= λ found.
      ok (unwrap_or found 0)

  unfoldable pub load_slots : MptNode → List ℕ → List (ℕ × ℕ) → Outcome Error (List (ℕ × ℕ))
  unfolding find_slot
  load_slots storage_trie [] storage = ok storage
  load_slots storage_trie (slot ∷ slots) storage = find_slot storage_trie slot >>= λ value.
      load_slots storage_trie slots (put slot value storage)

  -- The contract with this hash; a missing one panics.
  unfoldable pub load_code : List (B256 × Bytes) → B256 → Outcome Error Bytes
  load_code contracts code_hash =
      if list_eq code_hash keccak_empty
      then ok empty_bytecode
      else elim (lookup code_hash contracts) [ none ↦ panic | some bs ↦ ok (new_raw bs) ]

  -- The test of the storage root.
  unfoldable pub check_root : MptNode → StateAccount → Outcome Error (Unit {0})
  unfolding hash
  check_root storage_trie account =
      if list_eq (hash codec storage_trie) account.storage_root then ok tt else panic

  -- The body of the loop over the accounts.
  unfoldable pub load_account :
      MptNode → List (B256 × Bytes) → Address → StorageEntry → Outcome Error DbAccount
  unfolding find_account load_slots load_code check_root
  load_account state_trie contracts address (storage_trie, slots) = do
    account ← find_account state_trie address
    check_root storage_trie account
    bytecode ← load_code contracts account.code_hash
    storage ← load_slots storage_trie slots []
    let info : AccountInfo = record {
      balance = account.balance;
      nonce = account.nonce;
      code_hash = account.code_hash;
      code = some bytecode;
    }
    ok (record { info = info; account_state = unchanged; storage = storage })

  unfoldable pub load_accounts :
      MptNode
      → List (B256 × Bytes)
      → List (Address × StorageEntry)
      → List (Address × DbAccount)
      → Outcome Error (List (Address × DbAccount))
  unfolding load_account
  load_accounts state_trie contracts [] accounts = ok accounts
  load_accounts state_trie contracts ((address, entry) ∷ rest) accounts =
      load_account state_trie contracts address entry >>= λ account.
      load_accounts state_trie contracts rest (put address account accounts)

  -- The loop over the ancestors: each is the parent of the one before, and recent.
  unfoldable pub load_ancestors :
      Header → Header → List Header → List (ℕ × B256) → Outcome Error (List (ℕ × B256))
  load_ancestors parent prev [] hashes = ok hashes
  load_ancestors parent prev (current ∷ rest) hashes =
      let more =
        load_ancestors parent current rest (put current.number (hash_slow current) hashes) in
      if not (list_eq prev.parent_hash (hash_slow current))
      then panic
      else if ltb parent.number current.number || leb 256 (parent.number - current.number)
      then panic
      else more

  -- The call caches the references of the storage tries, so it returns the input too.
  unfoldable pub initialize : Sp1RethInput → Outcome Error (Sp1RethInput × InMemoryDb)
  unfolding load_accounts load_ancestors
  initialize input = do
    accounts ←
        load_accounts input.parent_state_trie (index_contracts input.contracts [])
          input.parent_storage []
    block_hashes ←
        load_ancestors input.parent_header input.parent_header input.ancestor_headers
          (put input.parent_header.number (hash_slow input.parent_header) [])
    let warmed =
        map (λ (address, (trie, slots)). (address, (hashed codec trie, slots))) input.parent_storage
    ok (
      record input { parent_storage = warmed },
      record { accounts = accounts; block_hashes = block_hashes },
    )

-- The texts of the errors.
pub data DbError : Type 0 where
  account_not_found : DbError
  slot_not_found : DbError

-- `DbAccount::info` of `revm` is the parameter `info_of`.
unfoldable pub get_account_info :
    (DbAccount → Option AccountInfo) → InMemoryDb → Address → Outcome DbError (Option AccountInfo)
get_account_info info_of db address = elim (lookup address db.accounts) [
  | none ↦ err account_not_found
  | some account ↦ ok (info_of account)
]

-- A slot that the account does not hold.
abbrev pub missing_slot : AccountState → Outcome DbError ℕ
missing_slot not_existing = panic
missing_slot storage_cleared = ok 0
missing_slot touched = err slot_not_found
missing_slot unchanged = err slot_not_found

unfoldable pub get_storage_slot : InMemoryDb → Address → ℕ → Outcome DbError ℕ
get_storage_slot db address index = elim (lookup address db.accounts) [
  | none ↦ err account_not_found
  | some account ↦ elim (lookup index account.storage) [
    | none ↦ missing_slot account.account_state
    | some value ↦ ok value
  ]
]

abbrev pub first : {A B : Type 0} → A × B → A
first (a, b) = a

unfoldable pub storage_keys : InMemoryDb → List (Address × List ℕ)
storage_keys db = map (λ (address, account). (address, map first account.storage)) db.accounts

-- A different hash for a known block panics.
unfoldable pub insert_block_hash : InMemoryDb → ℕ → B256 → Outcome DbError InMemoryDb
insert_block_hash db block_number block_hash = elim (lookup block_number db.block_hashes) [
  | none ↦ ok (record db { block_hashes = put block_number block_hash db.block_hashes })
  | some known ↦ if list_eq block_hash known then ok db else panic
]
