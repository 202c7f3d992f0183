-- ===== src/Remote/Recorded.antt =====
-- What the host's database (script/src/db.rs) records, and when that is what the provider answers.
use sp1_reth.Prelude.{
  ℕ, ◌≡◌, ◌⊎◌, inl, inr, refl, sym, ap, ◌∙◌, Bool, true, false, ◌&&◌, Option, none, some, Outcome,
  ok, err, panic, ◌==◌, list_eq, if◌then◌else◌, ok_unique, lookup,
}
use sp1_reth.Nibbles.{Bytes}
use sp1_reth.Mpt.Node.{B256}
use sp1_reth.Block.{Address}
use sp1_reth.Processor.Execute.{AccountInfo}
use sp1_reth.Db.{
  nat_keys, bytes_keys, AccountState, storage_cleared, DbAccount, InMemoryDb, DbError,
}
use sp1_reth.Remote.{Provider, CacheOps, RemoteDb, Fetched, lift, or_else, known}

-- The value that a database holds for a slot, if it holds one.
abbrev pub slot_of : Option DbAccount → ℕ → Option ℕ
slot_of none index = none
slot_of (some account) index = lookup index account.storage

abbrev pub recorded : InMemoryDb → Address → ℕ → Option ℕ
recorded db address index = slot_of (lookup address db.accounts) index

abbrev pub is_cleared_state : AccountState → Bool
is_cleared_state storage_cleared = true
is_cleared_state _ = false

abbrev pub is_cleared_account : Option DbAccount → Bool
is_cleared_account none = false
is_cleared_account (some account) = is_cleared_state account.account_state

-- The storage of an account was cleared, so every other slot is zero.
abbrev pub is_cleared : InMemoryDb → Address → Bool
is_cleared db address = is_cleared_account (lookup address db.accounts)

-- The same slots, and the same accounts cleared.
abbrev pub SameSlots : InMemoryDb → InMemoryDb → Type 0
SameSlots db db' =
    ((a : Address) (i : ℕ) → recorded db' a i ≡ recorded db a i)
    × ((a : Address) → is_cleared db' a ≡ is_cleared db a)

-- What a database tells of an account that exists.
abbrev pub known_of : (DbAccount → Option AccountInfo) → Option DbAccount → Option AccountInfo
known_of info_of none = none
known_of info_of (some account) = info_of account

abbrev pub known_info : (DbAccount → Option AccountInfo) → InMemoryDb → Address → Option AccountInfo
known_info info_of db address = known_of info_of (lookup address db.accounts)

-- The second database tells of no account what the first does not tell.
abbrev pub NoNewInfos : (DbAccount → Option AccountInfo) → InMemoryDb → InMemoryDb → Type 0
NoNewInfos info_of db db' =
    (a : Address) (info : AccountInfo)
    → known_info info_of db' a ≡ some info
    → known_info info_of db a ≡ some info

-- `P` of the value, where there is one.
abbrev pub InSome : {A : Type 0} → (A → Type 0) → Option A → Type 0
InSome P none = Unit
InSome P (some a) = P a

pub InSome-intro :
    {A : Type 0} (P : A → Type 0) (o : Option A) → ((a : A) → o ≡ some a → P a) → InSome P o
InSome-intro P none h = tt
InSome-intro P (some a) h = h a refl

-- What `revm` says of its cache.
pub record CacheLaws {Changes : Type 0} (ops : CacheOps Changes) : Type 0 where
  pub insert_account_info_lem :
      (address : Address) (info : AccountInfo) (db : InMemoryDb)
      → SameSlots db (ops.insert_account_info address info db)
  pub basic_lem :
      (address : Address) (db db' : InMemoryDb) → ops.basic address db ≡ some db' → SameSlots db db'
  pub block_hash_lem :
      (n : ℕ) (db : InMemoryDb) (hash : B256) (db' : InMemoryDb)
      → ops.block_hash n db ≡ some (hash, db')
      → SameSlots db db'
  pub recorded-insert_account_storage :
      (address : Address) (index value : ℕ) (db db' : InMemoryDb)
      → ops.insert_account_storage address index value db ≡ some db'
      → (a : Address) (i : ℕ)
      → recorded db' a i ≡ (if list_eq address a && index == i then some value else recorded db a i)
  pub is_cleared-insert_account_storage :
      (address : Address) (index value : ℕ) (db db' : InMemoryDb)
      → ops.insert_account_storage address index value db ≡ some db'
      → (a : Address) → is_cleared db' a ≡ is_cleared db a
  pub known_info-insert_account_info :
      (address : Address) (balance nonce : ℕ) (code : Bytes) (db : InMemoryDb) (a : Address)
      (info : AccountInfo)
      → known_info ops.info_of
          (ops.insert_account_info address (ops.account_info balance nonce code) db)
          a
        ≡ some info
      → ((address ≡ a) × (ops.account_info balance nonce code ≡ info))
        ⊎ (known_info ops.info_of db a ≡ some info)
  pub basic-NoNewInfos :
      (address : Address) (db db' : InMemoryDb)
      → ops.basic address db ≡ some db'
      → NoNewInfos ops.info_of db db'
  pub block_hash-NoNewInfos :
      (n : ℕ) (db : InMemoryDb) (hash : B256) (db' : InMemoryDb)
      → ops.block_hash n db ≡ some (hash, db')
      → NoNewInfos ops.info_of db db'
  pub insert_account_storage-NoNewInfos :
      (address : Address) (index value : ℕ) (db db' : InMemoryDb)
      → ops.insert_account_storage address index value db ≡ some db'
      → NoNewInfos ops.info_of db db'

pub lift-ok : {A : Type 0} (o : Option A) (a : A) → lift o ≡ ok a → o ≡ some a
lift-ok none a e = cc
lift-ok (some b) a e = cc

abbrev pub fetched : {A : Type 0} → A → Fetched A
fetched a = ok a

pub ok_pair :
    {A B : Type 0} (a a' : A) (b b' : B)
    → fetched {A = A × B} (a, b) ≡ ok (a', b')
    → (a ≡ a') × (b ≡ b')
ok_pair a a' b b' e = let p = ok_unique _ refl e in (ap (λ x. x.0) p, ap (λ x. x.1) p)

pub or_else-ok :
    {A : Type 0} (db : RemoteDb) (m : Outcome DbError A) (next : Fetched (A × RemoteDb)) (a : A)
    (db' : RemoteDb)
    → or_else (known db m) next ≡ ok (a, db')
    → ((m ≡ ok a) × (db ≡ db')) ⊎ (next ≡ ok (a, db'))
or_else-ok db (ok b) next a db' e = let (p, q) = ok_pair b a db db' e in inl (ap ok p, q)
or_else-ok db (err x) next a db' e = inr e
or_else-ok db panic next a db' e = cc

module _ {Changes : Type 0} (provider : Provider) (ops : CacheOps Changes) where
  open provider use {get_transaction_count, get_balance, get_code_at, get_storage_at}
  open ops use {info_of, account_info}

  -- The provider's nonce, balance and code of the account at the block.
  abbrev pub IsProvided : ℕ → Address → AccountInfo → Type 0
  IsProvided block_number a info =
      (nonce : ℕ) × (balance : ℕ) × (code : Bytes) × (get_transaction_count a block_number
        ≡ some nonce)
      × (get_balance a block_number ≡ some balance)
      × (get_code_at a block_number ≡ some code)
      × (account_info balance nonce code ≡ info)

  -- The initial database holds the provider's values at the block.
  abbrev pub IsFaithful : RemoteDb → Type 0
  IsFaithful db =
      ((a : Address) (i v : ℕ)
        → recorded db.initial_db a i ≡ some v
        → get_storage_at a i db.block_number ≡ some v)
      × ((a : Address) → is_cleared db.initial_db a ≡ false)
      × ((a : Address) (info : AccountInfo)
          → known_info info_of db.initial_db a ≡ some info
          → IsProvided db.block_number a info)

  -- A later state of the database: its block is the same, and its initial database has the slots that
  -- it had.
  abbrev pub IsLater : RemoteDb → RemoteDb → Type 0
  IsLater db db' =
      (db'.block_number ≡ db.block_number)
      × ((a : Address) (i v : ℕ)
          → recorded db.initial_db a i ≡ some v
          → recorded db'.initial_db a i ≡ some v)

  -- What a call keeps.
  abbrev pub Keeps : RemoteDb → RemoteDb → Type 0
  Keeps db db' = IsFaithful db' × IsLater db db'

  pub same-Keeps :
      (db : RemoteDb) (initial : InMemoryDb)
      → IsFaithful db
      → SameSlots db.initial_db initial
      → ((a : Address) (info : AccountInfo)
          → known_info info_of initial a ≡ some info
          → IsProvided db.block_number a info)
      → Keeps db (record db { initial_db = initial })
  same-Keeps db initial h s k = (
    (λ a i v e. h.0 a i v (sym (s.0 a i) ∙ e), λ a. s.1 a ∙ h.1 a, k),
    (refl, λ a i v e. s.0 a i ∙ e),
  )

  pub self-Keeps : (db : RemoteDb) → IsFaithful db → Keeps db db
  self-Keeps db h = (h, (refl, λ a i v e. e))
