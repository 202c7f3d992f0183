-- ===== src/Remote/Runs.antt =====
-- Sequences of the calls that the execution of a block makes on the host's database
-- (script/src/db.rs: `impl Database for RemoteDb`, `commit`).
use sp1_reth.Prelude.{
  ℕ, ◌≡◌, refl, subst, ◌∙◌, List, [], ◌∷◌, some, ok, ◌>>=◌, ◌⊎◌, inl, inr, >>=-eq-ok, ok_unique,
}
use sp1_reth.Block.{Address}
use sp1_reth.Db.{nat_keys, bytes_keys, get_storage_slot}
use sp1_reth.Remote.{Provider, CacheOps, RemoteDb, Fetched, basic, storage, block_hash, commit, new}
use sp1_reth.Remote.Recorded.{
  CacheLaws, recorded, known_info, IsProvided, IsFaithful, Keeps, InSome, InSome-intro, self-Keeps,
}
use sp1_reth.Remote.Slots.{storage-IsFaithful}
use sp1_reth.Remote.Fetches.{basic-Keeps, block_hash-Keeps}

pub data DbCall (Changes : Type 0) : Type 0 where
  basic_call : Address → DbCall Changes
  storage_call : Address → ℕ → DbCall Changes
  block_hash_call : ℕ → DbCall Changes
  commit_call : Changes → DbCall Changes

module _ {Changes : Type 0} (provider : Provider) (ops : CacheOps Changes) where
  -- The state after a call.
  abbrev pub call : DbCall Changes → RemoteDb → Fetched RemoteDb
  call (basic_call a) db = basic provider ops db a >>= λ r. ok (r.1)
  call (storage_call a i) db = storage provider ops db a i >>= λ r. ok (r.1)
  call (block_hash_call n) db = block_hash provider ops db n >>= λ r. ok (r.1)
  call (commit_call changes) db = ok (commit provider ops changes db)

  abbrev pub calls : List (DbCall Changes) → RemoteDb → Fetched RemoteDb
  calls [] db = ok db
  calls (c ∷ cs) db = call c db >>= calls cs

  module _ (laws : CacheLaws ops) where
    abbrev Kept : RemoteDb → RemoteDb → Type 0
    Kept db db' = Keeps provider ops db db'

    call-Keeps :
        (c : DbCall Changes) (db db' : RemoteDb)
        → IsFaithful provider ops db
        → call c db ≡ ok db'
        → Kept db db'
    unfolding commit
    call-Keeps (basic_call a) db db' h e =
        let (r, done, k) = >>=-eq-ok (basic provider ops db a) _ e in
        subst (Kept db) (ok_unique _ refl k) (basic-Keeps provider ops laws db a r.0 r.1 h done)
    call-Keeps (storage_call a i) db db' h e =
        let (r, done, k) = >>=-eq-ok (storage provider ops db a i) _ e in
        let s = storage-IsFaithful provider ops laws db a i r.0 r.1 h done in
        subst (Kept db) (ok_unique _ refl k) (s.0, s.1)
    call-Keeps (block_hash_call n) db db' h e =
        let (r, done, k) = >>=-eq-ok (block_hash provider ops db n) _ e in
        subst (Kept db) (ok_unique _ refl k)
          (block_hash-Keeps provider ops laws db n r.0 r.1 h done)
    call-Keeps (commit_call changes) db db' h e =
        subst (Kept db) (ok_unique _ refl e) (h, (refl, λ a i v q. q))

    calls-Keeps :
        (cs : List (DbCall Changes)) (db db' : RemoteDb)
        → IsFaithful provider ops db
        → calls cs db ≡ ok db'
        → Kept db db'
    calls-Keeps [] db db' h e = subst (Kept db) (ok_unique _ refl e) (self-Keeps provider ops db h)
    calls-Keeps (c ∷ cs) db db' h e =
        let (next, first, rest) = >>=-eq-ok (call c db) _ e in
        let (faithful, (number, later)) = call-Keeps c db next h first in
        let (faithful', (number', later')) = calls-Keeps cs next db' faithful rest in
        (faithful', (number' ∙ number, λ a i v q. later' a i v (later a i v q)))

    new-IsFaithful : (block_number : ℕ) → IsFaithful provider ops (new block_number)
    unfolding new
    new-IsFaithful block_number = (λ a i v e. cc, λ a. refl, λ a info e. cc)

    -- Whatever accounts, slots, block hashes and commits the execution asks for, from the new database
    -- on, each slot that the initial database then has is the provider's value at the block, and each
    -- account that it then tells of has the provider's nonce, balance and code at the block.
    pub calls-new :
        (block_number : ℕ) (cs : List (DbCall Changes)) (db : RemoteDb) (a : Address) (i : ℕ)
        → calls cs (new block_number) ≡ ok db
        → InSome
            (λ v. provider.get_storage_at a i block_number ≡ some v)
            (recorded db.initial_db a i)
          × InSome (IsProvided provider ops block_number a) (known_info ops.info_of db.initial_db a)
    unfolding new
    calls-new block_number cs db a i e =
        let (faithful, (number, later)) =
          calls-Keeps cs (new block_number) db (new-IsFaithful block_number) e in
        (
          InSome-intro _ (recorded db.initial_db a i) (λ v there.
              subst (λ n. provider.get_storage_at a i n ≡ some v) number (faithful.0 a i v there)),
          InSome-intro _ (known_info ops.info_of db.initial_db a) (λ info there.
              subst (λ n. IsProvided provider ops n a info) number (faithful.2 a info there)),
        )

    -- A slot that `storage` fetched stays in the initial database, with the value that it returned,
    -- through all later calls.
    pub calls-storage :
        (cs : List (DbCall Changes)) (db db' db'' : RemoteDb) (a : Address) (i v : ℕ)
        → IsFaithful provider ops db
        → storage provider ops db a i ≡ ok (v, db')
        → calls cs db' ≡ ok db''
        → (get_storage_slot db.current_db a i ≡ ok v) ⊎ (recorded db''.initial_db a i ≡ some v)
    calls-storage cs db db' db'' a i v h e k =
        let (faithful, later, answer) = storage-IsFaithful provider ops laws db a i v db' h e in
        let (kept, (number, keeps)) = calls-Keeps cs db' db'' faithful k in
        elim answer [ inl p ↦ inl p | inr (p, there) ↦ inr (keeps a i v there) ]
