-- ===== src/Remote/Fetches.antt =====
-- What fetching accounts and block hashes keeps of the host's database (script/src/db.rs: `basic`,
-- `block_hash`).
use sp1_reth.Prelude.{
  ℕ, ◌≡◌, refl, sym, ap, subst, ◌∙◌, Bool, true, false, Bool-cases, Option, none, some, Outcome, ok,
  err, panic, inl, inr, >>=-eq-ok, ok_unique, Option-cases, list_eq, if◌then◌else◌, ltb, lookup,
  arith,
}
use sp1_reth.Nibbles.{Bytes}
use sp1_reth.Mpt.Node.{B256}
use sp1_reth.Block.{Address, u64_mod}
use sp1_reth.Db.{DbError, nat_keys, bytes_keys, InMemoryDb, get_account_info, insert_block_hash}
use sp1_reth.Remote.{
  Provider, CacheOps, RemoteDb, lift, unwrap, fetch_account, basic, or_panic, fetch_block_hash,
  block_hash,
}
use sp1_reth.Processor.Execute.{AccountInfo}
use sp1_reth.Remote.Recorded.{
  CacheLaws, SameSlots, slot_of, is_cleared_account, known_of, known_info, IsProvided, IsFaithful,
  Keeps, same-Keeps, self-Keeps, or_else-ok, ok_pair, fetched, lift-ok,
}

u64_unwrapped : (n m : ℕ) → unwrap (if ltb n u64_mod then some n else none) ≡ ok m → n ≡ m
u64_unwrapped n m e = elim (Bool-cases (ltb n u64_mod)) [
  | inl t ↦ ground arith
  | inr f ↦ ground arith
]

abbrev insert_ok : InMemoryDb → Outcome DbError InMemoryDb
insert_ok db = ok db

module _ {Changes : Type 0} (provider : Provider) (ops : CacheOps Changes)
    (laws : CacheLaws ops) where
  abbrev Kept : RemoteDb → RemoteDb → Type 0
  Kept db db' = Keeps provider ops db db'

  insert_info :
      (db : RemoteDb) (a : Address) (nonce balance : ℕ) (code : Bytes)
      → IsFaithful provider ops db
      → provider.get_transaction_count a db.block_number ≡ some nonce
      → provider.get_balance a db.block_number ≡ some balance
      → provider.get_code_at a db.block_number ≡ some code
      → (b : Address) (info : AccountInfo)
      → known_info ops.info_of
          (ops.insert_account_info a (ops.account_info balance nonce code) db.initial_db)
          b
        ≡ some info
      → IsProvided provider ops db.block_number b info
  insert_info db a nonce balance code h n₁ b₁ c₁ b info k =
      elim (laws.known_info-insert_account_info a balance nonce code db.initial_db b info k) [
        | inl (same, made) ↦
            subst (λ x. IsProvided provider ops db.block_number x info) same
              (nonce, balance, code, n₁, b₁, c₁, made)
        | inr before ↦ h.2 b info before
      ]

  pub basic-Keeps :
      (db : RemoteDb) (a : Address) (info : Option AccountInfo) (db' : RemoteDb)
      → IsFaithful provider ops db
      → basic provider ops db a ≡ ok (info, db')
      → Kept db db'
  unfolding basic fetch_account
  basic-Keeps db a info db' h e =
      elim (or_else-ok db (get_account_info ops.info_of db.current_db a) _ info db' e) [
        | inl (p, q) ↦ subst (Kept db) q (self-Keeps provider ops db h)
        | inr k ↦ elim (or_else-ok db (get_account_info ops.info_of db.initial_db a) _ info db' k) [
          | inl (p, q) ↦ subst (Kept db) q (self-Keeps provider ops db h)
          | inr f ↦
              let (nonce, e₁, k₁) =
                >>=-eq-ok (lift (provider.get_transaction_count a db.block_number)) _ f in
              let (balance, e₂, k₂) =
                >>=-eq-ok (lift (provider.get_balance a db.block_number)) _ k₁ in
              let (code, e₃, k₃) = >>=-eq-ok (lift (provider.get_code_at a db.block_number)) _ k₂ in
              let (nonce_u64, e₄, k₄) =
                >>=-eq-ok (unwrap (if ltb nonce u64_mod then some nonce else none)) _ k₃ in
              let info' = ops.account_info balance nonce_u64 code in
              let asked : provider.get_transaction_count a db.block_number ≡ some nonce_u64 =
                lift-ok (provider.get_transaction_count a db.block_number) nonce e₁
                ∙ ap some (u64_unwrapped nonce nonce_u64 e₄) in
              let final = (ok_pair _ _ _ _ k₄).1 in
              subst (Kept db) final (
                same-Keeps provider ops db (ops.insert_account_info a info' db.initial_db) h
                  (laws.insert_account_info_lem a info' db.initial_db)
                  (insert_info db a nonce_u64 balance code h asked
                    (lift-ok (provider.get_balance a db.block_number) balance e₂)
                    (lift-ok (provider.get_code_at a db.block_number) code e₃)))
        ]
      ]

  same_accounts : (db db' : InMemoryDb) → db.accounts ≡ db'.accounts → SameSlots db db'
  same_accounts db db' e = (
    λ a i. ap (λ m. slot_of (lookup a m) i) (sym e),
    λ a. ap (λ m. is_cleared_account (lookup a m)) (sym e),
  )

  accounts_if :
      (b : Bool) (db db' : InMemoryDb)
      → (if b then insert_ok db else panic) ≡ ok db'
      → db.accounts ≡ db'.accounts
  accounts_if true db db' e = ap (λ d. d.accounts) (ok_unique _ refl e)
  accounts_if false db db' e = cc

  accounts_of :
      (o : Option B256) (db fresh db' : InMemoryDb) (hash : B256)
      → db.accounts ≡ fresh.accounts
      → (elim o [
        | none ↦ insert_ok fresh
        | some h ↦ if list_eq hash h then insert_ok db else panic
      ])
        ≡ ok db'
      → db.accounts ≡ db'.accounts
  accounts_of none db fresh db' hash h e = h ∙ ap (λ d. d.accounts) (ok_unique _ refl e)
  accounts_of (some k) db fresh db' hash h e = accounts_if (list_eq hash k) db db' e

  insert_block_hash-accounts :
      (db : InMemoryDb) (n : ℕ) (hash : B256) (db' : InMemoryDb)
      → insert_block_hash db n hash ≡ ok db'
      → db.accounts ≡ db'.accounts
  unfolding insert_block_hash
  insert_block_hash-accounts db n hash db' e =
      accounts_of (lookup n db.block_hashes) db _ db' hash refl e

  or_panic-ok : (m : Outcome DbError InMemoryDb) (db : InMemoryDb) → or_panic m ≡ ok db → m ≡ ok db
  or_panic-ok (ok d) db e = ap ok (ok_unique _ refl e)
  or_panic-ok (err x) db e = cc
  or_panic-ok panic db e = cc

  fetch_block_hash-Keeps :
      (db : RemoteDb) (n : ℕ) (hash : B256) (db' : RemoteDb)
      → IsFaithful provider ops db
      → fetch_block_hash provider ops db n ≡ ok (hash, db')
      → Kept db db'
  unfolding fetch_block_hash
  fetch_block_hash-Keeps db n hash db' h e =
      let (number, e₁, k₁) = >>=-eq-ok (unwrap (if ltb n u64_mod then some n else none)) _ e in
      let (found, e₂, k₂) = >>=-eq-ok (unwrap (provider.get_block_by_number number false)) _ k₁ in
      let (block, e₃, k₃) = >>=-eq-ok (unwrap found) _ k₂ in
      let (d, e₄, k₄) = >>=-eq-ok (unwrap block.header_hash) _ k₃ in
      let (stored, e₅, k₅) = >>=-eq-ok (or_panic (insert_block_hash db.initial_db number d)) _ k₄ in
      let same =
        insert_block_hash-accounts db.initial_db number d stored (or_panic-ok _ stored e₅) in
      subst (Kept db) (ok_pair _ _ _ _ k₅).1 (
        same-Keeps provider ops db stored h (same_accounts db.initial_db stored same)
          (λ a info k. h.2 a info (ap (λ m. known_of ops.info_of (lookup a m)) same ∙ k)))

  pub block_hash-Keeps :
      (db : RemoteDb) (n : ℕ) (hash : B256) (db' : RemoteDb)
      → IsFaithful provider ops db
      → block_hash provider ops db n ≡ ok (hash, db')
      → Kept db db'
  unfolding block_hash fetch_block_hash
  block_hash-Keeps db n hash db' h e = elim (Option-cases (ops.block_hash n db.initial_db)) [
    | inl missing ↦ fetch_block_hash-Keeps db n hash db' h (ground arith)
    | inr ((found, cached), there) ↦
        let final : record db { initial_db = cached } ≡ db' =
          let k : fetched {A = B256 × RemoteDb} (found, record db { initial_db = cached })
              ≡ ok (hash, db') =
            subst
              (λ o.
                (elim o [
                  | none ↦ fetch_block_hash provider ops db n
                  | some (d, c) ↦ ok (d, record db { initial_db = c })
                ])
                ≡ fetched {A = B256 × RemoteDb} (hash, db'))
              there e in
          (ok_pair _ _ _ _ k).1 in
        subst (Kept db) final (
          same-Keeps provider ops db cached h
            (laws.block_hash_lem n db.initial_db found cached there)
            (λ a info q.
              h.2 a info (laws.block_hash-NoNewInfos n db.initial_db found cached there a info q)))
  ]
