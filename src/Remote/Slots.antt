-- ===== src/Remote/Slots.antt =====
-- The slots that the host's database has (script/src/db.rs: `storage`, `basic`, `block_hash`,
-- `commit`): what it recorded is what the provider answers.
use sp1_reth.Prelude.{
  ℕ, ◌≡◌, ◌⊎◌, inl, inr, refl, sym, ap, subst, ◌∙◌, true, false, ◌&&◌, some, ok, arith, ◌==◌,
  list_eq, if◌then◌else◌, Bool-cases, Option-cases, >>=-eq-ok, ok_unique, lookup, ◌≢◌, ==_iff,
  eq_of_list_eq, list_eq_refl,
}
use sp1_reth.Block.{Address}
use sp1_reth.Db.{
  nat_keys, bytes_keys, AccountState, not_existing, touched, storage_cleared, unchanged, InMemoryDb,
  get_storage_slot, missing_slot,
}
use sp1_reth.Remote.{Provider, CacheOps, RemoteDb, lift, fetch_slot, storage}
use sp1_reth.Remote.Recorded.{
  recorded, is_cleared_state, is_cleared, SameSlots, NoNewInfos, CacheLaws, lift-ok, or_else-ok,
  IsFaithful, IsLater, Keeps, self-Keeps,
}

missing_slot-ne : (s : AccountState) (v : ℕ) → is_cleared_state s ≡ false → missing_slot s ≢ ok v
missing_slot-ne not_existing v c = λ e. cc
missing_slot-ne touched v c = λ e. cc
missing_slot-ne storage_cleared v c = λ e. cc
missing_slot-ne unchanged v c = λ e. cc

-- What a database without a cleared account knows is recorded.
recorded-get_storage_slot :
    (db : InMemoryDb) (a : Address) (i value : ℕ)
    → is_cleared db a ≡ false
    → get_storage_slot db a i ≡ ok value
    → recorded db a i ≡ some value
unfolding get_storage_slot
recorded-get_storage_slot db a i value c e = elim (Option-cases (lookup a db.accounts)) [
  | inl missing ↦ ground arith
  | inr (account, found) ↦ elim (Option-cases (lookup i account.storage)) [
    | inl lost ↦
        let state : is_cleared_state account.account_state ≡ false = ground arith in
        let answered : missing_slot account.account_state ≡ ok value = ground arith in
        absurd (missing_slot-ne account.account_state value state answered)
    | inr (v, held) ↦ ground arith
  ]
]

-- The slot of the test is the slot that was asked for.
same_slot : (a b : Address) (i j : ℕ) → (list_eq a b && (i == j)) ≡ true → (a ≡ b) × (i ≡ j)
same_slot a b i j t = elim (Bool-cases (list_eq a b)) [
  | inl s ↦ (eq_of_list_eq a b s, (==_iff i j).0 (ground arith))
  | inr f ↦ absurd (ground arith)
]

same_slot_refl : (a : Address) (i : ℕ) → (list_eq a a && (i == i)) ≡ true
same_slot_refl a i = let p = list_eq_refl a in let q = (==_iff i i).1 refl in ground arith

module _ {Changes : Type 0} (provider : Provider) (ops : CacheOps Changes)
    (laws : CacheLaws ops) where
  open laws use {
    insert_account_info_lem, basic_lem, block_hash_lem, recorded-insert_account_storage,
    is_cleared-insert_account_storage, basic-NoNewInfos, insert_account_storage-NoNewInfos,
  }

  -- A slot that is recorded with the provider's answer.
  insert-Keeps :
      (db : RemoteDb) (a : Address) (i value : ℕ) (loaded stored : InMemoryDb)
      → IsFaithful provider ops db
      → SameSlots db.initial_db loaded
      → provider.get_storage_at a i db.block_number ≡ some value
      → ((b : Address) (j : ℕ)
          → recorded stored b j
            ≡ (if list_eq a b && (i == j) then some value else recorded loaded b j))
      → ((b : Address) → is_cleared stored b ≡ is_cleared loaded b)
      → NoNewInfos ops.info_of db.initial_db stored
      → Keeps provider ops db (record db { initial_db = stored })
  insert-Keeps db a i value loaded stored h (same, untouched) answer there cleared infos =
      let hit : (b : Address) (j : ℕ)
          → (list_eq a b && (i == j)) ≡ true
          → (recorded stored b j ≡ some value)
            × (provider.get_storage_at b j db.block_number ≡ some value) =
        λ b j t.
          let (p, q) = same_slot a b i j t in
          (there b j ∙ ap (λ x. if x then some value else recorded loaded b j) t, cc) in
      let miss : (b : Address) (j : ℕ)
          → (list_eq a b && (i == j)) ≡ false
          → recorded stored b j ≡ recorded db.initial_db b j =
        λ b j f.
          there b j ∙ (ap (λ x. if x then some value else recorded loaded b j) f ∙ same b j) in
      (
        (
          λ b j v e. elim (Bool-cases (list_eq a b && (i == j))) [
            | inl t ↦ (hit b j t).1 ∙ (sym (hit b j t).0 ∙ e)
            | inr f ↦ h.0 b j v (sym (miss b j f) ∙ e)
          ],
          λ b. cleared b ∙ (untouched b ∙ h.1 b),
          λ b info k. h.2 b info (infos b info k),
        ),
        (
          refl,
          λ b j v e. elim (Bool-cases (list_eq a b && (i == j))) [
            | inl t ↦ (hit b j t).0 ∙ (sym (hit b j t).1 ∙ h.0 b j v e)
            | inr f ↦ miss b j f ∙ e
          ],
        ),
      )

  fetch_slot-Keeps :
      (db : RemoteDb) (a : Address) (i v : ℕ) (db' : RemoteDb)
      → IsFaithful provider ops db
      → fetch_slot provider ops db a i ≡ ok (v, db')
      → Keeps provider ops db db'
        × (provider.get_storage_at a i db.block_number ≡ some v)
        × (recorded db'.initial_db a i ≡ some v)
  unfolding fetch_slot
  fetch_slot-Keeps db a i v db' h e =
      let (loaded, e₁, k₁) = >>=-eq-ok (lift (ops.basic a db.initial_db)) _ e in
      let (value, e₂, k₂) = >>=-eq-ok (lift (provider.get_storage_at a i db.block_number)) _ k₁ in
      let (stored, e₃, k₃) = >>=-eq-ok (lift (ops.insert_account_storage a i value loaded)) _ k₂ in
      let final = ok_unique _ refl k₃ in
      let (same, untouched) = basic_lem a db.initial_db loaded (lift-ok _ loaded e₁) in
      let answer = lift-ok (provider.get_storage_at a i db.block_number) value e₂ in
      let insertion = lift-ok (ops.insert_account_storage a i value loaded) stored e₃ in
      let there = recorded-insert_account_storage a i value loaded stored insertion in
      let infos : NoNewInfos ops.info_of db.initial_db stored = λ b info k.
        basic-NoNewInfos a db.initial_db loaded (lift-ok _ loaded e₁) b info
          (insert_account_storage-NoNewInfos a i value loaded stored insertion b info k) in
      let cleared = is_cleared-insert_account_storage a i value loaded stored insertion in
      subst
        (λ (x, d).
          Keeps provider ops db d
          × (provider.get_storage_at a i db.block_number ≡ some x)
          × (recorded d.initial_db a i ≡ some x))
        final
        (
          insert-Keeps db a i value loaded stored h (same, untouched) answer there cleared infos,
          answer,
          there a i ∙ ap (λ x. if x then some value else recorded loaded a i) (same_slot_refl a i),
        )

  -- Where `storage` gets its answer: from the current database, or else it is the provider's value at
  -- the block, and the initial database has it afterwards.
  abbrev pub IsAnswer : RemoteDb → Address → ℕ → ℕ → RemoteDb → Type 0
  IsAnswer db a i v db' =
      (get_storage_slot db.current_db a i ≡ ok v)
      ⊎ ((provider.get_storage_at a i db.block_number ≡ some v)
          × (recorded db'.initial_db a i ≡ some v))

  pub storage-IsFaithful :
      (db : RemoteDb) (a : Address) (i v : ℕ) (db' : RemoteDb)
      → IsFaithful provider ops db
      → storage provider ops db a i ≡ ok (v, db')
      → IsFaithful provider ops db' × IsLater provider ops db db' × IsAnswer db a i v db'
  unfolding storage
  storage-IsFaithful db a i v db' h e =
      elim (or_else-ok db (get_storage_slot db.current_db a i) _ v db' e) [
        | inl (p, q) ↦
            subst (λ d. IsFaithful provider ops d × IsLater provider ops db d × IsAnswer db a i v d)
              q (h, (self-Keeps provider ops db h).1, inl p)
        | inr k ↦ elim (or_else-ok db (get_storage_slot db.initial_db a i) _ v db' k) [
          | inl (p, q) ↦
              let r = recorded-get_storage_slot db.initial_db a i v (h.1 a) p in
              subst
                (λ d. IsFaithful provider ops d × IsLater provider ops db d × IsAnswer db a i v d) q
                (h, (self-Keeps provider ops db h).1, inr (h.0 a i v r, r))
          | inr f ↦
              let (keeps, answer, there) = fetch_slot-Keeps db a i v db' h f in
              (keeps.0, keeps.1, inr (answer, there))
        ]
      ]
