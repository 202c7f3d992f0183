-- ===== src/Db/Storage.antt =====
-- What `initialize` (primitives/src/db.rs) loads for each account.
use sp1_reth.Prelude.{
  ℕ, ◌≡◌, refl, sym, ap, subst, ◌∙◌, List, [], ◌∷◌, none, some, ok, arith, list_eq, if◌then◌else◌,
  inl, inr, Bool-cases, eq_of_list_eq, All, >>=-eq-ok, ok_unique, lookup, put, lookup-put,
  same_refl, IsMap, keep_other,
}
use sp1_reth.Nibbles.{Bytes}
use sp1_reth.Mpt.Node.{B256, MptNode}
use sp1_reth.Mpt.Reference.{hash}
use sp1_reth.Block.{Address, StorageEntry, Sp1RethInput}
use sp1_reth.Db.{
  nat_keys, bytes_keys, StateAccount, DbAccount, InMemoryDb, DbOps, find_account, find_slot,
  load_slots, load_code, check_root, load_account, load_accounts, load_ancestors, initialize,
  get_storage_slot,
}

module _ (ops : DbOps) where
  open ops use {codec}

  -- The map holds for the slot what the trie holds.
  abbrev Holds : MptNode → List (ℕ × ℕ) → ℕ → Type 0
  Holds trie storage slot =
      (v : ℕ) × (find_slot ops trie slot ≡ ok v) × (lookup slot storage ≡ some v)

  Holds-put :
      (trie : MptNode) (storage : List (ℕ × ℕ)) (slot k v : ℕ)
      → find_slot ops trie slot ≡ ok v
      → Holds trie storage k
      → Holds trie (put slot v storage) k
  Holds-put trie storage slot k v e (w, e', f) = elim (Bool-cases (nat_keys.same slot k)) [
    | inl t ↦
        let p = lookup-put k slot v storage ∙ ap (λ b. if b then some v else lookup k storage) t in
        (v, subst (λ s. find_slot ops trie s ≡ ok v) ((nat_keys.same_iff slot k).0 t) e, p)
    | inr t ↦
        let p = lookup-put k slot v storage ∙ ap (λ b. if b then some v else lookup k storage) t in
        (w, e', p ∙ f)
  ]

  load_slots-keeps :
      (trie : MptNode) (slots : List ℕ) (storage storage' : List (ℕ × ℕ)) (k : ℕ)
      → load_slots ops trie slots storage ≡ ok storage'
      → Holds trie storage k
      → Holds trie storage' k
  unfolding load_slots
  load_slots-keeps trie [] storage storage' k e h =
      subst (λ s. Holds trie s k) (ok_unique _ refl e) h
  load_slots-keeps trie (slot ∷ slots) storage storage' k e h =
      let (v, e₁, e₂) = >>=-eq-ok (find_slot ops trie slot) _ e in
      load_slots-keeps trie slots (put slot v storage) storage' k e₂
        (Holds-put trie storage slot k v e₁ h)

  load_slots-Holds :
      (trie : MptNode) (slots : List ℕ) (storage storage' : List (ℕ × ℕ))
      → load_slots ops trie slots storage ≡ ok storage'
      → All (Holds trie storage') slots
  unfolding load_slots
  load_slots-Holds trie [] storage storage' e = tt
  load_slots-Holds trie (slot ∷ slots) storage storage' e =
      let (v, e₁, e₂) = >>=-eq-ok (find_slot ops trie slot) _ e in
      let here : lookup slot (put slot v storage) ≡ some v =
        lookup-put slot slot v storage
        ∙ ap (λ b. if b then some v else lookup slot storage) (same_refl slot) in
      (
        load_slots-keeps trie slots (put slot v storage) storage' slot e₂ (v, e₁, here),
        load_slots-Holds trie slots (put slot v storage) storage' e₂,
      )

  -- The account that the database has at the address is the one loaded from the entry.
  abbrev Loads :
      MptNode → List (B256 × Bytes) → List (Address × DbAccount) → Address × StorageEntry → Type 0
  Loads state_trie contracts accounts (address, entry) =
      (account : DbAccount) × (load_account ops state_trie contracts address entry ≡ ok account)
      × (lookup address accounts ≡ some account)

  load_accounts-keeps :
      (state_trie : MptNode) (contracts : List (B256 × Bytes))
      (entries : List (Address × StorageEntry)) (accounts accounts' : List (Address × DbAccount))
      (a : Address)
      → load_accounts ops state_trie contracts entries accounts ≡ ok accounts'
      → lookup a entries ≡ none
      → lookup a accounts' ≡ lookup a accounts
  unfolding load_accounts
  load_accounts-keeps state_trie contracts [] accounts accounts' a e miss =
      ap (λ m. lookup a m) (sym (ok_unique _ refl e))
  load_accounts-keeps state_trie contracts ((address, entry) ∷ rest) accounts accounts' a e miss =
      let (account, e₁, e₂) = >>=-eq-ok (load_account ops state_trie contracts address entry) _ e in
      let (other, gone) = keep_other address a entry rest miss in
      load_accounts-keeps state_trie contracts rest (put address account accounts) accounts' a e₂
        gone
      ∙ lookup-put a address account accounts
      ∙ ap (λ b. if b then some account else lookup a accounts) other

  load_accounts-Loads :
      (state_trie : MptNode) (contracts : List (B256 × Bytes))
      (entries : List (Address × StorageEntry)) (accounts accounts' : List (Address × DbAccount))
      → IsMap entries
      → load_accounts ops state_trie contracts entries accounts ≡ ok accounts'
      → All (Loads state_trie contracts accounts') entries
  unfolding load_accounts
  load_accounts-Loads state_trie contracts [] accounts accounts' h e = tt
  load_accounts-Loads state_trie contracts ((address, entry) ∷ rest) accounts accounts' h e =
      let (account, e₁, e₂) = >>=-eq-ok (load_account ops state_trie contracts address entry) _ e in
      let here =
        load_accounts-keeps state_trie contracts rest (put address account accounts) accounts'
          address e₂ h.0
        ∙ lookup-put address address account accounts
        ∙ ap (λ b. if b then some account else lookup address accounts) (same_refl address) in
      (
        (account, e₁, here),
        load_accounts-Loads state_trie contracts rest (put address account accounts) accounts' h.1
            e₂,
      )

  -- An account as the tries have it: its fields are those of the state trie's entry, the entry's
  -- storage root is the hash of the storage trie, and each slot holds the storage trie's value.
  pub record IsAccount (state_trie : MptNode) (db : InMemoryDb) (address : Address)
      (entry : StorageEntry) : Type 0 where
    pub account : StateAccount
    pub loaded : DbAccount
    pub in_state : find_account ops state_trie address ≡ ok account
    pub in_db : lookup address db.accounts ≡ some loaded
    pub balance : loaded.info.balance ≡ account.balance
    pub nonce : loaded.info.nonce ≡ account.nonce
    pub code_hash : loaded.info.code_hash ≡ account.code_hash
    pub storage_root : hash codec entry.0 ≡ account.storage_root
    pub slots :
        All
          (λ slot.
            (v : ℕ) × (find_slot ops entry.0 slot ≡ ok v)
            × (get_storage_slot db address slot ≡ ok v))
          entry.1

  check_root-ok :
      (trie : MptNode) (account : StateAccount) {u : Unit {0}}
      → check_root ops trie account ≡ ok u
      → hash codec trie ≡ account.storage_root
  unfolding check_root
  check_root-ok trie account e =
      elim (Bool-cases (list_eq (hash codec trie) account.storage_root)) [
        | inl t ↦ eq_of_list_eq _ _ t
        | inr f ↦ cc
      ]

  All-map {κ μ} :
      {A : Type 0} (P : A → Type κ) (Q : A → Type μ) (xs : List A)
      → ((x : A) → P x → Q x)
      → All P xs
      → All Q xs
  All-map P Q [] f h = tt
  All-map P Q (x ∷ xs) f h = (f x h.0, All-map P Q xs f h.1)

  get_storage_slot-Holds :
      (db : InMemoryDb) (address : Address) (account : DbAccount) (slot v : ℕ)
      → lookup address db.accounts ≡ some account
      → lookup slot account.storage ≡ some v
      → get_storage_slot db address slot ≡ ok v
  unfolding get_storage_slot
  get_storage_slot-Holds db address account slot v e f = ground arith

  Loads-IsAccount :
      (state_trie : MptNode) (contracts : List (B256 × Bytes)) (db : InMemoryDb) (address : Address)
      (entry : StorageEntry)
      → Loads state_trie contracts db.accounts (address, entry)
      → IsAccount state_trie db address entry
  unfolding load_account
  Loads-IsAccount state_trie contracts db address (trie, slots) (loaded, e, found) =
      let (account, e₁, k₁) = >>=-eq-ok (find_account ops state_trie address) _ e in
      let (u, e₂, k₂) = >>=-eq-ok (check_root ops trie account) _ k₁ in
      let (code, e₃, k₃) = >>=-eq-ok (load_code ops contracts account.code_hash) _ k₂ in
      let (storage, e₄, k₄) = >>=-eq-ok (load_slots ops trie slots []) _ k₃ in
      let final = ok_unique _ refl k₄ in
      let held =
        subst (λ a. All (Holds trie a.storage) slots) final
          (load_slots-Holds trie slots [] storage e₄) in
      record {
        account = account;
        loaded = loaded;
        in_state = e₁;
        in_db = found;
        balance = ap (λ a. a.info.balance) (sym final);
        nonce = ap (λ a. a.info.nonce) (sym final);
        code_hash = ap (λ a. a.info.code_hash) (sym final);
        storage_root = check_root-ok trie account e₂;
        slots =
            All-map (Holds trie loaded.storage) _ slots
              (λ slot (v, read, stored).
                (v, read, get_storage_slot-Holds db address loaded slot v found stored))
              held;
      }

pub initialize-IsAccount :
    (ops : DbOps) (input input' : Sp1RethInput) (db : InMemoryDb)
    → IsMap input.parent_storage
    → initialize ops input ≡ ok (input', db)
    → All
        (λ (address, entry). IsAccount ops input.parent_state_trie db address entry)
        input.parent_storage
unfolding initialize
initialize-IsAccount ops input input' db h e =
    let (accounts, e₁, k₁) =
      >>=-eq-ok (load_accounts ops input.parent_state_trie _ input.parent_storage []) _ e in
    let (hashes, e₂, k₂) =
      >>=-eq-ok
        (load_ancestors ops input.parent_header input.parent_header input.ancestor_headers _) _
        k₁ in
    let final : accounts ≡ db.accounts = ap (λ r. r.1.accounts) (ok_unique _ refl k₂) in
    let loads =
      load_accounts-Loads ops input.parent_state_trie _ input.parent_storage [] db.accounts h
        (e₁ ∙ ap ok final) in
    All-map ops _ _ input.parent_storage
      (λ (address, entry) l. Loads-IsAccount ops input.parent_state_trie _ db address entry l) loads
