-- ===== src/Processor/Finalize/Writes.antt =====
-- The state root that `finalize` (primitives/src/processor.rs) writes, against the changes that the
-- accounts of the database ask for.
use sp1_reth.Prelude.{
  ◌≡◌, ◌≢◌, refl, sym, ap, subst, ◌∙◌, false, List, [], ◌∷◌, ◌++◌, Option, none, some, ok, inl, inr,
  Bool-cases, All, >>=-eq-ok, ok_unique, lookup, lookup-put_other, keep_other, same_refl, IsMap,
}
use sp1_reth.Nibbles.{Bytes, IsBytes}
use sp1_reth.Mpt.Node.{MptNode, node, default, clear}
use sp1_reth.Mpt.Reference.{hash}
use sp1_reth.Mpt.Get.{get}
use sp1_reth.Mpt.Canonical.{IsCanonical}
use sp1_reth.Mpt.Insert.{insert_rlp}
use sp1_reth.Db.Rlp.{insert-insert_rlp}
use sp1_reth.Mpt.Delete.{delete}
use sp1_reth.Mpt.Map.Runs.{Op, put, remove, IsOp, run, replay, run_refines}
use sp1_reth.Block.{Address, Header, StorageEntry}
use sp1_reth.Db.{
  AccountState, not_existing, touched, storage_cleared, unchanged, DbAccount, InMemoryDb,
  bytes_keys,
}
use sp1_reth.Processor.{EvmProcessor, unwrap}
use sp1_reth.Processor.Finalize.Slots.{unwrap_trie_ok, run_cons, write_slots-run}
use sp1_reth.Processor.Finalize.{
  Encoders, unwrap_trie, write_slots, start_trie, state_account, write_account, finalize_account,
  finalize_accounts, finalize, Tries,
}
use sp1_reth.Processor.Finalize.Written.{IsWritten, nothing, kept, deleted, stored}

unwrap_ok {ℓ} : {A : Type ℓ} (o : Option A) {a : A} → unwrap o ≡ ok a → o ≡ some a
unwrap_ok none e = cc
unwrap_ok (some b) e = cc

different : (a b : Address) → a ≢ b → bytes_keys.same a b ≡ false
different a b other = elim (Bool-cases (bytes_keys.same a b)) [
  | inl e ↦ absurd (other ((bytes_keys.same_iff a b).0 e))
  | inr e ↦ e
]

start_trie_cleared :
    (s : AccountState) (trie : MptNode) → s ≡ storage_cleared → start_trie s trie ≡ default
unfolding start_trie clear
start_trie_cleared storage_cleared (node d c) e = refl
start_trie_cleared touched trie e = cc
start_trie_cleared not_existing trie e = cc
start_trie_cleared unchanged trie e = cc

start_trie_kept :
    (s : AccountState) (trie : MptNode) → s ≢ storage_cleared → start_trie s trie ≡ trie
unfolding start_trie
start_trie_kept storage_cleared trie ne = absurd (ne refl)
start_trie_kept touched trie ne = refl
start_trie_kept not_existing trie ne = refl
start_trie_kept unchanged trie ne = refl

module _ (ops : Encoders) where
  open ops use {codec, encode_account, encode_account-ne}

  -- What one round of the loop does, for the rest of it.
  record IsRound (storage : List (Address × StorageEntry)) (a : Address) (account : DbAccount)
      (before after : Tries) : Type 0 where
    pub changes : List Op
    pub written :
        (rest : List (Address × DbAccount)) (more : List Op)
        → IsWritten ops storage rest more
        → IsWritten ops storage ((a, account) ∷ rest) (changes ++ more)
    pub runs :
        (more : List Op) (t : MptNode)
        → run more after.0 ≡ ok t
        → run (changes ++ more) before.0 ≡ ok t
    pub others : (b : Address) → a ≢ b → lookup b after.1 ≡ lookup b before.1

  write_account-IsRound :
      (storage now : List (Address × StorageEntry)) (a : Address) (account : DbAccount)
      (state : MptNode) (entry : StorageEntry) (tries' : Tries)
      → account.account_state ≢ unchanged
      → account.account_state ≢ not_existing
      → lookup a storage ≡ some entry
      → write_account ops (state, now) a account entry ≡ ok tries'
      → IsRound storage a account (state, now) tries'
  unfolding write_account
  write_account-IsRound storage now a account state (trie, slots) tries' changed exists found e =
      let (t, e₁, k₁) =
        >>=-eq-ok (write_slots ops (start_trie account.account_state trie) account.storage) _ e in
      let (state', e₂, k₂) =
        >>=-eq-ok
          (unwrap_trie (
            insert_rlp encode_account state (codec.keccak a)
              (state_account account (hash codec t))))
          _ k₁ in
      let (b, inserted) = unwrap_trie_ok _ e₂ in
      let same =
        insert-insert_rlp encode_account state (codec.keccak a)
          (state_account account (hash codec t)) (encode_account-ne _) in
      subst (IsRound storage a account (state, now)) (ok_unique _ refl k₂) (record {
        changes = put (codec.keccak a) (encode_account (state_account account (hash codec t))) ∷ [];
        written = λ rest more h.
            stored a account rest more (trie, slots) (start_trie account.account_state trie) t
              changed exists found (start_trie_cleared account.account_state trie)
              (start_trie_kept account.account_state trie)
              (write_slots-run ops account.storage _ t e₁) h;
        runs = λ more u h.
            run_cons (put (codec.keccak a) (encode_account (state_account account (hash codec t))))
              more state state' u b (same ∙ inserted) h;
        others = λ c other. lookup-put_other c a _ now (different a c other);
      })

  finalize_account-IsRound :
      (storage now : List (Address × StorageEntry)) (a : Address) (account : DbAccount)
      (state : MptNode) (s : AccountState) (tries' : Tries)
      → account.account_state ≡ s
      → lookup a now ≡ lookup a storage
      → finalize_account ops (state, now) a account s ≡ ok tries'
      → IsRound storage a account (state, now) tries'
  unfolding finalize_account
  finalize_account-IsRound storage now a account state unchanged tries' q same e =
      subst (IsRound storage a account (state, now)) (ok_unique _ refl e) (record {
        changes = [];
        written = λ rest more h. kept a account rest more q h;
        runs = λ more t h. h;
        others = λ b other. refl;
      })
  finalize_account-IsRound storage now a account state not_existing tries' q same e =
      let (state', e₁, k₁) = >>=-eq-ok (unwrap_trie (delete state (codec.keccak a))) _ e in
      let (b, gone) = unwrap_trie_ok _ e₁ in
      subst (IsRound storage a account (state, now)) (ok_unique _ refl k₁) (record {
        changes = remove (codec.keccak a) ∷ [];
        written = λ rest more h. deleted a account rest more q h;
        runs = λ more t h. run_cons (remove (codec.keccak a)) more state state' t b gone h;
        others = λ c other. refl;
      })
  finalize_account-IsRound storage now a account state touched tries' q same e =
      let (entry, e₁, k₁) = >>=-eq-ok (unwrap (lookup a now)) _ e in
      write_account-IsRound storage now a account state entry tries' (λ u. cc) (λ u. cc)
        (sym same ∙ unwrap_ok _ e₁) k₁
  finalize_account-IsRound storage now a account state storage_cleared tries' q same e =
      let (entry, e₁, k₁) = >>=-eq-ok (unwrap (lookup a now)) _ e in
      write_account-IsRound storage now a account state entry tries' (λ u. cc) (λ u. cc)
        (sym same ∙ unwrap_ok _ e₁) k₁

  -- The accounts that are left still have the storage tries of the input.
  abbrev AreUntouched :
      List (Address × StorageEntry)
      → List (Address × StorageEntry)
      → List (Address × DbAccount)
      → Type 0
  AreUntouched storage now accounts =
      (b : Address) → lookup b accounts ≢ none → lookup b now ≡ lookup b storage

  finalize_accounts-IsWritten :
      (storage now : List (Address × StorageEntry)) (accounts : List (Address × DbAccount))
      (state : MptNode) (tries' : Tries)
      → IsMap accounts
      → AreUntouched storage now accounts
      → finalize_accounts ops (state, now) accounts ≡ ok tries'
      → (changes : List Op) × IsWritten ops storage accounts changes
        × (run changes state ≡ ok tries'.0)
  unfolding finalize_accounts run
  finalize_accounts-IsWritten storage now [] state tries' h un e =
      ([], nothing, ap (λ r. ok r.0) (ok_unique _ refl e))
  finalize_accounts-IsWritten storage now ((a, account) ∷ rest) state tries' h un e =
      let ((state', now'), e₁, e₂) =
        >>=-eq-ok (finalize_account ops (state, now) a account account.account_state) _ e in
      let round =
        finalize_account-IsRound storage now a account state account.account_state (state', now')
          refl
          (un a
            (λ q. let clash = (keep_other a a account rest q).0 in let always = same_refl a in cc))
          e₁ in
      let (more, w, r) =
        finalize_accounts-IsWritten storage now' rest state' tries' h.1
          (λ b found.
            round.others b (λ q. found (subst (λ x. lookup x rest ≡ none) q h.0))
            ∙ un b (λ q. found (keep_other a b account rest q).1))
          e₂ in
      (round.changes ++ more, round.written rest more w, round.runs more tries'.0 r)

  IsWritten-IsOp :
      (storage : List (Address × StorageEntry)) (accounts : List (Address × DbAccount))
      (changes : List Op)
      → IsWritten ops storage accounts changes
      → All IsOp changes
  IsWritten-IsOp storage [] [] nothing = tt
  IsWritten-IsOp storage _ changes (kept a account rest _ q w) =
      IsWritten-IsOp storage rest changes w
  IsWritten-IsOp storage _ _ (deleted a account rest changes q w) =
      (codec.keccak-IsBytes a, IsWritten-IsOp storage rest changes w)
  IsWritten-IsOp storage _ _
        (stored a account rest changes entry first t changed exists found cleared same r w) =
      ((codec.keccak-IsBytes a, encode_account-ne _), IsWritten-IsOp storage rest changes w)

-- Where `finalize` returns, with a canonical state trie and one entry per address in the database,
-- the header's state root is the hash of a canonical trie that answers every key as the state trie
-- does after the changes that the accounts ask for, in their order: nothing for an unchanged account,
-- a removal for a deleted one, and only for the others their fields, with the hash of the storage
-- trie after the run of the slots, from the input's trie or, if the storage was cleared, the empty one.
pub finalize-IsWritten :
    (ops : Encoders) (p q : EvmProcessor InMemoryDb) (db : InMemoryDb)
    → p.db ≡ some db
    → IsMap db.accounts
    → IsCanonical p.input.parent_state_trie
    → finalize ops p ≡ ok q
    → (h : Header) × (state : MptNode) × (changes : List Op) × (q.header ≡ some h)
      × (h.state_root ≡ hash ops.codec state)
      × IsWritten ops p.input.parent_storage db.accounts changes
      × IsCanonical state
      × ((key : Bytes)
          → IsBytes key
          → get state key ≡ replay changes (get p.input.parent_state_trie) key)
unfolding finalize
finalize-IsWritten ops p q db same map canonical e =
    let (db', e₁, k₁) = >>=-eq-ok (unwrap p.db) _ e in
    let ((state, storage), e₂, k₂) =
      >>=-eq-ok
        (finalize_accounts ops (p.input.parent_state_trie, p.input.parent_storage) db'.accounts) _
        k₁ in
    let (h, e₃, k₃) = >>=-eq-ok (unwrap p.header) _ k₂ in
    let known : db' ≡ db = ok_unique (unwrap p.db) e₁ (ap unwrap same) in
    let (changes, written, r) =
      finalize_accounts-IsWritten ops p.input.parent_storage p.input.parent_storage db.accounts
        p.input.parent_state_trie (state, storage) map (λ b found. refl)
        (subst
          (λ d.
            finalize_accounts ops (p.input.parent_state_trie, p.input.parent_storage) d.accounts
            ≡ ok (state, storage))
          known e₂) in
    let (shape, reads) =
      run_refines changes p.input.parent_state_trie state canonical
        (IsWritten-IsOp ops p.input.parent_storage db.accounts changes written) r in
    (_, state, changes, sym (ap (λ x. x.header) (ok_unique _ refl k₃)), refl, written, shape, reads)
