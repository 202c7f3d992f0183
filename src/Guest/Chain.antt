-- ===== src/Guest/Chain.antt =====
-- The header that the guest (program/src/main.rs) prints the hash of, against the input.
use sp1_reth.Prelude.{
  ℕ, ◌+◌, ◌≤◌, ◌<◌, ◌≡◌, refl, sym, ap, subst, ◌∙◌, List, Option, none, some, Outcome, ok, err,
  panic, length, >>=-eq-ok, ok_unique,
}
use sp1_reth.Mpt.Node.{B256}
use sp1_reth.Mpt.Reference.{hash}
use sp1_reth.Block.{Address, Header, StorageEntry, Sp1RethInput, u64_mod}
use sp1_reth.Db.{InMemoryDb, DbOps, load_accounts, load_ancestors}
use sp1_reth.Db as Db
use sp1_reth.Processor.{EvmProcessor, HeaderOps, unwrap, initial_header, initialize}
use sp1_reth.Processor.Checks.{initialize_iff}
use sp1_reth.Processor.Execute.{
  Evm, start, to_u64, block_env, execute_txs, apply_withdrawals, execute,
}
use sp1_reth.Processor.Execute.Gas.{execute-gas}
use sp1_reth.Processor.Finalize.{Encoders, finalize_accounts, finalize}
use sp1_reth.Guest.{unwrap_result, main}

-- The fields that neither the execution nor the end of it touches.
record Keeps (before after : Header) : Type 0 where
  pub parent_hash : after.parent_hash ≡ before.parent_hash
  pub number : after.number ≡ before.number
  pub timestamp : after.timestamp ≡ before.timestamp
  pub gas_limit : after.gas_limit ≡ before.gas_limit
  pub extra_data : after.extra_data ≡ before.extra_data
  pub beneficiary : after.beneficiary ≡ before.beneficiary

some_unique {ℓ} : {A : Type ℓ} (o : Option A) {a b : A} → o ≡ some a → o ≡ some b → a ≡ b
some_unique o e f = cc

unwrapped {ℓ} : {A : Type ℓ} (o : Option A) {a : A} → unwrap o ≡ ok a → o ≡ some a
unwrapped none e = cc
unwrapped (some b) e = cc

unwrap_result_ok : {E A : Type 0} (r : Outcome E A) {a : A} → unwrap_result r ≡ ok a → r ≡ ok a
unwrap_result_ok (ok b) e = ap ok (ok_unique _ refl e)
unwrap_result_ok (err x) e = cc
unwrap_result_ok panic e = cc

-- Loading the database changes only the storage tries of the input.
initialize-input :
    (ops : DbOps) (input input' : Sp1RethInput) (db : InMemoryDb)
    → Db.initialize ops input ≡ ok (input', db)
    → (storage : List (Address × StorageEntry)) × (input'
        ≡ record input { parent_storage = storage })
unfolding Db.initialize
initialize-input ops input input' db e =
    let (accounts, e₁, k₁) =
      >>=-eq-ok (load_accounts ops input.parent_state_trie _ input.parent_storage _) _ e in
    let (hashes, e₂, k₂) =
      >>=-eq-ok
        (load_ancestors ops input.parent_header input.parent_header input.ancestor_headers _) _
        k₁ in
    (_, sym (ap (λ r. r.0) (ok_unique _ refl k₂)))

execute-Keeps :
    {D Log Changes : Type 0} (evm : Evm D Log Changes) (p q : EvmProcessor D) (h : Header)
    → p.header ≡ some h
    → execute evm p ≡ ok q
    → (h' : Header) × (q.header ≡ some h') × Keeps h h'
unfolding execute
execute-Keeps evm p q h set e =
    let (h₀, e₁, k₁) = >>=-eq-ok (unwrap p.header) _ e in
    let (basefee, e₂, k₂) = >>=-eq-ok (unwrap h₀.base_fee_per_gas) _ k₁ in
    let (db, e₃, k₃) = >>=-eq-ok (unwrap p.db) _ k₂ in
    let (s, e₄, k₄) =
      >>=-eq-ok
        (execute_txs evm p.input.gas_limit (block_env evm p.input h₀ basefee) p.input.transactions
          (start evm db))
        _ k₃ in
    let (db', e₅, k₅) = >>=-eq-ok (apply_withdrawals evm p.input.withdrawals s.db) _ k₄ in
    let (gas_used, e₆, k₆) = >>=-eq-ok (unwrap (to_u64 s.cumulative_gas_used)) _ k₅ in
    let same : h₀ ≡ h = some_unique p.header (unwrapped p.header e₁) set in
    (
      _,
      sym (ap (λ r. r.header) (ok_unique _ refl k₆)),
      record {
        parent_hash = ap (λ x. x.parent_hash) same;
        number = ap (λ x. x.number) same;
        timestamp = ap (λ x. x.timestamp) same;
        gas_limit = ap (λ x. x.gas_limit) same;
        extra_data = ap (λ x. x.extra_data) same;
        beneficiary = ap (λ x. x.beneficiary) same;
      },
    )

abbrev with_root : B256 → Header → Header
with_root root h = record h { state_root = root }

finalize-state_root :
    (ops : Encoders) (p q : EvmProcessor InMemoryDb) (h : Header)
    → p.header ≡ some h
    → finalize ops p ≡ ok q
    → (root : B256) × (q.header ≡ some (with_root root h))
unfolding finalize
finalize-state_root ops p q h set e =
    let (db, e₁, k₁) = >>=-eq-ok (unwrap p.db) _ e in
    let ((state, storage), e₂, k₂) =
      >>=-eq-ok
        (finalize_accounts ops (p.input.parent_state_trie, p.input.parent_storage) db.accounts) _
        k₁ in
    let (h₀, e₃, k₃) = >>=-eq-ok (unwrap p.header) _ k₂ in
    let same : h₀ ≡ h = some_unique p.header (unwrapped p.header e₃) set in
    (
      hash ops.codec state,
      sym (ap (λ r. r.header) (ok_unique _ refl k₃))
          ∙ ap (λ x. some (with_root (hash ops.codec state) x)) same,
    )

-- What makes a header one on top of the parent, for this input.
pub record IsSuccessor (header_ops : HeaderOps) (input : Sp1RethInput) (h : Header) : Type 0 where
  pub parent_hash : h.parent_hash ≡ header_ops.hash_slow input.parent_header
  pub number : h.number ≡ input.parent_header.number + 1
  pub number-lt : h.number < u64_mod
  pub timestamp : h.timestamp ≡ input.timestamp
  pub parent_timestamp-le : input.parent_header.timestamp ≤ h.timestamp
  pub gas_limit : h.gas_limit ≡ input.gas_limit
  pub gas_used-le : h.gas_used ≤ h.gas_limit
  pub extra_data-le : length h.extra_data ≤ 32
  pub beneficiary : h.beneficiary ≡ input.beneficiary

Keeps-IsSuccessor :
    (ops : HeaderOps) (input : Sp1RethInput) (root : B256) (h : Header)
    → Keeps (initial_header ops input (input.parent_header.number + 1)) h
    → input.parent_header.number + 1 < u64_mod
    → input.parent_header.timestamp ≤ input.timestamp
    → length input.extra_data ≤ 32
    → h.gas_used ≤ input.gas_limit
    → IsSuccessor ops input (with_root root h)
unfolding initial_header
Keeps-IsSuccessor ops input root h keeps number-lt timestamp-le extra-le gas-le = record {
  parent_hash = keeps.parent_hash;
  number = keeps.number;
  number-lt = subst (λ n. n < u64_mod) (sym keeps.number) number-lt;
  timestamp = keeps.timestamp;
  parent_timestamp-le =
      subst (λ t. input.parent_header.timestamp ≤ t) (sym keeps.timestamp) timestamp-le;
  gas_limit = keeps.gas_limit;
  gas_used-le = subst (λ l. h.gas_used ≤ l) (sym keeps.gas_limit) gas-le;
  extra_data-le = subst (λ d. length d ≤ 32) (sym keeps.extra_data) extra-le;
  beneficiary = keeps.beneficiary;
}

module _ {Log Changes : Type 0} (db_ops : DbOps) (header_ops : HeaderOps)
    (evm : Evm InMemoryDb Log Changes) (encoders : Encoders) where
  process-IsSuccessor :
      (input : Sp1RethInput) (db : InMemoryDb) (ready executed final : EvmProcessor InMemoryDb)
      (h : Header)
      → input.gas_limit < u64_mod
      → initialize header_ops (record { input = input; db = some db; header = none }) ≡ ok ready
      → execute evm ready ≡ ok executed
      → finalize encoders executed ≡ ok final
      → final.header ≡ some h
      → IsSuccessor header_ops input h
  unfolding initial_header
  process-IsSuccessor input db ready executed final h small e₁ e₂ e₃ e₄ =
      let begun : EvmProcessor InMemoryDb = record { input = input; db = some db; header = none } in
      let (same, number-lt, timestamp-le, extra-le) =
        (initialize_iff header_ops begun ready).0 e₁ in
      let number : ℕ = input.parent_header.number + 1 in
      let ran = subst (λ p. execute evm p ≡ ok executed) same e₂ in
      let (h₁, set₁, keeps) =
        execute-Keeps evm _ executed (initial_header header_ops input number) refl ran in
      let (h₂, receipts, set₂, root, count, rising, gas-le) =
        execute-gas evm _ executed small ran in
      let (state_root, set₃) = finalize-state_root encoders executed final h₁ set₁ e₃ in
      let last : with_root state_root h₁ ≡ h = some_unique final.header set₃ e₄ in
      let twice : h₂ ≡ h₁ = some_unique executed.header set₂ set₁ in
      subst (IsSuccessor header_ops input) last (
        Keeps-IsSuccessor header_ops input state_root h₁ keeps number-lt timestamp-le extra-le
          (subst (λ x. x.gas_used ≤ input.gas_limit) twice gas-le))

  -- A header that the guest's `main` ends with, under a gas limit of 64 bits, is one on top of the
  -- input's parent header: it has the hash of the parent, the next number, which fits 64 bits, the
  -- input's timestamp, not before the parent's, the input's gas limit, with no more gas used, at most
  -- 32 bytes of extra data, and the input's beneficiary.
  pub main-IsSuccessor :
      (input : Sp1RethInput) (h : Header)
      → input.gas_limit < u64_mod
      → main db_ops header_ops evm encoders input ≡ ok h
      → IsSuccessor header_ops input h
  unfolding main
  main-IsSuccessor input h small e =
      let ((input', db), e₁, k₁) = >>=-eq-ok (unwrap_result (Db.initialize db_ops input)) _ e in
      let (ready, e₂, k₂) =
        >>=-eq-ok (initialize header_ops (record { input = input'; db = some db; header = none })) _
          k₁ in
      let (executed, e₃, k₃) = >>=-eq-ok (execute evm ready) _ k₂ in
      let (final, e₄, k₄) = >>=-eq-ok (finalize encoders executed) _ k₃ in
      let (storage, same) = initialize-input db_ops input input' db (unwrap_result_ok _ e₁) in
      let started =
        subst
          (λ i.
            initialize header_ops (record { input = i; db = some db; header = none }) ≡ ok ready)
          same e₂ in
      let done =
        process-IsSuccessor (record input { parent_storage = storage }) db ready executed final h
          small started e₃ e₄ (unwrapped final.header k₄) in
      record {
        parent_hash = done.parent_hash;
        number = done.number;
        number-lt = done.number-lt;
        timestamp = done.timestamp;
        parent_timestamp-le = done.parent_timestamp-le;
        gas_limit = done.gas_limit;
        gas_used-le = done.gas_used-le;
        extra_data-le = done.extra_data-le;
        beneficiary = done.beneficiary;
      }
