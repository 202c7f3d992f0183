-- ===== src/Processor/Execute/Fresh.antt =====
-- The transaction environment that `execute` (primitives/src/processor.rs) reuses, against one made
-- anew for each transaction.
use sp1_reth.Prelude.{
  ℕ, ◌≡◌, refl, ap, subst, ◌∙◌, List, [], ◌∷◌, ok, err, panic, ◌>>=◌, >>=-eq-ok, ok_unique, ltb,
}
use sp1_reth.Block.{SignedTransaction}
use sp1_reth.Processor.{Run, unwrap, panic_if}
use sp1_reth.Processor.TxEnv.{
  SameBlobs, fill_eth_tx_env, tx_gas_limit, fill_eth_tx_env_same, fill_eth_tx_env-SameBlobs,
}
use sp1_reth.Processor.Execute.{
  BlockEnv, Evm, Progress, execute_tx, execute_txs, start, wrapping_sub, checked_add, to_u64,
}

-- Two continuations that agree on what comes are as good as each other.
>>=-same :
    {A B : Type 0} (m : Run A) (f g : A → Run B)
    → ((a : A) → m ≡ ok a → f a ≡ g a)
    → (m >>= f) ≡ (m >>= g)
>>=-same (ok a) f g h = h a refl
>>=-same (err e) f g h = refl
>>=-same panic f g h = refl

same->>= : {A B : Type 0} {m n : Run A} (f : A → Run B) → m ≡ n → (m >>= f) ≡ (n >>= f)
same->>= f e = ap (λ r. r >>= f) e

module _ {D Log Changes : Type 0} (evm : Evm D Log Changes) (gas_limit : ℕ) (block : BlockEnv) where
  -- The loop with an empty environment for each transaction.
  unfoldable pub fresh_txs : List SignedTransaction → Progress D Log → Run (Progress D Log)
  fresh_txs [] s = ok s
  fresh_txs (tx ∷ txs) s =
      execute_tx evm gas_limit block (record s { tx_env = evm.empty_tx_env }) tx >>= fresh_txs txs

  execute_tx_fresh :
      (s : Progress D Log) (tx : SignedTransaction)
      → SameBlobs s.tx_env evm.empty_tx_env
      → execute_tx evm gas_limit block s tx
        ≡ execute_tx evm gas_limit block (record s { tx_env = evm.empty_tx_env }) tx
  unfolding execute_tx
  execute_tx_fresh s tx h = >>=-same (unwrap (evm.recover_signer tx)) _ _ (λ from e.
      >>=-same
        (panic_if
          (ltb (wrapping_sub gas_limit s.cumulative_gas_used) (tx_gas_limit tx.transaction)))
        _ _
        (λ u e'.
          same->>= _
            (fill_eth_tx_env_same evm.to_u256 s.tx_env evm.empty_tx_env tx.transaction from h)))

  execute_tx-SameBlobs :
      (s s' : Progress D Log) (tx : SignedTransaction)
      → SameBlobs s.tx_env evm.empty_tx_env
      → execute_tx evm gas_limit block s tx ≡ ok s'
      → SameBlobs s'.tx_env evm.empty_tx_env
  unfolding execute_tx
  execute_tx-SameBlobs s s' tx (hashes, fee) e =
      let (from, e₁, k₁) = >>=-eq-ok (unwrap (evm.recover_signer tx)) _ e in
      let (u, e₂, k₂) =
        >>=-eq-ok
          (panic_if
            (ltb (wrapping_sub gas_limit s.cumulative_gas_used) (tx_gas_limit tx.transaction)))
          _ k₁ in
      let (env, e₃, k₃) =
        >>=-eq-ok (fill_eth_tx_env evm.to_u256 s.tx_env tx.transaction from) _ k₂ in
      let ((res, db), e₄, k₄) = >>=-eq-ok (unwrap (evm.transact block env s.db)) _ k₃ in
      let (total, e₅, k₅) =
        >>=-eq-ok (unwrap (checked_add s.cumulative_gas_used res.gas_used)) _ k₄ in
      let (total_u64, e₆, k₆) = >>=-eq-ok (unwrap (to_u64 total)) _ k₅ in
      let (b, m) = fill_eth_tx_env-SameBlobs evm.to_u256 s.tx_env tx.transaction from env e₃ in
      subst (λ x. SameBlobs x.tx_env evm.empty_tx_env) (ok_unique _ refl k₆) (b ∙ hashes, m ∙ fee)

  execute_txs-fresh_txs_from :
      (txs : List SignedTransaction) (s : Progress D Log)
      → SameBlobs s.tx_env evm.empty_tx_env
      → execute_txs evm gas_limit block txs s ≡ fresh_txs txs s
  unfolding execute_txs fresh_txs
  execute_txs-fresh_txs_from [] s h = refl
  execute_txs-fresh_txs_from (tx ∷ txs) s h =
      >>=-same (execute_tx evm gas_limit block s tx) _ _
        (λ s' e. execute_txs-fresh_txs_from txs s' (execute_tx-SameBlobs s s' tx h e))
      ∙ ap (λ m. m >>= fresh_txs txs) (execute_tx_fresh s tx h)

  -- Executing the transactions of a block on the one environment that is reused gives, in every
  -- case, what executing each on an empty environment gives: nothing of a transaction before is seen.
  pub execute_txs-fresh_txs :
      (txs : List SignedTransaction) (db : D)
      → execute_txs evm gas_limit block txs (start evm db) ≡ fresh_txs txs (start evm db)
  execute_txs-fresh_txs txs db = execute_txs-fresh_txs_from txs (start evm db) (refl, refl)
