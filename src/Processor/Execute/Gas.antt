-- ===== src/Processor/Execute/Gas.antt =====
-- The gas of a block (primitives/src/processor.rs, `execute`): the running total that the receipts
-- record stays within the block's limit.
use sp1_reth.Prelude.{
  ℕ, suc, ◌+◌, ◌≤◌, ◌<◌, ◌≡◌, refl, sym, ap, subst, ◌∙◌, Bool, true, false, List, [], ◌∷◌, ◌++◌,
  Option, none, some, ok, arith, ltb, length, >>=-eq-ok, ok_unique, length-append,
}
use sp1_reth.Block.{Header, SignedTransaction, Transaction, u64_mod}
use sp1_reth.Processor.{EvmProcessor, unwrap, panic_if}
use sp1_reth.Processor.TxEnv.{TxEnv, fill_eth_tx_env, tx_gas_limit, fill_eth_tx_env-gas}
use sp1_reth.Processor.Execute.{
  BlockEnv, Receipt, ExecutionResult, Evm, Progress, checked_add, to_u64, wrapping_sub,
  record_result, execute_tx, execute_txs, apply_withdrawals, block_env, start, execute,
}

unwrap-ok {ℓ} : {A : Type ℓ} (o : Option A) {a : A} → unwrap o ≡ ok a → o ≡ some a
unwrap-ok none e = cc
unwrap-ok (some b) e = cc

panic_if-ok : (b : Bool) {u : Unit {0}} → panic_if b ≡ ok u → b ≡ false
panic_if-ok true e = cc
panic_if-ok false e = refl

-- The totals of the receipts rise from `from` to `total`.
abbrev pub IsRising : {Log : Type 0} → ℕ → List (Receipt Log) → ℕ → Type 0
IsRising from [] total = from ≡ total
IsRising from (r ∷ rs) total =
    (from ≤ r.cumulative_gas_used) × IsRising r.cumulative_gas_used rs total

IsRising-append :
    {Log : Type 0} (from : ℕ) (rs : List (Receipt Log)) (total : ℕ) (r : Receipt Log) (next : ℕ)
    → IsRising from rs total
    → r.cumulative_gas_used ≡ next
    → total ≤ next
    → IsRising from (rs ++ r ∷ []) next
IsRising-append from [] total r next h e b = (omega arith, e)
IsRising-append from (x ∷ rs) total r next h e b =
    (h.0, IsRising-append x.cumulative_gas_used rs total r next h.1 e b)

-- The loop's state within the limit: no subtraction wraps, and no total overflows.
pub record IsWithin {D Log : Type 0} (limit : ℕ) (s : Progress D Log) : Type 0 where
  pub below : s.cumulative_gas_used ≤ limit
  pub rising : IsRising 0 s.receipts s.cumulative_gas_used

checked_add-eq : (a b : ℕ) {c : ℕ} → checked_add a b ≡ some c → c ≡ a + b
checked_add-eq a b e = ground arith

to_u64-eq : (a : ℕ) {b : ℕ} → to_u64 a ≡ some b → b ≡ a
to_u64-eq a e = ground arith

-- Where the room left in the block covers what a transaction may use.
room :
    (limit used allowed gas : ℕ)
    → limit < u64_mod
    → used ≤ limit
    → ltb (wrapping_sub limit used) allowed ≡ false
    → gas ≤ allowed
    → used + gas ≤ limit
room limit used allowed gas small below test le = ground arith

module _ {D Log Changes : Type 0} (evm : Evm D Log Changes) (limit : ℕ)
    (small : limit < u64_mod) where
  IsStep : Progress D Log → Progress D Log → Type 0
  IsStep s s' = IsWithin limit s' × (length s'.receipts ≡ suc (length s.receipts))

  record_result-IsStep :
      (s : Progress D Log) (env : TxEnv) (tx : Transaction) (res : ExecutionResult Log Changes)
      (db : D) (total total_u64 allowed : ℕ)
      → IsWithin limit s
      → ltb (wrapping_sub limit s.cumulative_gas_used) allowed ≡ false
      → res.gas_used ≤ allowed
      → total ≡ s.cumulative_gas_used + res.gas_used
      → total_u64 ≡ total
      → IsStep s (record_result evm s env tx res db total total_u64)
  unfolding IsStep
  record_result-IsStep s env tx res db total total_u64 allowed h test le e₁ e₂ =
      let fits : s.cumulative_gas_used + res.gas_used ≤ limit =
        room limit s.cumulative_gas_used allowed res.gas_used small h.below test le in
      let within : total ≤ limit = omega arith in
      let grows : s.cumulative_gas_used ≤ total = omega arith in
      (
        record {
          below = within;
          rising = IsRising-append 0 s.receipts s.cumulative_gas_used _ total h.rising e₂ grows;
        },
        length-append s.receipts _ ∙ (omega arith),
      )

  -- The values on the way of a transaction that succeeds.
  execute_tx-IsStep :
      (block : BlockEnv) (s s' : Progress D Log) (tx : SignedTransaction)
      → IsWithin limit s
      → execute_tx evm limit block s tx ≡ ok s'
      → IsStep s s'
  unfolding execute_tx
  execute_tx-IsStep block s s' tx h e =
      let (from, e₁, k₁) = >>=-eq-ok (unwrap (evm.recover_signer tx)) _ e in
      let (u, e₂, k₂) = >>=-eq-ok (panic_if _) _ k₁ in
      let (env, e₃, k₃) =
        >>=-eq-ok (fill_eth_tx_env evm.to_u256 s.tx_env tx.transaction from) _ k₂ in
      let ((res, db), e₄, k₄) = >>=-eq-ok (unwrap (evm.transact block env s.db)) _ k₃ in
      let (total, e₅, k₅) =
        >>=-eq-ok (unwrap (checked_add s.cumulative_gas_used res.gas_used)) _ k₄ in
      let (total_u64, e₆, k₆) = >>=-eq-ok (unwrap (to_u64 total)) _ k₅ in
      let le = evm.gas_used-le block env s.db res db (unwrap-ok _ e₄) in
      subst (IsStep s) (ok_unique _ refl k₆) (
        record_result-IsStep s env tx.transaction res db total total_u64
          (tx_gas_limit tx.transaction) h (panic_if-ok _ e₂)
          (subst (λ g. res.gas_used ≤ g)
            (fill_eth_tx_env-gas evm.to_u256 s.tx_env tx.transaction from env e₃) le)
          (checked_add-eq s.cumulative_gas_used res.gas_used (unwrap-ok _ e₅))
          (to_u64-eq total (unwrap-ok _ e₆)))

  execute_txs-IsWithin :
      (block : BlockEnv) (txs : List SignedTransaction) (s s' : Progress D Log)
      → IsWithin limit s
      → execute_txs evm limit block txs s ≡ ok s'
      → IsWithin limit s' × (length s'.receipts ≡ length txs + length s.receipts)
  unfolding execute_txs IsStep
  execute_txs-IsWithin block [] s s' h e =
      subst (λ t. IsWithin limit t × (length t.receipts ≡ 0 + length s.receipts))
        (ok_unique _ refl e) (h, (omega arith))
  execute_txs-IsWithin block (tx ∷ txs) s s' h e =
      let (next, e₁, k₁) = >>=-eq-ok (execute_tx evm limit block s tx) _ e in
      let step = execute_tx-IsStep block s next tx h e₁ in
      let rest = execute_txs-IsWithin block txs next s' step.0 k₁ in
      (rest.0, rest.1 ∙ (omega arith))

-- A block that executes, under a gas limit of 64 bits, ends with a header whose receipts root is
-- the root of one receipt per transaction; the totals these receipts record never fall and end at
-- the header's gas used, which is at most the block's gas limit.
pub execute-gas :
    {D Log Changes : Type 0} (evm : Evm D Log Changes) (p q : EvmProcessor D)
    → p.input.gas_limit < u64_mod
    → execute evm p ≡ ok q
    → (h : Header) × (receipts : List (Receipt Log)) × (q.header ≡ some h)
      × (h.receipts_root ≡ evm.receipts_root receipts)
      × (length receipts ≡ length p.input.transactions)
      × IsRising 0 receipts h.gas_used
      × (h.gas_used ≤ p.input.gas_limit)
unfolding execute
execute-gas evm p q small e =
    let (h, e₁, k₁) = >>=-eq-ok (unwrap p.header) _ e in
    let (basefee, e₂, k₂) = >>=-eq-ok (unwrap h.base_fee_per_gas) _ k₁ in
    let (db, e₃, k₃) = >>=-eq-ok (unwrap p.db) _ k₂ in
    let (s, e₄, k₄) =
      >>=-eq-ok
        (execute_txs evm p.input.gas_limit (block_env evm p.input h basefee) p.input.transactions
          (start evm db))
        _ k₃ in
    let (db', e₅, k₅) = >>=-eq-ok (apply_withdrawals evm p.input.withdrawals s.db) _ k₄ in
    let (gas_used, e₆, k₆) = >>=-eq-ok (unwrap (to_u64 s.cumulative_gas_used)) _ k₅ in
    let same : s.cumulative_gas_used ≡ gas_used =
      sym (to_u64-eq s.cumulative_gas_used (unwrap-ok _ e₆)) in
    let within =
      execute_txs-IsWithin evm p.input.gas_limit small (block_env evm p.input h basefee)
        p.input.transactions (start evm db) s (record { below = omega arith; rising = refl }) e₄ in
    let final = ok_unique _ refl k₆ in
    (
      _,
      s.receipts,
      sym (ap (λ r. r.header) final),
      refl,
      within.1 ∙ (omega arith),
      subst (IsRising 0 s.receipts) same within.0.rising,
      subst (λ g. g ≤ p.input.gas_limit) same within.0.below,
    )
