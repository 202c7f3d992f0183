-- ===== src/Processor/Execute.antt =====
-- `execute` and `increase_account_balance` of primitives/src/processor.rs. The EVM, its database and
-- the roots of ordered tries are parameters.
pub mod Gas
pub mod Fresh
use sp1_reth.Prelude.{
  ℕ, ◌+◌, ◌-◌, ◌*◌, ◌%◌, ◌≤◌, ◌≡◌, Bool, true, false, not, List, [], ◌∷◌, ◌++◌, Option, none, some,
  Outcome, ok, err, panic, ◌>>=◌, ◌>>◌, ltb, if◌then◌else◌,
}
use sp1_reth.Nibbles.{Bytes}
use sp1_reth.Mpt.Node.{B256}
use sp1_reth.Block.{
  Address, Header, Sp1RethInput, SignedTransaction, Transaction, Withdrawal, u64_mod, u256_mod,
}
use sp1_reth.Processor.{EvmProcessor, Run, unwrap, panic_if}
use sp1_reth.Processor.TxEnv.{TxEnv, fill_eth_tx_env, tx_gas_limit}

pub record AccountInfo : Type 0 where
  pub balance : ℕ
  pub nonce : ℕ
  pub code_hash : B256
  pub code : Option Bytes

-- The EVM's configuration and block environment; the specification is always SHANGHAI.
pub record BlockEnv : Type 0 where
  pub chain_id : ℕ
  pub number : ℕ
  pub coinbase : Address
  pub timestamp : ℕ
  pub difficulty : ℕ
  pub prevrandao : Option B256
  pub basefee : ℕ
  pub gas_limit : ℕ

pub record Receipt (Log : Type 0) : Type 0 where
  pub tx_type : ℕ
  pub success : Bool
  pub cumulative_gas_used : ℕ
  pub logs : List Log

pub record ExecutionResult (Log Changes : Type 0) : Type 0 where
  pub gas_used : ℕ
  pub is_success : Bool
  pub logs : List Log
  pub state : Changes

-- What the program takes from `revm` and `reth_primitives`.
pub record Evm (D Log Changes : Type 0) : Type 0 where
  pub recover_signer : SignedTransaction → Option Address
  pub tx_type : Transaction → ℕ
  pub empty_tx_env : TxEnv
  -- `U256::from` on 32 bytes.
  pub to_u256 : B256 → ℕ
  -- `transact` may load state into the database; `none` is an error.
  pub transact : BlockEnv → TxEnv → D → Option (ExecutionResult Log Changes × D)
  pub commit : Changes → D → D
  -- `Database::basic`; the inner `none` is a missing account.
  pub basic : Address → D → Option (Option AccountInfo × D)
  pub default_info : AccountInfo
  -- The account with this information, marked as touched.
  pub touched : Address → AccountInfo → Changes
  pub default_bloom : Bytes
  pub accrue_bloom : Bytes → Receipt Log → Bytes
  pub transactions_root : List SignedTransaction → B256
  pub receipts_root : List (Receipt Log) → B256
  pub withdrawals_root : List Withdrawal → B256
  -- A transaction uses no more gas than it is allowed.
  pub gas_used-le :
      (env : BlockEnv) (tx : TxEnv) (db : D) (res : ExecutionResult Log Changes) (db' : D)
      → transact env tx db ≡ some (res, db')
      → res.gas_used ≤ tx.gas_limit

-- `U256::checked_add` and `checked_mul`, and the wrapping `-` of `U256`.
abbrev pub checked_add : ℕ → ℕ → Option ℕ
checked_add a b = if ltb (a + b) u256_mod then some (a + b) else none

abbrev pub checked_mul : ℕ → ℕ → Option ℕ
checked_mul a b = if ltb (a * b) u256_mod then some (a * b) else none

abbrev pub wrapping_sub : ℕ → ℕ → ℕ
wrapping_sub a b = (a + u256_mod - b) % u256_mod

-- `try_into` from `U256` to `u64`.
abbrev pub to_u64 : ℕ → Option ℕ
to_u64 a = if ltb a u64_mod then some a else none

abbrev pub gwei_to_wei : ℕ
gwei_to_wei = 1_000_000_000

-- The variables of the loop over the transactions.
pub record Progress (D Log : Type 0) : Type 0 where
  pub db : D
  pub tx_env : TxEnv
  pub logs_bloom : Bytes
  pub cumulative_gas_used : ℕ
  pub receipts : List (Receipt Log)

module _ {D Log Changes : Type 0} (evm : Evm D Log Changes) where
  -- The receipt, the bloom and the commit after a transaction was executed.
  abbrev pub record_result :
      Progress D Log
      → TxEnv
      → Transaction
      → ExecutionResult Log Changes
      → D
      → ℕ
      → ℕ
      → Progress D Log
  record_result s env tx res db total total_u64 =
      let receipt : Receipt Log = record {
        tx_type = evm.tx_type tx;
        success = res.is_success;
        cumulative_gas_used = total_u64;
        logs = res.logs;
      } in
      record {
        db = evm.commit res.state db;
        tx_env = env;
        logs_bloom = evm.accrue_bloom s.logs_bloom receipt;
        cumulative_gas_used = total;
        receipts = s.receipts ++ receipt ∷ [];
      }

  unfoldable pub execute_tx :
      ℕ → BlockEnv → Progress D Log → SignedTransaction → Run (Progress D Log)
  unfolding fill_eth_tx_env
  execute_tx gas_limit block s tx = do
    tx_from ← unwrap (evm.recover_signer tx)
    panic_if (ltb (wrapping_sub gas_limit s.cumulative_gas_used) (tx_gas_limit tx.transaction))
    env ← fill_eth_tx_env evm.to_u256 s.tx_env tx.transaction tx_from
    (res, db) ← unwrap (evm.transact block env s.db)
    total ← unwrap (checked_add s.cumulative_gas_used res.gas_used)
    total_u64 ← unwrap (to_u64 total)
    ok (record_result s env tx.transaction res db total total_u64)

  unfoldable pub execute_txs :
      ℕ → BlockEnv → List SignedTransaction → Progress D Log → Run (Progress D Log)
  unfolding execute_tx
  execute_txs gas_limit block [] s = ok s
  execute_txs gas_limit block (tx ∷ txs) s =
      execute_tx gas_limit block s tx >>= λ s'. execute_txs gas_limit block txs s'

  -- An error of the database is the `Err` of the function; an overflow panics.
  unfoldable pub increase_account_balance : D → Address → ℕ → Outcome (Unit {0}) D
  increase_account_balance db address amount_wei = elim (evm.basic address db) [
    | none ↦ err tt
    | some (found, db') ↦
        let info : AccountInfo = elim found [ none ↦ evm.default_info | some i ↦ i ] in
        elim (checked_add info.balance amount_wei) [
          | none ↦ panic
          | some balance ↦
              ok (evm.commit (evm.touched address (record info { balance = balance })) db')
        ]
  ]

  -- `unwrap` of its result.
  abbrev pub unwrap_db : Outcome (Unit {0}) D → Run D
  unwrap_db (ok db) = ok db
  unwrap_db (err e) = panic
  unwrap_db panic = panic

  unfoldable pub apply_withdrawals : List Withdrawal → D → Run D
  unfolding increase_account_balance
  apply_withdrawals [] db = ok db
  apply_withdrawals (w ∷ ws) db = do
    amount_wei ← unwrap (checked_mul gwei_to_wei w.amount)
    db' ← unwrap_db (increase_account_balance db w.address amount_wei)
    apply_withdrawals ws db'

  abbrev pub block_env : Sp1RethInput → Header → ℕ → BlockEnv
  block_env input h basefee = record {
    chain_id = 1;
    number = h.number;
    coinbase = input.beneficiary;
    timestamp = h.timestamp;
    difficulty = 0;
    prevrandao = some h.mix_hash;
    basefee = basefee;
    gas_limit = h.gas_limit;
  }

  abbrev pub start : D → Progress D Log
  start db = record {
    db = db;
    tx_env = evm.empty_tx_env;
    logs_bloom = evm.default_bloom;
    cumulative_gas_used = 0;
    receipts = [];
  }

  -- The header after the block, and the processor with the transactions taken out of its input.
  abbrev pub finish : EvmProcessor D → Header → Progress D Log → ℕ → D → EvmProcessor D
  finish p h s gas_used db = record {
    input = record (p.input) { transactions = [] };
    db = some db;
    header = some (record h {
      transactions_root = evm.transactions_root p.input.transactions;
      receipts_root = evm.receipts_root s.receipts;
      withdrawals_root = some (evm.withdrawals_root p.input.withdrawals);
      logs_bloom = s.logs_bloom;
      gas_used = gas_used;
    });
  }

  unfoldable pub execute : EvmProcessor D → Run (EvmProcessor D)
  unfolding execute_txs apply_withdrawals
  execute p = do
    h ← unwrap p.header
    basefee ← unwrap h.base_fee_per_gas
    db ← unwrap p.db
    s ← execute_txs p.input.gas_limit (block_env p.input h basefee) p.input.transactions (start db)
    db' ← apply_withdrawals p.input.withdrawals s.db
    gas_used ← unwrap (to_u64 s.cumulative_gas_used)
    ok (finish p h s gas_used db')
