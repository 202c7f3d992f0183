-- ===== src/Processor/Tests.antt =====
-- Runs of the processor's methods (primitives/src/processor.rs) on a small block, with stand-ins for
-- the EVM and the headers, and uses of the theorems there.
use sp1_reth.Prelude.{
  ℕ, ◌+◌, ◌≤◌, ◌<◌, ◌≡◌, ◌↔◌, ◌⊎◌, refl, true, false, List, [], ◌∷◌, none, some, ok, arith, length,
  subst,
}
use sp1_reth.Mpt.Node.{default}
use sp1_reth.Block.{Header, Sp1RethInput, SignedTransaction, legacy, create, Withdrawal, u64_mod}
use sp1_reth.Processor.{EvmProcessor, HeaderOps, validate_gas_limit, initialize}
use sp1_reth.Processor.Checks.{validate_gas_limit_iff, initialize_iff}
use sp1_reth.Processor.TxEnv.{TxEnv, to_create}
use sp1_reth.Processor.Execute.{
  Receipt, ExecutionResult, Evm, execute, execute_txs, start, block_env,
}
use sp1_reth.Processor.Execute.Fresh.{fresh_txs, execute_txs-fresh_txs}
use sp1_reth.Processor.Execute.Gas.{IsRising, execute-gas}

abbrev pub empty_header : Header
empty_header = record {
  parent_hash = [];
  ommers_hash = [];
  beneficiary = [];
  state_root = [];
  transactions_root = [];
  receipts_root = [];
  withdrawals_root = none;
  logs_bloom = [];
  difficulty = 0;
  number = 0;
  gas_limit = 0;
  gas_used = 0;
  timestamp = 0;
  mix_hash = [];
  extra_data = [];
  nonce = 0;
  base_fee_per_gas = none;
  blob_gas_used = none;
  excess_blob_gas = none;
  parent_beacon_block_root = none;
}

abbrev pub parent : Header
parent = record empty_header { number = 41; gas_limit = 1_024_000; timestamp = 100 }

abbrev tx : SignedTransaction
tx = record {
  signature = record { r = 1; s = 1; odd_y_parity = false };
  transaction =
      legacy (record { nonce = 0; gas_limit = 21_000; to = create; value = 5; input = [] }) (some 1)
        9;
}

abbrev withdrawal : Withdrawal
withdrawal = record { index = 0; validator_index = 0; address = 1 ∷ []; amount = 3 }

abbrev pub input : Sp1RethInput
input = record {
  parent_header = parent;
  beneficiary = 7 ∷ [];
  gas_limit = 1_024_500;
  timestamp = 112;
  extra_data = 0 ∷ [];
  mix_hash = [];
  parent_state_trie = default;
  parent_storage = [];
  contracts = [];
  ancestor_headers = [];
  transactions = tx ∷ tx ∷ [];
  withdrawals = withdrawal ∷ [];
}

abbrev processor : EvmProcessor ℕ
processor = record { input = input; db = some 0; header = none }

abbrev pub ops : HeaderOps
ops = record {
  hash_slow = λ h. h.number ∷ [];
  next_block_base_fee = λ h. some 10;
  default_header = empty_header;
}

abbrev pub header : Header
header = record empty_header {
  parent_hash = 41 ∷ [];
  number = 42;
  base_fee_per_gas = some 10;
  beneficiary = 7 ∷ [];
  gas_limit = 1_024_500;
  timestamp = 112;
  extra_data = 0 ∷ [];
}

abbrev ready : EvmProcessor ℕ
ready = record processor { header = some header }

initialize_run : initialize ops processor ≡ ok ready
unfolding initialize
initialize_run = refl

initialize_iff_example : (initialize ops processor ≡ ok ready) ↔ (
    (ready ≡ record processor {
      header = some (record empty_header {
        parent_hash = 41 ∷ [];
        number = 42;
        base_fee_per_gas = some 10;
        beneficiary = 7 ∷ [];
        gas_limit = 1_024_500;
        timestamp = 112;
        extra_data = 0 ∷ [];
      });
    })
    × (42 < u64_mod)
    × (100 ≤ 112)
    × (1 ≤ 32))
initialize_iff_example = initialize_iff ops processor ready

validate_gas_limit_iff_example : (validate_gas_limit ready ≡ ok tt) ↔ (
    ((1_024_000 < 1_024_500) × (500 < 1000))
    ⊎ ((1_024_500 ≤ 1_024_000) × (0 < 1000) × (5000 ≤ 1_024_000)))
validate_gas_limit_iff_example = validate_gas_limit_iff ready header refl

abbrev pub empty_env : TxEnv
empty_env = record {
  caller = [];
  gas_limit = 0;
  gas_price = 0;
  gas_priority_fee = none;
  transact_to = to_create;
  value = 0;
  input = [];
  chain_id = none;
  nonce = none;
  access_list = [];
  blob_hashes = [];
  max_fee_per_blob_gas = none;
}

-- An EVM in which a transaction uses all the gas it may, and the database counts the commits.
abbrev pub result : TxEnv → ExecutionResult (Unit {0}) ℕ
result env = record { gas_used = env.gas_limit; is_success = true; logs = []; state = 1 }

abbrev evm : Evm ℕ (Unit {0}) ℕ
evm = record {
  recover_signer = λ t. some (2 ∷ []);
  tx_type = λ t. 0;
  empty_tx_env = empty_env;
  to_u256 = λ key. 0;
  transact = λ block env db. some (result env, db);
  commit = λ changes db. changes + db;
  basic = λ a db. some (none, db);
  default_info = record { balance = 0; nonce = 0; code_hash = []; code = none };
  touched = λ a info. 1;
  default_bloom = [];
  accrue_bloom = λ bloom receipt. receipt.cumulative_gas_used ∷ bloom;
  transactions_root = λ ts. length ts ∷ [];
  receipts_root = λ rs. length rs ∷ [];
  withdrawals_root = λ ws. length ws ∷ [];
  gas_used-le = λ block env db res db' e.
      let same : result env ≡ res = cc in
      subst (λ r. r.gas_used ≤ env.gas_limit) same (omega arith);
}

execute_txs-fresh_txs_example :
    execute_txs evm 50_000 (block_env evm input header 10) (tx ∷ tx ∷ []) (start evm 0)
    ≡ fresh_txs evm 50_000 (block_env evm input header 10) (tx ∷ tx ∷ []) (start evm 0)
execute_txs-fresh_txs_example =
    execute_txs-fresh_txs evm 50_000 (block_env evm input header 10) (tx ∷ tx ∷ []) 0

abbrev receipt : ℕ → Receipt (Unit {0})
receipt total = record { tx_type = 0; success = true; cumulative_gas_used = total; logs = [] }

abbrev receipts : List (Receipt (Unit {0}))
receipts = receipt 21_000 ∷ receipt 42_000 ∷ []

abbrev final_header : Header
final_header = record header {
  transactions_root = 2 ∷ [];
  receipts_root = 2 ∷ [];
  withdrawals_root = some (1 ∷ []);
  logs_bloom = 42_000 ∷ 21_000 ∷ [];
  gas_used = 42_000;
}

abbrev finished : EvmProcessor ℕ
finished = record {
  input = record input { transactions = [] };
  db = some 3;
  header = some final_header;
}

execute_run : execute evm ready ≡ ok finished
unfolding execute
execute_run = refl

execute-gas_example :
    (h : Header) × (receipts : List (Receipt (Unit {0}))) × (some final_header ≡ some h)
    × (h.receipts_root ≡ length receipts ∷ [])
    × (length receipts ≡ 2)
    × IsRising 0 receipts h.gas_used
    × (h.gas_used ≤ 1_024_500)
execute-gas_example = execute-gas evm ready finished (omega arith) execute_run
