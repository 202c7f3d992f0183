-- ===== src/Guest/Tests.antt =====
-- A run of the guest (program/src/main.rs) on a small block, and a use of the theorem on it.
use sp1_reth.Processor.Finalize.{finalize}
use sp1_reth.Processor.{initialize}
use sp1_reth.Prelude.{◌≡◌, ◌≤◌, true, refl, subst, [], ◌∷◌, some, none, ok, arith, length}
use sp1_reth.Mpt.Reference.{empty_root}
use sp1_reth.Block.{Header}
use sp1_reth.Db.{InMemoryDb}
use sp1_reth.Db
use sp1_reth.Db.Tests as DbTests
use sp1_reth.Processor.Tests as ProcessorTests
use sp1_reth.Processor.Finalize.Tests as FinalizeTests
use sp1_reth.Processor.TxEnv.{TxEnv}
use sp1_reth.Processor.Execute.{ExecutionResult, Evm, execute}
use sp1_reth.Guest.{main}
use sp1_reth.Guest.Chain.{IsSuccessor, main-IsSuccessor}

-- A transaction uses all the gas it may, and changes nothing.
abbrev result : TxEnv → ExecutionResult (Unit {0}) (Unit {0})
result env = record { gas_used = env.gas_limit; is_success = true; logs = []; state = tt }

abbrev evm : Evm InMemoryDb (Unit {0}) (Unit {0})
evm = record {
  recover_signer = λ t. some (2 ∷ []);
  tx_type = λ t. 0;
  empty_tx_env = ProcessorTests.empty_env;
  to_u256 = λ key. 0;
  transact = λ block env db. some (result env, db);
  commit = λ changes db. db;
  basic = λ a db. some (none, db);
  default_info = record { balance = 0; nonce = 0; code_hash = []; code = none };
  touched = λ a info. tt;
  default_bloom = [];
  accrue_bloom = λ bloom receipt. bloom;
  transactions_root = λ ts. length ts ∷ [];
  receipts_root = λ rs. length rs ∷ [];
  withdrawals_root = λ ws. length ws ∷ [];
  gas_used-le = λ block env db res db' e.
      let same : result env ≡ res = cc in
      subst (λ r. r.gas_used ≤ env.gas_limit) same (omega arith);
}

abbrev final : Header
final = record (ProcessorTests.header) {
  state_root = empty_root;
  transactions_root = 2 ∷ [];
  receipts_root = 2 ∷ [];
  withdrawals_root = some (1 ∷ []);
  gas_used = 42_000;
}

main_run : main DbTests.ops ProcessorTests.ops evm FinalizeTests.ops ProcessorTests.input ≡ ok final
unfolding main initialize sp1_reth.Db.initialize execute finalize
main_run = refl

main-IsSuccessor_example : IsSuccessor ProcessorTests.ops ProcessorTests.input final
main-IsSuccessor_example =
    main-IsSuccessor DbTests.ops ProcessorTests.ops evm FinalizeTests.ops ProcessorTests.input final
      (omega arith) main_run
