-- ===== src/Host/Tests.antt =====
-- A run of `SP1RethInput::initialize` (script/src/init.rs) on a block with one withdrawal, and uses of
-- the theorems on it.
use sp1_reth.Mpt.Get.{get, get_internal}
use sp1_reth.Processor.{initialize as prepare}
use sp1_reth.Prelude.{
  ℕ, ◌+◌, ◌-◌, ◌%◌, ◌≡◌, refl, true, false, [], ◌∷◌, Option, none, some, ok, err, panic,
}
use sp1_reth.Nibbles.{prefix_nibs}
use sp1_reth.Mpt.Node.{B256}
use sp1_reth.Mpt.Reference.{hashed, encode}
use sp1_reth.Mpt.Proof.{node_from_digest, shorten_node_path}
use sp1_reth.Mpt.Tests.Rlp.{codec, reader, digest_for}
use sp1_reth.Block.{Sp1RethInput, u64_mod}
use sp1_reth.Processor.Execute.{AccountInfo, Evm, execute}
use sp1_reth.Processor.Tests as ProcessorTests
use sp1_reth.Alloy.{AlloyWithdrawal}
use sp1_reth.Alloy.Headers.{AlloyHeader}
use sp1_reth.Db.{bytes_keys, unchanged, InMemoryDb}
use sp1_reth.Tries.{AccountProof}
use sp1_reth.Tries.Tests.{account, long}
use sp1_reth.Remote.{RpcBlock, Provider, RemoteDb, Fetched, basic}
use sp1_reth.Remote.Tests.Served.{ops, raw_header, chain}
use sp1_reth.Host.{initialize}
use sp1_reth.Host.Blocks.{IsOfBlocks}
use sp1_reth.Host.Input.{IsExecuted, HasState, initialize-HasState}

abbrev header : ℕ → AlloyHeader
header n = record (raw_header n) { state_root = digest_for 44 }

abbrev withdrawal : AlloyWithdrawal
withdrawal = record { index = 0; validator_index = 0; address = 5 ∷ []; amount = 3 }

abbrev block : ℕ → RpcBlock
block n = record {
  header = header n;
  header_hash = some (n ∷ []);
  transactions = some [];
  withdrawals = some (withdrawal ∷ []);
}

abbrev served : AccountProof
served = record account { storage_proof = [] }

abbrev provider : Provider
provider = record {
  get_transaction_count = λ a n. some 1;
  get_balance = λ a n. some 5;
  get_code_at = λ a n. some (9 ∷ []);
  get_storage_at = λ a i n. some 0;
  get_proof = λ a keys n. some served;
  get_block = λ n. some (some (block n));
  get_block_by_number = λ n full. some (some (block n));
}

abbrev answer : Fetched (Option AccountInfo × RemoteDb) → Option (Option AccountInfo × RemoteDb)
answer (ok r) = some r
answer (err e) = none
answer panic = none

-- An EVM without transactions, on the host's database.
abbrev evm : Evm RemoteDb (Unit {0}) InMemoryDb
evm = record {
  recover_signer = λ t. none;
  tx_type = λ t. 0;
  empty_tx_env = ProcessorTests.empty_env;
  to_u256 = λ key. 0;
  transact = λ block env db. none;
  commit = λ changes db. record db { current_db = changes };
  basic = λ a db. answer (basic provider ops db a);
  default_info = record { balance = 0; nonce = 0; code_hash = []; code = none };
  touched = λ a info. record {
    accounts = (a, record { info = info; account_state = unchanged; storage = [] }) ∷ [];
    block_hashes = [];
  };
  default_bloom = [];
  accrue_bloom = λ bloom receipt. [];
  transactions_root = λ ts. [];
  receipts_root = λ rs. [];
  withdrawals_root = λ ws. [];
  gas_used-le = λ block env db res db' e. cc;
}

abbrev input : Sp1RethInput
input = record {
  parent_header = record (chain 5) { state_root = digest_for 44 };
  beneficiary = [];
  gas_limit = 0;
  timestamp = 0;
  extra_data = [];
  mix_hash = [];
  parent_state_trie = hashed codec long;
  parent_storage = (5 ∷ [], (node_from_digest (served.storage_hash), [])) ∷ [];
  contracts = (9 ∷ []) ∷ [];
  ancestor_headers = [];
  transactions = [];
  withdrawals = record { index = 0; validator_index = 0; address = 5 ∷ []; amount = 3 } ∷ [];
}

abbrev as_number : B256 → ℕ
as_number bs = 6

initialize_run :
    initialize provider ops codec reader as_number ProcessorTests.ops evm 1 6 ≡ ok input
unfolding initialize prepare execute basic bytes_keys encode get get_internal prefix_nibs
    shorten_node_path
initialize_run = refl

initialize-HasState_example :
    (parent block' : RpcBlock) × (db : RemoteDb) × (provider.get_block_by_number
        ((6 + u64_mod - 1) % u64_mod)
        false
      ≡ some (some parent))
    × (provider.get_block_by_number 6 true ≡ some (some block'))
    × IsOfBlocks parent block' input
    × IsExecuted provider ops codec reader as_number ProcessorTests.ops evm 1 parent block' db
    × HasState provider ops codec reader as_number ProcessorTests.ops evm 1 db input
initialize-HasState_example =
    initialize-HasState provider ops codec reader as_number ProcessorTests.ops evm 1 6 input
      initialize_run
