-- ===== src/Remote/Tests/Served.antt =====
-- A small provider and a cache for runs of the host's database (script/src/db.rs).
use sp1_reth.Prelude.{
  ℕ, zero, suc, ◌+◌, Bool, true, false, [], ◌∷◌, Option, none, some, if◌then◌else◌, lookup, put,
}
use sp1_reth.Mpt.Node.{B256}
use sp1_reth.Mpt.Proof.{zeros}
use sp1_reth.Block.{Address, Header}
use sp1_reth.Processor.Execute.{AccountInfo}
use sp1_reth.Processor.Tests.{empty_header}
use sp1_reth.Alloy.Headers.{AlloyHeader}
use sp1_reth.Db.{nat_keys, bytes_keys, AccountState, not_existing, unchanged, DbAccount, InMemoryDb}
use sp1_reth.Tries.{AccountProof}
use sp1_reth.Remote.{RpcBlock, Provider, CacheOps}

abbrev pub parent_hash : ℕ → B256
parent_hash zero = []
parent_hash (suc n) = n ∷ []

-- The chain, and what the provider says of it.
abbrev pub chain : ℕ → Header
chain n = record empty_header {
  number = n;
  parent_hash = parent_hash n;
  base_fee_per_gas = some 7;
  blob_gas_used = some 0;
  excess_blob_gas = some 0;
}

abbrev pub raw_header : ℕ → AlloyHeader
raw_header n = record {
  parent_hash = parent_hash n;
  uncles_hash = [];
  miner = [];
  state_root = [];
  transactions_root = [];
  receipts_root = [];
  withdrawals_root = none;
  logs_bloom = [];
  difficulty = 0;
  number = some n;
  gas_limit = 0;
  gas_used = 0;
  timestamp = 0;
  extra_data = [];
  mix_hash = some [];
  nonce = some (0 ∷ []);
  base_fee_per_gas = some 7;
  blob_gas_used = some 0;
  excess_blob_gas = some 0;
  parent_beacon_block_root = none;
}

abbrev pub raw_block : ℕ → RpcBlock
raw_block n = record {
  header = raw_header n;
  header_hash = some (n ∷ []);
  transactions = none;
  withdrawals = none;
}

abbrev pub served : AccountProof
served = record { account_proof = []; storage_hash = []; storage_proof = [] }

abbrev pub provider : Provider
provider = record {
  get_transaction_count = λ a n. some 1;
  get_balance = λ a n. some 5;
  get_code_at = λ a n. some [];
  get_storage_at = λ a i n. some (i + n);
  get_proof = λ a keys n. some served;
  get_block = λ n. some (some (raw_block n));
  get_block_by_number = λ n full. some (some (raw_block n));
}

abbrev pub exists : AccountState → Bool
exists not_existing = false
exists _ = true

-- An account with this information, and with this slot.
abbrev pub with_info : AccountInfo → Option DbAccount → DbAccount
with_info info none = record { info = info; account_state = unchanged; storage = [] }
with_info info (some account) = record account { info = info }

-- The account, where it exists.
abbrev pub info_of : DbAccount → Option AccountInfo
info_of account = if exists account.account_state then some account.info else none

abbrev pub no_info : AccountInfo
no_info = record { balance = 0; nonce = 0; code_hash = []; code = none }

abbrev pub with_slot : ℕ → ℕ → Option DbAccount → DbAccount
with_slot i v none = record { info = no_info; account_state = not_existing; storage = put i v [] }
with_slot i v (some account) = record account { storage = put i v account.storage }

abbrev pub change : Address → (Option DbAccount → DbAccount) → InMemoryDb → InMemoryDb
change a f db = record db { accounts = put a (f (lookup a db.accounts)) db.accounts }

abbrev pub ops : CacheOps InMemoryDb
ops = record {
  info_of = info_of;
  account_info = λ balance nonce code. record {
    balance = balance;
    nonce = nonce;
    code_hash = [];
    code = some code;
  };
  insert_account_info = λ a info. change a (with_info info);
  insert_account_storage = λ a i v db. some (change a (with_slot i v) db);
  basic = λ a db. some db;
  block_hash = λ n db. none;
  commit = λ changes db. changes;
  to_be_bytes = λ n. zeros 32;
}
