-- ===== src/Host.antt =====
-- `SP1RethInput::initialize` of script/src/init.rs: the input of the guest, from an execution of the
-- block on the host's database.
pub mod Blocks
pub mod Contracts
pub mod Input
mod Tests
use sp1_reth.Prelude.{
  ℕ, ◌+◌, ◌-◌, ◌%◌, Bool, true, false, ◌||◌, List, [], ◌∷◌, Option, none, some, Outcome, ok, err,
  panic, ◌>>=◌, map, list_eq, if◌then◌else◌,
}
use sp1_reth.Nibbles.{Bytes}
use sp1_reth.Mpt.Node.{B256, default}
use sp1_reth.Mpt.Codec.{Codec}
use sp1_reth.Mpt.Decode.{RlpReader, Stop, Decoded}
use sp1_reth.Block.{Address, Header, Sp1RethInput, SignedTransaction, u64_mod}
use sp1_reth.Processor.{EvmProcessor, HeaderOps, Run}
use sp1_reth.Processor as Processor
use sp1_reth.Processor.Execute.{AccountInfo, Evm, execute}
use sp1_reth.Alloy.{AlloyTransaction, narrow, withdrawal_into_reth, transaction_into_reth}
use sp1_reth.Alloy.Headers.{header_into_reth}
use sp1_reth.Db.{DbAccount, InMemoryDb}
use sp1_reth.Tries.{proofs_to_tries}
use sp1_reth.Remote.{
  RpcBlock, Provider, CacheOps, RemoteDb, Fetched, new, fetch_initial_storage_proofs,
  fetch_latest_storage_proofs, fetch_ancestor_headers,
}

-- An error of the provider, of a thread that panicked, or of the tries.
pub data Halt : Type 0 where
  unanswered : Halt
  aborted : Halt
  stopped : Stop → Halt

abbrev pub Built : Type 0 → Type 0
Built A = Outcome Halt A

-- `?` on an answer, and `unwrap`.
abbrev pub ask : {A : Type 0} → Option A → Built A
ask none = err unanswered
ask (some a) = ok a

abbrev pub unwrap : {A : Type 0} → Option A → Built A
unwrap none = panic
unwrap (some a) = ok a

-- A conversion or a check has no error: it panics.
abbrev pub run : {A : Type 0} → Run A → Built A
run (ok a) = ok a
run (err e) = absurd e
run panic = panic

-- `spawn_blocking(…).await?`: a panic in the thread is an error outside. The results of the database
-- are unwrapped there.
abbrev pub join : {A : Type 0} → Run A → Built A
join (ok a) = ok a
join (err e) = absurd e
join panic = err aborted

abbrev pub join_fetched : {A : Type 0} → Fetched A → Built A
join_fetched (ok a) = ok a
join_fetched (err e) = err aborted
join_fetched panic = err aborted

-- `?` on the tries.
abbrev pub try : {A : Type 0} → Decoded A → Built A
try (ok a) = ok a
try (err e) = err (stopped e)
try panic = panic

-- `collect` of conversions, the first of which to panic ends it.
unfoldable pub into_reth_all : List AlloyTransaction → Run (List SignedTransaction)
unfolding transaction_into_reth
into_reth_all [] = ok []
into_reth_all (tx ∷ txs) = transaction_into_reth tx >>= λ t. into_reth_all txs >>= λ ts. ok (t ∷ ts)

-- The first input, without the state.
unfoldable pub block_input : RpcBlock → RpcBlock → Built Sp1RethInput
unfolding into_reth_all header_into_reth withdrawal_into_reth
block_input parent block = do
  txs ← unwrap block.transactions
  transactions ← run (into_reth_all txs)
  withdrawals ← unwrap block.withdrawals
  gas_limit ← run (narrow u64_mod block.header.gas_limit)
  timestamp ← run (narrow u64_mod block.header.timestamp)
  mix_hash ← unwrap block.header.mix_hash
  parent_header ← run (header_into_reth parent.header)
  ok (record {
    parent_header = parent_header;
    beneficiary = block.header.miner;
    gas_limit = gas_limit;
    timestamp = timestamp;
    extra_data = block.header.extra_data;
    mix_hash = mix_hash;
    parent_state_trie = default;
    parent_storage = [];
    contracts = [];
    ancestor_headers = [];
    transactions = transactions;
    withdrawals = map withdrawal_into_reth withdrawals;
  })

-- A set is the list of its elements.
abbrev pub has_code : Bytes → List Bytes → Bool
has_code code [] = false
has_code code (c ∷ codes) = list_eq c code || has_code code codes

abbrev pub add_code : Option Bytes → List Bytes → List Bytes
add_code none codes = codes
add_code (some code) codes = if has_code code codes then codes else code ∷ codes

-- The codes of the accounts.
unfoldable pub contracts_of : List (Address × DbAccount) → List Bytes
contracts_of [] = []
contracts_of ((address, account) ∷ accounts) = add_code account.info.code (contracts_of accounts)

module _ {Log Changes : Type 0} (provider : Provider) (ops : CacheOps Changes) (codec : Codec)
    (reader : RlpReader) (from_be_bytes : B256 → ℕ) (header_ops : HeaderOps)
    (evm : Evm RemoteDb Log Changes) (fuel : ℕ) where
  -- The execution of the block, on the database at the parent block.
  unfoldable pub execute_block : Sp1RethInput → RemoteDb → Built RemoteDb
  execute_block input provider_db = do
    ready ← run (
        Processor.initialize header_ops
          (record { input = input; db = some provider_db; header = none }))
    executed ← join (execute evm ready)
    unwrap executed.db

  -- What comes after the execution: the proofs, the ancestors and the contracts.
  unfoldable pub complete_input : Sp1RethInput → RemoteDb → Built Sp1RethInput
  unfolding fetch_initial_storage_proofs fetch_latest_storage_proofs fetch_ancestor_headers
      contracts_of proofs_to_tries
  complete_input input db = do
    parent_proofs ← join_fetched (fetch_initial_storage_proofs provider ops db)
    proofs ← join_fetched (fetch_latest_storage_proofs provider ops db)
    ancestor_headers ← join_fetched (fetch_ancestor_headers provider ops db)
    (state_trie, storage) ← try (
        proofs_to_tries codec reader from_be_bytes fuel input.parent_header.state_root parent_proofs
          proofs)
    ok (record input {
      parent_state_trie = state_trie;
      parent_storage = storage;
      contracts = contracts_of db.initial_db.accounts;
      ancestor_headers = ancestor_headers;
    })

  -- `block_number - 1` wraps in a release build.
  unfoldable pub initialize : ℕ → Built Sp1RethInput
  unfolding block_input execute_block complete_input new
  initialize block_number = do
    parent_found ← ask (provider.get_block_by_number ((block_number + u64_mod - 1) % u64_mod) false)
    parent ← unwrap parent_found
    block_found ← ask (provider.get_block_by_number block_number true)
    block ← unwrap block_found
    number ← unwrap parent.header.number
    input ← block_input parent block
    db ← execute_block input (new (number % u64_mod))
    complete_input input db
