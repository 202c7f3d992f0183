-- ===== src/Host/Blocks.antt =====
-- What the input of `SP1RethInput::initialize` (script/src/init.rs) has of the blocks.
use sp1_reth.Prelude.{
  ℕ, ◌≡◌, refl, ap, subst, List, Option, none, some, ok, err, panic, arith, >>=-eq-ok, ok_unique,
  map,
}
use sp1_reth.Mpt.Decode.{Decoded}
use sp1_reth.Block.{Sp1RethInput, u64_mod}
use sp1_reth.Processor.{Run}
use sp1_reth.Alloy.{AlloyTransaction, AlloyWithdrawal, narrow, withdrawal_into_reth}
use sp1_reth.Alloy.Headers.{header_into_reth}
use sp1_reth.Db.{bytes_keys}
use sp1_reth.Remote.{RpcBlock, Fetched}
use sp1_reth.Host.{ask, unwrap, join, join_fetched, run, try, into_reth_all, block_input}

pub ask-ok : {A : Type 0} (o : Option A) (a : A) → ask o ≡ ok a → o ≡ some a
ask-ok none a e = cc
ask-ok (some b) a e = cc

pub unwrap-ok : {A : Type 0} (o : Option A) (a : A) → unwrap o ≡ ok a → o ≡ some a
unwrap-ok none a e = cc
unwrap-ok (some b) a e = cc

pub join_fetched-ok : {A : Type 0} (m : Fetched A) (a : A) → join_fetched m ≡ ok a → m ≡ ok a
join_fetched-ok (ok b) a e = ap ok (ok_unique _ refl e)
join_fetched-ok (err x) a e = cc
join_fetched-ok panic a e = cc

pub run-ok : {A : Type 0} (m : Run A) (a : A) → run m ≡ ok a → m ≡ ok a
run-ok (ok b) a e = ap ok (ok_unique _ refl e)
run-ok (err x) a e = absurd x
run-ok panic a e = cc

pub join-ok : {A : Type 0} (m : Run A) (a : A) → join m ≡ ok a → m ≡ ok a
join-ok (ok b) a e = ap ok (ok_unique _ refl e)
join-ok (err x) a e = absurd x
join-ok panic a e = cc

pub try-ok : {A : Type 0} (m : Decoded A) (a : A) → try m ≡ ok a → m ≡ ok a
try-ok (ok b) a e = ap ok (ok_unique _ refl e)
try-ok (err x) a e = cc
try-ok panic a e = cc

-- The fields that come from the two blocks.
pub record IsOfBlocks (parent block : RpcBlock) (input : Sp1RethInput) : Type 0 where
  pub parent_header_lem : header_into_reth parent.header ≡ ok input.parent_header
  pub transactions_lem :
      (txs : List AlloyTransaction) × (block.transactions ≡ some txs)
      × (into_reth_all txs ≡ ok input.transactions)
  pub withdrawals_lem :
      (ws : List AlloyWithdrawal) × (block.withdrawals ≡ some ws)
      × (input.withdrawals ≡ map withdrawal_into_reth ws)
  pub extra_data_lem : input.extra_data ≡ block.header.extra_data
  pub mix_hash_lem : block.header.mix_hash ≡ some input.mix_hash
  pub beneficiary_lem : input.beneficiary ≡ block.header.miner
  pub gas_limit_lem : input.gas_limit ≡ block.header.gas_limit
  pub timestamp_lem : input.timestamp ≡ block.header.timestamp

narrow-eq : (w n m : ℕ) → narrow w n ≡ ok m → m ≡ n
narrow-eq w n m e = ground arith

pub block_input-IsOfBlocks :
    (parent block : RpcBlock) (input : Sp1RethInput)
    → block_input parent block ≡ ok input
    → IsOfBlocks parent block input
unfolding block_input
block_input-IsOfBlocks parent block input e =
    let (txs, e₁, k₁) = >>=-eq-ok (unwrap block.transactions) _ e in
    let (transactions, e₂, k₂) = >>=-eq-ok (run (into_reth_all txs)) _ k₁ in
    let (withdrawals, e₃, k₃) = >>=-eq-ok (unwrap block.withdrawals) _ k₂ in
    let (gas_limit, e₄, k₄) = >>=-eq-ok (run (narrow u64_mod block.header.gas_limit)) _ k₃ in
    let (timestamp, e₅, k₅) = >>=-eq-ok (run (narrow u64_mod block.header.timestamp)) _ k₄ in
    let (mix_hash, e₆, k₆) = >>=-eq-ok (unwrap block.header.mix_hash) _ k₅ in
    let (parent_header, e₇, k₇) = >>=-eq-ok (run (header_into_reth parent.header)) _ k₆ in
    subst (IsOfBlocks parent block) (ok_unique _ refl k₇) (record {
      parent_header_lem = run-ok _ parent_header e₇;
      transactions_lem = (txs, unwrap-ok block.transactions txs e₁, run-ok _ transactions e₂);
      withdrawals_lem = (withdrawals, unwrap-ok block.withdrawals withdrawals e₃, refl);
      extra_data_lem = refl;
      mix_hash_lem = unwrap-ok block.header.mix_hash mix_hash e₆;
      beneficiary_lem = refl;
      gas_limit_lem = narrow-eq u64_mod block.header.gas_limit gas_limit (run-ok _ gas_limit e₄);
      timestamp_lem = narrow-eq u64_mod block.header.timestamp timestamp (run-ok _ timestamp e₅);
    })
