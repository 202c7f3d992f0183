-- ===== src/Alloy/Headers.antt =====
-- The conversion of headers in primitives/src/alloy2reth.rs.
use sp1_reth.Prelude.{ℕ, ◌+◌, ◌*◌, [], ◌∷◌, Option, none, some, ok, ◌>>=◌}
use sp1_reth.Nibbles.{Bytes}
use sp1_reth.Mpt.Node.{B256}
use sp1_reth.Block.{Address, Header, u64_mod}
use sp1_reth.Processor.{Run, unwrap}
use sp1_reth.Alloy.{narrow}

-- The header of `alloy_rpc_types`.
pub record AlloyHeader : Type 0 where
  pub parent_hash : B256
  pub uncles_hash : B256
  pub miner : Address
  pub state_root : B256
  pub transactions_root : B256
  pub receipts_root : B256
  pub withdrawals_root : Option B256
  pub logs_bloom : Bytes
  pub difficulty : ℕ
  pub number : Option ℕ
  pub gas_limit : ℕ
  pub gas_used : ℕ
  pub timestamp : ℕ
  pub extra_data : Bytes
  pub mix_hash : Option B256
  pub nonce : Option Bytes
  pub base_fee_per_gas : Option ℕ
  pub blob_gas_used : Option ℕ
  pub excess_blob_gas : Option ℕ
  pub parent_beacon_block_root : Option B256

-- `u64::from_be_bytes` of eight bytes.
abbrev pub from_be_bytes : ℕ → Bytes → ℕ
from_be_bytes acc [] = acc
from_be_bytes acc (b ∷ bs) = from_be_bytes (acc * 256 + b) bs

abbrev pub narrow_option : Option ℕ → Run (Option ℕ)
narrow_option none = ok none
narrow_option (some n) = narrow u64_mod n >>= λ m. ok (some m)

unfoldable pub header_into_reth : AlloyHeader → Run Header
header_into_reth h = do
  n ← unwrap h.number
  number ← narrow u64_mod n
  gas_limit ← narrow u64_mod h.gas_limit
  gas_used ← narrow u64_mod h.gas_used
  timestamp ← narrow u64_mod h.timestamp
  mix_hash ← unwrap h.mix_hash
  nonce ← unwrap h.nonce
  fee ← unwrap h.base_fee_per_gas
  base_fee ← narrow u64_mod fee
  blob_gas_used ← narrow_option h.blob_gas_used
  excess_blob_gas ← narrow_option h.excess_blob_gas
  ok (record {
    parent_hash = h.parent_hash;
    ommers_hash = h.uncles_hash;
    beneficiary = h.miner;
    state_root = h.state_root;
    transactions_root = h.transactions_root;
    receipts_root = h.receipts_root;
    withdrawals_root = h.withdrawals_root;
    logs_bloom = h.logs_bloom;
    difficulty = h.difficulty;
    number = number;
    gas_limit = gas_limit;
    gas_used = gas_used;
    timestamp = timestamp;
    mix_hash = mix_hash;
    extra_data = h.extra_data;
    nonce = from_be_bytes 0 nonce;
    base_fee_per_gas = some base_fee;
    blob_gas_used = blob_gas_used;
    excess_blob_gas = excess_blob_gas;
    parent_beacon_block_root = h.parent_beacon_block_root;
  })
