-- ===== src/Remote/Headers.antt =====
-- The conversion of headers inside `fetch_ancestor_headers` (script/src/db.rs).
use sp1_reth.Prelude.{ℕ, ◌≡◌, ◌≢◌, ◌↔◌, refl, Option, none, some, ok, ◌>>=◌, >>=-eq-ok}
use sp1_reth.Block.{Header, u64_mod}
use sp1_reth.Processor.{Run, unwrap}
use sp1_reth.Alloy.{narrow}
use sp1_reth.Alloy.Headers.{AlloyHeader, from_be_bytes, narrow_option, header_into_reth}

-- A missing blob field panics.
abbrev pub narrow_some : Option ℕ → Run (Option ℕ)
narrow_some o = unwrap o >>= λ n. narrow u64_mod n >>= λ m. ok (some m)

unfoldable pub remote_header : AlloyHeader → Run Header
remote_header h = do
  n ← unwrap h.number
  number ← narrow u64_mod n
  gas_limit ← narrow u64_mod h.gas_limit
  gas_used ← narrow u64_mod h.gas_used
  timestamp ← narrow u64_mod h.timestamp
  mix_hash ← unwrap h.mix_hash
  nonce ← unwrap h.nonce
  fee ← unwrap h.base_fee_per_gas
  base_fee ← narrow u64_mod fee
  blob_gas_used ← narrow_some h.blob_gas_used
  excess_blob_gas ← narrow_some h.excess_blob_gas
  ok (record {
    parent_hash = h.parent_hash;
    ommers_hash = h.uncles_hash;
    beneficiary = h.miner;
    state_root = h.state_root;
    transactions_root = h.transactions_root;
    receipts_root = h.receipts_root;
    withdrawals_root = h.withdrawals_root;
    logs_bloom = h.logs_bloom;
    difficulty = h.difficulty;
    number = number;
    gas_limit = gas_limit;
    gas_used = gas_used;
    timestamp = timestamp;
    mix_hash = mix_hash;
    extra_data = h.extra_data;
    nonce = from_be_bytes 0 nonce;
    base_fee_per_gas = some base_fee;
    blob_gas_used = blob_gas_used;
    excess_blob_gas = excess_blob_gas;
    parent_beacon_block_root = h.parent_beacon_block_root;
  })

-- The header from what the blob fields give.
abbrev header_from : AlloyHeader → Run (Option ℕ) → Run (Option ℕ) → Run Header
header_from h blob excess = do
  n ← unwrap h.number
  number ← narrow u64_mod n
  gas_limit ← narrow u64_mod h.gas_limit
  gas_used ← narrow u64_mod h.gas_used
  timestamp ← narrow u64_mod h.timestamp
  mix_hash ← unwrap h.mix_hash
  nonce ← unwrap h.nonce
  fee ← unwrap h.base_fee_per_gas
  base_fee ← narrow u64_mod fee
  blob_gas_used ← blob
  excess_blob_gas ← excess
  ok (record {
    parent_hash = h.parent_hash;
    ommers_hash = h.uncles_hash;
    beneficiary = h.miner;
    state_root = h.state_root;
    transactions_root = h.transactions_root;
    receipts_root = h.receipts_root;
    withdrawals_root = h.withdrawals_root;
    logs_bloom = h.logs_bloom;
    difficulty = h.difficulty;
    number = number;
    gas_limit = gas_limit;
    gas_used = gas_used;
    timestamp = timestamp;
    mix_hash = mix_hash;
    extra_data = h.extra_data;
    nonce = from_be_bytes 0 nonce;
    base_fee_per_gas = some base_fee;
    blob_gas_used = blob_gas_used;
    excess_blob_gas = excess_blob_gas;
    parent_beacon_block_root = h.parent_beacon_block_root;
  })

header_from-ok :
    (h : AlloyHeader) (blob excess : Run (Option ℕ)) (r : Header)
    → header_from h blob excess ≡ ok r
    → ((b : Option ℕ) × (blob ≡ ok b)) × ((e : Option ℕ) × (excess ≡ ok e))
header_from-ok h blob excess r e =
    let (n, e₁, k₁) = >>=-eq-ok (unwrap h.number) _ e in
    let (number, e₂, k₂) = >>=-eq-ok (narrow u64_mod n) _ k₁ in
    let (gas_limit, e₃, k₃) = >>=-eq-ok (narrow u64_mod h.gas_limit) _ k₂ in
    let (gas_used, e₄, k₄) = >>=-eq-ok (narrow u64_mod h.gas_used) _ k₃ in
    let (timestamp, e₅, k₅) = >>=-eq-ok (narrow u64_mod h.timestamp) _ k₄ in
    let (mix_hash, e₆, k₆) = >>=-eq-ok (unwrap h.mix_hash) _ k₅ in
    let (nonce, e₇, k₇) = >>=-eq-ok (unwrap h.nonce) _ k₆ in
    let (fee, e₈, k₈) = >>=-eq-ok (unwrap h.base_fee_per_gas) _ k₇ in
    let (base_fee, e₉, k₉) = >>=-eq-ok (narrow u64_mod fee) _ k₈ in
    let (b, there, k) = >>=-eq-ok blob _ k₉ in
    let (x, here, done) = >>=-eq-ok excess _ k in ((b, there), (x, here))

remote_header_iff_of :
    (h : AlloyHeader) (blob excess : Option ℕ) (r : Header)
    → (header_from h (narrow_some blob) (narrow_some excess) ≡ ok r) ↔ (
        (header_from h (narrow_option blob) (narrow_option excess) ≡ ok r)
        × (blob ≢ none)
        × (excess ≢ none))
remote_header_iff_of h (some b) (some x) r = (λ e. (e, (λ q. cc), λ q. cc), λ k. k.0)
remote_header_iff_of h none x r = (
  λ e. let ((b, p), k) = header_from-ok h (narrow_some none) (narrow_some x) r e in absurd (cc p),
  λ k. absurd (k.1 refl),
)
remote_header_iff_of h (some b) none r = (
  λ e.
      let (k, (x, p)) = header_from-ok h (narrow_some (some b)) (narrow_some none) r e in
      absurd (cc p),
  λ k. absurd (k.2 refl),
)

-- The conversion of `fetch_ancestor_headers` gives a header exactly when `into_reth` gives it and the
-- block has both blob fields; without one of them, it panics.
pub remote_header_iff :
    (h : AlloyHeader) (r : Header)
    → (remote_header h ≡ ok r)
      ↔ ((header_into_reth h ≡ ok r) × (h.blob_gas_used ≢ none) × (h.excess_blob_gas ≢ none))
unfolding remote_header header_into_reth
remote_header_iff h r = remote_header_iff_of h h.blob_gas_used h.excess_blob_gas r
