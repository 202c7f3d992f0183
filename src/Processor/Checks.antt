-- ===== src/Processor/Checks.antt =====
-- When the checks of the header pass (primitives/src/processor.rs).
use sp1_reth.Prelude.{
  ◌+◌, ◌-◌, ◌/◌, ◌≤◌, ◌<◌, ◌≡◌, ◌↔◌, ◌⊎◌, some, ok, arith, list_eq_refl, sym, ap, ◌∙◌, length,
}
use sp1_reth.Block.{Header, u64_mod}
use sp1_reth.Processor.{
  EvmProcessor, HeaderOps, validate_header_standalone, validate_gas_limit, initialize,
}

module _ {D : Type 0} (p : EvmProcessor D) (h : Header) (set : p.header ≡ some h) where
  -- The gas limit passes exactly if it differs from the parent's by less than a 1024th of that, and,
  -- unless it rose, the PARENT's limit is not below the minimum: the header's own is not looked at.
  pub validate_gas_limit_iff : (validate_gas_limit p ≡ ok tt) ↔ (
      ((p.input.parent_header.gas_limit < h.gas_limit)
        × (h.gas_limit - p.input.parent_header.gas_limit < p.input.parent_header.gas_limit / 1024))
      ⊎ ((h.gas_limit ≤ p.input.parent_header.gas_limit)
          × (p.input.parent_header.gas_limit - h.gas_limit < p.input.parent_header.gas_limit / 1024)
          × (5000 ≤ p.input.parent_header.gas_limit)))
  unfolding validate_gas_limit
  validate_gas_limit_iff = (λ e. ground arith, λ e. ground arith)

  -- The gas check passes exactly if no more gas was used than the limit allows.
  pub validate_header_standalone_iff :
      (validate_header_standalone p ≡ ok tt) ↔ (h.gas_used ≤ h.gas_limit)
  unfolding validate_header_standalone
  validate_header_standalone_iff = (λ e. ground arith, λ e. ground arith)

module _ {D : Type 0} (ops : HeaderOps) (p : EvmProcessor D) where
  abbrev parent : Header
  parent = p.input.parent_header

  -- The processor with a header whose every field is the input's, the parent's or the default.
  abbrev pub initialized : EvmProcessor D
  initialized = record {
    input = p.input;
    db = p.db;
    header = some (record {
      parent_hash = ops.hash_slow parent;
      ommers_hash = ops.default_header.ommers_hash;
      beneficiary = p.input.beneficiary;
      state_root = ops.default_header.state_root;
      transactions_root = ops.default_header.transactions_root;
      receipts_root = ops.default_header.receipts_root;
      withdrawals_root = ops.default_header.withdrawals_root;
      logs_bloom = ops.default_header.logs_bloom;
      difficulty = ops.default_header.difficulty;
      number = parent.number + 1;
      gas_limit = p.input.gas_limit;
      gas_used = ops.default_header.gas_used;
      timestamp = p.input.timestamp;
      mix_hash = p.input.mix_hash;
      extra_data = p.input.extra_data;
      nonce = ops.default_header.nonce;
      base_fee_per_gas = ops.next_block_base_fee parent;
      blob_gas_used = ops.default_header.blob_gas_used;
      excess_blob_gas = ops.default_header.excess_blob_gas;
      parent_beacon_block_root = ops.default_header.parent_beacon_block_root;
    });
  }

  accepts_iff : (initialize ops p ≡ ok initialized) ↔ (
      (parent.number + 1 < u64_mod)
      × (parent.timestamp ≤ p.input.timestamp)
      × (length p.input.extra_data ≤ 32))
  unfolding initialize
  accepts_iff = (
    λ e. ground (arith, list_eq_refl (ops.hash_slow parent)),
    λ h. ground (arith, list_eq_refl (ops.hash_slow parent)),
  )

  initialize_only : (q : EvmProcessor D) → initialize ops p ≡ ok q → q ≡ initialized
  unfolding initialize
  initialize_only q e = ground arith

  -- `initialize` returns exactly if the parent's number plus 1 fits 64 bits, the timestamp is not
  -- before the parent's, and the extra data has at most 32 bytes, and what it returns is exactly the
  -- processor with the header on the parent: its hash, its number plus 1 and the base fee after it,
  -- the input's beneficiary, gas limit, timestamp, mix hash and extra data, and for the rest the
  -- fields of the default header. Its other checks pass by construction, and the gas limit is not
  -- looked at.
  pub initialize_iff :
      (q : EvmProcessor D)
      → (initialize ops p ≡ ok q) ↔ (
          (q ≡ initialized)
          × (parent.number + 1 < u64_mod)
          × (parent.timestamp ≤ p.input.timestamp)
          × (length p.input.extra_data ≤ 32))
  initialize_iff q = (
    λ e.
        let same = initialize_only q e in
        let (a, b, c) = accepts_iff.0 (e ∙ ap ok same) in (same, a, b, c),
    λ (same, a, b, c). accepts_iff.1 (a, b, c) ∙ ap ok (sym same),
  )
