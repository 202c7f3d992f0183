-- ===== src/Alloy/Tests.antt =====
-- Conversions of primitives/src/alloy2reth.rs on one transaction, and uses of the theorems.
use sp1_reth.Prelude.{◌≡◌, ◌↔◌, ◌⊎◌, refl, true, false, [], ◌∷◌, none, some, ok, arith}
use sp1_reth.Block.{SignedTransaction, call, eip1559}
use sp1_reth.Alloy.{AlloySignature, AlloyTransaction, signature_into_reth, transaction_into_reth}
use sp1_reth.Alloy.Kept.{Converts, Signed}
use sp1_reth.Alloy.Keeps.{odd_y_parity_iff, transaction-Converts}

abbrev without_chain : AlloySignature
without_chain = record { r = 3; s = 4; v = 28 }

-- The parity of the signature is odd, and the converted bit is not set.
lost_parity : (signature_into_reth without_chain).odd_y_parity ≡ false
unfolding signature_into_reth
lost_parity = refl

odd_y_parity_iff_example :
    ((signature_into_reth without_chain).odd_y_parity ≡ true)
    ↔ ((without_chain.v ≡ 1) ⊎ (without_chain.v ≡ 38))
odd_y_parity_iff_example = odd_y_parity_iff without_chain (omega arith)

abbrev tx : AlloyTransaction
tx = record {
  transaction_type = some 2;
  chain_id = some 1;
  nonce = 5;
  gas_price = none;
  max_fee_per_gas = some 100;
  max_priority_fee_per_gas = some 2;
  gas = 21_000;
  to = some (9 ∷ []);
  value = 7;
  input = [];
  access_list = some [];
  signature = some (record { r = 3; s = 4; v = 1 });
}

abbrev converted : SignedTransaction
converted = record {
  signature = record { r = 3; s = 4; odd_y_parity = true };
  transaction =
      eip1559 (record { nonce = 5; gas_limit = 21_000; to = call (9 ∷ []); value = 7; input = [] })
        1 100 2 [];
}

converted_run : transaction_into_reth tx ≡ ok converted
unfolding transaction_into_reth
converted_run = refl

transaction-Converts_example :
    Converts tx converted.transaction × Signed tx.signature converted.signature
transaction-Converts_example = transaction-Converts tx converted converted_run
