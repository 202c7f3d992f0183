-- ===== src/Processor/Finalize/Tests.antt =====
-- A run of `finalize` (primitives/src/processor.rs) on one account with one slot, and a use of the
-- theorem on it.
use sp1_reth.Mpt.Insert.{insert_rlp, insert_internal}
use sp1_reth.Prelude.{◌≡◌, refl, List, [], ◌∷◌, some, none, ok}
use sp1_reth.Nibbles.{Bytes, IsBytes, to_encoded_path, to_nibs}
use sp1_reth.Mpt.Node.{MptNode, leaf, from, default}
use sp1_reth.Mpt.Reference.{hash, hashed}
use sp1_reth.Mpt.Get.{get}
use sp1_reth.Mpt.Canonical.{IsCanonical}
use sp1_reth.Mpt.Map.Runs.{Op, replay}
use sp1_reth.Mpt.Tests.Rlp.{codec, digest_for}
use sp1_reth.Mpt.Proof.{zeros}
use sp1_reth.Block.{Address, Header, Sp1RethInput}
use sp1_reth.Processor.{EvmProcessor}
use sp1_reth.Processor.Tests.{empty_header, input}
use sp1_reth.Db.{keccak_empty, touched, InMemoryDb, bytes_keys}
use sp1_reth.Processor.Finalize.{Encoders, finalize}
use sp1_reth.Processor.Finalize.Written.{IsWritten}
use sp1_reth.Processor.Finalize.Writes.{finalize-IsWritten}

abbrev pub ops : Encoders
ops = record {
  codec = codec;
  to_be_bytes = λ n. zeros 32;
  encode_u256 = λ v. v ∷ [];
  encode_account = λ a. a.nonce ∷ a.balance ∷ [];
  encode_u256-ne = λ v e. cc;
  encode_account-ne = λ a e. cc;
}

abbrev address : Address
address = 1 ∷ []

abbrev db : InMemoryDb
db = record {
  accounts =
      (
        address,
        record {
          info = record { balance = 5; nonce = 2; code_hash = keccak_empty; code = none };
          account_state = touched;
          storage = (3, 9) ∷ [];
        },
      )
      ∷ [];
  block_hashes = [];
}

abbrev with_storage : MptNode → Sp1RethInput
with_storage trie = record input { parent_storage = (address, (trie, 3 ∷ [])) ∷ [] }

abbrev before : EvmProcessor InMemoryDb
before = record { input = with_storage default; db = some db; header = some empty_header }

abbrev storage_trie : MptNode
storage_trie = from (leaf (0x20 ∷ digest_for 32) (9 ∷ []))

abbrev state_trie : MptNode
state_trie = from (leaf (0x20 ∷ digest_for 1) (2 ∷ 5 ∷ []))

abbrev final : Header
final = record empty_header { state_root = hash codec state_trie }

abbrev after : EvmProcessor InMemoryDb
after = record { input = with_storage (hashed codec storage_trie); db = none; header = some final }

finalize_run : finalize ops before ≡ ok after
unfolding finalize bytes_keys insert_rlp insert_internal to_encoded_path to_nibs
finalize_run = refl

empty-IsCanonical : IsCanonical default
unfolding IsCanonical
empty-IsCanonical = tt

finalize-IsWritten_example :
    (h : Header) × (state : MptNode) × (changes : List Op) × (some final ≡ some h)
    × (h.state_root ≡ hash codec state)
    × IsWritten ops before.input.parent_storage db.accounts changes
    × IsCanonical state
    × ((key : Bytes) → IsBytes key → get state key ≡ replay changes (get default) key)
finalize-IsWritten_example =
    finalize-IsWritten ops before after db refl (refl, tt) empty-IsCanonical finalize_run
