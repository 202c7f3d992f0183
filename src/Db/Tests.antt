-- ===== src/Db/Tests.antt =====
-- A run of `initialize` (primitives/src/db.rs) on a state of one account, with stand-ins for the
-- libraries, and uses of the theorems on it.
use sp1_reth.Mpt.Get.{get, get_internal}
use sp1_reth.Prelude.{
  ℕ, ◌≡◌, ◌↔◌, refl, List, [], ◌∷◌, none, some, Option, ok, All, lookup, if◌then◌else◌, list_eq,
  true,
}
use sp1_reth.Nibbles.{prefix_nibs, lcp, to_encoded_path}
use sp1_reth.Mpt.Node.{B256, MptNode, leaf, from, set_child}
use sp1_reth.Mpt.Reference.{hashed}
use sp1_reth.Mpt.Proof.{zeros}
use sp1_reth.Mpt.Tests.Rlp.{codec, digest_for}
use sp1_reth.Block.{Address, Header, Sp1RethInput}
use sp1_reth.Processor.Tests.{empty_header, parent, input}
use sp1_reth.Db.{
  nat_keys, keccak_empty, StateAccount, unchanged, InMemoryDb, DbOps, initialize, load_ancestors,
}
use sp1_reth.Nibbles.{Bytes}
use sp1_reth.Mpt.Insert.{insert_rlp, insert_internal, insert_leaf, fork}
use sp1_reth.Mpt.Tests.{key_b, one, two, one-IsCanonical, key_b-IsBytes}
use sp1_reth.Db.{get_rlp}
use sp1_reth.Db.Rlp.{get_rlp-insert_rlp}
use sp1_reth.Db.Storage.{IsAccount, initialize-IsAccount}
use sp1_reth.Db.Ancestors.{
  IsAncestor, IsRecent, IsChain, load_ancestors_iff, initialize-block_hashes,
}

abbrev pub account : StateAccount
account = record { nonce = 1; balance = 5; storage_root = digest_for 37; code_hash = keccak_empty }

abbrev pub ops : DbOps
ops = record {
  codec = codec;
  decode_account = λ bs. some account;
  decode_u256 = λ bs. elim bs [ [] ↦ none | b ∷ rest ↦ some b ];
  to_be_bytes = λ n. zeros 32;
  hash_slow = λ h. h.number ∷ [];
  empty_bytecode = 0 ∷ [];
  new_raw = λ bs. bs;
}

abbrev address : Address
address = 1 ∷ []

abbrev state_trie : MptNode
state_trie = from (leaf (0x20 ∷ digest_for 1) (1 ∷ 5 ∷ []))

abbrev storage_trie : MptNode
storage_trie = from (leaf (0x20 ∷ digest_for 32) (9 ∷ []))

abbrev linked : Header
linked = record parent { parent_hash = 40 ∷ [] }

abbrev grandparent : Header
grandparent = record empty_header { number = 40 }

abbrev start : Sp1RethInput
start = record input {
  parent_header = linked;
  parent_state_trie = state_trie;
  parent_storage = (address, (storage_trie, 3 ∷ [])) ∷ [];
  ancestor_headers = grandparent ∷ [];
}

abbrev warmed : Sp1RethInput
warmed = record start { parent_storage = (address, (hashed codec storage_trie, 3 ∷ [])) ∷ [] }

abbrev db : InMemoryDb
db = record {
  accounts =
      (
        address,
        record {
          info = record { balance = 5; nonce = 1; code_hash = keccak_empty; code = some (0 ∷ []) };
          account_state = unchanged;
          storage = (3, 9) ∷ [];
        },
      )
      ∷ [];
  block_hashes = (41, 41 ∷ []) ∷ (40, 40 ∷ []) ∷ [];
}

initialize_run : initialize ops start ≡ ok (warmed, db)
unfolding initialize get get_internal prefix_nibs nat_keys
initialize_run = refl

initialize-IsAccount_example :
    All (λ (a, entry). IsAccount ops state_trie db a entry) ((address, (storage_trie, 3 ∷ [])) ∷ [])
initialize-IsAccount_example = initialize-IsAccount ops start warmed db (refl, tt) initialize_run

hash_found : lookup 40 db.block_hashes ≡ some (40 ∷ [])
unfolding nat_keys
hash_found = refl

initialize-block_hashes_example :
    (h : Header) × IsAncestor ops linked h
    × (h.number ≡ 40)
    × (h.number ∷ [] ≡ 40 ∷ [])
    × IsRecent ops linked 40
initialize-block_hashes_example =
    initialize-block_hashes ops start warmed db 40 (40 ∷ []) initialize_run hash_found

load_ancestors_iff_example :
    ((hashes : List (ℕ × B256)) × (load_ancestors ops linked linked (grandparent ∷ []) []
        ≡ ok hashes))
    ↔ IsChain ops linked linked (grandparent ∷ [])
load_ancestors_iff_example = load_ancestors_iff ops linked (grandparent ∷ []) []

-- Numbers, each encoded as one byte.
abbrev as_byte : ℕ → Bytes
as_byte n = n ∷ []

abbrev of_byte : Bytes → Option ℕ
of_byte [] = none
of_byte (b ∷ bs) = some b

inserted_rlp : insert_rlp as_byte one key_b 8 ≡ ok (two, true)
unfolding insert_rlp insert_internal prefix_nibs insert_leaf lcp fork set_child to_encoded_path
inserted_rlp = refl

get_rlp-insert_rlp_example :
    get_rlp of_byte two key_b
    ≡ (if list_eq key_b key_b then ok (some 8) else get_rlp of_byte one key_b)
get_rlp-insert_rlp_example =
    get_rlp-insert_rlp as_byte of_byte one two key_b key_b 8 true (λ e. cc) refl one-IsCanonical
      key_b-IsBytes key_b-IsBytes inserted_rlp
