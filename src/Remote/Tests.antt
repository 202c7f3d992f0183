-- ===== src/Remote/Tests.antt =====
-- Runs of the host's database (script/src/db.rs) on a small provider, and uses of the theorems there.
pub mod Served
pub mod Cached
use sp1_reth.Prelude.{
  ℕ, zero, suc, ◌+◌, ◌<◌, ◌≡◌, ◌≢◌, ◌⊎◌, inl, inr, ◌↔◌, refl, ap, ◌∙◌, subst, Bool, true, false,
  ◌&&◌, List, [], ◌∷◌, Option, none, some, ok, arith, ◌==◌, list_eq, eq_of_list_eq, if◌then◌else◌,
  Bool-cases, lt→ltb, lookup, put, lookup-put,
}
use sp1_reth.Mpt.Node.{B256}
use sp1_reth.Mpt.Proof.{zeros}
use sp1_reth.Block.{Address, Header, u64_mod}
use sp1_reth.Processor.Execute.{AccountInfo}
use sp1_reth.Processor.Tests.{empty_header}
use sp1_reth.Alloy.Headers.{AlloyHeader, header_into_reth}
use sp1_reth.Db.{
  nat_keys, bytes_keys, unchanged, DbAccount, InMemoryDb, get_storage_slot, load_ancestors,
}
use sp1_reth.Db.Tests as DbTests
use sp1_reth.Tries.{AccountProof, Proofs}
use sp1_reth.Remote.{
  RpcBlock, Provider, CacheOps, RemoteDb, empty_db, new, storage, fetch_latest_storage_proofs,
  fetch_ancestor_headers, basic, block_hash, commit,
}
use sp1_reth.Remote.Headers.{remote_header, remote_header_iff}
use sp1_reth.Remote.Recorded.{
  slot_of, recorded, is_cleared, is_cleared_account, SameSlots, CacheLaws, IsProvided, IsFaithful,
  known_of, known_info, NoNewInfos,
}
use sp1_reth.Remote.Runs.{
  DbCall, basic_call, storage_call, block_hash_call, commit_call, calls, calls-new, calls-storage,
}
use sp1_reth.Remote.Keys.{HasProof, fetch_latest_storage_proofs-HasProof}
use sp1_reth.Remote.Ancestors.{IsHonest, fetch_ancestor_headers-load_ancestors}
use sp1_reth.Remote.Tests.Cached.{laws}
use sp1_reth.Remote.Tests.Served.{
  raw_block, provider, served, parent_hash, chain, raw_header, with_info, info_of, no_info,
  with_slot, change, ops,
}

remote_header_iff_example : (remote_header (raw_header 3) ≡ ok (chain 3)) ↔ (
    (header_into_reth (raw_header 3) ≡ ok (chain 3))
    × ((raw_header 3).blob_gas_used ≢ none)
    × ((raw_header 3).excess_blob_gas ≢ none))
remote_header_iff_example = remote_header_iff (raw_header 3) (chain 3)

abbrev address : Address
address = 1 ∷ []

-- The initial database after the account and one of its slots were fetched at block 5.
abbrev info : AccountInfo
info = record { balance = 5; nonce = 1; code_hash = []; code = some [] }

abbrev fetched_account : InMemoryDb
fetched_account = record {
  accounts = (address, record { info = info; account_state = unchanged; storage = [] }) ∷ [];
  block_hashes = [];
}

abbrev fetched_slot : InMemoryDb
fetched_slot = record {
  accounts =
      (address, record { info = info; account_state = unchanged; storage = (3, 8) ∷ [] }) ∷ [];
  block_hashes = (4, 4 ∷ []) ∷ [];
}

abbrev final : RemoteDb
final = record { block_number = 5; initial_db = fetched_slot; current_db = fetched_account }

abbrev requests_made : List (DbCall InMemoryDb)
requests_made =
    basic_call address
    ∷ storage_call address 3
    ∷ block_hash_call 4
    ∷ commit_call fetched_account
    ∷ []

calls_run : calls provider ops requests_made (new 5) ≡ ok final
unfolding new basic storage bytes_keys block_hash commit
calls_run = refl

calls-new_example :
    (provider.get_storage_at address 3 5 ≡ some 8) × IsProvided provider ops 5 address info
unfolding bytes_keys nat_keys
calls-new_example = calls-new provider ops laws 5 requests_made final address 3 calls_run

new-IsFaithful : IsFaithful provider ops (new 5)
unfolding new
new-IsFaithful = (λ a i v e. cc, λ a. refl, λ a info e. cc)

abbrev one_slot : InMemoryDb
one_slot = change address (with_slot 3 8) empty_db

storage_run :
    storage provider ops (new 5) address 3 ≡ ok (8, record (new 5) { initial_db = one_slot })
unfolding new storage
storage_run = refl

calls-storage_run :
    calls provider ops (commit_call fetched_account ∷ []) (record (new 5) { initial_db = one_slot })
    ≡ ok (record { block_number = 5; initial_db = one_slot; current_db = fetched_account })
unfolding new commit
calls-storage_run = refl

calls-storage_example :
    (get_storage_slot (new 5).current_db address 3 ≡ ok 8) ⊎ (recorded one_slot address 3 ≡ some 8)
calls-storage_example =
    calls-storage provider ops laws (commit_call fetched_account ∷ []) (new 5)
      (record (new 5) { initial_db = one_slot })
      (record { block_number = 5; initial_db = one_slot; current_db = fetched_account }) address 3 8
      new-IsFaithful storage_run calls-storage_run

abbrev served_proofs : Proofs
served_proofs = (address, served) ∷ []

latest_run : fetch_latest_storage_proofs provider ops final ≡ ok served_proofs
unfolding fetch_latest_storage_proofs bytes_keys
latest_run = refl

fetch_latest_storage_proofs-HasProof_example : HasProof provider ops served_proofs 6 address 3
unfolding bytes_keys nat_keys
fetch_latest_storage_proofs-HasProof_example =
    fetch_latest_storage_proofs-HasProof provider ops final served_proofs address 3 (refl, tt) refl
      latest_run

converted : (n : ℕ) → n < 5 → remote_header (raw_header n) ≡ ok (chain n)
unfolding remote_header
converted n b = rw (lt→ltb n u64_mod (omega arith)) refl

hash_held : lookup 4 final.initial_db.block_hashes ≡ some (4 ∷ [])
unfolding nat_keys
hash_held = refl

chain-IsHonest : IsHonest provider (DbTests.ops.hash_slow) chain 5
chain-IsHonest = record {
  answer = λ n b. (raw_block n, refl, converted n b);
  number_lem = λ n b. refl;
  parent_hash_lem = λ n b. refl;
}

fetch_ancestor_headers-load_ancestors_example :
    (headers : List Header) × (hashes : List (ℕ × B256)) × (fetch_ancestor_headers provider ops
        final
      ≡ ok headers)
    × (load_ancestors DbTests.ops (chain 5) (chain 5) headers (put 5 (5 ∷ []) []) ≡ ok hashes)
    × (lookup 4 hashes ≡ some (4 ∷ []))
fetch_ancestor_headers-load_ancestors_example =
    fetch_ancestor_headers-load_ancestors provider ops DbTests.ops chain 5 chain-IsHonest final 4
      (4 ∷ []) refl (omega arith) (omega arith) (omega arith) hash_held
