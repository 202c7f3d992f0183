-- ===== src/Tries.antt =====
-- The tries of a block's input, built from the Merkle proofs that a node serves
-- (primitives/src/mpt.rs: `proofs_to_tries`, `add_orphaned_leafs`).
pub mod Store
pub mod Yields
pub mod Gathers
pub mod Accounts
pub mod Coherent
pub mod Hash
pub mod Fuel
pub mod Tests
use sp1_reth.Prelude.{
  ℕ, ◌≡◌, Bool, true, false, List, [], ◌∷◌, Option, none, some, Outcome, ok, err, panic, ◌>>=◌, map,
  list_eq, if◌then◌else◌, Keys, lookup, put,
}
use sp1_reth.Nibbles.{Bytes}
use sp1_reth.Mpt.Node.{B256, Error, MptNode, MptNodeReference, default}
use sp1_reth.Mpt.Codec.{Codec}
use sp1_reth.Mpt.Reference.{reference, warm, hashed, hash}
use sp1_reth.Mpt.Proof.{
  NodeStore, mpt_from_proof, is_not_included, resolve_nodes, shorten_node_path, node_from_digest,
}
use sp1_reth.Mpt.Decode.{RlpReader, failed, out_of_fuel, Decoded, parse_proof}
use sp1_reth.Block.{Address, StorageEntry}
use sp1_reth.Db.{bytes_keys}
use sp1_reth.Tries.Store.{NodeMap, reference_keys, store_of}

-- The fields of `EIP1186AccountProofResponse` and of its storage proofs that the code reads.
pub record StorageProof : Type 0 where
  pub key : B256
  pub proof : List Bytes

pub record AccountProof : Type 0 where
  pub account_proof : List Bytes
  pub storage_hash : B256
  pub storage_proof : List StorageProof

abbrev pub Proofs : Type 0
Proofs = List (Address × AccountProof)

-- `unwrap` of a result.
abbrev pub unwrap : {A : Type 0} → Outcome Error A → Decoded A
unwrap (ok a) = ok a
unwrap (err e) = panic
unwrap panic = panic

-- `?` on a result.
abbrev pub try : {A : Type 0} → Outcome Error A → Decoded A
try (ok a) = ok a
try (err e) = err (failed e)
try panic = panic

-- What `resolve_nodes` returns.
abbrev pub fueled : {A : Type 0} → Option A → Decoded A
fueled none = err out_of_fuel
fueled (some a) = ok a

abbrev pub last : List MptNode → Option MptNode
last [] = none
last (n ∷ []) = some n
last (n ∷ m ∷ ns) = last (m ∷ ns)

abbrev pub first_or : MptNode → List MptNode → MptNode
first_or root [] = root
first_or root (n ∷ ns) = n

-- `unwrap` of a lookup.
abbrev pub present : {A : Type 0} → Option A → Decoded A
present none = panic
present (some a) = ok a

abbrev pub is_nil : {A : Type 0} → List A → Bool
is_nil [] = true
is_nil (x ∷ xs) = false

-- The root and the nodes that are gathered from a series of proofs.
pub record Gathered : Type 0 where
  pub root : MptNode
  pub nodes : NodeMap

abbrev pub nothing_gathered : Gathered
nothing_gathered = record { root = default; nodes = [] }

module _ (codec : Codec) (reader : RlpReader) where
  -- `nodes.insert(node.reference(), node)` for each node: the call caches the reference in the node.
  unfoldable pub insert_nodes : List MptNode → NodeMap → NodeMap
  insert_nodes [] nodes = nodes
  insert_nodes (n ∷ ns) nodes = insert_nodes ns (put (reference codec n) (warm codec n) nodes)

  -- The nodes of one proof, the first of which is the root.
  unfoldable pub gather : List Bytes → Gathered → Decoded Gathered
  unfolding parse_proof mpt_from_proof insert_nodes
  gather proof gathered = do
    proof_nodes ← unwrap (parse_proof reader proof)
    trie ← unwrap (mpt_from_proof codec proof_nodes)
    ok (record {
      root = first_or gathered.root proof_nodes;
      nodes = insert_nodes proof_nodes gathered.nodes;
    })

  unfoldable pub add_leaf : Option MptNode → NodeMap → Decoded NodeMap
  unfolding insert_nodes
  add_leaf none nodes = panic
  add_leaf (some leaf) nodes = unwrap (shorten_node_path leaf) >>= λ ns. ok (insert_nodes ns nodes)

  unfoldable pub add_orphaned_leafs : Bytes → List Bytes → NodeMap → Decoded NodeMap
  unfolding parse_proof is_not_included add_leaf
  add_orphaned_leafs key [] nodes = ok nodes
  add_orphaned_leafs key (bs ∷ proof) nodes = do
    proof_nodes ← try (parse_proof reader (bs ∷ proof))
    excluded ← try (is_not_included codec (codec.keccak key) proof_nodes)
    if excluded then add_leaf (last proof_nodes) nodes else ok nodes

  -- The two loops over storage proofs.
  unfoldable pub gather_storage : List StorageProof → Gathered → Decoded Gathered
  unfolding gather
  gather_storage [] gathered = ok gathered
  gather_storage (p ∷ ps) gathered = gather p.proof gathered >>= gather_storage ps

  unfoldable pub add_orphaned_slots : List StorageProof → NodeMap → Decoded NodeMap
  unfolding add_orphaned_leafs
  add_orphaned_slots [] nodes = ok nodes
  add_orphaned_slots (p ∷ ps) nodes =
      add_orphaned_leafs p.key p.proof nodes >>= add_orphaned_slots ps

  -- `resolve_nodes` and the `assert_eq!` of the hash, which caches the reference of the trie.
  unfoldable pub resolve_to : ℕ → B256 → MptNode → NodeMap → Decoded MptNode
  unfolding resolve_nodes hash
  resolve_to fuel root_hash root nodes =
      fueled (resolve_nodes fuel (store_of nodes) root) >>= λ trie.
      if list_eq (hash codec trie) root_hash then ok (hashed codec trie) else panic

  module _ (from_be_bytes : B256 → ℕ) (fuel : ℕ) where
    -- The trie and the slots of one account; without slots, only the root of the trie.
    unfoldable pub storage_entry : AccountProof → AccountProof → Decoded StorageEntry
    unfolding node_from_digest gather_storage add_orphaned_slots resolve_to
    storage_entry proof fini_proofs =
        let entry = (do
          gathered ← gather_storage proof.storage_proof nothing_gathered
          nodes ← add_orphaned_slots fini_proofs.storage_proof gathered.nodes
          storage_trie ← resolve_to fuel proof.storage_hash gathered.root nodes
          ok (storage_trie, map (λ p. from_be_bytes p.key) proof.storage_proof)) in
        if is_nil proof.storage_proof then ok (node_from_digest proof.storage_hash, []) else entry

    -- The body of the loop over the accounts.
    unfoldable pub add_account :
        Proofs → Address → AccountProof → Gathered → Decoded (StorageEntry × Gathered)
    unfolding gather add_orphaned_leafs storage_entry
    add_account proofs address proof state = do
      gathered ← gather proof.account_proof state
      fini_proofs ← present (lookup address proofs)
      nodes ← add_orphaned_leafs address fini_proofs.account_proof gathered.nodes
      entry ← storage_entry proof fini_proofs
      ok (entry, record gathered { nodes = nodes })

    unfoldable pub add_accounts :
        Proofs → Proofs → Gathered → Decoded (List (Address × StorageEntry) × Gathered)
    unfolding add_account
    add_accounts proofs [] state = ok ([], state)
    add_accounts proofs ((address, proof) ∷ rest) state = do
      (entry, state') ← add_account proofs address proof state
      (storage, state'') ← add_accounts proofs rest state'
      ok ((address, entry) ∷ storage, state'')

    unfoldable pub proofs_to_tries :
        B256 → Proofs → Proofs → Decoded (MptNode × List (Address × StorageEntry))
    unfolding node_from_digest add_accounts resolve_to
    proofs_to_tries state_root [] proofs = ok (node_from_digest state_root, [])
    proofs_to_tries state_root (p ∷ parent_proofs) proofs = do
      (storage, state) ← add_accounts proofs (p ∷ parent_proofs) nothing_gathered
      state_trie ← resolve_to fuel state_root state.root state.nodes
      ok (state_trie, storage)
