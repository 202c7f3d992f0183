-- ===== src/Tries/Fuel.antt =====
-- That `proofs_to_tries` (primitives/src/mpt.rs) returns: its calls of `resolve_nodes` do, where no node
-- of the proofs has itself behind its digests.
use sp1_reth.Prelude.{
  ℕ, ◌≡◌, refl, subst, List, [], ◌∷◌, none, some, ok, err, panic, list_eq, All, lookup, ◌≢◌,
}
use sp1_reth.Nibbles.{Bytes}
use sp1_reth.Mpt.Node.{
  B256, MptNode, node, MptNodeData, null, branch, leaf, extension, MptNodeReference, Children,
  no_children, vacant, child, default,
}
use sp1_reth.Mpt.Codec.{Codec}
use sp1_reth.Mpt.Reference.{reference, warm, hashed, hash}
use sp1_reth.Mpt.Proof.{resolve_nodes, shorten_node_path}
use sp1_reth.Mpt.Decode.{out_of_fuel, RlpReader, parse_proof}
use sp1_reth.Db.{bytes_keys}
use sp1_reth.Tries.Store.{NodeMap, reference_keys, store_of}
use sp1_reth.Mpt.Decode.Yields.{Yields, Yields-bind, Yields-if}
use sp1_reth.Tries.Yields.{Yields-fueled}
use sp1_reth.Tries.Gathers.{Keeping}
use sp1_reth.Tries.Accounts.{proofs_to_tries-Yields}
use sp1_reth.Tries.{Proofs, fueled, resolve_to, proofs_to_tries}
use sp1_reth.Mpt.Proof.Fuel.{IsRanked, AreRanked, resolve_nodes-total}
use sp1_reth.Mpt.Reference.{warm_children}

module _ (codec : Codec) (rank : B256 → ℕ) where
  mutual
    unfolding IsRanked warm

    IsRanked-warm : (k : ℕ) (n : MptNode) → IsRanked rank k n → IsRanked rank k (warm codec n)
    IsRanked-warm k (node null none) h = tt
    IsRanked-warm k (node (branch cs) none) h = AreRanked-warm_children k cs h
    IsRanked-warm k (node (leaf prefix value) none) h = tt
    IsRanked-warm k (node (extension prefix n) none) h = IsRanked-warm k n h
    IsRanked-warm k (node (MptNodeData.digest d) none) h = h
    IsRanked-warm k (node d (some r)) h = h

    AreRanked-warm_children :
        (k : ℕ) (cs : Children) → AreRanked rank k cs → AreRanked rank k (warm_children codec cs)
    AreRanked-warm_children k no_children h = tt
    AreRanked-warm_children k (vacant cs) h = AreRanked-warm_children k cs h
    AreRanked-warm_children k (child n cs) h =
        (IsRanked-warm k n h.0, AreRanked-warm_children k cs h.1)

  -- The digests in a node have lower ranks than its own.
  abbrev pub IsPlaced : MptNode → Type 0
  IsPlaced n = (d : B256) → reference codec n ≡ MptNodeReference.digest d → IsRanked rank (rank d) n

  -- This holds of a node and of its shortened versions, and the ranks are below `k`.
  abbrev pub IsRankedNode : ℕ → MptNode → Type 0
  IsRankedNode k n =
      IsRanked rank k n
      × IsPlaced n
      × ((ns : List MptNode) → shorten_node_path n ≡ ok ns → All IsPlaced ns)

  abbrev IsStored : MptNodeReference → MptNode → Type 0
  IsStored r n = (d : B256) → r ≡ MptNodeReference.digest d → IsRanked rank (rank d) n

  warm-IsStored : (n : MptNode) → IsPlaced n → IsStored (reference codec n) (warm codec n)
  warm-IsStored n h d e = IsRanked-warm (rank d) n (h d e)

  warm-All :
      (ns : List MptNode)
      → All IsPlaced ns
      → All (λ n. IsStored (reference codec n) (warm codec n)) ns
  warm-All [] h = tt
  warm-All (n ∷ ns) h = (warm-IsStored n h.0, warm-All ns h.1)

  module _ (reader : RlpReader) (from_be_bytes : B256 → ℕ) (fuel : ℕ) where
    -- This holds of every node that a proof has.
    abbrev pub IsRankedProof : List Bytes → Type 0
    IsRankedProof proof =
        (ns : List MptNode) → parse_proof reader proof ≡ ok ns → All (IsRankedNode fuel) ns

    abbrev pub AreRankedProofs : Proofs → Type 0
    AreRankedProofs proofs =
        All
          (λ e.
            IsRankedProof e.1.account_proof × All (λ p. IsRankedProof p.proof) (e.1.storage_proof))
          proofs

    abbrev AnyTrie : B256 → MptNode → Type 0
    AnyTrie h t = Unit

    resolve_to-Yields :
        (h : B256) (root : MptNode) (nodes : NodeMap)
        → IsRankedNode fuel root
        → ((r : MptNodeReference) (n : MptNode) → lookup r nodes ≡ some n → IsStored r n)
        → Yields ⊥ (AnyTrie h) (resolve_to codec reader fuel h root nodes)
    unfolding resolve_to
    resolve_to-Yields h root nodes c k =
        Yields-bind ⊥ (λ _. Unit {0}) (AnyTrie h)
          (fueled (resolve_nodes fuel (store_of nodes) root)) _
          (Yields-fueled ⊥ (λ _. Unit {0}) _
            (resolve_nodes-total rank fuel (store_of nodes) root
              (λ d n e. k (MptNodeReference.digest d) n e d refl) c.0)
            (λ t e. tt))
          (λ t ct.
            Yields-if ⊥ (AnyTrie h) (list_eq (hash codec t) h) (ok (hashed codec t)) panic (λ e. tt)
              (λ f. tt))

    default-IsRankedNode : IsRankedNode fuel default
    unfolding IsRanked shorten_node_path
    default-IsRankedNode =
        (tt, (λ d e. tt), λ ns e. let same : [] ≡ ns = cc in subst (All IsPlaced) same tt)

    abbrev ranks : Keeping codec reader from_be_bytes fuel
    ranks = record {
      spent = ⊥;
      proof_ok = IsRankedProof;
      node_ok = IsRankedNode fuel;
      stored_ok = IsStored;
      trie_ok = AnyTrie;
      default_lem = default-IsRankedNode;
      parse_proof_lem = λ proof ns h e. h ns e;
      shorten_node_path_lem = λ n ns h e. warm-All ns (h.2 ns e);
      warm_lem = λ n h. warm-IsStored n h.1;
      node_from_digest_lem = λ h. tt;
      resolve_to_lem = resolve_to-Yields;
    }

    -- With fuel above the ranks of the digests in the nodes of all proofs, where each of these nodes, and each
    -- shortened version of it, has digests of lower ranks than its own, `proofs_to_tries` does not
    -- run out of fuel.
    pub proofs_to_tries-total :
        (state_root : B256) (parent_proofs proofs : Proofs)
        → AreRankedProofs proofs
        → AreRankedProofs parent_proofs
        → proofs_to_tries codec reader from_be_bytes fuel state_root parent_proofs proofs
          ≢ err out_of_fuel
    proofs_to_tries-total state_root parent_proofs proofs q p = λ e. subst (Yields ⊥ _) e (
        proofs_to_tries-Yields codec reader from_be_bytes fuel ranks state_root parent_proofs proofs
          q p)
