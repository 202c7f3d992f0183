-- ===== src/Tries/Gathers.antt =====
-- The course of `proofs_to_tries` (primitives/src/mpt.rs), for whatever is to be kept on the way.
use sp1_reth.Prelude.{
  ℕ, ◌≡◌, inl, inr, refl, subst, List, [], ◌∷◌, Option, none, some, ok, arith, All, Bool-cases,
  lookup, put, lookup-put,
}
use sp1_reth.Nibbles.{Bytes}
use sp1_reth.Mpt.Node.{B256, MptNode, MptNodeReference, default}
use sp1_reth.Mpt.Codec.{Codec}
use sp1_reth.Mpt.Reference.{reference, warm}
use sp1_reth.Mpt.Proof.{mpt_from_proof, is_not_included, shorten_node_path, node_from_digest}
use sp1_reth.Mpt.Decode.{RlpReader, parse_proof}
use sp1_reth.Db.{bytes_keys}
use sp1_reth.Tries.Store.{NodeMap, reference_keys}
use sp1_reth.Tries.{
  StorageProof, unwrap, try, last, first_or, Gathered, insert_nodes, gather, add_leaf,
  add_orphaned_leafs, gather_storage, add_orphaned_slots, resolve_to,
}
use sp1_reth.Mpt.Decode.Yields.{Yields, Yields-bind, Yields-if}
use sp1_reth.Tries.Yields.{Yields-unwrap, Yields-try}

module _ (codec : Codec) (reader : RlpReader) (from_be_bytes : B256 → ℕ) (fuel : ℕ) where
  -- What is kept: of the proofs, of the nodes in them, of the nodes by their references, and of the
  -- tries with their hashes.
  pub record Keeping : Type 1 where
    pub spent : Type 0
    pub proof_ok : List Bytes → Type 0
    pub node_ok : MptNode → Type 0
    pub stored_ok : MptNodeReference → MptNode → Type 0
    pub trie_ok : B256 → MptNode → Type 0
    pub default_lem : node_ok default
    pub parse_proof_lem :
        (proof : List Bytes) (ns : List MptNode)
        → proof_ok proof
        → parse_proof reader proof ≡ ok ns
        → All node_ok ns
    pub shorten_node_path_lem :
        (n : MptNode) (ns : List MptNode)
        → node_ok n
        → shorten_node_path n ≡ ok ns
        → All (λ m. stored_ok (reference codec m) (warm codec m)) ns
    pub warm_lem : (n : MptNode) → node_ok n → stored_ok (reference codec n) (warm codec n)
    pub node_from_digest_lem : (h : B256) → trie_ok h (node_from_digest h)
    pub resolve_to_lem :
        (h : B256) (root : MptNode) (nodes : NodeMap)
        → node_ok root
        → ((r : MptNodeReference) (n : MptNode) → lookup r nodes ≡ some n → stored_ok r n)
        → Yields spent (trie_ok h) (resolve_to codec reader fuel h root nodes)

  module _ (keeping : Keeping) where
    open keeping use {
      spent, proof_ok, node_ok, stored_ok, trie_ok, default_lem, parse_proof_lem,
      shorten_node_path_lem, warm_lem, node_from_digest_lem, resolve_to_lem,
    }

    abbrev pub Indexed : NodeMap → Type 0
    Indexed nodes = (r : MptNodeReference) (n : MptNode) → lookup r nodes ≡ some n → stored_ok r n

    -- What may be put into the map.
    abbrev Storable : MptNode → Type 0
    Storable n = stored_ok (reference codec n) (warm codec n)

    All-Storable : (ns : List MptNode) → All node_ok ns → All Storable ns
    All-Storable [] h = tt
    All-Storable (n ∷ ns) h = (warm_lem n h.0, All-Storable ns h.1)

    put-Indexed :
        (n : MptNode) (nodes : NodeMap)
        → Storable n
        → Indexed nodes
        → Indexed (put (reference codec n) (warm codec n) nodes)
    put-Indexed n nodes h k r m e =
        let found = lookup-put r (reference codec n) (warm codec n) nodes in
        elim (Bool-cases (reference_keys.same (reference codec n) r)) [
          | inl t ↦
              let same : warm codec n ≡ m = ground arith in
              subst (λ x. stored_ok x m) ((reference_keys.same_iff _ _).0 t)
                (subst (stored_ok (reference codec n)) same h)
          | inr f ↦ k r m (ground arith)
        ]

    insert_nodes-Indexed :
        (ns : List MptNode) (nodes : NodeMap)
        → All Storable ns
        → Indexed nodes
        → Indexed (insert_nodes codec reader ns nodes)
    unfolding insert_nodes
    insert_nodes-Indexed [] nodes h k = k
    insert_nodes-Indexed (n ∷ ns) nodes h k =
        insert_nodes-Indexed ns _ h.1 (put-Indexed n nodes h.0 k)

    first_or_ok :
        (root : MptNode) (ns : List MptNode)
        → node_ok root
        → All node_ok ns
        → node_ok (first_or root ns)
    first_or_ok root [] h k = h
    first_or_ok root (n ∷ ns) h k = k.0

    last_ok : (ns : List MptNode) (n : MptNode) → All node_ok ns → last ns ≡ some n → node_ok n
    last_ok [] n h e = cc
    last_ok (m ∷ []) n h e = let same : m ≡ n = cc in subst node_ok same h.0
    last_ok (m ∷ k ∷ ns) n h e = last_ok (k ∷ ns) n h.1 e

    abbrev pub IsGathered : Gathered → Type 0
    IsGathered gathered = node_ok gathered.root × Indexed gathered.nodes

    pub gather-Yields :
        (proof : List Bytes) (g : Gathered)
        → proof_ok proof
        → IsGathered g
        → Yields spent IsGathered (gather codec reader proof g)
    unfolding gather
    gather-Yields proof g p h =
        Yields-bind spent (All node_ok) IsGathered _ _
          (Yields-unwrap spent _ _ (λ ns. parse_proof_lem proof ns p))
          (λ ns k.
            Yields-bind spent (λ _. Unit {0}) IsGathered (unwrap (mpt_from_proof codec ns)) _
              (Yields-unwrap spent _ _ (λ t e. tt))
              (λ trie u. (
                first_or_ok g.root ns h.0 k,
                insert_nodes-Indexed ns g.nodes (All-Storable ns k) h.1,
              )))

    add_leaf-Yields :
        (o : Option MptNode) (nodes : NodeMap)
        → ((n : MptNode) → o ≡ some n → node_ok n)
        → Indexed nodes
        → Yields spent Indexed (add_leaf codec reader o nodes)
    unfolding add_leaf
    add_leaf-Yields none nodes h k = tt
    add_leaf-Yields (some n) nodes h k =
        Yields-bind spent (All Storable) Indexed _ _
          (Yields-unwrap spent _ (shorten_node_path n)
            (λ ns. shorten_node_path_lem n ns (h n refl)))
          (λ ns q. insert_nodes-Indexed ns nodes q k)

    pub add_orphaned_leafs-Yields :
        (key : Bytes) (proof : List Bytes) (nodes : NodeMap)
        → proof_ok proof
        → Indexed nodes
        → Yields spent Indexed (add_orphaned_leafs codec reader key proof nodes)
    unfolding add_orphaned_leafs
    add_orphaned_leafs-Yields key [] nodes p h = h
    add_orphaned_leafs-Yields key (bs ∷ proof) nodes p h =
        Yields-bind spent (All node_ok) Indexed _ _
          (Yields-try spent _ _ (λ ns. parse_proof_lem (bs ∷ proof) ns p))
          (λ ns k.
            Yields-bind spent (λ _. Unit {0}) Indexed
              (try (is_not_included codec (codec.keccak key) ns)) _
              (Yields-try spent _ _ (λ t e. tt))
              (λ excluded u.
                Yields-if spent Indexed excluded (add_leaf codec reader (last ns) nodes) (ok nodes)
                  (λ t. add_leaf-Yields (last ns) nodes (λ n. last_ok ns n k) h) (λ f. h)))

    pub gather_storage-Yields :
        (ps : List StorageProof) (g : Gathered)
        → All (λ p. proof_ok p.proof) ps
        → IsGathered g
        → Yields spent IsGathered (gather_storage codec reader ps g)
    unfolding gather_storage
    gather_storage-Yields [] g q h = h
    gather_storage-Yields (p ∷ ps) g q h =
        Yields-bind spent IsGathered IsGathered _ _ (gather-Yields p.proof g q.0 h)
          (λ g k. gather_storage-Yields ps g q.1 k)

    pub add_orphaned_slots-Yields :
        (ps : List StorageProof) (nodes : NodeMap)
        → All (λ p. proof_ok p.proof) ps
        → Indexed nodes
        → Yields spent Indexed (add_orphaned_slots codec reader ps nodes)
    unfolding add_orphaned_slots
    add_orphaned_slots-Yields [] nodes q h = h
    add_orphaned_slots-Yields (p ∷ ps) nodes q h =
        Yields-bind spent Indexed Indexed _ _ (add_orphaned_leafs-Yields p.key p.proof nodes q.0 h)
          (λ nodes k. add_orphaned_slots-Yields ps nodes q.1 k)
