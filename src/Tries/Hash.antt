-- ===== src/Tries/Hash.antt =====
-- That the tries of `proofs_to_tries` (primitives/src/mpt.rs) have the hashes that the proofs claim.
use sp1_reth.Prelude.{
  ℕ, ◌≡◌, ◌⊎◌, inl, inr, refl, sym, subst, ◌∙◌, List, [], ◌∷◌, some, ok, panic, list_eq,
  eq_of_list_eq, All, Bool-cases, lookup,
}
use sp1_reth.Mpt.Node.{B256, MptNode, MptNodeReference, default}
use sp1_reth.Mpt.Codec.{Codec}
use sp1_reth.Mpt.Reference.{reference, warm, hashed, hash, empty_root, digest_of}
use sp1_reth.Mpt.Reference.Coherent.{IsCoherent, warm-IsCoherent, hashed-IsCoherent}
use sp1_reth.Mpt.Proof.{resolve_nodes, node_from_digest, zeros}
use sp1_reth.Mpt.Proof.Resolve.{resolve_nodes-hash}
use sp1_reth.Mpt.Decode.{RlpReader}
use sp1_reth.Block.{Address, StorageEntry}
use sp1_reth.Db.{bytes_keys}
use sp1_reth.Tries.Store.{NodeMap, reference_keys, store_of}
use sp1_reth.Mpt.Proof.Hash.{reference-warm}
use sp1_reth.Mpt.Decode.Yields.{Yields, Yields-bind, Yields-if}
use sp1_reth.Tries.Yields.{Yields-fueled}
use sp1_reth.Tries.Gathers.{Keeping}
use sp1_reth.Tries.Accounts.{MatchProofs, proofs_to_tries-Yields}
use sp1_reth.Tries.Coherent.{parse_proof-All, shorten_node_path-All}
use sp1_reth.Tries.{StorageProof, Proofs, fueled, resolve_to, proofs_to_tries}

module _ (codec : Codec) where
  -- A trie with the claimed hash; for the hash zero, it may be the empty trie.
  abbrev pub HasRoot : B256 → MptNode → Type 0
  HasRoot h t = IsCoherent codec t × ((hash codec t ≡ h) ⊎ ((h ≡ zeros 32) × (t ≡ default)))

  node_from_digest-HasRoot : (h : B256) → HasRoot h (node_from_digest h)
  unfolding node_from_digest hash IsCoherent reference digest_of
  node_from_digest-HasRoot h = elim (Bool-cases (list_eq h empty_root)) [
    | inl e ↦ rw (e) ((tt, tt), inl (sym (eq_of_list_eq h empty_root e)))
    | inr n ↦ elim (Bool-cases (list_eq h (zeros 32))) [
      | inl e ↦ rw (n, e) ((tt, tt), inr (eq_of_list_eq h (zeros 32) e, refl))
      | inr f ↦ rw (n, f) ((tt, tt), inl refl)
    ]
  ]

  -- A node under its own reference.
  abbrev IsStored : MptNodeReference → MptNode → Type 0
  IsStored r n = IsCoherent codec n × (reference codec n ≡ r)

  warm-IsStored : (n : MptNode) → IsCoherent codec n → IsStored (reference codec n) (warm codec n)
  warm-IsStored n h = ((warm-IsCoherent codec n h).0, reference-warm codec n h)

  warm-All :
      (ns : List MptNode)
      → All (IsCoherent codec) ns
      → All (λ n. IsStored (reference codec n) (warm codec n)) ns
  warm-All [] h = tt
  warm-All (n ∷ ns) h = (warm-IsStored n h.0, warm-All ns h.1)

  module _ (reader : RlpReader) (from_be_bytes : B256 → ℕ) (fuel : ℕ) where
    resolve_to-Yields :
        (h : B256) (root : MptNode) (nodes : NodeMap)
        → IsCoherent codec root
        → ((r : MptNodeReference) (n : MptNode) → lookup r nodes ≡ some n → IsStored r n)
        → Yields (Unit {0}) (HasRoot h) (resolve_to codec reader fuel h root nodes)
    unfolding resolve_to
    resolve_to-Yields h root nodes c k =
        Yields-bind (Unit {0}) (IsCoherent codec) (HasRoot h)
          (fueled (resolve_nodes fuel (store_of nodes) root)) _
          (Yields-fueled (Unit {0}) (IsCoherent codec) _ (λ e. tt)
            (λ t e.
              (resolve_nodes-hash codec fuel (store_of nodes) root t
                (λ d n q. k (MptNodeReference.digest d) n q) c e).0))
          (λ t ct.
            Yields-if (Unit {0}) (HasRoot h) (list_eq (hash codec t) h) (ok (hashed codec t)) panic
              (λ e.
                let (coherent, same, kept) = hashed-IsCoherent codec t ct in
                (coherent, inl (kept ∙ eq_of_list_eq _ h e)))
              (λ f. tt))

    default-IsCoherent : IsCoherent codec default
    unfolding IsCoherent
    default-IsCoherent = (tt, tt)

    -- Nodes with nothing wrong in a cache, each under its own reference.
    abbrev hashes : Keeping codec reader from_be_bytes fuel
    hashes = record {
      spent = Unit {0};
      proof_ok = λ proof. Unit {0};
      node_ok = IsCoherent codec;
      stored_ok = IsStored;
      trie_ok = HasRoot;
      default_lem = default-IsCoherent;
      parse_proof_lem = λ proof ns h e. parse_proof-All codec reader proof ns e;
      shorten_node_path_lem = λ n ns h e. warm-All ns (shorten_node_path-All codec n ns h e);
      warm_lem = warm-IsStored;
      node_from_digest_lem = node_from_digest-HasRoot;
      resolve_to_lem = resolve_to-Yields;
    }

    any_storage : (ps : List StorageProof) → All (λ q. Unit {0}) ps
    any_storage [] = tt
    any_storage (p ∷ ps) = (tt, any_storage ps)

    any_proofs : (ps : Proofs) → All (λ e. Unit {0} × All (λ q. Unit {0}) (e.1.storage_proof)) ps
    any_proofs [] = tt
    any_proofs (p ∷ ps) = ((tt, any_storage (p.1.storage_proof)), any_proofs ps)

    -- When `proofs_to_tries` returns, the state trie has the given state root, there is one entry for
    -- each account proof, in order, with the slots of its storage proofs, and the trie of the entry
    -- has the storage hash of the proof (for a hash of zero, it may be the empty trie); every cached
    -- reference in these tries is up to date.
    pub proofs_to_tries-HasRoot :
        (state_root : B256) (parent_proofs proofs : Proofs) (state_trie : MptNode)
        (storage : List (Address × StorageEntry))
        → proofs_to_tries codec reader from_be_bytes fuel state_root parent_proofs proofs
          ≡ ok (state_trie, storage)
        → HasRoot state_root state_trie × MatchProofs from_be_bytes HasRoot parent_proofs storage
    proofs_to_tries-HasRoot state_root parent_proofs proofs state_trie storage e =
        subst
          (Yields (Unit {0})
            (λ x. HasRoot state_root x.0 × MatchProofs from_be_bytes HasRoot parent_proofs x.1))
          e
          (proofs_to_tries-Yields codec reader from_be_bytes fuel hashes state_root parent_proofs
            proofs (any_proofs proofs) (any_proofs parent_proofs))
