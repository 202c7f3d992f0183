-- ===== src/Mpt/Proof/Fuel.antt =====
-- That `resolve_nodes` (primitives/src/mpt.rs) returns on a store without a cycle of digests.
use sp1_reth.Prelude.{
  ℕ, zero, suc, ◌≤◌, ◌<◌, ◌≡◌, ◌≢◌, Option, none, some, arith, Option-cases, inl, inr,
}
use sp1_reth.Mpt.Node.{
  B256, MptNode, node, MptNodeData, null, branch, leaf, extension, Children, no_children, vacant,
  child,
}
use sp1_reth.Mpt.Proof.{NodeStore, resolve_with, resolve_children, resolve_nodes}

-- Every digest in the trie has a rank below `k`.
module _ (rank : B256 → ℕ) where
  unfoldable mutual
    pub IsRanked : ℕ → MptNode → Type 0
    IsRanked k (node null c) = Unit
    IsRanked k (node (branch cs) c) = AreRanked k cs
    IsRanked k (node (leaf p v) c) = Unit
    IsRanked k (node (extension p n) c) = IsRanked k n
    IsRanked k (node (MptNodeData.digest d) c) = rank d < k

    pub AreRanked : ℕ → Children → Type 0
    AreRanked k no_children = Unit
    AreRanked k (vacant cs) = AreRanked k cs
    AreRanked k (child n cs) = IsRanked k n × AreRanked k cs

  -- What the store has for a digest holds digests of a lower rank only.
  abbrev pub IsAcyclic : NodeStore → Type 0
  IsAcyclic store = (d : B256) (n : MptNode) → store d ≡ some n → IsRanked (rank d) n

  mutual
    unfolding resolve_with IsRanked

    resolve_with-total :
        (store : NodeStore) (next : MptNode → Option MptNode) (k : ℕ)
        → ((d : B256) (n : MptNode) → rank d < k → store d ≡ some n → next n ≢ none)
        → (n : MptNode) → IsRanked k n
        → resolve_with store next n ≢ none
    resolve_with-total store next k f (node null c) h = cc
    resolve_with-total store next k f (node (leaf p v) c) h = cc
    resolve_with-total store next k f (node (branch cs) c) h =
        ground (arith, resolve_children-total store next k f cs h)
    resolve_with-total store next k f (node (extension p n) c) h =
        ground (arith, resolve_with-total store next k f n h)
    resolve_with-total store next k f (node (MptNodeData.digest d) c) h =
        elim (Option-cases (store d)) [
          | inl missing ↦ rw (missing, resolve_with) (cc)
          | inr (n, found) ↦ rw (found, resolve_with) (f d n h found)
        ]

    resolve_children-total :
        (store : NodeStore) (next : MptNode → Option MptNode) (k : ℕ)
        → ((d : B256) (n : MptNode) → rank d < k → store d ≡ some n → next n ≢ none)
        → (cs : Children) → AreRanked k cs
        → resolve_children store next cs ≢ none
    resolve_children-total store next k f no_children h = cc
    resolve_children-total store next k f (vacant cs) h =
        ground (arith, resolve_children-total store next k f cs h)
    resolve_children-total store next k f (child n cs) h = ground (
      arith,
      resolve_with-total store next k f n h.0,
      resolve_children-total store next k f cs h.1,
    )

  mutual
    unfolding IsRanked

    IsRanked-mono : (k l : ℕ) (n : MptNode) → k ≤ l → IsRanked k n → IsRanked l n
    IsRanked-mono k l (node null c) b h = tt
    IsRanked-mono k l (node (branch cs) c) b h = AreRanked-mono k l cs b h
    IsRanked-mono k l (node (leaf p v) c) b h = tt
    IsRanked-mono k l (node (extension p n) c) b h = IsRanked-mono k l n b h
    IsRanked-mono k l (node (MptNodeData.digest d) c) b h = omega arith

    AreRanked-mono : (k l : ℕ) (cs : Children) → k ≤ l → AreRanked k cs → AreRanked l cs
    AreRanked-mono k l no_children b h = tt
    AreRanked-mono k l (vacant cs) b h = AreRanked-mono k l cs b h
    AreRanked-mono k l (child n cs) b h = (IsRanked-mono k l n b h.0, AreRanked-mono k l cs b h.1)

  -- On a store whose digests have ranks that fall from each node to the digests in it, fuel above
  -- the ranks in the trie is enough: `resolve_nodes` returns.
  pub resolve_nodes-total :
      (fuel : ℕ) (store : NodeStore) (root : MptNode)
      → IsAcyclic store
      → IsRanked fuel root
      → resolve_nodes fuel store root ≢ none
  unfolding resolve_nodes
  resolve_nodes-total zero store root a h =
      resolve_with-total store (λ _. none) 0 (λ d n b e. absurd (omega arith)) root h
  resolve_nodes-total (suc fuel) store root a h =
      resolve_with-total store (resolve_nodes fuel store) (suc fuel)
        (λ d n b e.
          resolve_nodes-total fuel store n a
            (IsRanked-mono (rank d) fuel n (omega arith) (a d n e)))
        root h
