-- ===== src/Mpt/Canonical.antt =====
-- The shape that the methods of `MptNode` keep and rely on.
use sp1_reth.Prelude.{◌≤◌, ◌≡◌, refl, Bool, true, false}
use sp1_reth.Nibbles.RoundTrip.{IsPath, IsShared}
use sp1_reth.Mpt.Node.{
  MptNode, node, MptNodeData, null, branch, leaf, extension, digest, Children, no_children, vacant,
  child, is_empty, as_data, capacity, occupied,
}

-- Only a branch or an unresolved node stands below an extension.
abbrev pub is_branching_data : MptNodeData → Bool
is_branching_data (branch cs) = true
is_branching_data (digest d) = true
is_branching_data _ = false

abbrev pub is_branching : MptNode → Bool
is_branching n = is_branching_data (as_data n)

unfoldable mutual
  pub IsCanonical : MptNode → Type 0
  IsCanonical (node d c) = IsCanonicalData d

  -- A branch has 16 slots, and two of them are occupied.
  pub IsCanonicalData : MptNodeData → Type 0
  IsCanonicalData null = Unit
  IsCanonicalData (branch cs) = (capacity cs ≡ 16) × (2 ≤ occupied cs) × AreCanonical cs
  IsCanonicalData (leaf prefix value) = IsPath prefix
  IsCanonicalData (extension prefix n) =
      IsPath prefix × IsShared prefix × (is_branching n ≡ true) × IsCanonical n
  IsCanonicalData (digest d) = Unit

  -- No child is empty.
  pub AreCanonical : Children → Type 0
  AreCanonical no_children = Unit
  AreCanonical (vacant cs) = AreCanonical cs
  AreCanonical (child n cs) = (is_empty n ≡ false) × IsCanonical n × AreCanonical cs

pub branching-not_empty : (n : MptNode) → is_branching n ≡ true → is_empty n ≡ false
branching-not_empty (node null c) h = cc
branching-not_empty (node (branch cs) c) h = refl
branching-not_empty (node (leaf p v) c) h = refl
branching-not_empty (node (extension p n) c) h = refl
branching-not_empty (node (digest d) c) h = refl
