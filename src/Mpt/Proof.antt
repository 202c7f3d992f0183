-- ===== src/Mpt/Proof.antt =====
-- Tries from Merkle proofs (primitives/src/mpt.rs: `mpt_from_proof`, `is_not_included`,
-- `resolve_nodes`, `shorten_node_path`, `node_from_digest`). The `Result` of the first two is always
-- `Ok`: what they refuse, they panic on.
pub mod Replaced
pub mod Hash
pub mod Fuel
pub mod Resolve
use sp1_reth.Prelude.{
  ℕ, zero, suc, ◌+◌, Bool, true, false, List, [], ◌∷◌, Option, none, some, Outcome, ok, err, panic,
  ◌>>=◌, list_eq, if◌then◌else◌, length, drop,
}
use sp1_reth.Nibbles.{Bytes, to_encoded_path, prefix_nibs}
use sp1_reth.Mpt.Node.{
  B256, Error, MptNode, node, MptNodeData, null, branch, leaf, extension, MptNodeReference,
  Children, no_children, vacant, child, as_data, from, default,
}
use sp1_reth.Mpt.Codec.{Codec}
use sp1_reth.Mpt.Get.{Lookup, get}
use sp1_reth.Mpt.Reference.{reference, warm, empty_root}

-- `Option::unwrap_or_default`.
abbrev pub unwrap_or_default : Option MptNode → MptNode
unwrap_or_default none = default
unwrap_or_default (some n) = n

-- `matches!(data, Digest(d) if d == child_ref)`.
unfoldable pub is_digest_of : B256 → MptNodeData → Bool
is_digest_of child_ref (MptNodeData.digest d) = list_eq d child_ref
is_digest_of child_ref null = false
is_digest_of child_ref (branch cs) = false
is_digest_of child_ref (leaf p v) = false
is_digest_of child_ref (extension p n) = false

-- The children with the first one that is this digest replaced, if there is one.
unfoldable pub replace_child : B256 → MptNode → Children → Option Children
unfolding is_digest_of
replace_child child_ref replacement no_children = none
replace_child child_ref replacement (vacant cs) = elim (replace_child child_ref replacement cs) [
  | none ↦ none
  | some cs' ↦ some (vacant cs')
]
replace_child child_ref replacement (child n cs) =
    let rest : Option Children = elim (replace_child child_ref replacement cs) [
      | none ↦ none
      | some cs' ↦ some (child n cs')
    ] in
    if is_digest_of child_ref (as_data n) then some (child replacement cs) else rest

-- A node over the successor in the proof, whose hash it names.
unfoldable pub resolve_child : B256 → MptNode → MptNodeData → Outcome Error MptNode
unfolding replace_child
resolve_child child_ref replacement (branch cs) = elim (replace_child child_ref replacement cs) [
  | none ↦ panic
  | some cs' ↦ ok (from (branch cs'))
]
resolve_child child_ref replacement (extension prefix n) =
    if is_digest_of child_ref (as_data n) then ok (from (extension prefix replacement)) else panic
resolve_child child_ref replacement null = panic
resolve_child child_ref replacement (leaf p v) = panic
resolve_child child_ref replacement (MptNodeData.digest d) = panic

unfoldable pub link_by : MptNodeReference → MptNode → MptNodeData → Outcome Error MptNode
unfolding resolve_child
link_by (MptNodeReference.digest child_ref) replacement d = resolve_child child_ref replacement d
link_by (MptNodeReference.bytes bs) replacement d = panic

module _ (codec : Codec) where
  -- One round of the loop, which runs from the last node to the first. Asking for the reference of
  -- the replacement caches it there.
  unfoldable pub link : MptNode → Option MptNode → Outcome Error MptNode
  unfolding link_by
  link n none = ok n
  link n (some replacement) =
      link_by (reference codec replacement) (warm codec replacement) (as_data n)

  unfoldable pub proof_loop : List MptNode → Outcome Error (Option MptNode)
  unfolding link
  proof_loop [] = ok none
  proof_loop (n ∷ rest) = proof_loop rest >>= λ next. link n next >>= λ resolved. ok (some resolved)

  unfoldable pub mpt_from_proof : List MptNode → Outcome Error MptNode
  unfolding proof_loop
  mpt_from_proof nodes = proof_loop nodes >>= λ next. ok (unwrap_or_default next)

-- `unwrap` of a lookup: an error panics.
abbrev pub unwrap_is_none : Lookup → Outcome Error Bool
unwrap_is_none (ok none) = ok true
unwrap_is_none (ok (some value)) = ok false
unwrap_is_none (err e) = panic
unwrap_is_none panic = panic

unfoldable pub is_not_included : Codec → Bytes → List MptNode → Outcome Error Bool
unfolding mpt_from_proof
is_not_included codec key proof_nodes =
    mpt_from_proof codec proof_nodes >>= λ trie. unwrap_is_none (get trie key)

-- The store of `resolve_nodes`: it is asked for digests only.
abbrev pub NodeStore : Type 0
NodeStore = B256 → Option MptNode

-- Rebuilding a node, where `next` resolves what the store has for a digest. `none` is reached only
-- through `next`.
module _ (store : NodeStore) (next : MptNode → Option MptNode) where
  unfoldable mutual
    pub resolve_with : MptNode → Option MptNode
    resolve_with (node null c) = some (node null c)
    resolve_with (node (leaf prefix value) c) = some (node (leaf prefix value) c)
    resolve_with (node (branch cs) c) = elim (resolve_children cs) [
      | none ↦ none
      | some cs' ↦ some (from (branch cs'))
    ]
    resolve_with (node (extension prefix n) c) = elim (resolve_with n) [
      | none ↦ none
      | some n' ↦ some (from (extension prefix n'))
    ]
    resolve_with (node (MptNodeData.digest d) c) = elim (store d) [
      | none ↦ some (node (MptNodeData.digest d) c)
      | some n ↦ next n
    ]

    pub resolve_children : Children → Option Children
    resolve_children no_children = some no_children
    resolve_children (vacant cs) = elim (resolve_children cs) [
      | none ↦ none
      | some cs' ↦ some (vacant cs')
    ]
    resolve_children (child n cs) = elim (resolve_with n) [
      | none ↦ none
      | some n' ↦ elim (resolve_children cs) [ none ↦ none | some cs' ↦ some (child n' cs') ]
    ]

-- The recursion passes through the store at each digest: the fuel counts these passes, and `none`
-- means that they were more. A store with a cycle of digests would keep the program going.
unfoldable pub resolve_nodes : ℕ → NodeStore → MptNode → Option MptNode
unfolding resolve_with
resolve_nodes zero store root = resolve_with store (λ _. none) root
resolve_nodes (suc fuel) store root = resolve_with store (resolve_nodes fuel store) root

-- The nodes for the nibbles from `i` on, for `i` from 0 up to their number.
abbrev pub suffixes : (List ℕ → MptNode) → List ℕ → List MptNode
suffixes f [] = f [] ∷ []
suffixes f (n ∷ ns) = f (n ∷ ns) ∷ suffixes f ns

unfoldable pub shorten_node_path : MptNode → Outcome Error (List MptNode)
shorten_node_path (node null c) = ok []
shorten_node_path (node (branch cs) c) = ok []
shorten_node_path (node (MptNodeData.digest d) c) = ok []
shorten_node_path (node (leaf prefix value) c) = prefix_nibs prefix >>= λ nibs.
    ok (suffixes (λ ns. from (leaf (to_encoded_path ns true) value)) nibs)
shorten_node_path (node (extension prefix n) c) = prefix_nibs prefix >>= λ nibs.
    ok (suffixes (λ ns. from (extension (to_encoded_path ns false) n)) nibs)

-- `B256::ZERO`.
abbrev pub zeros : ℕ → B256
zeros zero = []
zeros (suc n) = 0 ∷ zeros n

unfoldable pub node_from_digest : B256 → MptNode
unfolding empty_root
node_from_digest d =
    if list_eq d empty_root
    then default
    else if list_eq d (zeros 32)
    then default
    else from (MptNodeData.digest d)
