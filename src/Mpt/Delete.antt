-- ===== src/Mpt/Delete.antt =====
-- Deletion: `delete` and `delete_internal` of primitives/src/mpt.rs.
pub mod Rebuild
pub mod Collapse
pub mod Removed
pub mod Removes
pub mod Cache
use sp1_reth.Prelude.{
  ℕ, zero, suc, true, false, List, [], ◌∷◌, ◌++◌, Option, none, some, Outcome, ok, err, panic,
  ◌>>=◌, list_eq, if◌then◌else◌, strip_prefix,
}
use sp1_reth.Nibbles.{Bytes, to_nibs, to_encoded_path, prefix_nibs}
use sp1_reth.Mpt.Node.{
  Error, node_not_resolved, value_in_branch, MptNode, node, MptNodeData, null, branch, leaf,
  extension, digest, Children, no_children, vacant, child, is_empty,
}
use sp1_reth.Mpt.Insert.{Change, Changed, settle}

-- The occupied slots with their indices, from the index `i` on.
unfoldable pub remaining : ℕ → Children → List (ℕ × MptNode)
remaining i no_children = []
remaining i (vacant cs) = remaining (suc i) cs
remaining i (child n cs) = (i, n) ∷ remaining (suc i) cs

-- What a branch becomes when `orphan`, in slot `index`, is its last child.
unfoldable pub adopt : ℕ → MptNode → Outcome Error MptNodeData
adopt index (node (leaf prefix orphan_value) c) =
    prefix_nibs prefix >>= λ nibs. ok (leaf (to_encoded_path (index ∷ nibs) true) orphan_value)
adopt index (node (extension prefix orphan_child) c) = prefix_nibs prefix >>= λ nibs.
    ok (extension (to_encoded_path (index ∷ nibs) false) orphan_child)
adopt index (node (branch cs) c) =
    ok (extension (to_encoded_path (index ∷ []) false) (node (branch cs) c))
adopt index (node (digest d) c) =
    ok (extension (to_encoded_path (index ∷ []) false) (node (digest d) c))
adopt index (node null c) = panic

-- `remaining.next().unwrap()`, and the conversion where there is no second child.
unfoldable pub collapse : Children → List (ℕ × MptNode) → Outcome Error MptNodeData
unfolding adopt
collapse cs [] = panic
collapse cs ((index, orphan) ∷ []) = adopt index orphan
collapse cs (_ ∷ _ ∷ _) = ok (branch cs)

-- What an extension with the nibbles `self_nibs` becomes over a child that was changed.
unfoldable pub rejoin : Bytes → List ℕ → MptNode → Outcome Error MptNodeData
rejoin prefix self_nibs (node null c) = ok null
rejoin prefix self_nibs (node (leaf path value) c) =
    prefix_nibs path >>= λ nibs. ok (leaf (to_encoded_path (self_nibs ++ nibs) true) value)
rejoin prefix self_nibs (node (extension path n) c) =
    prefix_nibs path >>= λ nibs. ok (extension (to_encoded_path (self_nibs ++ nibs) false) n)
rejoin prefix self_nibs (node (branch cs) c) = ok (extension prefix (node (branch cs) c))
rejoin prefix self_nibs (node (digest d) c) = ok (extension prefix (node (digest d) c))

-- The arm for an extension whose child deletes by `delete_child_key`: `Ok(false)` if its path is no
-- prefix of the key, and otherwise the deletion of the rest of the key below it.
abbrev pub delete_below : Bytes → List ℕ → (List ℕ → Changed) → Option (List ℕ) → Change
delete_below prefix self_nibs delete_child_key none = ok none
delete_below prefix self_nibs delete_child_key (some tail) = delete_child_key tail >>= λ (n', done).
    if done then (rejoin prefix self_nibs n' >>= λ d. ok (some d)) else ok none

unfoldable mutual
  pub delete_internal : MptNode → List ℕ → Changed
  delete_internal (node d c) key_nibs = delete_data d key_nibs >>= settle (node d c)

  -- The `match` on the data; `none` is `return Ok(false)`.
  pub delete_data : MptNodeData → List ℕ → Change
  delete_data null key_nibs = ok none
  delete_data (branch cs) [] = err value_in_branch
  delete_data (branch cs) (i ∷ tail) = delete_child cs i tail >>= λ r. elim r [
    | none ↦ ok none
    | some cs' ↦ collapse cs' (remaining 0 cs') >>= λ d. ok (some d)
  ]
  delete_data (leaf prefix value) key_nibs =
      prefix_nibs prefix >>= λ nibs. ok (if list_eq nibs key_nibs then some null else none)
  delete_data (extension prefix n) key_nibs = prefix_nibs prefix >>= λ self_nibs.
      delete_below prefix self_nibs (delete_internal n) (strip_prefix key_nibs self_nibs)
  delete_data (MptNodeData.digest d) key_nibs = err (node_not_resolved d)

  -- `children[i]`, which panics out of bounds, and the deletion there. A child that is empty
  -- afterwards leaves a vacant slot.
  pub delete_child : Children → ℕ → List ℕ → Outcome Error (Option Children)
  delete_child no_children i tail = panic
  delete_child (vacant cs) zero tail = ok none
  delete_child (child n cs) zero tail = delete_internal n tail >>= λ (n', done).
      ok (if done then some (if is_empty n' then vacant cs else child n' cs) else none)
  delete_child (vacant cs) (suc i) tail =
      delete_child cs i tail >>= λ r. ok (elim r [ none ↦ none | some cs' ↦ some (vacant cs') ])
  delete_child (child n cs) (suc i) tail =
      delete_child cs i tail >>= λ r. ok (elim r [ none ↦ none | some cs' ↦ some (child n cs') ])

unfoldable pub delete : MptNode → Bytes → Changed
delete n key = delete_internal n (to_nibs key)
