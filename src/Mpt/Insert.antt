-- ===== src/Mpt/Insert.antt =====
-- Insertion: `insert` and `insert_internal` of primitives/src/mpt.rs.
pub mod Fork
pub mod Leaf
pub mod Shape
pub mod Cache
pub mod Stores
use sp1_reth.Prelude.{
  ℕ, zero, suc, ◌+◌, Bool, true, false, ◌&&◌, ◌||◌, List, [], ◌∷◌, Option, none, some, Outcome, ok,
  err, panic, ◌>>=◌, ◌==◌, ltb, list_eq, if◌then◌else◌, length, get_or, take, drop,
}
use sp1_reth.Nibbles.{Bytes, to_nibs, to_encoded_path, lcp, prefix_nibs}
use sp1_reth.Mpt.Node.{
  Error, node_not_resolved, value_in_branch, MptNode, node, MptNodeData, null, branch, leaf,
  extension, Children, no_children, vacant, child, vacancies, set_child, from,
}

-- The new data of a node, or `none` where the method returns `Ok(false)` and changes nothing.
abbrev pub Change : Type 0
Change = Outcome Error (Option MptNodeData)

-- A method's result: the node after the call, and the Boolean. An error comes before any write.
abbrev pub Changed : Type 0
Changed = Outcome Error (MptNode × Bool)

-- The end of both methods: a change drops the cached reference and returns `Ok(true)`.
abbrev pub settle : MptNode → Option MptNodeData → Changed
settle self none = ok (self, false)
settle self (some d) = ok (node d none, true)

-- A branch of two children, with an extension above it if the paths share a prefix. The slots are
-- those of the two nibbles behind the common prefix.
unfoldable pub fork : List ℕ → ℕ → MptNode → ℕ → MptNode → Change
fork shared i a j b = set_child (vacancies 16) i a >>= λ one. set_child one j b >>= λ children.
    if ltb 0 (length shared)
    then ok (some (extension (to_encoded_path shared false) (from (branch children))))
    else ok (some (branch children))

-- The arm for a leaf whose path has the nibbles `self_nibs`.
unfoldable pub insert_leaf : Bytes → List ℕ → Bytes → List ℕ → Bytes → Change
insert_leaf prefix self_nibs old_value key_nibs value =
    let common_len = lcp self_nibs key_nibs in
    let split_point = common_len + 1 in
    if common_len == length self_nibs && common_len == length key_nibs
    then (if list_eq old_value value then ok none else ok (some (leaf prefix value)))
    else if common_len == length self_nibs || common_len == length key_nibs
    then err value_in_branch
    else fork (take common_len self_nibs) (get_or self_nibs common_len 0)
        (from (leaf (to_encoded_path (drop split_point self_nibs) true) old_value))
        (get_or key_nibs common_len 0)
        (from (leaf (to_encoded_path (drop split_point key_nibs) true) value))

-- The arm for an extension, where its path is not a prefix of the key.
unfoldable pub insert_beside : List ℕ → MptNode → List ℕ → Bytes → Change
insert_beside self_nibs existing_child key_nibs value =
    let common_len = lcp self_nibs key_nibs in
    let split_point = common_len + 1 in
    if common_len == length key_nibs
    then err value_in_branch
    else fork (take common_len self_nibs) (get_or self_nibs common_len 0)
        (if ltb split_point (length self_nibs)
          then from (extension (to_encoded_path (drop split_point self_nibs) false) existing_child)
          else existing_child)
        (get_or key_nibs common_len 0)
        (from (leaf (to_encoded_path (drop split_point key_nibs) true) value))

unfoldable mutual
  pub insert_internal : MptNode → List ℕ → Bytes → Changed
  insert_internal (node d c) key_nibs value = insert_data d key_nibs value >>= settle (node d c)

  -- The `match` on the data.
  pub insert_data : MptNodeData → List ℕ → Bytes → Change
  insert_data null key_nibs value = ok (some (leaf (to_encoded_path key_nibs true) value))
  insert_data (branch cs) [] value = err value_in_branch
  insert_data (branch cs) (i ∷ tail) value = insert_child cs i tail value >>= λ r.
      ok (elim r [ none ↦ none | some cs' ↦ some (branch cs') ])
  insert_data (leaf prefix old_value) key_nibs value =
      prefix_nibs prefix >>= λ nibs. insert_leaf prefix nibs old_value key_nibs value
  insert_data (extension prefix n) key_nibs value =
      let descend = λ (nibs : List ℕ).
        insert_internal n (drop (lcp nibs key_nibs) key_nibs) value >>= λ (n', done).
        ok (if done then some (extension prefix n') else none) in
      prefix_nibs prefix >>= λ nibs.
      if lcp nibs key_nibs == length nibs then descend nibs else insert_beside nibs n key_nibs value
  insert_data (MptNodeData.digest d) key_nibs value = err (node_not_resolved d)

  -- `children[i]`, which panics out of bounds, and the insertion there. A vacant slot gets a leaf.
  pub insert_child : Children → ℕ → List ℕ → Bytes → Outcome Error (Option Children)
  insert_child no_children i tail value = panic
  insert_child (vacant cs) zero tail value =
      ok (some (child (from (leaf (to_encoded_path tail true) value)) cs))
  insert_child (child n cs) zero tail value =
      insert_internal n tail value >>= λ (n', done). ok (if done then some (child n' cs) else none)
  insert_child (vacant cs) (suc i) tail value = insert_child cs i tail value >>= λ r.
      ok (elim r [ none ↦ none | some cs' ↦ some (vacant cs') ])
  insert_child (child n cs) (suc i) tail value = insert_child cs i tail value >>= λ r.
      ok (elim r [ none ↦ none | some cs' ↦ some (child n cs') ])

-- An empty value panics: the absence of a value stands for no entry.
unfoldable pub insert : MptNode → Bytes → Bytes → Changed
insert n key value = if length value == 0 then panic else insert_internal n (to_nibs key) value

-- `value.to_rlp()` is the parameter `to_rlp`.
unfoldable pub insert_rlp : {A : Type 0} → (A → Bytes) → MptNode → Bytes → A → Changed
insert_rlp to_rlp n key value = insert_internal n (to_nibs key) (to_rlp value)
