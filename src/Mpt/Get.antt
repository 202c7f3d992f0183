-- ===== src/Mpt/Get.antt =====
-- Lookup: `get` and `get_internal` of primitives/src/mpt.rs.
pub mod Behind
use sp1_reth.Prelude.{
  ℕ, zero, suc, List, [], ◌∷◌, Option, none, some, Outcome, ok, err, panic, ◌>>=◌, list_eq,
  if◌then◌else◌, strip_prefix,
}
use sp1_reth.Nibbles.{Bytes, to_nibs, prefix_nibs}
use sp1_reth.Mpt.Node.{
  Error, node_not_resolved, MptNode, node, MptNodeData, null, branch, leaf, extension, Children,
  no_children, vacant, child,
}

-- What a lookup returns.
abbrev pub Lookup : Type 0
Lookup = Outcome Error (Option Bytes)

-- The rest of a lookup once the nibbles `prefix` are taken off the key.
abbrev pub behind : (List ℕ → Lookup) → Option (List ℕ) → Lookup
behind f none = ok none
behind f (some tail) = f tail

-- The lookup in a leaf with these nibbles.
abbrev pub hit : List ℕ → Bytes → List ℕ → Lookup
hit nibs value key_nibs = if list_eq nibs key_nibs then ok (some value) else ok none

unfoldable mutual
  pub get_internal : MptNode → List ℕ → Lookup
  get_internal (node d c) key_nibs = get_data d key_nibs

  -- The `match` on the data.
  pub get_data : MptNodeData → List ℕ → Lookup
  get_data null key_nibs = ok none
  get_data (branch cs) [] = ok none
  get_data (branch cs) (i ∷ tail) = get_child cs i tail
  get_data (leaf prefix value) key_nibs = prefix_nibs prefix >>= λ nibs. hit nibs value key_nibs
  get_data (extension prefix n) key_nibs =
      prefix_nibs prefix >>= λ nibs. behind (get_internal n) (strip_prefix key_nibs nibs)
  get_data (MptNodeData.digest d) key_nibs = err (node_not_resolved d)

  -- `nodes[i]`, which panics out of bounds, and the lookup there.
  pub get_child : Children → ℕ → List ℕ → Lookup
  get_child no_children i tail = panic
  get_child (vacant cs) zero tail = ok none
  get_child (child n cs) zero tail = get_internal n tail
  get_child (vacant cs) (suc i) tail = get_child cs i tail
  get_child (child n cs) (suc i) tail = get_child cs i tail

unfoldable pub get : MptNode → Bytes → Lookup
get n key = get_internal n (to_nibs key)
