-- ===== src/Mpt/Node.antt =====
-- `MptNode`, `MptNodeData`, `MptNodeReference` and `Error` of primitives/src/mpt.rs. The array
-- `[Option<Box<MptNode>>; 16]` is the list `Children`, whose length `IsCanonical` fixes.
use sp1_reth.Prelude.{ℕ, zero, suc, Bool, true, false, Option, none, Outcome, ok, panic, ◌>>=◌}
use sp1_reth.Nibbles.{Bytes}

-- A 256-bit hash, as its bytes.
abbrev pub B256 : Type 0
B256 = Bytes

-- The payloads of the two RLP errors are texts of the libraries that raise them.
pub data Error : Type 0 where
  node_not_resolved : B256 → Error
  value_in_branch : Error
  rlp : Error
  legacy_rlp : Error

pub data MptNodeReference : Type 0 where
  bytes : Bytes → MptNodeReference
  digest : B256 → MptNodeReference

mutual
  -- The data, and the cached reference.
  pub data MptNode : Type 0 where
    node : MptNodeData → Option MptNodeReference → MptNode

  pub data MptNodeData : Type 0 where
    null : MptNodeData
    branch : Children → MptNodeData
    leaf : Bytes → Bytes → MptNodeData
    extension : Bytes → MptNode → MptNodeData
    digest : B256 → MptNodeData

  -- `vacant` is a slot that holds `None`.
  pub data Children : Type 0 where
    no_children : Children
    vacant : Children → Children
    child : MptNode → Children → Children

-- `From<MptNodeData>`: nothing is cached.
abbrev pub from : MptNodeData → MptNode
from value = node value none

abbrev pub as_data : MptNode → MptNodeData
as_data (node d c) = d

-- `MptNode::default()`.
abbrev pub default : MptNode
default = node null none

-- `clear` empties the trie and forgets the cached reference.
unfoldable pub clear : MptNode → MptNode
clear (node d c) = node null none

-- The tests `matches!(&self.data, …)`.
abbrev pub is_null_data : MptNodeData → Bool
is_null_data null = true
is_null_data _ = false

abbrev pub is_digest_data : MptNodeData → Bool
is_digest_data (digest d) = true
is_digest_data _ = false

abbrev pub is_empty : MptNode → Bool
is_empty n = is_null_data (as_data n)

abbrev pub is_digest : MptNode → Bool
is_digest n = is_digest_data (as_data n)

-- `Default::default()` of the array of children.
abbrev pub vacancies : ℕ → Children
vacancies zero = no_children
vacancies (suc n) = vacant (vacancies n)

abbrev pub capacity : Children → ℕ
capacity no_children = 0
capacity (vacant cs) = suc (capacity cs)
capacity (child n cs) = suc (capacity cs)

-- The number of occupied slots.
abbrev pub occupied : Children → ℕ
occupied no_children = 0
occupied (vacant cs) = occupied cs
occupied (child n cs) = suc (occupied cs)

-- `children[i] = Some(node)`, which panics out of bounds.
unfoldable pub set_child : Children → ℕ → MptNode → Outcome Error Children
set_child no_children i n = panic
set_child (vacant cs) zero n = ok (child n cs)
set_child (child m cs) zero n = ok (child n cs)
set_child (vacant cs) (suc i) n = set_child cs i n >>= λ cs'. ok (vacant cs')
set_child (child m cs) (suc i) n = set_child cs i n >>= λ cs'. ok (child m cs')
