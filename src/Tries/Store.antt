-- ===== src/Tries/Store.antt =====
-- The hash map of nodes by their references, of `proofs_to_tries` (primitives/src/mpt.rs).
use sp1_reth.Prelude.{◌≡◌, ◌↔◌, ap, Bool, true, false, List, list_eq, list_eq_iff, Keys, lookup}
use sp1_reth.Mpt.Node.{MptNode, MptNodeReference}
use sp1_reth.Mpt.Proof.{NodeStore}

-- The derived equality of `MptNodeReference`.
abbrev pub reference_eq : MptNodeReference → MptNodeReference → Bool
reference_eq (MptNodeReference.bytes a) (MptNodeReference.bytes b) = list_eq a b
reference_eq (MptNodeReference.bytes a) (MptNodeReference.digest e) = false
reference_eq (MptNodeReference.digest d) (MptNodeReference.bytes b) = false
reference_eq (MptNodeReference.digest d) (MptNodeReference.digest e) = list_eq d e

pub reference_eq_iff : (r s : MptNodeReference) → (reference_eq r s ≡ true) ↔ (r ≡ s)
reference_eq_iff (MptNodeReference.bytes a) (MptNodeReference.bytes b) =
    (λ e. ap MptNodeReference.bytes ((list_eq_iff a b).0 e), λ e. (list_eq_iff a b).1 (cc))
reference_eq_iff (MptNodeReference.bytes a) (MptNodeReference.digest e) = (λ q. cc, λ q. cc)
reference_eq_iff (MptNodeReference.digest d) (MptNodeReference.bytes b) = (λ q. cc, λ q. cc)
reference_eq_iff (MptNodeReference.digest d) (MptNodeReference.digest e) =
    (λ q. ap MptNodeReference.digest ((list_eq_iff d e).0 q), λ q. (list_eq_iff d e).1 (cc))

instance unfoldable pub reference_keys : Keys MptNodeReference
reference_keys = record { same = reference_eq; same_iff = reference_eq_iff }

abbrev pub NodeMap : Type 0
NodeMap = List (MptNodeReference × MptNode)

-- What `resolve_nodes` looks up.
abbrev pub store_of : NodeMap → NodeStore
store_of nodes d = lookup (MptNodeReference.digest d) nodes
