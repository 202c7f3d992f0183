-- ===== src/Mpt/Tests/Refs.antt =====
-- Runs with references, proofs and stores (primitives/src/mpt.rs), on a small stand-in for the hash
-- and the encodings, and uses of the theorems there.
use sp1_reth.Mpt.Delete.{delete, delete_internal, collapse, remaining, rejoin}
use sp1_reth.Mpt.Insert.{insert, insert_internal, insert_leaf, fork}
use sp1_reth.Prelude.{
  ℕ, ◌≡◌, ◌≢◌, refl, sym, subst, List, [], ◌∷◌, none, some, ok, arith, length, list_eq,
  eq_of_list_eq, if◌then◌else◌, Bool-cases, inl, inr,
}
use sp1_reth.Nibbles.{prefix_nibs, to_encoded_path, lcp}
use sp1_reth.Mpt.Node.{
  B256, MptNode, MptNodeData, branch, leaf, MptNodeReference, child, vacancies, from, default,
  set_child,
}
use sp1_reth.Mpt.Reference.{hash, warm, hashed, reference, encode, encoded_length}
use sp1_reth.Mpt.Reference.Coherent.{IsCoherent, erase, warm-IsCoherent}
use sp1_reth.Mpt.Reference.Length.{IsSized, IsSizedData, length-encode}
use sp1_reth.Mpt.Map.Caching.{Call, put, remove, read, rehash, run_calls, run_calls-IsCoherent}
use sp1_reth.Mpt.Proof.{NodeStore, mpt_from_proof, resolve_nodes, zeros}
use sp1_reth.Mpt.Proof.Hash.{mpt_from_proof-hash}
use sp1_reth.Mpt.Proof.Fuel.{IsRanked, IsAcyclic, resolve_nodes-total}
use sp1_reth.Mpt.Proof.Resolve.{IsSound, resolve_nodes-hash}
use sp1_reth.Mpt.Tests.Rlp.{codec, digest_for}
use sp1_reth.Mpt.Tests.{key_a, key_b, value_a, value_b, one, two, end_a}

warm_two-IsCoherent : IsCoherent codec two
unfolding IsCoherent
warm_two-IsCoherent = (tt, (tt, ((tt, tt), ((tt, tt), tt))))

warm-IsCoherent_example :
    IsCoherent codec (warm codec two)
    × (erase (warm codec two) ≡ erase two)
    × (hash codec (warm codec two) ≡ hash codec two)
warm-IsCoherent_example = warm-IsCoherent codec two warm_two-IsCoherent

default-IsCoherent : IsCoherent codec default
unfolding IsCoherent
default-IsCoherent = (tt, tt)

abbrev calls : List Call
calls = put key_a value_a ∷ read ∷ put key_b value_b ∷ rehash ∷ remove key_b ∷ []

calls_run : run_calls codec calls default ≡ ok one
unfolding run_calls insert insert_internal warm hashed prefix_nibs to_encoded_path insert_leaf lcp
    fork set_child delete delete_internal collapse remaining rejoin
calls_run = refl

run_calls-IsCoherent_example : IsCoherent codec one × (hash codec one ≡ hash codec (erase one))
run_calls-IsCoherent_example =
    run_calls-IsCoherent codec calls default one default-IsCoherent calls_run

-- A leaf whose encoding is too long to stand in its parent, and a branch that has it by its digest.
abbrev long : MptNode
long = from (leaf (0x20 ∷ []) (zeros 40))

abbrev long_digest : B256
long_digest = digest_for 44

abbrev root : MptNode
root = from (branch (child (from (MptNodeData.digest long_digest)) (child end_a (vacancies 14))))

abbrev whole : MptNode
whole = from (branch (child (warm codec long) (child end_a (vacancies 14))))

sized : IsSizedData (branch (child long (child end_a (vacancies 14))))
unfolding IsSized
sized = ((tt, tt), ((tt, tt), tt))

length-encode_example :
    length (encode codec (branch (child long (child end_a (vacancies 14))))) ≡ 54
unfolding encoded_length encode
length-encode_example = length-encode codec (branch (child long (child end_a (vacancies 14)))) sized

proof_run : mpt_from_proof codec (root ∷ long ∷ []) ≡ ok whole
unfolding mpt_from_proof reference
proof_run = refl

root-IsCoherent : IsCoherent codec root
unfolding IsCoherent
root-IsCoherent = (tt, ((tt, tt), ((tt, tt), tt)))

long-IsCoherent : IsCoherent codec long
unfolding IsCoherent
long-IsCoherent = (tt, tt)

mpt_from_proof-hash_example : IsCoherent codec whole × (hash codec whole ≡ hash codec root)
mpt_from_proof-hash_example =
    mpt_from_proof-hash codec root (long ∷ []) whole (root-IsCoherent, (long-IsCoherent, tt))
      proof_run

abbrev store : NodeStore
store d = if list_eq d long_digest then some long else none

store_known : (d : B256) (n : MptNode) → store d ≡ some n → (d ≡ long_digest) × (long ≡ n)
store_known d n e = elim (Bool-cases (list_eq d long_digest)) [
  | inl t ↦ (eq_of_list_eq _ _ t, ground arith)
  | inr f ↦ ground arith
]

referenced_long : reference codec long ≡ MptNodeReference.digest long_digest
unfolding reference
referenced_long = refl

store-IsSound : IsSound codec store
store-IsSound d n e =
    let (same, here) = store_known d n e in
    subst (λ m. IsCoherent codec m × (reference codec m ≡ MptNodeReference.digest d)) here
      (
        long-IsCoherent,
        subst (λ x. reference codec long ≡ MptNodeReference.digest x) (sym same) referenced_long,
      )

-- Every digest has rank 0, since nothing in the store has a digest in it.
abbrev rank : B256 → ℕ
rank d = 0

store-IsAcyclic : IsAcyclic rank store
unfolding IsRanked
store-IsAcyclic d n e = subst (λ m. IsRanked rank 0 m) (store_known d n e).1 tt

root-IsRanked : IsRanked rank 1 root
unfolding IsRanked
root-IsRanked = ((omega arith), (tt, tt))

abbrev resolved : MptNode
resolved = from (branch (child long (child end_a (vacancies 14))))

resolve_run : resolve_nodes 1 store root ≡ some resolved
unfolding resolve_nodes
resolve_run = refl

resolve_nodes-total_example : resolve_nodes 1 store root ≢ none
resolve_nodes-total_example = resolve_nodes-total rank 1 store root store-IsAcyclic root-IsRanked

resolve_nodes-hash_example : IsCoherent codec resolved × (hash codec resolved ≡ hash codec root)
resolve_nodes-hash_example =
    resolve_nodes-hash codec 1 store root resolved store-IsSound root-IsCoherent resolve_run
