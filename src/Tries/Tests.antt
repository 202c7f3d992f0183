-- ===== src/Tries/Tests.antt =====
-- Runs of `proofs_to_tries` (primitives/src/mpt.rs), and uses of the theorems there.
use sp1_reth.Tries.Store.{reference_keys}
use sp1_reth.Mpt.Get.{get, get_internal}
use sp1_reth.Db.{bytes_keys}
use sp1_reth.Prelude.{
  ℕ, ◌≡◌, ◌≢◌, refl, subst, List, [], ◌∷◌, ok, err, arith, list_eq, if◌then◌else◌, All, ok_unique,
}
use sp1_reth.Nibbles.{Bytes, prefix_nibs, to_encoded_path}
use sp1_reth.Mpt.Node.{
  B256, MptNode, MptNodeData, branch, leaf, MptNodeReference, child, vacancies, from, as_data,
}
use sp1_reth.Mpt.Reference.{encode, reference, hash, warm, hashed}
use sp1_reth.Mpt.Proof.{zeros, shorten_node_path}
use sp1_reth.Mpt.Proof.Fuel.{IsRanked}
use sp1_reth.Mpt.Decode.{out_of_fuel, parse_proof}
use sp1_reth.Mpt.Tests.Rlp.{codec, reader, digest_for}
use sp1_reth.Block.{Address, StorageEntry}
use sp1_reth.Tries.{AccountProof, Proofs, proofs_to_tries}
use sp1_reth.Tries.Accounts.{MatchProofs}
use sp1_reth.Tries.Hash.{HasRoot, proofs_to_tries-HasRoot}
use sp1_reth.Tries.Fuel.{
  IsPlaced, IsRankedNode, IsRankedProof, AreRankedProofs, proofs_to_tries-total,
}

abbrev pub long : MptNode
long = from (leaf (0x20 ∷ []) (zeros 40))

abbrev pub short : MptNode
short = from (leaf (0x20 ∷ []) (7 ∷ []))

abbrev pub forked : MptNode
forked =
    from (branch (child (from (MptNodeData.digest (digest_for 44))) (child short (vacancies 14))))

-- What resolving the digest gives.
abbrev whole : MptNode
whole = from (branch (child (warm codec long) (child short (vacancies 14))))

abbrev pub slot_proof : List Bytes
slot_proof = encode codec (as_data forked) ∷ encode codec (as_data long) ∷ []

abbrev pub account : AccountProof
account = record {
  account_proof = encode codec (as_data long) ∷ [];
  storage_hash = hash codec forked;
  storage_proof = record { key = zeros 32; proof = slot_proof } ∷ [];
}

abbrev address : Address
address = 5 ∷ []

abbrev proofs : Proofs
proofs = (address, account) ∷ []

abbrev as_number : B256 → ℕ
as_number bs = 6

abbrev entries : List (Address × StorageEntry)
entries = (address, (hashed codec whole, 6 ∷ [])) ∷ []

tries_run :
    proofs_to_tries codec reader as_number 1 (digest_for 44) proofs proofs
    ≡ ok (hashed codec long, entries)
unfolding proofs_to_tries encode bytes_keys get get_internal prefix_nibs shorten_node_path
    reference_keys to_encoded_path warm hashed
tries_run = refl

proofs_to_tries-HasRoot_example :
    HasRoot codec (digest_for 44) (hashed codec long)
    × MatchProofs as_number (HasRoot codec) proofs entries
proofs_to_tries-HasRoot_example =
    proofs_to_tries-HasRoot codec reader as_number 1 (digest_for 44) proofs proofs
      (hashed codec long) entries tries_run

-- The digest in the branch is below all others.
abbrev rank : B256 → ℕ
rank d = if list_eq d (digest_for 44) then 0 else 1

long_shortened : shorten_node_path long ≡ ok (long ∷ [])
unfolding shorten_node_path prefix_nibs to_encoded_path
long_shortened = refl

forked-reference : reference codec forked ≡ MptNodeReference.digest (digest_for 54)
unfolding reference
forked-reference = refl

digest_of_forked :
    (d : B256) → reference codec forked ≡ MptNodeReference.digest d → digest_for 54 ≡ d
digest_of_forked d e = cc forked-reference

slot_proof_parsed : parse_proof reader slot_proof ≡ ok (forked ∷ long ∷ [])
unfolding parse_proof encode
slot_proof_parsed = refl

account_proof_parsed : parse_proof reader account.account_proof ≡ ok (long ∷ [])
unfolding parse_proof encode
account_proof_parsed = refl

long-IsRankedNode : IsRankedNode codec rank 1 long
unfolding IsRanked
long-IsRankedNode = (
  tt,
  (λ d e. tt),
  λ ns e. subst (All (IsPlaced codec rank)) (ok_unique _ long_shortened e) ((λ d q. tt), tt),
)

forked-IsRankedNode : IsRankedNode codec rank 1 forked
unfolding IsRanked shorten_node_path
forked-IsRankedNode =
    let inside : IsRanked rank 1 forked = ((omega arith), (tt, tt)) in
    let placed : IsPlaced codec rank forked =
      λ d e. subst (λ x. IsRanked rank (rank x) forked) (digest_of_forked d e) inside in
    (inside, placed, λ ns e. let same : [] ≡ ns = cc in subst (All (IsPlaced codec rank)) same tt)

slot_proof-IsRankedProof : IsRankedProof codec rank reader as_number 1 slot_proof
slot_proof-IsRankedProof ns e =
    subst (All (IsRankedNode codec rank 1)) (ok_unique _ slot_proof_parsed e)
      (forked-IsRankedNode, (long-IsRankedNode, tt))

account_proof-IsRankedProof : IsRankedProof codec rank reader as_number 1 account.account_proof
account_proof-IsRankedProof ns e =
    subst (All (IsRankedNode codec rank 1)) (ok_unique _ account_proof_parsed e)
      (long-IsRankedNode, tt)

proofs-AreRankedProofs : AreRankedProofs codec rank reader as_number 1 proofs
proofs-AreRankedProofs = ((account_proof-IsRankedProof, (slot_proof-IsRankedProof, tt)), tt)

proofs_to_tries-total_example :
    proofs_to_tries codec reader as_number 1 (digest_for 44) proofs proofs ≢ err out_of_fuel
proofs_to_tries-total_example =
    proofs_to_tries-total codec rank reader as_number 1 (digest_for 44) proofs proofs
      proofs-AreRankedProofs proofs-AreRankedProofs
