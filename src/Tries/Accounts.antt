-- ===== src/Tries/Accounts.antt =====
-- The accounts of `proofs_to_tries` (primitives/src/mpt.rs), for whatever is to be kept on the way.
use sp1_reth.Prelude.{
  ℕ, ◌≡◌, inl, inr, refl, subst, true, List, [], ◌∷◌, some, ok, ◌>>=◌, arith, map, All, Bool-cases,
  lookup,
}
use sp1_reth.Mpt.Node.{B256, MptNode}
use sp1_reth.Mpt.Codec.{Codec}
use sp1_reth.Mpt.Proof.{node_from_digest}
use sp1_reth.Mpt.Decode.{RlpReader}
use sp1_reth.Block.{Address, StorageEntry}
use sp1_reth.Db.{bytes_keys}
use sp1_reth.Tries.Store.{reference_keys}
use sp1_reth.Tries.{
  StorageProof, AccountProof, Proofs, Gathered, nothing_gathered, resolve_to, storage_entry,
  add_account, add_accounts, proofs_to_tries, is_nil,
}
use sp1_reth.Mpt.Decode.Yields.{Yields, Yields-bind, Yields-if}
use sp1_reth.Tries.Yields.{Yields-present}
use sp1_reth.Tries.Gathers.{
  Keeping, Indexed, IsGathered, gather-Yields, add_orphaned_leafs-Yields, gather_storage-Yields,
  add_orphaned_slots-Yields,
}

lookup-All :
    (P : AccountProof → Type 0) (address : Address) (proofs : Proofs) (p : AccountProof)
    → All (λ e. P e.1) proofs
    → lookup address proofs ≡ some p
    → P p
lookup-All P address [] p h e = cc
lookup-All P address ((a, q) ∷ proofs) p h e = elim (Bool-cases (bytes_keys.same a address)) [
  | inl t ↦ let same : q ≡ p = ground arith in subst P same h.0
  | inr f ↦ lookup-All P address proofs p h.1 (ground arith)
]

module _ (from_be_bytes : B256 → ℕ) (trie_ok : B256 → MptNode → Type 0) where
  -- The entry of an account: the slots of its proof, and a trie for its storage hash.
  abbrev pub IsEntry : AccountProof → StorageEntry → Type 0
  IsEntry proof entry =
      (entry.1 ≡ map (λ p. from_be_bytes p.key) proof.storage_proof)
      × trie_ok proof.storage_hash entry.0

  -- One entry for each account, in order.
  abbrev pub MatchProofs : Proofs → List (Address × StorageEntry) → Type 0
  MatchProofs [] [] = Unit
  MatchProofs [] (e ∷ es) = ⊥
  MatchProofs (p ∷ ps) [] = ⊥
  MatchProofs ((address, proof) ∷ ps) ((address', entry) ∷ es) =
      (address' ≡ address) × IsEntry proof entry × MatchProofs ps es

module _ (codec : Codec) (reader : RlpReader) (from_be_bytes : B256 → ℕ) (fuel : ℕ)
    (keeping : Keeping codec reader from_be_bytes fuel) where
  open keeping use {
    spent, proof_ok, node_ok, stored_ok, trie_ok, default_lem, parse_proof_lem,
    shorten_node_path_lem, warm_lem, node_from_digest_lem, resolve_to_lem,
  }

  -- Of both sets of proofs.
  abbrev pub AccountOk : AccountProof → Type 0
  AccountOk p = proof_ok p.account_proof × All (λ q. proof_ok q.proof) p.storage_proof

  abbrev pub ProofsOk : Proofs → Type 0
  ProofsOk proofs = All (λ e. AccountOk e.1) proofs

  no_slots : (ps : List StorageProof) → is_nil ps ≡ true → [] ≡ map (λ p. from_be_bytes p.key) ps
  no_slots [] h = refl
  no_slots (p ∷ ps) h = cc

  nothing_gathered_ok : (IsGathered codec reader from_be_bytes fuel keeping) nothing_gathered
  nothing_gathered_ok = (default_lem, λ r n e. cc)

  storage_entry-Yields :
      (proof fini_proofs : AccountProof)
      → AccountOk proof
      → AccountOk fini_proofs
      → Yields spent
          (IsEntry from_be_bytes trie_ok proof)
          (storage_entry codec reader from_be_bytes fuel proof fini_proofs)
  unfolding storage_entry
  storage_entry-Yields proof fini_proofs p q =
      Yields-if spent (IsEntry from_be_bytes trie_ok proof) (is_nil proof.storage_proof)
        (ok (node_from_digest proof.storage_hash, [])) _
        (λ e. (no_slots proof.storage_proof e, node_from_digest_lem proof.storage_hash))
        (λ f.
          Yields-bind spent (IsGathered codec reader from_be_bytes fuel keeping)
            (IsEntry from_be_bytes trie_ok proof) _ _
            ((gather_storage-Yields codec reader from_be_bytes fuel keeping) proof.storage_proof
              nothing_gathered p.1 nothing_gathered_ok)
            (λ g kg.
              Yields-bind spent (Indexed codec reader from_be_bytes fuel keeping)
                (IsEntry from_be_bytes trie_ok proof) _ _
                ((add_orphaned_slots-Yields codec reader from_be_bytes fuel keeping)
                  fini_proofs.storage_proof g.nodes q.1 kg.1)
                (λ nodes kn.
                  Yields-bind spent (trie_ok proof.storage_hash)
                    (IsEntry from_be_bytes trie_ok proof) _ _
                    (resolve_to_lem proof.storage_hash g.root nodes kg.0 kn) (λ t kt. (refl, kt)))))

  add_account-Yields :
      (proofs : Proofs) (address : Address) (proof : AccountProof) (g : Gathered)
      → ProofsOk proofs
      → AccountOk proof
      → (IsGathered codec reader from_be_bytes fuel keeping) g
      → Yields spent
          (λ x.
            IsEntry from_be_bytes trie_ok proof x.0
            × (IsGathered codec reader from_be_bytes fuel keeping) x.1)
          (add_account codec reader from_be_bytes fuel proofs address proof g)
  unfolding add_account
  add_account-Yields proofs address proof g q p h =
      let Q : StorageEntry × Gathered → Type 0 = λ x.
        IsEntry from_be_bytes trie_ok proof x.0
        × (IsGathered codec reader from_be_bytes fuel keeping) x.1 in
      Yields-bind spent (IsGathered codec reader from_be_bytes fuel keeping) Q _ _
        ((gather-Yields codec reader from_be_bytes fuel keeping) proof.account_proof g p.0 h)
        (λ g' kg.
          Yields-bind spent AccountOk Q _ _
            (Yields-present spent _ (lookup address proofs)
              (λ f. lookup-All AccountOk address proofs f q))
            (λ fini kf.
              Yields-bind spent (Indexed codec reader from_be_bytes fuel keeping) Q _ _
                ((add_orphaned_leafs-Yields codec reader from_be_bytes fuel keeping) address
                  fini.account_proof g'.nodes kf.0 kg.1)
                (λ nodes kn.
                  Yields-bind spent (IsEntry from_be_bytes trie_ok proof) Q _ _
                    (storage_entry-Yields proof fini p kf) (λ entry ke. (ke, (kg.0, kn))))))

  add_accounts-Yields :
      (proofs parent_proofs : Proofs) (g : Gathered)
      → ProofsOk proofs
      → ProofsOk parent_proofs
      → (IsGathered codec reader from_be_bytes fuel keeping) g
      → Yields spent
          (λ x.
            MatchProofs from_be_bytes trie_ok parent_proofs x.0
            × (IsGathered codec reader from_be_bytes fuel keeping) x.1)
          (add_accounts codec reader from_be_bytes fuel proofs parent_proofs g)
  unfolding add_accounts
  add_accounts-Yields proofs [] g q p h = (tt, h)
  add_accounts-Yields proofs ((address, proof) ∷ rest) g q p h =
      let Q : List (Address × StorageEntry) × Gathered → Type 0 = λ x.
        MatchProofs from_be_bytes trie_ok ((address, proof) ∷ rest) x.0
        × (IsGathered codec reader from_be_bytes fuel keeping) x.1 in
      Yields-bind spent
        (λ x.
          IsEntry from_be_bytes trie_ok proof x.0
          × (IsGathered codec reader from_be_bytes fuel keeping) x.1)
        Q (add_account codec reader from_be_bytes fuel proofs address proof g)
        (λ x. add_accounts codec reader from_be_bytes fuel proofs rest x.1 >>= λ y.
          ok ((address, x.0) ∷ y.0, y.1))
        (add_account-Yields proofs address proof g q p.0 h)
        (λ x k.
          Yields-bind spent
            (λ y.
              MatchProofs from_be_bytes trie_ok rest y.0
              × (IsGathered codec reader from_be_bytes fuel keeping) y.1)
            Q (add_accounts codec reader from_be_bytes fuel proofs rest x.1)
            (λ y. ok ((address, x.0) ∷ y.0, y.1)) (add_accounts-Yields proofs rest x.1 q p.1 k.1)
            (λ y l. ((refl, k.0, l.0), l.1)))

  pub proofs_to_tries-Yields :
      (state_root : B256) (parent_proofs proofs : Proofs)
      → ProofsOk proofs
      → ProofsOk parent_proofs
      → Yields spent
          (λ x. trie_ok state_root x.0 × MatchProofs from_be_bytes trie_ok parent_proofs x.1)
          (proofs_to_tries codec reader from_be_bytes fuel state_root parent_proofs proofs)
  unfolding proofs_to_tries
  proofs_to_tries-Yields state_root [] proofs q p = (node_from_digest_lem state_root, tt)
  proofs_to_tries-Yields state_root (e ∷ ps) proofs q p =
      let Q : MptNode × List (Address × StorageEntry) → Type 0 =
        λ x. trie_ok state_root x.0 × MatchProofs from_be_bytes trie_ok (e ∷ ps) x.1 in
      Yields-bind spent
        (λ y.
          MatchProofs from_be_bytes trie_ok (e ∷ ps) y.0
          × (IsGathered codec reader from_be_bytes fuel keeping) y.1)
        Q (add_accounts codec reader from_be_bytes fuel proofs (e ∷ ps) nothing_gathered)
        (λ x. resolve_to codec reader fuel state_root x.1.root x.1.nodes >>= λ t. ok (t, x.0))
        (add_accounts-Yields proofs (e ∷ ps) nothing_gathered q p nothing_gathered_ok)
        (λ y k.
          Yields-bind spent (trie_ok state_root) Q
            (resolve_to codec reader fuel state_root y.1.root y.1.nodes) (λ t. ok (t, y.0))
            (resolve_to_lem state_root y.1.root y.1.nodes k.1.0 k.1.1) (λ t kt. (kt, k.0)))
