-- ===== src/Remote/Keys.antt =====
-- The slots that the host asks proofs for (script/src/db.rs: `fetch_storage_proofs`,
-- `fetch_initial_storage_proofs`, `fetch_latest_storage_proofs`).
use mathlib.Core.Path.{ap₂}
use sp1_reth.Prelude.{
  ℕ, ◌+◌, ◌%◌, ◌≡◌, inl, inr, refl, sym, subst, ◌∙◌, true, ◌||◌, List, [], ◌∷◌, some, ok, map,
  arith, Bool-cases, >>=-eq-ok, ok_unique, lookup, IsMap,
}
use sp1_reth.Block.{Address, u64_mod}
use sp1_reth.Db.{nat_keys, bytes_keys, storage_keys}
use sp1_reth.Tries.{AccountProof, Proofs}
use sp1_reth.Remote.{
  Provider, CacheOps, RemoteDb, lift, fetch_storage_proofs, fetch_initial_storage_proofs,
  merge_keys, fetch_latest_storage_proofs,
}
use sp1_reth.Remote.Recorded.{recorded, lift-ok}
use sp1_reth.Remote.Requests.{
  elem, requests, is_some, requests-storage_keys, requests-merge_keys, storage_keys-IsMap,
  lookup-requests,
}

module _ {Changes : Type 0} (provider : Provider) (ops : CacheOps Changes) where
  open provider use {get_proof}
  open ops use {to_be_bytes}

  -- A proof that the provider gave for the account at the block, for slots that the slot is one of.
  abbrev pub HasProof : Proofs → ℕ → Address → ℕ → Type 0
  HasProof proofs block_number a i =
      (indices : List ℕ) × (proof : AccountProof) × (elem i indices ≡ true)
      × (get_proof a (map to_be_bytes indices) block_number ≡ some proof)
      × (lookup a proofs ≡ some proof)

  -- The answer for these slots is in the map of proofs.
  abbrev Found : ℕ → Address → List ℕ → Proofs → Type 0
  Found n a indices proofs =
      (proof : AccountProof) × (get_proof a (map to_be_bytes indices) n ≡ some proof)
      × (lookup a proofs ≡ some proof)

  Found-first :
      (n : ℕ) (a b : Address) (ks indices : List ℕ) (keys : List (Address × List ℕ))
      (p : AccountProof) (ps : Proofs)
      → get_proof b (map to_be_bytes ks) n ≡ some p
      → lookup a ((b, ks) ∷ keys) ≡ some indices
      → (lookup a keys ≡ some indices → Found n a indices ps)
      → Found n a indices ((b, p) ∷ ps)
  Found-first n a b ks indices keys p ps answer found rest =
      elim (Bool-cases (bytes_keys.same b a)) [
        | inl t ↦
            let same = (bytes_keys.same_iff b a).0 t in
            let slots : ks ≡ indices = ground arith in
            (
              p,
              ap₂ (λ x xs. get_proof x (map to_be_bytes xs) n) (sym same) (sym slots) ∙ answer,
              ground arith,
            )
        | inr f ↦ let (proof, asked, there) = rest (ground arith) in (proof, asked, ground arith)
      ]

  lookup-fetch_storage_proofs :
      (n : ℕ) (keys : List (Address × List ℕ)) (proofs : Proofs) (a : Address) (indices : List ℕ)
      → fetch_storage_proofs provider ops n keys ≡ ok proofs
      → lookup a keys ≡ some indices
      → Found n a indices proofs
  unfolding fetch_storage_proofs
  lookup-fetch_storage_proofs n [] proofs a indices e found = cc
  lookup-fetch_storage_proofs n ((b, ks) ∷ keys) proofs a indices e found =
      let (p, e₁, k₁) = >>=-eq-ok (lift (get_proof b (map to_be_bytes ks) n)) _ e in
      let (ps, e₂, k₂) = >>=-eq-ok (fetch_storage_proofs provider ops n keys) _ k₁ in
      subst (Found n a indices) (ok_unique _ refl k₂) (
        Found-first n a b ks indices keys p ps (lift-ok (get_proof b (map to_be_bytes ks) n) p e₁)
          found (lookup-fetch_storage_proofs n keys ps a indices e₂))

  requested-HasProof :
      (n : ℕ) (keys : List (Address × List ℕ)) (proofs : Proofs) (a : Address) (i : ℕ)
      → fetch_storage_proofs provider ops n keys ≡ ok proofs
      → requests keys a i ≡ true
      → HasProof proofs n a i
  requested-HasProof n keys proofs a i e h =
      let (indices, found, there) = lookup-requests keys a i h in
      let (proof, asked, kept) = lookup-fetch_storage_proofs n keys proofs a indices e found in
      (indices, proof, there, asked, kept)

  pub fetch_initial_storage_proofs-HasProof :
      (db : RemoteDb) (proofs : Proofs) (a : Address) (i : ℕ)
      → is_some (recorded db.initial_db a i) ≡ true
      → fetch_initial_storage_proofs provider ops db ≡ ok proofs
      → HasProof proofs db.block_number a i
  unfolding fetch_initial_storage_proofs
  fetch_initial_storage_proofs-HasProof db proofs a i h e =
      requested-HasProof db.block_number (storage_keys db.initial_db) proofs a i e
        (requests-storage_keys db.initial_db a i ∙ h)

  -- For each slot that the initial or the current database holds a value for, the latest proofs have
  -- the provider's proof of its account at the next block, asked for with the slot; the accounts of the current
  -- database are distinct.
  pub fetch_latest_storage_proofs-HasProof :
      (db : RemoteDb) (proofs : Proofs) (a : Address) (i : ℕ)
      → IsMap db.current_db.accounts
      → (is_some (recorded db.initial_db a i) || is_some (recorded db.current_db a i)) ≡ true
      → fetch_latest_storage_proofs provider ops db ≡ ok proofs
      → HasProof proofs ((db.block_number + 1) % u64_mod) a i
  unfolding fetch_latest_storage_proofs
  fetch_latest_storage_proofs-HasProof db proofs a i m h e =
      let initial = requests-storage_keys db.initial_db a i in
      let current = requests-storage_keys db.current_db a i in
      requested-HasProof _ (merge_keys (storage_keys db.initial_db) (storage_keys db.current_db))
        proofs a i e
        (requests-merge_keys (storage_keys db.initial_db) (storage_keys db.current_db) a i
            (storage_keys-IsMap db.current_db m)
          ∙ (ap₂ (λ x y. x || y) initial current ∙ h))
