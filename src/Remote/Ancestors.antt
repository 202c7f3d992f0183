-- ===== src/Remote/Ancestors.antt =====
-- The ancestor headers that the host fetches (script/src/db.rs: `fetch_ancestor_headers`), and what
-- the guest's `initialize` (primitives/src/db.rs) makes of them.
use sp1_reth.Prelude.{
  ℕ, zero, suc, ◌+◌, ◌-◌, ◌≤◌, ◌<◌, ◌≡◌, ◌⊎◌, inl, inr, refl, sym, ap, subst, ◌∙◌, List, [], ◌∷◌,
  some, ok, arith, ◌==◌, ==_iff, if◌then◌else◌, Bool-cases, ok_unique, lookup, put, lookup-put,
}
use sp1_reth.Mpt.Node.{B256}
use sp1_reth.Block.{Header, u64_mod}
use sp1_reth.Db.{nat_keys, DbOps, load_ancestors}
use sp1_reth.Db.Ancestors.{IsChain, alone, after, load_ancestors_iff, step_iff}
use sp1_reth.Remote.{
  RpcBlock, Provider, CacheOps, RemoteDb, earliest_of, least, earliest, fetch_header, fetch_headers,
  fetch_ancestor_headers,
}
use sp1_reth.Remote.Headers.{remote_header}

-- The provider serves this chain below a number.
pub record IsHonest (provider : Provider) (hash_slow : Header → B256) (chain : ℕ → Header) (top : ℕ)
    : Type 0 where
  pub answer :
      (n : ℕ)
      → n < top
      → (block : RpcBlock) × (provider.get_block n ≡ some (some block))
        × (remote_header block.header ≡ ok (chain n))
  pub number_lem : (n : ℕ) → n ≤ top → (chain n).number ≡ n
  pub parent_hash_lem : (n : ℕ) → n < top → (chain (suc n)).parent_hash ≡ hash_slow (chain n)

-- The headers below `n`, downwards.
abbrev pub below : (ℕ → Header) → ℕ → ℕ → List Header
below chain n zero = []
below chain n (suc count) = chain (n - 1) ∷ below chain (n - 1) count

least_le : (n : ℕ) (hashes : List (ℕ × B256)) → least n hashes ≤ n
least_le n [] = omega arith
least_le n ((k, hash) ∷ rest) = omega (arith, least_le n rest)

least-lookup :
    (n m : ℕ) (hashes : List (ℕ × B256)) (d : B256) → lookup m hashes ≡ some d → least n hashes ≤ m
unfolding nat_keys
least-lookup n m [] d e = cc
least-lookup n m ((k, hash) ∷ rest) d e = elim (Bool-cases (k == m)) [
  | inl t ↦ let same = (nat_keys.same_iff k m).0 t in omega arith
  | inr f ↦ let more = least-lookup n m rest d (ground arith) in omega arith
]

earliest_of-lookup :
    (n m : ℕ) (hashes : List (ℕ × B256)) (d : B256)
    → lookup m hashes ≡ some d
    → earliest_of n hashes ≤ m
unfolding nat_keys
earliest_of-lookup n m [] d e = cc
earliest_of-lookup n m ((k, hash) ∷ rest) d e = elim (Bool-cases (k == m)) [
  | inl t ↦ let same = (nat_keys.same_iff k m).0 t in let low = least_le k rest in omega arith
  | inr f ↦ least-lookup k m rest d (ground arith)
]

earliest_le :
    (db : RemoteDb) (m : ℕ) (d : B256)
    → lookup m db.initial_db.block_hashes ≡ some d
    → m < u64_mod
    → earliest db ≤ m
earliest_le db m d e b =
    omega (arith, earliest_of-lookup db.block_number m db.initial_db.block_hashes d e)

module _ {Changes : Type 0} (provider : Provider) (ops : CacheOps Changes) (db_ops : DbOps)
    (chain : ℕ → Header) (top : ℕ) (honest : IsHonest provider db_ops.hash_slow chain top) where
  open db_ops use {hash_slow}

  fetch_header-chain : (n : ℕ) → n < top → fetch_header provider ops n ≡ ok (chain n)
  unfolding fetch_header
  fetch_header-chain n b =
      let (block, found, converted) = honest.answer n b in rw (found, converted) refl

  fetch_headers-chain :
      (n count : ℕ)
      → count ≤ n
      → n ≤ top
      → fetch_headers provider ops n count ≡ ok (below chain n count)
  unfolding fetch_headers
  fetch_headers-chain n zero b c = refl
  fetch_headers-chain n (suc count) b c =
      rw
        (
          fetch_header-chain (n - 1) (omega arith),
          fetch_headers-chain (n - 1) count (omega arith) (omega arith),
        )
        refl

  below-IsChain :
      (n count : ℕ)
      → count ≤ n
      → n ≤ top
      → top < n - count + 256
      → IsChain db_ops (chain top) (chain n) (below chain n count)
  below-IsChain n zero b c r = alone (chain n)
  below-IsChain n (suc count) b c r =
      let k : suc (n - 1) ≡ n = omega arith in
      let number = honest.number_lem (n - 1) (omega arith) in
      let number_top = honest.number_lem top (omega arith) in
      after (chain n) (chain (n - 1)) (below chain (n - 1) count)
        (subst (λ x. (chain x).parent_hash ≡ hash_slow (chain (n - 1))) k
          (honest.parent_hash_lem (n - 1) (omega arith)))
        (omega arith, omega arith)
        (below-IsChain (n - 1) count (omega arith) (omega arith) (omega arith))

  put-chain :
      (m n : ℕ) (hashes : List (ℕ × B256))
      → n ≤ top
      → (m ≡ n) ⊎ (lookup m hashes ≡ some (hash_slow (chain m)))
      → lookup m (put (chain n).number (hash_slow (chain n)) hashes) ≡ some (hash_slow (chain m))
  put-chain m n hashes b h =
      let p = lookup-put m (chain n).number (hash_slow (chain n)) hashes in
      elim (Bool-cases (nat_keys.same (chain n).number m)) [
        | inl t ↦
            let same : n ≡ m =
              sym (honest.number_lem n b) ∙ (nat_keys.same_iff (chain n).number m).0 t in
            p
            ∙ (ap (λ x. if x then some (hash_slow (chain n)) else lookup m hashes) t
                ∙ ap (λ x. some (hash_slow (chain x))) same)
        | inr f ↦
            let q = p ∙ ap (λ x. if x then some (hash_slow (chain n)) else lookup m hashes) f in
            elim h [
              | inl same ↦
                  let t =
                    (nat_keys.same_iff (chain n).number m).1 (honest.number_lem n b ∙ sym same) in
                  absurd (cc)
              | inr there ↦ q ∙ there
            ]
      ]

  load_ancestors-lookup :
      (m n count : ℕ) (hashes hashes' : List (ℕ × B256))
      → n ≤ top
      → load_ancestors db_ops (chain top) (chain n) (below chain n count) hashes ≡ ok hashes'
      → ((n - count ≤ m) × (m < n)) ⊎ (lookup m hashes ≡ some (hash_slow (chain m)))
      → lookup m hashes' ≡ some (hash_slow (chain m))
  unfolding load_ancestors
  load_ancestors-lookup m n zero hashes hashes' b e (inl (c, d)) = absurd (omega arith)
  load_ancestors-lookup m n zero hashes hashes' b e (inr there) =
      subst (λ s. lookup m s ≡ some (hash_slow (chain m))) (ok_unique _ refl e) there
  load_ancestors-lookup m n (suc count) hashes hashes' b e h =
      let (linked, recent, more) =
        (step_iff db_ops (chain top) (chain n) (chain (n - 1)) _ hashes').0 e in
      load_ancestors-lookup m (n - 1) count
        (put (chain (n - 1)).number (hash_slow (chain (n - 1))) hashes) hashes' (omega arith) more
        (elim h [
          | inl (c, d) ↦ elim (Bool-cases (m == n - 1)) [
            | inl t ↦ inr (put-chain m (n - 1) hashes (omega arith) (inl ((==_iff m (n - 1)).0 t)))
            | inr f ↦ inl (ground arith, ground arith)
          ]
          | inr there ↦ inr (put-chain m (n - 1) hashes (omega arith) (inr there))
        ])

  -- From a provider that serves one chain up to the block, the host fetches ancestor headers
  -- that the guest accepts, and the guest then has the hash of every block up to this one
  -- that the host has a hash for; the block's number is a `u64`, and the least such number is less than 256 behind it.
  pub fetch_ancestor_headers-load_ancestors :
      (db : RemoteDb) (m : ℕ) (d : B256)
      → db.block_number ≡ top
      → top < u64_mod
      → top < earliest db + 256
      → m ≤ top
      → lookup m db.initial_db.block_hashes ≡ some d
      → (headers : List Header) × (hashes : List (ℕ × B256)) × (fetch_ancestor_headers provider ops
            db
          ≡ ok headers)
        × (load_ancestors db_ops
              (chain top)
              (chain top)
              headers
              (put (chain top).number (hash_slow (chain top)) [])
            ≡ ok hashes)
        × (lookup m hashes ≡ some (hash_slow (chain m)))
  unfolding fetch_ancestor_headers
  fetch_ancestor_headers-load_ancestors db m d n w recent b found =
      let count : ℕ = top - earliest db in
      let low : earliest db ≤ m = earliest_le db m d found (omega arith) in
      let headers = below chain top count in
      let fetched =
        ap (λ x. fetch_headers provider ops x (x - earliest db)) n
        ∙ fetch_headers-chain top count (omega arith) (omega arith) in
      let linked = below-IsChain top count (omega arith) (omega arith) (omega arith) in
      let first : List (ℕ × B256) = put (chain top).number (hash_slow (chain top)) [] in
      let (hashes, loaded) = (load_ancestors_iff db_ops (chain top) headers first).1 linked in
      let known : ((top - count ≤ m) × (m < top)) ⊎ (lookup m first ≡ some (hash_slow (chain m))) =
        elim (Bool-cases (m == top)) [
          | inl t ↦ inr (put-chain m top [] (omega arith) (inl ((==_iff m top).0 t)))
          | inr f ↦ inl (omega arith, ground arith)
        ] in
      (
        headers,
        hashes,
        fetched,
        loaded,
        load_ancestors-lookup m top count first hashes (omega arith) loaded known,
      )
