-- ===== src/Db/Ancestors.antt =====
-- The block hashes that `initialize` (primitives/src/db.rs) loads, and the chain that it accepts.
use sp1_reth.Prelude.{
  ℕ, ◌+◌, ◌-◌, ◌≤◌, ◌<◌, ◌≡◌, ◌↔◌, refl, ap, subst, ◌∙◌, Bool, true, false, not, ◌||◌, List, [],
  ◌∷◌, some, Outcome, ok, panic, arith, ltb, leb, list_eq, if◌then◌else◌, inl, inr, Bool-cases,
  list_eq_iff, >>=-eq-ok, ok_unique, lookup, put, lookup-put,
}
use sp1_reth.Mpt.Node.{B256, Error}
use sp1_reth.Block.{Header, Sp1RethInput}
use sp1_reth.Db.{nat_keys, InMemoryDb, DbOps, load_accounts, load_ancestors, initialize}

gates_iff :
    {A : Type 0} (a b : Bool) (more : Outcome Error A) (r : A)
    → ((if not a then panic else if b then panic else more) ≡ ok r)
      ↔ ((a ≡ true) × (b ≡ false) × (more ≡ ok r))
gates_iff true true more r = ground arith
gates_iff true false more r = ground arith
gates_iff false true more r = ground arith
gates_iff false false more r = ground arith

recent_iff :
    (top n : ℕ) → ((ltb top n || leb 256 (top - n)) ≡ false) ↔ ((n ≤ top) × (top < n + 256))
recent_iff top n = ground arith

module _ (ops : DbOps) where
  open ops use {hash_slow}

  -- A header on the chain of parent hashes that leads back from `top`.
  pub data IsAncestor (top : Header) : Header → Type 0 where
    itself : IsAncestor top top
    back :
        (h parent : Header)
        → IsAncestor top h
        → h.parent_hash ≡ hash_slow parent
        → IsAncestor top parent

  -- One of the 256 most recent numbers.
  abbrev pub IsRecent : Header → ℕ → Type 0
  IsRecent top n = (n ≤ top.number) × (top.number < n + 256)

  -- Each header is the parent of the one before, and recent.
  pub data IsChain (top : Header) : Header → List Header → Type 0 where
    alone : (prev : Header) → IsChain top prev []
    after :
        (prev current : Header) (rest : List Header)
        → prev.parent_hash ≡ hash_slow current
        → IsRecent top current.number
        → IsChain top current rest
        → IsChain top prev (current ∷ rest)

  -- What a map of block hashes must not say: a hash of no recent ancestor.
  abbrev Knows : Header → List (ℕ × B256) → Type 0
  Knows top hashes =
      (n : ℕ) (d : B256)
      → lookup n hashes ≡ some d
      → (h : Header) × IsAncestor top h × (h.number ≡ n) × (hash_slow h ≡ d) × IsRecent top n

  Knows-put :
      (top h : Header) (hashes : List (ℕ × B256))
      → Knows top hashes
      → IsAncestor top h
      → IsRecent top h.number
      → Knows top (put h.number (hash_slow h) hashes)
  Knows-put top h hashes known a r n d e =
      let p = lookup-put n h.number (hash_slow h) hashes in
      elim (Bool-cases (nat_keys.same h.number n)) [
        | inl t ↦
            let q = (nat_keys.same_iff h.number n).0 t in
            (h, a, q, ground arith, subst (IsRecent top) q r)
        | inr t ↦ known n d (ground arith)
      ]

  -- The tests on one header.
  pub step_iff :
      (top prev current : Header) (more : Outcome Error (List (ℕ × B256)))
      (hashes : List (ℕ × B256))
      → ((if not (list_eq prev.parent_hash (hash_slow current))
            then panic
            else if ltb top.number current.number || leb 256 (top.number - current.number)
            then panic
            else more)
          ≡ ok hashes)
        ↔ ((prev.parent_hash ≡ hash_slow current)
            × IsRecent top current.number
            × (more ≡ ok hashes))
  step_iff top prev current more hashes =
      let same = list_eq_iff prev.parent_hash (hash_slow current) in
      let recent = recent_iff top.number current.number in
      let gates =
        gates_iff (list_eq prev.parent_hash (hash_slow current))
          (ltb top.number current.number || leb 256 (top.number - current.number)) more hashes in
      (
        λ e. let (a, b, c) = gates.0 e in (same.0 a, recent.0 b, c),
        λ (a, b, c). gates.1 (same.1 a, recent.1 b, c),
      )

  -- The loop accepts exactly the chains.
  load_ancestors-IsChain :
      (top prev : Header) (headers : List Header) (hashes hashes' : List (ℕ × B256))
      → load_ancestors ops top prev headers hashes ≡ ok hashes'
      → IsChain top prev headers
  unfolding load_ancestors
  load_ancestors-IsChain top prev [] hashes hashes' e = alone prev
  load_ancestors-IsChain top prev (current ∷ rest) hashes hashes' e =
      let (a, b, c) = (step_iff top prev current _ hashes').0 e in
      after prev current rest a b (
        load_ancestors-IsChain top current rest (put current.number (hash_slow current) hashes)
          hashes' c)

  load_ancestors-ok :
      (top prev : Header) (headers : List Header) (hashes : List (ℕ × B256))
      → IsChain top prev headers
      → (hashes' : List (ℕ × B256)) × (load_ancestors ops top prev headers hashes ≡ ok hashes')
  unfolding load_ancestors
  load_ancestors-ok top prev [] hashes h = (hashes, refl)
  load_ancestors-ok top prev (current ∷ rest) hashes (after _ _ _ a b h) =
      let (hashes', c) =
        load_ancestors-ok top current rest (put current.number (hash_slow current) hashes) h in
      (hashes', (step_iff top prev current _ hashes').1 (a, b, c))

  load_ancestors-Knows :
      (top prev : Header) (headers : List Header) (hashes hashes' : List (ℕ × B256))
      → Knows top hashes
      → IsAncestor top prev
      → load_ancestors ops top prev headers hashes ≡ ok hashes'
      → Knows top hashes'
  unfolding load_ancestors
  load_ancestors-Knows top prev [] hashes hashes' known a e =
      subst (Knows top) (ok_unique _ refl e) known
  load_ancestors-Knows top prev (current ∷ rest) hashes hashes' known a e =
      let (same, recent, more) = (step_iff top prev current _ hashes').0 e in
      let there = back prev current a same in
      load_ancestors-Knows top current rest (put current.number (hash_slow current) hashes) hashes'
        (Knows-put top current hashes known there recent) there more

-- The ancestors that the loop of `initialize` accepts, returning the block hashes, are exactly the
-- chains: each header's hash is the parent hash of the one before it, from the parent header on, and
-- each number is one of the 256 up to the parent's.
pub load_ancestors_iff :
    (ops : DbOps) (top : Header) (headers : List Header) (hashes : List (ℕ × B256))
    → ((hashes' : List (ℕ × B256)) × (load_ancestors ops top top headers hashes ≡ ok hashes'))
      ↔ IsChain ops top top headers
load_ancestors_iff ops top headers hashes = (
  λ (hashes', e). load_ancestors-IsChain ops top top headers hashes hashes' e,
  λ h. load_ancestors-ok ops top top headers hashes h,
)

-- A block hash that the database of `initialize` has for a number is the hash of a header with this
-- number, which the parent hashes reach from the parent header, and the number is one of the 256 up
-- to the parent's.
pub initialize-block_hashes :
    (ops : DbOps) (input input' : Sp1RethInput) (db : InMemoryDb) (n : ℕ) (d : B256)
    → initialize ops input ≡ ok (input', db)
    → lookup n db.block_hashes ≡ some d
    → (h : Header) × IsAncestor ops input.parent_header h
      × (h.number ≡ n)
      × (ops.hash_slow h ≡ d)
      × IsRecent ops input.parent_header n
unfolding initialize
initialize-block_hashes ops input input' db n d e found =
    let top = input.parent_header in
    let (accounts, e₁, k₁) =
      >>=-eq-ok (load_accounts ops input.parent_state_trie _ input.parent_storage []) _ e in
    let (hashes, e₂, k₂) = >>=-eq-ok (load_ancestors ops top top input.ancestor_headers _) _ k₁ in
    let final : hashes ≡ db.block_hashes = ap (λ r. r.1.block_hashes) (ok_unique _ refl k₂) in
    let known = Knows-put ops top top [] (λ n d e. cc) itself (omega arith, omega arith) in
    load_ancestors-Knows ops top top input.ancestor_headers _ db.block_hashes known itself
      (e₂ ∙ ap ok final) n d found
