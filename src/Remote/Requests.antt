-- ===== src/Remote/Requests.antt =====
-- Maps of the slots that proofs are asked for (script/src/db.rs: `fetch_latest_storage_proofs`).
use sp1_reth.Prelude.{
  ℕ, ◌≡◌, inl, inr, refl, sym, ap, subst, ◌∙◌, Bool, true, false, ◌||◌, List, [], ◌∷◌, ◌++◌, Option,
  none, some, map, arith, ◌==◌, if◌then◌else◌, Bool-cases, Option-cases, lookup, put, lookup-put,
  IsMap, keep_other,
}
use sp1_reth.Block.{Address}
use sp1_reth.Db.{nat_keys, bytes_keys, DbAccount, InMemoryDb, storage_keys, first}
use sp1_reth.Remote.{indices_of, merge_keys}
use sp1_reth.Remote.Recorded.{recorded, slot_of}

abbrev pub elem : ℕ → List ℕ → Bool
elem i [] = false
elem i (x ∷ xs) = x == i || elem i xs

-- The map of keys has the slot of the account.
abbrev pub requests : List (Address × List ℕ) → Address → ℕ → Bool
requests keys a i = elem i (indices_of (lookup a keys))

abbrev pub is_some : {A : Type 0} → Option A → Bool
is_some none = false
is_some (some a) = true

elem-append : (i : ℕ) (xs ys : List ℕ) → elem i (xs ++ ys) ≡ (elem i xs || elem i ys)
elem-append i [] ys = refl
elem-append i (x ∷ xs) ys = ground (arith, elem-append i xs ys)

or-is_some :
    (b x : Bool) (v : ℕ) (o : Option ℕ)
    → x ≡ is_some o
    → (b || x) ≡ is_some (if b then some v else o)
or-is_some true x v o h = refl
or-is_some false x v o h = h

elem-map-first :
    (i : ℕ) (storage : List (ℕ × ℕ)) → elem i (map first storage) ≡ is_some (lookup i storage)
unfolding nat_keys
elem-map-first i [] = refl
elem-map-first i ((k, v) ∷ storage) =
    or-is_some (k == i) (elem i (map first storage)) v (lookup i storage) (elem-map-first i storage)

abbrev keys_of : Address × DbAccount → Address × List ℕ
keys_of (address, account) = (address, map first account.storage)

abbrev account_keys : Option DbAccount → List ℕ
account_keys none = []
account_keys (some account) = map first account.storage

lookup-keys_of :
    (a : Address) (accounts : List (Address × DbAccount))
    → indices_of (lookup a (map keys_of accounts)) ≡ account_keys (lookup a accounts)
lookup-keys_of a [] = refl
lookup-keys_of a ((b, account) ∷ accounts) = elim (Bool-cases (bytes_keys.same b a)) [
  | inl t ↦ rw (t) refl
  | inr f ↦ rw (f) (lookup-keys_of a accounts)
]

elem-account_keys : (o : Option DbAccount) (i : ℕ) → elem i (account_keys o) ≡ is_some (slot_of o i)
elem-account_keys none i = refl
elem-account_keys (some account) i = elem-map-first i account.storage

-- `storage_keys` has the slots that the database holds a value for.
pub requests-storage_keys :
    (db : InMemoryDb) (a : Address) (i : ℕ)
    → requests (storage_keys db) a i ≡ is_some (recorded db a i)
unfolding storage_keys
requests-storage_keys db a i =
    ap (elem i) (lookup-keys_of a db.accounts) ∙ elem-account_keys (lookup a db.accounts) i

or_false : (b : Bool) → b ≡ (b || false)
or_false true = refl
or_false false = refl

requests-put :
    (keys : List (Address × List ℕ)) (b : Address) (indices : List ℕ) (a : Address) (i : ℕ)
    → requests (put b (indices_of (lookup b keys) ++ indices) keys) a i
      ≡ (requests keys a i || (if bytes_keys.same b a then elem i indices else false))
requests-put keys b indices a i =
    let all = indices_of (lookup b keys) ++ indices in
    let p = lookup-put a b all keys in
    elim (Bool-cases (bytes_keys.same b a)) [
      | inl t ↦
          let same = (bytes_keys.same_iff b a).0 t in
          let there : lookup a (put b all keys) ≡ some all =
            p ∙ ap (λ x. if x then some all else lookup a keys) t in
          rw (t) (
            ap (λ o. elem i (indices_of o)) there
            ∙ (elem-append i (indices_of (lookup b keys)) indices
                ∙ ap (λ x. requests keys x i || elem i indices) same))
      | inr f ↦
          let there : lookup a (put b all keys) ≡ lookup a keys =
            p ∙ ap (λ x. if x then some all else lookup a keys) f in
          rw (f) (ap (λ o. elem i (indices_of o)) there ∙ or_false (requests keys a i))
    ]

or_swap :
    (x y z : Bool) (b : Bool)
    → (b ≡ true → z ≡ false)
    → ((x || (if b then y else false)) || z) ≡ (x || (if b then y else z))
or_swap true y z b h = refl
or_swap false true z true h = refl
or_swap false false z true h = h refl
or_swap false y z false h = refl

elem-if :
    (b : Bool) (i : ℕ) (indices : List ℕ) (o : Option (List ℕ))
    → (if b then elem i indices else elem i (indices_of o))
      ≡ elem i (indices_of (if b then some indices else o))
elem-if true i indices o = refl
elem-if false i indices o = refl

-- The merged map has the slots of both maps, and no others.
pub requests-merge_keys :
    (keys more : List (Address × List ℕ)) (a : Address) (i : ℕ)
    → IsMap more
    → requests (merge_keys keys more) a i ≡ (requests keys a i || requests more a i)
unfolding merge_keys
requests-merge_keys keys [] a i h = or_false (requests keys a i)
requests-merge_keys keys ((b, indices) ∷ more) a i h =
    requests-merge_keys (put b (indices_of (lookup b keys) ++ indices) keys) more a i h.1
    ∙ (ap (λ x. x || requests more a i) (requests-put keys b indices a i)
        ∙ (or_swap (requests keys a i) (elem i indices) (requests more a i) (bytes_keys.same b a)
              (λ t.
                ap (λ o. elem i (indices_of o))
                  (ap (λ x. lookup x more) (sym ((bytes_keys.same_iff b a).0 t)) ∙ h.0))
            ∙ ap (λ z. requests keys a i || z)
                (elem-if (bytes_keys.same b a) i indices (lookup a more))))

lookup-keys_of-none :
    (a : Address) (accounts : List (Address × DbAccount))
    → lookup a accounts ≡ none
    → lookup a (map keys_of accounts) ≡ none
lookup-keys_of-none a [] h = refl
lookup-keys_of-none a ((b, account) ∷ accounts) h =
    let (other, rest) = keep_other b a account accounts h in
    rw (other) (lookup-keys_of-none a accounts rest)

keys_of-IsMap :
    (accounts : List (Address × DbAccount)) → IsMap accounts → IsMap (map keys_of accounts)
keys_of-IsMap [] h = tt
keys_of-IsMap ((a, account) ∷ accounts) h =
    (lookup-keys_of-none a accounts h.0, keys_of-IsMap accounts h.1)

pub storage_keys-IsMap : (db : InMemoryDb) → IsMap db.accounts → IsMap (storage_keys db)
unfolding storage_keys
storage_keys-IsMap db h = keys_of-IsMap db.accounts h

pub lookup-requests :
    (keys : List (Address × List ℕ)) (a : Address) (i : ℕ)
    → requests keys a i ≡ true
    → (indices : List ℕ) × (lookup a keys ≡ some indices) × (elem i indices ≡ true)
lookup-requests keys a i h = elim (Option-cases (lookup a keys)) [
  | inl missing ↦
      let lost : elem i [] ≡ true = subst (λ o. elem i (indices_of o) ≡ true) missing h in
      absurd (cc)
  | inr (indices, found) ↦ (indices, found, subst (λ o. elem i (indices_of o) ≡ true) found h)
]
