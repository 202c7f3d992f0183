-- ===== src/Alloy/Keeps.antt =====
-- What the conversions of primitives/src/alloy2reth.rs keep.
use sp1_reth.Prelude.{
  ℕ, ◌<◌, List, [], ◌∷◌, map, ==_iff, none, ◌≡◌, ◌↔◌, ◌⊎◌, refl, sym, ap, subst, ◌∙◌, true, Option,
  some, ok, arith, ◌==◌, inl, inr, Bool-cases, >>=-eq-ok, ok_unique,
}
use sp1_reth.Block.{Address, TxCommon, Transaction, SignedTransaction, u64_mod, u256_mod}
use sp1_reth.Processor.{unwrap}
use sp1_reth.Alloy.{
  AlloySignature, AlloyTransaction, AlloyAccessListItem, item_into_reth, signature_into_reth, kind,
  common_into_reth, legacy_into_reth, eip2930_into_reth, eip1559_into_reth, inner_into_reth,
  transaction_into_reth, narrow, chain_of, u128_mod,
}
use sp1_reth.Alloy.Kept.{SameTarget, Copies, SameItems, Holds, SameChain, Converts, Signed}

-- The parity bit of a converted signature is set exactly for the `v` values 1, of a typed
-- transaction, and 38, of a legacy transaction for chain 1: for any other 256-bit `v`, those of other
-- chains and 28 of the transactions without a chain included, it is not.
pub odd_y_parity_iff :
    (sig : AlloySignature)
    → sig.v < u256_mod
    → ((signature_into_reth sig).odd_y_parity ≡ true) ↔ ((sig.v ≡ 1) ⊎ (sig.v ≡ 38))
unfolding signature_into_reth
odd_y_parity_iff sig small = (λ e. ground arith, λ e. ground arith)

narrow_ok : (w n m : ℕ) → narrow w n ≡ ok m → (m ≡ n) × (n < w)
narrow_ok w n m e = ground arith

kind-SameTarget : (to : Option Address) → SameTarget to (kind to)
kind-SameTarget none = tt
kind-SameTarget (some to_addr) = refl

common-Copies : (tx : AlloyTransaction) (c : TxCommon) → common_into_reth tx ≡ ok c → Copies tx c
unfolding common_into_reth
common-Copies tx c e =
    let (nonce, e₁, k₁) = >>=-eq-ok (narrow u64_mod tx.nonce) _ e in
    let (gas, e₂, k₂) = >>=-eq-ok (narrow u64_mod tx.gas) _ k₁ in
    let (n, n-lt) = narrow_ok _ _ _ e₁ in
    let (g, g-lt) = narrow_ok _ _ _ e₂ in
    let same = ok_unique _ refl k₂ in
    record {
      nonce = sym (ap (λ x. x.nonce) same) ∙ n;
      gas_limit = sym (ap (λ x. x.gas_limit) same) ∙ g;
      to = subst (λ x. SameTarget tx.to x.to) same (kind-SameTarget tx.to);
      value = sym (ap (λ x. x.value) same);
      input = sym (ap (λ x. x.input) same);
      nonce-lt = n-lt;
      gas-lt = g-lt;
    }

map-SameItems : (raws : List AlloyAccessListItem) → SameItems raws (map item_into_reth raws)
unfolding item_into_reth
map-SameItems [] = tt
map-SameItems (raw ∷ raws) = (refl, refl, map-SameItems raws)

unwrap_ok : {A : Type 0} (o : Option A) (a : A) → unwrap o ≡ ok a → o ≡ some a
unwrap_ok none a e = cc
unwrap_ok (some b) a e = cc

-- A number that is there, once it is unwrapped and narrowed.
narrow-Holds : (w : ℕ) (o : Option ℕ) (n m : ℕ) → unwrap o ≡ ok n → narrow w n ≡ ok m → Holds w o m
narrow-Holds w o n m e k =
    let (same, small) = narrow_ok w n m k in
    (unwrap_ok o n e ∙ ap some (sym same), subst (λ x. x < w) (sym same) small)

chain_of-SameChain : (o : Option ℕ) (chain : Option ℕ) → chain_of o ≡ ok chain → SameChain o chain
chain_of-SameChain none chain e = sym (ok_unique _ refl e)
chain_of-SameChain (some id) chain e =
    let (n, e₁, k₁) = >>=-eq-ok (narrow u64_mod id) _ e in
    let (same, small) = narrow_ok _ _ _ e₁ in (sym (ok_unique _ refl k₁) ∙ ap some same, small)

legacy-Converts :
    (tx : AlloyTransaction) (t : Transaction)
    → (tx.transaction_type ≡ none) ⊎ (tx.transaction_type ≡ some 0)
    → legacy_into_reth tx ≡ ok t
    → Converts tx t
unfolding legacy_into_reth
legacy-Converts tx t h e =
    let (c, e₁, k₁) = >>=-eq-ok (common_into_reth tx) _ e in
    let (chain, e₂, k₂) = >>=-eq-ok (chain_of tx.chain_id) _ k₁ in
    let (price, e₃, k₃) = >>=-eq-ok (unwrap tx.gas_price) _ k₂ in
    let (gas_price, e₄, k₄) = >>=-eq-ok (narrow u128_mod price) _ k₃ in
    subst (Converts tx) (ok_unique _ refl k₄) (
      h,
      common-Copies tx c e₁,
      chain_of-SameChain tx.chain_id chain e₂,
      narrow-Holds u128_mod tx.gas_price price gas_price e₃ e₄,
    )

eip2930-Converts :
    (tx : AlloyTransaction) (t : Transaction)
    → tx.transaction_type ≡ some 1
    → eip2930_into_reth tx ≡ ok t
    → Converts tx t
unfolding eip2930_into_reth
eip2930-Converts tx t h e =
    let (c, e₁, k₁) = >>=-eq-ok (common_into_reth tx) _ e in
    let (id, e₂, k₂) = >>=-eq-ok (unwrap tx.chain_id) _ k₁ in
    let (chain, e₃, k₃) = >>=-eq-ok (narrow u64_mod id) _ k₂ in
    let (price, e₄, k₄) = >>=-eq-ok (unwrap tx.gas_price) _ k₃ in
    let (gas_price, e₅, k₅) = >>=-eq-ok (narrow u128_mod price) _ k₄ in
    let (items, e₆, k₆) = >>=-eq-ok (unwrap tx.access_list) _ k₅ in
    subst (Converts tx) (ok_unique _ refl k₆) (
      h,
      common-Copies tx c e₁,
      narrow-Holds u64_mod tx.chain_id id chain e₂ e₃,
      narrow-Holds u128_mod tx.gas_price price gas_price e₄ e₅,
      (items, unwrap_ok tx.access_list items e₆, map-SameItems items),
    )

eip1559-Converts :
    (tx : AlloyTransaction) (t : Transaction)
    → tx.transaction_type ≡ some 2
    → eip1559_into_reth tx ≡ ok t
    → Converts tx t
unfolding eip1559_into_reth
eip1559-Converts tx t h e =
    let (c, e₁, k₁) = >>=-eq-ok (common_into_reth tx) _ e in
    let (id, e₂, k₂) = >>=-eq-ok (unwrap tx.chain_id) _ k₁ in
    let (chain, e₃, k₃) = >>=-eq-ok (narrow u64_mod id) _ k₂ in
    let (fee, e₄, k₄) = >>=-eq-ok (unwrap tx.max_fee_per_gas) _ k₃ in
    let (max_fee, e₅, k₅) = >>=-eq-ok (narrow u128_mod fee) _ k₄ in
    let (priority, e₆, k₆) = >>=-eq-ok (unwrap tx.max_priority_fee_per_gas) _ k₅ in
    let (max_priority, e₇, k₇) = >>=-eq-ok (narrow u128_mod priority) _ k₆ in
    let (items, e₈, k₈) = >>=-eq-ok (unwrap tx.access_list) _ k₇ in
    subst (Converts tx) (ok_unique _ refl k₈) (
      h,
      common-Copies tx c e₁,
      narrow-Holds u64_mod tx.chain_id id chain e₂ e₃,
      narrow-Holds u128_mod tx.max_fee_per_gas fee max_fee e₄ e₅,
      narrow-Holds u128_mod tx.max_priority_fee_per_gas priority max_priority e₆ e₇,
      (items, unwrap_ok tx.access_list items e₈, map-SameItems items),
    )

inner-Converts :
    (tx : AlloyTransaction) (o : Option ℕ) (t : Transaction)
    → tx.transaction_type ≡ o
    → inner_into_reth tx o ≡ ok t
    → Converts tx t
unfolding inner_into_reth
inner-Converts tx none t h e = legacy-Converts tx t (inl h) e
inner-Converts tx (some n) t h e = elim (Bool-cases (n == 0)) [
  | inl a ↦ legacy-Converts tx t (inr (h ∙ ap some ((==_iff n 0).0 a))) (ground arith)
  | inr a ↦ elim (Bool-cases (n == 1)) [
    | inl b ↦ eip2930-Converts tx t (h ∙ ap some ((==_iff n 1).0 b)) (ground arith)
    | inr b ↦ elim (Bool-cases (n == 2)) [
      | inl c ↦ eip1559-Converts tx t (h ∙ ap some ((==_iff n 2).0 c)) (ground arith)
      | inr c ↦ absurd (ground arith)
    ]
  ]
]

signature-Signed :
    (o : Option AlloySignature) (raw : AlloySignature)
    → o ≡ some raw
    → Signed o (signature_into_reth raw)
unfolding signature_into_reth
signature-Signed o raw e = (raw, e, refl, refl)

-- A transaction that converts has the kind of its type, which is 0, 1 or 2, and a missing one is 0;
-- its nonce, gas limit, recipient, value, input, chain, prices and access list are those of the one
-- it was made from, the numbers of these fit their words, and so are `r` and `s` of its signature.
pub transaction-Converts :
    (tx : AlloyTransaction) (s : SignedTransaction)
    → transaction_into_reth tx ≡ ok s
    → Converts tx s.transaction × Signed tx.signature s.signature
unfolding transaction_into_reth
transaction-Converts tx s e =
    let (inner, e₁, k₁) = >>=-eq-ok (inner_into_reth tx tx.transaction_type) _ e in
    let (sig, e₂, k₂) = >>=-eq-ok (unwrap tx.signature) _ k₁ in
    subst (λ x. Converts tx x.transaction × Signed tx.signature x.signature) (ok_unique _ refl k₂)
      (
        inner-Converts tx tx.transaction_type inner refl e₁,
        signature-Signed tx.signature sig (unwrap_ok tx.signature sig e₂),
      )
