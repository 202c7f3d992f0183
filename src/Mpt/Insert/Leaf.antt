-- ===== src/Mpt/Insert/Leaf.antt =====
-- The arms of `insert_internal` for a leaf and for an extension that has to be split.
use sp1_reth.Prelude.{
  ℕ, zero, suc, ◌<◌, ◌≡◌, refl, sym, ap, ◌∙◌, List, [], ◌∷◌, ◌++◌, Bool, true, false, Option, none,
  some, Outcome, ok, err, panic, arith, ◌==◌, ltb, length, if◌then◌else◌, strip_prefix, get_or,
  take, drop, ◌⊎◌, length-drop, list_eq, list_eq-append, list_eq_refl, eq_of_list_eq,
  strip_prefix-append, All-take, All-drop, Bool-cases, inl, inr,
}
use mathlib.Core.Path.{ap₂}
use native.Mathlib.Numerals.{add-one}
use sp1_reth.Nibbles.{Bytes, IsNibs, to_encoded_path, prefix_nibs}
use sp1_reth.Nibbles.CommonPrefix.{common, lcp-common, common-le, common_split, eq_of_common}
use sp1_reth.Nibbles.RoundTrip.{prefix_nibs-to_encoded_path}
use sp1_reth.Mpt.Node.{Error, value_in_branch, MptNode, leaf, extension, from}
use sp1_reth.Mpt.Get.{Lookup, behind, hit, get_internal, get_data}
use sp1_reth.Mpt.Insert.{insert_leaf, insert_beside}
use sp1_reth.Mpt.Insert.Fork.{one_way, forked, fork-forked, get_data-forked, fork_lookup}

-- What an insertion of `value` does to lookups: if it changes nothing, the value was there; if it
-- makes `x`, the lookup `after` in `x` is the value at the key, and the one `before` elsewhere.
abbrev pub Stored {ℓ} :
    {X : Type ℓ} (value : Bytes) (same : Bool) (at_key before : Lookup) (after : X → Lookup)
    → Outcome Error (Option X)
    → Type 0
Stored value same at_key before after (ok none) = at_key ≡ ok (some value)
Stored value same at_key before after (ok (some x)) =
    after x ≡ (if same then ok (some value) else before)
Stored value same at_key before after (err e) = Unit
Stored value same at_key before after panic = Unit

-- A leaf whose path is `shared`, `i` and `ra` moves below a fork.
hit-one_way_at :
    (i : ℕ) (ra : List ℕ) (old : Bytes) (o : Option (List ℕ))
    → IsNibs ra
    → (if elim o [ none ↦ false | some t ↦ list_eq (i ∷ ra) t ] then ok (some old) else ok none)
      ≡ behind (one_way i (from (leaf (to_encoded_path ra true) old))) o
unfolding get_data
hit-one_way_at i ra old none h = refl
hit-one_way_at i ra old (some []) h = refl
hit-one_way_at i ra old (some (x ∷ t)) h =
    ground (arith, prefix_nibs-to_encoded_path {E = Error} ra true h)

hit-one_way :
    (shared : List ℕ) (i : ℕ) (ra : List ℕ) (old : Bytes) (ks : List ℕ)
    → IsNibs ra
    → hit (shared ++ i ∷ ra) old ks
      ≡ behind (one_way i (from (leaf (to_encoded_path ra true) old))) (strip_prefix ks shared)
hit-one_way shared i ra old ks h =
    rw (list_eq-append shared (i ∷ ra) ks) (hit-one_way_at i ra old (strip_prefix ks shared) h)

shorter : (c : ℕ) (ns : List ℕ) → ltb (suc c) (length ns) ≡ ltb 0 (length (drop (suc c) ns))
shorter c ns = ground (arith, length-drop (suc c) ns)

-- An extension over the node `n` moves below a fork, shorter or not at all.
abbrev pub shortened : List ℕ → MptNode → MptNode
shortened ra n = if ltb 0 (length ra) then from (extension (to_encoded_path ra false) n) else n

behind-one_way_at :
    (i : ℕ) (ra : List ℕ) (n : MptNode) (o : Option (List ℕ))
    → IsNibs ra
    → behind (get_internal n) (elim o [ none ↦ none | some t ↦ strip_prefix t (i ∷ ra) ])
      ≡ behind (one_way i (shortened ra n)) o
unfolding get_data
behind-one_way_at i ra n none h = refl
behind-one_way_at i ra n (some []) h = refl
behind-one_way_at i [] n (some (x ∷ t)) h = ground arith
behind-one_way_at i (r ∷ ra) n (some (x ∷ t)) h =
    ground (arith, prefix_nibs-to_encoded_path {E = Error} (r ∷ ra) false h)

behind-one_way :
    (shared : List ℕ) (i : ℕ) (ra : List ℕ) (n : MptNode) (ks : List ℕ)
    → IsNibs ra
    → behind (get_internal n) (strip_prefix ks (shared ++ i ∷ ra))
      ≡ behind (one_way i (shortened ra n)) (strip_prefix ks shared)
behind-one_way shared i ra n ks h =
    rw (strip_prefix-append ks shared (i ∷ ra))
      (behind-one_way_at i ra n (strip_prefix ks shared) h)

pub get_or-nib : (ns : List ℕ) (i : ℕ) → IsNibs ns → get_or ns i 0 < 16
get_or-nib [] i h = omega arith
get_or-nib (n ∷ ns) zero h = h.0
get_or-nib (n ∷ ns) (suc i) h = get_or-nib ns i h.1

-- Two lists of nibbles that part: the fork of the two nodes below answers as it should.
module _ (ns key ks : List ℕ) (value : Bytes) (hn : IsNibs ns) (hk : IsNibs key) (hs : IsNibs ks)
    (p : common ns key < length ns) (q : common ns key < length key) where
  abbrev here : ℕ
  here = common ns key

  abbrev new_leaf : MptNode
  new_leaf = from (leaf (to_encoded_path (drop (suc here) key) true) value)

  get_data-parted :
      (a : MptNode) (before : Lookup)
      → before ≡ behind (one_way (get_or ns here 0) a) (strip_prefix ks (take here ns))
      → get_data (forked (take here ns) (get_or ns here 0) a (get_or key here 0) new_leaf) ks
        ≡ (if list_eq key ks then ok (some value) else before)
  get_data-parted a before e =
      let (ea, eb, ne) = common_split ns key p q in
      get_data-forked (take here ns) (get_or ns here 0) (get_or key here 0) a new_leaf ks
        (get_or-nib ns here hn) (get_or-nib key here hk) (All-take _ here ns hn) hs
      ∙ (fork_lookup (take here ns) (get_or ns here 0) (get_or key here 0) a (drop (suc here) key)
            value ks ne (All-drop _ (suc here) key hk)
          ∙ ap₂ (λ b (l : Lookup). if list_eq b ks then ok (some value) else l) (sym eb) (sym e))

-- Inserting into a leaf: the key is the leaf's, or the paths part, or one ends inside the other.
abbrev pub LeafCases : Bytes → List ℕ → Bytes → List ℕ → Bytes → Type 0
LeafCases prefix ns old key value =
    let c = common ns key in
    let a = from (leaf (to_encoded_path (drop (suc c) ns) true) old) in
    let b = from (leaf (to_encoded_path (drop (suc c) key) true) value) in
    let done = insert_leaf prefix ns old key value in
    ((ns ≡ key) × (done ≡ (if list_eq old value then ok none else ok (some (leaf prefix value)))))
    ⊎ (((c < length ns)
          × (c < length key)
          × (done ≡ ok (some (forked (take c ns) (get_or ns c 0) a (get_or key c 0) b))))
        ⊎ (done ≡ err value_in_branch))

pub insert_leaf-cases :
    (prefix : Bytes) (ns : List ℕ) (old : Bytes) (key : List ℕ) (value : Bytes)
    → IsNibs ns
    → IsNibs key
    → LeafCases prefix ns old key value
unfolding insert_leaf
insert_leaf-cases prefix ns old key value hn hk =
    let c = common ns key in
    let a = from (leaf (to_encoded_path (drop (suc c) ns) true) old) in
    let b = from (leaf (to_encoded_path (drop (suc c) key) true) value) in
    let bounds = common-le ns key in
    elim (Bool-cases (c == length ns)) [
      | inl whole ↦ elim (Bool-cases (c == length key)) [
        | inl both ↦
            inl (
              eq_of_common ns key (ground arith) (ground arith),
              rw (lcp-common ns key, whole, both),
            )
        | inr short ↦ inr (inr (rw (lcp-common ns key, whole, short)))
      ]
      | inr less ↦ elim (Bool-cases (c == length key)) [
        | inl both ↦ inr (inr (rw (lcp-common ns key, less, both)))
        | inr short ↦ inr (
            inl (
              ground arith,
              ground arith,
              rw (lcp-common ns key, less, short, add-one)
                  (fork-forked (take c ns) (get_or ns c 0) (get_or key c 0) a b (get_or-nib ns c hn)
                    (get_or-nib key c hk)),
            ))
      ]
    ]

-- Inserting into a leaf.
pub insert_leaf-Stored :
    (prefix : Bytes) (ns : List ℕ) (old : Bytes) (key : List ℕ) (value : Bytes) (ks : List ℕ)
    → prefix_nibs {E = Error} prefix ≡ ok ns
    → IsNibs ns
    → IsNibs key
    → IsNibs ks
    → Stored value
        (list_eq key ks)
        (hit ns old key)
        (hit ns old ks)
        (λ d. get_data d ks)
        (insert_leaf prefix ns old key value)
unfolding get_data
insert_leaf-Stored prefix ns old key value ks e hn hk hs =
    elim (insert_leaf-cases prefix ns old key value hn hk) [
      | inl (same, done) ↦ ground (arith, list_eq_refl key, eq_of_list_eq old value)
      | inr (inl (p, q, done)) ↦
          let c = common ns key in
          let a = from (leaf (to_encoded_path (drop (suc c) ns) true) old) in
          rw done (
            get_data-parted ns key ks value hn hk hs p q a (hit ns old ks) (
              ap (λ ms. hit ms old ks) (common_split ns key p q).0
              ∙ hit-one_way (take c ns) (get_or ns c 0) (drop (suc c) ns) old ks
                  (All-drop _ (suc c) ns hn)))
      | inr (inr done) ↦ rw done tt
    ]

abbrev pub BesideCases : List ℕ → MptNode → List ℕ → Bytes → Type 0
BesideCases ns n key value =
    let c = common ns key in
    let b = from (leaf (to_encoded_path (drop (suc c) key) true) value) in
    let done = insert_beside ns n key value in
    ((c < length key)
      × (done
          ≡ ok (
              some (
                forked (take c ns) (get_or ns c 0) (shortened (drop (suc c) ns) n) (get_or key c 0)
                  b))))
    ⊎ (done ≡ err value_in_branch)

pub insert_beside-cases :
    (ns : List ℕ) (n : MptNode) (key : List ℕ) (value : Bytes)
    → common ns key < length ns
    → IsNibs ns
    → IsNibs key
    → BesideCases ns n key value
unfolding insert_beside
insert_beside-cases ns n key value p hn hk =
    let c = common ns key in
    let b = from (leaf (to_encoded_path (drop (suc c) key) true) value) in
    let bounds = common-le ns key in
    elim (Bool-cases (c == length key)) [
      | inl both ↦ inr (rw (lcp-common ns key, both))
      | inr short ↦ inl (
        ground arith,
        rw (lcp-common ns key, short, add-one, shorter c ns)
            (fork-forked (take c ns) (get_or ns c 0) (get_or key c 0)
              (shortened (drop (suc c) ns) n) b (get_or-nib ns c hn) (get_or-nib key c hk)),
      )
    ]

-- Inserting beside an extension whose path is not a prefix of the key.
pub insert_beside-Stored :
    (ns : List ℕ) (n : MptNode) (key : List ℕ) (value : Bytes) (ks : List ℕ) (at_key : Lookup)
    → common ns key < length ns
    → IsNibs ns
    → IsNibs key
    → IsNibs ks
    → Stored value
        (list_eq key ks)
        at_key
        (behind (get_internal n) (strip_prefix ks ns))
        (λ d. get_data d ks)
        (insert_beside ns n key value)
insert_beside-Stored ns n key value ks at_key p hn hk hs =
    let c = common ns key in
    elim (insert_beside-cases ns n key value p hn hk) [
      | inl (q, done) ↦ rw done (
          get_data-parted ns key ks value hn hk hs p q (shortened (drop (suc c) ns) n) _ (
            ap (λ ms. behind (get_internal n) (strip_prefix ks ms)) (common_split ns key p q).0
            ∙ behind-one_way (take c ns) (get_or ns c 0) (drop (suc c) ns) n ks
                (All-drop _ (suc c) ns hn)))
      | inr done ↦ rw done tt
    ]
