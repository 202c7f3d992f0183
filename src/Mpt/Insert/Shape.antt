-- ===== src/Mpt/Insert/Shape.antt =====
-- An insertion keeps the trie canonical and never panics.
use sp1_reth.Prelude.{
  ℕ, zero, suc, ◌≤◌, ◌<◌, ◌≡◌, refl, List, [], ◌∷◌, true, false, Option, none, some, Outcome, ok,
  err, panic, ◌>>=◌, arith, ◌==◌, length, if◌then◌else◌, drop, All-drop, All-take, Bool-cases, inl,
  inr,
}
use sp1_reth.Nibbles.{Bytes, IsNibs, to_encoded_path}
use sp1_reth.Nibbles.CommonPrefix.{common, lcp-common, common-le, common_split}
use sp1_reth.Nibbles.RoundTrip.{
  IsPath, to_encoded_path-IsShared, prefix_nibs-ok, to_encoded_path-IsPath,
}
use sp1_reth.Mpt.Node.{
  Error, MptNode, node, MptNodeData, null, branch, leaf, extension, Children, no_children, vacant,
  child, from, is_empty, capacity, occupied,
}
use sp1_reth.Mpt.Canonical.{
  IsCanonical, IsCanonicalData, AreCanonical, is_branching, branching-not_empty,
}
use sp1_reth.Mpt.Insert.{
  Change, Changed, insert_internal, insert_data, insert_child, insert_leaf, insert_beside,
}
use sp1_reth.Mpt.Insert.Fork.{forked-IsCanonicalData, forked-not_empty}
use sp1_reth.Mpt.Insert.Stores.{below}
use sp1_reth.Mpt.Insert.Leaf.{shortened, get_or-nib, insert_leaf-cases, insert_beside-cases}

-- The data that stands in the place of `d`: canonical, not empty, and a branch if `d` was.
abbrev pub Follows : MptNodeData → MptNodeData → Type 0
Follows d d' =
    IsCanonicalData d'
    × (is_empty (from d') ≡ false)
    × (is_branching (from d) ≡ true → is_branching (from d') ≡ true)

abbrev pub Keeps : MptNodeData → Change → Type 0
Keeps d (ok none) = Unit
Keeps d (ok (some d')) = Follows d d'
Keeps d (err e) = Unit
Keeps d panic = ⊥

abbrev pub KeepsNode : MptNode → Changed → Type 0
KeepsNode (node d c) (ok (n, false)) = Unit
KeepsNode (node d c) (ok (node d' c', true)) = Follows d d'
KeepsNode n (err e) = Unit
KeepsNode n panic = ⊥

abbrev pub KeepsChildren : Children → Outcome Error (Option Children) → Type 0
KeepsChildren cs (ok none) = Unit
KeepsChildren cs (ok (some cs')) =
    (capacity cs' ≡ capacity cs) × (occupied cs ≤ occupied cs') × AreCanonical cs'
KeepsChildren cs (err e) = Unit
KeepsChildren cs panic = ⊥

leaf-IsCanonical :
    (ns : List ℕ) (v : Bytes)
    → IsNibs ns
    → (is_empty (from (leaf (to_encoded_path ns true) v)) ≡ false)
      × IsCanonical (from (leaf (to_encoded_path ns true) v))
unfolding IsCanonical
leaf-IsCanonical ns v h = (refl, to_encoded_path-IsPath ns true h)

shortened-IsCanonical :
    (ra : List ℕ) (n : MptNode)
    → IsNibs ra
    → is_branching n ≡ true
    → IsCanonical n
    → (is_empty (shortened ra n) ≡ false) × IsCanonical (shortened ra n)
unfolding IsCanonical
shortened-IsCanonical [] n h b c = (branching-not_empty n b, c)
shortened-IsCanonical (r ∷ ra) n h b c =
    ground (arith, to_encoded_path-IsPath (r ∷ ra) false h, to_encoded_path-IsShared r ra false h)

insert_leaf-Keeps :
    (prefix : Bytes) (ns : List ℕ) (old : Bytes) (key : List ℕ) (value : Bytes)
    → IsPath prefix
    → IsNibs ns
    → IsNibs key
    → Keeps (leaf prefix old) (insert_leaf prefix ns old key value)
unfolding IsCanonical
insert_leaf-Keeps prefix ns old key value h hn hk =
    elim (insert_leaf-cases prefix ns old key value hn hk) [
      | inl (same, done) ↦ ground arith
      | inr (inl (p, q, done)) ↦
          let c = common ns key in
          rw done (
            forked-IsCanonicalData _ _ _ _ _ (get_or-nib ns c hn) (get_or-nib key c hk)
                (common_split ns key p q).2 (All-take _ c ns hn)
                (leaf-IsCanonical (drop (suc c) ns) old (All-drop _ (suc c) ns hn))
                (leaf-IsCanonical (drop (suc c) key) value (All-drop _ (suc c) key hk)),
            forked-not_empty _ _ _ _ _,
            λ e. cc,
          )
      | inr (inr done) ↦ rw done tt
    ]

insert_beside-Keeps :
    (prefix : Bytes) (ns : List ℕ) (n : MptNode) (key : List ℕ) (value : Bytes)
    → common ns key < length ns
    → is_branching n ≡ true
    → IsCanonical n
    → IsNibs ns
    → IsNibs key
    → Keeps (extension prefix n) (insert_beside ns n key value)
insert_beside-Keeps prefix ns n key value p b h hn hk =
    elim (insert_beside-cases ns n key value p hn hk) [
      | inl (q, done) ↦
          let c = common ns key in
          rw done (
            forked-IsCanonicalData _ _ _ _ _ (get_or-nib ns c hn) (get_or-nib key c hk)
                (common_split ns key p q).2 (All-take _ c ns hn)
                (shortened-IsCanonical (drop (suc c) ns) n (All-drop _ (suc c) ns hn) b h)
                (leaf-IsCanonical (drop (suc c) key) value (All-drop _ (suc c) key hk)),
            forked-not_empty _ _ _ _ _,
            λ e. cc,
          )
      | inr done ↦ rw done tt
    ]

below-Keeps :
    (prefix : Bytes) (n : MptNode) (r : Changed)
    → IsCanonicalData (extension prefix n)
    → KeepsNode n r
    → Keeps (extension prefix n) (below prefix r)
unfolding IsCanonical
below-Keeps prefix (node d c) (ok (n', false)) h k = tt
below-Keeps prefix (node d c) (ok (node d' c', true)) h k =
    ((h.0, h.1, k.2 h.2, k.0), refl, λ e. cc)
below-Keeps prefix (node d c) (err e) h k = tt
below-Keeps prefix (node d c) panic h k = k

at_child-Keeps :
    (n : MptNode) (cs : Children) (r : Changed)
    → AreCanonical (child n cs)
    → KeepsNode n r
    → KeepsChildren
        (child n cs)
        (r >>= λ (n', done). ok (if done then some (child n' cs) else none))
unfolding IsCanonical
at_child-Keeps (node d c) cs (ok (n', false)) h k = tt
at_child-Keeps (node d c) cs (ok (node d' c', true)) h k = (refl, omega arith, (k.1, k.0, h.2))
at_child-Keeps (node d c) cs (err e) h k = tt
at_child-Keeps (node d c) cs panic h k = k

mutual
  unfolding insert_internal IsCanonical

  pub insert_internal-KeepsNode :
      (n : MptNode) (key : List ℕ) (value : Bytes)
      → IsCanonical n
      → IsNibs key
      → KeepsNode n (insert_internal n key value)
  insert_internal-KeepsNode (node d c) key value h hk =
      ground (arith, insert_data-Keeps d key value h hk)

  insert_data-Keeps :
      (d : MptNodeData) (key : List ℕ) (value : Bytes)
      → IsCanonicalData d
      → IsNibs key
      → Keeps d (insert_data d key value)
  insert_data-Keeps null key value h hk = (to_encoded_path-IsPath key true hk, refl, λ e. cc)
  insert_data-Keeps (branch cs) [] value h hk = tt
  insert_data-Keeps (branch cs) (i ∷ key) value h hk =
      ground (arith, insert_child-Keeps cs i key value h.2 (ground arith) hk.1)
  insert_data-Keeps (leaf prefix old) key value h hk =
      let (ns, hn, e) = prefix_nibs-ok {E = Error} prefix h in
      rw e (insert_leaf-Keeps prefix ns old key value h hn hk)
  insert_data-Keeps (extension prefix n) key value h hk =
      let (ns, hn, e) = prefix_nibs-ok {E = Error} prefix h.0 in
      let c = common ns key in
      elim (Bool-cases (c == length ns)) [
        | inl whole ↦
            rw (e, lcp-common ns key, whole)
              (below-Keeps prefix n _ h
                (insert_internal-KeepsNode n (drop c key) value h.3 (All-drop _ c key hk)))
        | inr part ↦
            let bounds = common-le ns key in
            rw (e, lcp-common ns key, part)
              (insert_beside-Keeps prefix ns n key value (ground arith) h.2 h.3 hn hk)
      ]
  insert_data-Keeps (MptNodeData.digest x) key value h hk = tt

  insert_child-Keeps :
      (cs : Children) (i : ℕ) (key : List ℕ) (value : Bytes)
      → AreCanonical cs
      → i < capacity cs
      → IsNibs key
      → KeepsChildren cs (insert_child cs i key value)
  insert_child-Keeps no_children i key value h b hk = absurd (omega arith)
  insert_child-Keeps (vacant cs) zero key value h b hk =
      (refl, omega arith, (refl, to_encoded_path-IsPath key true hk, h))
  insert_child-Keeps (child n cs) zero key value h b hk =
      at_child-Keeps n cs _ h (insert_internal-KeepsNode n key value h.1 hk)
  insert_child-Keeps (vacant cs) (suc i) key value h b hk =
      ground (arith, insert_child-Keeps cs i key value h (omega arith) hk)
  insert_child-Keeps (child n cs) (suc i) key value h b hk =
      ground (arith, insert_child-Keeps cs i key value h.2 (omega arith) hk)
