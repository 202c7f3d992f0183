-- ===== src/Mpt/Insert/Cache.antt =====
-- `insert_internal` drops the cached references that it makes stale (`invalidate_ref_cache`).
use sp1_reth.Prelude.{
  ℕ, zero, suc, ◌+◌, List, [], ◌∷◌, true, false, Option, none, some, Outcome, ok, err, panic, ◌>>=◌,
  arith, ltb, length, if◌then◌else◌, take, drop, get_or, Outcome-cases, inl, inr,
}
use sp1_reth.Nibbles.{Bytes, to_encoded_path, lcp, prefix_nibs}
use sp1_reth.Mpt.Node.{
  Error, MptNode, node, MptNodeData, null, branch, leaf, extension, Children, no_children, vacant,
  child, vacancies, set_child, from,
}
use sp1_reth.Mpt.Codec.{Codec}
use sp1_reth.Mpt.Reference.Coherent.{IsCoherent, IsCoherentData, AreCoherent}
use sp1_reth.Mpt.Insert.{
  Change, Changed, fork, insert_leaf, insert_beside, insert_internal, insert_data, insert_child,
}

module _ (codec : Codec) where
  abbrev pub CoherentChange : Change → Type 0
  CoherentChange (ok (some d)) = IsCoherentData codec d
  CoherentChange (ok none) = Unit
  CoherentChange (err e) = Unit
  CoherentChange panic = Unit

  abbrev pub CoherentNode : Changed → Type 0
  CoherentNode (ok (n, b)) = IsCoherent codec n
  CoherentNode (err e) = Unit
  CoherentNode panic = Unit

  abbrev pub CoherentSlots : Outcome Error (Option Children) → Type 0
  CoherentSlots (ok (some cs)) = AreCoherent codec cs
  CoherentSlots (ok none) = Unit
  CoherentSlots (err e) = Unit
  CoherentSlots panic = Unit

  set_child-CoherentSlots :
      (cs : Children) (i : ℕ) (n : MptNode)
      → AreCoherent codec cs
      → IsCoherent codec n
      → CoherentSlots (set_child cs i n >>= λ cs'. ok (some cs'))
  unfolding set_child IsCoherent
  set_child-CoherentSlots no_children i n h k = tt
  set_child-CoherentSlots (vacant cs) zero n h k = (k, h)
  set_child-CoherentSlots (child m cs) zero n h k = (k, h.1)
  set_child-CoherentSlots (vacant cs) (suc i) n h k =
      ground (arith, set_child-CoherentSlots cs i n h k)
  set_child-CoherentSlots (child m cs) (suc i) n h k =
      ground (arith, set_child-CoherentSlots cs i n h.1 k)

  fork-CoherentChange :
      (shared : List ℕ) (i j : ℕ) (a b : MptNode)
      → IsCoherent codec a
      → IsCoherent codec b
      → CoherentChange (fork shared i a j b)
  unfolding fork IsCoherent
  fork-CoherentChange shared i j a b ha hb =
      go (set_child (vacancies 16) i a) (set_child-CoherentSlots (vacancies 16) i a tt ha)
    where
      go :
          (r : Outcome Error Children)
          → CoherentSlots (r >>= λ cs. ok (some cs))
          → CoherentChange (
              r >>= λ one. set_child one j b >>= λ children.
              if ltb 0 (length shared)
              then ok (some (extension (to_encoded_path shared false) (from (branch children))))
              else ok (some (branch children)))
      go (ok one) h = ground (arith, set_child-CoherentSlots one j b h hb)
      go (err e) h = tt
      go panic h = tt

  insert_leaf-CoherentChange :
      (prefix : Bytes) (ns : List ℕ) (old : Bytes) (key : List ℕ) (value : Bytes)
      → CoherentChange (insert_leaf prefix ns old key value)
  unfolding insert_leaf IsCoherent
  insert_leaf-CoherentChange prefix ns old key value =
      let c = lcp ns key in
      ground (
        arith,
        fork-CoherentChange (take c ns) (get_or ns c 0) (get_or key c 0)
            (from (leaf (to_encoded_path (drop (c + 1) ns) true) old))
            (from (leaf (to_encoded_path (drop (c + 1) key) true) value)) (tt, tt) (tt, tt),
      )

  insert_beside-CoherentChange :
      (ns : List ℕ) (n : MptNode) (key : List ℕ) (value : Bytes)
      → IsCoherent codec n
      → CoherentChange (insert_beside ns n key value)
  unfolding insert_beside IsCoherent
  insert_beside-CoherentChange ns n key value h =
      let c = lcp ns key in
      ground (
        arith,
        fork-CoherentChange (take c ns) (get_or ns c 0) (get_or key c 0)
            (if ltb (c + 1) (length ns)
              then from (extension (to_encoded_path (drop (c + 1) ns) false) n)
              else n)
            (from (leaf (to_encoded_path (drop (c + 1) key) true) value)),
      )

  mutual
    unfolding insert_internal IsCoherent

    pub insert_internal-CoherentNode :
        (n : MptNode) (key : List ℕ) (value : Bytes)
        → IsCoherent codec n
        → CoherentNode (insert_internal n key value)
    insert_internal-CoherentNode (node d c) key value h =
        ground (arith, insert_data-CoherentChange d key value h.1)

    insert_data-CoherentChange :
        (d : MptNodeData) (key : List ℕ) (value : Bytes)
        → IsCoherentData codec d
        → CoherentChange (insert_data d key value)
    insert_data-CoherentChange null key value h = tt
    insert_data-CoherentChange (branch cs) [] value h = tt
    insert_data-CoherentChange (branch cs) (i ∷ key) value h =
        ground (arith, insert_child-CoherentSlots cs i key value h)
    insert_data-CoherentChange (leaf prefix old) key value h =
        elim (Outcome-cases {E = Error} (prefix_nibs prefix)) [
          | inl (ns, e) ↦ rw e (insert_leaf-CoherentChange prefix ns old key value)
          | inr (inl (x, e)) ↦ rw e tt
          | inr (inr e) ↦ rw e tt
        ]
    insert_data-CoherentChange (extension prefix n) key value h =
        elim (Outcome-cases {E = Error} (prefix_nibs prefix)) [
          | inl (ns, e) ↦ rw e (
              ground (
                arith,
                insert_internal-CoherentNode n (drop (lcp ns key) key) value h,
                insert_beside-CoherentChange ns n key value h,
              ))
          | inr (inl (x, e)) ↦ rw e tt
          | inr (inr e) ↦ rw e tt
        ]
    insert_data-CoherentChange (MptNodeData.digest x) key value h = tt

    insert_child-CoherentSlots :
        (cs : Children) (i : ℕ) (key : List ℕ) (value : Bytes)
        → AreCoherent codec cs
        → CoherentSlots (insert_child cs i key value)
    insert_child-CoherentSlots no_children i key value h = tt
    insert_child-CoherentSlots (vacant cs) zero key value h = ((tt, tt), h)
    insert_child-CoherentSlots (child n cs) zero key value h =
        ground (arith, insert_internal-CoherentNode n key value h.0)
    insert_child-CoherentSlots (vacant cs) (suc i) key value h =
        ground (arith, insert_child-CoherentSlots cs i key value h)
    insert_child-CoherentSlots (child n cs) (suc i) key value h =
        ground (arith, insert_child-CoherentSlots cs i key value h.1)
