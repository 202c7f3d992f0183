-- ===== src/Mpt/Delete/Cache.antt =====
-- `delete_internal` drops the cached references that it makes stale (`invalidate_ref_cache`).
use sp1_reth.Prelude.{
  ℕ, zero, suc, List, [], ◌∷◌, true, false, Option, none, some, Outcome, ok, err, panic, ◌>>=◌,
  arith, if◌then◌else◌, strip_prefix, All, Outcome-cases, Option-cases, inl, inr,
}
use sp1_reth.Nibbles.{Bytes, prefix_nibs}
use sp1_reth.Mpt.Node.{
  Error, MptNode, node, MptNodeData, null, branch, leaf, extension, digest, Children, no_children,
  vacant, child,
}
use sp1_reth.Mpt.Codec.{Codec}
use sp1_reth.Mpt.Reference.Coherent.{IsCoherent, IsCoherentData, AreCoherent}
use sp1_reth.Mpt.Insert.{Changed}
use sp1_reth.Mpt.Insert.Cache.{CoherentChange, CoherentNode, CoherentSlots}
use sp1_reth.Mpt.Delete.{
  remaining, adopt, collapse, rejoin, delete_internal, delete_data, delete_child,
}

module _ (codec : Codec) where
  remaining-IsCoherent :
      (i : ℕ) (cs : Children)
      → AreCoherent codec cs
      → All (λ (x : ℕ × MptNode). IsCoherent codec x.1) (remaining i cs)
  unfolding remaining IsCoherent
  remaining-IsCoherent i no_children h = tt
  remaining-IsCoherent i (vacant cs) h = remaining-IsCoherent (suc i) cs h
  remaining-IsCoherent i (child n cs) h = (h.0, remaining-IsCoherent (suc i) cs h.1)

  adopt-coherent :
      (i : ℕ) (n : MptNode)
      → IsCoherent codec n
      → CoherentChange codec (adopt i n >>= λ d. ok (some d))
  unfolding adopt IsCoherent
  adopt-coherent i (node null c) h = tt
  adopt-coherent i (node (leaf p v) c) h = ground arith
  adopt-coherent i (node (extension p n) c) h = ground arith
  adopt-coherent i (node (branch cs) c) h = h
  adopt-coherent i (node (digest d) c) h = h

  collapse-coherent :
      (cs : Children) (l : List (ℕ × MptNode))
      → AreCoherent codec cs
      → All (λ (x : ℕ × MptNode). IsCoherent codec x.1) l
      → CoherentChange codec (collapse cs l >>= λ d. ok (some d))
  unfolding collapse IsCoherent
  collapse-coherent cs [] h k = tt
  collapse-coherent cs ((i, n) ∷ []) h k = adopt-coherent i n k.0
  collapse-coherent cs (x ∷ y ∷ l) h k = h

  rejoin-coherent :
      (p : Bytes) (ns : List ℕ) (n : MptNode)
      → IsCoherent codec n
      → CoherentChange codec (rejoin p ns n >>= λ d. ok (some d))
  unfolding rejoin IsCoherent
  rejoin-coherent p ns (node null c) h = tt
  rejoin-coherent p ns (node (leaf q v) c) h = ground arith
  rejoin-coherent p ns (node (extension q n) c) h = ground arith
  rejoin-coherent p ns (node (branch cs) c) h = h
  rejoin-coherent p ns (node (digest d) c) h = h

  branch_end-coherent :
      (r : Outcome Error (Option Children))
      → CoherentSlots codec r
      → CoherentChange codec (
          r >>= λ o. elim o [
            | none ↦ ok none
            | some cs' ↦ collapse cs' (remaining 0 cs') >>= λ d. ok (some d)
          ])
  branch_end-coherent (ok none) h = tt
  branch_end-coherent (ok (some cs)) h =
      collapse-coherent cs (remaining 0 cs) h (remaining-IsCoherent 0 cs h)
  branch_end-coherent (err e) h = tt
  branch_end-coherent panic h = tt

  below_end-coherent :
      (p : Bytes) (ns : List ℕ) (r : Changed)
      → CoherentNode codec r
      → CoherentChange codec
          (r >>= λ (n', done). if done then (rejoin p ns n' >>= λ d. ok (some d)) else ok none)
  below_end-coherent p ns (ok (n, true)) h = rejoin-coherent p ns n h
  below_end-coherent p ns (ok (n, false)) h = tt
  below_end-coherent p ns (err e) h = tt
  below_end-coherent p ns panic h = tt

  mutual
    unfolding delete_internal IsCoherent

    pub delete_internal-CoherentNode :
        (n : MptNode) (key : List ℕ)
        → IsCoherent codec n
        → CoherentNode codec (delete_internal n key)
    delete_internal-CoherentNode (node d c) key h =
        ground (arith, delete_data-CoherentChange d key h.1)

    delete_data-CoherentChange :
        (d : MptNodeData) (key : List ℕ)
        → IsCoherentData codec d
        → CoherentChange codec (delete_data d key)
    delete_data-CoherentChange null key h = tt
    delete_data-CoherentChange (branch cs) [] h = tt
    delete_data-CoherentChange (branch cs) (i ∷ key) h =
        branch_end-coherent (delete_child cs i key) (delete_child-CoherentSlots cs i key h)
    delete_data-CoherentChange (leaf prefix value) key h = ground arith
    delete_data-CoherentChange (extension prefix n) key h =
        elim (Outcome-cases {E = Error} (prefix_nibs prefix)) [
          | inl (ns, e) ↦ elim (Option-cases (strip_prefix key ns)) [
            | inl apart ↦ rw (e, apart) tt
            | inr (tail, at) ↦
                rw (e, at)
                  (below_end-coherent prefix ns (delete_internal n tail)
                    (delete_internal-CoherentNode n tail h))
          ]
          | inr (inl (x, e)) ↦ rw e tt
          | inr (inr e) ↦ rw e tt
        ]
    delete_data-CoherentChange (MptNodeData.digest x) key h = tt

    delete_child-CoherentSlots :
        (cs : Children) (i : ℕ) (key : List ℕ)
        → AreCoherent codec cs
        → CoherentSlots codec (delete_child cs i key)
    delete_child-CoherentSlots no_children i key h = tt
    delete_child-CoherentSlots (vacant cs) zero key h = tt
    delete_child-CoherentSlots (child n cs) zero key h =
        ground (arith, delete_internal-CoherentNode n key h.0)
    delete_child-CoherentSlots (vacant cs) (suc i) key h =
        ground (arith, delete_child-CoherentSlots cs i key h)
    delete_child-CoherentSlots (child n cs) (suc i) key h =
        ground (arith, delete_child-CoherentSlots cs i key h.1)
