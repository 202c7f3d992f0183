-- ===== src/Mpt/Delete/Removes.antt =====
-- What a lookup finds after a deletion, and the shape of the trie.
use sp1_reth.Prelude.{
  ℕ, zero, suc, ◌<◌, ◌≡◌, refl, sym, subst, List, [], ◌∷◌, false, some, arith, ◌==◌, strip_prefix,
  list_eq, strip_prefix-All, eq_of_strip_prefix, Option-cases, inl, inr,
}
use sp1_reth.Nibbles.{IsNibs}
use sp1_reth.Nibbles.RoundTrip.{prefix_nibs-ok, prefix_nibs-shared}
use sp1_reth.Mpt.Node.{
  Error, MptNode, node, MptNodeData, null, branch, leaf, extension, Children, no_children, vacant,
  child, capacity,
}
use sp1_reth.Mpt.Get.{behind, get_internal, get_data, get_child}
use sp1_reth.Mpt.Canonical.{IsCanonical, IsCanonicalData, AreCanonical}
use sp1_reth.Mpt.Delete.{delete_internal, delete_data, delete_child, delete_below}
use sp1_reth.Mpt.Delete.Removed.{
  Removed, RemovedIn, RemovedChild, without, branch-Removed, child-Removed, beside-Removed,
  below-Removed, leaf-Removed,
}

zero_ne_suc : (j : ℕ) → (0 == suc j) ≡ false
zero_ne_suc j = ground arith

mutual
  unfolding delete_internal get_internal IsCanonical

  pub delete_internal-RemovedIn :
      (n : MptNode) (key ks : List ℕ)
      → IsCanonical n
      → IsNibs key
      → IsNibs ks
      → RemovedIn n ks
          (get_internal n key)
          (without (list_eq key ks) (get_internal n ks))
          (delete_internal n key)
  delete_internal-RemovedIn (node d c) key ks h hk hs =
      ground (arith, delete_data-Removed d key ks h hk hs)

  delete_data-Removed :
      (d : MptNodeData) (key ks : List ℕ)
      → IsCanonicalData d
      → IsNibs key
      → IsNibs ks
      → Removed d ks (get_data d key) (without (list_eq key ks) (get_data d ks)) (delete_data d key)
  delete_data-Removed null key ks h hk hs = refl
  delete_data-Removed (branch cs) [] ks h hk hs = tt
  delete_data-Removed (branch cs) (i ∷ key) ks h hk hs =
      branch-Removed cs i key ks (delete_child cs i key) h hs
        (λ j t e.
          delete_child-RemovedChild cs i j key t h.2 (ground arith) hk.1 (subst IsNibs e hs).1)
        (delete_child-RemovedChild cs i i key key h.2 (ground arith) hk.1 hk.1)
  delete_data-Removed (leaf prefix value) key ks h hk hs =
      let (ns, hn, e) = prefix_nibs-ok {E = Error} prefix h in
      rw e (leaf-Removed prefix ns value key ks)
  delete_data-Removed (extension prefix n) key ks h hk hs =
      let (m, ms, hm, e) = prefix_nibs-shared {E = Error} prefix h.0 h.1 in
      elim (Option-cases (strip_prefix key (m ∷ ms))) [
        | inl apart ↦ rw (e, apart)
        | inr (rest, at_key) ↦
            let hr = strip_prefix-All _ key (m ∷ ms) hk at_key in
            rw (e, at_key)
              (subst
                (λ k.
                  Removed (extension prefix n) ks (get_internal n rest)
                    (without (list_eq k ks) (behind (get_internal n) (strip_prefix ks (m ∷ ms))))
                    (delete_below prefix (m ∷ ms) (delete_internal n) (some rest)))
                (sym (eq_of_strip_prefix key (m ∷ ms) at_key))
                (below-Removed prefix m ms rest n ks (delete_internal n rest) h e hm
                  (λ t et.
                    delete_internal-RemovedIn n rest t h.3 hr
                      (strip_prefix-All _ ks (m ∷ ms) hs et))
                  (delete_internal-RemovedIn n rest rest h.3 hr hr)))
      ]
  delete_data-Removed (MptNodeData.digest x) key ks h hk hs = tt

  delete_child-RemovedChild :
      (cs : Children) (i j : ℕ) (key ks : List ℕ)
      → AreCanonical cs
      → i < capacity cs
      → IsNibs key
      → IsNibs ks
      → RemovedChild cs j ks
          (get_child cs i key)
          (without (list_eq (i ∷ key) (j ∷ ks)) (get_child cs j ks))
          (delete_child cs i key)
  delete_child-RemovedChild no_children i j key ks h b hk hs = absurd (omega arith)
  delete_child-RemovedChild (vacant cs) zero j key ks h b hk hs = refl
  delete_child-RemovedChild (child n cs) zero zero key ks h b hk hs =
      child-Removed n cs ks _ _ _ h (delete_internal-RemovedIn n key ks h.1 hk hs)
  delete_child-RemovedChild (child n cs) zero (suc j) key ks h b hk hs =
      rw (zero_ne_suc j)
        (beside-Removed n cs j ks key _ _ _ h (delete_internal-RemovedIn n key key h.1 hk hk))
  delete_child-RemovedChild (vacant cs) (suc i) zero key ks h b hk hs =
      ground (arith, delete_child-RemovedChild cs i i key key h (omega arith) hk hk)
  delete_child-RemovedChild (child n cs) (suc i) zero key ks h b hk hs =
      ground (arith, delete_child-RemovedChild cs i i key key h.2 (omega arith) hk hk)
  delete_child-RemovedChild (vacant cs) (suc i) (suc j) key ks h b hk hs =
      ground (arith, delete_child-RemovedChild cs i j key ks h (omega arith) hk hs)
  delete_child-RemovedChild (child n cs) (suc i) (suc j) key ks h b hk hs =
      ground (arith, delete_child-RemovedChild cs i j key ks h.2 (omega arith) hk hs)
