-- ===== src/Mpt/Insert/Stores.antt =====
-- What a lookup finds after an insertion.
use sp1_reth.Prelude.{
  ℕ, zero, suc, ◌≡◌, refl, sym, subst, List, [], ◌∷◌, ◌++◌, Bool, true, false, none, some, ok, err,
  panic, ◌>>=◌, arith, ◌==◌, length, if◌then◌else◌, strip_prefix, drop, list_eq, list_eq-append,
  strip_prefix-All, eq_of_strip_prefix, All-drop, Bool-cases, inl, inr,
}
use sp1_reth.Nibbles.{Bytes, IsNibs, prefix_nibs}
use sp1_reth.Nibbles.CommonPrefix.{common, lcp-common, common-le, strip_prefix-common}
use sp1_reth.Nibbles.RoundTrip.{prefix_nibs-ok, prefix_nibs-to_encoded_path}
use sp1_reth.Mpt.Node.{
  Error, MptNode, node, MptNodeData, null, branch, leaf, extension, Children, no_children, vacant,
  child,
}
use sp1_reth.Mpt.Get.{Lookup, behind, get_internal, get_data, get_child}
use sp1_reth.Mpt.Get.Behind.{behind_at}
use sp1_reth.Mpt.Canonical.{IsCanonical, IsCanonicalData, AreCanonical}
use sp1_reth.Mpt.Insert.{Change, Changed, settle, insert_internal, insert_data, insert_child}
use sp1_reth.Mpt.Insert.Leaf.{Stored, insert_leaf-Stored, insert_beside-Stored}

-- The same of a call on the node `self`, which `Ok(false)` leaves as it was.
abbrev pub StoredIn :
    (self : MptNode) (value : Bytes) (same : Bool) (at_key before : Lookup) (ks : List ℕ)
    → Changed
    → Type 0
StoredIn self value same at_key before ks (ok (n, false)) = (n ≡ self) × (at_key ≡ ok (some value))
StoredIn self value same at_key before ks (ok (n, true)) =
    get_internal n ks ≡ (if same then ok (some value) else before)
StoredIn self value same at_key before ks (err e) = Unit
StoredIn self value same at_key before ks panic = Unit

settle-StoredIn :
    (self : MptNode) (value : Bytes) (same : Bool) (at_key before : Lookup) (ks : List ℕ)
    (r : Change)
    → Stored value same at_key before (λ d. get_data d ks) r
    → StoredIn self value same at_key before ks (r >>= settle self)
unfolding get_internal
settle-StoredIn self value same at_key before ks (ok none) h = (refl, h)
settle-StoredIn self value same at_key before ks (ok (some d)) h = h
settle-StoredIn self value same at_key before ks (err e) h = tt
settle-StoredIn self value same at_key before ks panic h = tt

-- An insertion below an extension with the nibbles `ns`, which begin the key.
abbrev pub below : Bytes → Changed → Change
below prefix r = r >>= λ (n', done). ok (if done then some (extension prefix n') else none)

below-Stored :
    (prefix : Bytes) (ns rest : List ℕ) (n : MptNode) (value : Bytes) (ks : List ℕ) (r : Changed)
    → prefix_nibs {E = Error} prefix ≡ ok ns
    → ((t : List ℕ)
        → strip_prefix ks ns ≡ some t
        → StoredIn n value (list_eq rest t) (get_internal n rest) (get_internal n t) t r)
    → StoredIn n value (list_eq rest rest) (get_internal n rest) (get_internal n rest) rest r
    → Stored value
        (list_eq (ns ++ rest) ks)
        (get_internal n rest)
        (behind (get_internal n) (strip_prefix ks ns))
        (λ d. get_data d ks)
        (below prefix r)
unfolding get_data
below-Stored prefix ns rest n value ks (ok (n', false)) e h k = k.1
below-Stored prefix ns rest n value ks (ok (n', true)) e h k =
    rw (e, list_eq-append ns rest ks) (behind_at rest n n' (ok (some value)) (strip_prefix ks ns) h)
below-Stored prefix ns rest n value ks (err x) e h k = tt
below-Stored prefix ns rest n value ks panic e h k = tt

mutual
  unfolding insert_internal get_internal IsCanonical

  pub insert_internal-StoredIn :
      (n : MptNode) (key : List ℕ) (value : Bytes) (ks : List ℕ)
      → IsCanonical n
      → IsNibs key
      → IsNibs ks
      → StoredIn n value
          (list_eq key ks)
          (get_internal n key)
          (get_internal n ks)
          ks
          (insert_internal n key value)
  insert_internal-StoredIn (node d c) key value ks h hk hs =
      settle-StoredIn (node d c) value (list_eq key ks) (get_data d key) (get_data d ks) ks
        (insert_data d key value) (insert_data-Stored d key value ks h hk hs)

  insert_data-Stored :
      (d : MptNodeData) (key : List ℕ) (value : Bytes) (ks : List ℕ)
      → IsCanonicalData d
      → IsNibs key
      → IsNibs ks
      → Stored value
          (list_eq key ks)
          (get_data d key)
          (get_data d ks)
          (λ d'. get_data d' ks)
          (insert_data d key value)
  insert_data-Stored null key value ks h hk hs =
      rw (prefix_nibs-to_encoded_path {E = Error} key true hk)
  insert_data-Stored (branch cs) [] value ks h hk hs = tt
  insert_data-Stored (branch cs) (i ∷ key) value [] h hk hs =
      ground (arith, insert_child-Stored cs i i key value key h.2 hk.1 hk.1)
  insert_data-Stored (branch cs) (i ∷ key) value (j ∷ ks) h hk hs =
      ground (arith, insert_child-Stored cs i j key value ks h.2 hk.1 hs.1)
  insert_data-Stored (leaf prefix old) key value ks h hk hs =
      let (ns, hn, e) = prefix_nibs-ok {E = Error} prefix h in
      rw e (insert_leaf-Stored prefix ns old key value ks e hn hk hs)
  insert_data-Stored (extension prefix n) key value ks h hk hs =
      let (ns, hn, e) = prefix_nibs-ok {E = Error} prefix h.0 in
      let c = common ns key in
      let rest = drop c key in
      let hr = All-drop _ c key hk in
      elim (Bool-cases (c == length ns)) [
        | inl whole ↦
            let at_key = strip_prefix-common ns key (ground arith) in
            rw (e, lcp-common ns key, whole, at_key)
              (subst
                (λ m.
                  Stored value (list_eq m ks) (get_internal n rest)
                    (behind (get_internal n) (strip_prefix ks ns)) (λ d'. get_data d' ks)
                    (below prefix (insert_internal n rest value)))
                (sym (eq_of_strip_prefix key ns at_key))
                (below-Stored prefix ns rest n value ks (insert_internal n rest value) e
                  (λ t et.
                    insert_internal-StoredIn n rest value t h.3 hr (strip_prefix-All _ ks ns hs et))
                  (insert_internal-StoredIn n rest value rest h.3 hr hr)))
        | inr part ↦
            let bounds = common-le ns key in
            rw (e, lcp-common ns key, part)
              (insert_beside-Stored ns n key value ks
                (behind (get_internal n) (strip_prefix key ns)) (ground arith) hn hk hs)
      ]
  insert_data-Stored (MptNodeData.digest x) key value ks h hk hs = tt

  insert_child-Stored :
      (cs : Children) (i j : ℕ) (key : List ℕ) (value : Bytes) (ks : List ℕ)
      → AreCanonical cs
      → IsNibs key
      → IsNibs ks
      → Stored value
          (list_eq (i ∷ key) (j ∷ ks))
          (get_child cs i key)
          (get_child cs j ks)
          (λ cs'. get_child cs' j ks)
          (insert_child cs i key value)
  insert_child-Stored no_children i j key value ks h hk hs = tt
  insert_child-Stored (vacant cs) zero zero key value ks h hk hs =
      ground (arith, prefix_nibs-to_encoded_path {E = Error} key true hk)
  insert_child-Stored (vacant cs) zero (suc j) key value ks h hk hs = ground arith
  insert_child-Stored (child n cs) zero zero key value ks h hk hs =
      ground (arith, insert_internal-StoredIn n key value ks h.1 hk hs)
  insert_child-Stored (child n cs) zero (suc j) key value ks h hk hs =
      ground (arith, insert_internal-StoredIn n key value key h.1 hk hk)
  insert_child-Stored (vacant cs) (suc i) zero key value ks h hk hs =
      ground (arith, insert_child-Stored cs i i key value key h hk hk)
  insert_child-Stored (child n cs) (suc i) zero key value ks h hk hs =
      ground (arith, insert_child-Stored cs i i key value key h.2 hk hk)
  insert_child-Stored (vacant cs) (suc i) (suc j) key value ks h hk hs =
      ground (arith, insert_child-Stored cs i j key value ks h hk hs)
  insert_child-Stored (child n cs) (suc i) (suc j) key value ks h hk hs =
      ground (arith, insert_child-Stored cs i j key value ks h.2 hk hs)
