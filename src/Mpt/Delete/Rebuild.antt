-- ===== src/Mpt/Delete/Rebuild.antt =====
-- The two ways in which a deletion rebuilds the node above: `adopt` and `rejoin`.
use sp1_reth.Prelude.{
  ℕ, ◌<◌, ◌≡◌, refl, List, [], ◌∷◌, ◌++◌, true, false, Option, none, Outcome, ok, err, panic, arith,
  ◌==◌, if◌then◌else◌, list_eq-append, strip_prefix, strip_prefix-append, All-append,
}
use sp1_reth.Nibbles.{Bytes, IsNibs, to_encoded_path, prefix_nibs}
use sp1_reth.Nibbles.RoundTrip.{
  IsPath, to_encoded_path-IsShared, IsShared-nibs, prefix_nibs-ok, prefix_nibs-to_encoded_path,
  to_encoded_path-IsPath,
}
use sp1_reth.Mpt.Node.{
  Error, MptNode, node, MptNodeData, MptNodeReference, null, branch, leaf, extension, digest,
  is_empty, is_null_data,
}
use sp1_reth.Mpt.Get.{Lookup, behind, hit, get_internal, get_data}
use sp1_reth.Mpt.Canonical.{IsCanonical, IsCanonicalData, is_branching}
use sp1_reth.Mpt.Delete.{adopt, rejoin}

-- A call that returns, with a result of which `P` holds.
abbrev pub Yields : {A : Type 0} → (A → Type 0) → Outcome Error A → Type 0
Yields P (ok a) = P a
Yields P (err e) = ⊥
Yields P panic = ⊥

-- Canonical data that is not empty and answers `ks` with `expected`.
abbrev pub Answers : List ℕ → Lookup → MptNodeData → Type 0
Answers ks expected d = IsCanonicalData d × (is_null_data d ≡ false) × (get_data d ks ≡ expected)

-- The lookup in a branch whose only child is `orphan`.
abbrev pub only : ℕ → MptNode → List ℕ → Lookup
only index orphan [] = ok none
only index orphan (j ∷ tail) = if j == index then get_internal orphan tail else ok none

-- `only` through the path that `adopt` writes, for a leaf and for what stands below an extension.
hit-only :
    (index : ℕ) (ns : List ℕ) (v p : Bytes) (c : Option MptNodeReference) (ks : List ℕ)
    → prefix_nibs {E = Error} p ≡ ok ns
    → hit (index ∷ ns) v ks ≡ only index (node (leaf p v) c) ks
unfolding get_data
hit-only index ns v p c [] q = refl
hit-only index ns v p c (j ∷ ks) q = ground arith

behind-only :
    (index : ℕ) (ns : List ℕ) (n : MptNode) (p : Bytes) (c : Option MptNodeReference) (ks : List ℕ)
    → prefix_nibs {E = Error} p ≡ ok ns
    → behind (get_internal n) (strip_prefix ks (index ∷ ns))
      ≡ only index (node (extension p n) c) ks
unfolding get_data
behind-only index ns n p c [] q = refl
behind-only index ns n p c (j ∷ ks) q = ground arith

wrap-only :
    (index : ℕ) (n : MptNode) (ks : List ℕ)
    → behind (get_internal n) (strip_prefix ks (index ∷ [])) ≡ only index n ks
wrap-only index n [] = refl
wrap-only index n (j ∷ ks) = ground arith

-- A branch or a digest gets an extension of one nibble.
wrap-Answers :
    (index : ℕ) (n : MptNode) (ks : List ℕ)
    → index < 16
    → IsCanonical n
    → is_branching n ≡ true
    → Answers ks (only index n ks) (extension (to_encoded_path (index ∷ []) false) n)
unfolding get_data IsCanonical
wrap-Answers index n ks b h e = (
  (
    to_encoded_path-IsPath (index ∷ []) false (b, tt),
    to_encoded_path-IsShared index [] false (b, tt),
    e,
    h,
  ),
  refl,
  rw (prefix_nibs-to_encoded_path {E = Error} (index ∷ []) false (b, tt)) (wrap-only index n ks),
)

-- What `adopt` makes of the last child answers like the branch with that child alone.
pub adopt-Answers :
    (index : ℕ) (orphan : MptNode) (ks : List ℕ)
    → index < 16
    → IsCanonical orphan
    → is_empty orphan ≡ false
    → Yields (Answers ks (only index orphan ks)) (adopt index orphan)
unfolding adopt get_data IsCanonical
adopt-Answers index (node null c) ks b h e = cc
adopt-Answers index (node (leaf p v) c) ks b h e =
    let (ns, hn, q) = prefix_nibs-ok {E = Error} p h in
    rw q (
      to_encoded_path-IsPath (index ∷ ns) true (b, hn),
      refl,
      rw (prefix_nibs-to_encoded_path {E = Error} (index ∷ ns) true (b, hn))
          (hit-only index ns v p c ks q),
    )
adopt-Answers index (node (extension p n) c) ks b h e =
    let (ns, hn, q) = prefix_nibs-ok {E = Error} p h.0 in
    rw q (
      (
        to_encoded_path-IsPath (index ∷ ns) false (b, hn),
        to_encoded_path-IsShared index ns false (b, hn),
        h.2,
        h.3,
      ),
      refl,
      rw (prefix_nibs-to_encoded_path {E = Error} (index ∷ ns) false (b, hn))
          (behind-only index ns n p c ks q),
    )
adopt-Answers index (node (branch cs) c) ks b h e =
    wrap-Answers index (node (branch cs) c) ks b h refl
adopt-Answers index (node (digest d) c) ks b h e =
    wrap-Answers index (node (digest d) c) ks b h refl

append-nibs :
    (ns ms : List ℕ) (v p : Bytes) (c : Option MptNodeReference) (ks : List ℕ)
    → prefix_nibs {E = Error} p ≡ ok ms
    → hit (ns ++ ms) v ks ≡ behind (get_internal (node (leaf p v) c)) (strip_prefix ks ns)
unfolding get_data
append-nibs ns ms v p c ks q = ground (arith, list_eq-append ns ms ks)

append-path :
    (ns ms : List ℕ) (n : MptNode) (p : Bytes) (c : Option MptNodeReference) (ks : List ℕ)
    → prefix_nibs {E = Error} p ≡ ok ms
    → behind (get_internal n) (strip_prefix ks (ns ++ ms))
      ≡ behind (get_internal (node (extension p n) c)) (strip_prefix ks ns)
unfolding get_data
append-path ns ms n p c ks q = ground (arith, strip_prefix-append ks ns ms)

-- What `rejoin` makes of a child that is not empty answers like an extension above it.
pub rejoin-Answers :
    (prefix : Bytes) (n : ℕ) (ns : List ℕ) (child' : MptNode) (ks : List ℕ)
    → IsPath prefix
    → prefix_nibs {E = Error} prefix ≡ ok (n ∷ ns)
    → IsNibs (n ∷ ns)
    → IsCanonical child'
    → is_empty child' ≡ false
    → Yields
        (Answers ks (behind (get_internal child') (strip_prefix ks (n ∷ ns))))
        (rejoin prefix (n ∷ ns) child')
unfolding rejoin get_data IsCanonical
rejoin-Answers prefix n ns (node null c) ks b q hn h e = cc
rejoin-Answers prefix n ns (node (leaf p v) c) ks b q hn h e =
    let (ms, hm, r) = prefix_nibs-ok {E = Error} p h in
    let ha = All-append _ (n ∷ ns) ms hn hm in
    rw r (
      to_encoded_path-IsPath (n ∷ ns ++ ms) true ha,
      refl,
      rw (prefix_nibs-to_encoded_path {E = Error} (n ∷ ns ++ ms) true ha)
          (append-nibs (n ∷ ns) ms v p c ks r),
    )
rejoin-Answers prefix n ns (node (extension p m) c) ks b q hn h e =
    let (ms, hm, r) = prefix_nibs-ok {E = Error} p h.0 in
    let ha = All-append _ (n ∷ ns) ms hn hm in
    rw r (
      (
        to_encoded_path-IsPath (n ∷ ns ++ ms) false ha,
        to_encoded_path-IsShared n (ns ++ ms) false ha,
        h.2,
        h.3,
      ),
      refl,
      rw (prefix_nibs-to_encoded_path {E = Error} (n ∷ ns ++ ms) false ha)
          (append-path (n ∷ ns) ms m p c ks r),
    )
rejoin-Answers prefix n ns (node (branch cs) c) ks b q hn h e =
    ((b, IsShared-nibs prefix (n ∷ ns) b q (cc), refl, h), refl, rw q)
rejoin-Answers prefix n ns (node (digest d) c) ks b q hn h e =
    ((b, IsShared-nibs prefix (n ∷ ns) b q (cc), refl, h), refl, rw q)
