-- ===== src/Mpt/Proof/Resolve.antt =====
-- Resolving digests from a store keeps references and hashes: `resolve_nodes`
-- (primitives/src/mpt.rs).
use mathlib.Core.Path.{ap₂}
use sp1_reth.Prelude.{
  ℕ, zero, suc, ◌≡◌, refl, sym, subst, ap, ◌∙◌, false, ◌∷◌, Option, none, some, Option-cases, inl,
  inr,
}
use sp1_reth.Nibbles.{Bytes}
use sp1_reth.Mpt.Node.{
  B256, MptNode, node, MptNodeData, null, branch, leaf, extension, MptNodeReference, Children,
  no_children, vacant, child, from, is_empty,
}
use sp1_reth.Mpt.Codec.{Codec}
use sp1_reth.Mpt.Reference.{reference, references, hash, shorten, encode_branch, encode_extension}
use sp1_reth.Mpt.Reference.Coherent.{IsCoherent, AreCoherent}
use sp1_reth.Mpt.Proof.{NodeStore, resolve_with, resolve_children, resolve_nodes}
use sp1_reth.Mpt.Proof.Replaced.{Replaces, Replaces-hash, reference-calc_reference}

module _ (codec : Codec) where
  -- Each node of the store is there under its own digest.
  abbrev pub IsSound : NodeStore → Type 0
  IsSound store =
      (d : B256) (n : MptNode)
      → store d ≡ some n
      → IsCoherent codec n × (reference codec n ≡ MptNodeReference.digest d)

  abbrev ReplacesIf : MptNode → Option MptNode → Type 0
  ReplacesIf n none = Unit
  ReplacesIf n (some t) = Replaces codec n t

  abbrev SameSlots : Children → Option Children → Type 0
  SameSlots cs none = Unit
  SameSlots cs (some cs') = AreCoherent codec cs' × (references codec cs' ≡ references codec cs)

  self : (n : MptNode) → IsCoherent codec n → Replaces codec n n
  self n h = record { coherent = h; same_reference = refl; same_emptiness = refl }

  branch-ReplacesIf :
      (cs : Children) (c : Option MptNodeReference) (o : Option Children)
      → IsCoherent codec (node (branch cs) c)
      → SameSlots cs o
      → ReplacesIf
          (node (branch cs) c)
          (elim o [ none ↦ none | some cs' ↦ some (from (branch cs')) ])
  unfolding reference IsCoherent
  branch-ReplacesIf cs c none h k = tt
  branch-ReplacesIf cs c (some cs') h k = record {
    coherent = (tt, k.0);
    same_reference =
        ap (λ rs. shorten codec (encode_branch codec rs)) k.1
        ∙ sym (reference-calc_reference codec (node (branch cs) c) h);
    same_emptiness = refl;
  }

  extension-ReplacesIf :
      (p : Bytes) (n : MptNode) (c : Option MptNodeReference) (o : Option MptNode)
      → IsCoherent codec (node (extension p n) c)
      → ReplacesIf n o
      → ReplacesIf
          (node (extension p n) c)
          (elim o [ none ↦ none | some n' ↦ some (from (extension p n')) ])
  unfolding reference IsCoherent
  extension-ReplacesIf p n c none h k = tt
  extension-ReplacesIf p n c (some t) h k = record {
    coherent = (tt, k.coherent);
    same_reference =
        ap (λ x. shorten codec (encode_extension codec p x)) k.same_reference
        ∙ sym (reference-calc_reference codec (node (extension p n) c) h);
    same_emptiness = refl;
  }

  vacant-SameSlots :
      (cs : Children) (o : Option Children)
      → SameSlots cs o
      → SameSlots (vacant cs) (elim o [ none ↦ none | some cs' ↦ some (vacant cs') ])
  unfolding reference IsCoherent
  vacant-SameSlots cs none k = tt
  vacant-SameSlots cs (some cs') k = (k.0, ap (λ rs. none ∷ rs) k.1)

  child-SameSlots :
      (n : MptNode) (cs : Children) (o : Option MptNode) (os : Option Children)
      → ReplacesIf n o
      → SameSlots cs os
      → SameSlots (child n cs) (elim o [
        | none ↦ none
        | some n' ↦ elim os [ none ↦ none | some cs' ↦ some (child n' cs') ]
      ])
  unfolding reference IsCoherent
  child-SameSlots n cs none os k ks = tt
  child-SameSlots n cs (some t) none k ks = tt
  child-SameSlots n cs (some t) (some cs') k ks =
      ((k.coherent, ks.0), ap₂ (λ r rs. some r ∷ rs) k.same_reference ks.1)

  -- What stands under a digest is not empty: an empty node is not referenced by a hash.
  stored-not_empty :
      (d : B256) (n : MptNode)
      → IsCoherent codec n
      → reference codec n ≡ MptNodeReference.digest d
      → is_empty n ≡ false
  unfolding reference
  stored-not_empty d (node null c) h e = cc (reference-calc_reference codec (node null c) h)
  stored-not_empty d (node (branch cs) c) h e = refl
  stored-not_empty d (node (leaf p v) c) h e = refl
  stored-not_empty d (node (extension p n) c) h e = refl
  stored-not_empty d (node (MptNodeData.digest x) c) h e = refl

  stored-ReplacesIf :
      (d : B256) (c : Option MptNodeReference) (n : MptNode) (o : Option MptNode)
      → IsCoherent codec (node (MptNodeData.digest d) c)
      → IsCoherent codec n
      → reference codec n ≡ MptNodeReference.digest d
      → ReplacesIf n o
      → ReplacesIf (node (MptNodeData.digest d) c) o
  unfolding reference
  stored-ReplacesIf d c n none h hn e k = tt
  stored-ReplacesIf d c n (some t) h hn e k = record {
    coherent = k.coherent;
    same_reference =
        k.same_reference
        ∙ (e ∙ sym (reference-calc_reference codec (node (MptNodeData.digest d) c) h));
    same_emptiness = k.same_emptiness ∙ stored-not_empty d n hn e;
  }

  mutual
    unfolding resolve_with reference IsCoherent

    resolve_with-ReplacesIf :
        (store : NodeStore) (next : MptNode → Option MptNode)
        → ((d : B256) (n : MptNode) → store d ≡ some n → ReplacesIf n (next n))
        → IsSound store
        → (n : MptNode) → IsCoherent codec n
        → ReplacesIf n (resolve_with store next n)
    resolve_with-ReplacesIf store next f s (node null c) h = self (node null c) h
    resolve_with-ReplacesIf store next f s (node (leaf p v) c) h = self (node (leaf p v) c) h
    resolve_with-ReplacesIf store next f s (node (branch cs) c) h =
        branch-ReplacesIf cs c (resolve_children store next cs) h
          (resolve_children-SameSlots store next f s cs h.1)
    resolve_with-ReplacesIf store next f s (node (extension p n) c) h =
        extension-ReplacesIf p n c (resolve_with store next n) h
          (resolve_with-ReplacesIf store next f s n h.1)
    resolve_with-ReplacesIf store next f s (node (MptNodeData.digest d) c) h =
        elim (Option-cases (store d)) [
          | inl missing ↦ rw (missing, resolve_with) (self (node (MptNodeData.digest d) c) h)
          | inr (n, found) ↦
              rw (found, resolve_with)
                (stored-ReplacesIf d c n (next n) h (s d n found).0 (s d n found).1 (f d n found))
        ]

    resolve_children-SameSlots :
        (store : NodeStore) (next : MptNode → Option MptNode)
        → ((d : B256) (n : MptNode) → store d ≡ some n → ReplacesIf n (next n))
        → IsSound store
        → (cs : Children) → AreCoherent codec cs
        → SameSlots cs (resolve_children store next cs)
    resolve_children-SameSlots store next f s no_children h = (tt, refl)
    resolve_children-SameSlots store next f s (vacant cs) h =
        vacant-SameSlots cs (resolve_children store next cs)
          (resolve_children-SameSlots store next f s cs h)
    resolve_children-SameSlots store next f s (child n cs) h =
        child-SameSlots n cs (resolve_with store next n) (resolve_children store next cs)
          (resolve_with-ReplacesIf store next f s n h.0)
          (resolve_children-SameSlots store next f s cs h.1)

  resolve_nodes-ReplacesIf :
      (fuel : ℕ) (store : NodeStore) (root : MptNode)
      → IsSound store
      → IsCoherent codec root
      → ReplacesIf root (resolve_nodes fuel store root)
  unfolding resolve_nodes
  resolve_nodes-ReplacesIf zero store root s h =
      resolve_with-ReplacesIf store (λ _. none) (λ d n e. tt) s root h
  resolve_nodes-ReplacesIf (suc fuel) store root s h =
      resolve_with-ReplacesIf store (resolve_nodes fuel store)
        (λ d n e. resolve_nodes-ReplacesIf fuel store n s (s d n e).0) s root h

  -- On a store that has each node under its own digest, resolving digests keeps the hash of the
  -- root, and leaves cached references that are up to date.
  pub resolve_nodes-hash :
      (fuel : ℕ) (store : NodeStore) (root t : MptNode)
      → IsSound store
      → IsCoherent codec root
      → resolve_nodes fuel store root ≡ some t
      → IsCoherent codec t × (hash codec t ≡ hash codec root)
  resolve_nodes-hash fuel store root t s h e =
      let k = subst (ReplacesIf root) e (resolve_nodes-ReplacesIf fuel store root s h) in
      (k.coherent, Replaces-hash codec root t k)
