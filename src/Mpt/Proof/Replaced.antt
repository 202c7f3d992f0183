-- ===== src/Mpt/Proof/Replaced.antt =====
-- A node that may be put in the place of another keeps its reference and its hash (primitives/src/mpt.rs).
use sp1_reth.Prelude.{◌≡◌, refl, sym, ap, ◌∙◌, true, false, none, some, Bool-cases, inl, inr}
use sp1_reth.Mpt.Node.{MptNode, node, MptNodeData, null, branch, leaf, extension, as_data, is_empty}
use sp1_reth.Mpt.Codec.{Codec}
use sp1_reth.Mpt.Reference.{reference, calc_reference, hash, digest_of}
use sp1_reth.Mpt.Reference.Coherent.{IsCoherent, calc_reference-erase}

module _ (codec : Codec) where
  -- With caches up to date, the reference is what the data gives.
  pub reference-calc_reference :
      (n : MptNode) → IsCoherent codec n → reference codec n ≡ calc_reference codec (as_data n)
  unfolding reference IsCoherent
  reference-calc_reference (node d (some r)) h = h.0 ∙ sym (calc_reference-erase codec d h.1)
  reference-calc_reference (node d none) h = refl

  pub hash-digest_of :
      (n : MptNode) → is_empty n ≡ false → hash codec n ≡ digest_of codec (reference codec n)
  unfolding hash
  hash-digest_of (node null c) h = cc
  hash-digest_of (node (branch cs) c) h = refl
  hash-digest_of (node (leaf p v) c) h = refl
  hash-digest_of (node (extension p n) c) h = refl
  hash-digest_of (node (MptNodeData.digest d) c) h = refl

  -- `t` can stand in the place of `n`.
  pub record Replaces (n t : MptNode) : Type 0 where
    pub coherent : IsCoherent codec t
    pub same_reference : reference codec t ≡ reference codec n
    pub same_emptiness : is_empty t ≡ is_empty n

  replaced : (n t : MptNode) → Replaces n t → is_empty n ≡ false → hash codec t ≡ hash codec n
  replaced n t r e =
      hash-digest_of t (r.same_emptiness ∙ e)
      ∙ (ap (digest_of codec) r.same_reference ∙ sym (hash-digest_of n e))

  empty-hash : (n t : MptNode) → is_empty n ≡ true → is_empty t ≡ true → hash codec t ≡ hash codec n
  unfolding hash
  empty-hash (node null c) (node null c') e f = refl
  empty-hash (node null c) (node (branch cs) c') e f = cc
  empty-hash (node null c) (node (leaf p v) c') e f = cc
  empty-hash (node null c) (node (extension p n) c') e f = cc
  empty-hash (node null c) (node (MptNodeData.digest d) c') e f = cc
  empty-hash (node (branch cs) c) t e f = cc
  empty-hash (node (leaf p v) c) t e f = cc
  empty-hash (node (extension p n) c) t e f = cc
  empty-hash (node (MptNodeData.digest d) c) t e f = cc

  pub Replaces-hash : (n t : MptNode) → Replaces n t → hash codec t ≡ hash codec n
  Replaces-hash n t r = elim (Bool-cases (is_empty n)) [
    | inl e ↦ empty-hash n t e (r.same_emptiness ∙ e)
    | inr e ↦ replaced n t r e
  ]
