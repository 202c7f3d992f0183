-- ===== src/Mpt/Decode/Stub.antt =====
-- What the encoding of a node (primitives/src/mpt.rs: `encode`, `reference_encode`) keeps of it.
use mathlib.Core.Path.{ap₂}
use sp1_reth.Prelude.{
  suc, ◌≡◌, refl, sym, ap, ◌∙◌, ◌∷◌, Option, none, some, arith, length, ltb, if◌then◌else◌,
  Bool-cases, inl, inr,
}
use sp1_reth.Nibbles.{Bytes}
use sp1_reth.Mpt.Node.{
  MptNode, node, MptNodeData, null, branch, leaf, extension, MptNodeReference, Children,
  no_children, vacant, child, capacity, from, is_empty,
}
use sp1_reth.Mpt.Codec.{Codec}
use sp1_reth.Mpt.Reference.{
  reference, calc_reference, references, shorten, encode, encode_branch, encode_extension,
}
use sp1_reth.Mpt.Reference.Coherent.{IsCoherent, AreCoherent}
use sp1_reth.Mpt.Proof.Replaced.{reference-calc_reference}

module _ (codec : Codec) where
  -- What an encoding keeps of a node inside another: the node if its encoding is short, else its hash.
  unfoldable pub inline : Bytes → MptNodeData → MptNode
  inline e d = if ltb (length e) 32 then from d else from (MptNodeData.digest (codec.keccak e))

  unfoldable mutual
    unfolding inline

    pub stub : MptNode → MptNode
    stub (node null c) = from null
    stub (node (MptNodeData.digest d) c) = from (MptNodeData.digest d)
    stub (node (branch cs) c) = inline (encode codec (branch cs)) (branch (stub_children cs))
    stub (node (leaf prefix value) c) =
        inline (encode codec (leaf prefix value)) (leaf prefix value)
    stub (node (extension prefix n) c) =
        inline (encode codec (extension prefix n)) (extension prefix (stub n))

    -- What an encoding keeps of the data.
    pub stub_data : MptNodeData → MptNodeData
    stub_data null = null
    stub_data (branch cs) = branch (stub_children cs)
    stub_data (leaf prefix value) = leaf prefix value
    stub_data (extension prefix n) = extension prefix (stub n)
    stub_data (MptNodeData.digest d) = MptNodeData.digest d

    pub stub_children : Children → Children
    stub_children no_children = no_children
    stub_children (vacant cs) = vacant (stub_children cs)
    stub_children (child n cs) = child (stub n) (stub_children cs)

  reference-inline :
      (e : Bytes) (d : MptNodeData)
      → calc_reference codec d ≡ shorten codec e
      → reference codec (inline e d) ≡ shorten codec e
  unfolding inline reference shorten
  reference-inline e d h = elim (Bool-cases (ltb (length e) 32)) [
    | inl short ↦
        let whole : shorten codec e ≡ MptNodeReference.bytes e = rw (short) refl in
        rw (short) (h ∙ whole)
    | inr long ↦ rw (long) refl
  ]

  calc_reference-stub :
      (d : MptNodeData) (c : Option MptNodeReference)
      → encode codec (stub_data d) ≡ encode codec d
      → reference codec (stub (node d c)) ≡ calc_reference codec d
  unfolding stub reference encode
  calc_reference-stub null c h = refl
  calc_reference-stub (branch cs) c h =
      reference-inline _ (branch (stub_children cs)) (ap (shorten codec) h)
  calc_reference-stub (leaf prefix value) c h =
      reference-inline _ (leaf prefix value) (ap (shorten codec) h)
  calc_reference-stub (extension prefix n) c h =
      reference-inline _ (extension prefix (stub n)) (ap (shorten codec) h)
  calc_reference-stub (MptNodeData.digest d) c h = refl

  mutual
    unfolding stub reference encode IsCoherent

    pub encode-stub_data :
        (d : MptNodeData) → IsCoherent codec (from d) → encode codec (stub_data d) ≡ encode codec d
    encode-stub_data null h = refl
    encode-stub_data (branch cs) h = ap (encode_branch codec) (references-stub_children cs h.1)
    encode-stub_data (leaf prefix value) h = refl
    encode-stub_data (extension prefix n) h =
        ap (encode_extension codec prefix) (reference-stub n h.1)
    encode-stub_data (MptNodeData.digest d) h = refl

    reference-stub :
        (n : MptNode) → IsCoherent codec n → reference codec (stub n) ≡ reference codec n
    reference-stub (node d c) h =
        calc_reference-stub d c (encode-stub_data d (tt, h.1))
        ∙ sym (reference-calc_reference codec (node d c) h)

    references-stub_children :
        (cs : Children)
        → AreCoherent codec cs
        → references codec (stub_children cs) ≡ references codec cs
    references-stub_children no_children h = refl
    references-stub_children (vacant cs) h = ap (λ rs. none ∷ rs) (references-stub_children cs h)
    references-stub_children (child n cs) h =
        ap₂ (λ r rs. some r ∷ rs) (reference-stub n h.0) (references-stub_children cs h.1)

  pub is_empty-stub : (n : MptNode) → is_empty (stub n) ≡ is_empty n
  unfolding stub
  is_empty-stub (node null c) = refl
  is_empty-stub (node (branch cs) c) = ground arith
  is_empty-stub (node (leaf prefix value) c) = ground arith
  is_empty-stub (node (extension prefix n) c) = ground arith
  is_empty-stub (node (MptNodeData.digest d) c) = refl

  pub capacity-stub_children : (cs : Children) → capacity (stub_children cs) ≡ capacity cs
  unfolding stub
  capacity-stub_children no_children = refl
  capacity-stub_children (vacant cs) = ap suc (capacity-stub_children cs)
  capacity-stub_children (child n cs) = ap suc (capacity-stub_children cs)
