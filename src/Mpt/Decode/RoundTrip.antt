-- ===== src/Mpt/Decode/RoundTrip.antt =====
-- Decoding (primitives/src/mpt.rs) reads what encoding wrote.
use mathlib.Core.Path.{ap₂}
use sp1_reth.Prelude.{
  ℕ, suc, ◌+◌, ◌≡◌, ◌≢◌, refl, sym, ap, ◌∙◌, subst, true, false, List, [], ◌∷◌, ◌++◌, Option, none,
  some, ok, arith, length, length-append, map, append_assoc, append-nil, ltb, Bool-cases, inl, inr,
}
use sp1_reth.Nibbles.{Bytes}
use sp1_reth.Nibbles.RoundTrip.{is_leaf_path}
use sp1_reth.Mpt.Node.{
  MptNode, node, MptNodeData, null, branch, leaf, extension, MptNodeReference, Children,
  no_children, vacant, child, capacity, from, is_empty,
}
use sp1_reth.Mpt.Codec.{Codec, empty_string_code}
use sp1_reth.Mpt.Reference.{
  reference, calc_reference, references, reference_encode, slots_encode, slots_length, shorten,
  encode, encode_branch, encode_leaf, encode_extension,
}
use sp1_reth.Mpt.Reference.Coherent.{IsCoherent, AreCoherent}
use sp1_reth.Mpt.Proof.Replaced.{reference-calc_reference}
use sp1_reth.Mpt.Decode.{RlpReader, decode, as_error}
use sp1_reth.Mpt.Decode.Laws.{RlpLaws, concat}
use sp1_reth.Mpt.Decode.Reads.{Reads, null-Reads, digest-Reads, leaf-Reads, extension-Reads}
use sp1_reth.Mpt.Decode.Stub.{
  inline, stub, stub_data, stub_children, encode-stub_data, is_empty-stub, capacity-stub_children,
}
use sp1_reth.Mpt.Decode.Branch.{Slots, no_children-Slots, vacant-Slots, child-Slots, branch-Reads}
use sp1_reth.Mpt.Reference.Length.{
  IsSizedReference, AreSizedReferences, length-reference_encode, length-slots_encode,
  shorten-IsSized,
}

-- The bytes of a slot of a branch.
abbrev slot_item : Option MptNodeReference → Bytes
slot_item none = empty_string_code ∷ []
slot_item (some r) = reference_encode r

concat-slots :
    (rs : List (Option MptNodeReference))
    → concat (map slot_item rs ++ (empty_string_code ∷ []) ∷ [])
      ≡ slots_encode rs ++ empty_string_code ∷ []
unfolding slots_encode
concat-slots [] = refl
concat-slots (none ∷ rs) = ap (λ bs. empty_string_code ∷ bs) (concat-slots rs)
concat-slots (some r ∷ rs) =
    ap (λ bs. reference_encode r ++ bs) (concat-slots rs)
    ∙ sym (append_assoc (reference_encode r) (slots_encode rs) (empty_string_code ∷ []))

-- What decoding can tell again: branches have 16 slots and no empty children, paths have the flag of
-- their node, and digests have 32 bytes.
unfoldable mutual
  pub IsEncodable : MptNode → Type 0
  IsEncodable (node d c) = IsEncodableData d

  pub IsEncodableData : MptNodeData → Type 0
  IsEncodableData null = Unit
  IsEncodableData (branch cs) = (capacity cs ≡ 16) × AreEncodable cs
  IsEncodableData (leaf prefix value) = is_leaf_path prefix ≡ true
  IsEncodableData (extension prefix n) =
      (prefix ≢ []) × (is_leaf_path prefix ≡ false) × IsEncodable n
  IsEncodableData (MptNodeData.digest d) = length d ≡ 32

  pub AreEncodable : Children → Type 0
  AreEncodable no_children = Unit
  AreEncodable (vacant cs) = AreEncodable cs
  AreEncodable (child n cs) = (is_empty n ≡ false) × IsEncodable n × AreEncodable cs

module _ (codec : Codec) where
  -- The payload of a list of two items.
  two_items :
      (x y : Bytes) (m n : ℕ)
      → length x ≡ m
      → length y ≡ n
      → (codec.encode_header (m + n) ++ (x ++ y)
          ≡ codec.encode_header (length (concat (x ∷ y ∷ []))) ++ concat (x ∷ y ∷ []))
  two_items x y m n p q =
      let one_end : y ++ [] ≡ y = append-nil y in
      let total : length (x ++ y) ≡ m + n = length-append x y ∙ ap₂ (λ a b. a + b) p q in
      rw (one_end, total) refl

  -- The payload of a branch.
  slots_and_value :
      (rs : List (Option MptNodeReference))
      → AreSizedReferences rs
      → (let xs = map slot_item rs ++ (empty_string_code ∷ []) ∷ [] in
          encode_branch codec rs ≡ codec.encode_header (length (concat xs)) ++ concat xs)
  slots_and_value rs sized =
      let value : Bytes = empty_string_code ∷ [] in
      let total : length (slots_encode rs ++ value) ≡ 1 + slots_length rs =
        omega (arith, length-append (slots_encode rs) value, length-slots_encode rs sized) in
      rw (concat-slots rs, total) refl

  module _ (reader : RlpReader) (laws : RlpLaws codec reader) where
    -- A node inside another is read from its reference.
    inline-Reads :
        (e : Bytes) (d : MptNodeData)
        → Reads codec reader laws e (from d)
        → Reads codec reader laws (reference_encode (shorten codec e)) (inline codec e d)
    unfolding inline shorten reference_encode
    inline-Reads e d k = elim (Bool-cases (ltb (length e) 32)) [
      | inl short ↦ rw (short) k
      | inr long ↦
          rw (long) (digest-Reads codec reader laws (codec.keccak e) (codec.length-keccak e))
    ]

    leaf_encode-Reads :
        (prefix value : Bytes)
        → is_leaf_path prefix ≡ true
        → Reads codec reader laws (encode_leaf codec prefix value) (from (leaf prefix value))
    leaf_encode-Reads prefix value h = leaf-Reads codec reader laws prefix value _ h (
        two_items (codec.encode_bytes prefix) (codec.encode_bytes value) _ _
          (codec.length-encode_bytes prefix) (codec.length-encode_bytes value))

    extension_encode-Reads :
        (prefix : Bytes) (r : MptNodeReference) (n : MptNode)
        → prefix ≢ []
        → is_leaf_path prefix ≡ false
        → Reads codec reader laws (reference_encode r) n
        → IsSizedReference r
        → Reads codec reader laws (encode_extension codec prefix r) (from (extension prefix n))
    extension_encode-Reads prefix r n p h k s =
        extension-Reads codec reader laws prefix (reference_encode r) n _ p h k (
          two_items (codec.encode_bytes prefix) (reference_encode r) _ _
            (codec.length-encode_bytes prefix) (length-reference_encode r s))

    branch_encode-Reads :
        (rs : List (Option MptNodeReference)) (cs : Children)
        → Slots codec reader laws (map slot_item rs) cs
        → capacity cs ≡ 16
        → AreSizedReferences rs
        → Reads codec reader laws (encode_branch codec rs) (from (branch cs))
    branch_encode-Reads rs cs s c sized =
        branch-Reads codec reader laws (map slot_item rs) cs _ s c (slots_and_value rs sized)

    calc_reference-IsSized :
        (d : MptNodeData) → IsEncodableData d → IsSizedReference (calc_reference codec d)
    unfolding reference IsEncodable
    calc_reference-IsSized null h = tt
    calc_reference-IsSized (branch cs) h = shorten-IsSized codec _
    calc_reference-IsSized (leaf prefix value) h = shorten-IsSized codec _
    calc_reference-IsSized (extension prefix n) h = shorten-IsSized codec _
    calc_reference-IsSized (MptNodeData.digest d) h = h

    reference-IsSized :
        (n : MptNode) → IsCoherent codec n → IsEncodable n → IsSizedReference (reference codec n)
    unfolding IsEncodable
    reference-IsSized (node d c) h k =
        subst IsSizedReference (sym (reference-calc_reference codec (node d c) h))
          (calc_reference-IsSized d k)

    references-AreSized :
        (cs : Children)
        → AreCoherent codec cs
        → AreEncodable cs
        → AreSizedReferences (references codec cs)
    unfolding IsEncodable IsCoherent reference
    references-AreSized no_children h k = tt
    references-AreSized (vacant cs) h k = (tt, references-AreSized cs h k)
    references-AreSized (child n cs) h k =
        (reference-IsSized n h.0 k.1, references-AreSized cs h.1 k.2)

    calc_reference-Reads :
        (d : MptNodeData) (c : Option MptNodeReference)
        → IsEncodableData d
        → Reads codec reader laws (encode codec d) (from (stub_data codec d))
        → Reads codec reader laws
            (reference_encode (calc_reference codec d))
            (stub codec (node d c))
    unfolding stub encode reference reference_encode IsEncodable
    calc_reference-Reads null c k h = h
    calc_reference-Reads (branch cs) c k h = inline-Reads _ _ h
    calc_reference-Reads (leaf prefix value) c k h = inline-Reads _ _ h
    calc_reference-Reads (extension prefix n) c k h = inline-Reads _ _ h
    calc_reference-Reads (MptNodeData.digest d) c k h = digest-Reads codec reader laws d k

    mutual
      unfolding stub encode IsEncodable IsCoherent

      encode-Reads :
          (d : MptNodeData)
          → IsCoherent codec (from d)
          → IsEncodableData d
          → Reads codec reader laws (encode codec d) (from (stub_data codec d))
      encode-Reads null h k = null-Reads codec reader laws
      encode-Reads (branch cs) h k =
          branch_encode-Reads (references codec cs) (stub_children codec cs)
            (references-Slots cs h.1 k.1) (capacity-stub_children codec cs ∙ k.0)
            (references-AreSized cs h.1 k.1)
      encode-Reads (leaf prefix value) h k = leaf_encode-Reads prefix value k
      encode-Reads (extension prefix n) h k =
          extension_encode-Reads prefix (reference codec n) (stub codec n) k.0 k.1
            (reference-Reads n h.1 k.2) (reference-IsSized n h.1 k.2)
      encode-Reads (MptNodeData.digest d) h k =
          subst (λ e. Reads codec reader laws e (from (MptNodeData.digest d)))
            (sym (laws.encode_b256_lem d k ∙ laws.encode_bytes_digest d k))
            (digest-Reads codec reader laws d k)

      reference-Reads :
          (n : MptNode)
          → IsCoherent codec n
          → IsEncodable n
          → Reads codec reader laws (reference_encode (reference codec n)) (stub codec n)
      reference-Reads (node d c) h k =
          subst (λ r. Reads codec reader laws (reference_encode r) (stub codec (node d c)))
            (sym (reference-calc_reference codec (node d c) h))
            (calc_reference-Reads d c k (encode-Reads d (tt, h.1) k))

      references-Slots :
          (cs : Children)
          → AreCoherent codec cs
          → AreEncodable cs
          → Slots codec reader laws (map slot_item (references codec cs)) (stub_children codec cs)
      references-Slots no_children h k = no_children-Slots codec reader laws
      references-Slots (vacant cs) h k =
          vacant-Slots codec reader laws _ _ (references-Slots cs h k)
      references-Slots (child n cs) h k =
          child-Slots codec reader laws (reference_encode (reference codec n)) (stub codec n) _ _
            (reference-Reads n h.0 k.1) (is_empty-stub codec n ∙ k.0) (references-Slots cs h.1 k.2)

    -- Decoding the encoding of a trie whose caches are up to date, whose branches have 16 slots and no
    -- empty child, whose paths have the flag of their node, and whose digests have 32 bytes, gives that
    -- trie with each child whose encoding has 32 bytes or more replaced by its hash, and this has the
    -- same encoding.
    pub decode-encode :
        (d : MptNodeData)
        → IsCoherent codec (from d)
        → IsEncodableData d
        → (decode reader (encode codec d) ≡ ok (from (stub_data codec d)))
          × (encode codec (stub_data codec d) ≡ encode codec d)
    unfolding decode
    decode-encode d h k =
        let reads = encode-Reads d h k in
        (
          ap (as_error reader) (reads.decoded (suc (length (encode codec d))) (omega arith)),
          encode-stub_data codec d h,
        )
