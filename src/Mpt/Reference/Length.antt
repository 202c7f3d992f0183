-- ===== src/Mpt/Reference/Length.antt =====
-- `length` and `reference_length` measure what `encode` and `reference_encode` write.
use sp1_reth.Prelude.{
  ◌+◌, ◌≡◌, refl, List, [], ◌∷◌, ◌++◌, Option, none, some, arith, length, length-append, All,
}
use sp1_reth.Nibbles.{Bytes}
use sp1_reth.Mpt.Node.{
  MptNode, node, MptNodeData, null, branch, leaf, extension, MptNodeReference, Children,
  no_children, vacant, child,
}
use sp1_reth.Mpt.Codec.{Codec}
use sp1_reth.Mpt.Reference.{
  reference_encode, reference_length, slots_encode, slots_length, shorten, reference,
  calc_reference, references, encode, encoded_length,
}

length-append_bytes : (xs ys : Bytes) → length (xs ++ ys) ≡ length xs + length ys
length-append_bytes = length-append

ruleset lengths = (arith, length-append_bytes)

-- A digest has the 32 bytes of a hash.
abbrev pub IsSizedReference : MptNodeReference → Type 0
IsSizedReference (MptNodeReference.bytes bs) = Unit
IsSizedReference (MptNodeReference.digest d) = length d ≡ 32

abbrev pub IsSizedCache : Option MptNodeReference → Type 0
IsSizedCache none = Unit
IsSizedCache (some r) = IsSizedReference r

abbrev pub AreSizedReferences : List (Option MptNodeReference) → Type 0
AreSizedReferences rs = All IsSizedCache rs

-- Every digest in the trie and in its caches has 32 bytes.
unfoldable mutual
  pub IsSized : MptNode → Type 0
  IsSized (node d c) = IsSizedCache c × IsSizedData d

  pub IsSizedData : MptNodeData → Type 0
  IsSizedData null = Unit
  IsSizedData (branch cs) = AreSized cs
  IsSizedData (leaf prefix value) = Unit
  IsSizedData (extension prefix n) = IsSized n
  IsSizedData (MptNodeData.digest d) = length d ≡ 32

  pub AreSized : Children → Type 0
  AreSized no_children = Unit
  AreSized (vacant cs) = AreSized cs
  AreSized (child n cs) = IsSized n × AreSized cs

-- A reference is as long as its encoding.
pub length-reference_encode :
    (r : MptNodeReference) → IsSizedReference r → length (reference_encode r) ≡ reference_length r
unfolding reference_encode reference_length
length-reference_encode (MptNodeReference.bytes bs) h = refl
length-reference_encode (MptNodeReference.digest d) h = omega arith

pub length-slots_encode :
    (rs : List (Option MptNodeReference))
    → AreSizedReferences rs
    → length (slots_encode rs) ≡ slots_length rs
unfolding slots_encode slots_length
length-slots_encode [] h = refl
length-slots_encode (none ∷ rs) h = omega (arith, length-slots_encode rs h.1)
length-slots_encode (some r ∷ rs) h =
    omega (lengths, length-slots_encode rs h.1, length-reference_encode r h.0)

module _ (codec : Codec) where
  open codec use {
    keccak, length-keccak, encode_bytes, length-encode_bytes, length_bytes, length-encode_b256,
    encode_header, length-encode_header, length_of_length_short,
  }

  pub shorten-IsSized : (bs : Bytes) → IsSizedReference (shorten codec bs)
  unfolding shorten
  shorten-IsSized bs = ground (arith, length-keccak bs)

  mutual
    unfolding reference IsSized

    reference-IsSized : (n : MptNode) → IsSized n → IsSizedReference (reference codec n)
    reference-IsSized (node d (some r)) h = h.0
    reference-IsSized (node d none) h = calc_reference-IsSized d h.1

    calc_reference-IsSized :
        (d : MptNodeData) → IsSizedData d → IsSizedReference (calc_reference codec d)
    calc_reference-IsSized null h = tt
    calc_reference-IsSized (branch cs) h = shorten-IsSized _
    calc_reference-IsSized (leaf prefix value) h = shorten-IsSized _
    calc_reference-IsSized (extension prefix n) h = shorten-IsSized _
    calc_reference-IsSized (MptNodeData.digest d) h = h

    references-AreSized : (cs : Children) → AreSized cs → AreSizedReferences (references codec cs)
    references-AreSized no_children h = tt
    references-AreSized (vacant cs) h = (tt, references-AreSized cs h)
    references-AreSized (child n cs) h = (reference-IsSized n h.0, references-AreSized cs h.1)

  -- The computed length of a node is the number of bytes that its encoding has, for every kind of
  -- node whose digests have 32 bytes.
  pub length-encode :
      (d : MptNodeData) → IsSizedData d → length (encode codec d) ≡ encoded_length codec d
  unfolding encode encoded_length IsSized
  length-encode null h = omega (arith, length_of_length_short 0 (omega arith))
  length-encode (branch cs) h =
      let rs = references codec cs in
      omega (
        lengths,
        length-encode_header (1 + slots_length rs),
        length-slots_encode rs (references-AreSized cs h),
      )
  length-encode (leaf prefix value) h = omega (
    lengths,
    length-encode_header (length_bytes prefix + length_bytes value),
    length-encode_bytes prefix,
    length-encode_bytes value,
  )
  length-encode (extension prefix n) h =
      let r = reference codec n in
      omega (
        lengths,
        length-encode_header (length_bytes prefix + reference_length r),
        length-encode_bytes prefix,
        length-reference_encode r (reference-IsSized n h),
      )
  length-encode (MptNodeData.digest d) h =
      omega (arith, length-encode_b256 d h, length_of_length_short 32 (omega arith))
