-- ===== src/Nibbles/Tests.antt =====
-- The tests of the path encoding and of `lcp` in primitives/src/mpt.rs, and uses of the theorems.
use sp1_reth.Prelude.{ℕ, take, ◌≤◌, ◌≡◌, refl, true, false, List, [], ◌∷◌, ok, arith}
use sp1_reth.Nibbles.{to_encoded_path, prefix_nibs, lcp}
use sp1_reth.Nibbles.RoundTrip.{prefix_nibs-to_encoded_path}
use sp1_reth.Nibbles.CommonPrefix.{lcp-longest}

even_extension : to_encoded_path (0xa ∷ 0xb ∷ 0xc ∷ 0xd ∷ []) false ≡ 0x00 ∷ 0xab ∷ 0xcd ∷ []
unfolding to_encoded_path
even_extension = refl

odd_extension : to_encoded_path (0xa ∷ 0xb ∷ 0xc ∷ []) false ≡ 0x1a ∷ 0xbc ∷ []
unfolding to_encoded_path
odd_extension = refl

even_leaf : to_encoded_path (0xa ∷ 0xb ∷ 0xc ∷ 0xd ∷ []) true ≡ 0x20 ∷ 0xab ∷ 0xcd ∷ []
unfolding to_encoded_path
even_leaf = refl

odd_leaf : to_encoded_path (0xa ∷ 0xb ∷ 0xc ∷ []) true ≡ 0x3a ∷ 0xbc ∷ []
unfolding to_encoded_path
odd_leaf = refl

lcp_longer : lcp (0xa ∷ 0xb ∷ []) (0xa ∷ 0xb ∷ 0xc ∷ []) ≡ 2
unfolding lcp
lcp_longer = refl

lcp_differ : lcp (0xa ∷ 0xb ∷ []) (0xa ∷ 0xc ∷ []) ≡ 1
unfolding lcp
lcp_differ = refl

prefix_nibs-to_encoded_path_example :
    prefix_nibs {E = ℕ} (to_encoded_path (0xa ∷ 0xb ∷ 0xc ∷ []) true) ≡ ok (0xa ∷ 0xb ∷ 0xc ∷ [])
prefix_nibs-to_encoded_path_example =
    prefix_nibs-to_encoded_path (0xa ∷ 0xb ∷ 0xc ∷ []) true
      (omega arith, (omega arith, (omega arith, tt)))

abbrev left : List ℕ
left = 0xa ∷ 0xb ∷ []

abbrev right : List ℕ
right = 0xa ∷ 0xc ∷ []

lcp-longest_example :
    (take (lcp left right) left ≡ take (lcp left right) right)
    × (lcp left right ≤ 2)
    × (lcp left right ≤ 2)
    × ((n : ℕ) → n ≤ 2 → n ≤ 2 → take n left ≡ take n right → n ≤ lcp left right)
lcp-longest_example = lcp-longest left right
