-- ===== src/Nibbles/CommonPrefix.antt =====
-- The common prefix that `lcp` (primitives/src/mpt.rs) measures.
use sp1_reth.Prelude.{
  ℕ, zero, suc, ◌+◌, ◌≤◌, ◌<◌, ◌≡◌, ◌≢◌, refl, sym, subst, List, [], ◌∷◌, ◌++◌, none, some, arith,
  min, ◌==◌, if◌then◌else◌, length, get_or, take, drop, strip_prefix,
}
use sp1_reth.Nibbles.{lcp_loop, lcp}

-- The longest common prefix by recursion on both lists.
pub common : List ℕ → List ℕ → ℕ
common [] b = 0
common (x ∷ a) [] = 0
common (x ∷ a) (y ∷ b) = let rest = suc (common a b) in if x == y then rest else 0

lcp_loop-common :
    (a b : List ℕ) (i : ℕ)
    → (elim (lcp_loop a b i) [ some j ↦ j | none ↦ i + min (length a) (length b) ]) ≡ i + common a b
unfolding lcp_loop common
lcp_loop-common [] b i = omega arith
lcp_loop-common (x ∷ a) [] i = omega arith
lcp_loop-common (x ∷ a) (y ∷ b) i = ground (arith, lcp_loop-common a b (i + 1))

pub lcp-common : (a b : List ℕ) → lcp a b ≡ common a b
unfolding lcp
lcp-common a b = ground (arith, lcp_loop-common a b 0)

pub common-le : (a b : List ℕ) → (common a b ≤ length a) × (common a b ≤ length b)
unfolding common
common-le [] b = omega arith
common-le (x ∷ a) [] = omega arith
common-le (x ∷ a) (y ∷ b) = ground (arith, common-le a b)

-- Where the common prefix is shorter than both lists, they go on with different nibbles behind it.
pub common_split :
    (a b : List ℕ)
    → common a b < length a
    → common a b < length b
    → let n = common a b in
      (a ≡ take n a ++ get_or a n 0 ∷ drop (suc n) a)
      × (b ≡ take n a ++ get_or b n 0 ∷ drop (suc n) b)
      × (get_or a n 0 ≢ get_or b n 0)
unfolding common
common_split [] b p q = absurd (omega arith)
common_split (x ∷ a) [] p q = absurd (omega arith)
common_split (x ∷ a) (y ∷ b) p q = ground (arith, common_split a b)

-- Where it is the whole of the first list, the second one goes on from there.
pub strip_prefix-common :
    (a b : List ℕ) → common a b ≡ length a → strip_prefix b a ≡ some (drop (common a b) b)
unfolding common
strip_prefix-common [] b e = refl
strip_prefix-common (x ∷ a) [] e = absurd (omega arith)
strip_prefix-common (x ∷ a) (y ∷ b) e = ground (arith, strip_prefix-common a b)

-- Where it is the whole of both, they are equal.
pub eq_of_common : (a b : List ℕ) → common a b ≡ length a → common a b ≡ length b → a ≡ b
unfolding common
eq_of_common [] [] p q = refl
eq_of_common [] (y ∷ b) p q = absurd (omega arith)
eq_of_common (x ∷ a) [] p q = absurd (omega arith)
eq_of_common (x ∷ a) (y ∷ b) p q = ground (arith, eq_of_common a b)

take-common : (a b : List ℕ) → take (common a b) a ≡ take (common a b) b
unfolding common
take-common [] [] = refl
take-common [] (y ∷ b) = refl
take-common (x ∷ a) [] = refl
take-common (x ∷ a) (y ∷ b) = ground (arith, take-common a b)

common-longest :
    (a b : List ℕ) (n : ℕ) → n ≤ length a → n ≤ length b → take n a ≡ take n b → n ≤ common a b
unfolding common
common-longest a b zero p q e = omega arith
common-longest [] b (suc n) p q e = omega arith
common-longest (x ∷ a) [] (suc n) p q e = omega arith
common-longest (x ∷ a) (y ∷ b) (suc n) p q e =
    let same : x ≡ y = cc in
    let tails : take n a ≡ take n b = cc in
    let rest = common-longest a b n (omega arith) (omega arith) tails in ground arith

-- `lcp` returns the length of the longest common prefix: the lists agree up to there, and no longer
-- part of both agrees.
pub lcp-longest :
    (a b : List ℕ)
    → (take (lcp a b) a ≡ take (lcp a b) b)
      × (lcp a b ≤ length a)
      × (lcp a b ≤ length b)
      × ((n : ℕ) → n ≤ length a → n ≤ length b → take n a ≡ take n b → n ≤ lcp a b)
lcp-longest a b =
    let at = sym (lcp-common a b) in
    let bounds = common-le a b in
    (
      subst (λ k. take k a ≡ take k b) at (take-common a b),
      subst (λ k. k ≤ length a) at bounds.0,
      subst (λ k. k ≤ length b) at bounds.1,
      λ n p q e. subst (λ k. n ≤ k) at (common-longest a b n p q e),
    )
