-- ===== src/Mpt/Delete/Collapse.antt =====
-- A branch that loses a child: `collapse` answers like the branch that is left.
use sp1_reth.Prelude.{
  ℕ, zero, suc, ◌+◌, ◌≤◌, ◌<◌, ◌≡◌, refl, sym, ap, subst, ◌∙◌, none, List, [], ◌∷◌, false, ok,
  arith, ◌==◌, if◌then◌else◌, length,
}
use mathlib.Core.Path.{subst₂}
use sp1_reth.Nibbles.{IsNibs}
use sp1_reth.Mpt.Node.{
  MptNode, branch, Children, no_children, vacant, child, is_empty, capacity, occupied,
}
use sp1_reth.Mpt.Get.{get_internal, get_data, get_child}
use sp1_reth.Mpt.Canonical.{IsCanonical, AreCanonical}
use sp1_reth.Mpt.Delete.{remaining, collapse, adopt}
use sp1_reth.Mpt.Delete.Rebuild.{Yields, Answers, only, adopt-Answers}

length-remaining : (i : ℕ) (cs : Children) → length (remaining i cs) ≡ occupied cs
unfolding remaining
length-remaining i no_children = refl
length-remaining i (vacant cs) = length-remaining (suc i) cs
length-remaining i (child n cs) = omega (arith, length-remaining (suc i) cs)

get_child-none :
    (cs : Children) (j : ℕ) (tail : List ℕ)
    → occupied cs ≡ 0
    → j < capacity cs
    → get_child cs j tail ≡ ok none
unfolding get_child
get_child-none no_children j tail e b = absurd (omega arith)
get_child-none (vacant cs) zero tail e b = refl
get_child-none (vacant cs) (suc j) tail e b = get_child-none cs j tail e (omega arith)
get_child-none (child n cs) j tail e b = absurd (omega arith)

-- The only child that is left, and the lookups beside it.
abbrev IsSole : ℕ → Children → ℕ → MptNode → Type 0
IsSole i cs index orphan =
    (i ≤ index)
    × (index < i + capacity cs)
    × IsCanonical orphan
    × (is_empty orphan ≡ false)
    × ((j : ℕ) (tail : List ℕ)
        → j < capacity cs
        → get_child cs j tail ≡ (if i + j == index then get_internal orphan tail else ok none))

vacant-IsSole :
    (i : ℕ) (cs : Children) (index : ℕ) (orphan : MptNode)
    → IsSole (suc i) cs index orphan
    → IsSole i (vacant cs) index orphan
unfolding get_child
vacant-IsSole i cs index orphan (low, high, c, ne, at) = (
  omega arith,
  omega arith,
  c,
  ne,
  elim [ zero ↦ λ tail b. ground arith | suc j ↦ λ tail b. ground (arith, at j tail) ],
)

child-IsSole :
    (i : ℕ) (n : MptNode) (cs : Children)
    → AreCanonical (child n cs)
    → occupied cs ≡ 0
    → IsSole i (child n cs) i n
unfolding get_child IsCanonical
child-IsSole i n cs h e = (
  omega arith,
  omega arith,
  h.1,
  h.0,
  elim [
    | zero ↦ λ tail b. ground arith
    | suc j ↦ λ tail b. ground (arith, get_child-none cs j tail e)
  ],
)

remaining-IsSole :
    (i : ℕ) (cs : Children) (index : ℕ) (orphan : MptNode)
    → AreCanonical cs
    → remaining i cs ≡ (index, orphan) ∷ []
    → IsSole i cs index orphan
unfolding remaining IsCanonical
remaining-IsSole i no_children index orphan h e = cc
remaining-IsSole i (vacant cs) index orphan h e =
    vacant-IsSole i cs index orphan (remaining-IsSole (suc i) cs index orphan h e)
remaining-IsSole i (child n cs) index orphan h e =
    let rest : remaining (suc i) cs ≡ [] = cc in
    let none_left : occupied cs ≡ 0 = sym (length-remaining (suc i) cs) ∙ ap length rest in
    subst₂ (IsSole i (child n cs)) (cc) (cc) (child-IsSole i n cs h none_left)

collapse_by :
    (cs : Children) (ks : List ℕ) (l : List (ℕ × MptNode))
    → capacity cs ≡ 16
    → 1 ≤ occupied cs
    → AreCanonical cs
    → IsNibs ks
    → remaining 0 cs ≡ l
    → Yields (Answers ks (get_data (branch cs) ks)) (collapse cs l)
unfolding collapse IsCanonical get_data
collapse_by cs ks [] c o h hs e = absurd (omega (arith, length-remaining 0 cs, ap length e))
collapse_by cs ks ((index, orphan) ∷ []) c o h hs e =
    let (low, high, ho, ne, at) = remaining-IsSole 0 cs index orphan h e in
    subst (λ r. Yields (Answers ks r) (adopt index orphan)) (sole ks hs at)
      (adopt-Answers index orphan ks (omega arith) ho ne)
  where
    sole :
        (ks : List ℕ)
        → IsNibs ks
        → ((j : ℕ) (tail : List ℕ)
            → j < capacity cs
            → get_child cs j tail ≡ (if 0 + j == index then get_internal orphan tail else ok none))
        → only index orphan ks ≡ get_data (branch cs) ks
    sole [] hs at = refl
    sole (j ∷ tail) hs at = ground (arith, at j tail)
collapse_by cs ks (x ∷ y ∷ l) c o h hs e =
    ((c, omega (arith, length-remaining 0 cs, ap length e), h), refl, refl)

-- A branch that keeps a child collapses to canonical data that answers every lookup as the branch.
pub collapse-Answers :
    (cs : Children) (ks : List ℕ)
    → capacity cs ≡ 16
    → 1 ≤ occupied cs
    → AreCanonical cs
    → IsNibs ks
    → Yields (Answers ks (get_data (branch cs) ks)) (collapse cs (remaining 0 cs))
collapse-Answers cs ks c o h hs = collapse_by cs ks (remaining 0 cs) c o h hs refl
