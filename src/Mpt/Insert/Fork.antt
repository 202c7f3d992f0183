-- ===== src/Mpt/Insert/Fork.antt =====
-- The branch that `insert_internal` builds where two paths part.
use sp1_reth.Prelude.{
  ℕ, ◌<◌, ◌≡◌, ◌≢◌, refl, List, [], ◌∷◌, Option, none, some, ok, arith, ◌==◌, true, false,
  if◌then◌else◌, strip_prefix, strip_prefix-All, list_eq, list_eq-append, ◌++◌,
}
use sp1_reth.Nibbles.{Bytes, IsNibs, to_encoded_path}
use sp1_reth.Nibbles.RoundTrip.{
  to_encoded_path-IsShared, prefix_nibs-to_encoded_path, to_encoded_path-IsPath,
}
use sp1_reth.Mpt.Node.{
  Error, MptNode, MptNodeData, branch, leaf, extension, Children, vacancies, is_empty, from,
}
use sp1_reth.Mpt.Get.{Lookup, behind, get_internal, get_data}
use sp1_reth.Mpt.Canonical.{IsCanonical, IsCanonicalData}
use sp1_reth.Mpt.Slots.{
  put_child, set_child-put_child, capacity-put_child, get_child-put_child, put_child-AreCanonical,
  get_child-vacancies, occupied-put_child_two,
}
use sp1_reth.Mpt.Insert.{fork}

-- The lookup behind the shared nibbles.
abbrev pub at_fork : ℕ → MptNode → ℕ → MptNode → List ℕ → Lookup
at_fork i a j b [] = ok none
at_fork i a j b (x ∷ tail) =
    if x == j then get_internal b tail else if x == i then get_internal a tail else ok none

abbrev twins : ℕ → MptNode → ℕ → MptNode → Children
twins i a j b = put_child (put_child (vacancies 16) i a) j b

-- The data that `fork` returns.
pub forked : List ℕ → ℕ → MptNode → ℕ → MptNode → MptNodeData
forked [] i a j b = branch (twins i a j b)
forked (y ∷ ys) i a j b = extension (to_encoded_path (y ∷ ys) false) (from (branch (twins i a j b)))

pub fork-forked :
    (shared : List ℕ) (i j : ℕ) (a b : MptNode)
    → i < 16
    → j < 16
    → fork shared i a j b ≡ ok (some (forked shared i a j b))
unfolding fork forked
fork-forked [] i j a b p q = ground (
  arith,
  set_child-put_child (vacancies 16) i a p,
  set_child-put_child (put_child (vacancies 16) i a) j b,
  capacity-put_child (vacancies 16) i a,
)
fork-forked (y ∷ ys) i j a b p q = ground (
  arith,
  set_child-put_child (vacancies 16) i a p,
  set_child-put_child (put_child (vacancies 16) i a) j b,
  capacity-put_child (vacancies 16) i a,
)

get_data-twins :
    (i j : ℕ) (a b : MptNode) (ks : List ℕ)
    → i < 16
    → j < 16
    → IsNibs ks
    → get_data (branch (twins i a j b)) ks ≡ at_fork i a j b ks
unfolding get_data
get_data-twins i j a b [] p q h = refl
get_data-twins i j a b (x ∷ tail) p q h = ground (
  arith,
  get_child-put_child (put_child (vacancies 16) i a) j x b tail,
  get_child-put_child (vacancies 16) i x a tail,
  capacity-put_child (vacancies 16) i a,
  get_child-vacancies 16 x tail h.0,
)

behind-twins :
    (i j : ℕ) (a b : MptNode) (o : Option (List ℕ))
    → i < 16
    → j < 16
    → ((t : List ℕ) → o ≡ some t → IsNibs t)
    → behind (get_internal (from (branch (twins i a j b)))) o ≡ behind (at_fork i a j b) o
unfolding get_data
behind-twins i j a b none p q h = refl
behind-twins i j a b (some t) p q h = get_data-twins i j a b t p q (h t refl)

twins-IsCanonicalData :
    (i j : ℕ) (a b : MptNode)
    → i < 16
    → j < 16
    → i ≢ j
    → (is_empty a ≡ false) × IsCanonical a
    → (is_empty b ≡ false) × IsCanonical b
    → IsCanonicalData (branch (twins i a j b))
unfolding IsCanonical
twins-IsCanonicalData i j a b p q ne ha hb = (
  omega (
    arith,
    capacity-put_child (put_child (vacancies 16) i a) j b,
    capacity-put_child (vacancies 16) i a,
  ),
  omega (arith, occupied-put_child_two 16 i j a b p q ne),
  put_child-AreCanonical (put_child (vacancies 16) i a) j b hb.0 hb.1
      (put_child-AreCanonical (vacancies 16) i a ha.0 ha.1 tt),
)

pub get_data-forked :
    (shared : List ℕ) (i j : ℕ) (a b : MptNode) (ks : List ℕ)
    → i < 16
    → j < 16
    → IsNibs shared
    → IsNibs ks
    → get_data (forked shared i a j b) ks ≡ behind (at_fork i a j b) (strip_prefix ks shared)
unfolding forked get_data
get_data-forked [] i j a b ks p q s h = get_data-twins i j a b ks p q h
get_data-forked (y ∷ ys) i j a b ks p q s h = rw (prefix_nibs-to_encoded_path (y ∷ ys) false s) (
    behind-twins i j a b (strip_prefix ks (y ∷ ys)) p q (λ t e. strip_prefix-All _ ks (y ∷ ys) h e))

-- Two children that are not empty make a canonical branch.
pub forked-IsCanonicalData :
    (shared : List ℕ) (i j : ℕ) (a b : MptNode)
    → i < 16
    → j < 16
    → i ≢ j
    → IsNibs shared
    → (is_empty a ≡ false) × IsCanonical a
    → (is_empty b ≡ false) × IsCanonical b
    → IsCanonicalData (forked shared i a j b)
unfolding forked IsCanonical
forked-IsCanonicalData [] i j a b p q ne s ha hb = twins-IsCanonicalData i j a b p q ne ha hb
forked-IsCanonicalData (y ∷ ys) i j a b p q ne s ha hb =
    let path = to_encoded_path-IsPath (y ∷ ys) false s in
    (path, to_encoded_path-IsShared y ys false s, refl, twins-IsCanonicalData i j a b p q ne ha hb)

-- The lookup before the fork, behind the shared nibbles: only the old node is there.
abbrev pub one_way : ℕ → MptNode → List ℕ → Lookup
one_way i a [] = ok none
one_way i a (x ∷ tail) = if x == i then get_internal a tail else ok none

-- Beside the old node, the new leaf answers for its own key, and for no other.
at_fork-one_way :
    (i j : ℕ) (a : MptNode) (rb : List ℕ) (v : Bytes) (o : Option (List ℕ))
    → i ≢ j
    → IsNibs rb
    → behind (at_fork i a j (from (leaf (to_encoded_path rb true) v))) o ≡ (
        if elim o [ none ↦ false | some t ↦ list_eq (j ∷ rb) t ]
        then ok (some v)
        else behind (one_way i a) o)
unfolding get_data
at_fork-one_way i j a rb v none ne h = refl
at_fork-one_way i j a rb v (some []) ne h = refl
at_fork-one_way i j a rb v (some (x ∷ t)) ne h =
    ground (arith, prefix_nibs-to_encoded_path {E = Error} rb true h)

pub fork_lookup :
    (pre : List ℕ) (i j : ℕ) (a : MptNode) (rb : List ℕ) (v : Bytes) (ks : List ℕ)
    → i ≢ j
    → IsNibs rb
    → behind (at_fork i a j (from (leaf (to_encoded_path rb true) v))) (strip_prefix ks pre) ≡ (
        if list_eq (pre ++ j ∷ rb) ks
        then ok (some v)
        else behind (one_way i a) (strip_prefix ks pre))
fork_lookup pre i j a rb v ks ne h =
    rw (list_eq-append pre (j ∷ rb) ks) (at_fork-one_way i j a rb v (strip_prefix ks pre) ne h)

pub forked-not_empty :
    (shared : List ℕ) (i j : ℕ) (a b : MptNode) → is_empty (from (forked shared i a j b)) ≡ false
unfolding forked
forked-not_empty [] i j a b = refl
forked-not_empty (y ∷ ys) i j a b = refl
