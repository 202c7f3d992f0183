-- ===== src/Mpt/Slots.antt =====
-- Writing a slot of a branch, without the panic that `set_child` has out of bounds.
use sp1_reth.Prelude.{
  ℕ, zero, suc, ◌+◌, ◌<◌, ◌≡◌, ◌≢◌, refl, ap, List, Bool, true, false, ok, arith, ◌==◌,
  if◌then◌else◌, none,
}
use sp1_reth.Mpt.Node.{
  MptNode, Children, no_children, vacant, child, is_empty, vacancies, capacity, occupied, set_child,
}
use sp1_reth.Mpt.Get.{get_internal, get_child}
use sp1_reth.Mpt.Canonical.{IsCanonical, AreCanonical}

pub put_child : Children → ℕ → MptNode → Children
put_child no_children i n = no_children
put_child (vacant cs) zero n = child n cs
put_child (child m cs) zero n = child n cs
put_child (vacant cs) (suc i) n = vacant (put_child cs i n)
put_child (child m cs) (suc i) n = child m (put_child cs i n)

pub set_child-put_child :
    (cs : Children) (i : ℕ) (n : MptNode)
    → i < capacity cs
    → set_child cs i n ≡ ok (put_child cs i n)
unfolding set_child put_child
set_child-put_child no_children i n h = absurd (omega arith)
set_child-put_child (vacant cs) zero n h = refl
set_child-put_child (child m cs) zero n h = refl
set_child-put_child (vacant cs) (suc i) n h = ground (arith, set_child-put_child cs i n)
set_child-put_child (child m cs) (suc i) n h = ground (arith, set_child-put_child cs i n)

pub capacity-put_child :
    (cs : Children) (i : ℕ) (n : MptNode) → capacity (put_child cs i n) ≡ capacity cs
unfolding put_child
capacity-put_child no_children i n = refl
capacity-put_child (vacant cs) zero n = refl
capacity-put_child (child m cs) zero n = refl
capacity-put_child (vacant cs) (suc i) n = omega (arith, capacity-put_child cs i n)
capacity-put_child (child m cs) (suc i) n = omega (arith, capacity-put_child cs i n)

pub get_child-put_child :
    (cs : Children) (i j : ℕ) (n : MptNode) (tail : List ℕ)
    → i < capacity cs
    → get_child (put_child cs i n) j tail
      ≡ (if i == j then get_internal n tail else get_child cs j tail)
unfolding put_child get_child
get_child-put_child no_children i j n tail h = absurd (omega arith)
get_child-put_child (vacant cs) zero zero n tail h = refl
get_child-put_child (vacant cs) zero (suc j) n tail h = ground arith
get_child-put_child (child m cs) zero zero n tail h = refl
get_child-put_child (child m cs) zero (suc j) n tail h = ground arith
get_child-put_child (vacant cs) (suc i) zero n tail h = ground arith
get_child-put_child (child m cs) (suc i) zero n tail h = ground arith
get_child-put_child (vacant cs) (suc i) (suc j) n tail h =
    ground (arith, get_child-put_child cs i j n tail)
get_child-put_child (child m cs) (suc i) (suc j) n tail h =
    ground (arith, get_child-put_child cs i j n tail)

pub put_child-AreCanonical :
    (cs : Children) (i : ℕ) (n : MptNode)
    → is_empty n ≡ false
    → IsCanonical n
    → AreCanonical cs
    → AreCanonical (put_child cs i n)
unfolding put_child IsCanonical
put_child-AreCanonical no_children i n e h hs = tt
put_child-AreCanonical (vacant cs) zero n e h hs = (e, h, hs)
put_child-AreCanonical (child m cs) zero n e h hs = (e, h, hs.2)
put_child-AreCanonical (vacant cs) (suc i) n e h hs = put_child-AreCanonical cs i n e h hs
put_child-AreCanonical (child m cs) (suc i) n e h hs =
    (hs.0, hs.1, put_child-AreCanonical cs i n e h hs.2)

pub get_child-vacancies :
    (k i : ℕ) (tail : List ℕ) → i < k → get_child (vacancies k) i tail ≡ ok none
unfolding get_child
get_child-vacancies zero i tail h = absurd (omega arith)
get_child-vacancies (suc k) zero tail h = refl
get_child-vacancies (suc k) (suc i) tail h = get_child-vacancies k i tail (omega arith)

-- Whether slot `i` is there and holds `None`.
abbrev pub is_vacant : Children → ℕ → Bool
is_vacant no_children i = false
is_vacant (vacant cs) zero = true
is_vacant (child n cs) zero = false
is_vacant (vacant cs) (suc i) = is_vacant cs i
is_vacant (child n cs) (suc i) = is_vacant cs i

pub occupied-put_child :
    (cs : Children) (i : ℕ) (n : MptNode)
    → occupied (put_child cs i n) ≡ occupied cs + (if is_vacant cs i then 1 else 0)
unfolding put_child
occupied-put_child no_children i n = refl
occupied-put_child (vacant cs) zero n = omega arith
occupied-put_child (child m cs) zero n = omega arith
occupied-put_child (vacant cs) (suc i) n = occupied-put_child cs i n
occupied-put_child (child m cs) (suc i) n = omega (arith, occupied-put_child cs i n)

is_vacant-put_child :
    (cs : Children) (i j : ℕ) (n : MptNode)
    → i ≢ j
    → is_vacant (put_child cs i n) j ≡ is_vacant cs j
unfolding put_child
is_vacant-put_child no_children i j n h = refl
is_vacant-put_child (vacant cs) zero zero n h = absurd (h refl)
is_vacant-put_child (child m cs) zero zero n h = absurd (h refl)
is_vacant-put_child (vacant cs) zero (suc j) n h = refl
is_vacant-put_child (child m cs) zero (suc j) n h = refl
is_vacant-put_child (vacant cs) (suc i) zero n h = refl
is_vacant-put_child (child m cs) (suc i) zero n h = refl
is_vacant-put_child (vacant cs) (suc i) (suc j) n h =
    is_vacant-put_child cs i j n (λ e. h (ap suc e))
is_vacant-put_child (child m cs) (suc i) (suc j) n h =
    is_vacant-put_child cs i j n (λ e. h (ap suc e))

is_vacant-vacancies : (k i : ℕ) → i < k → is_vacant (vacancies k) i ≡ true
is_vacant-vacancies zero i h = absurd (omega arith)
is_vacant-vacancies (suc k) zero h = refl
is_vacant-vacancies (suc k) (suc i) h = is_vacant-vacancies k i (omega arith)

occupied-vacancies : (k : ℕ) → occupied (vacancies k) ≡ 0
occupied-vacancies zero = refl
occupied-vacancies (suc k) = occupied-vacancies k

-- A second child in another slot.
pub occupied-put_child_two :
    (k i j : ℕ) (a b : MptNode)
    → i < k
    → j < k
    → i ≢ j
    → occupied (put_child (put_child (vacancies k) i a) j b) ≡ 2
occupied-put_child_two k i j a b p q ne = ground (
  arith,
  occupied-put_child (put_child (vacancies k) i a) j b,
  occupied-put_child (vacancies k) i a,
  is_vacant-put_child (vacancies k) i j a ne,
  is_vacant-vacancies k i p,
  is_vacant-vacancies k j q,
  occupied-vacancies k,
)
