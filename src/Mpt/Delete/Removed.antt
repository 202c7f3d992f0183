-- ===== src/Mpt/Delete/Removed.antt =====
-- What is left when one arm of `delete_data` (primitives/src/mpt.rs) removed a key below it.
use sp1_reth.Prelude.{
  ℕ, suc, ◌≤◌, ◌≡◌, refl, subst, List, [], ◌∷◌, ◌++◌, Bool, true, false, Option, none, some,
  Outcome, ok, err, panic, ◌>>=◌, arith, if◌then◌else◌, strip_prefix, list_eq, list_eq-append,
  eq_of_list_eq, Bool-cases, inl, inr,
}
use sp1_reth.Nibbles.{Bytes, IsNibs, prefix_nibs}
use sp1_reth.Mpt.Node.{
  Error, MptNode, node, MptNodeData, null, branch, leaf, extension, Children, vacant, child,
  is_empty, is_null_data, capacity, occupied,
}
use sp1_reth.Mpt.Get.{Lookup, behind, hit, get_internal, get_data, get_child}
use sp1_reth.Mpt.Get.Behind.{behind_at}
use sp1_reth.Mpt.Canonical.{IsCanonical, IsCanonicalData, AreCanonical, is_branching_data}
use sp1_reth.Mpt.Insert.{Change, Changed}
use sp1_reth.Mpt.Delete.{remaining, collapse, rejoin}
use sp1_reth.Mpt.Delete.Rebuild.{Yields, Answers, rejoin-Answers}
use sp1_reth.Mpt.Delete.Collapse.{collapse-Answers}

-- The data in the place of `d` after a key is removed: canonical, empty only if `d` had no
-- children, and with the lookup `expected` at `ks`.
abbrev pub Left : MptNodeData → List ℕ → Lookup → MptNodeData → Type 0
Left d ks expected d' =
    IsCanonicalData d'
    × (is_branching_data d ≡ true → is_null_data d' ≡ false)
    × (get_data d' ks ≡ expected)

-- What a deletion does: `Ok(false)` if the key was not there, and otherwise it is gone.
abbrev pub Removed : MptNodeData → List ℕ → Lookup → Lookup → Change → Type 0
Removed d ks at_key expected (ok none) = at_key ≡ ok none
Removed d ks at_key expected (ok (some d')) = Left d ks expected d'
Removed d ks at_key expected (err e) = Unit
Removed d ks at_key expected panic = ⊥

-- The same of a call on a node, which `Ok(false)` leaves as it was.
abbrev pub RemovedIn : MptNode → List ℕ → Lookup → Lookup → Changed → Type 0
RemovedIn n ks at_key expected (ok (n', false)) = (n' ≡ n) × (at_key ≡ ok none)
RemovedIn (node d c) ks at_key expected (ok (node d' c', true)) = Left d ks expected d'
RemovedIn n ks at_key expected (err e) = Unit
RemovedIn n ks at_key expected panic = ⊥

abbrev pub RemovedChild :
    Children → ℕ → List ℕ → Lookup → Lookup → Outcome Error (Option Children) → Type 0
RemovedChild cs j ks at_key expected (ok none) = at_key ≡ ok none
RemovedChild cs j ks at_key expected (ok (some cs')) =
    (capacity cs' ≡ capacity cs)
    × (occupied cs ≤ suc (occupied cs'))
    × AreCanonical cs'
    × (get_child cs' j ks ≡ expected)
RemovedChild cs j ks at_key expected (err e) = Unit
RemovedChild cs j ks at_key expected panic = ⊥

-- The lookups that a deletion should leave.
abbrev pub without : Bool → Lookup → Lookup
without same before = if same then ok none else before

Yields-Removed :
    (d : MptNodeData) (ks : List ℕ) (at_key expected : Lookup) (r : Outcome Error MptNodeData)
    → Yields (Answers ks expected) r
    → Removed d ks at_key expected (r >>= λ d'. ok (some d'))
Yields-Removed d ks at_key expected (ok d') h = (h.0, λ e. h.1, h.2)
Yields-Removed d ks at_key expected (err e) h = absurd h
Yields-Removed d ks at_key expected panic h = h

pub branch-Removed :
    (cs : Children) (i : ℕ) (key ks : List ℕ) (r : Outcome Error (Option Children))
    → IsCanonicalData (branch cs)
    → IsNibs ks
    → ((j : ℕ) (t : List ℕ)
        → ks ≡ j ∷ t
        → RemovedChild cs j t
            (get_child cs i key)
            (without (list_eq (i ∷ key) (j ∷ t)) (get_child cs j t))
            r)
    → RemovedChild cs i key
        (get_child cs i key)
        (without (list_eq (i ∷ key) (i ∷ key)) (get_child cs i key))
        r
    → Removed
        (branch cs)
        ks
        (get_child cs i key)
        (without (list_eq (i ∷ key) ks) (get_data (branch cs) ks))
        (r >>= λ o. elim o [
          | none ↦ ok none
          | some cs' ↦ collapse cs' (remaining 0 cs') >>= λ d. ok (some d)
        ])
unfolding get_data IsCanonical
branch-Removed cs i key ks (ok none) h hs at self = self
branch-Removed cs i key [] (ok (some cs')) h hs at self =
    Yields-Removed (branch cs) [] _ _ _
      (collapse-Answers cs' [] (omega arith) (omega arith) self.2 tt)
branch-Removed cs i key (j ∷ t) (ok (some cs')) h hs at self =
    let k = at j t refl in
    Yields-Removed (branch cs) (j ∷ t) _ _ _ (
      subst (λ l. Yields (Answers (j ∷ t) l) (collapse cs' (remaining 0 cs'))) k.3
        (collapse-Answers cs' (j ∷ t) (omega arith) (omega arith) self.2 hs))
branch-Removed cs i key ks (err e) h hs at self = tt
branch-Removed cs i key ks panic h hs at self = self

pub child-Removed :
    (n : MptNode) (cs : Children) (ks : List ℕ) (at_key expected : Lookup) (r : Changed)
    → AreCanonical (child n cs)
    → RemovedIn n ks at_key expected r
    → RemovedChild (child n cs) 0 ks at_key expected (
        r >>= λ (n', done).
        ok (if done then some (if is_empty n' then vacant cs else child n' cs) else none))
unfolding get_data IsCanonical
child-Removed (node d c) cs ks at_key expected (ok (n', false)) h k = k.1
child-Removed (node d c) cs ks at_key expected (ok (node null c', true)) h k =
    (refl, omega arith, h.2, k.2)
child-Removed (node d c) cs ks at_key expected (ok (node d' c', true)) h k =
    (refl, omega arith, (refl, k.0, h.2), k.2)
child-Removed (node d c) cs ks at_key expected (err e) h k = tt
child-Removed (node d c) cs ks at_key expected panic h k = k

-- The children beside slot 0 stay.
pub beside-Removed :
    (n : MptNode) (cs : Children) (j : ℕ) (ks key : List ℕ) (at_key expected : Lookup) (r : Changed)
    → AreCanonical (child n cs)
    → RemovedIn n key at_key expected r
    → RemovedChild (child n cs) (suc j) ks at_key (get_child cs j ks) (
        r >>= λ (n', done).
        ok (if done then some (if is_empty n' then vacant cs else child n' cs) else none))
unfolding get_data IsCanonical
beside-Removed (node d c) cs j ks key at_key expected (ok (n', false)) h k = k.1
beside-Removed (node d c) cs j ks key at_key expected (ok (node null c', true)) h k =
    (refl, omega arith, h.2, refl)
beside-Removed (node d c) cs j ks key at_key expected (ok (node d' c', true)) h k =
    (refl, omega arith, (refl, k.0, h.2), refl)
beside-Removed (node d c) cs j ks key at_key expected (err e) h k = tt
beside-Removed (node d c) cs j ks key at_key expected panic h k = k

pub below-Removed :
    (prefix : Bytes) (m : ℕ) (ms rest : List ℕ) (n : MptNode) (ks : List ℕ) (r : Changed)
    → IsCanonicalData (extension prefix n)
    → prefix_nibs {E = Error} prefix ≡ ok (m ∷ ms)
    → IsNibs (m ∷ ms)
    → ((t : List ℕ)
        → strip_prefix ks (m ∷ ms) ≡ some t
        → RemovedIn n t (get_internal n rest) (without (list_eq rest t) (get_internal n t)) r)
    → RemovedIn n rest (get_internal n rest) (without (list_eq rest rest) (get_internal n rest)) r
    → Removed
        (extension prefix n)
        ks
        (get_internal n rest)
        (without (list_eq (m ∷ ms ++ rest) ks) (behind (get_internal n) (strip_prefix ks (m ∷ ms))))
        (r >>= λ (n', done).
          if done then (rejoin prefix (m ∷ ms) n' >>= λ d. ok (some d)) else ok none)
unfolding get_data IsCanonical
below-Removed prefix m ms rest (node d c) ks (ok (n', false)) h q hm at self = self.1
below-Removed prefix m ms rest (node d c) ks (ok (node d' c', true)) h q hm at self =
    rw (list_eq-append (m ∷ ms) rest ks) (
      subst
        (λ l.
          Removed (extension prefix (node d c)) ks (get_data d rest) l
            (rejoin prefix (m ∷ ms) (node d' c') >>= λ x. ok (some x)))
        (behind_at rest (node d c) (node d' c') (ok none) (strip_prefix ks (m ∷ ms))
          (λ t e. (at t e).2))
        (Yields-Removed (extension prefix (node d c)) ks _ _ _
          (rejoin-Answers prefix m ms (node d' c') ks h.0 q hm self.0 (self.1 h.2))))
below-Removed prefix m ms rest (node d c) ks (err e) h q hm at self = tt
below-Removed prefix m ms rest (node d c) ks panic h q hm at self = self

pub leaf-Removed :
    (prefix : Bytes) (ns : List ℕ) (value : Bytes) (key ks : List ℕ)
    → Removed
        (leaf prefix value)
        ks
        (hit ns value key)
        (without (list_eq key ks) (hit ns value ks))
        (ok (if list_eq ns key then some null else none))
unfolding get_data IsCanonical
leaf-Removed prefix ns value key ks = elim (Bool-cases (list_eq ns key)) [
  | inl same ↦ rw same (tt, λ e. cc, ground (arith, eq_of_list_eq ns key))
  | inr other ↦ rw other
]
