-- ===== src/Mpt/Map.antt =====
-- The trie as a map from byte strings to values: `get` after `insert` and `delete`
-- (primitives/src/mpt.rs), and after any sequence of such calls.
pub mod Runs
pub mod Caching
use sp1_reth.Prelude.{
  ℕ, ◌≡◌, ◌≢◌, refl, subst, ap, sym, ◌∙◌, Bool, true, false, List, [], ◌∷◌, Option, none, some,
  Outcome, ok, err, panic, ◌>>=◌, arith, ◌==◌, length, list_eq, list_eq_refl, eq_of_list_eq,
  if◌then◌else◌, All, >>=-eq-ok,
}
use sp1_reth.Nibbles.{Bytes, IsBytes, to_nibs}
use sp1_reth.Nibbles.RoundTrip.{to_nibs-IsNibs, list_eq-to_nibs}
use sp1_reth.Mpt.Node.{Error, MptNode, node, default}
use sp1_reth.Mpt.Get.{Lookup, get, get_internal}
use sp1_reth.Mpt.Canonical.{IsCanonical}
use sp1_reth.Mpt.Insert.{Changed, insert, insert_internal}
use sp1_reth.Mpt.Insert.Stores.{StoredIn, insert_internal-StoredIn}
use sp1_reth.Mpt.Insert.Shape.{KeepsNode, insert_internal-KeepsNode}
use sp1_reth.Mpt.Delete.{delete, delete_internal}
use sp1_reth.Mpt.Delete.Removed.{RemovedIn, without}
use sp1_reth.Mpt.Delete.Removes.{delete_internal-RemovedIn}

pub insert-ok :
    (n : MptNode) (key value : Bytes) {r : MptNode × Bool}
    → insert n key value ≡ ok r
    → insert_internal n (to_nibs key) value ≡ ok r
unfolding insert
insert-ok n key value e = ground arith

stored_cases :
    (n : MptNode) (value : Bytes) (same : Bool) (before : Lookup) (at_key : Lookup) (ks : List ℕ)
    (n' : MptNode) (b : Bool)
    → StoredIn n value same at_key before ks (ok (n', b))
    → (same ≡ true → before ≡ at_key)
    → before ≡ get_internal n ks
    → get_internal n' ks ≡ (if same then ok (some value) else before)
stored_cases n value true before at_key ks n' false h e q =
    ap (λ m. get_internal m ks) h.0 ∙ (sym q ∙ (e refl ∙ h.1))
stored_cases n value false before at_key ks n' false h e q = ap (λ m. get_internal m ks) h.0 ∙ sym q
stored_cases n value same before at_key ks n' true h e q = h

-- After a successful insertion into a canonical trie, the key reads back the value, and every other
-- key reads as before.
pub get-insert :
    (n : MptNode) (key value other : Bytes) (n' : MptNode) (b : Bool)
    → IsCanonical n
    → IsBytes key
    → IsBytes other
    → insert n key value ≡ ok (n', b)
    → get n' other ≡ (if list_eq key other then ok (some value) else get n other)
unfolding get
get-insert n key value other n' b h hk ho e = rw (← list_eq-to_nibs key other hk ho) (
    stored_cases n value (list_eq (to_nibs key) (to_nibs other)) (get n other) (get n key)
      (to_nibs other) n' b
      (subst
        (StoredIn n value (list_eq (to_nibs key) (to_nibs other)) (get n key) (get n other)
          (to_nibs other))
        (insert-ok n key value e)
        (insert_internal-StoredIn n (to_nibs key) value (to_nibs other) h (to_nibs-IsNibs key hk)
          (to_nibs-IsNibs other ho)))
      (λ s. ap (get_internal n) (sym (eq_of_list_eq _ _ s))) refl)

-- `insert` returns false only if the trie already held this value for the key, and then it leaves
-- the trie as it was. In particular, replacing a value by another one returns true.
pub insert-false :
    (n : MptNode) (key value : Bytes) (n' : MptNode)
    → IsCanonical n
    → IsBytes key
    → insert n key value ≡ ok (n', false)
    → (n' ≡ n) × (get n key ≡ ok (some value))
unfolding get
insert-false n key value n' h hk e =
    subst
      (StoredIn n value (list_eq (to_nibs key) (to_nibs key)) (get n key) (get n key) (to_nibs key))
      (insert-ok n key value e)
      (insert_internal-StoredIn n (to_nibs key) value (to_nibs key) h (to_nibs-IsNibs key hk)
        (to_nibs-IsNibs key hk))

kept :
    (n n' : MptNode) (b : Bool)
    → IsCanonical n
    → KeepsNode n (ok (n', b))
    → (b ≡ false → n' ≡ n)
    → IsCanonical n'
unfolding IsCanonical
kept (node d c) n' false h k same = subst IsCanonical (sym (same refl)) h
kept (node d c) (node d' c') true h k same = k.0

-- An insertion into a canonical trie leaves a canonical trie.
pub insert-IsCanonical :
    (n : MptNode) (key value : Bytes) (n' : MptNode) (b : Bool)
    → IsCanonical n
    → IsBytes key
    → insert n key value ≡ ok (n', b)
    → IsCanonical n'
insert-IsCanonical n key value n' b h hk e =
    kept n n' b h
      (subst (KeepsNode n) (insert-ok n key value e)
        (insert_internal-KeepsNode n (to_nibs key) value h (to_nibs-IsNibs key hk)))
      (λ f. (insert-false n key value n' h hk (e ∙ ap (λ x. ok (n', x)) f)).0)

-- Inserting a value that is not empty into a canonical trie never panics: no slot is out of bounds,
-- and no path is empty.
pub insert-ne-panic :
    (n : MptNode) (key value : Bytes)
    → IsCanonical n
    → IsBytes key
    → value ≢ []
    → insert n key value ≢ panic
unfolding insert
insert-ne-panic n key [] h hk ne e = absurd (ne refl)
insert-ne-panic (node d c) key (v ∷ vs) h hk ne e =
    let q : insert_internal (node d c) (to_nibs key) (v ∷ vs) ≡ panic = ground arith in
    subst (KeepsNode (node d c)) q
      (insert_internal-KeepsNode (node d c) (to_nibs key) (v ∷ vs) h (to_nibs-IsNibs key hk))

removed_cases :
    (n : MptNode) (same : Bool) (before at_key : Lookup) (ks : List ℕ) (n' : MptNode) (b : Bool)
    → RemovedIn n ks at_key (without same before) (ok (n', b))
    → (same ≡ true → before ≡ at_key)
    → before ≡ get_internal n ks
    → get_internal n' ks ≡ (if same then ok none else before)
unfolding get_internal
removed_cases n true before at_key ks n' false h e q =
    ap (λ m. get_internal m ks) h.0 ∙ (sym q ∙ (e refl ∙ h.1))
removed_cases n false before at_key ks n' false h e q = ap (λ m. get_internal m ks) h.0 ∙ sym q
removed_cases (node d c) same before at_key ks (node d' c') true h e q = h.2

-- After a successful deletion from a canonical trie, the key reads back nothing, and every other key
-- reads as before.
pub get-delete :
    (n : MptNode) (key other : Bytes) (n' : MptNode) (b : Bool)
    → IsCanonical n
    → IsBytes key
    → IsBytes other
    → delete n key ≡ ok (n', b)
    → get n' other ≡ (if list_eq key other then ok none else get n other)
unfolding get delete
get-delete n key other n' b h hk ho e = rw (← list_eq-to_nibs key other hk ho) (
    removed_cases n (list_eq (to_nibs key) (to_nibs other)) (get n other) (get n key)
      (to_nibs other) n' b
      (subst
        (RemovedIn n (to_nibs other) (get n key)
          (without (list_eq (to_nibs key) (to_nibs other)) (get n other)))
        e
        (delete_internal-RemovedIn n (to_nibs key) (to_nibs other) h (to_nibs-IsNibs key hk)
          (to_nibs-IsNibs other ho)))
      (λ s. ap (get_internal n) (sym (eq_of_list_eq _ _ s))) refl)

-- `delete` returns false only if the trie holds no value for the key, and then it leaves the trie as
-- it was.
pub delete-false :
    (n : MptNode) (key : Bytes) (n' : MptNode)
    → IsCanonical n
    → IsBytes key
    → delete n key ≡ ok (n', false)
    → (n' ≡ n) × (get n key ≡ ok none)
unfolding get delete
delete-false n key n' h hk e =
    subst
      (RemovedIn n (to_nibs key) (get n key)
        (without (list_eq (to_nibs key) (to_nibs key)) (get n key)))
      e
      (delete_internal-RemovedIn n (to_nibs key) (to_nibs key) h (to_nibs-IsNibs key hk)
        (to_nibs-IsNibs key hk))

left :
    (n n' : MptNode) (b : Bool) (ks : List ℕ) (at_key expected : Lookup)
    → IsCanonical n
    → RemovedIn n ks at_key expected (ok (n', b))
    → IsCanonical n'
unfolding IsCanonical
left (node d c) n' false ks at_key expected h k = subst IsCanonical (sym k.0) h
left (node d c) (node d' c') true ks at_key expected h k = k.0

-- A deletion from a canonical trie leaves a canonical trie.
pub delete-IsCanonical :
    (n : MptNode) (key : Bytes) (n' : MptNode) (b : Bool)
    → IsCanonical n
    → IsBytes key
    → delete n key ≡ ok (n', b)
    → IsCanonical n'
unfolding delete
delete-IsCanonical n key n' b h hk e =
    let nibs = to_nibs-IsNibs key hk in
    left n n' b (to_nibs key) (get_internal n (to_nibs key)) _ h (
      subst (RemovedIn n (to_nibs key) _ _) e
        (delete_internal-RemovedIn n (to_nibs key) (to_nibs key) h nibs nibs))

-- Deleting from a canonical trie never panics: a branch keeps a child, and no child is empty.
pub delete-ne-panic :
    (n : MptNode) (key : Bytes) → IsCanonical n → IsBytes key → delete n key ≢ panic
unfolding delete
delete-ne-panic n key h hk e =
    let nibs = to_nibs-IsNibs key hk in
    subst
      (RemovedIn n (to_nibs key) (get_internal n (to_nibs key))
        (without (list_eq (to_nibs key) (to_nibs key)) (get_internal n (to_nibs key))))
      e (delete_internal-RemovedIn n (to_nibs key) (to_nibs key) h nibs nibs)
