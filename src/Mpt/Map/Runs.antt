-- ===== src/Mpt/Map/Runs.antt =====
-- Sequences of `insert` and `delete` (primitives/src/mpt.rs) against a function from keys to values.
use sp1_reth.Prelude.{
  ◌≡◌, ◌≢◌, subst, ap, sym, ◌∙◌, Bool, List, [], ◌∷◌, none, some, Outcome, ok, ◌>>=◌, list_eq,
  if◌then◌else◌, All, >>=-eq-ok,
}
use sp1_reth.Nibbles.{Bytes, IsBytes}
use sp1_reth.Mpt.Node.{Error, MptNode}
use sp1_reth.Mpt.Get.{Lookup, get}
use sp1_reth.Mpt.Canonical.{IsCanonical}
use sp1_reth.Mpt.Insert.{Changed, insert}
use sp1_reth.Mpt.Delete.{delete}
use sp1_reth.Mpt.Map.{get-insert, get-delete, insert-IsCanonical, delete-IsCanonical}

-- A call that changes the trie.
pub data Op : Type 0 where
  put : Bytes → Bytes → Op
  remove : Bytes → Op

abbrev pub IsOp : Op → Type 0
IsOp (put key value) = IsBytes key × (value ≢ [])
IsOp (remove key) = IsBytes key

abbrev pub apply : Op → MptNode → Changed
apply (put key value) n = insert n key value
apply (remove key) n = delete n key

-- The calls one after the other, up to the first that fails.
unfoldable pub run : List Op → MptNode → Outcome Error MptNode
run [] n = ok n
run (op ∷ ops) n = apply op n >>= λ (n', b). run ops n'

-- The same calls on a function from keys to values.
abbrev pub replay_one : Op → (Bytes → Lookup) → Bytes → Lookup
replay_one (put key value) f other = if list_eq key other then ok (some value) else f other
replay_one (remove key) f other = if list_eq key other then ok none else f other

pub replay : List Op → (Bytes → Lookup) → Bytes → Lookup
replay [] f = f
replay (op ∷ ops) f = replay ops (replay_one op f)

-- Two functions that agree on the byte strings.
abbrev Agrees : (Bytes → Lookup) → (Bytes → Lookup) → Type 0
Agrees f g = (key : Bytes) → IsBytes key → f key ≡ g key

replay_one-Agrees :
    (op : Op) (f g : Bytes → Lookup) → Agrees f g → Agrees (replay_one op f) (replay_one op g)
replay_one-Agrees (put k v) f g h key hk = rw (h key hk)
replay_one-Agrees (remove k) f g h key hk = rw (h key hk)

replay-Agrees :
    (ops : List Op) (f g : Bytes → Lookup) → Agrees f g → Agrees (replay ops f) (replay ops g)
unfolding replay
replay-Agrees [] f g h = h
replay-Agrees (op ∷ ops) f g h =
    replay-Agrees ops (replay_one op f) (replay_one op g) (replay_one-Agrees op f g h)

apply_refines :
    (op : Op) (n n' : MptNode) (b : Bool)
    → IsCanonical n
    → IsOp op
    → apply op n ≡ ok (n', b)
    → IsCanonical n' × Agrees (get n') (replay_one op (get n))
apply_refines (put k v) n n' b h ho e =
    (insert-IsCanonical n k v n' b h ho.0 e, λ key hk. get-insert n k v key n' b h ho.0 hk e)
apply_refines (remove k) n n' b h ho e =
    (delete-IsCanonical n k n' b h ho e, λ key hk. get-delete n k key n' b h ho hk e)

-- A run from a canonical trie that reaches its end leaves a canonical trie, which answers every key
-- as the replay of the run on the lookups before it.
pub run_refines :
    (ops : List Op) (n n' : MptNode)
    → IsCanonical n
    → All IsOp ops
    → run ops n ≡ ok n'
    → IsCanonical n' × ((key : Bytes) → IsBytes key → get n' key ≡ replay ops (get n) key)
unfolding run replay
run_refines [] n n' h ho e =
    let p : n ≡ n' = cc in (subst IsCanonical p h, λ key hk. ap (λ m. get m key) (sym p))
run_refines (op ∷ ops) n n' h ho e =
    let ((m, b), first, rest) = >>=-eq-ok (apply op n) (λ (m, b). run ops m) e in
    let (hm, agree) = apply_refines op n m b h ho.0 first in
    let (hn, later) = run_refines ops m n' hm ho.1 rest in
    (hn, λ key hk. later key hk ∙ replay-Agrees ops (get m) (replay_one op (get n)) agree key hk)
