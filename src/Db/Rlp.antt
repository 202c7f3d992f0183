-- ===== src/Db/Rlp.antt =====
-- Values of a type in the trie: `insert_rlp` and `get_rlp` of primitives/src/mpt.rs.
use sp1_reth.Prelude.{
  ◌≡◌, ◌≢◌, refl, ◌∙◌, Bool, true, false, [], ◌∷◌, Option, none, some, Outcome, ok, err, ◌>>=◌,
  list_eq, if◌then◌else◌, arith,
}
use sp1_reth.Nibbles.{Bytes, IsBytes, to_nibs}
use sp1_reth.Mpt.Node.{Error, rlp, MptNode}
use sp1_reth.Mpt.Get.{get}
use sp1_reth.Mpt.Canonical.{IsCanonical}
use sp1_reth.Mpt.Insert.{insert, insert_internal, insert_rlp}
use sp1_reth.Mpt.Map.{get-insert}
use sp1_reth.Db.{get_rlp}

-- The end of `get_rlp`.
abbrev found_value : {A : Type 0} → (Bytes → Option A) → Option Bytes → Outcome Error (Option A)
found_value decode found = elim found [
  | none ↦ ok none
  | some bs ↦ elim (decode bs) [ none ↦ err rlp | some a ↦ ok (some a) ]
]

insert_full :
    (n : MptNode) (key value : Bytes)
    → value ≢ []
    → insert n key value ≡ insert_internal n (to_nibs key) value
unfolding insert
insert_full n key [] h = absurd (h refl)
insert_full n key (v ∷ vs) h = ground arith

get_rlp_if :
    {A : Type 0} (decode : Bytes → Option A) (same : Bool) (n : MptNode) (other bs : Bytes)
    (value : A)
    → decode bs ≡ some value
    → ((if same then ok (some bs) else get n other) >>= found_value decode)
      ≡ (if same then ok (some value) else (get n other >>= found_value decode))
get_rlp_if decode true n other bs value law = rw (law, found_value) refl
get_rlp_if decode false n other bs value law = refl

pub insert-insert_rlp :
    {A : Type 0} (to_rlp : A → Bytes) (n : MptNode) (key : Bytes) (value : A)
    → to_rlp value ≢ []
    → insert n key (to_rlp value) ≡ insert_rlp to_rlp n key value
unfolding insert insert_rlp
insert-insert_rlp to_rlp n key value h = insert_full n key (to_rlp value) h

-- After `insert_rlp` into a canonical trie, of a value whose encoding is not empty and decodes to
-- it, `get_rlp` gives the value at the key, and at every other key what it gave before.
pub get_rlp-insert_rlp :
    {A : Type 0} (to_rlp : A → Bytes) (decode : Bytes → Option A) (n n' : MptNode)
    (key other : Bytes) (value : A) (b : Bool)
    → to_rlp value ≢ []
    → decode (to_rlp value) ≡ some value
    → IsCanonical n
    → IsBytes key
    → IsBytes other
    → insert_rlp to_rlp n key value ≡ ok (n', b)
    → get_rlp decode n' other
      ≡ (if list_eq key other then ok (some value) else get_rlp decode n other)
unfolding get_rlp
get_rlp-insert_rlp to_rlp decode n n' key other value b full law h hk ho e =
    let read =
      get-insert n key (to_rlp value) other n' b h hk ho
        (insert-insert_rlp to_rlp n key value full ∙ e) in
    rw (read) (get_rlp_if decode (list_eq key other) n other (to_rlp value) value law)
