-- ===== src/Processor/Finalize/Slots.antt =====
-- The slots that `finalize` (primitives/src/processor.rs) writes, as a run of changes of the trie.
use sp1_reth.Prelude.{
  ℕ, ◌≡◌, refl, ap, ◌∙◌, Bool, List, [], ◌∷◌, ok, err, panic, ◌>>=◌, ◌==◌, if◌then◌else◌, arith,
  inl, inr, Bool-cases, >>=-eq-ok, ok_unique,
}
use sp1_reth.Mpt.Node.{MptNode}
use sp1_reth.Mpt.Insert.{Changed, insert_rlp}
use sp1_reth.Db.Rlp.{insert-insert_rlp}
use sp1_reth.Mpt.Delete.{delete}
use sp1_reth.Mpt.Map.Runs.{Op, put, remove, apply, run}
use sp1_reth.Db.{bytes_keys}
use sp1_reth.Processor.Finalize.{Encoders, unwrap_trie, write_slot, write_slots}

pub unwrap_trie_ok :
    (r : Changed) {n : MptNode} → unwrap_trie r ≡ ok n → (b : Bool) × (r ≡ ok (n, b))
unwrap_trie_ok (ok (m, b)) e = (b, let same : m ≡ _ = cc in ap (λ x. ok (x, b)) same)
unwrap_trie_ok (err x) e = cc
unwrap_trie_ok panic e = cc

pub run_cons :
    (op : Op) (ops : List Op) (n m t : MptNode) (b : Bool)
    → apply op n ≡ ok (m, b)
    → run ops m ≡ ok t
    → run (op ∷ ops) n ≡ ok t
unfolding run
run_cons op ops n m t b e f = ap (λ r. r >>= λ (x, c). run ops x) e ∙ f

module _ (ops : Encoders) where
  open ops use {codec, to_be_bytes, encode_u256, encode_u256-ne}

  -- The change of the storage trie that a slot asks for.
  unfoldable pub slot_op : ℕ → ℕ → Op
  slot_op key value =
      if value == 0
      then remove (codec.keccak (to_be_bytes key))
      else put (codec.keccak (to_be_bytes key)) (encode_u256 value)

  unfoldable pub slot_ops : List (ℕ × ℕ) → List Op
  slot_ops [] = []
  slot_ops ((key, value) ∷ rest) = slot_op key value ∷ slot_ops rest

  write_slot-apply :
      (trie : MptNode) (key value : ℕ) (t : MptNode)
      → write_slot ops trie key value ≡ ok t
      → (b : Bool) × (apply (slot_op key value) trie ≡ ok (t, b))
  unfolding write_slot slot_op
  write_slot-apply trie key value t e = elim (Bool-cases (value == 0)) [
    | inl z ↦
        let (b, f) =
          unwrap_trie_ok (delete trie (codec.keccak (to_be_bytes key))) {n = t} (ground arith) in
        (b, ground arith)
    | inr z ↦
        let (b, f) =
          unwrap_trie_ok (insert_rlp encode_u256 trie (codec.keccak (to_be_bytes key)) value)
            {n = t} (ground arith) in
        let same =
          insert-insert_rlp encode_u256 trie (codec.keccak (to_be_bytes key)) value
            (encode_u256-ne value) in
        (b, rw z (same ∙ f))
  ]

  pub write_slots-run :
      (storage : List (ℕ × ℕ)) (trie t : MptNode)
      → write_slots ops trie storage ≡ ok t
      → run (slot_ops storage) trie ≡ ok t
  unfolding write_slots slot_ops run
  write_slots-run [] trie t e = ap ok (ok_unique _ refl e)
  write_slots-run ((key, value) ∷ rest) trie t e =
      let (m, e₁, e₂) = >>=-eq-ok (write_slot ops trie key value) _ e in
      let (b, f) = write_slot-apply trie key value m e₁ in
      run_cons (slot_op key value) (slot_ops rest) trie m t b f (write_slots-run rest m t e₂)
