-- ===== src/Mpt/Tests.antt =====
-- Runs of the trie's methods (primitives/src/mpt.rs) on small tries, and uses of the theorems there.
pub mod Rlp
pub mod Refs
pub mod Decode
use sp1_reth.Prelude.{
  ℕ, ◌≤◌, ◌<◌, ◌≡◌, ◌≢◌, refl, Bool, true, false, List, [], ◌∷◌, Option, none, some, Outcome, ok,
  panic, arith, All,
}
use sp1_reth.Nibbles.{Bytes, IsBytes, to_encoded_path, to_nibs, prefix_nibs, lcp}
use sp1_reth.Mpt.Node.{
  MptNode, node, branch, leaf, extension, Children, vacant, child, vacancies, from, default,
  set_child,
}
use sp1_reth.Mpt.Get.{get}
use sp1_reth.Mpt.Canonical.{IsCanonical}
use sp1_reth.Mpt.Insert.{insert, insert_internal, insert_leaf, fork}
use sp1_reth.Mpt.Delete.{delete, delete_internal, collapse, remaining, rejoin}
use sp1_reth.Mpt.Map.{
  get-insert, insert-false, insert-IsCanonical, insert-ne-panic, get-delete, delete-false,
  delete-IsCanonical, delete-ne-panic,
}
use sp1_reth.Mpt.Map.Runs.{Op, put, remove, run, replay, run_refines}

-- Two keys that share their first nibble, with a value each.
abbrev pub key_a : Bytes
key_a = 0x12 ∷ []

abbrev pub key_b : Bytes
key_b = 0x13 ∷ []

abbrev pub value_a : Bytes
value_a = 7 ∷ []

abbrev pub value_b : Bytes
value_b = 8 ∷ []

abbrev pub one : MptNode
one = from (leaf (0x20 ∷ 0x12 ∷ []) value_a)

abbrev pub end_a : MptNode
end_a = from (leaf (0x20 ∷ []) value_a)

abbrev pub end_b : MptNode
end_b = from (leaf (0x20 ∷ []) value_b)

abbrev pub two : MptNode
two = from (
    extension (0x11 ∷ [])
      (from (branch (vacant (vacant (child end_a (child end_b (vacancies 12))))))))

pub key_a-IsBytes : IsBytes key_a
key_a-IsBytes = (omega arith, tt)

pub key_b-IsBytes : IsBytes key_b
key_b-IsBytes = (omega arith, tt)

pub inserted_one : insert default key_a value_a ≡ ok (one, true)
unfolding insert insert_internal to_encoded_path to_nibs
inserted_one = refl

pub inserted_two : insert one key_b value_b ≡ ok (two, true)
unfolding insert insert_internal prefix_nibs insert_leaf lcp fork set_child to_encoded_path
inserted_two = refl

inserted_again : insert two key_a value_a ≡ ok (two, false)
unfolding insert insert_internal prefix_nibs lcp insert_leaf
inserted_again = refl

deleted_two : delete two key_b ≡ ok (one, true)
unfolding delete delete_internal prefix_nibs collapse remaining rejoin to_encoded_path
deleted_two = refl

deleted_missing : delete one key_b ≡ ok (one, false)
unfolding delete delete_internal prefix_nibs
deleted_missing = refl

default-IsCanonical : IsCanonical default
unfolding IsCanonical
default-IsCanonical = tt

pub one-IsCanonical : IsCanonical one
one-IsCanonical =
    insert-IsCanonical default key_a value_a one true default-IsCanonical key_a-IsBytes inserted_one

pub two-IsCanonical : IsCanonical two
two-IsCanonical =
    insert-IsCanonical one key_b value_b two true one-IsCanonical key_b-IsBytes inserted_two

get-insert_example : get two key_a ≡ get one key_a
get-insert_example =
    get-insert one key_b value_b key_a two true one-IsCanonical key_b-IsBytes key_a-IsBytes
      inserted_two

get-delete_example : get one key_a ≡ get two key_a
get-delete_example =
    get-delete two key_b key_a one true two-IsCanonical key_b-IsBytes key_a-IsBytes deleted_two

insert-IsCanonical_example : IsCanonical two
insert-IsCanonical_example =
    insert-IsCanonical one key_b value_b two true one-IsCanonical key_b-IsBytes inserted_two

delete-IsCanonical_example : IsCanonical one
delete-IsCanonical_example =
    delete-IsCanonical two key_b one true two-IsCanonical key_b-IsBytes deleted_two

insert-false_example : (two ≡ two) × (get two key_a ≡ ok (some value_a))
insert-false_example =
    insert-false two key_a value_a two two-IsCanonical key_a-IsBytes inserted_again

delete-false_example : (one ≡ one) × (get one key_b ≡ ok none)
delete-false_example = delete-false one key_b one one-IsCanonical key_b-IsBytes deleted_missing

insert-ne-panic_example : insert two key_a value_b ≢ panic
insert-ne-panic_example = insert-ne-panic two key_a value_b two-IsCanonical key_a-IsBytes (λ e. cc)

delete-ne-panic_example : delete two key_a ≢ panic
delete-ne-panic_example = delete-ne-panic two key_a two-IsCanonical key_a-IsBytes

abbrev ops : List Op
ops = put key_a value_a ∷ put key_b value_b ∷ remove key_b ∷ []

ran_ops : run ops default ≡ ok one
unfolding run insert delete insert_internal prefix_nibs to_encoded_path insert_leaf lcp fork
    set_child delete_internal collapse remaining rejoin
ran_ops = refl

run_refines_example :
    IsCanonical one × ((key : Bytes) → IsBytes key → get one key ≡ replay ops (get default) key)
run_refines_example =
    run_refines ops default one default-IsCanonical
      ((key_a-IsBytes, λ e. cc), ((key_b-IsBytes, λ e. cc), (key_b-IsBytes, tt))) ran_ops
