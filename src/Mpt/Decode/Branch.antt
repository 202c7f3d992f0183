-- ===== src/Mpt/Decode/Branch.antt =====
-- Encodings of branches that decoding (primitives/src/mpt.rs) reads.
use sp1_reth.Prelude.{
  ℕ, zero, suc, ◌+◌, ◌<◌, ◌≡◌, refl, sym, ap, subst, ◌∙◌, true, false, List, [], ◌∷◌, ◌++◌, some,
  ok, length, take, arith, length-append, All, All-take,
}
use sp1_reth.Nibbles.{Bytes}
use sp1_reth.Mpt.Node.{
  MptNode, null, branch, Children, no_children, vacant, child, capacity, from, is_empty,
}
use sp1_reth.Mpt.Codec.{Codec, empty_string_code}
use sp1_reth.Mpt.Decode.{
  RlpReader, Decoded, is_null_item, val_at, decode_slots, as_branch, decode_list, decode_loop,
}
use sp1_reth.Mpt.Decode.Laws.{
  IsItem, is_string, AreItems, no_items, more_items, RlpLaws, concat, nth,
}
use sp1_reth.Mpt.Decode.Reads.{Reads, null-Reads, list-Reads, val_at-encode_bytes}

take-append : {A : Type 0} (n : ℕ) (xs ys : List A) → length xs ≡ n → take n (xs ++ ys) ≡ xs
take-append zero [] ys h = refl
take-append zero (x ∷ xs) ys h = absurd (omega arith)
take-append (suc n) [] ys h = absurd (omega arith)
take-append (suc n) (x ∷ xs) ys h = ap (λ zs. x ∷ zs) (take-append n xs ys (omega arith))

nth-append : (n : ℕ) (xs : List Bytes) (y : Bytes) → length xs ≡ n → nth (xs ++ y ∷ []) n ≡ some y
nth-append zero [] y h = refl
nth-append zero (x ∷ xs) y h = absurd (omega arith)
nth-append (suc n) [] y h = absurd (omega arith)
nth-append (suc n) (x ∷ xs) y h = nth-append n xs y (omega arith)

append-AreItems :
    (codec : Codec) (xs : List Bytes) (y : Bytes)
    → AreItems codec xs
    → IsItem codec y
    → AreItems codec (xs ++ y ∷ [])
append-AreItems codec xs y no_items k = more_items y [] k no_items
append-AreItems codec xs y (more_items x ys h hs) k =
    more_items x (ys ++ y ∷ []) h (append-AreItems codec ys y hs k)

module _ (codec : Codec) (reader : RlpReader) (laws : RlpLaws codec reader) where
  open codec use {encode_header}

  decode_list-branch :
      (next : Bytes → Decoded MptNode) (r : Bytes) (n : ℕ) (xs : List Bytes) (cs : Children)
      → n ≡ 17
      → take 16 (reader.items r) ≡ xs
      → decode_slots reader next xs ≡ ok cs
      → val_at reader r 16 ≡ ok []
      → capacity cs ≡ 16
      → decode_list reader next r n ≡ ok (from (branch cs))
  unfolding decode_list as_branch
  decode_list-branch next r n xs cs m t d v c = ground arith

  decode_slots-vacant :
      (next : Bytes → Decoded MptNode) (x : Bytes) (xs : List Bytes) (cs : Children)
      → Reads codec reader laws x (from null)
      → decode_slots reader next xs ≡ ok cs
      → decode_slots reader next (x ∷ xs) ≡ ok (vacant cs)
  unfolding decode_slots
  decode_slots-vacant next x xs cs k d =
      let p = k.prototype_lem in
      let empty : is_null_item k.prototype ≡ true = k.emptiness in ground arith

  decode_slots-child :
      (next : Bytes → Decoded MptNode) (x : Bytes) (xs : List Bytes) (n : MptNode) (cs : Children)
      → Reads codec reader laws x n
      → is_empty n ≡ false
      → next x ≡ ok n
      → decode_slots reader next xs ≡ ok cs
      → decode_slots reader next (x ∷ xs) ≡ ok (child n cs)
  unfolding decode_slots
  decode_slots-child next x xs n cs k full f d =
      let p = k.prototype_lem in
      let empty : is_null_item k.prototype ≡ false = k.emptiness ∙ full in ground arith

  -- The items of the slots of a branch, and the children that are read from them.
  pub record Slots (xs : List Bytes) (cs : Children) : Type 0 where
    pub items : AreItems codec xs
    pub count : length xs ≡ capacity cs
    pub decoded :
        (fuel : ℕ)
        → All (λ x. length x < fuel) xs
        → decode_slots reader (decode_loop reader fuel) xs ≡ ok cs

  pub no_children-Slots : Slots [] no_children
  unfolding decode_slots
  no_children-Slots = record { items = no_items; count = refl; decoded = λ fuel h. refl }

  pub vacant-Slots :
      (xs : List Bytes) (cs : Children)
      → Slots xs cs
      → Slots ((empty_string_code ∷ []) ∷ xs) (vacant cs)
  vacant-Slots xs cs s =
      let k = null-Reads codec reader laws in
      record {
        items = more_items _ xs k.item s.items;
        count = ap suc s.count;
        decoded =
            λ fuel h. decode_slots-vacant (decode_loop reader fuel) _ xs cs k (s.decoded fuel h.1);
      }

  pub child-Slots :
      (x : Bytes) (n : MptNode) (xs : List Bytes) (cs : Children)
      → Reads codec reader laws x n
      → is_empty n ≡ false
      → Slots xs cs
      → Slots (x ∷ xs) (child n cs)
  child-Slots x n xs cs k full s = record {
    items = more_items x xs k.item s.items;
    count = ap suc s.count;
    decoded = λ fuel h.
        decode_slots-child (decode_loop reader fuel) x xs n cs k full (k.decoded fuel h.0)
          (s.decoded fuel h.1);
  }

  pub branch-Reads :
      (xs : List Bytes) (cs : Children) (r : Bytes)
      → Slots xs cs
      → capacity cs ≡ 16
      → (let ys = xs ++ (empty_string_code ∷ []) ∷ [] in
          r ≡ encode_header (length (concat ys)) ++ concat ys)
      → Reads codec reader laws r (from (branch cs))
  branch-Reads xs cs r s c q =
      let value : Bytes = empty_string_code ∷ [] in
      let value_item = is_string value [] (sym laws.encode_bytes_empty) in
      let n : length xs ≡ 16 = s.count ∙ c in
      list-Reads codec reader laws (xs ++ value ∷ []) (from (branch cs))
        (append-AreItems codec xs value s.items value_item) refl
        (λ r fuel lists short.
          let firsts : take 16 (xs ++ value ∷ []) ≡ xs = take-append 16 xs (value ∷ []) n in
          decode_list-branch (decode_loop reader fuel) r _ xs cs
            (length-append xs (value ∷ []) ∙ ap (λ m. m + 1) n)
            (ap (take 16) lists.items_lem ∙ firsts)
            (s.decoded fuel
              (subst (All (λ x. length x < fuel)) firsts (All-take _ 16 (xs ++ value ∷ []) short)))
            (val_at-encode_bytes codec reader laws r 16 [] (
              lists.item_at_lem 16
              ∙ (nth-append 16 xs value n ∙ ap some (sym laws.encode_bytes_empty))))
            c)
        r q
