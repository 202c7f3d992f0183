-- ===== src/Mpt/Decode/Reads.antt =====
-- Encodings that decoding (primitives/src/mpt.rs) reads as one node, one kind of node at a time.
use sp1_reth.Prelude.{
  ℕ, zero, suc, ◌+◌, ◌<◌, ◌≤◌, ◌≡◌, ◌≢◌, refl, sym, ap, subst, ◌∙◌, true, false, List, [], ◌∷◌,
  ◌++◌, some, ok, ◌>>=◌, length, arith, All,
}
use sp1_reth.Nibbles.{Bytes}
use sp1_reth.Nibbles.RoundTrip.{is_leaf_path}
use sp1_reth.Mpt.Node.{B256, MptNode, MptNodeData, null, leaf, extension, from, is_empty}
use sp1_reth.Mpt.Codec.{Codec, empty_string_code}
use sp1_reth.Mpt.Decode.{
  Prototype, string, list, RlpReader, is_null_item, lift, val_at, decode_pair, decode_list,
  decode_as, decode_loop, Decoded,
}
use sp1_reth.Mpt.Decode.Shape.{All-below}
use sp1_reth.Mpt.Decode.Laws.{
  IsItem, is_string, is_list, AreItems, no_items, more_items, Lists, RlpLaws, concat,
}

module _ (codec : Codec) (reader : RlpReader) (laws : RlpLaws codec reader) where
  open codec use {keccak, length-keccak, encode_bytes, encode_header}

  -- The bytes are an item, which is empty if the node is, and decoding them gives the node.
  pub record Reads (e : Bytes) (n : MptNode) : Type 0 where
    pub item : IsItem codec e
    pub prototype : Prototype
    pub prototype_lem : reader.prototype e ≡ some prototype
    pub emptiness : is_null_item prototype ≡ is_empty n
    pub decoded : (fuel : ℕ) → length e < fuel → decode_loop reader fuel e ≡ ok n

  -- One pass, with fuel for what is inside.
  decode_loop-some :
      (e : Bytes) (p : Prototype) (n : MptNode)
      → reader.prototype e ≡ some p
      → ((k : ℕ) → length e ≤ k → decode_as reader (decode_loop reader k) e p ≡ ok n)
      → (fuel : ℕ) → length e < fuel
      → decode_loop reader fuel e ≡ ok n
  unfolding decode_loop
  decode_loop-some e p n q f zero b = absurd (omega arith)
  decode_loop-some e p n q f (suc k) b =
      ap (λ o. lift o >>= decode_as reader (decode_loop reader k) e) q ∙ f k (omega arith)

  -- A string that `decode_as` reads, whatever decodes the items.
  string-Reads :
      (e bs : Bytes) (n : MptNode)
      → e ≡ encode_bytes bs
      → is_null_item (string (length bs)) ≡ is_empty n
      → ((fuel : ℕ) → decode_as reader (decode_loop reader fuel) e (string (length bs)) ≡ ok n)
      → Reads e n
  string-Reads e bs n q empty f =
      let p : reader.prototype e ≡ some (string (length bs)) =
        ap reader.prototype q ∙ laws.prototype-encode_bytes bs in
      record {
        item = is_string e bs q;
        prototype = string (length bs);
        prototype_lem = p;
        emptiness = empty;
        decoded = decode_loop-some e (string (length bs)) n p (λ k b. f k);
      }

  pub null-Reads : Reads (empty_string_code ∷ []) (from null)
  unfolding decode_as
  null-Reads = string-Reads _ [] (from null) (sym laws.encode_bytes_empty) refl (λ fuel. refl)

  decode_as-digest :
      (next : Bytes → Decoded MptNode) (e : Bytes) (d : B256) (n : ℕ)
      → n ≡ 32
      → length d ≡ 32
      → reader.as_val e ≡ some d
      → decode_as reader next e (string n) ≡ ok (from (MptNodeData.digest d))
  unfolding decode_as
  decode_as-digest next e d n q h v = ground arith

  pub digest-Reads :
      (d : B256)
      → length d ≡ 32
      → Reads ((empty_string_code + 32) ∷ d) (from (MptNodeData.digest d))
  digest-Reads d h =
      let q = sym (laws.encode_bytes_digest d h) in
      let v : reader.as_val ((empty_string_code + 32) ∷ d) ≡ some d =
        ap reader.as_val q ∙ laws.as_val-encode_bytes d in
      string-Reads _ d (from (MptNodeData.digest d)) q (ground arith)
        (λ fuel. decode_as-digest (decode_loop reader fuel) _ d (length d) h h v)

  -- A list of these items that `decode_list` reads, with fuel above the lengths of the items.
  pub list-Reads :
      (xs : List Bytes) (n : MptNode)
      → AreItems codec xs
      → is_empty n ≡ false
      → ((r : Bytes) (fuel : ℕ)
          → Lists reader r xs
          → All (λ x. length x < fuel) xs
          → decode_list reader (decode_loop reader fuel) r (length xs) ≡ ok n)
      → (r : Bytes) → r ≡ encode_header (length (concat xs)) ++ concat xs
      → Reads r n
  unfolding decode_as
  list-Reads xs n items full f r q =
      let lists : Lists reader r xs =
        subst (λ e. Lists reader e xs) (sym q) (laws.lists xs items) in
      let short : All (λ x. length x < length r) xs =
        subst (All (λ x. length x < length r)) lists.items_lem (reader.length-items r) in
      record {
        item = is_list r xs items q;
        prototype = list (length xs);
        prototype_lem = lists.prototype_lem;
        emptiness = sym full;
        decoded =
            decode_loop-some r (list (length xs)) n lists.prototype_lem
              (λ k b. f r k lists (All-below (length r) k xs b short));
      }

  pub val_at-encode_bytes :
      (r : Bytes) (i : ℕ) (bs : Bytes)
      → reader.item_at r i ≡ some (encode_bytes bs)
      → val_at reader r i ≡ ok bs
  val_at-encode_bytes r i bs q =
      ap (λ o. lift o >>= λ x. lift (reader.as_val x)) q ∙ ap lift (laws.as_val-encode_bytes bs)

  decode_pair-leaf :
      (next : Bytes → Decoded MptNode) (r prefix value : Bytes)
      → is_leaf_path prefix ≡ true
      → val_at reader r 1 ≡ ok value
      → decode_pair reader next r prefix ≡ ok (from (leaf prefix value))
  unfolding decode_pair
  decode_pair-leaf next r [] value h v = cc
  decode_pair-leaf next r (b ∷ bs) value h v = ground arith

  decode_pair-extension :
      (next : Bytes → Decoded MptNode) (r prefix e : Bytes) (n : MptNode)
      → prefix ≢ []
      → is_leaf_path prefix ≡ false
      → reader.item_at r 1 ≡ some e
      → next e ≡ ok n
      → decode_pair reader next r prefix ≡ ok (from (extension prefix n))
  unfolding decode_pair
  decode_pair-extension next r [] e n p h v d = absurd (p refl)
  decode_pair-extension next r (b ∷ bs) e n p h v d = ground arith

  pub leaf-Reads :
      (prefix value r : Bytes)
      → is_leaf_path prefix ≡ true
      → (let xs = encode_bytes prefix ∷ encode_bytes value ∷ [] in
          r ≡ encode_header (length (concat xs)) ++ concat xs)
      → Reads r (from (leaf prefix value))
  unfolding decode_list
  leaf-Reads prefix value r h q =
      list-Reads (encode_bytes prefix ∷ encode_bytes value ∷ []) (from (leaf prefix value))
        (more_items _ _ (is_string _ prefix refl)
          (more_items _ _ (is_string _ value refl) no_items))
        refl
        (λ r fuel lists short.
          ap (λ m. m >>= decode_pair reader (decode_loop reader fuel) r)
            (val_at-encode_bytes r 0 prefix (lists.item_at_lem 0))
          ∙ decode_pair-leaf (decode_loop reader fuel) r prefix value h
              (val_at-encode_bytes r 1 value (lists.item_at_lem 1)))
        r q

  pub extension-Reads :
      (prefix e : Bytes) (n : MptNode) (r : Bytes)
      → prefix ≢ []
      → is_leaf_path prefix ≡ false
      → Reads e n
      → (let xs = encode_bytes prefix ∷ e ∷ [] in
          r ≡ encode_header (length (concat xs)) ++ concat xs)
      → Reads r (from (extension prefix n))
  unfolding decode_list
  extension-Reads prefix e n r p h k q =
      list-Reads (encode_bytes prefix ∷ e ∷ []) (from (extension prefix n))
        (more_items _ _ (is_string _ prefix refl) (more_items _ _ k.item no_items)) refl
        (λ r fuel lists short.
          ap (λ m. m >>= decode_pair reader (decode_loop reader fuel) r)
            (val_at-encode_bytes r 0 prefix (lists.item_at_lem 0))
          ∙ decode_pair-extension (decode_loop reader fuel) r prefix e n p h (lists.item_at_lem 1)
              (k.decoded fuel short.1.0))
        r q
