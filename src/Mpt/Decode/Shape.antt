-- ===== src/Mpt/Decode/Shape.antt =====
-- What decoding (primitives/src/mpt.rs) returns, and that it ends: items are shorter than the lists
-- that they are in.
use sp1_reth.Prelude.{
  ℕ, zero, suc, ◌<◌, ◌≤◌, ◌≡◌, ◌≢◌, refl, subst, true, false, List, [], ◌∷◌, none, some, ok, err,
  panic, ◌==◌, ==_iff, length, take, All, All-take, arith, bit_and,
}
use sp1_reth.Nibbles.{Bytes}
use sp1_reth.Nibbles.RoundTrip.{is_leaf_path}
use sp1_reth.Mpt.Node.{
  MptNode, node, MptNodeData, null, branch, leaf, extension, Children, no_children, vacant, child,
  capacity,
}
use sp1_reth.Mpt.Decode.{
  Prototype, nothing, string, list, RlpReader, failed, out_of_fuel, Decoded, lift, is_null_item,
  val_at, decode_pair, decode_slots, as_branch, decode_list, as_digest, decode_as, decode_loop,
  decode, as_error,
}
use sp1_reth.Mpt.Decode.Yields.{Yields, Yields-bind, Yields-if, Yields-lift, Yields-true}

-- What decoding makes: nothing is cached, a branch has 16 slots, a path has the flag of its kind, and
-- a digest 32 bytes.
unfoldable mutual
  pub IsDecoded : MptNode → Type 0
  IsDecoded (node d c) = (c ≡ none) × IsDecodedData d

  pub IsDecodedData : MptNodeData → Type 0
  IsDecodedData null = Unit
  IsDecodedData (branch cs) = (capacity cs ≡ 16) × AreDecoded cs
  IsDecodedData (leaf prefix value) = is_leaf_path prefix ≡ true
  IsDecodedData (extension prefix n) = (prefix ≢ []) × (is_leaf_path prefix ≡ false) × IsDecoded n
  IsDecodedData (MptNodeData.digest d) = length d ≡ 32

  pub AreDecoded : Children → Type 0
  AreDecoded no_children = Unit
  AreDecoded (vacant cs) = AreDecoded cs
  AreDecoded (child n cs) = IsDecoded n × AreDecoded cs

pub All-below :
    (a b : ℕ) (xs : List Bytes) → a ≤ b → All (λ x. length x < a) xs → All (λ x. length x < b) xs
All-below a b [] le h = tt
All-below a b (x ∷ xs) le h = (omega arith, All-below a b xs le h.1)

as_error-Yields :
    (reader : RlpReader) (m : Decoded MptNode) (n : MptNode)
    → Yields ⊥ IsDecoded m
    → as_error reader m ≡ ok n
    → IsDecoded n
as_error-Yields reader (ok x) n h e = let same : x ≡ n = cc in subst IsDecoded same h
as_error-Yields reader (err (failed x)) n h e = cc
as_error-Yields reader (err out_of_fuel) n h e = cc
as_error-Yields reader panic n h e = cc

module _ (reader : RlpReader) where
  open reader use {prototype, item_at, items, as_val, length-item_at, length-items}

  Yields-val_at : (r : Bytes) (i : ℕ) → Yields ⊥ (λ bs. Unit {0}) (val_at reader r i)
  Yields-val_at r i =
      Yields-bind ⊥ _ _ (lift (item_at r i)) _ (Yields-lift ⊥ _)
        (λ x e. Yields-true ⊥ _ (lift (as_val x)) (Yields-lift ⊥ (as_val x)))

  module _ (next : Bytes → Decoded MptNode) (bound : ℕ) where
    -- `next` decodes every item below the bound.
    abbrev Decodes : Type 0
    Decodes = (x : Bytes) → length x < bound → Yields ⊥ IsDecoded (next x)

    decode_slots-Yields :
        Decodes
        → (xs : List Bytes) → All (λ x. length x < bound) xs
        → Yields ⊥ (λ cs. AreDecoded cs) (decode_slots reader next xs)
    unfolding decode_slots IsDecoded
    decode_slots-Yields f [] h = tt
    decode_slots-Yields f (x ∷ xs) h =
        let more = decode_slots-Yields f xs h.1 in
        Yields-bind ⊥ _ AreDecoded (lift (prototype x)) _ (Yields-lift ⊥ _) (λ p e.
          Yields-if ⊥ AreDecoded (is_null_item p) _ _
            (λ t.
              Yields-bind ⊥ AreDecoded AreDecoded (decode_slots reader next xs)
                (λ cs. ok (vacant cs)) more (λ cs k. k))
            (λ t. Yields-bind ⊥ IsDecoded AreDecoded _ _ (f x h.0) (λ n k.
              Yields-bind ⊥ AreDecoded AreDecoded (decode_slots reader next xs)
                (λ cs. ok (child n cs)) more (λ cs k'. (k, k')))))

    decode_pair-Yields :
        Decodes
        → (r path : Bytes) → length r ≤ bound
        → Yields ⊥ IsDecoded (decode_pair reader next r path)
    unfolding decode_pair IsDecoded
    decode_pair-Yields f r [] b = tt
    decode_pair-Yields f r (prefix ∷ rest) b =
        Yields-if ⊥ IsDecoded (bit_and prefix 0x20 == 0) _ _
          (λ t. Yields-bind ⊥ _ IsDecoded (lift (item_at r 1)) _ (Yields-lift ⊥ _) (λ x e.
            Yields-bind ⊥ IsDecoded IsDecoded _ _ (f x (omega (arith, length-item_at r 1 x e)))
              (λ n k. (refl, (λ q. cc, ground arith, k)))))
          (λ t.
            Yields-bind ⊥ _ IsDecoded (val_at reader r 1) _ (Yields-val_at r 1)
              (λ v k. (refl, ground arith)))

    as_branch-Yields :
        (cs : Children) (v : Bytes)
        → AreDecoded cs
        → Yields ⊥ IsDecoded (as_branch reader next cs v)
    unfolding as_branch IsDecoded
    as_branch-Yields cs [] k =
        Yields-if ⊥ IsDecoded (capacity cs == 16) _ _ (λ t. (refl, ((==_iff _ _).0 t, k))) (λ t. tt)
    as_branch-Yields cs (b ∷ bs) k = tt

    decode_list-Yields :
        Decodes
        → (r : Bytes) (n : ℕ) → length r ≤ bound
        → Yields ⊥ IsDecoded (decode_list reader next r n)
    unfolding decode_list
    decode_list-Yields f r n b =
        Yields-if ⊥ IsDecoded (n == 2) _ _
          (λ t.
            Yields-bind ⊥ _ IsDecoded (val_at reader r 0) _ (Yields-val_at r 0)
              (λ path k. decode_pair-Yields f r path b))
          (λ t.
            Yields-if ⊥ IsDecoded (n == 17) _ _
              (λ t'.
                Yields-bind ⊥ AreDecoded IsDecoded _ _
                  (decode_slots-Yields f (take 16 (items r)) (
                    All-take _ 16 (items r)
                      (All-below (length r) bound (items r) b (length-items r))))
                  (λ cs k.
                    Yields-bind ⊥ _ IsDecoded (val_at reader r 16) _ (Yields-val_at r 16)
                      (λ v k''. as_branch-Yields cs v k)))
              (λ t'. tt))

    decode_as-Yields :
        Decodes
        → (r : Bytes) (p : Prototype) → prototype r ≡ some p
        → length r ≤ bound
        → Yields ⊥ IsDecoded (decode_as reader next r p)
    unfolding decode_as IsDecoded
    decode_as-Yields f r nothing e b = (refl, tt)
    decode_as-Yields f r (string n) e b =
        Yields-if ⊥ IsDecoded (n == 0) _ _ (λ t. (refl, tt))
          (λ t.
            Yields-if ⊥ IsDecoded (n == 32) _ _
              (λ t'.
                Yields-bind ⊥ _ IsDecoded (lift (as_val r)) (as_digest reader next)
                  (Yields-lift ⊥ _)
                  (λ bs e'.
                    Yields-if ⊥ IsDecoded (length bs == 32) _ _ (λ q. (refl, (==_iff _ _).0 q))
                      (λ q. tt)))
              (λ t'. tt))
    decode_as-Yields f r (list n) e b = decode_list-Yields f r n b

  decode_loop-Yields :
      (fuel : ℕ) (r : Bytes) → length r < fuel → Yields ⊥ IsDecoded (decode_loop reader fuel r)
  unfolding decode_loop
  decode_loop-Yields zero r b = absurd (omega arith)
  decode_loop-Yields (suc fuel) r b =
      Yields-bind ⊥ _ IsDecoded (lift (prototype r)) _ (Yields-lift ⊥ _) (λ p e.
        decode_as-Yields (decode_loop reader fuel) fuel (decode_loop-Yields fuel) r p e
          (omega arith))

  -- With fuel above the length of the bytes, decoding ends: the fuel is never used up.
  pub decode_loop-total :
      (fuel : ℕ) (r : Bytes) → length r < fuel → decode_loop reader fuel r ≢ err out_of_fuel
  decode_loop-total fuel r b = λ e. subst (Yields ⊥ IsDecoded) e (decode_loop-Yields fuel r b)

  -- A node that is decoded has nothing cached, each of its branches has 16 slots, each path the flag
  -- of a leaf or an extension as its node has, an extension's path is not empty, and a digest has 32 bytes.
  pub decode-IsDecoded : (bs : Bytes) (n : MptNode) → decode reader bs ≡ ok n → IsDecoded n
  unfolding decode
  decode-IsDecoded bs n e =
      as_error-Yields reader (decode_loop reader (suc (length bs)) bs) n
        (decode_loop-Yields (suc (length bs)) bs (omega arith)) e
