-- ===== src/Mpt/Tests/Decode.antt =====
-- Runs of decoding (primitives/src/mpt.rs), and uses of the theorems there.
use sp1_reth.Prelude.{◌≡◌, ◌≢◌, refl, [], ◌∷◌, ok, err, arith}
use sp1_reth.Nibbles.{Bytes}
use sp1_reth.Mpt.Node.{MptNode, MptNodeData, branch, leaf, extension, child, vacancies, from}
use sp1_reth.Mpt.Reference.{encode}
use sp1_reth.Mpt.Reference.Coherent.{IsCoherent}
use sp1_reth.Mpt.Proof.{zeros}
use sp1_reth.Mpt.Decode.{out_of_fuel, decode, decode_loop}
use sp1_reth.Mpt.Decode.Shape.{IsDecoded, decode_loop-total, decode-IsDecoded}
use sp1_reth.Mpt.Decode.Stub.{stub_data}
use sp1_reth.Mpt.Decode.RoundTrip.{IsEncodableData, decode-encode}
use sp1_reth.Mpt.Tests.Rlp.{codec, reader, laws, digest_for}

-- A branch with a short leaf, which stands in it, and a long one, which it has by its hash.
abbrev short_leaf : MptNode
short_leaf = from (leaf (0x20 ∷ []) (7 ∷ []))

abbrev long_leaf : MptNode
long_leaf = from (leaf (0x20 ∷ []) (zeros 40))

abbrev forked : MptNode
forked = from (branch (child short_leaf (child long_leaf (vacancies 14))))

abbrev stubbed : MptNode
stubbed =
    from
      (branch (child short_leaf (child (from (MptNodeData.digest (digest_for 44))) (vacancies 14))))

abbrev trie : MptNodeData
trie = extension (0x11 ∷ []) forked

stub_data_run :
    stub_data codec (branch (child short_leaf (child long_leaf (vacancies 14))))
    ≡ branch (child short_leaf (child (from (MptNodeData.digest (digest_for 44))) (vacancies 14)))
unfolding stub_data encode
stub_data_run = refl

decode_run :
    decode reader (encode codec (branch (child short_leaf (child long_leaf (vacancies 14)))))
    ≡ ok stubbed
unfolding decode encode
decode_run = refl

decode-IsDecoded_example : IsDecoded stubbed
decode-IsDecoded_example =
    decode-IsDecoded reader
      (encode codec (branch (child short_leaf (child long_leaf (vacancies 14))))) stubbed decode_run

abbrev leaf_bytes : Bytes
leaf_bytes = 1009 ∷ 0x81 ∷ 0x20 ∷ 0x81 ∷ 7 ∷ []

decode_loop-total_example : decode_loop reader 6 leaf_bytes ≢ err out_of_fuel
decode_loop-total_example = decode_loop-total reader 6 leaf_bytes (omega arith)

trie-IsCoherent : IsCoherent codec (from trie)
unfolding IsCoherent
trie-IsCoherent = (tt, (tt, ((tt, tt), ((tt, tt), tt))))

trie-IsEncodable : IsEncodableData trie
unfolding IsEncodableData
trie-IsEncodable = (cc, refl, (refl, (refl, refl, (refl, refl, tt))))

decode-encode_example :
    (decode reader (encode codec trie) ≡ ok (from (stub_data codec trie)))
    × (encode codec (stub_data codec trie) ≡ encode codec trie)
decode-encode_example = decode-encode codec reader laws trie trie-IsCoherent trie-IsEncodable
