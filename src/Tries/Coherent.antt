-- ===== src/Tries/Coherent.antt =====
-- The nodes of the proofs that `proofs_to_tries` (primitives/src/mpt.rs) reads have nothing wrong in a cache.
use sp1_reth.Prelude.{
  ℕ, ◌≡◌, subst, true, false, List, [], ◌∷◌, none, some, ok, ◌>>=◌, All, >>=-eq-ok,
}
use sp1_reth.Nibbles.{Bytes, prefix_nibs, to_encoded_path}
use sp1_reth.Mpt.Node.{
  MptNode, node, MptNodeData, null, branch, leaf, extension, Children, no_children, vacant, child,
  from,
}
use sp1_reth.Mpt.Codec.{Codec}
use sp1_reth.Mpt.Reference.Coherent.{IsCoherent, AreCoherent}
use sp1_reth.Mpt.Proof.{shorten_node_path, suffixes}
use sp1_reth.Mpt.Decode.{RlpReader, decode, parse_proof}
use sp1_reth.Mpt.Decode.Shape.{IsDecoded, AreDecoded, decode-IsDecoded}
use sp1_reth.Db.{bytes_keys}
use sp1_reth.Tries.Store.{reference_keys}

module _ (codec : Codec) where
  -- Nothing is cached in a decoded node.
  mutual
    unfolding IsDecoded IsCoherent

    pub IsDecoded-IsCoherent : (n : MptNode) → IsDecoded n → IsCoherent codec n
    IsDecoded-IsCoherent (node null none) h = (tt, tt)
    IsDecoded-IsCoherent (node (branch cs) none) h = (tt, AreDecoded-AreCoherent cs h.1.1)
    IsDecoded-IsCoherent (node (leaf prefix value) none) h = (tt, tt)
    IsDecoded-IsCoherent (node (extension prefix n) none) h = (tt, IsDecoded-IsCoherent n h.1.2)
    IsDecoded-IsCoherent (node (MptNodeData.digest d) none) h = (tt, tt)
    IsDecoded-IsCoherent (node null (some r)) h = absurd (cc h.0)
    IsDecoded-IsCoherent (node (branch cs) (some r)) h = absurd (cc h.0)
    IsDecoded-IsCoherent (node (leaf prefix value) (some r)) h = absurd (cc h.0)
    IsDecoded-IsCoherent (node (extension prefix n) (some r)) h = absurd (cc h.0)
    IsDecoded-IsCoherent (node (MptNodeData.digest d) (some r)) h = absurd (cc h.0)

    AreDecoded-AreCoherent : (cs : Children) → AreDecoded cs → AreCoherent codec cs
    AreDecoded-AreCoherent no_children h = tt
    AreDecoded-AreCoherent (vacant cs) h = AreDecoded-AreCoherent cs h
    AreDecoded-AreCoherent (child n cs) h =
        (IsDecoded-IsCoherent n h.0, AreDecoded-AreCoherent cs h.1)

  pub parse_proof-All :
      (reader : RlpReader) (proof : List Bytes) (ns : List MptNode)
      → parse_proof reader proof ≡ ok ns
      → All (IsCoherent codec) ns
  unfolding parse_proof
  parse_proof-All reader [] ns e = let same : [] ≡ ns = cc in subst (All (IsCoherent codec)) same tt
  parse_proof-All reader (bs ∷ proof) ns e =
      let (n, first, tail) =
        >>=-eq-ok (decode reader bs) (λ n. parse_proof reader proof >>= λ nodes. ok (n ∷ nodes))
          e in
      let (nodes, others, done) =
        >>=-eq-ok (parse_proof reader proof) (λ nodes. ok (n ∷ nodes)) tail in
      let same : n ∷ nodes ≡ ns = cc in
      subst (All (IsCoherent codec)) same (
        IsDecoded-IsCoherent n (decode-IsDecoded reader bs n first),
        parse_proof-All reader proof nodes others,
      )

  suffixes-All :
      (P : MptNode → Type 0) (f : List ℕ → MptNode) (nibs : List ℕ)
      → ((ns : List ℕ) → P (f ns))
      → All P (suffixes f nibs)
  suffixes-All P f [] h = (h [], tt)
  suffixes-All P f (n ∷ ns) h = (h (n ∷ ns), suffixes-All P f ns h)

  pub shorten_node_path-All :
      (n : MptNode) (ns : List MptNode)
      → IsCoherent codec n
      → shorten_node_path n ≡ ok ns
      → All (IsCoherent codec) ns
  unfolding shorten_node_path IsCoherent
  shorten_node_path-All (node null c) ns h e =
      let same : [] ≡ ns = cc in subst (All (IsCoherent codec)) same tt
  shorten_node_path-All (node (branch cs) c) ns h e =
      let same : [] ≡ ns = cc in subst (All (IsCoherent codec)) same tt
  shorten_node_path-All (node (MptNodeData.digest d) c) ns h e =
      let same : [] ≡ ns = cc in subst (All (IsCoherent codec)) same tt
  shorten_node_path-All (node (leaf prefix value) c) ns h e =
      let (nibs, found, done) =
        >>=-eq-ok (prefix_nibs prefix)
          (λ nibs. ok (suffixes (λ ns. from (leaf (to_encoded_path ns true) value)) nibs)) e in
      let same : suffixes (λ ns. from (leaf (to_encoded_path ns true) value)) nibs ≡ ns = cc in
      subst (All (IsCoherent codec)) same (
        suffixes-All (IsCoherent codec) (λ ns. from (leaf (to_encoded_path ns true) value)) nibs
          (λ ns. (tt, tt)))
  shorten_node_path-All (node (extension prefix n) c) ns h e =
      let (nibs, found, done) =
        >>=-eq-ok (prefix_nibs prefix)
          (λ nibs. ok (suffixes (λ ns. from (extension (to_encoded_path ns false) n)) nibs)) e in
      let same : suffixes (λ ns. from (extension (to_encoded_path ns false) n)) nibs ≡ ns = cc in
      subst (All (IsCoherent codec)) same (
        suffixes-All (IsCoherent codec) (λ ns. from (extension (to_encoded_path ns false) n)) nibs
          (λ ns. (tt, h.1)))
