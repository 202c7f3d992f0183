-- ===== src/Mpt/Proof/Hash.antt =====
-- Putting a node in the place of its digest keeps references and hashes: `mpt_from_proof`
-- (primitives/src/mpt.rs).
use sp1_reth.Prelude.{
  ◌≡◌, ◌≢◌, refl, sym, subst, ap, ◌∙◌, true, List, [], ◌∷◌, Option, none, some, Outcome, ok, err,
  panic, ◌>>=◌, arith, eq_of_list_eq, All, >>=-eq-ok, Bool-cases, Option-cases, inl, inr,
}
use sp1_reth.Nibbles.{Bytes}
use sp1_reth.Mpt.Node.{
  B256, Error, MptNode, node, MptNodeData, null, branch, leaf, extension, MptNodeReference,
  Children, no_children, vacant, child, as_data, from,
}
use sp1_reth.Mpt.Codec.{Codec}
use sp1_reth.Mpt.Reference.{
  reference, references, warm, hash, shorten, encode_branch, encode_extension,
}
use sp1_reth.Mpt.Reference.Coherent.{IsCoherent, AreCoherent, reference-erase, warm-IsCoherent}
use sp1_reth.Mpt.Proof.{
  is_digest_of, replace_child, resolve_child, link_by, link, proof_loop, unwrap_or_default,
  mpt_from_proof,
}
use sp1_reth.Mpt.Proof.Replaced.{Replaces, Replaces-hash, reference-calc_reference}

module _ (codec : Codec) where
  digest-reference :
      (d : B256) (n : MptNode)
      → IsCoherent codec n
      → is_digest_of d (as_data n) ≡ true
      → reference codec n ≡ MptNodeReference.digest d
  unfolding is_digest_of reference
  digest-reference d (node null c) h e = cc
  digest-reference d (node (branch cs) c) h e = cc
  digest-reference d (node (leaf p v) c) h e = cc
  digest-reference d (node (extension p n) c) h e = cc
  digest-reference d (node (MptNodeData.digest x) c) h e =
      reference-calc_reference codec (node (MptNodeData.digest x) c) h
      ∙ ap MptNodeReference.digest (eq_of_list_eq x d e)

  -- The slots after a replacement read as before.
  abbrev SameSlots : Children → Option Children → Type 0
  SameSlots cs none = Unit
  SameSlots cs (some cs') = AreCoherent codec cs' × (references codec cs' ≡ references codec cs)

  replace_child-SameSlots :
      (d : B256) (replacement : MptNode) (cs : Children)
      → IsCoherent codec replacement
      → reference codec replacement ≡ MptNodeReference.digest d
      → AreCoherent codec cs
      → SameSlots cs (replace_child d replacement cs)
  unfolding replace_child reference IsCoherent
  replace_child-SameSlots d r no_children hr e h = tt
  replace_child-SameSlots d r (vacant cs) hr e h =
      ground (arith, replace_child-SameSlots d r cs hr e h)
  replace_child-SameSlots d r (child n cs) hr e h = elim (Bool-cases (is_digest_of d (as_data n))) [
    | inl found ↦ rw found (
      (hr, h.1),
      ap (λ x. some x ∷ references codec cs) (e ∙ sym (digest-reference d n h.0 found)),
    )
    | inr other ↦ rw other (keep (replace_child d r cs) (replace_child-SameSlots d r cs hr e h.1))
  ]
    where
      keep :
          (o : Option Children)
          → SameSlots cs o
          → SameSlots (child n cs) (elim o [ none ↦ none | some cs' ↦ some (child n cs') ])
      keep none k = tt
      keep (some cs') k = ((h.0, k.0), ap (λ rs. some (reference codec n) ∷ rs) k.1)

  abbrev ReplacesIf : MptNode → Outcome Error MptNode → Type 0
  ReplacesIf n (ok t) = Replaces codec n t
  ReplacesIf n (err e) = Unit
  ReplacesIf n panic = Unit

  branch-ReplacesIf :
      (cs : Children) (c : Option MptNodeReference) (o : Option Children)
      → IsCoherent codec (node (branch cs) c)
      → SameSlots cs o
      → ReplacesIf
          (node (branch cs) c)
          (elim o [ none ↦ panic | some cs' ↦ ok (from (branch cs')) ])
  unfolding reference IsCoherent
  branch-ReplacesIf cs c none h k = tt
  branch-ReplacesIf cs c (some cs') h k = record {
    coherent = (tt, k.0);
    same_reference =
        ap (λ rs. shorten codec (encode_branch codec rs)) k.1
        ∙ sym (reference-calc_reference codec (node (branch cs) c) h);
    same_emptiness = refl;
  }

  extension-ReplacesIf :
      (p : Bytes) (n r : MptNode) (c : Option MptNodeReference)
      → IsCoherent codec (node (extension p n) c)
      → IsCoherent codec r
      → reference codec r ≡ reference codec n
      → Replaces codec (node (extension p n) c) (from (extension p r))
  unfolding reference IsCoherent
  extension-ReplacesIf p n r c h hr e = record {
    coherent = (tt, hr);
    same_reference =
        ap (λ x. shorten codec (encode_extension codec p x)) e
        ∙ sym (reference-calc_reference codec (node (extension p n) c) h);
    same_emptiness = refl;
  }

  child-IsCoherent :
      (p : Bytes) (n : MptNode) (c : Option MptNodeReference)
      → IsCoherent codec (node (extension p n) c)
      → IsCoherent codec n
  unfolding IsCoherent
  child-IsCoherent p n c h = h.1

  children_coherent :
      (cs : Children) (c : Option MptNodeReference)
      → IsCoherent codec (node (branch cs) c)
      → AreCoherent codec cs
  unfolding IsCoherent
  children_coherent cs c h = h.1

  resolve_child-ReplacesIf :
      (d : B256) (r : MptNode) (n : MptNode)
      → IsCoherent codec r
      → reference codec r ≡ MptNodeReference.digest d
      → IsCoherent codec n
      → ReplacesIf n (resolve_child d r (as_data n))
  unfolding resolve_child
  resolve_child-ReplacesIf d r (node null c) hr e h = tt
  resolve_child-ReplacesIf d r (node (leaf p v) c) hr e h = tt
  resolve_child-ReplacesIf d r (node (MptNodeData.digest x) c) hr e h = tt
  resolve_child-ReplacesIf d r (node (branch cs) c) hr e h =
      branch-ReplacesIf cs c (replace_child d r cs) h
        (replace_child-SameSlots d r cs hr e (children_coherent cs c h))
  resolve_child-ReplacesIf d r (node (extension p n) c) hr e h =
      elim (Bool-cases (is_digest_of d (as_data n))) [
        | inl found ↦ rw found (
            extension-ReplacesIf p n r c h hr
              (e ∙ sym (digest-reference d n (child-IsCoherent p n c h) found)))
        | inr other ↦ rw other tt
      ]

  pub reference-warm :
      (n : MptNode) → IsCoherent codec n → reference codec (warm codec n) ≡ reference codec n
  reference-warm n h =
      let (hw, same, e) = warm-IsCoherent codec n h in
      reference-erase codec (warm codec n) hw
      ∙ (ap (reference codec) same ∙ sym (reference-erase codec n h))

  link_by-ReplacesIf :
      (x : MptNodeReference) (r n : MptNode)
      → IsCoherent codec r
      → reference codec r ≡ x
      → IsCoherent codec n
      → ReplacesIf n (link_by x r (as_data n))
  unfolding link_by
  link_by-ReplacesIf (MptNodeReference.digest d) r n hr e h = resolve_child-ReplacesIf d r n hr e h
  link_by-ReplacesIf (MptNodeReference.bytes bs) r n hr e h = tt

  itself : (n : MptNode) → IsCoherent codec n → Replaces codec n n
  itself n h = record { coherent = h; same_reference = refl; same_emptiness = refl }

  link-Replaces :
      (n : MptNode) (next : Option MptNode) (t : MptNode)
      → IsCoherent codec n
      → ((r : MptNode) → next ≡ some r → IsCoherent codec r)
      → link codec n next ≡ ok t
      → Replaces codec n t
  unfolding link
  link-Replaces n none t h k e = let p : n ≡ t = cc in subst (Replaces codec n) p (itself n h)
  link-Replaces n (some r) t h k e =
      let hr = k r refl in
      subst (ReplacesIf n) e (
        link_by-ReplacesIf (reference codec r) (warm codec r) n (warm-IsCoherent codec r hr).0
          (reference-warm r hr) h)

  proof_loop-Replaces :
      (n : MptNode) (rest : List MptNode) (t : MptNode)
      → All (IsCoherent codec) (n ∷ rest)
      → proof_loop codec (n ∷ rest) ≡ ok (some t)
      → Replaces codec n t
  unfolding proof_loop
  proof_loop-Replaces n [] t h e = link-Replaces n none t h.0 (λ r z. cc) (ground arith)
  proof_loop-Replaces n (m ∷ rest) t h e =
      let (next, done, tail) =
        >>=-eq-ok (proof_loop codec (m ∷ rest))
          (λ next. link codec n next >>= λ resolved. ok (some resolved)) e in
      let (t', linked, same) =
        >>=-eq-ok (link codec n next) (λ resolved. ok (some resolved)) tail in
      let p : t' ≡ t = cc in
      link-Replaces n next t h.0
        (λ r z. (proof_loop-Replaces m rest r h.1 (done ∙ ap ok z)).coherent) (linked ∙ ap ok p)

  proof_loop-ne-none : (n : MptNode) (rest : List MptNode) → proof_loop codec (n ∷ rest) ≢ ok none
  unfolding proof_loop
  proof_loop-ne-none n rest e = ground arith

  -- A trie that `mpt_from_proof` builds from nodes whose cached references are up to date has the
  -- hash of the first node, the root: each node is accepted only in the place of its own digest.
  pub mpt_from_proof-hash :
      (root : MptNode) (rest : List MptNode) (t : MptNode)
      → All (IsCoherent codec) (root ∷ rest)
      → mpt_from_proof codec (root ∷ rest) ≡ ok t
      → IsCoherent codec t × (hash codec t ≡ hash codec root)
  unfolding mpt_from_proof
  mpt_from_proof-hash root rest t h e =
      let (next, done, tail) =
        >>=-eq-ok (proof_loop codec (root ∷ rest)) (λ next. ok (unwrap_or_default next)) e in
      elim (Option-cases next) [
        | inl lost ↦ absurd (proof_loop-ne-none root rest (done ∙ ap ok lost))
        | inr (r, found) ↦
            let p : r ≡ t = cc in
            let k =
              proof_loop-Replaces root rest t h (done ∙ (ap ok found ∙ ap (λ x. ok (some x)) p)) in
            (k.coherent, Replaces-hash codec root t k)
      ]
