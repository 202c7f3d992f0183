-- ===== src/Mpt/Reference/Coherent.antt =====
-- The cache of references: where it is up to date it is invisible, and reading keeps it so.
use mathlib.Core.Path.{ap₂}
use sp1_reth.Prelude.{◌≡◌, refl, sym, ap, ◌∙◌, ◌∷◌, Option, none, some}
use sp1_reth.Mpt.Node.{
  MptNode, node, MptNodeData, null, branch, leaf, extension, MptNodeReference, Children,
  no_children, vacant, child,
}
use sp1_reth.Mpt.Codec.{Codec}
use sp1_reth.Mpt.Reference.{
  reference, calc_reference, references, shorten, encode_branch, encode_extension, hash, digest_of,
  warm, hashed, warm_data, warm_children,
}

-- The same trie with nothing cached.
unfoldable mutual
  pub erase : MptNode → MptNode
  erase (node d c) = node (erase_data d) none

  pub erase_data : MptNodeData → MptNodeData
  erase_data null = null
  erase_data (branch cs) = branch (erase_children cs)
  erase_data (leaf prefix value) = leaf prefix value
  erase_data (extension prefix n) = extension prefix (erase n)
  erase_data (MptNodeData.digest d) = MptNodeData.digest d

  pub erase_children : Children → Children
  erase_children no_children = no_children
  erase_children (vacant cs) = vacant (erase_children cs)
  erase_children (child n cs) = child (erase n) (erase_children cs)

module _ (codec : Codec) where
  -- What is cached for `d` is the reference of `d` without any cache.
  abbrev pub IsFresh : MptNodeData → Option MptNodeReference → Type 0
  IsFresh d none = Unit
  IsFresh d (some r) = r ≡ calc_reference codec (erase_data d)

  -- Every cached reference in the trie is up to date.
  unfoldable mutual
    pub IsCoherent : MptNode → Type 0
    IsCoherent (node d c) = IsFresh d c × IsCoherentData d

    pub IsCoherentData : MptNodeData → Type 0
    IsCoherentData null = Unit
    IsCoherentData (branch cs) = AreCoherent cs
    IsCoherentData (leaf prefix value) = Unit
    IsCoherentData (extension prefix n) = IsCoherent n
    IsCoherentData (MptNodeData.digest d) = Unit

    pub AreCoherent : Children → Type 0
    AreCoherent no_children = Unit
    AreCoherent (vacant cs) = AreCoherent cs
    AreCoherent (child n cs) = IsCoherent n × AreCoherent cs

  mutual
    unfolding reference erase IsCoherent

    pub reference-erase :
        (n : MptNode) → IsCoherent n → reference codec n ≡ reference codec (erase n)
    reference-erase (node d (some r)) h = h.0
    reference-erase (node d none) h = calc_reference-erase d h.1

    pub calc_reference-erase :
        (d : MptNodeData)
        → IsCoherentData d
        → calc_reference codec d ≡ calc_reference codec (erase_data d)
    calc_reference-erase null h = refl
    calc_reference-erase (branch cs) h =
        ap (λ rs. shorten codec (encode_branch codec rs)) (references-erase cs h)
    calc_reference-erase (leaf prefix value) h = refl
    calc_reference-erase (extension prefix n) h =
        ap (λ r. shorten codec (encode_extension codec prefix r)) (reference-erase n h)
    calc_reference-erase (MptNodeData.digest d) h = refl

    references-erase :
        (cs : Children)
        → AreCoherent cs
        → references codec cs ≡ references codec (erase_children cs)
    references-erase no_children h = refl
    references-erase (vacant cs) h = ap (λ rs. none ∷ rs) (references-erase cs h)
    references-erase (child n cs) h =
        ap₂ (λ r rs. some r ∷ rs) (reference-erase n h.0) (references-erase cs h.1)

  -- With every cached reference up to date, the hash is that of the trie with no cache.
  pub hash-erase : (n : MptNode) → IsCoherent n → hash codec n ≡ hash codec (erase n)
  unfolding hash erase
  hash-erase (node null c) h = refl
  hash-erase (node (branch cs) c) h = ap (digest_of codec) (reference-erase (node (branch cs) c) h)
  hash-erase (node (leaf p v) c) h = ap (digest_of codec) (reference-erase (node (leaf p v) c) h)
  hash-erase (node (extension p n) c) h =
      ap (digest_of codec) (reference-erase (node (extension p n) c) h)
  hash-erase (node (MptNodeData.digest d) c) h =
      ap (digest_of codec) (reference-erase (node (MptNodeData.digest d) c) h)

  mutual
    unfolding erase warm

    erase-warm : (n : MptNode) → erase (warm codec n) ≡ erase n
    erase-warm (node d (some r)) = refl
    erase-warm (node d none) = ap (λ x. node x none) (erase_data-warm_data d)

    erase_data-warm_data : (d : MptNodeData) → erase_data (warm_data codec d) ≡ erase_data d
    erase_data-warm_data null = refl
    erase_data-warm_data (branch cs) = ap branch (erase_children-warm_children cs)
    erase_data-warm_data (leaf prefix value) = refl
    erase_data-warm_data (extension prefix n) = ap (extension prefix) (erase-warm n)
    erase_data-warm_data (MptNodeData.digest d) = refl

    erase_children-warm_children :
        (cs : Children) → erase_children (warm_children codec cs) ≡ erase_children cs
    erase_children-warm_children no_children = refl
    erase_children-warm_children (vacant cs) = ap vacant (erase_children-warm_children cs)
    erase_children-warm_children (child n cs) =
        ap₂ child (erase-warm n) (erase_children-warm_children cs)

  mutual
    unfolding warm IsCoherent

    warm-IsCoherent_node : (n : MptNode) → IsCoherent n → IsCoherent (warm codec n)
    warm-IsCoherent_node (node d (some r)) h = h
    warm-IsCoherent_node (node d none) h = (
      calc_reference-erase d h.1 ∙ ap (calc_reference codec) (sym (erase_data-warm_data d)),
      warm_data-IsCoherent d h.1,
    )

    warm_data-IsCoherent : (d : MptNodeData) → IsCoherentData d → IsCoherentData (warm_data codec d)
    warm_data-IsCoherent null h = tt
    warm_data-IsCoherent (branch cs) h = warm_children-AreCoherent cs h
    warm_data-IsCoherent (leaf prefix value) h = tt
    warm_data-IsCoherent (extension prefix n) h = warm-IsCoherent_node n h
    warm_data-IsCoherent (MptNodeData.digest d) h = tt

    warm_children-AreCoherent :
        (cs : Children) → AreCoherent cs → AreCoherent (warm_children codec cs)
    warm_children-AreCoherent no_children h = tt
    warm_children-AreCoherent (vacant cs) h = warm_children-AreCoherent cs h
    warm_children-AreCoherent (child n cs) h =
        (warm-IsCoherent_node n h.0, warm_children-AreCoherent cs h.1)

  -- Reading a reference fills caches with references that are up to date, and changes neither the
  -- trie nor, with that, its hash.
  pub warm-IsCoherent :
      (n : MptNode)
      → IsCoherent n
      → IsCoherent (warm codec n)
        × (erase (warm codec n) ≡ erase n)
        × (hash codec (warm codec n) ≡ hash codec n)
  warm-IsCoherent n h =
      let w = warm-IsCoherent_node n h in
      (
        w,
        erase-warm n,
        hash-erase (warm codec n) w ∙ (ap (hash codec) (erase-warm n) ∙ sym (hash-erase n h)),
      )

  -- A call of `hash` keeps what a call of `reference` keeps.
  pub hashed-IsCoherent :
      (n : MptNode)
      → IsCoherent n
      → IsCoherent (hashed codec n)
        × (erase (hashed codec n) ≡ erase n)
        × (hash codec (hashed codec n) ≡ hash codec n)
  unfolding hashed
  hashed-IsCoherent (node null c) h = (h, refl, refl)
  hashed-IsCoherent (node (branch cs) c) h = warm-IsCoherent (node (branch cs) c) h
  hashed-IsCoherent (node (leaf prefix value) c) h = warm-IsCoherent (node (leaf prefix value) c) h
  hashed-IsCoherent (node (extension prefix n) c) h =
      warm-IsCoherent (node (extension prefix n) c) h
  hashed-IsCoherent (node (MptNodeData.digest d) c) h =
      warm-IsCoherent (node (MptNodeData.digest d) c) h
