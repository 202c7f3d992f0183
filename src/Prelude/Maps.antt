-- ===== src/Prelude/Maps.antt =====
-- Maps as lists of entries, for the hash maps of the program: `get` and `insert`.
use mathlib.Core.Path.{◌≡◌, refl, sym, ap}
use mathlib.Core.Logic.{◌↔◌, inl, inr}
use mathlib.Core.Bool.{Bool, true, false}
use mathlib.Core.Option.{Option, none, some}
use mathlib.Core.List.{List, [], ◌∷◌}
use native.Mathlib.Omega.{arith}
use sp1_reth.Prelude.Tests.{if◌then◌else◌, Bool-cases}

-- The keys' equality as a test, and that it is one.
pub record Keys (K : Type 0) : Type 0 where
  pub same : K → K → Bool
  pub same_iff : (a b : K) → (same a b ≡ true) ↔ (a ≡ b)

pub same_refl : {K : Type 0} ⦃keys : Keys K⦄ (k : K) → keys.same k k ≡ true
same_refl ⦃keys⦄ k = (keys.same_iff k k).1 refl

module _ {K V : Type 0} ⦃keys : Keys K⦄ where
  open keys use {same, same_iff}

  abbrev pub lookup : K → List (K × V) → Option V
  lookup k [] = none
  lookup k ((k', v) ∷ m) = let rest = lookup k m in if same k' k then some v else rest

  abbrev pub put : K → V → List (K × V) → List (K × V)
  put k v [] = (k, v) ∷ []
  put k v ((k', v') ∷ m) =
      let rest = put k v m in if same k' k then (k', v) ∷ m else (k', v') ∷ rest

  -- No key has two entries.
  abbrev pub IsMap : List (K × V) → Type 0
  IsMap [] = Unit
  IsMap ((k, v) ∷ m) = (lookup k m ≡ none) × IsMap m

  pub lookup-put :
      (k k' : K) (v : V) (m : List (K × V))
      → lookup k (put k' v m) ≡ (if same k' k then some v else lookup k m)
  lookup-put k k' v [] = refl
  lookup-put k k' v ((k'', v'') ∷ m) =
      let rest = lookup-put k k' v m in
      elim (Bool-cases (same k'' k')) [
        | inl e ↦
            let q : same k'' k ≡ same k' k = ap (λ x. same x k) ((same_iff k'' k').0 e) in
            ground arith
        | inr e ↦ elim (Bool-cases (same k' k)) [
          | inl f ↦
              let q : same k'' k ≡ same k'' k' = ap (λ x. same k'' x) (sym ((same_iff k' k).0 f)) in
              ground arith
          | inr f ↦ ground arith
        ]
      ]

  -- A key without an entry in a list is not its first key, and has none in the rest.
  pub keep_other :
      (k' k : K) (v : V) (m : List (K × V))
      → lookup k ((k', v) ∷ m) ≡ none
      → (same k' k ≡ false) × (lookup k m ≡ none)
  keep_other k' k v m h = elim (Bool-cases (same k' k)) [
    | inl e ↦ ground arith
    | inr e ↦ ground arith
  ]

  pub lookup-put_other :
      (k k' : K) (v : V) (m : List (K × V)) → same k' k ≡ false → lookup k (put k' v m) ≡ lookup k m
  lookup-put_other k k' v m other = let p = lookup-put k k' v m in ground arith
