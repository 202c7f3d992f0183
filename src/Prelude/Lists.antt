-- ===== src/Prelude/Lists.antt =====
-- Lists measured and indexed by native numbers, under the library's names.
use Prim.Native.Nat.{ℕ, zero, suc, ◌+◌, ◌-◌}
use mathlib.Core.Path.{◌≡◌, refl, subst}
use mathlib.Core.List.{List, [], ◌∷◌, ◌++◌}
use mathlib.Core.Option.{Option, none, some}
use native.Mathlib.Omega.{arith}
use sp1_reth.Prelude.Tests.{◌==◌, if◌then◌else◌, list_eq}
use mathlib.Core.Bool.{false}

module _ {ℓ} {A : Type ℓ} where
  abbrev pub length : List A → ℕ
  length [] = 0
  length (x ∷ xs) = suc (length xs)

  abbrev pub get_or : List A → ℕ → A → A
  get_or [] i d = d
  get_or (x ∷ xs) zero d = x
  get_or (x ∷ xs) (suc i) d = get_or xs i d

  abbrev pub take : ℕ → List A → List A
  take zero xs = []
  take (suc n) [] = []
  take (suc n) (x ∷ xs) = x ∷ take n xs

  abbrev pub drop : ℕ → List A → List A
  drop zero xs = xs
  drop (suc n) [] = []
  drop (suc n) (x ∷ xs) = drop n xs

  -- A predicate at each element.
  abbrev pub All {κ} : (A → Type κ) → List A → Type κ
  All P [] = Unit
  All P (x ∷ xs) = P x × All P xs

  pub All-append {κ} : (P : A → Type κ) (xs ys : List A) → All P xs → All P ys → All P (xs ++ ys)
  All-append P [] ys p q = q
  All-append P (x ∷ xs) ys p q = (p.0, All-append P xs ys p.1 q)

  pub All-take {κ} : (P : A → Type κ) (n : ℕ) (xs : List A) → All P xs → All P (take n xs)
  All-take P zero xs p = tt
  All-take P (suc n) [] p = tt
  All-take P (suc n) (x ∷ xs) p = (p.0, All-take P n xs p.1)

  pub All-drop {κ} : (P : A → Type κ) (n : ℕ) (xs : List A) → All P xs → All P (drop n xs)
  All-drop P zero xs p = p
  All-drop P (suc n) [] p = tt
  All-drop P (suc n) (x ∷ xs) p = All-drop P n xs p.1

  pub length-append : (xs ys : List A) → length (xs ++ ys) ≡ length xs + length ys
  length-append [] ys = omega arith
  length-append (x ∷ xs) ys = omega (arith, length-append xs ys)

-- What is left of `xs` behind the prefix `pre`: `xs.strip_prefix(pre)` of the slices.
abbrev pub strip_prefix : List ℕ → List ℕ → Option (List ℕ)
strip_prefix xs [] = some xs
strip_prefix [] (y ∷ ys) = none
strip_prefix (x ∷ xs) (y ∷ ys) = let rest = strip_prefix xs ys in if x == y then rest else none

pub strip_prefix-append :
    (xs ps qs : List ℕ)
    → strip_prefix xs (ps ++ qs)
      ≡ elim (strip_prefix xs ps) [ none ↦ none | some t ↦ strip_prefix t qs ]
strip_prefix-append xs [] qs = refl
strip_prefix-append [] (p ∷ ps) qs = refl
strip_prefix-append (x ∷ xs) (p ∷ ps) qs = ground (arith, strip_prefix-append xs ps qs)

pub list_eq-append :
    (ps qs xs : List ℕ)
    → list_eq (ps ++ qs) xs ≡ elim (strip_prefix xs ps) [ none ↦ false | some t ↦ list_eq qs t ]
list_eq-append [] qs xs = refl
list_eq-append (p ∷ ps) qs [] = refl
list_eq-append (p ∷ ps) qs (x ∷ xs) = ground (arith, list_eq-append ps qs xs)

pub strip_prefix_self : (ps qs : List ℕ) → strip_prefix (ps ++ qs) ps ≡ some qs
strip_prefix_self [] qs = refl
strip_prefix_self (p ∷ ps) qs = ground (arith, strip_prefix_self ps qs)

pub eq_of_strip_prefix : (xs ps : List ℕ) {t : List ℕ} → strip_prefix xs ps ≡ some t → xs ≡ ps ++ t
eq_of_strip_prefix xs [] h = cc
eq_of_strip_prefix [] (p ∷ ps) h = cc
eq_of_strip_prefix (x ∷ xs) (p ∷ ps) {t} h = ground (arith, eq_of_strip_prefix xs ps {t = t})

pub strip_prefix-All {κ} :
    (P : ℕ → Type κ) (xs ps : List ℕ) {t : List ℕ}
    → All P xs
    → strip_prefix xs ps ≡ some t
    → All P t
strip_prefix-All P xs [] {t} h e = subst (All P) (cc) h
strip_prefix-All P [] (p ∷ ps) h e = cc
strip_prefix-All P (x ∷ xs) (p ∷ ps) {t} h e = strip_prefix-All P xs ps {t = t} h.1 (ground arith)

pub length-drop {ℓ} : {A : Type ℓ} (n : ℕ) (xs : List A) → length (drop n xs) ≡ length xs - n
length-drop zero xs = omega arith
length-drop (suc n) [] = omega arith
length-drop (suc n) (x ∷ xs) = omega (arith, length-drop n xs)
