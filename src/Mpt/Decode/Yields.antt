-- ===== src/Mpt/Decode/Yields.antt =====
-- What holds of a result of decoding (primitives/src/mpt.rs), where there is one.
use sp1_reth.Prelude.{
  ◌≡◌, refl, Bool, true, false, Option, none, some, ok, err, panic, ◌>>=◌, if◌then◌else◌,
}
use sp1_reth.Mpt.Decode.{failed, out_of_fuel, Decoded, lift}

-- `P` of the result where there is one, and `F` where the fuel was used up.
abbrev pub Yields : Type 0 → {A : Type 0} → (A → Type 0) → Decoded A → Type 0
Yields F P (ok a) = P a
Yields F P (err (failed e)) = Unit
Yields F P (err out_of_fuel) = F
Yields F P panic = Unit

module _ (F : Type 0) where
  pub Yields-bind :
      {A B : Type 0} (P : A → Type 0) (Q : B → Type 0) (m : Decoded A) (f : A → Decoded B)
      → Yields F P m
      → ((a : A) → P a → Yields F Q (f a))
      → Yields F Q (m >>= f)
  Yields-bind P Q (ok a) f h k = k a h
  Yields-bind P Q (err (failed e)) f h k = tt
  Yields-bind P Q (err out_of_fuel) f h k = h
  Yields-bind P Q panic f h k = tt

  pub Yields-if :
      {A : Type 0} (P : A → Type 0) (b : Bool) (x y : Decoded A)
      → (b ≡ true → Yields F P x)
      → (b ≡ false → Yields F P y)
      → Yields F P (if b then x else y)
  Yields-if P true x y h k = h refl
  Yields-if P false x y h k = k refl

  pub Yields-lift : {A : Type 0} (o : Option A) → Yields F (λ a. o ≡ some a) (lift o)
  Yields-lift none = tt
  Yields-lift (some a) = refl

  pub Yields-true :
      {A : Type 0} (P : A → Type 0) (m : Decoded A) → Yields F P m → Yields F (λ a. Unit {0}) m
  Yields-true P (ok a) h = tt
  Yields-true P (err (failed e)) h = tt
  Yields-true P (err out_of_fuel) h = h
  Yields-true P panic h = tt
