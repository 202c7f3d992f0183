-- ===== src/Tries/Yields.antt =====
-- What holds of the result of `proofs_to_tries` (primitives/src/mpt.rs) and its parts, when they return.
use sp1_reth.Prelude.{◌≡◌, refl, Option, none, some, Outcome, ok, err, panic}
use sp1_reth.Mpt.Node.{Error}
use sp1_reth.Mpt.Decode.Yields.{Yields}
use sp1_reth.Db.{bytes_keys}
use sp1_reth.Tries.Store.{reference_keys}
use sp1_reth.Tries.{unwrap, try, fueled, present}

module _ (F : Type 0) where
  pub Yields-unwrap :
      {A : Type 0} (P : A → Type 0) (m : Outcome Error A)
      → ((a : A) → m ≡ ok a → P a)
      → Yields F P (unwrap m)
  Yields-unwrap P (ok a) h = h a refl
  Yields-unwrap P (err e) h = tt
  Yields-unwrap P panic h = tt

  pub Yields-try :
      {A : Type 0} (P : A → Type 0) (m : Outcome Error A)
      → ((a : A) → m ≡ ok a → P a)
      → Yields F P (try m)
  Yields-try P (ok a) h = h a refl
  Yields-try P (err e) h = tt
  Yields-try P panic h = tt

  pub Yields-present :
      {A : Type 0} (P : A → Type 0) (o : Option A)
      → ((a : A) → o ≡ some a → P a)
      → Yields F P (present o)
  Yields-present P none h = tt
  Yields-present P (some a) h = h a refl

  pub Yields-fueled :
      {A : Type 0} (P : A → Type 0) (o : Option A)
      → (o ≡ none → F)
      → ((a : A) → o ≡ some a → P a)
      → Yields F P (fueled o)
  Yields-fueled P none f h = f refl
  Yields-fueled P (some a) f h = h a refl
