-- ===== src/Host/Contracts.antt =====
-- The codes that `SP1RethInput::initialize` (script/src/init.rs) collects.
use sp1_reth.Prelude.{
  ◌≡◌, refl, sym, ap, subst, ◌∙◌, Bool, true, false, ◌||◌, List, [], ◌∷◌, Option, none, some,
  list_eq, list_eq_refl, arith, Bool-cases, inl, inr, lookup,
}
use sp1_reth.Nibbles.{Bytes}
use sp1_reth.Block.{Address}
use sp1_reth.Db.{bytes_keys, DbAccount}
use sp1_reth.Host.{has_code, add_code, contracts_of}

or_true : (x y : Bool) → y ≡ true → (x || y) ≡ true
or_true true y h = refl
or_true false y h = h

has_code-add_code :
    (code : Bytes) (o : Option Bytes) (codes : List Bytes)
    → has_code code codes ≡ true
    → has_code code (add_code o codes) ≡ true
has_code-add_code code none codes h = h
has_code-add_code code (some c) codes h = elim (Bool-cases (has_code c codes)) [
  | inl t ↦ rw (t) h
  | inr f ↦ rw (f) (or_true (list_eq c code) (has_code code codes) h)
]

has_code-add_code_self :
    (code : Bytes) (codes : List Bytes) → has_code code (add_code (some code) codes) ≡ true
has_code-add_code_self code codes = elim (Bool-cases (has_code code codes)) [
  | inl t ↦ rw (t) t
  | inr f ↦ rw (f, list_eq_refl code) refl
]

pub contracts_of-lookup :
    (accounts : List (Address × DbAccount)) (a : Address) (account : DbAccount) (code : Bytes)
    → lookup a accounts ≡ some account
    → account.info.code ≡ some code
    → has_code code (contracts_of accounts) ≡ true
unfolding contracts_of
contracts_of-lookup [] a account code e h = cc
contracts_of-lookup ((b, first) ∷ accounts) a account code e h =
    elim (Bool-cases (bytes_keys.same b a)) [
      | inl t ↦
          let same : first ≡ account = ground arith in
          let here = ap (λ x. x.info.code) same ∙ h in
          subst (λ o. has_code code (add_code o (contracts_of accounts)) ≡ true) (sym here)
            (has_code-add_code_self code (contracts_of accounts))
      | inr f ↦
          has_code-add_code code first.info.code (contracts_of accounts)
            (contracts_of-lookup accounts a account code (ground arith) h)
    ]
