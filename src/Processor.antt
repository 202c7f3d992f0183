-- ===== src/Processor.antt =====
-- `EvmProcessor` of primitives/src/processor.rs: the checks of the header, and `initialize`.
pub mod Checks
pub mod TxEnv
pub mod Execute
pub mod Finalize
pub mod Tests
use sp1_reth.Prelude.{
  ℕ, ◌+◌, ◌-◌, ◌/◌, ◌%◌, Bool, true, false, not, List, [], Option, none, some, Outcome, ok, panic,
  ◌>>=◌, ◌>>◌, ltb, leb, ◌==◌, list_eq, length, if◌then◌else◌,
}
use sp1_reth.Nibbles.{Bytes}
use sp1_reth.Mpt.Node.{B256}
use sp1_reth.Block.{Header, Sp1RethInput, u64_mod}

abbrev pub minimum_gas_limit : ℕ
minimum_gas_limit = 5000

abbrev pub maximum_extra_data_size : ℕ
maximum_extra_data_size = 32

-- A method of the processor returns or panics: it has no error value.
abbrev pub Run {ℓ} : Type ℓ → Type ℓ
Run A = Outcome ⊥ A

pub record EvmProcessor (D : Type 0) : Type 0 where
  pub input : Sp1RethInput
  pub db : Option D
  pub header : Option Header

-- `Option::unwrap`.
abbrev pub unwrap {ℓ} : {A : Type ℓ} → Option A → Run A
unwrap none = panic
unwrap (some a) = ok a

-- `if cond { panic!(…) }`.
abbrev pub panic_if : Bool → Run (Unit {0})
panic_if true = panic
panic_if false = ok tt

-- What the program takes from `reth_primitives::Header`.
pub record HeaderOps : Type 0 where
  pub hash_slow : Header → B256
  pub next_block_base_fee : Header → Option ℕ
  pub default_header : Header

-- `checked_add` on `u64`.
abbrev pub checked_add_u64 : ℕ → ℕ → Option ℕ
checked_add_u64 a b = if ltb (a + b) u64_mod then some (a + b) else none

module _ {D : Type 0} where
  unfoldable pub validate_header_standalone : EvmProcessor D → Run (Unit {0})
  validate_header_standalone p =
      unwrap p.header >>= λ header. panic_if (ltb header.gas_limit header.gas_used)

  unfoldable pub validate_gas_limit : EvmProcessor D → Run (Unit {0})
  validate_gas_limit p = unwrap p.header >>= λ header.
      let parent_gas_limit = p.input.parent_header.gas_limit in
      if ltb parent_gas_limit header.gas_limit
      then panic_if (leb (parent_gas_limit / 1024) (header.gas_limit - parent_gas_limit))
      else if leb (parent_gas_limit / 1024) (parent_gas_limit - header.gas_limit)
      then panic
      else panic_if (ltb parent_gas_limit minimum_gas_limit)

  unfoldable pub validate_header_extradata : EvmProcessor D → Run (Unit {0})
  validate_header_extradata p = unwrap p.header >>= λ header.
      panic_if (ltb maximum_extra_data_size (length header.extra_data))

-- The header that `initialize` builds on the number `number`.
unfoldable pub initial_header : HeaderOps → Sp1RethInput → ℕ → Header
initial_header ops input number = record (ops.default_header) {
  parent_hash = ops.hash_slow input.parent_header;
  number = number;
  base_fee_per_gas = ops.next_block_base_fee input.parent_header;
  beneficiary = input.beneficiary;
  gas_limit = input.gas_limit;
  timestamp = input.timestamp;
  mix_hash = input.mix_hash;
  extra_data = input.extra_data;
}

module _ {D : Type 0} (ops : HeaderOps) where
  open ops use {hash_slow}

  -- `parent_header.number + 1` wraps in a release build.
  unfoldable pub validate_against_parent : EvmProcessor D → Run (Unit {0})
  validate_against_parent p = unwrap p.header >>= λ header.
      panic_if (not ((p.input.parent_header.number + 1) % u64_mod == header.number))
      >> (panic_if (not (list_eq (hash_slow p.input.parent_header) header.parent_hash))
          >> panic_if (ltb header.timestamp p.input.parent_header.timestamp))

  unfoldable pub initialize : EvmProcessor D → Run (EvmProcessor D)
  unfolding initial_header validate_against_parent validate_header_extradata
  initialize p = unwrap (checked_add_u64 p.input.parent_header.number 1) >>= λ number.
      let q = record p { header = some (initial_header ops p.input number) } in
      validate_against_parent q >> (validate_header_extradata q >> ok q)
