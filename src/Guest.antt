-- ===== src/Guest.antt =====
-- `main` of program/src/main.rs, without the reading of the input and the printing of the hash.
pub mod Chain
mod Tests
use sp1_reth.Prelude.{ℕ, Option, none, some, Outcome, ok, err, panic, ◌>>=◌}
use sp1_reth.Mpt.Node.{Error}
use sp1_reth.Block.{Header, Sp1RethInput}
use sp1_reth.Db.{InMemoryDb, DbOps}
use sp1_reth.Db as Db
use sp1_reth.Processor.{EvmProcessor, HeaderOps, Run, unwrap, initialize}
use sp1_reth.Processor.Execute.{Evm, execute}
use sp1_reth.Processor.Finalize.{Encoders, finalize}

-- `unwrap` of a `Result`: an error panics.
abbrev pub unwrap_result : {E A : Type 0} → Outcome E A → Run A
unwrap_result (ok a) = ok a
unwrap_result (err e) = panic
unwrap_result panic = panic

module _ {Log Changes : Type 0} (db_ops : DbOps) (header_ops : HeaderOps)
    (evm : Evm InMemoryDb Log Changes) (encoders : Encoders) where
  -- The header whose hash is printed.
  unfoldable pub main : Sp1RethInput → Run Header
  main input = do
    (input', db) ← unwrap_result (Db.initialize db_ops input)
    ready ← initialize header_ops (record { input = input'; db = some db; header = none })
    executed ← execute evm ready
    final ← finalize encoders executed
    unwrap final.header
