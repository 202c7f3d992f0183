-- ===== src/Host/Input.antt =====
-- What the input of `SP1RethInput::initialize` (script/src/init.rs) holds.
use sp1_reth.Prelude.{
  ℕ, ◌+◌, ◌-◌, ◌%◌, ◌≡◌, refl, ap, subst, ◌∙◌, true, false, none, some, ok, >>=-eq-ok, ok_unique,
  lookup,
}
use sp1_reth.Nibbles.{Bytes}
use sp1_reth.Mpt.Node.{B256}
use sp1_reth.Mpt.Codec.{Codec}
use sp1_reth.Mpt.Decode.{RlpReader}
use sp1_reth.Block.{Address, Sp1RethInput, u64_mod}
use sp1_reth.Processor.{EvmProcessor, HeaderOps, Run}
use sp1_reth.Processor as Processor
use sp1_reth.Processor.Execute.{Evm, execute}
use sp1_reth.Db.{bytes_keys, DbAccount}
use sp1_reth.Tries.{Proofs, proofs_to_tries}
use sp1_reth.Tries.Accounts.{MatchProofs}
use sp1_reth.Tries.Hash.{HasRoot, proofs_to_tries-HasRoot}
use sp1_reth.Remote.{
  RpcBlock, Provider, CacheOps, RemoteDb, empty_db, new, fetch_initial_storage_proofs,
  fetch_latest_storage_proofs, fetch_ancestor_headers,
}
use sp1_reth.Remote.Recorded.{recorded}
use sp1_reth.Remote.Requests.{is_some}
use sp1_reth.Remote.Keys.{HasProof, fetch_initial_storage_proofs-HasProof}
use sp1_reth.Host.{
  ask, unwrap, join, join_fetched, run, try, block_input, has_code, execute_block, complete_input,
  initialize,
}
use sp1_reth.Host.Blocks.{
  ask-ok, unwrap-ok, join_fetched-ok, run-ok, join-ok, try-ok, IsOfBlocks, block_input-IsOfBlocks,
}
use sp1_reth.Host.Contracts.{contracts_of-lookup}

module _ {Log Changes : Type 0} (provider : Provider) (ops : CacheOps Changes) (codec : Codec)
    (reader : RlpReader) (from_be_bytes : B256 → ℕ) (header_ops : HeaderOps)
    (evm : Evm RemoteDb Log Changes) (fuel : ℕ) where
  -- The database that is left when the processor prepared and executed the block, from a database
  -- at the number of the parent with nothing recorded, on an input with the fields of the blocks.
  pub record IsExecuted (parent block : RpcBlock) (db : RemoteDb) : Type 0 where
    pub number : ℕ
    pub number_lem : parent.header.number ≡ some number
    pub input : Sp1RethInput
    pub input_lem : IsOfBlocks parent block input
    pub ready : EvmProcessor RemoteDb
    pub executed : EvmProcessor RemoteDb
    pub ready_lem :
        Processor.initialize header_ops (record {
          input = input;
          db = some (record {
            block_number = number % u64_mod;
            initial_db = empty_db;
            current_db = empty_db;
          });
          header = none;
        })
        ≡ ok ready
    pub executed_lem : execute evm ready ≡ ok executed
    pub db_lem : executed.db ≡ some db

  -- The state that the input has for the guest.
  pub record HasState (db : RemoteDb) (input : Sp1RethInput) : Type 0 where
    pub state_trie_lem : HasRoot codec input.parent_header.state_root input.parent_state_trie
    pub storage_lem :
        (proofs : Proofs) × (fetch_initial_storage_proofs provider ops db ≡ ok proofs)
        × MatchProofs from_be_bytes (HasRoot codec) proofs input.parent_storage
        × ((a : Address) (i : ℕ)
            → is_some (recorded db.initial_db a i) ≡ true
            → HasProof provider ops proofs db.block_number a i)
    pub ancestor_headers_lem : fetch_ancestor_headers provider ops db ≡ ok input.ancestor_headers
    pub contracts_lem :
        (a : Address) (account : DbAccount) (code : Bytes)
        → lookup a db.initial_db.accounts ≡ some account
        → account.info.code ≡ some code
        → has_code code input.contracts ≡ true

  complete_input-HasState :
      (start input : Sp1RethInput) (parent block : RpcBlock) (db : RemoteDb)
      → IsOfBlocks parent block start
      → complete_input provider ops codec reader from_be_bytes header_ops evm fuel start db
        ≡ ok input
      → IsOfBlocks parent block input × HasState db input
  unfolding complete_input
  complete_input-HasState start input parent block db h e =
      let (parent_proofs, e₁, k₁) =
        >>=-eq-ok (join_fetched (fetch_initial_storage_proofs provider ops db)) _ e in
      let (proofs, e₂, k₂) =
        >>=-eq-ok (join_fetched (fetch_latest_storage_proofs provider ops db)) _ k₁ in
      let (headers, e₃, k₃) =
        >>=-eq-ok (join_fetched (fetch_ancestor_headers provider ops db)) _ k₂ in
      let (tries, e₄, k₄) =
        >>=-eq-ok
          (try (
            proofs_to_tries codec reader from_be_bytes fuel start.parent_header.state_root
              parent_proofs proofs))
          _ k₃ in
      let (state, storage) =
        proofs_to_tries-HasRoot codec reader from_be_bytes fuel start.parent_header.state_root
          parent_proofs proofs tries.0 tries.1 (try-ok _ tries e₄) in
      subst (λ i. IsOfBlocks parent block i × HasState db i) (ok_unique _ refl k₄)
        (
          record {
            parent_header_lem = h.parent_header_lem;
            transactions_lem = h.transactions_lem;
            withdrawals_lem = h.withdrawals_lem;
            extra_data_lem = h.extra_data_lem;
            mix_hash_lem = h.mix_hash_lem;
            beneficiary_lem = h.beneficiary_lem;
            gas_limit_lem = h.gas_limit_lem;
            timestamp_lem = h.timestamp_lem;
          },
          record {
            state_trie_lem = state;
            storage_lem =
                let asked = join_fetched-ok _ parent_proofs e₁ in
                (
                  parent_proofs,
                  asked,
                  storage,
                  λ a i h.
                      fetch_initial_storage_proofs-HasProof provider ops db parent_proofs a i h
                        asked,
                );
            ancestor_headers_lem = join_fetched-ok _ headers e₃;
            contracts_lem = contracts_of-lookup db.initial_db.accounts;
          },
        )

  execute_block-IsExecuted :
      (parent block : RpcBlock) (number : ℕ) (input : Sp1RethInput) (db : RemoteDb)
      → parent.header.number ≡ some number
      → IsOfBlocks parent block input
      → execute_block provider ops codec reader from_be_bytes header_ops evm fuel input
          (new (number % u64_mod))
        ≡ ok db
      → IsExecuted parent block db
  unfolding execute_block new
  execute_block-IsExecuted parent block number input db n h e =
      let start : EvmProcessor RemoteDb = record {
        input = input;
        db = some (new (number % u64_mod));
        header = none;
      } in
      let (ready, e₁, k₁) = >>=-eq-ok (run (Processor.initialize header_ops start)) _ e in
      let (executed, e₂, k₂) = >>=-eq-ok (join (execute evm ready)) _ k₁ in
      record {
        number = number;
        number_lem = n;
        input = input;
        input_lem = h;
        ready = ready;
        executed = executed;
        ready_lem = run-ok _ ready e₁;
        executed_lem = join-ok _ executed e₂;
        db_lem = unwrap-ok executed.db db k₂;
      }

  pub initialize-HasState :
      (block_number : ℕ) (input : Sp1RethInput)
      → initialize provider ops codec reader from_be_bytes header_ops evm fuel block_number
        ≡ ok input
      → (parent block : RpcBlock) × (db : RemoteDb) × (provider.get_block_by_number
            ((block_number + u64_mod - 1) % u64_mod)
            false
          ≡ some (some parent))
        × (provider.get_block_by_number block_number true ≡ some (some block))
        × IsOfBlocks parent block input
        × IsExecuted parent block db
        × HasState db input
  unfolding initialize
  initialize-HasState block_number input e =
      let (parent_found, e₁, k₁) =
        >>=-eq-ok
          (ask (provider.get_block_by_number ((block_number + u64_mod - 1) % u64_mod) false)) _ e in
      let (parent, e₂, k₂) = >>=-eq-ok (unwrap parent_found) _ k₁ in
      let (block_found, e₃, k₃) =
        >>=-eq-ok (ask (provider.get_block_by_number block_number true)) _ k₂ in
      let (block, e₄, k₄) = >>=-eq-ok (unwrap block_found) _ k₃ in
      let (number, e₅, k₅) = >>=-eq-ok (unwrap parent.header.number) _ k₄ in
      let (start, e₆, k₆) = >>=-eq-ok (block_input parent block) _ k₅ in
      let (db, e₇, k₇) =
        >>=-eq-ok
          (execute_block provider ops codec reader from_be_bytes header_ops evm fuel start
            (new (number % u64_mod)))
          _ k₆ in
      let found = ask-ok _ parent_found e₁ ∙ ap some (unwrap-ok parent_found parent e₂) in
      let found' = ask-ok _ block_found e₃ ∙ ap some (unwrap-ok block_found block e₄) in
      let (of_blocks, state) =
        complete_input-HasState start input parent block db
          (block_input-IsOfBlocks parent block start e₆) k₇ in
      let executed =
        execute_block-IsExecuted parent block number start db
          (unwrap-ok parent.header.number number e₅) (block_input-IsOfBlocks parent block start e₆)
          e₇ in
      (parent, block, db, found, found', of_blocks, executed, state)
