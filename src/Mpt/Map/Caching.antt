-- ===== src/Mpt/Map/Caching.antt =====
-- Sequences of calls that change the trie or read its reference (primitives/src/mpt.rs), and the
-- cached references in it.
use sp1_reth.Prelude.{◌≡◌, subst, List, [], ◌∷◌, Outcome, ok, ◌>>=◌, >>=-eq-ok}
use sp1_reth.Nibbles.{Bytes, to_nibs}
use sp1_reth.Mpt.Node.{Error, MptNode}
use sp1_reth.Mpt.Codec.{Codec}
use sp1_reth.Mpt.Reference.{hash, warm, hashed}
use sp1_reth.Mpt.Reference.Coherent.{
  IsCoherent, warm-IsCoherent, hashed-IsCoherent, hash-erase, erase,
}
use sp1_reth.Mpt.Insert.{insert}
use sp1_reth.Mpt.Insert.Cache.{CoherentNode, insert_internal-CoherentNode}
use sp1_reth.Mpt.Delete.{delete}
use sp1_reth.Mpt.Delete.Cache.{delete_internal-CoherentNode}
use sp1_reth.Mpt.Map.{insert-ok}

-- `read` is a call of `reference` and `rehash` one of `hash`, which fill caches.
pub data Call : Type 0 where
  put : Bytes → Bytes → Call
  remove : Bytes → Call
  read : Call
  rehash : Call

module _ (codec : Codec) where
  abbrev pub perform : Call → MptNode → Outcome Error MptNode
  perform (put key value) n = insert n key value >>= λ (n', b). ok n'
  perform (remove key) n = delete n key >>= λ (n', b). ok n'
  perform read n = ok (warm codec n)
  perform rehash n = ok (hashed codec n)

  unfoldable pub run_calls : List Call → MptNode → Outcome Error MptNode
  run_calls [] n = ok n
  run_calls (call ∷ calls) n = perform call n >>= λ n'. run_calls calls n'

  perform-IsCoherent :
      (call : Call) (n n' : MptNode)
      → IsCoherent codec n
      → perform call n ≡ ok n'
      → IsCoherent codec n'
  unfolding delete
  perform-IsCoherent (put key value) n n' h e =
      let ((m, b), done, same) = >>=-eq-ok (insert n key value) (λ (m, b). ok m) e in
      let p : m ≡ n' = cc in
      subst (IsCoherent codec) p (
        subst (CoherentNode codec) (insert-ok n key value done)
          (insert_internal-CoherentNode codec n (to_nibs key) value h))
  perform-IsCoherent (remove key) n n' h e =
      let ((m, b), done, same) = >>=-eq-ok (delete n key) (λ (m, b). ok m) e in
      let p : m ≡ n' = cc in
      subst (IsCoherent codec) p
        (subst (CoherentNode codec) done (delete_internal-CoherentNode codec n (to_nibs key) h))
  perform-IsCoherent read n n' h e =
      let p : warm codec n ≡ n' = cc in subst (IsCoherent codec) p (warm-IsCoherent codec n h).0
  perform-IsCoherent rehash n n' h e =
      let p : hashed codec n ≡ n' = cc in subst (IsCoherent codec) p (hashed-IsCoherent codec n h).0

  -- Any run of insertions, deletions, and calls of `reference` and `hash` from a trie whose cached references are up to date
  -- ends with cached references that are up to date, so that the hash is that of the same trie with
  -- nothing cached.
  pub run_calls-IsCoherent :
      (calls : List Call) (n n' : MptNode)
      → IsCoherent codec n
      → run_calls calls n ≡ ok n'
      → IsCoherent codec n' × (hash codec n' ≡ hash codec (erase n'))
  unfolding run_calls
  run_calls-IsCoherent [] n n' h e =
      let p : n ≡ n' = cc in let k = subst (IsCoherent codec) p h in (k, hash-erase codec n' k)
  run_calls-IsCoherent (call ∷ calls) n n' h e =
      let (m, first, rest) = >>=-eq-ok (perform call n) (λ m. run_calls calls m) e in
      run_calls-IsCoherent calls m n' (perform-IsCoherent call n m h first) rest
