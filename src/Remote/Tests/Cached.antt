-- ===== src/Remote/Tests/Cached.antt =====
-- The cache of the runs of the host's database keeps the laws that the proofs ask for
-- (script/src/db.rs).
use sp1_reth.Prelude.{
  ℕ, ◌≡◌, ◌⊎◌, inl, inr, refl, sym, ap, ◌∙◌, subst, Bool, true, false, ◌&&◌, [], Option, none, some,
  ◌==◌, list_eq, eq_of_list_eq, if◌then◌else◌, Bool-cases, lookup, lookup-put,
}
use sp1_reth.Block.{Address}
use sp1_reth.Processor.Execute.{AccountInfo}
use sp1_reth.Db.{nat_keys, bytes_keys, DbAccount, InMemoryDb}
use sp1_reth.Remote.Recorded.{
  slot_of, recorded, is_cleared, is_cleared_account, SameSlots, CacheLaws, known_of, known_info,
  NoNewInfos,
}
use sp1_reth.Remote.Tests.Served.{exists, info_of, with_info, with_slot, change, ops}

slot_of-with_info :
    (info : AccountInfo) (o : Option DbAccount) (i : ℕ)
    → slot_of (some (with_info info o)) i ≡ slot_of o i
slot_of-with_info info none i = refl
slot_of-with_info info (some account) i = refl

cleared-with_info :
    (info : AccountInfo) (o : Option DbAccount)
    → is_cleared_account (some (with_info info o)) ≡ is_cleared_account o
cleared-with_info info none = refl
cleared-with_info info (some account) = refl

slot_of-with_slot :
    (i v : ℕ) (o : Option DbAccount) (j : ℕ)
    → slot_of (some (with_slot i v o)) j ≡ (if i == j then some v else slot_of o j)
unfolding nat_keys
slot_of-with_slot i v none j = lookup-put j i v []
slot_of-with_slot i v (some account) j = lookup-put j i v account.storage

cleared-with_slot :
    (i v : ℕ) (o : Option DbAccount)
    → is_cleared_account (some (with_slot i v o)) ≡ is_cleared_account o
cleared-with_slot i v none = refl
cleared-with_slot i v (some account) = refl

shown :
    (made info : AccountInfo) (b : Bool) → (if b then some made else none) ≡ some info → made ≡ info
shown made info true e = cc
shown made info false e = cc

known_of-with_slot :
    (i v : ℕ) (o : Option DbAccount)
    → known_of info_of (some (with_slot i v o)) ≡ known_of info_of o
known_of-with_slot i v none = refl
known_of-with_slot i v (some account) = refl

known_of-with_info :
    (made info : AccountInfo) (o : Option DbAccount)
    → known_of info_of (some (with_info made o)) ≡ some info
    → made ≡ info
known_of-with_info made info none e = cc
known_of-with_info made info (some account) e = shown made info (exists account.account_state) e

-- What an account that is changed tells, where the change keeps it.
lookup-change :
    {A : Type 0} (f : Option DbAccount → DbAccount) (g : Option DbAccount → A) (a b : Address)
    (db : InMemoryDb)
    → (g (some (f (lookup a db.accounts))) ≡ g (lookup a db.accounts))
    → g (lookup b (change a f db).accounts) ≡ g (lookup b db.accounts)
lookup-change f g a b db h =
    let p = lookup-put b a (f (lookup a db.accounts)) db.accounts in
    elim (Bool-cases (bytes_keys.same a b)) [
      | inl t ↦
          ap g (p ∙ ap (λ x. if x then some (f (lookup a db.accounts)) else lookup b db.accounts) t)
          ∙ (h ∙ ap (λ x. g (lookup x db.accounts)) ((bytes_keys.same_iff a b).0 t))
      | inr n ↦
          ap g (p ∙ ap (λ x. if x then some (f (lookup a db.accounts)) else lookup b db.accounts) n)
    ]

if_both :
    (x y : Bool) (p q q' : Option ℕ)
    → x ≡ true
    → q ≡ q'
    → (if y then p else q) ≡ (if x && y then p else q')
if_both true y p q q' h k = ap (λ z. if y then p else z) k
if_both false y p q q' h k = cc

if_neither : (x y : Bool) (p q : Option ℕ) → x ≡ false → q ≡ (if x && y then p else q)
if_neither true y p q h = cc
if_neither false y p q h = refl

recorded-change :
    (a : Address) (i v : ℕ) (db : InMemoryDb) (b : Address) (j : ℕ)
    → recorded (change a (with_slot i v) db) b j
      ≡ (if list_eq a b && (i == j) then some v else recorded db b j)
unfolding bytes_keys
recorded-change a i v db b j =
    let p = lookup-put b a (with_slot i v (lookup a db.accounts)) db.accounts in
    elim (Bool-cases (list_eq a b)) [
      | inl t ↦
          ap (λ o. slot_of o j)
            (p
              ∙ ap
                  (λ x.
                    if x then some (with_slot i v (lookup a db.accounts)) else lookup b db.accounts)
                  t)
          ∙ (slot_of-with_slot i v (lookup a db.accounts) j
              ∙ if_both (list_eq a b) (i == j) (some v) _ _ t
                  (ap (λ x. recorded db x j) (eq_of_list_eq a b t)))
      | inr n ↦
          ap (λ o. slot_of o j)
            (p
              ∙ ap
                  (λ x.
                    if x then some (with_slot i v (lookup a db.accounts)) else lookup b db.accounts)
                  n)
          ∙ if_neither (list_eq a b) (i == j) (some v) (recorded db b j) n
    ]

-- What is told after the information of an account is set.
known_info-change :
    (made info : AccountInfo) (a b : Address) (db : InMemoryDb)
    → known_info info_of (change a (with_info made) db) b ≡ some info
    → ((a ≡ b) × (made ≡ info)) ⊎ (known_info info_of db b ≡ some info)
known_info-change made info a b db e =
    let set = with_info made (lookup a db.accounts) in
    let p = lookup-put b a set db.accounts in
    elim (Bool-cases (bytes_keys.same a b)) [
      | inl t ↦
          let there = p ∙ ap (λ x. if x then some set else lookup b db.accounts) t in
          inl (
            (bytes_keys.same_iff a b).0 t,
            known_of-with_info made info (lookup a db.accounts)
                (ap (known_of info_of) (sym there) ∙ e),
          )
      | inr n ↦
          let kept = p ∙ ap (λ x. if x then some set else lookup b db.accounts) n in
          inr (ap (known_of info_of) (sym kept) ∙ e)
    ]

same_some : (d d' : InMemoryDb) → some d ≡ some d' → d ≡ d'
same_some d d' e = cc

pub laws : CacheLaws ops
laws = record {
  insert_account_info_lem = λ a info db. (
    λ b i.
        lookup-change (with_info info) (λ o. slot_of o i) a b db
          (slot_of-with_info info (lookup a db.accounts) i),
    λ b.
        lookup-change (with_info info) is_cleared_account a b db
          (cleared-with_info info (lookup a db.accounts)),
  );
  basic_lem = λ a db db' e. subst (SameSlots db) ((same_some db db' e)) (λ b i. refl, λ b. refl);
  block_hash_lem = λ n db hash db' e. cc;
  recorded-insert_account_storage = λ a i v db db' e b j.
      subst (λ d. recorded d b j ≡ (if list_eq a b && (i == j) then some v else recorded db b j))
        (same_some _ db' e) (recorded-change a i v db b j);
  is_cleared-insert_account_storage = λ a i v db db' e b.
      subst (λ d. is_cleared d b ≡ is_cleared db b) (same_some _ db' e)
        (lookup-change (with_slot i v) is_cleared_account a b db
          (cleared-with_slot i v (lookup a db.accounts)));
  known_info-insert_account_info = λ a balance nonce code db b info e.
      known_info-change (ops.account_info balance nonce code) info a b db e;
  basic-NoNewInfos =
      λ a db db' e. subst (NoNewInfos info_of db) (same_some db db' e) (λ b info k. k);
  block_hash-NoNewInfos = λ n db hash db' e. cc;
  insert_account_storage-NoNewInfos = λ a i v db db' e.
      subst (NoNewInfos info_of db) (same_some _ db' e) (λ b info k.
        sym (
          lookup-change (with_slot i v) (known_of info_of) a b db
            (known_of-with_slot i v (lookup a db.accounts)))
        ∙ k);
}
