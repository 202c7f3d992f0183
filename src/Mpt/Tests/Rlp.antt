-- ===== src/Mpt/Tests/Rlp.antt =====
-- A small stand-in for the hash and the encodings that primitives/src/mpt.rs uses: each item has one
-- number in front that tells its kind and its length.
use sp1_reth.Prelude.{
  ℕ, zero, suc, ◌+◌, ◌-◌, ◌*◌, ◌/◌, ◌%◌, ◌≤◌, ◌<◌, ◌≡◌, refl, sym, ap, subst, Bool, true, false,
  List, [], ◌∷◌, ◌++◌, Option, none, some, arith, length, length-append, take, drop, ltb, ◌==◌,
  if◌then◌else◌, All,
}
use sp1_reth.Nibbles.{Bytes, IsBytes}
use sp1_reth.Mpt.Node.{B256}
use sp1_reth.Mpt.Codec.{Codec}
use sp1_reth.Mpt.Proof.{zeros}
use sp1_reth.Mpt.Decode.{Prototype, string, list, RlpReader}
use sp1_reth.Mpt.Decode.Laws.{
  IsItem, is_string, is_list, AreItems, no_items, more_items, Lists, RlpLaws, concat, nth,
}

-- A hash that tells the length.
abbrev pub digest_for : ℕ → B256
digest_for n = (n % 256) ∷ zeros 31

pub zeros-IsBytes : (n : ℕ) → IsBytes (zeros n)
zeros-IsBytes zero = tt
zeros-IsBytes (suc n) = (omega arith, zeros-IsBytes n)

-- The number in front of a string of this length, and of a list with such a payload.
abbrev string_mark : ℕ → ℕ
string_mark n = if ltb n 33 then 0x80 + n else 1000 + 2 * n

abbrev list_mark : ℕ → ℕ
list_mark n = 1001 + 2 * n

abbrev pub codec : Codec
codec = record {
  keccak = λ bs. digest_for (length bs);
  length-keccak = λ bs. refl;
  keccak-IsBytes = λ bs. (omega arith, zeros-IsBytes 31);
  encode_bytes = λ bs. string_mark (length bs) ∷ bs;
  length_bytes = λ bs. suc (length bs);
  length-encode_bytes = λ bs. refl;
  encode_b256 = λ d. string_mark (length d) ∷ d;
  length-encode_b256 = λ d h. omega arith;
  encode_header = λ n. list_mark n ∷ [];
  length_of_length = λ n. 1;
  length-encode_header = λ n. refl;
  length_of_length_short = λ n h. refl;
}

-- What a mark tells: the kind, and the length of what follows.
abbrev is_list_mark : ℕ → Bool
is_list_mark m = if ltb m 1000 then false else m % 2 == 1

abbrev body : ℕ → ℕ
body m = if ltb m 1000 then m - 0x80 else (m - 1000) / 2

abbrev split : ℕ → Bytes → List Bytes
split zero bs = []
split (suc fuel) [] = []
split (suc fuel) (m ∷ bs) = (m ∷ take (body m) bs) ∷ split fuel (drop (body m) bs)

abbrev items : Bytes → List Bytes
items [] = []
items (m ∷ bs) = split (length bs) bs

abbrev prototype : Bytes → Option Prototype
prototype [] = none
prototype (m ∷ bs) =
    some (if is_list_mark m then list (length (items (m ∷ bs))) else string (body m))

abbrev as_val : Bytes → Option Bytes
as_val [] = none
as_val (m ∷ bs) = if is_list_mark m then none else some bs

length-take_le : (n : ℕ) (bs : Bytes) → length (take n bs) ≤ length bs
length-take_le zero bs = omega arith
length-take_le (suc n) [] = omega arith
length-take_le (suc n) (b ∷ bs) = omega (arith, length-take_le n bs)

length-drop_le : (n : ℕ) (bs : Bytes) → length (drop n bs) ≤ length bs
length-drop_le zero bs = omega arith
length-drop_le (suc n) [] = omega arith
length-drop_le (suc n) (b ∷ bs) = omega (arith, length-drop_le n bs)

split-All : (fuel n : ℕ) (bs : Bytes) → length bs < n → All (λ x. length x < n) (split fuel bs)
split-All zero n bs h = tt
split-All (suc fuel) n [] h = tt
split-All (suc fuel) n (m ∷ bs) h = (
  omega (arith, length-take_le (body m) bs),
  split-All fuel n (drop (body m) bs) (omega (arith, length-drop_le (body m) bs)),
)

pub items-All : (r : Bytes) → All (λ x. length x < length r) (items r)
items-All [] = tt
items-All (m ∷ bs) = split-All (length bs) (suc (length bs)) bs (omega arith)

pub nth-All :
    (n : ℕ) (xs : List Bytes) (i : ℕ) (x : Bytes)
    → All (λ x. length x < n) xs
    → nth xs i ≡ some x
    → length x < n
nth-All n [] i x h e = cc
nth-All n (y ∷ xs) zero x h e = let same : y ≡ x = cc in subst (λ z. length z < n) same h.0
nth-All n (y ∷ xs) (suc i) x h e = nth-All n xs i x h.1 e

abbrev pub reader : RlpReader
reader = record {
  prototype = prototype;
  item_at = λ r. nth (items r);
  items = items;
  as_val = as_val;
  length-item_at = λ r i x e. nth-All (length r) (items r) i x (items-All r) e;
  length-items = items-All;
}

take-append_front : (bs rest : Bytes) → take (length bs) (bs ++ rest) ≡ bs
take-append_front [] rest = refl
take-append_front (b ∷ bs) rest = ap (λ cs. b ∷ cs) (take-append_front bs rest)

drop-append_front : (bs rest : Bytes) → drop (length bs) (bs ++ rest) ≡ rest
drop-append_front [] rest = refl
drop-append_front (b ∷ bs) rest = drop-append_front bs rest

body-string_mark : (n : ℕ) → body (string_mark n) ≡ n
body-string_mark n = ground arith

body-list_mark : (n : ℕ) → body (list_mark n) ≡ n
body-list_mark n = ground arith

is_list_mark-string_mark : (n : ℕ) → is_list_mark (string_mark n) ≡ false
is_list_mark-string_mark n = ground arith

is_list_mark-list_mark : (n : ℕ) → is_list_mark (list_mark n) ≡ true
is_list_mark-list_mark n = ground arith

-- An item, whose mark tells the length of the rest.
abbrev IsWhole : Bytes → Type 0
IsWhole [] = ⊥
IsWhole (m ∷ bs) = body m ≡ length bs

split-concat :
    (fuel : ℕ) (xs : List Bytes)
    → All IsWhole xs
    → length (concat xs) ≤ fuel
    → split fuel (concat xs) ≡ xs
split-concat zero [] h b = refl
split-concat (suc fuel) [] h b = refl
split-concat zero ([] ∷ xs) h b = absurd h.0
split-concat (suc fuel) ([] ∷ xs) h b = absurd h.0
split-concat zero ((m ∷ bs) ∷ xs) h b = absurd (omega arith)
split-concat (suc fuel) ((m ∷ bs) ∷ xs) h b =
    let here : take (body m) (bs ++ concat xs) ≡ bs = rw (h.0) (take-append_front bs (concat xs)) in
    let there : drop (body m) (bs ++ concat xs) ≡ concat xs =
      rw (h.0) (drop-append_front bs (concat xs)) in
    let more : split fuel (concat xs) ≡ xs =
      split-concat fuel xs h.1 (omega (arith, length-append bs (concat xs))) in
    rw (here, there, more) refl

IsItem-IsWhole : (x : Bytes) → IsItem codec x → IsWhole x
IsItem-IsWhole x (is_string r bs q) = subst IsWhole (sym q) (body-string_mark (length bs))
IsItem-IsWhole x (is_list r xs items q) =
    subst IsWhole (sym q) (body-list_mark (length (concat xs)))

AreItems-IsWhole : (xs : List Bytes) → AreItems codec xs → All IsWhole xs
AreItems-IsWhole xs no_items = tt
AreItems-IsWhole xs (more_items x ys h hs) = (IsItem-IsWhole x h, AreItems-IsWhole ys hs)

list-Lists :
    (xs : List Bytes)
    → AreItems codec xs
    → Lists reader (codec.encode_header (length (concat xs)) ++ concat xs) xs
list-Lists xs h =
    let same : split (length (concat xs)) (concat xs) ≡ xs =
      split-concat (length (concat xs)) xs (AreItems-IsWhole xs h) (omega arith) in
    record {
      prototype_lem = rw (is_list_mark-list_mark (length (concat xs)), same) refl;
      items_lem = same;
      item_at_lem = λ i. ap (λ ys. nth ys i) same;
    }

pub laws : RlpLaws codec reader
laws = record {
  encode_bytes_empty = refl;
  encode_bytes_digest = λ d h. rw (h) refl;
  encode_b256_lem = λ d h. refl;
  prototype-encode_bytes =
      λ bs. rw (is_list_mark-string_mark (length bs), body-string_mark (length bs)) refl;
  as_val-encode_bytes = λ bs. rw (is_list_mark-string_mark (length bs)) refl;
  lists = list-Lists;
}
