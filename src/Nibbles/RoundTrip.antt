-- ===== src/Nibbles/RoundTrip.antt =====
-- What the encodings of nibble paths keep: `to_encoded_path` against `prefix_nibs`, and `to_nibs`.
use sp1_reth.Prelude.{
  ℕ, zero, suc, ◌+◌, ◌*◌, ◌/◌, ◌%◌, ◌<◌, ◌≡◌, ◌≢◌, refl, ap, Bool, true, false, not, ◌&&◌, List, [],
  ◌∷◌, Outcome, ok, bit_and, arith, ◌==◌, ==_iff, if◌then◌else◌, length, list_eq,
}
use sp1_reth.Nibbles.{
  Bytes, IsBytes, IsNibs, to_nibs, pair_up, path_from, to_encoded_path, path_nibs, prefix_nibs,
}

-- A test on the first `n` numbers, and what it says of each of them.
passes : (ℕ → Bool) → ℕ → Bool
passes test zero = true
passes test (suc n) = passes test n && test n

passes_at : (test : ℕ → Bool) (n : ℕ) {b : ℕ} → b < n → passes test n ≡ true → test b ≡ true
unfolding passes
passes_at test zero {b} lt h = absurd (omega arith)
passes_at test (suc n) {b} lt h = ground (arith, passes_at test n {b = b})

low_table : passes (λ x. bit_and x 0xf == x % 16) 256 ≡ true
unfolding passes
low_table = refl

pub bit_and_low : (x : ℕ) → x < 256 → bit_and x 0xf ≡ x % 16
bit_and_low x h = (==_iff _ _).0 (passes_at _ 256 h low_table)

odd_table : passes (λ x. (if bit_and x 0x10 == 0 then 0 else 1) == x / 16 % 2) 256 ≡ true
unfolding passes
odd_table = refl

-- The parity bit of the first byte.
bit_and_odd : (x : ℕ) → x < 256 → (if bit_and x 0x10 == 0 then 0 else 1) ≡ x / 16 % 2
bit_and_odd x h = (==_iff _ _).0 (passes_at _ 256 h odd_table)

leaf_table : passes (λ x. (if bit_and x 0x20 == 0 then 0 else 1) == x / 32 % 2) 256 ≡ true
unfolding passes
leaf_table = refl

-- The leaf flag of the first byte.
bit_and_leaf : (x : ℕ) → x < 256 → (if bit_and x 0x20 == 0 then 0 else 1) ≡ x / 32 % 2
bit_and_leaf x h = (==_iff _ _).0 (passes_at _ 256 h leaf_table)

pub to_nibs-IsNibs : (bs : Bytes) → IsBytes bs → IsNibs (to_nibs bs)
unfolding to_nibs
to_nibs-IsNibs [] h = tt
to_nibs-IsNibs (b ∷ bs) h =
    let low = bit_and_low b h.0 in (omega arith, (omega arith, to_nibs-IsNibs bs h.1))

pub length-to_nibs : (bs : Bytes) → length (to_nibs bs) ≡ 2 * length bs
unfolding to_nibs
length-to_nibs [] = refl
length-to_nibs (b ∷ bs) = omega (arith, length-to_nibs bs)

-- Keys of bytes are told apart by their nibbles, so the trie keeps distinct keys distinct.
pub list_eq-to_nibs :
    (a b : Bytes) → IsBytes a → IsBytes b → list_eq (to_nibs a) (to_nibs b) ≡ list_eq a b
unfolding to_nibs
list_eq-to_nibs [] [] p q = refl
list_eq-to_nibs [] (y ∷ b) p q = refl
list_eq-to_nibs (x ∷ a) [] p q = refl
list_eq-to_nibs (x ∷ a) (y ∷ b) p q =
    ground (arith, bit_and_low x p.0, bit_and_low y q.0, list_eq-to_nibs a b p.1 q.1)

pair_up-IsBytes : (ns : List ℕ) → IsBytes (pair_up ns)
unfolding pair_up
pair_up-IsBytes [] = tt
pair_up-IsBytes (a ∷ []) = tt
pair_up-IsBytes (a ∷ b ∷ rest) = (omega arith, pair_up-IsBytes rest)

to_nibs-pair_up : (ns : List ℕ) → length ns % 2 ≡ 0 → IsNibs ns → to_nibs (pair_up ns) ≡ ns
unfolding to_nibs pair_up
to_nibs-pair_up [] e h = refl
to_nibs-pair_up (a ∷ []) e h = absurd (omega arith)
to_nibs-pair_up (a ∷ b ∷ rest) e h =
    let byte : ℕ = (a * 16 % 256 + b) % 256 in
    ground (arith, bit_and_low byte (omega arith), to_nibs-pair_up rest (omega arith) h.1.1)

-- The first byte of an encoding, from the leaf flag: 0x20 for a leaf, 0x10 more for odd lengths.
abbrev flag : Bool → ℕ
flag is_leaf = (if is_leaf then 1 else 0) * 0x20

path_nibs-pair_up :
    (p : ℕ) (ns : List ℕ)
    → p < 256
    → p / 16 % 2 ≡ 0
    → length ns % 2 ≡ 0
    → IsNibs ns
    → path_nibs p (pair_up ns) ≡ ns
unfolding path_nibs
path_nibs-pair_up p ns b f e h = ground (arith, bit_and_odd p b, to_nibs-pair_up ns e h)

path_nibs-pair_up_odd :
    (p n : ℕ) (ns : List ℕ)
    → p < 256
    → p / 16 % 2 ≡ 1
    → p % 16 ≡ n
    → length ns % 2 ≡ 0
    → IsNibs ns
    → path_nibs p (pair_up ns) ≡ n ∷ ns
unfolding path_nibs
path_nibs-pair_up_odd p n ns b f m e h =
    ground (arith, bit_and_odd p b, bit_and_low p b, to_nibs-pair_up ns e h)

path_from-nibs :
    {E : Type 0} (b : Bool) (ns : List ℕ)
    → IsNibs ns
    → prefix_nibs {E = E} (path_from (not (length ns % 2 == 0)) (flag b) ns) ≡ ok ns
unfolding path_from prefix_nibs
path_from-nibs true [] h = rw (path_nibs-pair_up 0x20 [] (omega arith) (omega arith) refl tt)
path_from-nibs false [] h = rw (path_nibs-pair_up 0 [] (omega arith) (omega arith) refl tt)
path_from-nibs true (n ∷ ns) h =
    ground (
      arith,
      path_nibs-pair_up 0x20 (n ∷ ns),
      path_nibs-pair_up_odd ((0x20 + (0x10 + n)) % 256) n ns,
    )
path_from-nibs false (n ∷ ns) h =
    ground
      (arith, path_nibs-pair_up 0 (n ∷ ns), path_nibs-pair_up_odd ((0 + (0x10 + n)) % 256) n ns)

-- Reading back the path of a leaf or an extension gives the nibbles that were encoded.
pub prefix_nibs-to_encoded_path :
    {E : Type 0} (ns : List ℕ) (is_leaf : Bool)
    → IsNibs ns
    → prefix_nibs {E = E} (to_encoded_path ns is_leaf) ≡ ok ns
unfolding to_encoded_path
prefix_nibs-to_encoded_path ns b h = path_from-nibs b ns h

-- A path that can be read: a first byte, and bytes throughout.
abbrev pub IsPath : Bytes → Type 0
IsPath [] = ⊥
IsPath (e ∷ tail) = (e < 256) × IsBytes tail

path_from-IsPath : (odd b : Bool) (ns : List ℕ) → IsNibs ns → IsPath (path_from odd (flag b) ns)
unfolding path_from
path_from-IsPath true true [] h = omega arith
path_from-IsPath true false [] h = omega arith
path_from-IsPath true b (n ∷ ns) h = (omega arith, pair_up-IsBytes ns)
path_from-IsPath false true ns h = (omega arith, pair_up-IsBytes ns)
path_from-IsPath false false ns h = (omega arith, pair_up-IsBytes ns)

pub to_encoded_path-IsPath :
    (ns : List ℕ) (is_leaf : Bool) → IsNibs ns → IsPath (to_encoded_path ns is_leaf)
unfolding to_encoded_path
to_encoded_path-IsPath ns b h = path_from-IsPath (not (length ns % 2 == 0)) b ns h

path_nibs-IsNibs : (e : ℕ) (tail : Bytes) → e < 256 → IsBytes tail → IsNibs (path_nibs e tail)
unfolding path_nibs
path_nibs-IsNibs e tail b h = ground (arith, to_nibs-IsNibs tail h, bit_and_low e b)

-- A path that can be read has nibbles.
pub prefix_nibs-ok :
    {E : Type 0} (p : Bytes)
    → IsPath p
    → (ns : List ℕ) × IsNibs ns × (prefix_nibs {E = E} p ≡ ok ns)
unfolding prefix_nibs
prefix_nibs-ok [] h = absurd h
prefix_nibs-ok (e ∷ tail) h = (path_nibs e tail, path_nibs-IsNibs e tail h.0 h.1, refl)

-- The test by which `decode` tells a leaf's path from an extension's.
abbrev pub is_leaf_path : Bytes → Bool
is_leaf_path [] = false
is_leaf_path (e ∷ tail) = not (bit_and e 0x20 == 0)

path_from-leaf :
    (odd b : Bool) (ns : List ℕ) → IsNibs ns → is_leaf_path (path_from odd (flag b) ns) ≡ b
unfolding path_from
path_from-leaf true true [] h = refl
path_from-leaf true false [] h = refl
path_from-leaf true true (n ∷ ns) h =
    ground (arith, bit_and_leaf ((0x20 + (0x10 + n)) % 256) (omega arith))
path_from-leaf true false (n ∷ ns) h =
    ground (arith, bit_and_leaf ((0 + (0x10 + n)) % 256) (omega arith))
path_from-leaf false true ns h = refl
path_from-leaf false false ns h = refl

-- The leaf flag is read back too.
pub is_leaf_path-to_encoded_path :
    (ns : List ℕ) (is_leaf : Bool) → IsNibs ns → is_leaf_path (to_encoded_path ns is_leaf) ≡ is_leaf
unfolding to_encoded_path
is_leaf_path-to_encoded_path ns b h = path_from-leaf (not (length ns % 2 == 0)) b ns h

-- An extension's path holds a nibble at least.
abbrev pub IsShared : Bytes → Type 0
IsShared [] = ⊥
IsShared (e ∷ tail) = path_nibs e tail ≢ []

pub IsShared-nibs :
    {E : Type 0} (p : Bytes) (ns : List ℕ)
    → IsPath p
    → prefix_nibs {E = E} p ≡ ok ns
    → ns ≢ []
    → IsShared p
unfolding prefix_nibs
IsShared-nibs [] ns h e ne = absurd h
IsShared-nibs (e ∷ tail) ns h q ne = λ z. ne (cc)

pub to_encoded_path-IsShared :
    (n : ℕ) (ns : List ℕ) (is_leaf : Bool)
    → IsNibs (n ∷ ns)
    → IsShared (to_encoded_path (n ∷ ns) is_leaf)
to_encoded_path-IsShared n ns b h =
    IsShared-nibs {E = Unit} _ (n ∷ ns) (to_encoded_path-IsPath (n ∷ ns) b h)
      (prefix_nibs-to_encoded_path (n ∷ ns) b h) (cc)

-- An extension's path has a first nibble.
pub prefix_nibs-shared :
    {E : Type 0} (p : Bytes)
    → IsPath p
    → IsShared p
    → (n : ℕ) × (ns : List ℕ) × IsNibs (n ∷ ns) × (prefix_nibs {E = E} p ≡ ok (n ∷ ns))
unfolding prefix_nibs
prefix_nibs-shared {E} [] h s = absurd h
prefix_nibs-shared {E} (e ∷ tail) h s =
    first (path_nibs e tail) refl (path_nibs-IsNibs e tail h.0 h.1) s
  where
    first :
        (l : List ℕ)
        → path_nibs e tail ≡ l
        → IsNibs l
        → path_nibs e tail ≢ []
        → (n : ℕ) × (ns : List ℕ) × IsNibs (n ∷ ns)
          × (◌≡◌ {A = Outcome E (List ℕ)} (ok (path_nibs e tail)) (ok (n ∷ ns)))
    first [] q hn ne = absurd (ne q)
    first (n ∷ ns) q hn ne = (n, ns, hn, ap ok q)
