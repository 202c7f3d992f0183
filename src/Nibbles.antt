-- ===== src/Nibbles.antt =====
-- Keys as nibbles, and the hex-prefix encoding of paths (primitives/src/mpt.rs: `to_nibs`,
-- `to_encoded_path`, `lcp`, `prefix_nibs`). A `u8` is a number below 256, a slice is a list.
pub mod RoundTrip
pub mod CommonPrefix
mod Tests
use sp1_reth.Prelude.{
  ℕ, suc, ◌+◌, ◌*◌, ◌/◌, ◌%◌, ◌<◌, min, bit_and, Bool, true, false, not, List, [], ◌∷◌, Option,
  none, some, Outcome, ok, panic, ◌==◌, if◌then◌else◌, length, All,
}

abbrev pub Bytes : Type 0
Bytes = List ℕ

abbrev pub IsBytes : Bytes → Type 0
IsBytes bs = All (λ b. b < 256) bs

abbrev pub IsNibs : List ℕ → Type 0
IsNibs ns = All (λ n. n < 16) ns

-- Each byte gives `byte >> 4` and `byte & 0xf`.
unfoldable pub to_nibs : Bytes → List ℕ
to_nibs [] = []
to_nibs (byte ∷ rest) = byte / 16 ∷ bit_and byte 0xf ∷ to_nibs rest

-- `nibs.chunks_exact(2)` mapped by `(byte[0] << 4) + byte[1]`, both on `u8`.
unfoldable pub pair_up : List ℕ → Bytes
pair_up [] = []
pair_up (a ∷ []) = []
pair_up (a ∷ b ∷ rest) = ((a * 16 % 256 + b) % 256) ∷ pair_up rest

-- The prefix byte and the nibbles that are left to pair up.
unfoldable pub path_from : Bool → ℕ → List ℕ → Bytes
path_from true prefix (n ∷ rest) = (prefix + (0x10 + n)) % 256 ∷ pair_up rest
path_from true prefix [] = prefix ∷ []
path_from false prefix nibs = prefix ∷ pair_up nibs

-- `path_from` is entered with `true` on odd lengths only, where there is a first nibble.
unfoldable pub to_encoded_path : List ℕ → Bool → Bytes
unfolding path_from pair_up
to_encoded_path nibs is_leaf =
    let prefix = (if is_leaf then 1 else 0) * 0x20 in
    path_from (not (length nibs % 2 == 0)) prefix nibs

-- The loop over `zip(a, b)`, which returns the index at the first difference.
unfoldable pub lcp_loop : List ℕ → List ℕ → ℕ → Option ℕ
lcp_loop [] b i = none
lcp_loop (x ∷ a) [] i = none
lcp_loop (x ∷ a) (y ∷ b) i =
    let rest = lcp_loop a b (i + 1) in if not (x == y) then some i else rest

unfoldable pub lcp : List ℕ → List ℕ → ℕ
unfolding lcp_loop
lcp a b = elim (lcp_loop a b 0) [ some i ↦ i | none ↦ min (length a) (length b) ]

-- The nibbles of a path whose first byte is `extension`: that byte gives one for odd lengths.
unfoldable pub path_nibs : ℕ → Bytes → List ℕ
unfolding to_nibs
path_nibs extension tail =
    let is_odd = not (bit_and extension 0x10 == 0) in
    let result = to_nibs tail in if is_odd then bit_and extension 0xf ∷ result else result

-- `split_first().unwrap()` panics on an empty path.
unfoldable pub prefix_nibs : {E : Type 0} → Bytes → Outcome E (List ℕ)
unfolding path_nibs
prefix_nibs [] = panic
prefix_nibs (extension ∷ tail) = ok (path_nibs extension tail)
