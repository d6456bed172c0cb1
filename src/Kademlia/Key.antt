-- ===== src/Kademlia/Key.antt =====
-- discovery/kademlia/util.go: identifiers, their XOR distance and their common prefix.
pub mod Prefix
pub mod Bounds
use Prim.Native.Nat.{bit_xor}
use go_devp2p.Prelude.{
  ℕ, ◌+◌, ◌*◌, Bool, Option, none, some, List, [], ◌∷◌, Bytes, bytes_lt, length, ltb, ◌==◌,
  if◌then◌else◌,
}

-- ID.less
unfoldable pub less : Bytes → Bytes → Bool
less a b = bytes_lt a b

-- `b` is read at every index of `a`: an index out of range panics
unfoldable pub xor : Bytes → Bytes → Option Bytes
xor [] ys = some []
xor (x ∷ xs) [] = none
xor (x ∷ xs) (y ∷ ys) = elim (xor xs ys) [ none ↦ none | some r ↦ some (bit_xor x y ∷ r) ]

-- bits.LeadingZeros8
unfoldable pub leading_zeros8 : ℕ → ℕ
leading_zeros8 b =
    if ltb b 1
    then 8
    else if ltb b 2
    then 7
    else if ltb b 4
    then 6
    else if ltb b 8
    then 5
    else if ltb b 16
    then 4
    else if ltb b 32
    then 3
    else if ltb b 64
    then 2
    else if ltb b 128
    then 1
    else 0

-- The loop of zeroPrefixLen, from index `i` on; after the loop `i` is len(id).
unfoldable pub zero_prefix_from : ℕ → Bytes → ℕ
zero_prefix_from i [] = i * 8
zero_prefix_from i (b ∷ bs) =
    let rest = zero_prefix_from (i + 1) bs in if b == 0 then rest else i * 8 + leading_zeros8 b

unfoldable pub zero_prefix_len : Bytes → ℕ
unfolding zero_prefix_from
zero_prefix_len id = zero_prefix_from 0 id

unfoldable pub common_prefix_len : Bytes → Bytes → Option ℕ
common_prefix_len a b = elim (xor a b) [ none ↦ none | some d ↦ some (zero_prefix_len d) ]
