-- ===== src/Kademlia/Key/Bounds.antt =====
-- When identifiers can be compared, and the range of their common prefix.
use Prim.Native.Nat.{bit_xor}
use go_devp2p.Prelude.{ℕ, ◌+◌, ◌*◌, ◌≤◌, ◌≡◌, refl, some, [], ◌∷◌, Bytes, length, arith}
use go_devp2p.Kademlia.Key.{
  xor, leading_zeros8, zero_prefix_from, zero_prefix_len, common_prefix_len,
}

pub xor_total :
    (a b : Bytes) → length a ≤ length b → (d : Bytes) × (xor a b ≡ some d) × (length d ≡ length a)
unfolding xor
xor_total [] b h = ([], refl, refl)
xor_total (x ∷ a) [] h = absurd (omega arith)
xor_total (x ∷ a) (y ∷ b) h =
    let (d, e, l) = xor_total a b (omega arith) in (bit_xor x y ∷ d, rw (e, xor), omega arith)

zero_prefix_from-le : (i : ℕ) (d : Bytes) → zero_prefix_from i d ≤ (i + length d) * 8
unfolding zero_prefix_from leading_zeros8
zero_prefix_from-le i [] = omega arith
zero_prefix_from-le i (b ∷ bs) = ground (arith, zero_prefix_from-le (i + 1) bs)

-- A digest is compared with one that has as many bytes, or more, and shares at most all its bits.
pub common_prefix_len_total :
    (a b : Bytes)
    → length a ≤ length b
    → (n : ℕ) × (common_prefix_len a b ≡ some n) × (n ≤ length a * 8)
unfolding common_prefix_len zero_prefix_len
common_prefix_len_total a b h =
    let (d, e, l) = xor_total a b h in
    (zero_prefix_from 0 d, rw (e, common_prefix_len), omega (arith, zero_prefix_from-le 0 d))

pub common_prefix_len-le :
    (a b : Bytes) {n : ℕ} → length a ≤ length b → common_prefix_len a b ≡ some n → n ≤ length a * 8
common_prefix_len-le a b h e = let (m, p, l) = common_prefix_len_total a b h in ground arith
