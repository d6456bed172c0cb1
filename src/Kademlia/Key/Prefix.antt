-- ===== src/Kademlia/Key/Prefix.antt =====
-- The common prefix of two identifiers against its description bit by bit.
use Prim.Native.Nat.{bit_xor}
use go_devp2p.Prelude.{
  ℕ, suc, ◌+◌, ◌*◌, ◌/◌, ◌%◌, ◌<◌, ◌≤◌, ◌≡◌, refl, sym, ap, ◌∙◌, inl, inr, Option-cases, true,
  Option, none, some, List, [], ◌∷◌, ◌++◌, Bytes, IsBytes, length, ◌==◌, every_below, two_bytes,
  if◌then◌else◌, arith, ==_iff,
}
use go_devp2p.Kademlia.Key.{
  xor, leading_zeros8, zero_prefix_from, zero_prefix_len, common_prefix_len,
}

-- The bits of a byte, the highest first.
abbrev pub bits8 : ℕ → List ℕ
bits8 b =
    (b / 128 % 2)
    ∷ (b / 64 % 2)
    ∷ (b / 32 % 2)
    ∷ (b / 16 % 2)
    ∷ (b / 8 % 2)
    ∷ (b / 4 % 2)
    ∷ (b / 2 % 2)
    ∷ (b % 2)
    ∷ []

abbrev pub bits : Bytes → List ℕ
bits [] = []
bits (b ∷ bs) = bits8 b ++ bits bs

-- How many members two lists have in common at their heads.
unfoldable pub common : List ℕ → List ℕ → ℕ
common [] ys = 0
common (x ∷ xs) [] = 0
common (x ∷ xs) (y ∷ ys) = let rest = common xs ys in if x == y then suc rest else 0

table :
    every_below 256
      (λ x. every_below 256 (λ y. leading_zeros8 (bit_xor x y) == common (bits8 x) (bits8 y)))
    ≡ true
unfolding every_below leading_zeros8 common
table = refl

leading_zeros8-bits8 :
    (x y : ℕ) → x < 256 → y < 256 → leading_zeros8 (bit_xor x y) ≡ common (bits8 x) (bits8 y)
leading_zeros8-bits8 x y hx hy =
    (==_iff _ _).0 (
      two_bytes (λ a b. leading_zeros8 (bit_xor a b) == common (bits8 a) (bits8 b)) x y table hx hy)

common-append :
    (us vs xs ys : List ℕ)
    → length us ≡ length vs
    → common (us ++ xs) (vs ++ ys)
      ≡ (if common us vs == length us then length us + common xs ys else common us vs)
unfolding common
common-append [] [] xs ys h = omega arith
common-append [] (v ∷ vs) xs ys h = absurd (omega arith)
common-append (u ∷ us) [] xs ys h = absurd (omega arith)
common-append (u ∷ us) (v ∷ vs) xs ys h = ground (arith, common-append us vs xs ys)

leading_zeros8_eight : (z : ℕ) → (leading_zeros8 z == 8) ≡ (z == 0)
unfolding leading_zeros8
leading_zeros8_eight z = ground arith

zero_prefix_from_shift :
    (i : ℕ) (bs : Bytes) → zero_prefix_from i bs ≡ i * 8 + zero_prefix_from 0 bs
unfolding zero_prefix_from
zero_prefix_from_shift i [] = omega arith
zero_prefix_from_shift i (b ∷ bs) =
    ground (arith, zero_prefix_from_shift (i + 1) bs, zero_prefix_from_shift (0 + 1) bs)

common-byte :
    (x y : ℕ) (xs ys : List ℕ)
    → x < 256
    → y < 256
    → common (bits8 x ++ xs) (bits8 y ++ ys)
      ≡ (if bit_xor x y == 0 then 8 + common xs ys else leading_zeros8 (bit_xor x y))
common-byte x y xs ys hx hy =
    common-append (bits8 x) (bits8 y) xs ys refl
    ∙ rw (← leading_zeros8-bits8 x y hx hy, leading_zeros8_eight)

cons_prefix : ℕ → ℕ → Option ℕ → Option ℕ
cons_prefix x y none = none
cons_prefix x y (some n) = some (if bit_xor x y == 0 then 8 + n else leading_zeros8 (bit_xor x y))

common_prefix_len-cons :
    (x y : ℕ) (a b : Bytes)
    → common_prefix_len (x ∷ a) (y ∷ b) ≡ cons_prefix x y (common_prefix_len a b)
unfolding common_prefix_len zero_prefix_len zero_prefix_from xor cons_prefix
common_prefix_len-cons x y a b = elim (Option-cases (xor a b)) [
  | inl e ↦ rw (e, common_prefix_len, xor)
  | inr (d, e) ↦ rw (e, common_prefix_len, xor) (ground (arith, zero_prefix_from_shift (0 + 1) d))
]

-- The number of leading zero bits of the XOR of two identifiers is the number of leading bits that
-- they share, where both consist of bytes and the first has no more bytes than the second.
pub common_prefix_len-eq-common :
    (a b : Bytes)
    → IsBytes a
    → IsBytes b
    → length a ≤ length b
    → common_prefix_len a b ≡ some (common (bits a) (bits b))
common_prefix_len-eq-common [] b ha hb h =
    unfold common_prefix_len zero_prefix_len zero_prefix_from xor common in refl
common_prefix_len-eq-common (x ∷ a) [] ha hb h = absurd (omega arith)
common_prefix_len-eq-common (x ∷ a) (y ∷ b) ha hb h =
    rw (common_prefix_len-cons x y a b, common_prefix_len-eq-common a b ha.1 hb.1 (omega arith))
      (unfold cons_prefix in ap some (sym (common-byte x y (bits a) (bits b) ha.0 hb.0)))
