-- ===== src/Prelude/ByteTable.antt =====
-- Facts about the bits of bytes, by evaluation over all bytes.
use Prim.Native.Nat.{ℕ, zero, suc, ◌<◌, bit_xor}
use mathlib.Core.Path.{◌≡◌, refl}
use mathlib.Core.Bool.{Bool, true, ◌&&◌}
use native.Mathlib.Omega.{arith}
use go_devp2p.Prelude.Tests.{◌==◌, ==_iff, ltb, ltb→lt}

unfoldable pub every_below : ℕ → (ℕ → Bool) → Bool
every_below zero test = true
every_below (suc k) test = test k && every_below k test

pub every_below-at :
    (k : ℕ) (test : ℕ → Bool) (i : ℕ) → i < k → every_below k test ≡ true → test i ≡ true
unfolding every_below
every_below-at zero test i lt all = absurd (omega arith)
every_below-at (suc k) test i lt all = ground (arith, every_below-at k test i)

pub two_bytes :
    (p : ℕ → ℕ → Bool) (x y : ℕ)
    → every_below 256 (λ a. every_below 256 (λ b. p a b)) ≡ true
    → x < 256
    → y < 256
    → p x y ≡ true
two_bytes p x y t hx hy =
    let row = every_below-at 256 (λ a. every_below 256 (λ b. p a b)) x hx t in
    every_below-at 256 (λ b. p x b) y hy row

twice_table : every_below 256 (λ a. every_below 256 (λ b. bit_xor (bit_xor a b) b == a)) ≡ true
unfolding every_below
twice_table = refl

byte_table : every_below 256 (λ a. every_below 256 (λ b. ltb (bit_xor a b) 256)) ≡ true
unfolding every_below
byte_table = refl

pub xor_twice : (a b : ℕ) → a < 256 → b < 256 → bit_xor (bit_xor a b) b ≡ a
xor_twice a b ha hb =
    (==_iff _ a).0 (two_bytes (λ x y. bit_xor (bit_xor x y) y == x) a b twice_table ha hb)

pub xor_byte : (a b : ℕ) → a < 256 → b < 256 → bit_xor a b < 256
xor_byte a b ha hb =
    ltb→lt (bit_xor a b) 256 (two_bytes (λ x y. ltb (bit_xor x y) 256) a b byte_table ha hb)
