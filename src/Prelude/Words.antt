-- ===== src/Prelude/Words.antt =====
-- Machine words: a number below a power of two, with the wrap written out.
use Prim.Native.Nat.{ℕ, ◌+◌, ◌-◌, ◌*◌, ◌/◌, ◌%◌, ◌^◌, ◌<◌}
use mathlib.Core.Path.{◌≡◌}
use mathlib.Core.List.{[], ◌∷◌}
use mathlib.Core.Option.{Option, none, some}
use native.Mathlib.Omega.{arith}
use go_devp2p.Prelude.Strings.{Bytes}

abbrev pub u8 : ℕ → ℕ
u8 n = n % 256

abbrev pub u16 : ℕ → ℕ
u16 n = n % 65536

abbrev pub u32 : ℕ → ℕ
u32 n = n % 2 ^ 32

abbrev pub u64 : ℕ → ℕ
u64 n = n % 2 ^ 64

abbrev pub max_uint64 : ℕ
max_uint64 = 2 ^ 64 - 1

-- binary.BigEndian.PutUint16 and PutUint32, as the bytes written
unfoldable pub be16 : ℕ → Bytes
be16 n = u8 (n / 256) ∷ u8 n ∷ []

unfoldable pub be32 : ℕ → Bytes
be32 n = u8 (n / 2 ^ 24) ∷ u8 (n / 2 ^ 16) ∷ u8 (n / 2 ^ 8) ∷ u8 n ∷ []

unfoldable pub be64 : ℕ → Bytes
unfolding be32
be64 n = u8 (n / 2 ^ 56) ∷ u8 (n / 2 ^ 48) ∷ u8 (n / 2 ^ 40) ∷ u8 (n / 2 ^ 32) ∷ be32 n

-- binary.BigEndian.Uint16 and Uint32; they panic on a slice that is too short
unfoldable pub read_be16 : Bytes → Option ℕ
read_be16 (a ∷ b ∷ _) = some (a * 256 + b)
read_be16 _ = none

unfoldable pub read_be32 : Bytes → Option ℕ
read_be32 (a ∷ b ∷ c ∷ d ∷ _) = some (a * 2 ^ 24 + b * 2 ^ 16 + c * 2 ^ 8 + d)
read_be32 _ = none

pub read_be16-be16 : (n : ℕ) → n < 2 ^ 16 → read_be16 (be16 n) ≡ some n
unfolding read_be16 be16
read_be16-be16 n h = ground arith

pub read_be32-be32 : (n : ℕ) → n < 2 ^ 32 → read_be32 (be32 n) ≡ some n
unfolding read_be32 be32
read_be32-be32 n h = ground arith
