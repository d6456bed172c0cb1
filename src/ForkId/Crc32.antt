-- ===== src/ForkId/Crc32.antt =====
-- hash/crc32 with the IEEE polynomial, as the fork identifier uses it.
use Prim.Native.Nat.{bit_xor}
use go_devp2p.Prelude.{ℕ, ◌-◌, ◌/◌, ◌%◌, ◌^◌, ◌≡◌, refl, [], ◌∷◌, Bytes, codes, ◌==◌, if◌then◌else◌}

-- One bit of the table's construction.
shift : ℕ → ℕ
shift c = if c % 2 == 1 then bit_xor (c / 2) 0xedb88320 else c / 2

unfoldable pub table_entry : ℕ → ℕ
unfolding shift
table_entry b = shift (shift (shift (shift (shift (shift (shift (shift b)))))))

unfoldable pub update_loop : ℕ → Bytes → ℕ
unfolding table_entry
update_loop crc [] = crc
update_loop crc (b ∷ bs) =
    update_loop (bit_xor (table_entry (bit_xor (crc % 256) b)) (crc / 256)) bs

-- crc32.Update with IEEETable
unfoldable pub update : ℕ → Bytes → ℕ
unfolding update_loop
update crc p = 2 ^ 32 - 1 - update_loop (2 ^ 32 - 1 - crc) p

-- crc32.ChecksumIEEE
unfoldable pub checksum_ieee : Bytes → ℕ
unfolding update
checksum_ieee p = update 0 p

check_value : checksum_ieee (codes "123456789") ≡ 0xcbf43926
unfolding checksum_ieee
check_value = refl
