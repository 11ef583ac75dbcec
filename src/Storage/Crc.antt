-- ===== src/Storage/Crc.antt =====
-- storage/page.cpp: the CRC-32 of the page header and of the log records.
use my_simple_db.Prelude.{
  ℕ, zero, suc, ◌-◌, ◌/◌, ◌%◌, ◌^◌, ◌<◌, List, [], ◌∷◌, ◌==◌, if◌then◌else◌, arith,
}
use Prim.Native.Nat.{bit_xor}

-- The rounds that make an entry of crc_table.
unfoldable pub crc_rounds : ℕ → ℕ → ℕ
crc_rounds zero c = c
crc_rounds (suc k) c = crc_rounds k (if c % 2 == 1 then bit_xor 0xEDB8_8320 (c / 2) else c / 2)

unfoldable pub crc_table : ℕ → ℕ
crc_table i = crc_rounds 8 i

unfoldable pub crc_loop : ℕ → List ℕ → ℕ
crc_loop crc [] = crc
crc_loop crc (b ∷ bytes) = crc_loop (bit_xor (crc_table (bit_xor crc b % 256)) (crc / 256)) bytes

-- `~crc` on 32 bits.
unfoldable pub crc32 : List ℕ → ℕ
crc32 bytes = 2 ^ 32 - 1 - crc_loop 0xFFFF_FFFF bytes

pub crc32_bound : (bytes : List ℕ) → crc32 bytes < 2 ^ 32
unfolding crc32
crc32_bound bytes = omega arith
