-- ===== src/Checksum.antt =====
-- `crc32` of src/utils.cpp.
use lsmtree.Base.{
  ℕ, zero, suc, ◌-◌, ◌/◌, ◌%◌, ◌^◌, ◌<◌, bit_xor, bit_and, [], ◌∷◌, arith, ◌≡◌, refl,
}
use lsmtree.Text.{Str}

abbrev crc32_initial_value : ℕ
crc32_initial_value = 0xFFFFFFFF

abbrev crc32_polynomial : ℕ
crc32_polynomial = 0xEDB88320

-- The inner loop, for the rounds that are left. `0U - (checksum & 1U)` is taken modulo 2 ^ 32.
crc32_bits : ℕ → ℕ → ℕ
crc32_bits zero checksum = checksum
crc32_bits (suc bits) checksum =
    crc32_bits bits
      (bit_xor (checksum / 2) (bit_and crc32_polynomial ((2 ^ 32 - bit_and checksum 1) % 2 ^ 32)))

crc32_bytes : ℕ → Str → ℕ
crc32_bytes checksum [] = checksum
crc32_bytes checksum (byte ∷ rest) = crc32_bytes (crc32_bits 8 (bit_xor checksum byte)) rest

-- The result is a uint32_t.
unfoldable pub crc32 : Str → ℕ
unfolding crc32_bits crc32_bytes
crc32 bytes = bit_xor (crc32_bytes crc32_initial_value bytes) crc32_initial_value % 2 ^ 32

pub crc32-bound : (s : Str) → crc32 s < 2 ^ 32
unfolding crc32
crc32-bound s = omega arith

-- The check value of CRC-32: the checksum of "123456789".
crc32_check : crc32 (49 ∷ 50 ∷ 51 ∷ 52 ∷ 53 ∷ 54 ∷ 55 ∷ 56 ∷ 57 ∷ []) ≡ 0xCBF43926
unfolding crc32
crc32_check = refl
