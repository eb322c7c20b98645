-- ===== src/Wal/Checksum.antt =====
-- wal_checksum.cpp: CRC-32, a bit at a time, on std::uint32_t.
use Prim.Native.Nat.{bit_and, bit_xor}
use fun_exch_macher.Common.{ℕ, zero, suc, ◌-◌, ◌/◌, ◌%◌, ◌^◌, List, [], ◌∷◌}

-- `mask = 0U - (crc & 1U)`; `crc = (crc >> 1U) ^ (0xEDB88320U & mask)`.
unfoldable pub crc_bit : ℕ → ℕ
crc_bit crc =
    let mask = (2 ^ 32 - bit_and crc 1) % 2 ^ 32 in bit_xor (crc / 2) (bit_and 0xEDB88320 mask)

unfoldable pub crc_bits : ℕ → ℕ → ℕ
crc_bits zero crc = crc
crc_bits (suc n) crc = crc_bits n (crc_bit crc)

unfoldable pub crc_bytes : List ℕ → ℕ → ℕ
crc_bytes [] crc = crc
crc_bytes (b ∷ bs) crc = crc_bytes bs (crc_bits 8 (bit_xor crc b))

-- `~crc` is 2 ^ 32 - 1 - crc.
unfoldable pub calculate_crc32 : List ℕ → ℕ
calculate_crc32 bytes = 0xFFFFFFFF - crc_bytes bytes 0xFFFFFFFF
