-- ===== src/Wal/Alignment.antt =====
-- wal_alignment.cpp, on std::uint32_t: sums wrap at 2 ^ 32.
use fun_exch_macher.Common.{ℕ, ◌+◌, ◌-◌, ◌%◌, ◌^◌, ◌==◌, if◌then◌else◌}

unfoldable pub align_up : ℕ → ℕ → ℕ
align_up value alignment =
    if alignment == 0
    then value
    else let remainder = value % alignment in
      if remainder == 0 then value else (value + (alignment - remainder)) % 2 ^ 32

unfoldable pub padding_for : ℕ → ℕ → ℕ
padding_for value alignment = (align_up value alignment + 2 ^ 32 - value) % 2 ^ 32
