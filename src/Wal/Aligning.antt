-- ===== src/Wal/Aligning.antt =====
-- Alignment (wal_alignment.cpp) at DefaultRecordAlignment.
use fun_exch_macher.Common.{ℕ, ◌+◌, ◌%◌, ◌≤◌, ◌<◌, ◌^◌, ◌≡◌, arith}
use fun_exch_macher.Wal.Types.{record_alignment}
use fun_exch_macher.Wal.Alignment.{align_up, padding_for}

pub record IsAligned (value aligned padding : ℕ) : Type 0 where
  pub multiple : aligned % record_alignment ≡ 0
  pub covers : aligned ≡ value + padding
  pub least : padding < record_alignment

-- A length whose record still fits 32 bits is rounded up to the next multiple of the alignment, and
-- the padding is the difference.
pub align_up-IsAligned :
    (value : ℕ)
    → value + record_alignment ≤ 2 ^ 32
    → IsAligned value (align_up value record_alignment) (padding_for value record_alignment)
unfolding align_up padding_for
align_up-IsAligned value h = record {
  multiple = ground arith;
  covers = ground arith;
  least = ground arith;
}
