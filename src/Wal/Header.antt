-- ===== src/Wal/Header.antt =====
-- wal_segment_header and wal_record_header: the headers, their bytes in memory, their checksums
-- and their static checks. A record header has four bytes behind its last field, up to its size
-- of 56; they belong to the bytes that are written and summed, and are kept as a number.
use fun_exch_macher.Common.{ℕ, ◌+◌, ◌%◌, ◌^◌, Bool, not, ◌&&◌, ◌==◌, leb, List, [], ◌∷◌, ◌++◌}
use fun_exch_macher.Wal.Types.{record_magic, segment_magic, format_version, record_alignment}
use fun_exch_macher.Wal.Bytes.{to_bytes, of_bytes, take, drop}
use fun_exch_macher.Wal.Alignment.{align_up}
use fun_exch_macher.Wal.Checksum.{calculate_crc32}

abbrev pub segment_header_size : ℕ
segment_header_size = 40

abbrev pub record_header_size : ℕ
record_header_size = 56

pub record WalSegmentHeader : Type 0 where
  pub magic : ℕ
  pub version : ℕ
  pub header_size : ℕ
  pub stream_id : ℕ
  pub epoch : ℕ
  pub first_sequence : ℕ
  pub flags : ℕ
  pub header_crc : ℕ

pub record WalRecordHeader : Type 0 where
  pub magic : ℕ
  pub version : ℕ
  pub header_size : ℕ
  pub record_length : ℕ
  pub record_type : ℕ
  pub stream_id : ℕ
  pub epoch : ℕ
  pub sequence : ℕ
  pub payload_length : ℕ
  pub payload_crc : ℕ
  pub header_crc : ℕ
  pub tail : ℕ

-- The fields of a header with their widths in bytes, in memory order.
abbrev segment_fields : WalSegmentHeader → List (ℕ × ℕ)
segment_fields h =
    (4, h.magic)
    ∷ (2, h.version)
    ∷ (2, h.header_size)
    ∷ (8, h.stream_id)
    ∷ (8, h.epoch)
    ∷ (8, h.first_sequence)
    ∷ (4, h.flags)
    ∷ (4, h.header_crc)
    ∷ []

abbrev record_fields : WalRecordHeader → List (ℕ × ℕ)
record_fields h =
    (4, h.magic)
    ∷ (2, h.version)
    ∷ (2, h.header_size)
    ∷ (4, h.record_length)
    ∷ (4, h.record_type)
    ∷ (8, h.stream_id)
    ∷ (8, h.epoch)
    ∷ (8, h.sequence)
    ∷ (4, h.payload_length)
    ∷ (4, h.payload_crc)
    ∷ (4, h.header_crc)
    ∷ (4, h.tail)
    ∷ []

abbrev pub write_fields : List (ℕ × ℕ) → List ℕ
write_fields [] = []
write_fields ((w, v) ∷ fs) = to_bytes w v ++ write_fields fs

unfoldable pub segment_bytes : WalSegmentHeader → List ℕ
segment_bytes h = write_fields (segment_fields h)

unfoldable pub record_bytes : WalRecordHeader → List ℕ
record_bytes h = write_fields (record_fields h)

-- The number in `w` bytes at an offset.
abbrev pub field_at : ℕ → ℕ → List ℕ → ℕ
field_at offset w bytes = of_bytes (take w (drop offset bytes))

unfoldable pub segment_of_bytes : List ℕ → WalSegmentHeader
segment_of_bytes bs = record {
  magic = field_at 0 4 bs;
  version = field_at 4 2 bs;
  header_size = field_at 6 2 bs;
  stream_id = field_at 8 8 bs;
  epoch = field_at 16 8 bs;
  first_sequence = field_at 24 8 bs;
  flags = field_at 32 4 bs;
  header_crc = field_at 36 4 bs;
}

unfoldable pub record_of_bytes : List ℕ → WalRecordHeader
record_of_bytes bs = record {
  magic = field_at 0 4 bs;
  version = field_at 4 2 bs;
  header_size = field_at 6 2 bs;
  record_length = field_at 8 4 bs;
  record_type = field_at 12 4 bs;
  stream_id = field_at 16 8 bs;
  epoch = field_at 24 8 bs;
  sequence = field_at 32 8 bs;
  payload_length = field_at 40 4 bs;
  payload_crc = field_at 44 4 bs;
  header_crc = field_at 48 4 bs;
  tail = field_at 52 4 bs;
}

unfoldable pub has_valid_segment_fields : WalSegmentHeader → Bool
has_valid_segment_fields h =
    h.magic == segment_magic
    && (h.version == format_version
        && (h.header_size == segment_header_size
            && (not (h.stream_id == 0) && (not (h.epoch == 0) && not (h.first_sequence == 0)))))

unfoldable pub has_valid_record_fields : WalRecordHeader → Bool
has_valid_record_fields h =
    let expected_record_length =
      align_up ((record_header_size + h.payload_length) % 2 ^ 32) record_alignment in
    h.magic == record_magic
    && (h.version == format_version
        && (h.header_size == record_header_size
            && (leb record_header_size h.record_length
                && (h.record_length % record_alignment == 0
                    && h.record_length == expected_record_length))))

unfoldable pub calculate_segment_header_crc : WalSegmentHeader → ℕ
calculate_segment_header_crc h = calculate_crc32 (segment_bytes (record h { header_crc = 0 }))

unfoldable pub calculate_record_header_crc : WalRecordHeader → ℕ
calculate_record_header_crc h = calculate_crc32 (record_bytes (record h { header_crc = 0 }))
