-- ===== src/Wal/Encoding.antt =====
-- The little-endian numbers and the headers of src/wal read back as they were written.
use fun_exch_macher.Common.{
  ℕ, zero, suc, ◌*◌, ◌/◌, ◌<◌, ◌≡◌, refl, ap, List, [], ◌∷◌, ◌++◌, length, arith,
}
use fun_exch_macher.Wal.Bytes.{to_bytes, of_bytes, take, drop}
use fun_exch_macher.Wal.Checksum.{calculate_crc32}
use fun_exch_macher.Wal.Header.{
  WalSegmentHeader, WalRecordHeader, segment_bytes, record_bytes, segment_of_bytes, record_of_bytes,
}

-- The numbers that `n` bytes hold.
abbrev pub bound : ℕ → ℕ
bound zero = 1
bound (suc n) = 256 * bound n

pub of_bytes-to_bytes : (n v : ℕ) → v < bound n → of_bytes (to_bytes n v) ≡ v
unfolding of_bytes to_bytes
of_bytes-to_bytes zero v h = omega arith
of_bytes-to_bytes (suc n) v h = omega (arith, of_bytes-to_bytes n (v / 256) (omega arith))

pub take-append : (xs ys : List ℕ) → take (length xs) (xs ++ ys) ≡ xs
take-append [] ys = refl
take-append (x ∷ xs) ys = ap (λ zs. x ∷ zs) (take-append xs ys)

pub drop-append : (xs ys : List ℕ) → drop (length xs) (xs ++ ys) ≡ ys
drop-append [] ys = refl
drop-append (x ∷ xs) ys = drop-append xs ys

-- The fields fit their widths.
pub record Fits (h : WalRecordHeader) : Type 0 where
  pub magic : h.magic < 4294967296
  pub version : h.version < 65536
  pub header_size : h.header_size < 65536
  pub record_length : h.record_length < 4294967296
  pub record_type : h.record_type < 4294967296
  pub stream_id : h.stream_id < 18446744073709551616
  pub epoch : h.epoch < 18446744073709551616
  pub sequence : h.sequence < 18446744073709551616
  pub payload_length : h.payload_length < 4294967296
  pub payload_crc : h.payload_crc < 4294967296
  pub header_crc : h.header_crc < 4294967296
  pub tail : h.tail < 4294967296

pub length-record_bytes : (h : WalRecordHeader) → length (record_bytes h) ≡ 56
unfolding record_bytes to_bytes
length-record_bytes h = refl

-- A record header whose fields fit is read back as it was written.
pub record_of_bytes-record_bytes :
    (h : WalRecordHeader) → Fits h → record_of_bytes (record_bytes h) ≡ h
unfolding record_of_bytes record_bytes to_bytes
record_of_bytes-record_bytes h f = λ i. record {
  magic = of_bytes-to_bytes 4 h.magic f.magic i;
  version = of_bytes-to_bytes 2 h.version f.version i;
  header_size = of_bytes-to_bytes 2 h.header_size f.header_size i;
  record_length = of_bytes-to_bytes 4 h.record_length f.record_length i;
  record_type = of_bytes-to_bytes 4 h.record_type f.record_type i;
  stream_id = of_bytes-to_bytes 8 h.stream_id f.stream_id i;
  epoch = of_bytes-to_bytes 8 h.epoch f.epoch i;
  sequence = of_bytes-to_bytes 8 h.sequence f.sequence i;
  payload_length = of_bytes-to_bytes 4 h.payload_length f.payload_length i;
  payload_crc = of_bytes-to_bytes 4 h.payload_crc f.payload_crc i;
  header_crc = of_bytes-to_bytes 4 h.header_crc f.header_crc i;
  tail = of_bytes-to_bytes 4 h.tail f.tail i;
}

pub record FitsSegment (h : WalSegmentHeader) : Type 0 where
  pub magic : h.magic < 4294967296
  pub version : h.version < 65536
  pub header_size : h.header_size < 65536
  pub stream_id : h.stream_id < 18446744073709551616
  pub epoch : h.epoch < 18446744073709551616
  pub first_sequence : h.first_sequence < 18446744073709551616
  pub flags : h.flags < 4294967296
  pub header_crc : h.header_crc < 4294967296

pub length-segment_bytes : (h : WalSegmentHeader) → length (segment_bytes h) ≡ 40
unfolding segment_bytes to_bytes
length-segment_bytes h = refl

-- So is a segment header.
pub segment_of_bytes-segment_bytes :
    (h : WalSegmentHeader) → FitsSegment h → segment_of_bytes (segment_bytes h) ≡ h
unfolding segment_of_bytes segment_bytes to_bytes
segment_of_bytes-segment_bytes h f = λ i. record {
  magic = of_bytes-to_bytes 4 h.magic f.magic i;
  version = of_bytes-to_bytes 2 h.version f.version i;
  header_size = of_bytes-to_bytes 2 h.header_size f.header_size i;
  stream_id = of_bytes-to_bytes 8 h.stream_id f.stream_id i;
  epoch = of_bytes-to_bytes 8 h.epoch f.epoch i;
  first_sequence = of_bytes-to_bytes 8 h.first_sequence f.first_sequence i;
  flags = of_bytes-to_bytes 4 h.flags f.flags i;
  header_crc = of_bytes-to_bytes 4 h.header_crc f.header_crc i;
}

pub calculate_crc32_bound : (bytes : List ℕ) → calculate_crc32 bytes < 4294967296
unfolding calculate_crc32
calculate_crc32_bound bytes = omega arith
