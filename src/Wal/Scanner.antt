-- ===== src/Wal/Scanner.antt =====
-- WalSegmentScanner::scan (wal_segment_scanner.cpp).
use fun_exch_macher.Common.{
  ℕ, zero, suc, ◌+◌, ◌-◌, ◌%◌, ◌^◌, Bool, true, false, not, ◌&&◌, ◌||◌, ◌==◌, if◌then◌else◌, Option,
  none, some, List, [], length,
}
use fun_exch_macher.OrderBook.Types.{increment}
use fun_exch_macher.Wal.Types.{
  WalError, no_error, cannot_open_file, invalid_segment_header, header_checksum_mismatch,
  incomplete_trailing_record, corrupted_middle_record, WalPosition, no_position,
}
use fun_exch_macher.Wal.Checksum.{calculate_crc32}
use fun_exch_macher.Wal.Header.{
  segment_header_size, record_header_size, WalSegmentHeader, WalRecordHeader, segment_of_bytes,
  record_of_bytes, has_valid_segment_fields, has_valid_record_fields, calculate_segment_header_crc,
  calculate_record_header_crc,
}
use fun_exch_macher.Wal.Stream.{Stream, open_stream, read, ignore, tellg}

pub record WalSegmentScanResult : Type 0 where
  pub ok : Bool
  pub error : WalError
  pub last_valid_position : WalPosition
  pub last_valid_offset : ℕ
  pub has_incomplete_trailing_record : Bool

abbrev pub scan_failed : WalError → WalSegmentScanResult
scan_failed e = record {
  ok = false;
  error = e;
  last_valid_position = no_position;
  last_valid_offset = 0;
  has_incomplete_trailing_record = false;
}

abbrev pub incomplete : WalSegmentScanResult → ℕ → WalSegmentScanResult
incomplete r offset = record r {
  ok = false;
  error = incomplete_trailing_record;
  last_valid_offset = offset;
  has_incomplete_trailing_record = true;
}

abbrev pub corrupted : WalSegmentScanResult → ℕ → WalSegmentScanResult
corrupted r offset = record r {
  ok = false;
  error = corrupted_middle_record;
  last_valid_offset = offset;
}

-- The difference of std::size_t values that gives the padding.
unfoldable pub padding_of : WalRecordHeader → ℕ
padding_of h = (h.record_length + 2 ^ 64 - record_header_size + 2 ^ 64 - h.payload_length) % 2 ^ 64

unfoldable pub is_next_header : WalSegmentHeader → ℕ → WalRecordHeader → Bool
is_next_header g expected_sequence h =
    has_valid_record_fields h
    && (h.header_crc == calculate_record_header_crc h
        && (h.stream_id == g.stream_id && (h.epoch == g.epoch && h.sequence == expected_sequence)))

-- One pass of the loop: it returns a result, or goes on with the stream and a longer valid prefix.
pub data Pass : Type 0 where
  returns : WalSegmentScanResult → Pass
  continues : Stream → WalSegmentScanResult → Pass

-- From the padding on.
unfoldable pub scan_padding : WalSegmentScanResult → ℕ → WalRecordHeader → Stream → Pass
scan_padding r record_offset h s =
    let padding = padding_of h in
    let s' = if padding == 0 then s else ignore padding s in
    let (offset, s'') = tellg s' in
    let position : WalPosition = record {
      stream_id = h.stream_id;
      epoch = h.epoch;
      sequence = h.sequence;
    } in
    if not (padding == 0) && s'.fail
    then returns (incomplete r record_offset)
    else continues s'' (record r { last_valid_position = position; last_valid_offset = offset })

-- From the payload on. An empty payload is not read.
unfoldable pub scan_payload : WalSegmentScanResult → ℕ → WalRecordHeader → Stream → Pass
scan_payload r record_offset h s =
    let (payload, s') = if h.payload_length == 0 then ([], s) else read h.payload_length s in
    if not (length payload == h.payload_length)
    then returns (incomplete r record_offset)
    else if not (calculate_crc32 payload == h.payload_crc)
    then returns (corrupted r record_offset)
    else scan_padding r record_offset h s'

unfoldable pub scan_pass : WalSegmentHeader → ℕ → Stream → WalSegmentScanResult → Pass
scan_pass g expected_sequence s r =
    let (record_offset, s') = tellg s in
    let (bytes, s'') = read record_header_size s' in
    let h = record_of_bytes bytes in
    if length bytes == 0 && s''.eof
    then returns (record r { last_valid_offset = record_offset })
    else if not (length bytes == record_header_size)
    then returns (incomplete r record_offset)
    else if not (is_next_header g expected_sequence h)
    then returns (corrupted r record_offset)
    else scan_payload r record_offset h s''

-- The loop on fuel; `none` means that the fuel ran out.
unfoldable pub scan_loop :
    ℕ → WalSegmentHeader → ℕ → Stream → WalSegmentScanResult → Option WalSegmentScanResult
scan_loop zero g expected_sequence s r = none
scan_loop (suc fuel) g expected_sequence s r = elim (scan_pass g expected_sequence s r) [
  | returns r' ↦ some r'
  | continues s' r' ↦ scan_loop fuel g (increment expected_sequence) s' r'
]

-- The contents of the file, or `none` for a file that cannot be opened. Each round but the last
-- reads a header, so two more rounds than bytes are enough.
unfoldable pub scan : Option (List ℕ) → Option WalSegmentScanResult
scan none = some (scan_failed cannot_open_file)
scan (some file) =
    let (bytes, s) = read segment_header_size (open_stream file) in
    let g = segment_of_bytes bytes in
    if not (length bytes == segment_header_size) || not (has_valid_segment_fields g)
    then some (scan_failed invalid_segment_header)
    else if not (g.header_crc == calculate_segment_header_crc g)
    then some (scan_failed header_checksum_mismatch)
    else scan_loop (length file + 2) g g.first_sequence s (record {
      ok = true;
      error = no_error;
      last_valid_position = no_position;
      last_valid_offset = segment_header_size;
      has_incomplete_trailing_record = false;
    })
