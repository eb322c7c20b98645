-- ===== src/Wal/Opening.antt =====
-- WalSegmentWriter (wal_segment_writer.cpp): its constructor, on a new segment or an existing one.
use fun_exch_macher.Common.{
  ℕ, Bool, true, false, not, ◌&&◌, ◌||◌, ◌==◌, if◌then◌else◌, Option, none, some, List, [], ◌∷◌,
  length,
}
use fun_exch_macher.OrderBook.Types.{increment}
use fun_exch_macher.Wal.Types.{
  segment_magic, format_version, WalError, no_error, cannot_open_file, cannot_write_file,
  invalid_segment_header, header_checksum_mismatch, incomplete_trailing_record, no_position,
  is_valid,
}
use fun_exch_macher.Wal.Bytes.{take}
use fun_exch_macher.Wal.Header.{
  segment_header_size, WalSegmentHeader, segment_of_bytes, segment_bytes, has_valid_segment_fields,
  calculate_segment_header_crc,
}
use fun_exch_macher.Wal.Stream.{open_stream, read}
use fun_exch_macher.Wal.Scanner.{WalSegmentScanResult, scan}
use fun_exch_macher.Wal.Reader.{is_no_error}
use fun_exch_macher.Wal.Writer.{WriteOutcome, WalSegmentWriter, fail_writer, write_bytes}

-- The header of an existing file, or an error.
unfoldable pub read_existing_segment_header : List ℕ → Bool → WalError × WalSegmentHeader
read_existing_segment_header file readable =
    let (bytes, s) = read segment_header_size (open_stream file) in
    let g = segment_of_bytes bytes in
    if not readable
    then (cannot_open_file, g)
    else if not (length bytes == segment_header_size)
    then (invalid_segment_header, g)
    else if not (has_valid_segment_fields g)
    then (invalid_segment_header, g)
    else if not (g.header_crc == calculate_segment_header_crc g)
    then (header_checksum_mismatch, g)
    else (no_error, g)

abbrev pub is_incomplete : WalError → Bool
is_incomplete incomplete_trailing_record = true
is_incomplete _ = false

-- The end of prepare_existing_segment, from the scan of the file.
unfoldable pub resume :
    WalSegmentWriter → WalSegmentHeader → WalSegmentScanResult → WalError × WalSegmentWriter
resume w g r =
    let file = if is_incomplete r.error then take r.last_valid_offset w.file else w.file in
    if not r.ok && not (is_incomplete r.error) then (r.error, w) else (
      no_error,
      record w {
        file = file;
        last_position = r.last_valid_position;
        last_committed_position = r.last_valid_position;
        next_sequence =
            if is_valid r.last_valid_position
            then increment r.last_valid_position.sequence
            else g.first_sequence;
      },
    )

-- A scan always ends: see Wal/Total.
abbrev scanned : Option WalSegmentScanResult → WalSegmentScanResult → WalSegmentScanResult
scanned none r = r
scanned (some r) _ = r

unfoldable pub prepare_existing_segment :
    WalSegmentWriter → ℕ → Bool → Option (WalError × WalSegmentWriter)
prepare_existing_segment w first_sequence readable =
    let (error, g) = read_existing_segment_header w.file readable in
    if not (is_no_error error)
    then some (error, w)
    else if not (g.stream_id == w.stream_id)
        || (not (g.epoch == w.epoch) || not (g.first_sequence == first_sequence))
    then some (invalid_segment_header, w)
    else elim (scan (some w.file)) [ none ↦ none | some r ↦ some (resume w g r) ]

unfoldable pub make_segment_header : WalSegmentWriter → WalSegmentHeader
make_segment_header w =
    let header : WalSegmentHeader = record {
      magic = segment_magic;
      version = format_version;
      header_size = segment_header_size;
      stream_id = w.stream_id;
      epoch = w.epoch;
      first_sequence = w.next_sequence;
      flags = 0;
      header_crc = 0;
    } in
    record header { header_crc = calculate_segment_header_crc header }

unfoldable pub write_segment_header : WalSegmentWriter → WriteOutcome → WalSegmentWriter
write_segment_header w outcome = write_bytes w (segment_bytes (make_segment_header w)) outcome

-- What the constructor finds at its path: nothing, a directory, or a file.
pub data PathState : Type 0 where
  absent directory : PathState
  holds : List ℕ → PathState

abbrev contents : PathState → List ℕ
contents absent = []
contents directory = []
contents (holds bytes) = bytes

abbrev pub blank_writer : List ℕ → ℕ → ℕ → ℕ → WalSegmentWriter
blank_writer file stream_id epoch first_sequence = record {
  file = file;
  good = true;
  stream_id = stream_id;
  epoch = epoch;
  next_sequence = first_sequence;
  last_position = no_position;
  last_committed_position = no_position;
  writer_error = no_error;
  pending_positions = [];
  committed_positions = [];
}

-- The constructor on a new or empty file. `opened` says whether the file opens for appending.
unfoldable pub create_segment : WalSegmentWriter → Bool → WriteOutcome → WalSegmentWriter
create_segment w opened outcome =
    let w' = write_segment_header (record w { good = opened }) outcome in
    if not w'.good then fail_writer w' cannot_write_file else w'

-- The constructor on a file that holds bytes.
unfoldable pub reopen_segment : WalSegmentWriter → ℕ → Bool → Bool → Option WalSegmentWriter
reopen_segment w first_sequence readable opened =
    elim (prepare_existing_segment w first_sequence readable) [
      | none ↦ none
      | some (e, w') ↦ some (
          if not (is_no_error e)
          then record w' { writer_error = e }
          else record w' { good = opened })
    ]

-- The constructor.
unfoldable pub open_writer :
    PathState → ℕ → ℕ → ℕ → Bool → Bool → WriteOutcome → Option WalSegmentWriter
open_writer absent stream_id epoch first_sequence readable opened outcome =
    some (create_segment (blank_writer [] stream_id epoch first_sequence) opened outcome)
open_writer directory stream_id epoch first_sequence readable opened outcome =
    some (fail_writer (blank_writer [] stream_id epoch first_sequence) cannot_write_file)
open_writer (holds []) stream_id epoch first_sequence readable opened outcome =
    some (create_segment (blank_writer [] stream_id epoch first_sequence) opened outcome)
open_writer (holds (x ∷ xs)) stream_id epoch first_sequence readable opened outcome =
    reopen_segment (blank_writer (x ∷ xs) stream_id epoch first_sequence) first_sequence readable
      opened
