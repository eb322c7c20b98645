-- ===== src/Wal/Reader.antt =====
-- WalSegmentReader (wal_segment_reader.cpp), over the contents of its file.
use fun_exch_macher.Common.{
  ℕ, Bool, true, false, not, ◌&&◌, ◌||◌, ◌==◌, if◌then◌else◌, Option, none, some, List, [], length,
}
use fun_exch_macher.OrderBook.Types.{increment}
use fun_exch_macher.Wal.Types.{
  WalError, no_error, cannot_open_file, cannot_read_file, invalid_segment_header,
  invalid_record_header, header_checksum_mismatch, payload_checksum_mismatch, unexpected_sequence,
  incomplete_trailing_record, end_of_log, WalPosition, no_position, is_valid, WalReadResult,
  WalReadStatus, record_read, log_ended, read_failed,
}
use fun_exch_macher.Wal.Checksum.{calculate_crc32}
use fun_exch_macher.Wal.Header.{
  segment_header_size, record_header_size, WalSegmentHeader, WalRecordHeader, segment_of_bytes,
  record_of_bytes, has_valid_segment_fields, has_valid_record_fields, calculate_segment_header_crc,
  calculate_record_header_crc,
}
use fun_exch_macher.Wal.Stream.{Stream, open_stream, read, ignore, clear}
use fun_exch_macher.Wal.Scanner.{padding_of}

pub record WalSegmentReader : Type 0 where
  pub file : Stream
  pub segment_header : WalSegmentHeader
  pub last_position : WalPosition
  pub open_result : WalReadResult

-- A validated record: its header and its payload.
pub record WalRecordView : Type 0 where
  pub header : WalRecordHeader
  pub payload : List ℕ

abbrev pub read_failure : WalError → WalPosition → WalReadResult
read_failure e p = record { status = read_failed; error = e; position = p }

abbrev pub position_of : WalRecordHeader → WalPosition
position_of h = record { stream_id = h.stream_id; epoch = h.epoch; sequence = h.sequence }

abbrev pub read_success : WalPosition → WalReadResult
read_success p = record { status = record_read; error = no_error; position = p }

unfoldable pub segment_header_result : WalSegmentHeader → Stream → WalReadResult
segment_header_result g s =
    if s.fail
    then read_failure cannot_read_file no_position
    else if not (has_valid_segment_fields g)
    then read_failure invalid_segment_header no_position
    else if not (g.header_crc == calculate_segment_header_crc g)
    then read_failure header_checksum_mismatch no_position
    else read_success no_position

-- The constructor, on the contents of the file, or on a file that cannot be opened.
unfoldable pub open_reader : Option (List ℕ) → WalSegmentReader
open_reader none = record {
  file = record { rest = []; position = 0; eof = false; fail = true };
  segment_header = segment_of_bytes [];
  last_position = no_position;
  open_result = read_failure cannot_open_file no_position;
}
open_reader (some bytes) =
    let (head, s) = read segment_header_size (open_stream bytes) in
    record {
      file = s;
      segment_header = segment_of_bytes head;
      last_position = no_position;
      open_result = segment_header_result (segment_of_bytes head) s;
    }

unfoldable pub expected_sequence : WalSegmentReader → ℕ
expected_sequence r =
    if is_valid r.last_position
    then increment r.last_position.sequence
    else r.segment_header.first_sequence

-- A record, or the result that is returned in its place.
pub data Read : Type 0 where
  got : WalRecordView → Read
  stops : WalReadResult → Read

-- read_payload and the padding. A failed read leaves the stream where it failed.
unfoldable pub read_payload : WalSegmentReader → WalRecordHeader → Stream → Read × Stream
read_payload r h s =
    let (payload, s') = if h.payload_length == 0 then ([], s) else read h.payload_length s in
    let padding = padding_of h in
    let s'' = if padding == 0 then s' else ignore padding s' in
    if not (length payload == h.payload_length)
    then (stops (read_failure incomplete_trailing_record r.last_position), s')
    else if not (calculate_crc32 payload == h.payload_crc)
    then (stops (read_failure payload_checksum_mismatch r.last_position), s')
    else if not (padding == 0) && s''.fail
    then (stops (read_failure cannot_read_file r.last_position), s'')
    else (got (record { header = h; payload = payload }), s'')

unfoldable pub record_header_error : WalSegmentReader → WalRecordHeader → WalError
record_header_error r h =
    if not (has_valid_record_fields h)
    then invalid_record_header
    else if not (h.header_crc == calculate_record_header_crc h)
    then header_checksum_mismatch
    else if not (h.stream_id == r.segment_header.stream_id)
        || not (h.epoch == r.segment_header.epoch)
    then invalid_record_header
    else if not (h.sequence == expected_sequence r)
    then unexpected_sequence
    else no_error

abbrev pub is_no_error : WalError → Bool
is_no_error no_error = true
is_no_error _ = false

unfoldable pub read_record : WalSegmentReader → Read × Stream
read_record r =
    let (bytes, s) = read record_header_size r.file in
    let h = record_of_bytes bytes in
    let error = record_header_error r h in
    if length bytes == 0 && s.eof
    then (
      stops (record { status = log_ended; error = end_of_log; position = r.last_position }),
      clear s,
    )
    else if not (length bytes == record_header_size)
    then (stops (read_failure incomplete_trailing_record r.last_position), s)
    else if not (is_no_error error)
    then (stops (read_failure error r.last_position), s)
    else read_payload r h s

abbrev pub is_record_read : WalReadStatus → Bool
is_record_read record_read = true
is_record_read log_ended = false
is_record_read read_failed = false

-- The answer of a read: the result, and the record if there is one.
pub record ReadNext : Type 0 where
  pub result : WalReadResult
  pub view : Option WalRecordView
  pub reader : WalSegmentReader

abbrev pub finish_read : WalSegmentReader → Read × Stream → ReadNext
finish_read r (stops e, s) = record { result = e; view = none; reader = record r { file = s } }
finish_read r (got v, s) = record {
  result = read_success (position_of v.header);
  view = some v;
  reader = record r { file = s; last_position = position_of v.header };
}

unfoldable pub read_next : WalSegmentReader → ReadNext
read_next r =
    if not (is_record_read r.open_result.status)
    then record { result = r.open_result; view = none; reader = r }
    else if r.file.fail
    then record { result = read_failure cannot_read_file r.last_position; view = none; reader = r }
    else finish_read r (read_record r)
