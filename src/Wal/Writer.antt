-- ===== src/Wal/Writer.antt =====
-- WalSegmentWriter (wal_segment_writer.cpp), with the contents of its file. Whether the system
-- takes the bytes is an argument of each operation.
use fun_exch_macher.Common.{
  ℕ, ◌+◌, ◌%◌, ◌^◌, Bool, true, false, not, ◌&&◌, if◌then◌else◌, Option, none, some, List, [], ◌∷◌,
  ◌++◌, length,
}
use fun_exch_macher.OrderBook.Types.{increment}
use fun_exch_macher.Wal.Types.{
  record_magic, format_version, record_alignment, WalError, no_error, cannot_write_file,
  cannot_flush_file, WalPosition, WalAppendResult, appended, append_failed, WalCommitResult,
  committed, commit_failed,
}
use fun_exch_macher.Wal.Bytes.{take, replicate}
use fun_exch_macher.Wal.Alignment.{align_up, padding_for}
use fun_exch_macher.Wal.Checksum.{calculate_crc32}
use fun_exch_macher.Wal.Header.{
  record_header_size, WalRecordHeader, record_bytes, calculate_record_header_crc,
}
use fun_exch_macher.Wal.Reader.{is_no_error}

-- How a write ends: all bytes are in the file, or only so many, and the stream has failed.
pub data WriteOutcome : Type 0 where
  wrote_all : WriteOutcome
  broke_after : ℕ → WriteOutcome

-- `good` is the state of the output stream.
pub record WalSegmentWriter : Type 0 where
  pub file : List ℕ
  pub good : Bool
  pub stream_id : ℕ
  pub epoch : ℕ
  pub next_sequence : ℕ
  pub last_position : WalPosition
  pub last_committed_position : WalPosition
  pub writer_error : WalError
  pub pending_positions : List WalPosition
  pub committed_positions : List WalPosition

-- The first error stays.
unfoldable pub fail_writer : WalSegmentWriter → WalError → WalSegmentWriter
fail_writer w e = record w {
  writer_error = if is_no_error w.writer_error then e else w.writer_error;
}

-- A write on the stream, which does nothing once it has failed.
unfoldable pub write_bytes : WalSegmentWriter → List ℕ → WriteOutcome → WalSegmentWriter
write_bytes w bytes wrote_all = if w.good then record w { file = w.file ++ bytes } else w
write_bytes w bytes (broke_after n) =
    if w.good then record w { file = w.file ++ take n bytes; good = false } else w

-- `tail` is what the four bytes behind the last field hold.
unfoldable pub make_header : WalSegmentWriter → ℕ → ℕ → List ℕ → ℕ → WalRecordHeader
make_header w tail record_type payload sequence =
    let payload_length = length payload % 2 ^ 32 in
    let raw_length = (record_header_size + payload_length) % 2 ^ 32 in
    let header : WalRecordHeader = record {
      magic = record_magic;
      version = format_version;
      header_size = record_header_size;
      record_length = align_up raw_length record_alignment;
      record_type = record_type;
      stream_id = w.stream_id;
      epoch = w.epoch;
      sequence = sequence;
      payload_length = payload_length;
      payload_crc = calculate_crc32 payload;
      header_crc = 0;
      tail = tail;
    } in
    record header { header_crc = calculate_record_header_crc header }

-- The bytes of a record: its header, its payload and the zeros behind it.
unfoldable pub record_image : WalSegmentWriter → ℕ → ℕ → List ℕ → List ℕ
record_image w tail record_type payload =
    let padding =
      padding_for ((record_header_size + length payload % 2 ^ 32) % 2 ^ 32) record_alignment in
    record_bytes (make_header w tail record_type payload w.next_sequence)
    ++ (payload ++ replicate padding 0)

unfoldable pub write_record :
    WalSegmentWriter → ℕ → ℕ → List ℕ → WriteOutcome → WalAppendResult × WalSegmentWriter
write_record w tail record_type payload outcome =
    let w' = write_bytes w (record_image w tail record_type payload) outcome in
    let position : WalPosition = record {
      stream_id = w.stream_id;
      epoch = w.epoch;
      sequence = w.next_sequence;
    } in
    if not w'.good
    then (
      record { status = append_failed; error = cannot_write_file; position = w.last_position },
      fail_writer w' cannot_write_file,
    )
    else (
      record { status = appended; error = no_error; position = position },
      record w' {
        next_sequence = increment w.next_sequence;
        last_position = position;
        pending_positions = w.pending_positions ++ (position ∷ []);
      },
    )

unfoldable pub append :
    WalSegmentWriter → ℕ → ℕ → List ℕ → WriteOutcome → WalAppendResult × WalSegmentWriter
append w tail record_type payload outcome =
    if not (is_no_error w.writer_error)
    then (record { status = append_failed; error = w.writer_error; position = w.last_position }, w)
    else if not w.good
    then (
      record { status = append_failed; error = cannot_write_file; position = w.last_position },
      fail_writer w cannot_write_file,
    )
    else write_record w tail record_type payload outcome

abbrev last_or : List WalPosition → WalPosition → WalPosition
last_or [] p = p
last_or (q ∷ qs) p = last_or qs q

-- `flushed` says whether the flush leaves the stream good.
unfoldable pub commit : WalSegmentWriter → Bool → WalCommitResult × WalSegmentWriter
commit w flushed =
    let good = w.good && flushed in
    let last = last_or w.pending_positions w.last_committed_position in
    if not (is_no_error w.writer_error)
    then (
      record { status = commit_failed; error = w.writer_error; committed_up_to = w.last_position },
      w,
    )
    else if not good
    then (
      record {
        status = commit_failed;
        error = cannot_flush_file;
        committed_up_to = w.last_position;
      },
      fail_writer (record w { good = false }) cannot_flush_file,
    )
    else (
      record { status = committed; error = no_error; committed_up_to = last },
      record w {
        pending_positions = [];
        committed_positions = w.committed_positions ++ w.pending_positions;
        last_committed_position = last;
      },
    )

unfoldable pub has_committed_position : WalSegmentWriter → Bool
has_committed_position w = elim (w.committed_positions) [ [] ↦ false | p ∷ ps ↦ true ]

unfoldable pub pending_count : WalSegmentWriter → ℕ
pending_count w = length w.pending_positions

unfoldable pub committed_queue_size : WalSegmentWriter → ℕ
committed_queue_size w = length w.committed_positions

-- The oldest committed position, if there is one.
unfoldable pub pop_committed_position : WalSegmentWriter → Option WalPosition × WalSegmentWriter
pop_committed_position w = elim (w.committed_positions) [
  | [] ↦ (none, w)
  | p ∷ ps ↦ (some p, record w { committed_positions = ps })
]
