-- ===== src/Wal/Facade.antt =====
-- wal.cpp, wal_commit_policy.cpp and the typed adapters: what the other parts call. The facade's
-- writer and reader are those of the segment.
use fun_exch_macher.Common.{
  ℕ, Bool, true, false, not, ◌==◌, if◌then◌else◌, Option, none, some, List, length,
}
use fun_exch_macher.Wal.Types.{
  WalError, no_error, record_type_mismatch, payload_size_mismatch, WalPosition, WalAppendResult,
  WalCommitResult, committed, WalReadResult, read_failed,
}
use fun_exch_macher.Wal.Bytes.{take}
use fun_exch_macher.Wal.Scanner.{WalSegmentScanResult, scan}
use fun_exch_macher.Wal.Reader.{WalSegmentReader, WalRecordView, ReadNext, read_next}
use fun_exch_macher.Wal.Writer.{WalSegmentWriter, WriteOutcome, append, commit}
use fun_exch_macher.Wal.Opening.{is_incomplete}

-- The public record: type, position and payload.
pub record WalRecord : Type 0 where
  pub record_type : ℕ
  pub position : WalPosition
  pub payload : List ℕ

abbrev pub as_record : WalReadResult → Option WalRecordView → Option WalRecord
as_record r none = none
as_record r (some v) =
    some (record { record_type = v.header.record_type; position = r.position; payload = v.payload })

-- WalWriter::append_record and WalWriter::commit pass on to the writer of the segment.
abbrev pub append_record :
    WalSegmentWriter → ℕ → ℕ → List ℕ → WriteOutcome → WalAppendResult × WalSegmentWriter
append_record w tail record_type payload outcome = append w tail record_type payload outcome

abbrev pub commit_records : WalSegmentWriter → Bool → WalCommitResult × WalSegmentWriter
commit_records w flushed = commit w flushed

-- WalReader::read_next_record: the result, the record if one was read, and the reader.
unfoldable pub read_next_record :
    WalSegmentReader → WalReadResult × Option WalRecord × WalSegmentReader
read_next_record r = let n = read_next r in (n.result, as_record n.result n.view, n.reader)

pub record WalRecoveryResult : Type 0 where
  pub ok : Bool
  pub error : WalError
  pub last_valid_position : WalPosition
  pub last_valid_offset : ℕ
  pub recovered_incomplete_tail : Bool

unfoldable pub scan_result : WalSegmentScanResult → WalRecoveryResult
scan_result r = record {
  ok = r.ok;
  error = r.error;
  last_valid_position = r.last_valid_position;
  last_valid_offset = r.last_valid_offset;
  recovered_incomplete_tail = false;
}

-- The file is its contents, or `none` if it cannot be opened.
unfoldable pub scan_wal_segment : Option (List ℕ) → Option WalRecoveryResult
scan_wal_segment file = elim (scan file) [ none ↦ none | some r ↦ some (scan_result r) ]

-- recover_wal_segment once the file is scanned: the result and the file.
abbrev truncate : ℕ → Option (List ℕ) → Option (List ℕ)
truncate n none = none
truncate n (some file) = some (take n file)

unfoldable pub recover :
    Option (List ℕ) → WalSegmentScanResult → WalRecoveryResult × Option (List ℕ)
recover file r =
    if r.ok
    then (scan_result (record r { error = no_error }), file)
    else if is_incomplete r.error
    then (
      record {
        ok = true;
        error = no_error;
        last_valid_position = r.last_valid_position;
        last_valid_offset = r.last_valid_offset;
        recovered_incomplete_tail = true;
      },
      truncate r.last_valid_offset file,
    )
    else (scan_result r, file)

unfoldable pub recover_wal_segment : Option (List ℕ) → Option (WalRecoveryResult × Option (List ℕ))
recover_wal_segment file = elim (scan file) [ none ↦ none | some r ↦ some (recover file r) ]

-- The two commit policies.
unfoldable pub flush_commit : WalSegmentWriter → Bool → WalCommitResult × WalSegmentWriter
flush_commit w flushed = commit w flushed

unfoldable pub no_sync_commit : WalSegmentWriter → WalCommitResult
no_sync_commit w = record {
  status = committed;
  error = no_error;
  committed_up_to = w.last_position;
}

-- A typed adapter, for records with a type number and a memory image of a fixed size.
pub record RecordLayout (A : Type 0) : Type 0 where
  pub record_type : ℕ
  pub size : ℕ
  pub to_image : A → List ℕ
  pub of_image : List ℕ → A

module _ {A : Type 0} (layout : RecordLayout A) where
  unfoldable pub append_typed :
      WalSegmentWriter → ℕ → A → WriteOutcome → WalAppendResult × WalSegmentWriter
  append_typed w tail a outcome = append w tail layout.record_type (layout.to_image a) outcome

  -- The checks of TypedWalReader::read_next on a record that was read.
  unfoldable pub decode_view : WalReadResult → WalRecordView → WalReadResult × Option A
  decode_view r v =
      if not (v.header.record_type == layout.record_type)
      then (record r { status = read_failed; error = record_type_mismatch }, none)
      else if not (length v.payload == layout.size)
      then (record r { status = read_failed; error = payload_size_mismatch }, none)
      else (r, some (layout.of_image v.payload))

  abbrev pub typed_answer : ReadNext → Option WalRecordView → WalReadResult × Option A
  typed_answer n none = (n.result, none)
  typed_answer n (some v) = decode_view n.result v

  unfoldable pub read_next_typed : WalSegmentReader → (WalReadResult × Option A) × WalSegmentReader
  read_next_typed r = let n = read_next r in (typed_answer n n.view, n.reader)
