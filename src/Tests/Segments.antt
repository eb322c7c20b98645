-- ===== src/Tests/Segments.antt =====
-- The theorems on segments at a segment with one record, and on alignment.
use fun_exch_macher.Common.{ℕ, ◌-◌, ◌^◌, ◌<◌, ◌≡◌, true, false, some, [], ◌∷◌, ◌++◌, length, arith}
use fun_exch_macher.Wal.Types.{no_error, record_alignment, log_ended, end_of_log}
use fun_exch_macher.Wal.Bytes.{take}
use fun_exch_macher.Wal.Alignment.{align_up, padding_for}
use fun_exch_macher.Wal.Aligning.{IsAligned, align_up-IsAligned}
use fun_exch_macher.Wal.Header.{record_bytes}
use fun_exch_macher.Wal.Scanner.{WalSegmentScanResult, scan}
use fun_exch_macher.Wal.Reader.{open_reader}
use fun_exch_macher.Wal.Writer.{WalSegmentWriter, wrote_all}
use fun_exch_macher.Wal.Opening.{holds, open_writer}
use fun_exch_macher.Wal.Facade.{recover_wal_segment}
use fun_exch_macher.Wal.Made.{Entry, IsEntry, header_of, padding_after}
use fun_exch_macher.Wal.Scanned.{image_of, position_at}
use fun_exch_macher.Wal.Appended.{append_all}
use fun_exch_macher.Wal.Written.{new_segment, IsNamed, scan-append_all}
use fun_exch_macher.Wal.RoundTrip.{records, read_records, read_records-append_all}
use fun_exch_macher.Wal.Recovery.{recover_wal_segment-torn}
use fun_exch_macher.Wal.Reopening.{open_writer-resumes}
use fun_exch_macher.Wal.TornPadding.{scan-torn_padding}
use fun_exch_macher.Wal.Total.{scan-ends}

abbrev entry : Entry
entry = record { record_type = 300; tail = 0; payload = 7 ∷ 8 ∷ 9 ∷ [] }

entry-IsEntry : IsEntry entry
entry-IsEntry = record { record_type = omega arith; tail = omega arith; payload = omega arith }

named : IsNamed 1 2 5
named = record {
  stream_id = (ground arith, omega arith);
  epoch = (ground arith, omega arith);
  first_sequence = (ground arith, omega arith);
}

abbrev segment : WalSegmentWriter
segment = append_all (new_segment 1 2 5) (entry ∷ [])

scan-append_all_example :
    scan (some segment.file)
    ≡ some (record {
      ok = true;
      error = no_error;
      last_valid_position = segment.last_position;
      last_valid_offset = length segment.file;
      has_incomplete_trailing_record = false;
    })
scan-append_all_example = scan-append_all 1 2 5 (entry ∷ []) named (entry-IsEntry, tt)

read_records-append_all_example :
    read_records 2 (open_reader (some segment.file))
    ≡ some (
      records (new_segment 1 2 5) (entry ∷ []),
      record { status = log_ended; error = end_of_log; position = segment.last_position },
    )
read_records-append_all_example =
    read_records-append_all 2 1 2 5 (entry ∷ []) (omega arith) named (omega arith)
      (entry-IsEntry, tt)

recover_wal_segment-torn_example :
    recover_wal_segment (some (segment.file ++ take 57 (image_of segment entry)))
    ≡ some (
      record {
        ok = true;
        error = no_error;
        last_valid_position = segment.last_position;
        last_valid_offset = length segment.file;
        recovered_incomplete_tail = true;
      },
      some segment.file,
    )
recover_wal_segment-torn_example =
    recover_wal_segment-torn 1 2 5 (entry ∷ []) entry 57 named (entry-IsEntry, tt) entry-IsEntry
      (omega arith) (omega arith)

open_writer-resumes_example :
    open_writer (holds (segment.file ++ take 57 (image_of segment entry))) 1 2 5 true true wrote_all
    ≡ some (record segment {
      last_committed_position = segment.last_position;
      pending_positions = [];
      committed_positions = [];
    })
open_writer-resumes_example =
    open_writer-resumes 1 2 5 (entry ∷ []) entry 57 wrote_all named (entry-IsEntry, tt)
      (omega arith) entry-IsEntry (omega arith)

padded : length {A = ℕ} (0 ∷ 0 ∷ []) < padding_after entry
unfolding padding_for align_up
padded = omega arith

scan-torn_padding_example :
    scan (
      some (
        segment.file
        ++ (record_bytes (header_of segment entry) ++ (entry.payload ++ (0 ∷ 0 ∷ [])))))
    ≡ some (record {
      ok = true;
      error = no_error;
      last_valid_position = position_at segment;
      last_valid_offset = 2 ^ 64 - 1;
      has_incomplete_trailing_record = false;
    })
scan-torn_padding_example =
    scan-torn_padding 1 2 5 (entry ∷ []) entry (0 ∷ 0 ∷ []) named (entry-IsEntry, tt) entry-IsEntry
      padded

scan-ends_example : (r : WalSegmentScanResult) × (scan (some segment.file) ≡ some r)
scan-ends_example = scan-ends (some segment.file)

align_up-IsAligned_example :
    IsAligned 59 (align_up 59 record_alignment) (padding_for 59 record_alignment)
align_up-IsAligned_example = align_up-IsAligned 59 (omega arith)
