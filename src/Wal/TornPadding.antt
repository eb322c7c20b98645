-- ===== src/Wal/TornPadding.antt =====
-- What the scanner (wal_segment_scanner.cpp) makes of a record that is cut in its padding.
use fun_exch_macher.OrderBook.Types.{increment}
use fun_exch_macher.Wal.Header.{WalSegmentHeader}
use fun_exch_macher.Wal.Stream.{Stream}
use fun_exch_macher.Wal.Scanner.{scan_pass, continues}
use fun_exch_macher.Common.{
  ℕ, zero, suc, ◌∙◌, [], ◌-◌, ◌<◌, ◌^◌, ◌≡◌, refl, false, true, some, List, ◌++◌, length, All,
  arith,
}
use fun_exch_macher.Wal.Types.{no_error}
use fun_exch_macher.Wal.Header.{record_bytes}
use fun_exch_macher.Wal.Streaming.{good_stream}
use fun_exch_macher.Wal.Scanner.{WalSegmentScanResult, scan_loop, scan}
use fun_exch_macher.Wal.Opening.{make_segment_header}
use fun_exch_macher.Wal.Made.{Entry, IsEntry, header_of, padding_after}
use fun_exch_macher.Wal.Scanned.{position_at}
use fun_exch_macher.Wal.Appended.{append_all}
use fun_exch_macher.Wal.Written.{blank, new_segment, IsNamed}
use fun_exch_macher.Wal.Torn.{scan_pass-torn_padding, scan_pass-spent}
use fun_exch_macher.Wal.Prefix.{scan-behind, written-IsOpen, written-stream_id, written-epoch}

-- Behind a pass that runs the stream to its end, the next one ends the loop.
scan_loop-spent :
    (left : ℕ) (g : WalSegmentHeader) (seq p : ℕ) (s : Stream) (r r' : WalSegmentScanResult)
    → 0 < left
    → scan_pass g seq s r
      ≡ continues (record { rest = []; position = p; eof = true; fail = true }) r'
    → scan_loop (suc left) g seq s r ≡ some (record r' { last_valid_offset = 2 ^ 64 - 1 })
unfolding scan_loop
scan_loop-spent zero g seq p s r r' positive e = absurd (omega arith)
scan_loop-spent (suc left) g seq p s r r' positive e =
    rw (e, scan_loop, scan_pass-spent g (increment seq) p r') refl

-- A segment that ends within the padding of its last record is scanned as if it were whole, with
-- the position of that record, and with the offset 2 ^ 64 - 1. The segment was made with nonzero
-- numbers and filled with records of fewer than 2 ^ 32 - 63 bytes.
pub scan-torn_padding :
    (stream_id epoch first_sequence : ℕ) (es : List Entry) (e : Entry) (torn : List ℕ)
    → IsNamed stream_id epoch first_sequence
    → All IsEntry es
    → IsEntry e
    → length torn < padding_after e
    → let w = append_all (new_segment stream_id epoch first_sequence) es in
      scan (some (w.file ++ (record_bytes (header_of w e) ++ (e.payload ++ torn))))
      ≡ some (record {
        ok = true;
        error = no_error;
        last_valid_position = position_at w;
        last_valid_offset = 2 ^ 64 - 1;
        has_incomplete_trailing_record = false;
      })
scan-torn_padding stream_id epoch first_sequence es e torn ok entries entry short =
    let w = append_all (new_segment stream_id epoch first_sequence) es in
    let g = make_segment_header (blank stream_id epoch first_sequence ok) in
    let more = record_bytes (header_of w e) ++ (e.payload ++ torn) in
    let answer : WalSegmentScanResult = record {
      ok = true;
      error = no_error;
      last_valid_position = position_at w;
      last_valid_offset = 2 ^ 64 - 1;
      has_incomplete_trailing_record = false;
    } in
    scan-behind stream_id epoch first_sequence es ok entries more (some answer)
      (λ left r positive s.
        scan_loop-spent left g w.next_sequence _ (good_stream more (length w.file)) r _ positive (
          scan_pass-torn_padding w e entry g
            (written-IsOpen stream_id epoch first_sequence es ok entries).numbers
            (written-stream_id stream_id epoch first_sequence es ok entries)
            (written-epoch stream_id epoch first_sequence es ok entries) torn (length w.file) r
            short)
        ∙ λ i. some (record answer {
          ok = s.ok i;
          error = s.error i;
          has_incomplete_trailing_record = s.complete i;
        }))
