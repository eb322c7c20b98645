-- ===== src/Wal/Reopening.antt =====
-- Reopening a segment (wal_segment_writer.cpp) after a crash: the new writer goes on where the old
-- one was behind its last whole record.
use fun_exch_macher.Common.{
  ℕ, zero, suc, ◌+◌, ◌<◌, ◌≡◌, refl, ap, sym, ◌∙◌, true, false, not, ◌&&◌, ==_iff, if◌then◌else◌,
  some, List, [], ◌∷◌, ◌++◌, length, length-append, All, arith,
}
use mathlib.Core.List.{append_assoc, append-nil}
use fun_exch_macher.OrderBook.Types.{increment}
use fun_exch_macher.Wal.Types.{WalPosition, WalError, no_error, is_valid}
use fun_exch_macher.Wal.Bytes.{take}
use fun_exch_macher.Wal.Header.{WalSegmentHeader, segment_bytes}
use fun_exch_macher.Wal.Encoding.{length-segment_bytes, segment_of_bytes-segment_bytes, take-append}
use fun_exch_macher.Wal.Streaming.{read-append}
use fun_exch_macher.Wal.Scanner.{WalSegmentScanResult, scan}
use fun_exch_macher.Wal.Writer.{WalSegmentWriter, WriteOutcome, write_bytes}
use fun_exch_macher.Wal.Opening.{
  holds, blank_writer, make_segment_header, is_incomplete, resume, read_existing_segment_header,
  prepare_existing_segment, create_segment, write_segment_header, reopen_segment, open_writer,
}
use fun_exch_macher.Wal.Made.{Entry, IsEntry}
use fun_exch_macher.Wal.Scanned.{image_of, position_at}
use fun_exch_macher.Wal.Appended.{
  append_all, IsOpen, advance, advance-IsOpen, append-advance, images,
}
use fun_exch_macher.Wal.Written.{
  blank, new_segment, IsNamed, header_fits, header_valid, header_summed, written_file,
  new_segment-IsOpen, scan-append_all,
}
use fun_exch_macher.Wal.RoundTrip.{HasRoom, advance-HasRoom, new_segment-HasRoom}
use fun_exch_macher.Wal.Prefix.{written-IsOpen, written-stream_id, written-epoch}
use fun_exch_macher.Wal.Recovery.{scan-torn}

-- The sequence that a reopening finds from a last position.
abbrev sequence_after : WalPosition → ℕ → ℕ
sequence_after p first = if is_valid p then increment p.sequence else first

append_all-sequence :
    (w : WalSegmentWriter) (es : List Entry) (first : ℕ)
    → IsOpen w
    → HasRoom w (length es)
    → w.next_sequence ≡ sequence_after w.last_position first
    → (append_all w es).next_sequence ≡ sequence_after (append_all w es).last_position first
unfolding append_all
append_all-sequence w [] first o room e = e
append_all-sequence w (x ∷ xs) first o room e =
    let now : increment w.next_sequence ≡ sequence_after (position_at w) first =
      unfold is_valid in ground (arith, room.stream_id, room.epoch, room.started) in
    rw (append-advance w x o, append_all)
      (append_all-sequence (advance w x) xs first (advance-IsOpen w x o)
        (advance-HasRoom w x (length xs) room) now)

open_writer-holds :
    (file : List ℕ) (stream_id epoch first_sequence : ℕ) (outcome : WriteOutcome)
    → 0 < length file
    → open_writer (holds file) stream_id epoch first_sequence true true outcome
      ≡ reopen_segment (blank_writer file stream_id epoch first_sequence) first_sequence true true
unfolding open_writer
open_writer-holds [] stream_id epoch first_sequence outcome h = absurd (omega arith)
open_writer-holds (x ∷ xs) stream_id epoch first_sequence outcome h = refl

module _ (stream_id epoch first_sequence : ℕ) (es : List Entry)
    (ok : IsNamed stream_id epoch first_sequence) (entries : All IsEntry es)
    (room : first_sequence + length es < 18446744073709551616) where
  abbrev written : WalSegmentWriter
  written = append_all (new_segment stream_id epoch first_sequence) es

  abbrev segment : WalSegmentHeader
  segment = make_segment_header (blank stream_id epoch first_sequence ok)

  -- The old writer, with everything that it wrote counted as committed.
  abbrev resumed : WalSegmentWriter
  resumed = record written {
    last_committed_position = written.last_position;
    pending_positions = [];
    committed_positions = [];
  }

  whole :
      (more : List ℕ)
      → (written.file ++ more)
        ≡ segment_bytes segment ++ (images (new_segment stream_id epoch first_sequence) es ++ more)
  whole more =
      ap (λ x. x ++ more) (written_file stream_id epoch first_sequence ok es)
      ∙ append_assoc (segment_bytes segment)
          (images (new_segment stream_id epoch first_sequence) es) more

  read_existing_segment_header-written :
      (more : List ℕ)
      → read_existing_segment_header (written.file ++ more) true ≡ (no_error, segment)
  unfolding read_existing_segment_header
  read_existing_segment_header-written more =
      rw
        (
          whole more,
          read-append 40 (segment_bytes segment)
              (images (new_segment stream_id epoch first_sequence) es ++ more) 0
              (length-segment_bytes segment),
          segment_of_bytes-segment_bytes segment (header_fits stream_id epoch first_sequence ok),
          header_valid stream_id epoch first_sequence ok,
          length-segment_bytes segment,
          (==_iff _ _).1 (header_summed stream_id epoch first_sequence ok),
        )
        refl

  written-sequence : written.next_sequence ≡ sequence_after written.last_position first_sequence
  written-sequence =
      append_all-sequence (new_segment stream_id epoch first_sequence) es first_sequence
        (new_segment-IsOpen stream_id epoch first_sequence ok)
        (new_segment-HasRoom stream_id epoch first_sequence ok (length es) room)
        (unfold create_segment write_segment_header write_bytes is_valid in refl)

  -- What the scan of the file must give for the writer to go on.
  record IsScanned (file : List ℕ) (r : WalSegmentScanResult) : Type 0 where
    scanned : scan (some file) ≡ some r
    accepted : (not r.ok && not (is_incomplete r.error)) ≡ false
    kept : (if is_incomplete r.error then take r.last_valid_offset file else file) ≡ written.file
    last : r.last_valid_position ≡ written.last_position

  resume-written :
      (file : List ℕ) (r : WalSegmentScanResult)
      → IsScanned file r
      → resume (blank_writer file stream_id epoch first_sequence) segment r ≡ (no_error, resumed)
  unfolding resume make_segment_header
  resume-written file r s =
      let o = written-IsOpen stream_id epoch first_sequence es ok entries in
      rw s.accepted (λ i. (
        no_error,
        record {
          file = s.kept i;
          good = sym o.good i;
          stream_id = written-stream_id stream_id epoch first_sequence es ok entries i;
          epoch = written-epoch stream_id epoch first_sequence es ok entries i;
          next_sequence =
              (ap (λ p. sequence_after p first_sequence) s.last ∙ sym written-sequence) i;
          last_position = s.last i;
          last_committed_position = s.last i;
          writer_error = sym o.error i;
          pending_positions = [];
          committed_positions = [];
        },
      ))

  prepare_existing_segment-written :
      (more : List ℕ) (r : WalSegmentScanResult)
      → IsScanned (written.file ++ more) r
      → prepare_existing_segment
          (blank_writer (written.file ++ more) stream_id epoch first_sequence)
          first_sequence
          true
        ≡ some (no_error, resumed)
  unfolding prepare_existing_segment make_segment_header
  prepare_existing_segment-written more r s =
      rw
        (
          read_existing_segment_header-written more,
          prepare_existing_segment,
          (==_iff stream_id stream_id).1 refl,
          (==_iff epoch epoch).1 refl,
          (==_iff first_sequence first_sequence).1 refl,
          s.scanned,
        )
        (ap
            (λ (x : WalError × WalSegmentHeader).
              some
                (resume (blank_writer (written.file ++ more) stream_id epoch first_sequence) x.1 r))
            (read_existing_segment_header-written more)
          ∙ ap some (resume-written (written.file ++ more) r s))

  reopen_segment-written :
      (more : List ℕ) (r : WalSegmentScanResult)
      → IsScanned (written.file ++ more) r
      → reopen_segment
          (blank_writer (written.file ++ more) stream_id epoch first_sequence)
          first_sequence
          true
          true
        ≡ some resumed
  unfolding reopen_segment
  reopen_segment-written more r s =
      rw (prepare_existing_segment-written more r s, reopen_segment)
        (λ i. some (record resumed {
          good = sym (written-IsOpen stream_id epoch first_sequence es ok entries).good i;
        }))

  open_writer-written :
      (more : List ℕ) (r : WalSegmentScanResult) (outcome : WriteOutcome)
      → IsScanned (written.file ++ more) r
      → open_writer (holds (written.file ++ more)) stream_id epoch first_sequence true true outcome
        ≡ some resumed
  open_writer-written more r outcome s =
      let some_bytes : 0 < length (written.file ++ more) = omega (
        arith,
        ap length (whole more),
        length-segment_bytes segment,
        length-append (segment_bytes segment)
            (images (new_segment stream_id epoch first_sequence) es ++ more),
      ) in
      open_writer-holds (written.file ++ more) stream_id epoch first_sequence outcome some_bytes
      ∙ reopen_segment-written more r s

  open_writer-clean :
      (outcome : WriteOutcome)
      → open_writer (holds (written.file ++ [])) stream_id epoch first_sequence true true outcome
        ≡ some resumed
  open_writer-clean outcome = open_writer-written [] _ outcome (record {
    scanned =
        ap (λ x. scan (some x)) (append-nil written.file)
        ∙ scan-append_all stream_id epoch first_sequence es ok entries;
    accepted = refl;
    kept = append-nil written.file;
    last = refl;
  })

  open_writer-torn :
      (e : Entry) (n : ℕ) (outcome : WriteOutcome)
      → IsEntry e
      → 0 < n
      → n < 56 + length e.payload
      → open_writer
          (holds (written.file ++ take n (image_of written e)))
          stream_id
          epoch
          first_sequence
          true
          true
          outcome
        ≡ some resumed
  open_writer-torn e n outcome entry some_bytes short =
      open_writer-written (take n (image_of written e)) _ outcome (record {
        scanned = scan-torn stream_id epoch first_sequence es ok entries e entry n some_bytes short;
        accepted = refl;
        kept = take-append written.file (take n (image_of written e));
        last = refl;
      })

-- A writer that opens a segment which another made and filled, whether its file is whole or its
-- last record was cut in its header or its payload, goes on in the state of the other: with its
-- next sequence and its last position, which counts as committed, with nothing pending, and with
-- the file cut back to the whole records. The numbers are nonzero, the records have fewer than
-- 2 ^ 32 - 63 bytes, the sequence numbers do not reach 2 ^ 64, and the file can be opened.
pub open_writer-resumes :
    (stream_id epoch first_sequence : ℕ) (es : List Entry) (e : Entry) (n : ℕ)
    (outcome : WriteOutcome)
    → IsNamed stream_id epoch first_sequence
    → All IsEntry es
    → first_sequence + length es < 18446744073709551616
    → IsEntry e
    → n < 56 + length e.payload
    → let w = append_all (new_segment stream_id epoch first_sequence) es in
      open_writer
        (holds (w.file ++ take n (image_of w e)))
        stream_id
        epoch
        first_sequence
        true
        true
        outcome
      ≡ some (record w {
        last_committed_position = w.last_position;
        pending_positions = [];
        committed_positions = [];
      })
open_writer-resumes stream_id epoch first_sequence es e zero outcome ok entries room entry short =
    open_writer-clean stream_id epoch first_sequence es ok entries room outcome
open_writer-resumes stream_id epoch first_sequence es e (suc n) outcome ok entries room entry
      short =
    open_writer-torn stream_id epoch first_sequence es ok entries room e (suc n) outcome entry
      (omega arith) short
