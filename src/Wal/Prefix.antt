-- ===== src/Wal/Prefix.antt =====
-- The scan of a segment that was made and filled, with more bytes behind the records.
use fun_exch_macher.Common.{
  ℕ, suc, ◌+◌, ◌<◌, ◌≡◌, refl, ap, sym, subst, ◌∙◌, true, false, ==_iff, Option, some, List, [],
  ◌∷◌, ◌++◌, length, length-append, All, arith,
}
use mathlib.Core.List.{append_assoc}
use fun_exch_macher.Wal.Types.{no_error, no_position, WalPosition}
use fun_exch_macher.Wal.Header.{WalSegmentHeader, segment_bytes}
use fun_exch_macher.Wal.Encoding.{length-segment_bytes, segment_of_bytes-segment_bytes}
use fun_exch_macher.Wal.Stream.{read}
use fun_exch_macher.Wal.Streaming.{good_stream, read-append}
use fun_exch_macher.Wal.Scanner.{WalSegmentScanResult, scan_loop, scan}
use fun_exch_macher.Wal.Writer.{WalSegmentWriter}
use fun_exch_macher.Wal.Opening.{make_segment_header}
use fun_exch_macher.Wal.Made.{Entry, IsEntry}
use fun_exch_macher.Wal.Appended.{
  append_all, IsOpen, advance, advance-IsOpen, append-advance, images, append_all-file,
  length-images,
}
use fun_exch_macher.Wal.Written.{
  blank, new_segment, IsNamed, header_fits, header_valid, header_summed, first_is, stream_is,
  epoch_is, last_is, written_file, new_segment-IsOpen,
}
use fun_exch_macher.Wal.Torn.{advance_all, scan_loop-behind}

append_all-advance_all :
    (w : WalSegmentWriter) (es : List Entry) → IsOpen w → append_all w es ≡ advance_all w es
unfolding append_all advance_all
append_all-advance_all w [] o = refl
append_all-advance_all w (e ∷ es) o =
    rw (append-advance w e o, append_all)
      (append_all-advance_all (advance w e) es (advance-IsOpen w e o))

advance_all-IsOpen : (w : WalSegmentWriter) (es : List Entry) → IsOpen w → IsOpen (advance_all w es)
unfolding advance_all
advance_all-IsOpen w [] o = o
advance_all-IsOpen w (e ∷ es) o = advance_all-IsOpen (advance w e) es (advance-IsOpen w e o)

advance_all-names :
    (w : WalSegmentWriter) (es : List Entry)
    → ((advance_all w es).stream_id ≡ w.stream_id) × ((advance_all w es).epoch ≡ w.epoch)
unfolding advance_all
advance_all-names w [] = (refl, refl)
advance_all-names w (e ∷ es) = advance_all-names (advance w e) es

-- The scan has come to the bytes behind the records with this result so far.
pub record IsSoFar (last : WalPosition) (r : WalSegmentScanResult) : Type 0 where
  pub ok : r.ok ≡ true
  pub error : r.error ≡ no_error
  pub complete : r.has_incomplete_trailing_record ≡ false
  pub last_position : r.last_valid_position ≡ last

-- A segment that was made and filled, and then was given more bytes.
module _ (stream_id epoch first_sequence : ℕ) (es : List Entry)
    (ok : IsNamed stream_id epoch first_sequence) (entries : All IsEntry es) where
  abbrev pub written : WalSegmentWriter
  written = append_all (new_segment stream_id epoch first_sequence) es

  abbrev pub segment : WalSegmentHeader
  segment = make_segment_header (blank stream_id epoch first_sequence ok)

  opened : IsOpen (new_segment stream_id epoch first_sequence)
  opened = new_segment-IsOpen stream_id epoch first_sequence ok

  written_is : written ≡ advance_all (new_segment stream_id epoch first_sequence) es
  written_is = append_all-advance_all (new_segment stream_id epoch first_sequence) es opened

  pub written-IsOpen : IsOpen written
  written-IsOpen =
      subst IsOpen (sym written_is)
        (advance_all-IsOpen (new_segment stream_id epoch first_sequence) es opened)

  pub written-stream_id : segment.stream_id ≡ written.stream_id
  written-stream_id =
      stream_is stream_id epoch first_sequence ok
      ∙ sym (
          ap (λ w. w.stream_id) written_is
          ∙ (advance_all-names (new_segment stream_id epoch first_sequence) es).0)

  pub written-epoch : segment.epoch ≡ written.epoch
  written-epoch =
      epoch_is stream_id epoch first_sequence ok
      ∙ sym (
          ap (λ w. w.epoch) written_is
          ∙ (advance_all-names (new_segment stream_id epoch first_sequence) es).1)

  pub scan-behind :
      (more : List ℕ) (answer : Option WalSegmentScanResult)
      → ((left : ℕ) (r : WalSegmentScanResult)
          → 0 < left
          → IsSoFar written.last_position r
          → scan_loop
              (suc left)
              segment
              written.next_sequence
              (good_stream more (length written.file))
              r
            ≡ answer)
      → scan (some (written.file ++ more)) ≡ answer
  unfolding scan
  scan-behind more answer k =
      let w0 = new_segment stream_id epoch first_sequence in
      let body = images w0 es in
      let start : WalSegmentScanResult = record {
        ok = true;
        error = no_error;
        last_valid_position = no_position;
        last_valid_offset = 40;
        has_incomplete_trailing_record = false;
      } in
      let whole : written.file ++ more ≡ segment_bytes segment ++ (body ++ more) =
        ap (λ x. x ++ more) (written_file stream_id epoch first_sequence ok es)
        ∙ append_assoc (segment_bytes segment) body more in
      let size : length written.file ≡ 40 + length body =
        ap length (written_file stream_id epoch first_sequence ok es)
        ∙ omega (arith, length-append (segment_bytes segment) body, length-segment_bytes segment) in
      let long : length (written.file ++ more) ≡ 40 + length body + length more =
        omega (arith, length-append written.file more, size) in
      let head =
        ap (λ x. read 40 (good_stream x 0)) whole
        ∙ read-append 40 (segment_bytes segment) (body ++ more) 0 (length-segment_bytes segment) in
      let fuel = length (written.file ++ more) + 2 in
      let enough : length es + 2 < fuel = omega (arith, long, length-images w0 es entries) in
      let last = (append_all-file w0 es opened).1 in
      let loop =
        scan_loop-behind fuel segment w0 es more start 40 answer (omega (arith, enough)) opened
          entries (stream_is stream_id epoch first_sequence ok)
          (epoch_is stream_id epoch first_sequence ok) (last_is stream_id epoch first_sequence ok)
          (λ left r m x y z t.
            subst
              (λ n. scan_loop (suc left) segment n (good_stream more (40 + length body)) r ≡ answer)
              (ap (λ w. w.next_sequence) written_is)
              (subst
                (λ q.
                  scan_loop (suc left) segment written.next_sequence (good_stream more q) r
                  ≡ answer)
                size
                (k left r (omega (arith, m, enough))
                  (record { ok = x; error = y; complete = z; last_position = t ∙ sym last })))) in
      rw
        (
          head,
          segment_of_bytes-segment_bytes segment (header_fits stream_id epoch first_sequence ok),
          header_valid stream_id epoch first_sequence ok,
          length-segment_bytes segment,
          (==_iff _ _).1 (header_summed stream_id epoch first_sequence ok),
        )
        (subst (λ n. scan_loop fuel segment n (good_stream (body ++ more) 40) start ≡ answer)
          (sym (first_is stream_id epoch first_sequence ok)) loop)
