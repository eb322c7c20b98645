-- ===== src/Wal/RoundTrip.antt =====
-- A segment that WalSegmentWriter fills, read record by record through WalReader::read_next_record.
use fun_exch_macher.Common.{
  ℕ, zero, suc, ◌+◌, ◌<◌, ◌≡◌, ◌≢◌, refl, ap, ◌∙◌, true, ==_iff, Option, none, some, List, [], ◌∷◌,
  ◌++◌, length, All, arith,
}
use fun_exch_macher.OrderBook.Types.{increment}
use fun_exch_macher.Wal.Types.{
  is_valid, no_position, WalReadResult, record_read, log_ended, end_of_log,
}
use fun_exch_macher.Wal.Header.{segment_bytes}
use fun_exch_macher.Wal.Encoding.{length-segment_bytes, segment_of_bytes-segment_bytes}
use fun_exch_macher.Wal.Stream.{read}
use fun_exch_macher.Wal.Streaming.{good_stream, read-append, read-end}
use fun_exch_macher.Wal.Reader.{
  WalSegmentReader, ReadNext, stops, open_reader, expected_sequence, read_record, read_next,
  segment_header_result, read_success,
}
use fun_exch_macher.Wal.Writer.{WalSegmentWriter, make_header, write_bytes}
use fun_exch_macher.Wal.Opening.{make_segment_header, create_segment, write_segment_header}
use fun_exch_macher.Wal.Facade.{WalRecord, as_record, read_next_record}
use fun_exch_macher.Wal.Made.{Entry, IsEntry}
use fun_exch_macher.Wal.Scanned.{image_of, position_at}
use fun_exch_macher.Wal.Appended.{
  append_all, IsOpen, advance, advance-IsOpen, images, last_after, append_all-file,
}
use fun_exch_macher.Wal.Written.{
  blank, new_segment, IsNamed, header_fits, header_valid, header_summed, first_is, stream_is,
  epoch_is, last_is, written_file, new_segment-IsOpen,
}
use fun_exch_macher.Wal.ReadBack.{IsBefore, read_next-image}

-- One read and, behind a record, what the later reads give.
abbrev then_read :
    WalReadResult
    → Option WalRecord
    → Option (List WalRecord × WalReadResult)
    → Option (List WalRecord × WalReadResult)
then_read result none rest = some ([], result)
then_read result (some x) none = none
then_read result (some x) (some (xs, e)) = some (x ∷ xs, e)

-- A client that reads until there is no record: what it has read, and the last result. `none` means
-- that the fuel ran out.
unfoldable pub read_records : ℕ → WalSegmentReader → Option (List WalRecord × WalReadResult)
read_records zero r = none
read_records (suc fuel) r =
    let (result, x, r') = read_next_record r in then_read result x (read_records fuel r')

-- The records that the writer appended, with the positions that it gave them.
unfoldable pub records : WalSegmentWriter → List Entry → List WalRecord
records w [] = []
records w (e ∷ es) =
    record { record_type = e.record_type; position = position_at w; payload = e.payload }
    ∷ records (advance w e) es

-- Nonzero numbers, with room for so many sequence numbers.
pub record HasRoom (w : WalSegmentWriter) (n : ℕ) : Type 0 where
  pub stream_id : w.stream_id ≢ 0
  pub epoch : w.epoch ≢ 0
  pub started : w.next_sequence ≢ 0
  pub room : w.next_sequence + n < 18446744073709551616

pub advance-HasRoom :
    (w : WalSegmentWriter) (e : Entry) (n : ℕ) → HasRoom w (suc n) → HasRoom (advance w e) n
unfolding increment
advance-HasRoom w e n h = record {
  stream_id = h.stream_id;
  epoch = h.epoch;
  started = ground (arith, h.room, h.started);
  room = omega (arith, h.room);
}

-- The reader behind a record.
abbrev pub reader_behind : WalSegmentReader → WalSegmentWriter → List ℕ → ℕ → WalSegmentReader
reader_behind r w more p = record r { file = good_stream more p; last_position = position_at w }

pub reader_behind-IsBefore :
    (r : WalSegmentReader) (w : WalSegmentWriter) (e : Entry) (n : ℕ) (more : List ℕ) (p : ℕ)
    → IsBefore r w
    → HasRoom w n
    → IsBefore (reader_behind r w more p) (advance w e)
unfolding expected_sequence is_valid
reader_behind-IsBefore r w e n more p b h = record {
  opened = b.opened;
  stream_id = b.stream_id;
  epoch = b.epoch;
  sequence = ground (arith, h.stream_id, h.epoch, h.started);
}

read_record-end :
    (r : WalSegmentReader) (p : ℕ)
    → r.file ≡ good_stream [] p
    → read_record r ≡ (
      stops (record { status = log_ended; error = end_of_log; position = r.last_position }),
      good_stream [] (p + 0),
    )
unfolding read_record
read_record-end r p at =
    let short : read 56 r.file
        ≡ ([], record { rest = []; position = p + 0; eof = true; fail = true }) =
      ap (read 56) at ∙ read-end 55 p in
    rw short refl

pub read_next-end :
    (r : WalSegmentReader) (p : ℕ)
    → r.open_result.status ≡ record_read
    → r.file ≡ good_stream [] p
    → read_next r ≡ record {
      result = record { status = log_ended; error = end_of_log; position = r.last_position };
      view = none;
      reader = record r { file = good_stream [] (p + 0) };
    }
unfolding read_next
read_next-end r p o at = rw (read_record-end r p at, o, ap (λ s. s.fail) at) refl

-- What the facade makes of an answer.
abbrev facade_answer : ReadNext → WalReadResult × Option WalRecord × WalSegmentReader
facade_answer n = (n.result, as_record n.result n.view, n.reader)

answer_of :
    (r : WalSegmentReader) (n : ReadNext) → read_next r ≡ n → read_next_record r ≡ facade_answer n
unfolding read_next_record
answer_of r n e = ap facade_answer e

-- All records come back, and then the end of the log.
read_records-images :
    (fuel : ℕ) (r : WalSegmentReader) (w : WalSegmentWriter) (es : List Entry) (p : ℕ)
    → length es < fuel
    → IsOpen w
    → All IsEntry es
    → IsBefore r w
    → HasRoom w (length es)
    → r.last_position ≡ w.last_position
    → r.file ≡ good_stream (images w es) p
    → read_records fuel r
      ≡ some (
        records w es,
        record { status = log_ended; error = end_of_log; position = last_after w es },
      )
unfolding read_records records images last_after
read_records-images zero r w es p n o h b room l at = absurd (omega arith)
read_records-images (suc fuel) r w [] p n o h b room l at =
    let answer : read_next_record r ≡ (
      record { status = log_ended; error = end_of_log; position = r.last_position },
      none,
      record r { file = good_stream [] (p + 0) },
    ) =
      answer_of r _ (read_next-end r p b.opened at) in
    rw (answer, read_records)
      (ap (λ x. some ([], record { status = log_ended; error = end_of_log; position = x })) l)
read_records-images (suc fuel) r w (e ∷ es) p n o h b room l at =
    let more = images (advance w e) es in
    let q = p + length (image_of w e) in
    let next =
      read_records-images fuel (reader_behind r w more q) (advance w e) es q (omega arith)
        (advance-IsOpen w e o) h.1 (reader_behind-IsBefore r w e (suc (length es)) more q b room)
        (advance-HasRoom w e (length es) room) refl refl in
    let answer : read_next_record r ≡ (
      read_success (position_at w),
      some (record { record_type = e.record_type; position = position_at w; payload = e.payload }),
      reader_behind r w more q,
    ) =
      unfold make_header in answer_of r _ (read_next-image w e h.0 r b more p o.numbers at) in
    rw (answer, read_records, next) refl

module _ (stream_id epoch first_sequence : ℕ) (ok : IsNamed stream_id epoch first_sequence) where
  pub open_reader-new_segment :
      (body : List ℕ)
      → open_reader (
          some
            (segment_bytes (make_segment_header (blank stream_id epoch first_sequence ok)) ++ body))
        ≡ record {
          file = good_stream body (0 + 40);
          segment_header = make_segment_header (blank stream_id epoch first_sequence ok);
          last_position = no_position;
          open_result = read_success no_position;
        }
  unfolding open_reader segment_header_result
  open_reader-new_segment body =
      let g = make_segment_header (blank stream_id epoch first_sequence ok) in
      rw
        (
          read-append 40 (segment_bytes g) body 0 (length-segment_bytes g),
          segment_of_bytes-segment_bytes g (header_fits stream_id epoch first_sequence ok),
          header_valid stream_id epoch first_sequence ok,
          (==_iff _ _).1 (header_summed stream_id epoch first_sequence ok),
        )
        refl

  pub new_reader-IsBefore :
      (body : List ℕ)
      → IsBefore
          (record {
            file = good_stream body (0 + 40);
            segment_header = make_segment_header (blank stream_id epoch first_sequence ok);
            last_position = no_position;
            open_result = read_success no_position;
          })
          (new_segment stream_id epoch first_sequence)
  unfolding expected_sequence is_valid
  new_reader-IsBefore body = record {
    opened = refl;
    stream_id = stream_is stream_id epoch first_sequence ok;
    epoch = epoch_is stream_id epoch first_sequence ok;
    sequence = first_is stream_id epoch first_sequence ok;
  }

  pub new_segment-HasRoom :
      (n : ℕ)
      → first_sequence + n < 18446744073709551616
      → HasRoom (new_segment stream_id epoch first_sequence) n
  unfolding create_segment write_segment_header write_bytes
  new_segment-HasRoom n h = record {
    stream_id = ok.stream_id.0;
    epoch = ok.epoch.0;
    started = ok.first_sequence.0;
    room = h;
  }

-- A segment that is made with nonzero numbers and filled with records of fewer than 2 ^ 32 - 63
-- bytes, all of whose writes succeed, and whose sequence numbers do not reach 2 ^ 64, is read back
-- by a client that reads often enough: it gets every record, with its type, payload and the
-- position that the writer gave, in order, and then the end of the log at the writer's last
-- position.
pub read_records-append_all :
    (fuel stream_id epoch first_sequence : ℕ) (es : List Entry)
    → length es < fuel
    → IsNamed stream_id epoch first_sequence
    → first_sequence + length es < 18446744073709551616
    → All IsEntry es
    → let w = append_all (new_segment stream_id epoch first_sequence) es in
      read_records fuel (open_reader (some w.file))
      ≡ some (
        records (new_segment stream_id epoch first_sequence) es,
        record { status = log_ended; error = end_of_log; position = w.last_position },
      )
read_records-append_all fuel stream_id epoch first_sequence es n ok room h =
    let w0 = new_segment stream_id epoch first_sequence in
    let body = images w0 es in
    let opened = new_segment-IsOpen stream_id epoch first_sequence ok in
    rw
      (
        written_file stream_id epoch first_sequence ok es,
        open_reader-new_segment stream_id epoch first_sequence ok body,
        (append_all-file w0 es opened).1,
      )
      (read_records-images fuel _ w0 es 40 n opened h
        (new_reader-IsBefore stream_id epoch first_sequence ok body)
        (new_segment-HasRoom stream_id epoch first_sequence ok (length es) room)
        (last_is stream_id epoch first_sequence ok) refl)
