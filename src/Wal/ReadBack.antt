-- ===== src/Wal/ReadBack.antt =====
-- One record of WalSegmentWriter, read by WalSegmentReader (wal_segment_reader.cpp).
use fun_exch_macher.Common.{
  ℕ, ◌+◌, ◌≡◌, refl, ap, sym, subst, ◌∙◌, ◌==◌, ==_iff, if◌then◌else◌, some, List, [], ◌++◌, length,
  arith,
}
use mathlib.Core.List.{append_assoc}
use fun_exch_macher.Wal.Types.{no_error, record_read}
use fun_exch_macher.Wal.Bytes.{replicate}
use fun_exch_macher.Wal.Header.{record_bytes}
use fun_exch_macher.Wal.Encoding.{length-record_bytes, record_of_bytes-record_bytes}
use fun_exch_macher.Wal.Stream.{read}
use fun_exch_macher.Wal.Streaming.{good_stream, read-append}
use fun_exch_macher.Wal.Reader.{
  WalSegmentReader, WalRecordView, got, read_success, expected_sequence, read_payload,
  record_header_error, read_record, read_next,
}
use fun_exch_macher.Wal.Writer.{WalSegmentWriter, make_header}
use fun_exch_macher.Wal.Made.{
  Entry, IsEntry, IsWriter, header_of, padding_after, header-payload_length, header-Fits,
  padding_after_bound, header-padding_of, header-has_valid_record_fields, header-crc,
  header-stream_id, header-epoch, header-sequence,
}
use fun_exch_macher.Wal.Scanned.{
  image_of, position_at, image-parts, length-image, header-payload_crc, skip_zeros, read_whole,
}

-- The reader stands before the next record of the writer.
pub record IsBefore (r : WalSegmentReader) (w : WalSegmentWriter) : Type 0 where
  pub opened : r.open_result.status ≡ record_read
  pub stream_id : r.segment_header.stream_id ≡ w.stream_id
  pub epoch : r.segment_header.epoch ≡ w.epoch
  pub sequence : expected_sequence r ≡ w.next_sequence

abbrev pub view_of : WalSegmentWriter → Entry → WalRecordView
view_of w e = record { header = header_of w e; payload = e.payload }

module _ (w : WalSegmentWriter) (e : Entry) (ok : IsEntry e) (r : WalSegmentReader)
    (before : IsBefore r w) where
  record_header_error-header : record_header_error r (header_of w e) ≡ no_error
  unfolding record_header_error
  record_header_error-header =
      rw
        (
          header-has_valid_record_fields w e ok,
          (==_iff _ _).1 (header-crc w e ok),
          (==_iff _ _).1 (header-stream_id w e ok ∙ sym before.stream_id),
          (==_iff _ _).1 (header-epoch w e ok ∙ sym before.epoch),
          (==_iff _ _).1 (header-sequence w e ok ∙ sym before.sequence),
        )
        refl

  read_payload-image :
      (more : List ℕ) (p : ℕ)
      → read_payload r
          (header_of w e)
          (good_stream (e.payload ++ (replicate (padding_after e) 0 ++ more)) p)
        ≡ (got (view_of w e), good_stream more (p + length e.payload + padding_after e))
  unfolding read_payload
  read_payload-image more p =
      let rest = replicate (padding_after e) 0 ++ more in
      let same = header-payload_length w e ok in
      let whole =
        subst
          (λ n.
            (if n == 0
              then ([], good_stream (e.payload ++ rest) p)
              else read n (good_stream (e.payload ++ rest) p))
            ≡ (e.payload, good_stream rest (p + length e.payload)))
          (sym same) (read_whole e.payload rest p) in
      rw
        (
          whole,
          (==_iff _ _).1 (sym same),
          (==_iff _ _).1 (sym (header-payload_crc w e ok)),
          header-padding_of w e ok,
          skip_zeros (padding_after e) more (p + length e.payload) (padding_after_bound w e ok),
        )
        (ground arith)

  read_record-image :
      (more : List ℕ) (p : ℕ)
      → IsWriter w
      → r.file ≡ good_stream (image_of w e ++ more) p
      → read_record r ≡ (got (view_of w e), good_stream more (p + length (image_of w e)))
  unfolding read_record
  read_record-image more p v at =
      let h = header_of w e in
      let rest = e.payload ++ (replicate (padding_after e) 0 ++ more) in
      let parts : image_of w e ++ more ≡ record_bytes h ++ rest =
        rw
          (
            image-parts w e ok,
            append_assoc (record_bytes h) (e.payload ++ replicate (padding_after e) 0) more,
            append_assoc e.payload (replicate (padding_after e) 0) more,
          )
          refl in
      let head : read 56 r.file ≡ (record_bytes h, good_stream rest (p + 56)) =
        ap (read 56) (at ∙ ap (λ x. good_stream x p) parts)
        ∙ read-append 56 (record_bytes h) rest p (length-record_bytes h) in
      rw
        (
          head,
          length-record_bytes h,
          record_of_bytes-record_bytes h (header-Fits w e ok v),
          record_header_error-header,
        )
        (subst
          (λ n.
            read_payload r h (good_stream rest (p + 56)) ≡ (got (view_of w e), good_stream more n))
          (omega (arith, length-image w e ok)) (read_payload-image more (p + 56)))

  -- The answer to a read.
  pub read_next-image :
      (more : List ℕ) (p : ℕ)
      → IsWriter w
      → r.file ≡ good_stream (image_of w e ++ more) p
      → read_next r ≡ record {
        result = read_success (position_at w);
        view = some (view_of w e);
        reader = record r {
          file = good_stream more (p + length (image_of w e));
          last_position = position_at w;
        };
      }
  unfolding read_next make_header
  read_next-image more p v at =
      rw (read_record-image more p v at, before.opened, ap (λ s. s.fail) at) refl
