-- ===== src/Wal/Written.antt =====
-- A segment that WalSegmentWriter makes and fills scans without an error.
use fun_exch_macher.Common.{
  ℕ, ◌+◌, ◌<◌, ◌≡◌, ◌≢◌, refl, ap, sym, subst, ◌∙◌, true, false, ==_iff, some, List, [], ◌++◌,
  length, length-append, All, arith,
}
use fun_exch_macher.Wal.Types.{no_error, no_position}
use fun_exch_macher.Wal.Header.{
  segment_bytes, has_valid_segment_fields, calculate_segment_header_crc,
}
use fun_exch_macher.Wal.Encoding.{
  FitsSegment, length-segment_bytes, segment_of_bytes-segment_bytes, calculate_crc32_bound,
}
use fun_exch_macher.Wal.Streaming.{good_stream, read-append}
use fun_exch_macher.Wal.Scanner.{WalSegmentScanResult, scan_loop, scan}
use fun_exch_macher.Wal.Writer.{WalSegmentWriter, wrote_all, write_bytes}
use fun_exch_macher.Wal.Opening.{
  make_segment_header, write_segment_header, blank_writer, create_segment,
}
use fun_exch_macher.Wal.Made.{Entry, IsEntry}
use fun_exch_macher.Wal.Appended.{
  append_all, IsOpen, images, last_after, append_all-file, length-images, scan_loop-images,
}

-- A new segment.
abbrev pub new_segment : ℕ → ℕ → ℕ → WalSegmentWriter
new_segment stream_id epoch first_sequence =
    create_segment (blank_writer [] stream_id epoch first_sequence) true wrote_all

-- Numbers that a segment can be made with.
pub record IsNamed (stream epoch' first : ℕ) : Type 0 where
  pub stream_id : (stream ≢ 0) × (stream < 18446744073709551616)
  pub epoch : (epoch' ≢ 0) × (epoch' < 18446744073709551616)
  pub first_sequence : (first ≢ 0) × (first < 18446744073709551616)

module _ (stream_id epoch first_sequence : ℕ) (ok : IsNamed stream_id epoch first_sequence) where
  abbrev pub blank : WalSegmentWriter
  blank = blank_writer [] stream_id epoch first_sequence

  pub header_fits : FitsSegment (make_segment_header blank)
  unfolding make_segment_header calculate_segment_header_crc
  header_fits = record {
    magic = omega arith;
    version = omega arith;
    header_size = omega arith;
    stream_id = ok.stream_id.1;
    epoch = ok.epoch.1;
    first_sequence = ok.first_sequence.1;
    flags = omega arith;
    header_crc = calculate_crc32_bound _;
  }

  pub header_valid : has_valid_segment_fields (make_segment_header blank) ≡ true
  unfolding has_valid_segment_fields make_segment_header
  header_valid = ground (arith, ok.stream_id, ok.epoch, ok.first_sequence)

  pub header_summed :
      (make_segment_header blank).header_crc
      ≡ calculate_segment_header_crc (make_segment_header blank)
  unfolding make_segment_header calculate_segment_header_crc
  header_summed = refl

  new_segment-file :
      (new_segment stream_id epoch first_sequence).file ≡ segment_bytes (make_segment_header blank)
  unfolding create_segment write_segment_header write_bytes make_segment_header
  new_segment-file = refl

  pub new_segment-IsOpen : IsOpen (new_segment stream_id epoch first_sequence)
  unfolding create_segment write_segment_header write_bytes
  new_segment-IsOpen = record {
    good = refl;
    error = refl;
    numbers = record {
      stream_id = ok.stream_id.1;
      epoch = ok.epoch.1;
      next_sequence = ok.first_sequence.1;
    };
  }

  pub first_is :
      (make_segment_header blank).first_sequence
      ≡ (new_segment stream_id epoch first_sequence).next_sequence
  unfolding create_segment write_segment_header write_bytes make_segment_header
  first_is = refl

  pub stream_is :
      (make_segment_header blank).stream_id ≡ (new_segment stream_id epoch first_sequence).stream_id
  unfolding create_segment write_segment_header write_bytes make_segment_header
  stream_is = refl

  pub epoch_is :
      (make_segment_header blank).epoch ≡ (new_segment stream_id epoch first_sequence).epoch
  unfolding create_segment write_segment_header write_bytes make_segment_header
  epoch_is = refl

  pub last_is : no_position ≡ (new_segment stream_id epoch first_sequence).last_position
  unfolding create_segment write_segment_header write_bytes
  last_is = refl

  pub written_file :
      (es : List Entry)
      → (append_all (new_segment stream_id epoch first_sequence) es).file
        ≡ segment_bytes (make_segment_header blank)
          ++ images (new_segment stream_id epoch first_sequence) es
  written_file es =
      (append_all-file (new_segment stream_id epoch first_sequence) es new_segment-IsOpen).0
      ∙ ap (λ x. x ++ images (new_segment stream_id epoch first_sequence) es) new_segment-file

-- A segment that is made with nonzero numbers and filled with records of fewer than 2 ^ 32 - 63
-- bytes, all of whose writes succeed, scans without an error: the scan finds the last position that
-- the writer gave, and its offset is the length of the file.
pub scan-append_all :
    (stream_id epoch first_sequence : ℕ) (es : List Entry)
    → IsNamed stream_id epoch first_sequence
    → All IsEntry es
    → let w = append_all (new_segment stream_id epoch first_sequence) es in
      scan (some w.file)
      ≡ some (record {
        ok = true;
        error = no_error;
        last_valid_position = w.last_position;
        last_valid_offset = length w.file;
        has_incomplete_trailing_record = false;
      })
unfolding scan
scan-append_all stream_id epoch first_sequence es ok h =
    let w0 = new_segment stream_id epoch first_sequence in
    let g = make_segment_header (blank_writer [] stream_id epoch first_sequence) in
    let body = images w0 es in
    let size : 40 + length body ≡ length (segment_bytes g ++ body) =
      omega (arith, length-append (segment_bytes g) body, length-segment_bytes g) in
    let fuel : length es < length (segment_bytes g ++ body) + 2 =
      omega (arith, size, length-images w0 es h) in
    let head = read-append 40 (segment_bytes g) body 0 (length-segment_bytes g) in
    let opened = new_segment-IsOpen stream_id epoch first_sequence ok in
    let start : WalSegmentScanResult = record {
      ok = true;
      error = no_error;
      last_valid_position = no_position;
      last_valid_offset = 40;
      has_incomplete_trailing_record = false;
    } in
    let found : WalSegmentScanResult = record start {
      last_valid_position = (append_all w0 es).last_position;
      last_valid_offset = length (segment_bytes g ++ body);
    } in
    let loop =
      scan_loop-images (length (segment_bytes g ++ body) + 2) g w0 es start 40 fuel opened h
        (stream_is stream_id epoch first_sequence ok) (epoch_is stream_id epoch first_sequence ok)
        (last_is stream_id epoch first_sequence ok) in
    let middle : WalSegmentScanResult = record start {
      last_valid_position = last_after w0 es;
      last_valid_offset = 40 + length body;
    } in
    let ends : some middle ≡ some found = λ i. some (record start {
      last_valid_position = sym (append_all-file w0 es opened).1 i;
      last_valid_offset = size i;
    }) in
    rw
      (
        written_file stream_id epoch first_sequence ok es,
        head,
        segment_of_bytes-segment_bytes g (header_fits stream_id epoch first_sequence ok),
        header_valid stream_id epoch first_sequence ok,
        length-segment_bytes g,
        (==_iff _ _).1 (header_summed stream_id epoch first_sequence ok),
      )
      (subst
        (λ n.
          scan_loop (length (segment_bytes g ++ body) + 2) g n (good_stream body 40) start
          ≡ some found)
        (sym (first_is stream_id epoch first_sequence ok)) (loop ∙ ends))
