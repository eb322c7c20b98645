-- ===== src/Wal/Scanned.antt =====
-- One record of WalSegmentWriter, scanned by WalSegmentScanner (wal_segment_scanner.cpp).
use fun_exch_macher.Common.{
  ℕ, zero, suc, ◌+◌, ◌<◌, ◌≡◌, refl, ap, sym, subst, false, ◌==◌, ==_iff, if◌then◌else◌, List, [],
  ◌∷◌, ◌++◌, length, length-append, arith,
}
use mathlib.Core.List.{append_assoc}
use fun_exch_macher.Wal.Types.{record_alignment, WalPosition}
use fun_exch_macher.Wal.Bytes.{replicate}
use fun_exch_macher.Wal.Alignment.{padding_for}
use fun_exch_macher.Wal.Checksum.{calculate_crc32}
use fun_exch_macher.Wal.Header.{WalSegmentHeader, record_bytes}
use fun_exch_macher.Wal.Encoding.{length-record_bytes, record_of_bytes-record_bytes}
use fun_exch_macher.Wal.Stream.{Stream, read, ignore, tellg}
use fun_exch_macher.Wal.Streaming.{good_stream, read-append, ignore-append, length-replicate}
use fun_exch_macher.Wal.Scanner.{
  WalSegmentScanResult, continues, scan_padding, scan_payload, scan_pass,
}
use fun_exch_macher.Wal.Writer.{WalSegmentWriter, make_header, record_image}
use fun_exch_macher.Wal.Made.{
  Entry, IsEntry, IsWriter, header_of, padding_after, header-payload_length, header-Fits,
  padding_after_bound, header-padding_of, header-is_next_header,
}

abbrev pub image_of : WalSegmentWriter → Entry → List ℕ
image_of w e = record_image w e.tail e.record_type e.payload

-- The position that the record gets.
abbrev pub position_at : WalSegmentWriter → WalPosition
position_at w = record { stream_id = w.stream_id; epoch = w.epoch; sequence = w.next_sequence }

-- The padding is skipped, and the payload read, also when there is none.
pub skip_zeros :
    (n : ℕ) (more : List ℕ) (p : ℕ)
    → n < 9223372036854775808
    → (if n == 0
        then good_stream (replicate n 0 ++ more) p
        else ignore n (good_stream (replicate n 0 ++ more) p))
      ≡ good_stream more (p + n)
skip_zeros zero more p small = ap (good_stream more) (omega arith)
skip_zeros (suc n) more p small =
    let later : (suc n == 0) ≡ false = ground arith in
    rw later (ignore-append (suc n) (replicate (suc n) 0) more p (length-replicate (suc n) 0) small)

pub read_whole :
    (xs ys : List ℕ) (p : ℕ)
    → (if length xs == 0
        then ([], good_stream (xs ++ ys) p)
        else read (length xs) (good_stream (xs ++ ys) p))
      ≡ (xs, good_stream ys (p + length xs))
read_whole [] ys p = ap (λ n. ([], good_stream ys n)) (omega arith)
read_whole (x ∷ xs) ys p =
    let later : (length (x ∷ xs) == 0) ≡ false = ground arith in
    rw later (read-append (length (x ∷ xs)) (x ∷ xs) ys p refl)

-- A stream at the end of a payload.
abbrev behind : Entry → List ℕ → ℕ → Stream
behind e more p = good_stream (replicate (padding_after e) 0 ++ more) p

module _ (w : WalSegmentWriter) (e : Entry) (ok : IsEntry e) where
  pub image-parts :
      image_of w e ≡ record_bytes (header_of w e) ++ (e.payload ++ replicate (padding_after e) 0)
  unfolding record_image
  image-parts =
      ap (λ n. record_bytes (header_of w e) ++ (e.payload ++ replicate n 0))
        (ap (λ n. padding_for n record_alignment) (omega (arith, ok.payload)))

  pub length-image : length (image_of w e) ≡ 56 + (length e.payload + padding_after e)
  length-image =
      rw
        (
          image-parts,
          length-append (record_bytes (header_of w e)) (e.payload ++ replicate (padding_after e) 0),
          length-append e.payload (replicate (padding_after e) 0),
          length-record_bytes (header_of w e),
          length-replicate (padding_after e) 0,
        )
        refl

  -- The padding is skipped.
  scan_padding-behind :
      (r : WalSegmentScanResult) (offset : ℕ) (more : List ℕ) (p : ℕ)
      → scan_padding r offset (header_of w e) (behind e more p)
        ≡ continues (good_stream more (p + padding_after e)) (record r {
          last_valid_position = position_at w;
          last_valid_offset = p + padding_after e;
        })
  unfolding scan_padding tellg make_header
  scan_padding-behind r offset more p =
      rw
        (header-padding_of w e ok, skip_zeros (padding_after e) more p (padding_after_bound w e ok))
        (ground arith)

  pub header-payload_crc : (header_of w e).payload_crc ≡ calculate_crc32 e.payload
  unfolding make_header
  header-payload_crc = refl

  scan_payload-behind :
      (r : WalSegmentScanResult) (offset : ℕ) (more : List ℕ) (p : ℕ)
      → scan_payload r offset
          (header_of w e)
          (good_stream (e.payload ++ (replicate (padding_after e) 0 ++ more)) p)
        ≡ continues (good_stream more (p + length e.payload + padding_after e)) (record r {
          last_valid_position = position_at w;
          last_valid_offset = p + length e.payload + padding_after e;
        })
  unfolding scan_payload
  scan_payload-behind r offset more p =
      let rest = replicate (padding_after e) 0 ++ more in
      let same = header-payload_length w e ok in
      let whole =
        subst
          (λ n.
            (if n == 0
              then ([], good_stream (e.payload ++ rest) p)
              else read n (good_stream (e.payload ++ rest) p))
            ≡ (e.payload, good_stream rest (p + length e.payload)))
          (sym same) (read_whole e.payload rest p) in
      rw (whole, (==_iff _ _).1 (sym same), (==_iff _ _).1 (sym header-payload_crc))
        (scan_padding-behind r offset more (p + length e.payload))

  -- A pass over the record goes on behind it.
  pub scan_pass-image :
      (g : WalSegmentHeader) (r : WalSegmentScanResult) (more : List ℕ) (p : ℕ)
      → IsWriter w
      → g.stream_id ≡ w.stream_id
      → g.epoch ≡ w.epoch
      → scan_pass g w.next_sequence (good_stream (image_of w e ++ more) p) r
        ≡ continues (good_stream more (p + length (image_of w e))) (record r {
          last_valid_position = position_at w;
          last_valid_offset = p + length (image_of w e);
        })
  unfolding scan_pass tellg
  scan_pass-image g r more p v a b =
      let h = header_of w e in
      let parts : image_of w e ++ more
          ≡ record_bytes h ++ (e.payload ++ (replicate (padding_after e) 0 ++ more)) =
        rw
          (
            image-parts,
            append_assoc (record_bytes h) (e.payload ++ replicate (padding_after e) 0) more,
            append_assoc e.payload (replicate (padding_after e) 0) more,
          )
          refl in
      let head =
        read-append 56 (record_bytes h) (e.payload ++ (replicate (padding_after e) 0 ++ more)) p
          (length-record_bytes h) in
      rw
        (
          parts,
          head,
          length-record_bytes h,
          record_of_bytes-record_bytes h (header-Fits w e ok v),
          header-is_next_header w e ok g a b,
        )
        (subst
          (λ n.
            scan_payload r p h
              (good_stream (e.payload ++ (replicate (padding_after e) 0 ++ more)) (p + 56))
            ≡ continues (good_stream more n)
                (record r { last_valid_position = position_at w; last_valid_offset = n }))
          (omega (arith, length-image)) (scan_payload-behind r p more (p + 56)))
