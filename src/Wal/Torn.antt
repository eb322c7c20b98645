-- ===== src/Wal/Torn.antt =====
-- A segment whose last record is cut (wal_segment_scanner.cpp): the passes of the scanner over
-- whole records, and its pass over what is left of one.
use fun_exch_macher.Common.{
  ℕ, zero, suc, ◌+◌, ◌-◌, ◌<◌, ◌^◌, ◌≡◌, refl, sym, subst, ◌∙◌, true, false, ◌==◌, ==_iff,
  if◌then◌else◌, Option, List, [], ◌∷◌, ◌++◌, length, length-append, All, arith,
}
use mathlib.Core.List.{append_assoc}
use fun_exch_macher.Wal.Header.{WalSegmentHeader, record_bytes}
use fun_exch_macher.Wal.Encoding.{length-record_bytes, record_of_bytes-record_bytes}
use fun_exch_macher.Wal.Stream.{Stream, read, ignore, tellg}
use fun_exch_macher.Wal.Streaming.{good_stream, read-append}
use fun_exch_macher.Wal.Scanner.{
  WalSegmentScanResult, returns, continues, incomplete, scan_padding, scan_payload, scan_pass,
  scan_loop,
}
use fun_exch_macher.Wal.Writer.{WalSegmentWriter, make_header}
use fun_exch_macher.Wal.Made.{
  Entry, IsEntry, IsWriter, header_of, padding_after, header-payload_length, header-Fits,
  padding_after_bound, header-padding_of, header-is_next_header,
}
use fun_exch_macher.Wal.Scanned.{
  image_of, position_at, scan_pass-image, header-payload_crc, read_whole,
}
use fun_exch_macher.Wal.Appended.{IsOpen, advance, advance-IsOpen, images, last_after}

-- The writer after records.
unfoldable pub advance_all : WalSegmentWriter → List Entry → WalSegmentWriter
advance_all w [] = w
advance_all w (e ∷ es) = advance_all (advance w e) es

-- Whole records are passed over: what the loop answers is what it answers on the rest.
pub scan_loop-behind :
    (fuel : ℕ) (g : WalSegmentHeader) (w : WalSegmentWriter) (es : List Entry) (more : List ℕ)
    (r : WalSegmentScanResult) (p : ℕ) (answer : Option WalSegmentScanResult)
    → length es < fuel
    → IsOpen w
    → All IsEntry es
    → g.stream_id ≡ w.stream_id
    → g.epoch ≡ w.epoch
    → r.last_valid_position ≡ w.last_position
    → ((left : ℕ) (r' : WalSegmentScanResult)
        → fuel ≡ suc left + length es
        → r'.ok ≡ r.ok
        → r'.error ≡ r.error
        → r'.has_incomplete_trailing_record ≡ r.has_incomplete_trailing_record
        → r'.last_valid_position ≡ last_after w es
        → scan_loop
            (suc left)
            g
            (advance_all w es).next_sequence
            (good_stream more (p + length (images w es)))
            r'
          ≡ answer)
    → scan_loop fuel g w.next_sequence (good_stream (images w es ++ more) p) r ≡ answer
unfolding images last_after advance_all scan_loop
scan_loop-behind zero g w es more r p answer n o h a b l k = absurd (omega arith)
scan_loop-behind (suc fuel) g w [] more r p answer n o h a b l k =
    subst (λ q. scan_loop (suc fuel) g w.next_sequence (good_stream more q) r ≡ answer)
      (omega arith) (k fuel r (omega arith) refl refl refl l)
scan_loop-behind (suc fuel) g w (e ∷ es) more r p answer n o h a b l k =
    let rest = images (advance w e) es in
    let next =
      scan_loop-behind fuel g (advance w e) es more _ (p + length (image_of w e)) answer
        (omega arith) (advance-IsOpen w e o) h.1 a b refl
        (λ left r' m x y z t.
          subst
            (λ q.
              scan_loop (suc left) g (advance_all (advance w e) es).next_sequence
                (good_stream more q) r'
              ≡ answer)
            (omega (arith, length-append (image_of w e) rest))
            (k left r' (omega (arith, m)) x y z t)) in
    rw
      (
        append_assoc (image_of w e) rest more,
        scan_pass-image w e h.0 g r (rest ++ more) p o.numbers a b,
        scan_loop,
      )
      next

-- A read that comes to the end of the file.
read-short :
    (n : ℕ) (xs : List ℕ) (p : ℕ)
    → length xs < n
    → read n (good_stream xs p)
      ≡ (xs, record { rest = []; position = p + length xs; eof = true; fail = true })
unfolding read
read-short n xs p h = ground arith

-- A header that is cut.
pub scan_pass-torn_header :
    (g : WalSegmentHeader) (seq : ℕ) (torn : List ℕ) (p : ℕ) (r : WalSegmentScanResult)
    → 0 < length torn
    → length torn < 56
    → scan_pass g seq (good_stream torn p) r ≡ returns (incomplete r p)
unfolding scan_pass tellg
scan_pass-torn_header g seq torn p r some_there short =
    rw (read-short 56 torn p short) (ground arith)

module _ (w : WalSegmentWriter) (e : Entry) (ok : IsEntry e) (g : WalSegmentHeader) (v : IsWriter w)
    (a : g.stream_id ≡ w.stream_id) (b : g.epoch ≡ w.epoch) where
  scan_pass-header :
      (more : List ℕ) (p : ℕ) (r : WalSegmentScanResult)
      → scan_pass g w.next_sequence (good_stream (record_bytes (header_of w e) ++ more) p) r
        ≡ scan_payload r p (header_of w e) (good_stream more (p + 56))
  unfolding scan_pass tellg
  scan_pass-header more p r =
      let h = header_of w e in
      rw
        (
          read-append 56 (record_bytes h) more p (length-record_bytes h),
          length-record_bytes h,
          record_of_bytes-record_bytes h (header-Fits w e ok v),
          header-is_next_header w e ok g a b,
        )
        refl

  -- A payload that is cut.
  pub scan_pass-torn_payload :
      (torn : List ℕ) (p : ℕ) (r : WalSegmentScanResult)
      → length torn < length e.payload
      → scan_pass g w.next_sequence (good_stream (record_bytes (header_of w e) ++ torn) p) r
        ≡ returns (incomplete r p)
  unfolding scan_payload
  scan_pass-torn_payload torn p r short =
      let same = header-payload_length w e ok in
      let there : ((header_of w e).payload_length == 0) ≡ false = ground (arith, same) in
      let fewer : (length torn == (header_of w e).payload_length) ≡ false = ground (arith, same) in
      scan_pass-header torn p r
      ∙ rw
          (
            there,
            read-short (header_of w e).payload_length torn (p + 56) (omega (arith, same)),
            fewer,
          )
          refl

  -- A stream that `ignore` has run to its end, and that `tellg` then fails.
  abbrev spent : ℕ → Stream
  spent p = record { rest = []; position = p; eof = true; fail = true }

  -- A padding that is cut: the pass goes on, with an offset of -1.
  scan_padding-torn :
      (torn : List ℕ) (offset p : ℕ) (r : WalSegmentScanResult)
      → length torn < padding_after e
      → scan_padding r offset (header_of w e) (good_stream torn p)
        ≡ continues
            (spent (p + length torn))
            (record r { last_valid_position = position_at w; last_valid_offset = 2 ^ 64 - 1 })
  unfolding scan_padding tellg ignore make_header
  scan_padding-torn torn offset p r short =
      rw (header-padding_of w e ok) (ground (arith, padding_after_bound w e ok))

  pub scan_pass-torn_padding :
      (torn : List ℕ) (p : ℕ) (r : WalSegmentScanResult)
      → length torn < padding_after e
      → scan_pass g w.next_sequence
          (good_stream (record_bytes (header_of w e) ++ (e.payload ++ torn)) p)
          r
        ≡ continues
            (spent (p + 56 + length e.payload + length torn))
            (record r { last_valid_position = position_at w; last_valid_offset = 2 ^ 64 - 1 })
  unfolding scan_payload
  scan_pass-torn_padding torn p r short =
      let same = header-payload_length w e ok in
      let whole =
        subst
          (λ n.
            (if n == 0
              then ([], good_stream (e.payload ++ torn) (p + 56))
              else read n (good_stream (e.payload ++ torn) (p + 56)))
            ≡ (e.payload, good_stream torn (p + 56 + length e.payload)))
          (sym same) (read_whole e.payload torn (p + 56)) in
      scan_pass-header (e.payload ++ torn) p r
      ∙ rw (whole, (==_iff _ _).1 (sym same), (==_iff _ _).1 (sym (header-payload_crc w e ok)))
          (scan_padding-torn torn p (p + 56 + length e.payload) r short)

-- The pass after that takes the failed read for the end of the file.
pub scan_pass-spent :
    (g : WalSegmentHeader) (seq p : ℕ) (r : WalSegmentScanResult)
    → scan_pass g seq (record { rest = []; position = p; eof = true; fail = true }) r
      ≡ returns (record r { last_valid_offset = 2 ^ 64 - 1 })
unfolding scan_pass tellg read
scan_pass-spent g seq p r = refl
