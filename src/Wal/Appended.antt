-- ===== src/Wal/Appended.antt =====
-- Segments that WalSegmentWriter writes, as WalSegmentScanner scans them.
use fun_exch_macher.Common.{
  ℕ, zero, suc, ◌+◌, ◌≤◌, ◌<◌, ◌≡◌, refl, ap, sym, ◌∙◌, true, some, List, [], ◌∷◌, ◌++◌, length,
  length-append, All, arith,
}
use mathlib.Core.List.{append_assoc, append-nil}
use fun_exch_macher.OrderBook.Types.{increment}
use fun_exch_macher.Wal.Types.{WalPosition, no_error}
use fun_exch_macher.Wal.Header.{WalSegmentHeader}
use fun_exch_macher.Wal.Stream.{tellg}
use fun_exch_macher.Wal.Streaming.{good_stream, read-end}
use fun_exch_macher.Wal.Scanner.{WalSegmentScanResult, scan_pass, scan_loop, returns}
use fun_exch_macher.Wal.Writer.{WalSegmentWriter, wrote_all, write_bytes, write_record, append}
use fun_exch_macher.Wal.Made.{Entry, IsEntry, IsWriter}
use fun_exch_macher.Wal.Scanned.{image_of, position_at, length-image, scan_pass-image}

-- The writer after records whose writes succeed.
unfoldable pub append_all : WalSegmentWriter → List Entry → WalSegmentWriter
append_all w [] = w
append_all w (e ∷ es) = append_all (append w e.tail e.record_type e.payload wrote_all).1 es

-- One such record more.
abbrev pub advance : WalSegmentWriter → Entry → WalSegmentWriter
advance w e = record w {
  file = w.file ++ image_of w e;
  next_sequence = increment w.next_sequence;
  last_position = position_at w;
  pending_positions = w.pending_positions ++ (position_at w ∷ []);
}

pub record IsOpen (w : WalSegmentWriter) : Type 0 where
  pub good : w.good ≡ true
  pub error : w.writer_error ≡ no_error
  pub numbers : IsWriter w

pub append-advance :
    (w : WalSegmentWriter) (e : Entry)
    → IsOpen w
    → (append w e.tail e.record_type e.payload wrote_all).1 ≡ advance w e
unfolding append write_record write_bytes
append-advance w e o = rw (o.error, o.good) refl

pub advance-IsOpen : (w : WalSegmentWriter) (e : Entry) → IsOpen w → IsOpen (advance w e)
unfolding increment
advance-IsOpen w e o = record {
  good = o.good;
  error = o.error;
  numbers = record {
    stream_id = o.numbers.stream_id;
    epoch = o.numbers.epoch;
    next_sequence = omega arith;
  };
}

-- The bytes of records one after another.
unfoldable pub images : WalSegmentWriter → List Entry → List ℕ
images w [] = []
images w (e ∷ es) = image_of w e ++ images (advance w e) es

unfoldable pub last_after : WalSegmentWriter → List Entry → WalPosition
last_after w [] = w.last_position
last_after w (e ∷ es) = last_after (advance w e) es

pub append_all-file :
    (w : WalSegmentWriter) (es : List Entry)
    → IsOpen w
    → ((append_all w es).file ≡ w.file ++ images w es)
      × ((append_all w es).last_position ≡ last_after w es)
unfolding append_all images last_after
append_all-file w [] o = (sym (append-nil w.file), refl)
append_all-file w (e ∷ es) o =
    let (file, last) = append_all-file (advance w e) es (advance-IsOpen w e o) in
    rw (append-advance w e o, append_all)
      (file ∙ append_assoc w.file (image_of w e) (images (advance w e) es), last)

pub length-images :
    (w : WalSegmentWriter) (es : List Entry) → All IsEntry es → length es ≤ length (images w es)
unfolding images
length-images w [] h = omega arith
length-images w (e ∷ es) h = omega (
  arith,
  length-images (advance w e) es h.1,
  length-append (image_of w e) (images (advance w e) es),
  length-image w e h.0,
)

scan_pass-end :
    (g : WalSegmentHeader) (seq : ℕ) (r : WalSegmentScanResult) (p : ℕ)
    → scan_pass g seq (good_stream [] p) r ≡ returns (record r { last_valid_offset = p })
unfolding scan_pass tellg
scan_pass-end g seq r p = rw (read-end 55 p) refl

-- The loop of the scanner over records ends behind the last.
pub scan_loop-images :
    (fuel : ℕ) (g : WalSegmentHeader) (w : WalSegmentWriter) (es : List Entry)
    (r : WalSegmentScanResult) (p : ℕ)
    → length es < fuel
    → IsOpen w
    → All IsEntry es
    → g.stream_id ≡ w.stream_id
    → g.epoch ≡ w.epoch
    → r.last_valid_position ≡ w.last_position
    → scan_loop fuel g w.next_sequence (good_stream (images w es) p) r
      ≡ some (record r {
        last_valid_position = last_after w es;
        last_valid_offset = p + length (images w es);
      })
unfolding scan_loop images last_after
scan_loop-images zero g w es r p n o h a b l = absurd (omega arith)
scan_loop-images (suc fuel) g w [] r p n o h a b l =
    let behind : p ≡ p + 0 = omega arith in
    rw (scan_pass-end g w.next_sequence r p, scan_loop)
      (λ i. some (record r { last_valid_position = l i; last_valid_offset = behind i }))
scan_loop-images (suc fuel) g w (e ∷ es) r p n o h a b l =
    rw (scan_pass-image w e h.0 g r (images (advance w e) es) p o.numbers a b, scan_loop)
      (scan_loop-images fuel g (advance w e) es _ (p + length (image_of w e)) (omega arith)
          (advance-IsOpen w e o) h.1 a b refl
        ∙ ap
            (λ n. some (record r {
              last_valid_position = last_after (advance w e) es;
              last_valid_offset = n;
            }))
            (omega (arith, length-append (image_of w e) (images (advance w e) es))))
