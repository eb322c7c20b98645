-- ===== src/Wal/Total.antt =====
-- The scanner's loop (wal_segment_scanner.cpp) ends on every file: each pass that goes on has read a
-- header.
use fun_exch_macher.Common.{
  ℕ, zero, suc, ◌+◌, ◌≤◌, ◌<◌, ◌≡◌, refl, ap, subst, ◌⊎◌, true, false, not, ◌&&◌, ◌||◌, ◌==◌,
  Bool-cases, inl, inr, if◌then◌else◌, Option, none, some, List, [], ◌∷◌, length, arith,
}
use fun_exch_macher.OrderBook.Types.{increment}
use fun_exch_macher.Wal.Types.{
  no_error, no_position, invalid_segment_header, header_checksum_mismatch,
}
use fun_exch_macher.Wal.Bytes.{take, drop}
use fun_exch_macher.Wal.Checksum.{calculate_crc32}
use fun_exch_macher.Wal.Header.{
  WalSegmentHeader, WalRecordHeader, segment_header_size, record_of_bytes, segment_of_bytes,
  has_valid_segment_fields, calculate_segment_header_crc,
}
use fun_exch_macher.Wal.Stream.{Stream, open_stream, read, ignore, tellg}
use fun_exch_macher.Wal.Scanner.{
  WalSegmentScanResult, scan_failed, Pass, returns, incomplete, corrupted, is_next_header,
  continues, padding_of, scan_padding, scan_payload, scan_pass, scan_loop, scan,
}

pub length-drop : (n : ℕ) (xs : List ℕ) → n ≤ length xs → length (drop n xs) + n ≡ length xs
length-drop zero xs h = omega arith
length-drop (suc n) [] h = absurd (omega arith)
length-drop (suc n) (x ∷ xs) h = omega (arith, length-drop n xs (omega arith))

pub length-take : (n : ℕ) (xs : List ℕ) → n ≤ length xs → length (take n xs) ≡ n
length-take zero xs h = refl
length-take (suc n) [] h = absurd (omega arith)
length-take (suc n) (x ∷ xs) h = ap suc (length-take n xs (omega arith))

-- A read takes what it gives from the stream.
pub read-rest :
    (n : ℕ) (s : Stream) → length (read n s).1.rest + length (read n s).0 ≤ length s.rest
unfolding read
read-rest n s = ground (arith, length-drop n s.rest, length-take n s.rest)

pub ignore-rest : (n : ℕ) (s : Stream) → length (ignore n s).rest ≤ length s.rest
unfolding ignore
ignore-rest n s = ground (arith, length-drop n s.rest)

-- A pass that goes on leaves fewer bytes than `n`.
Shrinks : ℕ → Pass → Type 0
Shrinks n (returns r) = Unit {0}
Shrinks n (continues s r) = length s.rest < n

Shrinks-returns : (n : ℕ) (r : WalSegmentScanResult) → Shrinks n (returns r)
unfolding Shrinks
Shrinks-returns n r = tt

Shrinks-continues :
    (n : ℕ) (s : Stream) (r : WalSegmentScanResult) → length s.rest < n → Shrinks n (continues s r)
unfolding Shrinks
Shrinks-continues n s r h = h

tellg-rest : (s : Stream) → length (tellg s).1.rest ≡ length s.rest
unfolding tellg
tellg-rest s = ground arith

scan_padding-Shrinks :
    (n : ℕ) (r : WalSegmentScanResult) (offset : ℕ) (h : WalRecordHeader) (s : Stream)
    → length s.rest < n
    → Shrinks n (scan_padding r offset h s)
unfolding scan_padding
scan_padding-Shrinks n r offset h s less =
    let s' = if padding_of h == 0 then s else ignore (padding_of h) s in
    let fewer : length s'.rest ≤ length s.rest = ground (arith, ignore-rest (padding_of h) s) in
    elim (Bool-cases (not (padding_of h == 0) && s'.fail)) [
      | inl cut ↦ rw cut (Shrinks-returns n (incomplete r offset))
      | inr whole ↦
          rw whole (Shrinks-continues n (tellg s').1 _ (omega (arith, tellg-rest s', fewer, less)))
    ]

scan_payload-Shrinks :
    (n : ℕ) (r : WalSegmentScanResult) (offset : ℕ) (h : WalRecordHeader) (s : Stream)
    → length s.rest < n
    → Shrinks n (scan_payload r offset h s)
unfolding scan_payload
scan_payload-Shrinks n r offset h s less =
    let read_there = if h.payload_length == 0 then ([], s) else read h.payload_length s in
    let fewer : length read_there.1.rest ≤ length s.rest =
      ground (arith, read-rest h.payload_length s) in
    elim (Bool-cases (not (length read_there.0 == h.payload_length))) [
      | inl short ↦ rw short (Shrinks-returns n (incomplete r offset))
      | inr whole ↦ elim (Bool-cases (not (calculate_crc32 read_there.0 == h.payload_crc))) [
        | inl bad ↦ rw (whole, bad) (Shrinks-returns n (corrupted r offset))
        | inr good ↦
            rw (whole, good)
              (scan_padding-Shrinks n r offset h read_there.1 (omega (arith, fewer, less)))
      ]
    ]

scan_pass-Shrinks :
    (g : WalSegmentHeader) (seq : ℕ) (s : Stream) (r : WalSegmentScanResult)
    → Shrinks (length s.rest) (scan_pass g seq s r)
unfolding scan_pass
scan_pass-Shrinks g seq s r =
    let n = length s.rest in
    let at = tellg s in
    let head = read 56 at.1 in
    let h = record_of_bytes head.0 in
    elim (Bool-cases (length head.0 == 0 && head.1.eof)) [
      | inl ended ↦ rw ended (Shrinks-returns n _)
      | inr more ↦ elim (Bool-cases (not (length head.0 == 56))) [
        | inl short ↦ rw (more, short) (Shrinks-returns n (incomplete r at.0))
        | inr whole ↦ elim (Bool-cases (not (is_next_header g seq h))) [
          | inl bad ↦ rw (more, whole, bad) (Shrinks-returns n (corrupted r at.0))
          | inr good ↦
              rw (more, whole, good)
                (scan_payload-Shrinks n r at.0 h head.1
                  (ground (arith, read-rest 56 at.1, tellg-rest s, whole)))
        ]
      ]
    ]

Pass-cases :
    (p : Pass)
    → ((r : WalSegmentScanResult) × (p ≡ returns r))
      ⊎ ((s : Stream) × (r : WalSegmentScanResult) × (p ≡ continues s r))
Pass-cases (returns r) = inl (r, refl)
Pass-cases (continues s r) = inr (s, r, refl)

scan_loop-ends :
    (fuel : ℕ) (g : WalSegmentHeader) (seq : ℕ) (s : Stream) (r : WalSegmentScanResult)
    → length s.rest < fuel
    → (r' : WalSegmentScanResult) × (scan_loop fuel g seq s r ≡ some r')
unfolding scan_loop
scan_loop-ends zero g seq s r less = absurd (omega arith)
scan_loop-ends (suc fuel) g seq s r less = elim (Pass-cases (scan_pass g seq s r)) [
  | inl (r', e) ↦ (r', rw (e, scan_loop) refl)
  | inr (s', r', e) ↦
      let shorter : length s'.rest < length s.rest =
        unfold Shrinks in subst (Shrinks (length s.rest)) e (scan_pass-Shrinks g seq s r) in
      let (x, h) = scan_loop-ends fuel g (increment seq) s' r' (omega (arith, shorter, less)) in
      (x, rw (e, scan_loop) h)
]

-- Every file is scanned to a result: the fuel of the model is enough, whatever the bytes are.
pub scan-ends : (file : Option (List ℕ)) → (r : WalSegmentScanResult) × (scan file ≡ some r)
unfolding scan
scan-ends none = (_, refl)
scan-ends (some file) =
    let head = read segment_header_size (open_stream file) in
    let g = segment_of_bytes head.0 in
    let start : WalSegmentScanResult = record {
      ok = true;
      error = no_error;
      last_valid_position = no_position;
      last_valid_offset = segment_header_size;
      has_incomplete_trailing_record = false;
    } in
    elim (Bool-cases
      (not (length head.0 == segment_header_size) || not (has_valid_segment_fields g))) [
        | inl bad ↦ (scan_failed invalid_segment_header, rw bad refl)
        | inr good ↦ elim (Bool-cases (not (g.header_crc == calculate_segment_header_crc g))) [
          | inl bad ↦ (scan_failed header_checksum_mismatch, rw (good, bad) refl)
          | inr summed ↦
              let (r, h) =
                scan_loop-ends (length file + 2) g g.first_sequence head.1 start
                  (omega (arith, read-rest segment_header_size (open_stream file))) in
              (r, rw (good, summed) h)
        ]
      ]
