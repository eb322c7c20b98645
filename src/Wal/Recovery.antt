-- ===== src/Wal/Recovery.antt =====
-- Recovery (wal.cpp) of a segment whose last record was cut while it was written.
use fun_exch_macher.Common.{
  ℕ, zero, suc, ◌+◌, ◌-◌, ◌≤◌, ◌<◌, ◌≡◌, refl, ap, sym, subst, ◌∙◌, inl, inr, true, false,
  Bool-cases, ltb, some, List, [], ◌∷◌, ◌++◌, length, length-append, All, arith,
}
use fun_exch_macher.Wal.Types.{no_error, incomplete_trailing_record}
use fun_exch_macher.Wal.Bytes.{take, replicate}
use fun_exch_macher.Wal.Header.{WalSegmentHeader, record_bytes}
use fun_exch_macher.Wal.Encoding.{length-record_bytes, take-append}
use fun_exch_macher.Wal.Streaming.{good_stream}
use fun_exch_macher.Wal.Scanner.{
  WalSegmentScanResult, scan_pass, scan_loop, scan, returns, incomplete,
}
use fun_exch_macher.Wal.Writer.{WalSegmentWriter}
use fun_exch_macher.Wal.Opening.{make_segment_header}
use fun_exch_macher.Wal.Facade.{recover, recover_wal_segment}
use fun_exch_macher.Wal.Made.{Entry, IsEntry, header_of, padding_after}
use fun_exch_macher.Wal.Scanned.{image_of, image-parts, length-image}
use fun_exch_macher.Wal.Appended.{append_all}
use fun_exch_macher.Wal.Written.{blank, new_segment, IsNamed}
use fun_exch_macher.Wal.Torn.{scan_pass-torn_header, scan_pass-torn_payload}
use fun_exch_macher.Wal.Prefix.{
  IsSoFar, scan-behind, written-IsOpen, written-stream_id, written-epoch,
}

length-take : (n : ℕ) (xs : List ℕ) → n ≤ length xs → length (take n xs) ≡ n
length-take zero xs h = refl
length-take (suc n) [] h = absurd (omega arith)
length-take (suc n) (x ∷ xs) h = ap suc (length-take n xs (omega arith))

take-longer : (xs ys : List ℕ) (m : ℕ) → take (length xs + m) (xs ++ ys) ≡ xs ++ take m ys
take-longer [] ys m =
    let none_before : length {A = ℕ} [] + m ≡ m = omega arith in ap (λ k. take k ys) none_before
take-longer (x ∷ xs) ys m =
    let one_more : length (x ∷ xs) + m ≡ suc (length xs + m) = omega arith in
    ap (λ k. take k (x ∷ (xs ++ ys))) one_more ∙ ap (λ zs. x ∷ zs) (take-longer xs ys m)

module _ (stream_id epoch first_sequence : ℕ) (es : List Entry)
    (ok : IsNamed stream_id epoch first_sequence) (entries : All IsEntry es) where
  abbrev written : WalSegmentWriter
  written = append_all (new_segment stream_id epoch first_sequence) es

  abbrev segment : WalSegmentHeader
  segment = make_segment_header (blank stream_id epoch first_sequence ok)

  -- The next record, of which only `n` bytes are in the file.
  module _ (e : Entry) (entry : IsEntry e) (n : ℕ) where
    abbrev pub torn_result : WalSegmentScanResult
    torn_result = record {
      ok = false;
      error = incomplete_trailing_record;
      last_valid_position = written.last_position;
      last_valid_offset = length written.file;
      has_incomplete_trailing_record = true;
    }

    scan_loop-torn :
        (left : ℕ) (r : WalSegmentScanResult) (more : List ℕ)
        → IsSoFar written.last_position r
        → scan_pass segment written.next_sequence (good_stream more (length written.file)) r
          ≡ returns (incomplete r (length written.file))
        → scan_loop
            (suc left)
            segment
            written.next_sequence
            (good_stream more (length written.file))
            r
          ≡ some torn_result
    unfolding scan_loop
    scan_loop-torn left r more s e =
        rw (e, scan_loop)
          (ap (λ x. some (record torn_result { last_valid_position = x })) s.last_position)

    scan-torn_header :
        0 < n
        → n < 56
        → scan (some (written.file ++ take n (image_of written e))) ≡ some torn_result
    scan-torn_header some_bytes short =
        let size : length (take n (image_of written e)) ≡ n =
          length-take n (image_of written e) (omega (arith, length-image written e entry)) in
        scan-behind stream_id epoch first_sequence es ok entries (take n (image_of written e))
          (some torn_result)
          (λ left r positive s. scan_loop-torn left r (take n (image_of written e)) s (
            scan_pass-torn_header segment written.next_sequence (take n (image_of written e))
              (length written.file) r (omega (arith, size)) (omega (arith, size))))

    scan-torn_payload :
        56 ≤ n
        → n < 56 + length e.payload
        → scan (some (written.file ++ take n (image_of written e))) ≡ some torn_result
    scan-torn_payload most short =
        let m = n - 56 in
        let behind = e.payload ++ replicate (padding_after e) 0 in
        let head = record_bytes (header_of written e) in
        let split : take n (image_of written e) ≡ head ++ take m behind =
          ap (take n) (image-parts written e entry)
          ∙ ap (λ k. take k (head ++ behind))
              (omega (arith, length-record_bytes (header_of written e)))
          ∙ take-longer head behind m in
        let size : length (take m behind) ≡ m =
          length-take m behind
            (omega (arith, length-append e.payload (replicate (padding_after e) 0))) in
        subst (λ x. scan (some (written.file ++ x)) ≡ some torn_result) (sym split)
          (scan-behind stream_id epoch first_sequence es ok entries (head ++ take m behind)
            (some torn_result)
            (λ left r positive s. scan_loop-torn left r (head ++ take m behind) s (
              scan_pass-torn_payload written e entry segment
                (written-IsOpen stream_id epoch first_sequence es ok entries).numbers
                (written-stream_id stream_id epoch first_sequence es ok entries)
                (written-epoch stream_id epoch first_sequence es ok entries) (take m behind)
                (length written.file) r (omega (arith, size)))))

    pub scan-torn :
        0 < n
        → n < 56 + length e.payload
        → scan (some (written.file ++ take n (image_of written e))) ≡ some torn_result
    scan-torn some_bytes short = elim (Bool-cases (ltb n 56)) [
      | inl early ↦ scan-torn_header some_bytes (ground arith)
      | inr late ↦ scan-torn_payload (ground arith) short
    ]

-- Recovery of a segment whose last record was cut in its header or its payload cuts the file back
-- to the records that were whole, and reports the last of their positions and the tail. The segment
-- was made with nonzero numbers and filled with records of fewer than 2 ^ 32 - 63 bytes.
pub recover_wal_segment-torn :
    (stream_id epoch first_sequence : ℕ) (es : List Entry) (e : Entry) (n : ℕ)
    → IsNamed stream_id epoch first_sequence
    → All IsEntry es
    → IsEntry e
    → 0 < n
    → n < 56 + length e.payload
    → let w = append_all (new_segment stream_id epoch first_sequence) es in
      recover_wal_segment (some (w.file ++ take n (image_of w e)))
      ≡ some (
        record {
          ok = true;
          error = no_error;
          last_valid_position = w.last_position;
          last_valid_offset = length w.file;
          recovered_incomplete_tail = true;
        },
        some w.file,
      )
unfolding recover_wal_segment recover
recover_wal_segment-torn stream_id epoch first_sequence es e n ok entries entry some_bytes short =
    let w = append_all (new_segment stream_id epoch first_sequence) es in
    rw
      (
        scan-torn stream_id epoch first_sequence es ok entries e entry n some_bytes short,
        recover_wal_segment,
        take-append w.file (take n (image_of w e)),
      )
      refl
