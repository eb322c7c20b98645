-- ===== src/Wal/Made.antt =====
-- The header that WalSegmentWriter::make_header makes is one that the scanner and the reader take.
use fun_exch_macher.Common.{
  ℕ, ◌+◌, ◌%◌, ◌≤◌, ◌<◌, ◌^◌, ◌≡◌, refl, sym, Bool, true, ◌&&◌, ==_iff, ◌∙◌, List, length, arith,
}
use fun_exch_macher.Wal.Types.{record_alignment}
use fun_exch_macher.Wal.Alignment.{align_up, padding_for}
use fun_exch_macher.Wal.Aligning.{IsAligned, align_up-IsAligned}
use fun_exch_macher.Wal.Header.{
  record_header_size, WalSegmentHeader, WalRecordHeader, has_valid_record_fields,
  calculate_record_header_crc,
}
use fun_exch_macher.Wal.Encoding.{Fits, calculate_crc32_bound}
use fun_exch_macher.Wal.Scanner.{padding_of, is_next_header}
use fun_exch_macher.Wal.Writer.{WalSegmentWriter, make_header}

-- A record to append: its type, the bytes behind its header's last field, and its payload.
pub record Entry : Type 0 where
  pub record_type : ℕ
  pub tail : ℕ
  pub payload : List ℕ

-- The payload with its header fits 32 bits after alignment.
pub record IsEntry (e : Entry) : Type 0 where
  pub record_type : e.record_type < 4294967296
  pub tail : e.tail < 4294967296
  pub payload : length e.payload + 64 ≤ 4294967296

-- The writer's numbers fit 64 bits.
pub record IsWriter (w : WalSegmentWriter) : Type 0 where
  pub stream_id : w.stream_id < 18446744073709551616
  pub epoch : w.epoch < 18446744073709551616
  pub next_sequence : w.next_sequence < 18446744073709551616

abbrev pub header_of : WalSegmentWriter → Entry → WalRecordHeader
header_of w e = make_header w e.tail e.record_type e.payload w.next_sequence

abbrev pub padding_after : Entry → ℕ
padding_after e = padding_for (record_header_size + length e.payload) record_alignment

both : {a b : Bool} → a ≡ true → b ≡ true → (a && b) ≡ true
both h k = rw (h, k) refl

module _ (w : WalSegmentWriter) (e : Entry) (ok : IsEntry e) where
  aligned :
      IsAligned
        (record_header_size + length e.payload)
        (align_up (record_header_size + length e.payload) record_alignment)
        (padding_after e)
  aligned = align_up-IsAligned (record_header_size + length e.payload) (omega (arith, ok.payload))

  whole_length : length e.payload % 2 ^ 32 ≡ length e.payload
  whole_length = omega (arith, ok.payload)

  whole_sum :
      (record_header_size + length e.payload) % 2 ^ 32 ≡ record_header_size + length e.payload
  whole_sum = omega (arith, ok.payload)

  pub header-payload_length : (header_of w e).payload_length ≡ length e.payload
  unfolding make_header
  header-payload_length = whole_length

  pub header-record_length :
      (header_of w e).record_length ≡ record_header_size + length e.payload + padding_after e
  unfolding make_header
  header-record_length = rw (whole_length, whole_sum) aligned.covers

  pub header-Fits : IsWriter w → Fits (header_of w e)
  unfolding make_header calculate_record_header_crc
  header-Fits v = record {
    magic = omega arith;
    version = omega arith;
    header_size = omega arith;
    record_length =
        unfold make_header in omega (arith, header-record_length, aligned.least, ok.payload);
    record_type = ok.record_type;
    stream_id = v.stream_id;
    epoch = v.epoch;
    sequence = v.next_sequence;
    payload_length = omega (arith, whole_length, ok.payload);
    payload_crc = calculate_crc32_bound _;
    header_crc = calculate_crc32_bound _;
    tail = ok.tail;
  }

  pub padding_after_bound : padding_after e < 9223372036854775808
  padding_after_bound = omega (arith, aligned.least)

  pub header-padding_of : padding_of (header_of w e) ≡ padding_after e
  unfolding padding_of
  header-padding_of =
      rw (header-record_length, header-payload_length) (omega (arith, aligned.least, ok.payload))

  pub header-has_valid_record_fields : has_valid_record_fields (header_of w e) ≡ true
  unfolding has_valid_record_fields make_header
  header-has_valid_record_fields =
      rw (whole_length, whole_sum) (ground (arith, aligned.covers, aligned.multiple))

  pub header-crc : (header_of w e).header_crc ≡ calculate_record_header_crc (header_of w e)
  unfolding make_header calculate_record_header_crc
  header-crc = refl

  pub header-stream_id : (header_of w e).stream_id ≡ w.stream_id
  unfolding make_header
  header-stream_id = refl

  pub header-epoch : (header_of w e).epoch ≡ w.epoch
  unfolding make_header
  header-epoch = refl

  pub header-sequence : (header_of w e).sequence ≡ w.next_sequence
  unfolding make_header
  header-sequence = refl

  pub header-is_next_header :
      (g : WalSegmentHeader)
      → g.stream_id ≡ w.stream_id
      → g.epoch ≡ w.epoch
      → is_next_header g w.next_sequence (header_of w e) ≡ true
  unfolding is_next_header
  header-is_next_header g s p = both (header-has_valid_record_fields) (
      both ((==_iff _ _).1 header-crc) (
        both ((==_iff _ _).1 (header-stream_id ∙ sym s))
          (both ((==_iff _ _).1 (header-epoch ∙ sym p)) ((==_iff _ _).1 header-sequence))))
