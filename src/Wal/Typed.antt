-- ===== src/Wal/Typed.antt =====
-- Records written through TypedWalWriter and read through TypedWalReader (typed_wal_writer.hpp,
-- typed_wal_reader.hpp).
use fun_exch_macher.Common.{
  ℕ, zero, suc, ◌+◌, ◌<◌, ◌≡◌, refl, ap, ◌∙◌, ==_iff, Option, none, some, List, [], ◌∷◌, length,
  map, All, arith,
}
use fun_exch_macher.Wal.Types.{WalReadResult, log_ended, end_of_log}
use fun_exch_macher.Wal.Streaming.{good_stream}
use fun_exch_macher.Wal.Reader.{WalSegmentReader, ReadNext, open_reader, read_next, read_success}
use fun_exch_macher.Wal.Writer.{WalSegmentWriter, wrote_all, make_header}
use fun_exch_macher.Wal.Facade.{
  RecordLayout, append_typed, decode_view, typed_answer, read_next_typed,
}
use fun_exch_macher.Wal.Made.{Entry, IsEntry}
use fun_exch_macher.Wal.Scanned.{image_of, position_at}
use fun_exch_macher.Wal.Appended.{
  append_all, IsOpen, advance, advance-IsOpen, images, last_after, append_all-file,
}
use fun_exch_macher.Wal.Written.{new_segment, IsNamed, written_file, last_is, new_segment-IsOpen}
use fun_exch_macher.Wal.ReadBack.{IsBefore, view_of, read_next-image}
use fun_exch_macher.Wal.RoundTrip.{
  HasRoom, advance-HasRoom, reader_behind, reader_behind-IsBefore, read_next-end,
  open_reader-new_segment, new_reader-IsBefore, new_segment-HasRoom,
}

-- What std::is_trivially_copyable and the sizes of the source's records give, for the values whose
-- fields fit their machine types.
pub record IsLayout {A : Type 0} (layout : RecordLayout A) (Fits : A → Type 0) : Type 0 where
  pub record_type : layout.record_type < 4294967296
  pub size : layout.size < 4294967233
  pub image_size : (a : A) → length (layout.to_image a) ≡ layout.size
  pub copied : (a : A) → Fits a → layout.of_image (layout.to_image a) ≡ a

-- A value that fits, with what the last bytes of its record's header hold.
abbrev pub IsStored : {A : Type 0} → (A → Type 0) → ℕ × A → Type 0
IsStored Fits x = (x.0 < 4294967296) × Fits x.1

abbrev pub then_value :
    {A : Type 0}
    → WalReadResult
    → Option A
    → Option (List A × WalReadResult)
    → Option (List A × WalReadResult)
then_value result none rest = some ([], result)
then_value result (some x) none = none
then_value result (some x) (some (xs, e)) = some (x ∷ xs, e)

module _ {A : Type 0} (layout : RecordLayout A) where
  -- A client that reads values until there is none; `none` means that the fuel ran out.
  unfoldable pub read_values : ℕ → WalSegmentReader → Option (List A × WalReadResult)
  read_values zero r = none
  read_values (suc fuel) r =
      let ((result, x), r') = read_next_typed layout r in then_value result x (read_values fuel r')

  -- The writer after values whose writes succeed, each with what its header's last bytes hold.
  unfoldable pub append_values : WalSegmentWriter → List (ℕ × A) → WalSegmentWriter
  append_values w [] = w
  append_values w ((tail, a) ∷ xs) = append_values (append_typed layout w tail a wrote_all).1 xs

  abbrev pub entry_of : ℕ × A → Entry
  entry_of x = record {
    record_type = layout.record_type;
    tail = x.0;
    payload = layout.to_image x.1;
  }

  pub append_values-append_all :
      (w : WalSegmentWriter) (xs : List (ℕ × A))
      → append_values w xs ≡ append_all w (map entry_of xs)
  unfolding append_values append_all append_typed
  append_values-append_all w [] = refl
  append_values-append_all w (x ∷ xs) =
      append_values-append_all (append_typed layout w x.0 x.1 wrote_all).1 xs

  typed_answer_of :
      (r : WalSegmentReader) (n : ReadNext)
      → read_next r ≡ n
      → read_next_typed layout r ≡ (typed_answer layout n n.view, n.reader)
  unfolding read_next_typed
  typed_answer_of r n e = ap (λ (m : ReadNext). (typed_answer layout m m.view, m.reader)) e

  module _ (Fits : A → Type 0) (ok : IsLayout layout Fits) where
    pub entry_of-IsEntry : (x : ℕ × A) → x.0 < 4294967296 → IsEntry (entry_of x)
    entry_of-IsEntry x h = record {
      record_type = ok.record_type;
      tail = h;
      payload = omega (arith, ok.image_size x.1, ok.size);
    }

    decode_view-view_of :
        (w : WalSegmentWriter) (x : ℕ × A) (result : WalReadResult)
        → Fits x.1
        → decode_view layout result (view_of w (entry_of x)) ≡ (result, some x.1)
    unfolding decode_view make_header
    decode_view-view_of w x result fits =
        rw
          (
            (==_iff layout.record_type layout.record_type).1 refl,
            (==_iff _ _).1 (ok.image_size x.1),
            ok.copied x.1 fits,
          )
          refl

    read_values-images :
        (fuel : ℕ) (r : WalSegmentReader) (w : WalSegmentWriter) (xs : List (ℕ × A)) (p : ℕ)
        → length xs < fuel
        → IsOpen w
        → All (IsStored Fits) xs
        → IsBefore r w
        → HasRoom w (length xs)
        → r.last_position ≡ w.last_position
        → r.file ≡ good_stream (images w (map entry_of xs)) p
        → read_values fuel r
          ≡ some (
            map (λ x. x.1) xs,
            record {
              status = log_ended;
              error = end_of_log;
              position = last_after w (map entry_of xs);
            },
          )
    unfolding read_values images last_after
    read_values-images zero r w xs p n o h b room l at = absurd (omega arith)
    read_values-images (suc fuel) r w [] p n o h b room l at =
        rw (typed_answer_of r _ (read_next-end r p b.opened at), read_values)
          (ap (λ x. some ([], record { status = log_ended; error = end_of_log; position = x })) l)
    read_values-images (suc fuel) r w (x ∷ xs) p n o h b room l at =
        let e = entry_of x in
        let more = images (advance w e) (map entry_of xs) in
        let q = p + length (image_of w e) in
        let next =
          read_values-images fuel (reader_behind r w more q) (advance w e) xs q (omega arith)
            (advance-IsOpen w e o) h.1
            (reader_behind-IsBefore r w e (suc (length xs)) more q b room)
            (advance-HasRoom w e (length xs) room) refl refl in
        let answer : read_next_typed layout r
            ≡ ((read_success (position_at w), some x.1), reader_behind r w more q) =
          typed_answer_of r _
            (read_next-image w e (entry_of-IsEntry x h.0.0) r b more p o.numbers at)
          ∙ ap (λ d. (d, reader_behind r w more q))
              (decode_view-view_of w x (read_success (position_at w)) h.0.1) in
        rw (answer, read_values, next) refl

pub length-map : {A B : Type 0} (f : A → B) (xs : List A) → length (map f xs) ≡ length xs
length-map f [] = refl
length-map f (x ∷ xs) = ap suc (length-map f xs)

-- Values whose fields fit, of a type whose memory image has a fixed size of fewer than 2 ^ 32 - 63
-- bytes and copies back, appended through the typed writer to a segment made with nonzero numbers,
-- with all writes succeeding and sequence numbers below 2 ^ 64, are what a client reads through the
-- typed reader, in order, if it reads often enough; it then gets the end of the log at the writer's
-- last position.
pub read_values-append_values :
    {A : Type 0} (layout : RecordLayout A) (Fits : A → Type 0)
    (fuel stream_id epoch first_sequence : ℕ) (xs : List (ℕ × A))
    → IsLayout layout Fits
    → length xs < fuel
    → IsNamed stream_id epoch first_sequence
    → first_sequence + length xs < 18446744073709551616
    → All (IsStored Fits) xs
    → let w = append_values layout (new_segment stream_id epoch first_sequence) xs in
      read_values layout fuel (open_reader (some w.file))
      ≡ some (
        map (λ x. x.1) xs,
        record { status = log_ended; error = end_of_log; position = w.last_position },
      )
read_values-append_values layout Fits fuel stream_id epoch first_sequence xs copies n ok room h =
    let w0 = new_segment stream_id epoch first_sequence in
    let es = map (entry_of layout) xs in
    let body = images w0 es in
    let opened = new_segment-IsOpen stream_id epoch first_sequence ok in
    rw
      (
        append_values-append_all layout w0 xs,
        written_file stream_id epoch first_sequence ok es,
        open_reader-new_segment stream_id epoch first_sequence ok body,
        (append_all-file w0 es opened).1,
      )
      (read_values-images layout Fits copies fuel _ w0 xs 40 n opened h
        (new_reader-IsBefore stream_id epoch first_sequence ok body)
        (new_segment-HasRoom stream_id epoch first_sequence ok (length xs) room)
        (last_is stream_id epoch first_sequence ok) refl)
