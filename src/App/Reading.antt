-- ===== src/App/Reading.antt =====
-- The readers of main.cpp (src/app): read_storage_record against the typed reader of src/wal, and
-- the end of every log.
use fun_exch_macher.Common.{
  ℕ, zero, suc, ◌≤◌, ◌<◌, ◌≡◌, refl, ap, true, not, ◌&&◌, ◌==◌, if◌then◌else◌, if_cases, if_either,
  Option, none, some, List, [], ◌∷◌, ◌++◌, length, map, arith,
}
use fun_exch_macher.Domain.{OrderCommandRecord, ExecutionEventRecord}
use fun_exch_macher.Engine.{new_engine}
use fun_exch_macher.Replay.Runner.{record_read, LogReader, ReplayResult, replay}
use fun_exch_macher.Wal.Types.{WalReadResult}
use fun_exch_macher.Wal.Header.{WalRecordHeader, record_of_bytes}
use fun_exch_macher.Wal.Checksum.{calculate_crc32}
use fun_exch_macher.Wal.Stream.{Stream, open_stream, read, ignore}
use fun_exch_macher.Wal.Scanner.{padding_of}
use fun_exch_macher.Wal.Total.{read-rest, ignore-rest}
use fun_exch_macher.Wal.Reader.{
  record_header_error, is_no_error, WalSegmentReader, WalRecordView, Read, got, stops, ReadNext,
  is_record_read, read_payload, read_record, read_next, open_reader, finish_read,
}
use fun_exch_macher.Wal.Facade.{
  RecordLayout, decode_view, typed_answer, read_next_typed, as_record, read_next_record,
}
use fun_exch_macher.Wal.Typed.{read_values, then_value}
use fun_exch_macher.App.Layout.{command_layout, event_layout}
use fun_exch_macher.App.Storage.{
  first_sequence, replay_wals, check_storage_record, storage_answer, read_storage_record,
  replay_status, and_answers, replay_answers, rounds, command_log, event_log,
}

-- A record comes with the status of one.
abbrev IsRead : ReadNext → Type 0
IsRead n = elim (n.view) [ none ↦ Unit {0} | some v ↦ is_record_read n.result.status ≡ true ]

finish_read-IsRead : (r : WalSegmentReader) (x : Read × Stream) → IsRead (finish_read r x)
finish_read-IsRead r (got v, s) = refl
finish_read-IsRead r (stops e, s) = tt

read_next-IsRead : (r : WalSegmentReader) → IsRead (read_next r)
unfolding read_next
read_next-IsRead r =
    if_either (λ (n : ReadNext). IsRead n) (not (is_record_read r.open_result.status)) _ _ tt
      (if_either (λ (n : ReadNext). IsRead n) r.file.fail _ _ tt
        (finish_read-IsRead r (read_record r)))

-- A read that gives a record leaves fewer bytes than `n`.
Takes : ℕ → Read × Stream → Type 0
Takes n (got v, s) = length s.rest < n
Takes n (stops e, s) = Unit {0}

Takes-stops : (n : ℕ) (e : WalReadResult) (s : Stream) → Takes n (stops e, s)
unfolding Takes
Takes-stops n e s = tt

Takes-got : (n : ℕ) (v : WalRecordView) (s : Stream) → length s.rest < n → Takes n (got v, s)
unfolding Takes
Takes-got n v s h = h

read_payload-Takes :
    (n : ℕ) (r : WalSegmentReader) (h : WalRecordHeader) (s : Stream)
    → length s.rest < n
    → Takes n (read_payload r h s)
unfolding read_payload
read_payload-Takes n r h s less =
    let (payload, s') = if h.payload_length == 0 then ([], s) else read h.payload_length s in
    let padding = padding_of h in
    let s'' = if padding == 0 then s' else ignore padding s' in
    let first : length s'.rest ≤ length s.rest =
      if_either (λ (x : List ℕ × Stream). length x.1.rest ≤ length s.rest) (h.payload_length == 0)
        ([], s) (read h.payload_length s) (omega arith)
        (omega (arith, read-rest h.payload_length s)) in
    let second : length s''.rest ≤ length s'.rest =
      if_either (λ (x : Stream). length x.rest ≤ length s'.rest) (padding == 0) s'
        (ignore padding s') (omega arith) (ignore-rest padding s') in
    if_either (Takes n) (not (length payload == h.payload_length)) _ _ (Takes-stops n _ _) (
      if_either (Takes n) (not (calculate_crc32 payload == h.payload_crc)) _ _ (Takes-stops n _ _) (
        if_either (Takes n) (not (padding == 0) && s''.fail) _ _ (Takes-stops n _ _)
          (Takes-got n _ _ (omega (arith, first, second)))))

read_record-Takes : (r : WalSegmentReader) → Takes (length r.file.rest) (read_record r)
unfolding read_record
read_record-Takes r =
    let n = length r.file.rest in
    let (bytes, s) = read 56 r.file in
    let error = record_header_error r (record_of_bytes bytes) in
    if_either (Takes n) (length bytes == 0 && s.eof) _ _ (Takes-stops n _ _) (
      if_cases (Takes n) (not (length bytes == 56)) _ _ (λ e. Takes-stops n _ _)
        (λ e. if_either (Takes n) (not (is_no_error error)) _ _ (Takes-stops n _ _) (
          read_payload-Takes n r (record_of_bytes bytes) s
            (ground (arith, e, read-rest 56 r.file)))))

Consumes : ℕ → ReadNext → Type 0
Consumes n x = elim (x.view) [ none ↦ Unit {0} | some v ↦ length x.reader.file.rest < n ]

Consumes-none :
    (n : ℕ) (result : WalReadResult) (reader : WalSegmentReader)
    → Consumes n (record { result = result; view = none; reader = reader })
unfolding Consumes
Consumes-none n result reader = tt

Consumes-some :
    (n : ℕ) (x : ReadNext) (v : WalRecordView)
    → x.view ≡ some v
    → Consumes n x
    → length x.reader.file.rest < n
unfolding Consumes
Consumes-some n x v e h = rw e at h

finish_read-Consumes :
    (n : ℕ) (r : WalSegmentReader) (x : Read × Stream) → Takes n x → Consumes n (finish_read r x)
unfolding Takes Consumes
finish_read-Consumes n r (got v, s) h = h
finish_read-Consumes n r (stops e, s) h = tt

read_next-Consumes : (r : WalSegmentReader) → Consumes (length r.file.rest) (read_next r)
unfolding read_next
read_next-Consumes r =
    let n = length r.file.rest in
    if_either (Consumes n) (not (is_record_read r.open_result.status)) _ _ (Consumes-none n _ _) (
      if_either (Consumes n) r.file.fail _ _ (Consumes-none n _ _)
        (finish_read-Consumes n r (read_record r) (read_record-Takes r)))

module _ {A : Type 0} (layout : RecordLayout A) where
  answers_agree :
      (n : ReadNext)
      → IsRead n
      → storage_answer layout n.result (as_record n.result n.view) ≡ typed_answer layout n n.view
  unfolding check_storage_record decode_view
  answers_agree n h = go n.view refl
    where
      go :
          (v : Option WalRecordView)
          → n.view ≡ v
          → storage_answer layout n.result (as_record n.result v) ≡ typed_answer layout n v
      go none e = refl
      go (some v) e = rw (rw e at h) refl

  -- read_storage_record of the application reads as the typed reader of the log does: the same
  -- result, the same value and the same reader.
  read_storage_record-eq :
      (r : WalSegmentReader) → read_storage_record layout r ≡ read_next_typed layout r
  unfolding read_storage_record read_next_record read_next_typed
  read_storage_record-eq r =
      ap (λ x. (x, (read_next r).reader)) (answers_agree (read_next r) (read_next-IsRead r))

  abbrev pub answers_of : Option (List A × WalReadResult) → Option (LogReader A)
  answers_of none = none
  answers_of (some (xs, result)) =
      some (map record_read xs ++ (replay_status layout result.status ∷ []))

  and_answers-then_value :
      (result : WalReadResult) (x : Option A) (rest : Option (List A × WalReadResult))
      → and_answers layout result x (answers_of rest) ≡ answers_of (then_value result x rest)
  and_answers-then_value result none rest = refl
  and_answers-then_value result (some a) none = refl
  and_answers-then_value result (some a) (some (xs, e)) = refl

  -- The replay reader gives the values that a client of the typed reader gets, then its end.
  pub replay_answers-eq :
      (fuel : ℕ) (r : WalSegmentReader)
      → replay_answers layout fuel r ≡ answers_of (read_values layout fuel r)
  unfolding replay_answers read_values
  replay_answers-eq zero r = refl
  replay_answers-eq (suc fuel) r =
      let ((result, x), r') = read_next_typed layout r in
      rw (read_storage_record-eq r, replay_answers, replay_answers-eq fuel r')
        (and_answers-then_value result x (read_values layout fuel r'))

  and_answers-ends :
      (result : WalReadResult) (x : Option A) (rest : Option (LogReader A)) (log : LogReader A)
      → rest ≡ some log
      → (log' : LogReader A) × (and_answers layout result x rest ≡ some log')
  and_answers-ends result none rest log e = (replay_status layout result.status ∷ [], refl)
  and_answers-ends result (some a) rest log e = (record_read a ∷ log, rw e refl)

  replay_answers-ends :
      (fuel : ℕ) (r : WalSegmentReader)
      → length r.file.rest < fuel
      → (log : LogReader A) × (replay_answers layout fuel r ≡ some log)
  unfolding replay_answers read_storage_record read_next_record
  replay_answers-ends zero r h = absurd (omega arith)
  replay_answers-ends (suc fuel) r h =
      go (read_next r).view (read_next-Consumes r) refl
        (λ less. replay_answers-ends fuel (read_next r).reader less) h
    where
      go :
          (v : Option WalRecordView)
          → Consumes (length r.file.rest) (read_next r)
          → (read_next r).view ≡ v
          → (length (read_next r).reader.file.rest < fuel
              → (log : LogReader A) × (replay_answers layout fuel (read_next r).reader ≡ some log))
          → length r.file.rest < suc fuel
          → (log : LogReader A) × (replay_answers layout (suc fuel) r ≡ some log)
      go none c e later h' =
          (replay_status layout (read_next r).result.status ∷ [], rw (e, replay_answers) refl)
      go (some v) c e later h' =
          let (log, k) =
            later (omega (arith, Consumes-some (length r.file.rest) (read_next r) v e c, h')) in
          let (result, x) =
            storage_answer layout (read_next r).result
              (as_record (read_next r).result (read_next r).view) in
          and_answers-ends result x (replay_answers layout fuel (read_next r).reader) log k

open_reader-rest : (file : Option (List ℕ)) → length (open_reader file).file.rest < rounds file
unfolding open_reader
open_reader-rest none = omega arith
open_reader-rest (some bytes) = omega (arith, read-rest 40 (open_stream bytes))

pub command_log-ends :
    (file : Option (List ℕ)) → (log : LogReader OrderCommandRecord) × (command_log file ≡ some log)
unfolding command_log
command_log-ends file =
    replay_answers-ends (command_layout (λ c. 0)) (rounds file) (open_reader file)
      (open_reader-rest file)

pub event_log-ends :
    (file : Option (List ℕ)) → (log : LogReader ExecutionEventRecord) × (event_log file ≡ some log)
unfolding event_log
event_log-ends file =
    replay_answers-ends (event_layout (λ e. 0)) (rounds file) (open_reader file)
      (open_reader-rest file)

-- Whatever the two files hold, and if they are there or not, the replay of them ends with a result.
pub replay_wals-ends :
    (commands events : Option (List ℕ))
    → (r : ReplayResult) × (replay_wals commands events ≡ some r)
unfolding replay_wals
replay_wals-ends commands events =
    let (cs, c) = command_log-ends commands in
    let (es, e) = event_log-ends events in
    (replay cs es (new_engine first_sequence), rw (c, e) refl)
