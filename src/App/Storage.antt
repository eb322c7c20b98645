-- ===== src/App/Storage.antt =====
-- main.cpp of src/app: the logs that it writes and reads through the facade of the WAL. What the
-- system does to the writes, and whether std::filesystem throws in front of them, is a `Disk`.
use fun_exch_macher.Common.{
  ℕ, zero, suc, ◌+◌, Bool, true, false, not, ◌==◌, if◌then◌else◌, Option, none, some, List, [], ◌∷◌,
  length,
}
use fun_exch_macher.Domain.{OrderCommandRecord, ExecutionEventRecord}
use fun_exch_macher.Engine.{new_engine, run}
use fun_exch_macher.Replay.Runner.{
  ReadAnswer, record_read, end_of_log, failed, LogReader, ReplayResult, replay,
}
use fun_exch_macher.Wal.Types.{
  WalReadStatus, log_ended, read_failed, WalReadResult, WalAppendStatus, WalAppendResult, appended,
  append_rejected, append_failed, WalCommitStatus, committed, commit_failed, record_type_mismatch,
  payload_size_mismatch,
}
use fun_exch_macher.Wal.Reader.{WalSegmentReader, is_record_read, open_reader}
use fun_exch_macher.Wal.Writer.{WalSegmentWriter, WriteOutcome}
use fun_exch_macher.Wal.Opening.{blank_writer, create_segment}
use fun_exch_macher.Wal.Facade.{
  append_record, commit_records, WalRecord, RecordLayout, read_next_record,
}
use fun_exch_macher.App.Layout.{command_layout, event_layout}

abbrev pub command_stream_id : ℕ
command_stream_id = 10

abbrev pub event_stream_id : ℕ
event_stream_id = 20

abbrev pub epoch : ℕ
epoch = 1

abbrev pub first_sequence : ℕ
first_sequence = 1

-- The calls of std::filesystem in front of a log, those of the constructor of the writer included:
-- all succeed, or one throws, the old file being removed by then or not.
pub data Preparation : Type 0 where
  prepared : Preparation
  throws : Bool → Preparation

-- What the system does while a log is written: the calls in front, whether the file opens, how the writes of the
-- segment header and of each record end, and whether the flush leaves the stream good; and what the
-- last four bytes of each record header hold.
pub record Disk : Type 0 where
  pub preparation : Preparation
  pub opens : Bool
  pub header : WriteOutcome
  pub outcome : ℕ → WriteOutcome
  pub tail : ℕ → ℕ
  pub flushed : Bool

abbrev is_appended : WalAppendStatus → Bool
is_appended appended = true
is_appended append_rejected = false
is_appended append_failed = false

abbrev is_committed : WalCommitStatus → Bool
is_committed committed = true
is_committed commit_failed = false

abbrev pub left_file : Disk → List ℕ → Option (List ℕ)
left_file disk bytes = if disk.opens then some bytes else none

module _ {A : Type 0} (layout : RecordLayout A) where
  -- append_storage_record.
  unfoldable pub append_storage_record :
      WalSegmentWriter → ℕ → A → WriteOutcome → WalAppendResult × WalSegmentWriter
  append_storage_record w tail a outcome =
      append_record w tail layout.record_type (layout.to_image a) outcome

  -- The checks of read_storage_record on a record that was read.
  unfoldable pub check_storage_record : WalReadResult → WalRecord → WalReadResult × Option A
  check_storage_record result x =
      if not (x.record_type == layout.record_type)
      then (record result { status = read_failed; error = record_type_mismatch }, none)
      else if not (length x.payload == layout.size)
      then (record result { status = read_failed; error = payload_size_mismatch }, none)
      else (result, some (layout.of_image x.payload))

  abbrev pub storage_answer : WalReadResult → Option WalRecord → WalReadResult × Option A
  storage_answer result none = (result, none)
  storage_answer result (some x) =
      if not (is_record_read result.status) then (result, none) else check_storage_record result x

  unfoldable pub read_storage_record :
      WalSegmentReader → (WalReadResult × Option A) × WalSegmentReader
  read_storage_record r = let (result, x, r') = read_next_record r in (storage_answer result x, r')

  -- The loop of write_commands and write_events over the records from the i-th on.
  unfoldable pub append_records : Disk → ℕ → WalSegmentWriter → List A → Bool × WalSegmentWriter
  append_records disk i w [] = (true, w)
  append_records disk i w (a ∷ xs) =
      let (result, w') = append_storage_record w (disk.tail i) a (disk.outcome i) in
      let rest = append_records disk (i + 1) w' xs in
      if not (is_appended result.status) then (false, w') else rest

  -- The end of both: an empty log is not committed. Whether all went well, and the file, which is
  -- absent if it did not open.
  abbrev pub finish_log : Disk → List A → Bool × WalSegmentWriter → Bool × Option (List ℕ)
  finish_log disk xs (false, w) = (false, left_file disk w.file)
  finish_log disk [] (true, w) = (true, left_file disk w.file)
  finish_log disk (x ∷ xs) (true, w) =
      let (result, w') = commit_records w disk.flushed in
      (is_committed result.status, left_file disk w'.file)

  -- The answers of a replay reader: the records that are read, then the end or a failure. `none`
  -- means that the fuel ran out.
  abbrev pub replay_status : WalReadStatus → ReadAnswer A
  replay_status log_ended = end_of_log
  replay_status _ = failed

  abbrev pub and_answers : WalReadResult → Option A → Option (LogReader A) → Option (LogReader A)
  and_answers result none rest = some (replay_status result.status ∷ [])
  and_answers result (some a) none = none
  and_answers result (some a) (some rest) = some (record_read a ∷ rest)

  unfoldable pub replay_answers : ℕ → WalSegmentReader → Option (LogReader A)
  replay_answers zero r = none
  replay_answers (suc fuel) r =
      let ((result, x), r') = read_storage_record r in and_answers result x (replay_answers fuel r')

abbrev pub first_or : List ℕ → ℕ → ℕ
first_or [] n = n
first_or (x ∷ xs) n = x

-- The first sequence of each log: that of its first record, or 1.
abbrev pub first_command : List OrderCommandRecord → ℕ
first_command [] = first_sequence
first_command (c ∷ cs) = c.command_sequence

abbrev pub first_event : List ExecutionEventRecord → ℕ
first_event [] = first_sequence
first_event (e ∷ es) = e.event_sequence

-- What is left behind the preparation: the end of the writing and its file, or an exception, for
-- which the result is absent, and the old file or none.
abbrev pub prepared_log :
    Preparation → Option (List ℕ) → Bool × Option (List ℕ) → Option Bool × Option (List ℕ)
prepared_log prepared old (ok, file) = (some ok, file)
prepared_log (throws removed) old end = (none, if removed then none else old)

-- The result, absent for an exception, and the file, where `old` was. The old file is removed, so
-- that the writer makes a new one.
unfoldable pub write_commands :
    (OrderCommandRecord → ℕ)
    → Disk
    → Option (List ℕ)
    → List OrderCommandRecord
    → Option Bool × Option (List ℕ)
write_commands slack disk old commands =
    let w =
      create_segment (blank_writer [] command_stream_id epoch (first_command commands)) disk.opens
        disk.header in
    prepared_log disk.preparation old (
      finish_log (command_layout slack) disk commands
        (append_records (command_layout slack) disk 0 w commands))

unfoldable pub write_events :
    (ExecutionEventRecord → ℕ)
    → Disk
    → Option (List ℕ)
    → List ExecutionEventRecord
    → Option Bool × Option (List ℕ)
write_events slack disk old events =
    let w =
      create_segment (blank_writer [] event_stream_id epoch (first_event events)) disk.opens
        disk.header in
    prepared_log disk.preparation old (
      finish_log (event_layout slack) disk events
        (append_records (event_layout slack) disk 0 w events))

unfoldable pub run_engine : List OrderCommandRecord → List ExecutionEventRecord
run_engine commands = (run (new_engine first_sequence) commands).0

-- One more than the bytes of a file: each record that is read takes some.
abbrev pub rounds : Option (List ℕ) → ℕ
rounds none = 1
rounds (some bytes) = length bytes + 1

-- WalCommandReplayReader and WalEventReplayReader on a file, or on none.
unfoldable pub command_log : Option (List ℕ) → Option (LogReader OrderCommandRecord)
command_log file = replay_answers (command_layout (λ c. 0)) (rounds file) (open_reader file)

unfoldable pub event_log : Option (List ℕ) → Option (LogReader ExecutionEventRecord)
event_log file = replay_answers (event_layout (λ e. 0)) (rounds file) (open_reader file)

abbrev both {ℓ κ μ} :
    {A : Type ℓ} {B : Type κ} {C : Type μ} → (A → B → C) → Option A → Option B → Option C
both f none y = none
both f (some x) none = none
both f (some x) (some y) = some (f x y)

-- replay_wals: the result of the runner, whose `ok` the exit code is made from.
unfoldable pub replay_wals : Option (List ℕ) → Option (List ℕ) → Option ReplayResult
replay_wals command_wal event_wal =
    both (λ commands events. replay commands events (new_engine first_sequence))
      (command_log command_wal) (event_log event_wal)
