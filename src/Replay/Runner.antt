-- ===== src/Replay/Runner.antt =====
-- core::ReplayRunner::replay. A log reader is the list of the answers that its `read_next` still
-- gives; past them it reports the end of the log.
use fun_exch_macher.Common.{
  ℕ, ◌+◌, Bool, true, false, not, ◌==◌, if◌then◌else◌, Option, none, some, List, [], ◌∷◌,
}
use fun_exch_macher.Domain.{OrderCommandRecord, ExecutionEventRecord}
use fun_exch_macher.OrderBook.Types.{OrderBook, Snapshot, snapshot, increment}
use fun_exch_macher.OrderBook.Check.{validate_invariants}
use fun_exch_macher.Engine.{apply}
use fun_exch_macher.Replay.Compare.{EventField, no_field, compare}

-- One answer of a reader: its status, and the record that it filled in.
pub data ReadAnswer (A : Type 0) : Type 0 where
  record_read : A → ReadAnswer A
  end_of_log failed : ReadAnswer A

abbrev pub LogReader : Type 0 → Type 0
LogReader A = List (ReadAnswer A)

unfoldable pub read_next : {A : Type 0} → LogReader A → ReadAnswer A × LogReader A
read_next [] = (end_of_log, [])
read_next (r ∷ rs) = (r, rs)

pub data ReplayFailureClass : Type 0 where
  no_failure command_read_failed stored_event_read_failed : ReplayFailureClass
  command_sequence_break stored_event_missing extra_stored_event : ReplayFailureClass
  event_field_mismatch invariant_violation : ReplayFailureClass

-- The snapshots are absent where the source leaves the string empty.
pub record ReplayFailure : Type 0 where
  pub failure_class : ReplayFailureClass
  pub command_sequence : ℕ
  pub command : Option OrderCommandRecord
  pub expected_event : Option ExecutionEventRecord
  pub actual_event : Option ExecutionEventRecord
  pub event_index_within_command : ℕ
  pub global_event_sequence : ℕ
  pub field : EventField
  pub book_snapshot_before_command : Option Snapshot
  pub book_snapshot_after_command : Option Snapshot

abbrev pub blank_failure : ReplayFailureClass → ReplayFailure
blank_failure k = record {
  failure_class = k;
  command_sequence = 0;
  command = none;
  expected_event = none;
  actual_event = none;
  event_index_within_command = 0;
  global_event_sequence = 0;
  field = no_field;
  book_snapshot_before_command = none;
  book_snapshot_after_command = none;
}

pub record ReplayResult : Type 0 where
  pub ok : Bool
  pub commands_replayed : ℕ
  pub events_compared : ℕ
  pub failure : ReplayFailure

abbrev pub failed_result : ReplayFailure → ℕ → ℕ → ReplayResult
failed_result f commands events = record {
  ok = false;
  commands_replayed = commands;
  events_compared = events;
  failure = f;
}

-- What a failure within a command reports of it.
abbrev pub command_failure :
    ReplayFailureClass → OrderCommandRecord → OrderBook → OrderBook → ReplayFailure
command_failure k c before after = record (blank_failure k) {
  command_sequence = c.command_sequence;
  command = some c;
  book_snapshot_before_command = some (snapshot before);
  book_snapshot_after_command = some (snapshot after);
}

-- The loop over the events of one command ends with a failure, or with the rest of the stored
-- events; both carry the count of events compared.
pub data Compared : Type 0 where
  stopped : ReplayFailure → ℕ → Compared
  matched : LogReader ExecutionEventRecord → ℕ → Compared

module _ (c : OrderCommandRecord) (before after : OrderBook) where
  abbrev missing_event : ExecutionEventRecord → ℕ → ReplayFailure
  missing_event e index = record (command_failure stored_event_missing c before after) {
    expected_event = some e;
    event_index_within_command = index;
    global_event_sequence = e.event_sequence;
  }

  abbrev unreadable_event : ℕ → ReplayFailure
  unreadable_event index = record (command_failure stored_event_read_failed c before after) {
    event_index_within_command = index;
  }

  abbrev pub mismatched_event :
      ExecutionEventRecord → ExecutionEventRecord → ℕ → EventField → ReplayFailure
  mismatched_event e s index f = record (command_failure event_field_mismatch c before after) {
    expected_event = some e;
    actual_event = some s;
    event_index_within_command = index;
    global_event_sequence = e.event_sequence;
    field = f;
  }

  unfoldable pub compare_events :
      List ExecutionEventRecord → ℕ → LogReader ExecutionEventRecord → ℕ → Compared
  compare_events [] index stored compared = matched stored compared
  compare_events (e ∷ es) index [] compared = stopped (missing_event e index) compared
  compare_events (e ∷ es) index (end_of_log ∷ rs) compared =
      stopped (missing_event e index) compared
  compare_events (e ∷ es) index (failed ∷ rs) compared = stopped (unreadable_event index) compared
  compare_events (e ∷ es) index (record_read s ∷ rs) compared =
      let comparison = compare e s in
      let rest = compare_events es (index + 1) rs (increment compared) in
      if not comparison.equal
      then stopped (mismatched_event e s index comparison.field) compared
      else rest

-- `previous.has_value() && command.command_sequence != *previous + 1`
abbrev pub breaks_sequence : Option ℕ → ℕ → Bool
breaks_sequence none n = false
breaks_sequence (some p) n = not (n == increment p)

-- After the last command: no stored event may be left.
abbrev extra_event : ExecutionEventRecord → ReplayFailure
extra_event e = record (blank_failure extra_stored_event) {
  actual_event = some e;
  global_event_sequence = e.event_sequence;
}

unfoldable pub finish_replay : LogReader ExecutionEventRecord → ℕ → ℕ → ReplayResult
finish_replay stored commands events = elim ((read_next stored).0) [
  | record_read e ↦ failed_result (extra_event e) commands events
  | end_of_log ↦ record {
    ok = true;
    commands_replayed = commands;
    events_compared = events;
    failure = blank_failure no_failure;
  }
  | failed ↦ failed_result (blank_failure stored_event_read_failed) commands events
]

abbrev sequence_break : OrderCommandRecord → OrderBook → ReplayFailure
sequence_break c b = record (blank_failure command_sequence_break) {
  command_sequence = c.command_sequence;
  command = some c;
  book_snapshot_before_command = some (snapshot b);
}

-- The loop: the reader of commands, the sequence of the last command, the engine's book, the
-- stored events, and the two counts of the result.
unfoldable pub replay_from :
    LogReader OrderCommandRecord
    → Option ℕ
    → OrderBook
    → LogReader ExecutionEventRecord
    → ℕ
    → ℕ
    → ReplayResult
replay_from [] previous b stored commands events = finish_replay stored commands events
replay_from (end_of_log ∷ rs) previous b stored commands events =
    finish_replay stored commands events
replay_from (failed ∷ rs) previous b stored commands events =
    failed_result (blank_failure command_read_failed) commands events
replay_from (record_read c ∷ rs) previous b stored commands events =
    let (generated, b') = apply b c in
    let next = λ (stored' : LogReader ExecutionEventRecord) (events' : ℕ).
      replay_from rs (some c.command_sequence) b' stored' (increment commands) events' in
    if breaks_sequence previous c.command_sequence
    then failed_result (sequence_break c b) commands events
    else elim (compare_events c b b' generated 0 stored events) [
      | stopped f n ↦ failed_result f commands n
      | matched stored' n ↦
          if not (validate_invariants b')
          then failed_result (command_failure invariant_violation c b b') commands n
          else next stored' n
    ]

unfoldable pub replay :
    LogReader OrderCommandRecord → LogReader ExecutionEventRecord → OrderBook → ReplayResult
replay commands stored b = replay_from commands none b stored 0 0
