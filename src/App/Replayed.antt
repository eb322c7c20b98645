-- ===== src/App/Replayed.antt =====
-- A run of main.cpp (src/app) on working disks: what is read back from both logs, and their replay.
use fun_exch_macher.Common.{
  ℕ, zero, suc, ◌+◌, ◌<◌, ◌≡◌, ◌≢◌, refl, ap, sym, subst, ◌∙◌, Bool, true, false, ==_self, Option,
  none, some, List, [], ◌∷◌, ◌++◌, length, map, All, arith,
}
use fun_exch_macher.Domain.{OrderCommandRecord, ExecutionEventRecord}
use fun_exch_macher.Domain.Fits.{FitsCommand, FitsEvent}
use fun_exch_macher.OrderBook.Types.{new_book}
use fun_exch_macher.OrderBook.Invariant.{new_book-IsValid}
use fun_exch_macher.Engine.{new_engine, run}
use fun_exch_macher.Engine.Bounds.{run-FitsOutcome}
use fun_exch_macher.Engine.Numbering.{IsContiguous, run-IsContiguous}
use fun_exch_macher.Replay.Runner.{LogReader, record_read, end_of_log, ReplayResult, replay}
use fun_exch_macher.Replay.Correct.{read_all, ends_cleanly, is_consecutive, IsFaithful, replay_iff}
use fun_exch_macher.Wal.Reader.{WalSegmentReader, open_reader}
use fun_exch_macher.Wal.Written.{IsNamed}
use fun_exch_macher.App.Layout.{
  command_layout, event_layout, command_layout-IsLayout, event_layout-IsLayout,
}
use fun_exch_macher.App.Text.{Text, equal}
use fun_exch_macher.App.Storage.{
  Preparation, prepared, prepared_log, Disk, command_stream_id, event_stream_id, epoch,
  first_sequence, first_command, first_event, write_commands, write_events, run_engine, command_log,
  event_log, replay_wals, check_storage_record, read_storage_record, replay_answers,
}
use fun_exch_macher.App.Written.{IsWorking, filled, log_written, log_read}
use fun_exch_macher.App.Run.{exits, exit_code, Files, put, Environment, run_scenario}

-- What a reader reads does not depend on the padding.
command_answers :
    (slack : OrderCommandRecord → ℕ) (fuel : ℕ) (r : WalSegmentReader)
    → replay_answers (command_layout (λ c. 0)) fuel r ≡ replay_answers (command_layout slack) fuel r
unfolding replay_answers read_storage_record check_storage_record
command_answers slack zero r = refl
command_answers slack (suc fuel) r = rw (command_answers slack fuel _, replay_answers) refl

event_answers :
    (slack : ExecutionEventRecord → ℕ) (fuel : ℕ) (r : WalSegmentReader)
    → replay_answers (event_layout (λ e. 0)) fuel r ≡ replay_answers (event_layout slack) fuel r
unfolding replay_answers read_storage_record check_storage_record
event_answers slack zero r = refl
event_answers slack (suc fuel) r = rw (event_answers slack fuel _, replay_answers) refl

first_event-eq :
    (n m : ℕ) (es : List ExecutionEventRecord)
    → n ≡ first_sequence
    → IsContiguous n es m
    → first_event es ≡ first_sequence
first_event-eq n m [] e h = refl
first_event-eq n m (x ∷ xs) e h = h.0 ∙ e

module _ {A : Type 0} where
  read_all-whole : (xs : List A) → read_all (map record_read xs ++ (end_of_log ∷ [])) ≡ xs
  read_all-whole [] = refl
  read_all-whole (x ∷ xs) = ap (λ ys. x ∷ ys) (read_all-whole xs)

  ends_cleanly-whole : (xs : List A) → ends_cleanly (map record_read xs ++ (end_of_log ∷ [])) ≡ true
  ends_cleanly-whole [] = refl
  ends_cleanly-whole (x ∷ xs) = ends_cleanly-whole xs

-- A log as its writer leaves it: it is written, and its reader gets the records and the end.
pub record Stores {A : Type 0} (read : Option (List ℕ) → Option (LogReader A))
    (written : Option Bool × Option (List ℕ)) (xs : List A) : Type 0 where
  pub whole : written.0 ≡ some true
  pub answers : read written.1 ≡ some (map record_read xs ++ (end_of_log ∷ []))

Stores-file :
    {A : Type 0} (read : Option (List ℕ) → Option (LogReader A)) (file : List ℕ)
    (written : Option Bool × Option (List ℕ)) (xs : List A)
    → written ≡ (some true, some file)
    → read (some file) ≡ some (map record_read xs ++ (end_of_log ∷ []))
    → Stores read written xs
Stores-file read file written xs e h =
    subst (λ x. Stores read x xs) (sym e) (record { whole = refl; answers = h })

prepared_log-whole :
    (p : Preparation) (old : Option (List ℕ)) (end : Bool × Option (List ℕ)) (file : List ℕ)
    → p ≡ prepared
    → end ≡ (true, some file)
    → prepared_log p old end ≡ (some true, some file)
prepared_log-whole p old end file e h =
    ap (λ q. prepared_log q old end) e ∙ ap (prepared_log prepared old) h

write_commands-Stores :
    (slack : OrderCommandRecord → ℕ) (disk : Disk) (old : Option (List ℕ))
    (commands : List OrderCommandRecord)
    → IsWorking disk
    → All FitsCommand commands
    → first_command commands ≢ 0
    → first_command commands + length commands < 18446744073709551616
    → Stores command_log (write_commands slack disk old commands) commands
unfolding write_commands command_log
write_commands-Stores slack disk old commands works fit first room =
    let named : IsNamed command_stream_id epoch (first_command commands) = record {
      stream_id = (ground arith, omega arith);
      epoch = (ground arith, omega arith);
      first_sequence = (first, omega (arith, room));
    } in
    let layout = command_layout slack in
    let copies = command_layout-IsLayout slack in
    let n = first_command commands in
    let w =
      filled layout disk works FitsCommand copies command_stream_id epoch n named commands fit in
    Stores-file command_log w.file _ commands
      (prepared_log-whole disk.preparation old _ w.file works.preparation (
        log_written layout disk works FitsCommand copies command_stream_id epoch n named commands
          fit))
      (command_answers slack (length w.file + 1) (open_reader (some w.file))
        ∙ log_read layout disk works FitsCommand copies command_stream_id epoch n named commands fit
            room)

write_events-Stores :
    (slack : ExecutionEventRecord → ℕ) (disk : Disk) (old : Option (List ℕ))
    (events : List ExecutionEventRecord)
    → IsWorking disk
    → All FitsEvent events
    → first_event events ≡ first_sequence
    → length events + 1 < 18446744073709551616
    → Stores event_log (write_events slack disk old events) events
unfolding write_events event_log
write_events-Stores slack disk old events works fit first room =
    let named : IsNamed event_stream_id epoch (first_event events) = record {
      stream_id = (ground arith, omega arith);
      epoch = (ground arith, omega arith);
      first_sequence = (ground (arith, first), omega (arith, first));
    } in
    let layout = event_layout slack in
    let copies = event_layout-IsLayout slack in
    let n = first_event events in
    let w = filled layout disk works FitsEvent copies event_stream_id epoch n named events fit in
    Stores-file event_log w.file _ events
      (prepared_log-whole disk.preparation old _ w.file works.preparation
        (log_written layout disk works FitsEvent copies event_stream_id epoch n named events fit))
      (event_answers slack (length w.file + 1) (open_reader (some w.file))
        ∙ log_read layout disk works FitsEvent copies event_stream_id epoch n named events fit
            (omega (arith, first, room)))

first_event-run_engine :
    (commands : List OrderCommandRecord) → first_event (run_engine commands) ≡ first_sequence
unfolding run_engine new_engine new_book
first_event-run_engine commands =
    first_event-eq (new_book first_sequence).next_event_sequence _
      (run (new_book first_sequence) commands).0 refl
      (run-IsContiguous (new_book first_sequence) commands)

pub equal_self : (t : Text) → equal t t ≡ true
unfolding equal
equal_self [] = refl
equal_self (c ∷ t) = rw (==_self c, equal_self t) refl

pub record IsReady (env : Environment) (commands : List OrderCommandRecord) : Type 0 where
  pub command_disk : IsWorking env.command_disk
  pub event_disk : IsWorking env.event_disk
  pub consecutive : is_consecutive none commands ≡ true
  pub first : first_command commands ≢ 0
  pub room : first_command commands + length commands < 18446744073709551616
  pub event_room : length (run_engine commands) + 1 < 18446744073709551616

pub run_engine-Stores :
    (env : Environment) (old : Option (List ℕ)) (commands : List OrderCommandRecord)
    → IsReady env commands
    → All FitsCommand commands
    → Stores event_log
        (write_events env.event_slack env.event_disk old (run_engine commands))
        (run_engine commands)
run_engine-Stores env old commands h fits =
    let events_fit : All FitsEvent (run_engine commands) =
      unfold run_engine new_engine in
      (run-FitsOutcome first_sequence commands (omega arith) fits).0 in
    write_events-Stores env.event_slack env.event_disk old (run_engine commands) h.event_disk
      events_fit (first_event-run_engine commands) h.event_room

-- The files behind the writing of both logs.
abbrev pub with_command_log : Environment → Text → Files → List OrderCommandRecord → Files
with_command_log env command_wal files commands =
    put command_wal
      (write_commands env.command_slack env.command_disk (files command_wal) commands).1 files

abbrev pub written_files : Environment → Text → Text → Files → List OrderCommandRecord → Files
written_files env command_wal event_wal files commands =
    let files' = with_command_log env command_wal files commands in
    put event_wal
      (write_events env.event_slack env.event_disk (files' event_wal) (run_engine commands)).1
      files'

-- If both disks work, the fields of the commands fit, their sequences are consecutive and do not
-- start at 0 or reach 2 ^ 64, there are fewer than 2 ^ 64 - 1 events, and the two paths differ, then
-- a run writes both logs and the replay of them succeeds: the exit code is 0.
pub run_scenario-replays :
    (env : Environment) (command_wal event_wal : Text) (files : Files)
    (commands : List OrderCommandRecord)
    → IsReady env commands
    → All FitsCommand commands
    → equal command_wal event_wal ≡ false
    → (r : ReplayResult) × (r.ok ≡ true)
      × (run_scenario env command_wal event_wal files commands
          ≡ some (record {
            ending = exits 0;
            files = written_files env command_wal event_wal files commands;
            replay_result = some r;
          }))
unfolding run_scenario replay_wals exit_code
run_scenario-replays env command_wal event_wal files commands h fits differ =
    let events = run_engine commands in
    let c =
      write_commands-Stores env.command_slack env.command_disk (files command_wal) commands
        h.command_disk fits h.first h.room in
    let files' = with_command_log env command_wal files commands in
    let e = run_engine-Stores env (files' event_wal) commands h fits in
    let command_reader = map record_read commands ++ (end_of_log ∷ []) in
    let event_reader = map record_read events ++ (end_of_log ∷ []) in
    let faithful : IsFaithful none (new_engine first_sequence) command_reader event_reader =
      record {
        commands_end = ends_cleanly-whole commands;
        stored_end = ends_cleanly-whole events;
        consecutive = ap (is_consecutive none) (read_all-whole commands) ∙ h.consecutive;
        events =
            read_all-whole events
            ∙ unfold run_engine in
              ap (λ cs. (run (new_engine first_sequence) cs).0) (sym (read_all-whole commands));
      } in
    let r = replay command_reader event_reader (new_engine first_sequence) in
    let good : r.ok ≡ true =
      (replay_iff command_reader event_reader (new_engine first_sequence)
          (unfold new_engine in new_book-IsValid first_sequence)).1
        faithful in
    (
      r,
      good,
      rw
          (
            c.whole,
            e.whole,
            differ,
            equal_self command_wal,
            equal_self event_wal,
            c.answers,
            e.answers,
            good,
          )
          refl,
    )
