-- ===== src/App/Main.antt =====
-- main.cpp of src/app: the commands by their names, what they print on their output, and how they
-- end. The texts on the error output are left out.
use fun_exch_macher.Common.{
  ℕ, ◌||◌, ◌==◌, if◌then◌else◌, Option, none, some, List, [], ◌∷◌, ◌++◌, length,
}
use fun_exch_macher.Domain.{OrderCommandRecord, ExecutionEventRecord}
use fun_exch_macher.Replay.Runner.{
  ReplayFailureClass, no_failure, command_read_failed, stored_event_read_failed,
  command_sequence_break, stored_event_missing, extra_stored_event, event_field_mismatch,
  invariant_violation, ReplayResult, ReplayFailure,
}
use fun_exch_macher.App.Text.{Text, codes, equal, show_number}
use fun_exch_macher.App.EventDump.{joined, print_command, print_event}
use fun_exch_macher.App.Scenario.{load_scenario}
use fun_exch_macher.App.Storage.{run_engine, replay_wals}
use fun_exch_macher.App.Run.{Ending, exits, Files, Environment, Run, exit_code, run_scenario}
use fun_exch_macher.App.Dumps.{Dump, dump_events, dump_book, dump_trades}

-- What a command leaves: its end, what it printed, and the files.
pub record Outcome : Type 0 where
  pub ending : Ending
  pub output : Text
  pub files : Files

abbrev usage : Text
usage = joined (
    codes "usage:\n"
    ∷ codes "  matching_engine run <scenario> [command.wal] [event.wal]\n"
    ∷ codes "  matching_engine replay <command.wal> <event.wal>\n"
    ∷ codes "  matching_engine dump-events <event.wal>\n"
    ∷ codes "  matching_engine dump-book <event.wal>\n"
    ∷ codes "  matching_engine dump-trades <event.wal>\n"
    ∷ [])

unfoldable pub print_usage : Files → Outcome
print_usage files = record { ending = exits 1; output = usage; files = files }

abbrev encode_failure_class : ReplayFailureClass → ℕ
encode_failure_class no_failure = 0
encode_failure_class command_read_failed = 1
encode_failure_class stored_event_read_failed = 2
encode_failure_class command_sequence_break = 3
encode_failure_class stored_event_missing = 4
encode_failure_class extra_stored_event = 5
encode_failure_class event_field_mismatch = 6
encode_failure_class invariant_violation = 7

abbrev labelled : Text → Option ExecutionEventRecord → Text
labelled label none = []
labelled label (some e) = label ++ print_event e

unfoldable pub print_failure : ReplayFailure → Text
print_failure f = joined (
    codes "Replay FAILED"
    ∷ (codes " class=" ++ show_number (encode_failure_class f.failure_class))
    ∷ (codes " command_sequence=" ++ show_number f.command_sequence)
    ∷ (codes " event_index=" ++ show_number f.event_index_within_command)
    ∷ (codes " global_event_sequence=" ++ show_number f.global_event_sequence)
    ∷ (b'\n' ∷ [])
    ∷ labelled (codes "expected: ") f.expected_event
    ∷ labelled (codes "actual: ") f.actual_event
    ∷ [])

-- What replay_wals prints.
unfoldable pub print_replay : ReplayResult → Text
print_replay r =
    if r.ok
    then codes "Replay OK: commands="
      ++ (show_number r.commands_replayed
          ++ (codes " events=" ++ (show_number r.events_compared ++ (b'\n' ∷ []))))
    else print_failure r.failure

abbrev pub print_all {ℓ} : {A : Type ℓ} → (A → Text) → List A → Text
print_all print [] = []
print_all print (x ∷ xs) = print x ++ print_all print xs

-- A std::filesystem::path on a stream stands in quotes, in which quotes and backslashes are escaped.
unfoldable pub escaped : Text → Text
escaped [] = b'"' ∷ []
escaped (c ∷ s) =
    let rest = escaped s in if c == b'"' || c == b'\\' then b'\\' ∷ c ∷ rest else c ∷ rest

abbrev quoted : Text → Text
quoted path = b'"' ∷ escaped path

-- What run_command prints before its replay.
unfoldable pub print_run : Text → Text → List OrderCommandRecord → Text
print_run command_wal event_wal commands =
    let events = run_engine commands in
    joined (
      codes "Run OK\ncommands: "
      ∷ show_number (length commands)
      ∷ codes " -> "
      ∷ quoted command_wal
      ∷ codes "\nevents:   "
      ∷ show_number (length events)
      ∷ codes " -> "
      ∷ quoted event_wal
      ∷ codes "\n"
      ∷ print_all print_command commands
      ∷ print_all print_event events
      ∷ [])

abbrev run_output : Text → Option ReplayResult → Text
run_output before none = []
run_output before (some r) = before ++ print_replay r

abbrev pub ran : Text → Option Run → Option Outcome
ran before none = none
ran before (some r) =
    some (record { ending = r.ending; output = run_output before r.replay_result; files = r.files })

abbrev argument_or : List Text → Text → Text
argument_or [] default = default
argument_or (a ∷ _) default = a

abbrev rest_of : List Text → List Text
rest_of [] = []
rest_of (a ∷ rest) = rest

-- run_command on the arguments behind its name.
unfoldable pub run_command : Environment → Files → List Text → Option Outcome
run_command env files [] = some (print_usage files)
run_command env files (scenario_path ∷ rest) =
    let command_wal = argument_or rest (codes "wal/commands.wal") in
    let event_wal = argument_or (rest_of rest) (codes "wal/events.wal") in
    let scenario = load_scenario scenario_path (files scenario_path) in
    if scenario.ok
    then ran (print_run command_wal event_wal scenario.commands)
        (run_scenario env command_wal event_wal files scenario.commands)
    else some (record { ending = exits 1; output = []; files = files })

abbrev pub replay_outcome : Files → Option ReplayResult → Option Outcome
replay_outcome files none = none
replay_outcome files (some r) =
    some (record { ending = exits (exit_code r); output = print_replay r; files = files })

unfoldable pub replay_command : Files → List Text → Option Outcome
replay_command files (command_wal ∷ event_wal ∷ []) =
    replay_outcome files (replay_wals (files command_wal) (files event_wal))
replay_command files _ = some (print_usage files)

abbrev pub dump_outcome : Files → Option Dump → Option Outcome
dump_outcome files none = none
dump_outcome files (some d) =
    some (record { ending = exits d.code; output = d.output; files = files })

-- A dump command takes one path.
unfoldable pub dump_command : (Option (List ℕ) → Option Dump) → Files → List Text → Option Outcome
dump_command dump files (event_wal ∷ []) = dump_outcome files (dump (files event_wal))
dump_command dump files _ = some (print_usage files)

-- The arguments are those behind the name of the program; `none` means that fuel ran out.
unfoldable pub main : Environment → Files → List Text → Option Outcome
main env files [] = some (print_usage files)
main env files (command ∷ rest) =
    if equal command (codes "run")
    then run_command env files rest
    else if equal command (codes "replay")
    then replay_command files rest
    else if equal command (codes "dump-events")
    then dump_command dump_events files rest
    else if equal command (codes "dump-book")
    then dump_command dump_book files rest
    else if equal command (codes "dump-trades")
    then dump_command dump_trades files rest
    else some (print_usage files)
