-- ===== src/App/Run.antt =====
-- run_command of main.cpp (src/app) behind the loading of its scenario: both logs are written and
-- then replayed.
use fun_exch_macher.Common.{ℕ, Bool, true, false, if◌then◌else◌, Option, none, some, List}
use fun_exch_macher.Domain.{OrderCommandRecord, ExecutionEventRecord}
use fun_exch_macher.Replay.Runner.{ReplayResult}
use fun_exch_macher.App.Text.{Text, equal}
use fun_exch_macher.App.Storage.{Disk, write_commands, write_events, run_engine, replay_wals}

-- The exit code of replay_wals.
unfoldable pub exit_code : ReplayResult → ℕ
exit_code r = if r.ok then 0 else 2

-- The files of the system by their paths.
abbrev pub Files : Type 0
Files = Text → Option (List ℕ)

abbrev pub put : Text → Option (List ℕ) → Files → Files
put path file files p = if equal p path then file else files p

-- What the program does not decide: the padding in the images of both kinds of records, and what
-- happens to the writes of both logs.
pub record Environment : Type 0 where
  pub command_slack : OrderCommandRecord → ℕ
  pub event_slack : ExecutionEventRecord → ℕ
  pub command_disk : Disk
  pub event_disk : Disk

-- The program ends with an exit code, or an exception that nothing catches aborts it.
pub data Ending : Type 0 where
  exits : ℕ → Ending
  aborts : Ending

-- The end of a run, the files that it leaves, and what the replay found if it came to that.
pub record Run : Type 0 where
  pub ending : Ending
  pub files : Files
  pub replay_result : Option ReplayResult

abbrev pub replayed : Files → Option ReplayResult → Option Run
replayed files none = none
replayed files (some r) =
    some (record { ending = exits (exit_code r); files = files; replay_result = some r })

abbrev not_replayed : Files → Option Run
not_replayed files = some (record { ending = exits 1; files = files; replay_result = none })

abbrev aborted : Files → Option Run
aborted files = some (record { ending = aborts; files = files; replay_result = none })

-- What follows the writing of a log: an exception or a failure ends the run.
abbrev pub after_log : Option Bool → Files → Option Run → Option Run
after_log none files rest = aborted files
after_log (some false) files rest = not_replayed files
after_log (some true) files rest = rest

unfoldable pub run_scenario :
    Environment → Text → Text → Files → List OrderCommandRecord → Option Run
run_scenario env command_wal event_wal files commands =
    let (written, command_file) =
      write_commands env.command_slack env.command_disk (files command_wal) commands in
    let files' = put command_wal command_file files in
    let (stored, event_file) =
      write_events env.event_slack env.event_disk (files' event_wal) (run_engine commands) in
    let files'' = put event_wal event_file files' in
    after_log written files' (
      after_log stored files''
        (replayed files'' (replay_wals (files'' command_wal) (files'' event_wal))))
