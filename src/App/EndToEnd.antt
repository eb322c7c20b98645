-- ===== src/App/EndToEnd.antt =====
-- main (main.cpp of src/app) from the text of a scenario to the dump of its events.
use fun_exch_macher.Common.{◌≡◌, refl, sym, ◌∙◌, true, false, some, List, [], ◌∷◌, ◌++◌, map}
use mathlib.Core.List.{append_assoc, append-nil}
use fun_exch_macher.Domain.{OrderCommandRecord, ExecutionEventRecord}
use fun_exch_macher.Replay.Runner.{record_read, end_of_log}
use fun_exch_macher.App.Text.{Text, codes, equal}
use fun_exch_macher.App.EventDump.{print_event}
use fun_exch_macher.App.Scenario.{load_scenario}
use fun_exch_macher.App.Loaded.{load_scenario-Fits}
use fun_exch_macher.App.Storage.{run_engine, event_log}
use fun_exch_macher.App.Run.{exits, Files, Environment}
use fun_exch_macher.App.Replayed.{
  with_command_log, written_files, IsReady, run_scenario-replays, run_engine-Stores, equal_self,
}
use fun_exch_macher.App.Dumps.{dump_answers, dump_events}
use fun_exch_macher.App.Main.{
  Outcome, ran, print_all, print_run, print_replay, main, run_command, dump_command,
}

dump_answers-whole :
    (output : Text) (es : List ExecutionEventRecord)
    → dump_answers output (map record_read es ++ (end_of_log ∷ []))
      ≡ record { output = output ++ print_all print_event es; code = 0 }
unfolding dump_answers
dump_answers-whole output [] = λ i. record { output = sym (append-nil output) i; code = 0 }
dump_answers-whole output (e ∷ es) = dump_answers-whole (output ++ print_event e) es ∙ λ i. record {
  output = append_assoc output (print_event e) (print_all print_event es) i;
  code = 0;
}

-- A run of a scenario that loads, on working disks, exits with 0, and the reader of its event log
-- gets the events of the engine and the end.
module _ (env : Environment) (files : Files) (scenario command_wal event_wal : Text)
    (loads : (load_scenario scenario (files scenario)).ok ≡ true)
    (h : IsReady env (load_scenario scenario (files scenario)).commands)
    (differ : equal command_wal event_wal ≡ false) where
  abbrev commands : List OrderCommandRecord
  commands = (load_scenario scenario (files scenario)).commands

  pub main-run :
      (o : Outcome) × (main env files (codes "run" ∷ scenario ∷ command_wal ∷ event_wal ∷ [])
        ≡ some o)
      × (o.ending ≡ exits 0)
      × (event_log (o.files event_wal)
          ≡ some (map record_read (run_engine commands) ++ (end_of_log ∷ [])))
  unfolding main run_command equal
  main-run =
      let fits = load_scenario-Fits scenario (files scenario) in
      let (r, good, ran) =
        run_scenario-replays env command_wal event_wal files commands h fits differ in
      let files' = with_command_log env command_wal files commands in
      let e = run_engine-Stores env (files' event_wal) commands h fits in
      (
        record {
          ending = exits 0;
          output = print_run command_wal event_wal commands ++ print_replay r;
          files = written_files env command_wal event_wal files commands;
        },
        rw (loads, ran) refl,
        refl,
        rw (equal_self event_wal, e.answers) refl,
      )

-- If the text of a scenario loads, its commands have consecutive sequences that do not start at 0 or
-- reach 2 ^ 64, there are fewer than 2 ^ 64 - 1 events, both disks work and the paths of the logs
-- differ, then `run` exits with code 0, which says that the replay of the logs it wrote succeeded;
-- and `dump-events` on the event log then prints the events of the engine, in order, and exits with
-- code 0.
pub main-run_dump :
    (env : Environment) (files : Files) (scenario command_wal event_wal : Text)
    → (load_scenario scenario (files scenario)).ok ≡ true
    → IsReady env (load_scenario scenario (files scenario)).commands
    → equal command_wal event_wal ≡ false
    → (o : Outcome) × (main env files (codes "run" ∷ scenario ∷ command_wal ∷ event_wal ∷ [])
        ≡ some o)
      × (o.ending ≡ exits 0)
      × (main env o.files (codes "dump-events" ∷ event_wal ∷ [])
          ≡ some (record {
            ending = exits 0;
            output =
                print_all print_event
                  (run_engine (load_scenario scenario (files scenario)).commands);
            files = o.files;
          }))
unfolding main dump_command dump_events equal
main-run_dump env files scenario command_wal event_wal loads h differ =
    let (o, ran, good, log) = main-run env files scenario command_wal event_wal loads h differ in
    (o, ran, good, rw (log, dump_answers-whole [] _) refl)
