-- ===== src/App/Ending.antt =====
-- The end of main (main.cpp of src/app) on any arguments.
use fun_exch_macher.Common.{
  ℕ, ◌≤◌, ◌≡◌, refl, Bool, true, false, if_either, Option, some, List, [], ◌∷◌, ◌++◌, arith,
}
use fun_exch_macher.Domain.{ExecutionEventRecord}
use fun_exch_macher.Replay.Runner.{LogReader, record_read, end_of_log, failed}
use fun_exch_macher.Projection.{MarketDataProjection, empty_projection}
use fun_exch_macher.App.Text.{Text, codes, equal}
use fun_exch_macher.App.EventDump.{print_event}
use fun_exch_macher.App.Scenario.{load_scenario}
use fun_exch_macher.App.Storage.{event_log}
use fun_exch_macher.App.Reading.{event_log-ends, replay_wals-ends}
use fun_exch_macher.App.Run.{exits, exit_code, Files, Environment}
use fun_exch_macher.App.Dumps.{
  Dump, over_log, dump_answers, apply_projection, shown, print_book, print_trades, dump_events,
  dump_book, dump_trades,
}
use fun_exch_macher.App.Main.{
  Outcome, print_usage, replay_outcome, main, run_command, replay_command, dump_command,
}
use fun_exch_macher.App.Finishing.{
  Ends-through, EndsWell, ends_with, Finishes, exit_code-bound, run_scenario-RunFinishes,
  ran-Finishes,
}

module _ (env : Environment) (files : Files) where
  exits_with :
      (code : ℕ) (output : Text)
      → code ≤ 2
      → Finishes env (some (record { ending = exits code; output = output; files = files }))
  exits_with code output bound = (_, refl, ends_with code bound refl)

  usage-Finishes : Finishes env (some (print_usage files))
  unfolding print_usage
  usage-Finishes = exits_with 1 _ (omega arith)

  run_command-Finishes : (args : List Text) → Finishes env (run_command env files args)
  unfolding run_command
  run_command-Finishes [] = usage-Finishes
  run_command-Finishes (scenario ∷ rest) =
      if_either (Finishes env) (load_scenario scenario (files scenario)).ok _ _
        (ran-Finishes env _ _ (
          run_scenario-RunFinishes env _ _ files
            (load_scenario scenario (files scenario)).commands))
        (exits_with 1 [] (omega arith))

  replay_command-Finishes : (args : List Text) → Finishes env (replay_command files args)
  unfolding replay_command
  replay_command-Finishes (c ∷ e ∷ []) =
      Ends-through (Finishes env) (replay_outcome files)
        (λ r. exits_with (exit_code r) _ (exit_code-bound r)) (replay_wals-ends (files c) (files e))
  replay_command-Finishes [] = usage-Finishes
  replay_command-Finishes (c ∷ []) = usage-Finishes
  replay_command-Finishes (c ∷ e ∷ x ∷ rest) = usage-Finishes

  -- A dump is there, and its code is at most 1.
  dump_command-Finishes :
      (dump : Option (List ℕ) → Option Dump) (args : List Text)
      → ((file : Option (List ℕ)) → (d : Dump) × (dump file ≡ some d) × (d.code ≤ 1))
      → Finishes env (dump_command dump files args)
  unfolding dump_command
  dump_command-Finishes dump (e ∷ []) h =
      let (d, found, bound) = h (files e) in
      rw found (exits_with d.code d.output (omega (arith, bound)))
  dump_command-Finishes dump [] h = usage-Finishes
  dump_command-Finishes dump (e ∷ x ∷ rest) h = usage-Finishes

abbrev DumpEnds : Option Dump → Type 0
DumpEnds o = (d : Dump) × (o ≡ some d) × (d.code ≤ 1)

dump_answers-bound :
    (output : Text) (log : LogReader ExecutionEventRecord) → (dump_answers output log).code ≤ 1
unfolding dump_answers
dump_answers-bound output [] = omega arith
dump_answers-bound output (end_of_log ∷ rs) = omega arith
dump_answers-bound output (failed ∷ rs) = omega arith
dump_answers-bound output (record_read e ∷ rs) = dump_answers-bound (output ++ print_event e) rs

shown-bound :
    (print : MarketDataProjection → Text) (r : Bool × MarketDataProjection)
    → (shown print r).code ≤ 1
shown-bound print (true, m) = omega arith
shown-bound print (false, m) = omega arith

dumps-end :
    (file : Option (List ℕ))
    → DumpEnds (dump_events file) × DumpEnds (dump_book file) × DumpEnds (dump_trades file)
unfolding dump_events dump_book dump_trades
dumps-end file =
    let dumped =
      λ (f : LogReader ExecutionEventRecord → Dump)
          (bound : (log : LogReader ExecutionEventRecord) → (f log).code ≤ 1).
        Ends-through DumpEnds (over_log f) {o = event_log file} (λ log. (f log, refl, bound log))
          (event_log-ends file) in
    (
      dumped _ (dump_answers-bound []),
      dumped _ (λ log. shown-bound print_book (apply_projection empty_projection log)),
      dumped _
          (λ log. shown-bound (λ m. print_trades m.trades) (apply_projection empty_projection log)),
    )

-- On any arguments and any files, and whatever happens to the writes and to std::filesystem, the
-- program ends, with an output: no loop over a log or a text runs on. It exits with code 0, 1 or 2,
-- or it is aborted, with nothing printed, and then a call of std::filesystem in front of one of the
-- two logs of a run threw.
pub main-ends :
    (env : Environment) (files : Files) (args : List Text)
    → (o : Outcome) × (main env files args ≡ some o) × EndsWell env o
unfolding main
main-ends env files [] = usage-Finishes env files
main-ends env files (command ∷ rest) =
    let ends = Finishes env in
    let usage = usage-Finishes env files in
    if_either ends (equal command (codes "run")) _ _ (run_command-Finishes env files rest) (
      if_either ends (equal command (codes "replay")) _ _ (replay_command-Finishes env files rest) (
        if_either ends (equal command (codes "dump-events")) _ _
          (dump_command-Finishes env files dump_events rest (λ f. (dumps-end f).0))
          (if_either ends (equal command (codes "dump-book")) _ _
            (dump_command-Finishes env files dump_book rest (λ f. (dumps-end f).1))
            (if_either ends (equal command (codes "dump-trades")) _ _
              (dump_command-Finishes env files dump_trades rest (λ f. (dumps-end f).2)) usage))))
