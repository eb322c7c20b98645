-- ===== src/Tests/Apps.antt =====
-- The application's theorems on a scenario of two orders that trade.
use fun_exch_macher.Common.{
  ◌≡◌, refl, true, false, if◌then◌else◌, none, some, List, [], ◌∷◌, length, All, arith,
}
use fun_exch_macher.Common.Int.{min_ℤ, ◌-ℤ◌, ℤ, pos, magnitude}
use fun_exch_macher.Common.Dict.{insert, lookup, contains, erase}
use fun_exch_macher.Domain.{
  OrderCommandRecord, decode_command_type, decode_side, decode_time_in_force,
}
use fun_exch_macher.Domain.Fits.{FitsCommand}
use fun_exch_macher.OrderBook.Types.{RestingOrder, new_book, increment}
use fun_exch_macher.OrderBook.Validate.{validate_new_order, validate_order_book_instrument}
use fun_exch_macher.OrderBook.Emit.{emit_order_event, emit_trade_event}
use fun_exch_macher.OrderBook.Levels.{rest_order, push_back}
use fun_exch_macher.OrderBook.Match.{
  trade, match_buy_order_against_asks, match_sell_order_against_bids, match_levels, match_level,
}
use fun_exch_macher.OrderBook.Apply.{
  apply_new_order, accept_new_order, bind_instrument_if_needed, match_order, settle,
}
use fun_exch_macher.Engine.{new_engine, apply, run}
use fun_exch_macher.Engine.Bounds.{run-FitsOutcome}
use fun_exch_macher.OrderBook.LevelBounds.{FitsOutcome}
use fun_exch_macher.Wal.Writer.{wrote_all}
use fun_exch_macher.Replay.Correct.{is_consecutive}
use fun_exch_macher.App.Text.{
  Text, codes, equal, digits, show_number, read_digits, read_number, parse_u64, parse_i64, upper,
  uppercase, split, words, lines,
}
use fun_exch_macher.App.EventDump.{print_event}
use fun_exch_macher.App.Scenario.{
  hash_token, stable_id, instrument_id, parse_side, parse_tif, parse_terms, new_row, operation_row,
  parse_row, is_skipped, load_lines, load_scenario,
}
use fun_exch_macher.App.Loaded.{load_scenario-Fits}
use fun_exch_macher.App.Storage.{Disk, prepared, run_engine, first_command}
use fun_exch_macher.App.Written.{IsWorking}
use fun_exch_macher.App.Run.{exits, Files, Environment}
use fun_exch_macher.App.Replayed.{IsReady}
use fun_exch_macher.App.Main.{Outcome, print_all, main}
use fun_exch_macher.App.EndToEnd.{main-run_dump}
use fun_exch_macher.App.Finishing.{EndsWell}
use fun_exch_macher.App.Ending.{main-ends}
use fun_exch_macher.App.Dumps.{print_book, print_trades}
use fun_exch_macher.App.DumpedBook.{trades_of, main-run_dumps}
use fun_exch_macher.Projection.{MarketDataProjection, empty_projection}
use fun_exch_macher.Projection.Shown.{project}
use fun_exch_macher.Projection.Tracks.{AreTaken}
use fun_exch_macher.Projection.Follows.{IsOrderNamed}
use fun_exch_macher.Projection.Agrees.{Agrees, rests_at, FitsLevels, project-run}

abbrev scenario : Text
scenario = codes "# two orders\n\nNEW 1 TEST C1 10 BUY 100 5 GTC\nnew 2 TEST C2 S1 sell 100 3 gtc\n"

abbrev files : Files
files path = if equal path (codes "s.txt") then some scenario else none

abbrev disk : Disk
disk = record {
  preparation = prepared;
  opens = true;
  header = wrote_all;
  outcome = λ i. wrote_all;
  tail = λ i. 0;
  flushed = true;
}

disk-IsWorking : IsWorking disk
disk-IsWorking = record {
  preparation = refl;
  opens = refl;
  header = refl;
  outcome = λ i. refl;
  tail = λ i. omega arith;
  flushed = refl;
}

abbrev env : Environment
env = record {
  command_slack = λ c. 0;
  event_slack = λ e. 0;
  command_disk = disk;
  event_disk = disk;
}

abbrev commands : List OrderCommandRecord
commands = (load_scenario (codes "s.txt") (files (codes "s.txt"))).commands

loads :
    ((load_scenario (codes "s.txt") (files (codes "s.txt"))).ok ≡ true)
    × (is_consecutive none commands ≡ true)
    × (first_command commands ≡ 1)
    × (length commands ≡ 2)
    × (length (run_engine commands) ≡ 5)
    × All IsOrderNamed commands
    × ((o : RestingOrder) × ((run (new_engine 1) commands).1.bids ≡ (pos 100, o ∷ []) ∷ [])
        × ((run (new_engine 1) commands).1.asks ≡ [])
        × (magnitude o.remaining_quantity_lots ≡ 2))
unfolding equal digits show_number read_digits read_number parse_u64 parse_i64 upper uppercase split
    words lines hash_token stable_id instrument_id parse_side parse_tif parse_terms new_row
    operation_row parse_row is_skipped load_lines load_scenario run_engine new_engine run apply
    apply_new_order accept_new_order bind_instrument_if_needed match_order settle new_book
    emit_order_event rest_order push_back increment match_buy_order_against_asks
    match_sell_order_against_bids match_levels match_level insert lookup contains erase
    validate_new_order validate_order_book_instrument decode_command_type decode_side
    decode_time_in_force trade emit_trade_event min_ℤ ◌-ℤ◌
loads = (
  refl,
  refl,
  refl,
  refl,
  refl,
  (λ new zero. absurd (ground (arith, zero)), (λ new zero. absurd (ground (arith, zero)), tt)),
  (_, refl, refl, refl),
)

levels_fit : FitsLevels (run (new_engine 1) commands).1
unfolding rests_at
levels_fit =
    let (o, bids, asks, left) = loads.6 in
    record { bids = λ price. rw bids (ground (arith, left)); asks = λ price. rw asks (omega arith) }

ready : IsReady env commands
ready = record {
  command_disk = disk-IsWorking;
  event_disk = disk-IsWorking;
  consecutive = loads.1;
  first = λ e. absurd (omega (arith, e, loads.2));
  room = omega (arith, loads.2, loads.3);
  event_room = omega (arith, loads.4);
}

paths_differ : equal (codes "c.wal") (codes "e.wal") ≡ false
unfolding equal
paths_differ = refl

main-run_dump_example :
    (o : Outcome) × (main env files
        (codes "run" ∷ codes "s.txt" ∷ codes "c.wal" ∷ codes "e.wal" ∷ [])
      ≡ some o)
    × (o.ending ≡ exits 0)
    × (main env o.files (codes "dump-events" ∷ codes "e.wal" ∷ [])
        ≡ some (record {
          ending = exits 0;
          output = print_all print_event (run_engine commands);
          files = o.files;
        }))
main-run_dump_example =
    main-run_dump env files (codes "s.txt") (codes "c.wal") (codes "e.wal") loads.0 ready
      paths_differ

main-ends_example :
    (o : Outcome) × (main env files (codes "dump-book" ∷ codes "s.txt" ∷ []) ≡ some o)
    × EndsWell env o
main-ends_example = main-ends env files (codes "dump-book" ∷ codes "s.txt" ∷ [])

load_scenario-Fits_example :
    All FitsCommand (load_scenario (codes "s.txt") (some scenario)).commands
load_scenario-Fits_example = load_scenario-Fits (codes "s.txt") (some scenario)

run-FitsOutcome_example : FitsOutcome (run (new_book 1) commands)
run-FitsOutcome_example =
    run-FitsOutcome 1 commands (omega arith)
      (load_scenario-Fits (codes "s.txt") (files (codes "s.txt")))

main-run_dumps_example :
    (o : Outcome) × (m : MarketDataProjection) × (main env files
        (codes "run" ∷ codes "s.txt" ∷ codes "c.wal" ∷ codes "e.wal" ∷ [])
      ≡ some o)
    × (o.ending ≡ exits 0)
    × (main env o.files (codes "dump-book" ∷ codes "e.wal" ∷ [])
        ≡ some (record { ending = exits 0; output = print_book m; files = o.files }))
    × ((price : ℤ) → Agrees (run (new_engine 1) commands).1 m.book price)
    × (main env o.files (codes "dump-trades" ∷ codes "e.wal" ∷ [])
        ≡ some (record {
          ending = exits 0;
          output = print_trades (trades_of (run_engine commands));
          files = o.files;
        }))
main-run_dumps_example =
    main-run_dumps env files (codes "s.txt") (codes "c.wal") (codes "e.wal") loads.0 ready
      paths_differ loads.5 levels_fit

project-run_example :
    AreTaken empty_projection (run (new_engine 1) commands).0
    × ((price : ℤ)
        → Agrees
            (run (new_engine 1) commands).1
            (project empty_projection (run (new_engine 1) commands).0).book
            price)
project-run_example = project-run commands loads.5 levels_fit
