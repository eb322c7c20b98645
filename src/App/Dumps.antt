-- ===== src/App/Dumps.antt =====
-- The dump commands of main.cpp (src/app): events, and the public book and trades that the
-- projection makes of them.
use fun_exch_macher.Common.{
  ℕ, Bool, true, false, ◌==◌, if◌then◌else◌, Option, none, some, List, [], ◌∷◌, ◌++◌,
}
use fun_exch_macher.Domain.{ExecutionEventRecord, encode_side, buy, sell}
use fun_exch_macher.Replay.Runner.{LogReader, record_read, end_of_log, failed}
use fun_exch_macher.Projection.{
  MarketDataProjection, PublicPriceLevel, PublicTrade, ProjectionApplyResult, applied, ignored,
  rejected, empty_projection, apply,
}
use fun_exch_macher.App.Text.{Text, codes, show_number, show_integer}
use fun_exch_macher.App.EventDump.{joined, print_event}
use fun_exch_macher.App.Storage.{event_log}

-- What a dump prints on its output, and its exit code.
pub record Dump : Type 0 where
  pub output : Text
  pub code : ℕ

-- The loop of dump_events_command over the answers of the reader, behind what is printed so far.
unfoldable pub dump_answers : Text → LogReader ExecutionEventRecord → Dump
dump_answers output [] = record { output = output; code = 0 }
dump_answers output (end_of_log ∷ rs) = record { output = output; code = 0 }
dump_answers output (failed ∷ rs) = record { output = output; code = 1 }
dump_answers output (record_read e ∷ rs) = dump_answers (output ++ print_event e) rs

abbrev pub over_log :
    (LogReader ExecutionEventRecord → Dump) → Option (LogReader ExecutionEventRecord) → Option Dump
over_log f none = none
over_log f (some log) = some (f log)

unfoldable pub dump_events : Option (List ℕ) → Option Dump
dump_events event_wal = over_log (dump_answers []) (event_log event_wal)

abbrev pub is_rejected : ProjectionApplyResult → Bool
is_rejected (rejected e) = true
is_rejected applied = false
is_rejected ignored = false

-- The loop of apply_projection_from_event_wal: whether it came to the end of the log, and the
-- projection.
unfoldable pub apply_projection :
    MarketDataProjection → LogReader ExecutionEventRecord → Bool × MarketDataProjection
apply_projection m [] = (true, m)
apply_projection m (end_of_log ∷ rs) = (true, m)
apply_projection m (failed ∷ rs) = (false, m)
apply_projection m (record_read e ∷ rs) =
    let (result, m') = apply m e in
    let rest = apply_projection m' rs in if is_rejected result then (false, m') else rest

unfoldable pub print_levels : List PublicPriceLevel → Text
print_levels [] = []
print_levels (l ∷ ls) =
    (codes "  "
      ++ (show_integer l.price_ticks
          ++ (codes ": " ++ (show_integer l.quantity_lots ++ (b'\n' ∷ [])))))
    ++ print_levels ls

abbrev levels_or_empty : List PublicPriceLevel → Text
levels_or_empty [] = codes "  empty\n"
levels_or_empty (l ∷ ls) = print_levels (l ∷ ls)

unfoldable pub print_book : MarketDataProjection → Text
print_book m = joined (
    (codes "Book instrument=" ++ show_number m.book.instrument_id)
    ∷ (codes " last_event_sequence=" ++ show_number m.last_applied_event_sequence)
    ∷ codes "\nBids:\n"
    ∷ levels_or_empty m.book.bids
    ∷ codes "Asks:\n"
    ∷ levels_or_empty m.book.asks
    ∷ [])

unfoldable pub side_name : ℕ → Text
side_name side =
    if side == encode_side buy
    then codes "BUY"
    else if side == encode_side sell
    then codes "SELL"
    else codes "NA"

unfoldable pub print_trade : PublicTrade → Text
print_trade t = joined (
    (codes "trade=" ++ show_number t.trade_id)
    ∷ (codes " instrument=" ++ show_number t.instrument_id)
    ∷ (codes " incoming=" ++ show_number t.incoming_order_id)
    ∷ (codes " resting=" ++ show_number t.resting_order_id)
    ∷ (codes " side=" ++ side_name t.aggressor_side)
    ∷ (codes " price=" ++ show_integer t.price_ticks)
    ∷ (codes " qty=" ++ show_integer t.quantity_lots)
    ∷ (b'\n' ∷ [])
    ∷ [])

unfoldable pub print_trades : List PublicTrade → Text
print_trades [] = []
print_trades (t ∷ ts) = print_trade t ++ print_trades ts

abbrev pub shown : (MarketDataProjection → Text) → Bool × MarketDataProjection → Dump
shown print (true, m) = record { output = print m; code = 0 }
shown print (false, m) = record { output = []; code = 1 }

unfoldable pub dump_book : Option (List ℕ) → Option Dump
dump_book event_wal =
    over_log (λ log. shown print_book (apply_projection empty_projection log)) (event_log event_wal)

unfoldable pub dump_trades : Option (List ℕ) → Option Dump
dump_trades event_wal =
    over_log (λ log. shown (λ m. print_trades m.trades) (apply_projection empty_projection log))
      (event_log event_wal)
