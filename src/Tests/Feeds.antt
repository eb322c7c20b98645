-- ===== src/Tests/Feeds.antt =====
-- The theorems on the public book at two events, and those on the calls of a writer.
use fun_exch_macher.Common.{ℕ, arith, List, pos, ◌≡◌, refl, true, false, [], ◌∷◌, ◌++◌}
use fun_exch_macher.Common.Int.{◌-ℤ◌}
use fun_exch_macher.Common.Dict.{insert, lookup, erase}
use fun_exch_macher.OrderBook.Types.{increment}
use fun_exch_macher.Domain.{ExecutionEventRecord, encode_event_type, order_rested, trade_executed}
use fun_exch_macher.Projection.{
  empty_projection, apply, OrderState, dispatch, apply_rested, upsert_order, apply_trade,
  reduce_order,
}
use fun_exch_macher.Projection.Steps.{IsStep, apply-IsStep}
use fun_exch_macher.Projection.Depth.{FitsDepth, open_at, ShowsDepth}
use fun_exch_macher.Projection.Shown.{project, project-ShowsDepth}
use fun_exch_macher.Wal.Types.{cannot_write_file}
use fun_exch_macher.Wal.Reader.{is_no_error}
use fun_exch_macher.Wal.Writer.{
  append, write_record, wrote_all, broke_after, fail_writer, write_bytes,
}
use fun_exch_macher.Wal.Opening.{create_segment, write_segment_header}
use fun_exch_macher.Wal.Written.{new_segment}
use fun_exch_macher.Wal.Delivery.{takings, run_calls-delivers}
use fun_exch_macher.Wal.Queue.{
  WriterCall, appends, commits, pops, History, IsQueue, IsFrozen, run_calls, run_calls-IsQueue,
  run_calls-IsFrozen,
}

abbrev event : ℕ → ℕ → ℕ → ℕ → ExecutionEventRecord
event sequence kind id contra = record {
  event_sequence = sequence;
  command_sequence = sequence;
  source_ingress_epoch = 1;
  source_ingress_sequence = sequence;
  order_id = id;
  contra_order_id = contra;
  trade_id = 1;
  price_ticks = pos 100;
  quantity_lots = pos 2;
  remaining_quantity_lots = pos 5;
  instrument_id = 7;
  event_type = kind;
  side = 2;
  rejection_reason = 0;
  reserved = 0;
}

abbrev rested : ExecutionEventRecord
rested = event 1 (encode_event_type order_rested) 10 0

abbrev traded : ExecutionEventRecord
traded = event 2 (encode_event_type trade_executed) 11 10

left_open :
    (o : OrderState) × ((project empty_projection (rested ∷ traded ∷ [])).active_orders
      ≡ (10, o) ∷ [])
    × (o.remaining_quantity_lots ≡ pos 3)
unfolding project apply dispatch apply_rested upsert_order apply_trade reduce_order insert lookup
    increment ◌-ℤ◌ erase
left_open = (_, refl, refl)

depth_fits : FitsDepth (project empty_projection (rested ∷ traded ∷ [])).active_orders
unfolding open_at
depth_fits =
    let (o, active, left) = left_open in
    record {
      bids = λ price. rw (active, left) (ground arith);
      asks = λ price. rw (active, left) (ground arith);
    }

project-ShowsDepth_example :
    ShowsDepth
      (project empty_projection (rested ∷ traded ∷ [])).active_orders
      (project empty_projection (rested ∷ traded ∷ [])).book
      (pos 100)
project-ShowsDepth_example = project-ShowsDepth (rested ∷ traded ∷ []) (pos 100) depth_fits

apply-IsStep_example : IsStep empty_projection rested (apply empty_projection rested)
apply-IsStep_example = apply-IsStep empty_projection rested

abbrev calls : List WriterCall
calls =
    appends 300 0 (7 ∷ []) wrote_all
    ∷ commits true
    ∷ pops
    ∷ appends 301 0 (8 ∷ []) (broke_after 9)
    ∷ pops
    ∷ []

abbrev fresh : History
fresh = record { writer = new_segment 1 2 5; given = []; taken = [] }

fresh-IsQueue : IsQueue fresh
unfolding create_segment write_segment_header write_bytes
fresh-IsQueue = refl

-- Two positions are given and wait for a commit.
abbrev two_appends : List WriterCall
two_appends = appends 300 0 (7 ∷ []) wrote_all ∷ appends 301 0 (8 ∷ []) wrote_all ∷ []

abbrev two_appended : History
two_appended = run_calls two_appends fresh

two_appended-works :
    (is_no_error two_appended.writer.writer_error ≡ true) × (two_appended.writer.good ≡ true)
unfolding create_segment write_segment_header write_bytes append write_record
two_appended-works = (refl, refl)

run_calls-delivers_example :
    (run_calls
      (commits true
        ∷ takings
            (two_appended.writer.committed_positions ++ two_appended.writer.pending_positions))
      two_appended).taken
    ≡ two_appended.given
run_calls-delivers_example =
    run_calls-delivers two_appended (run_calls-IsQueue two_appends fresh fresh-IsQueue)
      two_appended-works.0 two_appended-works.1

run_calls-IsQueue_example : IsQueue (run_calls calls fresh)
run_calls-IsQueue_example = run_calls-IsQueue calls fresh fresh-IsQueue

abbrev failed : History
failed = record {
  writer = fail_writer (new_segment 1 2 5) cannot_write_file;
  given = [];
  taken = [];
}

failed-error : is_no_error failed.writer.writer_error ≡ false
unfolding create_segment write_segment_header write_bytes fail_writer
failed-error = refl

run_calls-IsFrozen_example : IsFrozen failed (run_calls calls failed)
run_calls-IsFrozen_example = run_calls-IsFrozen calls failed failed-error
