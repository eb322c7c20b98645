-- ===== src/Tests/Logs.antt =====
-- The engine's and the replay's theorems on a session of four commands.
use fun_exch_macher.Common.{arith, ℕ, pos, ◌≡◌, ◌≢◌, ap, ◌↔◌, true, false, none, List, [], ◌∷◌, map}
use fun_exch_macher.Common.Int.{magnitude}
use fun_exch_macher.Domain.{OrderCommandRecord, ExecutionEventRecord}
use fun_exch_macher.OrderBook.Types.{new_book}
use fun_exch_macher.OrderBook.Check.{validate_invariants}
use fun_exch_macher.OrderBook.Invariant.{new_book-IsValid}
use fun_exch_macher.OrderBook.Numbering.{NumbersFrom}
use fun_exch_macher.Engine.{new_engine, apply, run}
use fun_exch_macher.Engine.Invariant.{validate_invariants-run}
use fun_exch_macher.Engine.Numbering.{apply-NumbersFrom, IsContiguous, run-IsContiguous}
use fun_exch_macher.Replay.Compare.{compare}
use fun_exch_macher.Replay.Comparing.{compare_iff}
use fun_exch_macher.Replay.Failing.{
  is_violation, is_violation-replay, ReportsMismatch, compare_events-mismatch,
}
use fun_exch_macher.Replay.Runner.{
  LogReader, record_read, stopped, ReplayFailure, compare_events, replay,
}
use fun_exch_macher.Replay.Correct.{IsFaithful, replay_iff}
use fun_exch_macher.Tests.Books.{command, first_offer, second_offer, bid, resting}

abbrev session : List OrderCommandRecord
session = first_offer ∷ second_offer ∷ bid ∷ command 2 4 11 2 (pos 101) (pos 3) ∷ []

validate_invariants-run_example : validate_invariants (run (new_engine 1) session).1 ≡ true
validate_invariants-run_example = validate_invariants-run 1 session

apply-NumbersFrom_example : NumbersFrom resting bid (apply resting bid)
apply-NumbersFrom_example = apply-NumbersFrom resting bid

run-IsContiguous_example :
    IsContiguous 3 (run (new_book 3) session).0 (run (new_book 3) session).1.next_event_sequence
unfolding new_book
run-IsContiguous_example = run-IsContiguous (new_book 3) session

abbrev commands : LogReader OrderCommandRecord
commands = map record_read session

abbrev stored : LogReader ExecutionEventRecord
stored = map record_read (run (new_book 1) session).0

replay_iff_example :
    ((replay commands stored (new_book 1)).ok ≡ true) ↔ IsFaithful none (new_book 1) commands stored
replay_iff_example = replay_iff commands stored (new_book 1) (new_book-IsValid 1)

abbrev event : ℕ → ExecutionEventRecord
event quantity = record {
  event_sequence = 3;
  command_sequence = 2;
  source_ingress_epoch = 1;
  source_ingress_sequence = 2;
  order_id = 12;
  contra_order_id = 10;
  trade_id = 1;
  price_ticks = pos 100;
  quantity_lots = pos quantity;
  remaining_quantity_lots = pos 2;
  instrument_id = 7;
  event_type = 3;
  side = 1;
  rejection_reason = 0;
  reserved = 0;
}

compare_iff_example : ((compare (event 5) (event 6)).equal ≡ true) ↔ (event 5 ≡ event 6)
compare_iff_example = compare_iff (event 5) (event 6)

is_violation-replay_example :
    is_violation (replay commands (record_read (event 5) ∷ []) (new_book 1)).failure.failure_class
    ≡ false
is_violation-replay_example =
    is_violation-replay commands (record_read (event 5) ∷ []) (new_book 1) (new_book-IsValid 1)

events_differ : event 5 ≢ event 6
events_differ e =
    absurd (omega (arith, ap (λ (x : ExecutionEventRecord). magnitude x.quantity_lots) e))

compare_events-mismatch_example :
    (f : ReplayFailure) × ReportsMismatch bid (event 5) (event 6) 1 f
    × (compare_events bid resting resting
          (event 4 ∷ event 5 ∷ [])
          0
          (record_read (event 4) ∷ record_read (event 6) ∷ [])
          2
        ≡ stopped f 3)
compare_events-mismatch_example =
    compare_events-mismatch bid resting resting (event 4 ∷ []) (event 5) [] (event 6) [] 0 2
      events_differ (omega arith)
