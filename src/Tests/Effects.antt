-- ===== src/Tests/Effects.antt =====
-- What commands do, at concrete inputs.
use fun_exch_macher.Common.{pos, ◌≡◌, refl, [], ◌∷◌, ◌++◌, some}
use fun_exch_macher.Domain.{OrderCommandRecord, ExecutionEventRecord, buy}
use fun_exch_macher.Common.Dict.{insert, lookup, contains, erase}
use fun_exch_macher.Domain.{
  decode_command_type, decode_side, decode_time_in_force, cancel_order, unsupported_command,
}
use fun_exch_macher.OrderBook.Types.{RestingOrder, new_book, increment}
use fun_exch_macher.OrderBook.Validate.{validate_new_order, validate_order_book_instrument}
use fun_exch_macher.OrderBook.Emit.{emit_order_event, emit_rejection_event}
use fun_exch_macher.OrderBook.Levels.{rest_order, push_back, find_order}
use fun_exch_macher.OrderBook.Match.{
  match_buy_order_against_asks, match_sell_order_against_bids, match_levels, match_level,
}
use fun_exch_macher.OrderBook.Apply.{
  apply_new_order, apply_cancel_order, apply_replace_order, accept_new_order,
  bind_instrument_if_needed, match_order, settle, cancel_resting, replacement_new_order_command,
  reject, reject_unsupported_command,
}
use fun_exch_macher.OrderBook.Accepts.{IsReplaceable, validate_replace_order-accepts}
use fun_exch_macher.OrderBook.Cancel.{IsRemoved, apply_cancel_order-IsRemoved}
use fun_exch_macher.OrderBook.Replace.{apply_replace_order-accepts}
use fun_exch_macher.OrderBook.Conserves.{Conserves, match_order-Conserves}
use fun_exch_macher.Engine.{apply, run}
use fun_exch_macher.Engine.Rejecting.{IsUntouched, apply-RejectsCleanly}
use fun_exch_macher.Tests.Books.{
  command, resting, resting-IsValid, bid, bid-IsAcceptable, accepted, cancellation, replacement,
}

abbrev first_resting : RestingOrder
first_resting = record {
  order_id = 10;
  client_id = 9;
  instrument_id = 7;
  side = 2;
  price_ticks = pos 100;
  remaining_quantity_lots = pos 5;
}

abbrev unknown : OrderCommandRecord
unknown = command 9 3 30 1 (pos 100) (pos 5)

found_first :
    (find_order resting 10 ≡ some first_resting)
    × (decode_command_type cancellation.command_type ≡ some cancel_order)
unfolding run apply apply_new_order accept_new_order bind_instrument_if_needed match_order settle
    new_book emit_order_event rest_order push_back increment match_buy_order_against_asks
    match_sell_order_against_bids match_levels match_level insert lookup contains erase find_order
    validate_new_order validate_order_book_instrument decode_command_type decode_side
    decode_time_in_force
found_first = (refl, refl)

apply_cancel_order-IsRemoved_example :
    IsRemoved resting (apply_cancel_order resting cancellation).1 10
apply_cancel_order-IsRemoved_example =
    apply_cancel_order-IsRemoved resting cancellation first_resting resting-IsValid
      (record { command_type = found_first.1; found = found_first.0; instrument = refl })

abbrev replaceable : (o : RestingOrder) × IsReplaceable resting replacement o
replaceable = validate_replace_order-accepts resting replacement accepted.1

apply_replace_order-accepts_example : apply_replace_order resting replacement ≡ (
  (cancel_resting resting replacement replaceable.0).0
      ++ (accept_new_order
          (cancel_resting resting replacement replaceable.0).1
          (replacement_new_order_command replacement)).0,
  (accept_new_order
      (cancel_resting resting replacement replaceable.0).1
      (replacement_new_order_command replacement)).1,
)
apply_replace_order-accepts_example =
    apply_replace_order-accepts resting replacement replaceable.0 resting-IsValid replaceable.1

match_order-Conserves_example : Conserves buy resting bid (match_order resting bid)
match_order-Conserves_example =
    match_order-Conserves resting bid buy resting-IsValid bid-IsAcceptable.form.quantity accepted.2

abbrev rejection : ExecutionEventRecord
rejection = (emit_rejection_event (new_book 1) unknown unsupported_command).0

rejected : (apply (new_book 1) unknown).0 ≡ rejection ∷ []
unfolding apply decode_command_type reject_unsupported_command reject
rejected = refl

apply-RejectsCleanly_example : IsUntouched (new_book 1) (apply (new_book 1) unknown).1 []
unfolding emit_rejection_event emit_order_event
apply-RejectsCleanly_example = apply-RejectsCleanly (new_book 1) unknown rejection [] rejected refl
