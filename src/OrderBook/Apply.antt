-- ===== src/OrderBook/Apply.antt =====
-- The command handlers of order_book.cpp. Each returns the events and the new book.
use fun_exch_macher.Common.{
  ℕ, pos, not, ◌==◌, List, [], ◌∷◌, ◌++◌, if◌then◌else◌, Option, none, some,
}
use fun_exch_macher.Common.Int.{◌-ℤ◌, eqb_ℤ}
use fun_exch_macher.Domain.{
  OrderCommandRecord, ExecutionEventRecord, order_accepted, order_fully_filled,
  order_partially_filled, order_rested, RejectionReason, unsupported_command, unknown_order_id,
  instrument_mismatch, new_order, cancel_order, encode_command_type, decode_command_type,
  is_command_type, decode_side, is_side, buy,
}
use fun_exch_macher.OrderBook.Types.{OrderBook, RestingOrder}
use fun_exch_macher.OrderBook.Emit.{emit_order_event, emit_rejection_event, emit_cancel_event}
use fun_exch_macher.OrderBook.Levels.{rest_order, remove_cancelled_order, find_order}
use fun_exch_macher.OrderBook.Validate.{validate_new_order, validate_replace_order, is_rejection}
use fun_exch_macher.OrderBook.Match.{
  Matched, match_buy_order_against_asks, match_sell_order_against_bids,
}

abbrev pub Outcome : Type 0
Outcome = List ExecutionEventRecord × OrderBook

unfoldable pub reject : OrderBook → OrderCommandRecord → RejectionReason → Outcome
reject b c reason = let (e, b') = emit_rejection_event b c reason in (e ∷ [], b')

abbrev bound_instrument : Option ℕ → ℕ → Option ℕ
bound_instrument none i = some i
bound_instrument (some j) i = some j

unfoldable pub bind_instrument_if_needed : OrderBook → ℕ → OrderBook
bind_instrument_if_needed b i = record b { instrument_id = bound_instrument b.instrument_id i }

unfoldable pub match_order : OrderBook → OrderCommandRecord → Matched
match_order b c =
    if is_side (decode_side c.side) buy
    then match_buy_order_against_asks b c
    else match_sell_order_against_bids b c

-- The end of apply_new_order, from its test of what matching left.
unfoldable pub settle : OrderCommandRecord → Matched → Outcome
settle c m =
    let (filled, filled_book) =
      emit_order_event m.book c order_fully_filled c.quantity_lots (pos 0) in
    let has_trade = not (eqb_ℤ m.remaining c.quantity_lots) in
    let (rested, rested_book) =
      emit_order_event (rest_order m.book c m.remaining) c
        (if has_trade then order_partially_filled else order_rested)
        (c.quantity_lots -ℤ m.remaining) m.remaining in
    if eqb_ℤ m.remaining (pos 0)
    then (m.events ++ (filled ∷ []), filled_book)
    else (m.events ++ (rested ∷ []), rested_book)

-- apply_new_order after validation.
unfoldable pub accept_new_order : OrderBook → OrderCommandRecord → Outcome
accept_new_order b c =
    let (accepted, b') =
      emit_order_event (bind_instrument_if_needed b c.instrument_id) c order_accepted
        c.quantity_lots c.quantity_lots in
    let (events, b'') = settle c (match_order b' c) in (accepted ∷ events, b'')

unfoldable pub apply_new_order : OrderBook → OrderCommandRecord → Outcome
apply_new_order b c =
    let reason = validate_new_order b c in
    if is_rejection reason then reject b c reason else accept_new_order b c

-- The removal of an order, and its event.
unfoldable pub cancel_resting : OrderBook → OrderCommandRecord → RestingOrder → Outcome
cancel_resting b c o =
    let (e, b') = emit_cancel_event (remove_cancelled_order b o) c o in (e ∷ [], b')

unfoldable pub apply_cancel_order : OrderBook → OrderCommandRecord → Outcome
apply_cancel_order b c =
    if not (is_command_type (decode_command_type c.command_type) cancel_order)
    then reject b c unsupported_command
    else elim (find_order b c.order_id) [
      | none ↦ reject b c unknown_order_id
      | some o ↦
          if not (o.instrument_id == c.instrument_id)
          then reject b c instrument_mismatch
          else cancel_resting b c o
    ]

unfoldable pub replacement_new_order_command : OrderCommandRecord → OrderCommandRecord
replacement_new_order_command c = record c {
  command_type = encode_command_type new_order;
  order_id = c.replacement_order_id;
}

-- apply_replace_order after validation, which has found the order.
unfoldable pub replace_resting : OrderBook → OrderCommandRecord → RestingOrder → Outcome
replace_resting b c o =
    let (cancelled, b') = cancel_resting b c o in
    let (events, b'') = apply_new_order b' (replacement_new_order_command c) in
    (cancelled ++ events, b'')

-- The source reads the order through an optional that validation has shown to hold one.
unfoldable pub apply_replace_order : OrderBook → OrderCommandRecord → Outcome
apply_replace_order b c =
    let reason = validate_replace_order b c in
    if is_rejection reason
    then reject b c reason
    else elim (find_order b c.order_id) [ none ↦ ([], b) | some o ↦ replace_resting b c o ]

unfoldable pub reject_unsupported_command : OrderBook → OrderCommandRecord → Outcome
reject_unsupported_command b c = reject b c unsupported_command
