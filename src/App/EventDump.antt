-- ===== src/App/EventDump.antt =====
-- event_dump.cpp of src/app: commands and events as lines of text.
use fun_exch_macher.Common.{ℕ, pos, ◌&&◌, ◌==◌, if◌then◌else◌, List, [], ◌∷◌, ◌++◌}
use fun_exch_macher.Common.Int.{eqb_ℤ}
use fun_exch_macher.Domain.{OrderCommandRecord, ExecutionEventRecord}
use fun_exch_macher.App.Text.{Text, codes, show_number, show_integer}

unfoldable pub command_type : ℕ → Text
command_type value =
    if value == 1
    then codes "NEW"
    else if value == 2
    then codes "CANCEL"
    else if value == 3
    then codes "REPLACE"
    else codes "UNKNOWN"

unfoldable pub event_type : ℕ → Text
event_type value =
    if value == 1
    then codes "OrderAccepted"
    else if value == 2
    then codes "OrderRejected"
    else if value == 3
    then codes "TradeExecuted"
    else if value == 4
    then codes "OrderRested"
    else if value == 5
    then codes "OrderPartiallyFilled"
    else if value == 6
    then codes "OrderFullyFilled"
    else if value == 7
    then codes "OrderCancelled"
    else codes "UnknownEvent"

unfoldable pub side : ℕ → Text
side value = if value == 1 then codes "BUY" else if value == 2 then codes "SELL" else codes "NA"

unfoldable pub rejection_reason : ℕ → Text
rejection_reason value =
    if value == 0
    then codes "None"
    else if value == 1
    then codes "UnsupportedCommand"
    else if value == 2
    then codes "InvalidSide"
    else if value == 3
    then codes "InvalidPrice"
    else if value == 4
    then codes "InvalidQuantity"
    else if value == 5
    then codes "DuplicateOrderId"
    else if value == 6
    then codes "UnsupportedTimeInForce"
    else if value == 7
    then codes "UnknownOrderId"
    else if value == 8
    then codes "InstrumentMismatch"
    else if value == 9
    then codes "ReplaceWouldDuplicateOrderId"
    else if value == 10
    then codes "InvalidReplacementOrderId"
    else codes "UnknownReason"

abbrev pub joined : List Text → Text
joined [] = []
joined (t ∷ ts) = t ++ joined ts

unfoldable pub print_command : OrderCommandRecord → Text
print_command c = joined (
    (codes "cmd_seq=" ++ show_number c.command_sequence)
    ∷ (codes " type=" ++ command_type c.command_type)
    ∷ (codes " instrument=" ++ show_number c.instrument_id)
    ∷ (codes " client=" ++ show_number c.client_id)
    ∷ (codes " order=" ++ show_number c.order_id)
    ∷ (if c.replacement_order_id == 0
        then []
        else codes " replacement=" ++ show_number c.replacement_order_id)
    ∷ (if c.side == 0 then [] else codes " side=" ++ side c.side)
    ∷ (if eqb_ℤ c.price_ticks (pos 0) && eqb_ℤ c.quantity_lots (pos 0)
        then []
        else codes " price="
          ++ (show_integer c.price_ticks ++ (codes " qty=" ++ show_integer c.quantity_lots)))
    ∷ (b'\n' ∷ [])
    ∷ [])

unfoldable pub print_event : ExecutionEventRecord → Text
print_event e = joined (
    (codes "event_seq=" ++ show_number e.event_sequence)
    ∷ (codes " cmd_seq=" ++ show_number e.command_sequence)
    ∷ (codes " type=" ++ event_type e.event_type)
    ∷ (codes " instrument=" ++ show_number e.instrument_id)
    ∷ (codes " order=" ++ show_number e.order_id)
    ∷ (if e.contra_order_id == 0 then [] else codes " contra=" ++ show_number e.contra_order_id)
    ∷ (if e.trade_id == 0 then [] else codes " trade=" ++ show_number e.trade_id)
    ∷ (codes " side=" ++ side e.side)
    ∷ (codes " price=" ++ show_integer e.price_ticks)
    ∷ (codes " qty=" ++ show_integer e.quantity_lots)
    ∷ (codes " remaining=" ++ show_integer e.remaining_quantity_lots)
    ∷ (if e.rejection_reason == 0
        then []
        else codes " reason=" ++ rejection_reason e.rejection_reason)
    ∷ (b'\n' ∷ [])
    ∷ [])
