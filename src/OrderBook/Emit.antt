-- ===== src/OrderBook/Emit.antt =====
-- Event construction in order_book.cpp: emit_order_event and the events made from it. Each
-- returns the event and the book with its counters advanced.
use fun_exch_macher.Common.{ℤ, pos}
use fun_exch_macher.Domain.{
  OrderCommandRecord, ExecutionEventRecord, ExecutionEventType, trade_executed, order_rejected,
  order_cancelled, encode_event_type, RejectionReason, encode_rejection_reason,
}
use fun_exch_macher.OrderBook.Types.{OrderBook, RestingOrder, increment}

unfoldable pub emit_order_event :
    OrderBook → OrderCommandRecord → ExecutionEventType → ℤ → ℤ → ExecutionEventRecord × OrderBook
emit_order_event b c t quantity remaining = (
  record {
    event_sequence = b.next_event_sequence;
    command_sequence = c.command_sequence;
    source_ingress_epoch = c.source_ingress_epoch;
    source_ingress_sequence = c.source_ingress_sequence;
    order_id = c.order_id;
    contra_order_id = 0;
    trade_id = 0;
    price_ticks = c.price_ticks;
    quantity_lots = quantity;
    remaining_quantity_lots = remaining;
    instrument_id = c.instrument_id;
    event_type = encode_event_type t;
    side = c.side;
    rejection_reason = 0;
    reserved = 0;
  },
  record b { next_event_sequence = increment b.next_event_sequence },
)

unfoldable pub emit_trade_event :
    OrderBook → OrderCommandRecord → RestingOrder → ℤ → ℤ → ℤ → ExecutionEventRecord × OrderBook
emit_trade_event b c o price quantity remaining =
    let (e, b') = emit_order_event b c trade_executed quantity remaining in
    (
      record e { contra_order_id = o.order_id; trade_id = b'.next_trade_id; price_ticks = price },
      record b' { next_trade_id = increment b'.next_trade_id },
    )

unfoldable pub emit_rejection_event :
    OrderBook → OrderCommandRecord → RejectionReason → ExecutionEventRecord × OrderBook
emit_rejection_event b c reason =
    let (e, b') = emit_order_event b c order_rejected (pos 0) (pos 0) in
    (record e { rejection_reason = encode_rejection_reason reason }, b')

unfoldable pub emit_cancel_event :
    OrderBook → OrderCommandRecord → RestingOrder → ExecutionEventRecord × OrderBook
emit_cancel_event b c o =
    let (e, b') = emit_order_event b c order_cancelled (pos 0) o.remaining_quantity_lots in
    (record e { price_ticks = o.price_ticks; side = o.side; instrument_id = o.instrument_id }, b')
