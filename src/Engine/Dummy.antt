-- ===== src/Engine/Dummy.antt =====
-- core::DummyInstrumentEngine (dummy_instrument_engine.cpp): the scaffold that accepts every command.
-- Its state is the next event sequence.
use fun_exch_macher.Common.{ℕ}
use fun_exch_macher.Domain.{
  OrderCommandRecord, ExecutionEventRecord, order_accepted, encode_event_type,
}
use fun_exch_macher.OrderBook.Types.{increment}

unfoldable pub apply_dummy : ℕ → OrderCommandRecord → ExecutionEventRecord × ℕ
apply_dummy next_event_sequence c = (
  record {
    event_sequence = next_event_sequence;
    command_sequence = c.command_sequence;
    source_ingress_epoch = c.source_ingress_epoch;
    source_ingress_sequence = c.source_ingress_sequence;
    order_id = c.order_id;
    contra_order_id = 0;
    trade_id = 0;
    price_ticks = c.price_ticks;
    quantity_lots = c.quantity_lots;
    remaining_quantity_lots = c.quantity_lots;
    instrument_id = c.instrument_id;
    event_type = encode_event_type order_accepted;
    side = c.side;
    rejection_reason = 0;
    reserved = 0;
  },
  increment next_event_sequence,
)
