-- ===== src/Domain/Fits.antt =====
-- The records of src/domain with fields that fit their machine types.
use fun_exch_macher.Common.{◌<◌, ℤ, pos, negsuc}
use fun_exch_macher.Domain.{OrderCommandRecord, ExecutionEventRecord}

abbrev pub IsInt64 : ℤ → Type 0
IsInt64 (pos n) = n < 9223372036854775808
IsInt64 (negsuc n) = n < 9223372036854775808

-- A quantity that a book holds.
abbrev pub IsLots : ℤ → Type 0
IsLots (pos n) = n < 9223372036854775808
IsLots (negsuc n) = ⊥

-- The fields of a command fit their types.
pub record FitsCommand (c : OrderCommandRecord) : Type 0 where
  pub command_sequence : c.command_sequence < 18446744073709551616
  pub source_ingress_epoch : c.source_ingress_epoch < 18446744073709551616
  pub source_ingress_sequence : c.source_ingress_sequence < 18446744073709551616
  pub order_id : c.order_id < 18446744073709551616
  pub replacement_order_id : c.replacement_order_id < 18446744073709551616
  pub client_id : c.client_id < 18446744073709551616
  pub price_ticks : IsInt64 c.price_ticks
  pub quantity_lots : IsInt64 c.quantity_lots
  pub instrument_id : c.instrument_id < 4294967296
  pub command_type : c.command_type < 65536
  pub side : c.side < 65536
  pub time_in_force : c.time_in_force < 65536
  pub reserved : c.reserved < 65536

-- So do those of an event.
pub record FitsEvent (e : ExecutionEventRecord) : Type 0 where
  pub event_sequence : e.event_sequence < 18446744073709551616
  pub command_sequence : e.command_sequence < 18446744073709551616
  pub source_ingress_epoch : e.source_ingress_epoch < 18446744073709551616
  pub source_ingress_sequence : e.source_ingress_sequence < 18446744073709551616
  pub order_id : e.order_id < 18446744073709551616
  pub contra_order_id : e.contra_order_id < 18446744073709551616
  pub trade_id : e.trade_id < 18446744073709551616
  pub price_ticks : IsInt64 e.price_ticks
  pub quantity_lots : IsInt64 e.quantity_lots
  pub remaining_quantity_lots : IsInt64 e.remaining_quantity_lots
  pub instrument_id : e.instrument_id < 4294967296
  pub event_type : e.event_type < 65536
  pub side : e.side < 65536
  pub rejection_reason : e.rejection_reason < 65536
  pub reserved : e.reserved < 65536
