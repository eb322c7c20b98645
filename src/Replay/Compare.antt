-- ===== src/Replay/Compare.antt =====
-- core::EventComparator: the first field in which two events differ.
use fun_exch_macher.Common.{Bool, true, false, not, ◌==◌, if◌then◌else◌}
use fun_exch_macher.Common.Int.{eqb_ℤ}
use fun_exch_macher.Domain.{ExecutionEventRecord}

pub data EventField : Type 0 where
  no_field event_type event_sequence command_sequence source_ingress_epoch : EventField
  source_ingress_sequence instrument_id order_id contra_order_id side : EventField
  price_ticks quantity_lots remaining_quantity_lots trade_id : EventField
  rejection_reason reserved : EventField

pub record EventComparison : Type 0 where
  pub equal : Bool
  pub field : EventField

abbrev mismatch : EventField → EventComparison
mismatch f = record { equal = false; field = f }

-- The tests of the second half of the ladder.
unfoldable pub compare_quantities : ExecutionEventRecord → ExecutionEventRecord → EventComparison
compare_quantities a b =
    if not (a.contra_order_id == b.contra_order_id)
    then mismatch contra_order_id
    else if not (a.side == b.side)
    then mismatch side
    else if not (eqb_ℤ a.price_ticks b.price_ticks)
    then mismatch price_ticks
    else if not (eqb_ℤ a.quantity_lots b.quantity_lots)
    then mismatch quantity_lots
    else if not (eqb_ℤ a.remaining_quantity_lots b.remaining_quantity_lots)
    then mismatch remaining_quantity_lots
    else if not (a.trade_id == b.trade_id)
    then mismatch trade_id
    else if not (a.rejection_reason == b.rejection_reason)
    then mismatch rejection_reason
    else if not (a.reserved == b.reserved)
    then mismatch reserved
    else record { equal = true; field = no_field }

unfoldable pub compare : ExecutionEventRecord → ExecutionEventRecord → EventComparison
compare a b =
    if not (a.event_type == b.event_type)
    then mismatch event_type
    else if not (a.event_sequence == b.event_sequence)
    then mismatch event_sequence
    else if not (a.command_sequence == b.command_sequence)
    then mismatch command_sequence
    else if not (a.source_ingress_epoch == b.source_ingress_epoch)
    then mismatch source_ingress_epoch
    else if not (a.source_ingress_sequence == b.source_ingress_sequence)
    then mismatch source_ingress_sequence
    else if not (a.instrument_id == b.instrument_id)
    then mismatch instrument_id
    else if not (a.order_id == b.order_id)
    then mismatch order_id
    else compare_quantities a b
