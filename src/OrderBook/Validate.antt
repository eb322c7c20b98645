-- ===== src/OrderBook/Validate.antt =====
-- Command validation in order_book.cpp, test by test in the order of the source.
use fun_exch_macher.Common.{
  ℕ, ℤ, pos, Bool, true, false, not, ◌&&◌, ◌||◌, ◌==◌, if◌then◌else◌, Option, none, some,
}
use fun_exch_macher.Common.Int.{ltb_ℤ}
use fun_exch_macher.Common.Dict.{contains}
use fun_exch_macher.Domain.{
  OrderCommandRecord, RejectionReason, no_reason, unsupported_command, invalid_side, invalid_price,
  invalid_quantity, duplicate_order_id, unsupported_time_in_force, unknown_order_id,
  instrument_mismatch, replace_would_duplicate_order_id, invalid_replacement_order_id, Side, buy,
  sell, new_order, replace_order, decode_command_type, is_command_type, decode_side,
  decode_time_in_force, is_gtc, encode_rejection_reason,
}
use fun_exch_macher.OrderBook.Types.{OrderBook, RestingOrder}
use fun_exch_macher.OrderBook.Levels.{find_order}

abbrev pub is_buy : Side → Bool
is_buy buy = true
is_buy sell = false

abbrev pub is_sell : Side → Bool
is_sell buy = false
is_sell sell = true

-- `!side.has_value() || (!is_buy(*side) && !is_sell(*side))`
abbrev pub is_bad_side : Option Side → Bool
is_bad_side none = true
is_bad_side (some s) = not (is_buy s) && not (is_sell s)

-- `x <= 0`
abbrev pub is_not_positive : ℤ → Bool
is_not_positive x = not (ltb_ℤ (pos 0) x)

abbrev differs : Option ℕ → ℕ → Bool
differs none i = false
differs (some j) i = not (i == j)

unfoldable pub validate_order_book_instrument : OrderBook → OrderCommandRecord → RejectionReason
validate_order_book_instrument b c =
    if differs b.instrument_id c.instrument_id then instrument_mismatch else no_reason

-- `reason != RejectionReason::None`
abbrev pub is_rejection : RejectionReason → Bool
is_rejection r = not (encode_rejection_reason r == 0)

unfoldable pub validate_new_order : OrderBook → OrderCommandRecord → RejectionReason
validate_new_order b c =
    if not (is_command_type (decode_command_type c.command_type) new_order)
    then unsupported_command
    else if is_bad_side (decode_side c.side)
    then invalid_side
    else if is_not_positive c.price_ticks
    then invalid_price
    else if is_not_positive c.quantity_lots
    then invalid_quantity
    else if contains c.order_id b.active_orders
    then duplicate_order_id
    else let instrument = validate_order_book_instrument b c in
      if is_rejection instrument
      then instrument
      else if not (is_gtc (decode_time_in_force c.time_in_force))
      then unsupported_time_in_force
      else no_reason

-- The tests of validate_replace_order once the order is found.
unfoldable pub validate_replacement :
    OrderBook → OrderCommandRecord → RestingOrder → RejectionReason
validate_replacement b c o =
    if not (o.instrument_id == c.instrument_id)
    then instrument_mismatch
    else if c.replacement_order_id == 0 || c.replacement_order_id == c.order_id
    then invalid_replacement_order_id
    else if contains c.replacement_order_id b.active_orders
    then replace_would_duplicate_order_id
    else if is_bad_side (decode_side c.side)
    then invalid_side
    else if is_not_positive c.price_ticks
    then invalid_price
    else if is_not_positive c.quantity_lots
    then invalid_quantity
    else if not (is_gtc (decode_time_in_force c.time_in_force))
    then unsupported_time_in_force
    else no_reason

unfoldable pub validate_replace_order : OrderBook → OrderCommandRecord → RejectionReason
validate_replace_order b c =
    if not (is_command_type (decode_command_type c.command_type) replace_order)
    then unsupported_command
    else elim (find_order b c.order_id) [
      | none ↦ unknown_order_id
      | some o ↦ validate_replacement b c o
    ]
