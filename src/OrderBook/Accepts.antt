-- ===== src/OrderBook/Accepts.antt =====
-- The commands that validate_new_order and validate_replace_order (order_book.cpp) let through.
use fun_exch_macher.Common.{
  ℕ, ◌≡◌, ◌≢◌, refl, ap, ◌⊎◌, inl, inr, false, Option-cases, ◌↔◌, none, some, arith,
}
use fun_exch_macher.Common.Int.{IsPositive, IsPositive-iff}
use fun_exch_macher.Common.Dict.{contains}
use fun_exch_macher.Domain.{
  OrderCommandRecord, buy, sell, new_order, replace_order, gtc, decode_side, decode_command_type,
  decode_time_in_force, no_reason,
}
use fun_exch_macher.OrderBook.Types.{OrderBook, RestingOrder}
use fun_exch_macher.OrderBook.Levels.{find_order}
use fun_exch_macher.OrderBook.Validate.{
  validate_new_order, validate_order_book_instrument, validate_replace_order, validate_replacement,
  is_rejection,
}

-- A side, a price, a quantity and a lifetime that the book takes.
pub record IsWellFormed (c : OrderCommandRecord) : Type 0 where
  pub side : (decode_side c.side ≡ some buy) ⊎ (decode_side c.side ≡ some sell)
  pub price : IsPositive c.price_ticks
  pub quantity : IsPositive c.quantity_lots
  pub lifetime : decode_time_in_force c.time_in_force ≡ some gtc

pub record IsAcceptable (b : OrderBook) (c : OrderCommandRecord) : Type 0 where
  pub command_type : decode_command_type c.command_type ≡ some new_order
  pub form : IsWellFormed c
  pub fresh : contains c.order_id b.active_orders ≡ false
  pub instrument : (b.instrument_id ≡ none) ⊎ (b.instrument_id ≡ some c.instrument_id)

pub record IsReplaceable (b : OrderBook) (c : OrderCommandRecord) (o : RestingOrder) : Type 0 where
  pub command_type : decode_command_type c.command_type ≡ some replace_order
  pub form : IsWellFormed c
  pub found : find_order b c.order_id ≡ some o
  pub instrument : o.instrument_id ≡ c.instrument_id
  pub named : c.replacement_order_id ≢ 0
  pub renamed : c.replacement_order_id ≢ c.order_id
  pub fresh : contains c.replacement_order_id b.active_orders ≡ false

pub validate_new_order-accepts :
    (b : OrderBook) (c : OrderCommandRecord)
    → is_rejection (validate_new_order b c) ≡ false
    → IsAcceptable b c
unfolding validate_new_order validate_order_book_instrument
validate_new_order-accepts b c h =
    ground (arith, IsPositive-iff c.price_ticks, IsPositive-iff c.quantity_lots)

pub validate_new_order_complete :
    (b : OrderBook) (c : OrderCommandRecord) → IsAcceptable b c → validate_new_order b c ≡ no_reason
unfolding validate_new_order validate_order_book_instrument
validate_new_order_complete b c a =
    ground (arith, IsPositive-iff c.price_ticks, IsPositive-iff c.quantity_lots)

pub validate_replacement-accepts :
    (b : OrderBook) (c : OrderCommandRecord) (o : RestingOrder)
    → decode_command_type c.command_type ≡ some replace_order
    → find_order b c.order_id ≡ some o
    → is_rejection (validate_replacement b c o) ≡ false
    → IsReplaceable b c o
unfolding validate_replacement
validate_replacement-accepts b c o t f h =
    ground (arith, IsPositive-iff c.price_ticks, IsPositive-iff c.quantity_lots)

-- The test of the command type, and the search for the order.
pub validate_replace_order-accepts :
    (b : OrderBook) (c : OrderCommandRecord)
    → is_rejection (validate_replace_order b c) ≡ false
    → (o : RestingOrder) × IsReplaceable b c o
unfolding validate_replace_order
validate_replace_order-accepts b c h = elim (Option-cases (find_order b c.order_id)) [
  | inl missing ↦ absurd (ground arith)
  | inr (o, found) ↦ (o, validate_replacement-accepts b c o (ground arith) found (ground arith))
]

pub validate_replace_order_complete :
    (b : OrderBook) (c : OrderCommandRecord) (o : RestingOrder)
    → IsReplaceable b c o
    → validate_replace_order b c ≡ no_reason
unfolding validate_replace_order validate_replacement
validate_replace_order_complete b c o a =
    ground (arith, IsPositive-iff c.price_ticks, IsPositive-iff c.quantity_lots)

-- validate_new_order gives no reason for a rejection exactly if the command is a new order of a
-- known side and lifetime, with a positive price and quantity, an id that is not active, and the
-- book's instrument if the book has one. The order id 0 is an id like any other here, and the client
-- id does not matter, also if it is 0: neither is tested.
pub validate_new_order_iff :
    (b : OrderBook) (c : OrderCommandRecord)
    → ((validate_new_order b c ≡ no_reason) ↔ IsAcceptable b c)
      × ((client : ℕ)
          → validate_new_order b (record c { client_id = client }) ≡ validate_new_order b c)
unfolding validate_new_order validate_order_book_instrument
validate_new_order_iff b c = (
  (λ h. validate_new_order-accepts b c (ap is_rejection h), validate_new_order_complete b c),
  λ client. refl,
)

-- validate_replace_order gives no reason for a rejection exactly if the command is a replacement of
-- an active order of the same instrument by an order with a fresh nonzero id, a known side and
-- lifetime, and a positive price and quantity.
pub validate_replace_order_iff :
    (b : OrderBook) (c : OrderCommandRecord)
    → (validate_replace_order b c ≡ no_reason) ↔ ((o : RestingOrder) × IsReplaceable b c o)
validate_replace_order_iff b c = (
  λ h. validate_replace_order-accepts b c (ap is_rejection h),
  λ (o, h). validate_replace_order_complete b c o h,
)
