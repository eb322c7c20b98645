-- ===== src/OrderBook/Levels.antt =====
-- The price maps of order_book.cpp: rest_order's append to a level, and
-- erase_order_from_price_levels. `before` is the comparator of the map.
use fun_exch_macher.Common.{ℕ, ℤ, Bool, List, [], ◌∷◌, ◌++◌, ◌==◌, if◌then◌else◌, Option}
use fun_exch_macher.Common.Int.{eqb_ℤ, ltb_ℤ, gtb_ℤ}
use fun_exch_macher.Common.Dict.{lookup, insert, erase}
use fun_exch_macher.Domain.{OrderCommandRecord, decode_side, is_side, buy}
use fun_exch_macher.OrderBook.Types.{OrderBook, RestingOrder, Level}

-- `levels[price].push_back(o)`: the level is made, in its place, if it is not there.
unfoldable pub push_back : (ℤ → ℤ → Bool) → ℤ → RestingOrder → List Level → List Level
push_back before price o [] = (price, o ∷ []) ∷ []
push_back before price o ((p, os) ∷ ls) =
    if eqb_ℤ p price
    then (p, os ++ (o ∷ [])) ∷ ls
    else if before price p
    then (price, o ∷ []) ∷ (p, os) ∷ ls
    else (p, os) ∷ push_back before price o ls

-- `std::find_if` by id and `erase` of what it finds, if it finds anything.
unfoldable pub erase_order : ℕ → List RestingOrder → List RestingOrder
erase_order id [] = []
erase_order id (o ∷ os) = if o.order_id == id then os else o ∷ erase_order id os

-- A level that has become empty is erased.
abbrev pub keep_level : ℤ → List RestingOrder → List Level → List Level
keep_level p [] ls = ls
keep_level p (o ∷ os) ls = (p, o ∷ os) ∷ ls

unfoldable pub erase_order_from_price_levels : RestingOrder → List Level → List Level
erase_order_from_price_levels r [] = []
erase_order_from_price_levels r ((p, os) ∷ ls) =
    if eqb_ℤ p r.price_ticks
    then keep_level p (erase_order r.order_id os) ls
    else (p, os) ∷ erase_order_from_price_levels r ls

unfoldable pub rest_order : OrderBook → OrderCommandRecord → ℤ → OrderBook
rest_order b c remaining =
    let o : RestingOrder = record {
      order_id = c.order_id;
      client_id = c.client_id;
      instrument_id = c.instrument_id;
      side = c.side;
      price_ticks = c.price_ticks;
      remaining_quantity_lots = remaining;
    } in
    let active = insert c.order_id o b.active_orders in
    if is_side (decode_side c.side) buy
    then record b { bids = push_back gtb_ℤ c.price_ticks o b.bids; active_orders = active }
    else record b { asks = push_back ltb_ℤ c.price_ticks o b.asks; active_orders = active }

unfoldable pub remove_cancelled_order : OrderBook → RestingOrder → OrderBook
remove_cancelled_order b r =
    let active = erase r.order_id b.active_orders in
    if is_side (decode_side r.side) buy
    then record b { bids = erase_order_from_price_levels r b.bids; active_orders = active }
    else record b { asks = erase_order_from_price_levels r b.asks; active_orders = active }

unfoldable pub find_order : OrderBook → ℕ → Option RestingOrder
find_order b id = lookup id b.active_orders
