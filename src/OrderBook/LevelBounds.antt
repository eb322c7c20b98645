-- ===== src/OrderBook/LevelBounds.antt =====
-- The price maps of order_book.cpp against the machine widths of what they hold.
use fun_exch_macher.Common.{ℕ, ◌==◌, Bool, ℤ, if_either, List, [], ◌∷◌, All, All-append}
use fun_exch_macher.Common.Int.{eqb_ℤ}
use fun_exch_macher.Common.Dict.{erase-All}
use fun_exch_macher.Domain.{is_side, decode_side, buy}
use fun_exch_macher.Domain.Fits.{IsInt64, FitsEvent}
use fun_exch_macher.OrderBook.Types.{OrderBook, RestingOrder, Level}
use fun_exch_macher.OrderBook.Levels.{
  push_back, erase_order, keep_level, erase_order_from_price_levels, remove_cancelled_order,
}
use fun_exch_macher.OrderBook.Apply.{Outcome}
use fun_exch_macher.OrderBook.Fits.{FitsOrder, FitsLevel, FitsBook}

pub push_back-Fits :
    (before : ℤ → ℤ → Bool) (p : ℤ) (o : RestingOrder) (ls : List Level)
    → IsInt64 p
    → FitsOrder o
    → All FitsLevel ls
    → All FitsLevel (push_back before p o ls)
unfolding push_back
push_back-Fits before p o [] q k hs = ((q, (k, tt)), tt)
push_back-Fits before p o ((r, os) ∷ ls) q k hs =
    if_either (All FitsLevel) (eqb_ℤ r p) _ _
      ((hs.0.0, All-append FitsOrder os (o ∷ []) hs.0.1 (k, tt)), hs.1)
      (if_either (All FitsLevel) (before p r) _ _ ((q, (k, tt)), hs)
        (hs.0, push_back-Fits before p o ls q k hs.1))

erase_order-Fits :
    (id : ℕ) (os : List RestingOrder) → All FitsOrder os → All FitsOrder (erase_order id os)
unfolding erase_order
erase_order-Fits id [] h = tt
erase_order-Fits id (o ∷ os) h =
    if_either (All FitsOrder) (o.order_id == id) _ _ h.1 (h.0, erase_order-Fits id os h.1)

keep_level-Fits :
    (p : ℤ) (os : List RestingOrder) (ls : List Level)
    → IsInt64 p
    → All FitsOrder os
    → All FitsLevel ls
    → All FitsLevel (keep_level p os ls)
keep_level-Fits p [] ls q h hs = hs
keep_level-Fits p (o ∷ os) ls q h hs = ((q, h), hs)

erase_levels-Fits :
    (r : RestingOrder) (ls : List Level)
    → All FitsLevel ls
    → All FitsLevel (erase_order_from_price_levels r ls)
unfolding erase_order_from_price_levels
erase_levels-Fits r [] hs = tt
erase_levels-Fits r ((p, os) ∷ ls) hs =
    if_either (All FitsLevel) (eqb_ℤ p r.price_ticks) _ _
      (keep_level-Fits p (erase_order r.order_id os) ls hs.0.0
        (erase_order-Fits r.order_id os hs.0.1) hs.1)
      (hs.0, erase_levels-Fits r ls hs.1)

pub remove_cancelled_order-Fits :
    (b : OrderBook) (o : RestingOrder) → FitsBook b → FitsBook (remove_cancelled_order b o)
unfolding remove_cancelled_order
remove_cancelled_order-Fits b o h =
    let active = erase-All FitsOrder o.order_id b.active_orders h.active_orders in
    if_either FitsBook (is_side (decode_side o.side) buy) _ _
      (record {
        next_event_sequence = h.next_event_sequence;
        next_trade_id = h.next_trade_id;
        bids = erase_levels-Fits o b.bids h.bids;
        asks = h.asks;
        active_orders = active;
      })
      (record {
        next_event_sequence = h.next_event_sequence;
        next_trade_id = h.next_trade_id;
        bids = h.bids;
        asks = erase_levels-Fits o b.asks h.asks;
        active_orders = active;
      })

abbrev pub FitsOutcome : Outcome → Type 0
FitsOutcome r = All FitsEvent r.0 × FitsBook r.1
