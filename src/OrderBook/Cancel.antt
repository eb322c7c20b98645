-- ===== src/OrderBook/Cancel.antt =====
-- What a cancel command does to the queues and to the index (order_book.cpp).
use fun_exch_macher.Common.{
  ℕ, ◌≤◌, ◌≡◌, refl, sym, ap, subst, ◌∙◌, inl, inr, Bool, true, false, Bool-cases, if◌then◌else◌,
  ◌==◌, ==_self, Option, none, some, List, [], ◌∷◌, ◌++◌, All, All-left, All-right, All-map, arith,
}
use fun_exch_macher.Common.Int.{ℤ, eqb_ℤ, eqb_ℤ_iff, ltb_ℤ, gtb_ℤ, ltb_ℤ_irrefl}
use fun_exch_macher.Common.Dict.{Dict, lookup, erase, lookup-erase}
use fun_exch_macher.Domain.{
  OrderCommandRecord, Side, buy, sell, cancel_order, decode_command_type, decode_side, is_side,
}
use fun_exch_macher.OrderBook.Types.{OrderBook, RestingOrder, Level, orders}
use fun_exch_macher.OrderBook.Emit.{emit_order_event, emit_cancel_event}
use fun_exch_macher.OrderBook.Levels.{
  erase_order, erase_order_from_price_levels, remove_cancelled_order, find_order,
}
use fun_exch_macher.OrderBook.Apply.{cancel_resting, apply_cancel_order}
use fun_exch_macher.OrderBook.Index.{count_id, IsIndexed}
use fun_exch_macher.OrderBook.Invariant.{IsPlaced, IsLevel, IsSorted, IsValid}
use fun_exch_macher.OrderBook.Erasing.{not_queued, later_prices, orders-keep_level}
use fun_exch_macher.OrderBook.Removal.{
  found-id, found-IsIndexed, not_in_asks, not_in_bids, is_side-buy, is_side-not_buy,
}

-- An id that is not in a part of a queue is erased from the other part.
erase_order-append :
    (id : ℕ) (xs ys : List RestingOrder)
    → count_id id ys ≡ 0
    → erase_order id (xs ++ ys) ≡ erase_order id xs ++ ys
unfolding erase_order count_id
erase_order-append id [] [] h = refl
erase_order-append id [] (y ∷ ys) h = let rest = erase_order-append id [] ys in ground arith
erase_order-append id (x ∷ xs) ys h = ground (arith, erase_order-append id xs ys h)

erase_order-skip :
    (id : ℕ) (xs ys : List RestingOrder)
    → count_id id xs ≡ 0
    → erase_order id (xs ++ ys) ≡ xs ++ erase_order id ys
unfolding erase_order count_id
erase_order-skip id [] ys h = refl
erase_order-skip id (x ∷ xs) ys h = ground (arith, erase_order-skip id xs ys)

-- The orders with other ids.
unfoldable pub others : ℕ → List RestingOrder → List RestingOrder
others id [] = []
others id (o ∷ os) = if o.order_id == id then others id os else o ∷ others id os

others_absent : (id : ℕ) (xs : List RestingOrder) → count_id id xs ≡ 0 → others id xs ≡ xs
unfolding others count_id
others_absent id [] h = refl
others_absent id (x ∷ xs) h = ground (arith, others_absent id xs)

erase_order-others :
    (id : ℕ) (xs : List RestingOrder) → count_id id xs ≤ 1 → erase_order id xs ≡ others id xs
unfolding erase_order others count_id
erase_order-others id [] h = refl
erase_order-others id (x ∷ xs) h = ground (arith, others_absent id xs, erase_order-others id xs)

module _ (active : Dict RestingOrder) (r : RestingOrder) (indexed : IsIndexed active r)
    (before : ℤ → ℤ → Bool) (irrefl : (a : ℤ) → before a a ≡ false) (side : Side)
    (instrument : Option ℕ) where
  erase_levels-orders :
      (ls : List Level)
      → All (IsIndexed active) (orders ls)
      → All (IsLevel side instrument) ls
      → IsSorted before ls
      → orders (erase_order_from_price_levels r ls) ≡ erase_order r.order_id (orders ls)
  unfolding erase_order_from_price_levels
  erase_levels-orders [] i h s = unfold erase_order in refl
  erase_levels-orders ((p, os) ∷ ls) i h s =
      let left = All-left (IsIndexed active) os (orders ls) i in
      let right = All-right (IsIndexed active) os (orders ls) i in
      elim (Bool-cases (eqb_ℤ p r.price_ticks)) [
        | inl same ↦
            let at : p ≡ r.price_ticks = (eqb_ℤ_iff p r.price_ticks).0 same in
            let later : count_id r.order_id (orders ls) ≡ 0 =
              not_queued active r indexed (λ o. before p o.price_ticks ≡ true)
                (λ e. cc (irrefl p, subst (λ x. before p x ≡ true) (sym at) e)) (orders ls) right
                (later_prices before side instrument p ls s.0 h.1) in
            rw same (
              orders-keep_level p (erase_order r.order_id os) ls
              ∙ sym (erase_order-append r.order_id os (orders ls) later))
        | inr other ↦
            let here : count_id r.order_id os ≡ 0 =
              not_queued active r indexed (λ o. o.price_ticks ≡ p)
                (λ e. cc ((eqb_ℤ_iff p r.price_ticks).1 (sym e))) os left
                (All-map (IsPlaced side instrument p) (λ o. o.price_ticks ≡ p) (λ o k. k.at_price)
                  os h.0.placed) in
            rw other (
              ap (λ x. os ++ x) (erase_levels-orders ls right h.1 s.1)
              ∙ sym (erase_order-skip r.order_id os (orders ls) here))
      ]

-- The queues keep the orders with other ids, as they are and in their order, and no others; the
-- index loses the id.
pub record IsRemoved (b after : OrderBook) (id : ℕ) : Type 0 where
  pub bids : orders after.bids ≡ others id (orders b.bids)
  pub asks : orders after.asks ≡ others id (orders b.asks)
  pub index : (k : ℕ) → find_order after k ≡ (if id == k then none else find_order b k)
  pub instrument : after.instrument_id ≡ b.instrument_id
  pub trades : after.next_trade_id ≡ b.next_trade_id

module _ {b : OrderBook} (v : IsValid b) (o : RestingOrder)
    (indexed : IsIndexed b.active_orders o) where
  once : (count_id o.order_id (orders b.bids) ≤ 1) × (count_id o.order_id (orders b.asks) ≤ 1)
  once =
      let c = v.indexed.counted o.order_id in
      let u = v.indexed.unique o.order_id in (omega (arith, c, u), omega (arith, c, u))

  bids_erased : orders (erase_order_from_price_levels o b.bids) ≡ others o.order_id (orders b.bids)
  bids_erased =
      erase_levels-orders b.active_orders o indexed gtb_ℤ ltb_ℤ_irrefl buy b.instrument_id b.bids
        v.indexed.first v.bids_level v.bids_sorted
      ∙ erase_order-others o.order_id (orders b.bids) once.0

  asks_erased : orders (erase_order_from_price_levels o b.asks) ≡ others o.order_id (orders b.asks)
  asks_erased =
      erase_levels-orders b.active_orders o indexed ltb_ℤ ltb_ℤ_irrefl sell b.instrument_id b.asks
        v.indexed.second v.asks_level v.asks_sorted
      ∙ erase_order-others o.order_id (orders b.asks) once.1

  removed_index :
      (k : ℕ)
      → lookup k (erase o.order_id b.active_orders)
        ≡ (if o.order_id == k then none else lookup k b.active_orders)
  removed_index k =
      ground (arith, lookup-erase o.order_id k b.active_orders, v.indexed.unique o.order_id)

  pub remove_cancelled_order-IsRemoved : IsRemoved b (remove_cancelled_order b o) o.order_id
  unfolding remove_cancelled_order find_order
  remove_cancelled_order-IsRemoved = elim (Bool-cases (is_side (decode_side o.side) buy)) [
    | inl e ↦ rw e (record {
      bids = bids_erased;
      asks = sym (
          others_absent o.order_id (orders b.asks)
            (not_in_asks v o indexed (is_side-buy v o indexed _ e)));
      index = removed_index;
      instrument = refl;
      trades = refl;
    })
    | inr e ↦ rw e (record {
      bids = sym (
          others_absent o.order_id (orders b.bids)
            (not_in_bids v o indexed (is_side-not_buy v o indexed _ e)));
      asks = asks_erased;
      index = removed_index;
      instrument = refl;
      trades = refl;
    })
  ]

-- A cancel command for an active order of its instrument.
pub record IsCancellable (b : OrderBook) (c : OrderCommandRecord) (o : RestingOrder) : Type 0 where
  pub command_type : decode_command_type c.command_type ≡ some cancel_order
  pub found : find_order b c.order_id ≡ some o
  pub instrument : o.instrument_id ≡ c.instrument_id

apply_cancel_order_accepts :
    (b : OrderBook) (c : OrderCommandRecord) (o : RestingOrder)
    → IsCancellable b c o
    → apply_cancel_order b c ≡ cancel_resting b c o
unfolding apply_cancel_order
apply_cancel_order_accepts b c o h =
    ground (arith, h.command_type, h.found, h.instrument, ==_self c.instrument_id)

-- On a valid book a cancel command for an active order of its instrument leaves in the queues the
-- orders with other ids, as they are and in their order, and no others, and takes the id out of the
-- index.
pub apply_cancel_order-IsRemoved :
    (b : OrderBook) (c : OrderCommandRecord) (o : RestingOrder)
    → IsValid b
    → IsCancellable b c o
    → IsRemoved b (apply_cancel_order b c).1 c.order_id
unfolding cancel_resting emit_cancel_event emit_order_event find_order
apply_cancel_order-IsRemoved b c o v h =
    let id = found-id v c.order_id o h.found in
    let r = remove_cancelled_order-IsRemoved v o (found-IsIndexed v c.order_id o h.found) in
    rw (apply_cancel_order_accepts b c o h, sym id)
      (record {
        bids = r.bids;
        asks = r.asks;
        index = r.index;
        instrument = r.instrument;
        trades = r.trades;
      })
