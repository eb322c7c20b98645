-- ===== src/OrderBook/Removal.antt =====
-- remove_cancelled_order (order_book.cpp) on an order that the index gives.
use fun_exch_macher.Common.{
  ℕ, ◌<◌, ◌≡◌, ap, sym, subst, inl, inr, true, false, Bool-cases, Option, some, ◌∷◌, All-map, arith,
}
use fun_exch_macher.Common.Int.{ltb_ℤ, gtb_ℤ, ltb_ℤ_irrefl}
use fun_exch_macher.Common.Dict.{lookup, count, lookup-eq-none}
use fun_exch_macher.Domain.{Side, buy, sell, decode_side, is_side}
use fun_exch_macher.OrderBook.Types.{OrderBook, RestingOrder, orders}
use fun_exch_macher.OrderBook.Levels.{
  remove_cancelled_order, find_order, erase_order_from_price_levels,
}
use fun_exch_macher.OrderBook.Index.{count_id, IsIndexed, Indexed-swap, Indexed-drop, id_of_queued}
use fun_exch_macher.OrderBook.Reorder.{Reordered, Indexed-reorder}
use fun_exch_macher.OrderBook.Invariant.{Behind, IsValid}
use fun_exch_macher.OrderBook.Preserve.{orders-All}
use fun_exch_macher.OrderBook.Erasing.{
  not_queued, erase_levels-All, erase_levels-IsSorted, erase_levels-IsLevel, erase_levels-Reordered,
}

module _ {b : OrderBook} (v : IsValid b) where
  -- The order that the index gives for an id has that id, is queued, and is on one side.
  pub found-count :
      (id : ℕ) (o : RestingOrder)
      → lookup id b.active_orders ≡ some o
      → 0 < count id b.active_orders
  found-count id o e = ground (arith, lookup-eq-none id b.active_orders)

  pub found-id : (id : ℕ) (o : RestingOrder) → find_order b id ≡ some o → o.order_id ≡ id
  unfolding find_order
  found-id id o e =
      let n = v.indexed.counted id in
      let some_there = found-count id o e in
      ground (
        arith,
        id_of_queued b.active_orders id o (orders b.bids),
        id_of_queued b.active_orders id o (orders b.asks),
        v.indexed.first,
        v.indexed.second,
      )

  pub found-IsIndexed :
      (id : ℕ) (o : RestingOrder) → find_order b id ≡ some o → IsIndexed b.active_orders o
  unfolding find_order
  found-IsIndexed id o e = subst (λ k. lookup k b.active_orders ≡ some o) (sym (found-id id o e)) e

  module _ (o : RestingOrder) (indexed : IsIndexed b.active_orders o) where
    pub not_in_asks : decode_side o.side ≡ some buy → count_id o.order_id (orders b.asks) ≡ 0
    not_in_asks e =
        not_queued b.active_orders o indexed (λ x. decode_side x.side ≡ some sell) (λ k. cc)
          (orders b.asks) v.indexed.second
          (orders-All (λ x. decode_side x.side ≡ some sell) sell b.instrument_id b.asks
            (λ p x k. k.on_side) v.asks_level)

    pub not_in_bids : ¬ (decode_side o.side ≡ some buy) → count_id o.order_id (orders b.bids) ≡ 0
    not_in_bids e =
        not_queued b.active_orders o indexed (λ x. decode_side x.side ≡ some buy) e (orders b.bids)
          v.indexed.first
          (orders-All (λ x. decode_side x.side ≡ some buy) buy b.instrument_id b.bids
            (λ p x k. k.on_side) v.bids_level)

    -- The queue of the order's side loses it, and the other stays.
    pub bids-Reordered :
        decode_side o.side ≡ some buy
        → Reordered (orders b.bids) (o ∷ orders (erase_order_from_price_levels o b.bids))
    bids-Reordered e =
        erase_levels-Reordered b.active_orders o indexed gtb_ℤ ltb_ℤ_irrefl buy b.instrument_id
          b.bids
          (omega
            (arith, v.indexed.counted o.order_id, not_in_asks e, found-count o.order_id o indexed))
          v.indexed.first v.bids_level v.bids_sorted

    pub asks-Reordered :
        ¬ (decode_side o.side ≡ some buy)
        → Reordered (orders b.asks) (o ∷ orders (erase_order_from_price_levels o b.asks))
    asks-Reordered e =
        erase_levels-Reordered b.active_orders o indexed ltb_ℤ ltb_ℤ_irrefl sell b.instrument_id
          b.asks
          (omega
            (arith, v.indexed.counted o.order_id, not_in_bids e, found-count o.order_id o indexed))
          v.indexed.second v.asks_level v.asks_sorted

    pub is_side-buy : (s : Option Side) → is_side s buy ≡ true → s ≡ some buy
    is_side-buy s h = ground arith

    pub is_side-not_buy : (s : Option Side) → is_side s buy ≡ false → ¬ (s ≡ some buy)
    is_side-not_buy s h = λ e. cc (ap (λ x. is_side x buy) e)

    pub remove_cancelled_order-IsValid : IsValid (remove_cancelled_order b o)
    unfolding remove_cancelled_order
    remove_cancelled_order-IsValid = elim (Bool-cases (is_side (decode_side o.side) buy)) [
      | inl e ↦ rw e (record {
        bids_sorted = erase_levels-IsSorted o gtb_ℤ b.bids v.bids_sorted;
        asks_sorted = v.asks_sorted;
        bids_level = erase_levels-IsLevel o buy b.instrument_id b.bids v.bids_level;
        asks_level = v.asks_level;
        uncrossed = erase_levels-All o (λ x. Behind ltb_ℤ x b.asks) b.bids v.uncrossed;
        indexed = Indexed-drop (Indexed-reorder (bids-Reordered (is_side-buy _ e)) v.indexed);
      })
      | inr e ↦ rw e (record {
        bids_sorted = v.bids_sorted;
        asks_sorted = erase_levels-IsSorted o ltb_ℤ b.asks v.asks_sorted;
        bids_level = v.bids_level;
        asks_level = erase_levels-IsLevel o sell b.instrument_id b.asks v.asks_level;
        uncrossed =
            All-map (λ l. Behind ltb_ℤ l.0 b.asks)
              (λ l. Behind ltb_ℤ l.0 (erase_order_from_price_levels o b.asks))
              (λ l k. erase_levels-All o (λ x. ltb_ℤ l.0 x ≡ true) b.asks k) b.bids v.uncrossed;
        indexed = Indexed-swap (
            Indexed-drop
              (Indexed-reorder (asks-Reordered (is_side-not_buy _ e)) (Indexed-swap v.indexed)));
      })
    ]
