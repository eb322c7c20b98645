-- ===== src/Projection/Shown.antt =====
-- The public book (market_data_projection.cpp) after any events.
use fun_exch_macher.Common.{
  ℕ, ◌≡◌, refl, subst, sym, false, ◌==◌, Bool-cases, Option-cases, inl, inr, List, [], ◌∷◌, arith,
}
use fun_exch_macher.Common.Int.{ℤ, pos, ltb_ℤ, eqb_ℤ, ◌-ℤ◌, IsPositive, IsPositive-iff}
use fun_exch_macher.Common.Dict.{Dict, lookup, insert, erase, insert-All, erase-All}
use fun_exch_macher.Domain.{ExecutionEventRecord}
use fun_exch_macher.OrderBook.Types.{increment}
use fun_exch_macher.Projection.{
  MarketDataProjection, applied, ignored, rejected, OrderState, Applied, empty_projection,
  rebuild_book, rebuild_loop, visible, upsert_order, remove_order, apply_rested, reduce_order,
  apply_trade, apply_cancelled, apply_filled, dispatch, advance, apply,
}
use fun_exch_macher.Projection.Steps.{IsShown, IsStep, apply-IsStep}
use fun_exch_macher.Projection.Depth.{AreOpen, FitsDepth, ShowsDepth, rebuild_book-ShowsDepth}

insert-AreOpen :
    (id : ℕ) (o : OrderState) (m : Dict OrderState)
    → IsPositive o.remaining_quantity_lots
    → AreOpen m
    → AreOpen (insert id o m)
insert-AreOpen = insert-All (λ o. IsPositive o.remaining_quantity_lots)

erase-AreOpen : (id : ℕ) (m : Dict OrderState) → AreOpen m → AreOpen (erase id m)
erase-AreOpen = erase-All (λ o. IsPositive o.remaining_quantity_lots)

module _ (m : MarketDataProjection) (e : ExecutionEventRecord) (h : AreOpen m.active_orders) where
  apply_rested-AreOpen : AreOpen (apply_rested m e).1.active_orders
  unfolding apply_rested upsert_order
  apply_rested-AreOpen = ground (
    arith,
    h,
    IsPositive-iff e.remaining_quantity_lots,
    insert-AreOpen e.order_id
        (record {
          instrument_id = e.instrument_id;
          side = e.side;
          price_ticks = e.price_ticks;
          remaining_quantity_lots = e.remaining_quantity_lots;
        })
        m.active_orders,
  )

  reduce_order-AreOpen :
      (o : OrderState)
      → IsPositive e.quantity_lots
      → ltb_ℤ o.remaining_quantity_lots e.quantity_lots ≡ false
      → AreOpen (reduce_order m e o).active_orders
  unfolding reduce_order
  reduce_order-AreOpen o q less =
      let left = o.remaining_quantity_lots -ℤ e.quantity_lots in
      elim (Bool-cases (eqb_ℤ left (pos 0))) [
        | inl gone ↦ rw gone (erase-AreOpen e.contra_order_id m.active_orders h)
        | inr some_left ↦ rw some_left (
            insert-AreOpen e.contra_order_id (record o { remaining_quantity_lots = left })
              m.active_orders (unfold ◌-ℤ◌ in ground arith) h)
      ]

  apply_trade-AreOpen : AreOpen (apply_trade m e).1.active_orders
  unfolding apply_trade
  apply_trade-AreOpen = elim (Option-cases (lookup e.contra_order_id m.active_orders)) [
    | inl missing ↦ rw missing (ground (arith, h))
    | inr (o, found) ↦
        let reduced : IsPositive e.quantity_lots
            → ltb_ℤ o.remaining_quantity_lots e.quantity_lots ≡ false
            → AreOpen (reduce_order m e o).active_orders =
          reduce_order-AreOpen o in
        rw found (ground (arith, h, IsPositive-iff e.quantity_lots, reduced))
  ]

  apply_cancelled-AreOpen : AreOpen (apply_cancelled m e).1.active_orders
  unfolding apply_cancelled remove_order
  apply_cancelled-AreOpen = ground (arith, h, erase-AreOpen e.order_id m.active_orders h)

  apply_filled-AreOpen : AreOpen (apply_filled m e).1.active_orders
  unfolding apply_filled remove_order
  apply_filled-AreOpen = ground (arith, h, erase-AreOpen e.order_id m.active_orders h)

  dispatch-AreOpen : AreOpen (dispatch m e).1.active_orders
  unfolding dispatch
  dispatch-AreOpen = ground (
    arith, h, apply_rested-AreOpen, apply_trade-AreOpen, apply_cancelled-AreOpen,
    apply_filled-AreOpen,
  )

  advance-AreOpen :
      (n : ℕ) (r : Applied) → AreOpen r.1.active_orders → AreOpen (advance n r).1.active_orders
  advance-AreOpen n (applied, m') k = k
  advance-AreOpen n (ignored, m') k = k
  advance-AreOpen n (rejected r, m') k = k

  apply-AreOpen : AreOpen (apply m e).1.active_orders
  unfolding apply
  apply-AreOpen = elim (Bool-cases (e.event_sequence == increment m.last_applied_event_sequence)) [
    | inl next ↦ rw next (advance-AreOpen e.event_sequence (dispatch m e) dispatch-AreOpen)
    | inr gap ↦ rw gap h
  ]

-- A projection of many events; those that are rejected are passed over.
unfoldable pub project : MarketDataProjection → List ExecutionEventRecord → MarketDataProjection
project m [] = m
project m (e ∷ es) = project (apply m e).1 es

IsStep-IsShown :
    (m : MarketDataProjection) (e : ExecutionEventRecord) (r : Applied)
    → IsShown m
    → IsStep m e r
    → IsShown r.1
IsStep-IsShown m e (applied, m') k h = h.0
IsStep-IsShown m e (ignored, m') k h = subst IsShown (sym h.0) k
IsStep-IsShown m e (rejected r, m') k h = subst IsShown (sym h) k

project-shows :
    (es : List ExecutionEventRecord) (m : MarketDataProjection) (price : ℤ)
    → IsShown m
    → AreOpen m.active_orders
    → FitsDepth (project m es).active_orders
    → ShowsDepth (project m es).active_orders (project m es).book price
unfolding project
project-shows [] m price s h fits =
    subst (λ v. ShowsDepth m.active_orders v price) (sym s)
      (rebuild_book-ShowsDepth m.active_orders price h fits)
project-shows (e ∷ es) m price s h fits =
    project-shows es (apply m e).1 price (IsStep-IsShown m e (apply m e) s (apply-IsStep m e))
      (apply-AreOpen m e h) fits

-- After any events, if at every price, on each side, the open quantities of the active orders sum up
-- to less than 2 ^ 63, the public book of a new projection shows these sums.
pub project-ShowsDepth :
    (es : List ExecutionEventRecord) (price : ℤ)
    → FitsDepth (project empty_projection es).active_orders
    → ShowsDepth
        (project empty_projection es).active_orders
        (project empty_projection es).book
        price
project-ShowsDepth es price fits =
    project-shows es empty_projection price (unfold rebuild_book rebuild_loop visible in refl) tt
      fits
