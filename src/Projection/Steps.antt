-- ===== src/Projection/Steps.antt =====
-- MarketDataProjection::apply (market_data_projection.cpp) on any event: what it changes, and the
-- public book against the active orders.
use fun_exch_macher.Common.{ℕ, ◌≡◌, refl, ap, inl, inr, ◌==◌, ==_iff, Bool-cases, arith}
use fun_exch_macher.Domain.{ExecutionEventRecord}
use fun_exch_macher.OrderBook.Types.{increment}
use fun_exch_macher.Projection.{
  MarketDataProjection, applied, ignored, rejected, Applied, rebuild_book, upsert_order,
  remove_order, apply_rested, reduce_order, apply_trade, apply_cancelled, apply_filled, dispatch,
  advance, apply,
}

-- The book shows the active orders.
abbrev pub IsShown : MarketDataProjection → Type 0
IsShown m = m.book ≡ rebuild_book m.active_orders

-- An event is rejected and leaves the projection as it was, or it leaves a shown book.
abbrev Handles : MarketDataProjection → Applied → Type 0
Handles m (applied, m') =
    IsShown m' × (m'.last_applied_event_sequence ≡ m.last_applied_event_sequence)
Handles m (ignored, m') = m' ≡ m
Handles m (rejected r, m') = m' ≡ m

module _ (m : MarketDataProjection) (e : ExecutionEventRecord) where
  remove_order-Handles : (id : ℕ) → Handles m (remove_order m id)
  unfolding remove_order
  remove_order-Handles id = (refl, refl)

  apply_rested-Handles : Handles m (apply_rested m e)
  unfolding apply_rested upsert_order
  apply_rested-Handles = ground arith

  apply_trade-Handles : Handles m (apply_trade m e)
  unfolding apply_trade reduce_order
  apply_trade-Handles = ground arith

  apply_cancelled-Handles : Handles m (apply_cancelled m e)
  unfolding apply_cancelled remove_order
  apply_cancelled-Handles = ground arith

  apply_filled-Handles : Handles m (apply_filled m e)
  unfolding apply_filled remove_order
  apply_filled-Handles = ground arith

  dispatch-Handles : Handles m (dispatch m e)
  unfolding dispatch
  dispatch-Handles = ground (
    arith, apply_rested-Handles, apply_trade-Handles, apply_cancelled-Handles, apply_filled-Handles,
  )

-- What an event does to a projection.
abbrev pub IsStep : MarketDataProjection → ExecutionEventRecord → Applied → Type 0
IsStep m e (applied, m') =
    IsShown m'
    × (e.event_sequence ≡ increment m.last_applied_event_sequence)
    × (m'.last_applied_event_sequence ≡ e.event_sequence)
IsStep m e (ignored, m') =
    (m' ≡ record m { last_applied_event_sequence = e.event_sequence })
    × (e.event_sequence ≡ increment m.last_applied_event_sequence)
IsStep m e (rejected r, m') = m' ≡ m

advance-IsStep :
    (m : MarketDataProjection) (e : ExecutionEventRecord) (r : Applied)
    → Handles m r
    → e.event_sequence ≡ increment m.last_applied_event_sequence
    → IsStep m e (advance e.event_sequence r)
advance-IsStep m e (applied, m') h next = (h.0, next, refl)
advance-IsStep m e (ignored, m') h next = (
  ap (λ (x : MarketDataProjection). record x { last_applied_event_sequence = e.event_sequence }) h,
  next,
)
advance-IsStep m e (rejected r, m') h next = h

-- An event that is applied has the next sequence, which the projection takes over, and leaves the
-- public book that its active orders make up; one that is ignored also has the next sequence, and
-- changes nothing but the last sequence; and one that is rejected changes nothing.
pub apply-IsStep : (m : MarketDataProjection) (e : ExecutionEventRecord) → IsStep m e (apply m e)
unfolding apply
apply-IsStep m e = elim (Bool-cases (e.event_sequence == increment m.last_applied_event_sequence)) [
  | inl next ↦
      rw next (advance-IsStep m e (dispatch m e) (dispatch-Handles m e) ((==_iff _ _).0 next))
  | inr gap ↦ rw gap refl
]
