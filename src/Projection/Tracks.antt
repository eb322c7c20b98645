-- ===== src/Projection/Tracks.antt =====
-- A projection (market_data_projection.cpp) next to a book (order_book.cpp): its active orders are
-- those of the book, and it expects the event that the book makes next.
use fun_exch_macher.Common.{
  ℕ, ◌≡◌, ◌≢◌, refl, sym, ap, ◌∙◌, Bool, true, false, ◌||◌, ◌==◌, ==_self, Option, none, some, List,
  [], ◌∷◌, ◌++◌, arith,
}
use fun_exch_macher.Common.Int.{ltb_ℤ, IsPositive, IsPositive-iff}
use fun_exch_macher.Common.Dict.{Dict, lookup, insert, erase}
use fun_exch_macher.Domain.{ExecutionEventRecord}
use fun_exch_macher.OrderBook.Types.{OrderBook, RestingOrder, increment}
use fun_exch_macher.Projection.{
  MarketDataProjection, with_orders, ProjectionApplyResult, applied, ignored, rejected, OrderState,
  Applied, is_buy, is_sell, upsert_order, remove_order, apply_rested, reduce_order, apply_trade,
  apply_cancelled, apply_filled, dispatch, apply,
}
use fun_exch_macher.Projection.Shown.{project}

-- What the projection keeps of a resting order.
abbrev pub view_order : RestingOrder → OrderState
view_order o = record {
  instrument_id = o.instrument_id;
  side = o.side;
  price_ticks = o.price_ticks;
  remaining_quantity_lots = o.remaining_quantity_lots;
}

unfoldable pub view : Dict RestingOrder → Dict OrderState
view [] = []
view ((id, o) ∷ m) = (id, view_order o) ∷ view m

abbrev view_option : Option RestingOrder → Option OrderState
view_option none = none
view_option (some o) = some (view_order o)

lookup-view : (id : ℕ) (m : Dict RestingOrder) → lookup id (view m) ≡ view_option (lookup id m)
unfolding lookup view
lookup-view id [] = refl
lookup-view id ((j, o) ∷ m) = ground (arith, lookup-view id m)

pub insert-view :
    (id : ℕ) (o : RestingOrder) (m : Dict RestingOrder)
    → insert id (view_order o) (view m) ≡ view (insert id o m)
unfolding insert view
insert-view id o [] = refl
insert-view id o ((j, x) ∷ m) = ground (arith, insert-view id o m)

pub erase-view : (id : ℕ) (m : Dict RestingOrder) → erase id (view m) ≡ view (erase id m)
unfolding erase view
erase-view id [] = refl
erase-view id ((j, x) ∷ m) = ground (arith, erase-view id m)

pub lookup-view_some :
    (id : ℕ) (m : Dict RestingOrder) (o : RestingOrder)
    → lookup id m ≡ some o
    → lookup id (view m) ≡ some (view_order o)
lookup-view_some id m o h = lookup-view id m ∙ ap view_option h

pub lookup-view_none :
    (id : ℕ) (m : Dict RestingOrder) → lookup id m ≡ none → lookup id (view m) ≡ none
lookup-view_none id m h = lookup-view id m ∙ ap view_option h

abbrev pub is_taken : ProjectionApplyResult → Bool
is_taken applied = true
is_taken ignored = true
is_taken (rejected e) = false

-- The event is not rejected, and leaves these active orders.
abbrev pub TakesTo : ExecutionEventRecord → Dict OrderState → Applied → Type 0
TakesTo e active r =
    (is_taken r.0 ≡ true)
    × (r.1.active_orders ≡ active)
    × (r.1.last_applied_event_sequence ≡ e.event_sequence)

module _ (m : MarketDataProjection) (e : ExecutionEventRecord)
    (next : e.event_sequence ≡ increment m.last_applied_event_sequence) where
  dispatch-TakesTo :
      (r : Applied) (active : Dict OrderState)
      → dispatch m e ≡ r
      → is_taken r.0 ≡ true
      → r.1.active_orders ≡ active
      → TakesTo e active (apply m e)
  unfolding apply
  dispatch-TakesTo (applied, m') active d t a =
      rw (sym next, ==_self e.event_sequence, d) (refl, a, refl)
  dispatch-TakesTo (ignored, m') active d t a =
      rw (sym next, ==_self e.event_sequence, d) (refl, a, refl)
  dispatch-TakesTo (rejected x, m') active d t a = absurd (cc)

  pub quiet-TakesTo :
      (e.event_type == 1 || e.event_type == 2) ≡ true → TakesTo e m.active_orders (apply m e)
  unfolding dispatch
  quiet-TakesTo h = dispatch-TakesTo (ignored, m) m.active_orders (rw h refl) refl refl

  pub rested-TakesTo :
      (e.event_type == 4 || e.event_type == 5) ≡ true
      → (is_buy e.side || is_sell e.side) ≡ true
      → e.order_id ≢ 0
      → IsPositive e.price_ticks
      → IsPositive e.remaining_quantity_lots
      → TakesTo e
          (insert e.order_id
            (record {
              instrument_id = e.instrument_id;
              side = e.side;
              price_ticks = e.price_ticks;
              remaining_quantity_lots = e.remaining_quantity_lots;
            })
            m.active_orders)
          (apply m e)
  unfolding dispatch apply_rested upsert_order
  rested-TakesTo t s id p q =
      let active =
        insert e.order_id
          (record {
            instrument_id = e.instrument_id;
            side = e.side;
            price_ticks = e.price_ticks;
            remaining_quantity_lots = e.remaining_quantity_lots;
          })
          m.active_orders in
      dispatch-TakesTo (applied, with_orders m active) active
        (ground
          (arith, t, s, id, IsPositive-iff e.price_ticks, IsPositive-iff e.remaining_quantity_lots))
        refl refl

  pub trade-TakesTo :
      (o : OrderState)
      → e.event_type ≡ 3
      → IsPositive e.quantity_lots
      → e.contra_order_id ≢ 0
      → lookup e.contra_order_id m.active_orders ≡ some o
      → ltb_ℤ o.remaining_quantity_lots e.quantity_lots ≡ false
      → TakesTo e (reduce_order m e o).active_orders (apply m e)
  unfolding dispatch apply_trade
  trade-TakesTo o t q id found enough =
      dispatch-TakesTo (applied, reduce_order m e o) _
        (rw (t, found) (ground (arith, id, enough, IsPositive-iff e.quantity_lots))) refl refl

  pub filled-TakesTo :
      e.event_type ≡ 6
      → lookup e.order_id m.active_orders ≡ none
      → TakesTo e m.active_orders (apply m e)
  unfolding dispatch apply_filled
  filled-TakesTo t missing =
      dispatch-TakesTo (ignored, m) m.active_orders (rw (t, missing, apply_filled) refl) refl refl

  pub cancelled-TakesTo :
      (o : OrderState)
      → e.event_type ≡ 7
      → lookup e.order_id m.active_orders ≡ some o
      → TakesTo e (erase e.order_id m.active_orders) (apply m e)
  unfolding dispatch apply_cancelled remove_order
  cancelled-TakesTo o t found =
      dispatch-TakesTo (remove_order m e.order_id) (erase e.order_id m.active_orders)
        (rw (t, found, apply_cancelled) refl) refl refl

-- The projection expects the next event of the book, has its active orders, and no order has id 0.
pub record Tracks (b : OrderBook) (m : MarketDataProjection) : Type 0 where
  pub next : increment m.last_applied_event_sequence ≡ b.next_event_sequence
  pub active : m.active_orders ≡ view b.active_orders
  pub named : lookup 0 b.active_orders ≡ none

-- The next event of the book, if it leads to the active orders of the book behind it.
pub TakesTo-Tracks :
    (b b' : OrderBook) (m : MarketDataProjection) (e : ExecutionEventRecord)
    (active : Dict OrderState)
    → TakesTo e active (apply m e)
    → e.event_sequence ≡ b.next_event_sequence
    → b'.next_event_sequence ≡ increment b.next_event_sequence
    → active ≡ view b'.active_orders
    → lookup 0 b'.active_orders ≡ none
    → (is_taken (apply m e).0 ≡ true) × Tracks b' (apply m e).1
TakesTo-Tracks b b' m e active t s n a named =
    (t.0, record { next = ap increment (t.2 ∙ s) ∙ sym n; active = t.1 ∙ a; named = named })

-- Events of which none is rejected.
abbrev pub AreTaken : MarketDataProjection → List ExecutionEventRecord → Type 0
AreTaken m [] = Unit {0}
AreTaken m (e ∷ es) = (is_taken (apply m e).0 ≡ true) × AreTaken (apply m e).1 es

-- From a projection that tracks a book, all events are taken and the projection tracks the new book.
abbrev pub Follows : MarketDataProjection → List ExecutionEventRecord → OrderBook → Type 0
Follows m es b = AreTaken m es × Tracks b (project m es)

pub Follows-one :
    (m : MarketDataProjection) (e : ExecutionEventRecord) (b : OrderBook)
    → (is_taken (apply m e).0 ≡ true) × Tracks b (apply m e).1
    → Follows m (e ∷ []) b
unfolding project
Follows-one m e b h = ((h.0, tt), h.1)

pub Follows-append :
    (m : MarketDataProjection) (xs ys : List ExecutionEventRecord) (b b' : OrderBook)
    → Follows m xs b
    → ((m' : MarketDataProjection) → Tracks b m' → Follows m' ys b')
    → Follows m (xs ++ ys) b'
unfolding project
Follows-append m [] ys b b' h k = k m h.1
Follows-append m (x ∷ xs) ys b b' h k =
    let rest = Follows-append (apply m x).1 xs ys b b' (h.0.1, h.1) k in ((h.0.0, rest.0), rest.1)
