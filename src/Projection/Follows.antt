-- ===== src/Projection/Follows.antt =====
-- The handlers of order_book.cpp, and the engine over them, next to a projection of their events.
use fun_exch_macher.Common.{◌≡◌, ◌≢◌, refl, sym, ap, ◌∙◌, some, List, [], ◌∷◌, All, arith}
use fun_exch_macher.Common.Dict.{lookup, erase}
use fun_exch_macher.Domain.{OrderCommandRecord, new_order, decode_command_type}
use fun_exch_macher.OrderBook.Types.{OrderBook, RestingOrder, increment}
use fun_exch_macher.OrderBook.Levels.{remove_cancelled_order, find_order}
use fun_exch_macher.OrderBook.Emit.{emit_order_event, emit_cancel_event}
use fun_exch_macher.OrderBook.Apply.{
  apply_new_order, cancel_resting, apply_cancel_order, replace_resting,
  replacement_new_order_command, apply_replace_order,
}
use fun_exch_macher.OrderBook.Cases.{
  apply_new_order_cases, apply_cancel_order_cases, apply_replace_order_cases,
}
use fun_exch_macher.OrderBook.Invariant.{IsValid}
use fun_exch_macher.OrderBook.Removal.{found-id}
use fun_exch_macher.OrderBook.Handlers.{cancel_resting-IsValid}
use fun_exch_macher.Engine
use fun_exch_macher.Engine.{run}
use fun_exch_macher.Engine.Invariant.{apply_cases, apply-IsValid}
use fun_exch_macher.Projection.{MarketDataProjection}
use fun_exch_macher.Projection.Shown.{project}
use fun_exch_macher.Projection.Tracks.{
  view_order, erase-view, lookup-view_some, cancelled-TakesTo, Tracks, TakesTo-Tracks, Follows,
  Follows-one, Follows-append,
}
use fun_exch_macher.Projection.Matched.{erase_other}
use fun_exch_macher.Projection.Accepted.{reject-Follows, accept_new_order-Follows}

apply_new_order-Follows :
    (b : OrderBook) (c : OrderCommandRecord) (m : MarketDataProjection)
    → IsValid b
    → (decode_command_type c.command_type ≡ some new_order → c.order_id ≢ 0)
    → Tracks b m
    → Follows m (apply_new_order b c).0 (apply_new_order b c).1
apply_new_order-Follows b c m v named t =
    apply_new_order_cases (λ r. Follows m r.0 r.1) b c (λ r. reject-Follows b c r m t)
      (λ a. accept_new_order-Follows c a.form (named a.command_type) b m v a t)

remove_cancelled_order-active :
    (b : OrderBook) (o : RestingOrder)
    → ((remove_cancelled_order b o).active_orders ≡ erase o.order_id b.active_orders)
      × ((remove_cancelled_order b o).next_event_sequence ≡ b.next_event_sequence)
unfolding remove_cancelled_order
remove_cancelled_order-active b o = ground arith

cancel_resting-Follows :
    (b : OrderBook) (c : OrderCommandRecord) (o : RestingOrder) (m : MarketDataProjection)
    → IsValid b
    → find_order b c.order_id ≡ some o
    → Tracks b m
    → Follows m (cancel_resting b c o).0 (cancel_resting b c o).1
unfolding cancel_resting emit_cancel_event emit_order_event find_order
cancel_resting-Follows b c o m v found t =
    let (e, b') = emit_cancel_event (remove_cancelled_order b o) c o in
    let (active, next) = remove_cancelled_order-active b o in
    let id : o.order_id ≡ c.order_id = found-id v c.order_id o found in
    Follows-one m e b' (
      TakesTo-Tracks b b' m e (erase c.order_id m.active_orders)
        (cancelled-TakesTo m e (next ∙ sym t.next) (view_order o) refl
          (ap (lookup c.order_id) t.active ∙ lookup-view_some c.order_id b.active_orders o found))
        next (ap increment next) (rw (active, t.active, id) (erase-view c.order_id b.active_orders))
        (rw active (erase_other o.order_id 0 b.active_orders t.named)))

apply_cancel_order-Follows :
    (b : OrderBook) (c : OrderCommandRecord) (m : MarketDataProjection)
    → IsValid b
    → Tracks b m
    → Follows m (apply_cancel_order b c).0 (apply_cancel_order b c).1
apply_cancel_order-Follows b c m v t =
    apply_cancel_order_cases (λ r. Follows m r.0 r.1) b c (λ r. reject-Follows b c r m t)
      (λ o found same. cancel_resting-Follows b c o m v found t)

apply_replace_order-Follows :
    (b : OrderBook) (c : OrderCommandRecord) (m : MarketDataProjection)
    → IsValid b
    → Tracks b m
    → Follows m (apply_replace_order b c).0 (apply_replace_order b c).1
unfolding replace_resting replacement_new_order_command
apply_replace_order-Follows b c m v t =
    apply_replace_order_cases (λ r. Follows m r.0 r.1) b c (λ r. reject-Follows b c r m t)
      (λ o h.
        let b' = (cancel_resting b c o).1 in
        Follows-append m (cancel_resting b c o).0 _ b' _
          (cancel_resting-Follows b c o m v h.found t)
          (λ m' t'.
            apply_new_order-Follows b' (replacement_new_order_command c) m'
              (cancel_resting-IsValid b c c.order_id o v h.found) (λ new. h.named) t'))

-- No new order has id 0.
abbrev pub IsOrderNamed : OrderCommandRecord → Type 0
IsOrderNamed c = decode_command_type c.command_type ≡ some new_order → c.order_id ≢ 0

apply-Follows :
    (b : OrderBook) (c : OrderCommandRecord) (m : MarketDataProjection)
    → IsValid b
    → IsOrderNamed c
    → Tracks b m
    → Follows m (Engine.apply b c).0 (Engine.apply b c).1
apply-Follows b c m v named t =
    apply_cases (λ r. Follows m r.0 r.1) b c (λ r. reject-Follows b c r m t)
      (apply_new_order-Follows b c m v named t) (apply_cancel_order-Follows b c m v t)
      (apply_replace_order-Follows b c m v t)

pub run-Follows :
    (b : OrderBook) (cs : List OrderCommandRecord) (m : MarketDataProjection)
    → IsValid b
    → All IsOrderNamed cs
    → Tracks b m
    → Follows m (run b cs).0 (run b cs).1
unfolding run project
run-Follows b [] m v named t = (tt, t)
run-Follows b (c ∷ cs) m v named t =
    let (events, b') = Engine.apply b c in
    Follows-append m events (run b' cs).0 b' (run b' cs).1 (apply-Follows b c m v named.0 t)
      (λ m' t'. run-Follows b' cs m' (apply-IsValid b c v) named.1 t')
