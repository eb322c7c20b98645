-- ===== src/Engine/Bounds.antt =====
-- The machine-width bounds of the handlers and of a run of InstrumentEngine.
use fun_exch_macher.Common.{
  ℕ, ◌<◌, ◌≡◌, ℤ, pos, if_either, some, List, [], ◌∷◌, All, All-append, arith,
}
use fun_exch_macher.Common.Int.{◌-ℤ◌, eqb_ℤ, ltb_ℤ, gtb_ℤ}
use fun_exch_macher.Common.Dict.{insert-All, lookup-All}
use fun_exch_macher.Domain.{
  OrderCommandRecord, RejectionReason, ExecutionEventType, order_fully_filled, order_accepted,
  order_rejected, order_cancelled, is_side, decode_side, buy,
}
use fun_exch_macher.Domain.Fits.{IsLots, FitsCommand, FitsEvent}
use fun_exch_macher.OrderBook.Types.{OrderBook, RestingOrder, new_book}
use fun_exch_macher.OrderBook.Emit.{emit_order_event, emit_rejection_event, emit_cancel_event}
use fun_exch_macher.OrderBook.Levels.{rest_order, remove_cancelled_order, find_order}
use fun_exch_macher.OrderBook.Match.{Matched}
use fun_exch_macher.OrderBook.Apply.{
  Outcome, reject, bind_instrument_if_needed, match_order, settle, accept_new_order,
  apply_new_order, cancel_resting, replacement_new_order_command, replace_resting,
}
use fun_exch_macher.OrderBook.Accepts.{IsAcceptable}
use fun_exch_macher.OrderBook.Cases.{
  apply_new_order_cases, apply_cancel_order_cases, apply_replace_order_cases,
}
use fun_exch_macher.OrderBook.Bounds.{FitsMatched, match_order-Fits, emit_order_event-Fits}
use fun_exch_macher.OrderBook.Fits.{
  FitsOrder, FitsBook, IsInt64-IsLots, IsLots-positive, IsInt64-sub, encode_rejection_reason_bound,
}
use fun_exch_macher.Engine.{apply, run}
use fun_exch_macher.Engine.Invariant.{apply_cases}
use fun_exch_macher.OrderBook.LevelBounds.{push_back-Fits, remove_cancelled_order-Fits, FitsOutcome}

module _ (c : OrderCommandRecord) (f : FitsCommand c) where
  rest_order-Fits :
      (b : OrderBook) (remaining : ℤ)
      → IsLots remaining
      → FitsBook b
      → FitsBook (rest_order b c remaining)
  unfolding rest_order
  rest_order-Fits b remaining q h =
      let o : RestingOrder = record {
        order_id = c.order_id;
        client_id = c.client_id;
        instrument_id = c.instrument_id;
        side = c.side;
        price_ticks = c.price_ticks;
        remaining_quantity_lots = remaining;
      } in
      let k : FitsOrder o = record {
        order_id = f.order_id;
        client_id = f.client_id;
        instrument_id = f.instrument_id;
        side = f.side;
        price_ticks = f.price_ticks;
        remaining_quantity_lots = q;
      } in
      let active = insert-All FitsOrder c.order_id o b.active_orders k h.active_orders in
      if_either FitsBook (is_side (decode_side c.side) buy) _ _
        (record {
          next_event_sequence = h.next_event_sequence;
          next_trade_id = h.next_trade_id;
          bids = push_back-Fits gtb_ℤ c.price_ticks o b.bids f.price_ticks k h.bids;
          asks = h.asks;
          active_orders = active;
        })
        (record {
          next_event_sequence = h.next_event_sequence;
          next_trade_id = h.next_trade_id;
          bids = h.bids;
          asks = push_back-Fits ltb_ℤ c.price_ticks o b.asks f.price_ticks k h.asks;
          active_orders = active;
        })

  settle-Fits :
      (m : Matched) → IsLots c.quantity_lots → FitsMatched c f m → FitsOutcome (settle c m)
  unfolding settle
  settle-Fits m q k =
      let filled =
        emit_order_event-Fits c f m.book order_fully_filled c.quantity_lots (pos 0) k.book
          (IsInt64-IsLots c.quantity_lots q) (omega arith) in
      let rested = λ (t : ExecutionEventType).
        emit_order_event-Fits c f (rest_order m.book c m.remaining) t
          (c.quantity_lots -ℤ m.remaining) m.remaining
          (rest_order-Fits m.book m.remaining k.remaining k.book)
          (IsInt64-sub c.quantity_lots m.remaining q k.remaining)
          (IsInt64-IsLots m.remaining k.remaining) in
      if_either (λ (r : Outcome). FitsOutcome r) (eqb_ℤ m.remaining (pos 0)) _ _
        (All-append FitsEvent m.events _ k.events (filled.0, tt), filled.1)
        (All-append FitsEvent m.events _ k.events ((rested _).0, tt), (rested _).1)

  bind-Fits : (b : OrderBook) → FitsBook b → FitsBook (bind_instrument_if_needed b c.instrument_id)
  unfolding bind_instrument_if_needed
  bind-Fits b h = record {
    next_event_sequence = h.next_event_sequence;
    next_trade_id = h.next_trade_id;
    bids = h.bids;
    asks = h.asks;
    active_orders = h.active_orders;
  }

  accept_new_order-Fits :
      (b : OrderBook) → IsAcceptable b c → FitsBook b → FitsOutcome (accept_new_order b c)
  unfolding accept_new_order
  accept_new_order-Fits b a h =
      let q = IsLots-positive c.quantity_lots f.quantity_lots a.form.quantity in
      let bound = bind_instrument_if_needed b c.instrument_id in
      let (e, k) =
        emit_order_event-Fits c f bound order_accepted c.quantity_lots c.quantity_lots
          (bind-Fits b h) f.quantity_lots f.quantity_lots in
      let b' = (emit_order_event bound c order_accepted c.quantity_lots c.quantity_lots).1 in
      let (es, k') = settle-Fits (match_order b' c) q (match_order-Fits c f b' q k) in ((e, es), k')

  reject-Fits : (b : OrderBook) (r : RejectionReason) → FitsBook b → FitsOutcome (reject b c r)
  unfolding reject emit_rejection_event emit_order_event
  reject-Fits b r h =
      let (e, k) =
        emit_order_event-Fits c f b order_rejected (pos 0) (pos 0) h (omega arith) (omega arith) in
      (
        (
          record {
            event_sequence = e.event_sequence;
            command_sequence = e.command_sequence;
            source_ingress_epoch = e.source_ingress_epoch;
            source_ingress_sequence = e.source_ingress_sequence;
            order_id = e.order_id;
            contra_order_id = e.contra_order_id;
            trade_id = e.trade_id;
            price_ticks = e.price_ticks;
            quantity_lots = e.quantity_lots;
            remaining_quantity_lots = e.remaining_quantity_lots;
            instrument_id = e.instrument_id;
            event_type = e.event_type;
            side = e.side;
            rejection_reason = encode_rejection_reason_bound r;
            reserved = e.reserved;
          },
          tt,
        ),
        k,
      )

  apply_new_order-Fits : (b : OrderBook) → FitsBook b → FitsOutcome (apply_new_order b c)
  apply_new_order-Fits b h =
      apply_new_order_cases (λ r. FitsOutcome r) b c (λ r. reject-Fits b r h)
        (λ a. accept_new_order-Fits b a h)

  cancel_resting-Fits :
      (b : OrderBook) (o : RestingOrder)
      → FitsOrder o
      → FitsBook b
      → FitsOutcome (cancel_resting b c o)
  unfolding cancel_resting emit_cancel_event emit_order_event
  cancel_resting-Fits b o k h =
      let (e, h') =
        emit_order_event-Fits c f (remove_cancelled_order b o) order_cancelled (pos 0)
          o.remaining_quantity_lots (remove_cancelled_order-Fits b o h) (omega arith)
          (IsInt64-IsLots o.remaining_quantity_lots k.remaining_quantity_lots) in
      (
        (
          record {
            event_sequence = e.event_sequence;
            command_sequence = e.command_sequence;
            source_ingress_epoch = e.source_ingress_epoch;
            source_ingress_sequence = e.source_ingress_sequence;
            order_id = e.order_id;
            contra_order_id = e.contra_order_id;
            trade_id = e.trade_id;
            price_ticks = k.price_ticks;
            quantity_lots = e.quantity_lots;
            remaining_quantity_lots = e.remaining_quantity_lots;
            instrument_id = k.instrument_id;
            event_type = e.event_type;
            side = k.side;
            rejection_reason = e.rejection_reason;
            reserved = e.reserved;
          },
          tt,
        ),
        h',
      )

  found-Fits :
      (b : OrderBook) (id : ℕ) (o : RestingOrder)
      → find_order b id ≡ some o
      → FitsBook b
      → FitsOrder o
  unfolding find_order
  found-Fits b id o e h = lookup-All FitsOrder id o b.active_orders h.active_orders e

replacement-Fits :
    (c : OrderCommandRecord) → FitsCommand c → FitsCommand (replacement_new_order_command c)
unfolding replacement_new_order_command
replacement-Fits c f = record {
  command_sequence = f.command_sequence;
  source_ingress_epoch = f.source_ingress_epoch;
  source_ingress_sequence = f.source_ingress_sequence;
  order_id = f.replacement_order_id;
  replacement_order_id = f.replacement_order_id;
  client_id = f.client_id;
  price_ticks = f.price_ticks;
  quantity_lots = f.quantity_lots;
  instrument_id = f.instrument_id;
  command_type = omega arith;
  side = f.side;
  time_in_force = f.time_in_force;
  reserved = f.reserved;
}

replace_resting-Fits :
    (c : OrderCommandRecord) (f : FitsCommand c) (b : OrderBook) (o : RestingOrder)
    → FitsOrder o
    → FitsBook b
    → FitsOutcome (replace_resting b c o)
unfolding replace_resting
replace_resting-Fits c f b o k h =
    let (es, h') = cancel_resting-Fits c f b o k h in
    let b' = (cancel_resting b c o).1 in
    let c' = replacement_new_order_command c in
    let (es', h'') = apply_new_order-Fits c' (replacement-Fits c f) b' h' in
    (All-append FitsEvent (cancel_resting b c o).0 (apply_new_order b' c').0 es es', h'')

pub apply-Fits :
    (b : OrderBook) (c : OrderCommandRecord) → FitsCommand c → FitsBook b → FitsOutcome (apply b c)
apply-Fits b c f h =
    let rejected = λ (r : RejectionReason). reject-Fits c f b r h in
    apply_cases (λ r. FitsOutcome r) b c rejected (apply_new_order-Fits c f b h)
      (apply_cancel_order_cases (λ r. FitsOutcome r) b c rejected
        (λ o found same. cancel_resting-Fits c f b o (found-Fits c f b c.order_id o found h) h))
      (apply_replace_order_cases (λ r. FitsOutcome r) b c rejected
        (λ o r. replace_resting-Fits c f b o (found-Fits c f b c.order_id o r.found h) h))

new_book-Fits : (first : ℕ) → first < 18446744073709551616 → FitsBook (new_book first)
unfolding new_book
new_book-Fits first h = record {
  next_event_sequence = h;
  next_trade_id = omega arith;
  bids = tt;
  asks = tt;
  active_orders = tt;
}

run-Fits :
    (b : OrderBook) (cs : List OrderCommandRecord)
    → All FitsCommand cs
    → FitsBook b
    → FitsOutcome (run b cs)
unfolding run
run-Fits b [] fs h = (tt, h)
run-Fits b (c ∷ cs) fs h =
    let (es, h') = apply-Fits b c fs.0 h in
    let (es', h'') = run-Fits (apply b c).1 cs fs.1 h' in
    (All-append FitsEvent (apply b c).0 (run (apply b c).1 cs).0 es es', h'')

-- From commands whose fields fit their machine types, and a first event sequence that fits, a new
-- book makes only events whose fields fit theirs, and rests only orders that fit, with quantities
-- from 0 to 2 ^ 63 - 1.
pub run-FitsOutcome :
    (first : ℕ) (cs : List OrderCommandRecord)
    → first < 18446744073709551616
    → All FitsCommand cs
    → FitsOutcome (run (new_book first) cs)
run-FitsOutcome first cs h fs = run-Fits (new_book first) cs fs (new_book-Fits first h)
