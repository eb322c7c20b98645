-- ===== src/OrderBook/Bounds.antt =====
-- The matching loops and events of order_book.cpp against the machine widths of the quantities and
-- fields that they compute.
use fun_exch_macher.Common.{
  ◌≡◌, refl, ℤ, pos, Bool, if_either, List, [], ◌∷◌, All, All-append, arith,
}
use fun_exch_macher.Common.Int.{◌-ℤ◌, min_ℤ, ltb_ℤ, gtb_ℤ, eqb_ℤ}
use fun_exch_macher.Common.Dict.{erase, insert-All, erase-All}
use fun_exch_macher.Domain.{OrderCommandRecord, ExecutionEventType, trade_executed}
use fun_exch_macher.Domain.Fits.{IsInt64, IsLots, FitsCommand, FitsEvent}
use fun_exch_macher.OrderBook.Types.{OrderBook, RestingOrder, Level}
use fun_exch_macher.OrderBook.Emit.{emit_order_event, emit_trade_event}
use fun_exch_macher.OrderBook.Match.{
  Trade, trade, Fill, match_level, after_level, match_levels, Matched, match_buy_order_against_asks,
  match_sell_order_against_bids,
}
use fun_exch_macher.OrderBook.Apply.{match_order}
use fun_exch_macher.OrderBook.Fits.{
  FitsOrder, FitsLevel, FitsBook, increment_bound, IsInt64-IsLots, IsLots-min, IsLots-rest,
  encode_event_type_bound,
}

module _ (c : OrderCommandRecord) (f : FitsCommand c) where
  pub emit_order_event-Fits :
      (b : OrderBook) (t : ExecutionEventType) (quantity remaining : ℤ)
      → FitsBook b
      → IsInt64 quantity
      → IsInt64 remaining
      → FitsEvent (emit_order_event b c t quantity remaining).0
        × FitsBook (emit_order_event b c t quantity remaining).1
  unfolding emit_order_event
  emit_order_event-Fits b t quantity remaining h q r = (
    record {
      event_sequence = h.next_event_sequence;
      command_sequence = f.command_sequence;
      source_ingress_epoch = f.source_ingress_epoch;
      source_ingress_sequence = f.source_ingress_sequence;
      order_id = f.order_id;
      contra_order_id = omega arith;
      trade_id = omega arith;
      price_ticks = f.price_ticks;
      quantity_lots = q;
      remaining_quantity_lots = r;
      instrument_id = f.instrument_id;
      event_type = encode_event_type_bound t;
      side = f.side;
      rejection_reason = omega arith;
      reserved = omega arith;
    },
    record {
      next_event_sequence = increment_bound b.next_event_sequence;
      next_trade_id = h.next_trade_id;
      bids = h.bids;
      asks = h.asks;
      active_orders = h.active_orders;
    },
  )

  record FitsTrade (t : Trade) : Type 0 where
    remaining : IsLots t.remaining
    order : FitsOrder t.order
    event : FitsEvent t.event
    book : FitsBook t.book

  trade-Fits :
      (price incoming : ℤ) (o : RestingOrder) (b : OrderBook)
      → IsInt64 price
      → IsLots incoming
      → FitsOrder o
      → FitsBook b
      → FitsTrade (trade c price incoming o b)
  unfolding trade emit_trade_event emit_order_event
  trade-Fits price incoming o b p q k h =
      let quantity = min_ℤ incoming o.remaining_quantity_lots in
      let (left, traded) =
        IsLots-min incoming o.remaining_quantity_lots q k.remaining_quantity_lots in
      let rest = IsLots-rest incoming o.remaining_quantity_lots q k.remaining_quantity_lots in
      let o' = record o { remaining_quantity_lots = o.remaining_quantity_lots -ℤ quantity } in
      let k' : FitsOrder o' = record {
        order_id = k.order_id;
        client_id = k.client_id;
        instrument_id = k.instrument_id;
        side = k.side;
        price_ticks = k.price_ticks;
        remaining_quantity_lots = rest;
      } in
      let (e, h') =
        emit_order_event-Fits b trade_executed quantity (incoming -ℤ quantity) h
          (IsInt64-IsLots quantity traded) (IsInt64-IsLots (incoming -ℤ quantity) left) in
      record {
        remaining = left;
        order = k';
        event = record {
          event_sequence = h.next_event_sequence;
          command_sequence = f.command_sequence;
          source_ingress_epoch = f.source_ingress_epoch;
          source_ingress_sequence = f.source_ingress_sequence;
          order_id = f.order_id;
          contra_order_id = k.order_id;
          trade_id = h.next_trade_id;
          price_ticks = p;
          quantity_lots = IsInt64-IsLots quantity traded;
          remaining_quantity_lots = IsInt64-IsLots (incoming -ℤ quantity) left;
          instrument_id = f.instrument_id;
          event_type = omega arith;
          side = f.side;
          rejection_reason = omega arith;
          reserved = omega arith;
        };
        book = record {
          next_event_sequence = increment_bound b.next_event_sequence;
          next_trade_id = increment_bound b.next_trade_id;
          bids = h.bids;
          asks = h.asks;
          active_orders = insert-All FitsOrder o.order_id o' b.active_orders k' h.active_orders;
        };
      }

  record FitsFill {A : Type 0} (Fits : A → Type 0) (g : Fill A) : Type 0 where
    remaining : IsLots g.remaining
    rest : All Fits g.rest
    events : All FitsEvent g.events
    book : FitsBook g.book

  match_level-Fits :
      (price incoming : ℤ) (os : List RestingOrder) (b : OrderBook)
      → IsInt64 price
      → IsLots incoming
      → All FitsOrder os
      → FitsBook b
      → FitsFill FitsOrder (match_level c price incoming os b)
  unfolding match_level
  match_level-Fits price incoming [] b p q ks h = record {
    remaining = q;
    rest = tt;
    events = tt;
    book = h;
  }
  match_level-Fits price incoming (o ∷ os) b p q ks h =
      let t = trade c price incoming o b in
      let k = trade-Fits price incoming o b p q ks.0 h in
      let popped = record (t.book) { active_orders = erase o.order_id t.book.active_orders } in
      let popped_fits : FitsBook popped = record {
        next_event_sequence = k.book.next_event_sequence;
        next_trade_id = k.book.next_trade_id;
        bids = k.book.bids;
        asks = k.book.asks;
        active_orders = erase-All FitsOrder o.order_id t.book.active_orders k.book.active_orders;
      } in
      let later = match_level-Fits price t.remaining os popped p k.remaining ks.1 popped_fits in
      if_either (FitsFill FitsOrder) (ltb_ℤ (pos 0) incoming) _ _
        (if_either (FitsFill FitsOrder) (eqb_ℤ t.order.remaining_quantity_lots (pos 0)) _ _
          (record {
            remaining = later.remaining;
            rest = later.rest;
            events = (k.event, later.events);
            book = later.book;
          })
          (record {
            remaining = k.remaining;
            rest = (k.order, ks.1);
            events = (k.event, tt);
            book = k.book;
          }))
        (record { remaining = q; rest = ks; events = tt; book = h })

  after_level-Fits :
      (p : ℤ) (g : Fill RestingOrder) (ls : List Level) (later : Fill Level)
      → IsInt64 p
      → FitsFill FitsOrder g
      → All FitsLevel ls
      → FitsFill FitsLevel later
      → FitsFill FitsLevel (after_level p g ls later)
  after_level-Fits p g ls later q k hs l = go g.rest refl
    where
      go :
          (rest : List RestingOrder) → g.rest ≡ rest → FitsFill FitsLevel (after_level p g ls later)
      go [] e =
          rw (e, after_level)
            (record {
              remaining = l.remaining;
              rest = l.rest;
              events = All-append FitsEvent g.events later.events k.events l.events;
              book = l.book;
            })
      go (o ∷ os) e =
          rw (e, after_level)
            (record {
              remaining = k.remaining;
              rest = ((q, rw e at k.rest), hs);
              events = k.events;
              book = k.book;
            })

  match_levels-Fits :
      (before : ℤ → ℤ → Bool) (incoming : ℤ) (ls : List Level) (b : OrderBook)
      → IsLots incoming
      → All FitsLevel ls
      → FitsBook b
      → FitsFill FitsLevel (match_levels before c incoming ls b)
  unfolding match_levels
  match_levels-Fits before incoming [] b q hs h = record {
    remaining = q;
    rest = tt;
    events = tt;
    book = h;
  }
  match_levels-Fits before incoming ((p, os) ∷ ls) b q hs h =
      let g = match_level c p incoming os b in
      let k = match_level-Fits p incoming os b hs.0.0 q hs.0.1 h in
      let later = match_levels-Fits before g.remaining ls g.book k.remaining hs.1 k.book in
      let stays : FitsFill FitsLevel
          (record { remaining = incoming; rest = (p, os) ∷ ls; events = []; book = b }) =
        record { remaining = q; rest = hs; events = tt; book = h } in
      if_either (FitsFill FitsLevel) (ltb_ℤ (pos 0) incoming) _ _
        (if_either (FitsFill FitsLevel) (before c.price_ticks p) _ _ stays (
          after_level-Fits p g ls (match_levels before c g.remaining ls g.book) hs.0.0 k hs.1
            later))
        stays

  pub record FitsMatched (m : Matched) : Type 0 where
    pub remaining : IsLots m.remaining
    pub events : All FitsEvent m.events
    pub book : FitsBook m.book

  pub match_order-Fits :
      (b : OrderBook) → IsLots c.quantity_lots → FitsBook b → FitsMatched (match_order b c)
  unfolding match_order match_buy_order_against_asks match_sell_order_against_bids
  match_order-Fits b q h =
      let buys = match_levels-Fits ltb_ℤ c.quantity_lots b.asks b q h.asks h in
      let sells = match_levels-Fits gtb_ℤ c.quantity_lots b.bids b q h.bids h in
      if_either FitsMatched _ _ _
        (record {
          remaining = buys.remaining;
          events = buys.events;
          book = record {
            next_event_sequence = buys.book.next_event_sequence;
            next_trade_id = buys.book.next_trade_id;
            bids = buys.book.bids;
            asks = buys.rest;
            active_orders = buys.book.active_orders;
          };
        })
        (record {
          remaining = sells.remaining;
          events = sells.events;
          book = record {
            next_event_sequence = sells.book.next_event_sequence;
            next_trade_id = sells.book.next_trade_id;
            bids = sells.rest;
            asks = sells.book.asks;
            active_orders = sells.book.active_orders;
          };
        })
