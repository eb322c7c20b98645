-- ===== src/OrderBook/Match.antt =====
-- Matching in order_book.cpp. The two loops of the source differ in the map that they run over
-- and in the direction of the price test, which is the comparator of that map: a buy stops below
-- the best ask, a sell above the best bid.
use fun_exch_macher.Common.{ℤ, pos, Bool, List, [], ◌∷◌, ◌++◌, if◌then◌else◌}
use fun_exch_macher.Common.Int.{◌-ℤ◌, min_ℤ, ltb_ℤ, gtb_ℤ, eqb_ℤ}
use fun_exch_macher.Common.Dict.{insert, erase}
use fun_exch_macher.Domain.{OrderCommandRecord, ExecutionEventRecord}
use fun_exch_macher.OrderBook.Types.{OrderBook, RestingOrder, Level}
use fun_exch_macher.OrderBook.Emit.{emit_trade_event}

-- What one pass of the inner loop leaves: the quantity still to fill, the front order after its
-- trade, the event, and the book with that order's index entry written.
pub record Trade : Type 0 where
  pub remaining : ℤ
  pub order : RestingOrder
  pub event : ExecutionEventRecord
  pub book : OrderBook

-- The inner loop's body up to its last `if`.
unfoldable pub trade : OrderCommandRecord → ℤ → ℤ → RestingOrder → OrderBook → Trade
trade c price incoming o b =
    let quantity = min_ℤ incoming o.remaining_quantity_lots in
    let remaining = incoming -ℤ quantity in
    let o' = record o { remaining_quantity_lots = o.remaining_quantity_lots -ℤ quantity } in
    let b' = record b { active_orders = insert o.order_id o' b.active_orders } in
    let (e, b'') = emit_trade_event b' c o' price quantity remaining in
    record { remaining = remaining; order = o'; event = e; book = b'' }

-- The state after a loop. The level or the side that the loop consumes is `rest`: the book's own
-- field is written when the loop is over.
pub record Fill (A : Type 0) : Type 0 where
  pub remaining : ℤ
  pub rest : List A
  pub events : List ExecutionEventRecord
  pub book : OrderBook

-- The inner loop. A pass that leaves a quantity in the front order has used up the incoming one,
-- so the loop ends there.
unfoldable pub match_level :
    OrderCommandRecord → ℤ → ℤ → List RestingOrder → OrderBook → Fill RestingOrder
match_level c price incoming [] b = record {
  remaining = incoming;
  rest = [];
  events = [];
  book = b;
}
match_level c price incoming (o ∷ os) b =
    let t = trade c price incoming o b in
    let popped = record (t.book) { active_orders = erase o.order_id t.book.active_orders } in
    let f = match_level c price t.remaining os popped in
    if ltb_ℤ (pos 0) incoming
    then (if eqb_ℤ t.order.remaining_quantity_lots (pos 0)
        then record f { events = t.event ∷ f.events }
        else record {
          remaining = t.remaining;
          rest = t.order ∷ os;
          events = t.event ∷ [];
          book = t.book;
        })
    else record { remaining = incoming; rest = o ∷ os; events = []; book = b }

-- After the inner loop: an emptied level is erased and the outer loop goes on, and a level with
-- orders left ends it, since then nothing is left to fill.
abbrev pub after_level : ℤ → Fill RestingOrder → List Level → Fill Level → Fill Level
after_level p f ls g = elim (f.rest) [
  | [] ↦ record g { events = f.events ++ g.events }
  | o ∷ os ↦ record {
    remaining = f.remaining;
    rest = (p, o ∷ os) ∷ ls;
    events = f.events;
    book = f.book;
  }
]

-- The outer loop over the levels of a map with comparator `before`.
unfoldable pub match_levels :
    (ℤ → ℤ → Bool) → OrderCommandRecord → ℤ → List Level → OrderBook → Fill Level
match_levels before c incoming [] b = record {
  remaining = incoming;
  rest = [];
  events = [];
  book = b;
}
match_levels before c incoming ((p, os) ∷ ls) b =
    let f = match_level c p incoming os b in
    let g = match_levels before c f.remaining ls f.book in
    if ltb_ℤ (pos 0) incoming
    then (if before c.price_ticks p
        then record { remaining = incoming; rest = (p, os) ∷ ls; events = []; book = b }
        else after_level p f ls g)
    else record { remaining = incoming; rest = (p, os) ∷ ls; events = []; book = b }

pub record Matched : Type 0 where
  pub remaining : ℤ
  pub events : List ExecutionEventRecord
  pub book : OrderBook

unfoldable pub match_buy_order_against_asks : OrderBook → OrderCommandRecord → Matched
match_buy_order_against_asks b c =
    let f = match_levels ltb_ℤ c c.quantity_lots b.asks b in
    record { remaining = f.remaining; events = f.events; book = record (f.book) { asks = f.rest } }

unfoldable pub match_sell_order_against_bids : OrderBook → OrderCommandRecord → Matched
match_sell_order_against_bids b c =
    let f = match_levels gtb_ℤ c c.quantity_lots b.bids b in
    record { remaining = f.remaining; events = f.events; book = record (f.book) { bids = f.rest } }
