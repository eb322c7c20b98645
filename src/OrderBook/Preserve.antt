-- ===== src/OrderBook/Preserve.antt =====
-- The parts of the handlers of order_book.cpp keep a book valid: binding the instrument, resting
-- an order, removing one.
use fun_exch_macher.Common.{
  ℕ, ℤ, ◌≡◌, refl, subst, true, false, Option, none, some, List, [], ◌∷◌, All, All-map, All-append,
  arith,
}
use fun_exch_macher.Common.Int.{ltb_ℤ, gtb_ℤ, ltb_ℤ_trans, ltb_ℤ_total, eqb_ℤ_iff, IsPositive}
use fun_exch_macher.Common.Dict.{contains}
use fun_exch_macher.Domain.{OrderCommandRecord, Side, buy, sell, decode_side}
use fun_exch_macher.OrderBook.Types.{OrderBook, RestingOrder, Level, orders}
use fun_exch_macher.OrderBook.Levels.{rest_order, push_back}
use fun_exch_macher.OrderBook.Apply.{bind_instrument_if_needed}
use fun_exch_macher.OrderBook.Index.{Indexed-swap}
use fun_exch_macher.OrderBook.Reorder.{Indexed-reorder, Indexed-push}
use fun_exch_macher.OrderBook.Invariant.{IsPlaced, IsLevel, Behind, IsApart, IsValid}
use fun_exch_macher.OrderBook.Matching.{IsTransitive}
use fun_exch_macher.OrderBook.Resting.{
  IsTotal, push_back-All, push_back-IsSorted, push_back-IsLevel, push_back-Reordered,
}

pub ltb-IsTransitive : IsTransitive ltb_ℤ
ltb-IsTransitive a b d h k = ltb_ℤ_trans a b d h k

pub gtb-IsTransitive : IsTransitive gtb_ℤ
gtb-IsTransitive a b d h k = ltb_ℤ_trans d b a k h

ltb-IsTotal : IsTotal ltb_ℤ
ltb-IsTotal a b h k = ground (arith, ltb_ℤ_total a b, eqb_ℤ_iff a b)

gtb-IsTotal : IsTotal gtb_ℤ
gtb-IsTotal a b h k = ground (arith, ltb_ℤ_total a b, eqb_ℤ_iff a b)

-- What holds of every placed order holds along the queue.
pub orders-All :
    (Q : RestingOrder → Type 0) (side : Side) (instrument : Option ℕ) (ls : List Level)
    → ((p : ℤ) (o : RestingOrder) → IsPlaced side instrument p o → Q o)
    → All (IsLevel side instrument) ls
    → All Q (orders ls)
orders-All Q side instrument [] f h = tt
orders-All Q side instrument ((p, os) ∷ ls) f h =
    All-append Q os (orders ls) (All-map (IsPlaced side instrument p) Q (f p) os h.0.placed)
      (orders-All Q side instrument ls f h.1)

-- The counters are not part of the invariant.
pub counters-IsValid :
    {b : OrderBook} (n t : ℕ)
    → IsValid b
    → IsValid (record b { next_event_sequence = n; next_trade_id = t })
counters-IsValid n t v = record {
  bids_sorted = v.bids_sorted;
  asks_sorted = v.asks_sorted;
  bids_level = v.bids_level;
  asks_level = v.asks_level;
  uncrossed = v.uncrossed;
  indexed = v.indexed;
}

bound-IsLevel :
    (side : Side) (instrument : Option ℕ) (i : ℕ) (l : Level)
    → IsLevel side none l
    → IsLevel side instrument l
bound-IsLevel side instrument i l h = record {
  price_positive = h.price_positive;
  filled = h.filled;
  placed =
      All-map (IsPlaced side none l.0) (IsPlaced side instrument l.0)
        (λ o k. let never : ⊥ = cc k.of_instrument in absurd never) l.1 h.placed;
}

bind-cases :
    (b : OrderBook) (i : ℕ) (instrument : Option ℕ)
    → b.instrument_id ≡ instrument
    → IsValid b
    → IsValid (bind_instrument_if_needed b i)
unfolding bind_instrument_if_needed
bind-cases b i none e v = rw e (record {
  bids_sorted = v.bids_sorted;
  asks_sorted = v.asks_sorted;
  bids_level =
      All-map (IsLevel buy none) (IsLevel buy (some i)) (bound-IsLevel buy (some i) i) b.bids
        (subst (λ x. All (IsLevel buy x) b.bids) e v.bids_level);
  asks_level =
      All-map (IsLevel sell none) (IsLevel sell (some i)) (bound-IsLevel sell (some i) i) b.asks
        (subst (λ x. All (IsLevel sell x) b.asks) e v.asks_level);
  uncrossed = v.uncrossed;
  indexed = v.indexed;
})
bind-cases b i (some j) e v = rw e (record {
  bids_sorted = v.bids_sorted;
  asks_sorted = v.asks_sorted;
  bids_level = subst (λ x. All (IsLevel buy x) b.bids) e v.bids_level;
  asks_level = subst (λ x. All (IsLevel sell x) b.asks) e v.asks_level;
  uncrossed = v.uncrossed;
  indexed = v.indexed;
})

pub bind-IsValid : (b : OrderBook) (i : ℕ) → IsValid b → IsValid (bind_instrument_if_needed b i)
bind-IsValid b i v = bind-cases b i b.instrument_id refl v

-- The best bid side against a new ask: all bids are below it.
IsApart-push :
    (price : ℤ) (o : RestingOrder) (bids asks : List Level)
    → Behind gtb_ℤ price bids
    → IsApart ltb_ℤ bids asks
    → IsApart ltb_ℤ bids (push_back ltb_ℤ price o asks)
IsApart-push price o [] asks h k = tt
IsApart-push price o (l ∷ bids) asks h k = (
  push_back-All ltb_ℤ price o (λ x. ltb_ℤ l.0 x ≡ true) asks h.0 k.0,
  IsApart-push price o bids asks h.1 k.1,
)

abbrev pub resting : OrderCommandRecord → ℤ → RestingOrder
resting c q = record {
  order_id = c.order_id;
  client_id = c.client_id;
  instrument_id = c.instrument_id;
  side = c.side;
  price_ticks = c.price_ticks;
  remaining_quantity_lots = q;
}

module _ (b : OrderBook) (c : OrderCommandRecord) (q : ℤ) (v : IsValid b)
    (price : IsPositive c.price_ticks) (quantity : IsPositive q)
    (fresh : contains c.order_id b.active_orders ≡ false)
    (bound : b.instrument_id ≡ some c.instrument_id) where
  placed :
      (side : Side)
      → decode_side c.side ≡ some side
      → IsPlaced side b.instrument_id c.price_ticks (resting c q)
  placed side e = record {
    on_side = e;
    at_price = refl;
    open_quantity = quantity;
    of_instrument = bound;
  }

  pub rest_order-buy-IsValid :
      decode_side c.side ≡ some buy → Behind ltb_ℤ c.price_ticks b.asks → IsValid (rest_order b c q)
  unfolding rest_order
  rest_order-buy-IsValid e h =
      let o = resting c q in
      rw e (record {
        bids_sorted =
            push_back-IsSorted gtb_ℤ c.price_ticks o gtb-IsTransitive gtb-IsTotal b.bids
              v.bids_sorted;
        asks_sorted = v.asks_sorted;
        bids_level =
            push_back-IsLevel gtb_ℤ c.price_ticks o buy b.instrument_id b.bids price (placed buy e)
              v.bids_level;
        asks_level = v.asks_level;
        uncrossed =
            push_back-All gtb_ℤ c.price_ticks o (λ x. Behind ltb_ℤ x b.asks) b.bids h v.uncrossed;
        indexed =
            Indexed-reorder (push_back-Reordered gtb_ℤ c.price_ticks o b.bids)
              (Indexed-push o fresh v.indexed);
      })

  pub rest_order-sell-IsValid :
      decode_side c.side ≡ some sell
      → Behind gtb_ℤ c.price_ticks b.bids
      → IsValid (rest_order b c q)
  unfolding rest_order
  rest_order-sell-IsValid e h =
      let o = resting c q in
      rw e (record {
        bids_sorted = v.bids_sorted;
        asks_sorted =
            push_back-IsSorted ltb_ℤ c.price_ticks o ltb-IsTransitive ltb-IsTotal b.asks
              v.asks_sorted;
        bids_level = v.bids_level;
        asks_level =
            push_back-IsLevel ltb_ℤ c.price_ticks o sell b.instrument_id b.asks price
              (placed sell e) v.asks_level;
        uncrossed = IsApart-push c.price_ticks o b.bids b.asks h v.uncrossed;
        indexed = Indexed-swap (
            Indexed-reorder (push_back-Reordered ltb_ℤ c.price_ticks o b.asks)
              (Indexed-push o fresh (Indexed-swap v.indexed)));
      })
