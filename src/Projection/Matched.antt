-- ===== src/Projection/Matched.antt =====
-- The matching loops of order_book.cpp next to a projection (market_data_projection.cpp) of their
-- trades.
use fun_exch_macher.Common.{
  ℕ, ◌≡◌, ◌≢◌, refl, sym, ap, subst, ◌∙◌, ℤ, pos, Bool, true, false, Bool-cases, inl, inr, Option,
  none, some, List, [], ◌∷◌, ◌++◌, All, arith,
}
use fun_exch_macher.Common.Int.{eqb_ℤ, ltb_ℤ, gtb_ℤ, min_ℤ, IsPositive, IsPositive-iff}
use fun_exch_macher.Common.Dict.{Dict, lookup, insert, erase, lookup-insert}
use fun_exch_macher.Domain.{
  OrderCommandRecord, ExecutionEventRecord, Side, buy, sell, decode_side, is_side,
}
use fun_exch_macher.OrderBook.Types.{OrderBook, RestingOrder, Level, orders}
use fun_exch_macher.OrderBook.Emit.{emit_order_event, emit_trade_event}
use fun_exch_macher.OrderBook.Match.{
  Fill, trade, match_level, match_levels, after_level, match_buy_order_against_asks,
  match_sell_order_against_bids,
}
use fun_exch_macher.OrderBook.Apply.{match_order}
use fun_exch_macher.OrderBook.Index.{Indexed, Indexed-swap}
use fun_exch_macher.OrderBook.Invariant.{IsPlaced, IsLevel, IsValid}
use fun_exch_macher.OrderBook.Trading.{IsNatural, trade-fills}
use fun_exch_macher.OrderBook.Rules.{popped, match_level_rule, match_levels_rule}
use fun_exch_macher.OrderBook.Matching.{popped-Indexed, match_level-LevelKept}
use fun_exch_macher.Projection.{MarketDataProjection, OrderState, reduce_order, apply}
use fun_exch_macher.Projection.Shown.{project}
use fun_exch_macher.Projection.Tracks.{
  view_order, insert-view, erase-view, lookup-view_some, is_taken, TakesTo, trade-TakesTo, Tracks,
  TakesTo-Tracks, Follows, Follows-one, Follows-append,
}

module _ {V : Type 0} where
  -- A key that is written and then erased.
  erase-insert :
      (k : ℕ) (v w : V) (d : Dict V) → lookup k d ≡ some w → erase k (insert k v d) ≡ erase k d
  unfolding lookup insert erase
  erase-insert k v w [] h = absurd (cc)
  erase-insert k v w ((j, x) ∷ d) h = ground (arith, erase-insert k v w d)

  -- A key that is not there is not there behind a write of another, nor behind its erasure.
  insert_other :
      (k j : ℕ) (v w : V) (d : Dict V)
      → lookup k d ≡ some w
      → lookup j d ≡ none
      → lookup j (insert k v d) ≡ none
  insert_other k j v w d h n = ground (arith, lookup-insert k j v d)

  pub erase_other : (k j : ℕ) (d : Dict V) → lookup j d ≡ none → lookup j (erase k d) ≡ none
  unfolding lookup erase
  erase_other k j [] n = refl
  erase_other k j ((i, x) ∷ d) n = ground (arith, erase_other k j d)

module _ (c : OrderCommandRecord) (p q : ℤ) (o : RestingOrder) (b : OrderBook)
    (m : MarketDataProjection) (h : Tracks b m) (more : IsPositive q)
    (open_quantity : IsPositive o.remaining_quantity_lots)
    (found : lookup o.order_id b.active_orders ≡ some o) where
  abbrev e : ExecutionEventRecord
  e = (trade c p q o b).event

  -- What a trade makes of the active orders of the projection.
  abbrev reduced : Dict OrderState
  reduced = (reduce_order m e (view_order o)).active_orders

  id_named : o.order_id ≢ 0
  id_named zero =
      let never : ⊥ = (let n = h.named in ground (arith, zero, found, n)) in absurd never

  trade_taken : TakesTo e reduced (apply m e)
  unfolding trade emit_trade_event emit_order_event
  trade_taken =
      trade-TakesTo m e (sym h.next) (view_order o) refl (unfold min_ℤ in ground arith) id_named
        (ap (lookup o.order_id) h.active ∙ lookup-view_some o.order_id b.active_orders o found)
        (unfold min_ℤ in ground arith)

  trade_leaves-Tracks :
      eqb_ℤ (trade c p q o b).order.remaining_quantity_lots (pos 0) ≡ false
      → (is_taken (apply m e).0 ≡ true) × Tracks (trade c p q o b).book (apply m e).1
  unfolding trade emit_trade_event emit_order_event reduce_order
  trade_leaves-Tracks left =
      TakesTo-Tracks b (trade c p q o b).book m e reduced trade_taken refl refl
        (rw (left, h.active) (insert-view o.order_id (trade c p q o b).order b.active_orders))
        (insert_other o.order_id 0 (trade c p q o b).order o b.active_orders found h.named)

  trade_fills-Tracks :
      eqb_ℤ (trade c p q o b).order.remaining_quantity_lots (pos 0) ≡ true
      → (is_taken (apply m e).0 ≡ true) × Tracks (popped c p q o b) (apply m e).1
  unfolding trade popped emit_trade_event emit_order_event reduce_order
  trade_fills-Tracks gone =
      let dropped = erase-insert o.order_id (trade c p q o b).order o b.active_orders found in
      TakesTo-Tracks b (popped c p q o b) m e reduced trade_taken refl refl
        (rw (gone, h.active, dropped) (erase-view o.order_id b.active_orders))
        (rw dropped (erase_other o.order_id 0 b.active_orders h.named))

pub Follows-none : (m : MarketDataProjection) (b : OrderBook) → Tracks b m → Follows m [] b
unfolding project
Follows-none m b h = (tt, h)

Follows-cons :
    (m : MarketDataProjection) (e : ExecutionEventRecord) (es : List ExecutionEventRecord)
    (b b' : OrderBook)
    → (is_taken (apply m e).0 ≡ true) × Tracks b (apply m e).1
    → ((m' : MarketDataProjection) → Tracks b m' → Follows m' es b')
    → Follows m (e ∷ es) b'
Follows-cons m e es b b' h k = Follows-append m (e ∷ []) es b b' (Follows-one m e b h) k

module _ (c : OrderCommandRecord) (side : Side) (instrument : Option ℕ)
    (other : List RestingOrder) where
  -- The loop runs on a level that is kept, and from any projection that tracks the book.
  abbrev LevelFollows :
      ℤ → List RestingOrder → ℤ → List RestingOrder → OrderBook → Fill RestingOrder → Type 0
  LevelFollows p tail q os b f =
      IsNatural q
      → All (IsPlaced side instrument p) os
      → Indexed b.active_orders (os ++ tail) other
      → (m : MarketDataProjection) → Tracks b m
      → Follows m f.events f.book

  match_level-Follows :
      (p : ℤ) (tail : List RestingOrder) (q : ℤ) (os : List RestingOrder) (b : OrderBook)
      → LevelFollows p tail q os b (match_level c p q os b)
  match_level-Follows p tail =
      match_level_rule c p (LevelFollows p tail) (λ q os b done n h i m t. Follows-none m b t)
        (λ q o os b more left n h i m t.
          Follows-one m (trade c p q o b).event (trade c p q o b).book (
            trade_leaves-Tracks c p q o b m t ((IsPositive-iff q).0 more) h.0.open_quantity
              i.first.0 left))
        (λ q o os b f more gone ih n h i m t.
          let positive = (IsPositive-iff q).0 more in
          Follows-cons m (trade c p q o b).event f.events (popped c p q o b) f.book
            (trade_fills-Tracks c p q o b m t positive h.0.open_quantity i.first.0 gone)
            (ih (trade-fills c p q o b positive h.0.open_quantity gone).0 h.1
              (popped-Indexed c p q o b i)))

  abbrev SideFollows : ℤ → List Level → OrderBook → Fill Level → Type 0
  SideFollows q ls b f =
      IsNatural q
      → All (IsLevel side instrument) ls
      → Indexed b.active_orders (orders ls) other
      → (m : MarketDataProjection) → Tracks b m
      → Follows m f.events f.book

  after_level-Follows :
      (p : ℤ) (ls : List Level) (f : Fill RestingOrder) (g : Fill Level) (rest : List RestingOrder)
      (m : MarketDataProjection)
      → f.rest ≡ rest
      → Indexed f.book.active_orders (f.rest ++ orders ls) other
      → Follows m f.events f.book
      → (Indexed f.book.active_orders (orders ls) other
          → (m' : MarketDataProjection) → Tracks f.book m'
          → Follows m' g.events g.book)
      → Follows m (after_level p f ls g).events (after_level p f ls g).book
  after_level-Follows p ls f g [] m e i h k = rw e (
      Follows-append m f.events g.events f.book g.book h
        (k (subst (λ r. Indexed f.book.active_orders (r ++ orders ls) other) e i)))
  after_level-Follows p ls f g (o ∷ os) m e i h k = rw e h

  match_levels-Follows :
      (before : ℤ → ℤ → Bool) (q : ℤ) (ls : List Level) (b : OrderBook)
      → SideFollows q ls b (match_levels before c q ls b)
  match_levels-Follows before =
      match_levels_rule before c SideFollows (λ q b n h i m t. Follows-none m b t)
        (λ q p os ls b done n h i m t. Follows-none m b t)
        (λ q p os ls b g more good ih n h i m t.
          let f = match_level c p q os b in
          let k =
            match_level-LevelKept c side instrument other p (orders ls) q os b n h.0.placed i in
          after_level-Follows p ls f g f.rest m refl k.indexed
            (match_level-Follows p (orders ls) q os b n h.0.placed i m t) (λ j. ih k.natural h.1 j))

-- Only the counters, the index and the price maps of a book matter, and these not to a projection.
Tracks-levels :
    (b : OrderBook) (m : MarketDataProjection) (i : Option ℕ) (bids asks : List Level)
    → Tracks b m
    → Tracks (record b { instrument_id = i; bids = bids; asks = asks }) m
Tracks-levels b m i bids asks t = record { next = t.next; active = t.active; named = t.named }

-- A projection follows the matching of an order.
pub match_order-Follows :
    (b : OrderBook) (c : OrderCommandRecord) (m : MarketDataProjection)
    → IsValid b
    → IsNatural c.quantity_lots
    → Tracks b m
    → Follows m (match_order b c).events (match_order b c).book
unfolding match_order match_buy_order_against_asks match_sell_order_against_bids
match_order-Follows b c m v n t = elim (Bool-cases (is_side (decode_side c.side) buy)) [
  | inl is_buy ↦
      let f =
        match_levels-Follows c sell b.instrument_id (orders b.bids) ltb_ℤ c.quantity_lots b.asks b n
          v.asks_level (Indexed-swap v.indexed) m t in
      rw is_buy (f.0, Tracks-levels _ _ _ _ _ f.1)
  | inr is_sell ↦
      let f =
        match_levels-Follows c buy b.instrument_id (orders b.asks) gtb_ℤ c.quantity_lots b.bids b n
          v.bids_level v.indexed m t in
      rw is_sell (f.0, Tracks-levels _ _ _ _ _ f.1)
]
