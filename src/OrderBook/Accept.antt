-- ===== src/OrderBook/Accept.antt =====
-- accept_new_order, the accepted path of apply_new_order in order_book.cpp, keeps a book valid.
use fun_exch_macher.Common.{
  ℕ, ℤ, pos, ◌≡◌, sym, subst, ap, ◌⊎◌, inl, inr, false, Bool-cases, some, All, All-map, arith, ◌∙◌,
}
use fun_exch_macher.Common.Int.{ltb_ℤ, gtb_ℤ, eqb_ℤ, IsPositive}
use fun_exch_macher.Common.Dict.{Dict, contains, count, lookup-eq-none}
use fun_exch_macher.Domain.{OrderCommandRecord, Side, buy, sell, decode_side}
use fun_exch_macher.OrderBook.Types.{OrderBook, RestingOrder, orders}
use fun_exch_macher.OrderBook.Levels.{rest_order}
use fun_exch_macher.OrderBook.Emit.{emit_order_event}
use fun_exch_macher.OrderBook.Match.{
  Matched, match_levels, match_buy_order_against_asks, match_sell_order_against_bids,
}
use fun_exch_macher.OrderBook.Apply.{settle, match_order}
use fun_exch_macher.OrderBook.Index.{Indexed, Indexed-swap, count_of_contains}
use fun_exch_macher.OrderBook.Invariant.{IsLevel, Behind, IsSorted, IsApart, IsValid}
use fun_exch_macher.OrderBook.Matching.{match_levels-SideKept}
use fun_exch_macher.OrderBook.Trading.{IsNatural}
use fun_exch_macher.OrderBook.Preserve.{
  counters-IsValid, ltb-IsTransitive, gtb-IsTransitive, rest_order-buy-IsValid,
  rest_order-sell-IsValid,
}

-- The levels that a new order cannot reach: the other side's, past its limit.
abbrev OutOfReach : Side → OrderCommandRecord → OrderBook → Type 0
OutOfReach buy c b = Behind ltb_ℤ c.price_ticks b.asks
OutOfReach sell c b = Behind gtb_ℤ c.price_ticks b.bids

-- What matching leaves for the end of the handler.
pub record MatchKept (side : Side) (c : OrderCommandRecord) (b : OrderBook) (m : Matched)
    : Type 0 where
  pub valid : IsValid m.book
  pub natural : IsNatural m.remaining
  pub ended : (m.remaining ≡ pos 0) ⊎ OutOfReach side c m.book
  pub bound : m.book.instrument_id ≡ b.instrument_id
  pub fewer :
      (id : ℕ) → contains id b.active_orders ≡ false → contains id m.book.active_orders ≡ false

pub contains_of_count :
    (id : ℕ) (active : Dict RestingOrder) → count id active ≡ 0 → contains id active ≡ false
unfolding contains
contains_of_count id active h = ground (arith, lookup-eq-none id active)

module _ (c : OrderCommandRecord) (b : OrderBook) (v : IsValid b)
    (n : IsNatural c.quantity_lots) where
  match_buy-MatchKept : MatchKept buy c b (match_buy_order_against_asks b c)
  unfolding match_buy_order_against_asks
  match_buy-MatchKept =
      let f = match_levels ltb_ℤ c c.quantity_lots b.asks b in
      let k =
        match_levels-SideKept ltb_ℤ ltb-IsTransitive c sell b.instrument_id (orders b.bids)
          c.quantity_lots b.asks b n v.asks_level v.asks_sorted (Indexed-swap v.indexed) in
      let bids = sym k.framed.bids in
      let instrument = sym k.framed.instrument_id in
      record {
        valid = record {
          bids_sorted = subst (IsSorted gtb_ℤ) bids v.bids_sorted;
          asks_sorted = k.sorted;
          bids_level =
              subst (λ i. All (IsLevel buy i) f.book.bids) instrument
                (subst (All (IsLevel buy b.instrument_id)) bids v.bids_level);
          asks_level = subst (λ i. All (IsLevel sell i) f.rest) instrument k.levels;
          uncrossed =
              subst (λ ls. IsApart ltb_ℤ ls f.rest) bids
                (All-map (λ l. Behind ltb_ℤ l.0 b.asks) (λ l. Behind ltb_ℤ l.0 f.rest)
                  (λ l h. k.behind ltb_ℤ l.0 h) b.bids v.uncrossed);
          indexed =
              subst (λ ls. Indexed f.book.active_orders (orders ls) (orders f.rest)) bids
                (Indexed-swap k.indexed);
        };
        natural = k.natural;
        ended = k.ended;
        bound = k.framed.instrument_id;
        fewer = λ id h. contains_of_count id f.book.active_orders (
            omega (
              arith,
              k.fewer id,
              k.indexed.counted id,
              v.indexed.counted id,
              count_of_contains id b.active_orders h,
            ));
      }

  match_sell-MatchKept : MatchKept sell c b (match_sell_order_against_bids b c)
  unfolding match_sell_order_against_bids
  match_sell-MatchKept =
      let f = match_levels gtb_ℤ c c.quantity_lots b.bids b in
      let k =
        match_levels-SideKept gtb_ℤ gtb-IsTransitive c buy b.instrument_id (orders b.asks)
          c.quantity_lots b.bids b n v.bids_level v.bids_sorted v.indexed in
      let asks = sym k.framed.asks in
      let instrument = sym k.framed.instrument_id in
      record {
        valid = record {
          bids_sorted = k.sorted;
          asks_sorted = subst (IsSorted ltb_ℤ) asks v.asks_sorted;
          bids_level = subst (λ i. All (IsLevel buy i) f.rest) instrument k.levels;
          asks_level =
              subst (λ i. All (IsLevel sell i) f.book.asks) instrument
                (subst (All (IsLevel sell b.instrument_id)) asks v.asks_level);
          uncrossed = subst (IsApart ltb_ℤ f.rest) asks (k.apart ltb_ℤ b.asks v.uncrossed);
          indexed =
              subst (λ ls. Indexed f.book.active_orders (orders f.rest) (orders ls)) asks k.indexed;
        };
        natural = k.natural;
        ended = k.ended;
        bound = k.framed.instrument_id;
        fewer = λ id h. contains_of_count id f.book.active_orders (
            omega (
              arith,
              k.fewer id,
              k.indexed.counted id,
              v.indexed.counted id,
              count_of_contains id b.active_orders h,
            ));
      }

  pub match_order-MatchKept :
      (side : Side) → decode_side c.side ≡ some side → MatchKept side c b (match_order b c)
  unfolding match_order
  match_order-MatchKept buy e = rw e match_buy-MatchKept
  match_order-MatchKept sell e = rw e match_sell-MatchKept

pub IsPositive-of_natural : (q : ℤ) → IsNatural q → eqb_ℤ q (pos 0) ≡ false → IsPositive q
IsPositive-of_natural q n h = ground arith

-- The end of the handler on what matching left.
module _ (c : OrderCommandRecord) (b : OrderBook) (m : Matched) (side : Side)
    (e : decode_side c.side ≡ some side) (k : MatchKept side c b m)
    (price : IsPositive c.price_ticks) (fresh : contains c.order_id b.active_orders ≡ false)
    (bound : b.instrument_id ≡ some c.instrument_id) where
  rested-IsValid : eqb_ℤ m.remaining (pos 0) ≡ false → IsValid (rest_order m.book c m.remaining)
  rested-IsValid left =
      let q = IsPositive-of_natural m.remaining k.natural left in
      let reach : OutOfReach side c m.book = elim k.ended [
        | inl zero ↦ absurd (cc (ap (λ x. eqb_ℤ x (pos 0)) zero))
        | inr h ↦ h
      ] in
      go side e reach
    where
      go :
          (s : Side)
          → decode_side c.side ≡ some s
          → OutOfReach s c m.book
          → IsValid (rest_order m.book c m.remaining)
      go buy d h =
          rest_order-buy-IsValid m.book c m.remaining k.valid price
            (IsPositive-of_natural m.remaining k.natural left) (k.fewer c.order_id fresh)
            (k.bound ∙ bound) d h
      go sell d h =
          rest_order-sell-IsValid m.book c m.remaining k.valid price
            (IsPositive-of_natural m.remaining k.natural left) (k.fewer c.order_id fresh)
            (k.bound ∙ bound) d h

  pub settle-IsValid : IsValid (settle c m).1
  unfolding settle emit_order_event
  settle-IsValid = elim (Bool-cases (eqb_ℤ m.remaining (pos 0))) [
    | inl zero ↦ rw zero (counters-IsValid _ _ k.valid)
    | inr left ↦ rw left (counters-IsValid _ _ (rested-IsValid left))
  ]
