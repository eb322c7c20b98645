-- ===== src/OrderBook/Conserves.antt =====
-- Quantities in the matching of order_book.cpp: nothing is made and nothing is lost.
use fun_exch_macher.Common.{
  ℕ, ◌+◌, ◌-◌, ℤ, ◌≡◌, refl, ap, ◌∙◌, Bool, some, List, [], ◌∷◌, map, arith,
}
use fun_exch_macher.Common.Int.{ltb_ℤ, gtb_ℤ, magnitude, IsPositive}
use fun_exch_macher.Domain.{OrderCommandRecord, ExecutionEventRecord, Side, buy, sell, decode_side}
use fun_exch_macher.OrderBook.Types.{OrderBook, RestingOrder, orders}
use fun_exch_macher.OrderBook.Match.{Matched}
use fun_exch_macher.OrderBook.Apply.{match_order}
use fun_exch_macher.OrderBook.Invariant.{IsValid}
use fun_exch_macher.OrderBook.Priority.{
  Take, take_of, size_of, total, takes, leftover, within, beyond, total-append,
}
use fun_exch_macher.OrderBook.Report.{
  reachable, out_of_reach, other_side, match_order-MatchConsumes,
}

-- The lots that events trade.
unfoldable pub traded_lots : List ExecutionEventRecord → ℕ
traded_lots [] = 0
traded_lots (e ∷ es) = magnitude e.quantity_lots + traded_lots es

take_lots : List Take → ℕ
take_lots [] = 0
take_lots (t ∷ ts) = magnitude t.quantity_lots + take_lots ts

traded_lots-take_of : (es : List ExecutionEventRecord) → traded_lots es ≡ take_lots (map take_of es)
unfolding traded_lots take_lots
traded_lots-take_of [] = refl
traded_lots-take_of (e ∷ es) = omega (arith, traded_lots-take_of es)

take_lots-takes : (q : ℕ) (os : List RestingOrder) → take_lots (takes q os) + (q - total os) ≡ q
unfolding take_lots takes total
take_lots-takes q [] = omega arith
take_lots-takes q (o ∷ os) = ground (arith, take_lots-takes (q - size_of o) os)

total-leftover : (q : ℕ) (os : List RestingOrder) → total (leftover q os) ≡ total os - q
unfolding leftover total
total-leftover q [] = omega arith
total-leftover q (o ∷ os) = ground (arith, total-leftover (q - size_of o) os)

total-within :
    (before : ℤ → ℤ → Bool) (limit : ℤ) (os : List RestingOrder)
    → total (within before limit os) + total (beyond before limit os) ≡ total os
unfolding within beyond total
total-within before limit [] = refl
total-within before limit (o ∷ os) = ground (arith, total-within before limit os)

total-reachable :
    (side : Side) (b : OrderBook) (c : OrderCommandRecord)
    → total (reachable side b c) + total (out_of_reach side b c) ≡ total (other_side side b)
total-reachable buy b c = total-within ltb_ℤ c.price_ticks (orders b.asks)
total-reachable sell b c = total-within gtb_ℤ c.price_ticks (orders b.bids)

-- What is traded and what remains.
pub record Conserves (side : Side) (b : OrderBook) (c : OrderCommandRecord) (m : Matched)
    : Type 0 where
  pub incoming : traded_lots m.events + magnitude m.remaining ≡ magnitude c.quantity_lots
  pub resting : total (other_side side m.book) + traded_lots m.events ≡ total (other_side side b)

-- On a valid book, matching an order of positive quantity splits that quantity into what its trades
-- exchange and what remains, and the open quantity of the other side falls by what they exchange.
pub match_order-Conserves :
    (b : OrderBook) (c : OrderCommandRecord) (side : Side)
    → IsValid b
    → IsPositive c.quantity_lots
    → decode_side c.side ≡ some side
    → Conserves side b c (match_order b c)
match_order-Conserves b c side v n e =
    let k = match_order-MatchConsumes b c side v n e in
    let m = match_order b c in
    let q = magnitude c.quantity_lots in
    let queue = reachable side b c in
    let lots : traded_lots m.events ≡ take_lots (takes q queue) =
      traded_lots-take_of m.events ∙ ap take_lots k.events_are in
    let left : magnitude m.remaining ≡ q - total queue = ap magnitude k.remaining_is in
    let kept : total (other_side side m.book)
        ≡ total (leftover q queue) + total (out_of_reach side b c) =
      ap total k.rest_is ∙ total-append (leftover q queue) (out_of_reach side b c) in
    record {
      incoming = omega (arith, lots, left, take_lots-takes q queue);
      resting = omega (
        arith,
        lots,
        kept,
        take_lots-takes q queue,
        total-leftover q queue,
        total-reachable side b c,
      );
    }
