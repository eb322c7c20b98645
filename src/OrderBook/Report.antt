-- ===== src/OrderBook/Report.antt =====
-- apply_new_order (order_book.cpp) as a whole: the events that it reports and the orders that it
-- leaves, from the flat queue of the other side.
use fun_exch_macher.Common.{
  ℕ, ◌-◌, leb, ℤ, pos, ◌==◌, if◌then◌else◌, ◌≡◌, refl, ap, Bool-cases, inl, inr, some, List, [],
  ◌∷◌, ◌++◌, map, arith,
}
use mathlib.Core.List.{map-append}
use mathlib.Core.Path.{ap₂}
use fun_exch_macher.Common.Int.{ltb_ℤ, gtb_ℤ, eqb_ℤ, magnitude, IsPositive, ◌-ℤ◌}
use fun_exch_macher.Domain.{
  OrderCommandRecord, Side, buy, sell, decode_side, encode_event_type, order_accepted,
  order_fully_filled, order_partially_filled, order_rested,
}
use fun_exch_macher.OrderBook.Types.{OrderBook, RestingOrder, orders}
use fun_exch_macher.OrderBook.Emit.{emit_order_event}
use fun_exch_macher.OrderBook.Match.{
  Matched, match_buy_order_against_asks, match_sell_order_against_bids,
}
use fun_exch_macher.OrderBook.Validate.{is_rejection}
use fun_exch_macher.OrderBook.Apply.{
  match_order, settle, accept_new_order, apply_new_order, bind_instrument_if_needed,
}
use fun_exch_macher.OrderBook.Invariant.{IsValid}
use fun_exch_macher.OrderBook.Preserve.{ltb-IsTransitive, gtb-IsTransitive}
use fun_exch_macher.OrderBook.Accepts.{IsAcceptable, validate_new_order_complete}
use fun_exch_macher.OrderBook.Handlers.{accepted_book, accepted_book-IsValid, IsNatural-of_positive}
use fun_exch_macher.OrderBook.Priority.{Take, take_of, total, takes, leftover, within, beyond}
use fun_exch_macher.OrderBook.Refines.{match_levels-SideConsumes}

-- The other side's orders that a new order can trade with, by priority, and the rest of that side.
abbrev pub reachable : Side → OrderBook → OrderCommandRecord → List RestingOrder
reachable buy b c = within ltb_ℤ c.price_ticks (orders b.asks)
reachable sell b c = within gtb_ℤ c.price_ticks (orders b.bids)

abbrev pub out_of_reach : Side → OrderBook → OrderCommandRecord → List RestingOrder
out_of_reach buy b c = beyond ltb_ℤ c.price_ticks (orders b.asks)
out_of_reach sell b c = beyond gtb_ℤ c.price_ticks (orders b.bids)

abbrev pub other_side : Side → OrderBook → List RestingOrder
other_side buy b = orders b.asks
other_side sell b = orders b.bids

-- What matching should give.
pub record MatchConsumes (side : Side) (b : OrderBook) (c : OrderCommandRecord) (m : Matched)
    : Type 0 where
  pub events_are : map take_of m.events ≡ takes (magnitude c.quantity_lots) (reachable side b c)
  pub rest_is :
      other_side side m.book
      ≡ leftover (magnitude c.quantity_lots) (reachable side b c) ++ out_of_reach side b c
  pub remaining_is : m.remaining ≡ pos (magnitude c.quantity_lots - total (reachable side b c))

-- On a valid book an order is matched as if the other side were one queue by price and then by
-- arrival: the trades, at the resting orders' prices, are those of the orders within the limit in
-- that order; the queue keeps what they leave, and all orders past the limit; and what remains is
-- what the queue could not give.
pub match_order-MatchConsumes :
    (b : OrderBook) (c : OrderCommandRecord) (side : Side)
    → IsValid b
    → IsPositive c.quantity_lots
    → decode_side c.side ≡ some side
    → MatchConsumes side b c (match_order b c)
unfolding match_order match_buy_order_against_asks match_sell_order_against_bids
match_order-MatchConsumes b c buy v n e =
    let k =
      match_levels-SideConsumes ltb_ℤ ltb-IsTransitive c sell b.instrument_id c.quantity_lots b.asks
        b (IsNatural-of_positive c.quantity_lots n) v.asks_level v.asks_sorted in
    rw e (record { events_are = k.events_are; rest_is = k.rest_is; remaining_is = k.remaining_is })
match_order-MatchConsumes b c sell v n e =
    let k =
      match_levels-SideConsumes gtb_ℤ gtb-IsTransitive c buy b.instrument_id c.quantity_lots b.bids
        b (IsNatural-of_positive c.quantity_lots n) v.bids_level v.bids_sorted in
    rw e (record { events_are = k.events_are; rest_is = k.rest_is; remaining_is = k.remaining_is })

-- An event about the order itself.
abbrev own_event : OrderCommandRecord → ℕ → ℕ → ℕ → Take
own_event c kind quantity remaining = record {
  event_type = kind;
  contra_order_id = 0;
  price_ticks = c.price_ticks;
  quantity_lots = pos quantity;
  remaining_quantity_lots = pos remaining;
}

-- The last event, by the wanted and the offered quantity.
unfoldable pub last_event : OrderCommandRecord → ℕ → ℕ → Take
last_event c wanted offered =
    if leb wanted offered
    then own_event c (encode_event_type order_fully_filled) wanted 0
    else if offered == 0
    then own_event c (encode_event_type order_rested) 0 wanted
    else own_event c (encode_event_type order_partially_filled) offered (wanted - offered)

-- All events of an accepted order.
unfoldable pub report : Side → OrderBook → OrderCommandRecord → List Take
report side b c =
    let q = magnitude c.quantity_lots in
    let queue = reachable side b c in
    own_event c (encode_event_type order_accepted) q q
    ∷ (takes q queue ++ (last_event c q (total queue) ∷ []))

settle-report :
    (c : OrderCommandRecord) (m : Matched) (ts : List Take) (offered : ℕ)
    → IsPositive c.quantity_lots
    → map take_of m.events ≡ ts
    → m.remaining ≡ pos (magnitude c.quantity_lots - offered)
    → map take_of (settle c m).0 ≡ ts ++ (last_event c (magnitude c.quantity_lots) offered ∷ [])
unfolding settle emit_order_event last_event ◌-ℤ◌
settle-report c m ts offered n h r = elim (Bool-cases (eqb_ℤ m.remaining (pos 0))) [
  | inl zero ↦ rw (zero, map-append take_of m.events _, h) (ap (λ x. ts ++ (x ∷ [])) (ground arith))
  | inr left ↦ rw (left, map-append take_of m.events _, h) (ap (λ x. ts ++ (x ∷ [])) (ground arith))
]

accepted-report :
    (b : OrderBook) (c : OrderCommandRecord) (side : Side)
    → IsValid b
    → IsAcceptable b c
    → MatchConsumes side (accepted_book b c) c (match_order (accepted_book b c) c)
    → (reachable side (accepted_book b c) c ≡ reachable side b c)
    → map take_of (accept_new_order b c).0 ≡ report side b c
unfolding accept_new_order emit_order_event bind_instrument_if_needed report
accepted-report b c side v a k same =
    let q = magnitude c.quantity_lots in
    let queue = reachable side b c in
    let tail =
      settle-report c (match_order (accepted_book b c) c) (takes q queue) (total queue)
        a.form.quantity (rw same at k.events_are) (rw same at k.remaining_is) in
    let n = IsNatural-of_positive c.quantity_lots a.form.quantity in
    ap₂
      (λ (x : ℤ) (rest : List Take).
        record {
          event_type = 1;
          contra_order_id = 0;
          price_ticks = c.price_ticks;
          quantity_lots = x;
          remaining_quantity_lots = x;
        }
        ∷ rest)
      n tail

reachable-accepted :
    (b : OrderBook) (c : OrderCommandRecord) (side : Side)
    → reachable side (accepted_book b c) c ≡ reachable side b c
reachable-accepted b c buy = refl
reachable-accepted b c sell = refl

-- On a valid book an acceptable order reports, in this order: its acceptance, its trades with the
-- orders within its limit by priority, each for what is still wanted or offered, and that it is
-- filled, or rested with what is left, partially filled if there was a trade.
pub apply_new_order-report :
    (b : OrderBook) (c : OrderCommandRecord) (side : Side)
    → IsValid b
    → IsAcceptable b c
    → decode_side c.side ≡ some side
    → map take_of (apply_new_order b c).0 ≡ report side b c
unfolding apply_new_order
apply_new_order-report b c side v a e = rw (ap is_rejection (validate_new_order_complete b c a)) (
    accepted-report b c side v a
      (match_order-MatchConsumes (accepted_book b c) c side (accepted_book-IsValid b c v)
        a.form.quantity e)
      (reachable-accepted b c side))
