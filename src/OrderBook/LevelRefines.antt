-- ===== src/OrderBook/LevelRefines.antt =====
-- The inner matching loop of order_book.cpp against the queue of one level.
use fun_exch_macher.Common.{
  ℕ, ◌-◌, ltb, ℤ, pos, true, false, ◌==◌, ◌≡◌, refl, sym, ap, subst, ◌∙◌, ◌⊎◌, inl, inr, Option,
  List, [], ◌∷◌, map, All, arith,
}
use Prim.Native.Nat.{min}
use fun_exch_macher.Common.Int.{ltb_ℤ, eqb_ℤ, magnitude, IsPositive, IsPositive-iff, min_ℤ, ◌-ℤ◌}
use fun_exch_macher.Domain.{OrderCommandRecord, Side, encode_event_type, trade_executed}
use fun_exch_macher.OrderBook.Types.{OrderBook, RestingOrder}
use fun_exch_macher.OrderBook.Emit.{emit_trade_event, emit_order_event}
use fun_exch_macher.OrderBook.Match.{Fill, trade, match_level}
use fun_exch_macher.OrderBook.Invariant.{IsPlaced}
use fun_exch_macher.OrderBook.Trading.{IsNatural, trade-fills, trade-leaves}
use fun_exch_macher.OrderBook.Rules.{match_level_rule}
use fun_exch_macher.OrderBook.Matching.{natural_end}
use fun_exch_macher.OrderBook.Priority.{
  Take, take_of, size_of, total, takes, leftover, takes_zero, leftover_zero,
}

-- One trade in numbers.
module _ (c : OrderCommandRecord) (p q : ℤ) (o : RestingOrder) (b : OrderBook) (hq : IsPositive q)
    (ho : IsPositive o.remaining_quantity_lots) where
  trade-take : take_of (trade c p q o b).event ≡ record {
    event_type = encode_event_type trade_executed;
    contra_order_id = o.order_id;
    price_ticks = p;
    quantity_lots = pos (min (magnitude q) (size_of o));
    remaining_quantity_lots = pos (magnitude q - size_of o);
  }
  unfolding trade emit_trade_event emit_order_event min_ℤ ◌-ℤ◌
  trade-take = ground arith

  trade-remaining : (trade c p q o b).remaining ≡ pos (magnitude q - size_of o)
  unfolding trade emit_trade_event emit_order_event min_ℤ ◌-ℤ◌
  trade-remaining = ground arith

  trade-order :
      eqb_ℤ (trade c p q o b).order.remaining_quantity_lots (pos 0) ≡ false
      → (trade c p q o b).order
        ≡ record o { remaining_quantity_lots = pos (size_of o - magnitude q) }
  unfolding trade min_ℤ ◌-ℤ◌
  trade-order h = ground arith

-- What a loop over a queue of orders should leave.
pub record Consumes (q : ℤ) (os : List RestingOrder) (events : List Take) (rest : List RestingOrder)
    (remaining : ℤ) : Type 0 where
  pub events_are : events ≡ takes (magnitude q) os
  pub rest_is : rest ≡ leftover (magnitude q) os
  pub remaining_is : remaining ≡ pos (magnitude q - total os)

module _ (c : OrderCommandRecord) (side : Side) (instrument : Option ℕ) (p : ℤ) where
  abbrev LevelConsumes : ℤ → List RestingOrder → OrderBook → Fill RestingOrder → Type 0
  LevelConsumes q os b f =
      IsNatural q
      → All (IsPlaced side instrument p) os
      → Consumes q os (map take_of f.events) f.rest f.remaining

  level_stop :
      (q : ℤ) (os : List RestingOrder)
      → (os ≡ []) ⊎ (ltb_ℤ (pos 0) q ≡ false)
      → IsNatural q
      → Consumes q os [] os q
  level_stop q os (inl empty) n = rw empty (record {
    events_are = unfold takes in refl;
    rest_is = unfold leftover in refl;
    remaining_is = n ∙ ap pos (unfold total in omega arith);
  })
  level_stop q os (inr done) n =
      let zero_left = natural_end q n done in
      rw zero_left (record {
        events_are = sym (takes_zero os);
        rest_is = sym (leftover_zero os);
        remaining_is = ap pos (omega arith);
      })

  level_leave :
      (q : ℤ) (o : RestingOrder) (os : List RestingOrder) (b : OrderBook)
      → ltb_ℤ (pos 0) q ≡ true
      → eqb_ℤ (trade c p q o b).order.remaining_quantity_lots (pos 0) ≡ false
      → IsPlaced side instrument p o
      → Consumes q
          (o ∷ os)
          (take_of (trade c p q o b).event ∷ [])
          ((trade c p q o b).order ∷ os)
          (trade c p q o b).remaining
  unfolding takes leftover total
  level_leave q o os b more left h =
      let hq = (IsPositive-iff q).0 more in
      let t = trade-leaves c p q o b hq h.open_quantity left in
      let none_after : magnitude q - size_of o ≡ 0 = omega (arith, t.2) in
      let wanted : (magnitude q == 0) ≡ false = ground (arith, hq) in
      let partly : ltb (magnitude q) (size_of o) ≡ true = ground (arith, t.2, t.1) in
      record {
        events_are =
            rw
              (
                wanted,
                trade-take c p q o b hq h.open_quantity,
                h.at_price,
                none_after,
                takes_zero os,
              )
              refl;
        rest_is = rw (wanted, partly, trade-order c p q o b hq h.open_quantity left);
        remaining_is = trade-remaining c p q o b hq h.open_quantity ∙ ap pos (omega arith);
      }

  level_fill :
      (q : ℤ) (o : RestingOrder) (os : List RestingOrder) (b : OrderBook) (f : Fill RestingOrder)
      → ltb_ℤ (pos 0) q ≡ true
      → eqb_ℤ (trade c p q o b).order.remaining_quantity_lots (pos 0) ≡ true
      → IsPlaced side instrument p o
      → Consumes (trade c p q o b).remaining os (map take_of f.events) f.rest f.remaining
      → Consumes q
          (o ∷ os)
          (take_of (trade c p q o b).event ∷ map take_of f.events)
          f.rest
          f.remaining
  unfolding takes leftover total
  level_fill q o os b f more gone h ih =
      let hq = (IsPositive-iff q).0 more in
      let t = trade-fills c p q o b hq h.open_quantity gone in
      let k =
        subst (λ r. Consumes r os (map take_of f.events) f.rest f.remaining)
          (trade-remaining c p q o b hq h.open_quantity) ih in
      let wanted : (magnitude q == 0) ≡ false = ground (arith, hq) in
      let wholly : ltb (magnitude q) (size_of o) ≡ false = ground (arith, t.1) in
      record {
        events_are = rw (wanted, trade-take c p q o b hq h.open_quantity, h.at_price, k.events_are);
        rest_is = rw (wanted, wholly) k.rest_is;
        remaining_is = k.remaining_is ∙ ap pos (omega arith);
      }

  pub match_level-Consumes :
      (q : ℤ) (os : List RestingOrder) (b : OrderBook)
      → LevelConsumes q os b (match_level c p q os b)
  match_level-Consumes =
      match_level_rule c p LevelConsumes (λ q os b done n h. level_stop q os done n)
        (λ q o os b more left n h. level_leave q o os b more left h.0)
        (λ q o os b f more gone ih n h.
          level_fill q o os b f more gone h.0
            (ih (trade-fills c p q o b ((IsPositive-iff q).0 more) h.0.open_quantity gone).0 h.1))
