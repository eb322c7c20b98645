-- ===== src/OrderBook/Trading.antt =====
-- One pass of the inner matching loop, in numbers.
use fun_exch_macher.Common.{◌+◌, ℤ, pos, ◌≡◌, true, false, arith}
use fun_exch_macher.Common.Int.{IsPositive, magnitude, eqb_ℤ, ◌-ℤ◌, min_ℤ}
use fun_exch_macher.Domain.{OrderCommandRecord}
use fun_exch_macher.OrderBook.Types.{OrderBook, RestingOrder}
use fun_exch_macher.OrderBook.Match.{trade}

-- A quantity that is not negative.
abbrev pub IsNatural : ℤ → Type 0
IsNatural q = q ≡ pos (magnitude q)

module _ (c : OrderCommandRecord) (p q : ℤ) (o : RestingOrder) (b : OrderBook) where
  pub trade-fills :
      IsPositive q
      → IsPositive o.remaining_quantity_lots
      → eqb_ℤ (trade c p q o b).order.remaining_quantity_lots (pos 0) ≡ true
      → IsNatural (trade c p q o b).remaining
        × (magnitude (trade c p q o b).remaining + magnitude o.remaining_quantity_lots
            ≡ magnitude q)
  unfolding trade min_ℤ ◌-ℤ◌
  trade-fills hq ho h = ground arith

  pub trade-leaves :
      IsPositive q
      → IsPositive o.remaining_quantity_lots
      → eqb_ℤ (trade c p q o b).order.remaining_quantity_lots (pos 0) ≡ false
      → ((trade c p q o b).remaining ≡ pos 0)
        × IsPositive (trade c p q o b).order.remaining_quantity_lots
        × (magnitude (trade c p q o b).order.remaining_quantity_lots + magnitude q
            ≡ magnitude o.remaining_quantity_lots)
  unfolding trade min_ℤ ◌-ℤ◌
  trade-leaves hq ho h = ground arith
