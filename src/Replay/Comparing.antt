-- ===== src/Replay/Comparing.antt =====
-- EventComparator::compare answers equal exactly on equal events.
use fun_exch_macher.Common.{◌≡◌, subst, true, ==_self, ◌↔◌, arith}
use fun_exch_macher.Common.Int.{eqb_ℤ_self, eqb_ℤ_iff}
use fun_exch_macher.Domain.{ExecutionEventRecord}
use fun_exch_macher.Replay.Compare.{compare, compare_quantities}

-- The fields that the second half of the ladder tests.
record SameQuantities (a b : ExecutionEventRecord) : Type 0 where
  contra_order_id : a.contra_order_id ≡ b.contra_order_id
  side : a.side ≡ b.side
  price_ticks : a.price_ticks ≡ b.price_ticks
  quantity_lots : a.quantity_lots ≡ b.quantity_lots
  remaining_quantity_lots : a.remaining_quantity_lots ≡ b.remaining_quantity_lots
  trade_id : a.trade_id ≡ b.trade_id
  rejection_reason : a.rejection_reason ≡ b.rejection_reason
  reserved : a.reserved ≡ b.reserved

compare_quantities-SameQuantities :
    (a b : ExecutionEventRecord) → (compare_quantities a b).equal ≡ true → SameQuantities a b
unfolding compare_quantities
compare_quantities-SameQuantities a b h = ground (
  arith,
  eqb_ℤ_iff a.price_ticks b.price_ticks,
  eqb_ℤ_iff a.quantity_lots b.quantity_lots,
  eqb_ℤ_iff a.remaining_quantity_lots b.remaining_quantity_lots,
)

pub compare_sound : (a b : ExecutionEventRecord) → (compare a b).equal ≡ true → a ≡ b
unfolding compare
compare_sound a b h = ground (arith, compare_quantities-SameQuantities a b)

pub compare_self : (a : ExecutionEventRecord) → (compare a a).equal ≡ true
unfolding compare compare_quantities
compare_self a = simp (==_self, eqb_ℤ_self)

-- The comparison of two events answers equal exactly if they agree in every field.
pub compare_iff : (a b : ExecutionEventRecord) → ((compare a b).equal ≡ true) ↔ (a ≡ b)
compare_iff a b =
    (compare_sound a b, λ h. subst (λ x. (compare a x).equal ≡ true) h (compare_self a))
