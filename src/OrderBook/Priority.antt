-- ===== src/OrderBook/Priority.antt =====
-- What matching in order_book.cpp ought to do, said of one flat queue in priority order: the
-- incoming quantity is taken from the orders within the limit, first come first served.
use fun_exch_macher.Common.{
  ℕ, ◌+◌, ◌-◌, ltb, ℤ, pos, Bool, ◌==◌, if◌then◌else◌, ◌≡◌, refl, sym, ap, ◌∙◌, ◌⊎◌, Bool-cases,
  inl, inr, List, [], ◌∷◌, ◌++◌, arith,
}
use Prim.Native.Nat.{min}
use fun_exch_macher.Common.Int.{magnitude}
use fun_exch_macher.Domain.{ExecutionEventRecord, encode_event_type, trade_executed}
use fun_exch_macher.OrderBook.Types.{RestingOrder}

-- What an event says: its kind, the resting order of a trade, and the figures.
pub record Take : Type 0 where
  pub event_type : ℕ
  pub contra_order_id : ℕ
  pub price_ticks : ℤ
  pub quantity_lots : ℤ
  pub remaining_quantity_lots : ℤ

abbrev pub take_of : ExecutionEventRecord → Take
take_of e = record {
  event_type = e.event_type;
  contra_order_id = e.contra_order_id;
  price_ticks = e.price_ticks;
  quantity_lots = e.quantity_lots;
  remaining_quantity_lots = e.remaining_quantity_lots;
}

abbrev pub size_of : RestingOrder → ℕ
size_of o = magnitude o.remaining_quantity_lots

-- The quantity that a queue offers.
unfoldable pub total : List RestingOrder → ℕ
total [] = 0
total (o ∷ os) = size_of o + total os

-- Each order in turn gives what is still wanted, at its own price.
unfoldable pub takes : ℕ → List RestingOrder → List Take
takes q [] = []
takes q (o ∷ os) =
    let rest = takes (q - size_of o) os in
    if q == 0
    then []
    else record {
      event_type = encode_event_type trade_executed;
      contra_order_id = o.order_id;
      price_ticks = o.price_ticks;
      quantity_lots = pos (min q (size_of o));
      remaining_quantity_lots = pos (q - size_of o);
    }
      ∷ rest

-- What the queue holds afterwards: exhausted orders are gone, and one may be smaller.
unfoldable pub leftover : ℕ → List RestingOrder → List RestingOrder
leftover q [] = []
leftover q (o ∷ os) =
    let rest = leftover (q - size_of o) os in
    if q == 0
    then o ∷ os
    else if ltb q (size_of o)
    then record o { remaining_quantity_lots = pos (size_of o - q) } ∷ os
    else rest

-- The orders of a queue within a limit, and the others. `before` orders the prices of the queue.
unfoldable pub within : (ℤ → ℤ → Bool) → ℤ → List RestingOrder → List RestingOrder
within before limit [] = []
within before limit (o ∷ os) =
    if before limit o.price_ticks then within before limit os else o ∷ within before limit os

unfoldable pub beyond : (ℤ → ℤ → Bool) → ℤ → List RestingOrder → List RestingOrder
beyond before limit [] = []
beyond before limit (o ∷ os) =
    if before limit o.price_ticks then o ∷ beyond before limit os else beyond before limit os

pub takes_zero : (os : List RestingOrder) → takes 0 os ≡ []
unfolding takes
takes_zero [] = refl
takes_zero (o ∷ os) = refl

pub leftover_zero : (os : List RestingOrder) → leftover 0 os ≡ os
unfolding leftover
leftover_zero [] = refl
leftover_zero (o ∷ os) = refl

pub total-append : (xs ys : List RestingOrder) → total (xs ++ ys) ≡ total xs + total ys
unfolding total
total-append [] ys = omega arith
total-append (o ∷ xs) ys = omega (arith, total-append xs ys)

sub_sub : (q a b : ℕ) → q - a - b ≡ q - (a + b)
sub_sub q a b = omega arith

pub takes-append :
    (q : ℕ) (xs ys : List RestingOrder) → takes q (xs ++ ys) ≡ takes q xs ++ takes (q - total xs) ys
unfolding takes total
takes-append q [] ys = ap (λ x. takes x ys) (omega arith)
takes-append q (o ∷ xs) ys = elim (Bool-cases (q == 0)) [
  | inl none_left ↦ rw none_left (sym (ap (λ x. takes x ys) (ground arith) ∙ takes_zero ys))
  | inr more ↦ rw (more, takes-append (q - size_of o) xs ys, sub_sub q (size_of o) (total xs))
]

pub leftover-append :
    (q : ℕ) (xs ys : List RestingOrder)
    → leftover q (xs ++ ys) ≡ leftover q xs ++ leftover (q - total xs) ys
unfolding leftover total
leftover-append q [] ys = ap (λ x. leftover x ys) (omega arith)
leftover-append q (o ∷ xs) ys = elim (Bool-cases (q == 0)) [
  | inl none_left ↦
      rw none_left
        (ap (λ z. o ∷ (xs ++ z)) (sym (ap (λ x. leftover x ys) (ground arith) ∙ leftover_zero ys)))
  | inr more ↦ elim (Bool-cases (ltb q (size_of o))) [
    | inl partly ↦
        rw (more, partly)
          (ap (λ z. record o { remaining_quantity_lots = pos (size_of o - q) } ∷ (xs ++ z))
            (sym (ap (λ x. leftover x ys) (ground arith) ∙ leftover_zero ys)))
    | inr wholly ↦
        rw (more, wholly, leftover-append (q - size_of o) xs ys, sub_sub q (size_of o) (total xs))
  ]
]

-- A queue that is not used up has given all that was wanted.
pub leftover_ended : (q : ℕ) (os : List RestingOrder) → (leftover q os ≡ []) ⊎ (q - total os ≡ 0)
unfolding leftover total
leftover_ended q [] = inl refl
leftover_ended q (o ∷ os) = ground (arith, leftover_ended (q - size_of o) os)
