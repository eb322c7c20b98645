-- ===== src/OrderBook/Handlers.antt =====
-- Every handler of order_book.cpp, and InstrumentEngine::apply over them, keeps a book valid.
use fun_exch_macher.Common.{ℕ, ℤ, ◌≡◌, inl, inr, some, arith}
use fun_exch_macher.Common.Int.{IsPositive}
use fun_exch_macher.Domain.{OrderCommandRecord, Side, buy, sell, RejectionReason, decode_side}
use fun_exch_macher.OrderBook.Types.{increment, OrderBook, RestingOrder}
use fun_exch_macher.OrderBook.Levels.{find_order}
use fun_exch_macher.OrderBook.Emit.{emit_order_event, emit_rejection_event, emit_cancel_event}
use fun_exch_macher.OrderBook.Apply.{
  reject, bind_instrument_if_needed, match_order, accept_new_order, apply_new_order, cancel_resting,
  apply_cancel_order, replace_resting, replacement_new_order_command, apply_replace_order,
}
use fun_exch_macher.OrderBook.Invariant.{IsValid}
use fun_exch_macher.OrderBook.Trading.{IsNatural}
use fun_exch_macher.OrderBook.Preserve.{counters-IsValid, bind-IsValid}
use fun_exch_macher.OrderBook.Removal.{found-IsIndexed, remove_cancelled_order-IsValid}
use fun_exch_macher.OrderBook.Accept.{MatchKept, match_order-MatchKept, settle-IsValid}
use fun_exch_macher.OrderBook.Cases.{
  apply_new_order_cases, apply_cancel_order_cases, apply_replace_order_cases,
}
use fun_exch_macher.OrderBook.Accepts.{IsAcceptable}

pub reject-IsValid :
    (b : OrderBook) (c : OrderCommandRecord) (r : RejectionReason)
    → IsValid b
    → IsValid (reject b c r).1
unfolding reject emit_rejection_event emit_order_event
reject-IsValid b c r v = counters-IsValid _ _ v

pub IsNatural-of_positive : (q : ℤ) → IsPositive q → IsNatural q
IsNatural-of_positive q h = ground arith

-- The book that matching starts from.
abbrev pub accepted_book : OrderBook → OrderCommandRecord → OrderBook
accepted_book b c = record b {
  instrument_id = (bind_instrument_if_needed b c.instrument_id).instrument_id;
  next_event_sequence = increment b.next_event_sequence;
}

pub bound_after :
    (b : OrderBook) (c : OrderCommandRecord)
    → IsAcceptable b c
    → (accepted_book b c).instrument_id ≡ some c.instrument_id
unfolding bind_instrument_if_needed
bound_after b c a = ground (arith, a.instrument)

pub accepted_book-IsValid :
    (b : OrderBook) (c : OrderCommandRecord) → IsValid b → IsValid (accepted_book b c)
unfolding bind_instrument_if_needed
accepted_book-IsValid b c v = counters-IsValid _ _ (bind-IsValid b c.instrument_id v)

-- Matching an acceptable order.
pub matching-MatchKept :
    (b : OrderBook) (c : OrderCommandRecord)
    → IsValid b
    → IsAcceptable b c
    → (side : Side) → decode_side c.side ≡ some side
    → MatchKept side c (accepted_book b c) (match_order (accepted_book b c) c)
matching-MatchKept b c v a side e =
    match_order-MatchKept c (accepted_book b c) (accepted_book-IsValid b c v)
      (IsNatural-of_positive c.quantity_lots a.form.quantity) side e

pub accept_new_order-IsValid :
    (b : OrderBook) (c : OrderCommandRecord)
    → IsValid b
    → IsAcceptable b c
    → IsValid (accept_new_order b c).1
unfolding accept_new_order emit_order_event bind_instrument_if_needed
accept_new_order-IsValid b c v a = elim (a.form.side) [
  | inl e ↦
      settle-IsValid c (accepted_book b c) (match_order (accepted_book b c) c) buy e
        (matching-MatchKept b c v a buy e) a.form.price a.fresh (bound_after b c a)
  | inr e ↦
      settle-IsValid c (accepted_book b c) (match_order (accepted_book b c) c) sell e
        (matching-MatchKept b c v a sell e) a.form.price a.fresh (bound_after b c a)
]

-- A new order, accepted or rejected, keeps a valid book valid: levels sorted and filled, best prices
-- uncrossed, and the index equal to the queues.
pub apply_new_order-IsValid :
    (b : OrderBook) (c : OrderCommandRecord) → IsValid b → IsValid (apply_new_order b c).1
apply_new_order-IsValid b c v =
    apply_new_order_cases (λ r. IsValid r.1) b c (λ r. reject-IsValid b c r v)
      (accept_new_order-IsValid b c v)

pub cancel_resting-IsValid :
    (b : OrderBook) (c : OrderCommandRecord) (id : ℕ) (o : RestingOrder)
    → IsValid b
    → find_order b id ≡ some o
    → IsValid (cancel_resting b c o).1
unfolding cancel_resting emit_cancel_event emit_order_event
cancel_resting-IsValid b c id o v e =
    counters-IsValid _ _ (remove_cancelled_order-IsValid v o (found-IsIndexed v id o e))

-- A cancel command, accepted or rejected, keeps a valid book valid.
pub apply_cancel_order-IsValid :
    (b : OrderBook) (c : OrderCommandRecord) → IsValid b → IsValid (apply_cancel_order b c).1
apply_cancel_order-IsValid b c v =
    apply_cancel_order_cases (λ r. IsValid r.1) b c (λ r. reject-IsValid b c r v)
      (λ o found same. cancel_resting-IsValid b c c.order_id o v found)

-- A replace command, accepted or rejected, keeps a valid book valid.
pub apply_replace_order-IsValid :
    (b : OrderBook) (c : OrderCommandRecord) → IsValid b → IsValid (apply_replace_order b c).1
unfolding replace_resting
apply_replace_order-IsValid b c v =
    apply_replace_order_cases (λ r. IsValid r.1) b c (λ r. reject-IsValid b c r v)
      (λ o h.
        apply_new_order-IsValid (cancel_resting b c o).1 (replacement_new_order_command c)
          (cancel_resting-IsValid b c c.order_id o v h.found))
