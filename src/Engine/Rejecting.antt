-- ===== src/Engine/Rejecting.antt =====
-- What InstrumentEngine::apply leaves when it rejects a command.
use fun_exch_macher.Common.{ℕ, ◌≡◌, refl, sym, ap, List, [], ◌∷◌}
use fun_exch_macher.Domain.{
  OrderCommandRecord, ExecutionEventRecord, RejectionReason, encode_event_type, order_rejected,
}
use fun_exch_macher.OrderBook.Types.{OrderBook, RestingOrder, increment}
use fun_exch_macher.OrderBook.Emit.{emit_order_event, emit_rejection_event, emit_cancel_event}
use fun_exch_macher.OrderBook.Apply.{
  Outcome, reject, accept_new_order, apply_new_order, cancel_resting, apply_cancel_order,
  replace_resting, apply_replace_order,
}
use fun_exch_macher.OrderBook.Cases.{
  apply_new_order_cases, apply_cancel_order_cases, apply_replace_order_cases,
}
use fun_exch_macher.Engine.{apply}
use fun_exch_macher.Engine.Invariant.{apply_cases}

-- Only the counter of events moves, and nothing else is reported.
pub record IsUntouched (b : OrderBook) (after : OrderBook) (later : List ExecutionEventRecord)
    : Type 0 where
  pub book : after ≡ record b { next_event_sequence = increment b.next_event_sequence }
  pub alone : later ≡ []

abbrev kind_of : List ExecutionEventRecord → ℕ
kind_of [] = 0
kind_of (e ∷ later) = e.event_type

abbrev rest_of : List ExecutionEventRecord → List ExecutionEventRecord
rest_of [] = []
rest_of (e ∷ later) = later

-- If the first event of an outcome is a rejection, the book is untouched.
abbrev RejectsCleanly : OrderBook → Outcome → Type 0
RejectsCleanly b r =
    (e : ExecutionEventRecord) (later : List ExecutionEventRecord)
    → r.0 ≡ e ∷ later
    → e.event_type ≡ encode_event_type order_rejected
    → IsUntouched b r.1 later

module _ (b : OrderBook) (c : OrderCommandRecord) where
  reject-RejectsCleanly : (r : RejectionReason) → RejectsCleanly b (reject b c r)
  unfolding reject emit_rejection_event emit_order_event
  reject-RejectsCleanly r e later h k = record { book = refl; alone = sym (ap rest_of h) }

  accept_new_order-RejectsCleanly : RejectsCleanly b (accept_new_order b c)
  unfolding accept_new_order emit_order_event
  accept_new_order-RejectsCleanly e later h k = absurd (cc (ap kind_of h, k))

  cancel_resting-RejectsCleanly : (o : RestingOrder) → RejectsCleanly b (cancel_resting b c o)
  unfolding cancel_resting emit_cancel_event emit_order_event
  cancel_resting-RejectsCleanly o e later h k = absurd (cc (ap kind_of h, k))

  replace_resting-RejectsCleanly : (o : RestingOrder) → RejectsCleanly b (replace_resting b c o)
  unfolding replace_resting cancel_resting emit_cancel_event emit_order_event
  replace_resting-RejectsCleanly o e later h k = absurd (cc (ap kind_of h, k))

  new_order-RejectsCleanly : RejectsCleanly b (apply_new_order b c)
  new_order-RejectsCleanly =
      apply_new_order_cases (RejectsCleanly b) b c reject-RejectsCleanly
        (λ a. accept_new_order-RejectsCleanly)

  cancel_order-RejectsCleanly : RejectsCleanly b (apply_cancel_order b c)
  cancel_order-RejectsCleanly =
      apply_cancel_order_cases (RejectsCleanly b) b c reject-RejectsCleanly
        (λ o found same. cancel_resting-RejectsCleanly o)

  replace_order-RejectsCleanly : RejectsCleanly b (apply_replace_order b c)
  replace_order-RejectsCleanly =
      apply_replace_order_cases (RejectsCleanly b) b c reject-RejectsCleanly
        (λ o h. replace_resting-RejectsCleanly o)

-- If the first event that a command reports is a rejection, it is the only one, and the book is as
-- it was but for the counter of events.
pub apply-RejectsCleanly :
    (b : OrderBook) (c : OrderCommandRecord) (e : ExecutionEventRecord)
    (later : List ExecutionEventRecord)
    → (apply b c).0 ≡ e ∷ later
    → e.event_type ≡ encode_event_type order_rejected
    → IsUntouched b (apply b c).1 later
apply-RejectsCleanly b c =
    apply_cases (RejectsCleanly b) b c (reject-RejectsCleanly b c) (new_order-RejectsCleanly b c)
      (cancel_order-RejectsCleanly b c) (replace_order-RejectsCleanly b c)
