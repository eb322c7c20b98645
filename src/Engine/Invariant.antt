-- ===== src/Engine/Invariant.antt =====
-- The invariant of a book along a log of commands, run by InstrumentEngine::apply.
use fun_exch_macher.Common.{ℕ, ◌≡◌, refl, true, Option, none, some, List, [], ◌∷◌}
use fun_exch_macher.Domain.{
  OrderCommandRecord, RejectionReason, unsupported_command, CommandType, new_order, cancel_order,
  replace_order, decode_command_type,
}
use fun_exch_macher.OrderBook.Types.{OrderBook, new_book}
use fun_exch_macher.OrderBook.Apply.{
  Outcome, reject, reject_unsupported_command, apply_new_order, apply_cancel_order,
  apply_replace_order,
}
use fun_exch_macher.OrderBook.Check.{validate_invariants}
use fun_exch_macher.OrderBook.Checked.{IsValid-validate_invariants}
use fun_exch_macher.OrderBook.Invariant.{IsValid, new_book-IsValid}
use fun_exch_macher.OrderBook.Handlers.{
  reject-IsValid, apply_new_order-IsValid, apply_cancel_order-IsValid, apply_replace_order-IsValid,
}
use fun_exch_macher.Engine.{apply, run, new_engine}

-- The ways through the dispatcher.
pub apply_cases {ℓ} :
    (P : Outcome → Type ℓ) (b : OrderBook) (c : OrderCommandRecord)
    → ((r : RejectionReason) → P (reject b c r))
    → P (apply_new_order b c)
    → P (apply_cancel_order b c)
    → P (apply_replace_order b c)
    → P (apply b c)
unfolding apply reject_unsupported_command
apply_cases P b c rejected new cancel replace = go (decode_command_type c.command_type) refl
  where
    go : (t : Option CommandType) → decode_command_type c.command_type ≡ t → P (apply b c)
    go none e = rw (e, apply) (rejected unsupported_command)
    go (some new_order) e = rw (e, apply) new
    go (some cancel_order) e = rw (e, apply) cancel
    go (some replace_order) e = rw (e, apply) replace

pub apply-IsValid : (b : OrderBook) (c : OrderCommandRecord) → IsValid b → IsValid (apply b c).1
apply-IsValid b c v =
    apply_cases (λ r. IsValid r.1) b c (λ r. reject-IsValid b c r v) (apply_new_order-IsValid b c v)
      (apply_cancel_order-IsValid b c v) (apply_replace_order-IsValid b c v)

pub run-IsValid : (b : OrderBook) (cs : List OrderCommandRecord) → IsValid b → IsValid (run b cs).1
unfolding run
run-IsValid b [] v = v
run-IsValid b (c ∷ cs) v = run-IsValid (apply b c).1 cs (apply-IsValid b c v)

-- After any log of commands, from any first event sequence, the book's own check of its
-- invariants answers true.
pub validate_invariants-run :
    (first_event_sequence : ℕ) (cs : List OrderCommandRecord)
    → validate_invariants (run (new_engine first_event_sequence) cs).1 ≡ true
unfolding new_engine
validate_invariants-run n cs =
    IsValid-validate_invariants (run-IsValid (new_book n) cs (new_book-IsValid n))
