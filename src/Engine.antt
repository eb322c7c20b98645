-- ===== src/Engine.antt =====
-- core::InstrumentEngine (instrument_engine.cpp): command routing over one book. A run applies the
-- commands of a log one after another.
pub mod Dummy
pub mod Bounds
pub mod Invariant
pub mod Numbering
pub mod Rejecting
use fun_exch_macher.Common.{ℕ, List, [], ◌∷◌, ◌++◌, Option, none, some}
use fun_exch_macher.Domain.{
  OrderCommandRecord, new_order, cancel_order, replace_order, decode_command_type,
}
use fun_exch_macher.OrderBook.Types.{OrderBook, new_book}
use fun_exch_macher.OrderBook.Apply.{
  Outcome, apply_new_order, apply_cancel_order, apply_replace_order, reject_unsupported_command,
}

unfoldable pub new_engine : ℕ → OrderBook
new_engine first_event_sequence = new_book first_event_sequence

unfoldable pub apply : OrderBook → OrderCommandRecord → Outcome
apply b c = elim (decode_command_type c.command_type) [
  | none ↦ reject_unsupported_command b c
  | some new_order ↦ apply_new_order b c
  | some cancel_order ↦ apply_cancel_order b c
  | some replace_order ↦ apply_replace_order b c
]

unfoldable pub run : OrderBook → List OrderCommandRecord → Outcome
run b [] = ([], b)
run b (c ∷ cs) =
    let (events, b') = apply b c in let (later, b'') = run b' cs in (events ++ later, b'')
