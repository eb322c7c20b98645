-- ===== src/Engine/Numbering.antt =====
-- The numbers of the events of InstrumentEngine::apply, for a command and for a log.
use fun_exch_macher.Common.{ℕ, ◌≡◌, refl, List, [], ◌∷◌, ◌++◌, subst, sym}
use fun_exch_macher.Domain.{OrderCommandRecord, ExecutionEventRecord}
use fun_exch_macher.OrderBook.Types.{OrderBook, increment}
use fun_exch_macher.OrderBook.Numbering.{
  IsNumbered, NumbersFrom, reject-NumbersFrom, apply_new_order-NumbersFrom,
  apply_cancel_order-NumbersFrom, apply_replace_order-NumbersFrom,
}
use fun_exch_macher.Engine.{apply, run}
use fun_exch_macher.Engine.Invariant.{apply_cases}

-- The events of any command take the sequence numbers from the book's counter on, one after
-- another, wrapping at 2 ^ 64, and carry the command's sequence; the counter ends behind the last.
pub apply-NumbersFrom : (b : OrderBook) (c : OrderCommandRecord) → NumbersFrom b c (apply b c)
apply-NumbersFrom b c =
    apply_cases (NumbersFrom b c) b c (reject-NumbersFrom b c) (apply_new_order-NumbersFrom b c)
      (apply_cancel_order-NumbersFrom b c) (apply_replace_order-NumbersFrom b c)

-- The numbers from `n` on, up to the next one.
abbrev pub IsContiguous : ℕ → List ExecutionEventRecord → ℕ → Type 0
IsContiguous n [] m = n ≡ m
IsContiguous n (e ∷ es) m = (e.event_sequence ≡ n) × IsContiguous (increment n) es m

IsNumbered-IsContiguous :
    (s n m k : ℕ) (es later : List ExecutionEventRecord)
    → IsNumbered s n es m
    → IsContiguous m later k
    → IsContiguous n (es ++ later) k
IsNumbered-IsContiguous s n m k [] later h g = subst (λ x. IsContiguous x later k) (sym h) g
IsNumbered-IsContiguous s n m k (e ∷ es) later h g =
    (h.0, IsNumbered-IsContiguous s (increment n) m k es later h.2 g)

-- The event log of a run has no gap: its events are numbered from the counter of the first book
-- to that of the last.
pub run-IsContiguous :
    (b : OrderBook) (cs : List OrderCommandRecord)
    → IsContiguous b.next_event_sequence (run b cs).0 (run b cs).1.next_event_sequence
unfolding run
run-IsContiguous b [] = refl
run-IsContiguous b (c ∷ cs) =
    IsNumbered-IsContiguous c.command_sequence b.next_event_sequence _ _ (apply b c).0 _
      (apply-NumbersFrom b c) (run-IsContiguous (apply b c).1 cs)
