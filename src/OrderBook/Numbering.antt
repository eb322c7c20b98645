-- ===== src/OrderBook/Numbering.antt =====
-- Event sequence allocation in order_book.cpp: the events of a command carry consecutive sequence
-- numbers from the book's counter, and the counter ends behind the last of them.
use fun_exch_macher.Common.{
  ℕ, ℤ, pos, ◌≡◌, refl, sym, ap, subst, Bool, Bool-cases, inl, inr, List, [], ◌∷◌, ◌++◌, arith,
}
use fun_exch_macher.Common.Int.{eqb_ℤ, ltb_ℤ, gtb_ℤ}
use fun_exch_macher.Domain.{
  OrderCommandRecord, ExecutionEventRecord, RejectionReason, decode_side, is_side, buy,
}
use fun_exch_macher.OrderBook.Types.{OrderBook, RestingOrder, Level, increment}
use fun_exch_macher.OrderBook.Levels.{rest_order, remove_cancelled_order}
use fun_exch_macher.OrderBook.Emit.{
  emit_order_event, emit_trade_event, emit_rejection_event, emit_cancel_event,
}
use fun_exch_macher.OrderBook.Match.{
  Fill, Matched, trade, match_level, match_levels, after_level, match_buy_order_against_asks,
  match_sell_order_against_bids,
}
use fun_exch_macher.OrderBook.Apply.{
  Outcome, reject, bind_instrument_if_needed, match_order, settle, accept_new_order,
  apply_new_order, cancel_resting, apply_cancel_order, replace_resting,
  replacement_new_order_command, apply_replace_order,
}
use fun_exch_macher.OrderBook.Rules.{popped, match_level_rule, match_levels_rule}
use fun_exch_macher.OrderBook.Cases.{
  apply_new_order_cases, apply_cancel_order_cases, apply_replace_order_cases,
}

-- The events take the numbers from `n` on, one after another, and `m` is the next one; all name
-- the command of sequence `s`.
abbrev pub IsNumbered : ℕ → ℕ → List ExecutionEventRecord → ℕ → Type 0
IsNumbered s n [] m = n ≡ m
IsNumbered s n (e ∷ es) m =
    (e.event_sequence ≡ n) × (e.command_sequence ≡ s) × IsNumbered s (increment n) es m

IsNumbered-append :
    (s n m k : ℕ) (xs ys : List ExecutionEventRecord)
    → IsNumbered s n xs m
    → IsNumbered s m ys k
    → IsNumbered s n (xs ++ ys) k
IsNumbered-append s n m k [] ys h g = subst (λ x. IsNumbered s x ys k) (sym h) g
IsNumbered-append s n m k (x ∷ xs) ys h g =
    (h.0, h.1, IsNumbered-append s (increment n) m k xs ys h.2 g)

-- An outcome of a command on a book.
abbrev pub NumbersFrom : OrderBook → OrderCommandRecord → Outcome → Type 0
NumbersFrom b c r = IsNumbered c.command_sequence b.next_event_sequence r.0 r.1.next_event_sequence

module _ (c : OrderCommandRecord) where
  match_level-IsNumbered :
      (p q : ℤ) (os : List RestingOrder) (b : OrderBook)
      → IsNumbered c.command_sequence b.next_event_sequence
          (match_level c p q os b).events
          (match_level c p q os b).book.next_event_sequence
  unfolding popped trade emit_trade_event emit_order_event
  match_level-IsNumbered p =
      match_level_rule c p
        (λ q os b f.
          IsNumbered c.command_sequence b.next_event_sequence f.events f.book.next_event_sequence)
        (λ q os b done. refl) (λ q o os b more left. (refl, refl, refl))
        (λ q o os b f more gone ih. (refl, refl, ih))

  after_level-IsNumbered :
      (n : ℕ) (p : ℤ) (f : Fill RestingOrder) (rest : List RestingOrder) (ls : List Level)
      (g : Fill Level)
      → f.rest ≡ rest
      → IsNumbered c.command_sequence n f.events f.book.next_event_sequence
      → IsNumbered c.command_sequence f.book.next_event_sequence g.events g.book.next_event_sequence
      → IsNumbered c.command_sequence n
          (after_level p f ls g).events
          (after_level p f ls g).book.next_event_sequence
  after_level-IsNumbered n p f [] ls g e h k = rw e (
      IsNumbered-append c.command_sequence n f.book.next_event_sequence g.book.next_event_sequence
        f.events g.events h k)
  after_level-IsNumbered n p f (o ∷ os) ls g e h k = rw e h

  match_levels-IsNumbered :
      (before : ℤ → ℤ → Bool) (q : ℤ) (ls : List Level) (b : OrderBook)
      → IsNumbered c.command_sequence b.next_event_sequence
          (match_levels before c q ls b).events
          (match_levels before c q ls b).book.next_event_sequence
  match_levels-IsNumbered before =
      match_levels_rule before c
        (λ q ls b f.
          IsNumbered c.command_sequence b.next_event_sequence f.events f.book.next_event_sequence)
        (λ q b. refl) (λ q p os ls b done. refl)
        (λ q p os ls b g more good ih.
          after_level-IsNumbered b.next_event_sequence p (match_level c p q os b) _ ls g refl
            (match_level-IsNumbered p q os b) ih)

  match_order-IsNumbered :
      (b : OrderBook)
      → IsNumbered c.command_sequence b.next_event_sequence
          (match_order b c).events
          (match_order b c).book.next_event_sequence
  unfolding match_order match_buy_order_against_asks match_sell_order_against_bids
  match_order-IsNumbered b = elim (Bool-cases (is_side (decode_side c.side) buy)) [
    | inl e ↦ rw e (match_levels-IsNumbered ltb_ℤ c.quantity_lots b.asks b)
    | inr e ↦ rw e (match_levels-IsNumbered gtb_ℤ c.quantity_lots b.bids b)
  ]

  rest_order-sequence :
      (b : OrderBook) (q : ℤ) → (rest_order b c q).next_event_sequence ≡ b.next_event_sequence
  unfolding rest_order
  rest_order-sequence b q = ground arith

  settle-IsNumbered :
      (n : ℕ) (m : Matched)
      → IsNumbered c.command_sequence n m.events m.book.next_event_sequence
      → IsNumbered c.command_sequence n (settle c m).0 (settle c m).1.next_event_sequence
  unfolding settle emit_order_event
  settle-IsNumbered n m h = elim (Bool-cases (eqb_ℤ m.remaining (pos 0))) [
    | inl zero ↦ rw zero (
        IsNumbered-append c.command_sequence n m.book.next_event_sequence _ m.events _ h
          (refl, refl, refl))
    | inr left ↦ rw left (
        IsNumbered-append c.command_sequence n m.book.next_event_sequence _ m.events _ h (
          rest_order-sequence m.book m.remaining,
          refl,
          ap increment (sym (rest_order-sequence m.book m.remaining)),
        ))
  ]

module _ (b : OrderBook) (c : OrderCommandRecord) where
  pub reject-NumbersFrom : (r : RejectionReason) → NumbersFrom b c (reject b c r)
  unfolding reject emit_rejection_event emit_order_event
  reject-NumbersFrom r = (refl, refl, refl)

  pub accept_new_order-NumbersFrom : NumbersFrom b c (accept_new_order b c)
  unfolding accept_new_order emit_order_event bind_instrument_if_needed
  accept_new_order-NumbersFrom =
      (refl, refl, settle-IsNumbered c _ (match_order _ c) (match_order-IsNumbered c _))

  remove_cancelled_order-sequence :
      (o : RestingOrder) → (remove_cancelled_order b o).next_event_sequence ≡ b.next_event_sequence
  unfolding remove_cancelled_order
  remove_cancelled_order-sequence o = ground arith

  pub cancel_resting-NumbersFrom : (o : RestingOrder) → NumbersFrom b c (cancel_resting b c o)
  unfolding cancel_resting emit_cancel_event emit_order_event
  cancel_resting-NumbersFrom o = (
    remove_cancelled_order-sequence o,
    refl,
    ap increment (sym (remove_cancelled_order-sequence o)),
  )

pub apply_new_order-NumbersFrom :
    (b : OrderBook) (c : OrderCommandRecord) → NumbersFrom b c (apply_new_order b c)
apply_new_order-NumbersFrom b c =
    apply_new_order_cases (NumbersFrom b c) b c (reject-NumbersFrom b c)
      (λ a. accept_new_order-NumbersFrom b c)

pub apply_cancel_order-NumbersFrom :
    (b : OrderBook) (c : OrderCommandRecord) → NumbersFrom b c (apply_cancel_order b c)
apply_cancel_order-NumbersFrom b c =
    apply_cancel_order_cases (NumbersFrom b c) b c (reject-NumbersFrom b c)
      (λ o found same. cancel_resting-NumbersFrom b c o)

pub apply_replace_order-NumbersFrom :
    (b : OrderBook) (c : OrderCommandRecord) → NumbersFrom b c (apply_replace_order b c)
unfolding replace_resting replacement_new_order_command
apply_replace_order-NumbersFrom b c =
    apply_replace_order_cases (NumbersFrom b c) b c (reject-NumbersFrom b c) (λ o h.
      IsNumbered-append c.command_sequence b.next_event_sequence _ _ (cancel_resting b c o).0 _
        (cancel_resting-NumbersFrom b c o)
        (apply_new_order-NumbersFrom (cancel_resting b c o).1 (replacement_new_order_command c)))
