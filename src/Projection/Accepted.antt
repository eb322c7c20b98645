-- ===== src/Projection/Accepted.antt =====
-- A new order of order_book.cpp next to a projection of its events: its rejection, or its acceptance,
-- its trades and its rest.
use fun_exch_macher.Common.{
  ℕ, ◌≡◌, ◌≢◌, refl, sym, ap, ◌∙◌, ℤ, pos, Bool, false, not, Bool-cases, inl, inr, if◌then◌else◌,
  none, [], ◌∷◌, arith,
}
use fun_exch_macher.Common.Int.{eqb_ℤ, IsPositive}
use fun_exch_macher.Common.Dict.{Dict, lookup, insert, contains, lookup-insert}
use fun_exch_macher.Domain.{
  OrderCommandRecord, RejectionReason, buy, sell, decode_side, order_accepted, order_fully_filled,
  order_partially_filled, order_rested,
}
use fun_exch_macher.OrderBook.Types.{OrderBook, increment}
use fun_exch_macher.OrderBook.Levels.{rest_order}
use fun_exch_macher.OrderBook.Emit.{emit_order_event, emit_rejection_event}
use fun_exch_macher.OrderBook.Match.{Matched}
use fun_exch_macher.OrderBook.Apply.{
  reject, bind_instrument_if_needed, match_order, settle, accept_new_order,
}
use fun_exch_macher.OrderBook.Accepts.{IsAcceptable, IsWellFormed}
use fun_exch_macher.OrderBook.Invariant.{IsValid}
use fun_exch_macher.OrderBook.Trading.{IsNatural}
use fun_exch_macher.OrderBook.Accept.{IsPositive-of_natural}
use fun_exch_macher.OrderBook.Preserve.{resting}
use fun_exch_macher.OrderBook.Handlers.{
  IsNatural-of_positive, accepted_book, accepted_book-IsValid, matching-MatchKept,
}
use fun_exch_macher.Projection.{MarketDataProjection}
use fun_exch_macher.Projection.Tracks.{
  insert-view, lookup-view_none, quiet-TakesTo, rested-TakesTo, filled-TakesTo, Tracks,
  TakesTo-Tracks, Follows, Follows-one, Follows-append,
}
use fun_exch_macher.Projection.Matched.{match_order-Follows}

missing_of_contains :
    {V : Type 0} (id : ℕ) (d : Dict V) → contains id d ≡ false → lookup id d ≡ none
unfolding contains
missing_of_contains id d h = ground arith

pub reject-Follows :
    (b : OrderBook) (c : OrderCommandRecord) (r : RejectionReason) (m : MarketDataProjection)
    → Tracks b m
    → Follows m (reject b c r).0 (reject b c r).1
unfolding reject emit_rejection_event emit_order_event
reject-Follows b c r m t =
    let (e, b') = emit_rejection_event b c r in
    Follows-one m e b' (
      TakesTo-Tracks b b' m e m.active_orders (quiet-TakesTo m e (sym t.next) refl) refl refl
        t.active t.named)

module _ (c : OrderCommandRecord) (form : IsWellFormed c) (named : c.order_id ≢ 0) where
  filled-Follows :
      (b : OrderBook) (m : MarketDataProjection)
      → contains c.order_id b.active_orders ≡ false
      → Tracks b m
      → (let (e, b') = emit_order_event b c order_fully_filled c.quantity_lots (pos 0) in
          Follows m (e ∷ []) b')
  unfolding emit_order_event
  filled-Follows b m fresh t =
      let (e, b') = emit_order_event b c order_fully_filled c.quantity_lots (pos 0) in
      Follows-one m e b' (
        TakesTo-Tracks b b' m e m.active_orders
          (filled-TakesTo m e (sym t.next) refl (
            ap (lookup c.order_id) t.active
            ∙ lookup-view_none c.order_id b.active_orders
                (missing_of_contains c.order_id b.active_orders fresh)))
          refl refl t.active t.named)

  rest_order-active :
      (b : OrderBook) (q : ℤ)
      → ((rest_order b c q).active_orders ≡ insert c.order_id (resting c q) b.active_orders)
        × ((rest_order b c q).next_event_sequence ≡ b.next_event_sequence)
  unfolding rest_order
  rest_order-active b q = ground arith

  rested-Follows :
      (b : OrderBook) (m : MarketDataProjection) (traded : Bool) (done left : ℤ)
      → IsPositive left
      → Tracks b m
      → (let (e, b') =
            emit_order_event
              (rest_order b c left)
              c
              (if traded then order_partially_filled else order_rested)
              done
              left in
          Follows m (e ∷ []) b')
  unfolding emit_order_event
  rested-Follows b m traded done left positive t =
      let (e, b') =
        emit_order_event (rest_order b c left) c
          (if traded then order_partially_filled else order_rested) done left in
      let (active, next) = rest_order-active b left in
      Follows-one m e b' (
        TakesTo-Tracks b b' m e _
          (rested-TakesTo m e (next ∙ sym t.next) (ground arith)
            (unfold decode_side in ground (arith, form.side)) named form.price positive)
          next (ap increment next)
          (rw (t.active, active) (insert-view c.order_id (resting c left) b.active_orders))
          (rw active (
            ground (
              arith,
              lookup-insert c.order_id 0 (resting c left) b.active_orders,
              t.named,
              named,
            ))))

  settle-Follows :
      (x : Matched) (m : MarketDataProjection)
      → IsNatural x.remaining
      → contains c.order_id x.book.active_orders ≡ false
      → Follows m x.events x.book
      → Follows m (settle c x).0 (settle c x).1
  unfolding settle
  settle-Follows x m natural fresh h = elim (Bool-cases (eqb_ℤ x.remaining (pos 0))) [
    | inl zero ↦
        rw zero (Follows-append m x.events _ x.book _ h (λ m' t. filled-Follows x.book m' fresh t))
    | inr left ↦ rw left (
        Follows-append m x.events _ x.book _ h (λ m' t.
          rested-Follows x.book m' (not (eqb_ℤ x.remaining c.quantity_lots)) _ x.remaining
            (IsPositive-of_natural x.remaining natural left) t))
  ]

  pub accept_new_order-Follows :
      (b : OrderBook) (m : MarketDataProjection)
      → IsValid b
      → IsAcceptable b c
      → Tracks b m
      → Follows m (accept_new_order b c).0 (accept_new_order b c).1
  unfolding accept_new_order emit_order_event bind_instrument_if_needed
  accept_new_order-Follows b m v a t =
      let b' = accepted_book b c in
      let (e, _) =
        emit_order_event (bind_instrument_if_needed b c.instrument_id) c order_accepted
          c.quantity_lots c.quantity_lots in
      let settled = settle c (match_order b' c) in
      let kept : IsNatural (match_order b' c).remaining
          × (contains c.order_id (match_order b' c).book.active_orders ≡ false) =
        elim (form.side) [
          | inl s ↦
              let k = matching-MatchKept b c v a buy s in (k.natural, k.fewer c.order_id a.fresh)
          | inr s ↦
              let k = matching-MatchKept b c v a sell s in (k.natural, k.fewer c.order_id a.fresh)
        ] in
      Follows-append m (e ∷ []) settled.0 b' settled.1
        (Follows-one m e b' (
          TakesTo-Tracks b b' m e m.active_orders (quiet-TakesTo m e (sym t.next) refl) refl refl
            t.active t.named))
        (λ m' t'. settle-Follows (match_order b' c) m' kept.0 kept.1 (
          match_order-Follows b' c m' (accepted_book-IsValid b c v)
            (IsNatural-of_positive c.quantity_lots form.quantity) t'))
