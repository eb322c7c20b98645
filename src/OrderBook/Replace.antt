-- ===== src/OrderBook/Replace.antt =====
-- A replace command (order_book.cpp) that passes validation is carried out as a whole.
use fun_exch_macher.Common.{
  ℕ, ◌<◌, ◌≡◌, refl, ap, subst, ◌∙◌, inl, inr, Bool-cases, ◌==◌, ==_iff, some, List, [], ◌∷◌, ◌++◌,
  All, arith,
}
use fun_exch_macher.Common.Dict.{Dict, lookup, contains}
use fun_exch_macher.Domain.{OrderCommandRecord, buy, sell, decode_command_type}
use fun_exch_macher.OrderBook.Types.{OrderBook, RestingOrder, orders}
use fun_exch_macher.OrderBook.Emit.{emit_order_event, emit_cancel_event}
use fun_exch_macher.OrderBook.Levels.{find_order}
use fun_exch_macher.OrderBook.Validate.{is_rejection}
use fun_exch_macher.OrderBook.Apply.{
  cancel_resting, accept_new_order, apply_new_order, replacement_new_order_command, replace_resting,
  apply_replace_order,
}
use fun_exch_macher.OrderBook.Index.{count_id, IsIndexed}
use fun_exch_macher.OrderBook.Invariant.{IsValid}
use fun_exch_macher.OrderBook.Accepts.{
  IsAcceptable, IsReplaceable, validate_new_order_complete, validate_replace_order_complete,
}
use fun_exch_macher.OrderBook.Preserve.{orders-All}
use fun_exch_macher.OrderBook.Removal.{found-id, found-IsIndexed, found-count}
use fun_exch_macher.OrderBook.Cancel.{remove_cancelled_order-IsRemoved}

-- What holds of all orders of a queue holds of the order that the index gives for a queued id.
queued-All :
    (Q : RestingOrder → Type 0) (active : Dict RestingOrder) (id : ℕ) (o : RestingOrder)
    (xs : List RestingOrder)
    → 0 < count_id id xs
    → All (IsIndexed active) xs
    → All Q xs
    → lookup id active ≡ some o
    → Q o
unfolding count_id
queued-All Q active id o [] n i q e = absurd (omega arith)
queued-All Q active id o (x ∷ xs) n i q e = elim (Bool-cases (x.order_id == id)) [
  | inl same ↦
      let at : x.order_id ≡ id = (==_iff x.order_id id).0 same in subst Q (cc (i.0, e, at)) q.0
  | inr other ↦ queued-All Q active id o xs (ground arith) i.1 q.1 e
]

of_instrument :
    {b : OrderBook} (v : IsValid b) (id : ℕ) (o : RestingOrder)
    → find_order b id ≡ some o
    → b.instrument_id ≡ some o.instrument_id
unfolding find_order
of_instrument {b} v id o e =
    let Q = λ (x : RestingOrder). b.instrument_id ≡ some x.instrument_id in
    let bids = orders-All Q buy b.instrument_id b.bids (λ p x k. k.of_instrument) v.bids_level in
    let asks = orders-All Q sell b.instrument_id b.asks (λ p x k. k.of_instrument) v.asks_level in
    let somewhere = found-count v id o e in
    elim (Bool-cases (count_id id (orders b.bids) == 0)) [
      | inl none_there ↦
          queued-All Q b.active_orders id o (orders b.asks) (ground (arith, v.indexed.counted id))
            v.indexed.second asks e
      | inr there ↦
          queued-All Q b.active_orders id o (orders b.bids) (ground arith) v.indexed.first bids e
    ]

-- The cancellation leaves a book that takes the new order.
replacement-IsAcceptable :
    (b : OrderBook) (c : OrderCommandRecord) (o : RestingOrder)
    → IsValid b
    → IsReplaceable b c o
    → IsAcceptable (cancel_resting b c o).1 (replacement_new_order_command c)
unfolding cancel_resting emit_cancel_event emit_order_event replacement_new_order_command find_order
    contains
replacement-IsAcceptable b c o v h =
    let r = remove_cancelled_order-IsRemoved v o (found-IsIndexed v c.order_id o h.found) in
    record {
      command_type = unfold decode_command_type in refl;
      form = record {
        side = h.form.side;
        price = h.form.price;
        quantity = h.form.quantity;
        lifetime = h.form.lifetime;
      };
      fresh = ground (
        arith,
        r.index c.replacement_order_id,
        found-id v c.order_id o h.found,
        h.fresh,
        h.renamed,
      );
      instrument = inr (r.instrument ∙ of_instrument v c.order_id o h.found ∙ ap some h.instrument);
    }

-- On a valid book a replacement that passes validation is never rejected half way: it cancels the
-- old order and then accepts the new one on the book without it, and reports the events of both.
pub apply_replace_order-accepts :
    (b : OrderBook) (c : OrderCommandRecord) (o : RestingOrder)
    → IsValid b
    → IsReplaceable b c o
    → let cancelled = cancel_resting b c o in
      let accepted = accept_new_order cancelled.1 (replacement_new_order_command c) in
      apply_replace_order b c ≡ (cancelled.0 ++ accepted.0, accepted.1)
unfolding apply_replace_order replace_resting apply_new_order
apply_replace_order-accepts b c o v h =
    let a = replacement-IsAcceptable b c o v h in
    rw
      (
        ap is_rejection (validate_replace_order_complete b c o h),
        h.found,
        ap is_rejection (validate_new_order_complete _ _ a),
      )
      refl
