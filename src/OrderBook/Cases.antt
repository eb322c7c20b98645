-- ===== src/OrderBook/Cases.antt =====
-- The ways through a handler of order_book.cpp: a rejection, or its accepted path under what the
-- handler has tested.
use fun_exch_macher.Common.{◌≡◌, inl, inr, Bool-cases, Option-cases, some, ◌==◌, ==_iff}
use fun_exch_macher.Domain.{
  OrderCommandRecord, RejectionReason, unsupported_command, unknown_order_id, instrument_mismatch,
  cancel_order, decode_command_type, is_command_type,
}
use fun_exch_macher.OrderBook.Types.{OrderBook, RestingOrder}
use fun_exch_macher.OrderBook.Levels.{find_order}
use fun_exch_macher.OrderBook.Validate.{validate_new_order, validate_replace_order, is_rejection}
use fun_exch_macher.OrderBook.Apply.{
  Outcome, reject, accept_new_order, apply_new_order, cancel_resting, apply_cancel_order,
  replace_resting, apply_replace_order,
}
use fun_exch_macher.OrderBook.Accepts.{
  IsAcceptable, IsReplaceable, validate_new_order-accepts, validate_replace_order-accepts,
}

module _ {ℓ} (P : Outcome → Type ℓ) (b : OrderBook) (c : OrderCommandRecord)
    (rejected : (r : RejectionReason) → P (reject b c r)) where
  pub apply_new_order_cases :
      (IsAcceptable b c → P (accept_new_order b c)) → P (apply_new_order b c)
  unfolding apply_new_order
  apply_new_order_cases accepted = elim (Bool-cases (is_rejection (validate_new_order b c))) [
    | inl bad ↦ rw bad (rejected (validate_new_order b c))
    | inr good ↦ rw good (accepted (validate_new_order-accepts b c good))
  ]

  pub apply_cancel_order_cases :
      ((o : RestingOrder)
        → find_order b c.order_id ≡ some o
        → o.instrument_id ≡ c.instrument_id
        → P (cancel_resting b c o))
      → P (apply_cancel_order b c)
  unfolding apply_cancel_order
  apply_cancel_order_cases cancelled =
      elim (Bool-cases (is_command_type (decode_command_type c.command_type) cancel_order)) [
        | inr other ↦ rw other (rejected unsupported_command)
        | inl cancel ↦ elim (Option-cases (find_order b c.order_id)) [
          | inl missing ↦ rw (cancel, missing, apply_cancel_order) (rejected unknown_order_id)
          | inr (o, found) ↦ elim (Bool-cases (o.instrument_id == c.instrument_id)) [
            | inr differs ↦
                rw (cancel, found, apply_cancel_order, differs) (rejected instrument_mismatch)
            | inl same ↦
                rw (cancel, found, apply_cancel_order, same)
                  (cancelled o found ((==_iff _ _).0 same))
          ]
        ]
      ]

  pub apply_replace_order_cases :
      ((o : RestingOrder) → IsReplaceable b c o → P (replace_resting b c o))
      → P (apply_replace_order b c)
  unfolding apply_replace_order
  apply_replace_order_cases replaced =
      elim (Bool-cases (is_rejection (validate_replace_order b c))) [
        | inl bad ↦ rw bad (rejected (validate_replace_order b c))
        | inr good ↦
            let (o, r) = validate_replace_order-accepts b c good in
            rw (good, r.found, apply_replace_order) (replaced o r)
      ]
