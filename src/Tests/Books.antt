-- ===== src/Tests/Books.antt =====
-- The book's and the engine's theorems on a session with two resting offers.
use fun_exch_macher.Common.{◌↔◌, ℕ, ℤ, pos, ◌≡◌, refl, [], ◌∷◌, ap, some, false, map}
use fun_exch_macher.Domain.{
  OrderCommandRecord, no_reason, buy, decode_side, decode_command_type, decode_time_in_force,
}
use fun_exch_macher.OrderBook.Types.{OrderBook, RestingOrder, new_book, increment}
use fun_exch_macher.OrderBook.Validate.{
  validate_order_book_instrument, validate_replacement, validate_new_order, validate_replace_order,
  is_rejection,
}
use fun_exch_macher.OrderBook.Invariant.{IsValid, new_book-IsValid}
use fun_exch_macher.OrderBook.Accepts.{
  validate_new_order_iff, validate_replace_order_iff, IsAcceptable, IsReplaceable,
  validate_new_order-accepts,
}
use fun_exch_macher.Engine.{apply, run}
use fun_exch_macher.Engine.Invariant.{run-IsValid}
use fun_exch_macher.OrderBook.Report.{
  report, MatchConsumes, match_order-MatchConsumes, apply_new_order-report,
}
use fun_exch_macher.OrderBook.Handlers.{
  apply_new_order-IsValid, apply_cancel_order-IsValid, apply_replace_order-IsValid,
}
use fun_exch_macher.OrderBook.Apply.{
  apply_cancel_order, apply_replace_order, apply_new_order, accept_new_order,
  bind_instrument_if_needed, match_order, settle,
}
use fun_exch_macher.OrderBook.Emit.{emit_order_event}
use fun_exch_macher.OrderBook.Levels.{rest_order, push_back, find_order}
use fun_exch_macher.OrderBook.Match.{
  match_buy_order_against_asks, match_sell_order_against_bids, match_levels, match_level,
}
use fun_exch_macher.Common.Dict.{insert, lookup, contains, erase}
use fun_exch_macher.OrderBook.Priority.{take_of}

abbrev pub command : ℕ → ℕ → ℕ → ℕ → ℤ → ℤ → OrderCommandRecord
command kind seq id side price quantity = record {
  command_sequence = seq;
  source_ingress_epoch = 1;
  source_ingress_sequence = seq;
  order_id = id;
  replacement_order_id = 20;
  client_id = 9;
  price_ticks = price;
  quantity_lots = quantity;
  instrument_id = 7;
  command_type = kind;
  side = side;
  time_in_force = 1;
  reserved = 0;
}

abbrev pub first_offer : OrderCommandRecord
first_offer = command 1 1 10 2 (pos 100) (pos 5)

abbrev pub second_offer : OrderCommandRecord
second_offer = command 1 2 11 2 (pos 101) (pos 5)

abbrev pub bid : OrderCommandRecord
bid = command 1 3 12 1 (pos 101) (pos 7)

abbrev pub resting : OrderBook
resting = (run (new_book 1) (first_offer ∷ second_offer ∷ [])).1

pub resting-IsValid : IsValid resting
resting-IsValid = run-IsValid (new_book 1) (first_offer ∷ second_offer ∷ []) (new_book-IsValid 1)

abbrev pub replacement : OrderCommandRecord
replacement = command 3 3 11 2 (pos 99) (pos 4)

-- The validators let both commands through.
pub accepted :
    (validate_new_order resting bid ≡ no_reason)
    × (is_rejection (validate_replace_order resting replacement) ≡ false)
    × (decode_side bid.side ≡ some buy)
unfolding run apply apply_new_order accept_new_order bind_instrument_if_needed match_order settle
    new_book emit_order_event rest_order push_back increment match_buy_order_against_asks
    match_sell_order_against_bids match_levels match_level insert lookup contains erase find_order
    validate_new_order validate_order_book_instrument validate_replace_order validate_replacement
    decode_command_type decode_side decode_time_in_force
accepted = (refl, refl, refl)

pub bid-IsAcceptable : IsAcceptable resting bid
bid-IsAcceptable = validate_new_order-accepts resting bid (ap is_rejection accepted.0)

apply_new_order-report_example :
    map take_of (apply_new_order resting bid).0 ≡ report buy resting bid
apply_new_order-report_example =
    apply_new_order-report resting bid buy resting-IsValid bid-IsAcceptable accepted.2

match_order-MatchConsumes_example : MatchConsumes buy resting bid (match_order resting bid)
match_order-MatchConsumes_example =
    match_order-MatchConsumes resting bid buy resting-IsValid bid-IsAcceptable.form.quantity
      accepted.2

apply_new_order-IsValid_example : IsValid (apply_new_order resting bid).1
apply_new_order-IsValid_example = apply_new_order-IsValid resting bid resting-IsValid

abbrev pub cancellation : OrderCommandRecord
cancellation = command 2 3 10 2 (pos 100) (pos 5)

apply_cancel_order-IsValid_example : IsValid (apply_cancel_order resting cancellation).1
apply_cancel_order-IsValid_example = apply_cancel_order-IsValid resting cancellation resting-IsValid

apply_replace_order-IsValid_example : IsValid (apply_replace_order resting replacement).1
apply_replace_order-IsValid_example =
    apply_replace_order-IsValid resting replacement resting-IsValid

validate_new_order_iff_example :
    ((validate_new_order resting bid ≡ no_reason) ↔ IsAcceptable resting bid)
    × ((client : ℕ)
        → validate_new_order resting (record bid { client_id = client })
          ≡ validate_new_order resting bid)
validate_new_order_iff_example = validate_new_order_iff resting bid

validate_replace_order_iff_example :
    (validate_replace_order resting replacement ≡ no_reason)
    ↔ ((o : RestingOrder) × IsReplaceable resting replacement o)
validate_replace_order_iff_example = validate_replace_order_iff resting replacement
