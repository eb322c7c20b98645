-- ===== src/OrderBook/Check.antt =====
-- OrderBook::validate_invariants and its helpers. The set of queued ids is the list of the ids
-- that were inserted; a helper that returns false in the source returns `none`, and one that
-- returns true gives the set as it left it.
use fun_exch_macher.Common.{
  ℕ, ℤ, pos, Bool, true, false, not, ◌&&◌, ◌||◌, ◌==◌, if◌then◌else◌, Option, none, some, List, [],
  ◌∷◌, length,
}
use fun_exch_macher.Common.Int.{ltb_ℤ, eqb_ℤ}
use fun_exch_macher.Common.Dict.{Dict, lookup}
use fun_exch_macher.Domain.{Side, buy, sell, decode_side, is_side}
use fun_exch_macher.OrderBook.Types.{OrderBook, RestingOrder, Level}
use fun_exch_macher.OrderBook.Validate.{is_not_positive}

unfoldable pub contains_id : ℕ → List ℕ → Bool
contains_id k [] = false
contains_id k (i ∷ is) = i == k || contains_id k is

-- `active_order.… == resting_order.…`, field by field.
unfoldable pub same_order : RestingOrder → RestingOrder → Bool
same_order a r =
    a.client_id == r.client_id
    && (a.instrument_id == r.instrument_id
        && (a.side == r.side
            && (eqb_ℤ a.price_ticks r.price_ticks
                && eqb_ℤ a.remaining_quantity_lots r.remaining_quantity_lots)))

abbrev is_indexed : Option RestingOrder → RestingOrder → Bool
is_indexed none r = false
is_indexed (some a) r = same_order a r

unfoldable pub validate_resting_order_against_active_index :
    Dict RestingOrder → ℤ → Side → RestingOrder → List ℕ → Option (List ℕ)
validate_resting_order_against_active_index active price side r queued =
    if not (is_side (decode_side r.side) side)
      || (not (eqb_ℤ r.price_ticks price)
          || (is_not_positive r.remaining_quantity_lots || contains_id r.order_id queued))
    then none
    else if is_indexed (lookup r.order_id active) r
    then some (r.order_id ∷ queued)
    else none

infixl 5 ◌>>=◌
abbrev pub ◌>>=◌ {ℓ} : {A : Type ℓ} → Option A → (A → Option A) → Option A
none >>= f = none
some a >>= f = f a

unfoldable pub validate_resting_orders :
    Dict RestingOrder → ℤ → Side → List RestingOrder → List ℕ → Option (List ℕ)
validate_resting_orders active price side [] queued = some queued
validate_resting_orders active price side (r ∷ rs) queued = do
  queued' ← validate_resting_order_against_active_index active price side r queued
  validate_resting_orders active price side rs queued'

abbrev is_empty {ℓ} : {A : Type ℓ} → List A → Bool
is_empty [] = true
is_empty (x ∷ xs) = false

unfoldable pub validate_price_levels_against_active_orders :
    Dict RestingOrder → Side → List Level → List ℕ → Option (List ℕ)
validate_price_levels_against_active_orders active side [] queued = some queued
validate_price_levels_against_active_orders active side ((p, rs) ∷ ls) queued =
    let rest = λ (q : List ℕ). validate_price_levels_against_active_orders active side ls q in
    if is_empty rs || is_not_positive p
    then none
    else validate_resting_orders active p side rs queued >>= rest

abbrev pub all_queued : List ℕ → Dict RestingOrder → Bool
all_queued queued [] = true
all_queued queued ((id, r) ∷ m) =
    contains_id id queued && (ltb_ℤ (pos 0) r.remaining_quantity_lots && all_queued queued m)

unfoldable pub validate_active_orders_are_queued : Dict RestingOrder → List ℕ → Bool
validate_active_orders_are_queued active queued =
    length queued == length active && all_queued queued active

-- `bids.empty() || asks.empty() || best bid < best ask`
abbrev pub is_uncrossed : List Level → List Level → Bool
is_uncrossed [] asks = true
is_uncrossed (l ∷ ls) [] = true
is_uncrossed ((p, os) ∷ ls) ((q, rs) ∷ ms) = ltb_ℤ p q

abbrev finish_check : OrderBook → Option (List ℕ) → Bool
finish_check b none = false
finish_check b (some queued) =
    validate_active_orders_are_queued b.active_orders queued && is_uncrossed b.bids b.asks

unfoldable pub validate_invariants : OrderBook → Bool
validate_invariants b = finish_check b (
    validate_price_levels_against_active_orders b.active_orders buy b.bids []
    >>= validate_price_levels_against_active_orders b.active_orders sell b.asks)
