-- ===== src/Projection.antt =====
-- projections::MarketDataProjection (src/projections): the public book and trades, rebuilt from
-- execution events. The messages of a rejection are a data type.
pub mod Steps
pub mod Depth
pub mod Shown
pub mod Tracks
pub mod Matched
pub mod Follows
pub mod Accepted
pub mod Agrees
use fun_exch_macher.Common.{
  ℕ, ℤ, pos, Bool, not, ◌&&◌, ◌||◌, ◌==◌, if◌then◌else◌, none, some, List, [], ◌∷◌, ◌++◌,
}
use fun_exch_macher.Common.Int.{ltb_ℤ, gtb_ℤ, eqb_ℤ, add_int64, ◌-ℤ◌}
use fun_exch_macher.Common.Dict.{Dict, lookup, insert, erase}
use fun_exch_macher.Domain.{ExecutionEventRecord, encode_side, buy, sell}
use fun_exch_macher.OrderBook.Types.{increment}
use fun_exch_macher.OrderBook.Validate.{is_not_positive}

pub record PublicPriceLevel : Type 0 where
  pub price_ticks : ℤ
  pub quantity_lots : ℤ

pub record PublicBookView : Type 0 where
  pub instrument_id : ℕ
  pub bids : List PublicPriceLevel
  pub asks : List PublicPriceLevel

pub record PublicTrade : Type 0 where
  pub trade_id : ℕ
  pub instrument_id : ℕ
  pub incoming_order_id : ℕ
  pub resting_order_id : ℕ
  pub aggressor_side : ℕ
  pub price_ticks : ℤ
  pub quantity_lots : ℤ

pub data ProjectionError : Type 0 where
  event_sequence_gap : (expected got : ℕ) → ProjectionError
  unknown_event_type no_visible_liquidity trade_is_incomplete : ProjectionError
  trade_of_unknown_order trade_exceeds_resting cancel_of_unknown_order : ProjectionError
  invalid_order_state : ProjectionError

pub data ProjectionApplyResult : Type 0 where
  applied ignored : ProjectionApplyResult
  rejected : ProjectionError → ProjectionApplyResult

pub record OrderState : Type 0 where
  pub instrument_id : ℕ
  pub side : ℕ
  pub price_ticks : ℤ
  pub remaining_quantity_lots : ℤ

pub record MarketDataProjection : Type 0 where
  pub book : PublicBookView
  pub trades : List PublicTrade
  pub last_applied_event_sequence : ℕ
  pub active_orders : Dict OrderState

abbrev pub empty_projection : MarketDataProjection
empty_projection = record {
  book = record { instrument_id = 0; bids = []; asks = [] };
  trades = [];
  last_applied_event_sequence = 0;
  active_orders = [];
}

abbrev pub is_buy : ℕ → Bool
is_buy side = side == encode_side buy

abbrev pub is_sell : ℕ → Bool
is_sell side = side == encode_side sell

-- `levels[price] += quantity` on the std::map of rebuild_book with comparator `before`. The sum wraps
-- around as on a two's complement machine.
unfoldable pub add_quantity : (ℤ → ℤ → Bool) → ℤ → ℤ → List PublicPriceLevel → List PublicPriceLevel
add_quantity before price q [] =
    record { price_ticks = price; quantity_lots = add_int64 (pos 0) q } ∷ []
add_quantity before price q (l ∷ ls) =
    if eqb_ℤ l.price_ticks price
    then record l { quantity_lots = add_int64 l.quantity_lots q } ∷ ls
    else if before price l.price_ticks
    then record { price_ticks = price; quantity_lots = add_int64 (pos 0) q } ∷ l ∷ ls
    else l ∷ add_quantity before price q ls

pub record Rebuild : Type 0 where
  pub instrument_id : ℕ
  pub bids : List PublicPriceLevel
  pub asks : List PublicPriceLevel

-- One pass of the loop over the active orders.
unfoldable pub rebuild_step : Rebuild → OrderState → Rebuild
rebuild_step r o =
    if is_buy o.side
    then record {
      instrument_id = o.instrument_id;
      bids = add_quantity gtb_ℤ o.price_ticks o.remaining_quantity_lots r.bids;
      asks = r.asks;
    }
    else if is_sell o.side
    then record {
      instrument_id = o.instrument_id;
      bids = r.bids;
      asks = add_quantity ltb_ℤ o.price_ticks o.remaining_quantity_lots r.asks;
    }
    else record r { instrument_id = o.instrument_id }

-- The loop runs over the entries in the order of the association list: the source's order is that
-- of a hash table.
unfoldable pub rebuild_loop : Dict OrderState → Rebuild → Rebuild
rebuild_loop [] r = r
rebuild_loop ((id, o) ∷ m) r = rebuild_loop m (rebuild_step r o)

-- Levels with a positive quantity.
unfoldable pub visible : List PublicPriceLevel → List PublicPriceLevel
visible [] = []
visible (l ∷ ls) = if ltb_ℤ (pos 0) l.quantity_lots then l ∷ visible ls else visible ls

unfoldable pub rebuild_book : Dict OrderState → PublicBookView
rebuild_book active =
    let r = rebuild_loop active (record { instrument_id = 0; bids = []; asks = [] }) in
    record { instrument_id = r.instrument_id; bids = visible r.bids; asks = visible r.asks }

abbrev pub Applied : Type 0
Applied = ProjectionApplyResult × MarketDataProjection

abbrev pub with_orders : MarketDataProjection → Dict OrderState → MarketDataProjection
with_orders m active = record m { active_orders = active; book = rebuild_book active }

unfoldable pub upsert_order : MarketDataProjection → ℕ → ℕ → ℕ → ℤ → ℤ → Applied
upsert_order m id instrument side price remaining =
    if id == 0 || (is_not_positive price || is_not_positive remaining)
    then (rejected invalid_order_state, m)
    else (
      applied,
      with_orders m (
          insert id
            (record {
              instrument_id = instrument;
              side = side;
              price_ticks = price;
              remaining_quantity_lots = remaining;
            })
            m.active_orders),
    )

unfoldable pub remove_order : MarketDataProjection → ℕ → Applied
remove_order m id = (applied, with_orders m (erase id m.active_orders))

unfoldable pub apply_rested : MarketDataProjection → ExecutionEventRecord → Applied
apply_rested m e =
    if is_not_positive e.remaining_quantity_lots || (not (is_buy e.side) && not (is_sell e.side))
    then (rejected no_visible_liquidity, m)
    else upsert_order m e.order_id e.instrument_id e.side e.price_ticks e.remaining_quantity_lots

abbrev pub public_trade : ExecutionEventRecord → PublicTrade
public_trade e = record {
  trade_id = e.trade_id;
  instrument_id = e.instrument_id;
  incoming_order_id = e.order_id;
  resting_order_id = e.contra_order_id;
  aggressor_side = e.side;
  price_ticks = e.price_ticks;
  quantity_lots = e.quantity_lots;
}

-- apply_trade once the resting order is found and large enough.
unfoldable pub reduce_order :
    MarketDataProjection → ExecutionEventRecord → OrderState → MarketDataProjection
reduce_order m e o =
    let left = o.remaining_quantity_lots -ℤ e.quantity_lots in
    with_orders (record m { trades = m.trades ++ (public_trade e ∷ []) })
      (if eqb_ℤ left (pos 0)
        then erase e.contra_order_id m.active_orders
        else insert e.contra_order_id (record o { remaining_quantity_lots = left }) m.active_orders)

unfoldable pub apply_trade : MarketDataProjection → ExecutionEventRecord → Applied
apply_trade m e =
    if is_not_positive e.quantity_lots || e.contra_order_id == 0
    then (rejected trade_is_incomplete, m)
    else elim (lookup e.contra_order_id m.active_orders) [
      | none ↦ (rejected trade_of_unknown_order, m)
      | some o ↦
          if ltb_ℤ o.remaining_quantity_lots e.quantity_lots
          then (rejected trade_exceeds_resting, m)
          else (applied, reduce_order m e o)
    ]

unfoldable pub apply_cancelled : MarketDataProjection → ExecutionEventRecord → Applied
apply_cancelled m e = elim (lookup e.order_id m.active_orders) [
  | none ↦ (rejected cancel_of_unknown_order, m)
  | some o ↦ remove_order m e.order_id
]

unfoldable pub apply_filled : MarketDataProjection → ExecutionEventRecord → Applied
apply_filled m e = elim (lookup e.order_id m.active_orders) [
  | none ↦ (ignored, m)
  | some o ↦ remove_order m e.order_id
]

-- The switch on the event type, by its values: 1 and 2 accepted and rejected, 3 a trade, 4 and 5
-- rested and partially filled, 6 fully filled, 7 cancelled.
unfoldable pub dispatch : MarketDataProjection → ExecutionEventRecord → Applied
dispatch m e =
    if e.event_type == 1 || e.event_type == 2
    then (ignored, m)
    else if e.event_type == 4 || e.event_type == 5
    then apply_rested m e
    else if e.event_type == 3
    then apply_trade m e
    else if e.event_type == 6
    then apply_filled m e
    else if e.event_type == 7
    then apply_cancelled m e
    else (rejected unknown_event_type, m)

-- A rejected event does not advance the sequence.
abbrev pub advance : ℕ → Applied → Applied
advance n (applied, m) = (applied, record m { last_applied_event_sequence = n })
advance n (ignored, m) = (ignored, record m { last_applied_event_sequence = n })
advance n (rejected r, m) = (rejected r, m)

unfoldable pub apply : MarketDataProjection → ExecutionEventRecord → Applied
apply m e =
    let expected = increment m.last_applied_event_sequence in
    if not (e.event_sequence == expected)
    then (rejected (event_sequence_gap expected e.event_sequence), m)
    else advance e.event_sequence (dispatch m e)
