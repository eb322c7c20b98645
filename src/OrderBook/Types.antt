-- ===== src/OrderBook/Types.antt =====
-- The state of core::OrderBook (order_book.hpp). A price map is a list of levels in the order of
-- its comparator, a level's deque a list with the front first.
use fun_exch_macher.Common.{
  ℕ, ◌+◌, ◌%◌, ◌^◌, ℤ, pos, Bool, Option, none, some, List, [], ◌∷◌, ◌++◌, length,
}
use fun_exch_macher.Common.Dict.{Dict, lookup, contains}

pub record RestingOrder : Type 0 where
  pub order_id : ℕ
  pub client_id : ℕ
  pub instrument_id : ℕ
  pub side : ℕ
  pub price_ticks : ℤ
  pub remaining_quantity_lots : ℤ

-- One entry of the price map: the price and the orders that rest at it.
abbrev pub Level : Type 0
Level = ℤ × List RestingOrder

pub record OrderBook : Type 0 where
  pub instrument_id : Option ℕ
  pub next_event_sequence : ℕ
  pub next_trade_id : ℕ
  pub bids : List Level
  pub asks : List Level
  pub active_orders : Dict RestingOrder

unfoldable pub new_book : ℕ → OrderBook
new_book first_event_sequence = record {
  instrument_id = none;
  next_event_sequence = first_event_sequence;
  next_trade_id = 1;
  bids = [];
  asks = [];
  active_orders = [];
}

-- `x++` on a std::uint64_t.
unfoldable pub increment : ℕ → ℕ
increment n = (n + 1) % 2 ^ 64

-- All orders of a side, by priority.
abbrev pub orders : List Level → List RestingOrder
orders [] = []
orders ((p, os) ∷ ls) = os ++ orders ls

unfoldable pub has_order : OrderBook → ℕ → Bool
has_order b id = contains id b.active_orders

abbrev best_price : List Level → ℤ
best_price [] = pos 0
best_price ((p, os) ∷ ls) = p

unfoldable pub best_bid_price : OrderBook → ℤ
best_bid_price b = best_price b.bids

unfoldable pub best_ask_price : OrderBook → ℤ
best_ask_price b = best_price b.asks

abbrev remaining_or_zero : Option RestingOrder → ℤ
remaining_or_zero none = pos 0
remaining_or_zero (some o) = o.remaining_quantity_lots

unfoldable pub remaining_quantity : OrderBook → ℕ → ℤ
remaining_quantity b id = remaining_or_zero (lookup id b.active_orders)

unfoldable pub active_order_count : OrderBook → ℕ
active_order_count b = length b.active_orders

-- The three values that `snapshot()` prints.
pub record Snapshot : Type 0 where
  pub active_orders : ℕ
  pub best_bid : ℤ
  pub best_ask : ℤ

unfoldable pub snapshot : OrderBook → Snapshot
snapshot b = record {
  active_orders = length b.active_orders;
  best_bid = best_bid_price b;
  best_ask = best_ask_price b;
}
