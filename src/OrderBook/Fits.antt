-- ===== src/OrderBook/Fits.antt =====
-- Books (order_book.hpp) whose numbers fit the machine types of the source.
use fun_exch_macher.Common.{ℕ, ◌<◌, ℤ, pos, negsuc, All, arith}
use fun_exch_macher.Common.Int.{◌-ℤ◌, min_ℤ, IsPositive}
use fun_exch_macher.Domain.{
  ExecutionEventType, RejectionReason, encode_event_type, encode_rejection_reason,
}
use fun_exch_macher.Domain.Fits.{IsInt64, IsLots}
use fun_exch_macher.OrderBook.Types.{OrderBook, RestingOrder, Level, increment}

pub record FitsOrder (o : RestingOrder) : Type 0 where
  pub order_id : o.order_id < 18446744073709551616
  pub client_id : o.client_id < 18446744073709551616
  pub instrument_id : o.instrument_id < 4294967296
  pub side : o.side < 65536
  pub price_ticks : IsInt64 o.price_ticks
  pub remaining_quantity_lots : IsLots o.remaining_quantity_lots

abbrev pub FitsLevel : Level → Type 0
FitsLevel l = IsInt64 l.0 × All FitsOrder l.1

pub record FitsBook (b : OrderBook) : Type 0 where
  pub next_event_sequence : b.next_event_sequence < 18446744073709551616
  pub next_trade_id : b.next_trade_id < 18446744073709551616
  pub bids : All FitsLevel b.bids
  pub asks : All FitsLevel b.asks
  pub active_orders : All (λ entry. FitsOrder entry.1) b.active_orders

pub increment_bound : (n : ℕ) → increment n < 18446744073709551616
unfolding increment
increment_bound n = omega arith

pub IsInt64-IsLots : (a : ℤ) → IsLots a → IsInt64 a
IsInt64-IsLots (pos n) h = h
IsInt64-IsLots (negsuc n) h = absurd h

pub IsLots-positive : (a : ℤ) → IsInt64 a → IsPositive a → IsLots a
IsLots-positive (pos n) h p = h
IsLots-positive (negsuc n) h p = absurd p

pub IsLots-min : (a b : ℤ) → IsLots a → IsLots b → IsLots (a -ℤ min_ℤ a b) × IsLots (min_ℤ a b)
unfolding ◌-ℤ◌ min_ℤ
IsLots-min (pos a) (pos b) h k = ground arith
IsLots-min (pos a) (negsuc b) h k = absurd k
IsLots-min (negsuc a) b h k = absurd h

pub IsLots-rest : (a b : ℤ) → IsLots a → IsLots b → IsLots (b -ℤ min_ℤ a b)
unfolding ◌-ℤ◌ min_ℤ
IsLots-rest (pos a) (pos b) h k = ground arith
IsLots-rest (pos a) (negsuc b) h k = absurd k
IsLots-rest (negsuc a) b h k = absurd h

pub IsInt64-sub : (a b : ℤ) → IsLots a → IsLots b → IsInt64 (a -ℤ b)
unfolding ◌-ℤ◌
IsInt64-sub (pos a) (pos b) h k = ground arith
IsInt64-sub (pos a) (negsuc b) h k = absurd k
IsInt64-sub (negsuc a) b h k = absurd h

pub encode_event_type_bound : (t : ExecutionEventType) → encode_event_type t < 65536
encode_event_type_bound t = ground arith

pub encode_rejection_reason_bound : (r : RejectionReason) → encode_rejection_reason r < 65536
encode_rejection_reason_bound r = ground arith
