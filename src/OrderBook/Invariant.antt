-- ===== src/OrderBook/Invariant.antt =====
-- What a book of order_book.hpp keeps true: each side's levels are sorted, filled and hold only
-- orders that belong there, the best prices do not cross, and the index describes the queues.
use fun_exch_macher.Common.{
  ℕ, ◌<◌, ℤ, ◌≡◌, refl, true, Bool, Option, some, List, [], ◌∷◌, length, All, arith,
}
use fun_exch_macher.Common.Int.{ltb_ℤ, gtb_ℤ, IsPositive}
use fun_exch_macher.Domain.{Side, buy, sell, decode_side}
use fun_exch_macher.OrderBook.Types.{OrderBook, RestingOrder, Level, orders, new_book}
use fun_exch_macher.OrderBook.Index.{Indexed, count_id}
use fun_exch_macher.Common.Dict.{count}

pub record IsPlaced (side : Side) (instrument : Option ℕ) (p : ℤ) (o : RestingOrder) : Type 0 where
  pub on_side : decode_side o.side ≡ some side
  pub at_price : o.price_ticks ≡ p
  pub open_quantity : IsPositive o.remaining_quantity_lots
  pub of_instrument : instrument ≡ some o.instrument_id

pub record IsLevel (side : Side) (instrument : Option ℕ) (l : Level) : Type 0 where
  pub price_positive : IsPositive l.0
  pub filled : 0 < length l.1
  pub placed : All (IsPlaced side instrument l.0) l.1

-- Every price of the levels comes after `p`.
abbrev pub Behind : (ℤ → ℤ → Bool) → ℤ → List Level → Type 0
Behind before p ls = All (λ l. before p l.0 ≡ true) ls

abbrev pub IsSorted : (ℤ → ℤ → Bool) → List Level → Type 0
IsSorted before [] = Unit {0}
IsSorted before ((p, os) ∷ ls) = Behind before p ls × IsSorted before ls

-- Every price of the first list comes before every price of the second.
abbrev pub IsApart : (ℤ → ℤ → Bool) → List Level → List Level → Type 0
IsApart before xs ys = All (λ l. Behind before l.0 ys) xs

pub record IsValid (b : OrderBook) : Type 0 where
  pub bids_sorted : IsSorted gtb_ℤ b.bids
  pub asks_sorted : IsSorted ltb_ℤ b.asks
  pub bids_level : All (IsLevel buy b.instrument_id) b.bids
  pub asks_level : All (IsLevel sell b.instrument_id) b.asks
  pub uncrossed : IsApart ltb_ℤ b.bids b.asks
  pub indexed : Indexed b.active_orders (orders b.bids) (orders b.asks)

pub new_book-IsValid : (first : ℕ) → IsValid (new_book first)
unfolding new_book count count_id
new_book-IsValid first = record {
  bids_sorted = tt;
  asks_sorted = tt;
  bids_level = tt;
  asks_level = tt;
  uncrossed = tt;
  indexed = record {
    counted = λ id. refl;
    unique = λ id. omega arith;
    first = tt;
    second = tt;
    sized = refl;
  };
}
