-- ===== src/Projection/Agrees.antt =====
-- The public book of a projection (market_data_projection.cpp) against the price levels of the book
-- (order_book.cpp) whose events it is made from.
use fun_exch_macher.Common.{
  ℕ, ◌+◌, ◌<◌, ◌≡◌, refl, ap, ◌∙◌, ℤ, Bool, true, false, ◌&&◌, if◌then◌else◌, Option, some, List,
  [], ◌∷◌, ◌++◌, All, arith,
}
use fun_exch_macher.Common.Int.{eqb_ℤ, magnitude}
use fun_exch_macher.Common.Dict.{Dict, lookup, erase}
use fun_exch_macher.Domain.{OrderCommandRecord, Side, buy, sell, decode_side}
use fun_exch_macher.OrderBook.Types.{OrderBook, RestingOrder, Level, orders, increment, new_book}
use fun_exch_macher.OrderBook.Index.{Indexed, Indexed-swap, Indexed-drop}
use fun_exch_macher.OrderBook.Invariant.{IsPlaced, IsLevel, IsValid, new_book-IsValid}
use fun_exch_macher.Engine.{new_engine, run}
use fun_exch_macher.Engine.Invariant.{run-IsValid}
use fun_exch_macher.Projection.{PublicBookView, is_buy, is_sell, empty_projection}
use fun_exch_macher.Projection.Depth.{depth_at, open_at}
use fun_exch_macher.Projection.Shown.{project, project-ShowsDepth}
use fun_exch_macher.Projection.Tracks.{view, Tracks, AreTaken}
use fun_exch_macher.Projection.Follows.{IsOrderNamed, run-Follows}

-- The quantity that rests in the levels of a side at a price.
abbrev quantity_of : List RestingOrder → ℕ
quantity_of [] = 0
quantity_of (o ∷ os) = magnitude o.remaining_quantity_lots + quantity_of os

unfoldable pub rests_at : ℤ → List Level → ℕ
rests_at price [] = 0
rests_at price ((p, os) ∷ ls) = (if eqb_ℤ p price then quantity_of os else 0) + rests_at price ls

-- Sums over queues and over the index.
module _ (f : RestingOrder → ℕ) where
  abbrev total : List RestingOrder → ℕ
  total [] = 0
  total (o ∷ os) = f o + total os

  unfoldable total_values : Dict RestingOrder → ℕ
  total_values [] = 0
  total_values ((id, o) ∷ d) = f o + total_values d

  total-append : (xs ys : List RestingOrder) → total (xs ++ ys) ≡ total xs + total ys
  total-append [] ys = omega arith
  total-append (x ∷ xs) ys = omega (arith, total-append xs ys)

  total_values-erase :
      (id : ℕ) (o : RestingOrder) (d : Dict RestingOrder)
      → lookup id d ≡ some o
      → total_values d ≡ f o + total_values (erase id d)
  unfolding total_values lookup erase
  total_values-erase id o [] h = absurd (cc)
  total_values-erase id o ((j, x) ∷ d) h = ground (arith, total_values-erase id o d)

  -- The index holds the queued orders, each once.
  total_values-Indexed :
      (active : Dict RestingOrder) (a b : List RestingOrder)
      → Indexed active a b
      → total_values active ≡ total a + total b
  unfolding total_values
  total_values-Indexed [] [] [] i = refl
  total_values-Indexed (x ∷ active) [] [] i = absurd (omega (arith, i.sized))
  total_values-Indexed active [] (o ∷ b) i =
      let rest =
        total_values-Indexed (erase o.order_id active) [] b
          (Indexed-swap (Indexed-drop (Indexed-swap i))) in
      omega (arith, rest, total_values-erase o.order_id o active i.second.0)
  total_values-Indexed active (o ∷ a) b i =
      let rest = total_values-Indexed (erase o.order_id active) a b (Indexed-drop i) in
      omega (arith, rest, total_values-erase o.order_id o active i.first.0)

-- What an order adds to a side at a price.
abbrev share : (ℕ → Bool) → ℤ → RestingOrder → ℕ
share on_side price o =
    if on_side o.side && eqb_ℤ o.price_ticks price then magnitude o.remaining_quantity_lots else 0

open_at-view :
    (on_side : ℕ → Bool) (price : ℤ) (d : Dict RestingOrder)
    → open_at on_side price (view d) ≡ total_values (share on_side price) d
unfolding open_at view total_values
open_at-view on_side price [] = refl
open_at-view on_side price ((id, o) ∷ d) = omega (arith, open_at-view on_side price d)

module _ (on_side : ℕ → Bool) (price : ℤ) (side : Side) (instrument : Option ℕ) where
  -- The orders of the side, which lie in levels of their price.
  module _ (mine : (n : ℕ) → decode_side n ≡ some side → on_side n ≡ true) where
    total_level :
        (p : ℤ) (os : List RestingOrder)
        → All (IsPlaced side instrument p) os
        → total (share on_side price) os ≡ (if eqb_ℤ p price then quantity_of os else 0)
    total_level p [] h = ground arith
    total_level p (o ∷ os) h =
        let here = mine o.side h.0.on_side in
        rw (here, h.0.at_price) (ground (arith, total_level p os h.1))

    total_side :
        (ls : List Level)
        → All (IsLevel side instrument) ls
        → total (share on_side price) (orders ls) ≡ rests_at price ls
    unfolding rests_at
    total_side [] h = refl
    total_side ((p, os) ∷ ls) h = omega (
      arith,
      total-append (share on_side price) os (orders ls),
      total_level p os h.0.placed,
      total_side ls h.1,
    )

  -- The orders of the other side add nothing.
  module _ (other : (n : ℕ) → decode_side n ≡ some side → on_side n ≡ false) where
    total_others :
        (p : ℤ) (os : List RestingOrder)
        → All (IsPlaced side instrument p) os
        → total (share on_side price) os ≡ 0
    total_others p [] h = refl
    total_others p (o ∷ os) h = rw (other o.side h.0.on_side) (omega (arith, total_others p os h.1))

    total_other_side :
        (ls : List Level)
        → All (IsLevel side instrument) ls
        → total (share on_side price) (orders ls) ≡ 0
    total_other_side [] h = refl
    total_other_side ((p, os) ∷ ls) h = omega (
      arith,
      total-append (share on_side price) os (orders ls),
      total_others p os h.0.placed,
      total_other_side ls h.1,
    )

-- The sides of the two encodings.
is_buy-buy : (n : ℕ) → decode_side n ≡ some buy → (is_buy n ≡ true) × (is_sell n ≡ false)
unfolding decode_side
is_buy-buy n h = ground arith

is_sell-sell : (n : ℕ) → decode_side n ≡ some sell → (is_sell n ≡ true) × (is_buy n ≡ false)
unfolding decode_side
is_sell-sell n h = ground arith

-- A public book shows the quantities that rest in a book at a price.
pub record Agrees (b : OrderBook) (v : PublicBookView) (price : ℤ) : Type 0 where
  pub bids : depth_at price v.bids ≡ rests_at price b.bids
  pub asks : depth_at price v.asks ≡ rests_at price b.asks

-- The open quantities of the active orders of a valid book are those of its levels.
open_at-rests_at :
    (b : OrderBook) (price : ℤ)
    → IsValid b
    → (open_at is_buy price (view b.active_orders) ≡ rests_at price b.bids)
      × (open_at is_sell price (view b.active_orders) ≡ rests_at price b.asks)
open_at-rests_at b price v =
    let i = b.instrument_id in
    let sums = λ (f : RestingOrder → ℕ).
      total_values-Indexed f b.active_orders (orders b.bids) (orders b.asks) v.indexed in
    (
      omega (
        arith,
        open_at-view is_buy price b.active_orders,
        sums (share is_buy price),
        total_side is_buy price buy i (λ n h. (is_buy-buy n h).0) b.bids v.bids_level,
        total_other_side is_buy price sell i (λ n h. (is_sell-sell n h).1) b.asks v.asks_level,
      ),
      omega (
        arith,
        open_at-view is_sell price b.active_orders,
        sums (share is_sell price),
        total_side is_sell price sell i (λ n h. (is_sell-sell n h).0) b.asks v.asks_level,
        total_other_side is_sell price buy i (λ n h. (is_buy-buy n h).1) b.bids v.bids_level,
      ),
    )

-- At every price, on each side of a book, less than 2 ^ 63 rests.
pub record FitsLevels (b : OrderBook) : Type 0 where
  pub bids : (price : ℤ) → rests_at price b.bids < 9223372036854775808
  pub asks : (price : ℤ) → rests_at price b.asks < 9223372036854775808

-- If no new order of a log of commands has id 0, and at every price, on each side of the book of a new
-- engine behind the log, less than 2 ^ 63 rests, then a new projection rejects none of the events of
-- the engine, numbered from 1, on the log, and behind them its public book shows at every price, on
-- each side, the quantity that rests in the book of the engine.
pub project-run :
    (cs : List OrderCommandRecord)
    → All IsOrderNamed cs
    → FitsLevels (run (new_engine 1) cs).1
    → AreTaken empty_projection (run (new_engine 1) cs).0
      × ((price : ℤ)
          → Agrees
              (run (new_engine 1) cs).1
              (project empty_projection (run (new_engine 1) cs).0).book
              price)
unfolding new_engine
project-run cs named fits =
    let valid = new_book-IsValid 1 in
    let start : Tracks (new_book 1) empty_projection =
      unfold new_book increment view lookup in
      record { next = refl; active = refl; named = refl } in
    let f = run-Follows (new_book 1) cs empty_projection valid named start in
    let b = (run (new_book 1) cs).1 in
    let rests = λ (price : ℤ). open_at-rests_at b price (run-IsValid (new_book 1) cs valid) in
    let bids = λ (price : ℤ). ap (open_at is_buy price) f.1.active ∙ (rests price).0 in
    let asks = λ (price : ℤ). ap (open_at is_sell price) f.1.active ∙ (rests price).1 in
    (
      f.0,
      λ price.
          let shown = project-ShowsDepth (run (new_book 1) cs).0 price (record {
            bids = λ x. omega (arith, bids x, fits.bids x);
            asks = λ x. omega (arith, asks x, fits.asks x);
          }) in
          record { bids = shown.bids ∙ bids price; asks = shown.asks ∙ asks price },
    )
