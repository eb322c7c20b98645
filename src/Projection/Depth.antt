-- ===== src/Projection/Depth.antt =====
-- The public depth (market_data_projection.cpp): the quantities of a side of the public book by
-- price, against the active orders.
use fun_exch_macher.Common.{
  ℕ, ◌+◌, ℤ, pos, negsuc, ◌<◌, ◌≡◌, refl, ap, ◌∙◌, Bool, true, ◌&&◌, if◌then◌else◌, List, [], ◌∷◌,
  All, arith,
}
use fun_exch_macher.Common.Int.{
  ltb_ℤ, gtb_ℤ, eqb_ℤ, eqb_ℤ_iff, eqb_ℤ_self, add_int64, add_int64-exact, magnitude, IsPositive,
}
use fun_exch_macher.Common.Dict.{Dict}
use fun_exch_macher.Projection.{
  PublicPriceLevel, PublicBookView, OrderState, is_buy, is_sell, add_quantity, Rebuild,
  rebuild_step, rebuild_loop, visible, rebuild_book,
}

-- The quantity that levels show at a price.
unfoldable pub depth_at : ℤ → List PublicPriceLevel → ℕ
depth_at p [] = 0
depth_at p (l ∷ ls) =
    (if eqb_ℤ l.price_ticks p then magnitude l.quantity_lots else 0) + depth_at p ls

-- The open quantity of the orders of a side at a price.
unfoldable pub open_at : (ℕ → Bool) → ℤ → Dict OrderState → ℕ
open_at on_side p [] = 0
open_at on_side p ((id, o) ∷ m) =
    (if on_side o.side && eqb_ℤ o.price_ticks p then magnitude o.remaining_quantity_lots else 0)
    + open_at on_side p m

abbrev IsOpen : List PublicPriceLevel → Type 0
IsOpen ls = All (λ l. IsPositive l.quantity_lots) ls

-- What is added to 0, or to an open quantity, if the sum stays in the range.
opened : (q : ℤ) → IsPositive q → magnitude q < 9223372036854775808 → add_int64 (pos 0) q ≡ q
opened (pos n) h room = add_int64-exact 0 n (omega (arith, room)) ∙ ap pos (omega arith)
opened (negsuc n) h room = absurd h

added :
    (a q : ℤ)
    → IsPositive a
    → IsPositive q
    → magnitude a + magnitude q < 9223372036854775808
    → IsPositive (add_int64 a q) × (magnitude (add_int64 a q) ≡ magnitude a + magnitude q)
added (pos a) (pos q) h k room = rw (add_int64-exact a q room) (omega arith, refl)
added (pos a) (negsuc q) h k room = absurd k
added (negsuc a) q h k room = absurd h

module _ (before : ℤ → ℤ → Bool) (p q : ℤ) (h : IsPositive q) where
  add_quantity-IsOpen :
      (ls : List PublicPriceLevel)
      → IsOpen ls
      → magnitude q + depth_at p ls < 9223372036854775808
      → IsOpen (add_quantity before p q ls)
  unfolding add_quantity depth_at
  add_quantity-IsOpen [] k room = ground (arith, opened q h, h)
  add_quantity-IsOpen (l ∷ ls) k room =
      ground (arith, add_quantity-IsOpen ls, opened q h, h, k, added l.quantity_lots q k.0 h)

  add_quantity-depth :
      (x : ℤ) (ls : List PublicPriceLevel)
      → IsOpen ls
      → magnitude q + depth_at p ls < 9223372036854775808
      → depth_at x (add_quantity before p q ls)
        ≡ (if eqb_ℤ p x then magnitude q else 0) + depth_at x ls
  unfolding add_quantity depth_at
  add_quantity-depth x [] k room = ground (arith, opened q h)
  add_quantity-depth x (l ∷ ls) k room = ground (
    arith,
    add_quantity-depth x ls,
    eqb_ℤ_iff l.price_ticks p,
    opened q h,
    added l.quantity_lots q k.0 h,
  )

-- What an order adds to a side at a price.
abbrev share : (ℕ → Bool) → ℤ → OrderState → ℕ
share on_side x o =
    if on_side o.side && eqb_ℤ o.price_ticks x then magnitude o.remaining_quantity_lots else 0

-- The levels are open, and with the orders that are still to come they stay in the range.
record IsBuilt (r : Rebuild) (active : Dict OrderState) : Type 0 where
  bids : IsOpen r.bids
  asks : IsOpen r.asks
  bids_fit : (x : ℤ) → open_at is_buy x active + depth_at x r.bids < 9223372036854775808
  asks_fit : (x : ℤ) → open_at is_sell x active + depth_at x r.asks < 9223372036854775808

module _ (r : Rebuild) (id : ℕ) (o : OrderState) (m : Dict OrderState)
    (h : IsPositive o.remaining_quantity_lots) (b : IsBuilt r ((id, o) ∷ m)) where
  bids_room :
      is_buy o.side ≡ true
      → magnitude o.remaining_quantity_lots + depth_at o.price_ticks r.bids < 9223372036854775808
  bids_room e =
      let fit = b.bids_fit o.price_ticks in
      unfold open_at in omega (arith, rw (e, eqb_ℤ_self o.price_ticks) at fit)

  asks_room :
      is_sell o.side ≡ true
      → magnitude o.remaining_quantity_lots + depth_at o.price_ticks r.asks < 9223372036854775808
  asks_room e =
      let fit = b.asks_fit o.price_ticks in
      unfold open_at in omega (arith, rw (e, eqb_ℤ_self o.price_ticks) at fit)

  rebuild_step-bids :
      (x : ℤ) → depth_at x (rebuild_step r o).bids ≡ share is_buy x o + depth_at x r.bids
  unfolding rebuild_step
  rebuild_step-bids x = ground (
    arith,
    add_quantity-depth gtb_ℤ o.price_ticks o.remaining_quantity_lots h x r.bids b.bids,
    bids_room,
  )

  rebuild_step-asks :
      (x : ℤ) → depth_at x (rebuild_step r o).asks ≡ share is_sell x o + depth_at x r.asks
  unfolding rebuild_step
  rebuild_step-asks x = ground (
    arith,
    add_quantity-depth ltb_ℤ o.price_ticks o.remaining_quantity_lots h x r.asks b.asks,
    asks_room,
  )

  rebuild_step-IsBuilt : IsBuilt (rebuild_step r o) m
  unfolding rebuild_step
  rebuild_step-IsBuilt = record {
    bids = ground (
      arith,
      add_quantity-IsOpen gtb_ℤ o.price_ticks o.remaining_quantity_lots h r.bids b.bids,
      bids_room,
      b.bids,
    );
    asks = ground (
      arith,
      add_quantity-IsOpen ltb_ℤ o.price_ticks o.remaining_quantity_lots h r.asks b.asks,
      asks_room,
      b.asks,
    );
    bids_fit = λ x.
        let fit = b.bids_fit x in rw (rebuild_step-bids x) (unfold open_at in omega (arith, fit));
    asks_fit = λ x.
        let fit = b.asks_fit x in rw (rebuild_step-asks x) (unfold open_at in omega (arith, fit));
  }

-- Every active order has something open.
abbrev pub AreOpen : Dict OrderState → Type 0
AreOpen active = All (λ entry. IsPositive entry.1.remaining_quantity_lots) active

-- The loop over the orders.
record Builds (active : Dict OrderState) (r r' : Rebuild) (x : ℤ) : Type 0 where
  open_bids : IsOpen r'.bids
  open_asks : IsOpen r'.asks
  bids : depth_at x r'.bids ≡ open_at is_buy x active + depth_at x r.bids
  asks : depth_at x r'.asks ≡ open_at is_sell x active + depth_at x r.asks

rebuild_loop-Builds :
    (active : Dict OrderState) (r : Rebuild) (x : ℤ)
    → AreOpen active
    → IsBuilt r active
    → Builds active r (rebuild_loop active r) x
unfolding rebuild_loop open_at
rebuild_loop-Builds [] r x h b = record {
  open_bids = b.bids;
  open_asks = b.asks;
  bids = omega arith;
  asks = omega arith;
}
rebuild_loop-Builds ((id, o) ∷ m) r x h b =
    let k = rebuild_loop-Builds m (rebuild_step r o) x h.1 (rebuild_step-IsBuilt r id o m h.0 b) in
    record {
      open_bids = k.open_bids;
      open_asks = k.open_asks;
      bids = omega (arith, k.bids, rebuild_step-bids r id o m h.0 b x);
      asks = omega (arith, k.asks, rebuild_step-asks r id o m h.0 b x);
    }

visible_open : (ls : List PublicPriceLevel) → IsOpen ls → visible ls ≡ ls
unfolding visible
visible_open [] h = refl
visible_open (l ∷ ls) h = ground (arith, visible_open ls)

-- At every price, on each side, the open quantities sum up to less than 2 ^ 63.
pub record FitsDepth (active : Dict OrderState) : Type 0 where
  pub bids : (price : ℤ) → open_at is_buy price active < 9223372036854775808
  pub asks : (price : ℤ) → open_at is_sell price active < 9223372036854775808

-- What the two sides of a public book should show.
pub record ShowsDepth (active : Dict OrderState) (v : PublicBookView) (price : ℤ) : Type 0 where
  pub bids : depth_at price v.bids ≡ open_at is_buy price active
  pub asks : depth_at price v.asks ≡ open_at is_sell price active

-- If every active order has an open quantity, and at every price, on each side, they sum up to less
-- than 2 ^ 63, the rebuilt book shows these sums.
pub rebuild_book-ShowsDepth :
    (active : Dict OrderState) (price : ℤ)
    → AreOpen active
    → FitsDepth active
    → ShowsDepth active (rebuild_book active) price
unfolding rebuild_book depth_at
rebuild_book-ShowsDepth active price h fits =
    let k =
      rebuild_loop-Builds active (record { instrument_id = 0; bids = []; asks = [] }) price h
        (record {
          bids = tt;
          asks = tt;
          bids_fit = λ x. omega (arith, fits.bids x);
          asks_fit = λ x. omega (arith, fits.asks x);
        }) in
    record {
      bids = rw (visible_open _ k.open_bids) (omega (arith, k.bids));
      asks = rw (visible_open _ k.open_asks) (omega (arith, k.asks));
    }
