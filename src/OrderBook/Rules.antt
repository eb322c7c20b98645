-- ===== src/OrderBook/Rules.antt =====
-- Induction along the two matching loops of order_book.cpp: a statement about what a loop leaves
-- is shown for each way in which a pass can go.
use fun_exch_macher.Common.{
  ℤ, pos, ◌≡◌, refl, ◌⊎◌, inl, inr, Bool, true, false, Bool-cases, List, [], ◌∷◌,
}
use fun_exch_macher.Common.Int.{ltb_ℤ, eqb_ℤ}
use fun_exch_macher.Common.Dict.{erase}
use fun_exch_macher.Domain.{OrderCommandRecord}
use fun_exch_macher.OrderBook.Types.{OrderBook, RestingOrder, Level}
use fun_exch_macher.OrderBook.Match.{Fill, trade, match_level, match_levels, after_level}

-- The book after an order has left its level.
unfoldable pub popped : OrderCommandRecord → ℤ → ℤ → RestingOrder → OrderBook → OrderBook
popped c p q o b =
    let t = trade c p q o b in
    record (t.book) { active_orders = erase o.order_id t.book.active_orders }

module _ {ℓ} (c : OrderCommandRecord) (p : ℤ)
    (P : ℤ → List RestingOrder → OrderBook → Fill RestingOrder → Type ℓ) where
  pub match_level_rule :
      ((q : ℤ) (os : List RestingOrder) (b : OrderBook)
        → (os ≡ []) ⊎ (ltb_ℤ (pos 0) q ≡ false)
        → P q os b (record { remaining = q; rest = os; events = []; book = b }))
      → ((q : ℤ) (o : RestingOrder) (os : List RestingOrder) (b : OrderBook)
          → ltb_ℤ (pos 0) q ≡ true
          → eqb_ℤ (trade c p q o b).order.remaining_quantity_lots (pos 0) ≡ false
          → P q (o ∷ os) b (record {
            remaining = (trade c p q o b).remaining;
            rest = (trade c p q o b).order ∷ os;
            events = (trade c p q o b).event ∷ [];
            book = (trade c p q o b).book;
          }))
      → ((q : ℤ) (o : RestingOrder) (os : List RestingOrder) (b : OrderBook) (f : Fill RestingOrder)
          → ltb_ℤ (pos 0) q ≡ true
          → eqb_ℤ (trade c p q o b).order.remaining_quantity_lots (pos 0) ≡ true
          → P (trade c p q o b).remaining os (popped c p q o b) f
          → P q (o ∷ os) b (record f { events = (trade c p q o b).event ∷ f.events }))
      → (q : ℤ) (os : List RestingOrder) (b : OrderBook) → P q os b (match_level c p q os b)
  unfolding match_level popped
  match_level_rule stop leave fill q [] b = stop q [] b (inl refl)
  match_level_rule stop leave fill q (o ∷ os) b =
      let t = trade c p q o b in
      let b' = record (t.book) { active_orders = erase o.order_id t.book.active_orders } in
      let ih = match_level_rule stop leave fill t.remaining os b' in
      elim (Bool-cases (ltb_ℤ (pos 0) q)) [
        | inl more ↦ elim (Bool-cases (eqb_ℤ (t.order.remaining_quantity_lots) (pos 0))) [
          | inl gone ↦
              rw (more, gone) (fill q o os b (match_level c p t.remaining os b') more gone ih)
          | inr left ↦ rw (more, left) (leave q o os b more left)
        ]
        | inr done ↦ rw done (stop q (o ∷ os) b (inr done))
      ]

module _ {ℓ} (before : ℤ → ℤ → Bool) (c : OrderCommandRecord)
    (P : ℤ → List Level → OrderBook → Fill Level → Type ℓ) where
  pub match_levels_rule :
      ((q : ℤ) (b : OrderBook)
        → P q [] b (record { remaining = q; rest = []; events = []; book = b }))
      → ((q : ℤ) (p : ℤ) (os : List RestingOrder) (ls : List Level) (b : OrderBook)
          → (ltb_ℤ (pos 0) q ≡ false) ⊎ (before c.price_ticks p ≡ true)
          → P q
              ((p, os) ∷ ls)
              b
              (record { remaining = q; rest = (p, os) ∷ ls; events = []; book = b }))
      → ((q : ℤ) (p : ℤ) (os : List RestingOrder) (ls : List Level) (b : OrderBook) (g : Fill Level)
          → ltb_ℤ (pos 0) q ≡ true
          → before c.price_ticks p ≡ false
          → P (match_level c p q os b).remaining ls (match_level c p q os b).book g
          → P q ((p, os) ∷ ls) b (after_level p (match_level c p q os b) ls g))
      → (q : ℤ) (ls : List Level) (b : OrderBook) → P q ls b (match_levels before c q ls b)
  unfolding match_levels
  match_levels_rule end stop go q [] b = end q b
  match_levels_rule end stop go q ((p, os) ∷ ls) b =
      let f = match_level c p q os b in
      let ih = match_levels_rule end stop go f.remaining ls f.book in
      elim (Bool-cases (ltb_ℤ (pos 0) q)) [
        | inl more ↦ elim (Bool-cases (before c.price_ticks p)) [
          | inl worse ↦ rw (more, worse) (stop q p os ls b (inr worse))
          | inr good ↦
              rw (more, good)
                (go q p os ls b (match_levels before c f.remaining ls f.book) more good ih)
        ]
        | inr done ↦ rw done (stop q p os ls b (inl done))
      ]
