-- ===== src/OrderBook/Erasing.antt =====
-- erase_order_from_price_levels (order_book.cpp) takes one order out of the queue, and an emptied
-- level out of the map.
use fun_exch_macher.Common.{
  ℕ, ◌<◌, ℤ, ◌≡◌, refl, sym, subst, inl, inr, Bool, true, false, Bool-cases, ◌==◌, ==_iff, Option,
  List, [], ◌∷◌, ◌++◌, All, All-map, All-append, All-left, All-right, arith,
}
use fun_exch_macher.Common.Int.{eqb_ℤ, eqb_ℤ_iff, IsPositive}
use fun_exch_macher.Common.Dict.{Dict}
use fun_exch_macher.Domain.{Side}
use fun_exch_macher.OrderBook.Types.{RestingOrder, Level, orders}
use fun_exch_macher.OrderBook.Levels.{erase_order, erase_order_from_price_levels, keep_level}
use fun_exch_macher.OrderBook.Index.{count_id, count_id-append, IsIndexed}
use fun_exch_macher.OrderBook.Reorder.{
  Reordered, Reordered-refl, Reordered-trans, Reordered-left, Reordered-right, to_front,
}
use fun_exch_macher.OrderBook.Invariant.{IsPlaced, IsLevel, Behind, IsSorted}

module _ (active : Dict RestingOrder) (r : RestingOrder) (indexed : IsIndexed active r) where
  -- A queued order with the id of `r` is `r`.
  pub indexed_same : (o : RestingOrder) → IsIndexed active o → o.order_id ≡ r.order_id → o ≡ r
  indexed_same o h e = cc

  -- Where all orders have a property that `r` lacks, its id is not queued.
  pub not_queued :
      (Q : RestingOrder → Type 0)
      → ¬ Q r
      → (xs : List RestingOrder) → All (IsIndexed active) xs
      → All Q xs
      → count_id r.order_id xs ≡ 0
  unfolding count_id
  not_queued Q differs [] h k = refl
  not_queued Q differs (o ∷ xs) h k = elim (Bool-cases (o.order_id == r.order_id)) [
    | inl hit ↦ absurd (differs (subst Q (indexed_same o h.0 ((==_iff _ _).0 hit)) k.0))
    | inr miss ↦ rw miss (omega (arith, not_queued Q differs xs h.1 k.1))
  ]

  erase_order-Reordered :
      (xs : List RestingOrder)
      → 0 < count_id r.order_id xs
      → All (IsIndexed active) xs
      → Reordered xs (r ∷ erase_order r.order_id xs)
  unfolding erase_order count_id
  erase_order-Reordered [] h k = absurd (omega arith)
  erase_order-Reordered (o ∷ xs) h k = elim (Bool-cases (o.order_id == r.order_id)) [
    | inl hit ↦ rw hit (
        subst (λ x. Reordered (o ∷ xs) (x ∷ xs)) (indexed_same o k.0 ((==_iff _ _).0 hit))
          (Reordered-refl (o ∷ xs)))
    | inr miss ↦ rw miss (
        Reordered-trans (Reordered-right (o ∷ []) (erase_order-Reordered xs (ground arith) k.1))
          (to_front (o ∷ []) (erase_order r.order_id xs) r))
  ]

-- Erasing keeps what holds of all orders, and of all prices.
erase_order-All :
    (Q : RestingOrder → Type 0) (id : ℕ) (xs : List RestingOrder)
    → All Q xs
    → All Q (erase_order id xs)
unfolding erase_order
erase_order-All Q id [] h = tt
erase_order-All Q id (o ∷ xs) h = elim (Bool-cases (o.order_id == id)) [
  | inl hit ↦ rw hit h.1
  | inr miss ↦ rw miss (h.0, erase_order-All Q id xs h.1)
]

keep_level-All :
    (Q : ℤ → Type 0) (p : ℤ) (os : List RestingOrder) (ls : List Level)
    → Q p
    → All (λ l. Q l.0) ls
    → All (λ l. Q l.0) (keep_level p os ls)
keep_level-All Q p [] ls h k = k
keep_level-All Q p (o ∷ os) ls h k = (h, k)

module _ (r : RestingOrder) where
  pub erase_levels-All :
      (Q : ℤ → Type 0) (ls : List Level)
      → All (λ l. Q l.0) ls
      → All (λ l. Q l.0) (erase_order_from_price_levels r ls)
  unfolding erase_order_from_price_levels
  erase_levels-All Q [] h = tt
  erase_levels-All Q ((p, os) ∷ ls) h = elim (Bool-cases (eqb_ℤ p r.price_ticks)) [
    | inl same ↦ rw same (keep_level-All Q p (erase_order r.order_id os) ls h.0 h.1)
    | inr other ↦ rw other (h.0, erase_levels-All Q ls h.1)
  ]

  keep_level-IsSorted :
      (before : ℤ → ℤ → Bool) (p : ℤ) (os : List RestingOrder) (ls : List Level)
      → Behind before p ls
      → IsSorted before ls
      → IsSorted before (keep_level p os ls)
  keep_level-IsSorted before p [] ls h s = s
  keep_level-IsSorted before p (o ∷ os) ls h s = (h, s)

  pub erase_levels-IsSorted :
      (before : ℤ → ℤ → Bool) (ls : List Level)
      → IsSorted before ls
      → IsSorted before (erase_order_from_price_levels r ls)
  unfolding erase_order_from_price_levels
  erase_levels-IsSorted before [] s = tt
  erase_levels-IsSorted before ((p, os) ∷ ls) s = elim (Bool-cases (eqb_ℤ p r.price_ticks)) [
    | inl same ↦ rw same (keep_level-IsSorted before p (erase_order r.order_id os) ls s.0 s.1)
    | inr other ↦
        rw other
          (erase_levels-All (λ x. before p x ≡ true) ls s.0, erase_levels-IsSorted before ls s.1)
  ]

  keep_level-IsLevel :
      (side : Side) (instrument : Option ℕ) (p : ℤ) (os : List RestingOrder) (ls : List Level)
      → IsPositive p
      → All (IsPlaced side instrument p) os
      → All (IsLevel side instrument) ls
      → All (IsLevel side instrument) (keep_level p os ls)
  keep_level-IsLevel side instrument p [] ls h k levels = levels
  keep_level-IsLevel side instrument p (o ∷ os) ls h k levels =
      (record { price_positive = h; filled = omega arith; placed = k }, levels)

  pub erase_levels-IsLevel :
      (side : Side) (instrument : Option ℕ) (ls : List Level)
      → All (IsLevel side instrument) ls
      → All (IsLevel side instrument) (erase_order_from_price_levels r ls)
  unfolding erase_order_from_price_levels
  erase_levels-IsLevel side instrument [] h = tt
  erase_levels-IsLevel side instrument ((p, os) ∷ ls) h =
      elim (Bool-cases (eqb_ℤ p r.price_ticks)) [
        | inl same ↦ rw same (
            keep_level-IsLevel side instrument p (erase_order r.order_id os) ls h.0.price_positive
              (erase_order-All (IsPlaced side instrument p) r.order_id os h.0.placed) h.1)
        | inr other ↦ rw other (h.0, erase_levels-IsLevel side instrument ls h.1)
      ]

-- The orders behind a price have later prices.
pub later_prices :
    (before : ℤ → ℤ → Bool) (side : Side) (instrument : Option ℕ) (p : ℤ) (ls : List Level)
    → Behind before p ls
    → All (IsLevel side instrument) ls
    → All (λ o. before p o.price_ticks ≡ true) (orders ls)
later_prices before side instrument p [] h levels = tt
later_prices before side instrument p ((x, os) ∷ ls) h levels =
    All-append (λ o. before p o.price_ticks ≡ true) os (orders ls)
      (All-map (IsPlaced side instrument x) (λ o. before p o.price_ticks ≡ true)
        (λ o k. rw k.at_price h.0) os levels.0.placed)
      (later_prices before side instrument p ls h.1 levels.1)

pub orders-keep_level :
    (p : ℤ) (os : List RestingOrder) (ls : List Level)
    → orders (keep_level p os ls) ≡ os ++ orders ls
orders-keep_level p [] ls = refl
orders-keep_level p (o ∷ os) ls = refl

module _ (active : Dict RestingOrder) (r : RestingOrder) (indexed : IsIndexed active r)
    (before : ℤ → ℤ → Bool) (irrefl : (a : ℤ) → before a a ≡ false) (side : Side)
    (instrument : Option ℕ) where
  -- The queued order that the index gives leaves the queue, and no other does.
  pub erase_levels-Reordered :
      (ls : List Level)
      → 0 < count_id r.order_id (orders ls)
      → All (IsIndexed active) (orders ls)
      → All (IsLevel side instrument) ls
      → IsSorted before ls
      → Reordered (orders ls) (r ∷ orders (erase_order_from_price_levels r ls))
  unfolding erase_order_from_price_levels
  erase_levels-Reordered [] n i h s = absurd (unfold count_id in omega arith)
  erase_levels-Reordered ((p, os) ∷ ls) n i h s =
      let left = All-left (IsIndexed active) os (orders ls) i in
      let right = All-right (IsIndexed active) os (orders ls) i in
      let split = count_id-append r.order_id os (orders ls) in
      elim (Bool-cases (eqb_ℤ p r.price_ticks)) [
        | inl same ↦
            let at : p ≡ r.price_ticks = (eqb_ℤ_iff p r.price_ticks).0 same in
            let later : count_id r.order_id (orders ls) ≡ 0 =
              not_queued active r indexed (λ o. before p o.price_ticks ≡ true)
                (λ e. cc (irrefl p, subst (λ x. before p x ≡ true) (sym at) e)) (orders ls) right
                (later_prices before side instrument p ls s.0 h.1) in
            rw (same, orders-keep_level p (erase_order r.order_id os) ls)
              (Reordered-left (orders ls)
                (erase_order-Reordered active r indexed os (omega arith) left))
        | inr other ↦
            let here : count_id r.order_id os ≡ 0 =
              not_queued active r indexed (λ o. o.price_ticks ≡ p)
                (λ e. cc ((eqb_ℤ_iff p r.price_ticks).1 (sym e))) os left
                (All-map (IsPlaced side instrument p) (λ o. o.price_ticks ≡ p) (λ o k. k.at_price)
                  os h.0.placed) in
            rw other (
              Reordered-trans
                (Reordered-right os (erase_levels-Reordered ls (omega arith) right h.1 s.1))
                (to_front os (orders (erase_order_from_price_levels r ls)) r))
      ]
