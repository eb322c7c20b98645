-- ===== src/OrderBook/Resting.antt =====
-- push_back on a price map (rest_order in order_book.cpp) keeps the levels well formed and adds
-- one order to the queue.
use fun_exch_macher.Common.{
  ℕ, ℤ, ◌≡◌, inl, inr, Bool, true, false, Bool-cases, Option, List, [], ◌∷◌, ◌++◌, All, All-append,
  length-append, arith,
}
use mathlib.Core.List.{append_assoc}
use fun_exch_macher.Common.Int.{eqb_ℤ, eqb_ℤ_iff, IsPositive}
use fun_exch_macher.Domain.{Side}
use fun_exch_macher.OrderBook.Types.{RestingOrder, Level, orders}
use fun_exch_macher.OrderBook.Levels.{push_back}
use fun_exch_macher.OrderBook.Reorder.{
  Reordered, Reordered-refl, Reordered-trans, Reordered-right, from_front,
}
use fun_exch_macher.OrderBook.Invariant.{IsPlaced, IsLevel, IsSorted}
use fun_exch_macher.OrderBook.Matching.{IsTransitive, Behind-trans}

-- Two prices, one of which is not before the other, and which differ.
abbrev pub IsTotal : (ℤ → ℤ → Bool) → Type 0
IsTotal before = (a b : ℤ) → eqb_ℤ a b ≡ false → before b a ≡ false → before a b ≡ true

module _ (before : ℤ → ℤ → Bool) (price : ℤ) (o : RestingOrder) where
  -- A property of the prices holds of the new level too.
  pub push_back-All :
      (Q : ℤ → Type 0) (ls : List Level)
      → Q price
      → All (λ l. Q l.0) ls
      → All (λ l. Q l.0) (push_back before price o ls)
  unfolding push_back
  push_back-All Q [] h k = (h, tt)
  push_back-All Q ((p, os) ∷ ls) h k = elim (Bool-cases (eqb_ℤ p price)) [
    | inl same ↦ rw same k
    | inr other ↦ elim (Bool-cases (before price p)) [
      | inl here ↦ rw (other, here) (h, k)
      | inr later ↦ rw (other, later) (k.0, push_back-All Q ls h k.1)
    ]
  ]

  pub push_back-IsSorted :
      IsTransitive before
      → IsTotal before
      → (ls : List Level) → IsSorted before ls
      → IsSorted before (push_back before price o ls)
  unfolding push_back
  push_back-IsSorted trans total [] s = (tt, tt)
  push_back-IsSorted trans total ((p, os) ∷ ls) s = elim (Bool-cases (eqb_ℤ p price)) [
    | inl same ↦ rw same s
    | inr other ↦ elim (Bool-cases (before price p)) [
      | inl here ↦ rw (other, here) ((here, Behind-trans before trans price p ls here s.0), s)
      | inr later ↦
          rw (other, later)
            (
              push_back-All (λ x. before p x ≡ true) ls (total p price other later) s.0,
              push_back-IsSorted trans total ls s.1,
            )
    ]
  ]

  pub push_back-IsLevel :
      (side : Side) (instrument : Option ℕ) (ls : List Level)
      → IsPositive price
      → IsPlaced side instrument price o
      → All (IsLevel side instrument) ls
      → All (IsLevel side instrument) (push_back before price o ls)
  unfolding push_back
  push_back-IsLevel side instrument [] h k levels =
      (record { price_positive = h; filled = omega arith; placed = (k, tt) }, tt)
  push_back-IsLevel side instrument ((p, os) ∷ ls) h k levels = elim (Bool-cases (eqb_ℤ p price)) [
    | inl same ↦ rw same (
      record {
        price_positive = levels.0.price_positive;
        filled = omega (arith, length-append os (o ∷ []));
        placed =
            All-append (IsPlaced side instrument p) os (o ∷ []) levels.0.placed
              (rw ((eqb_ℤ_iff p price).0 same) k, tt);
      },
      levels.1,
    )
    | inr other ↦ elim (Bool-cases (before price p)) [
      | inl here ↦
          rw (other, here)
            (record { price_positive = h; filled = omega arith; placed = (k, tt) }, levels)
      | inr later ↦ rw (other, later) (levels.0, push_back-IsLevel side instrument ls h k levels.1)
    ]
  ]

  pub push_back-Reordered :
      (ls : List Level) → Reordered (o ∷ orders ls) (orders (push_back before price o ls))
  unfolding push_back
  push_back-Reordered [] = Reordered-refl (o ∷ [])
  push_back-Reordered ((p, os) ∷ ls) = elim (Bool-cases (eqb_ℤ p price)) [
    | inl same ↦ rw (same, append_assoc) (from_front os (orders ls) o)
    | inr other ↦ elim (Bool-cases (before price p)) [
      | inl here ↦ rw (other, here) (Reordered-refl (o ∷ (os ++ orders ls)))
      | inr later ↦
          rw (other, later)
            (Reordered-trans (from_front os (orders ls) o)
              (Reordered-right os (push_back-Reordered ls)))
    ]
  ]
