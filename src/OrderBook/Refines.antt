-- ===== src/OrderBook/Refines.antt =====
-- The nested loops of order_book.cpp do what the flat queue of OrderBook/Priority says.
use fun_exch_macher.Common.{
  ℕ, ◌-◌, ℤ, pos, Bool, true, false, ◌≡◌, refl, sym, ap, ◌∙◌, ◌⊎◌, Bool-cases, inl, inr, Option,
  List, [], ◌∷◌, ◌++◌, map, All, All-map, All-append, arith,
}
use mathlib.Core.List.{append_assoc, map-append, append-nil}
use fun_exch_macher.Common.Int.{ltb_ℤ, magnitude}
use fun_exch_macher.Domain.{OrderCommandRecord, Side}
use fun_exch_macher.OrderBook.Types.{OrderBook, RestingOrder, Level, orders}
use fun_exch_macher.OrderBook.Match.{Fill, match_level, match_levels, after_level}
use fun_exch_macher.OrderBook.Invariant.{IsPlaced, IsLevel, Behind, IsSorted}
use fun_exch_macher.OrderBook.Trading.{IsNatural}
use fun_exch_macher.OrderBook.Rules.{match_levels_rule}
use fun_exch_macher.OrderBook.Matching.{natural_end, IsTransitive, Behind-trans}
use fun_exch_macher.OrderBook.Priority.{
  take_of, total, takes, leftover, within, beyond, takes_zero, leftover_zero, leftover_ended,
  total-append, takes-append, leftover-append,
}
use fun_exch_macher.OrderBook.LevelRefines.{Consumes, match_level-Consumes}

-- The queue of a sorted side, split at a limit.
module _ (before : ℤ → ℤ → Bool) (limit : ℤ) where
  within-append :
      (xs ys : List RestingOrder)
      → within before limit (xs ++ ys) ≡ within before limit xs ++ within before limit ys
  unfolding within
  within-append [] ys = refl
  within-append (o ∷ xs) ys = ground (arith, within-append xs ys)

  beyond-append :
      (xs ys : List RestingOrder)
      → beyond before limit (xs ++ ys) ≡ beyond before limit xs ++ beyond before limit ys
  unfolding beyond
  beyond-append [] ys = refl
  beyond-append (o ∷ xs) ys = ground (arith, beyond-append xs ys)

  All-within :
      (os : List RestingOrder)
      → All (λ o. before limit o.price_ticks ≡ false) os
      → (within before limit os ≡ os) × (beyond before limit os ≡ [])
  unfolding within beyond
  All-within [] h = (refl, refl)
  All-within (o ∷ os) h = ground (arith, All-within os h.1, h.0)

  All-beyond :
      (os : List RestingOrder)
      → All (λ o. before limit o.price_ticks ≡ true) os
      → (within before limit os ≡ []) × (beyond before limit os ≡ os)
  unfolding within beyond
  All-beyond [] h = (refl, refl)
  All-beyond (o ∷ os) h = ground (arith, All-beyond os h.1, h.0)

  module _ (trans : IsTransitive before) (side : Side) (instrument : Option ℕ) where
    later_beyond :
        (ls : List Level)
        → Behind before limit ls
        → All (IsLevel side instrument) ls
        → All (λ o. before limit o.price_ticks ≡ true) (orders ls)
    later_beyond [] h levels = tt
    later_beyond ((p, os) ∷ ls) h levels =
        All-append (λ o. before limit o.price_ticks ≡ true) os (orders ls)
          (All-map (IsPlaced side instrument p) (λ o. before limit o.price_ticks ≡ true)
            (λ o k. rw k.at_price h.0) os levels.0.placed)
          (later_beyond ls h.1 levels.1)

    -- In a sorted side the orders within the limit come first.
    pub within-append-beyond :
        (ls : List Level)
        → IsSorted before ls
        → All (IsLevel side instrument) ls
        → within before limit (orders ls) ++ beyond before limit (orders ls) ≡ orders ls
    within-append-beyond [] s levels = unfold within beyond in refl
    within-append-beyond ((p, os) ∷ ls) s levels = elim (Bool-cases (before limit p)) [
      | inl past ↦
          let split = All-beyond (os ++ orders ls) (
            later_beyond ((p, os) ∷ ls) (past, Behind-trans before trans limit p ls past s.0)
              levels) in
          rw (split.0, split.1)
      | inr good ↦
          let split = All-within os (
            All-map (IsPlaced side instrument p) (λ o. before limit o.price_ticks ≡ false)
              (λ o k. rw k.at_price good) os levels.0.placed) in
          rw (
            within-append os (orders ls),
            beyond-append os (orders ls),
            split.0,
            split.1,
            append_assoc,
            within-append-beyond ls s.1 levels.1,
          )
    ]

module _ (before : ℤ → ℤ → Bool) (trans : IsTransitive before) (c : OrderCommandRecord)
    (side : Side) (instrument : Option ℕ) where
  abbrev reached : List Level → List RestingOrder
  reached ls = within before c.price_ticks (orders ls)

  abbrev unreached : List Level → List RestingOrder
  unreached ls = beyond before c.price_ticks (orders ls)

  -- What the outer loop should leave of a side.
  pub record SideConsumes (q : ℤ) (ls : List Level) (f : Fill Level) : Type 0 where
    pub events_are : map take_of f.events ≡ takes (magnitude q) (reached ls)
    pub rest_is : orders f.rest ≡ leftover (magnitude q) (reached ls) ++ unreached ls
    pub remaining_is : f.remaining ≡ pos (magnitude q - total (reached ls))

  abbrev SideGoal : ℤ → List Level → OrderBook → Fill Level → Type 0
  SideGoal q ls b f =
      IsNatural q → All (IsLevel side instrument) ls → IsSorted before ls → SideConsumes q ls f

  side_stop :
      (q : ℤ) (p : ℤ) (os : List RestingOrder) (ls : List Level) (b : OrderBook)
      → (ltb_ℤ (pos 0) q ≡ false) ⊎ (before c.price_ticks p ≡ true)
      → SideGoal q
          ((p, os) ∷ ls)
          b
          (record { remaining = q; rest = (p, os) ∷ ls; events = []; book = b })
  side_stop q p os ls b (inl done) n h s =
      let zero_left = natural_end q n done in
      rw zero_left (record {
        events_are = sym (takes_zero (reached ((p, os) ∷ ls)));
        rest_is = sym (
            ap (λ x. x ++ unreached ((p, os) ∷ ls)) (leftover_zero (reached ((p, os) ∷ ls)))
            ∙ within-append-beyond before c.price_ticks trans side instrument ((p, os) ∷ ls) s h);
        remaining_is = ap pos (omega arith);
      })
  side_stop q p os ls b (inr past) n h s =
      let split = All-beyond before c.price_ticks (os ++ orders ls) (
        later_beyond before c.price_ticks trans side instrument ((p, os) ∷ ls)
          (past, Behind-trans before trans c.price_ticks p ls past s.0) h) in
      record {
        events_are = rw split.0 (unfold takes in refl);
        rest_is = rw (split.0, split.1) (unfold leftover in refl);
        remaining_is = rw split.0 (n ∙ ap pos (unfold total in omega arith));
      }

  -- The level's own share of the queue.
  module _ (p : ℤ) (os : List RestingOrder) (ls : List Level)
      (good : before c.price_ticks p ≡ false) (h : All (IsPlaced side instrument p) os) where
    level_within : (within before c.price_ticks os ≡ os) × (beyond before c.price_ticks os ≡ [])
    level_within = All-within before c.price_ticks os (
        All-map (IsPlaced side instrument p) (λ o. before c.price_ticks o.price_ticks ≡ false)
          (λ o k. rw k.at_price good) os h)

    reached-cons : reached ((p, os) ∷ ls) ≡ os ++ reached ls
    reached-cons = rw (within-append before c.price_ticks os (orders ls), level_within.0)

    unreached-cons : unreached ((p, os) ∷ ls) ≡ unreached ls
    unreached-cons = rw (beyond-append before c.price_ticks os (orders ls), level_within.1)

    -- In the loop's two cases: the level is gone, or orders are left in it.
    side_go :
        (q : ℤ) (f : Fill RestingOrder) (g : Fill Level) (rest : List RestingOrder)
        → f.rest ≡ rest
        → (f.rest ≡ []) ⊎ (f.remaining ≡ pos 0)
        → All (IsLevel side instrument) ls
        → IsSorted before ls
        → Consumes q os (map take_of f.events) f.rest f.remaining
        → SideConsumes f.remaining ls g
        → SideConsumes q ((p, os) ∷ ls) (after_level p f ls g)
    side_go q f g [] e ended levels s k w =
        let m : magnitude f.remaining ≡ magnitude q - total os = ap magnitude k.remaining_is in
        rw e (record {
          events_are = rw (
            reached-cons,
            takes-append (magnitude q) os (reached ls),
            map-append take_of f.events g.events,
            k.events_are,
            w.events_are,
            m,
          );
          rest_is = rw (
            reached-cons,
            unreached-cons,
            leftover-append (magnitude q) os (reached ls),
            sym k.rest_is,
            e,
            w.rest_is,
            m,
          );
          remaining_is =
              rw (reached-cons, total-append os (reached ls), w.remaining_is, m)
                (ap pos (omega arith));
        })
    side_go q f g (o ∷ rest) e ended levels s k w =
        let zero_left : f.remaining ≡ pos 0 = elim ended [ inl empty ↦ absurd (cc) | inr z ↦ z ] in
        let m : magnitude q - total os ≡ 0 =
          sym (ap magnitude k.remaining_is) ∙ ap magnitude zero_left in
        rw e (record {
          events_are = rw (
            reached-cons,
            takes-append (magnitude q) os (reached ls),
            k.events_are,
            m,
            takes_zero (reached ls),
            append-nil,
          );
          rest_is =
              rw
                (
                  reached-cons,
                  unreached-cons,
                  leftover-append (magnitude q) os (reached ls),
                  sym k.rest_is,
                  e,
                  m,
                  leftover_zero (reached ls),
                )
                (ap (λ x. o ∷ x)
                  (sym (
                    append_assoc rest (reached ls) (unreached ls)
                    ∙ ap (λ x. rest ++ x)
                        (within-append-beyond before c.price_ticks trans side instrument ls s
                          levels))));
          remaining_is =
              rw (reached-cons, total-append os (reached ls), zero_left)
                (ap pos (omega (arith, m)));
        })

  consumed_ended :
      (q : ℤ) (os : List RestingOrder) (f : Fill RestingOrder)
      → Consumes q os (map take_of f.events) f.rest f.remaining
      → (f.rest ≡ []) ⊎ (f.remaining ≡ pos 0)
  consumed_ended q os f k = elim (leftover_ended (magnitude q) os) [
    | inl empty ↦ inl (k.rest_is ∙ empty)
    | inr given ↦ inr (k.remaining_is ∙ ap pos given)
  ]

  -- The trades are those of the flat queue of the orders within the limit, each at its own
  -- price; that queue is left as they leave it and the rest of the side as it was; and what is
  -- not filled is what the queue could not give.
  pub match_levels-SideConsumes :
      (q : ℤ) (ls : List Level) (b : OrderBook) → SideGoal q ls b (match_levels before c q ls b)
  match_levels-SideConsumes =
      match_levels_rule before c SideGoal
        (λ q b n h s. record {
          events_are = unfold within takes in refl;
          rest_is = unfold within leftover beyond in refl;
          remaining_is = n ∙ ap pos (unfold within total in omega arith);
        })
        (λ q p os ls b done n h s. side_stop q p os ls b done n h s)
        (λ q p os ls b g more good ih n h s.
          let f = match_level c p q os b in
          let k = match_level-Consumes c side instrument p q os b n h.0.placed in
          side_go p os ls good h.0.placed q f g f.rest refl (consumed_ended q os f k) h.1 s.1 k
            (ih (rw k.remaining_is) h.1 s.1))
