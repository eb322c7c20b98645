-- ===== src/OrderBook/Matching.antt =====
-- The matching loops keep a side well formed and the index in step with it, and end with the
-- quantity used up, the side consumed, or the price limit reached.
use fun_exch_macher.Common.{
  ℕ, ◌≤◌, ℤ, pos, ◌≡◌, refl, subst, ◌∙◌, ◌⊎◌, inl, inr, Bool, true, false, Option, List, [], ◌∷◌,
  ◌++◌, All, arith,
}
use fun_exch_macher.Common.Int.{ltb_ℤ, IsPositive, IsPositive-iff}
use fun_exch_macher.Domain.{OrderCommandRecord, Side}
use fun_exch_macher.OrderBook.Types.{OrderBook, RestingOrder, Level, orders}
use fun_exch_macher.OrderBook.Emit.{emit_trade_event, emit_order_event}
use fun_exch_macher.OrderBook.Match.{Fill, trade, match_level, match_levels, after_level}
use fun_exch_macher.OrderBook.Index.{
  count_id, count_id-append, Indexed, Indexed-pop, Indexed-update,
}
use fun_exch_macher.OrderBook.Invariant.{IsPlaced, IsLevel, Behind, IsSorted}
use fun_exch_macher.OrderBook.Trading.{IsNatural, trade-fills, trade-leaves}
use fun_exch_macher.OrderBook.Rules.{popped, match_level_rule, match_levels_rule}

-- What matching leaves alone in the book.
pub record IsFramed (b b' : OrderBook) : Type 0 where
  pub instrument_id : b'.instrument_id ≡ b.instrument_id
  pub bids : b'.bids ≡ b.bids
  pub asks : b'.asks ≡ b.asks

module _ (c : OrderCommandRecord) (p q : ℤ) (o : RestingOrder) (b : OrderBook) where
  pub trade-IsFramed : IsFramed b (trade c p q o b).book
  unfolding trade emit_trade_event emit_order_event
  trade-IsFramed = record { instrument_id = refl; bids = refl; asks = refl }

  pub popped-IsFramed : IsFramed b (popped c p q o b)
  unfolding popped trade emit_trade_event emit_order_event
  popped-IsFramed = record { instrument_id = refl; bids = refl; asks = refl }

  -- The front order after its trade, and its index entry.
  module _ {tail other : List RestingOrder} (i : Indexed b.active_orders (o ∷ tail) other) where
    pub popped-Indexed : Indexed (popped c p q o b).active_orders tail other
    unfolding popped trade emit_trade_event emit_order_event
    popped-Indexed = Indexed-pop i (trade c p q o b).order

    pub trade-Indexed :
        Indexed (trade c p q o b).book.active_orders ((trade c p q o b).order ∷ tail) other
    unfolding trade emit_trade_event emit_order_event
    trade-Indexed = Indexed-update i (trade c p q o b).order refl

  pub trade-count_id :
      (id : ℕ) (os : List RestingOrder)
      → count_id id ((trade c p q o b).order ∷ os) ≤ count_id id (o ∷ os)
  unfolding trade count_id
  trade-count_id id os = omega arith

  pub trade-IsPlaced :
      {side : Side} {instrument : Option ℕ}
      → IsPlaced side instrument p o
      → IsPositive (trade c p q o b).order.remaining_quantity_lots
      → IsPlaced side instrument p (trade c p q o b).order
  unfolding trade
  trade-IsPlaced h left = record {
    on_side = h.on_side;
    at_price = h.at_price;
    open_quantity = left;
    of_instrument = h.of_instrument;
  }

count_id-tail :
    (id : ℕ) (o : RestingOrder) (os : List RestingOrder) → count_id id os ≤ count_id id (o ∷ os)
unfolding count_id
count_id-tail id o os = omega arith

pub natural_end : (q : ℤ) → IsNatural q → ltb_ℤ (pos 0) q ≡ false → q ≡ pos 0
natural_end q n h = ground arith

pub IsFramed-trans : {a b d : OrderBook} → IsFramed a b → IsFramed b d → IsFramed a d
IsFramed-trans f g = record {
  instrument_id = g.instrument_id ∙ f.instrument_id;
  bids = g.bids ∙ f.bids;
  asks = g.asks ∙ f.asks;
}

module _ (c : OrderCommandRecord) (side : Side) (instrument : Option ℕ)
    (other : List RestingOrder) where
  -- `tail` holds the orders behind the level.
  pub record LevelKept (p : ℤ) (tail os : List RestingOrder) (b : OrderBook) (f : Fill RestingOrder)
      : Type 0 where
    pub placed : All (IsPlaced side instrument p) f.rest
    pub indexed : Indexed f.book.active_orders (f.rest ++ tail) other
    pub natural : IsNatural f.remaining
    pub ended : (f.rest ≡ []) ⊎ (f.remaining ≡ pos 0)
    pub framed : IsFramed b f.book
    pub fewer : (id : ℕ) → count_id id f.rest ≤ count_id id os

  abbrev LevelGoal :
      ℤ → List RestingOrder → ℤ → List RestingOrder → OrderBook → Fill RestingOrder → Type 0
  LevelGoal p tail q os b f =
      IsNatural q
      → All (IsPlaced side instrument p) os
      → Indexed b.active_orders (os ++ tail) other
      → LevelKept p tail os b f

  pub match_level-LevelKept :
      (p : ℤ) (tail : List RestingOrder) (q : ℤ) (os : List RestingOrder) (b : OrderBook)
      → LevelGoal p tail q os b (match_level c p q os b)
  match_level-LevelKept p tail =
      match_level_rule c p (LevelGoal p tail)
        (λ q os b done n h i. record {
          placed = h;
          indexed = i;
          natural = n;
          ended = elim done [ inl e ↦ inl e | inr e ↦ inr (natural_end q n e) ];
          framed = record { instrument_id = refl; bids = refl; asks = refl };
          fewer = λ id. omega arith;
        })
        (λ q o os b more left n h i.
          let t = trade-leaves c p q o b ((IsPositive-iff q).0 more) h.0.open_quantity left in
          record {
            placed = (trade-IsPlaced c p q o b h.0 t.1, h.1);
            indexed = trade-Indexed c p q o b i;
            natural = ground arith;
            ended = inr t.0;
            framed = trade-IsFramed c p q o b;
            fewer = λ id. trade-count_id c p q o b id os;
          })
        (λ q o os b f more gone ih n h i.
          let t = trade-fills c p q o b ((IsPositive-iff q).0 more) h.0.open_quantity gone in
          let k = ih t.0 h.1 (popped-Indexed c p q o b i) in
          record {
            placed = k.placed;
            indexed = k.indexed;
            natural = k.natural;
            ended = k.ended;
            framed = IsFramed-trans (popped-IsFramed c p q o b) k.framed;
            fewer = λ id. omega (arith, k.fewer id, count_id-tail id o os);
          })

-- The order of a price map is transitive.
abbrev pub IsTransitive : (ℤ → ℤ → Bool) → Type 0
IsTransitive before = (a b d : ℤ) → before a b ≡ true → before b d ≡ true → before a d ≡ true

pub Behind-trans :
    (before : ℤ → ℤ → Bool)
    → IsTransitive before
    → (x p : ℤ) (ls : List Level) → before x p ≡ true
    → Behind before p ls
    → Behind before x ls
Behind-trans before trans x p [] h s = tt
Behind-trans before trans x p (l ∷ ls) h s =
    (trans x p l.0 h s.0, Behind-trans before trans x p ls h s.1)

module _ (before : ℤ → ℤ → Bool) (trans : IsTransitive before) (c : OrderCommandRecord)
    (side : Side) (instrument : Option ℕ) (other : List RestingOrder) where
  pub record SideKept (ls : List Level) (b : OrderBook) (f : Fill Level) : Type 0 where
    pub levels : All (IsLevel side instrument) f.rest
    pub sorted : IsSorted before f.rest
    pub behind : (r : ℤ → ℤ → Bool) (x : ℤ) → Behind r x ls → Behind r x f.rest
    pub apart :
        (r : ℤ → ℤ → Bool) (ys : List Level)
        → All (λ l. Behind r l.0 ys) ls
        → All (λ l. Behind r l.0 ys) f.rest
    pub indexed : Indexed f.book.active_orders (orders f.rest) other
    pub natural : IsNatural f.remaining
    pub ended : (f.remaining ≡ pos 0) ⊎ Behind before c.price_ticks f.rest
    pub framed : IsFramed b f.book
    pub fewer : (id : ℕ) → count_id id (orders f.rest) ≤ count_id id (orders ls)

  abbrev SideGoal : ℤ → List Level → OrderBook → Fill Level → Type 0
  SideGoal q ls b f =
      IsNatural q
      → All (IsLevel side instrument) ls
      → IsSorted before ls
      → Indexed b.active_orders (orders ls) other
      → SideKept ls b f

  stopped :
      (q : ℤ) (ls : List Level) (b : OrderBook)
      → (ltb_ℤ (pos 0) q ≡ false) ⊎ Behind before c.price_ticks ls
      → SideGoal q ls b (record { remaining = q; rest = ls; events = []; book = b })
  stopped q ls b done n h s i = record {
    levels = h;
    sorted = s;
    behind = λ r x k. k;
    apart = λ r ys k. k;
    indexed = i;
    natural = n;
    ended = elim done [ inl e ↦ inl (natural_end q n e) | inr e ↦ inr e ];
    framed = record { instrument_id = refl; bids = refl; asks = refl };
    fewer = λ id. omega arith;
  }

  -- One level, as the inner loop leaves it, in front of what the outer loop makes of the rest.
  after_level-SideKept :
      (p : ℤ) (os : List RestingOrder) (ls : List Level) (b : OrderBook) (f : Fill RestingOrder)
      (g : Fill Level) (rest : List RestingOrder)
      → f.rest ≡ rest
      → IsLevel side instrument (p, os)
      → All (IsLevel side instrument) ls
      → IsSorted before ((p, os) ∷ ls)
      → LevelKept c side instrument other p (orders ls) os b f
      → (Indexed f.book.active_orders (orders ls) other → SideKept ls f.book g)
      → SideKept ((p, os) ∷ ls) b (after_level p f ls g)
  after_level-SideKept p os ls b f g [] e level h s k next =
      let w = next (subst (λ r. Indexed f.book.active_orders (r ++ orders ls) other) e k.indexed) in
      rw e (record {
        levels = w.levels;
        sorted = w.sorted;
        behind = λ r x v. w.behind r x v.1;
        apart = λ r ys v. w.apart r ys v.1;
        indexed = w.indexed;
        natural = w.natural;
        ended = w.ended;
        framed = IsFramed-trans k.framed w.framed;
        fewer = λ id. omega (arith, w.fewer id, count_id-append id os (orders ls));
      })
  after_level-SideKept p os ls b f g (o ∷ rest) e level h s k next = rw e (record {
    levels = (
      record {
        price_positive = level.price_positive;
        filled = omega arith;
        placed = subst (All (IsPlaced side instrument p)) e k.placed;
      },
      h,
    );
    sorted = s;
    behind = λ r x v. v;
    apart = λ r ys v. v;
    indexed = subst (λ r. Indexed f.book.active_orders (r ++ orders ls) other) e k.indexed;
    natural = k.natural;
    ended = inl (elim k.ended [ inl empty ↦ cc | inr zero ↦ zero ]);
    framed = k.framed;
    fewer = λ id. omega (
      arith,
      subst (λ r. count_id id r ≤ count_id id os) e (k.fewer id),
      count_id-append id os (orders ls),
      count_id-append id (o ∷ rest) (orders ls),
    );
  })

  pub match_levels-SideKept :
      (q : ℤ) (ls : List Level) (b : OrderBook) → SideGoal q ls b (match_levels before c q ls b)
  match_levels-SideKept =
      match_levels_rule before c SideGoal (λ q b n h s i. stopped q [] b (inr tt) n h s i)
        (λ q p os ls b done n h s i.
          stopped q ((p, os) ∷ ls) b
            (elim done [
              | inl e ↦ inl e
              | inr e ↦ inr (e, Behind-trans before trans c.price_ticks p ls e s.0)
            ])
            n h s i)
        (λ q p os ls b g more good ih n h s i.
          let k =
            match_level-LevelKept c side instrument other p (orders ls) q os b n h.0.placed i in
          after_level-SideKept p os ls b (match_level c p q os b) g _ refl h.0 h.1 s k
            (λ j. ih k.natural h.1 s.1 j))
