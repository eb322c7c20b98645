-- ===== src/OrderBook/Checked.antt =====
-- OrderBook::validate_invariants answers true on every valid book.
use fun_exch_macher.Common.{
  ℕ, ◌+◌, ◌≤◌, ◌<◌, ℤ, ◌≡◌, refl, true, Option, some, List, [], ◌∷◌, ◌++◌, arith, not, ◌==◌, ==_iff,
  ==_self, length, All, All-map, All-left, All-right,
}
use fun_exch_macher.Common.Int.{ltb_ℤ, eqb_ℤ_self, IsPositive, IsPositive-iff}
use fun_exch_macher.Common.Dict.{Dict, to_nat, lookup, count, lookup-eq-none}
use fun_exch_macher.Domain.{Side, buy, sell}
use fun_exch_macher.OrderBook.Types.{OrderBook, RestingOrder, Level, orders}
use fun_exch_macher.OrderBook.Check.{
  contains_id, same_order, validate_resting_order_against_active_index, validate_resting_orders,
  validate_price_levels_against_active_orders, all_queued, validate_active_orders_are_queued,
  is_uncrossed, validate_invariants,
}
use fun_exch_macher.OrderBook.Index.{count_id, count_id-append, IsIndexed}
use fun_exch_macher.OrderBook.Invariant.{IsPlaced, IsLevel, IsApart, IsValid}
use fun_exch_macher.OrderBook.Preserve.{orders-All}

-- The set after the ids of a queue have been inserted.
insert_ids : List RestingOrder → List ℕ → List ℕ
insert_ids [] q = q
insert_ids (r ∷ rs) q = insert_ids rs (r.order_id ∷ q)

count_in : ℕ → List ℕ → ℕ
count_in k [] = 0
count_in k (i ∷ is) = to_nat (i == k) + count_in k is

insert_ids-append :
    (xs ys : List RestingOrder) (q : List ℕ)
    → insert_ids (xs ++ ys) q ≡ insert_ids ys (insert_ids xs q)
unfolding insert_ids
insert_ids-append [] ys q = refl
insert_ids-append (x ∷ xs) ys q = insert_ids-append xs ys (x.order_id ∷ q)

count_in-insert_ids :
    (k : ℕ) (rs : List RestingOrder) (q : List ℕ)
    → count_in k (insert_ids rs q) ≡ count_id k rs + count_in k q
unfolding insert_ids count_id count_in
count_in-insert_ids k [] q = omega arith
count_in-insert_ids k (r ∷ rs) q = omega (arith, count_in-insert_ids k rs (r.order_id ∷ q))

length-insert_ids :
    (rs : List RestingOrder) (q : List ℕ) → length (insert_ids rs q) ≡ length rs + length q
unfolding insert_ids
length-insert_ids [] q = omega arith
length-insert_ids (r ∷ rs) q = omega (arith, length-insert_ids rs (r.order_id ∷ q))

contains_id-count_in : (k : ℕ) (q : List ℕ) → contains_id k q ≡ not (count_in k q == 0)
unfolding contains_id count_in
contains_id-count_in k [] = refl
contains_id-count_in k (i ∷ is) = ground (arith, contains_id-count_in k is)

same_order_self : (r : RestingOrder) → same_order r r ≡ true
unfolding same_order
same_order_self r = simp (==_self, eqb_ℤ_self)

module _ (active : Dict RestingOrder) (side : Side) (instrument : Option ℕ) where
  order_passes :
      (p : ℤ) (r : RestingOrder) (q : List ℕ)
      → IsPlaced side instrument p r
      → IsIndexed active r
      → count_in r.order_id q ≡ 0
      → validate_resting_order_against_active_index active p side r q ≡ some (r.order_id ∷ q)
  unfolding validate_resting_order_against_active_index
  order_passes p r q h i fresh = ground (
    arith,
    same_order_self r,
    contains_id-count_in r.order_id q,
    IsPositive-iff r.remaining_quantity_lots,
    eqb_ℤ_self p,
    h.on_side,
    i,
  )

  orders_pass :
      (p : ℤ) (rs : List RestingOrder) (q : List ℕ)
      → All (IsPlaced side instrument p) rs
      → All (IsIndexed active) rs
      → ((k : ℕ) → count_id k rs + count_in k q ≤ 1)
      → validate_resting_orders active p side rs q ≡ some (insert_ids rs q)
  unfolding validate_resting_orders insert_ids
  orders_pass p [] q h i once = refl
  orders_pass p (r ∷ rs) q h i once =
      let fresh : count_in r.order_id q ≡ 0 =
        unfold count_id in ground (arith, once r.order_id, ==_self r.order_id) in
      rw (order_passes p r q h.0 i.0 fresh) (
        orders_pass p rs (r.order_id ∷ q) h.1 i.1
          (λ k. unfold count_id count_in in omega (arith, once k)))

  levels_pass :
      (ls : List Level) (q : List ℕ)
      → All (IsLevel side instrument) ls
      → All (IsIndexed active) (orders ls)
      → ((k : ℕ) → count_id k (orders ls) + count_in k q ≤ 1)
      → validate_price_levels_against_active_orders active side ls q
        ≡ some (insert_ids (orders ls) q)
  unfolding validate_price_levels_against_active_orders
  levels_pass [] q h i once = unfold insert_ids in refl
  levels_pass ((p, []) ∷ ls) q h i once = absurd (omega (arith, h.0.filled))
  levels_pass ((p, r ∷ rs) ∷ ls) q h i once =
      let os = r ∷ rs in
      let here =
        orders_pass p os q h.0.placed (All-left (IsIndexed active) os (orders ls) i)
          (λ k. omega (arith, once k, count_id-append k os (orders ls))) in
      let there =
        levels_pass ls (insert_ids os q) h.1 (All-right (IsIndexed active) os (orders ls) i) (λ k.
          omega (arith, once k, count_id-append k os (orders ls), count_in-insert_ids k os q)) in
      rw ((IsPositive-iff p).1 h.0.price_positive, here, insert_ids-append os (orders ls) q) there

-- An index with one entry for each key is a list of its own answers.
entries_found :
    {V : Type 0} (m : Dict V) → ((k : ℕ) → count k m ≤ 1) → All (λ e. lookup e.0 m ≡ some e.1) m
unfolding lookup count
entries_found [] once = tt
entries_found ((j, w) ∷ m) once = (
  simp ==_self,
  All-map (λ e. lookup e.0 m ≡ some e.1) (λ e. lookup e.0 ((j, w) ∷ m) ≡ some e.1)
      (λ e h. ground (arith, once e.0, lookup-eq-none e.0 m, h)) m
      (entries_found m (λ k. omega (arith, once k))),
)

queued-IsPositive :
    (active : Dict RestingOrder) (id : ℕ) (r : RestingOrder) (xs : List RestingOrder)
    → 0 < count_id id xs
    → All (IsIndexed active) xs
    → All (λ o. IsPositive o.remaining_quantity_lots) xs
    → lookup id active ≡ some r
    → IsPositive r.remaining_quantity_lots
unfolding count_id
queued-IsPositive active id r [] n h k e = absurd (omega arith)
queued-IsPositive active id r (x ∷ xs) n h k e =
    ground (arith, queued-IsPositive active id r xs, h.0, k.0)

entries_queued :
    (active m : Dict RestingOrder) (q : List ℕ)
    → All (λ e. lookup e.0 active ≡ some e.1) m
    → ((k : ℕ) (r : RestingOrder)
        → lookup k active ≡ some r
        → (contains_id k q ≡ true) × IsPositive r.remaining_quantity_lots)
    → all_queued q m ≡ true
entries_queued active [] q h f = refl
entries_queued active ((k, r) ∷ m) q h f =
    let good = f k r h.0 in
    rw (good.0, (IsPositive-iff r.remaining_quantity_lots).1 good.1)
      (entries_queued active m q h.1 f)

apart-is_uncrossed :
    (bids asks : List Level) → IsApart ltb_ℤ bids asks → is_uncrossed bids asks ≡ true
apart-is_uncrossed [] asks h = refl
apart-is_uncrossed (l ∷ bids) [] h = refl
apart-is_uncrossed (l ∷ bids) (m ∷ asks) h = h.0.0

module _ {b : OrderBook} (v : IsValid b) where
  all_ids : List ℕ
  all_ids = insert_ids (orders b.asks) (insert_ids (orders b.bids) [])

  count_in-all_ids : (k : ℕ) → count_in k all_ids ≡ count k b.active_orders
  unfolding all_ids
  count_in-all_ids k =
      unfold count_in in
      omega (
        arith,
        count_in-insert_ids k (orders b.asks) (insert_ids (orders b.bids) []),
        count_in-insert_ids k (orders b.bids) [],
        v.indexed.counted k,
      )

  entry_good :
      (k : ℕ) (r : RestingOrder)
      → lookup k b.active_orders ≡ some r
      → (contains_id k all_ids ≡ true) × IsPositive r.remaining_quantity_lots
  entry_good k r e =
      let positive_bids =
        orders-All (λ o. IsPositive o.remaining_quantity_lots) buy b.instrument_id b.bids
          (λ p o h. h.open_quantity) v.bids_level in
      let positive_asks =
        orders-All (λ o. IsPositive o.remaining_quantity_lots) sell b.instrument_id b.asks
          (λ p o h. h.open_quantity) v.asks_level in
      let there : 0 < count k b.active_orders = ground (arith, lookup-eq-none k b.active_orders) in
      (
        ground (arith, contains_id-count_in k all_ids, count_in-all_ids k),
        ground (
          arith,
          v.indexed.counted k,
          queued-IsPositive b.active_orders k r (orders b.bids),
          queued-IsPositive b.active_orders k r (orders b.asks),
          v.indexed.first,
          v.indexed.second,
          positive_bids,
          positive_asks,
        ),
      )

  -- The check accepts every valid book.
  pub IsValid-validate_invariants : validate_invariants b ≡ true
  unfolding validate_invariants validate_active_orders_are_queued all_ids
  IsValid-validate_invariants =
      let once = λ (k : ℕ). v.indexed.unique k in
      let bids =
        levels_pass b.active_orders buy b.instrument_id b.bids [] v.bids_level v.indexed.first
          (λ k. unfold count_in in omega (arith, v.indexed.counted k, once k)) in
      let asks =
        levels_pass b.active_orders sell b.instrument_id b.asks (insert_ids (orders b.bids) [])
          v.asks_level v.indexed.second
          (λ k.
            unfold count_in in
            omega (arith, v.indexed.counted k, once k, count_in-insert_ids k (orders b.bids) [])) in
      let sizes : length all_ids ≡ length b.active_orders =
        unfold all_ids in
        omega (
          arith,
          length-insert_ids (orders b.asks) (insert_ids (orders b.bids) []),
          length-insert_ids (orders b.bids) [],
          v.indexed.sized,
        ) in
      let queued =
        entries_queued b.active_orders b.active_orders all_ids
          (entries_found b.active_orders v.indexed.unique) entry_good in
      let same = (==_iff (length all_ids) (length b.active_orders)).1 sizes in
      rw (bids, asks, same, queued) (apart-is_uncrossed b.bids b.asks v.uncrossed)
