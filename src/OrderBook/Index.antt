-- ===== src/OrderBook/Index.antt =====
-- The active index of order_book.hpp against the two queues of resting orders: every queued order
-- is indexed as it is queued, and nothing else is.
use fun_exch_macher.Common.{
  ℕ, ◌+◌, ◌≤◌, ◌≡◌, subst, ◌<◌, true, false, ◌==◌, ==_self, some, List, [], ◌∷◌, ◌++◌, length, All,
  arith,
}
use fun_exch_macher.Common.Dict.{
  Dict, to_nat, lookup, insert, erase, contains, count, lookup-insert, lookup-erase, count-eq-zero,
  count-insert, count-erase, length-insert, length-erase, insert_same,
}
use fun_exch_macher.OrderBook.Types.{RestingOrder}

-- How many orders of a queue have the id.
unfoldable pub count_id : ℕ → List RestingOrder → ℕ
count_id id [] = 0
count_id id (o ∷ os) = to_nat (o.order_id == id) + count_id id os

pub count_id-append :
    (id : ℕ) (xs ys : List RestingOrder) → count_id id (xs ++ ys) ≡ count_id id xs + count_id id ys
unfolding count_id
count_id-append id [] ys = omega arith
count_id-append id (o ∷ xs) ys = omega (arith, count_id-append id xs ys)

abbrev pub IsIndexed : Dict RestingOrder → RestingOrder → Type 0
IsIndexed active o = lookup o.order_id active ≡ some o

-- `a` and `b` are the queues of the two sides, in either order.
pub record Indexed (active : Dict RestingOrder) (a b : List RestingOrder) : Type 0 where
  pub counted : (id : ℕ) → count_id id a + count_id id b ≡ count id active
  pub unique : (id : ℕ) → count id active ≤ 1
  pub first : All (IsIndexed active) a
  pub second : All (IsIndexed active) b
  pub sized : length a + length b ≡ length active

pub Indexed-swap :
    {active : Dict RestingOrder} {a b : List RestingOrder} → Indexed active a b → Indexed active b a
Indexed-swap i = record {
  counted = λ id. omega (arith, i.counted id);
  unique = i.unique;
  first = i.second;
  second = i.first;
  sized = omega (arith, i.sized);
}

-- Orders with other ids do not see a write or a removal.
pub All-insert :
    (active : Dict RestingOrder) (id : ℕ) (v : RestingOrder) (xs : List RestingOrder)
    → count_id id xs ≡ 0
    → All (IsIndexed active) xs
    → All (IsIndexed (insert id v active)) xs
unfolding count_id
All-insert active id v [] h a = tt
All-insert active id v (o ∷ xs) h a = (
  ground (arith, lookup-insert id o.order_id v active, a.0),
  All-insert active id v xs (ground arith) a.1,
)

pub All-erase :
    (active : Dict RestingOrder) (id : ℕ) (xs : List RestingOrder)
    → count id active ≤ 1
    → count_id id xs ≡ 0
    → All (IsIndexed active) xs
    → All (IsIndexed (erase id active)) xs
unfolding count_id
All-erase active id [] u h a = tt
All-erase active id (o ∷ xs) u h a = (
  ground (arith, lookup-erase id o.order_id active, a.0),
  All-erase active id xs u (ground arith) a.1,
)

-- The index entry of a queued order.
contains_of_lookup :
    (id : ℕ) (active : Dict RestingOrder) (o : RestingOrder)
    → lookup id active ≡ some o
    → contains id active ≡ true
unfolding contains
contains_of_lookup id active o h = rw h

pub count_of_contains :
    (id : ℕ) (active : Dict RestingOrder) → contains id active ≡ false → count id active ≡ 0
unfolding contains
count_of_contains id active h = ground (arith, count-eq-zero id active)

-- The order at the front of the first queue.
module _ {active : Dict RestingOrder} {o : RestingOrder} {xs b : List RestingOrder}
    (i : Indexed active (o ∷ xs) b) where
  front_contained : contains o.order_id active ≡ true
  front_contained = contains_of_lookup o.order_id active o i.first.0

  front_once : (count_id o.order_id xs ≡ 0) × (count_id o.order_id b ≡ 0)
  unfolding count_id
  front_once =
      let same = ==_self o.order_id in
      ground (arith, i.counted o.order_id, i.unique o.order_id, same)

  -- It leaves the queue and the index, whatever was written to its entry.
  pub Indexed-pop :
      (v : RestingOrder) → Indexed (erase o.order_id (insert o.order_id v active)) xs b
  unfolding count_id
  Indexed-pop v =
      let id = o.order_id in
      let written = insert id v active in
      let here = front_contained in
      let once = front_once in
      let there : contains id written ≡ true =
        contains_of_lookup id written v
          (ground (arith, lookup-insert id id v active, ==_self id)) in
      let single : count id written ≤ 1 =
        ground (arith, count-insert id id v active, i.unique id) in
      record {
        counted =
            λ k. ground (arith, count-erase id k written, count-insert id k v active, i.counted k);
        unique =
            λ k. ground (arith, count-erase id k written, count-insert id k v active, i.unique k);
        first = All-erase written id xs single once.0 (All-insert active id v xs once.0 i.first.1);
        second = All-erase written id b single once.1 (All-insert active id v b once.1 i.second);
        sized = ground (arith, length-erase id written, length-insert id v active, i.sized);
      }

  -- Its quantity changes, in the queue and in the index.
  pub Indexed-update :
      (v : RestingOrder) → v.order_id ≡ o.order_id → Indexed (insert o.order_id v active) (v ∷ xs) b
  unfolding count_id
  Indexed-update v e =
      let id = o.order_id in
      let here = front_contained in
      let once = front_once in
      record {
        counted = λ k. ground (arith, count-insert id k v active, i.counted k);
        unique = λ k. ground (arith, count-insert id k v active, i.unique k);
        first = (
          ground (arith, lookup-insert id id v active, ==_self id),
          All-insert active id v xs once.0 i.first.1,
        );
        second = All-insert active id v b once.1 i.second;
        sized = ground (arith, length-insert id v active, i.sized);
      }

  -- It leaves the queue and the index as it was indexed.
  pub Indexed-drop : Indexed (erase o.order_id active) xs b
  Indexed-drop =
      subst (λ m. Indexed (erase o.order_id m) xs b) (insert_same o.order_id o active i.first.0)
        (Indexed-pop o)

-- An indexed order's key is its id, if that id is queued.
pub id_of_queued :
    (active : Dict RestingOrder) (id : ℕ) (o : RestingOrder) (xs : List RestingOrder)
    → 0 < count_id id xs
    → All (IsIndexed active) xs
    → lookup id active ≡ some o
    → o.order_id ≡ id
unfolding count_id
id_of_queued active id o [] n h e = absurd (omega arith)
id_of_queued active id o (x ∷ xs) n h e = ground (arith, id_of_queued active id o xs, h.0)
