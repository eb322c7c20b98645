-- ===== src/OrderBook/Reorder.antt =====
-- Queues that hold the same orders in another order, as far as the index can tell.
use fun_exch_macher.Common.{
  ℕ, ◌≡◌, refl, false, ==_self, List, ◌∷◌, ◌++◌, length, length-append, All, All-append, All-left,
  All-right, arith,
}
use fun_exch_macher.Common.Dict.{Dict, insert, contains, lookup-insert, count-insert, length-insert}
use fun_exch_macher.OrderBook.Types.{RestingOrder}
use fun_exch_macher.OrderBook.Index.{
  count_id, count_id-append, IsIndexed, Indexed, All-insert, count_of_contains,
}

pub record Reordered (a a' : List RestingOrder) : Type 0 where
  pub counts : (id : ℕ) → count_id id a' ≡ count_id id a
  pub lengths : length a' ≡ length a
  pub entries : (active : Dict RestingOrder) → All (IsIndexed active) a → All (IsIndexed active) a'

pub Reordered-refl : (a : List RestingOrder) → Reordered a a
Reordered-refl a = record { counts = λ id. refl; lengths = refl; entries = λ active h. h }

-- An order moves to the front, and from there back.
pub to_front :
    (xs ys : List RestingOrder) (o : RestingOrder) → Reordered (xs ++ (o ∷ ys)) (o ∷ (xs ++ ys))
unfolding count_id
to_front xs ys o = record {
  counts = λ id. omega (arith, count_id-append id xs ys, count_id-append id xs (o ∷ ys));
  lengths = omega (arith, length-append xs ys, length-append xs (o ∷ ys));
  entries = λ active h.
      let right = All-right (IsIndexed active) xs (o ∷ ys) h in
      (
        right.0,
        All-append (IsIndexed active) xs ys (All-left (IsIndexed active) xs (o ∷ ys) h) right.1,
      );
}

pub from_front :
    (xs ys : List RestingOrder) (o : RestingOrder) → Reordered (o ∷ (xs ++ ys)) (xs ++ (o ∷ ys))
unfolding count_id
from_front xs ys o = record {
  counts = λ id. omega (arith, count_id-append id xs ys, count_id-append id xs (o ∷ ys));
  lengths = omega (arith, length-append xs ys, length-append xs (o ∷ ys));
  entries = λ active h.
      All-append (IsIndexed active) xs (o ∷ ys) (All-left (IsIndexed active) xs ys h.1)
        (h.0, All-right (IsIndexed active) xs ys h.1);
}

pub Reordered-trans : {a b c : List RestingOrder} → Reordered a b → Reordered b c → Reordered a c
Reordered-trans r s = record {
  counts = λ id. omega (arith, r.counts id, s.counts id);
  lengths = omega (arith, r.lengths, s.lengths);
  entries = λ active h. s.entries active (r.entries active h);
}

-- In front of a common rest, and behind one.
pub Reordered-left :
    {a a' : List RestingOrder} (xs : List RestingOrder)
    → Reordered a a'
    → Reordered (a ++ xs) (a' ++ xs)
Reordered-left {a} {a'} xs r = record {
  counts = λ id. omega (arith, r.counts id, count_id-append id a xs, count_id-append id a' xs);
  lengths = omega (arith, r.lengths, length-append a xs, length-append a' xs);
  entries = λ active h.
      All-append (IsIndexed active) a' xs (r.entries active (All-left (IsIndexed active) a xs h))
        (All-right (IsIndexed active) a xs h);
}

pub Reordered-right :
    {a a' : List RestingOrder} (xs : List RestingOrder)
    → Reordered a a'
    → Reordered (xs ++ a) (xs ++ a')
Reordered-right {a} {a'} xs r = record {
  counts = λ id. omega (arith, r.counts id, count_id-append id xs a, count_id-append id xs a');
  lengths = omega (arith, r.lengths, length-append xs a, length-append xs a');
  entries = λ active h.
      All-append (IsIndexed active) xs a' (All-left (IsIndexed active) xs a h)
        (r.entries active (All-right (IsIndexed active) xs a h));
}

pub Indexed-reorder :
    {active : Dict RestingOrder} {a a' b : List RestingOrder}
    → Reordered a a'
    → Indexed active a b
    → Indexed active a' b
Indexed-reorder {active} r i = record {
  counted = λ id. omega (arith, i.counted id, r.counts id);
  unique = i.unique;
  first = r.entries active i.first;
  second = i.second;
  sized = omega (arith, i.sized, r.lengths);
}

-- A new order enters the index and the first queue.
pub Indexed-push :
    {active : Dict RestingOrder} {a b : List RestingOrder} (o : RestingOrder)
    → contains o.order_id active ≡ false
    → Indexed active a b
    → Indexed (insert o.order_id o active) (o ∷ a) b
unfolding count_id
Indexed-push {active} {a} {b} o fresh i =
    let id = o.order_id in
    let none_there = count_of_contains id active fresh in
    let total = i.counted id in
    record {
      counted = λ k. ground (arith, count-insert id k o active, i.counted k);
      unique = λ k. ground (arith, count-insert id k o active, i.unique k);
      first = (
        ground (arith, lookup-insert id id o active, ==_self id),
        All-insert active id o a (omega arith) i.first,
      );
      second = All-insert active id o b (omega arith) i.second;
      sized = ground (arith, length-insert id o active, i.sized);
    }
