-- ===== src/Wal/Streaming.antt =====
-- Reads of a good stream that holds enough bytes.
use fun_exch_macher.Common.{
  ℕ, zero, suc, ◌+◌, ◌<◌, ◌≡◌, refl, ap, sym, true, false, leb, List, [], ◌++◌, length,
  length-append, arith,
}
use fun_exch_macher.Wal.Bytes.{replicate}
use fun_exch_macher.Wal.Stream.{Stream, read, ignore}
use fun_exch_macher.Wal.Encoding.{take-append, drop-append}

-- A good stream with so many bytes left, at a position.
abbrev pub good_stream : List ℕ → ℕ → Stream
good_stream rest position = record { rest = rest; position = position; eof = false; fail = false }

leb_append : (xs ys : List ℕ) → leb (length xs) (length (xs ++ ys)) ≡ true
leb_append xs ys = ground (arith, length-append xs ys)

pub read-append :
    (n : ℕ) (xs ys : List ℕ) (p : ℕ)
    → length xs ≡ n
    → read n (good_stream (xs ++ ys) p) ≡ (xs, good_stream ys (p + n))
unfolding read
read-append n xs ys p e = rw (sym e, leb_append xs ys, take-append xs ys, drop-append xs ys) refl

pub ignore-append :
    (n : ℕ) (xs ys : List ℕ) (p : ℕ)
    → length xs ≡ n
    → n < 9223372036854775808
    → ignore n (good_stream (xs ++ ys) p) ≡ good_stream ys (p + n)
unfolding ignore
ignore-append n xs ys p e small =
    let positive : leb 9223372036854775808 (length xs) ≡ false = ground (arith, e, small) in
    rw (sym e, positive, leb_append xs ys, drop-append xs ys) refl

pub length-replicate : (n a : ℕ) → length (replicate n a) ≡ n
length-replicate zero a = refl
length-replicate (suc n) a = ap suc (length-replicate n a)

-- An empty stream ends.
pub read-end :
    (n p : ℕ)
    → read (suc n) (good_stream [] p)
      ≡ ([], record { rest = []; position = p + 0; eof = true; fail = true })
unfolding read
read-end n p = ground arith
