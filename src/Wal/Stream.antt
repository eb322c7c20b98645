-- ===== src/Wal/Stream.antt =====
-- What src/wal uses of std::ifstream: the bytes not yet read, the position, and the two state
-- bits. An operation on a stream that is not good only fails; `read` past the end sets both bits,
-- `ignore` past the end sets only the end-of-file bit, and `tellg` answers -1 on a failed stream.
use fun_exch_macher.Common.{
  ℕ, ◌+◌, ◌-◌, ◌^◌, Bool, true, false, ◌||◌, leb, if◌then◌else◌, List, [], length,
}
use fun_exch_macher.Wal.Bytes.{take, drop}

pub record Stream : Type 0 where
  pub rest : List ℕ
  pub position : ℕ
  pub eof : Bool
  pub fail : Bool

abbrev pub open_stream : List ℕ → Stream
open_stream bytes = record { rest = bytes; position = 0; eof = false; fail = false }

-- The bytes that were read, whose number is `gcount()`, and the stream.
unfoldable pub read : ℕ → Stream → List ℕ × Stream
read n s =
    if s.eof || s.fail
    then ([], record s { fail = true })
    else if leb n (length s.rest)
    then (take n s.rest, record s { rest = drop n s.rest; position = s.position + n })
    else (
      s.rest,
      record { rest = []; position = s.position + length s.rest; eof = true; fail = true },
    )

-- The count is a std::streamsize, here the 64-bit word that was cast to it: from 2 ^ 63 on it is
-- negative, and then nothing is skipped.
unfoldable pub ignore : ℕ → Stream → Stream
ignore n s =
    if s.eof || s.fail
    then record s { fail = true }
    else if leb 9223372036854775808 n
    then s
    else if leb n (length s.rest)
    then record s { rest = drop n s.rest; position = s.position + n }
    else record { rest = []; position = s.position + length s.rest; eof = true; fail = s.fail }

-- `static_cast<std::uint64_t>(file.tellg())`, which makes a sentry first.
unfoldable pub tellg : Stream → ℕ × Stream
tellg s = if s.eof || s.fail then (2 ^ 64 - 1, record s { fail = true }) else (s.position, s)

abbrev pub clear : Stream → Stream
clear s = record s { eof = false; fail = false }
