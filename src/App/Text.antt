-- ===== src/App/Text.antt =====
-- Text as the application (src/app) reads and writes it: characters are bytes. The conversions are
-- those of std::ostream, std::from_chars and std::istringstream on numbers and words.
use Prim.Native.Char.{code}
use Prim.Native.String.{String}
use fun_exch_macher.Common.{
  ℕ, zero, suc, ◌+◌, ◌-◌, ◌*◌, ◌/◌, ◌%◌, ℤ, pos, negsuc, Bool, true, false, ◌&&◌, ◌||◌, ◌==◌, ltb,
  leb, if◌then◌else◌, Option, none, some, List, [], ◌∷◌, map,
}

abbrev pub Text : Type 0
Text = List ℕ

-- The bytes of an ASCII literal.
abbrev pub codes : String → Text
codes String.[] = []
codes (String.◌∷◌ c s) = code c ∷ codes s

unfoldable pub equal : Text → Text → Bool
equal [] [] = true
equal [] (b ∷ t) = false
equal (a ∷ s) [] = false
equal (a ∷ s) (b ∷ t) = a == b && equal s t

-- The decimal digits of a number before `out`, twenty at most, which a std::uint64_t never exceeds.
unfoldable pub digits : ℕ → ℕ → Text → Text
digits zero n out = out
digits (suc left) n out =
    let more = digits left (n / 10) ((b'0' + n % 10) ∷ out) in
    if ltb n 10 then (b'0' + n) ∷ out else more

-- `out << n`.
unfoldable pub show_number : ℕ → Text
show_number n = digits 20 n []

unfoldable pub show_integer : ℤ → Text
show_integer (pos n) = show_number n
show_integer (negsuc n) = b'-' ∷ show_number (n + 1)

-- The number that digits spell behind `n`, if they are all digits.
unfoldable pub read_digits : Text → ℕ → Option ℕ
read_digits [] n = some n
read_digits (c ∷ s) n =
    let rest = read_digits s (n * 10 + (c - b'0')) in
    if leb b'0' c && leb c b'9' then rest else none

unfoldable pub read_number : Text → Option ℕ
read_number [] = none
read_number (c ∷ s) = read_digits (c ∷ s) 0

abbrev below : ℕ → Option ℕ → Option ℕ
below bound none = none
below bound (some n) = if ltb n bound then some n else none

-- parse_u64 and parse_i64: std::from_chars must take the whole text.
unfoldable pub parse_u64 : Text → Option ℕ
parse_u64 s = below 18446744073709551616 (read_number s)

abbrev negated : Option ℕ → Option ℤ
negated none = none
negated (some zero) = some (pos 0)
negated (some (suc n)) = some (negsuc n)

abbrev positive : Option ℕ → Option ℤ
positive none = none
positive (some n) = some (pos n)

unfoldable pub parse_i64 : Text → Option ℤ
parse_i64 [] = none
parse_i64 (c ∷ s) =
    if c == b'-'
    then negated (below 9223372036854775809 (read_number s))
    else positive (below 9223372036854775808 (read_number (c ∷ s)))

unfoldable pub upper : ℕ → ℕ
upper c = if leb b'a' c && leb c b'z' then c - 32 else c

unfoldable pub uppercase : Text → Text
uppercase s = map upper s

abbrev pub is_space : ℕ → Bool
is_space c = c == b' ' || (leb 9 c && leb c 13)

-- A character before a list of words, of which the first goes on.
abbrev pub extend : ℕ → List Text → List Text
extend c [] = (c ∷ []) ∷ []
extend c (w ∷ ws) = (c ∷ w) ∷ ws

-- The words that `>>` takes from a row one after another: `inside` says that the first word of the
-- rest goes on the one before.
unfoldable pub split : Text → Bool → List Text
split [] inside = if inside then [] ∷ [] else []
split (c ∷ s) inside =
    let rest = split s (if is_space c then false else true) in
    if is_space c then (if inside then [] ∷ rest else rest) else extend c rest

unfoldable pub words : Text → List Text
words s = split s false

-- The lines that std::getline takes: an empty rest behind the last line break is none.
unfoldable pub lines : Text → List Text
lines [] = []
lines (c ∷ s) = let rest = lines s in if c == b'\n' then [] ∷ rest else extend c rest
