-- ===== src/App/Numerals.antt =====
-- Numbers as text (src/app): what std::ostream prints of them, under std::from_chars.
use fun_exch_macher.Common.{
  ℕ, zero, suc, ◌+◌, ◌*◌, ◌/◌, ◌%◌, ◌≤◌, ◌<◌, ◌≡◌, refl, ap, ◌∙◌, ℤ, pos, negsuc, Bool-cases, inl,
  inr, ltb, some, [], ◌∷◌, All, length, arith,
}
use fun_exch_macher.Domain.Fits.{IsInt64}
use fun_exch_macher.App.Text.{
  Text, digits, show_number, show_integer, read_digits, read_number, parse_u64, parse_i64,
}

abbrev pub IsDigit : ℕ → Type 0
IsDigit c = (48 ≤ c) × (c ≤ 57)

abbrev ten_to : ℕ → ℕ
ten_to zero = 1
ten_to (suc k) = 10 * ten_to k

read_digits-digits :
    (k n : ℕ) (out : Text) → n < ten_to k → read_digits (digits k n out) 0 ≡ read_digits out n
unfolding digits
read_digits-digits zero n out h = ap (read_digits out) (omega (arith, h))
read_digits-digits (suc k) n out h = elim (Bool-cases (ltb n 10)) [
  | inl small ↦ rw small (unfold read_digits in ground arith)
  | inr large ↦ rw large (
      read_digits-digits k (n / 10) ((b'0' + n % 10) ∷ out) (omega (arith, h))
      ∙ unfold read_digits in ground arith)
]

-- The first digit, and the rest.
abbrev IsNumeral : Text → Type 0
IsNumeral s = (0 < length s) × All IsDigit s

digits-IsNumeral :
    (k n : ℕ) (c : ℕ) (out : Text) → IsNumeral (c ∷ out) → IsNumeral (digits k n (c ∷ out))
unfolding digits
digits-IsNumeral zero n c out h = h
digits-IsNumeral (suc k) n c out h = elim (Bool-cases (ltb n 10)) [
  | inl small ↦ rw small (omega arith, (ground arith, h.1))
  | inr large ↦
      rw large
        (digits-IsNumeral k (n / 10) (b'0' + n % 10) (c ∷ out) (omega arith, (omega arith, h.1)))
]

pub show_number-IsNumeral : (n : ℕ) → IsNumeral (show_number n)
unfolding show_number digits
show_number-IsNumeral n = elim (Bool-cases (ltb n 10)) [
  | inl small ↦ rw small (omega arith, (ground arith, tt))
  | inr large ↦
      rw large (digits-IsNumeral 19 (n / 10) (b'0' + n % 10) [] (omega arith, (omega arith, tt)))
]

read_number-digits : (s : Text) → IsNumeral s → read_number s ≡ read_digits s 0
unfolding read_number
read_number-digits [] h = absurd (omega (arith, h.0))
read_number-digits (c ∷ s) h = refl

pub read_number-show_number :
    (n : ℕ) → n < 18446744073709551616 → read_number (show_number n) ≡ some n
unfolding show_number
read_number-show_number n h =
    read_number-digits (digits 20 n []) (unfold show_number in show_number-IsNumeral n)
    ∙ read_digits-digits 20 n [] (omega (arith, h))
    ∙ unfold read_digits in refl

pub parse_u64-show_number : (n : ℕ) → n < 18446744073709551616 → parse_u64 (show_number n) ≡ some n
unfolding parse_u64
parse_u64-show_number n h = rw (read_number-show_number n h) (ground (arith, h))

-- A text without a sign.
parse_i64-digits :
    (s : Text) (n : ℕ)
    → IsNumeral s
    → read_number s ≡ some n
    → n < 9223372036854775808
    → parse_i64 s ≡ some (pos n)
unfolding parse_i64
parse_i64-digits [] n h e b = absurd (omega (arith, h.0))
parse_i64-digits (c ∷ s) n h e b = rw e (ground (arith, h.1.0))

pub parse_i64-show_integer : (a : ℤ) → IsInt64 a → parse_i64 (show_integer a) ≡ some a
unfolding show_integer
parse_i64-show_integer (pos n) h =
    parse_i64-digits (show_number n) n (show_number-IsNumeral n)
      (read_number-show_number n (omega arith)) (omega arith)
parse_i64-show_integer (negsuc n) h =
    unfold parse_i64 in rw (read_number-show_number (n + 1) (omega arith)) (ground arith)
