-- ===== src/Numbers.antt =====
-- Decimal numbers of the C library as the program calls it: `%zu` of `snprintf`, and `atoi`, which
-- is `(int) strtol(s, NULL, 10)`.
pub mod RoundTrip
mod Tests
use pdc_pop3d.Prelude.{
  ℕ, zero, suc, ◌+◌, ◌-◌, ◌*◌, ◌/◌, ◌%◌, ◌^◌, Bool, true, false, ◌&&◌, ◌||◌, List, [], ◌∷◌, ◌++◌,
  ltb, leb, ◌==◌, if◌then◌else◌, min, ℤ, pos, negsuc,
}
use pdc_pop3d.CString.{Bytes}

unfoldable pub is_digit : ℕ → Bool
is_digit c = leb b'0' c && leb c b'9'

-- `isspace` in the "C" locale.
unfoldable pub is_white : ℕ → Bool
is_white c = c == 32 || leb 9 c && leb c 13

-- At most `fuel` digits of `n`; a `size_t` has at most 20.
unfoldable pub digits : ℕ → ℕ → Bytes
digits zero n = []
digits (suc fuel) n =
    let front = digits fuel (n / 10) in
    if ltb n 10 then (b'0' + n) ∷ [] else front ++ (b'0' + n % 10) ∷ []

-- `%zu`
unfoldable pub decimal : ℕ → Bytes
decimal n = digits 20 n

-- The value of the digits at the front of `s`, behind digits worth `acc`.
unfoldable pub read_digits : ℕ → Bytes → ℕ
read_digits acc [] = acc
read_digits acc (c ∷ s) =
    let rest = read_digits (10 * acc + (c - b'0')) s in if is_digit c then rest else acc

unfoldable pub skip_white : Bytes → Bytes
skip_white [] = []
skip_white (c ∷ s) = if is_white c then skip_white s else c ∷ s

-- A `long`, cut down to an `int` of 32 bits in two's complement.
unfoldable pub int_of_bits : ℕ → ℤ
int_of_bits b = if ltb b (2 ^ 31) then pos b else negsuc (2 ^ 32 - b - 1)

-- `strtol` keeps to the range of `long`.
unfoldable pub atoi_signed : Bytes → ℤ
atoi_signed [] = pos 0
atoi_signed (c ∷ s) =
    if c == b'-'
    then int_of_bits ((2 ^ 64 - min (read_digits 0 s) (2 ^ 63)) % 2 ^ 32)
    else let v = if c == b'+' then read_digits 0 s else read_digits 0 (c ∷ s) in
      int_of_bits (min v (2 ^ 63 - 1) % 2 ^ 32)

unfoldable pub atoi : Bytes → ℤ
atoi s = atoi_signed (skip_white s)

-- `strspn(s, "0123456789") == strlen(s)`, and `s` is not empty.
unfoldable pub all_digits : Bytes → Bool
all_digits [] = true
all_digits (c ∷ s) = is_digit c && all_digits s

-- `%d` of a `size_t` that is cast to `int`.
unfoldable pub decimal_int : ℕ → Bytes
unfolding int_of_bits
decimal_int n = elim (int_of_bits (n % 2 ^ 32)) [
  | pos k ↦ decimal k
  | negsuc k ↦ b'-' ∷ decimal (k + 1)
]
