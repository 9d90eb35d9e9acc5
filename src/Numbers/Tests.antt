-- ===== src/Numbers/Tests.antt =====
-- Decimal numbers.
use pdc_pop3d.Prelude.{◌≡◌, refl, negsuc}
use pdc_pop3d.CString.{codes}
use pdc_pop3d.Numbers.{
  decimal, digits, atoi, atoi_signed, skip_white, is_white, read_digits, is_digit, int_of_bits,
}

decimal_example : decimal 1207 ≡ codes "1207"
unfolding decimal digits
decimal_example = refl

atoi_example : atoi (codes " -12a") ≡ negsuc 11
unfolding atoi atoi_signed skip_white is_white read_digits is_digit int_of_bits
atoi_example = refl
