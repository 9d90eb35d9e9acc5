-- ===== src/Chars.antt =====
-- The character classes of src/parser/parser_automaton/parser_automaton.h, and the C library's
-- `isalnum` and `tolower` in the "C" locale. A character is a `uint8_t`: a number below 256.
use pdc_pop3d.Prelude.{ℕ, ◌+◌, Bool, true, ◌&&◌, ◌||◌, leb, ◌==◌, if◌then◌else◌}

abbrev within : ℕ → ℕ → ℕ → Bool
within lo hi c = leb lo c && leb c hi

-- `IS_LETTER`
unfoldable pub is_letter : ℕ → Bool
is_letter c = within b'a' b'z' c || within b'A' b'Z' c

-- `IS_PRINTABLE`
unfoldable pub is_printable : ℕ → Bool
is_printable c = within 0x20 0x7e c

-- `IS_SPACE`
unfoldable pub is_space : ℕ → Bool
is_space c = c == b' ' || c == b'\t'

-- `IS_CR`
unfoldable pub is_cr : ℕ → Bool
is_cr c = c == 13

-- `IS_LF`
unfoldable pub is_lf : ℕ → Bool
is_lf c = c == 10

-- `IS_ANY`
unfoldable pub is_any : ℕ → Bool
is_any c = true

-- `IS_ALPHANUMERIC`, which calls `isalnum`
unfoldable pub is_alphanumeric : ℕ → Bool
is_alphanumeric c = within b'0' b'9' c || within b'a' b'z' c || within b'A' b'Z' c

unfoldable pub tolower : ℕ → ℕ
tolower c = if within b'A' b'Z' c then c + 32 else c
