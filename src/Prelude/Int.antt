-- ===== src/Prelude/Int.antt =====
-- Signed results of system calls (`ssize_t`, `int`), under the library's names.
use Prim.Native.Nat.{ℕ, ◌-◌}
use pdc_pop3d.Prelude.Tests.{leb, if◌then◌else◌}

-- `negsuc n` is -(n + 1).
pub data ℤ : Type 0 where
  pos : ℕ → ℤ
  negsuc : ℕ → ℤ

-- The number of bytes that a positive answer reports.
abbrev pub pos_part : ℤ → ℕ
pos_part (pos n) = n
pos_part (negsuc n) = 0

-- a - b, as an integer.
abbrev pub sub_ℕ : ℕ → ℕ → ℤ
sub_ℕ a b = if leb b a then pos (a - b) else negsuc (b - a - 1)
