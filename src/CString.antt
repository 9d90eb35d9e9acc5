-- ===== src/CString.antt =====
-- C strings: a `char` array is a list of bytes, and the string that it holds ends before its first
-- NUL. The functions of <string.h> that the program calls.
pub mod Padded
use Prim.Native.Char.{code}
use Prim.Native.String.{String}
use pdc_pop3d.Prelude.{
  ℕ, zero, suc, ◌<◌, ◌≡◌, refl, Bool, true, false, ◌&&◌, List, [], ◌∷◌, ◌++◌, ◌==◌, if◌then◌else◌,
  length, All, replicate, take, arith,
}

abbrev pub Bytes : Type 0
Bytes = List ℕ

-- The bytes of an ASCII literal.
abbrev pub codes : String → Bytes
codes String.[] = []
codes (String.◌∷◌ c s) = code c ∷ codes s

-- "\r\n"
abbrev pub crlf : Bytes
crlf = 13 ∷ 10 ∷ []

-- The string that starts at a list of bytes in memory.
abbrev pub cstr : Bytes → Bytes
cstr [] = []
cstr (c ∷ s) = if c == 0 then [] else c ∷ cstr s

-- A string's bytes are not NUL.
abbrev pub IsText : Bytes → Type 0
IsText = All (λ c. 0 < c)

abbrev pub strlen : Bytes → ℕ
strlen s = length (cstr s)

-- `strncpy(buff, s, n)`: the first `n` bytes of the string, filled up with NUL.
abbrev pub strncpy : Bytes → ℕ → Bytes
strncpy s zero = []
strncpy [] (suc n) = 0 ∷ strncpy [] n
strncpy (c ∷ s) (suc n) = if c == 0 then replicate (suc n) 0 else c ∷ strncpy s n

-- `strcmp(s, t) == 0`, on the bytes of two strings.
unfoldable pub equal : Bytes → Bytes → Bool
equal [] [] = true
equal (x ∷ xs) (y ∷ ys) = x == y && equal xs ys
equal _ _ = false

pub equal_refl : (s : Bytes) → equal s s ≡ true
unfolding equal
equal_refl [] = refl
equal_refl (x ∷ s) = ground (arith, equal_refl s)

pub eq_of_equal : (s t : Bytes) → equal s t ≡ true → s ≡ t
unfolding equal
eq_of_equal [] [] h = refl
eq_of_equal [] (y ∷ t) h = cc
eq_of_equal (x ∷ s) [] h = cc
eq_of_equal (x ∷ s) (y ∷ t) h = ground (arith, eq_of_equal s t)

-- A string, with NULs behind it, is read back.
pub cstr-padded : (s : Bytes) (n : ℕ) → IsText s → cstr (s ++ replicate n 0) ≡ s
cstr-padded [] zero h = refl
cstr-padded [] (suc n) h = refl
cstr-padded (c ∷ s) n h = ground (arith, cstr-padded s n h.1)

pub cstr_of_text : (s : Bytes) → IsText s → cstr s ≡ s
cstr_of_text [] h = refl
cstr_of_text (c ∷ s) h = ground (arith, cstr_of_text s h.1)

pub cstr-append_text : (s t : Bytes) → IsText s → cstr (s ++ t) ≡ s ++ cstr t
cstr-append_text [] t h = refl
cstr-append_text (c ∷ s) t h = ground (arith, cstr-append_text s t h.1)

cstr_zeros : (n : ℕ) → cstr (replicate n 0) ≡ []
cstr_zeros zero = refl
cstr_zeros (suc n) = refl

-- What `strncpy` leaves is the string, cut after `n` bytes.
pub cstr-strncpy : (s : Bytes) (n : ℕ) → cstr (strncpy s n) ≡ take n (cstr s)
cstr-strncpy s zero = refl
cstr-strncpy [] (suc n) = refl
cstr-strncpy (c ∷ s) (suc n) = ground (arith, cstr-strncpy s n)
