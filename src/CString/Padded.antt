-- ===== src/CString/Padded.antt =====
-- A `char` array that holds a string, with NULs behind it: writing one character more, and copying
-- the string out.
use pdc_pop3d.Prelude.{
  ℕ, zero, suc, ◌+◌, ◌-◌, ◌≤◌, ◌<◌, ◌≡◌, refl, ap, true, [], ◌∷◌, ◌++◌, arith, length,
  length-append, set, replicate, All, append_assoc, append-nil,
}
use pdc_pop3d.Chars.{is_letter, is_printable, is_alphanumeric}
use pdc_pop3d.CString.{Bytes, IsText, cstr, cstr-append_text, strncpy}

-- An array of `n` characters that holds the string `w`.
abbrev pub padded : ℕ → Bytes → Bytes
padded n w = w ++ replicate (n - length w) 0

set-append : (w v : Bytes) (c x : ℕ) → set (w ++ x ∷ v) (length w) c ≡ w ++ c ∷ v
set-append [] v c x = refl
set-append (y ∷ w) v c x = ap (◌∷◌ y) (set-append w v c x)

pub set-padded :
    (n : ℕ) (w : Bytes) (c : ℕ)
    → length w < n
    → set (padded n w) (length w) c ≡ padded n (w ++ c ∷ [])
set-padded n w c h =
    let e : n - length w ≡ suc (n - length w - 1) = omega arith in
    let f : n - length (w ++ c ∷ []) ≡ n - length w - 1 = omega (arith, length-append w (c ∷ [])) in
    rw (e, f, append_assoc) (set-append w (replicate (n - length w - 1) 0) c 0)

-- Letters and printable characters are not NUL.
pub IsText-of_letters : (w : Bytes) → All (λ c. is_letter c ≡ true) w → IsText w
unfolding is_letter
IsText-of_letters [] h = tt
IsText-of_letters (c ∷ w) h = (ground arith, IsText-of_letters w h.1)

pub IsText-of_printables : (a : Bytes) → All (λ c. is_printable c ≡ true) a → IsText a
unfolding is_printable
IsText-of_printables [] h = tt
IsText-of_printables (c ∷ a) h = (ground arith, IsText-of_printables a h.1)

strncpy_zeros : (k n : ℕ) → strncpy (replicate k 0) n ≡ replicate n 0
strncpy_zeros k zero = refl
strncpy_zeros zero (suc n) = ap (◌∷◌ 0) (strncpy_zeros zero n)
strncpy_zeros (suc k) (suc n) = refl

pub strncpy_text :
    (w v : Bytes) (n : ℕ)
    → IsText w
    → length w ≤ n
    → strncpy (w ++ v) n ≡ w ++ strncpy v (n - length w)
strncpy_text [] v n t h = let e : n - 0 ≡ n = omega arith in rw e
strncpy_text (c ∷ w) v zero t h = absurd (omega arith)
strncpy_text (c ∷ w) v (suc n) t h =
    let e : suc n - suc (length w) ≡ n - length w = omega arith in
    ground (arith, e, strncpy_text w v n t.1)

pub cstr_terminated : (n : ℕ) → cstr (replicate n 0 ++ 0 ∷ []) ≡ []
cstr_terminated zero = refl
cstr_terminated (suc n) = refl

-- `strncpy` and a final NUL copy out a string that fits.
pub copied :
    (n : ℕ) (w : Bytes)
    → IsText w
    → length w ≤ n
    → cstr (strncpy (padded (n + 1) w) n ++ 0 ∷ []) ≡ w
copied n w t h = rw (
  strncpy_text w (replicate (n + 1 - length w) 0) n t h,
  strncpy_zeros,
  append_assoc,
  cstr-append_text w _ t,
  cstr_terminated,
  append-nil,
)

pub IsText-of_alphanumerics : (w : Bytes) → All (λ c. is_alphanumeric c ≡ true) w → IsText w
unfolding is_alphanumeric
IsText-of_alphanumerics [] h = tt
IsText-of_alphanumerics (c ∷ w) h = (ground arith, IsText-of_alphanumerics w h.1)
