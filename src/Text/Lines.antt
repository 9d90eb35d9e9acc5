-- ===== src/Text/Lines.antt =====
-- Strings in memory: what a reader sees of them, up to their NUL, as `u_strlen` of
-- src/parser/parserADT.c counts it.
use pdc_pop3d.Prelude.{
  ℕ, suc, ◌<◌, ◌≡◌, refl, ap, ap₂, [], ◌∷◌, ◌++◌, ◌==◌, inl, inr, Bool-cases, length, set, take,
  drop, arith,
}
use pdc_pop3d.CString.{Bytes, IsText}
use pdc_pop3d.Text.{u_strlen}

-- The input up to its end as a C string.
abbrev pub line_of : Bytes → Bytes
line_of input = take (u_strlen input) input

pub line_of-append : (w t : Bytes) → IsText w → line_of (w ++ t) ≡ w ++ line_of t
unfolding u_strlen
line_of-append [] t h = refl
line_of-append (c ∷ w) t h = ground (arith, line_of-append w t h.1)

-- What stands behind a NUL does not count.
pub line_of_terminated : (d t : Bytes) → line_of (d ++ 0 ∷ t) ≡ line_of d
unfolding u_strlen
line_of_terminated [] t = refl
line_of_terminated (c ∷ d) t = elim (Bool-cases (c == 0)) [
  | inl e ↦ rw e refl
  | inr e ↦ rw e (ap (◌∷◌ c) (line_of_terminated d t))
]

-- A NUL behind a front part of the storage.
pub set-front :
    (d xs : Bytes)
    → take (length d) xs ≡ d
    → length d < length xs
    → set xs (length d) 0 ≡ d ++ 0 ∷ drop (suc (length d)) xs
set-front [] [] h l = absurd (omega arith)
set-front [] (x ∷ xs) h l = refl
set-front (c ∷ d) [] h l = cc
set-front (c ∷ d) (x ∷ xs) h l = ap₂ ◌∷◌ (ap (front 0) h) (set-front d xs (ap tail h) (omega arith))
  where
    front : ℕ → Bytes → ℕ
    front n [] = n
    front n (x ∷ xs) = x

    tail : Bytes → Bytes
    tail [] = []
    tail (x ∷ xs) = xs
