-- ===== src/Text.antt =====
-- The text functions of src/parser/parserADT.c. A pointer into a string is the list of the bytes
-- from there on; behind the last one stands the NUL.
pub mod Compare
pub mod Lines
mod Tests
use pdc_pop3d.Prelude.{
  ℕ, zero, suc, ◌-◌, Bool, true, not, ◌&&◌, ◌||◌, List, [], ◌∷◌, ◌==◌, if◌then◌else◌, ltb, length,
  drop, ℤ, pos, sub_ℕ,
}
use pdc_pop3d.Chars.{tolower}
use pdc_pop3d.CString.{Bytes, strlen}

unfoldable pub has_argument : Bytes → Bool
has_argument arg = not (strlen arg == 0)

unfoldable pub can_have_argument : Bytes → Bool
can_have_argument arg = true

-- No caller passes NULL.
unfoldable pub hasnt_argument : Bytes → Bool
hasnt_argument arg = strlen arg == 0

-- `*s`
abbrev pub deref : Bytes → ℕ
deref [] = 0
deref (c ∷ s) = c

-- The loop of `strncasecmp`, with `n` counting down: where the two pointers stand when it stops.
unfoldable pub case_loop : ℕ → Bytes → Bytes → Bytes × Bytes
case_loop zero s1 s2 = (s1, s2)
case_loop (suc n) s1 s2 =
    let rest = case_loop n (drop 1 s1) (drop 1 s2) in
    if tolower (deref s1) == tolower (deref s2)
    then if n == 0 || deref s1 == 0 || deref s2 == 0 then (s1, s2) else rest
    else (s1, s2)

unfoldable pub strncasecmp : Bytes → Bytes → ℕ → ℤ
strncasecmp s1 s2 n =
    if n == 0
    then pos 0
    else let (p, q) = case_loop n s1 s2 in sub_ℕ (tolower (deref p)) (tolower (deref q))

-- The number of bytes before the NUL.
unfoldable pub u_strlen : Bytes → ℕ
u_strlen [] = 0
u_strlen (c ∷ s) = if c == 0 then 0 else suc (u_strlen s)
