-- ===== src/Args/Ports.antt =====
-- The ports of src/args.c.
use pdc_pop3d.Prelude.{
  ℕ, zero, suc, ◌+◌, ◌/◌, ◌%◌, ◌^◌, ◌≤◌, ◌<◌, ◌≡◌, ◌↔◌, refl, sym, ap, ◌∙◌, Bool, true, false, ◌&&◌,
  none, some, [], ◌∷◌, ◌++◌, inl, inr, arith, ltb, ltb→lt, ltb→ge, le→ltb, if◌then◌else◌, ◌==◌,
  Bool-cases,
}
use pdc_pop3d.CString.{Bytes}
use pdc_pop3d.Numbers.{is_digit, is_white, digits, decimal, read_digits, skip_white}
use pdc_pop3d.Numbers.RoundTrip.{
  digit_lem, digits-last, digits-one, first_digit, read_digits-decimal,
}
use pdc_pop3d.Args.{ushrt_max, only_digits, port_unsigned, port_signed, port}

-- One digit more.
only_digits-concat :
    (s : Bytes) (c : ℕ)
    → only_digits s ≡ true
    → is_digit c ≡ true
    → only_digits (s ++ c ∷ []) ≡ true
unfolding only_digits
only_digits-concat [] c h d = d
only_digits-concat (x ∷ []) c h d = rw (h, d) refl
only_digits-concat (x ∷ y ∷ s) c h d =
    let here : is_digit x ≡ true = both (is_digit x) (only_digits (y ∷ s)) h in
    let there : only_digits (y ∷ s) ≡ true = rest (is_digit x) (only_digits (y ∷ s)) h in
    rw (here, only_digits-concat (y ∷ s) c there d) refl
  where
    both : (a b : Bool) → (a && b) ≡ true → a ≡ true
    both a b h = ground arith

    rest : (a b : Bool) → (a && b) ≡ true → b ≡ true
    rest a b h = ground arith

only_digits-digits : (fuel n : ℕ) → only_digits (digits (suc fuel) n) ≡ true
unfolding only_digits
only_digits-digits zero n = elim (Bool-cases (ltb n 10)) [
  | inl e ↦ rw (digits-one zero n e) (digit_lem n (ltb→lt n 10 e))
  | inr e ↦ rw (digits-last zero n e) (unfold digits in digit_lem (n % 10) (omega arith))
]
only_digits-digits (suc fuel) n = elim (Bool-cases (ltb n 10)) [
  | inl e ↦ rw (digits-one (suc fuel) n e) (digit_lem n (ltb→lt n 10 e))
  | inr e ↦ rw (digits-last (suc fuel) n e) (
      only_digits-concat (digits (suc fuel) (n / 10)) (48 + n % 10)
        (only_digits-digits fuel (n / 10)) (digit_lem (n % 10) (omega arith)))
]

-- A string that begins with a digit has no white space and no sign.
port-digit : (c : ℕ) (s : Bytes) → is_digit c ≡ true → port (c ∷ s) ≡ port_unsigned false (c ∷ s)
unfolding port port_signed skip_white is_white
port-digit c s h =
    let white : is_white c ≡ false = unfold is_digit is_white in ground arith in
    let minus : (c == b'-') ≡ false = unfold is_digit in ground arith in
    let plus : (c == b'+') ≡ false = unfold is_digit in ground arith in rw (white, minus, plus) refl

port-decimal : (n : ℕ) → n < 10 ^ 20 → port (decimal n) ≡ (if ltb ushrt_max n then none else some n)
unfolding port_unsigned decimal
port-decimal n h =
    let (c, s, e, d) = first_digit 19 n in
    let all = ap only_digits (sym e) ∙ only_digits-digits 19 n in
    let worth = ap (read_digits 0) (sym e) ∙ read_digits-decimal n h in
    ap port e ∙ port-digit c s d ∙ rw (all, worth) refl

none-some : {A : Type 0} {x : A} → none ≡ some x → ⊥
none-some e = cc

-- The port that is read from the digits of a number is that number, exactly when it is at most
-- 65535: 0 is taken too. The number has at most twenty digits.
pub port-decimal_iff : (n : ℕ) → n < 10 ^ 20 → (port (decimal n) ≡ some n) ↔ (n ≤ 65535)
port-decimal_iff n h = (only, taken)
  where
    only : port (decimal n) ≡ some n → n ≤ 65535
    only e = elim (Bool-cases (ltb ushrt_max n)) [
      | inl b ↦ absurd (none-some (sym (port-decimal n h ∙ rw b refl) ∙ e))
      | inr b ↦ ltb→ge ushrt_max n b
    ]

    taken : n ≤ 65535 → port (decimal n) ≡ some n
    taken k = port-decimal n h ∙ (let b = le→ltb ushrt_max n k in rw b refl)
