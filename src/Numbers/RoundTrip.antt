-- ===== src/Numbers/RoundTrip.antt =====
-- `atoi` reads back what `%zu` prints.
use pdc_pop3d.Prelude.{
  ℕ, zero, suc, ◌+◌, ◌-◌, ◌*◌, ◌/◌, ◌%◌, ◌^◌, ◌<◌, ◌≡◌, refl, sym, ap, ◌∙◌, true, false, [], ◌∷◌,
  ◌++◌, inl, inr, arith, ltb, ltb→lt, ◌==◌, Bool-cases, append-nil, append_assoc, min, pos, length,
  length-append, ◌≤◌,
}
use pdc_pop3d.CString.{Bytes}
use pdc_pop3d.Numbers.{
  is_digit, all_digits, is_white, digits, decimal, read_digits, skip_white, int_of_bits,
  atoi_signed, atoi,
}

pub digit_lem : (d : ℕ) → d < 10 → is_digit (48 + d) ≡ true
unfolding is_digit
digit_lem d h = ground arith

read_digit :
    (acc d : ℕ) (t : Bytes) → d < 10 → read_digits acc ((48 + d) ∷ t) ≡ read_digits (10 * acc + d) t
unfolding read_digits
read_digit acc d t h = let e : 48 + d - 48 ≡ d = omega arith in rw (digit_lem d h, e) refl

pub digits-last :
    (fuel n : ℕ)
    → ltb n 10 ≡ false
    → digits (suc fuel) n ≡ digits fuel (n / 10) ++ (48 + n % 10) ∷ []
unfolding digits
digits-last fuel n h = rw h refl

pub digits-one : (fuel n : ℕ) → ltb n 10 ≡ true → digits (suc fuel) n ≡ (48 + n) ∷ []
unfolding digits
digits-one fuel n h = rw h refl

read_digits-digits :
    (fuel n : ℕ) (t : Bytes) → n < 10 ^ fuel → read_digits 0 (digits fuel n ++ t) ≡ read_digits n t
read_digits-digits zero n t h = let e : n ≡ 0 = omega arith in unfold digits in rw e refl
read_digits-digits (suc fuel) n t h = elim (Bool-cases (ltb n 10)) [
  | inl e ↦
      let small = ltb→lt n 10 e in
      let same : 10 * 0 + n ≡ n = omega arith in
      rw (digits-one fuel n e) (read_digit 0 n t small ∙ ap (λ x. read_digits x t) same)
  | inr e ↦
      let fewer : n / 10 < 10 ^ fuel = omega arith in
      let same : 10 * (n / 10) + n % 10 ≡ n = omega arith in
      rw (digits-last fuel n e, append_assoc)
        (read_digits-digits fuel (n / 10) ((48 + n % 10) ∷ t) fewer
          ∙ read_digit (n / 10) (n % 10) t (omega arith)
          ∙ ap (λ x. read_digits x t) same)
]

-- The digits of a number start with a digit.
pub first_digit :
    (fuel n : ℕ) → (c : ℕ) × (s : Bytes) × (digits (suc fuel) n ≡ c ∷ s) × (is_digit c ≡ true)
first_digit zero n = elim (Bool-cases (ltb n 10)) [
  | inl e ↦ (48 + n, [], digits-one zero n e, digit_lem n (ltb→lt n 10 e))
  | inr e ↦
      (48 + n % 10, [], unfold digits in digits-last zero n e, digit_lem (n % 10) (omega arith))
]
first_digit (suc fuel) n = elim (Bool-cases (ltb n 10)) [
  | inl e ↦ (48 + n, [], digits-one (suc fuel) n e, digit_lem n (ltb→lt n 10 e))
  | inr e ↦
      let (c, s, f, d) = first_digit fuel (n / 10) in
      (
        c,
        s ++ (48 + n % 10) ∷ [],
        digits-last (suc fuel) n e ∙ ap (λ x. x ++ (48 + n % 10) ∷ []) f,
        d,
      )
]

atoi-digit :
    (c : ℕ) (s : Bytes)
    → is_digit c ≡ true
    → atoi (c ∷ s) ≡ int_of_bits (min (read_digits 0 (c ∷ s)) (2 ^ 63 - 1) % 2 ^ 32)
unfolding atoi atoi_signed skip_white is_white
atoi-digit c s h =
    let minus : (c == b'-') ≡ false = digit_not_minus c h in
    let plus : (c == b'+') ≡ false = digit_not_plus c h in
    let white : is_white c ≡ false = digit_not_white c h in rw (white, minus, plus) refl
  where
    digit_not_minus : (c : ℕ) → is_digit c ≡ true → (c == b'-') ≡ false
    digit_not_minus c h = unfold is_digit in ground arith

    digit_not_plus : (c : ℕ) → is_digit c ≡ true → (c == b'+') ≡ false
    digit_not_plus c h = unfold is_digit in ground arith

    digit_not_white : (c : ℕ) → is_digit c ≡ true → is_white c ≡ false
    digit_not_white c h = unfold is_digit is_white in ground arith

-- The digits that `%zu` prints are worth the number.
pub read_digits-decimal : (n : ℕ) → n < 10 ^ 20 → read_digits 0 (decimal n) ≡ n
unfolding decimal read_digits
read_digits-decimal n h =
    ap (read_digits 0) (sym (append-nil (digits 20 n))) ∙ read_digits-digits 20 n [] h

-- `atoi` reads back what `%zu` prints of every number that an `int` holds.
pub atoi-decimal : (n : ℕ) → n < 2 ^ 31 → atoi (decimal n) ≡ pos n
unfolding decimal int_of_bits
atoi-decimal n h =
    let (c, s, e, d) = first_digit 19 n in
    let read : read_digits 0 (c ∷ s) ≡ n =
      ap (read_digits 0) (sym e) ∙ read_digits-decimal n (omega arith) in
    let cut : min n (2 ^ 63 - 1) % 2 ^ 32 ≡ n = omega arith in
    let small : ltb n (2 ^ 31) ≡ true = ground arith in
    rw e (
      atoi-digit c s d
      ∙ ap (λ x. int_of_bits (min x (2 ^ 63 - 1) % 2 ^ 32)) read
      ∙ ap int_of_bits cut
      ∙ rw small refl)

length-digits : (fuel n : ℕ) → length (digits fuel n) ≤ fuel
unfolding digits
length-digits zero n = omega arith
length-digits (suc fuel) n = elim (Bool-cases (ltb n 10)) [
  | inl e ↦ rw e (omega arith)
  | inr e ↦ rw e (
      omega (
        arith,
        length-append (digits fuel (n / 10)) ((b'0' + n % 10) ∷ []),
        length-digits fuel (n / 10),
      ))
]

-- A number has at most 20 digits.
pub length-decimal : (n : ℕ) → length (decimal n) ≤ 20
unfolding decimal
length-decimal n = length-digits 20 n

all_digits-concat :
    (s : Bytes) (c : ℕ) → all_digits s ≡ true → is_digit c ≡ true → all_digits (s ++ c ∷ []) ≡ true
unfolding all_digits
all_digits-concat [] c h d = rw d refl
all_digits-concat (x ∷ s) c h d = ground (arith, all_digits-concat s c, h, d)

pub all_digits-digits : (fuel n : ℕ) → all_digits (digits fuel n) ≡ true
unfolding digits
all_digits-digits zero n = unfold all_digits in refl
all_digits-digits (suc fuel) n = elim (Bool-cases (ltb n 10)) [
  | inl e ↦
      rw e (all_digits-concat [] (48 + n) (unfold all_digits in refl) (digit_lem n (ltb→lt n 10 e)))
  | inr e ↦ rw e (
      all_digits-concat (digits fuel (n / 10)) (48 + n % 10) (all_digits-digits fuel (n / 10))
        (digit_lem (n % 10) (omega arith)))
]

-- A number has a digit at least, and nothing but digits.
pub all_digits-decimal : (n : ℕ) → (all_digits (decimal n) ≡ true) × (0 < length (decimal n))
unfolding decimal digits
all_digits-decimal n = (
  all_digits-digits 20 n,
  elim (Bool-cases (ltb n 10)) [
    | inl e ↦ rw e (omega arith)
    | inr e ↦ rw e (omega (arith, length-append (digits 19 (n / 10)) ((b'0' + n % 10) ∷ [])))
  ],
)
