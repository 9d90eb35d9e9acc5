-- ===== src/Text/Compare.antt =====
-- What `strncasecmp` of src/parser/parserADT.c decides.
use pdc_pop3d.Prelude.{
  ℕ, zero, suc, ◌≡◌, refl, ap₂, ◌↔◌, ◌⊎◌, false, [], ◌∷◌, inl, inr, map, arith, ◌==◌, ==_iff,
  Bool-cases, take, drop, take-nil, pos, sub_ℕ,
}
use pdc_pop3d.Chars.{tolower}
use pdc_pop3d.CString.{Bytes, cstr}
use pdc_pop3d.Text.{deref, case_loop, strncasecmp}

-- The first `n` characters of the string at `s`, in lower case.
abbrev pub folded : ℕ → Bytes → Bytes
folded n s = map tolower (take n (cstr s))

tolower-eq-zero : (c : ℕ) → (tolower c ≡ 0) ↔ (c ≡ 0)
unfolding tolower
tolower-eq-zero c = (λ h. ground arith, λ h. ground arith)

sub-eq-zero : (a b : ℕ) → (sub_ℕ a b ≡ pos 0) ↔ (a ≡ b)
sub-eq-zero a b = (λ h. ground arith, λ h. ground arith)

folded-zero : (n : ℕ) (s : Bytes) → deref s ≡ 0 → folded n s ≡ []
folded-zero n [] h = rw take-nil
folded-zero n (c ∷ s) h = rw ((==_iff c 0).1 h, take-nil)

folded-suc :
    (n : ℕ) (s : Bytes)
    → (deref s == 0) ≡ false
    → folded (suc n) s ≡ tolower (deref s) ∷ folded n (drop 1 s)
folded-suc n [] h = cc
folded-suc n (c ∷ s) h = rw h

-- The head of the folded string, which is NUL where the string ends.
head_folded : (n : ℕ) (s : Bytes) → deref (folded (suc n) s) ≡ tolower (deref s)
unfolding tolower
head_folded n [] = refl
head_folded n (c ∷ s) = ground arith

-- Two strings of which one ends.
both_end :
    (n : ℕ) (s1 s2 : Bytes)
    → tolower (deref s1) ≡ tolower (deref s2)
    → (deref s1 ≡ 0) ⊎ (deref s2 ≡ 0)
    → folded n s1 ≡ folded n s2
both_end n s1 s2 e (inl h) =
    let z : deref s2 ≡ 0 = (tolower-eq-zero _).0 (omega (arith, e, (tolower-eq-zero _).1 h)) in
    rw (folded-zero n s1 h, folded-zero n s2 z)
both_end n s1 s2 e (inr h) =
    let z : deref s1 ≡ 0 = (tolower-eq-zero _).0 (omega (arith, e, (tolower-eq-zero _).1 h)) in
    rw (folded-zero n s1 z, folded-zero n s2 h)

Agree : ℕ → Bytes → Bytes → Type 0
Agree n s1 s2 =
    (tolower (deref (case_loop n s1 s2).0) ≡ tolower (deref (case_loop n s1 s2).1))
    ↔ (folded n s1 ≡ folded n s2)

-- The loop stops where it stands when the characters differ or it must not go on.
loop_stop :
    (n : ℕ) (s1 s2 : Bytes)
    → (tolower (deref s1) ≡ tolower (deref s2) → (n ≡ 0) ⊎ ((deref s1 ≡ 0) ⊎ (deref s2 ≡ 0)))
    → case_loop (suc n) s1 s2 ≡ (s1, s2)
unfolding case_loop
loop_stop n s1 s2 h = ground (arith, h)

loop_go :
    (n : ℕ) (s1 s2 : Bytes)
    → tolower (deref s1) ≡ tolower (deref s2)
    → (deref s1 == 0) ≡ false
    → (deref s2 == 0) ≡ false
    → case_loop (suc (suc n)) s1 s2 ≡ case_loop (suc n) (drop 1 s1) (drop 1 s2)
unfolding case_loop
loop_go n s1 s2 e p q = ground arith

Agree-stop :
    (n : ℕ) (s1 s2 : Bytes)
    → (tolower (deref s1) ≡ tolower (deref s2) → (n ≡ 0) ⊎ ((deref s1 ≡ 0) ⊎ (deref s2 ≡ 0)))
    → (tolower (deref s1) ≡ tolower (deref s2) → folded (suc n) s1 ≡ folded (suc n) s2)
    → Agree (suc n) s1 s2
unfolding Agree
Agree-stop n s1 s2 h k =
    rw (loop_stop n s1 s2 h) (k, λ e. rw (← head_folded n s1, ← head_folded n s2, e))

cons-eq_iff : {a b : ℕ} {xs ys : Bytes} → a ≡ b → ((xs ≡ ys) ↔ ((a ∷ xs) ≡ (b ∷ ys)))
cons-eq_iff e = (λ h. ap₂ ◌∷◌ e h, λ h. ground arith)

one_folded :
    (s1 s2 : Bytes)
    → tolower (deref s1) ≡ tolower (deref s2)
    → (deref s1 == 0) ≡ false
    → (deref s2 == 0) ≡ false
    → folded 1 s1 ≡ folded 1 s2
one_folded s1 s2 e p q = rw (folded-suc 0 s1 p, folded-suc 0 s2 q, e)

Agree-go :
    (n : ℕ) (s1 s2 : Bytes)
    → tolower (deref s1) ≡ tolower (deref s2)
    → (deref s1 == 0) ≡ false
    → (deref s2 == 0) ≡ false
    → Agree (suc n) (drop 1 s1) (drop 1 s2)
    → Agree (suc (suc n)) s1 s2
unfolding Agree
Agree-go n s1 s2 f p q (later, back) =
    let heads = cons-eq_iff f in
    rw (loop_go n s1 s2 f p q, folded-suc (suc n) s1 p, folded-suc (suc n) s2 q)
      (λ h. heads.0 (later h), λ h. back (heads.1 h))

-- The cases of a round of the loop; `live` is the one where both strings go on.
Agree-cases :
    (n : ℕ) (s1 s2 : Bytes)
    → (tolower (deref s1) ≡ tolower (deref s2)
        → (deref s1 == 0) ≡ false
        → (deref s2 == 0) ≡ false
        → Agree (suc n) s1 s2)
    → Agree (suc n) s1 s2
Agree-cases n s1 s2 live = elim (Bool-cases (tolower (deref s1) == tolower (deref s2))) [
  | inr e ↦ Agree-stop n s1 s2 (λ h. absurd (ground arith)) (λ h. absurd (ground arith))
  | inl e ↦
      let f = (==_iff (tolower (deref s1)) (tolower (deref s2))).0 e in
      elim (Bool-cases (deref s1 == 0)) [
        | inl z ↦
            let z' = (==_iff (deref s1) 0).0 z in
            Agree-stop n s1 s2 (λ _. inr (inl z')) (λ g. both_end (suc n) s1 s2 g (inl z'))
        | inr p ↦ elim (Bool-cases (deref s2 == 0)) [
          | inl z ↦
              let z' = (==_iff (deref s2) 0).0 z in
              Agree-stop n s1 s2 (λ _. inr (inr z')) (λ g. both_end (suc n) s1 s2 g (inr z'))
          | inr q ↦ live f p q
        ]
      ]
]

loop_iff : (n : ℕ) (s1 s2 : Bytes) → Agree (suc n) s1 s2
loop_iff zero s1 s2 =
    Agree-cases 0 s1 s2 (λ f p q. Agree-stop 0 s1 s2 (λ _. inl refl) (λ g. one_folded s1 s2 g p q))
loop_iff (suc n) s1 s2 =
    Agree-cases (suc n) s1 s2 (λ f p q. Agree-go n s1 s2 f p q (loop_iff n (drop 1 s1) (drop 1 s2)))

-- `strncasecmp` answers 0 exactly when the first `n` characters of the two strings, up to their
-- ends, are the same letters and signs but for the case.
pub strncasecmp_iff :
    (s1 s2 : Bytes) (n : ℕ) → (strncasecmp s1 s2 n ≡ pos 0) ↔ (folded n s1 ≡ folded n s2)
unfolding strncasecmp Agree
strncasecmp_iff s1 s2 zero = (λ _. refl, λ _. refl)
strncasecmp_iff s1 s2 (suc n) =
    let (there, back) = loop_iff n s1 s2 in
    let (zero_eq, eq_zero) =
      sub-eq-zero (tolower (deref (case_loop (suc n) s1 s2).0))
        (tolower (deref (case_loop (suc n) s1 s2).1)) in
    let some_left : (suc n == 0) ≡ false = ground arith in
    rw some_left (λ h. there (zero_eq h), λ h. eq_zero (back h))
