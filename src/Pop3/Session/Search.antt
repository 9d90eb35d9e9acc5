-- ===== src/Pop3/Session/Search.antt =====
-- Where `strstr(s, "\r\n")` finds the end of a line in the read buffer.
use pdc_pop3d.Prelude.{
  ℕ, suc, ◌<◌, ◌≡◌, refl, sym, ap, ap₂, ◌∙◌, ◌⊎◌, inl, inr, Bool, true, false, ◌&&◌, Option, none,
  some, List, [], ◌∷◌, ◌++◌, ◌==◌, if◌then◌else◌, arith, length, append-nil, append_assoc,
}
use pdc_pop3d.CString.{Bytes, IsText}
use pdc_pop3d.Text.{deref}
use pdc_pop3d.Pop3.Session.{strstr_crlf}

-- A text without a line end, and some lines behind one another, each with its end, before a rest.
pub record IsPiece (l : Bytes) : Type 0 where
  pub is_text : IsText l
  pub no_end : strstr_crlf l ≡ none

abbrev pub joined_lines : List Bytes → Bytes → Bytes
joined_lines [] r = r
joined_lines (l ∷ ls) r = l ++ 13 ∷ 10 ∷ joined_lines ls r

-- One step of the search, by whether the string ends, whether a line ends, and what is behind.
abbrev step : Bool → Bool → Option ℕ → Option ℕ
step stops found rest =
    if stops
    then none
    else if found
    then some 0
    else elim rest [ none ↦ none | some k ↦ some (suc k) ]

some-none : {A : Type 0} {x : A} → some x ≡ none → ⊥
some-none h = cc

step_front :
    (z e : Bool) (o o' : Option ℕ) → (o ≡ none → o' ≡ none) → step z e o ≡ none → step z e o' ≡ none
step_front true e o o' f h = refl
step_front false true o o' f h = absurd (some-none h)
step_front false false none o' f h = rw (f refl) refl
step_front false false (some k) o' f h = absurd (some-none h)

step_rest : (z e : Bool) (o : Option ℕ) → z ≡ false → step z e o ≡ none → o ≡ none
step_rest true e o z h = cc
step_rest false true o z h = absurd (some-none h)
step_rest false false none z h = refl
step_rest false false (some k) z h = absurd (some-none h)

step_line :
    (z e : Bool) (o o' : Option ℕ) (k : ℕ)
    → z ≡ false
    → step z e o ≡ none
    → o' ≡ some k
    → step z e o' ≡ some (suc k)
step_line true e o o' k z h f = cc
step_line false true o o' k z h f = absurd (some-none h)
step_line false false o o' k z h f = rw f refl

not_nul : (c : ℕ) → 0 < c → (c == 0) ≡ false
not_nul c h = ground arith

-- A front part of what has no line end has none, whatever stands behind its NUL.
pub strstr-front :
    (q m junk : Bytes) → strstr_crlf (q ++ m) ≡ none → strstr_crlf (q ++ 0 ∷ junk) ≡ none
unfolding strstr_crlf
strstr-front [] m junk h = refl
strstr-front (c ∷ []) m junk h = ground arith
strstr-front (c ∷ c' ∷ q) m junk h =
    step_front (c == 0) (c == 13 && c' == 10) (strstr_crlf (c' ∷ (q ++ m)))
      (strstr_crlf (c' ∷ (q ++ 0 ∷ junk))) (strstr-front (c' ∷ q) m junk) h

-- The string itself has none then either.
pub strstr-text : (q junk : Bytes) → strstr_crlf (q ++ 0 ∷ junk) ≡ none → strstr_crlf q ≡ none
unfolding strstr_crlf
strstr-text [] junk h = refl
strstr-text (c ∷ []) junk h = ground arith
strstr-text (c ∷ c' ∷ q) junk h =
    step_front (c == 0) (c == 13 && c' == 10) (strstr_crlf (c' ∷ (q ++ 0 ∷ junk)))
      (strstr_crlf (c' ∷ q)) (strstr-text (c' ∷ q) junk) h

-- What stands behind the first character of a piece.
rest-IsPiece : (c : ℕ) (l : Bytes) → IsPiece (c ∷ l) → IsPiece l
unfolding strstr_crlf
rest-IsPiece c l h = record {
  is_text = h.is_text.1;
  no_end =
      step_rest (c == 0) (c == 13 && deref l == 10) (strstr_crlf l) (not_nul c h.is_text.0)
        h.no_end;
}

pub strstr-line : (l t : Bytes) → IsPiece l → strstr_crlf (l ++ 13 ∷ 10 ∷ t) ≡ some (length l)
unfolding strstr_crlf
strstr-line [] t h = refl
strstr-line (c ∷ []) t h = let z = not_nul c h.is_text.0 in ground arith
strstr-line (c ∷ c' ∷ l) t h =
    step_line (c == 0) (c == 13 && c' == 10) (strstr_crlf (c' ∷ l))
      (strstr_crlf (c' ∷ (l ++ 13 ∷ 10 ∷ t))) (suc (length l)) (not_nul c h.is_text.0) h.no_end
      (strstr-line (c' ∷ l) t (rest-IsPiece c (c' ∷ l) h))

pub strstr-cr : (l : Bytes) → IsPiece l → strstr_crlf (l ++ 13 ∷ []) ≡ none
unfolding strstr_crlf
strstr-cr [] h = refl
strstr-cr (c ∷ []) h = let z = not_nul c h.is_text.0 in ground arith
strstr-cr (c ∷ c' ∷ l) h =
    step_front (c == 0) (c == 13 && c' == 10) (strstr_crlf (c' ∷ l))
      (strstr_crlf (c' ∷ (l ++ 13 ∷ []))) (λ _. strstr-cr (c' ∷ l) (rest-IsPiece c (c' ∷ l) h))
      h.no_end

head_or : ℕ → Bytes → ℕ
head_or n [] = n
head_or n (c ∷ s) = c

tail : Bytes → Bytes
tail [] = []
tail (c ∷ s) = s

-- Two ways to cut a list.
pub append_split :
    (q m a b : Bytes)
    → q ++ m ≡ a ++ b
    → ((m' : Bytes) × (q ++ m' ≡ a)) ⊎ ((q' : Bytes) × (q ≡ a ++ q') × (q' ++ m ≡ b))
unfolding head_or tail
append_split [] m a b h = inl (a, refl)
append_split (c ∷ q) m [] b h = inr (c ∷ q, refl, h)
append_split (c ∷ q) m (c' ∷ a) b h =
    let same : c ≡ c' = ap (head_or 0) h in
    elim (append_split q m a b (ap tail h)) [
      | inl (m', e) ↦ inl (m', ap₂ ◌∷◌ same e)
      | inr (q', e, f) ↦ inr (q', ap₂ ◌∷◌ same e, f)
    ]

-- The bytes in the buffer, with more to come, against the lines that are to come: the first line is
-- complete, or no line end is in sight.
pub first_line :
    (q m l t junk : Bytes)
    → IsPiece l
    → q ++ m ≡ l ++ 13 ∷ 10 ∷ t
    → ((q' : Bytes) × (q ≡ l ++ 13 ∷ 10 ∷ q') × (q' ++ m ≡ t))
      ⊎ (strstr_crlf (q ++ 0 ∷ junk) ≡ none)
unfolding head_or tail
first_line q m l t junk p h =
    elim (append_split q m (l ++ 13 ∷ []) (10 ∷ t) (h ∙ sym (append_assoc l (13 ∷ []) (10 ∷ t)))) [
      | inl (m', e) ↦ inr (strstr-front q m' junk (ap strstr_crlf e ∙ strstr-cr l p))
      | inr ([], e, f) ↦ inr (
          strstr-front q [] junk
            (ap strstr_crlf (append-nil q ∙ e ∙ append-nil (l ++ 13 ∷ [])) ∙ strstr-cr l p))
      | inr (c ∷ q', e, f) ↦ inl (
        q',
        e ∙ append_assoc l (13 ∷ []) (c ∷ q') ∙ ap (λ x. l ++ 13 ∷ x ∷ q') (ap (head_or 0) f),
        ap tail f,
      )
    ]
