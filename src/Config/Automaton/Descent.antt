-- ===== src/Config/Automaton/Descent.antt =====
-- The automaton of a configuration request reads what a recursive descent over the bytes reads.
use pdc_pop3d.Prelude.{
  ℕ, zero, suc, ◌+◌, ◌<◌, ◌≡◌, refl, ap, ◌∙◌, true, false, Option, none, some, [], ◌∷◌, ◌++◌, inl,
  inr, arith, ltb, if◌then◌else◌, Bool-cases, ltb→lt, All-concat, length, length-append,
}
use pdc_pop3d.Chars.{is_letter, is_alphanumeric, is_printable, is_space, is_lf}
use pdc_pop3d.CString.{Bytes}
use pdc_pop3d.Parser.{parser_feed, feed_all}
use pdc_pop3d.Parser.Feed.{feed_all-error}
use pdc_pop3d.Config.Automaton.{
  token_max, operation_max, object_code_max, argument_max, token_action, operation_action,
  object_code_action, argument_action, def_action, Request, request_of,
}
use pdc_pop3d.Config.Automaton.Data.{
  reading, nothing_read, Fits, token_action_lem, operation_action_lem, object_code_action_lem,
  argument_action_lem,
}
use pdc_pop3d.Config.Automaton.Feeds.{
  token-row, operation-row, object_code-row, run, run-nil, run-class, run-lf, run-other,
}

-- A line feed ends the request, and nothing else may stand here.
abbrev pub at_end : Request → ℕ → Option Request
at_end r c = if is_lf c then some r else none

abbrev pub descend_argument : Request → Bytes → Option Request
descend_argument r [] = some r
descend_argument r (c ∷ cs) =
    if is_printable c
    then if ltb (length r.argument) argument_max
      then descend_argument (record r { argument = r.argument ++ c ∷ [] }) cs
      else none
    else at_end r c

-- `k` letters of the object code are left.
abbrev pub descend_object_code : ℕ → Request → Bytes → Option Request
descend_object_code k r [] = some r
descend_object_code zero r (c ∷ cs) = if is_space c then descend_argument r cs else at_end r c
descend_object_code (suc k) r (c ∷ cs) =
    if is_letter c
    then descend_object_code k (record r { object_code = r.object_code ++ c ∷ [] }) cs
    else at_end r c

abbrev pub descend_operation : ℕ → Request → Bytes → Option Request
descend_operation k r [] = some r
descend_operation zero r (c ∷ cs) = if is_space c then descend_object_code 3 r cs else at_end r c
descend_operation (suc k) r (c ∷ cs) =
    if is_letter c
    then descend_operation k (record r { operation = r.operation ++ c ∷ [] }) cs
    else at_end r c

abbrev pub descend_token : ℕ → Request → Bytes → Option Request
descend_token k r [] = some r
descend_token zero r (c ∷ cs) = if is_space c then descend_operation 3 r cs else at_end r c
descend_token (suc k) r (c ∷ cs) =
    if is_alphanumeric c
    then descend_token k (record r { token = r.token ++ c ∷ [] }) cs
    else at_end r c

Fits-argument :
    {r : Request} (c : ℕ)
    → Fits r
    → is_printable c ≡ true
    → length r.argument < argument_max
    → Fits (record r { argument = r.argument ++ c ∷ [] })
Fits-argument {r} c f p h = record {
  token_text = f.token_text;
  token_fits = f.token_fits;
  operation_text = f.operation_text;
  operation_fits = f.operation_fits;
  object_code_text = f.object_code_text;
  object_code_fits = f.object_code_fits;
  argument_text = All-concat (λ x. is_printable x ≡ true) r.argument c f.argument_text p;
  argument_fits = omega (arith, length-append r.argument (c ∷ []));
}

Fits-object_code :
    {r : Request} (c : ℕ)
    → Fits r
    → is_letter c ≡ true
    → length r.object_code < object_code_max
    → Fits (record r { object_code = r.object_code ++ c ∷ [] })
Fits-object_code {r} c f p h = record {
  token_text = f.token_text;
  token_fits = f.token_fits;
  operation_text = f.operation_text;
  operation_fits = f.operation_fits;
  object_code_text = All-concat (λ x. is_letter x ≡ true) r.object_code c f.object_code_text p;
  object_code_fits = omega (arith, length-append r.object_code (c ∷ []));
  argument_text = f.argument_text;
  argument_fits = f.argument_fits;
}

Fits-operation :
    {r : Request} (c : ℕ)
    → Fits r
    → is_letter c ≡ true
    → length r.operation < operation_max
    → Fits (record r { operation = r.operation ++ c ∷ [] })
Fits-operation {r} c f p h = record {
  token_text = f.token_text;
  token_fits = f.token_fits;
  operation_text = All-concat (λ x. is_letter x ≡ true) r.operation c f.operation_text p;
  operation_fits = omega (arith, length-append r.operation (c ∷ []));
  object_code_text = f.object_code_text;
  object_code_fits = f.object_code_fits;
  argument_text = f.argument_text;
  argument_fits = f.argument_fits;
}

Fits-token :
    {r : Request} (c : ℕ)
    → Fits r
    → is_alphanumeric c ≡ true
    → length r.token < token_max
    → Fits (record r { token = r.token ++ c ∷ [] })
Fits-token {r} c f p h = record {
  token_text = All-concat (λ x. is_alphanumeric x ≡ true) r.token c f.token_text p;
  token_fits = omega (arith, length-append r.token (c ∷ []));
  operation_text = f.operation_text;
  operation_fits = f.operation_fits;
  object_code_text = f.object_code_text;
  object_code_fits = f.object_code_fits;
  argument_text = f.argument_text;
  argument_fits = f.argument_fits;
}

run-argument : (r : Request) (line : Bytes) → Fits r → run 19 r line ≡ descend_argument r line
run-argument r [] f = run-nil 19 r f
run-argument r (c ∷ cs) f = elim (Bool-cases (is_printable c)) [
  | inl e ↦ elim (Bool-cases (ltb (length r.argument) argument_max)) [
    | inl h ↦
        let small = ltb→lt (length r.argument) argument_max h in
        let r' = record r { argument = r.argument ++ c ∷ [] } in
        rw (e, h)
          (run-class 19 19 is_printable argument_action refl r c cs r' (omega arith) e
              (argument_action_lem r c small)
            ∙ run-argument r' cs (Fits-argument c f e small))
    | inr h ↦ rw (e, h) (too_long e h)
  ]
  | inr e ↦ elim (Bool-cases (is_lf c)) [
    | inl l ↦ rw (e, l) (run-lf 19 19 is_printable argument_action refl r c cs e l f)
    | inr l ↦ rw (e, l) (run-other 19 19 is_printable argument_action refl r c cs e l)
  ]
]
  where
    too_long :
        is_printable c ≡ true
        → ltb (length r.argument) argument_max ≡ false
        → run 19 r (c ∷ cs) ≡ none
    too_long e h =
        let x =
          feed_all-error (reading 19 r) c cs
            (unfold parser_feed argument_action in rw (e, h) refl) in
        unfold request_of in ground (arith, x)

run-object_code_full :
    (r : Request) (line : Bytes) → Fits r → run 18 r line ≡ descend_object_code 0 r line
run-object_code_full r [] f = run-nil 18 r f
run-object_code_full r (c ∷ cs) f = elim (Bool-cases (is_space c)) [
  | inl e ↦ rw e (
      run-class 18 19 is_space def_action refl r c cs r (omega arith) e (unfold def_action in refl)
      ∙ run-argument r cs f)
  | inr e ↦ elim (Bool-cases (is_lf c)) [
    | inl l ↦ rw (e, l) (run-lf 18 19 is_space def_action refl r c cs e l f)
    | inr l ↦ rw (e, l) (run-other 18 19 is_space def_action refl r c cs e l)
  ]
]

run-object_code :
    (k i : ℕ) (r : Request) (line : Bytes)
    → i + k ≡ 3
    → length r.object_code ≡ i
    → Fits r
    → run (15 + i) r line ≡ descend_object_code k r line
run-object_code zero i r line e l f =
    let z : i ≡ 3 = omega arith in rw z (run-object_code_full r line f)
run-object_code (suc k) i r [] e l f = run-nil (15 + i) r f
run-object_code (suc k) i r (c ∷ cs) e l f =
    let row_is = object_code-row i (omega arith) in
    let r' = record r { object_code = r.object_code ++ c ∷ [] } in
    let small : length r.object_code < object_code_max = omega arith in
    let shift : 16 + i ≡ 15 + (i + 1) = omega arith in
    elim (Bool-cases (is_letter c)) [
      | inl h ↦ rw h (
          run-class (15 + i) (16 + i) is_letter object_code_action row_is r c cs r' (omega arith) h
            (object_code_action_lem r c small)
          ∙ ap (λ s. run s r' cs) shift
          ∙ run-object_code k (i + 1) r' cs (omega arith)
              (omega (arith, length-append r.object_code (c ∷ []))) (Fits-object_code c f h small))
      | inr h ↦ elim (Bool-cases (is_lf c)) [
        | inl z ↦
            rw (h, z) (run-lf (15 + i) (16 + i) is_letter object_code_action row_is r c cs h z f)
        | inr z ↦
            rw (h, z) (run-other (15 + i) (16 + i) is_letter object_code_action row_is r c cs h z)
      ]
    ]

run-operation_full :
    (r : Request) (line : Bytes)
    → Fits r
    → r.object_code ≡ []
    → run 14 r line ≡ descend_operation 0 r line
run-operation_full r [] f n = run-nil 14 r f
run-operation_full r (c ∷ cs) f n = elim (Bool-cases (is_space c)) [
  | inl e ↦ rw e (
      run-class 14 15 is_space def_action refl r c cs r (omega arith) e (unfold def_action in refl)
      ∙ run-object_code 3 0 r cs refl (ap length n) f)
  | inr e ↦ elim (Bool-cases (is_lf c)) [
    | inl l ↦ rw (e, l) (run-lf 14 15 is_space def_action refl r c cs e l f)
    | inr l ↦ rw (e, l) (run-other 14 15 is_space def_action refl r c cs e l)
  ]
]

run-operation :
    (k i : ℕ) (r : Request) (line : Bytes)
    → i + k ≡ 3
    → length r.operation ≡ i
    → Fits r
    → r.object_code ≡ []
    → run (11 + i) r line ≡ descend_operation k r line
run-operation zero i r line e l f n =
    let z : i ≡ 3 = omega arith in rw z (run-operation_full r line f n)
run-operation (suc k) i r [] e l f n = run-nil (11 + i) r f
run-operation (suc k) i r (c ∷ cs) e l f n =
    let row_is = operation-row i (omega arith) in
    let r' = record r { operation = r.operation ++ c ∷ [] } in
    let small : length r.operation < operation_max = omega arith in
    let shift : 12 + i ≡ 11 + (i + 1) = omega arith in
    elim (Bool-cases (is_letter c)) [
      | inl h ↦ rw h (
          run-class (11 + i) (12 + i) is_letter operation_action row_is r c cs r' (omega arith) h
            (operation_action_lem r c small)
          ∙ ap (λ s. run s r' cs) shift
          ∙ run-operation k (i + 1) r' cs (omega arith)
              (omega (arith, length-append r.operation (c ∷ []))) (Fits-operation c f h small) n)
      | inr h ↦ elim (Bool-cases (is_lf c)) [
        | inl z ↦
            rw (h, z) (run-lf (11 + i) (12 + i) is_letter operation_action row_is r c cs h z f)
        | inr z ↦
            rw (h, z) (run-other (11 + i) (12 + i) is_letter operation_action row_is r c cs h z)
      ]
    ]

run-token_full :
    (r : Request) (line : Bytes)
    → Fits r
    → r.operation ≡ []
    → r.object_code ≡ []
    → run 10 r line ≡ descend_token 0 r line
run-token_full r [] f m n = run-nil 10 r f
run-token_full r (c ∷ cs) f m n = elim (Bool-cases (is_space c)) [
  | inl e ↦ rw e (
      run-class 10 11 is_space def_action refl r c cs r (omega arith) e (unfold def_action in refl)
      ∙ run-operation 3 0 r cs refl (ap length m) f n)
  | inr e ↦ elim (Bool-cases (is_lf c)) [
    | inl l ↦ rw (e, l) (run-lf 10 11 is_space def_action refl r c cs e l f)
    | inr l ↦ rw (e, l) (run-other 10 11 is_space def_action refl r c cs e l)
  ]
]

run-token :
    (k i : ℕ) (r : Request) (line : Bytes)
    → i + k ≡ 10
    → length r.token ≡ i
    → Fits r
    → r.operation ≡ []
    → r.object_code ≡ []
    → run (i) r line ≡ descend_token k r line
run-token zero i r line e l f m n =
    let z : i ≡ 10 = omega arith in rw z (run-token_full r line f m n)
run-token (suc k) i r [] e l f m n = run-nil (i) r f
run-token (suc k) i r (c ∷ cs) e l f m n =
    let row_is = token-row i (omega arith) in
    let r' = record r { token = r.token ++ c ∷ [] } in
    let small : length r.token < token_max = omega arith in
    let shift : i + 1 ≡ i + 1 = omega arith in
    elim (Bool-cases (is_alphanumeric c)) [
      | inl h ↦ rw h (
          run-class (i) (i + 1) is_alphanumeric token_action row_is r c cs r' (omega arith) h
            (token_action_lem r c small)
          ∙ ap (λ s. run s r' cs) shift
          ∙ run-token k (i + 1) r' cs (omega arith) (omega (arith, length-append r.token (c ∷ [])))
              (Fits-token c f h small) m n)
      | inr h ↦ elim (Bool-cases (is_lf c)) [
        | inl z ↦ rw (h, z) (run-lf (i) (i + 1) is_alphanumeric token_action row_is r c cs h z f)
        | inr z ↦ rw (h, z) (run-other (i) (i + 1) is_alphanumeric token_action row_is r c cs h z)
      ]
    ]

-- The automaton, its actions and its getters read what the descent reads.
pub request_of-descend :
    (line : Bytes)
    → request_of (feed_all (reading 0 nothing_read) line) ≡ descend_token 10 nothing_read line
request_of-descend line =
    run-token 10 0 nothing_read line refl refl
      (record {
        token_text = tt;
        token_fits = omega arith;
        operation_text = tt;
        operation_fits = omega arith;
        object_code_text = tt;
        object_code_fits = omega arith;
        argument_text = tt;
        argument_fits = omega arith;
      })
      refl refl
