-- ===== src/Config/Automaton/RoundTrip.antt =====
-- A request that is written out is read back; and what is read as a token of full length stands at
-- the front of the input.
use pdc_pop3d.Prelude.{
  ℕ, zero, suc, ◌+◌, ◌≤◌, ◌<◌, ◌≡◌, refl, sym, ap, ◌∙◌, true, false, some, [], ◌∷◌, ◌++◌, inl, inr,
  arith, ltb, lt→ltb, if◌then◌else◌, Bool-cases, length, length-append, All, All-append,
  append_assoc, append-nil, take, ◌==◌,
}
use pdc_pop3d.Chars.{is_letter, is_alphanumeric, is_printable, is_space, is_lf}
use pdc_pop3d.CString.{Bytes, IsText}
use pdc_pop3d.CString.Padded.{IsText-of_letters, IsText-of_printables, IsText-of_alphanumerics}
use pdc_pop3d.Parser.{feed_all}
use pdc_pop3d.Config.Automaton.{
  token_max, operation_max, object_code_max, argument_max, Request, request_of,
}
use pdc_pop3d.Config.Automaton.Data.{reading, nothing_read}
use pdc_pop3d.Config.Automaton.Descent.{
  at_end, descend_argument, descend_object_code, descend_operation, descend_token,
  request_of-descend,
}

-- A request as a client writes it; without an argument the last space is left out.
abbrev pub render : Request → Bytes
render r =
    r.token
    ++ b' '
      ∷ (r.operation
          ++ b' ' ∷ (r.object_code ++ (if length r.argument == 0 then [] else b' ' ∷ r.argument)))

-- A request that the protocol can carry.
pub record IsRequest (r : Request) : Type 0 where
  pub token_text : All (λ c. is_alphanumeric c ≡ true) r.token
  pub token_fits : length r.token ≡ token_max
  pub operation_text : All (λ c. is_letter c ≡ true) r.operation
  pub operation_fits : length r.operation ≡ operation_max
  pub object_code_text : All (λ c. is_letter c ≡ true) r.object_code
  pub object_code_fits : length r.object_code ≡ object_code_max
  pub argument_text : All (λ c. is_printable c ≡ true) r.argument
  pub argument_fits : length r.argument ≤ argument_max

line_feed_lem :
    (is_letter 10 ≡ false) × (is_printable 10 ≡ false) × (is_space 10 ≡ false) × (is_lf 10 ≡ true)
unfolding is_letter is_printable is_space is_lf
line_feed_lem = (refl, refl, refl, refl)

space_lem : is_space 32 ≡ true
unfolding is_space
space_lem = refl

argument-read :
    (a : Bytes) (r : Request) (rest : Bytes)
    → All (λ c. is_printable c ≡ true) a
    → length r.argument + length a ≤ argument_max
    → descend_argument r (a ++ 10 ∷ rest) ≡ some (record r { argument = r.argument ++ a })
argument-read [] r rest p h = rw (line_feed_lem.1, line_feed_lem.3, append-nil) refl
argument-read (c ∷ a) r rest p h =
    let small : ltb (length r.argument) argument_max ≡ true = lt→ltb _ _ (omega arith) in
    rw (p.0, small)
      (argument-read a (record r { argument = r.argument ++ c ∷ [] }) rest p.1
          (omega (arith, length-append r.argument (c ∷ [])))
        ∙ ap (λ x. some (record r { argument = x })) (append_assoc r.argument (c ∷ []) a))

object_code-read :
    (w : Bytes) (r : Request) (rest : Bytes)
    → All (λ c. is_letter c ≡ true) w
    → descend_object_code (length w) r (w ++ rest)
      ≡ descend_object_code 0 (record r { object_code = r.object_code ++ w }) rest
object_code-read [] r rest p = rw append-nil refl
object_code-read (c ∷ w) r rest p = rw p.0 (
    object_code-read w (record r { object_code = r.object_code ++ c ∷ [] }) rest p.1
    ∙ ap (λ x. descend_object_code 0 (record r { object_code = x }) rest)
        (append_assoc r.object_code (c ∷ []) w))

operation-read :
    (w : Bytes) (r : Request) (rest : Bytes)
    → All (λ c. is_letter c ≡ true) w
    → descend_operation (length w) r (w ++ b' ' ∷ rest)
      ≡ descend_object_code 3 (record r { operation = r.operation ++ w }) rest
operation-read [] r rest p = rw (space_lem, append-nil) refl
operation-read (c ∷ w) r rest p = rw p.0 (
    operation-read w (record r { operation = r.operation ++ c ∷ [] }) rest p.1
    ∙ ap (λ x. descend_object_code 3 (record r { operation = x }) rest)
        (append_assoc r.operation (c ∷ []) w))

token-read :
    (w : Bytes) (r : Request) (rest : Bytes)
    → All (λ c. is_alphanumeric c ≡ true) w
    → descend_token (length w) r (w ++ b' ' ∷ rest)
      ≡ descend_operation 3 (record r { token = r.token ++ w }) rest
token-read [] r rest p = rw (space_lem, append-nil) refl
token-read (c ∷ w) r rest p = rw p.0 (
    token-read w (record r { token = r.token ++ c ∷ [] }) rest p.1
    ∙ ap (λ x. descend_operation 3 (record r { token = x }) rest) (append_assoc r.token (c ∷ []) w))

-- What stands behind the object code.
tail-read :
    (a : Bytes) (r : Request) (rest : Bytes)
    → r.argument ≡ []
    → All (λ c. is_printable c ≡ true) a
    → length a ≤ argument_max
    → descend_object_code 0 r ((if length a == 0 then [] else b' ' ∷ a) ++ 10 ∷ rest)
      ≡ some (record r { argument = a })
tail-read [] r rest e p h =
    rw (line_feed_lem.2, line_feed_lem.3) (ap (λ x. some (record r { argument = x })) e)
tail-read (c ∷ a) r rest e p h =
    let nonempty : (suc (length a) == 0) ≡ false = ground arith in
    rw (nonempty, space_lem)
      (argument-read (c ∷ a) r rest p (omega (arith, ap length e))
        ∙ ap (λ x. some (record r { argument = x ++ c ∷ a })) e)

render-append :
    (t o k tail end : Bytes)
    → (t ++ b' ' ∷ (o ++ b' ' ∷ (k ++ tail))) ++ end
      ≡ t ++ b' ' ∷ (o ++ b' ' ∷ (k ++ (tail ++ end)))
render-append t o k tail end =
    append_assoc t _ end
    ∙ ap (λ x. t ++ b' ' ∷ x)
        (append_assoc o _ end ∙ ap (λ x. o ++ b' ' ∷ x) (append_assoc k tail end))

-- Every request that the protocol can carry, written out with a line feed behind it and anything
-- behind that, is read back by the automaton and its getters.
pub request_of-render :
    (r : Request) (rest : Bytes)
    → IsRequest r
    → request_of (feed_all (reading 0 nothing_read) (render r ++ 10 ∷ rest)) ≡ some r
request_of-render r rest h =
    let tail = (if length r.argument == 0 then [] else b' ' ∷ r.argument) in
    let end = tail ++ 10 ∷ rest in
    let behind = r.operation ++ b' ' ∷ (r.object_code ++ end) in
    let r1 = record nothing_read { token = r.token } in
    let r2 = record r1 { operation = r.operation } in
    let r3 = record r2 { object_code = r.object_code } in
    request_of-descend (render r ++ 10 ∷ rest)
    ∙ ap (descend_token 10 nothing_read)
        (render-append r.token r.operation r.object_code tail (10 ∷ rest))
    ∙ ap (λ n. descend_token n nothing_read (r.token ++ b' ' ∷ behind)) (sym h.token_fits)
    ∙ token-read r.token nothing_read behind h.token_text
    ∙ ap (λ n. descend_operation n r1 behind) (sym h.operation_fits)
    ∙ operation-read r.operation r1 (r.object_code ++ end) h.operation_text
    ∙ ap (λ n. descend_object_code n r2 (r.object_code ++ end)) (sym h.object_code_fits)
    ∙ object_code-read r.object_code r2 end h.object_code_text
    ∙ tail-read r.argument r3 rest refl h.argument_text h.argument_fits

-- What stands behind the token does not change it.
at_end-token : (r r' : Request) (c : ℕ) → at_end r c ≡ some r' → r'.token ≡ r.token
at_end-token r r' c h = ground arith

argument-token :
    (line : Bytes) (r r' : Request) → descend_argument r line ≡ some r' → r'.token ≡ r.token
argument-token [] r r' h = cc
argument-token (c ∷ cs) r r' h =
    ground (arith, argument-token cs (record r { argument = r.argument ++ c ∷ [] }) r')

object_code-token :
    (k : ℕ) (line : Bytes) (r r' : Request)
    → descend_object_code k r line ≡ some r'
    → r'.token ≡ r.token
object_code-token zero [] r r' h = cc
object_code-token (suc k) [] r r' h = cc
object_code-token zero (c ∷ cs) r r' h = ground (arith, argument-token cs r r')
object_code-token (suc k) (c ∷ cs) r r' h =
    ground (arith, object_code-token k cs (record r { object_code = r.object_code ++ c ∷ [] }) r')

operation-token :
    (k : ℕ) (line : Bytes) (r r' : Request)
    → descend_operation k r line ≡ some r'
    → r'.token ≡ r.token
operation-token zero [] r r' h = cc
operation-token (suc k) [] r r' h = cc
operation-token zero (c ∷ cs) r r' h = ground (arith, object_code-token 3 cs r r')
operation-token (suc k) (c ∷ cs) r r' h =
    ground (arith, operation-token k cs (record r { operation = r.operation ++ c ∷ [] }) r')

token-full : (line : Bytes) (r r' : Request) → descend_token 0 r line ≡ some r' → r'.token ≡ r.token
token-full [] r r' h = cc
token-full (c ∷ cs) r r' h = ground (arith, operation-token 3 cs r r')

token-front :
    (k : ℕ) (line : Bytes) (r r' : Request)
    → descend_token k r line ≡ some r'
    → length r'.token ≡ length r.token + k
    → r'.token ≡ r.token ++ take k line
token-front zero line r r' h l = token-full line r r' h ∙ sym (append-nil r.token)
token-front (suc k) [] r r' h l =
    let same : r'.token ≡ r.token = cc in absurd (omega (arith, ap length same))
token-front (suc k) (c ∷ cs) r r' h l = elim (Bool-cases (is_alphanumeric c)) [
  | inl e ↦
      token-front k cs (record r { token = r.token ++ c ∷ [] }) r' (rw e at h)
        (omega (arith, length-append r.token (c ∷ [])))
      ∙ append_assoc r.token (c ∷ []) (take k cs)
  | inr e ↦ let same = at_end-token r r' c (rw e at h) in absurd (omega (arith, ap length same))
]

-- When a token of ten characters is read off the input, it is the input's first ten bytes.
pub request_of-token :
    (line : Bytes) (r : Request)
    → request_of (feed_all (reading 0 nothing_read) line) ≡ some r
    → length r.token ≡ token_max
    → r.token ≡ take token_max line
request_of-token line r h l =
    token-front 10 line nothing_read r (sym (request_of-descend line) ∙ h) (omega arith)

IsText-append : (s t : Bytes) → IsText s → IsText t → IsText (s ++ t)
IsText-append s t = All-append (λ c. 0 < c) s t

pub render-IsText : (r : Request) → IsRequest r → IsText (render r)
render-IsText r h = IsText-append r.token _ (IsText-of_alphanumerics r.token h.token_text) (
  omega arith,
  IsText-append r.operation _ (IsText-of_letters r.operation h.operation_text) (
    omega arith,
    IsText-append r.object_code _ (IsText-of_letters r.object_code h.object_code_text)
        (tail_text r.argument h.argument_text),
  ),
)
  where
    tail_text :
        (a : Bytes)
        → All (λ c. is_printable c ≡ true) a
        → IsText (if length a == 0 then [] else b' ' ∷ a)
    tail_text [] p = tt
    tail_text (c ∷ a) p =
        let nonempty : (suc (length a) == 0) ≡ false = ground arith in
        rw nonempty (omega arith, IsText-of_printables (c ∷ a) p)
