-- ===== src/Config/Automaton/Data.antt =====
-- The four arrays of `config_parser_data` as the words that they hold.
use pdc_pop3d.Prelude.{
  ℕ, zero, suc, ◌+◌, ◌-◌, ◌^◌, ◌≤◌, ◌<◌, ◌≡◌, refl, ◌∙◌, true, [], ◌∷◌, ◌++◌, arith, some, lt→ltb,
  length, length-append, All, append-nil, replicate,
}
use pdc_pop3d.Chars.{is_letter, is_printable, is_alphanumeric}
use pdc_pop3d.CString.{Bytes, cstr, strncpy, cstr-append_text}
use pdc_pop3d.CString.Padded.{
  padded, set-padded, copied, strncpy_text, IsText-of_letters, IsText-of_printables,
  IsText-of_alphanumerics,
}
use pdc_pop3d.Parser.{Parser, parser_reading, parser_finished, parser_init}
use pdc_pop3d.Config.Automaton.{
  ConfigParserData, token_max, operation_max, object_code_max, argument_max, token_action,
  operation_action, object_code_action, argument_action, config_parser_automaton,
  config_parser_init, get_config_token, get_config_operation, get_config_object_code,
  get_config_argument, strcspn_lf, Request, request_of, counted,
}

-- The data that hold the words of a request.
abbrev pub holding : Request → ConfigParserData
holding r = record {
  token = padded (token_max + 1) r.token;
  operation = padded (operation_max + 1) r.operation;
  object_code = padded (object_code_max + 1) r.object_code;
  argument = padded (argument_max + 1) r.argument;
  token_length = length r.token;
  operation_length = length r.operation;
  object_code_length = length r.object_code;
  argument_length = length r.argument;
}

-- The parser in automaton state `s` with those data, and no error so far.
abbrev pub reading : ℕ → Request → Parser ConfigParserData
reading s r = record {
  def = config_parser_automaton;
  state = s;
  parser_state = parser_reading;
  content = holding r;
}

abbrev pub nothing_read : Request
nothing_read = record { token = []; operation = []; object_code = []; argument = [] }

pub parser_init-config :
    parser_init config_parser_automaton true true ≡ some (reading 0 nothing_read)
unfolding parser_init config_parser_init
parser_init-config = refl

-- The words that a state of the automaton may hold.
pub record Fits (r : Request) : Type 0 where
  pub token_text : All (λ c. is_alphanumeric c ≡ true) r.token
  pub token_fits : length r.token ≤ token_max
  pub operation_text : All (λ c. is_letter c ≡ true) r.operation
  pub operation_fits : length r.operation ≤ operation_max
  pub object_code_text : All (λ c. is_letter c ≡ true) r.object_code
  pub object_code_fits : length r.object_code ≤ object_code_max
  pub argument_text : All (λ c. is_printable c ≡ true) r.argument
  pub argument_fits : length r.argument ≤ argument_max

-- A length counted on, and the word that has it.
counted-length : (w : Bytes) (c : ℕ) → length w < 2 ^ 32 → counted (length w) ≡ length (w ++ c ∷ [])
counted-length w c h = omega (arith, length-append w (c ∷ []))

pub token_action_lem :
    (r : Request) (c : ℕ)
    → length r.token < token_max
    → token_action (holding r) c
      ≡ (parser_reading, holding (record r { token = r.token ++ c ∷ [] }))
unfolding token_action
token_action_lem r c h = rw (
  lt→ltb (length r.token) token_max h,
  counted-length r.token c (omega arith),
  set-padded (token_max + 1) r.token c (omega arith),
)

pub operation_action_lem :
    (r : Request) (c : ℕ)
    → length r.operation < operation_max
    → operation_action (holding r) c
      ≡ (parser_reading, holding (record r { operation = r.operation ++ c ∷ [] }))
unfolding operation_action
operation_action_lem r c h = rw (
  lt→ltb (length r.operation) operation_max h,
  counted-length r.operation c (omega arith),
  set-padded (operation_max + 1) r.operation c (omega arith),
)

pub object_code_action_lem :
    (r : Request) (c : ℕ)
    → length r.object_code < object_code_max
    → object_code_action (holding r) c
      ≡ (parser_reading, holding (record r { object_code = r.object_code ++ c ∷ [] }))
unfolding object_code_action
object_code_action_lem r c h = rw (
  lt→ltb (length r.object_code) object_code_max h,
  counted-length r.object_code c (omega arith),
  set-padded (object_code_max + 1) r.object_code c (omega arith),
)

pub argument_action_lem :
    (r : Request) (c : ℕ)
    → length r.argument < argument_max
    → argument_action (holding r) c
      ≡ (parser_reading, holding (record r { argument = r.argument ++ c ∷ [] }))
unfolding argument_action
argument_action_lem r c h = rw (
  lt→ltb (length r.argument) argument_max h,
  counted-length r.argument c (omega arith),
  set-padded (argument_max + 1) r.argument c (omega arith),
)

-- No line feed stands among printable characters, so that an argument ends where its string does.
strcspn-printables :
    (a : Bytes) (n : ℕ)
    → All (λ c. is_printable c ≡ true) a
    → strcspn_lf (a ++ replicate n 0) ≡ length a
unfolding is_printable
strcspn-printables [] zero h = refl
strcspn-printables [] (suc n) h = refl
strcspn-printables (c ∷ a) n h = ground (arith, strcspn-printables a n h.1)

argument_copied :
    (a : Bytes) (n : ℕ)
    → All (λ c. is_printable c ≡ true) a
    → cstr (strncpy (a ++ replicate n 0) (length a) ++ 0 ∷ []) ≡ a
argument_copied a n h =
    let t = IsText-of_printables a h in
    let none_left : length a - length a ≡ 0 = omega arith in
    rw (strncpy_text a (replicate n 0) (length a) t (omega arith), none_left, append-nil)
      (cstr-append_text a (0 ∷ []) t ∙ append-nil a)

-- The getters give the words back, whatever the parser's state.
request_of_words :
    (s : ℕ) (r : Request) → Fits r → request_of (parser_reading, reading s r) ≡ some r
unfolding request_of get_config_token get_config_operation get_config_object_code
    get_config_argument
request_of_words s r f = rw (
  copied token_max r.token (IsText-of_alphanumerics r.token f.token_text) f.token_fits,
  copied operation_max r.operation (IsText-of_letters r.operation f.operation_text)
      f.operation_fits,
  copied object_code_max r.object_code (IsText-of_letters r.object_code f.object_code_text)
      f.object_code_fits,
  strcspn-printables r.argument (argument_max + 1 - length r.argument) f.argument_text,
  argument_copied r.argument (argument_max + 1 - length r.argument) f.argument_text,
)

pub request_of-reading :
    (s : ℕ) (r : Request) → Fits r → request_of (parser_reading, reading s r) ≡ some r
request_of-reading s r f = request_of_words s r f

pub request_of-finished :
    (s : ℕ) (r : Request) → Fits r → request_of (parser_finished, reading s r) ≡ some r
unfolding request_of
request_of-finished s r f = request_of_words s r f
