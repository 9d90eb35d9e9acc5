-- ===== src/Config/Commands/Validation.antt =====
-- The tests of `config_parse_input`, src/parser/config_parserADT.c, and the command behind them, do
-- what the outcome of the request says.
use pdc_pop3d.Prelude.{
  zero, suc, ℤ, pos, negsuc, arith, ℕ, ◌≡◌, ◌∙◌, ap, refl, subst, Bool, true, false, not, ◌&&◌,
  ◌||◌, Option, none, some, [], ◌++◌, append-nil, if◌then◌else◌, ◌==◌, Option-cases, inl, inr,
}
use pdc_pop3d.CString.{Bytes, codes, strlen}
use pdc_pop3d.Text.{has_argument, strncasecmp}
use pdc_pop3d.Step.{◌>>=◌, ◌>>◌, pure, get}
use pdc_pop3d.Buffer.{Buffer}
use pdc_pop3d.Global.{GlobalConfiguration}
use pdc_pop3d.Config.Automaton.{Request}
use pdc_pop3d.Config.State.{ConfigState, Udp, C, is_minus_one, say}
use pdc_pop3d.Config.State.Runs.{
  IsWorking, IsIdle, sent, after, Runs, pure-Runs, bind-Runs, get-Runs, say-Runs, say_then-Runs,
}
use pdc_pop3d.Config.Texts
use pdc_pop3d.Config.Commands.{
  same_front, is_zero, is_object_code, object_codes, get_config_command, config_action, and_then,
  is_valid_token, is_valid_get_set, is_valid_object_code, execute, handle_request,
}
use pdc_pop3d.Config.Commands.Outcome.{
  failed, Outcome, reported, same_word, protocol, command_named, refused_by, refusal,
  request_outcome, command_outcome,
}
use pdc_pop3d.Config.Commands.Lookup.{
  strncasecmp-same_word, get_config_command-named, is_object_code-objects,
}
use pdc_pop3d.Config.Commands.Replies.{config_action-Runs}

module _ (udp : Udp) (works : IsWorking udp) where
  -- A test that a request passes, or that it does not.
  abbrev Tests : C Bool → ConfigState → Option Bytes → Type 0
  Tests m s none = Runs m s true s.conf []
  Tests m s (some text) = Runs m s false s.conf (sent text)

  -- The first refusal of two tests.
  abbrev first : Option Bytes → Option Bytes → Option Bytes
  first none o = o
  first (some text) o = some text

  and_then-Tests :
      (p q : C Bool) (s : ConfigState) (o o' : Option Bytes)
      → Tests p s o
      → ((w : Buffer) (k : ℕ) → IsIdle w → Tests q (after s s.conf [] w k) o')
      → Tests (and_then p q) s (first o o')
  and_then-Tests p q s none none t t' = bind-Runs p _ s true true s.conf s.conf [] [] t t'
  and_then-Tests p q s none (some text) t t' =
      bind-Runs p _ s true false s.conf s.conf [] (sent text) t t'
  and_then-Tests p q s (some text) o' t t' =
      subst (Runs (and_then p q) s false s.conf) (append-nil (sent text))
        (bind-Runs p _ s false false s.conf s.conf (sent text) [] t (λ w k j. pure-Runs false _ j))

  -- The three tests.
  abbrev token_refusal : Bytes → GlobalConfiguration → Option Bytes
  token_refusal token c =
      if not (strlen token == 10) || not (same_front c.authorization_token token 10)
      then some Texts.err_invalid_auth_token
      else none

  abbrev get_set_refusal : Bool → Bool → Bool → Option Bytes
  get_set_refusal is_get is_set given =
      if is_get && given
      then some Texts.err_invalid_object_code
      else if not is_get && not is_set
      then some Texts.err_second_command_get_set
      else if not is_get && not given
      then some Texts.err_argument_expected_set
      else none

  abbrev object_code_refusal : Bool → Option Bytes
  object_code_refusal known = if known then none else some Texts.err_invalid_object_code

  refusal-first :
      (wrong_token is_get is_set given known : Bool)
      → first
          (if wrong_token then some Texts.err_invalid_auth_token else none)
          (first (get_set_refusal is_get is_set given) (object_code_refusal known))
        ≡ refused_by wrong_token is_get is_set given known
  refusal-first true g t a k = refl
  refusal-first false true t true k = refl
  refusal-first false true t false true = refl
  refusal-first false true t false false = refl
  refusal-first false false false a k = refl
  refusal-first false false true false k = refl
  refusal-first false false true true true = refl
  refusal-first false false true true false = refl

  -- A test that refuses with a text.
  fails-Tests :
      (wrong : Bool) (text : Bytes) (s : ConfigState)
      → IsIdle s.server.info_write_buff
      → Tests
          (if wrong then say udp text >> pure false else pure true)
          s
          (if wrong then some text else none)
  fails-Tests true text s i = say_then-Runs udp works text false s i
  fails-Tests false text s i = pure-Runs true s i

  get-Tests :
      (f : ConfigState → C Bool) (s : ConfigState) (o : Option Bytes)
      → Tests (f s) s o
      → Tests (get >>= f) s o
  get-Tests f s none t = get-Runs f s true s.conf [] t
  get-Tests f s (some text) t = get-Runs f s false s.conf (sent text) t

  token-Tests :
      (token : Bytes) (s : ConfigState)
      → IsIdle s.server.info_write_buff
      → Tests (is_valid_token udp token) s (token_refusal token s.conf)
  unfolding is_valid_token
  token-Tests token s i =
      get-Tests
        (λ s.
          if not (strlen token == 10) || not (same_front s.conf.authorization_token token 10)
          then say udp Texts.err_invalid_auth_token >> pure false
          else pure true)
        s (token_refusal token s.conf) (fails-Tests _ Texts.err_invalid_auth_token s i)

  get_set-Tests :
      (is_get is_set given : Bool) (s : ConfigState)
      → IsIdle s.server.info_write_buff
      → Tests
          (if is_get
            then if given then say udp Texts.err_invalid_object_code >> pure false else pure true
            else if is_set
            then if not given
              then say udp Texts.err_argument_expected_set >> pure false
              else pure true
            else say udp Texts.err_second_command_get_set >> pure false)
          s
          (get_set_refusal is_get is_set given)
  get_set-Tests true t true s i = say_then-Runs udp works Texts.err_invalid_object_code false s i
  get_set-Tests true t false s i = pure-Runs true s i
  get_set-Tests false true true s i = pure-Runs true s i
  get_set-Tests false true false s i =
      say_then-Runs udp works Texts.err_argument_expected_set false s i
  get_set-Tests false false a s i =
      say_then-Runs udp works Texts.err_second_command_get_set false s i

  object_code-Tests :
      (known : Bool) (s : ConfigState)
      → IsIdle s.server.info_write_buff
      → Tests
          (if known then pure true else say udp Texts.err_invalid_object_code >> pure false)
          s
          (object_code_refusal known)
  object_code-Tests true s i = pure-Runs true s i
  object_code-Tests false s i = say_then-Runs udp works Texts.err_invalid_object_code false s i

  -- The tests of `config_parse_input` together.
  abbrev validate : Request → C Bool
  validate r = and_then (is_valid_token udp r.token) (
      and_then (is_valid_get_set udp r.operation r.argument)
        (is_valid_object_code udp r.object_code))

  validate-Tests :
      (r : Request) (s : ConfigState)
      → IsIdle s.server.info_write_buff
      → Tests (validate r) s (refusal r s.conf)
  unfolding is_valid_get_set is_valid_object_code refusal has_argument
  validate-Tests r s i =
      let g = is_zero (strncasecmp r.operation (codes "GET") 3) in
      let t = is_zero (strncasecmp r.operation (codes "SET") 3) in
      let a = has_argument r.argument in
      let k = is_object_code r.object_code object_codes in
      let wrong =
        not (strlen r.token == 10) || not (same_front s.conf.authorization_token r.token 10) in
      let said : refused_by wrong g t a k ≡ refusal r s.conf =
        ap (λ x. refused_by wrong x t a k) (strncasecmp-same_word r.operation (codes "GET") 3)
        ∙ ap (λ x. refused_by wrong (same_word 3 r.operation (codes "GET")) x a k)
            (strncasecmp-same_word r.operation (codes "SET") 3)
        ∙ ap
            (λ x.
              refused_by wrong (same_word 3 r.operation (codes "GET"))
                (same_word 3 r.operation (codes "SET")) a x)
            (is_object_code-objects r.object_code) in
      subst (Tests (validate r) s) (refusal-first _ g t a k ∙ said) (
        and_then-Tests (is_valid_token udp r.token) _ s (token_refusal r.token s.conf)
          (first (get_set_refusal g t a) (object_code_refusal k)) (token-Tests r.token s i)
          (λ w n j.
            and_then-Tests (is_valid_get_set udp r.operation r.argument) _ (after s s.conf [] w n)
              (get_set_refusal g t a) (object_code_refusal k)
              (get_set-Tests g t a (after s s.conf [] w n) j)
              (λ w' n' j'. object_code-Tests k (after (after s s.conf [] w n) s.conf [] w' n') j')))

  reported-Runs :
      (ret : ℤ) (s : ConfigState)
      → IsIdle s.server.info_write_buff
      → Runs
          (if is_minus_one ret then say udp Texts.err_executing_command else pure tt)
          s
          tt
          s.conf
          (if failed ret then sent Texts.err_executing_command else [])
  reported-Runs (pos n) s i = pure-Runs tt s i
  reported-Runs (negsuc zero) s i = say-Runs udp works Texts.err_executing_command s i
  reported-Runs (negsuc (suc n)) s i =
      let other : (suc n == 0) ≡ false = ground arith in rw other (pure-Runs tt s i)

  execute-Runs :
      (r : Request) (s : ConfigState) (o : Outcome)
      → IsIdle s.server.info_write_buff
      → command_outcome
          (command_named protocol (r.operation ++ r.object_code))
          r.argument
          s.conf
          s.stats
        ≡ o
      → Runs (execute udp r) s tt o.conf (reported o).datagrams
  unfolding execute
  execute-Runs r s o i e =
      let c = get_config_command (r.operation ++ r.object_code) in
      bind-Runs (config_action udp c r.argument) _ s o.code tt o.conf o.conf o.datagrams _
        (subst (λ o. Runs (config_action udp c r.argument) s o.code o.conf o.datagrams)
          (ap (λ c. command_outcome c r.argument s.conf s.stats)
              (get_config_command-named (r.operation ++ r.object_code))
            ∙ e)
          (config_action-Runs udp works c r.argument s i))
        (λ w k j. reported-Runs o.code (after s o.conf o.datagrams w k) j)

  pub handle_request-Runs :
      (r : Request) (s : ConfigState)
      → IsIdle s.server.info_write_buff
      → Runs
          (handle_request udp r)
          s
          tt
          (request_outcome r s.conf s.stats).conf
          (request_outcome r s.conf s.stats).datagrams
  unfolding handle_request request_outcome
  handle_request-Runs r s i = elim (Option-cases (refusal r s.conf)) [
    | inl e ↦
        rw (e, request_outcome)
          (bind-Runs (validate r) _ s true tt s.conf _ [] _
            (subst (Tests (validate r) s) e (validate-Tests r s i))
            (λ w k j. execute-Runs r (after s s.conf [] w k) _ j refl))
    | inr (text, e) ↦
        rw (e, request_outcome)
          (subst (Runs (handle_request udp r) s tt s.conf) (append-nil (sent text)) (
            bind-Runs (validate r) _ s false tt s.conf s.conf (sent text) []
              (subst (Tests (validate r) s) e (validate-Tests r s i))
              (λ w k j. pure-Runs tt (after s s.conf (sent text) w k) j)))
  ]
