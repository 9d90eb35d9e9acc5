-- ===== src/Config/Requests/Safety.antt =====
-- Who may change the configuration through `config_parse_input` of src/parser/config_parserADT.c.
use pdc_pop3d.Prelude.{
  ℕ, zero, suc, ◌≡◌, ◌⊎◌, refl, sym, ap, ◌∙◌, Bool, true, false, not, ◌||◌, Option, none, some, [],
  ◌∷◌, arith, if◌then◌else◌, ◌==◌, take, inl, inr,
}
use pdc_pop3d.CString.{Bytes, strlen, eq_of_equal}
use pdc_pop3d.Step.{◌>>=◌, ◌>>◌, pure}
use pdc_pop3d.Step.Post.{Post, pure-Post, any-Post, get-Post, unless-Post, modify-Post, bind-Post}
use pdc_pop3d.Global.{GlobalConfiguration}
use pdc_pop3d.Config.Automaton.{Request, token_max}
use pdc_pop3d.Config.State.{ConfigState, Udp, C, say}
use pdc_pop3d.Config.State.Send.{say-Post}
use pdc_pop3d.Config.Texts
use pdc_pop3d.Config.Commands.{
  same_front, and_then, is_valid_token, is_valid_get_set, is_valid_object_code, execute,
  handle_request,
}
use pdc_pop3d.Config.Requests.{parser_destroy, respond, config_parse_input}
use pdc_pop3d.Config.Requests.Lines.{
  line_of, with_parser, config_parse_input_cases, read, read-token,
}

-- The token has ten characters, which are those of the configured token.
pub record IsAllowed (token : Bytes) (c : GlobalConfiguration) : Type 0 where
  pub full : strlen token ≡ token_max
  pub same : take token_max c.authorization_token ≡ take token_max token

module _ (udp : Udp) where
  -- The token was seen, or nothing has changed and the test has failed.
  Checked : Bytes → ConfigState → Bool → ConfigState → Type 0
  Checked token s b s' = IsAllowed token s.conf ⊎ ((s'.conf ≡ s.conf) × (b ≡ false))

  Settled : Bytes → ConfigState → Unit {0} → ConfigState → Type 0
  Settled token s _ s' = IsAllowed token s.conf ⊎ (s'.conf ≡ s.conf)

  IsAllowed-tests :
      (token : Bytes) (c : GlobalConfiguration)
      → (not (strlen token == 10) || not (same_front c.authorization_token token 10)) ≡ false
      → IsAllowed token c
  IsAllowed-tests token c h = record {
    full = ground arith;
    same = eq_of_equal (take 10 c.authorization_token) (take 10 token) (ground arith);
  }

  refuse-Post :
      (token text : Bytes) (s : ConfigState) → Post (say udp text >> pure false) s (Checked token s)
  unfolding Checked
  refuse-Post token text s =
      bind-Post (λ _ s'. s'.conf ≡ s.conf) (Checked token s) (say udp text) (λ _. pure false) s
        (say-Post udp text s) (λ a s' e. pure-Post (Checked token s) false s' (inr (e, refl)))

  token-Post :
      (token : Bytes) (s : ConfigState) → Post (is_valid_token udp token) s (Checked token s)
  unfolding is_valid_token Checked
  token-Post token s =
      get-Post (Checked token s)
        (λ s.
          if not (strlen token == 10) || not (same_front s.conf.authorization_token token 10)
          then say udp Texts.err_invalid_auth_token >> pure false
          else pure true)
        s (tested _ refl)
    where
      tested :
          (wrong : Bool)
          → (not (strlen token == 10) || not (same_front s.conf.authorization_token token 10))
            ≡ wrong
          → Post
              (if wrong then say udp Texts.err_invalid_auth_token >> pure false else pure true)
              s
              (Checked token s)
      tested true e = refuse-Post token Texts.err_invalid_auth_token s
      tested false e =
          any-Post (Checked token s) (pure true) s (λ _ _. inl (IsAllowed-tests token s.conf e))

  -- What follows the test of the token.
  checked_then-Post :
      {A : Type 0} (token : Bytes) (s : ConfigState) (Q : A → ConfigState → Type 0) (p : C Bool)
      (m k : C A)
      → Post p s (Checked token s)
      → ((a : A) (s' : ConfigState) → IsAllowed token s.conf → Q a s')
      → ((s' : ConfigState) → s'.conf ≡ s.conf → Post k s' Q)
      → Post (p >>= λ b. if b then m else k) s Q
  unfolding Checked
  checked_then-Post token s Q p m k h allowed refused =
      bind-Post (Checked token s) Q p (λ b. if b then m else k) s h
        (λ b s' c. elim c [
          | inl y ↦ any-Post Q (if b then m else k) s' (λ a s''. allowed a s'' y)
          | inr (e, f) ↦ unless-Post Q b m k s' f (refused s' e)
        ])

  handle_request-Post :
      (r : Request) (s : ConfigState) → Post (handle_request udp r) s (Settled r.token s)
  unfolding handle_request Checked Settled
  handle_request-Post r s =
      checked_then-Post r.token s (Settled r.token s)
        (and_then (is_valid_token udp r.token) (
          and_then (is_valid_get_set udp r.operation r.argument)
            (is_valid_object_code udp r.object_code)))
        (execute udp r) (pure tt)
        (checked_then-Post r.token s (Checked r.token s) (is_valid_token udp r.token)
          (and_then (is_valid_get_set udp r.operation r.argument)
            (is_valid_object_code udp r.object_code))
          (pure false) (token-Post r.token s) (λ a s' y. inl y)
          (λ s' e. pure-Post (Checked r.token s) false s' (inr (e, refl))))
        (λ a s' y. inl y) (λ s' e. pure-Post (Settled r.token s) tt s' (inr e))

  -- The answer, and the end of the parser.
  respond-Post :
      (o : Option Request) (s : ConfigState)
      → Post
          (respond udp o)
          s
          (λ _ s'. (s'.conf ≡ s.conf) ⊎ ((r : Request) × (o ≡ some r) × IsAllowed r.token s.conf))
  unfolding respond Settled
  respond-Post none s =
      bind-Post (λ _ s'. s'.conf ≡ s.conf) _ (say udp Texts.err_unknown_command)
        (λ _. parser_destroy) s (say-Post udp Texts.err_unknown_command s)
        (λ a s' e. modify-Post (λ _ s'. (s'.conf ≡ s.conf) ⊎ _) _ s' (inl e))
  respond-Post (some r) s =
      bind-Post (Settled r.token s) _ (handle_request udp r) (λ _. parser_destroy) s
        (handle_request-Post r s)
        (λ a s' c.
          modify-Post (λ _ s'. (s'.conf ≡ s.conf) ⊎ _) _ s'
            (elim c [ inl y ↦ inr (r, refl, y) | inr e ↦ inl e ]))

  take_twice : (n : ℕ) (xs : Bytes) → take n (take n xs) ≡ take n xs
  take_twice zero xs = refl
  take_twice (suc n) [] = refl
  take_twice (suc n) (x ∷ xs) = ap (◌∷◌ x) (take_twice n xs)

  -- A request changes the configuration only if the first ten characters of the input are the
  -- configured token, whatever the network answers and whether or not memory is to be had.
  pub config_parse_input_safe :
      (input : Bytes) (s s' : ConfigState)
      → config_parse_input udp input s ≡ some (tt, s')
      → (s'.conf ≡ s.conf)
        ⊎ (take token_max (line_of input) ≡ take token_max s.conf.authorization_token)
  config_parse_input_safe input s s' h = elim (config_parse_input_cases udp input s) [
    | inl e ↦ absurd (none-some (sym e ∙ h))
    | inr e ↦ elim ((respond-Post (read input) (with_parser s)).holds tt s' (sym e ∙ h)) [
      | inl k ↦ inl k
      | inr (r, f, y) ↦ inr (
          sym (
            y.same
            ∙ ap (take token_max) (read-token input r f y.full)
            ∙ take_twice token_max (line_of input)))
    ]
  ]
    where
      none-some : {A : Type 0} {x : A} → none ≡ some x → ⊥
      none-some h = cc
