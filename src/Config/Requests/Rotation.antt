-- ===== src/Config/Requests/Rotation.antt =====
-- Changing the token of the configuration service by `config_parse_input` of
-- src/parser/config_parserADT.c.
use pdc_pop3d.Prelude.{
  ◌+◌, ◌≡◌, ◌≢◌, refl, sym, ap, ◌∙◌, Bool, true, false, not, ◌||◌, none, some, [], ◌∷◌, ◌++◌, ◌==◌,
  take, take-all, Bool-cases, inl, inr, arith, length,
}
use pdc_pop3d.Chars.{tolower}
use pdc_pop3d.CString.{Bytes, codes, strlen, equal, equal_refl, eq_of_equal, cstr_of_text}
use pdc_pop3d.CString.Padded.{IsText-of_printables, IsText-of_alphanumerics}
use pdc_pop3d.Global.{GlobalConfiguration, GlobalStatistics}
use pdc_pop3d.Config.Automaton.{Request}
use pdc_pop3d.Config.Automaton.RoundTrip.{render, IsRequest}
use pdc_pop3d.Config.State.{ConfigState, Udp}
use pdc_pop3d.Config.State.Runs.{IsWorking, IsIdle, sent, after}
use pdc_pop3d.Config.Texts
use pdc_pop3d.Config.Commands.Outcome.{answered, command_outcome, refusal, request_outcome}
use pdc_pop3d.Config.Requests.{config_parse_input}
use pdc_pop3d.Config.Requests.Answers.{config_parse_input-render}

-- The request that sets the token.
abbrev pub set_token : Bytes → Bytes → Request
set_token token v = record {
  token = token;
  operation = codes "SET";
  object_code = codes "ATT";
  argument = v;
}

-- A request with another token of ten characters is refused.
refused_lem :
    (r : Request) (c : GlobalConfiguration) (st : GlobalStatistics)
    → IsRequest r
    → length c.authorization_token ≡ 10
    → r.token ≢ c.authorization_token
    → request_outcome r c st ≡ answered c (sent Texts.err_invalid_auth_token)
unfolding request_outcome refusal
refused_lem r c st k l d = rw (wrong, request_outcome) refl
  where
    whole : (s : Bytes) → length s ≡ 10 → take 10 s ≡ s
    whole s e = take-all 10 s (omega (arith, e))

    differs : equal (take 10 c.authorization_token) (take 10 r.token) ≡ false
    differs = elim (Bool-cases (equal (take 10 c.authorization_token) (take 10 r.token))) [
      | inl e ↦ absurd (
          d (
            sym (whole r.token k.token_fits)
            ∙ sym (eq_of_equal (take 10 c.authorization_token) (take 10 r.token) e)
            ∙ whole c.authorization_token l))
      | inr e ↦ e
    ]

    either : (a b : Bool) → b ≡ false → (a || not b) ≡ true
    either a b e = ground arith

    wrong :
        (not (strlen r.token == 10)
          || not (equal (take 10 c.authorization_token) (take 10 r.token)))
        ≡ true
    wrong = either _ _ differs

-- The request that sets the token is accepted, with the configured token and ten characters.
stored_lem :
    (v : Bytes) (c : GlobalConfiguration) (st : GlobalStatistics)
    → strlen c.authorization_token ≡ 10
    → strlen v ≡ 10
    → (request_outcome (set_token c.authorization_token v) c st).conf
      ≡ record c { authorization_token = v }
unfolding request_outcome command_outcome refusal equal tolower
stored_lem v c st t l =
    let full : (strlen c.authorization_token == 10) ≡ true = ground arith in
    let ten : (strlen v == 10) ≡ true = ground arith in
    let given : (strlen v == 0) ≡ false = ground arith in
    let passed : refusal (set_token c.authorization_token v) c ≡ none =
      rw (full, equal_refl (take 10 c.authorization_token), given, refusal) refl in
    rw (passed, ten, request_outcome, command_outcome) refl

-- A request in the form that the automaton reads, with the configured token, sets a new token of
-- ten characters: nothing else of the configuration changes. Whoever then sends such a request with
-- a token that is not the new one, the old one included, is answered by the error for the token
-- alone, and changes nothing of the configuration. The network takes every datagram, there is
-- memory for both parsers, and the write buffer is idle at first.
pub setatt_rotates :
    (udp : Udp) (v rest rest' : Bytes) (r : Request) (s : ConfigState)
    → IsWorking udp
    → ((n : _) → udp.calloc n ≡ (true, true))
    → IsIdle s.server.info_write_buff
    → IsRequest (set_token s.conf.authorization_token v)
    → length v ≡ 10
    → IsRequest r
    → r.token ≢ v
    → (s1 s2 : ConfigState) × (config_parse_input udp
          (render (set_token s.conf.authorization_token v) ++ 10 ∷ rest)
          s
        ≡ some (tt, s1))
      × (s1.conf ≡ record s.conf { authorization_token = v })
      × (config_parse_input udp (render r ++ 10 ∷ rest') s1 ≡ some (tt, s2))
      × (s2.conf ≡ s1.conf)
      × (s2.datagrams ≡ s1.datagrams ++ Texts.err_invalid_auth_token ∷ [])
setatt_rotates udp v rest rest' r s works memory idle k l k' d =
    let first =
      config_parse_input-render udp works (set_token s.conf.authorization_token v) rest s k
        (memory s.parser_inits) idle in
    let o = request_outcome (set_token s.conf.authorization_token v) s.conf s.stats in
    let s1 : ConfigState = record (after s o.conf o.datagrams first.buffer first.calls) {
      parser_inits = s.parser_inits + 1;
    } in
    let stored : o.conf ≡ record s.conf { authorization_token = v } =
      stored_lem v s.conf s.stats
        (ap length (
            cstr_of_text s.conf.authorization_token
              (IsText-of_alphanumerics s.conf.authorization_token k.token_text))
          ∙ k.token_fits)
        (ap length (cstr_of_text v (IsText-of_printables v k.argument_text)) ∙ l) in
    let token : o.conf.authorization_token ≡ v = ap (λ c. c.authorization_token) stored in
    let refused : request_outcome r o.conf s.stats
        ≡ answered o.conf (sent Texts.err_invalid_auth_token) =
      refused_lem r o.conf s.stats k' (ap length token ∙ l) (λ e. d (e ∙ token)) in
    let second =
      config_parse_input-render udp works r rest' s1 k' (memory s1.parser_inits) first.idle in
    let p = request_outcome r o.conf s.stats in
    let s2 : ConfigState = record (after s1 p.conf p.datagrams second.buffer second.calls) {
      parser_inits = s1.parser_inits + 1;
    } in
    (
      s1,
      s2,
      first.run,
      stored,
      second.run,
      ap (λ q. q.conf) refused,
      ap (λ q. s1.datagrams ++ q.datagrams) refused,
    )
