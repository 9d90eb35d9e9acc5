-- ===== src/Config/Requests/Lines.antt =====
-- The loop of `config_parse_input` of src/parser/config_parserADT.c over its input.
use pdc_pop3d.Prelude.{
  ℕ, ltb, ◌+◌, ◌≡◌, ◌⊎◌, refl, sym, ap, ◌∙◌, subst, arith, [], ◌∷◌, ◌++◌, if◌then◌else◌, Bool, true,
  false, Option, none, some, inl, inr, take, length,
}
use pdc_pop3d.CString.{Bytes, cstr, strlen, strncpy}
pub use pdc_pop3d.Text.Lines.{line_of, line_of_terminated, set-front}
use pdc_pop3d.Text.Lines.{line_of-append}
use pdc_pop3d.Parser.{
  ParserState, parser_reading, parser_action, parser_finished, parser_error, Parser, parser_init,
  feed_all,
}
use pdc_pop3d.Config.Automaton.{
  ConfigParserData, Request, token_max, config_parser_automaton, config_parser_init, request_of,
  get_config_token,
}
use pdc_pop3d.Config.Automaton.Data.{reading, nothing_read, parser_init-config}
use pdc_pop3d.Config.Automaton.RoundTrip.{request_of-token, render, render-IsText, IsRequest}
use pdc_pop3d.Config.State.{ConfigState, Udp, max_command_length, say}
use pdc_pop3d.Step.{◌>>◌, pure}
use pdc_pop3d.Buffer.{Buffer, buffer_write_ptr, store}
use pdc_pop3d.Config.Texts
use pdc_pop3d.Config.Requests.{
  datagram, set_read_buffer, respond, config_parse_input, accept, receive,
}

-- The request that the input holds.
abbrev pub read : Bytes → Option Request
read input = request_of (feed_all (reading 0 nothing_read) (line_of input))

abbrev pub with_parser : ConfigState → ConfigState
with_parser s = record s { parsers = s.parsers + 1; parser_inits = s.parser_inits + 1 }

parser_init_cases :
    (a b : Bool)
    → (parser_init config_parser_automaton a b ≡ none)
      ⊎ (parser_init config_parser_automaton a b ≡ some (reading 0 nothing_read))
unfolding parser_init config_parser_init
parser_init_cases true true = inr refl
parser_init_cases true false = inl refl
parser_init_cases false b = inl refl

-- The buffer with some bytes stored.
abbrev pub stored : Buffer → ℕ → Bytes → Buffer
stored b ptr bytes = record b { cells = store b.cells ptr bytes }

module _ (udp : Udp) where
  abbrev begin :
      Bytes → ConfigState → Option (Parser ConfigParserData) → Option (Unit {0} × ConfigState)
  begin input s o = elim o [
    | none ↦ none
    | some p ↦ respond udp (request_of (feed_all p (line_of input))) (with_parser s)
  ]

  pub config_parse_input_cases :
      (input : Bytes) (s : ConfigState)
      → (config_parse_input udp input s ≡ none)
        ⊎ (config_parse_input udp input s ≡ respond udp (read input) (with_parser s))
  unfolding config_parse_input
  config_parse_input_cases input s =
      elim (parser_init_cases (udp.calloc s.parser_inits).0 (udp.calloc s.parser_inits).1) [
        | inl e ↦ inl (ap (begin input s) e)
        | inr e ↦ inr (ap (begin input s) e)
      ]

  pub config_parse_input-respond :
      (input : Bytes) (s : ConfigState)
      → udp.calloc s.parser_inits ≡ (true, true)
      → config_parse_input udp input s ≡ respond udp (read input) (with_parser s)
  unfolding config_parse_input
  config_parse_input-respond input s h =
      ap (λ c. begin input s (parser_init config_parser_automaton c.0 c.1)) h
      ∙ ap (begin input s) parser_init-config

  -- What a datagram leads to, wherever the write pointer stands.
  pub receive_lem :
      (d : Bytes) (s : ConfigState) (ptr available : ℕ)
      → buffer_write_ptr s.server.info_read_buff ≡ some (ptr, available)
      → receive udp (datagram d) s ≡ (
          let bytes = take available d in
          let b = stored s.server.info_read_buff ptr bytes in
          if ltb max_command_length (length bytes)
          then (say udp Texts.err_too_big >> pure false) (set_read_buffer b s)
          else accept udp b (length bytes) s)
  unfolding receive
  receive_lem d s ptr available e = rw (e, receive) refl

-- A token that a getter copied is a C string.
cstr-cstr : (w : Bytes) → cstr (cstr w) ≡ cstr w
cstr-cstr [] = refl
cstr-cstr (c ∷ w) = ground (arith, cstr-cstr w)

abbrev token_in : Option Request → Bytes
token_in none = []
token_in (some r) = r.token

request_of-strlen :
    (q : ParserState × Parser ConfigParserData)
    → strlen (token_in (request_of q)) ≡ length (token_in (request_of q))
unfolding request_of get_config_token
request_of-strlen (parser_error, p) = refl
request_of-strlen (parser_reading, p) =
    ap length (cstr-cstr (strncpy p.content.token token_max ++ 0 ∷ []))
request_of-strlen (parser_action, p) =
    ap length (cstr-cstr (strncpy p.content.token token_max ++ 0 ∷ []))
request_of-strlen (parser_finished, p) =
    ap length (cstr-cstr (strncpy p.content.token token_max ++ 0 ∷ []))

-- When the input holds a request with a token of ten characters, they are the first ten of the input.
pub read-token :
    (input : Bytes) (r : Request)
    → read input ≡ some r
    → strlen r.token ≡ token_max
    → r.token ≡ take token_max (line_of input)
read-token input r h e = request_of-token (line_of input) r h (
    sym (
      subst (λ o. strlen (token_in o) ≡ length (token_in o)) h
        (request_of-strlen (feed_all (reading 0 nothing_read) (line_of input))))
    ∙ e)

-- The line of a request that is written out.
pub line_of-render :
    (r : Request) (rest : Bytes)
    → IsRequest r
    → line_of (render r ++ 10 ∷ rest) ≡ render r ++ 10 ∷ line_of rest
line_of-render r rest h =
    line_of-append (render r) (10 ∷ rest) (render-IsText r h)
    ∙ ap (λ t. render r ++ t) (line_of-append (10 ∷ []) rest (omega arith, tt))
