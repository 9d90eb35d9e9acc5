-- ===== src/Config/Requests/Answers.antt =====
-- Whole requests to the configuration service: from the bytes that `config_parse_input` of
-- src/parser/config_parserADT.c is given to the answer.
use pdc_pop3d.Prelude.{
  ℕ, arith, ◌+◌, ◌≡◌, refl, sym, ap, ◌∙◌, subst, true, Option, none, some, ◌∷◌, ◌++◌,
}
use pdc_pop3d.CString.{Bytes}
use pdc_pop3d.Config.Automaton.Data.{reading, nothing_read}
use pdc_pop3d.Config.Automaton.RoundTrip.{render, IsRequest, request_of-render}
use pdc_pop3d.Parser.{feed_all}
use pdc_pop3d.Config.Automaton.Descent.{descend_token, request_of-descend}
use pdc_pop3d.Config.Requests.{parser_destroy, respond, config_parse_input}
use pdc_pop3d.Config.Requests.Lines.{
  line_of, line_of-render, with_parser, read, config_parse_input-respond,
}
use pdc_pop3d.Step.{then_run, ◌>>◌}
use pdc_pop3d.Buffer.{Buffer}
use pdc_pop3d.Global.{GlobalConfiguration, GlobalStatistics}
use pdc_pop3d.Config.Automaton.{Request, token_max, request_of}
use pdc_pop3d.Config.State.{ConfigState, Udp, C, say}
use pdc_pop3d.Config.State.Runs.{IsWorking, IsIdle, sent, after, Runs, say-Runs}
use pdc_pop3d.Config.Texts
use pdc_pop3d.Config.Commands.{handle_request}
use pdc_pop3d.Config.Commands.Outcome.{Outcome, answered, request_outcome}
use pdc_pop3d.Config.Commands.Validation.{handle_request-Runs}

-- What an input is to do, read by the descent.
unfoldable pub input_outcome : Bytes → GlobalConfiguration → GlobalStatistics → Outcome
input_outcome input c st = elim (descend_token token_max nothing_read (line_of input)) [
  | none ↦ answered c (sent Texts.err_unknown_command)
  | some r ↦ request_outcome r c st
]

-- `got` is what a request leaves of `s`: the configuration of the outcome and has sent its datagrams. It has
-- asked for a parser and given it back, and has changed nothing else but the write buffer, which is
-- idle.
pub record Answers (got : Option (Unit {0} × ConfigState)) (s : ConfigState) (o : Outcome)
    : Type 0 where
  pub buffer : Buffer
  pub calls : ℕ
  pub idle : IsIdle buffer
  pub run :
      got
      ≡ some (
        tt,
        record (after s o.conf o.datagrams buffer calls) { parser_inits = s.parser_inits + 1 },
      )

pub input_outcome-render :
    (r : Request) (rest : Bytes) (c : GlobalConfiguration) (st : GlobalStatistics)
    → IsRequest r
    → input_outcome (render r ++ 10 ∷ rest) c st ≡ request_outcome r c st
unfolding input_outcome
input_outcome-render r rest c st k =
    let line = line_of (render r ++ 10 ∷ rest) in
    let found : descend_token token_max nothing_read line ≡ some r =
      sym (request_of-descend line)
      ∙ ap (λ l. request_of (feed_all (reading 0 nothing_read) l)) (line_of-render r rest k)
      ∙ request_of-render r (line_of rest) k in
    rw (found, input_outcome) refl

module _ (udp : Udp) (works : IsWorking udp) where
  destroyed :
      (m : C (Unit {0})) (s : ConfigState) (o : Outcome)
      → Runs m (with_parser s) tt o.conf o.datagrams
      → Answers ((m >> parser_destroy) (with_parser s)) s o
  destroyed m s o r =
      let s' = after s o.conf o.datagrams r.buffer r.calls in
      record {
        buffer = r.buffer;
        calls = r.calls;
        idle = r.idle;
        run =
            then_run m parser_destroy r.run
            ∙ ap (λ n. some (tt, record s' { parsers = n; parser_inits = s.parser_inits + 1 }))
                (omega arith);
      }

  respond-Answers :
      (o : Option Request) (s : ConfigState)
      → IsIdle s.server.info_write_buff
      → Answers (respond udp o (with_parser s)) s (elim o [
        | none ↦ answered s.conf (sent Texts.err_unknown_command)
        | some r ↦ request_outcome r s.conf s.stats
      ])
  unfolding respond
  respond-Answers none s i =
      destroyed (say udp Texts.err_unknown_command) s
        (answered s.conf (sent Texts.err_unknown_command))
        (say-Runs udp works Texts.err_unknown_command (with_parser s) i)
  respond-Answers (some r) s i =
      destroyed (handle_request udp r) s (request_outcome r s.conf s.stats)
        (handle_request-Runs udp works r (with_parser s) i)

  pub config_parse_input_refines :
      (input : Bytes) (s : ConfigState)
      → udp.calloc s.parser_inits ≡ (true, true)
      → IsIdle s.server.info_write_buff
      → Answers (config_parse_input udp input s) s (input_outcome input s.conf s.stats)
  unfolding input_outcome
  config_parse_input_refines input s h i =
      let from : Option Request → Outcome = λ o. elim o [
        | none ↦ answered s.conf (sent Texts.err_unknown_command)
        | some r ↦ request_outcome r s.conf s.stats
      ] in
      subst (λ got. Answers got s (from (descend_token token_max nothing_read (line_of input))))
        (sym (config_parse_input-respond udp input s h))
        (subst (λ o. Answers (respond udp (read input) (with_parser s)) s (from o))
          (request_of-descend (line_of input)) (respond-Answers (read input) s i))

  pub config_parse_input-render :
      (r : Request) (rest : Bytes) (s : ConfigState)
      → IsRequest r
      → udp.calloc s.parser_inits ≡ (true, true)
      → IsIdle s.server.info_write_buff
      → Answers
          (config_parse_input udp (render r ++ 10 ∷ rest) s)
          s
          (request_outcome r s.conf s.stats)
  config_parse_input-render r rest s k h i =
      subst (Answers (config_parse_input udp (render r ++ 10 ∷ rest) s) s)
        (input_outcome-render r rest s.conf s.stats k)
        (config_parse_input_refines (render r ++ 10 ∷ rest) s h i)
