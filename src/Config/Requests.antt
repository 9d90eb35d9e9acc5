-- ===== src/Config/Requests.antt =====
-- `config_parse_input` of src/parser/config_parserADT.c and `handle_configuration_requests` of
-- src/server_utils.c: from the datagrams that arrive to the actions.
pub mod Lines
pub mod Answers
pub mod Listening
pub mod Serving
pub mod Rotation
pub mod Safety
pub mod Bounds
use pdc_pop3d.Prelude.{
  ℕ, ◌+◌, ◌-◌, Bool, true, false, Option, none, some, List, [], ◌∷◌, ltb, if◌then◌else◌, length,
  set, take, pos,
}
use pdc_pop3d.CString.{Bytes}
use pdc_pop3d.Text.{u_strlen}
use pdc_pop3d.Step.{◌>>=◌, ◌>>◌, pure, get, modify}
use pdc_pop3d.Parser.{parser_init, feed_all}
use pdc_pop3d.Buffer.{Buffer, buffer_init, buffer_reset, buffer_write_ptr, buffer_write_adv, store}
use pdc_pop3d.Config.Automaton.{Request, config_parser_automaton, request_of}
use pdc_pop3d.Config.State.{ConfigState, Udp, C, max_command_length, say}
use pdc_pop3d.Config.Texts
use pdc_pop3d.Config.Commands.{handle_request}

abbrev pub buffer_size : ℕ
buffer_size = 1024

-- `parser_destroy`
abbrev pub parser_destroy : C (Unit {0})
parser_destroy = modify (λ s. record s { parsers = s.parsers - 1 })

abbrev pub set_read_buffer : Buffer → ConfigState → ConfigState
set_read_buffer b s = record s { server = record s.server { info_read_buff = b } }

-- What `recvfrom` answers: -1, or the bytes of a datagram.
pub data Received : Type 0 where
  failed : Received
  datagram : Bytes → Received

module _ (udp : Udp) where
  -- What `config_parse_input` does behind the loop over the input.
  unfoldable pub respond : Option Request → C (Unit {0})
  respond none = do say udp Texts.err_unknown_command; parser_destroy
  respond (some r) = do handle_request udp r; parser_destroy

  -- With no memory for the parser the code goes on with a null pointer: `none`.
  unfoldable pub config_parse_input : Bytes → C (Unit {0})
  config_parse_input input s =
      let (p_given, data_given) = udp.calloc s.parser_inits in
      elim (parser_init config_parser_automaton p_given data_given) [
        | none ↦ none
        | some p ↦
            respond (request_of (feed_all p (take (u_strlen input) input)))
              (record s { parsers = s.parsers + 1; parser_inits = s.parser_inits + 1 })
      ]

  -- A datagram that fits: the NUL behind it, the parser, and the buffer for the next one.
  unfoldable pub accept : Buffer → ℕ → C Bool
  accept b n s =
      let b' = record b { cells = set b.cells n 0 } in
      elim (buffer_write_adv b' (pos (n + 1))) [
        | none ↦ none
        | some b2 ↦
            (do
              config_parse_input b2.cells
              modify (λ s. set_read_buffer (buffer_reset s.server.info_read_buff) s)
              pure true)
              (set_read_buffer b2 s)
      ]

  -- One turn of the loop; the result says whether it goes on. What does not fit into the buffer is
  -- lost, as `recvfrom` does with a datagram.
  unfoldable pub receive : Received → C Bool
  receive failed s = some (false, s)
  receive (datagram d) s =
      let b = s.server.info_read_buff in
      elim (buffer_write_ptr b) [
        | none ↦ none
        | some (ptr, available) ↦
            let bytes = take available d in
            let b' = record b { cells = store b.cells ptr bytes } in
            if ltb max_command_length (length bytes)
            then (do say udp Texts.err_too_big; pure false) (set_read_buffer b' s)
            else accept b' (length bytes) s
      ]

  unfoldable pub serve : List Received → C (Unit {0})
  serve [] = pure tt
  serve (e ∷ es) = do go ← receive e; let rest = serve es; if go then rest else pure tt

  -- The thread, from its start to a `recvfrom` that it does not return from.
  unfoldable pub handle_configuration_requests : List Received → C (Unit {0})
  handle_configuration_requests es = do
    modify (λ s. record s {
      server = record {
        info_write_buff = buffer_init buffer_size s.server.info_write_buff.cells;
        info_read_buff = buffer_init buffer_size s.server.info_read_buff.cells;
      };
    })
    serve es
