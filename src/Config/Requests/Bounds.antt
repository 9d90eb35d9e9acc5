-- ===== src/Config/Requests/Bounds.antt =====
-- The strings of the configuration stay within the arrays of `struct GlobalConfiguration`,
-- src/global_config.h, whatever requests arrive.
use pdc_pop3d.Prelude.{
  ℕ, ◌+◌, ◌≡◌, refl, ◌∙◌, Bool, true, false, Option, none, some, List, [], ◌∷◌, ltb, length, set,
  take, pos, Option-cases, inl, inr,
}
use pdc_pop3d.CString.{Bytes}
use pdc_pop3d.Step.{◌>>◌, pure, modify}
use pdc_pop3d.Step.Post.{Post, pure-Post, none-Post, same-Post}
use pdc_pop3d.Step.Keeps.{Keeps, bind-Keeps, pure-Keeps, modify-Keeps, if-Keeps}
use pdc_pop3d.Config.Automaton.{Request}
use pdc_pop3d.Config.State.{max_command_length, ConfigState, Udp, C, say}
use pdc_pop3d.Config.State.Send.{say-Keeps}
use pdc_pop3d.Config.Texts
use pdc_pop3d.Config.Commands
use pdc_pop3d.Config.Commands.Bounds.{FitsArrays, Safe, say_then-Keeps, handle_request-Keeps}
use pdc_pop3d.Buffer.{Buffer, buffer_reset, buffer_write_ptr, buffer_write_adv, store}
use pdc_pop3d.Config.Requests.{
  Received, failed, datagram, set_read_buffer, respond, config_parse_input, accept, receive, serve,
  handle_configuration_requests,
}
use pdc_pop3d.Config.Requests.Lines.{with_parser, read, receive_lem, config_parse_input_cases}

module _ (udp : Udp) where
  respond-Keeps : (o : Option Request) → Keeps Safe (respond udp o)
  unfolding respond
  respond-Keeps none =
      bind-Keeps Safe (say udp Texts.err_unknown_command) _
        (say-Keeps udp FitsArrays Texts.err_unknown_command) (λ _. modify-Keeps Safe _ (λ s i. i))
  respond-Keeps (some r) =
      bind-Keeps Safe (Commands.handle_request udp r) _ (handle_request-Keeps udp r)
        (λ _. modify-Keeps Safe _ (λ s i. i))

  config_parse_input-Keeps : (input : Bytes) → Keeps Safe (config_parse_input udp input)
  config_parse_input-Keeps input = record {
    kept = λ s i. elim (config_parse_input_cases udp input s) [
      | inl e ↦ none-Post (λ _. Safe) (config_parse_input udp input) s e
      | inr e ↦
          same-Post (λ _. Safe) (config_parse_input udp input) (respond udp (read input)) s
            (with_parser s) e ((respond-Keeps (read input)).kept (with_parser s) i)
    ];
  }

  turn : Buffer → C Bool
  turn b =
      config_parse_input udp b.cells
      >> (modify (λ s. set_read_buffer (buffer_reset s.server.info_read_buff) s) >> pure true)

  turn-Keeps : (b : Buffer) → Keeps Safe (turn b)
  unfolding turn
  turn-Keeps b =
      bind-Keeps Safe (config_parse_input udp b.cells) _ (config_parse_input-Keeps b.cells) (λ _.
        bind-Keeps Safe (modify (λ s. set_read_buffer (buffer_reset s.server.info_read_buff) s)) _
          (modify-Keeps Safe _ (λ s i. i)) (λ _. pure-Keeps Safe true))

  accept-Keeps : (b : Buffer) (n : ℕ) → Keeps Safe (accept udp b n)
  unfolding accept turn
  accept-Keeps b n = record {
    kept = λ s i.
        elim (Option-cases
          (buffer_write_adv (record b { cells = set b.cells n 0 }) (pos (n + 1)))) [
            | inl e ↦ none-Post (λ _. Safe) (accept udp b n) s (rw (e, accept) refl)
            | inr (b2, e) ↦
                same-Post (λ _. Safe) (accept udp b n) (turn b2) s (set_read_buffer b2 s)
                  (rw (e, accept) refl) ((turn-Keeps b2).kept (set_read_buffer b2 s) i)
          ];
  }

  receive-Keeps : (e : Received) → Keeps Safe (receive udp e)
  unfolding receive
  receive-Keeps failed = record { kept = λ s i. pure-Post (λ _. Safe) false s i }
  receive-Keeps (datagram d) = record {
    kept = λ s i. elim (Option-cases (buffer_write_ptr s.server.info_read_buff)) [
      | inl e ↦ none-Post (λ _. Safe) (receive udp (datagram d)) s (rw (e, receive) refl)
      | inr ((ptr, available), e) ↦
          received s i ptr available e (ltb max_command_length (length (take available d))) refl
    ];
  }
    where
      received :
          (s : ConfigState)
          → Safe s
          → (ptr available : ℕ) → buffer_write_ptr s.server.info_read_buff ≡ some (ptr, available)
          → (big : Bool) → ltb max_command_length (length (take available d)) ≡ big
          → Post (receive udp (datagram d)) s (λ _. Safe)
      received s i ptr available e true f =
          let b = s.server.info_read_buff in
          let s1 = set_read_buffer (record b { cells = store b.cells ptr (take available d) }) s in
          same-Post (λ _. Safe) (receive udp (datagram d)) (say udp Texts.err_too_big >> pure false)
            s s1 (receive_lem udp d s ptr available e ∙ rw f refl)
            ((say_then-Keeps udp Texts.err_too_big false).kept s1 i)
      received s i ptr available e false f =
          let b = s.server.info_read_buff in
          let b' = record b { cells = store b.cells ptr (take available d) } in
          let n = length (take available d) in
          same-Post (λ _. Safe) (receive udp (datagram d)) (accept udp b' n) s s
            (receive_lem udp d s ptr available e ∙ rw f refl) ((accept-Keeps b' n).kept s i)

  serve-Keeps : (es : List Received) → Keeps Safe (serve udp es)
  unfolding serve
  serve-Keeps [] = pure-Keeps Safe tt
  serve-Keeps (e ∷ es) =
      bind-Keeps Safe (receive udp e) _ (receive-Keeps e)
        (λ go. if-Keeps Safe go _ _ (serve-Keeps es) (pure-Keeps Safe tt))

  -- The strings of the configuration stay within their arrays, whatever datagrams arrive, whatever
  -- the network answers and whether or not memory is to be had.
  pub handle_configuration_requests-FitsArrays :
      (es : List Received) (s s' : ConfigState)
      → FitsArrays s.conf
      → handle_configuration_requests udp es s ≡ some (tt, s')
      → FitsArrays s'.conf
  unfolding handle_configuration_requests
  handle_configuration_requests-FitsArrays es s s' i h = ((serve-Keeps es).kept _ i).holds tt s' h
