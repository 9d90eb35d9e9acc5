-- ===== src/Config/Tests.antt =====
-- The configuration service at concrete inputs.
use pdc_pop3d.Prelude.{
  ℕ, ◌≡◌, ◌≢◌, ◌⊎◌, refl, ap, true, false, some, none, List, [], ◌∷◌, ◌++◌, length,
  length-replicate, zero, replicate, pos, take, arith,
}
use pdc_pop3d.Chars.{is_alphanumeric, is_letter, is_printable, is_space, is_lf}
use pdc_pop3d.Text.{u_strlen}
use pdc_pop3d.CString.{Bytes, codes, crlf}
use pdc_pop3d.Global.{GlobalConfiguration, GlobalStatistics}
use pdc_pop3d.Config.Automaton.{Request, token_max}
use pdc_pop3d.Config.Automaton.RoundTrip.{render, IsRequest}
use pdc_pop3d.Config.State.{ConfigState, Udp}
use pdc_pop3d.Config.State.Runs.{IsWorking, IsIdle, after}
use pdc_pop3d.Config.Texts
use pdc_pop3d.Config.Commands.Outcome.{request_outcome}
use pdc_pop3d.Config.Requests.Rotation
use pdc_pop3d.Config.Automaton.Descent.{descend_token}
use pdc_pop3d.Config.Automaton.Data.{nothing_read}
use pdc_pop3d.Config.Requests.{
  Received, datagram, config_parse_input, handle_configuration_requests,
}
use pdc_pop3d.Config.Requests.Lines.{line_of}
use pdc_pop3d.Config.Requests.Answers.{Answers, config_parse_input-render}
use pdc_pop3d.Config.Requests.Serving.{served, Serves, handle_configuration_requests_refines}
use pdc_pop3d.Config.Requests.Safety.{config_parse_input_safe}
use pdc_pop3d.Config.Commands.Bounds.{FitsArrays}
use pdc_pop3d.Config.Requests.Bounds.{handle_configuration_requests-FitsArrays}

abbrev udp : Udp
udp = record { sendto = λ k bytes. pos (length bytes); calloc = λ k. (true, true) }

udp-IsWorking : IsWorking udp
udp-IsWorking k bytes = refl

abbrev conf : GlobalConfiguration
conf = record {
  pop3_addr = codes "0.0.0.0";
  pop3_port = 1110;
  conf_addr = codes "127.0.0.1";
  conf_port = 9090;
  users = [];
  buffers_size = 2048;
  logs_folder = codes "logs";
  mailroot_folder = codes "/tmp";
  maildir_folder = codes "Maildir";
  authorization_token = codes "adminadmin";
  transformation = false;
  transformation_script = codes "cat";
}

abbrev stats : GlobalStatistics
stats = record { concurrent_clients = 2; total_clients = 5; bytes_transfered = 0 }

abbrev state : ConfigState
state = record {
  conf = conf;
  stats = stats;
  server = record {
    info_read_buff = record { cells = replicate 2048 0; limit = 1024; read = 0; write = 0 };
    info_write_buff = record { cells = replicate 2048 0; limit = 1024; read = 0; write = 0 };
  };
  datagrams = [];
  sends = 0;
  parsers = 0;
  parser_inits = 0;
}

state-IsIdle : IsIdle state.server.info_write_buff
state-IsIdle = record {
  valid = omega (arith, length-replicate 2048 zero);
  read_zero = refl;
  write_zero = refl;
  room = omega arith;
}

abbrev set_token : Request
set_token = Rotation.set_token (codes "adminadmin") (codes "newnewnew1")

abbrev old_token : Request
old_token = record set_token { operation = codes "GET"; object_code = codes "INF"; argument = [] }

set_token-IsRequest : IsRequest set_token
unfolding is_alphanumeric is_letter is_printable
set_token-IsRequest = record {
  token_text = (refl, (refl, (refl, (refl, (refl, (refl, (refl, (refl, (refl, (refl, tt))))))))));
  token_fits = refl;
  operation_text = (refl, (refl, (refl, tt)));
  operation_fits = refl;
  object_code_text = (refl, (refl, (refl, tt)));
  object_code_fits = refl;
  argument_text =
      (refl, (refl, (refl, (refl, (refl, (refl, (refl, (refl, (refl, (refl, tt))))))))));
  argument_fits = omega arith;
}

old_token-IsRequest : IsRequest old_token
unfolding is_alphanumeric is_letter is_printable
old_token-IsRequest = record {
  token_text = (refl, (refl, (refl, (refl, (refl, (refl, (refl, (refl, (refl, (refl, tt))))))))));
  token_fits = refl;
  operation_text = (refl, (refl, (refl, tt)));
  operation_fits = refl;
  object_code_text = (refl, (refl, (refl, tt)));
  object_code_fits = refl;
  argument_text = tt;
  argument_fits = omega arith;
}

tokens_differ : old_token.token ≢ codes "newnewnew1"
tokens_differ h = omega (arith, ap first h)
  where
    first : Bytes → ℕ
    first [] = 0
    first (c ∷ cs) = c

setatt_rotates_example :
    (s1 s2 : ConfigState) × (config_parse_input udp (render set_token ++ 10 ∷ []) state
      ≡ some (tt, s1))
    × (s1.conf ≡ record conf { authorization_token = codes "newnewnew1" })
    × (config_parse_input udp (render old_token ++ 10 ∷ []) s1 ≡ some (tt, s2))
    × (s2.conf ≡ s1.conf)
    × (s2.datagrams ≡ s1.datagrams ++ Texts.err_invalid_auth_token ∷ [])
setatt_rotates_example =
    Rotation.setatt_rotates udp (codes "newnewnew1") [] [] old_token state udp-IsWorking (λ n. refl)
      state-IsIdle set_token-IsRequest refl old_token-IsRequest tokens_differ

-- A line that ends with CR LF is no request.
crlf_line-no_request :
    descend_token token_max nothing_read (line_of (codes "adminadmin GET INF" ++ crlf)) ≡ none
unfolding u_strlen is_alphanumeric is_letter is_printable is_space is_lf
crlf_line-no_request = refl

-- Two requests, the second with the token that the first has replaced.
abbrev two : List Received
two = datagram (render set_token ++ 10 ∷ []) ∷ datagram (render old_token ++ 10 ∷ []) ∷ []

handle_configuration_requests_refines_example :
    Serves (handle_configuration_requests udp two state) state tt (served two conf stats)
handle_configuration_requests_refines_example =
    handle_configuration_requests_refines udp udp-IsWorking (λ k. refl) two state
      (omega (arith, length-replicate 2048 zero)) (omega (arith, length-replicate 2048 zero))

abbrev behind : ConfigState
behind =
    (handle_configuration_requests_refines udp udp-IsWorking (λ k. refl) two state
      (omega (arith, length-replicate 2048 zero)) (omega (arith, length-replicate 2048 zero))).state

two-run : handle_configuration_requests udp two state ≡ some (tt, behind)
two-run =
    (handle_configuration_requests_refines udp udp-IsWorking (λ k. refl) two state
      (omega (arith, length-replicate 2048 zero)) (omega (arith, length-replicate 2048 zero))).run

conf-FitsArrays : FitsArrays conf
conf-FitsArrays = record {
  logs_fits = omega arith;
  maildir_fits = omega arith;
  token_fits = omega arith;
  script_fits = omega arith;
}

handle_configuration_requests-FitsArrays_example : FitsArrays behind.conf
handle_configuration_requests-FitsArrays_example =
    handle_configuration_requests-FitsArrays udp two state behind conf-FitsArrays two-run

abbrev set : Bytes
set = render set_token ++ 10 ∷ []

abbrev changed : ConfigState
changed =
    let o = request_outcome set_token conf stats in
    let a =
      config_parse_input-render udp udp-IsWorking set_token [] state set_token-IsRequest refl
        state-IsIdle in
    record (after state o.conf o.datagrams a.buffer a.calls) { parser_inits = 1 }

changed-run : config_parse_input udp set state ≡ some (tt, changed)
changed-run =
    (config_parse_input-render udp udp-IsWorking set_token [] state set_token-IsRequest refl
      state-IsIdle).run

config_parse_input_safe_example :
    (changed.conf ≡ conf) ⊎ (take token_max (line_of set) ≡ take token_max conf.authorization_token)
config_parse_input_safe_example = config_parse_input_safe udp set state changed changed-run
