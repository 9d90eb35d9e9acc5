-- ===== src/Pop3/Commands/Kept.antt =====
-- The array of mails and the read buffer of a connection under `parse_input` of
-- src/parser/pop3_parserADT.c.
use pdc_pop3d.Prelude.{refl, Option, none, some, if◌then◌else◌, inl, inr, Option-cases}
use pdc_pop3d.CString.{Bytes}
use pdc_pop3d.Step.Post.{none-Post, same-Post}
use pdc_pop3d.Step.Keeps.{Keeps, bind-Keeps, pure-Keeps, if-Keeps}
use pdc_pop3d.Buffer.{Buffer}
use pdc_pop3d.Parser.{parser_init, feed_all}
use pdc_pop3d.Pop3.Automaton.{pop3_parser_automaton, command_of}
use pdc_pop3d.Pop3.Reply
use pdc_pop3d.Pop3.State.{Env, ◌>>=◌, pure, send_data}
use pdc_pop3d.Pop3.State.Kept.{Sound, send_data-Keeps, modify_shared-Keeps}
use pdc_pop3d.Pop3.Login.Kept.{user_action-Keeps, pass_action-Keeps}
use pdc_pop3d.Pop3.Actions.Kept.{
  stat_action-Keeps, list_action-Keeps, dele_action-Keeps, noop_action-Keeps, rset_action-Keeps,
  capa_action-Keeps, default_action-Keeps,
}
use pdc_pop3d.Pop3.Retr.Kept.{retr_action-Keeps}
use pdc_pop3d.Pop3.Quit.Kept.{quit_action-Keeps}
use pdc_pop3d.Pop3.Commands.{
  Pop3Command, user, pass, stat, list, retr, dele, noop, rset, quit, capa, error_command,
  accept_arguments, action, get_command, execute, respond, parse_input,
}
use pdc_pop3d.Pop3.Commands.Input.{line_of, with_parser}

module _ {D : Type 0} (env : Env D) (b : Buffer) where
  action-Keeps : (c : Pop3Command) (arg : Bytes) → Keeps (Sound env b) (action env c arg)
  unfolding action
  action-Keeps user arg = user_action-Keeps env b arg
  action-Keeps pass arg = pass_action-Keeps env b arg
  action-Keeps stat arg = stat_action-Keeps env b arg
  action-Keeps list arg = list_action-Keeps env b arg
  action-Keeps retr arg = retr_action-Keeps env b arg
  action-Keeps dele arg = dele_action-Keeps env b arg
  action-Keeps noop arg = noop_action-Keeps env b arg
  action-Keeps rset arg = rset_action-Keeps env b arg
  action-Keeps quit arg = quit_action-Keeps env b arg
  action-Keeps capa arg = capa_action-Keeps env b arg
  action-Keeps error_command arg = default_action-Keeps env b arg

  accepted-Keeps :
      (c : Pop3Command) (arg : Bytes)
      → Keeps (Sound env b) (
          if accept_arguments c arg
          then (action env c arg >>= λ _. pure tt)
          else send_data env Reply.err_bad_argument)
  accepted-Keeps c arg =
      if-Keeps (Sound env b) (accept_arguments c arg) _ _
        (bind-Keeps (Sound env b) (action env c arg) _ (action-Keeps c arg)
          (λ _. pure-Keeps (Sound env b) tt))
        (send_data-Keeps env b Reply.err_bad_argument)

  execute-Keeps : (c : Pop3Command) (arg : Bytes) → Keeps (Sound env b) (execute env c arg)
  unfolding execute
  execute-Keeps error_command arg = send_data-Keeps env b Reply.err_unknown_command
  execute-Keeps user arg = accepted-Keeps user arg
  execute-Keeps pass arg = accepted-Keeps pass arg
  execute-Keeps stat arg = accepted-Keeps stat arg
  execute-Keeps list arg = accepted-Keeps list arg
  execute-Keeps retr arg = accepted-Keeps retr arg
  execute-Keeps dele arg = accepted-Keeps dele arg
  execute-Keeps noop arg = accepted-Keeps noop arg
  execute-Keeps rset arg = accepted-Keeps rset arg
  execute-Keeps quit arg = accepted-Keeps quit arg
  execute-Keeps capa arg = accepted-Keeps capa arg

  respond-Keeps : (o : Option (Bytes × Bytes)) → Keeps (Sound env b) (respond env o)
  unfolding respond
  respond-Keeps none = send_data-Keeps env b Reply.err_unknown_command
  respond-Keeps (some (cmd, arg)) =
      bind-Keeps (Sound env b) (execute env (get_command cmd) arg) _
        (execute-Keeps (get_command cmd) arg) (λ _. modify_shared-Keeps env b _)

  pub parse_input-Keeps : (input : Bytes) → Keeps (Sound env b) (parse_input env input)
  unfolding parse_input
  parse_input-Keeps input = record {
    kept = λ s i.
        let c = env.calloc s.shared.parsers in
        elim (Option-cases (parser_init pop3_parser_automaton c.0 c.1)) [
          | inl e ↦
              none-Post (λ _. Sound env b) (parse_input env input) s (rw (e, parse_input) refl)
          | inr (p, e) ↦
              same-Post (λ _. Sound env b) (parse_input env input)
                (respond env (command_of (feed_all p (line_of input)))) s (with_parser s)
                (rw (e, parse_input) refl)
                ((respond-Keeps (command_of (feed_all p (line_of input)))).kept (with_parser s) i)
        ];
  }
