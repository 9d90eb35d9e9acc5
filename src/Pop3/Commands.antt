-- ===== src/Pop3/Commands.antt =====
-- The table of commands, `get_command` and `parse_input` of src/parser/pop3_parserADT.c.
pub mod Dispatch
pub mod Input
pub mod Lines
pub mod Kept
pub mod Refusals
pub mod Retrieval
use pdc_pop3d.Prelude.{
  ℕ, ◌+◌, ◌-◌, Bool, true, false, Option, none, some, List, [], ◌∷◌, ◌==◌, if◌then◌else◌, take, ℤ,
  pos, negsuc,
}
use pdc_pop3d.CString.{Bytes, codes}
use pdc_pop3d.Text.{has_argument, can_have_argument, hasnt_argument, strncasecmp, u_strlen}
use pdc_pop3d.Parser.{ParserState, parser_error, Parser, parser_init, feed_all}
use pdc_pop3d.Pop3.Automaton.{Pop3ParserData, cmd_max, arg_max, pop3_parser_automaton, command_of}
use pdc_pop3d.Pop3.Reply
use pdc_pop3d.Pop3.State.{Shared, State, Env, M, ◌>>=◌, ◌>>◌, pure, get, modify_shared, send_data}
use pdc_pop3d.Pop3.Login.{user_action, pass_action}
use pdc_pop3d.Pop3.Actions.{
  stat_action, list_action, dele_action, noop_action, rset_action, capa_action, default_action,
}
use pdc_pop3d.Pop3.Retr.{retr_action}
use pdc_pop3d.Pop3.Quit.{quit_action}

-- `enum pop3_command`
pub data Pop3Command : Type 0 where
  user pass stat list retr dele noop rset quit capa error_command : Pop3Command

-- `commands[i].name`
unfoldable pub name : Pop3Command → Bytes
name user = codes "USER"
name pass = codes "PASS"
name stat = codes "STAT"
name list = codes "LIST"
name retr = codes "RETR"
name dele = codes "DELE"
name noop = codes "NOOP"
name rset = codes "RSET"
name quit = codes "QUIT"
name capa = codes "CAPA"
name error_command = codes "Error command"

-- `commands[i].accept_arguments`
unfoldable pub accept_arguments : Pop3Command → Bytes → Bool
accept_arguments user = has_argument
accept_arguments pass = has_argument
accept_arguments stat = hasnt_argument
accept_arguments list = can_have_argument
accept_arguments retr = has_argument
accept_arguments dele = has_argument
accept_arguments noop = hasnt_argument
accept_arguments rset = hasnt_argument
accept_arguments quit = hasnt_argument
accept_arguments capa = hasnt_argument
accept_arguments error_command = can_have_argument

-- The order of the loop of `get_command`.
abbrev pub table : List Pop3Command
table = user ∷ pass ∷ stat ∷ list ∷ retr ∷ dele ∷ noop ∷ rset ∷ quit ∷ capa ∷ []

abbrev pub is_zero : ℤ → Bool
is_zero (pos n) = n == 0
is_zero (negsuc n) = false

unfoldable pub find_command : Bytes → List Pop3Command → Pop3Command
find_command command [] = error_command
find_command command (c ∷ cs) =
    if is_zero (strncasecmp command (name c) 4) then c else find_command command cs

unfoldable pub get_command : Bytes → Pop3Command
unfolding find_command
get_command command = find_command command table

module _ {D : Type 0} (env : Env D) where
  -- `commands[i].action`
  unfoldable pub action : Pop3Command → Bytes → M D ℤ
  action user = user_action env
  action pass = pass_action env
  action stat = stat_action env
  action list = list_action env
  action retr = retr_action env
  action dele = dele_action env
  action noop = noop_action env
  action rset = rset_action env
  action quit = quit_action env
  action capa = capa_action env
  action error_command = default_action env

  -- What `parse_input` does with a command that it found; the result of the action is only logged.
  unfoldable pub execute : Pop3Command → Bytes → M D (Unit {0})
  execute error_command arg = send_data env Reply.err_unknown_command
  execute c arg =
      if accept_arguments c arg
      then (do _ ← action c arg; pure tt)
      else send_data env Reply.err_bad_argument

  -- What `parse_input` does behind the loop over the input. On PARSER_ERROR it returns before
  -- `parser_destroy`.
  unfoldable pub respond : Option (Bytes × Bytes) → M D (Unit {0})
  respond none = send_data env Reply.err_unknown_command
  respond (some (cmd, arg)) = do
    execute (get_command cmd) arg
    modify_shared (λ h. record h { parsers = h.parsers - 1 })

  -- With no memory for the parser the code goes on with a null pointer: `none`.
  unfoldable pub parse_input : Bytes → M D (Unit {0})
  parse_input input s =
      let (p_given, data_given) = env.calloc s.shared.parsers in
      elim (parser_init pop3_parser_automaton p_given data_given) [
        | none ↦ none
        | some p ↦
            respond (command_of (feed_all p (take (u_strlen input) input)))
              (record s { shared = record s.shared { parsers = s.shared.parsers + 1 } })
      ]
