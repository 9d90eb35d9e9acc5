-- ===== src/Pop3/Automaton.antt =====
-- The automaton of a command line: src/parser/parser_automaton/pop3_parser_automaton.c and .h.
pub mod Data
pub mod Descent
pub mod Grammar
use pdc_pop3d.Prelude.{
  ℕ, ◌+◌, ◌-◌, ◌%◌, ◌^◌, Bool, Option, none, some, List, [], ◌∷◌, ◌++◌, ltb, if◌then◌else◌, set,
  take, replicate,
}
use pdc_pop3d.Chars.{is_letter, is_printable, is_space, is_cr, is_lf, is_any}
use pdc_pop3d.CString.{Bytes, cstr, strncpy}
use pdc_pop3d.Parser.{
  ParserState, parser_reading, parser_finished, parser_error, Transition, Automaton, Parser,
}

abbrev pub cmd_max : ℕ
cmd_max = 4

abbrev pub arg_max : ℕ
arg_max = 248

-- `struct pop3_parser_data`: two arrays of `CMD_LENGTH + 1` and `ARG_MAX_LENGTH + 1` characters,
-- and two `uint8_t` lengths.
pub record Pop3ParserData : Type 0 where
  pub cmd : Bytes
  pub cmd_length : ℕ
  pub arg : Bytes
  pub arg_length : ℕ

unfoldable pub cmd_action : Pop3ParserData → ℕ → ParserState × Pop3ParserData
cmd_action d c =
    if ltb d.cmd_length cmd_max
    then (
      parser_reading,
      record d { cmd = set d.cmd d.cmd_length c; cmd_length = (d.cmd_length + 1) % 2 ^ 8 },
    )
    else (parser_error, d)

unfoldable pub arg_action : Pop3ParserData → ℕ → ParserState × Pop3ParserData
arg_action d c =
    if ltb d.arg_length arg_max
    then (
      parser_reading,
      record d { arg = set d.arg d.arg_length c; arg_length = (d.arg_length + 1) % 2 ^ 8 },
    )
    else (parser_error, d)

unfoldable pub err_action : Pop3ParserData → ℕ → ParserState × Pop3ParserData
err_action d c = (parser_error, d)

unfoldable pub end_action : Pop3ParserData → ℕ → ParserState × Pop3ParserData
end_action d c = (parser_finished, d)

unfoldable pub def_action : Pop3ParserData → ℕ → ParserState × Pop3ParserData
def_action d c = (parser_reading, d)

-- `enum pop3_states`: INIT and CMD_1 to CMD_4 are 0 to 4.
abbrev argst : ℕ
argst = 5

abbrev mayend : ℕ
mayend = 6

abbrev endst : ℕ
endst = 7

abbrev errst : ℕ
errst = 8

abbrev pub Row : Type 0
Row = List (Transition Pop3ParserData)

-- ST_INIT and ST_CMD_1 to ST_CMD_3, which differ in their first destination only.
abbrev pub st_letter : ℕ → Row
st_letter next =
    record { when = is_letter; dest = next; action = cmd_action }
    ∷ record { when = is_cr; dest = mayend; action = err_action }
    ∷ record { when = is_any; dest = errst; action = err_action }
    ∷ []

abbrev pub st_cmd_4 : Row
st_cmd_4 =
    record { when = is_space; dest = argst; action = def_action }
    ∷ record { when = is_cr; dest = mayend; action = def_action }
    ∷ record { when = is_any; dest = errst; action = err_action }
    ∷ []

abbrev pub st_arg : Row
st_arg =
    record { when = is_printable; dest = argst; action = arg_action }
    ∷ record { when = is_cr; dest = mayend; action = def_action }
    ∷ record { when = is_any; dest = errst; action = err_action }
    ∷ []

abbrev pub st_mayend : Row
st_mayend =
    record { when = is_lf; dest = endst; action = end_action }
    ∷ record { when = is_cr; dest = mayend; action = err_action }
    ∷ record { when = is_any; dest = errst; action = err_action }
    ∷ []

abbrev pub st_end : Row
st_end = record { when = is_any; dest = endst; action = def_action } ∷ []

abbrev pub st_err : Row
st_err =
    record { when = is_cr; dest = mayend; action = err_action }
    ∷ record { when = is_any; dest = errst; action = err_action }
    ∷ []

abbrev pub states : List Row
states =
    st_letter 1
    ∷ st_letter 2
    ∷ st_letter 3
    ∷ st_letter 4
    ∷ st_cmd_4
    ∷ st_arg
    ∷ st_mayend
    ∷ st_end
    ∷ st_err
    ∷ []

-- `calloc` gives zeros.
unfoldable pub pop3_parser_init : Bool → Option Pop3ParserData
pop3_parser_init allocated =
    if allocated
    then some (record {
      cmd = replicate (cmd_max + 1) 0;
      cmd_length = 0;
      arg = replicate (arg_max + 1) 0;
      arg_length = 0;
    })
    else none

unfoldable pub pop3_parser_copy : Pop3ParserData → Bool → Option Pop3ParserData
pop3_parser_copy d allocated =
    if allocated
    then some (record {
      cmd = strncpy d.cmd d.cmd_length ++ replicate (cmd_max + 1 - d.cmd_length) 0;
      cmd_length = d.cmd_length;
      arg = strncpy d.arg d.arg_length ++ replicate (arg_max + 1 - d.arg_length) 0;
      arg_length = d.arg_length;
    })
    else none

unfoldable pub pop3_parser_reset : Pop3ParserData → Pop3ParserData
pop3_parser_reset d = record {
  cmd = replicate (cmd_max + 1) 0;
  cmd_length = 0;
  arg = replicate (arg_max + 1) 0;
  arg_length = 0;
}

abbrev pub pop3_parser_automaton : Automaton Pop3ParserData
pop3_parser_automaton = record {
  states = states;
  start_state = 0;
  init = pop3_parser_init;
  copy = pop3_parser_copy;
  reset = pop3_parser_reset;
}

-- The string that `get_pop3_cmd` leaves in a buffer of `max` characters.
unfoldable pub get_pop3_cmd : Parser Pop3ParserData → ℕ → Bytes
get_pop3_cmd p max = cstr (strncpy p.content.cmd (max - 1) ++ 0 ∷ [])

-- The string that `get_pop3_arg` leaves in a buffer of `max` characters.
unfoldable pub get_pop3_arg : Parser Pop3ParserData → ℕ → Bytes
get_pop3_arg p max = cstr (strncpy p.content.arg (max - 1) ++ 0 ∷ [])

-- What `parse_input` reads off a line: nothing when the automaton answers PARSER_ERROR, else the
-- command and the argument that its getters copy out.
unfoldable pub command_of : ParserState × Parser Pop3ParserData → Option (Bytes × Bytes)
command_of (parser_error, p) = none
command_of (_, p) = some (get_pop3_cmd p (cmd_max + 1), get_pop3_arg p (arg_max + 1))
