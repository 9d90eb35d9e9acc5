-- ===== src/Config/Automaton.antt =====
-- The automaton of a configuration request:
-- src/parser/parser_automaton/config_parser_automaton.c and .h.
pub mod Data
pub mod Feeds
pub mod Descent
pub mod RoundTrip
use pdc_pop3d.Prelude.{
  ℕ, ◌+◌, ◌-◌, ◌%◌, ◌^◌, Bool, Option, none, some, List, [], ◌∷◌, ◌++◌, ltb, ◌==◌, if◌then◌else◌,
  set, take, replicate, suc,
}
use pdc_pop3d.Chars.{is_letter, is_alphanumeric, is_printable, is_space, is_lf, is_any}
use pdc_pop3d.CString.{Bytes, cstr, strncpy}
use pdc_pop3d.Parser.{
  ParserState, parser_reading, parser_finished, parser_error, Transition, Automaton, Parser,
}

abbrev pub token_max : ℕ
token_max = 10

abbrev pub operation_max : ℕ
operation_max = 3

abbrev pub object_code_max : ℕ
object_code_max = 3

-- `sizeof(d->argument) - 1`
abbrev pub argument_max : ℕ
argument_max = 233

-- `config_parser_data`; the lengths are of type `size_t`.
pub record ConfigParserData : Type 0 where
  pub token : Bytes
  pub operation : Bytes
  pub object_code : Bytes
  pub argument : Bytes
  pub token_length : ℕ
  pub operation_length : ℕ
  pub object_code_length : ℕ
  pub argument_length : ℕ

-- `d->array[d->length++] = c`, as far as the length goes.
abbrev pub counted : ℕ → ℕ
counted n = (n + 1) % 2 ^ 64

unfoldable pub token_action : ConfigParserData → ℕ → ParserState × ConfigParserData
token_action d c =
    if ltb d.token_length token_max
    then (
      parser_reading,
      record d { token = set d.token d.token_length c; token_length = counted d.token_length },
    )
    else (parser_error, d)

unfoldable pub operation_action : ConfigParserData → ℕ → ParserState × ConfigParserData
operation_action d c =
    if ltb d.operation_length operation_max
    then (
      parser_reading,
      record d {
        operation = set d.operation d.operation_length c;
        operation_length = counted d.operation_length;
      },
    )
    else (parser_error, d)

unfoldable pub object_code_action : ConfigParserData → ℕ → ParserState × ConfigParserData
object_code_action d c =
    if ltb d.object_code_length object_code_max
    then (
      parser_reading,
      record d {
        object_code = set d.object_code d.object_code_length c;
        object_code_length = counted d.object_code_length;
      },
    )
    else (parser_error, d)

unfoldable pub argument_action : ConfigParserData → ℕ → ParserState × ConfigParserData
argument_action d c =
    if ltb d.argument_length argument_max
    then (
      parser_reading,
      record d {
        argument = set d.argument d.argument_length c;
        argument_length = counted d.argument_length;
      },
    )
    else (parser_error, d)

unfoldable pub end_action : ConfigParserData → ℕ → ParserState × ConfigParserData
end_action d c = (parser_finished, d)

unfoldable pub def_action : ConfigParserData → ℕ → ParserState × ConfigParserData
def_action d c = (parser_reading, d)

unfoldable pub err_action : ConfigParserData → ℕ → ParserState × ConfigParserData
err_action d c = (parser_error, d)

-- `enum config_states`: INIT and TOKEN_1 to TOKEN_10 are 0 to 10, OPERATION_0 to OPERATION_3 are 11
-- to 14, OBJECT_CODE_0 to OBJECT_CODE_3 are 15 to 18.
abbrev pub argument_state : ℕ
argument_state = 19

abbrev pub mayend : ℕ
mayend = 20

abbrev pub endst : ℕ
endst = 21

abbrev pub errst : ℕ
errst = 22

abbrev pub Row : Type 0
Row = List (Transition ConfigParserData)

-- The rows that read a character of some class, or a line feed; all but ST_MAYEND, ST_END and
-- ST_ERR are of this form.
abbrev pub row : (ℕ → Bool) → ℕ → (ConfigParserData → ℕ → ParserState × ConfigParserData) → Row
row class next act =
    record { when = class; dest = next; action = act }
    ∷ record { when = is_lf; dest = mayend; action = end_action }
    ∷ record { when = is_any; dest = errst; action = err_action }
    ∷ []

-- ST_INIT and ST_TOKEN_1 to ST_TOKEN_9.
abbrev pub st_token : ℕ → Row
st_token next = row is_alphanumeric next token_action

-- ST_OPERATION_0 to ST_OPERATION_2.
abbrev pub st_operation : ℕ → Row
st_operation next = row is_letter next operation_action

-- ST_OBJECT_CODE_0 to ST_OBJECT_CODE_2.
abbrev pub st_object_code : ℕ → Row
st_object_code next = row is_letter next object_code_action

-- ST_TOKEN_10, ST_OPERATION_3 and ST_OBJECT_CODE_3.
abbrev pub st_space : ℕ → Row
st_space next = row is_space next def_action

abbrev pub st_argument : Row
st_argument = row is_printable argument_state argument_action

abbrev pub st_mayend : Row
st_mayend =
    record { when = is_lf; dest = endst; action = err_action }
    ∷ record { when = is_any; dest = errst; action = end_action }
    ∷ []

abbrev pub st_end : Row
st_end = record { when = is_any; dest = endst; action = def_action } ∷ []

abbrev pub st_err : Row
st_err =
    record { when = is_lf; dest = mayend; action = end_action }
    ∷ record { when = is_any; dest = errst; action = err_action }
    ∷ []

abbrev pub config_states : List Row
config_states =
    st_token 1
    ∷ st_token 2
    ∷ st_token 3
    ∷ st_token 4
    ∷ st_token 5
    ∷ st_token 6
    ∷ st_token 7
    ∷ st_token 8
    ∷ st_token 9
    ∷ st_token 10
    ∷ st_space 11
    ∷ st_operation 12
    ∷ st_operation 13
    ∷ st_operation 14
    ∷ st_space 15
    ∷ st_object_code 16
    ∷ st_object_code 17
    ∷ st_object_code 18
    ∷ st_space 19
    ∷ st_argument
    ∷ st_mayend
    ∷ st_end
    ∷ st_err
    ∷ []

abbrev pub no_data : ConfigParserData
no_data = record {
  token = replicate (token_max + 1) 0;
  operation = replicate (operation_max + 1) 0;
  object_code = replicate (object_code_max + 1) 0;
  argument = replicate (argument_max + 1) 0;
  token_length = 0;
  operation_length = 0;
  object_code_length = 0;
  argument_length = 0;
}

-- `calloc` gives zeros.
unfoldable pub config_parser_init : Bool → Option ConfigParserData
config_parser_init allocated = if allocated then some no_data else none

-- `strncpy(copy, array, n)` into an array of `size` zeros.
abbrev pub copied_array : Bytes → ℕ → ℕ → Bytes
copied_array array n size = strncpy array n ++ replicate (size - n) 0

unfoldable pub config_parser_copy : ConfigParserData → Bool → Option ConfigParserData
config_parser_copy d allocated =
    if allocated
    then some (record d {
      token = copied_array d.token d.token_length (token_max + 1);
      operation = copied_array d.operation d.operation_length (operation_max + 1);
      object_code = copied_array d.object_code d.object_code_length (object_code_max + 1);
      argument = copied_array d.argument d.argument_length (argument_max + 1);
    })
    else none

unfoldable pub config_parser_reset : ConfigParserData → ConfigParserData
config_parser_reset d = no_data

abbrev pub config_parser_automaton : Automaton ConfigParserData
config_parser_automaton = record {
  states = config_states;
  start_state = 0;
  init = config_parser_init;
  copy = config_parser_copy;
  reset = config_parser_reset;
}

-- The strings that the getters leave in a buffer of `max` characters.
unfoldable pub get_config_token : Parser ConfigParserData → ℕ → Bytes
get_config_token p max = cstr (strncpy p.content.token (max - 1) ++ 0 ∷ [])

unfoldable pub get_config_operation : Parser ConfigParserData → ℕ → Bytes
get_config_operation p max = cstr (strncpy p.content.operation (max - 1) ++ 0 ∷ [])

unfoldable pub get_config_object_code : Parser ConfigParserData → ℕ → Bytes
get_config_object_code p max = cstr (strncpy p.content.object_code (max - 1) ++ 0 ∷ [])

-- `strcspn(s, "\n")`
abbrev pub strcspn_lf : Bytes → ℕ
strcspn_lf [] = 0
strcspn_lf (c ∷ s) =
    let rest = strcspn_lf s in if c == 0 then 0 else if c == 10 then 0 else suc rest

unfoldable pub get_config_argument : Parser ConfigParserData → ℕ → Bytes
get_config_argument p max =
    cstr (strncpy p.content.argument (strcspn_lf p.content.argument) ++ 0 ∷ [])

-- What the getters copy out of the parser.
pub record Request : Type 0 where
  pub token : Bytes
  pub operation : Bytes
  pub object_code : Bytes
  pub argument : Bytes

-- What `config_parse_input` reads off its input: nothing when the automaton answers PARSER_ERROR.
unfoldable pub request_of : ParserState × Parser ConfigParserData → Option Request
request_of (parser_error, p) = none
request_of (_, p) = some (record {
  token = get_config_token p (token_max + 1);
  operation = get_config_operation p (operation_max + 1);
  object_code = get_config_object_code p (object_code_max + 1);
  argument = get_config_argument p (argument_max + 1);
})
