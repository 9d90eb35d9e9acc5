-- ===== src/Pop3/Automaton/Data.antt =====
-- The two arrays of `pop3_parser_data` as the words that they hold.
use pdc_pop3d.Prelude.{
  ℕ, ◌+◌, ◌%◌, ◌^◌, ◌≤◌, ◌<◌, ◌≡◌, refl, true, [], ◌∷◌, ◌++◌, arith, some, lt→ltb, length,
  length-append,
}
use pdc_pop3d.CString.{Bytes, IsText}
pub use pdc_pop3d.CString.Padded.{
  padded, set-padded, copied, IsText-of_letters, IsText-of_printables,
}
use pdc_pop3d.Parser.{Parser, parser_reading, parser_init}
use pdc_pop3d.Pop3.Automaton.{
  Pop3ParserData, cmd_max, arg_max, cmd_action, arg_action, pop3_parser_automaton, pop3_parser_init,
  get_pop3_cmd, get_pop3_arg,
}

-- The data that hold the command `w` and the argument `a`.
abbrev pub holding : Bytes → Bytes → Pop3ParserData
holding w a = record {
  cmd = padded (cmd_max + 1) w;
  cmd_length = length w;
  arg = padded (arg_max + 1) a;
  arg_length = length a;
}

-- The parser in automaton state `s` with those data, and no error so far.
abbrev pub reading : ℕ → Bytes → Bytes → Parser Pop3ParserData
reading s w a = record {
  def = pop3_parser_automaton;
  state = s;
  parser_state = parser_reading;
  content = holding w a;
}

pub parser_init-pop3 : parser_init pop3_parser_automaton true true ≡ some (reading 0 [] [])
unfolding parser_init pop3_parser_init
parser_init-pop3 = refl

pub cmd_action_lem :
    (w a : Bytes) (c : ℕ)
    → length w < cmd_max
    → cmd_action (holding w a) c ≡ (parser_reading, holding (w ++ c ∷ []) a)
unfolding cmd_action
cmd_action_lem w a c h =
    let e : (length w + 1) % 2 ^ 8 ≡ length (w ++ c ∷ []) =
      omega (arith, length-append w (c ∷ [])) in
    rw (lt→ltb (length w) cmd_max h, e, set-padded (cmd_max + 1) w c (omega arith))

pub arg_action_lem :
    (w a : Bytes) (c : ℕ)
    → length a < arg_max
    → arg_action (holding w a) c ≡ (parser_reading, holding w (a ++ c ∷ []))
unfolding arg_action
arg_action_lem w a c h =
    let e : (length a + 1) % 2 ^ 8 ≡ length (a ++ c ∷ []) =
      omega (arith, length-append a (c ∷ [])) in
    rw (lt→ltb (length a) arg_max h, e, set-padded (arg_max + 1) a c (omega arith))

pub get_pop3_cmd_lem :
    (s : ℕ) (w a : Bytes)
    → IsText w
    → length w ≤ cmd_max
    → get_pop3_cmd (reading s w a) (cmd_max + 1) ≡ w
unfolding get_pop3_cmd
get_pop3_cmd_lem s w a t h = copied cmd_max w t h

pub get_pop3_arg_lem :
    (s : ℕ) (w a : Bytes)
    → IsText a
    → length a ≤ arg_max
    → get_pop3_arg (reading s w a) (arg_max + 1) ≡ a
unfolding get_pop3_arg
get_pop3_arg_lem s w a t h = copied arg_max a t h
